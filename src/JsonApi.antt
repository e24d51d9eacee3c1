-- ===== src/JsonApi.antt =====
-- The functions on files (src/json_api.rs).
pub mod Laws
pub mod Total
use c2pa_c.Common.{Bytes, Option, none, some, Result, ok, err, ◌>>=◌, pure, is_some, if◌then◌else◌}
use c2pa_c.Error.{Error}
use c2pa_c.Error.Convert.{from_c2pa_error}
use c2pa_c.Sdk.{Sdk, SignerInfo}
use c2pa_c.SignerInfo.{map_err, Fallible, and_then, signer_of}

module _ (sdk : Sdk) where
  open sdk use {Env, Manifest, Ingredient}

  -- `sdk_version`
  unfoldable pub sdk_version : Bytes
  sdk_version = sdk.version

  -- The JSON of the manifest store. With a folder the resources are written there, after the text
  -- is made.
  unfoldable pub read_file : Bytes → Option Bytes → Fallible Env Bytes
  unfolding map_err
  read_file path data_dir = do
    opened ← sdk.reader_from_file path
    elim (map_err opened) [
      | err e ↦ pure (err e)
      | ok reader ↦ (do
        json ← sdk.reader_to_string reader
        elim data_dir [
          | none ↦ pure (ok json)
          | some dir ↦ (do
            written ← sdk.reader_to_folder reader dir
            elim (map_err written) [ err e ↦ pure (err e) | ok _ ↦ pure (ok json) ])
        ])
    ]

  unfoldable pub read_ingredient_file : Bytes → Bytes → Fallible Env Bytes
  unfolding map_err
  read_ingredient_file path data_dir = do
    result ← sdk.ingredient_from_file_with_folder path data_dir
    elim (map_err result) [
      | err e ↦ pure (err e)
      | ok ingredient ↦ (do json ← sdk.ingredient_to_string ingredient; pure (ok json))
    ]

  -- The result of an operation on `&mut Manifest`, and the manifest that goes on.
  keep_manifest : Result (Unit {0}) Error → Manifest → Fallible Env Manifest
  keep_manifest (ok _) manifest = pure (ok manifest)
  keep_manifest (err e) manifest = pure (err e)

  -- The base path, if there is a folder.
  unfoldable pub set_base_path : Manifest → Option Bytes → Fallible Env Manifest
  unfolding map_err keep_manifest
  set_base_path manifest none = pure (ok manifest)
  set_base_path manifest (some path) = do
    (result, manifest') ← sdk.with_base_path manifest path
    keep_manifest (map_err result) manifest'

  -- The source as the parent, if it has a manifest store.
  unfoldable pub adopt_source : Manifest → Ingredient → Fallible Env Manifest
  unfolding map_err keep_manifest
  adopt_source manifest ingredient =
      if is_some (sdk.manifest_data ingredient)
      then (do
        (result, manifest') ← sdk.set_parent manifest ingredient
        keep_manifest (map_err result) manifest')
      else pure (ok manifest)

  -- No source is read where the manifest names a parent.
  unfoldable pub choose_parent : Manifest → Bytes → Fallible Env Manifest
  unfolding map_err adopt_source
  choose_parent manifest source = if is_some (sdk.parent manifest) then pure (ok manifest) else (do
    result ← sdk.ingredient_from_file source
    elim (map_err result) [
      | err e ↦ pure (err e)
      | ok ingredient ↦ adopt_source manifest ingredient
    ])

  -- The binary manifest of the signed file.
  unfoldable pub sign_file :
      (source dest manifest_json : Bytes) → SignerInfo → Option Bytes → Fallible Env Bytes
  unfolding map_err set_base_path choose_parent signer_of
  sign_file source dest manifest_json signer_info data_dir = do
    parsed ← sdk.manifest_from_json manifest_json
    and_then (pure (map_err parsed)) λ manifest.
        and_then (set_base_path manifest data_dir) λ manifest.
          and_then (choose_parent manifest source) λ manifest.
            and_then (signer_of sdk signer_info)
              λ signer. (do result ← sdk.embed manifest source dest signer; pure (map_err result))
