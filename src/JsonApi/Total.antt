-- ===== src/JsonApi/Total.antt =====
-- Total runs of the functions on files (src/json_api.rs and src/signer_info.rs).
use c2pa_c.Common.{
  Bytes, Bool, true, false, is_some, if◌then◌else◌, Option, none, some, Result, ok, err, M, ◌≡◌,
  refl, ◌>>=◌, pure,
}
use c2pa_c.Error.{Error}
use c2pa_c.Error.Convert.{C2paError}
use c2pa_c.Error.Last.{Thread}
use c2pa_c.Sdk.{Sdk, SignerInfo, Call}
use c2pa_c.SignerInfo.{map_err, Fallible, and_then, alg_of, signer_of}
use c2pa_c.JsonApi.{
  read_file, read_ingredient_file, keep_manifest, set_base_path, adopt_source, choose_parent,
  sign_file,
}
use c2pa_c.JsonApi.Laws.{passed, passed-ok}
use c2pa_c.Sdk.Calm.{Answers, Calm}

Answers-bind :
    {W A B : Type 0} (m : M W A) (f : A → M W B)
    → Answers m
    → ((a : A) → Answers (f a))
    → Answers (m >>= f)
Answers-bind m f hm hf t =
    let (a, u, e) = hm t in let (b, v, e') = hf a u in (b, v, rw (e, ◌>>=◌) e')

Answers-pure : {W A : Type 0} (a : A) → Answers {W = W} (pure a)
Answers-pure a t = (a, t, refl)

module _ {E A B : Type 0} where
  -- `?`: what follows may use that the action succeeded.
  Answers-and_then :
      (m : Fallible E A) (f : A → Fallible E B)
      → Answers m
      → ((a : A) (t t' : Thread E) → m t ≡ some (ok a, t') → Answers (f a))
      → Answers (and_then m f)
  Answers-and_then m f hm hf t = let (r, u, e) = hm t in by_result r u e
    where
      by_result :
          (r : Result A Error) (u : Thread E)
          → m t ≡ some (r, u)
          → (b : Result B Error) × (v : Thread E) × (and_then m f t ≡ some (b, v))
      by_result (ok a) u e = let (b, v, e') = hf a t u e u in (b, v, rw (e, ◌>>=◌) e')
      by_result (err x) u e = (err x, u, rw (e, ◌>>=◌))

  -- The same on an answer of the SDK.
  Answers-asked :
      (m : Call E A) (f : A → Fallible E B)
      → Answers m
      → ((a : A) → Answers (f a))
      → Answers (m >>= λ r. and_then (pure (map_err r)) f)
  unfolding map_err
  Answers-asked m f hm hf = Answers-bind m _ hm by_result
    where
      by_result : (r : Result A C2paError) → Answers (and_then (pure (map_err r)) f)
      by_result (ok a) = hf a
      by_result (err x) = Answers-pure _

module _ (sdk : Sdk) (good : sdk.Signer → Type 0) (calm : Calm sdk good) where
  written-Answers :
      (reader : sdk.Reader) (json : Bytes) (dir : Option Bytes)
      → Answers {W = Thread sdk.Env} (elim dir as (λ _. Fallible sdk.Env Bytes) [
        | none ↦ pure (ok json)
        | some dir ↦
            (sdk.reader_to_folder reader dir >>= λ r.
            and_then (pure (map_err r)) λ _. pure (ok json))
      ])
  written-Answers reader json none = Answers-pure _
  written-Answers reader json (some dir) =
      Answers-asked (sdk.reader_to_folder reader dir) _ (calm.reader_to_folder reader dir)
        λ _. Answers-pure _

  pub read_file-Answers : (path : Bytes) (dir : Option Bytes) → Answers (read_file sdk path dir)
  unfolding read_file
  read_file-Answers path dir =
      Answers-asked (sdk.reader_from_file path) _ (calm.reader_from_file path) λ reader.
        Answers-bind (sdk.reader_to_string reader) _ (calm.reader_to_string reader)
          λ json. written-Answers reader json dir

  pub read_ingredient_file-Answers :
      (path dir : Bytes) → Answers (read_ingredient_file sdk path dir)
  unfolding read_ingredient_file
  read_ingredient_file-Answers path dir =
      Answers-asked (sdk.ingredient_from_file_with_folder path dir) _
        (calm.ingredient_from_file_with_folder path dir)
        λ ingredient.
          Answers-bind (sdk.ingredient_to_string ingredient) _
            (calm.ingredient_to_string ingredient) λ json. Answers-pure _

  keep_manifest-Answers :
      (r : Result (Unit {0}) Error) (m : sdk.Manifest) → Answers (keep_manifest sdk r m)
  unfolding keep_manifest
  keep_manifest-Answers (ok _) m = Answers-pure _
  keep_manifest-Answers (err e) m = Answers-pure _

  set_base_path-Answers :
      (m : sdk.Manifest) (dir : Option Bytes) → Answers (set_base_path sdk m dir)
  unfolding set_base_path
  set_base_path-Answers m none = Answers-pure _
  set_base_path-Answers m (some path) =
      Answers-bind (sdk.with_base_path m path) _ (calm.with_base_path m path)
        λ r. keep_manifest-Answers (map_err r.0) r.1

  adopt_source-Answers : (m : sdk.Manifest) (i : sdk.Ingredient) → Answers (adopt_source sdk m i)
  unfolding adopt_source
  adopt_source-Answers m i = by_data (is_some (sdk.manifest_data i))
    where
      by_data :
          (b : Bool)
          → Answers (
              if b
              then (sdk.set_parent m i >>= λ y. keep_manifest sdk (map_err y.0) y.1)
              else pure (ok m))
      by_data true =
          Answers-bind (sdk.set_parent m i) _ (calm.set_parent m i)
            λ r. keep_manifest-Answers (map_err r.0) r.1
      by_data false = Answers-pure _

  choose_parent-Answers : (m : sdk.Manifest) (source : Bytes) → Answers (choose_parent sdk m source)
  unfolding choose_parent
  choose_parent-Answers m source = by_parent (is_some (sdk.parent m))
    where
      by_parent :
          (b : Bool)
          → Answers (
              if b
              then pure (ok m)
              else (sdk.ingredient_from_file source >>= λ r.
                  and_then (pure (map_err r)) (adopt_source sdk m)))
      by_parent true = Answers-pure _
      by_parent false =
          Answers-asked (sdk.ingredient_from_file source) _ (calm.ingredient_from_file source)
            (adopt_source-Answers m)

  signer_of-Answers : (info : SignerInfo) → Answers (signer_of sdk info)
  unfolding signer_of
  signer_of-Answers info = by_alg (alg_of sdk info)
    where
      by_alg :
          (r : Result sdk.SigningAlg Error)
          → Answers {W = Thread sdk.Env} (elim r as (λ _. Fallible sdk.Env sdk.Signer) [
            | err e ↦ pure (err e)
            | ok alg ↦
                (sdk.from_keys info.sign_cert info.private_key alg info.ta_url >>= λ r.
                pure (map_err r))
          ])
      by_alg (err e) = Answers-pure _
      by_alg (ok alg) =
          Answers-bind (sdk.from_keys info.sign_cert info.private_key alg info.ta_url) _
            (calm.from_keys info.sign_cert info.private_key alg info.ta_url) λ r. Answers-pure _

  -- A signer made from keys is good.
  signer_of-good :
      (info : SignerInfo) (k : sdk.Signer) (t t' : Thread sdk.Env)
      → signer_of sdk info t ≡ some (ok k, t')
      → good k
  unfolding signer_of passed
  signer_of-good info k t t' e = by_alg (alg_of sdk info) e
    where
      by_alg :
          (r : Result sdk.SigningAlg Error)
          → (elim r as (λ _. Fallible sdk.Env sdk.Signer) [
            | err e ↦ pure (err e)
            | ok alg ↦
                (sdk.from_keys info.sign_cert info.private_key alg info.ta_url >>= λ r.
                pure (map_err r))
          ])
              t
            ≡ some (ok k, t')
          → good k
      by_alg (err x) e = cc
      by_alg (ok alg) e =
          calm.from_keys_good info.sign_cert info.private_key alg info.ta_url k t t'
            (passed-ok (sdk.from_keys info.sign_cert info.private_key alg info.ta_url) t t' k e)

  -- With an SDK that answers, and whose signers made from keys are good, `sign_file` returns in any
  -- thread, with the bytes of a manifest or an error.
  pub sign_file-Answers :
      (source dest json : Bytes) (info : SignerInfo) (dir : Option Bytes) (t : Thread sdk.Env)
      → (result : Result Bytes Error) × (t' : Thread sdk.Env) × (sign_file sdk source dest json info
            dir t
          ≡ some (result, t'))
  unfolding sign_file
  sign_file-Answers source dest json info dir =
      Answers-asked (sdk.manifest_from_json json) _ (calm.manifest_from_json json) λ m.
        Answers-and_then (set_base_path sdk m dir) _ (set_base_path-Answers m dir) λ m t t' _.
          Answers-and_then (choose_parent sdk m source) _ (choose_parent-Answers m source)
            λ m t t' _.
              Answers-and_then (signer_of sdk info) _ (signer_of-Answers info) λ k t t' made.
                Answers-bind (sdk.embed m source dest k) _
                  (calm.embed m source dest k (signer_of-good info k t t' made)) λ r. Answers-pure _
