-- ===== src/CApi/Files.antt =====
-- Versions, the last error, settings, and the functions on files (src/c_api.rs, lines 158 to 363).
pub mod LastError
use c2pa_c.Common.{
  Bytes, codes, ◌++◌, Option, none, some, Result, ok, err, ℤ, pos, M, ◌>>=◌, ◌>>◌, pure,
  if◌then◌else◌, ◌==◌, [],
}
use c2pa_c.Error.{Error}
use c2pa_c.Error.Last.{set_last, last_message}
use c2pa_c.Stream.{Ptr}
use c2pa_c.Memory.{World, in_thread, from_raw, fail_with}
use c2pa_c.Sdk.{Sdk, SignerInfo, Block, as_c_string}
use c2pa_c.JsonApi.{read_file, read_ingredient_file, sign_file}
use c2pa_c.CApi.{CStr, Api, null, minus_one, with_cstr, from_cstr_option, sdk_error, to_c_string}

-- `unwrap_or_default`
abbrev pub or_empty : Option Bytes → Bytes
or_empty none = []
or_empty (some s) = s

-- `C2paSignerInfo`: four texts of C.
pub record CSignerInfo : Type 0 where
  pub alg : CStr
  pub sign_cert : CStr
  pub private_key : CStr
  pub ta_url : CStr

-- The name and version of the package, which cargo takes from Cargo.toml.
abbrev pub own_version : Bytes
own_version = codes "c2pa-c/0.5.1 "

module _ (sdk : Sdk) where
  -- The text that `format!` makes.
  abbrev pub version_text : Bytes
  version_text = own_version ++ sdk.name ++ codes "/" ++ sdk.version

  unfoldable pub c2pa_version : Api sdk Ptr
  unfolding to_c_string
  c2pa_version = to_c_string sdk version_text

  unfoldable pub c2pa_error : Api sdk Ptr
  unfolding to_c_string last_message
  c2pa_error = do message ← in_thread last_message; to_c_string sdk (or_empty message)

  unfoldable pub c2pa_load_settings : (settings format : CStr) → Api sdk ℤ
  unfolding with_cstr sdk_error
  c2pa_load_settings settings format =
      with_cstr sdk (codes "settings") settings minus_one λ settings.
        with_cstr sdk (codes "format") format minus_one λ format. do
          result ← in_thread (sdk.load_settings_from_str settings format)
          elim result [ ok _ ↦ pure (pos 0) | err e ↦ sdk_error sdk e minus_one ]

  -- The end of the functions on files: the text, or null with the last error set.
  unfoldable pub text_or_null : Result Bytes Error → Api sdk Ptr
  unfolding to_c_string fail_with
  text_or_null (ok text) = to_c_string sdk text
  text_or_null (err e) = fail_with e null

  unfoldable pub c2pa_read_file : (path data_dir : CStr) → Api sdk Ptr
  unfolding with_cstr text_or_null from_cstr_option
  c2pa_read_file path data_dir = with_cstr sdk (codes "path") path null λ path. do
    result ← in_thread (read_file sdk path (from_cstr_option data_dir))
    text_or_null result

  unfoldable pub c2pa_read_ingredient_file : (path data_dir : CStr) → Api sdk Ptr
  unfolding with_cstr text_or_null
  c2pa_read_ingredient_file path data_dir = with_cstr sdk (codes "path") path null λ path.
      with_cstr sdk (codes "data_dir") data_dir null λ data_dir. do
        result ← in_thread (read_ingredient_file sdk path data_dir)
        text_or_null result

  -- The struct literal of `c2pa_sign_file`, field by field.
  unfoldable pub with_signer_info : CSignerInfo → (SignerInfo → Api sdk Ptr) → Api sdk Ptr
  unfolding with_cstr from_cstr_option
  with_signer_info info rest = with_cstr sdk (codes "signer_info.alg") info.alg null λ alg.
      with_cstr sdk (codes "signer_info.sign_cert") info.sign_cert null λ sign_cert.
        with_cstr sdk (codes "signer_info.private_key") info.private_key null λ private_key.
          rest (record {
            alg = alg;
            sign_cert = sign_cert;
            private_key = private_key;
            ta_url = from_cstr_option info.ta_url;
          })

  -- The binary manifest is dropped: success is the empty text.
  unfoldable pub empty_or_null : Result Bytes Error → Api sdk Ptr
  unfolding to_c_string fail_with
  empty_or_null (ok c2pa_data) = to_c_string sdk []
  empty_or_null (err e) = fail_with e null

  unfoldable pub c2pa_sign_file :
      (source_path dest_path manifest : CStr) → CSignerInfo → (data_dir : CStr) → Api sdk Ptr
  unfolding with_cstr with_signer_info empty_or_null from_cstr_option
  c2pa_sign_file source_path dest_path manifest signer_info data_dir =
      with_cstr sdk (codes "source_path") source_path null λ source_path.
        with_cstr sdk (codes "dest_path") dest_path null λ dest_path.
          with_cstr sdk (codes "manifest") manifest null λ manifest.
            with_signer_info signer_info λ info. do
              let dir = from_cstr_option data_dir
              result ← in_thread (sign_file sdk source_path dest_path manifest info dir)
              empty_or_null result

  -- Null is left alone; any other pointer must be a text that `CString::into_raw` gave away.
  unfoldable pub c2pa_string_free : Ptr → Api sdk (Unit {0})
  c2pa_string_free s =
      if s == null then pure tt else do object ← from_raw (as_c_string sdk) s; pure tt

  unfoldable pub c2pa_release_string : Ptr → Api sdk (Unit {0})
  unfolding c2pa_string_free
  c2pa_release_string s = c2pa_string_free s
