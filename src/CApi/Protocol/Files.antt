-- ===== src/CApi/Protocol/Files.antt =====
-- Versions, the last error, settings and the functions on files (src/c_api.rs, lines 165 to 363)
-- against the contract.
use c2pa_c.Common.{
  ◌≡◌, Option, none, some, Bytes, none, some, Result, ok, err, ℤ, pos, pure, ◌>>=◌, ◌⊎◌, inl, inr,
  refl, from_utf8_lossy, [],
}
use mathlib.Core.Option
use c2pa_c.Error.{Error, null_parameter, to_string}
use c2pa_c.Error.Convert.{C2paError, from_c2pa_error}
use c2pa_c.Error.Last.{Thread, last_message}
use c2pa_c.Stream.{Ptr}
use c2pa_c.Memory.{in_thread, fail_with}
use c2pa_c.Memory.Laws.{IsValid, in_thread-returns}
use c2pa_c.Sdk.{Sdk, SignerInfo, c_string, as_c_string}
use c2pa_c.JsonApi.Total.{read_file-Answers, read_ingredient_file-Answers, sign_file-Answers}
use c2pa_c.CApi.{CStr, Api, null, minus_one, from_cstr_option, sdk_error, to_c_string}
use c2pa_c.CApi.Files.{
  CSignerInfo, or_empty, version_text, c2pa_version, c2pa_error, c2pa_load_settings, text_or_null,
  c2pa_read_file, c2pa_read_ingredient_file, with_signer_info, empty_or_null, c2pa_sign_file,
  c2pa_string_free, c2pa_release_string,
}
use c2pa_c.CApi.Session.{Call, pointer, status, done}
use c2pa_c.CApi.Protocol.{
  Ready, Allowed, a_text, view, WithError, Succeeds, Fails, FailsNull, Tells, Says, message, Makes,
}
use c2pa_c.Sdk.Calm.{Calm}
use c2pa_c.CApi.Protocol.Handles.{held_text}
use c2pa_c.CApi.Protocol.Rules.{
  Memory, Runs, Runs-weaken, alloc-Makes, to_c_string-Says, fail_with-code, fail_with-null,
  free-Frees, free-Frees_null,
}

module _ (sdk : Sdk) (good : sdk.Signer → Type 0) (calm : Calm sdk good) (w : Memory sdk)
    (valid : IsValid w) where
  pub version-Allowed :
      Runs sdk pointer (Allowed {sdk = sdk} Call.version (view w)) (c2pa_version sdk w)
  unfolding Allowed c2pa_version
  version-Allowed =
      Runs-weaken sdk (λ r s' h. ((version_text sdk, h.0), h.1))
        (to_c_string-Says sdk w w valid (λ q. refl) refl refl (version_text sdk))

  pub error-Allowed : Runs sdk pointer (Allowed {sdk = sdk} Call.error (view w)) (c2pa_error sdk w)
  unfolding Allowed c2pa_error last_message in_thread
  error-Allowed = by_error w.thread.last_error
    where
      by_error :
          (e : Option Error)
          → Runs sdk pointer
              (λ r s'. Says (view w) r s' (message e) × (s'.error ≡ (view w).error))
              (to_c_string sdk (or_empty (Option.map to_string e)) w)
      by_error none = to_c_string-Says sdk w w valid (λ q. refl) refl refl []
      by_error (some e) = to_c_string-Says sdk w w valid (λ q. refl) refl refl (to_string e)

  pub load_settings-Allowed :
      (settings format : CStr)
      → Runs sdk status
          (Allowed {sdk = sdk} (Call.load_settings settings format) (view w))
          (c2pa_load_settings sdk settings format w)
  unfolding Allowed c2pa_load_settings
  load_settings-Allowed none format = fail_with-code sdk w (view w).holds refl _
  load_settings-Allowed (some settings) none = fail_with-code sdk w (view w).holds refl _
  load_settings-Allowed (some settings) (some format) =
      let (r, t, e) =
        calm.load_settings_from_str (from_utf8_lossy settings) (from_utf8_lossy format) w.thread in
      rw (in_thread-returns _ w r t e, ◌>>=◌) (by_result r t)
    where
      by_result :
          (r : Result (Unit {0}) C2paError) (t : Thread sdk.Env)
          → Runs sdk status
              (λ r s'. Succeeds (view w) r s' ⊎ WithError (Fails (view w) r s'))
              ((elim r as (λ _. Api sdk ℤ) [
                | ok _ ↦ pure (pos 0)
                | err e ↦ sdk_error sdk e minus_one
              ])
                (record w { thread = t }))
      by_result (ok _) t = record {
        result = pos 0;
        after = _;
        ran = refl;
        meets = inl (refl, refl);
      }
      by_result (err e) t =
          Runs-weaken sdk (λ r s' h. inr (from_c2pa_error e, h))
            (fail_with-code sdk (record w { thread = t }) (view w).holds refl (from_c2pa_error e))

  -- A text, or null with the last error.
  text_or_null-Tells :
      (t : Thread sdk.Env) (r : Result Bytes Error)
      → Runs sdk pointer
          (λ r s'. Tells (view w) r s' ⊎ WithError (FailsNull (view w) r s'))
          (text_or_null sdk r (record w { thread = t }))
  unfolding text_or_null
  text_or_null-Tells t (ok text) =
      Runs-weaken sdk (λ r s' h. inl (text, h.0))
        (to_c_string-Says sdk w (record w { thread = t }) valid (λ q. refl) refl refl text)
  text_or_null-Tells t (err e) =
      Runs-weaken sdk (λ r s' h. inr (e, h))
        (fail_with-null sdk (record w { thread = t }) (view w).holds refl e)

  pub read_file-Allowed :
      (path dir : CStr)
      → Runs sdk pointer
          (Allowed {sdk = sdk} (Call.read_file path dir) (view w))
          (c2pa_read_file sdk path dir w)
  unfolding Allowed c2pa_read_file
  read_file-Allowed none dir = fail_with-null sdk w (view w).holds refl _
  read_file-Allowed (some path) dir =
      let (r, t, e) =
        read_file-Answers sdk good calm (from_utf8_lossy path) (from_cstr_option dir) w.thread in
      rw (in_thread-returns _ w r t e, ◌>>=◌) (text_or_null-Tells t r)

  pub read_ingredient_file-Allowed :
      (path dir : CStr)
      → Runs sdk pointer
          (Allowed {sdk = sdk} (Call.read_ingredient_file path dir) (view w))
          (c2pa_read_ingredient_file sdk path dir w)
  unfolding Allowed c2pa_read_ingredient_file
  read_ingredient_file-Allowed none dir = fail_with-null sdk w (view w).holds refl _
  read_ingredient_file-Allowed (some path) none = fail_with-null sdk w (view w).holds refl _
  read_ingredient_file-Allowed (some path) (some dir) =
      let (r, t, e) =
        read_ingredient_file-Answers sdk good calm (from_utf8_lossy path) (from_utf8_lossy dir)
          w.thread in
      rw (in_thread-returns _ w r t e, ◌>>=◌) (text_or_null-Tells t r)

  empty_or_null-Makes :
      (t : Thread sdk.Env) (r : Result Bytes Error)
      → Runs sdk pointer
          (λ r s'. Makes (view w) r s' (a_text []) ⊎ WithError (FailsNull (view w) r s'))
          (empty_or_null sdk r (record w { thread = t }))
  unfolding empty_or_null to_c_string
  empty_or_null-Makes t (ok _) =
      Runs-weaken sdk (λ r s' h. inl h.0)
        (alloc-Makes sdk w (record w { thread = t }) valid (λ q. refl) refl refl (c_string []))
  empty_or_null-Makes t (err e) =
      Runs-weaken sdk (λ r s' h. inr (e, h))
        (fail_with-null sdk (record w { thread = t }) (view w).holds refl e)

  null_name :
      (name : Bytes)
      → Runs sdk pointer
          (λ r s'. FailsNull (view w) r s' (null_parameter name))
          (fail_with (null_parameter name) null w)
  null_name name = fail_with-null sdk w (view w).holds refl (null_parameter name)

  -- With the texts of the paths and the manifest, and the signer's information by its fields.
  signed :
      (source dest manifest : Bytes) (alg cert key url dir : CStr)
      → Runs sdk pointer
          (Allowed {sdk = sdk}
            (Call.sign_file
              (some source)
              (some dest)
              (some manifest)
              (record { alg = alg; sign_cert = cert; private_key = key; ta_url = url })
              dir)
            (view w))
          (c2pa_sign_file sdk
            (some source)
            (some dest)
            (some manifest)
            (record { alg = alg; sign_cert = cert; private_key = key; ta_url = url })
            dir
            w)
  unfolding Allowed c2pa_sign_file with_signer_info
  signed source dest manifest none cert key url dir = null_name _
  signed source dest manifest (some alg) none key url dir = null_name _
  signed source dest manifest (some alg) (some cert) none url dir = null_name _
  signed source dest manifest (some alg) (some cert) (some key) url dir =
      let info : SignerInfo = record {
        alg = from_utf8_lossy alg;
        sign_cert = from_utf8_lossy cert;
        private_key = from_utf8_lossy key;
        ta_url = from_cstr_option url;
      } in
      let (r, t, e) =
        sign_file-Answers sdk good calm (from_utf8_lossy source) (from_utf8_lossy dest)
          (from_utf8_lossy manifest) info (from_cstr_option dir) w.thread in
      rw (in_thread-returns _ w r t e, ◌>>=◌) (empty_or_null-Makes t r)

  pub sign_file-Allowed :
      (source dest manifest : CStr) (info : CSignerInfo) (dir : CStr)
      → Runs sdk pointer
          (Allowed {sdk = sdk} (Call.sign_file source dest manifest info dir) (view w))
          (c2pa_sign_file sdk source dest manifest info dir w)
  unfolding Allowed c2pa_sign_file
  sign_file-Allowed none dest manifest info dir = null_name _
  sign_file-Allowed (some source) none manifest info dir = null_name _
  sign_file-Allowed (some source) (some dest) none info dir = null_name _
  sign_file-Allowed (some source) (some dest) (some manifest) info dir =
      signed source dest manifest info.alg info.sign_cert info.private_key info.ta_url dir

  pub string_free-Allowed :
      (p : Ptr)
      → Ready {sdk = sdk} (Call.string_free p) (view w)
      → Runs sdk
          (λ _. done)
          (Allowed {sdk = sdk} (Call.string_free p) (view w))
          (c2pa_string_free sdk p w)
  unfolding Ready Allowed c2pa_string_free as_c_string
  string_free-Allowed p (inl e) = free-Frees_null sdk w valid p _ e
  string_free-Allowed p (inr (_, ready)) =
      let (s, here) = held_text sdk w p ready in
      free-Frees sdk w valid p (as_c_string sdk) s here (rw here refl)

  pub release_string-Allowed :
      (p : Ptr)
      → Ready {sdk = sdk} (Call.release_string p) (view w)
      → Runs sdk
          (λ _. done)
          (Allowed {sdk = sdk} (Call.release_string p) (view w))
          (c2pa_release_string sdk p w)
  unfolding Ready Allowed c2pa_release_string
  release_string-Allowed = string_free-Allowed
