-- ===== src/CApi/Frame/Others.antt =====
-- What the functions on files, signers and streams may touch.
use c2pa_c.Common.{
  ℕ, Bytes, List, [], ◌∷◌, Option, none, some, Result, ok, err, ==_refl, ◌==◌, pos, as_i64, Bool,
  true, false, ◌>>=◌, fault, pure, if◌then◌else◌,
}
use c2pa_c.Error.Convert.{C2paError}
use c2pa_c.Stream.{Ptr, CStream, c_stream_new}
use c2pa_c.Memory.{in_thread, alloc}
use c2pa_c.Memory.Frame.{
  Keeps, Keeps-pure, Keeps-fault, Keeps-if, Keeps-in_thread, Keeps-fail_with, Keeps-bind,
  Keeps-from_raw, Keeps-into_raw, Keeps-alloc,
}
use c2pa_c.Sdk.{Sdk, SignerInfo, signer, stream, boxed_slice, as_signer, as_stream, as_c_string}
use c2pa_c.Sdk.Calm.{Has}
use c2pa_c.CApi.{CStr, Api, null, minus_one}
use c2pa_c.CApi.Frame.{signer_has, Keeps-with_cstr, Keeps-sdk_error, Keeps-to_c_string, Keeps-free}
use c2pa_c.CApi.Files.{
  CSignerInfo, version_text, or_empty, c2pa_version, c2pa_error, c2pa_load_settings, text_or_null,
  c2pa_read_file, c2pa_read_ingredient_file, with_signer_info, empty_or_null, c2pa_sign_file,
  c2pa_string_free,
}
use c2pa_c.CApi.Signers.{
  CSigningAlg, SignerCallback, c_callback, signing_alg, c2pa_signer_create,
  c2pa_signer_reserve_size, c2pa_signer_free, slice_or_null, c2pa_ed25519_sign,
}
use c2pa_c.CApi.Streams.{c2pa_create_stream, c2pa_release_stream}
use c2pa_c.Error.{Error}
use c2pa_c.CApi.{from_cstr_option}
use c2pa_c.JsonApi.{read_file, read_ingredient_file, sign_file}

-- The signer that `c2pa_signer_create` makes.
abbrev pub made_signer :
    (sdk : Sdk) → Ptr → SignerCallback sdk.Env → CSigningAlg → (certs : Bytes) → CStr → sdk.Signer
unfolding c_callback signing_alg from_cstr_option
made_signer sdk context callback alg certs url =
    sdk.callback_signer (c_callback sdk callback) (signing_alg sdk alg) certs context
      (from_cstr_option url)

module _ (sdk : Sdk) {S : CStream sdk.Env → Type 0} {K : sdk.Signer → Type 0} where
  pub version-Keeps : Keeps (Has sdk S K) 0 [] (c2pa_version sdk)
  unfolding c2pa_version
  version-Keeps = Keeps-to_c_string sdk (version_text sdk)

  pub error-Keeps : Keeps (Has sdk S K) 0 [] (c2pa_error sdk)
  unfolding c2pa_error
  error-Keeps = Keeps-bind (Keeps-in_thread _) λ message. Keeps-to_c_string sdk (or_empty message)

  pub load_settings-Keeps :
      (settings format : CStr) → Keeps (Has sdk S K) 0 [] (c2pa_load_settings sdk settings format)
  unfolding c2pa_load_settings
  load_settings-Keeps settings format = Keeps-with_cstr sdk _ settings minus_one λ settings.
      Keeps-with_cstr sdk _ format minus_one λ format.
        Keeps-bind (Keeps-in_thread (sdk.load_settings_from_str settings format))
          (elim [ ok _ ↦ Keeps-pure (pos 0) | err e ↦ Keeps-sdk_error sdk e minus_one ])

  text_or_null-Keeps :
      {k : ℕ} {ts : List Ptr} (r : Result Bytes Error)
      → Keeps (Has sdk S K) k ts (text_or_null sdk r)
  unfolding text_or_null
  text_or_null-Keeps (ok text) = Keeps-to_c_string sdk text
  text_or_null-Keeps (err e) = Keeps-fail_with e null

  empty_or_null-Keeps :
      {k : ℕ} {ts : List Ptr} (r : Result Bytes Error)
      → Keeps (Has sdk S K) k ts (empty_or_null sdk r)
  unfolding empty_or_null
  empty_or_null-Keeps (ok bytes) = Keeps-to_c_string sdk []
  empty_or_null-Keeps (err e) = Keeps-fail_with e null

  pub read_file-Keeps : (path dir : CStr) → Keeps (Has sdk S K) 0 [] (c2pa_read_file sdk path dir)
  unfolding c2pa_read_file
  read_file-Keeps path dir = Keeps-with_cstr sdk _ path null λ path.
      Keeps-bind (Keeps-in_thread (read_file sdk path (from_cstr_option dir))) text_or_null-Keeps

  pub read_ingredient_file-Keeps :
      (path dir : CStr) → Keeps (Has sdk S K) 0 [] (c2pa_read_ingredient_file sdk path dir)
  unfolding c2pa_read_ingredient_file
  read_ingredient_file-Keeps path dir = Keeps-with_cstr sdk _ path null λ path.
      Keeps-with_cstr sdk _ dir null
        λ dir. Keeps-bind (Keeps-in_thread (read_ingredient_file sdk path dir)) text_or_null-Keeps

  with_signer_info-Keeps :
      (info : CSignerInfo) {rest : SignerInfo → Api sdk Ptr}
      → ((info' : SignerInfo) → Keeps (Has sdk S K) 0 [] (rest info'))
      → Keeps (Has sdk S K) 0 [] (with_signer_info sdk info rest)
  unfolding with_signer_info
  with_signer_info-Keeps info h = Keeps-with_cstr sdk _ info.alg null λ alg.
      Keeps-with_cstr sdk _ info.sign_cert null
        λ cert. Keeps-with_cstr sdk _ info.private_key null λ key. h _

  pub sign_file-Keeps :
      (source dest manifest : CStr) (info : CSignerInfo) (dir : CStr)
      → Keeps (Has sdk S K) 0 [] (c2pa_sign_file sdk source dest manifest info dir)
  unfolding c2pa_sign_file
  sign_file-Keeps source dest manifest info dir = Keeps-with_cstr sdk _ source null λ source.
      Keeps-with_cstr sdk _ dest null λ dest. Keeps-with_cstr sdk _ manifest null λ manifest.
        with_signer_info-Keeps info λ info'.
          Keeps-bind
            (Keeps-in_thread (sign_file sdk source dest manifest info' (from_cstr_option dir)))
            empty_or_null-Keeps

  pub string_free-Keeps : (p : Ptr) → Keeps (Has sdk S K) 0 (p ∷ []) (c2pa_string_free sdk p)
  unfolding c2pa_string_free
  string_free-Keeps p = Keeps-free sdk (as_c_string sdk) p (rw (==_refl p))

  pub signer_create-Keeps :
      (context : Ptr) (callback : SignerCallback sdk.Env) (alg : CSigningAlg) (certs url : CStr)
      → ((text : Bytes) → K (made_signer sdk context callback alg text url))
      → Keeps (Has sdk S K) 0 [] (c2pa_signer_create sdk context callback alg certs url)
  unfolding c2pa_signer_create
  signer_create-Keeps context callback alg certs url h =
      Keeps-with_cstr sdk _ certs null λ certs. Keeps-alloc _ (h certs)

  pub signer_reserve_size-Keeps :
      (p : Ptr) → Keeps (Has sdk S K) 0 (p ∷ []) (c2pa_signer_reserve_size sdk p)
  unfolding c2pa_signer_reserve_size
  signer_reserve_size-Keeps p = Keeps-if (p == null) (Keeps-fail_with _ minus_one) (
      Keeps-from_raw (as_signer sdk) p (rw (==_refl p)) λ object k _ lo lt seen.
        Keeps-bind (Keeps-in_thread (sdk.reserve_size object)) λ size.
          Keeps-bind (Keeps-into_raw p (signer object) (signer_has sdk seen) (rw (==_refl p)) lo lt)
            λ _. Keeps-pure (as_i64 size))

  pub signer_free-Keeps : (p : Ptr) → Keeps (Has sdk S K) 0 (p ∷ []) (c2pa_signer_free sdk p)
  unfolding c2pa_signer_free
  signer_free-Keeps p = Keeps-free sdk (as_signer sdk) p (rw (==_refl p))

  slice_or_null-Keeps :
      {k : ℕ} {ts : List Ptr} (r : Result Bytes C2paError)
      → Keeps (Has sdk S K) k ts (slice_or_null sdk r)
  unfolding slice_or_null
  slice_or_null-Keeps (ok bytes) = Keeps-alloc (boxed_slice bytes) tt
  slice_or_null-Keeps (err _) = Keeps-pure null

  pub ed25519_sign-Keeps :
      (bytes : Option Bytes) (key : CStr)
      → Keeps (Has sdk S K) 0 [] (c2pa_ed25519_sign sdk bytes key)
  unfolding c2pa_ed25519_sign
  ed25519_sign-Keeps none key = Keeps-fault
  ed25519_sign-Keeps (some bytes) key =
      Keeps-with_cstr sdk _ key null
        λ key. Keeps-bind (Keeps-in_thread (sdk.ed25519_sign bytes key)) slice_or_null-Keeps

  pub create_stream-Keeps :
      (s : CStream sdk.Env) → S s → Keeps (Has sdk S K) 0 [] (c2pa_create_stream sdk s)
  unfolding c2pa_create_stream c_stream_new in_thread
  create_stream-Keeps s h = by_context (s.context == 0)
    where
      by_context :
          (b : Bool)
          → Keeps {E = sdk.Env}
              (Has sdk S K)
              0
              []
              (in_thread (if b then fault else pure s) >>= λ object. alloc (stream object))
      by_context true w v l a w' e = cc
      by_context false w v l a w' e = Keeps-alloc (stream s) h w v l a w' e

  pub release_stream-Keeps : (p : Ptr) → Keeps (Has sdk S K) 0 (p ∷ []) (c2pa_release_stream sdk p)
  unfolding c2pa_release_stream
  release_stream-Keeps p = Keeps-free sdk (as_stream sdk) p (rw (==_refl p))
