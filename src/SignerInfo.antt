-- ===== src/SignerInfo.antt =====
-- `SignerInfo` (src/signer_info.rs): from JSON, its algorithm, and the signer that it makes. The
-- last error is not touched here: an error is returned.
use c2pa_c.Common.{Bytes, codes, none, some, Result, ok, err, M, ◌>>=◌, pure}
use c2pa_c.Error.{Error, json, other}
use c2pa_c.Error.Convert.{C2paError, from_c2pa_error}
use c2pa_c.Error.Last.{Thread}
use c2pa_c.Sdk.{Sdk, SignerInfo}

-- `Result::map_err(Error::from_c2pa_error)`
unfoldable pub map_err : {A : Type 0} → Result A C2paError → Result A Error
map_err (ok a) = ok a
map_err (err e) = err (from_c2pa_error e)

-- An action of the library that may fail, and `?` on it.
abbrev pub Fallible : Type 0 → Type 0 → Type 0
Fallible E A = M (Thread E) (Result A Error)

abbrev pub and_then : {E A B : Type 0} → Fallible E A → (A → Fallible E B) → Fallible E B
and_then m f = m >>= elim [ ok a ↦ f a | err e ↦ pure (err e) ]

module _ (sdk : Sdk) where
  -- `SignerInfo::from_json`
  unfoldable pub from_json : Bytes → Result SignerInfo Error
  from_json text = elim (sdk.signer_info_from_str text) [
    | ok info ↦ ok info
    | err e ↦ err (json (sdk.serde_to_string e))
  ]

  -- `SignerInfo::alg`
  unfoldable pub alg_of : SignerInfo → Result sdk.SigningAlg Error
  alg_of info = elim (sdk.parse_alg (sdk.to_lowercase info.alg)) [
    | some alg ↦ ok alg
    | none ↦ err (other (codes "Invalid signing algorithm"))
  ]

  -- `SignerInfo::signer`
  unfoldable pub signer_of : SignerInfo → Fallible sdk.Env sdk.Signer
  unfolding alg_of map_err
  signer_of info = elim (alg_of info) [
    | err e ↦ pure (err e)
    | ok alg ↦ (do
      result ← sdk.from_keys info.sign_cert info.private_key alg info.ta_url
      pure (map_err result))
  ]
