-- ===== src/Cpp/Signer.antt =====
-- `Signer` of the C++ wrapper (src/c2pa.cpp, lines 41 to 65 and 518 to 534). The object is its
-- pointer.
pub mod Passthrough
use c2pa_c.Common.{
  ℕ, Bytes, length, ltb, drop, ◌++◌, Option, none, some, Result, ok, err, ℤ, as_i64, as_u64, M,
  ◌>>=◌, pure, if◌then◌else◌,
}
use c2pa_c.Error.Last.{Thread}
use c2pa_c.Stream.{Ptr}
use c2pa_c.Sdk.{Sdk}
use c2pa_c.CApi.{CStr, Api, minus_one}
use c2pa_c.CApi.Signers.{
  CSigningAlg, SignerCallback, c2pa_signer_create, c2pa_signer_reserve_size, c2pa_signer_free,
}
use c2pa_c.Cpp.{c_str}

-- `SignerFunc`, with the message of what it throws.
abbrev pub SignerFunc : Type 0 → Type 0
SignerFunc E = Bytes → M (Thread E) (Result Bytes Bytes)

-- `signer_passthrough`: the context is the function.
unfoldable pub signer_passthrough : {E : Type 0} → SignerFunc E → SignerCallback E
signer_passthrough func context bytes signature = do
  result ← func bytes
  elim result [
    | err what ↦ pure (minus_one, signature)
    | ok signature_vec ↦
        if ltb (length signature) (length signature_vec)
        then pure (minus_one, signature)
        else pure
            (as_i64 (length signature_vec), signature_vec ++ drop (length signature_vec) signature)
  ]

unfoldable pub c_str_option : Option Bytes → CStr
c_str_option none = none
c_str_option (some s) = c_str s

module _ (sdk : Sdk) where
  -- The function, and its address.
  unfoldable pub signer_new :
      (callback : SignerFunc sdk.Env) (address : Ptr)
      → CSigningAlg
      → (sign_cert : Bytes) → (tsa_uri : Option Bytes) → Api sdk Ptr
  unfolding signer_passthrough c_str_option
  signer_new callback address alg sign_cert tsa_uri =
      c2pa_signer_create sdk address (signer_passthrough callback) alg (c_str sign_cert)
        (c_str_option tsa_uri)

  unfoldable pub signer_delete : Ptr → Api sdk (Unit {0})
  signer_delete signer = c2pa_signer_free sdk signer

  -- The size becomes a `uintptr_t`.
  unfoldable pub reserve_size : Ptr → Api sdk ℕ
  reserve_size signer = do size ← c2pa_signer_reserve_size sdk signer; pure (as_u64 size)
