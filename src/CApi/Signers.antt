-- ===== src/CApi/Signers.antt =====
-- Signers: the algorithms, the signer that calls back into C, its size, and the Ed25519 function
-- (src/c_api.rs, lines 44 to 70 and 935 to 1052).
use c2pa_c.Common.{
  ◌*◌, Bytes, codes, length, take, replicate, leb, is_negative, as_u64, as_i64, Option, none, some,
  Result, ok, err, ℤ, M, ◌>>=◌, ◌>>◌, pure, fault, if◌then◌else◌, ◌==◌,
}
use c2pa_c.Error.{null_parameter}
use c2pa_c.Error.Convert.{C2paError}
use c2pa_c.Error.Last.{Thread}
use c2pa_c.Stream.{Ptr}
use c2pa_c.Memory.{in_thread, from_raw, into_raw, alloc, fail_with}
use c2pa_c.Sdk.{Sdk, Call, cose_signature_error, signer, boxed_slice, as_signer}
use c2pa_c.CApi.{CStr, Api, null, minus_one, with_cstr, from_cstr_option}
use c2pa_c.CApi.Signing.{free_one_byte}

-- `C2paSigningAlg`
pub data CSigningAlg : Type 0 where
  es256 es384 es512 ps256 ps384 ps512 ed25519 : CSigningAlg

-- A callback of C: context, data, and the buffer for the signature, which it may fill. The result
-- is the size or an error, and the buffer.
abbrev pub SignerCallback : Type 0 → Type 0
SignerCallback E = Ptr → Bytes → Bytes → M (Thread E) (ℤ × Bytes)

module _ (sdk : Sdk) where
  -- `From<C2paSigningAlg> for SigningAlg`
  unfoldable pub signing_alg : CSigningAlg → sdk.SigningAlg
  signing_alg es256 = sdk.es256
  signing_alg es384 = sdk.es384
  signing_alg es512 = sdk.es512
  signing_alg ps256 = sdk.ps256
  signing_alg ps384 = sdk.ps384
  signing_alg ps512 = sdk.ps512
  signing_alg ed25519 = sdk.ed25519

  -- The closure of `c2pa_signer_create`. `set_len` beyond the capacity is undefined behaviour.
  unfoldable pub c_callback : SignerCallback sdk.Env → Ptr → Bytes → Call sdk.Env Bytes
  unfolding cose_signature_error
  c_callback callback context bytes = do
    let signed_len_max = length bytes * 2
    (signed_size, signed_bytes) ← callback context bytes (replicate signed_len_max 0)
    if is_negative signed_size
        then pure (err (cose_signature_error sdk))
        else if leb (as_u64 signed_size) signed_len_max
        then pure (ok (take (as_u64 signed_size) signed_bytes))
        else fault

  unfoldable pub c2pa_signer_create :
      (context : Ptr) → SignerCallback sdk.Env → CSigningAlg → (certs tsa_url : CStr) → Api sdk Ptr
  unfolding with_cstr from_cstr_option signing_alg c_callback alloc
  c2pa_signer_create context callback alg certs tsa_url =
      with_cstr sdk (codes "certs") certs null λ certs. alloc (
        signer (
          sdk.callback_signer (c_callback callback) (signing_alg alg) certs context
            (from_cstr_option tsa_url)))

  -- Outside a macro `stringify!($ptr)` is the text "$ptr".
  unfoldable pub c2pa_signer_reserve_size : Ptr → Api sdk ℤ
  unfolding into_raw fail_with
  c2pa_signer_reserve_size signer_ptr =
      if signer_ptr == null then fail_with (null_parameter (codes "$ptr")) minus_one else (do
        object ← from_raw (as_signer sdk) signer_ptr
        size ← in_thread (sdk.reserve_size object)
        into_raw signer_ptr (signer object)
        pure (as_i64 size))

  unfoldable pub c2pa_signer_free : Ptr → Api sdk (Unit {0})
  c2pa_signer_free signer_ptr =
      if signer_ptr == null
      then pure tt
      else do object ← from_raw (as_signer sdk) signer_ptr; pure tt

  -- The end of `c2pa_ed25519_sign`: an error does not become the last error.
  unfoldable pub slice_or_null : Result Bytes C2paError → Api sdk Ptr
  unfolding alloc
  slice_or_null (ok signed_bytes) = alloc (boxed_slice signed_bytes)
  slice_or_null (err _) = pure null

  -- The data is null, which is undefined behaviour, or the bytes that pointer and length describe.
  unfoldable pub c2pa_ed25519_sign : (data_bytes : Option Bytes) (private_key : CStr) → Api sdk Ptr
  unfolding with_cstr slice_or_null
  c2pa_ed25519_sign none private_key = fault
  c2pa_ed25519_sign (some bytes) private_key =
      with_cstr sdk (codes "private_key") private_key null λ private_key. do
        result ← in_thread (sdk.ed25519_sign bytes private_key)
        slice_or_null result

  unfoldable pub c2pa_signature_free : Ptr → Api sdk (Unit {0})
  unfolding free_one_byte
  c2pa_signature_free signature_ptr = free_one_byte sdk signature_ptr
