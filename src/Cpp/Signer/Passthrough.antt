-- ===== src/Cpp/Signer/Passthrough.antt =====
-- The signing function of C++ behind the closure of `c2pa_signer_create` (src/c2pa.cpp, lines 42 to
-- 62, and src/c_api.rs, lines 953 to 972).
use c2pa_c.Common.{
  ℕ, ◌*◌, ◌≤◌, Bytes, length, leb, ltb, some, Result, ok, err, isize_max, ◌≡◌, ◌>>=◌, arith,
  if◌then◌else◌, take-append_at, length-replicate, as_i64_small, as_u64_small, le→leb, lt→leb,
  Bool-cases, inl, inr, refl, ap,
}
use c2pa_c.Error.Last.{Thread}
use c2pa_c.Error.Convert.{C2paError}
use c2pa_c.Stream.{Ptr}
use c2pa_c.Sdk.{Sdk, cose_signature_error}
use c2pa_c.CApi.Signers.{c_callback}
use c2pa_c.Cpp.Signer.{SignerFunc, signer_passthrough}

module _ (sdk : Sdk) where
  -- A signature that is not too long.
  abbrev pub fitting : ℕ → Result Bytes Bytes → Result Bytes C2paError
  fitting most (ok signature) =
      if leb (length signature) most then ok signature else err (cose_signature_error sdk)
  fitting most (err what) = err (cose_signature_error sdk)

  module _ (func : SignerFunc sdk.Env) (context : Ptr) (bytes : Bytes) {t t' : Thread sdk.Env} where
    -- If the function of C++ returns a signature that is at most twice as long as the data, the
    -- closure gives that signature; if it returns a longer one, or throws, the closure gives the
    -- error of a signature. An `isize` holds twice the length of the data.
    pub passthrough-fitting :
        (result : Result Bytes Bytes)
        → length bytes * 2 ≤ isize_max
        → func bytes t ≡ some (result, t')
        → c_callback sdk (signer_passthrough func) context bytes t
          ≡ some (fitting (length bytes * 2) result, t')
    unfolding c_callback signer_passthrough
    passthrough-fitting (err what) small run = rw (run, ◌>>=◌) refl
    passthrough-fitting (ok signature) small run =
        elim (Bool-cases (ltb (length bytes * 2) (length signature))) [
          | inl over ↦
              rw (run, ◌>>=◌)
                (rw (length-replicate {A = ℕ} (length bytes * 2) 0) (
                  rw (over, lt→leb (length signature) (length bytes * 2) (ground (arith, over)))
                    refl))
          | inr fits ↦
              let least : length signature ≤ length bytes * 2 = ground (arith, fits) in
              rw (run, ◌>>=◌)
                (rw (length-replicate {A = ℕ} (length bytes * 2) 0) (
                  rw (fits, as_i64_small (length signature) (omega arith))
                    (rw
                      (
                        as_u64_small (length signature) (omega arith),
                        le→leb (length signature) (length bytes * 2) least,
                      )
                      (ap (λ x. some (ok x, t'))
                        (take-append_at (length signature) signature _ refl)))))
        ]
