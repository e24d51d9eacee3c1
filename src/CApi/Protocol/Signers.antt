-- ===== src/CApi/Protocol/Signers.antt =====
-- Signers, streams, and the functions that free (src/c_api.rs, lines 340 to 412, 744 to 753 and 935
-- to 1052; src/c_stream.rs, lines 160 to 196) against the contract.
use c2pa_c.Common.{
  zero, suc, Bytes, length, Option, none, some, Result, ok, err, as_i64, ◌>>=◌, ◌≡◌, ◌≢◌, ◌⊎◌, inl,
  inr, refl, arith, ==_ne, from_utf8_lossy, ℕ,
}
use c2pa_c.Error.Convert.{C2paError}
use c2pa_c.Error.Last.{Thread}
use c2pa_c.Stream.{Ptr, CStream, c_stream_new}
use c2pa_c.Memory.Laws.{Every, IsValid, live_bounds, in_thread-returns, from_raw-live}
use c2pa_c.Sdk.{Sdk, signer, stream, boxed_slice, as_reader, as_signer, as_stream, as_boxed_slice}
use c2pa_c.CApi.{CStr, null}
use c2pa_c.CApi.Reading.{c2pa_reader_free}
use c2pa_c.CApi.Signing.{free_one_byte, c2pa_manifest_bytes_free}
use c2pa_c.CApi.Signers.{
  CSigningAlg, SignerCallback, c2pa_signer_create, c2pa_signer_reserve_size, c2pa_signer_free,
  slice_or_null, c2pa_ed25519_sign, c2pa_signature_free,
}
use c2pa_c.CApi.Streams.{c2pa_create_stream, c2pa_release_stream}
use c2pa_c.CApi.Session.{Call, pointer, status, done}
use c2pa_c.CApi.Ownership.{without, take_signer}
use c2pa_c.CApi.Protocol.{Ready, Allowed, a_slice, view, Frees, Makes}
use c2pa_c.Sdk.Calm.{Calm, IsSound}
use c2pa_c.CApi.Protocol.Handles.{held_reader, held_signer, held_stream, held_slice}
use c2pa_c.CApi.Protocol.Rules.{
  Memory, Runs, Runs-weaken, alloc-Makes, fail_with-code, fail_with-null, without-holds, restored,
  holdings_eq, free-Frees, free-Frees_null,
}

module _ (sdk : Sdk) (w : Memory sdk) (valid : IsValid w) where
  pub reader_free-Allowed :
      (p : Ptr)
      → Ready {sdk = sdk} (Call.reader_free p) (view w)
      → Runs sdk
          (λ _. done)
          (Allowed {sdk = sdk} (Call.reader_free p) (view w))
          (c2pa_reader_free sdk p w)
  unfolding Ready Allowed c2pa_reader_free as_reader
  reader_free-Allowed p (inl e) = free-Frees_null sdk w valid p _ e
  reader_free-Allowed p (inr ready) =
      let (x, here) = held_reader sdk w p ready in
      free-Frees sdk w valid p (as_reader sdk) x here (rw here refl)

  pub signer_free-Allowed :
      (p : Ptr)
      → Ready {sdk = sdk} (Call.signer_free p) (view w)
      → Runs sdk
          (λ _. done)
          (Allowed {sdk = sdk} (Call.signer_free p) (view w))
          (c2pa_signer_free sdk p w)
  unfolding Ready Allowed c2pa_signer_free as_signer
  signer_free-Allowed p (inl e) = free-Frees_null sdk w valid p _ e
  signer_free-Allowed p (inr ready) =
      let (x, here) = held_signer sdk w p ready in
      free-Frees sdk w valid p (as_signer sdk) x here (rw here refl)

  pub release_stream-Allowed :
      (p : Ptr)
      → Ready {sdk = sdk} (Call.release_stream p) (view w)
      → Runs sdk
          (λ _. done)
          (Allowed {sdk = sdk} (Call.release_stream p) (view w))
          (c2pa_release_stream sdk p w)
  unfolding Ready Allowed c2pa_release_stream as_stream
  release_stream-Allowed p (inl e) = free-Frees_null sdk w valid p _ e
  release_stream-Allowed p (inr ready) =
      let (x, here) = held_stream sdk w p ready in
      free-Frees sdk w valid p (as_stream sdk) x here (rw here refl)

  one_byte-Frees :
      (p : Ptr)
      → (p ≡ 0) ⊎ ((view w).holds.kinds p ≡ some (a_slice 1))
      → Runs sdk (λ _. done) (λ r s'. Frees (view w) r s' p) (free_one_byte sdk p w)
  unfolding free_one_byte as_boxed_slice
  one_byte-Frees p (inl e) = free-Frees_null sdk w valid p _ e
  one_byte-Frees p (inr ready) =
      let (bytes, here, one) = held_slice sdk w p 1 ready in
      let (above, _) = live_bounds valid p here in
      let ne : p ≢ 0 = omega arith in
      rw (==_ne p 0 ne) (
        rw (from_raw-live (as_boxed_slice sdk) w p bytes (rw here refl), ◌>>=◌)
          (rw one (record {
            result = tt;
            after = without w p;
            ran = refl;
            meets = (refl, without-holds sdk w p, refl);
          })))

  pub manifest_bytes_free-Allowed :
      (p : Ptr)
      → Ready {sdk = sdk} (Call.manifest_bytes_free p) (view w)
      → Runs sdk
          (λ _. done)
          (Allowed {sdk = sdk} (Call.manifest_bytes_free p) (view w))
          (c2pa_manifest_bytes_free sdk p w)
  unfolding Ready Allowed c2pa_manifest_bytes_free
  manifest_bytes_free-Allowed = one_byte-Frees

  pub signature_free-Allowed :
      (p : Ptr)
      → Ready {sdk = sdk} (Call.signature_free p) (view w)
      → Runs sdk
          (λ _. done)
          (Allowed {sdk = sdk} (Call.signature_free p) (view w))
          (c2pa_signature_free sdk p w)
  unfolding Ready Allowed c2pa_signature_free
  signature_free-Allowed = one_byte-Frees

  pub create_stream-Allowed :
      (c : CStream sdk.Env)
      → Ready {sdk = sdk} (Call.create_stream c) (view w)
      → Runs sdk pointer
          (Allowed {sdk = sdk} (Call.create_stream c) (view w))
          (c2pa_create_stream sdk c w)
  unfolding Ready Allowed c2pa_create_stream c_stream_new
  create_stream-Allowed c ne =
      rw (in_thread-returns (c_stream_new c) w c w.thread (rw (==_ne c.context 0 ne)), ◌>>=◌)
        (Runs-weaken sdk (λ r s' h. h.0)
          (alloc-Makes sdk w w valid (λ q. refl) refl refl (stream c)))

  pub signer_create-Allowed :
      (context : Ptr) (callback : SignerCallback sdk.Env) (alg : CSigningAlg) (certs url : CStr)
      → Runs sdk pointer
          (Allowed {sdk = sdk} (Call.signer_create context callback alg certs url) (view w))
          (c2pa_signer_create sdk context callback alg certs url w)
  unfolding Allowed c2pa_signer_create
  signer_create-Allowed context callback alg none url = fail_with-null sdk w (view w).holds refl _
  signer_create-Allowed context callback alg (some certs) url =
      Runs-weaken sdk (λ r s' h. h.0) (alloc-Makes sdk w w valid (λ q. refl) refl refl (signer _))

  module _ (good : sdk.Signer → Type 0) (calm : Calm sdk good)
      (sound : Every (IsSound sdk good) w) where
    pub signer_reserve_size-Allowed :
        (p : Ptr)
        → Ready {sdk = sdk} (Call.signer_reserve_size p) (view w)
        → Runs sdk status
            (Allowed {sdk = sdk} (Call.signer_reserve_size p) (view w))
            (c2pa_signer_reserve_size sdk p w)
    unfolding Ready Allowed c2pa_signer_reserve_size
    signer_reserve_size-Allowed zero ready = fail_with-code sdk w (view w).holds refl _
    signer_reserve_size-Allowed (suc p) (inl e) = absurd (omega (arith, e))
    signer_reserve_size-Allowed (suc p) (inr ready) =
        let (k, here) = held_signer sdk w (suc p) ready in
        let (n, t, e) = calm.reserve_size k (sound (suc p) _ here) w.thread in
        rw (==_ne (suc p) 0 (omega arith)) (
          rw (take_signer sdk w (suc p) k here, ◌>>=◌)
            (rw (in_thread-returns _ (without w (suc p)) n t e, ◌>>=◌)
              (record {
                result = as_i64 n;
                after = _;
                ran = refl;
                meets = (n, refl, holdings_eq (restored sdk w (suc p) (signer k) ready) refl);
              })))

    slice_or_null-Makes :
        (t : Thread sdk.Env) (r : Result Bytes C2paError)
        → Runs sdk pointer
            (λ r s'.
              ((n : ℕ) × Makes (view w) r s' (a_slice n))
              ⊎ ((r ≡ pointer null) × (s'.holds ≡ (view w).holds)))
            (slice_or_null sdk r (record w { thread = t }))
    unfolding slice_or_null
    slice_or_null-Makes t (ok bytes) =
        Runs-weaken sdk (λ r s' h. inl (length bytes, h.0))
          (alloc-Makes sdk w (record w { thread = t }) valid (λ q. refl) refl refl
            (boxed_slice bytes))
    slice_or_null-Makes t (err e) = record {
      result = null;
      after = _;
      ran = refl;
      meets = inr (refl, refl);
    }

    pub ed25519_sign-Allowed :
        (bytes : Option Bytes) (key : CStr)
        → Ready {sdk = sdk} (Call.ed25519_sign bytes key) (view w)
        → Runs sdk pointer
            (Allowed {sdk = sdk} (Call.ed25519_sign bytes key) (view w))
            (c2pa_ed25519_sign sdk bytes key w)
    unfolding Ready Allowed c2pa_ed25519_sign
    ed25519_sign-Allowed none key ready = absurd ready
    ed25519_sign-Allowed (some bytes) none ready = fail_with-null sdk w (view w).holds refl _
    ed25519_sign-Allowed (some bytes) (some key) ready =
        let (r, t, e) = calm.ed25519_sign bytes (from_utf8_lossy key) w.thread in
        rw (in_thread-returns _ w r t e, ◌>>=◌) (slice_or_null-Makes t r)
