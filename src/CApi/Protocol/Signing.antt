-- ===== src/CApi/Protocol/Signing.antt =====
-- The functions that sign by a builder (src/c_api.rs, lines 707 to 915) against the contract.
use c2pa_c.Common.{
  ℕ, zero, suc, Bytes, length, Option, none, some, Result, ok, err, as_c_int, ◌>>=◌, ◌≡◌, ◌≢◌, ◌⊎◌,
  inl, inr, refl, arith, ==_ne, from_utf8_lossy,
}
use c2pa_c.Error.{Error}
use c2pa_c.Error.Convert.{C2paError, from_c2pa_error}
use c2pa_c.Error.Last.{Thread}
use c2pa_c.Stream.{Ptr}
use c2pa_c.Memory.{update, alloc, write_slot, fail_with}
use c2pa_c.Memory.Laws.{Every, IsValid, live_bounds, in_thread-returns}
use c2pa_c.Sdk.{Sdk, builder, signer, boxed_slice}
use c2pa_c.CApi.{CStr, minus_one}
use c2pa_c.CApi.Signing.{
  bytes_or_error, optional_bytes_or_error, c2pa_builder_data_hashed_placeholder,
  c2pa_format_embeddable,
}
use c2pa_c.CApi.Session.{Call, status}
use c2pa_c.CApi.Ownership.{without, take_builder, apart}
use c2pa_c.CApi.Ownership.Hashed.{bytes_or_error-optional}
use c2pa_c.CApi.Protocol.{
  Allowed, a_builder, a_signer, view, kind_at, WithError, Fails, Loses, LosesBoth, Delivers,
}
use c2pa_c.Sdk.Calm.{Calm, IsSound}
use c2pa_c.CApi.Protocol.Handles.{held_builder, held_signer}
use c2pa_c.CApi.Protocol.Rules.{
  Memory, Runs, Runs-weaken, fail_with-code, without-holds, restored, holdings_eq, kind_at-update,
}

module _ (sdk : Sdk) where
  module _ (w u : Memory sdk) (valid : IsValid w)
      (same : (q : Ptr) → kind_at (u.cells q) ≡ kind_at (w.cells q)) (next : u.next ≡ w.next)
      (slots : u.slots ≡ w.slots) where
    -- Bytes are delivered, or an error is reported.
    pub delivered :
        (v : Ptr) (r : Result Bytes C2paError)
        → Runs sdk status
            (λ r s'. Delivers (view w) r s' v ⊎ WithError (Fails (view w) r s'))
            (optional_bytes_or_error sdk v r u)
    unfolding optional_bytes_or_error alloc write_slot
    delivered zero (ok bytes) = record {
      result = as_c_int (length bytes);
      after = u;
      ran = refl;
      meets = inl (length bytes, refl, holdings_eq same slots);
    }
    delivered (suc v) (ok bytes) =
        let fresh : kind_at (w.cells u.next) ≡ none =
          rw next (rw (valid.fresh w.next (omega arith))) in
        let not_null : u.next ≢ 0 = omega (arith, valid.positive, next) in
        let cells = update u.cells u.next (some (boxed_slice bytes)) in
        record {
          result = as_c_int (length bytes);
          after = record {
            thread = u.thread;
            next = suc u.next;
            cells = cells;
            slots = update u.slots (suc v) u.next;
          };
          ran = rw (==_ne (suc v) 0 (omega arith));
          meets = inl (
            length bytes,
            u.next,
            refl,
            not_null,
            fresh,
            holdings_eq
                (λ q.
                  rw (kind_at-update sdk u.cells u.next (some (boxed_slice bytes)) q) (rw (same q)))
                (rw slots),
          );
        }
    delivered v (err e) =
        Runs-weaken sdk (λ r s' h. inr (from_c2pa_error e, h))
          (fail_with-code sdk u (view w).holds (holdings_eq same slots) (from_c2pa_error e))

    pub delivered_there :
        (v : Ptr) (r : Result Bytes C2paError)
        → v ≢ 0
        → Runs sdk status
            (λ r s'. Delivers (view w) r s' v ⊎ WithError (Fails (view w) r s'))
            (bytes_or_error sdk v r u)
    delivered_there v r there = rw (bytes_or_error-optional sdk v r u there) (delivered v r)

module _ (sdk : Sdk) (good : sdk.Signer → Type 0) (calm : Calm sdk good) where
  module _ (w : Memory sdk) (valid : IsValid w) (sound : Every (IsSound sdk good) w) where
    pub format_embeddable-Allowed :
        (format : CStr) (bytes : Option Bytes) (v : Ptr)
        → Runs sdk status
            (Allowed {sdk = sdk} (Call.format_embeddable format bytes v) (view w))
            (c2pa_format_embeddable sdk format bytes v w)
    unfolding Allowed c2pa_format_embeddable
    format_embeddable-Allowed format none v = fail_with-code sdk w (view w).holds refl _
    format_embeddable-Allowed format (some bytes) zero = fail_with-code sdk w (view w).holds refl _
    format_embeddable-Allowed none (some bytes) (suc v) =
        rw (==_ne (suc v) 0 (omega arith)) (fail_with-code sdk w (view w).holds refl _)
    format_embeddable-Allowed (some format) (some bytes) (suc v) =
        let (r, t, e) = calm.composed_manifest bytes (from_utf8_lossy format) w.thread in
        rw (==_ne (suc v) 0 (omega arith)) (
          rw (in_thread-returns _ w r t e, ◌>>=◌)
            (delivered_there sdk w (record w { thread = t }) valid (λ q. refl) refl refl (suc v) r
              (omega arith)))

    module _ (p : Ptr) (ready : (view w).holds.kinds p ≡ some a_builder) where
      pub lost :
          (e : Error)
          → Runs sdk status (λ r s'. Loses (view w) r s' p e) (fail_with e minus_one (without w p))
      lost e = fail_with-code sdk (without w p) _ (without-holds sdk w p) e

      pub not_null : p ≢ 0
      not_null =
          let (b, here) = held_builder sdk w p ready in
          let (above, _) = live_bounds valid p here in omega arith

      pub builder_placeholder-Allowed :
          (n : ℕ) (format : CStr) (v : Ptr)
          → Runs sdk status
              (Allowed {sdk = sdk} (Call.builder_placeholder p n format v) (view w))
              (c2pa_builder_data_hashed_placeholder sdk p n format v w)
      unfolding Allowed c2pa_builder_data_hashed_placeholder
      builder_placeholder-Allowed n format zero =
          rw (==_ne p 0 not_null) (fail_with-code sdk w (view w).holds refl _)
      builder_placeholder-Allowed n none (suc v) =
          let (b, here) = held_builder sdk w p ready in
          rw (==_ne p 0 not_null, ==_ne (suc v) 0 (omega arith), take_builder sdk w p b here, ◌>>=◌)
            (lost _)
      builder_placeholder-Allowed n (some format) (suc v) =
          let (b, here) = held_builder sdk w p ready in
          let ((r, b'), t, e) =
            calm.data_hashed_placeholder b n (from_utf8_lossy format) w.thread in
          rw (==_ne p 0 not_null, ==_ne (suc v) 0 (omega arith), take_builder sdk w p b here, ◌>>=◌)
            (rw (in_thread-returns _ (without w p) (r, b') t e, ◌>>=◌)
              (delivered_there sdk w _ valid (restored sdk w p (builder b') ready) refl refl (suc v)
                r (omega arith)))

      module _ (g : Ptr) (has_signer : (view w).holds.kinds g ≡ some a_signer) where
        -- Builder and signer are taken back: they are two objects.
        pub separate : p ≢ g
        separate =
            let (b, here) = held_builder sdk w p ready in
            let (k, there) = held_signer sdk w g has_signer in apart w p g here there (ground arith)

        pub both_restored :
            (b : sdk.Builder) (k : sdk.Signer) (q : Ptr)
            → kind_at (
                update
                  (update (without (without w p) g).cells g (some (signer k)))
                  p
                  (some (builder b))
                  q)
              ≡ kind_at (w.cells q)
        both_restored b k q = ground (arith, ready, has_signer, separate)

        pub both_lost :
            (t : Thread sdk.Env) (e : Error)
            → Runs sdk status
                (λ r s'. LosesBoth (view w) r s' p g e)
                (fail_with e minus_one (record (without (without w p) g) { thread = t }))
        both_lost t e =
            fail_with-code sdk (record (without (without w p) g) { thread = t }) _
              (holdings_eq
                (λ q.
                  rw (kind_at-update sdk (without w p).cells g none q)
                    (rw (kind_at-update sdk w.cells p none q)))
                refl)
              e
