-- ===== src/CApi/Ownership/Signing.antt =====
-- `c2pa_builder_sign` on live objects (src/c_api.rs, lines 707 to 742).
use c2pa_c.Common.{
  zero, suc, ◌<◌, Bytes, length, some, Result, ok, err, ℤ, as_c_int, ◌≡◌, ◌≢◌, refl, ◌>>=◌, arith,
  ==_refl, ==_ne, from_utf8_lossy,
}
use c2pa_c.Error.Convert.{C2paError, from_c2pa_error}
use c2pa_c.Error.Last.{Thread}
use c2pa_c.Stream.{Ptr, CStream}
use c2pa_c.Memory.{World, update, write_slot, alloc}
use c2pa_c.Memory.Laws.{IsValid, live_bounds, in_thread-returns}
use c2pa_c.Sdk.{Sdk, Block, builder, signer, stream, boxed_slice}
use c2pa_c.CApi.{minus_one}
use c2pa_c.CApi.Signing.{optional_bytes_or_error, c2pa_builder_sign}
use c2pa_c.CApi.Ownership.{without, take_builder, take_signer, borrow_stream, apart, cells-without}

module _ (sdk : Sdk) where
  abbrev Memory : Type 0
  Memory = World sdk.Env (Block sdk)

  -- How a result reaches the client, when `next` was the next address before. Without a variable
  -- the bytes are dropped; with one they stand at the new address in it; an error is the last
  -- error.
  abbrev pub Delivered : Ptr → Result Bytes C2paError → (next : Ptr) → ℤ → Memory → Type 0
  Delivered zero (ok bytes) next code w = (code ≡ as_c_int (length bytes)) × (w.next ≡ next)
  Delivered (suc k) (ok bytes) next code w =
      (code ≡ as_c_int (length bytes))
      × (w.slots (suc k) ≡ next)
      × (w.cells next ≡ some (boxed_slice bytes))
  Delivered slot (err e) next code w =
      (code ≡ minus_one) × (w.thread.last_error ≡ some (from_c2pa_error e)) × (w.next ≡ next)

  -- The delivery keeps what stands below the next address.
  pub deliver :
      (slot : Ptr) (r : Result Bytes C2paError) (u : Memory)
      → (code : ℤ) × (w : Memory) × (optional_bytes_or_error sdk slot r u ≡ some (code, w))
        × Delivered slot r u.next code w
        × ((q : Ptr) → q < u.next → w.cells q ≡ u.cells q)
  unfolding optional_bytes_or_error alloc write_slot
  deliver zero (ok bytes) u = (as_c_int (length bytes), u, refl, (refl, refl), λ q lt. refl)
  deliver (suc k) (ok bytes) u = (
    as_c_int (length bytes),
    record {
      thread = u.thread;
      next = suc u.next;
      cells = update u.cells u.next (some (boxed_slice bytes));
      slots = update u.slots (suc k) u.next;
    },
    rw (==_ne (suc k) 0 (omega arith)),
    (refl, rw (==_refl (suc k)), rw (==_refl u.next)),
    λ q lt. rw (==_ne u.next q (omega arith)),
  )
  deliver zero (err e) u = (
    minus_one,
    record u { thread = record u.thread { last_error = some (from_c2pa_error e) } },
    refl,
    (refl, refl, refl),
    λ q lt. refl,
  )
  deliver (suc k) (err e) u = (
    minus_one,
    record u { thread = record u.thread { last_error = some (from_c2pa_error e) } },
    refl,
    (refl, refl, refl),
    λ q lt. refl,
  )

  module _ (w : Memory) (p g i o : Ptr) {b : sdk.Builder} {k : sdk.Signer} {c d : CStream sdk.Env}
      (valid : IsValid w) (has_builder : w.cells p ≡ some (builder b))
      (has_signer : w.cells g ≡ some (signer k)) (readable : w.cells i ≡ some (stream c))
      (writable : w.cells o ≡ some (stream d)) (distinct : i ≢ o) where
    -- `c2pa_builder_sign` in a valid memory, on a live builder and signer, two different live
    -- streams and a format: if the SDK answers, the call returns, builder and signer stand where
    -- they were, the builder with its new contents, and the answer is delivered: bytes at the
    -- next address in the variable of C, or dropped without a variable, with their length as the
    -- code; an error as the last error, with the code -1.
    pub sign-Delivered :
        (format : Bytes) (slot : Ptr) (r : Result Bytes C2paError) (b' : sdk.Builder)
        (t : Thread sdk.Env)
        → sdk.sign b k (from_utf8_lossy format) c d w.thread ≡ some ((r, b'), t)
        → (code : ℤ) × (w' : Memory) × (c2pa_builder_sign sdk p (some format) i o g slot w
            ≡ some (code, w'))
          × Delivered slot r w.next code w'
          × (w'.cells p ≡ some (builder b'))
          × (w'.cells g ≡ some (signer k))
    unfolding c2pa_builder_sign
    sign-Delivered format slot r b' t e =
        let w₁ = without w p in
        let w₂ = without w₁ g in
        let pg = apart w p g has_builder has_signer (ground arith) in
        let pi = apart w p i has_builder readable (ground arith) in
        let po = apart w p o has_builder writable (ground arith) in
        let gi = apart w g i has_signer readable (ground arith) in
        let go = apart w g o has_signer writable (ground arith) in
        let i₂ = cells-without w₁ g i gi (cells-without w p i pi readable) in
        let o₂ = cells-without w₁ g o go (cells-without w p o po writable) in
        let u : Memory = record w₂ {
          thread = t;
          cells = update (update w₂.cells g (some (signer k))) p (some (builder b'));
        } in
        let (code, w', ran, got, same) = deliver slot r u in
        let (_, p_lt) = live_bounds valid p has_builder in
        let (_, g_lt) = live_bounds valid g has_signer in
        (
          code,
          w',
          rw (take_builder sdk w p b has_builder, ◌>>=◌)
              (rw (take_signer sdk w₁ g k (cells-without w p g pg has_signer), ◌>>=◌)
                (rw (borrow_stream sdk w₂ i c i₂, ◌>>=◌)
                  (rw (==_ne i o distinct) (
                    rw (borrow_stream sdk w₂ o d o₂, ◌>>=◌)
                      (rw (in_thread-returns _ w₂ (r, b') t e, ◌>>=◌) ran))))),
          got,
          rw (same p p_lt) (rw (==_refl p)),
          rw (same g g_lt) (rw (==_ne p g pg) (rw (==_refl g))),
        )
