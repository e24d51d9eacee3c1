-- ===== src/CApi/Ownership/Hashed.antt =====
-- `c2pa_builder_sign_data_hashed_embeddable` on live objects (src/c_api.rs, lines 820 to 868).
use c2pa_c.CApi.Signing.{with_asset_hash}
use c2pa_c.Sdk.{stream}
use c2pa_c.Common.{
  Bytes, codes, Option, none, some, Result, ok, err, ℤ, ◌≡◌, ◌≢◌, refl, ◌>>=◌, arith, ==_refl,
  ==_ne, from_utf8_lossy,
}
use c2pa_c.Error.{null_parameter}
use c2pa_c.Error.Convert.{C2paError, from_c2pa_error}
use c2pa_c.Error.Last.{Thread}
use c2pa_c.Stream.{Ptr, CStream}
use c2pa_c.Memory.{World, update}
use c2pa_c.Memory.Laws.{IsValid, live_bounds, in_thread-returns}
use c2pa_c.Sdk.{Sdk, Block, builder, signer, json_error_of}
use c2pa_c.CApi.{minus_one, with_cstr}
use c2pa_c.CApi.Signing.{
  bytes_or_error, optional_bytes_or_error, c2pa_builder_sign_data_hashed_embeddable,
}
use c2pa_c.CApi.Ownership.{without, take_builder, take_signer, borrow_stream, apart, cells-without}
use c2pa_c.CApi.Ownership.Signing.{Delivered, deliver}

module _ (sdk : Sdk) where
  abbrev Memory : Type 0
  Memory = World sdk.Env (Block sdk)

  pub bytes_or_error-optional :
      (slot : Ptr) (r : Result Bytes C2paError) (u : Memory)
      → slot ≢ 0
      → bytes_or_error sdk slot r u ≡ optional_bytes_or_error sdk slot r u
  unfolding bytes_or_error optional_bytes_or_error
  bytes_or_error-optional slot (ok bytes) u ne = rw (==_ne slot 0 ne)
  bytes_or_error-optional slot (err e) u ne = refl

  module _ (w : Memory) (p g slot : Ptr) {b : sdk.Builder} {k : sdk.Signer} (valid : IsValid w)
      (has_builder : w.cells p ≡ some (builder b)) (has_signer : w.cells g ≡ some (signer k))
      (there : slot ≢ 0) where
    not_null : p ≢ 0
    not_null = let (pos, _) = live_bounds valid p has_builder in omega arith

    separate : p ≢ g
    separate = apart w p g has_builder has_signer (ground arith)

    -- `c2pa_builder_sign_data_hashed_embeddable` in a valid memory, on a live builder and signer,
    -- a format, a variable of C and no asset, if the hash is JSON and the SDK answers: the call
    -- returns, the answer is delivered by the variable and the code or as the last error, and the
    -- client keeps the signer, and the builder with its new contents.
    pub sign_hashed-Delivered :
        (json format : Bytes) (hash : sdk.DataHash) (r : Result Bytes C2paError) (b' : sdk.Builder)
        (t : Thread sdk.Env)
        → sdk.data_hash_from_str (from_utf8_lossy json) ≡ ok hash
        → sdk.sign_data_hashed_embeddable b k hash (from_utf8_lossy format) w.thread
          ≡ some ((r, b'), t)
        → (code : ℤ) × (w' : Memory) × (c2pa_builder_sign_data_hashed_embeddable sdk p g
              (some json)
              (some format)
              0
              slot
              w
            ≡ some (code, w'))
          × Delivered sdk slot r w.next code w'
          × (w'.cells p ≡ some (builder b'))
          × (w'.cells g ≡ some (signer k))
    unfolding c2pa_builder_sign_data_hashed_embeddable
    sign_hashed-Delivered json format hash r b' t parsed e =
        let w₁ = without w p in
        let w₂ = without w₁ g in
        let u : Memory = record w₂ {
          thread = t;
          cells = update (update w₂.cells g (some (signer k))) p (some (builder b'));
        } in
        let (code, w', ran, got, same) = deliver sdk slot r u in
        let (_, p_lt) = live_bounds valid p has_builder in
        let (_, g_lt) = live_bounds valid g has_signer in
        (
          code,
          w',
          rw (==_ne p 0 not_null, ==_ne slot 0 there, take_builder sdk w p b has_builder, ◌>>=◌)
              (rw (take_signer sdk w₁ g k (cells-without w p g separate has_signer), ◌>>=◌)
                (rw (parsed, with_cstr)
                  (rw (in_thread-returns _ w₂ (r, b') t e, ◌>>=◌)
                    (rw (bytes_or_error-optional slot r u there) ran)))),
          got,
          rw (same p p_lt) (rw (==_refl p)),
          rw (same g g_lt) (rw (==_ne p g separate) (rw (==_refl g))),
        )

    -- `c2pa_builder_sign_data_hashed_embeddable` in a valid memory, on a live builder and signer,
    -- a variable of C, any format, and any asset or none: for a null hash and for a hash that is
    -- no JSON it returns -1, the error is the last error, and what is left is the memory without
    -- the builder and without the signer.
    pub sign_hashed-frees :
        (json : Bytes) (format : Option Bytes) (asset : Ptr) (e : sdk.SerdeError)
        → sdk.data_hash_from_str (from_utf8_lossy json) ≡ err e
        → let left : Memory = without (without w p) g in
          (c2pa_builder_sign_data_hashed_embeddable sdk p g none format asset slot w
            ≡ some (
              minus_one,
              record left {
                thread = record w.thread { last_error = some (null_parameter (codes "data_hash")) };
              },
            ))
          × (c2pa_builder_sign_data_hashed_embeddable sdk p g (some json) format asset slot w
              ≡ some (
                minus_one,
                record left {
                  thread = record w.thread {
                    last_error = some (from_c2pa_error (json_error_of sdk e));
                  };
                },
              ))
    unfolding c2pa_builder_sign_data_hashed_embeddable
    sign_hashed-frees json format asset e bad =
        let taken = take_builder sdk w p b has_builder in
        let then_taken =
          take_signer sdk (without w p) g k (cells-without w p g separate has_signer) in
        (
          rw (==_ne p 0 not_null, ==_ne slot 0 there, taken, ◌>>=◌) (rw (then_taken, ◌>>=◌)),
          rw (==_ne p 0 not_null, ==_ne slot 0 there, taken, ◌>>=◌)
              (rw (then_taken, ◌>>=◌) (rw (bad, with_cstr))),
        )

    module _ (i : Ptr) {c : CStream sdk.Env} (present : i ≢ 0)
        (readable : w.cells i ≡ some (stream c)) (json : Bytes) (hash : sdk.DataHash)
        (parsed : sdk.data_hash_from_str (from_utf8_lossy json) ≡ ok hash) where
      -- The asset is still there when builder and signer are taken back.
      asset_there : (without (without w p) g).cells i ≡ some (stream c)
      asset_there =
          let pi = apart w p i has_builder readable (ground arith) in
          let gi = apart w g i has_signer readable (ground arith) in
          cells-without (without w p) g i gi (cells-without w p i pi readable)

      -- `c2pa_builder_sign_data_hashed_embeddable` in a valid memory, on a live builder, signer
      -- and asset, a format and a variable of C, if the hash is JSON, the SDK hashes the asset
      -- and answers the signing: the hash that it computed is signed, the answer is delivered,
      -- and the client keeps the signer, and the builder with its new contents.
      pub sign_asset-Delivered :
          (format : Bytes) (hash' : sdk.DataHash) (r : Result Bytes C2paError) (b' : sdk.Builder)
          (t₁ t : Thread sdk.Env)
          → sdk.gen_hash_from_stream hash c w.thread ≡ some ((ok tt, hash'), t₁)
          → sdk.sign_data_hashed_embeddable b k hash' (from_utf8_lossy format) t₁
            ≡ some ((r, b'), t)
          → (code : ℤ) × (w' : Memory) × (c2pa_builder_sign_data_hashed_embeddable sdk p g
                (some json)
                (some format)
                i
                slot
                w
              ≡ some (code, w'))
            × Delivered sdk slot r w.next code w'
            × (w'.cells p ≡ some (builder b'))
            × (w'.cells g ≡ some (signer k))
      unfolding c2pa_builder_sign_data_hashed_embeddable
      sign_asset-Delivered format hash' r b' t₁ t hashed e =
          let w₁ = without w p in
          let w₂ = without w₁ g in
          let w₃ : Memory = record w₂ { thread = t₁ } in
          let u : Memory = record w₂ {
            thread = t;
            cells = update (update w₂.cells g (some (signer k))) p (some (builder b'));
          } in
          let (code, w', ran, got, same) = deliver sdk slot r u in
          let (_, p_lt) = live_bounds valid p has_builder in
          let (_, g_lt) = live_bounds valid g has_signer in
          (
            code,
            w',
            rw (==_ne p 0 not_null, ==_ne slot 0 there, take_builder sdk w p b has_builder, ◌>>=◌)
                (rw (take_signer sdk w₁ g k (cells-without w p g separate has_signer), ◌>>=◌)
                  (rw (parsed, with_cstr, with_asset_hash)
                    (rw (==_ne i 0 present) (
                      rw (borrow_stream sdk w₂ i c asset_there, ◌>>=◌)
                        (rw (in_thread-returns _ w₂ (ok tt, hash') t₁ hashed, ◌>>=◌)
                          (rw (in_thread-returns _ w₃ (r, b') t e, ◌>>=◌)
                            (rw (bytes_or_error-optional slot r u there) ran))))))),
            got,
            rw (same p p_lt) (rw (==_refl p)),
            rw (same g g_lt) (rw (==_ne p g separate) (rw (==_refl g))),
          )

      -- The same function with a live asset that the SDK cannot hash: it returns -1, the error is
      -- the last error, and what is left is the memory without the builder and without the
      -- signer.
      sign_asset-frees :
          (format : Option Bytes) (hash' : sdk.DataHash) (e : C2paError) (t : Thread sdk.Env)
          → sdk.gen_hash_from_stream hash c w.thread ≡ some ((err e, hash'), t)
          → c2pa_builder_sign_data_hashed_embeddable sdk p g (some json) format i slot w
            ≡ some (
              minus_one,
              record (without (without w p) g) {
                thread = record t { last_error = some (from_c2pa_error e) };
              },
            )
      unfolding c2pa_builder_sign_data_hashed_embeddable
      sign_asset-frees format hash' e t failed =
          let w₂ = without (without w p) g in
          rw (==_ne p 0 not_null, ==_ne slot 0 there, take_builder sdk w p b has_builder, ◌>>=◌)
            (rw (take_signer sdk (without w p) g k (cells-without w p g separate has_signer), ◌>>=◌)
              (rw (parsed, with_cstr, with_asset_hash)
                (rw (==_ne i 0 present) (
                  rw (borrow_stream sdk w₂ i c asset_there, ◌>>=◌)
                    (rw (in_thread-returns _ w₂ (err e, hash') t failed, ◌>>=◌))))))
