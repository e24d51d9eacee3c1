-- ===== src/CApi/Ownership/Embedding.antt =====
-- The placeholder of a hashed manifest, and the embeddable form of a raw one (src/c_api.rs, lines
-- 773 to 797 and 891 to 915).
use c2pa_c.Common.{
  ℕ, ◌<◌, Bytes, some, Result, ℤ, ◌≡◌, ◌≢◌, ◌>>=◌, arith, ==_refl, ==_ne, from_utf8_lossy,
}
use c2pa_c.Error.Convert.{C2paError}
use c2pa_c.Error.Last.{Thread}
use c2pa_c.Stream.{Ptr}
use c2pa_c.Memory.{World, update}
use c2pa_c.Memory.Laws.{IsValid, live_bounds, in_thread-returns}
use c2pa_c.Sdk.{Sdk, Block, builder}
use c2pa_c.CApi.Signing.{c2pa_builder_data_hashed_placeholder, c2pa_format_embeddable}
use c2pa_c.CApi.Ownership.{without, take_builder}
use c2pa_c.CApi.Ownership.Signing.{Delivered, deliver}
use c2pa_c.CApi.Ownership.Hashed.{bytes_or_error-optional}

module _ (sdk : Sdk) (w : World sdk.Env (Block sdk)) (slot : Ptr) (there : slot ≢ 0) where
  -- `c2pa_builder_data_hashed_placeholder` on a live builder: the client keeps it, with its new
  -- contents, and the SDK's answer is delivered.
  placeholder-Delivered :
      (p : Ptr) {b : sdk.Builder} (reserved : ℕ) (format : Bytes) (r : Result Bytes C2paError)
      (b' : sdk.Builder) (t : Thread sdk.Env)
      → IsValid w
      → w.cells p ≡ some (builder b)
      → sdk.data_hashed_placeholder b reserved (from_utf8_lossy format) w.thread ≡ some ((r, b'), t)
      → (code : ℤ) × (w' : World sdk.Env (Block sdk)) × (c2pa_builder_data_hashed_placeholder sdk p
            reserved
            (some format)
            slot
            w
          ≡ some (code, w'))
        × Delivered sdk slot r w.next code w'
        × (w'.cells p ≡ some (builder b'))
  unfolding c2pa_builder_data_hashed_placeholder
  placeholder-Delivered p reserved format r b' t valid owned e =
      let w₁ = without w p in
      let u : World sdk.Env (Block sdk) = record w₁ {
        thread = t;
        cells = update w₁.cells p (some (builder b'));
      } in
      let (code, w', ran, got, same) = deliver sdk slot r u in
      let (pos, lt) = live_bounds valid p owned in
      (
        code,
        w',
        rw (==_ne p 0 (omega arith), ==_ne slot 0 there, take_builder sdk w p _ owned, ◌>>=◌)
            (rw (in_thread-returns _ w₁ (r, b') t e, ◌>>=◌)
              (rw (bytes_or_error-optional sdk slot r u there) ran)),
        got,
        rw (same p lt) (rw (==_refl p)),
      )

  -- `c2pa_format_embeddable` with bytes and a variable: the SDK's answer is delivered, and no
  -- object changes.
  pub format_embeddable-Delivered :
      (format bytes : Bytes) (r : Result Bytes C2paError) (t : Thread sdk.Env)
      → sdk.composed_manifest bytes (from_utf8_lossy format) w.thread ≡ some (r, t)
      → (p : Ptr) → p < w.next
      → (code : ℤ) × (w' : World sdk.Env (Block sdk)) × (c2pa_format_embeddable sdk
            (some format)
            (some bytes)
            slot
            w
          ≡ some (code, w'))
        × Delivered sdk slot r w.next code w'
        × (w'.cells p ≡ w.cells p)
  unfolding c2pa_format_embeddable
  format_embeddable-Delivered format bytes r t e p lt =
      let u : World sdk.Env (Block sdk) = record w { thread = t } in
      let (code, w', ran, got, same) = deliver sdk slot r u in
      (
        code,
        w',
        rw (==_ne slot 0 there) (
            rw (in_thread-returns _ w r t e, ◌>>=◌)
              (rw (bytes_or_error-optional sdk slot r u there) ran)),
        got,
        same p lt,
      )
