-- ===== src/CApi/Files/LastError.antt =====
-- The last error as a client sees it, by `c2pa_error` (src/c_api.rs, lines 188 to 190).
use c2pa_c.Common.{
  Bytes, false, some, err, ◌≡◌, refl, ◌>>=◌, arith, ==_refl, ==_ne, from_utf8_lossy, suc,
}
use c2pa_c.Error.{Error, to_string}
use c2pa_c.Error.Convert.{C2paError, from_c2pa_error}
use c2pa_c.Error.Last.{Thread, last_message}
use c2pa_c.Memory.{World, update, alloc, in_thread}
use c2pa_c.Memory.Laws.{in_thread-returns}
use c2pa_c.Sdk.{Sdk, Block, c_string}
use c2pa_c.CApi.{has_zero, null, to_c_string}
use c2pa_c.CApi.Files.{c2pa_error}
use c2pa_c.CApi.Building.{c2pa_builder_from_json}

module _ (sdk : Sdk) where
  -- The memory with one more text in it.
  abbrev with_text : World sdk.Env (Block sdk) → Bytes → World sdk.Env (Block sdk)
  with_text w s = record {
    thread = w.thread;
    next = suc w.next;
    cells = update w.cells w.next (some (c_string s));
    slots = w.slots;
  }

  to_c_string-new :
      (s : Bytes) (w : World sdk.Env (Block sdk))
      → has_zero s ≡ false
      → to_c_string sdk s w ≡ some (w.next, with_text w s)
  unfolding to_c_string alloc
  to_c_string-new s w h = rw h

  told :
      (w : World sdk.Env (Block sdk)) (e : Error)
      → w.thread.last_error ≡ some e
      → has_zero (to_string e) ≡ false
      → c2pa_error sdk w ≡ some (w.next, with_text w (to_string e))
  unfolding c2pa_error to_c_string last_message in_thread alloc
  told w e held h = rw held (rw h)

  -- Where there is a last error whose text has no zero byte, `c2pa_error` gives the text at the
  -- next address and leaves the thread as it is; a second call gives the same text again, at the
  -- address after it, and the first text stays.
  pub c2pa_error-twice :
      (w : World sdk.Env (Block sdk)) (e : Error)
      → w.thread.last_error ≡ some e
      → has_zero (to_string e) ≡ false
      → (u v : World sdk.Env (Block sdk)) × (c2pa_error sdk w ≡ some (w.next, u))
        × (u.cells w.next ≡ some (c_string (to_string e)))
        × (u.thread ≡ w.thread)
        × (c2pa_error sdk u ≡ some (suc w.next, v))
        × (v.cells (suc w.next) ≡ some (c_string (to_string e)))
        × (v.cells w.next ≡ some (c_string (to_string e)))
  c2pa_error-twice w e held h =
      let u = with_text w (to_string e) in
      let v = with_text u (to_string e) in
      (
        u,
        v,
        told w e held h,
        rw (==_refl w.next),
        refl,
        told u e held h,
        rw (==_refl (suc w.next)),
        rw (==_ne (suc w.next) w.next (omega arith)) (rw (==_refl w.next)),
      )

  -- When the SDK refuses the JSON of a builder with an error whose converted text has no zero
  -- byte, `c2pa_builder_from_json` gives null, and `c2pa_error` then gives that text at the next
  -- address.
  c2pa_error-builder_from_json :
      (w : World sdk.Env (Block sdk)) (json : Bytes) (e : C2paError) (t : Thread sdk.Env)
      → sdk.builder_from_json (from_utf8_lossy json) w.thread ≡ some (err e, t)
      → has_zero (to_string (from_c2pa_error e)) ≡ false
      → (u v : World sdk.Env (Block sdk)) × (c2pa_builder_from_json sdk (some json) w
          ≡ some (null, u))
        × (c2pa_error sdk u ≡ some (w.next, v))
        × (v.cells w.next ≡ some (c_string (to_string (from_c2pa_error e))))
  unfolding c2pa_builder_from_json
  c2pa_error-builder_from_json w json e t ran h =
      let u : World sdk.Env (Block sdk) = record w {
        thread = record t { last_error = some (from_c2pa_error e) };
      } in
      let (v, _, told, here, _, _, _, _) = c2pa_error-twice u (from_c2pa_error e) refl h in
      (u, v, rw (in_thread-returns _ w (err e) t ran, ◌>>=◌), told, here)
