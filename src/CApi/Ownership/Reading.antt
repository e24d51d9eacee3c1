-- ===== src/CApi/Ownership/Reading.antt =====
-- The functions on a live reader (src/c_api.rs, lines 414 to 466).
use c2pa_c.Common.{
  suc, false, ◌>>◌, ◌≢◌, ℕ, Bytes, codes, none, some, Result, ok, err, ℤ, as_c_int, ◌≡◌, refl,
  ◌>>=◌, arith, ==_refl, ==_ne, from_utf8_lossy,
}
use c2pa_c.Memory.{alloc, World, update}
use c2pa_c.Memory.Laws.{IsValid, live_bounds, in_thread-returns}
use c2pa_c.Sdk.{c_string, Sdk, Block, reader, stream}
use c2pa_c.CApi.{has_zero, to_c_string, minus_one}
use c2pa_c.CApi.Reading.{
  c2pa_reader_json, c2pa_reader_free, size_or_error, c2pa_reader_resource_to_stream,
}
use c2pa_c.CApi.Files.{c2pa_string_free}
use c2pa_c.CApi.Ownership.Freeing.{free-once}
use c2pa_c.Error.{null_parameter}
use c2pa_c.Error.Convert.{C2paError, from_c2pa_error}
use c2pa_c.Error.Last.{Thread}
use c2pa_c.Stream.{Ptr, CStream}
use c2pa_c.CApi.Ownership.{without, take_reader, borrow_stream, apart, cells-without}

module _ (sdk : Sdk) where
  abbrev Memory : Type 0
  Memory = World sdk.Env (Block sdk)

  -- The code and the thread at the end: the size as an `int`, or the last error.
  abbrev pub Sized : Result ℕ C2paError → Thread sdk.Env → ℤ → Memory → Type 0
  Sized (ok len) t code w = (code ≡ as_c_int len) × (w.thread ≡ t)
  Sized (err e) t code w =
      (code ≡ minus_one) × (w.thread ≡ record t { last_error = some (from_c2pa_error e) })

  size_or_error-Sized :
      (r : Result ℕ C2paError) (u : Memory)
      → (code : ℤ) × (w : Memory) × (size_or_error sdk r u ≡ some (code, w))
        × Sized r u.thread code w
        × (w.cells ≡ u.cells)
  unfolding size_or_error
  size_or_error-Sized (ok len) u = (as_c_int len, u, refl, (refl, refl), refl)
  size_or_error-Sized (err e) u = (
    minus_one,
    record u { thread = record u.thread { last_error = some (from_c2pa_error e) } },
    refl,
    (refl, refl),
    refl,
  )

  module _ (w : Memory) (p s : Ptr) {x : sdk.Reader} (owned : w.cells p ≡ some (reader x)) where
    -- `c2pa_reader_resource_to_stream` on a live reader, a live stream and a URI, if the SDK
    -- answers: reader and stream stand where they were; the code is the size as a C int, or -1
    -- with the error as the last error.
    resource_to_stream-kept :
        {c : CStream sdk.Env} (uri : Bytes) (r : Result ℕ C2paError) (t : Thread sdk.Env)
        → w.cells s ≡ some (stream c)
        → sdk.reader_resource_to_stream x (from_utf8_lossy uri) c w.thread ≡ some (r, t)
        → (code : ℤ) × (w' : Memory) × (c2pa_reader_resource_to_stream sdk p (some uri) s w
            ≡ some (code, w'))
          × Sized r t code w'
          × (w'.cells p ≡ some (reader x))
          × (w'.cells s ≡ some (stream c))
    unfolding c2pa_reader_resource_to_stream
    resource_to_stream-kept uri r t writable e =
        let ne = apart w p s owned writable (ground arith) in
        let kept = cells-without w p s ne writable in
        let w₁ = without w p in
        let u : Memory = record w₁ { thread = t; cells = update w₁.cells p (some (reader x)) } in
        let (code, w', ran, sized, same) = size_or_error-Sized r u in
        (
          code,
          w',
          rw (take_reader sdk w p x owned, ◌>>=◌)
              (rw (borrow_stream sdk w₁ s _ kept, ◌>>=◌)
                (rw (in_thread-returns _ w₁ r t e, ◌>>=◌) ran)),
          sized,
          rw same (rw (==_refl p)),
          rw same (rw (==_ne p s ne) writable),
        )

    -- `c2pa_reader_resource_to_stream` on a live reader and a null URI: the code is -1, the last
    -- error names the argument, and what remains is the memory without the reader.
    resource_to_stream-frees :
        c2pa_reader_resource_to_stream sdk p none s w
        ≡ some (
          minus_one,
          record (without w p) {
            thread = record w.thread { last_error = some (null_parameter (codes "uri")) };
          },
        )
    unfolding c2pa_reader_resource_to_stream
    resource_to_stream-frees = rw (take_reader sdk w p x owned, ◌>>=◌)

  module _ (w : Memory) (p : Ptr) {x : sdk.Reader} (owned : w.cells p ≡ some (reader x)) where
    -- `c2pa_reader_json` on a live reader in a valid memory, if the SDK returns a text without a
    -- zero byte: the text is given at the next address, the reader stands where it was, and freeing
    -- the text and then the reader leaves the other objects as they were.
    reader_json-kept :
        (json : Bytes) (t : Thread sdk.Env)
        → IsValid w
        → sdk.reader_json x w.thread ≡ some (json, t)
        → has_zero json ≡ false
        → (u v : Memory) × (c2pa_reader_json sdk p w ≡ some (w.next, u))
          × (u.cells w.next ≡ some (c_string json))
          × (u.cells p ≡ some (reader x))
          × ((do c2pa_string_free sdk w.next; c2pa_reader_free sdk p) u ≡ some (tt, v))
          × (v.thread ≡ t)
          × ((q : Ptr) → v.cells q ≡ (without w p).cells q)
    unfolding c2pa_reader_json to_c_string alloc
    reader_json-kept json t valid e h =
        let (pos, lt) = live_bounds valid p owned in
        let unused : w.cells w.next ≡ none = valid.fresh w.next (omega arith) in
        let apart_next : w.next ≢ p = omega arith in
        let u : Memory = record {
          thread = t;
          next = suc w.next;
          cells =
              update (update (update w.cells p none) p (some (reader x))) w.next
                (some (c_string json));
          slots = w.slots;
        } in
        let here : u.cells w.next ≡ some (c_string json) = rw (==_refl w.next) in
        let kept : u.cells p ≡ some (reader x) = rw (==_ne w.next p apart_next) (rw (==_refl p)) in
        let first = (free-once sdk u w.next (omega arith) (c_string json) here tt).0 in
        let left = cells-without u w.next p apart_next kept in
        let second = (free-once sdk (without u w.next) p (omega arith) (reader x) left tt).0 in
        (
          u,
          without (without u w.next) p,
          rw (take_reader sdk w p x owned, ◌>>=◌)
              (rw (in_thread-returns _ (without w p) json t e, ◌>>=◌) (rw h)),
          here,
          kept,
          rw (first, ◌>>=◌) second,
          refl,
          λ q. ground (arith, unused),
        )
