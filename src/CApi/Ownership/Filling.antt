-- ===== src/CApi/Ownership/Filling.antt =====
-- The functions that fill a builder, and its owner after them (src/c_api.rs, lines 554 to 686).
use c2pa_c.Common.{
  Bytes, codes, Option, none, some, Result, ok, err, ℤ, pos, ◌≡◌, ◌≢◌, refl, ◌>>=◌, arith, ==_refl,
  from_utf8_lossy,
}
use c2pa_c.Error.{null_parameter}
use c2pa_c.Error.Convert.{C2paError, from_c2pa_error}
use c2pa_c.Error.Last.{Thread}
use c2pa_c.Stream.{Ptr, CStream}
use c2pa_c.Memory.{World, update, from_raw, borrow, in_thread}
use c2pa_c.Memory.Laws.{in_thread-returns}
use c2pa_c.Sdk.{Sdk, Io, Block, builder, stream, as_builder, as_stream}
use c2pa_c.CApi.{minus_one}
use c2pa_c.CApi.Building.{
  keep_or_drop, c2pa_builder_set_remote_url, c2pa_builder_add_resource,
  c2pa_builder_add_ingredient_from_stream, c2pa_builder_to_archive,
}
use c2pa_c.CApi.Ownership.{without, take_builder, borrow_stream, apart, cells-without}

module _ (sdk : Sdk) where
  -- The end of a call at the builder `p`, when the SDK has returned: on success the builder stands
  -- there with its new contents; on error there is none, and the error is the last error.
  abbrev pub Fate :
      Ptr
      → Result (Unit {0}) C2paError
      → sdk.Builder
      → Thread sdk.Env
      → ℤ
      → World sdk.Env (Block sdk)
      → Type 0
  Fate p (ok _) b t code w = (code ≡ pos 0) × (w.cells p ≡ some (builder b)) × (w.thread ≡ t)
  Fate p (err e) b t code w =
      (code ≡ minus_one)
      × (w.cells p ≡ none)
      × (w.thread ≡ record t { last_error = some (from_c2pa_error e) })

  keep_or_drop-Fate :
      (p : Ptr) (b : sdk.Builder) (r : Result (Unit {0}) C2paError) (w : World sdk.Env (Block sdk))
      → w.cells p ≡ none
      → (code : ℤ) × (w' : World sdk.Env (Block sdk)) × (keep_or_drop sdk p b r w ≡ some (code, w'))
        × Fate p r b w.thread code w'
  unfolding keep_or_drop
  keep_or_drop-Fate p b (ok _) w gone = (
    pos 0,
    record w { cells = update w.cells p (some (builder b)) },
    refl,
    (refl, rw (==_refl p), refl),
  )
  keep_or_drop-Fate p b (err e) w gone = (
    minus_one,
    record w { thread = record w.thread { last_error = some (from_c2pa_error e) } },
    refl,
    (refl, gone, refl),
  )

  module _ (w : World sdk.Env (Block sdk)) (p s : Ptr) {b : sdk.Builder} {c : CStream sdk.Env}
      (owned : w.cells p ≡ some (builder b)) (readable : w.cells s ≡ some (stream c)) where
    differ : p ≢ s
    differ = apart w p s owned readable (ground arith)

    -- What the three functions do once their texts are there.
    filled :
        (fill : sdk.Builder
          → CStream sdk.Env
          → Io sdk.Env (Result (Unit {0}) C2paError × sdk.Builder))
        (r : Result (Unit {0}) C2paError) (b' : sdk.Builder) (t : Thread sdk.Env)
        → fill b c w.thread ≡ some ((r, b'), t)
        → (code : ℤ) × (w' : World sdk.Env (Block sdk)) × ((do
          object ← from_raw (as_builder sdk) p
          source ← borrow (as_stream sdk) s
          (result, object') ← in_thread (fill object source)
          keep_or_drop sdk p object' result)
              w
            ≡ some (code, w'))
          × Fate p r b' t code w'
    filled fill r b' t e =
        rw (take_builder sdk w p b owned, ◌>>=◌)
          (rw (borrow_stream sdk (without w p) s c (cells-without w p s differ readable), ◌>>=◌)
            (rw (in_thread-returns _ (without w p) (r, b') t e, ◌>>=◌)
              (keep_or_drop-Fate p b' r (record (without w p) { thread = t }) (rw (==_refl p)))))

    -- `c2pa_builder_add_resource` on a live builder, a live stream and a URI, if the SDK answers:
    -- on success the code is 0 and the client keeps the builder, with its new contents; on error
    -- the code is -1, the builder is freed and the error is the last error.
    add_resource-Fate :
        (uri : Bytes) (r : Result (Unit {0}) C2paError) (b' : sdk.Builder) (t : Thread sdk.Env)
        → sdk.add_resource b (from_utf8_lossy uri) c w.thread ≡ some ((r, b'), t)
        → (code : ℤ) × (w' : World sdk.Env (Block sdk)) × (c2pa_builder_add_resource sdk p
              (some uri)
              s
              w
            ≡ some (code, w'))
          × Fate p r b' t code w'
    unfolding c2pa_builder_add_resource
    add_resource-Fate uri r b' t e =
        filled (λ object source. sdk.add_resource object (from_utf8_lossy uri) source) r b' t e

    -- `c2pa_builder_add_ingredient_from_stream` on a live builder, a live stream, JSON and a
    -- format, if the SDK answers: on success the code is 0 and the client keeps the builder, with
    -- its new contents; on error the code is -1, the builder is freed and the error is the last
    -- error.
    add_ingredient-Fate :
        (json format : Bytes) (r : Result (Unit {0}) C2paError) (b' : sdk.Builder)
        (t : Thread sdk.Env)
        → sdk.add_ingredient_from_stream b
            (from_utf8_lossy json)
            (from_utf8_lossy format)
            c
            w.thread
          ≡ some ((r, b'), t)
        → (code : ℤ) × (w' : World sdk.Env (Block sdk)) × (c2pa_builder_add_ingredient_from_stream
              sdk p
              (some json)
              (some format)
              s
              w
            ≡ some (code, w'))
          × Fate p r b' t code w'
    unfolding c2pa_builder_add_ingredient_from_stream
    add_ingredient-Fate json format r b' t e =
        filled
          (λ object source.
            sdk.add_ingredient_from_stream object (from_utf8_lossy json) (from_utf8_lossy format)
              source)
          r b' t e

    -- `c2pa_builder_to_archive` on a live builder and a live stream, if the SDK answers: on
    -- success the code is 0 and the client keeps the builder, with its new contents; on error the
    -- code is -1, the builder is freed and the error is the last error.
    to_archive-Fate :
        (r : Result (Unit {0}) C2paError) (b' : sdk.Builder) (t : Thread sdk.Env)
        → sdk.to_archive b c w.thread ≡ some ((r, b'), t)
        → (code : ℤ) × (w' : World sdk.Env (Block sdk)) × (c2pa_builder_to_archive sdk p s w
            ≡ some (code, w'))
          × Fate p r b' t code w'
    unfolding c2pa_builder_to_archive
    to_archive-Fate r b' t e = filled sdk.to_archive r b' t e

  -- The thread after a null argument.
  abbrev pub null_argument : Thread sdk.Env → Bytes → Thread sdk.Env
  null_argument t name = record t { last_error = some (null_parameter name) }

  module _ (w : World sdk.Env (Block sdk)) (p : Ptr) {b : sdk.Builder}
      (owned : w.cells p ≡ some (builder b)) where
    -- A null URL, URI, ingredient or format given to a function that fills a live builder: the
    -- code is -1, the last error names the argument, and what remains is the memory without the
    -- builder.
    null_text-frees :
        (s : Ptr) (format : Option Bytes) (json : Bytes)
        → (c2pa_builder_set_remote_url sdk p none w
            ≡ some (
              minus_one,
              record (without w p) { thread = null_argument w.thread (codes "remote_url") },
            ))
          × (c2pa_builder_add_resource sdk p none s w
              ≡ some (
                minus_one,
                record (without w p) { thread = null_argument w.thread (codes "uri") },
              ))
          × (c2pa_builder_add_ingredient_from_stream sdk p none format s w
              ≡ some (
                minus_one,
                record (without w p) { thread = null_argument w.thread (codes "ingredient_json") },
              ))
          × (c2pa_builder_add_ingredient_from_stream sdk p (some json) none s w
              ≡ some (
                minus_one,
                record (without w p) { thread = null_argument w.thread (codes "format") },
              ))
    unfolding c2pa_builder_set_remote_url c2pa_builder_add_resource
        c2pa_builder_add_ingredient_from_stream
    null_text-frees s format json =
        let taken = take_builder sdk w p b owned in
        (rw (taken, ◌>>=◌), rw (taken, ◌>>=◌), rw (taken, ◌>>=◌), rw (taken, ◌>>=◌))

    -- `c2pa_builder_set_remote_url` on a live builder and a URL, if the SDK returns: the code is
    -- 0, the client keeps the builder, with its new contents, and the thread is the one that the
    -- SDK left.
    pub set_remote_url-kept :
        (url : Bytes) (b' : sdk.Builder) (t : Thread sdk.Env)
        → sdk.set_remote_url b (from_utf8_lossy url) w.thread ≡ some (b', t)
        → (w' : World sdk.Env (Block sdk)) × (c2pa_builder_set_remote_url sdk p (some url) w
            ≡ some (pos 0, w'))
          × (w'.cells p ≡ some (builder b'))
          × (w'.thread ≡ t)
    unfolding c2pa_builder_set_remote_url
    set_remote_url-kept url b' t e = (
      record w { thread = t; cells = update (without w p).cells p (some (builder b')) },
      rw (take_builder sdk w p b owned, ◌>>=◌)
          (rw (in_thread-returns _ (without w p) b' t e, ◌>>=◌)),
      rw (==_refl p),
      refl,
    )
