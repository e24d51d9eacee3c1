-- ===== src/CApi/Ownership/Making.antt =====
-- The functions that make an object, with those that free it (src/c_api.rs and src/c_stream.rs).
use c2pa_c.Common.{
  suc, Bytes, none, some, ok, ◌≡◌, ◌≢◌, refl, ◌>>=◌, arith, ==_refl, ==_ne, from_utf8_lossy,
}
use c2pa_c.Error.Last.{Thread}
use c2pa_c.Stream.{Ptr, CStream, c_stream_new}
use c2pa_c.Memory.{World, update, alloc}
use c2pa_c.Memory.Laws.{IsValid, in_thread-returns}
use c2pa_c.Sdk.{Sdk, Block, builder, reader, stream, signer}
use c2pa_c.CApi.{Api}
use c2pa_c.CApi.Building.{c2pa_builder_from_json}
use c2pa_c.CApi.Reading.{c2pa_reader_from_stream}
use c2pa_c.CApi.Streams.{c2pa_create_stream}
use c2pa_c.CApi.Signers.{CSigningAlg, SignerCallback, c2pa_signer_create, c_callback, signing_alg}
use c2pa_c.CApi.Ownership.{borrow_stream}
use c2pa_c.CApi.Ownership.Freeing.{free_of, IsFreeable, free-once}

module _ (sdk : Sdk) where
  abbrev Memory : Type 0
  Memory = World sdk.Env (Block sdk)

  -- The call makes the object `b` at an address that was not in use and is not null, and the
  -- function that frees such an object then gives back the memory from before.
  pub record GivenBack (b : Block sdk) (make : Api sdk Ptr) (w : Memory) : Type 0 where
    pub address : Ptr
    pub made : Memory
    pub freed : Memory
    pub makes : make w ≡ some (address, made)
    pub unused : w.cells address ≡ none
    pub not_null : address ≢ 0
    pub stands : made.cells address ≡ some b
    pub frees : free_of sdk b address made ≡ some (tt, freed)
    pub as_before : (q : Ptr) → freed.cells q ≡ w.cells q

  -- The memory with a new object, where the thread is at `t`.
  abbrev with_object : Memory → Thread sdk.Env → Block sdk → Memory
  with_object w t b = record {
    thread = t;
    next = suc w.next;
    cells = update w.cells w.next (some b);
    slots = w.slots;
  }

  given_back :
      (w : Memory) (t : Thread sdk.Env) (b : Block sdk) (make : Api sdk Ptr)
      → IsValid w
      → IsFreeable sdk b
      → make w ≡ some (w.next, with_object w t b)
      → GivenBack b make w
  given_back w t b make valid f e =
      let made : Memory = with_object w t b in
      let unused : w.cells w.next ≡ none = valid.fresh w.next (omega arith) in
      let not_null : w.next ≢ 0 = omega (arith, valid.positive) in
      let stands : made.cells w.next ≡ some b = rw (==_refl w.next) in
      record {
        address = w.next;
        made = made;
        freed = record made { cells = update made.cells w.next none };
        makes = e;
        unused = unused;
        not_null = not_null;
        stands = stands;
        frees = (free-once sdk made w.next not_null b stands f).0;
        as_before = λ q. ground (arith, unused);
      }

  module _ (w : Memory) (valid : IsValid w) where
    -- In a valid memory, if the SDK takes the JSON, `c2pa_builder_from_json` makes its builder at
    -- an address that was not in use and is not null, and freeing it by `c2pa_builder_free` gives
    -- back the objects from before.
    builder_from_json-GivenBack :
        (json : Bytes) (b : sdk.Builder) (t : Thread sdk.Env)
        → sdk.builder_from_json (from_utf8_lossy json) w.thread ≡ some (ok b, t)
        → GivenBack (builder b) (c2pa_builder_from_json sdk (some json)) w
    unfolding c2pa_builder_from_json
    builder_from_json-GivenBack json b t e =
        given_back w t (builder b) (c2pa_builder_from_json sdk (some json)) valid tt
          (rw (in_thread-returns _ w (ok b) t e, ◌>>=◌))

    -- In a valid memory, on a format and a live stream, if the SDK reads it,
    -- `c2pa_reader_from_stream` makes its reader at an address that was not in use and is not
    -- null, and freeing it by `c2pa_reader_free` gives back the objects from before.
    reader_from_stream-GivenBack :
        (format : Bytes) (s : Ptr) (c : CStream sdk.Env) (x : sdk.Reader) (t : Thread sdk.Env)
        → w.cells s ≡ some (stream c)
        → sdk.reader_from_stream (from_utf8_lossy format) c w.thread ≡ some (ok x, t)
        → GivenBack (reader x) (c2pa_reader_from_stream sdk (some format) s) w
    unfolding c2pa_reader_from_stream
    reader_from_stream-GivenBack format s c x t readable e =
        given_back w t (reader x) (c2pa_reader_from_stream sdk (some format) s) valid tt (
          rw (borrow_stream sdk w s c readable, ◌>>=◌)
            (rw (in_thread-returns _ w (ok x) t e, ◌>>=◌)))

    -- In a valid memory, on a context that is not null, `c2pa_create_stream` makes the stream of
    -- the context and the callbacks at an address that was not in use and is not null, and
    -- freeing it by `c2pa_release_stream` gives back the objects from before.
    create_stream-GivenBack :
        (c : CStream sdk.Env) → c.context ≢ 0 → GivenBack (stream c) (c2pa_create_stream sdk c) w
    unfolding c2pa_create_stream c_stream_new alloc
    create_stream-GivenBack c ne =
        given_back w w.thread (stream c) (c2pa_create_stream sdk c) valid tt
          (rw (in_thread-returns (c_stream_new c) w c w.thread (rw (==_ne c.context 0 ne)), ◌>>=◌))

    -- In a valid memory, on certificates and a URL, `c2pa_signer_create` makes the signer of the
    -- closure around the callback, the algorithm, the certificates, the context and the URL at an
    -- address that was not in use and is not null, and freeing it by `c2pa_signer_free` gives
    -- back the objects from before.
    pub signer_create-GivenBack :
        (context : Ptr) (callback : SignerCallback sdk.Env) (alg : CSigningAlg) (certs url : Bytes)
        → GivenBack
            (signer (
              sdk.callback_signer
                (c_callback sdk callback)
                (signing_alg sdk alg)
                (from_utf8_lossy certs)
                context
                (some (from_utf8_lossy url))))
            (c2pa_signer_create sdk context callback alg (some certs) (some url))
            w
    unfolding c2pa_signer_create alloc
    signer_create-GivenBack context callback alg certs url =
        given_back w w.thread _
          (c2pa_signer_create sdk context callback alg (some certs) (some url)) valid tt refl
