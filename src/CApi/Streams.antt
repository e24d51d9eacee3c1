-- ===== src/CApi/Streams.antt =====
-- The streams that C creates and releases (src/c_stream.rs, lines 160 to 196).
use c2pa_c.Common.{◌>>=◌, pure, if◌then◌else◌, ◌==◌}
use c2pa_c.Stream.{Ptr, CStream, c_stream_new}
use c2pa_c.Memory.{in_thread, from_raw, alloc}
use c2pa_c.Sdk.{Sdk, stream, as_stream}
use c2pa_c.CApi.{Api, null}

module _ (sdk : Sdk) where
  -- The context and the four callbacks.
  unfoldable pub c2pa_create_stream : CStream sdk.Env → Api sdk Ptr
  unfolding c_stream_new alloc
  c2pa_create_stream s = do object ← in_thread (c_stream_new s); alloc (stream object)

  -- The context is a box of no bytes, so dropping it with the stream frees no memory of C.
  unfoldable pub c2pa_release_stream : Ptr → Api sdk (Unit {0})
  c2pa_release_stream p =
      if p == null then pure tt else do object ← from_raw (as_stream sdk) p; pure tt
