-- ===== src/CApi/Reading.antt =====
-- The functions on a reader (src/c_api.rs, lines 365 to 471).
use c2pa_c.Common.{ℕ, codes, Result, ok, err, ℤ, as_c_int, ◌>>=◌, ◌>>◌, pure, if◌then◌else◌, ◌==◌}
use c2pa_c.Error.Convert.{C2paError}
use c2pa_c.Stream.{Ptr}
use c2pa_c.Memory.{in_thread, from_raw, borrow, into_raw, alloc}
use c2pa_c.Sdk.{Sdk, reader, as_reader, as_stream}
use c2pa_c.CApi.{CStr, Api, null, minus_one, with_cstr, sdk_error, to_c_string}

module _ (sdk : Sdk) where
  unfoldable pub c2pa_reader_from_stream : (format : CStr) (stream : Ptr) → Api sdk Ptr
  unfolding with_cstr alloc sdk_error
  c2pa_reader_from_stream format stream = with_cstr sdk (codes "format") format null λ format. do
    source ← borrow (as_stream sdk) stream
    result ← in_thread (sdk.reader_from_stream format source)
    elim result [ ok object ↦ alloc (reader object) | err e ↦ sdk_error sdk e null ]

  unfoldable pub c2pa_reader_free : Ptr → Api sdk (Unit {0})
  c2pa_reader_free reader_ptr =
      if reader_ptr == null
      then pure tt
      else do object ← from_raw (as_reader sdk) reader_ptr; pure tt

  unfoldable pub c2pa_reader_json : Ptr → Api sdk Ptr
  unfolding into_raw to_c_string
  c2pa_reader_json reader_ptr = do
    object ← from_raw (as_reader sdk) reader_ptr
    json ← in_thread (sdk.reader_json object)
    into_raw reader_ptr (reader object)
    to_c_string sdk json

  -- Its last lines.
  unfoldable pub size_or_error : Result ℕ C2paError → Api sdk ℤ
  unfolding sdk_error
  size_or_error (ok len) = pure (as_c_int len)
  size_or_error (err e) = sdk_error sdk e minus_one

  unfoldable pub c2pa_reader_resource_to_stream :
      (reader_ptr : Ptr) (uri : CStr) (stream : Ptr) → Api sdk ℤ
  unfolding with_cstr into_raw size_or_error
  c2pa_reader_resource_to_stream reader_ptr uri stream = do
    object ← from_raw (as_reader sdk) reader_ptr
    with_cstr sdk (codes "uri") uri minus_one λ uri. do
      dest ← borrow (as_stream sdk) stream
      result ← in_thread (sdk.reader_resource_to_stream object uri dest)
      into_raw reader_ptr (reader object)
      size_or_error result
