-- ===== src/Cpp/Reader.antt =====
-- `Reader` of the C++ wrapper (src/c2pa.cpp, lines 454 to 516): the pointer to the reader and the
-- one to the stream. The constructor and the member that open a file are left out.
pub mod Members
pub mod Lifetime
use c2pa_c.Common.{
  Bytes, Result, ok, err, ℤ, is_negative, M, ◌>>=◌, ◌>>◌, pure, if◌then◌else◌, ◌==◌,
}
use c2pa_c.Stream.{Ptr}
use c2pa_c.Sdk.{Sdk}
use c2pa_c.CApi.{Api, null}
use c2pa_c.CApi.Reading.{
  c2pa_reader_from_stream, c2pa_reader_free, c2pa_reader_json, c2pa_reader_resource_to_stream,
}
use c2pa_c.CApi.Streams.{c2pa_create_stream, c2pa_release_stream}
use c2pa_c.Cpp.{Cpp, c_str, throw, string_or_throw}
use c2pa_c.Cpp.Iostream.{Iostream, cpp_istream, cpp_ostream}
use c2pa_c.Cpp.Scope.{with_stream}

pub record CppReader : Type 0 where
  pub c2pa_reader : Ptr
  pub cpp_stream : Ptr

module _ (sdk : Sdk) where
  -- A constructor that throws runs no destructor of its object.
  unfoldable pub reader_new : (format : Bytes) → Iostream sdk.Env → Cpp sdk CppReader
  unfolding throw
  reader_new format stream = do
    cpp_stream ← c2pa_create_stream sdk (cpp_istream stream)
    c2pa_reader ← c2pa_reader_from_stream sdk (c_str format) cpp_stream
    if c2pa_reader == null
        then throw sdk
        else pure (ok (record { c2pa_reader = c2pa_reader; cpp_stream = cpp_stream }))

  unfoldable pub reader_delete : CppReader → Api sdk (Unit {0})
  reader_delete r = do c2pa_reader_free sdk r.c2pa_reader; c2pa_release_stream sdk r.cpp_stream

  unfoldable pub json : CppReader → Cpp sdk Bytes
  unfolding string_or_throw
  json r = do result ← c2pa_reader_json sdk r.c2pa_reader; string_or_throw sdk result

  unfoldable pub get_resource : CppReader → (uri : Bytes) → Iostream sdk.Env → Cpp sdk ℤ
  unfolding with_stream throw
  get_resource r uri stream = with_stream sdk (cpp_ostream stream) λ cpp_stream. do
    result ← c2pa_reader_resource_to_stream sdk r.c2pa_reader (c_str uri) cpp_stream
    if is_negative result then throw sdk else pure (ok result)
