-- ===== src/Cpp/Scope.antt =====
-- Objects with a scope in the C++ wrapper (src/c2pa.cpp): the adapters that hold a `CStream`, and
-- the variable for manifest bytes. A destructor runs at the end of its scope, after an exception
-- too.
pub mod Streams
pub mod Manifests
pub mod Delivery
pub mod Copying
pub mod Taking
use c2pa_c.Common.{
  ℕ, Bytes, length, take, leb, Bool, ◌||◌, Option, none, some, Result, ok, err, ℤ, is_negative,
  as_u64, M, ◌>>=◌, ◌>>◌, pure, fault, gets, if◌then◌else◌, ◌==◌,
}
use c2pa_c.Stream.{Ptr, CStream}
use c2pa_c.Memory.{World, borrow, write_slot}
use c2pa_c.Sdk.{Sdk, Block, as_boxed_slice}
use c2pa_c.CApi.{Api, null}
use c2pa_c.CApi.Signing.{c2pa_manifest_bytes_free}
use c2pa_c.CApi.Streams.{c2pa_create_stream, c2pa_release_stream}
use c2pa_c.Cpp.{Cpp, throw}

module _ (sdk : Sdk) where
  -- `const auto c_stream = CppIStream(stream); …`
  unfoldable pub with_stream : {A : Type 0} → CStream sdk.Env → (Ptr → Api sdk A) → Api sdk A
  with_stream stream body = do
    c_stream ← c2pa_create_stream sdk stream
    result ← body c_stream
    c2pa_release_stream sdk c_stream
    pure result

  -- `vector(p, p + size)`: more than there is, or a pointer to no bytes, is undefined behaviour.
  unfoldable pub vector_at : Ptr → ℕ → Api sdk Bytes
  vector_at p size = do
    bytes ← borrow (as_boxed_slice sdk) p
    if leb size (length bytes) then pure (take size bytes) else fault

  -- What the four functions that return manifest bytes do with the result and the variable.
  unfoldable pub taken : ℤ → Ptr → Cpp sdk Bytes
  unfolding throw vector_at
  taken result manifest_bytes =
      if is_negative result || (manifest_bytes == null) then throw sdk else (do
        bytes ← vector_at manifest_bytes (as_u64 result)
        c2pa_manifest_bytes_free sdk manifest_bytes
        pure (ok bytes))

  -- `const unsigned char *c2pa_manifest_bytes = nullptr;` at the address `slot`, a call, and the
  -- rest.
  unfoldable pub manifest_bytes_of : (slot : Ptr) → Api sdk ℤ → Cpp sdk Bytes
  unfolding taken write_slot
  manifest_bytes_of slot run = do
    write_slot slot null
    result ← run
    manifest_bytes ← gets λ w. w.slots slot
    taken result manifest_bytes
