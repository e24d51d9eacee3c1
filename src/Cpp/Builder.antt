-- ===== src/Cpp/Builder.antt =====
-- `Builder` of the C++ wrapper (src/c2pa.cpp, lines 536 to 756, and include/c2pa.hpp, line 295).
-- The object is its pointer. Members that open files are left out; the others are given streams.
pub mod Filling
pub mod Making
pub mod Members
pub mod Playing
pub mod Life
pub mod Manifests
pub mod Outcomes
pub mod Emitting
use c2pa_c.Common.{
  ℕ, Bytes, [], ◌∷◌, Option, none, some, Result, ok, err, ℤ, is_negative, M, ◌>>=◌, ◌>>◌, pure,
  if◌then◌else◌, ◌==◌,
}
use c2pa_c.Stream.{Ptr}
use c2pa_c.Sdk.{Sdk}
use c2pa_c.CApi.{Api, null}
use c2pa_c.CApi.Building.{
  c2pa_builder_from_json, c2pa_builder_from_archive, c2pa_builder_free, c2pa_builder_set_no_embed,
  c2pa_builder_set_remote_url, c2pa_builder_add_resource, c2pa_builder_add_ingredient_from_stream,
  c2pa_builder_to_archive,
}
use c2pa_c.CApi.Signing.{
  c2pa_builder_sign, c2pa_builder_data_hashed_placeholder, c2pa_builder_sign_data_hashed_embeddable,
  c2pa_format_embeddable,
}
use c2pa_c.Cpp.{Cpp, c_str, throw}
use c2pa_c.Cpp.Iostream.{Iostream, cpp_istream, cpp_ostream, cpp_iostream}
use c2pa_c.Cpp.Scope.{with_stream, manifest_bytes_of}

module _ (sdk : Sdk) where
  -- The ends of the constructors, and of the members that give a code.
  unfoldable pub builder_or_throw : Ptr → Cpp sdk Ptr
  unfolding throw
  builder_or_throw builder = if builder == null then throw sdk else pure (ok builder)

  unfoldable pub done_or_throw : ℤ → Cpp sdk (Unit {0})
  unfolding throw
  done_or_throw result = if is_negative result then throw sdk else pure (ok tt)

  unfoldable pub builder_new : (manifest_json : Bytes) → Cpp sdk Ptr
  unfolding builder_or_throw
  builder_new manifest_json = do
    builder ← c2pa_builder_from_json sdk (c_str manifest_json)
    builder_or_throw builder

  -- `Builder::from_archive` and the constructor that it calls.
  unfoldable pub from_archive : Iostream sdk.Env → Cpp sdk Ptr
  unfolding with_stream builder_or_throw
  from_archive archive =
      with_stream sdk (cpp_istream archive)
        λ c_archive. do builder ← c2pa_builder_from_archive sdk c_archive; builder_or_throw builder

  -- `Builder::~Builder`
  unfoldable pub builder_delete : Ptr → Api sdk (Unit {0})
  builder_delete builder = c2pa_builder_free sdk builder

  unfoldable pub set_no_embed : Ptr → Api sdk (Unit {0})
  set_no_embed builder = c2pa_builder_set_no_embed sdk builder

  unfoldable pub set_remote_url : Ptr → (remote_url : Bytes) → Cpp sdk (Unit {0})
  unfolding done_or_throw
  set_remote_url builder remote_url = do
    result ← c2pa_builder_set_remote_url sdk builder (c_str remote_url)
    done_or_throw result

  unfoldable pub add_resource : Ptr → (uri : Bytes) → Iostream sdk.Env → Cpp sdk (Unit {0})
  unfolding with_stream done_or_throw
  add_resource builder uri source = with_stream sdk (cpp_istream source) λ c_source. do
    result ← c2pa_builder_add_resource sdk builder (c_str uri) c_source
    done_or_throw result

  unfoldable pub add_ingredient :
      Ptr → (ingredient_json format : Bytes) → Iostream sdk.Env → Cpp sdk (Unit {0})
  unfolding with_stream done_or_throw
  add_ingredient builder ingredient_json format source =
      with_stream sdk (cpp_istream source) λ c_source. do
        result ←
            c2pa_builder_add_ingredient_from_stream sdk builder (c_str ingredient_json)
              (c_str format) c_source
        done_or_throw result

  unfoldable pub to_archive : Ptr → Iostream sdk.Env → Cpp sdk (Unit {0})
  unfolding with_stream done_or_throw
  to_archive builder dest =
      with_stream sdk (cpp_ostream dest)
        λ c_dest. do result ← c2pa_builder_to_archive sdk builder c_dest; done_or_throw result

  -- From here on `slot` is the address of the local variable for the manifest bytes.
  unfoldable pub sign :
      Ptr
      → (format : Bytes) → (source dest : Iostream sdk.Env) → (signer slot : Ptr) → Cpp sdk Bytes
  unfolding with_stream manifest_bytes_of
  sign builder format source dest signer slot = with_stream sdk (cpp_istream source) λ c_source.
      with_stream sdk (cpp_iostream dest) λ c_dest.
        manifest_bytes_of sdk slot
          (c2pa_builder_sign sdk builder (c_str format) c_source c_dest signer slot)

  unfoldable pub data_hashed_placeholder :
      Ptr → (reserve_size : ℕ) → (format : Bytes) → (slot : Ptr) → Cpp sdk Bytes
  unfolding manifest_bytes_of
  data_hashed_placeholder builder reserve_size format slot =
      manifest_bytes_of sdk slot
        (c2pa_builder_data_hashed_placeholder sdk builder reserve_size (c_str format) slot)

  -- The adapter of the asset lives for the call only.
  unfoldable pub sign_data_hashed_embeddable :
      Ptr
      → (signer : Ptr) → (data_hash format : Bytes) → (asset : Option (Iostream sdk.Env))
      → (slot : Ptr) → Cpp sdk Bytes
  unfolding manifest_bytes_of with_stream
  sign_data_hashed_embeddable builder signer data_hash format none slot =
      manifest_bytes_of sdk slot (
        c2pa_builder_sign_data_hashed_embeddable sdk builder signer (c_str data_hash) (c_str format)
          null slot)
  sign_data_hashed_embeddable builder signer data_hash format (some asset) slot =
      manifest_bytes_of sdk slot (
        with_stream sdk (cpp_istream asset) λ c_asset.
          c2pa_builder_sign_data_hashed_embeddable sdk builder signer (c_str data_hash)
            (c_str format) c_asset slot)

  -- `std::vector::data`, which may be null for an empty vector.
  unfoldable pub vector_data : Bytes → Option Bytes
  vector_data [] = if sdk.empty_has_data then some [] else none
  vector_data (b ∷ bytes) = some (b ∷ bytes)

  unfoldable pub format_embeddable : (format : Bytes) → Bytes → (slot : Ptr) → Cpp sdk Bytes
  unfolding manifest_bytes_of
  format_embeddable format bytes slot =
      manifest_bytes_of sdk slot
        (c2pa_format_embeddable sdk (c_str format) (vector_data bytes) slot)
