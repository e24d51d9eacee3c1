-- ===== src/CApi/Signing.antt =====
-- The functions that sign by a builder, and the manifest bytes that they return (src/c_api.rs,
-- lines 713 to 933).
use c2pa_c.Common.{
  ℕ, Bytes, codes, length, Option, none, some, Result, ok, err, ℤ, as_c_int, ◌>>=◌, ◌>>◌, pure,
  fault, if◌then◌else◌, ◌==◌,
}
use c2pa_c.Error.{null_parameter}
use c2pa_c.Error.Convert.{C2paError}
use c2pa_c.Stream.{Ptr}
use c2pa_c.Memory.{in_thread, from_raw, borrow, into_raw, fail_with}
use c2pa_c.Sdk.{
  Sdk, json_error_of, builder, signer, as_builder, as_signer, as_stream, as_boxed_slice,
}
use c2pa_c.CApi.{CStr, Api, null, minus_one, with_cstr, null_check, sdk_error, give_bytes}

module _ (sdk : Sdk) where
  open sdk use {Builder, Signer, DataHash}

  -- `match result`, where the variable of C was tested before.
  unfoldable pub bytes_or_error : Ptr → Result Bytes C2paError → Api sdk ℤ
  unfolding give_bytes sdk_error
  bytes_or_error slot (ok bytes) = give_bytes sdk slot bytes
  bytes_or_error slot (err e) = sdk_error sdk e minus_one

  -- `match result` of `c2pa_builder_sign`: without a variable of C the bytes are dropped.
  unfoldable pub optional_bytes_or_error : Ptr → Result Bytes C2paError → Api sdk ℤ
  unfolding give_bytes sdk_error
  optional_bytes_or_error slot (ok bytes) =
      if slot == null then pure (as_c_int (length bytes)) else give_bytes sdk slot bytes
  optional_bytes_or_error slot (err e) = sdk_error sdk e minus_one

  -- Two `&mut` to one stream are undefined behaviour.
  unfoldable pub c2pa_builder_sign :
      (builder_ptr : Ptr) (format : CStr) (source dest signer_ptr manifest_bytes_ptr : Ptr)
      → Api sdk ℤ
  unfolding with_cstr into_raw optional_bytes_or_error
  c2pa_builder_sign builder_ptr format source dest signer_ptr manifest_bytes_ptr = do
    object ← from_raw (as_builder sdk) builder_ptr
    with_cstr sdk (codes "format") format minus_one λ format. do
      c2pa_signer ← from_raw (as_signer sdk) signer_ptr
      input ← borrow (as_stream sdk) source
      output ← (if source == dest then fault else borrow (as_stream sdk) dest)
      (result, object') ← in_thread (sdk.sign object c2pa_signer format input output)
      into_raw signer_ptr (signer c2pa_signer)
      into_raw builder_ptr (builder object')
      optional_bytes_or_error manifest_bytes_ptr result

  -- The pointer is freed as a box of one byte: for a slice of any other length the layout is not
  -- that of its allocation, which is undefined behaviour.
  unfoldable pub free_one_byte : Ptr → Api sdk (Unit {0})
  free_one_byte p = if p == null then pure tt else (do
    bytes ← from_raw (as_boxed_slice sdk) p
    if length bytes == 1 then pure tt else fault)

  unfoldable pub c2pa_manifest_bytes_free : Ptr → Api sdk (Unit {0})
  unfolding free_one_byte
  c2pa_manifest_bytes_free manifest_bytes_ptr = free_one_byte manifest_bytes_ptr

  unfoldable pub c2pa_builder_data_hashed_placeholder :
      (builder_ptr : Ptr) (reserved_size : ℕ) (format : CStr) (manifest_bytes_ptr : Ptr) → Api sdk ℤ
  unfolding null_check with_cstr into_raw bytes_or_error
  c2pa_builder_data_hashed_placeholder builder_ptr reserved_size format manifest_bytes_ptr =
      null_check sdk (codes "builder_ptr") builder_ptr minus_one (
        null_check sdk (codes "manifest_bytes_ptr") manifest_bytes_ptr minus_one (do
          object ← from_raw (as_builder sdk) builder_ptr
          with_cstr sdk (codes "format") format minus_one λ format. do
            (result, object') ← in_thread (sdk.data_hashed_placeholder object reserved_size format)
            into_raw builder_ptr (builder object')
            bytes_or_error manifest_bytes_ptr result))

  -- The end of `c2pa_builder_sign_data_hashed_embeddable`, from the second `format` line on.
  unfoldable pub sign_hashed :
      (builder_ptr signer_ptr : Ptr)
      → Builder
      → Signer
      → DataHash
      → (format : CStr) → (manifest_bytes_ptr : Ptr) → Api sdk ℤ
  unfolding with_cstr into_raw bytes_or_error
  sign_hashed builder_ptr signer_ptr object c2pa_signer data_hash format manifest_bytes_ptr =
      with_cstr sdk (codes "format") format minus_one λ format. do
        (result, object') ←
            in_thread (sdk.sign_data_hashed_embeddable object c2pa_signer data_hash format)
        into_raw signer_ptr (signer c2pa_signer)
        into_raw builder_ptr (builder object')
        bytes_or_error manifest_bytes_ptr result

  -- With no asset the hashes of the JSON are kept; with one they are computed from the stream.
  unfoldable pub with_asset_hash : (asset : Ptr) → DataHash → (DataHash → Api sdk ℤ) → Api sdk ℤ
  unfolding sdk_error
  with_asset_hash asset data_hash rest = if asset == null then rest data_hash else (do
    source ← borrow (as_stream sdk) asset
    (result, data_hash') ← in_thread (sdk.gen_hash_from_stream data_hash source)
    elim result [ ok _ ↦ rest data_hash' | err e ↦ sdk_error sdk e minus_one ])

  unfoldable pub c2pa_builder_sign_data_hashed_embeddable :
      (builder_ptr signer_ptr : Ptr) (data_hash format : CStr) (asset manifest_bytes_ptr : Ptr)
      → Api sdk ℤ
  unfolding null_check with_cstr json_error_of sdk_error with_asset_hash sign_hashed
  c2pa_builder_sign_data_hashed_embeddable builder_ptr signer_ptr data_hash format asset
        manifest_bytes_ptr =
      null_check sdk (codes "builder_ptr") builder_ptr minus_one (
        null_check sdk (codes "manifest_bytes_ptr") manifest_bytes_ptr minus_one (do
          object ← from_raw (as_builder sdk) builder_ptr
          c2pa_signer ← from_raw (as_signer sdk) signer_ptr
          with_cstr sdk (codes "data_hash") data_hash minus_one λ data_hash_json.
              elim (sdk.data_hash_from_str data_hash_json) [
                | err e ↦ sdk_error sdk (json_error_of sdk e) minus_one
                | ok data_hash ↦ with_asset_hash asset data_hash λ data_hash.
                    sign_hashed builder_ptr signer_ptr object c2pa_signer data_hash format
                      manifest_bytes_ptr
              ]))

  -- The raw manifest is null, or the bytes that pointer and size describe.
  unfoldable pub c2pa_format_embeddable :
      (format : CStr) (manifest_bytes : Option Bytes) (result_bytes_ptr : Ptr) → Api sdk ℤ
  unfolding null_check with_cstr bytes_or_error fail_with
  c2pa_format_embeddable format none result_bytes_ptr =
      fail_with (null_parameter (codes "manifest_bytes_ptr")) minus_one
  c2pa_format_embeddable format (some bytes) result_bytes_ptr =
      null_check sdk (codes "result_bytes_ptr") result_bytes_ptr minus_one (
        with_cstr sdk (codes "format") format minus_one λ format. do
          result ← in_thread (sdk.composed_manifest bytes format)
          bytes_or_error result_bytes_ptr result)
