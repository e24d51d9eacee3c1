-- ===== src/CApi/Building.antt =====
-- The functions that make and fill a builder (src/c_api.rs, lines 473 to 711).
use c2pa_c.Common.{codes, Result, ok, err, ℤ, pos, ◌>>=◌, ◌>>◌, pure, if◌then◌else◌, ◌==◌}
use c2pa_c.Error.Convert.{C2paError}
use c2pa_c.Stream.{Ptr}
use c2pa_c.Memory.{in_thread, from_raw, borrow, into_raw, alloc}
use c2pa_c.Sdk.{Sdk, builder, as_builder, as_stream}
use c2pa_c.CApi.{CStr, Api, null, minus_one, with_cstr, sdk_error}

module _ (sdk : Sdk) where
  open sdk use {Builder}

  unfoldable pub c2pa_builder_from_json : (manifest_json : CStr) → Api sdk Ptr
  unfolding with_cstr alloc sdk_error
  c2pa_builder_from_json manifest_json =
      with_cstr sdk (codes "manifest_json") manifest_json null λ manifest_json. do
        result ← in_thread (sdk.builder_from_json manifest_json)
        elim result [ ok object ↦ alloc (builder object) | err e ↦ sdk_error sdk e null ]

  unfoldable pub c2pa_builder_from_archive : (stream : Ptr) → Api sdk Ptr
  unfolding alloc sdk_error
  c2pa_builder_from_archive stream = do
    source ← borrow (as_stream sdk) stream
    result ← in_thread (sdk.builder_from_archive source)
    elim result [ ok object ↦ alloc (builder object) | err e ↦ sdk_error sdk e null ]

  unfoldable pub c2pa_builder_free : Ptr → Api sdk (Unit {0})
  c2pa_builder_free builder_ptr =
      if builder_ptr == null
      then pure tt
      else do object ← from_raw (as_builder sdk) builder_ptr; pure tt

  unfoldable pub c2pa_builder_set_no_embed : Ptr → Api sdk (Unit {0})
  unfolding into_raw
  c2pa_builder_set_no_embed builder_ptr = do
    object ← from_raw (as_builder sdk) builder_ptr
    object' ← in_thread (sdk.set_no_embed object)
    into_raw builder_ptr (builder object')

  unfoldable pub c2pa_builder_set_remote_url : (builder_ptr : Ptr) (remote_url : CStr) → Api sdk ℤ
  unfolding with_cstr into_raw
  c2pa_builder_set_remote_url builder_ptr remote_url = do
    object ← from_raw (as_builder sdk) builder_ptr
    with_cstr sdk (codes "remote_url") remote_url minus_one λ remote_url. do
      object' ← in_thread (sdk.set_remote_url object remote_url)
      into_raw builder_ptr (builder object')
      pure (pos 0)

  -- The last lines of three functions: only on success is the builder given away again.
  unfoldable pub keep_or_drop : Ptr → Builder → Result (Unit {0}) C2paError → Api sdk ℤ
  unfolding into_raw sdk_error
  keep_or_drop builder_ptr object (ok _) = do into_raw builder_ptr (builder object); pure (pos 0)
  keep_or_drop builder_ptr object (err e) = sdk_error sdk e minus_one

  unfoldable pub c2pa_builder_add_resource :
      (builder_ptr : Ptr) (uri : CStr) (stream : Ptr) → Api sdk ℤ
  unfolding with_cstr keep_or_drop
  c2pa_builder_add_resource builder_ptr uri stream = do
    object ← from_raw (as_builder sdk) builder_ptr
    with_cstr sdk (codes "uri") uri minus_one λ uri. do
      source ← borrow (as_stream sdk) stream
      (result, object') ← in_thread (sdk.add_resource object uri source)
      keep_or_drop builder_ptr object' result

  unfoldable pub c2pa_builder_add_ingredient_from_stream :
      (builder_ptr : Ptr) (ingredient_json format : CStr) (source : Ptr) → Api sdk ℤ
  unfolding with_cstr keep_or_drop
  c2pa_builder_add_ingredient_from_stream builder_ptr ingredient_json format source = do
    object ← from_raw (as_builder sdk) builder_ptr
    with_cstr sdk (codes "ingredient_json") ingredient_json minus_one λ ingredient_json.
        with_cstr sdk (codes "format") format minus_one λ format. do
          asset ← borrow (as_stream sdk) source
          (result, object') ←
              in_thread (sdk.add_ingredient_from_stream object ingredient_json format asset)
          keep_or_drop builder_ptr object' result

  unfoldable pub c2pa_builder_to_archive : (builder_ptr stream : Ptr) → Api sdk ℤ
  unfolding keep_or_drop
  c2pa_builder_to_archive builder_ptr stream = do
    object ← from_raw (as_builder sdk) builder_ptr
    dest ← borrow (as_stream sdk) stream
    (result, object') ← in_thread (sdk.to_archive object dest)
    keep_or_drop builder_ptr object' result
