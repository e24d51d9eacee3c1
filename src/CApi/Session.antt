-- ===== src/CApi/Session.antt =====
-- A client's session: a list of calls of the interface (src/c_api.rs, and the two exported
-- functions of src/c_stream.rs), one after the other.
pub mod Safety
use c2pa_c.Common.{ℕ, Bytes, List, [], ◌∷◌, ◌++◌, Option, ℤ, M, ◌>>=◌, ◌>>◌, pure}
use c2pa_c.Stream.{Ptr, CStream}
use c2pa_c.Sdk.{Sdk}
use c2pa_c.CApi.{CStr, Api}
use c2pa_c.CApi.Files.{
  CSignerInfo, c2pa_version, c2pa_error, c2pa_load_settings, c2pa_read_file,
  c2pa_read_ingredient_file, c2pa_sign_file, c2pa_string_free, c2pa_release_string,
}
use c2pa_c.CApi.Reading.{
  c2pa_reader_from_stream, c2pa_reader_free, c2pa_reader_json, c2pa_reader_resource_to_stream,
}
use c2pa_c.CApi.Building.{
  c2pa_builder_from_json, c2pa_builder_from_archive, c2pa_builder_free, c2pa_builder_set_no_embed,
  c2pa_builder_set_remote_url, c2pa_builder_add_resource, c2pa_builder_add_ingredient_from_stream,
  c2pa_builder_to_archive,
}
use c2pa_c.CApi.Signing.{
  c2pa_builder_sign, c2pa_manifest_bytes_free, c2pa_builder_data_hashed_placeholder,
  c2pa_builder_sign_data_hashed_embeddable, c2pa_format_embeddable,
}
use c2pa_c.CApi.Signers.{
  CSigningAlg, SignerCallback, c2pa_signer_create, c2pa_signer_reserve_size, c2pa_signer_free,
  c2pa_ed25519_sign, c2pa_signature_free,
}
use c2pa_c.CApi.Streams.{c2pa_create_stream, c2pa_release_stream}

-- The exported functions, with their arguments.
pub data Call (sdk : Sdk) : Type 0 where
  version error : Call sdk
  load_settings : (settings format : CStr) → Call sdk
  read_file read_ingredient_file : (path data_dir : CStr) → Call sdk
  sign_file : (source dest manifest : CStr) → CSignerInfo → (data_dir : CStr) → Call sdk
  release_string string_free : Ptr → Call sdk
  reader_from_stream : (format : CStr) (stream : Ptr) → Call sdk
  reader_free reader_json : Ptr → Call sdk
  reader_resource_to_stream : (reader : Ptr) (uri : CStr) (stream : Ptr) → Call sdk
  builder_from_json : CStr → Call sdk
  builder_from_archive : Ptr → Call sdk
  builder_free builder_set_no_embed : Ptr → Call sdk
  builder_set_remote_url : (builder : Ptr) (url : CStr) → Call sdk
  builder_add_resource : (builder : Ptr) (uri : CStr) (stream : Ptr) → Call sdk
  builder_add_ingredient : (builder : Ptr) (json format : CStr) (source : Ptr) → Call sdk
  builder_to_archive : (builder stream : Ptr) → Call sdk
  builder_sign : (builder : Ptr) (format : CStr) (source dest signer slot : Ptr) → Call sdk
  manifest_bytes_free : Ptr → Call sdk
  builder_placeholder : (builder : Ptr) (reserved : ℕ) (format : CStr) (slot : Ptr) → Call sdk
  builder_sign_hashed : (builder signer : Ptr) (hash format : CStr) (asset slot : Ptr) → Call sdk
  format_embeddable : (format : CStr) → Option Bytes → (slot : Ptr) → Call sdk
  signer_create : Ptr → SignerCallback sdk.Env → CSigningAlg → (certs url : CStr) → Call sdk
  signer_reserve_size signer_free : Ptr → Call sdk
  ed25519_sign : Option Bytes → (key : CStr) → Call sdk
  signature_free : Ptr → Call sdk
  create_stream : CStream sdk.Env → Call sdk
  release_stream : Ptr → Call sdk

-- What a function returns.
pub data Reply : Type 0 where
  pointer : Ptr → Reply
  status : ℤ → Reply
  done : Reply

module _ (sdk : Sdk) where
  abbrev pub replies : {A : Type 0} → (A → Reply) → Api sdk A → Api sdk Reply
  replies make m = m >>= λ a. pure (make a)

  abbrev finished : Unit {0} → Reply
  finished _ = done

  unfoldable pub perform : Call sdk → Api sdk Reply
  perform version = replies pointer (c2pa_version sdk)
  perform error = replies pointer (c2pa_error sdk)
  perform (load_settings s f) = replies status (c2pa_load_settings sdk s f)
  perform (read_file p d) = replies pointer (c2pa_read_file sdk p d)
  perform (read_ingredient_file p d) = replies pointer (c2pa_read_ingredient_file sdk p d)
  perform (sign_file s t m i d) = replies pointer (c2pa_sign_file sdk s t m i d)
  perform (release_string p) = replies finished (c2pa_release_string sdk p)
  perform (string_free p) = replies finished (c2pa_string_free sdk p)
  perform (reader_from_stream f s) = replies pointer (c2pa_reader_from_stream sdk f s)
  perform (reader_free p) = replies finished (c2pa_reader_free sdk p)
  perform (reader_json p) = replies pointer (c2pa_reader_json sdk p)
  perform (reader_resource_to_stream p u s) =
      replies status (c2pa_reader_resource_to_stream sdk p u s)
  perform (builder_from_json j) = replies pointer (c2pa_builder_from_json sdk j)
  perform (builder_from_archive s) = replies pointer (c2pa_builder_from_archive sdk s)
  perform (builder_free p) = replies finished (c2pa_builder_free sdk p)
  perform (builder_set_no_embed p) = replies finished (c2pa_builder_set_no_embed sdk p)
  perform (builder_set_remote_url p u) = replies status (c2pa_builder_set_remote_url sdk p u)
  perform (builder_add_resource p u s) = replies status (c2pa_builder_add_resource sdk p u s)
  perform (builder_add_ingredient p j f s) =
      replies status (c2pa_builder_add_ingredient_from_stream sdk p j f s)
  perform (builder_to_archive p s) = replies status (c2pa_builder_to_archive sdk p s)
  perform (builder_sign p f s d g o) = replies status (c2pa_builder_sign sdk p f s d g o)
  perform (manifest_bytes_free p) = replies finished (c2pa_manifest_bytes_free sdk p)
  perform (builder_placeholder p n f o) =
      replies status (c2pa_builder_data_hashed_placeholder sdk p n f o)
  perform (builder_sign_hashed p g h f a o) =
      replies status (c2pa_builder_sign_data_hashed_embeddable sdk p g h f a o)
  perform (format_embeddable f b o) = replies status (c2pa_format_embeddable sdk f b o)
  perform (signer_create c k a s u) = replies pointer (c2pa_signer_create sdk c k a s u)
  perform (signer_reserve_size p) = replies status (c2pa_signer_reserve_size sdk p)
  perform (signer_free p) = replies finished (c2pa_signer_free sdk p)
  perform (ed25519_sign b k) = replies pointer (c2pa_ed25519_sign sdk b k)
  perform (signature_free p) = replies finished (c2pa_signature_free sdk p)
  perform (create_stream s) = replies pointer (c2pa_create_stream sdk s)
  perform (release_stream p) = replies finished (c2pa_release_stream sdk p)

  -- The replies, in order.
  unfoldable pub run : List (Call sdk) → Api sdk (List Reply)
  unfolding perform
  run [] = pure []
  run (c ∷ cs) = do reply ← perform c; rest ← run cs; pure (reply ∷ rest)

-- The handles that a call is given to own or to use as an owner would: a borrowed stream and a
-- variable for the result are not among them.
abbrev pub handles : {sdk : Sdk} → Call sdk → List Ptr
handles (release_string p) = p ∷ []
handles (string_free p) = p ∷ []
handles (reader_free p) = p ∷ []
handles (reader_json p) = p ∷ []
handles (reader_resource_to_stream p _ _) = p ∷ []
handles (builder_free p) = p ∷ []
handles (builder_set_no_embed p) = p ∷ []
handles (builder_set_remote_url p _) = p ∷ []
handles (builder_add_resource p _ _) = p ∷ []
handles (builder_add_ingredient p _ _ _) = p ∷ []
handles (builder_to_archive p _) = p ∷ []
handles (builder_sign p _ _ _ signer _) = p ∷ signer ∷ []
handles (manifest_bytes_free p) = p ∷ []
handles (builder_placeholder p _ _ _) = p ∷ []
handles (builder_sign_hashed p signer _ _ _ _) = p ∷ signer ∷ []
handles (signer_reserve_size p) = p ∷ []
handles (signer_free p) = p ∷ []
handles (signature_free p) = p ∷ []
handles (release_stream p) = p ∷ []
handles _ = []

abbrev pub all_handles : {sdk : Sdk} → List (Call sdk) → List Ptr
all_handles [] = []
all_handles (c ∷ cs) = handles c ++ all_handles cs
