-- ===== src/CApi/Protocol.antt =====
-- The contract of the C interface (src/c_api.rs, and the exported functions of src/c_stream.rs) as
-- a client reads it: which objects it holds, what a call wants, and what a call may do. Nothing
-- here looks into the SDK or into the memory.
pub mod Handles
pub mod Rules
pub mod Reading
pub mod Files
pub mod Signing
pub mod Hashed
pub mod Signers
pub mod Soundness
pub mod Program
pub mod Clients
pub mod Twice
pub mod Building
pub mod Outcomes
use c2pa_c.Common.{
  Bool, true, false, [], ℕ, zero, suc, Bytes, codes, length, Option, none, some, ℤ, pos, as_c_int,
  as_i64, ◌≡◌, ◌≢◌, ◌⊎◌,
}
use c2pa_c.Error.{Error, null_parameter, to_string}
use c2pa_c.Stream.{Ptr}
use c2pa_c.Memory.{World, update}
use c2pa_c.Sdk.{Sdk, Block, builder, reader, signer, stream, c_string, boxed_slice}
use c2pa_c.CApi.{CStr, null, minus_one, has_zero}
use c2pa_c.CApi.Session.{Call, Reply, pointer, status, done}
pub use c2pa_c.CApi.Protocol.Outcomes.{
  Kind, a_builder, a_reader, a_signer, a_stream, a_text, a_slice, Holdings, Client, with_kind, Same,
  Succeeds, Finishes, Fails, FailsNull, Loses, LosesBoth, Frees, Makes, SaysBy, Says, Tells, Counts,
  Delivers, WithError, message, Given, Present,
}

module _ {sdk : Sdk} where
  -- What a call wants: live objects of the right kinds. A stream may be written and read by one
  -- call only if they are two; bytes can be freed only if there is one.
  unfoldable pub Ready : Call sdk → Client → Type 0
  Ready (Call.release_string p) s = (p ≡ 0) ⊎ ((t : Bytes) × (s.holds.kinds p ≡ some (a_text t)))
  Ready (Call.string_free p) s = (p ≡ 0) ⊎ ((t : Bytes) × (s.holds.kinds p ≡ some (a_text t)))
  Ready (Call.reader_from_stream f i) s = s.holds.kinds i ≡ some a_stream
  Ready (Call.reader_free p) s = (p ≡ 0) ⊎ (s.holds.kinds p ≡ some a_reader)
  Ready (Call.reader_json p) s = s.holds.kinds p ≡ some a_reader
  Ready (Call.reader_resource_to_stream p u o) s =
      (s.holds.kinds p ≡ some a_reader) × (s.holds.kinds o ≡ some a_stream)
  Ready (Call.builder_from_archive i) s = s.holds.kinds i ≡ some a_stream
  Ready (Call.builder_free p) s = (p ≡ 0) ⊎ (s.holds.kinds p ≡ some a_builder)
  Ready (Call.builder_set_no_embed p) s = s.holds.kinds p ≡ some a_builder
  Ready (Call.builder_set_remote_url p u) s = s.holds.kinds p ≡ some a_builder
  Ready (Call.builder_add_resource p u i) s =
      (s.holds.kinds p ≡ some a_builder) × (s.holds.kinds i ≡ some a_stream)
  Ready (Call.builder_add_ingredient p j f i) s =
      (s.holds.kinds p ≡ some a_builder) × (s.holds.kinds i ≡ some a_stream)
  Ready (Call.builder_to_archive p o) s =
      (s.holds.kinds p ≡ some a_builder) × (s.holds.kinds o ≡ some a_stream)
  Ready (Call.builder_sign p f i o g v) s =
      (s.holds.kinds p ≡ some a_builder)
      × (s.holds.kinds g ≡ some a_signer)
      × (s.holds.kinds i ≡ some a_stream)
      × (s.holds.kinds o ≡ some a_stream)
      × (i ≢ o)
  Ready (Call.manifest_bytes_free p) s = (p ≡ 0) ⊎ (s.holds.kinds p ≡ some (a_slice 1))
  Ready (Call.builder_placeholder p n f v) s = s.holds.kinds p ≡ some a_builder
  Ready (Call.builder_sign_hashed p g h f i v) s =
      (s.holds.kinds p ≡ some a_builder)
      × (s.holds.kinds g ≡ some a_signer)
      × ((i ≡ 0) ⊎ (s.holds.kinds i ≡ some a_stream))
  Ready (Call.signer_reserve_size p) s = (p ≡ 0) ⊎ (s.holds.kinds p ≡ some a_signer)
  Ready (Call.signer_free p) s = (p ≡ 0) ⊎ (s.holds.kinds p ≡ some a_signer)
  Ready (Call.ed25519_sign none k) s = ⊥
  Ready (Call.signature_free p) s = (p ≡ 0) ⊎ (s.holds.kinds p ≡ some (a_slice 1))
  Ready (Call.create_stream c) s = c.context ≢ 0
  Ready (Call.release_stream p) s = (p ≡ 0) ⊎ (s.holds.kinds p ≡ some a_stream)
  Ready _ s = Unit

  -- What a call may do. The arguments are tested in the order of the code.
  unfoldable pub Allowed : Call sdk → Client → Reply → Client → Type 0
  Allowed Call.version s r s' = Tells s r s' × (s'.error ≡ s.error)
  Allowed Call.error s r s' = Says s r s' (message s.error) × (s'.error ≡ s.error)
  Allowed (Call.load_settings t f) s r s' =
      Given t (codes "settings") (Fails s r s')
        (Given f (codes "format") (Fails s r s') (Succeeds s r s' ⊎ WithError (Fails s r s')))
  Allowed (Call.read_file p d) s r s' =
      Given p (codes "path") (FailsNull s r s') (Tells s r s' ⊎ WithError (FailsNull s r s'))
  Allowed (Call.read_ingredient_file p d) s r s' =
      Given p (codes "path") (FailsNull s r s') (
        Given d (codes "data_dir") (FailsNull s r s') (Tells s r s' ⊎ WithError (FailsNull s r s')))
  Allowed (Call.sign_file p q m i d) s r s' = Given p (codes "source_path") (FailsNull s r s') (
      Given q (codes "dest_path") (FailsNull s r s') (
        Given m (codes "manifest") (FailsNull s r s') (
          Given i.alg (codes "signer_info.alg") (FailsNull s r s') (
            Given i.sign_cert (codes "signer_info.sign_cert") (FailsNull s r s') (
              Given i.private_key (codes "signer_info.private_key") (FailsNull s r s')
                (Makes s r s' (a_text []) ⊎ WithError (FailsNull s r s')))))))
  Allowed (Call.release_string p) s r s' = Frees s r s' p
  Allowed (Call.string_free p) s r s' = Frees s r s' p
  Allowed (Call.reader_from_stream f i) s r s' =
      Given f (codes "format") (FailsNull s r s')
        (Makes s r s' a_reader ⊎ WithError (FailsNull s r s'))
  Allowed (Call.reader_free p) s r s' = Frees s r s' p
  Allowed (Call.reader_json p) s r s' = Tells s r s'
  Allowed (Call.reader_resource_to_stream p u o) s r s' =
      Given u (codes "uri") (Loses s r s' p) (Counts s r s' as_c_int ⊎ WithError (Fails s r s'))
  Allowed (Call.builder_from_json j) s r s' =
      Given j (codes "manifest_json") (FailsNull s r s')
        (Makes s r s' a_builder ⊎ WithError (FailsNull s r s'))
  Allowed (Call.builder_from_archive i) s r s' =
      Makes s r s' a_builder ⊎ WithError (FailsNull s r s')
  Allowed (Call.builder_free p) s r s' = Frees s r s' p
  Allowed (Call.builder_set_no_embed p) s r s' = Finishes s r s'
  Allowed (Call.builder_set_remote_url p u) s r s' =
      Given u (codes "remote_url") (Loses s r s' p) (Succeeds s r s')
  Allowed (Call.builder_add_resource p u i) s r s' =
      Given u (codes "uri") (Loses s r s' p) (Succeeds s r s' ⊎ WithError (Loses s r s' p))
  Allowed (Call.builder_add_ingredient p j f i) s r s' =
      Given j (codes "ingredient_json") (Loses s r s' p)
        (Given f (codes "format") (Loses s r s' p) (Succeeds s r s' ⊎ WithError (Loses s r s' p)))
  Allowed (Call.builder_to_archive p o) s r s' = Succeeds s r s' ⊎ WithError (Loses s r s' p)
  Allowed (Call.builder_sign p f i o g v) s r s' =
      Given f (codes "format") (Loses s r s' p) (Delivers s r s' v ⊎ WithError (Fails s r s'))
  Allowed (Call.manifest_bytes_free p) s r s' = Frees s r s' p
  Allowed (Call.builder_placeholder p n f v) s r s' =
      Present v (codes "manifest_bytes_ptr") (Fails s r s')
        (Given f (codes "format") (Loses s r s' p) (Delivers s r s' v ⊎ WithError (Fails s r s')))
  Allowed (Call.builder_sign_hashed p g h f i v) s r s' =
      Present v (codes "manifest_bytes_ptr") (Fails s r s') (
        Given h (codes "data_hash") (LosesBoth s r s' p g) (
          WithError (LosesBoth s r s' p g)
          ⊎ Given f (codes "format") (LosesBoth s r s' p g)
              (Delivers s r s' v ⊎ WithError (Fails s r s'))))
  Allowed (Call.format_embeddable f none v) s r s' =
      Fails s r s' (null_parameter (codes "manifest_bytes_ptr"))
  Allowed (Call.format_embeddable f (some b) v) s r s' =
      Present v (codes "result_bytes_ptr") (Fails s r s')
        (Given f (codes "format") (Fails s r s') (Delivers s r s' v ⊎ WithError (Fails s r s')))
  Allowed (Call.signer_create c k a t u) s r s' =
      Given t (codes "certs") (FailsNull s r s') (Makes s r s' a_signer)
  Allowed (Call.signer_reserve_size p) s r s' =
      Present p (codes "$ptr") (Fails s r s') (Counts s r s' as_i64)
  Allowed (Call.signer_free p) s r s' = Frees s r s' p
  Allowed (Call.ed25519_sign b k) s r s' =
      Given k (codes "private_key") (FailsNull s r s')
        (((n : ℕ) × Makes s r s' (a_slice n)) ⊎ ((r ≡ pointer null) × (s'.holds ≡ s.holds)))
  Allowed (Call.signature_free p) s r s' = Frees s r s' p
  Allowed (Call.create_stream c) s r s' = Makes s r s' a_stream
  Allowed (Call.release_stream p) s r s' = Frees s r s' p

-- What a client sees of the memory.
abbrev pub kind_of : {sdk : Sdk} → Block sdk → Kind
kind_of (builder _) = a_builder
kind_of (reader _) = a_reader
kind_of (signer _) = a_signer
kind_of (stream _) = a_stream
kind_of (c_string t) = a_text t
kind_of (boxed_slice bytes) = a_slice (length bytes)

abbrev pub kind_at : {sdk : Sdk} → Option (Block sdk) → Option Kind
kind_at none = none
kind_at (some b) = some (kind_of b)

abbrev pub view : {sdk : Sdk} → World sdk.Env (Block sdk) → Client
view w = record {
  holds = record { kinds = λ p. kind_at (w.cells p); variables = w.slots };
  error = w.thread.last_error;
}
