-- ===== src/CApi/Protocol/Soundness.antt =====
-- Every call of the C interface (src/c_api.rs, and src/c_stream.rs) against the contract.

use c2pa_c.Memory.Laws.{Every, IsValid}
use c2pa_c.Sdk.{Sdk}
use c2pa_c.Sdk.Calm.{Calm, IsSound}
use c2pa_c.CApi.Session.{Call, perform}
use c2pa_c.CApi.Protocol.{Ready, Allowed, view}
use c2pa_c.CApi.Protocol.Rules.{Memory, Runs, Runs-replies}
use c2pa_c.CApi.Protocol.Files.{
  version-Allowed, error-Allowed, load_settings-Allowed, read_file-Allowed,
  read_ingredient_file-Allowed, sign_file-Allowed, string_free-Allowed, release_string-Allowed,
}
use c2pa_c.CApi.Protocol.Reading.{
  reader_from_stream-Allowed, reader_json-Allowed, reader_resource_to_stream-Allowed,
}
use c2pa_c.CApi.Protocol.Building.{
  builder_from_json-Allowed, builder_from_archive-Allowed, builder_free-Allowed,
  builder_set_no_embed-Allowed, builder_set_remote_url-Allowed, builder_add_resource-Allowed,
  builder_add_ingredient-Allowed, builder_to_archive-Allowed,
}
use c2pa_c.CApi.Protocol.Signing.{builder_placeholder-Allowed, format_embeddable-Allowed}
use c2pa_c.CApi.Protocol.Hashed.{builder_sign-Allowed, builder_sign_hashed-Allowed}
use c2pa_c.CApi.Protocol.Signers.{
  reader_free-Allowed, signer_free-Allowed, release_stream-Allowed, manifest_bytes_free-Allowed,
  signature_free-Allowed, create_stream-Allowed, signer_create-Allowed, signer_reserve_size-Allowed,
  ed25519_sign-Allowed,
}

pub perform-Allowed :
    (sdk : Sdk) (good : sdk.Signer → Type 0)
    → Calm sdk good
    → (w : Memory sdk) → IsValid w
    → Every (IsSound sdk good) w
    → (c : Call sdk) → Ready c (view w)
    → Runs sdk (λ r. r) (Allowed c (view w)) (perform sdk c w)
unfolding perform Ready
perform-Allowed sdk good calm w v s Call.version ready =
    Runs-replies sdk (version-Allowed sdk good calm w v)
perform-Allowed sdk good calm w v s Call.error ready =
    Runs-replies sdk (error-Allowed sdk good calm w v)
perform-Allowed sdk good calm w v s (Call.load_settings a f) ready =
    Runs-replies sdk (load_settings-Allowed sdk good calm w v a f)
perform-Allowed sdk good calm w v s (Call.read_file a d) ready =
    Runs-replies sdk (read_file-Allowed sdk good calm w v a d)
perform-Allowed sdk good calm w v s (Call.read_ingredient_file a d) ready =
    Runs-replies sdk (read_ingredient_file-Allowed sdk good calm w v a d)
perform-Allowed sdk good calm w v s (Call.sign_file a b m i d) ready =
    Runs-replies sdk (sign_file-Allowed sdk good calm w v a b m i d)
perform-Allowed sdk good calm w v s (Call.release_string p) ready =
    Runs-replies sdk (release_string-Allowed sdk good calm w v p ready)
perform-Allowed sdk good calm w v s (Call.string_free p) ready =
    Runs-replies sdk (string_free-Allowed sdk good calm w v p ready)
perform-Allowed sdk good calm w v s (Call.reader_from_stream f i) ready =
    Runs-replies sdk (reader_from_stream-Allowed sdk good calm w v s f i ready)
perform-Allowed sdk good calm w v s (Call.reader_free p) ready =
    Runs-replies sdk (reader_free-Allowed sdk w v p ready)
perform-Allowed sdk good calm w v s (Call.reader_json p) ready =
    Runs-replies sdk (reader_json-Allowed sdk good calm w v s p ready)
perform-Allowed sdk good calm w v s (Call.reader_resource_to_stream p u o) ready =
    Runs-replies sdk (reader_resource_to_stream-Allowed sdk good calm w v s p u o ready)
perform-Allowed sdk good calm w v s (Call.builder_from_json j) ready =
    Runs-replies sdk (builder_from_json-Allowed sdk good calm w v s j)
perform-Allowed sdk good calm w v s (Call.builder_from_archive i) ready =
    Runs-replies sdk (builder_from_archive-Allowed sdk good calm w v s i ready)
perform-Allowed sdk good calm w v s (Call.builder_free p) ready =
    Runs-replies sdk (builder_free-Allowed sdk good calm w v s p ready)
perform-Allowed sdk good calm w v s (Call.builder_set_no_embed p) ready =
    Runs-replies sdk (builder_set_no_embed-Allowed sdk good calm w v s p ready)
perform-Allowed sdk good calm w v s (Call.builder_set_remote_url p u) ready =
    Runs-replies sdk (builder_set_remote_url-Allowed sdk good calm w v s p ready u)
perform-Allowed sdk good calm w v s (Call.builder_add_resource p u i) ready =
    Runs-replies sdk (builder_add_resource-Allowed sdk good calm w v s p ready.0 i ready.1 u)
perform-Allowed sdk good calm w v s (Call.builder_add_ingredient p j f i) ready =
    Runs-replies sdk (builder_add_ingredient-Allowed sdk good calm w v s p ready.0 i ready.1 j f)
perform-Allowed sdk good calm w v s (Call.builder_to_archive p o) ready =
    Runs-replies sdk (builder_to_archive-Allowed sdk good calm w v s p ready.0 o ready.1)
perform-Allowed sdk good calm w v s (Call.builder_sign p f i o g x) (b, k, hi, ho, io) =
    Runs-replies sdk (builder_sign-Allowed sdk good calm w v s p g b k f i o x hi ho io)
perform-Allowed sdk good calm w v s (Call.manifest_bytes_free p) ready =
    Runs-replies sdk (manifest_bytes_free-Allowed sdk w v p ready)
perform-Allowed sdk good calm w v s (Call.builder_placeholder p n f x) ready =
    Runs-replies sdk (builder_placeholder-Allowed sdk good calm w v s p ready n f x)
perform-Allowed sdk good calm w v s (Call.builder_sign_hashed p g h f i x) (b, k, hi) =
    Runs-replies sdk (builder_sign_hashed-Allowed sdk good calm w v s p g b k h f i x hi)
perform-Allowed sdk good calm w v s (Call.format_embeddable f b x) ready =
    Runs-replies sdk (format_embeddable-Allowed sdk good calm w v s f b x)
perform-Allowed sdk good calm w v s (Call.signer_create c k a t u) ready =
    Runs-replies sdk (signer_create-Allowed sdk w v c k a t u)
perform-Allowed sdk good calm w v s (Call.signer_reserve_size p) ready =
    Runs-replies sdk (signer_reserve_size-Allowed sdk w v good calm s p ready)
perform-Allowed sdk good calm w v s (Call.signer_free p) ready =
    Runs-replies sdk (signer_free-Allowed sdk w v p ready)
perform-Allowed sdk good calm w v s (Call.ed25519_sign b k) ready =
    Runs-replies sdk (ed25519_sign-Allowed sdk w v good calm s b k ready)
perform-Allowed sdk good calm w v s (Call.signature_free p) ready =
    Runs-replies sdk (signature_free-Allowed sdk w v p ready)
perform-Allowed sdk good calm w v s (Call.create_stream c) ready =
    Runs-replies sdk (create_stream-Allowed sdk w v c ready)
perform-Allowed sdk good calm w v s (Call.release_stream p) ready =
    Runs-replies sdk (release_stream-Allowed sdk w v p ready)
