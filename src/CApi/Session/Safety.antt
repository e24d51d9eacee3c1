-- ===== src/CApi/Session/Safety.antt =====
-- Sessions of calls (src/c_api.rs) and the validity of the shared memory.
use c2pa_c.Common.{Bytes, ◌<◌, List, [], ◌∷◌, false, some, ◌≡◌, arith}
use c2pa_c.Stream.{Ptr, CStream}
use c2pa_c.Memory.{World}
use c2pa_c.Memory.Laws.{IsValid}
use c2pa_c.Memory.Frame.{has, Fits, Steps, Keeps, Keeps-pure, Keeps-bind, Keeps-weaken, has-append}
use c2pa_c.Sdk.{Sdk, Block, builder, reader, signer, stream, c_string, boxed_slice}
use c2pa_c.Sdk.Calm.{Has}
use c2pa_c.CApi.{Api}
use c2pa_c.CApi.Files.{c2pa_release_string}
use c2pa_c.CApi.Signing.{c2pa_manifest_bytes_free}
use c2pa_c.CApi.Signers.{c2pa_signature_free}
use c2pa_c.CApi.Frame.Reading.{
  reader_from_stream-Keeps, reader_free-Keeps, reader_json-Keeps, reader_resource_to_stream-Keeps,
}
use c2pa_c.CApi.Frame.Building.{
  builder_from_json-Keeps, builder_from_archive-Keeps, builder_free-Keeps,
  builder_set_no_embed-Keeps, builder_set_remote_url-Keeps, builder_add_resource-Keeps,
  builder_add_ingredient-Keeps, builder_to_archive-Keeps,
}
use c2pa_c.CApi.Frame.Signing.{
  builder_sign-Keeps, free_one_byte-Keeps, data_hashed_placeholder-Keeps, sign_data_hashed-Keeps,
  format_embeddable-Keeps,
}
use c2pa_c.CApi.Frame.Others.{
  made_signer, version-Keeps, error-Keeps, load_settings-Keeps, read_file-Keeps,
  read_ingredient_file-Keeps, sign_file-Keeps, string_free-Keeps, signer_create-Keeps,
  signer_reserve_size-Keeps, signer_free-Keeps, ed25519_sign-Keeps, create_stream-Keeps,
  release_stream-Keeps,
}
use c2pa_c.CApi.Session
use c2pa_c.CApi.Session.{Call, Reply, replies, perform, run, handles, all_handles}

-- What the new streams and signers of a call have.
abbrev pub Admits :
    (sdk : Sdk) → (CStream sdk.Env → Type 0) → (sdk.Signer → Type 0) → Call sdk → Type 0
Admits sdk S K (Session.create_stream c) = S c
Admits sdk S K (Session.signer_create c k a t u) = (text : Bytes) → K (made_signer sdk c k a text u)
Admits sdk S K _ = Unit

module _ (sdk : Sdk) {S : CStream sdk.Env → Type 0} {K : sdk.Signer → Type 0} where
  replies-Keeps :
      {A : Type 0} {ts : List Ptr} (make : A → Reply) {m : Api sdk A}
      → Keeps (Has sdk S K) 0 ts m
      → Keeps (Has sdk S K) 0 ts (replies sdk make m)
  replies-Keeps make h = Keeps-bind h λ a. Keeps-pure (make a)

  pub perform-Keeps :
      (c : Call sdk) → Admits sdk S K c → Keeps (Has sdk S K) 0 (handles c) (perform sdk c)
  unfolding perform c2pa_release_string c2pa_manifest_bytes_free c2pa_signature_free
  perform-Keeps Session.version h = replies-Keeps _ (version-Keeps sdk)
  perform-Keeps Session.error h = replies-Keeps _ (error-Keeps sdk)
  perform-Keeps (Session.load_settings s f) h = replies-Keeps _ (load_settings-Keeps sdk s f)
  perform-Keeps (Session.read_file p d) h = replies-Keeps _ (read_file-Keeps sdk p d)
  perform-Keeps (Session.read_ingredient_file p d) h =
      replies-Keeps _ (read_ingredient_file-Keeps sdk p d)
  perform-Keeps (Session.sign_file s t m i d) h = replies-Keeps _ (sign_file-Keeps sdk s t m i d)
  perform-Keeps (Session.release_string p) h = replies-Keeps _ (string_free-Keeps sdk p)
  perform-Keeps (Session.string_free p) h = replies-Keeps _ (string_free-Keeps sdk p)
  perform-Keeps (Session.reader_from_stream f s) h =
      replies-Keeps _ (reader_from_stream-Keeps sdk f s)
  perform-Keeps (Session.reader_free p) h = replies-Keeps _ (reader_free-Keeps sdk p)
  perform-Keeps (Session.reader_json p) h = replies-Keeps _ (reader_json-Keeps sdk p)
  perform-Keeps (Session.reader_resource_to_stream p u s) h =
      replies-Keeps _ (reader_resource_to_stream-Keeps sdk p u s)
  perform-Keeps (Session.builder_from_json j) h = replies-Keeps _ (builder_from_json-Keeps sdk j)
  perform-Keeps (Session.builder_from_archive s) h =
      replies-Keeps _ (builder_from_archive-Keeps sdk s)
  perform-Keeps (Session.builder_free p) h = replies-Keeps _ (builder_free-Keeps sdk p)
  perform-Keeps (Session.builder_set_no_embed p) h =
      replies-Keeps _ (builder_set_no_embed-Keeps sdk p)
  perform-Keeps (Session.builder_set_remote_url p u) h =
      replies-Keeps _ (builder_set_remote_url-Keeps sdk p u)
  perform-Keeps (Session.builder_add_resource p u s) h =
      replies-Keeps _ (builder_add_resource-Keeps sdk p u s)
  perform-Keeps (Session.builder_add_ingredient p j f s) h =
      replies-Keeps _ (builder_add_ingredient-Keeps sdk p j f s)
  perform-Keeps (Session.builder_to_archive p s) h =
      replies-Keeps _ (builder_to_archive-Keeps sdk p s)
  perform-Keeps (Session.builder_sign p f s d g o) h =
      replies-Keeps _ (builder_sign-Keeps sdk p f s d g o)
  perform-Keeps (Session.manifest_bytes_free p) h = replies-Keeps _ (free_one_byte-Keeps sdk p)
  perform-Keeps (Session.builder_placeholder p n f o) h =
      replies-Keeps _ (data_hashed_placeholder-Keeps sdk p n f o)
  perform-Keeps (Session.builder_sign_hashed p g d f a o) h =
      replies-Keeps _ (sign_data_hashed-Keeps sdk p g d f a o)
  perform-Keeps (Session.format_embeddable f b o) h =
      replies-Keeps _ (format_embeddable-Keeps sdk f b o)
  perform-Keeps (Session.signer_create c k a s u) h =
      replies-Keeps _ (signer_create-Keeps sdk c k a s u h)
  perform-Keeps (Session.signer_reserve_size p) h =
      replies-Keeps _ (signer_reserve_size-Keeps sdk p)
  perform-Keeps (Session.signer_free p) h = replies-Keeps _ (signer_free-Keeps sdk p)
  perform-Keeps (Session.ed25519_sign b k) h = replies-Keeps _ (ed25519_sign-Keeps sdk b k)
  perform-Keeps (Session.signature_free p) h = replies-Keeps _ (free_one_byte-Keeps sdk p)
  perform-Keeps (Session.create_stream s) h = replies-Keeps _ (create_stream-Keeps sdk s h)
  perform-Keeps (Session.release_stream p) h = replies-Keeps _ (release_stream-Keeps sdk p)

module _ (sdk : Sdk) where
  -- No property, which every memory has.
  pub Anything : Block sdk → Type 0
  Anything = Has sdk (λ c. Unit) (λ k. Unit)

  Fits-Anything : (w : World sdk.Env (Block sdk)) → IsValid w → Fits Anything w
  unfolding Anything
  Fits-Anything w v = record { valid = v; every = λ p b e. by_kind b }
    where
      by_kind : (b : Block sdk) → Has sdk (λ c. Unit) (λ k. Unit) b
      by_kind (builder _) = tt
      by_kind (reader _) = tt
      by_kind (signer _) = tt
      by_kind (stream _) = tt
      by_kind (c_string _) = tt
      by_kind (boxed_slice _) = tt

  Admits-Anything : (c : Call sdk) → Admits sdk (λ c. Unit) (λ k. Unit) c
  Admits-Anything (Session.create_stream c) = tt
  Admits-Anything (Session.signer_create c k a t u) = λ text. tt
  Admits-Anything _ = tt

  -- One call, whatever the streams and the signers do.
  pub perform-Steps :
      (c : Call sdk) (w w' : World sdk.Env (Block sdk)) (r : Reply)
      → IsValid w
      → perform sdk c w ≡ some (r, w')
      → Steps Anything (handles c) w w'
  unfolding Anything
  perform-Steps c w w' r v e =
      perform-Keeps sdk c (Admits-Anything c) w (Fits-Anything w v) (omega arith) r w' e

  run-Keeps : (cs : List (Call sdk)) → Keeps Anything 0 (all_handles cs) (run sdk cs)
  unfolding run Anything
  run-Keeps [] = Keeps-pure []
  run-Keeps (c ∷ cs) =
      Keeps-bind
        (Keeps-weaken (λ p o. ground (arith, has-append p (handles c) (all_handles cs)))
          (perform-Keeps sdk c (Admits-Anything c)))
        λ reply.
          Keeps-bind
            (Keeps-weaken (λ p o. ground (arith, has-append p (handles c) (all_handles cs)))
              (run-Keeps cs))
            λ rest. Keeps-pure (reply ∷ rest)

  -- From a valid memory, an object that was there before a session that returns, and whose handle
  -- no call was given to own or to use as an owner, stands unchanged at its address.
  pub run-untouched :
      (cs : List (Call sdk)) (w w' : World sdk.Env (Block sdk)) (rs : List Reply)
      → IsValid w
      → run sdk cs w ≡ some (rs, w')
      → (p : Ptr) → p < w.next
      → has p (all_handles cs) ≡ false
      → w'.cells p ≡ w.cells p
  run-untouched cs w w' rs v e = (run-Keeps cs w (Fits-Anything w v) (omega arith) rs w' e).frame
