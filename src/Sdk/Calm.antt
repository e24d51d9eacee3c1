-- ===== src/Sdk/Calm.antt =====
-- Which SDK, which streams and which signers answer: every run returns, with a result or an error.
use c2pa_c.Common.{ℕ, Bytes, Option, some, ok, ℤ, M, ◌≡◌}
use c2pa_c.Error.Last.{Thread}
use c2pa_c.Stream.{CStream, SeekMode}
use c2pa_c.Sdk.{Sdk, Block, signer, stream}

abbrev pub Answers : {W A : Type 0} → M W A → Type 0
Answers {W} {A} m = (t : W) → (a : A) × (t' : W) × (m t ≡ some (a, t'))

-- The callbacks of a stream.
pub record Answering {E : Type 0} (c : CStream E) : Type 0 where
  pub reads : (buf : Bytes) → Answers (c.reader c.context buf)
  pub seeks : (offset : ℤ) (mode : SeekMode) → Answers (c.seeker c.context offset mode)
  pub writes : (buf : Bytes) → Answers (c.writer c.context buf)
  pub flushes : Answers (c.flusher c.context)

module _ (sdk : Sdk) (good : sdk.Signer → Type 0) where
  open sdk use {Env, Builder, Reader, Signer, Manifest, Ingredient, DataHash, SigningAlg}

  -- The SDK answers when it is given streams that answer and good signers; those that it makes
  -- itself are good.
  pub record Calm : Type 0 where
    pub load_settings_from_str : (s f : Bytes) → Answers (sdk.load_settings_from_str s f)
    pub reader_from_stream :
        (f : Bytes) (c : CStream Env) → Answering c → Answers (sdk.reader_from_stream f c)
    pub reader_from_file : (path : Bytes) → Answers (sdk.reader_from_file path)
    pub reader_json : (x : Reader) → Answers (sdk.reader_json x)
    pub reader_to_string : (x : Reader) → Answers (sdk.reader_to_string x)
    pub reader_to_folder : (x : Reader) (dir : Bytes) → Answers (sdk.reader_to_folder x dir)
    pub reader_resource_to_stream :
        (x : Reader) (uri : Bytes) (c : CStream Env)
        → Answering c
        → Answers (sdk.reader_resource_to_stream x uri c)
    pub builder_from_json : (json : Bytes) → Answers (sdk.builder_from_json json)
    pub builder_from_archive :
        (c : CStream Env) → Answering c → Answers (sdk.builder_from_archive c)
    pub set_no_embed : (b : Builder) → Answers (sdk.set_no_embed b)
    pub set_remote_url : (b : Builder) (url : Bytes) → Answers (sdk.set_remote_url b url)
    pub add_resource :
        (b : Builder) (uri : Bytes) (c : CStream Env)
        → Answering c
        → Answers (sdk.add_resource b uri c)
    pub add_ingredient_from_stream :
        (b : Builder) (json f : Bytes) (c : CStream Env)
        → Answering c
        → Answers (sdk.add_ingredient_from_stream b json f c)
    pub to_archive : (b : Builder) (c : CStream Env) → Answering c → Answers (sdk.to_archive b c)
    pub sign :
        (b : Builder) (k : Signer) (f : Bytes) (c d : CStream Env)
        → good k
        → Answering c
        → Answering d
        → Answers (sdk.sign b k f c d)
    pub data_hashed_placeholder :
        (b : Builder) (n : ℕ) (f : Bytes) → Answers (sdk.data_hashed_placeholder b n f)
    pub sign_data_hashed_embeddable :
        (b : Builder) (k : Signer) (h : DataHash) (f : Bytes)
        → good k
        → Answers (sdk.sign_data_hashed_embeddable b k h f)
    pub gen_hash_from_stream :
        (h : DataHash) (c : CStream Env) → Answering c → Answers (sdk.gen_hash_from_stream h c)
    pub composed_manifest : (bytes f : Bytes) → Answers (sdk.composed_manifest bytes f)
    pub manifest_from_json : (json : Bytes) → Answers (sdk.manifest_from_json json)
    pub with_base_path : (m : Manifest) (path : Bytes) → Answers (sdk.with_base_path m path)
    pub set_parent : (m : Manifest) (i : Ingredient) → Answers (sdk.set_parent m i)
    pub embed :
        (m : Manifest) (source dest : Bytes) (k : Signer)
        → good k
        → Answers (sdk.embed m source dest k)
    pub ingredient_from_file : (path : Bytes) → Answers (sdk.ingredient_from_file path)
    pub ingredient_from_file_with_folder :
        (path dir : Bytes) → Answers (sdk.ingredient_from_file_with_folder path dir)
    pub ingredient_to_string : (i : Ingredient) → Answers (sdk.ingredient_to_string i)
    pub from_keys :
        (cert key : Bytes) (alg : SigningAlg) (url : Option Bytes)
        → Answers (sdk.from_keys cert key alg url)
    pub from_keys_good :
        (cert key : Bytes) (alg : SigningAlg) (url : Option Bytes) (k : Signer) (t t' : Thread Env)
        → sdk.from_keys cert key alg url t ≡ some (ok k, t')
        → good k
    pub reserve_size : (k : Signer) → good k → Answers (sdk.reserve_size k)
    pub ed25519_sign : (bytes key : Bytes) → Answers (sdk.ed25519_sign bytes key)

-- The streams and the signers have properties.
abbrev pub Has :
    (sdk : Sdk) → (CStream sdk.Env → Type 0) → (sdk.Signer → Type 0) → Block sdk → Type 0
Has sdk S K (stream c) = S c
Has sdk S K (signer k) = K k
Has sdk S K _ = Unit

-- The streams answer, and the signers are good.
abbrev pub IsSound : (sdk : Sdk) → (sdk.Signer → Type 0) → Block sdk → Type 0
IsSound sdk good = Has sdk Answering good
