-- ===== src/Sdk.antt =====
-- What the library uses of the crates `c2pa` and `serde_json`, and two choices of the standard
-- library of C++: types without contents, and operations on a thread. An operation may run
-- callbacks of C, which may set the last error or fault; nothing else is known of it.
pub mod Calm
use c2pa_c.Common.{Bool, Bytes, ℕ, Option, none, some, Result, M}
use c2pa_c.Error.Convert.{C2paError, json_error, cose_signature}
use c2pa_c.Error.Last.{Thread}
use c2pa_c.Stream.{Ptr, CStream}

-- `SignerInfo` of src/signer_info.rs.
pub record SignerInfo : Type 0 where
  pub alg : Bytes
  pub sign_cert : Bytes
  pub private_key : Bytes
  pub ta_url : Option Bytes

-- A call, and a call that may fail.
abbrev pub Io : Type 0 → Type 0 → Type 0
Io E A = M (Thread E) A

abbrev pub Call : Type 0 → Type 0 → Type 0
Call E A = M (Thread E) (Result A C2paError)

pub record Sdk : Type 1 where
  -- the world outside, and the SDK's objects
  pub Env : Type 0
  pub Builder : Type 0
  pub Reader : Type 0
  pub Signer : Type 0
  pub Manifest : Type 0
  pub Ingredient : Type 0
  pub DataHash : Type 0
  pub SigningAlg : Type 0
  pub SerdeError : Type 0
  -- constants
  pub name : Bytes
  pub version : Bytes
  pub es256 : SigningAlg
  pub es384 : SigningAlg
  pub es512 : SigningAlg
  pub ps256 : SigningAlg
  pub ps384 : SigningAlg
  pub ps512 : SigningAlg
  pub ed25519 : SigningAlg
  pub load_settings_from_str : Bytes → Bytes → Call Env (Unit {0})
  -- `Reader`
  pub reader_from_stream : Bytes → CStream Env → Call Env Reader
  pub reader_from_file : Bytes → Call Env Reader
  pub reader_json : Reader → Io Env Bytes
  pub reader_to_string : Reader → Io Env Bytes
  pub reader_to_folder : Reader → Bytes → Call Env (Unit {0})
  pub reader_resource_to_stream : Reader → Bytes → CStream Env → Call Env ℕ
  -- `Builder`: what takes `&mut self` returns the builder too
  pub builder_from_json : Bytes → Call Env Builder
  pub builder_from_archive : CStream Env → Call Env Builder
  pub set_no_embed : Builder → Io Env Builder
  pub set_remote_url : Builder → Bytes → Io Env Builder
  pub add_resource : Builder → Bytes → CStream Env → Io Env (Result (Unit {0}) C2paError × Builder)
  pub add_ingredient_from_stream :
      Builder → Bytes → Bytes → CStream Env → Io Env (Result (Unit {0}) C2paError × Builder)
  pub to_archive : Builder → CStream Env → Io Env (Result (Unit {0}) C2paError × Builder)
  pub sign :
      Builder
      → Signer
      → Bytes
      → CStream Env
      → CStream Env
      → Io Env (Result Bytes C2paError × Builder)
  pub data_hashed_placeholder : Builder → ℕ → Bytes → Io Env (Result Bytes C2paError × Builder)
  pub sign_data_hashed_embeddable :
      Builder → Signer → DataHash → Bytes → Io Env (Result Bytes C2paError × Builder)
  pub gen_hash_from_stream :
      DataHash → CStream Env → Io Env (Result (Unit {0}) C2paError × DataHash)
  pub composed_manifest : Bytes → Bytes → Call Env Bytes
  -- `Manifest` and `Ingredient`
  pub manifest_from_json : Bytes → Call Env Manifest
  pub with_base_path : Manifest → Bytes → Io Env (Result (Unit {0}) C2paError × Manifest)
  pub parent : Manifest → Option Ingredient
  pub set_parent : Manifest → Ingredient → Io Env (Result (Unit {0}) C2paError × Manifest)
  pub embed : Manifest → Bytes → Bytes → Signer → Call Env Bytes
  pub ingredient_from_file : Bytes → Call Env Ingredient
  pub ingredient_from_file_with_folder : Bytes → Bytes → Call Env Ingredient
  pub ingredient_to_string : Ingredient → Io Env Bytes
  pub manifest_data : Ingredient → Option Bytes
  -- signers: `from_keys`, and `CallbackSigner` with its context and its time stamp authority
  pub from_keys : Bytes → Bytes → SigningAlg → Option Bytes → Call Env Signer
  pub callback_signer :
      (Ptr → Bytes → Call Env Bytes) → SigningAlg → Bytes → Ptr → Option Bytes → Signer
  pub reserve_size : Signer → Io Env ℕ
  pub ed25519_sign : Bytes → Bytes → Call Env Bytes
  -- texts: `str::to_lowercase` by the Unicode tables, `SigningAlg::from_str`, JSON, and the texts
  -- of `JsonError` and `CoseSignature`
  pub to_lowercase : Bytes → Bytes
  pub parse_alg : Bytes → Option SigningAlg
  pub signer_info_from_str : Bytes → Result SignerInfo SerdeError
  pub data_hash_from_str : Bytes → Result DataHash SerdeError
  pub serde_to_string : SerdeError → Bytes
  pub json_error_to_string : SerdeError → Bytes
  pub cose_signature_to_string : Bytes
  -- the standard library of C++: the text that comes of `std::string` of a null pointer, in a
  -- string or in the exception that is thrown for it, where the library has one; the standard
  -- leaves it undefined; and whether the data of an empty vector have an address
  pub string_of_null : Option Bytes
  pub empty_has_data : Bool

-- `c2pa::Error::JsonError(err)`
unfoldable pub json_error_of : (sdk : Sdk) → sdk.SerdeError → C2paError
json_error_of sdk err = record { variant = json_error; message = sdk.json_error_to_string err }

-- `c2pa::Error::CoseSignature`
unfoldable pub cose_signature_error : Sdk → C2paError
cose_signature_error sdk = record {
  variant = cose_signature;
  message = sdk.cose_signature_to_string;
}

-- The objects that live in the shared memory.
pub data Block (sdk : Sdk) : Type 0 where
  builder : sdk.Builder → Block sdk
  reader : sdk.Reader → Block sdk
  signer : sdk.Signer → Block sdk
  stream : CStream sdk.Env → Block sdk
  c_string : Bytes → Block sdk
  boxed_slice : Bytes → Block sdk

module _ (sdk : Sdk) where
  unfoldable pub as_builder : Block sdk → Option sdk.Builder
  as_builder (builder b) = some b
  as_builder _ = none

  unfoldable pub as_reader : Block sdk → Option sdk.Reader
  as_reader (reader r) = some r
  as_reader _ = none

  unfoldable pub as_signer : Block sdk → Option sdk.Signer
  as_signer (signer s) = some s
  as_signer _ = none

  unfoldable pub as_stream : Block sdk → Option (CStream sdk.Env)
  as_stream (stream s) = some s
  as_stream _ = none

  unfoldable pub as_c_string : Block sdk → Option Bytes
  as_c_string (c_string s) = some s
  as_c_string _ = none

  unfoldable pub as_boxed_slice : Block sdk → Option Bytes
  as_boxed_slice (boxed_slice b) = some b
  as_boxed_slice _ = none
