-- ===== src/Tests/Demo.antt =====
-- An SDK that can be run: a builder is the list of what was added to it, texts are what was read,
-- and an empty text is an error.
use c2pa_c.Common.{
  false, ℕ, Bytes, codes, List, [], ◌∷◌, Option, none, some, Result, ok, err, M, pure, length, ◌==◌,
  if◌then◌else◌, pos, refl, arith,
}
use c2pa_c.Error.Convert.{C2paError, bad_param}
use c2pa_c.Error.Last.{Thread}
use c2pa_c.Stream.{CStream, Ptr}
use c2pa_c.Memory.{World}
use c2pa_c.Memory.Laws.{IsValid}
use c2pa_c.Sdk.{Sdk, SignerInfo, Call, Block, builder, stream, signer, reader}

abbrev pub refused : C2paError
refused = record { variant = bad_param; message = codes "refused" }

abbrev pub nonempty : Bytes → Call ℕ Bytes
nonempty [] = pure (err refused)
nonempty (b ∷ bytes) = pure (ok (b ∷ bytes))

abbrev pub built : Bytes → Call ℕ (List Bytes)
built [] = pure (err refused)
built (b ∷ bytes) = pure (ok ((b ∷ bytes) ∷ []))

abbrev pub added : List Bytes → Bytes → M (Thread ℕ) (Result (Unit {0}) C2paError × List Bytes)
added items [] = pure (err refused, items)
added items (b ∷ bytes) = pure (ok tt, (b ∷ bytes) ∷ items)

abbrev pub hashed : Bytes → CStream ℕ → M (Thread ℕ) (Result (Unit {0}) C2paError × Bytes)
hashed (b ∷ c ∷ bytes) s = pure (ok tt, b ∷ c ∷ bytes)
hashed hash s = pure (err refused, hash)

abbrev pub info : SignerInfo
info = record {
  alg = codes "ES256";
  sign_cert = codes "cert";
  private_key = codes "key";
  ta_url = none;
}

abbrev parsed_info : Bytes → Result SignerInfo Bytes
parsed_info [] = err (codes "EOF")
parsed_info (_ ∷ _) = ok info

abbrev parsed_hash : Bytes → Result Bytes Bytes
parsed_hash [] = err (codes "EOF")
parsed_hash (b ∷ bytes) = ok (b ∷ bytes)

abbrev known_alg : Bytes → Option ℕ
known_alg [] = none
known_alg (b ∷ _) = if b == b'e' then some 1 else none

abbrev pub demo : Sdk
demo = record {
  Env = ℕ;
  Builder = List Bytes;
  Reader = Bytes;
  Signer = ℕ;
  Manifest = Bytes;
  Ingredient = Bytes;
  DataHash = Bytes;
  SigningAlg = ℕ;
  SerdeError = Bytes;
  name = codes "c2pa-rs";
  version = codes "0.46.0";
  es256 = 1;
  es384 = 2;
  es512 = 3;
  ps256 = 4;
  ps384 = 5;
  ps512 = 6;
  ed25519 = 7;
  load_settings_from_str = λ settings format. pure (ok tt);
  reader_from_stream = λ format s. nonempty format;
  reader_from_file = nonempty;
  reader_json = λ r. pure r;
  reader_to_string = λ r. pure r;
  reader_to_folder = λ r dir. pure (ok tt);
  reader_resource_to_stream = λ r uri s. pure (ok (length uri));
  builder_from_json = built;
  builder_from_archive = λ s. pure (ok []);
  set_no_embed = λ b. pure b;
  set_remote_url = λ b url. pure (url ∷ b);
  add_resource = λ b uri s. added b uri;
  add_ingredient_from_stream = λ b json format s. added b json;
  to_archive = λ b s. pure (ok tt, b);
  sign = λ b k format source dest. pure (ok (codes "jumbf"), b);
  data_hashed_placeholder = λ b size format. pure (ok (codes "place"), b);
  sign_data_hashed_embeddable = λ b k hash format. pure (ok (codes "bytes"), b);
  gen_hash_from_stream = hashed;
  composed_manifest = λ bytes format. pure (ok bytes);
  manifest_from_json = nonempty;
  with_base_path = λ m path. pure (ok tt, m);
  parent = λ m. none;
  set_parent = λ m i. pure (ok tt, m);
  embed = λ m source dest k. pure (ok (codes "jumbf"));
  ingredient_from_file = nonempty;
  ingredient_from_file_with_folder = λ path folder. nonempty path;
  ingredient_to_string = λ i. pure i;
  manifest_data = λ i. some i;
  from_keys = λ cert key alg url. pure (ok alg);
  callback_signer = λ callback alg certs context url. alg;
  reserve_size = λ k. pure 10_000;
  ed25519_sign = λ bytes key. pure (ok bytes);
  to_lowercase = λ s. codes "es256";
  parse_alg = known_alg;
  signer_info_from_str = parsed_info;
  data_hash_from_str = parsed_hash;
  serde_to_string = λ e. e;
  json_error_to_string = λ e. e;
  cose_signature_to_string = codes "COSE signature";
  string_of_null = some (codes "null");
  empty_has_data = false;
}

-- A stream of no bytes, and a thread at the start.
abbrev pub empty_stream : CStream ℕ
empty_stream = record {
  context = 100;
  reader = λ context buf. pure (pos 0, buf);
  seeker = λ context offset mode. pure (pos 0);
  writer = λ context buf. pure (pos 0);
  flusher = λ context. pure (pos 0);
}

abbrev pub start : Thread ℕ
start = record { last_error = none; errno = 0; outside = 0 }

-- A builder at 1, streams at 2 and 3, a signer at 4 and a reader at 5.
abbrev objects : Ptr → Option (Block demo)
objects p =
    if p == 1
    then some (builder (codes "{}" ∷ []))
    else if p == 2
    then some (stream empty_stream)
    else if p == 3
    then some (stream empty_stream)
    else if p == 4
    then some (signer 1)
    else if p == 5
    then some (reader (codes "store"))
    else none

abbrev pub world : World ℕ (Block demo)
world = record { thread = start; next = 6; cells = objects; slots = λ p. 0 }

pub world-IsValid : IsValid world
world-IsValid = record { positive = omega arith; null_free = refl; fresh = λ p h. ground arith }
