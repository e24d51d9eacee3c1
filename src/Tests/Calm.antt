-- ===== src/Tests/Calm.antt =====
-- The demo SDK answers.
use c2pa_c.Common.{
  Bool, true, false, Option, if◌then◌else◌, ◌==◌, ℕ, Bytes, [], ◌∷◌, some, refl, ◌≡◌,
}
use c2pa_c.Sdk.{Block, builder, reader, signer, stream}
use c2pa_c.Stream.{CStream}
use c2pa_c.Memory.Laws.{Every}
use c2pa_c.Memory.Frame.{Every-some}
use c2pa_c.Sdk.Calm.{Calm, Answers, Answering, IsSound}
use c2pa_c.Tests.Demo.{demo, world, empty_stream, nonempty, built, added, hashed}

abbrev pub AnySigner : demo.Signer → Type 0
AnySigner k = Unit

nonempty-Answers : (s : Bytes) → Answers (nonempty s)
nonempty-Answers [] = λ t. (_, _, refl)
nonempty-Answers (b ∷ s) = λ t. (_, _, refl)

built-Answers : (s : Bytes) → Answers (built s)
built-Answers [] = λ t. (_, _, refl)
built-Answers (b ∷ s) = λ t. (_, _, refl)

added-Answers : (items : demo.Builder) (s : Bytes) → Answers (added items s)
added-Answers items [] = λ t. (_, _, refl)
added-Answers items (b ∷ s) = λ t. (_, _, refl)

hashed-Answers : (h : Bytes) (c : CStream ℕ) → Answers (hashed h c)
hashed-Answers [] c = λ t. (_, _, refl)
hashed-Answers (b ∷ []) s = λ t. (_, _, refl)
hashed-Answers (b ∷ c ∷ h) s = λ t. (_, _, refl)

pub demo-Calm : Calm demo AnySigner
demo-Calm = record {
  load_settings_from_str = λ s f t. (_, _, refl);
  reader_from_stream = λ f c h. nonempty-Answers f;
  reader_from_file = nonempty-Answers;
  reader_json = λ x t. (_, _, refl);
  reader_to_string = λ x t. (_, _, refl);
  reader_to_folder = λ x dir t. (_, _, refl);
  reader_resource_to_stream = λ x uri c h t. (_, _, refl);
  builder_from_json = built-Answers;
  builder_from_archive = λ c h t. (_, _, refl);
  set_no_embed = λ b t. (_, _, refl);
  set_remote_url = λ b url t. (_, _, refl);
  add_resource = λ b uri c h. added-Answers b uri;
  add_ingredient_from_stream = λ b json f c h. added-Answers b json;
  to_archive = λ b c h t. (_, _, refl);
  sign = λ b k f c d g h i t. (_, _, refl);
  data_hashed_placeholder = λ b n f t. (_, _, refl);
  sign_data_hashed_embeddable = λ b k h f h' t. (_, _, refl);
  gen_hash_from_stream = λ h c a. hashed-Answers h c;
  composed_manifest = λ bytes f t. (_, _, refl);
  manifest_from_json = nonempty-Answers;
  with_base_path = λ m path t. (_, _, refl);
  set_parent = λ m i t. (_, _, refl);
  embed = λ m source dest k h t. (_, _, refl);
  ingredient_from_file = nonempty-Answers;
  ingredient_from_file_with_folder = λ path dir. nonempty-Answers path;
  ingredient_to_string = λ i t. (_, _, refl);
  from_keys = λ cert key alg url t. (_, _, refl);
  from_keys_good = λ cert key alg url k t t' e. tt;
  reserve_size = λ k h t. (_, _, refl);
  ed25519_sign = λ bytes key t. (_, _, refl);
}

pub empty_stream-Answering : Answering empty_stream
empty_stream-Answering = record {
  reads = λ buf t. (_, _, refl);
  seeks = λ offset mode t. (_, _, refl);
  writes = λ buf t. (_, _, refl);
  flushes = λ t. (_, _, refl);
}

-- What holds of every object that is there, by the tests that find it.
abbrev Sound : Option (Block demo) → Type 0
Sound c = (b : Block demo) → c ≡ some b → IsSound demo AnySigner b

Sound-if : (t : Bool) {x y : Option (Block demo)} → Sound x → Sound y → Sound (if t then x else y)
Sound-if true h k = h
Sound-if false h k = k

Sound-some : (b : Block demo) → IsSound demo AnySigner b → Sound (some b)
Sound-some b h c e = Every-some (IsSound demo AnySigner) b c h e

pub world-IsSound : Every (IsSound demo AnySigner) world
world-IsSound p = Sound-if (p == 1) (Sound-some (builder _) tt) (
    Sound-if (p == 2) (Sound-some (stream _) empty_stream-Answering) (
      Sound-if (p == 3) (Sound-some (stream _) empty_stream-Answering) (
        Sound-if (p == 4) (Sound-some (signer _) tt)
          (Sound-if (p == 5) (Sound-some (reader _) tt) (λ b e. cc)))))
