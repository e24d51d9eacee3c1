-- ===== src/Tests/Signing.antt =====
-- The theorems on signing (src/c_api.rs), at inputs.
use c2pa_c.Common.{
  ℕ, Bytes, codes, [], ◌∷◌, none, some, ok, ℤ, pos, ◌≡◌, refl, arith, from_utf8_lossy,
}
use c2pa_c.Error.{null_parameter}
use c2pa_c.Error.Convert.{from_c2pa_error}
use c2pa_c.Memory.{World}
use c2pa_c.Sdk.{Block, builder, signer, json_error_of}
use c2pa_c.CApi.{minus_one}
use c2pa_c.CApi.Signing.{
  c2pa_builder_sign, c2pa_builder_sign_data_hashed_embeddable, c2pa_format_embeddable,
}
use c2pa_c.CApi.Signers.{SignerCallback, es256, signing_alg, c_callback, c2pa_signer_create}
use c2pa_c.CApi.Ownership.{without}
use c2pa_c.CApi.Ownership.Signing.{Delivered, sign-Delivered}
use c2pa_c.CApi.Ownership.Hashed.{sign_hashed-Delivered, sign_hashed-frees, sign_asset-Delivered}
use c2pa_c.CApi.Ownership.Embedding.{format_embeddable-Delivered}
use c2pa_c.CApi.Ownership.Making.{GivenBack, signer_create-GivenBack}
use c2pa_c.Tests.Demo.{demo, start, world, world-IsValid}

abbrev Memory : Type 0
Memory = World ℕ (Block demo)

abbrev jpeg : Bytes
jpeg = codes "image/jpeg"

sign-Delivered_example :
    (code : ℤ) × (w : Memory) × (c2pa_builder_sign demo 1 (some jpeg) 2 3 4 9 world
      ≡ some (code, w))
    × Delivered demo 9 (ok (codes "jumbf")) 6 code w
    × (w.cells 1 ≡ some (builder (codes "{}" ∷ [])))
    × (w.cells 4 ≡ some (signer 1))
sign-Delivered_example =
    sign-Delivered demo world 1 4 2 3 world-IsValid refl refl refl refl (ground arith) jpeg 9
      (ok (codes "jumbf")) (codes "{}" ∷ []) start refl

sign_hashed-Delivered_example :
    (code : ℤ) × (w : Memory) × (c2pa_builder_sign_data_hashed_embeddable demo 1 4
        (some (codes "{}"))
        (some jpeg)
        0
        9
        world
      ≡ some (code, w))
    × Delivered demo 9 (ok (codes "bytes")) 6 code w
    × (w.cells 1 ≡ some (builder (codes "{}" ∷ [])))
    × (w.cells 4 ≡ some (signer 1))
unfolding from_utf8_lossy
sign_hashed-Delivered_example =
    sign_hashed-Delivered demo world 1 4 9 world-IsValid refl refl (ground arith) (codes "{}") jpeg
      (codes "{}") (ok (codes "bytes")) (codes "{}" ∷ []) start refl refl

abbrev freed : Memory
freed = without (without world 1) 4

sign_hashed-frees_example :
    (c2pa_builder_sign_data_hashed_embeddable demo 1 4 none (some jpeg) 2 9 world
      ≡ some (
        minus_one,
        record freed {
          thread = record start { last_error = some (null_parameter (codes "data_hash")) };
        },
      ))
    × (c2pa_builder_sign_data_hashed_embeddable demo 1 4 (some []) (some jpeg) 2 9 world
        ≡ some (
          minus_one,
          record freed {
            thread = record start {
              last_error = some (from_c2pa_error (json_error_of demo (codes "EOF")));
            };
          },
        ))
unfolding from_utf8_lossy
sign_hashed-frees_example =
    sign_hashed-frees demo world 1 4 9 world-IsValid refl refl (ground arith) [] (some jpeg) 2
      (codes "EOF") refl

format_embeddable-Delivered_example :
    (code : ℤ) × (w : Memory) × (c2pa_format_embeddable demo
        (some jpeg)
        (some (codes "raw"))
        9
        world
      ≡ some (code, w))
    × Delivered demo 9 (ok (codes "raw")) 6 code w
    × (w.cells 5 ≡ world.cells 5)
format_embeddable-Delivered_example =
    format_embeddable-Delivered demo world 9 (ground arith) jpeg (codes "raw") (ok (codes "raw"))
      start refl 5 (omega arith)

-- A callback that writes two bytes.
abbrev written : Bytes
written = 7 ∷ 8 ∷ []

abbrev two_bytes : SignerCallback ℕ
two_bytes context bytes buf t = some ((pos 2, written), t)

signer_create-GivenBack_example :
    GivenBack demo
      (signer (
        demo.callback_signer
          (c_callback demo two_bytes)
          (signing_alg demo es256)
          (from_utf8_lossy (codes "cert"))
          7
          (some (from_utf8_lossy (codes "url")))))
      (c2pa_signer_create demo 7 two_bytes es256 (some (codes "cert")) (some (codes "url")))
      world
signer_create-GivenBack_example =
    signer_create-GivenBack demo world world-IsValid 7 two_bytes es256 (codes "cert") (codes "url")

sign_asset-Delivered_example :
    (code : ℤ) × (w : Memory) × (c2pa_builder_sign_data_hashed_embeddable demo 1 4
        (some (codes "{}"))
        (some jpeg)
        2
        9
        world
      ≡ some (code, w))
    × Delivered demo 9 (ok (codes "bytes")) 6 code w
    × (w.cells 1 ≡ some (builder (codes "{}" ∷ [])))
    × (w.cells 4 ≡ some (signer 1))
unfolding from_utf8_lossy
sign_asset-Delivered_example =
    sign_asset-Delivered demo world 1 4 9 world-IsValid refl refl (ground arith) 2 (ground arith)
      refl (codes "{}") (codes "{}") refl jpeg (codes "{}") (ok (codes "bytes")) (codes "{}" ∷ [])
      start start refl refl
