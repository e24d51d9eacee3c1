-- ===== src/Tests/Files.antt =====
-- The theorems on files and on the last error, at inputs.
use c2pa_c.Common.{ℕ, Bytes, codes, none, some, ok, ◌≡◌, refl}
use c2pa_c.Error.{io, to_string}
use c2pa_c.Error.Last.{Thread}
use c2pa_c.Memory.{World}
use c2pa_c.Sdk.{Block, c_string}
use c2pa_c.SignerInfo.{signer_of}
use c2pa_c.JsonApi.{set_base_path, choose_parent, sign_file}
use c2pa_c.JsonApi.Laws.{Chosen, sign_file-steps, choose_parent-Chosen}
use c2pa_c.CApi.Files.{c2pa_error}
use c2pa_c.CApi.Files.LastError.{c2pa_error-twice}
use c2pa_c.Tests.Demo.{demo, info, start, world}

abbrev photo : Bytes
photo = codes "in.jpg"

sign_file-steps_example :
    (m₁ m₂ m₃ : Bytes) × (k : ℕ) × (t₁ t₂ t₃ t₄ : Thread ℕ) × (demo.manifest_from_json
        (codes "{}")
        start
      ≡ some (ok m₁, t₁))
    × (set_base_path demo m₁ none t₁ ≡ some (ok m₂, t₂))
    × (choose_parent demo m₂ photo t₂ ≡ some (ok m₃, t₃))
    × (signer_of demo info t₃ ≡ some (ok k, t₄))
    × (demo.embed m₃ photo (codes "out.jpg") k t₄ ≡ some (ok (codes "jumbf"), start))
unfolding sign_file
sign_file-steps_example =
    sign_file-steps demo photo (codes "out.jpg") (codes "{}") info none (codes "jumbf") start start
      refl

choose_parent-Chosen_example : Chosen demo (codes "{}") photo start start (codes "{}")
unfolding choose_parent
choose_parent-Chosen_example =
    choose_parent-Chosen demo (codes "{}") (codes "{}") photo start start refl

abbrev after_error : World ℕ (Block demo)
after_error = record world { thread = record start { last_error = some (io (codes "gone")) } }

c2pa_error-twice_example :
    (u v : World ℕ (Block demo)) × (c2pa_error demo after_error ≡ some (6, u))
    × (u.cells 6 ≡ some (c_string (to_string (io (codes "gone")))))
    × (u.thread ≡ after_error.thread)
    × (c2pa_error demo u ≡ some (7, v))
    × (v.cells 7 ≡ some (c_string (to_string (io (codes "gone")))))
    × (v.cells 6 ≡ some (c_string (to_string (io (codes "gone")))))
unfolding to_string
c2pa_error-twice_example = c2pa_error-twice demo after_error (io (codes "gone")) refl refl
