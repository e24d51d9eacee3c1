-- ===== src/Tests/Ownership.antt =====
-- The theorems on ownership, at inputs.
use c2pa_c.Common.{ℕ, Bytes, codes, [], ◌∷◌, none, some, ◌≡◌, refl, arith}
use c2pa_c.Memory.{World, update}
use c2pa_c.Sdk.{Block, builder, boxed_slice}
use c2pa_c.CApi.Ownership.{without}
use c2pa_c.CApi.Ownership.Filling.{null_argument}
use c2pa_c.CApi.Ownership.Freeing.{free_of, free-once}
use c2pa_c.Tests.Demo.{demo, start, world}

abbrev Memory : Type 0
Memory = World ℕ (Block demo)

abbrev jpeg : Bytes
jpeg = codes "image/jpeg"

abbrev complaint : Bytes → Memory
complaint name = record (without world 1) { thread = null_argument demo start name }

free-once_example :
    (free_of demo (builder (codes "{}" ∷ [])) 1 world ≡ some (tt, without world 1))
    × (free_of demo (builder (codes "{}" ∷ [])) 1 (without world 1) ≡ none)
free-once_example = free-once demo world 1 (ground arith) (builder (codes "{}" ∷ [])) refl tt

abbrev signed : Memory
signed = record world {
  next = 7;
  cells = update world.cells 6 (some (boxed_slice (codes "jumbf")));
}
