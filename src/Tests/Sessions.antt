-- ===== src/Tests/Sessions.antt =====
-- The theorems on sessions, at inputs.
use c2pa_c.Common.{
  ℕ, codes, List, [], ◌∷◌, none, some, ◌≡◌, refl, arith, pos, from_utf8_lossy, if◌then◌else◌, ◌==◌,
}
use c2pa_c.Memory.{World, update, from_raw, in_thread}
use c2pa_c.Sdk.{Block, builder, as_builder, as_reader}
use c2pa_c.CApi.Building.{c2pa_builder_set_remote_url, c2pa_builder_free}
use c2pa_c.CApi.Session.{Call, status, done, run, builder_set_remote_url, builder_free, reader_free}
use c2pa_c.CApi.Session.Safety.{run-untouched}
use c2pa_c.Error.{Error, file_not_found, null_parameter}
use c2pa_c.CApi.{minus_one}
use c2pa_c.CApi.Reading.{c2pa_reader_free}
use c2pa_c.CApi.Threads.{Process, interleave}
use c2pa_c.CApi.Threads.Isolation.{Apart, interleave-Apart}
use c2pa_c.Tests.Demo.{demo, world, world-IsValid}

abbrev calls : List (Call demo)
calls = builder_set_remote_url 1 (some (codes "u")) ∷ builder_free 1 ∷ []

abbrev after : World ℕ (Block demo)
after = record world {
  cells =
      update (update (update world.cells 1 none) 1 (some (builder (codes "u" ∷ codes "{}" ∷ [])))) 1
        none;
}

run-calls : run demo calls world ≡ some (status (pos 0) ∷ done ∷ [], after)
unfolding run c2pa_builder_set_remote_url c2pa_builder_free from_raw in_thread as_builder
    from_utf8_lossy
run-calls = refl

run-untouched_example : after.cells 4 ≡ world.cells 4
run-untouched_example =
    run-untouched demo calls world after (status (pos 0) ∷ done ∷ []) world-IsValid run-calls 4
      (omega arith) refl

-- Thread 0 has an error; thread 1 calls with a null URL, and then thread 2 frees the reader.
abbrev not_found : Error
not_found = file_not_found (codes "a.jpg")

abbrev process : Process ℕ (Block demo)
process = record {
  errors = λ i. if i == 0 then some not_found else none;
  errnos = λ i. 0;
  outside = 0;
  next = 6;
  cells = world.cells;
  slots = world.slots;
}

abbrev turns : List (ℕ × Call demo)
turns = (1, builder_set_remote_url 1 none) ∷ (2, reader_free 5) ∷ []

abbrev process_after : Process ℕ (Block demo)
process_after = record process {
  errors = update (update process.errors 1 (some (null_parameter (codes "remote_url")))) 2 none;
  errnos = update (update process.errnos 1 0) 2 0;
  cells = update (update process.cells 1 none) 5 none;
}

run-turns : interleave demo turns process ≡ some (status minus_one ∷ done ∷ [], process_after)
unfolding interleave c2pa_builder_set_remote_url c2pa_reader_free from_raw in_thread as_builder
    as_reader from_utf8_lossy
run-turns = refl

interleave-Apart_example : Apart (1 ∷ 2 ∷ []) (1 ∷ 5 ∷ []) process process_after
interleave-Apart_example =
    interleave-Apart demo turns process process_after (status minus_one ∷ done ∷ []) world-IsValid
      run-turns
