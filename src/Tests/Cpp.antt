-- ===== src/Tests/Cpp.antt =====
-- The theorems on the C++ wrapper (src/c2pa.cpp) at inputs: a stream that is empty, and the demo
-- SDK.
use mathlib.Core.Path.{subst}
use c2pa_c.Error.Last.{Thread}
use c2pa_c.Common.{
  List, ◌⊎◌, err, ℕ, Option, ◌≢◌, ap, ◌^◌, ◌-◌, codes, [], ◌∷◌, none, some, ok, pos, false, true,
  pure, refl, ◌≡◌, arith,
}
use c2pa_c.Stream.{read, write, seek, from_start}
use c2pa_c.CApi.Protocol.{view}
use c2pa_c.CApi.Signers.{c_callback}
use c2pa_c.Cpp.{load_settings}
use c2pa_c.Cpp.Ends.{Hosted, what_of, IsCalm, Ends, EndsOr}
use c2pa_c.Cpp.Iostream.{Iostream, cpp_istream}
use c2pa_c.Cpp.Iostream.Answers.{IsReturning}
use c2pa_c.Cpp.Iostream.Results.{read-settled, write-settled, istream_seek-landed}
use c2pa_c.Cpp.Settings.{load_settings-swaps}
use c2pa_c.Cpp.Signer.{signer_passthrough}
use c2pa_c.Cpp.Signer.Passthrough.{passthrough-fitting}
use c2pa_c.Cpp.Reader.Lifetime.{read_scope, Scoped, read_scope-Ends}
use c2pa_c.Cpp.Builder.{sign}
use c2pa_c.Cpp.Builder.Filling.{resource}
use c2pa_c.Cpp.Builder.Making.{from_stream}
use c2pa_c.Cpp.Builder.Life.{Discards, builder_life, builder_life-Ends}
use c2pa_c.Error.{Error}
use c2pa_c.Cpp.Builder.Members.{Member, no_embed, remote_url, filled}
use c2pa_c.Cpp.Scope.Delivery.{Emitted}
use c2pa_c.Cpp.Builder.Manifests.{signed, Misfits}
use c2pa_c.Cpp.Builder.Emitting.{deliver-Emitted}
use c2pa_c.Cpp.Paths.{Filesystem, get_resource_file}
use c2pa_c.Cpp.Paths.Opening.{IsReady}
use c2pa_c.Cpp.Paths.Reading.{
  path_scope, PathScoped, path_scope-PathScoped, get_resource_file-stale,
}
use c2pa_c.Tests.Calm.{AnySigner, demo-Calm, world-IsSound}
use c2pa_c.Tests.Demo.{demo, start, world, world-IsValid}

abbrev empty : Iostream ℕ
empty = record {
  address = 100;
  read = λ buf. pure buf;
  write = λ buf. pure tt;
  flush = pure tt;
  clear = pure tt;
  seekg = λ offset mode. pure tt;
  seekp = λ offset mode. pure tt;
  tellg = pure (pos 0);
  tellp = pure (pos 0);
  fail = λ t. false;
  eof = λ t. false;
  bad = λ t. false;
  gcount = λ t. pos 0;
}

-- The same, broken for good.
abbrev broken : Iostream ℕ
broken = record empty { fail = λ t. true; bad = λ t. true }

empty-IsReturning : IsReturning empty
empty-IsReturning = record {
  reads = λ buf t. (_, _, refl);
  writes = λ buf t. (_, _, refl);
  flushes = λ t. (_, _, refl);
  clears = λ t. (_, _, refl);
  seeks_get = λ offset mode t. (_, _, refl);
  seeks_put = λ offset mode t. (_, _, refl);
  tells_get = λ t. (_, _, refl);
  tells_put = λ t. (_, _, refl);
}

abbrev demo_hosted : Hosted demo AnySigner
demo_hosted = record { calm = demo-Calm; null_text = codes "null"; defined = refl }

world-IsCalm : IsCalm demo AnySigner world
world-IsCalm = record { valid = world-IsValid; every = world-IsSound }

abbrev steps : List (Member demo)
steps = no_embed ∷ remote_url (codes "u") ∷ filled (resource (codes "") empty) ∷ []

builder_life-Ends_example :
    EndsOr demo AnySigner
      (Discards demo (codes "null") (from_stream empty) steps world)
      (λ r c.
        ((r ≡ ok (ok tt ∷ ok tt ∷ ok tt ∷ [])) × (c.holds ≡ (view world).holds))
        ⊎ ((e : Error) × (r ≡ err (what_of (codes "null") (some e)))
            × (c.holds ≡ (view world).holds)
            × (c.error ≡ some e)))
      (builder_life demo (from_stream empty) steps)
      world
builder_life-Ends_example =
    builder_life-Ends demo AnySigner demo_hosted (from_stream empty) steps world world-IsCalm
      (ground arith, empty-IsReturning) (tt, (tt, ((ground arith, empty-IsReturning), tt)))

read_scope-Ends_example :
    Ends demo AnySigner
      (λ r c. Scoped (codes "null") (view world).holds r c.holds c.error)
      (read_scope demo (codes "jpg") empty ((codes "thumb", empty) ∷ []))
      world
read_scope-Ends_example =
    read_scope-Ends demo AnySigner demo_hosted world world-IsCalm (codes "jpg") empty
      ((codes "thumb", empty) ∷ []) (ground arith) empty-IsReturning
      ((ground arith, empty-IsReturning), tt)

deliver-Emitted_example :
    EndsOr demo AnySigner
      (Misfits demo 9 (signed 1 (codes "jpg") empty empty 4) world)
      (λ r c. Emitted 9 none (view world).holds (codes "null") r c.holds c.error)
      (sign demo 1 (codes "jpg") empty empty 4 9)
      world
deliver-Emitted_example =
    deliver-Emitted demo AnySigner demo_hosted 9 (signed 1 (codes "jpg") empty empty 4) world
      world-IsCalm (ground arith)
      (refl, refl, (ground arith, empty-IsReturning), (ground arith, empty-IsReturning))

passthrough-fitting_example :
    c_callback demo (signer_passthrough (λ bytes. pure (ok (codes "abcd")))) 7 (codes "ab") start
    ≡ some (ok (codes "abcd"), start)
passthrough-fitting_example =
    passthrough-fitting demo (λ bytes. pure (ok (codes "abcd"))) 7 (codes "ab") (ok (codes "abcd"))
      (ground arith) refl

load_settings-swaps_example :
    Ends demo AnySigner
      (λ r c. (r ≡ ok tt) × (c.holds ≡ (view world).holds))
      (load_settings demo (codes "json") (codes "{}"))
      world
load_settings-swaps_example =
    load_settings-swaps demo AnySigner demo_hosted world world-IsCalm (codes "json") (codes "{}")
      start (ok tt) refl

read-settled_example :
    read (cpp_istream empty) (codes "abc") start ≡ some ((ok 0, codes "abc"), start)
read-settled_example =
    read-settled empty (codes "abc") (ground arith) (codes "abc") 0 refl refl (ground arith)

write-settled_example : write (cpp_istream empty) (codes "abc") start ≡ some (ok 3, start)
write-settled_example =
    write-settled empty (codes "abc") (ground arith) (cpp_istream empty) refl refl

istream_seek-landed_example :
    seek (cpp_istream broken) (from_start 5) start
    ≡ some (ok (2 ^ 64 - 1), record start { errno = 22 })
istream_seek-landed_example = istream_seek-landed broken (from_start 5) (pos 0) refl refl refl

-- Every path can be read, as an empty file, and none can be written.
abbrev disk : Filesystem ℕ
disk = record {
  open_in = λ path. pure (some empty);
  open_out = λ path. pure none;
  open_inout = λ path. pure none;
  close = λ stream. pure tt;
  exists = λ path. pure (ok true);
  create_directories = λ path. pure (ok tt);
  extension = λ path. codes ".jpg";
  parent_path = λ path. [];
  strerror = λ code. codes "No such file or directory";
}

-- The stream of a file that was opened.
abbrev opened_or_empty : Option (Option (Iostream ℕ) × Thread ℕ) → Iostream ℕ
opened_or_empty (some (some stream, t)) = stream
opened_or_empty _ = empty

disk-IsReady : IsReady disk
disk-IsReady = record {
  opens_in = λ path t. (_, _, refl, refl);
  opens_out = λ path t. (_, _, refl, refl);
  closes = λ stream t. (_, _, refl, refl);
  reads = λ path t t' stream e.
      subst (λ s. (s.address ≢ 0) × IsReturning s) (ap opened_or_empty e)
        (ground arith, empty-IsReturning);
  writes = λ path t t' stream e. cc;
}

path_scope-PathScoped_example :
    Ends demo AnySigner
      (λ r c. PathScoped (view world).holds r c.holds)
      (path_scope demo disk (codes "a.jpg") ((codes "thumb", empty) ∷ []))
      world
path_scope-PathScoped_example =
    path_scope-PathScoped demo disk AnySigner demo_hosted disk-IsReady world world-IsCalm
      (codes "a.jpg") ((codes "thumb", empty) ∷ []) ((ground arith, empty-IsReturning), tt)

get_resource_file-stale_example :
    Ends demo AnySigner
      (λ x c. (x ≡ err []) × (c.holds ≡ (view world).holds))
      (get_resource_file demo disk
        (record { c2pa_reader = 5; cpp_stream = 2 })
        (codes "thumb")
        (codes "out"))
      world
get_resource_file-stale_example =
    get_resource_file-stale demo disk AnySigner demo_hosted world world-IsCalm
      (record { c2pa_reader = 5; cpp_stream = 2 }) (codes "thumb") (codes "out") start refl refl
