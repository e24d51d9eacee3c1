-- ===== src/Cpp/Paths.antt =====
-- The overloads of the C++ wrapper that open files (src/c2pa.cpp, lines 464 to 699). The files are
-- the standard library's: what the wrapper uses of it is a record.
pub mod Opening
pub mod Filling
pub mod Reading
use c2pa_c.Common.{
  ℕ, Bytes, codes, [], ◌∷◌, ◌++◌, Bool, true, false, Option, none, some, Result, ok, err, ℤ, M,
  ◌>>=◌, ◌>>◌, pure, gets, if◌then◌else◌, ◌==◌,
}
use c2pa_c.Error.Last.{Thread}
use c2pa_c.Stream.{Ptr}
use c2pa_c.Memory.{World, in_thread}
use c2pa_c.Sdk.{Sdk}
use c2pa_c.CApi.{Api, null}
use c2pa_c.Cpp.{Cpp, throw}
use c2pa_c.Cpp.Iostream.{Iostream}
use c2pa_c.Cpp.Reader.{CppReader, reader_new, get_resource}
use c2pa_c.Cpp.Builder.{add_resource, add_ingredient, sign, from_archive, to_archive}

-- Opening gives a stream, unless `is_open` is false after it; `close` is what the destructor of a
-- file stream does. The functions on directories may throw.
pub record Filesystem (E : Type 0) : Type 0 where
  pub open_in : Bytes → M (Thread E) (Option (Iostream E))
  pub open_out : Bytes → M (Thread E) (Option (Iostream E))
  pub open_inout : Bytes → M (Thread E) (Option (Iostream E))
  pub close : Iostream E → M (Thread E) (Unit {0})
  pub exists : Bytes → M (Thread E) (Result Bool Bytes)
  pub create_directories : Bytes → M (Thread E) (Result (Unit {0}) Bytes)
  pub extension : Bytes → Bytes
  pub parent_path : Bytes → Bytes
  pub strerror : ℕ → Bytes

-- `substr(1)`, if there is a dot to skip.
unfoldable pub skip_dot : Bytes → Bytes
skip_dot [] = []
skip_dot (dot ∷ extension) = extension

abbrev pub no_source : Bytes
no_source = codes "Failed to open source file: "

abbrev pub no_destination : Bytes
no_destination = codes "Failed to open destination file: "

abbrev pub no_archive : Bytes
no_archive = codes "Failed to open archive file: "

module _ (sdk : Sdk) (files : Filesystem sdk.Env) where
  -- A local file stream: what is done if it is not open, and what is done with it else.
  unfoldable pub use_file :
      {A : Type 0}
      → Cpp sdk A
      → (Iostream sdk.Env → Cpp sdk A)
      → Option (Iostream sdk.Env)
      → Cpp sdk A
  use_file unopened body none = unopened
  use_file unopened body (some stream) = do
    result ← body stream
    in_thread (files.close stream)
    pure result

  unfoldable pub with_file :
      {A : Type 0}
      → M (Thread sdk.Env) (Option (Iostream sdk.Env))
      → Cpp sdk A
      → (Iostream sdk.Env → Cpp sdk A)
      → Cpp sdk A
  unfolding use_file
  with_file opening unopened body = do opened ← in_thread opening; use_file unopened body opened

  abbrev pub not_opened : (path : Bytes) (errno : ℕ) → Bytes
  not_opened path errno =
      codes "Failed to open file: " ++ path ++ codes " - " ++ files.strerror errno

  unfoldable pub reader_open : (source_path : Bytes) → Cpp sdk CppReader
  unfolding with_file skip_dot
  reader_open source_path =
      with_file (files.open_in source_path)
        (do errno ← gets λ w. w.thread.errno; pure (err (not_opened source_path errno)))
        (reader_new sdk (skip_dot (files.extension source_path)))

  -- The file that cannot be opened has set no error of C.
  unfoldable pub get_resource_file : CppReader → (uri path : Bytes) → Cpp sdk ℤ
  unfolding with_file throw
  get_resource_file r uri path =
      with_file (files.open_out path) (throw sdk) (get_resource sdk r uri)

  unfoldable pub add_resource_file : Ptr → (uri source_path : Bytes) → Cpp sdk (Unit {0})
  unfolding with_file
  add_resource_file builder uri source_path =
      with_file (files.open_in source_path) (pure (err (no_source ++ source_path)))
        (add_resource sdk builder uri)

  unfoldable pub add_ingredient_file :
      Ptr → (ingredient_json source_path : Bytes) → Cpp sdk (Unit {0})
  unfolding with_file skip_dot
  add_ingredient_file builder ingredient_json source_path =
      with_file (files.open_in source_path) (pure (err (no_source ++ source_path)))
        (add_ingredient sdk builder ingredient_json (skip_dot (files.extension source_path)))

  unfoldable pub from_archive_file : (archive_path : Bytes) → Cpp sdk Ptr
  unfolding with_file
  from_archive_file archive_path =
      with_file (files.open_in archive_path) (pure (err (no_archive ++ archive_path)))
        (from_archive sdk)

  unfoldable pub to_archive_file : Ptr → (dest_path : Bytes) → Cpp sdk (Unit {0})
  unfolding with_file
  to_archive_file builder dest_path =
      with_file (files.open_out dest_path) (pure (err (no_destination ++ dest_path)))
        (to_archive sdk builder)

  -- `Builder::sign` on paths, from the test of the directory on.
  unfoldable pub make_directory : (dest_dir : Bytes) → M (Thread sdk.Env) (Result (Unit {0}) Bytes)
  make_directory dest_dir = do
    there ← files.exists dest_dir
    elim there [
      | err what ↦ pure (err what)
      | ok found ↦ if found then pure (ok tt) else files.create_directories dest_dir
    ]

  unfoldable pub sign_path :
      Ptr → (source_path dest_path : Bytes) → (signer slot : Ptr) → Cpp sdk Bytes
  unfolding with_file make_directory skip_dot
  sign_path builder source_path dest_path signer slot =
      with_file (files.open_in source_path) (pure (err (no_source ++ source_path))) λ source. do
        made ← in_thread (make_directory (files.parent_path dest_path))
        elim made [
          | err what ↦ pure (err what)
          | ok _ ↦
              with_file (files.open_inout dest_path) (pure (err (no_destination ++ dest_path)))
                λ dest.
                  sign sdk builder (skip_dot (files.extension dest_path)) source dest signer slot
        ]
