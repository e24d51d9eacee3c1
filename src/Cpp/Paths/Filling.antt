-- ===== src/Cpp/Paths/Filling.antt =====
-- The members of `Builder` on paths (src/c2pa.cpp, lines 575 to 607 and 692 to 699), over the
-- contract of the C interface.
use c2pa_c.Common.{Bytes, ◌++◌, none, some, Result, ok, err, ◌≡◌}
use c2pa_c.Error.{Error}
use c2pa_c.Stream.{Ptr}
use c2pa_c.Sdk.{Sdk}
use c2pa_c.CApi.Protocol.{Holdings, with_kind}
use c2pa_c.Cpp.{Cpp}
use c2pa_c.Cpp.Ends.{what_of, Ends}
use c2pa_c.Cpp.Iostream.{Iostream}
use c2pa_c.Cpp.Builder.Filling.{Filling}
use c2pa_c.Cpp.Paths.{
  Filesystem, no_source, no_destination, add_resource_file, add_ingredient_file, to_archive_file,
}

-- The builder is kept after a success, and after a file that could not be opened; it is lost
-- after an error of the interface.
pub data PathFilled (null_text : Bytes) (b : Ptr) (before : Holdings) (unopened : Bytes)
    (r : Result (Unit {0}) Bytes) (after : Holdings) : Type 0 where
  filled : r ≡ ok tt → after ≡ before → PathFilled null_text b before unopened r after
  no_file : r ≡ err unopened → after ≡ before → PathFilled null_text b before unopened r after
  lost :
      (e : Error)
      → r ≡ err (what_of null_text (some e))
      → after ≡ with_kind before b none
      → PathFilled null_text b before unopened r after

module _ (sdk : Sdk) (files : Filesystem sdk.Env) where
  -- The members on paths, with the arguments that they are given.
  pub data PathFilling : Type 0 where
    resource_file : (uri source_path : Bytes) → PathFilling
    ingredient_file : (ingredient_json source_path : Bytes) → PathFilling
    archive_file : (dest_path : Bytes) → PathFilling

  abbrev pub fill_file : PathFilling → Ptr → Cpp sdk (Unit {0})
  fill_file (resource_file uri path) b = add_resource_file sdk files b uri path
  fill_file (ingredient_file json path) b = add_ingredient_file sdk files b json path
  fill_file (archive_file path) b = to_archive_file sdk files b path

  -- What is thrown if the file cannot be opened.
  abbrev pub unopened : PathFilling → Bytes
  unopened (resource_file uri path) = no_source ++ path
  unopened (ingredient_file json path) = no_source ++ path
  unopened (archive_file path) = no_destination ++ path
