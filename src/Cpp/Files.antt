-- ===== src/Cpp/Files.antt =====
-- The functions on files of the C++ wrapper (src/c2pa.cpp, lines 102 to 172), over the contract
-- of the C interface.
use c2pa_c.Common.{
  Bytes, codes, none, some, Option, Result, ok, err, ◌>>=◌, ◌≡◌, ◌⊎◌, if◌then◌else◌,
}
use c2pa_c.Error.{Error}
use c2pa_c.Sdk.{Sdk}
use c2pa_c.Cpp.{contains}
use c2pa_c.Cpp.Ends.{what_of, Ends}

-- What is made of an error: no manifest, or an exception.
abbrev pub absent_or_thrown : Bytes → Result (Option Bytes) Bytes
absent_or_thrown what = if contains (codes "ManifestNotFound") what then ok none else err what

-- A text; or what is made of the last error.
abbrev pub FileRead : (null_text : Bytes) → Result (Option Bytes) Bytes → Option Error → Type 0
FileRead null_text r error =
    ((text : Bytes) × (r ≡ ok (some text))) ⊎ (r ≡ absent_or_thrown (what_of null_text error))
