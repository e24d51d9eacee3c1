-- ===== src/Cpp.antt =====
-- The C++ wrapper (src/c2pa.cpp): its strings, the exception, and the functions that are not
-- members of a class (lines 68 to 172). A `std::string` and a path are their bytes; what the
-- standard library prints is left out.
pub mod Iostream
pub mod Scope
pub mod Ends
pub mod Texts
pub mod Signer
pub mod Settings
pub mod Files
pub mod Reader
pub mod Builder
pub mod Paths
use c2pa_c.Common.{
  Bytes, codes, List, [], ◌∷◌, Bool, true, false, ◌&&◌, ◌||◌, Option, none, some, Result, ok, err,
  ℤ, pos, negsuc, M, ◌>>=◌, ◌>>◌, pure, or_fault, if◌then◌else◌, ◌==◌,
}
use c2pa_c.Stream.{Ptr}
use c2pa_c.Memory.{borrow}
use c2pa_c.Sdk.{Sdk, as_c_string}
use c2pa_c.CApi.{CStr, Api, null}
use c2pa_c.CApi.Files.{
  CSignerInfo, c2pa_version, c2pa_error, c2pa_load_settings, c2pa_read_file,
  c2pa_read_ingredient_file, c2pa_sign_file, c2pa_release_string,
}

-- `std::string::c_str`, as C reads it: up to the first zero.
unfoldable pub before_zero : Bytes → Bytes
before_zero [] = []
before_zero (b ∷ s) = let rest = before_zero s in if b == 0 then [] else b ∷ rest

abbrev pub c_str : Bytes → CStr
c_str s = some (before_zero s)

-- `std::string::find` of a text, compared with `npos`.
unfoldable pub starts_with : Bytes → Bytes → Bool
starts_with [] s = true
starts_with (c ∷ text) [] = false
starts_with (c ∷ text) (b ∷ s) = (b == c) && starts_with text s

unfoldable pub contains : Bytes → Bytes → Bool
unfolding starts_with
contains text [] = starts_with text []
contains text (b ∷ s) = starts_with text (b ∷ s) || contains text s

-- `result != 0` fails at 0 only.
abbrev pub is_zero : ℤ → Bool
is_zero (pos n) = n == 0
is_zero (negsuc n) = false

-- A missing directory is an empty text.
unfoldable pub dir_or_empty : Option Bytes → Bytes
dir_or_empty none = []
dir_or_empty (some dir) = dir

module _ (sdk : Sdk) where
  -- A function that may throw; an exception is its message.
  abbrev pub Cpp : Type 0 → Type 0
  Cpp A = Api sdk (Result A Bytes)

  -- `string(p)`; a pointer that does not point at a text is undefined behaviour, and for null the
  -- standard library may have a text.
  unfoldable pub string_at : Ptr → Api sdk Bytes
  string_at p = if p == null then or_fault sdk.string_of_null else borrow (as_c_string sdk) p

  -- The text behind a pointer that C gave away, which is then released.
  unfoldable pub take_string : Ptr → Api sdk Bytes
  unfolding string_at
  take_string result = do str ← string_at result; c2pa_release_string sdk result; pure str

  -- `Exception::Exception()`
  unfoldable pub exception : Api sdk Bytes
  unfolding take_string
  exception = do result ← c2pa_error sdk; take_string result

  -- `throw Exception()`
  unfoldable pub throw : {A : Type 0} → Cpp A
  unfolding exception
  throw = do message ← exception; pure (err message)

  unfoldable pub version : Api sdk Bytes
  unfolding take_string
  version = do result ← c2pa_version sdk; take_string result

  unfoldable pub load_settings : (format settings : Bytes) → Cpp (Unit {0})
  unfolding throw
  load_settings format settings = do
    result ← c2pa_load_settings sdk (c_str format) (c_str settings)
    if is_zero result then pure (ok tt) else throw

  -- The text that a function gives, or the exception for null.
  unfoldable pub string_or_throw : Ptr → Cpp Bytes
  unfolding take_string throw
  string_or_throw result =
      if result == null then throw else (do str ← take_string result; pure (ok str))

  -- The end of `read_file`: null without a manifest is no exception.
  unfoldable pub text_or_absent : Ptr → Cpp (Option Bytes)
  unfolding exception throw contains take_string
  text_or_absent result =
      if result == null
      then (do
        what ← exception
        if contains (codes "ManifestNotFound") what then pure (ok none) else throw)
      else (do str ← take_string result; pure (ok (some str)))

  unfoldable pub read_file : (source_path : Bytes) (data_dir : Option Bytes) → Cpp (Option Bytes)
  unfolding dir_or_empty text_or_absent
  read_file source_path data_dir = do
    result ← c2pa_read_file sdk (c_str source_path) (c_str (dir_or_empty data_dir))
    text_or_absent result

  unfoldable pub read_ingredient_file : (source_path data_dir : Bytes) → Cpp Bytes
  unfolding string_or_throw
  read_ingredient_file source_path data_dir = do
    result ← c2pa_read_ingredient_file sdk (c_str source_path) (c_str data_dir)
    string_or_throw result

  unfoldable pub sign_file :
      (source_path dest_path : Bytes) (manifest : CStr)
      → CSignerInfo
      → (data_dir : Option Bytes) → Cpp (Unit {0})
  unfolding dir_or_empty throw
  sign_file source_path dest_path manifest signer_info data_dir = do
    result ←
        c2pa_sign_file sdk (c_str source_path) (c_str dest_path) manifest signer_info
          (c_str (dir_or_empty data_dir))
    if result == null then throw else (do c2pa_release_string sdk result; pure (ok tt))
