-- ===== src/CApi.antt =====
-- The macros and helpers of the C interface (src/c_api.rs, lines 66 to 156). A `const char*` is
-- null or the bytes before the terminating zero; a function that returns early drops the boxes
-- that it has taken back and not given away again.
pub mod Files
pub mod Reading
pub mod Building
pub mod Signing
pub mod Signers
pub mod Streams
pub mod Frame
pub mod Session
pub mod Threads
pub mod Ownership
pub mod Protocol
use c2pa_c.Common.{
  ℕ, Bytes, List, [], ◌∷◌, length, Bool, true, false, ◌||◌, Option, none, some, Result, ok, err, ℤ,
  pos, negsuc, as_c_int, M, ◌>>=◌, ◌>>◌, pure, if◌then◌else◌, ◌==◌, from_utf8_lossy,
}
use c2pa_c.Error.{null_parameter}
use c2pa_c.Error.Convert.{C2paError, from_c2pa_error}
use c2pa_c.Stream.{Ptr}
use c2pa_c.Memory.{World, alloc, write_slot, fail_with}
use c2pa_c.Sdk.{Sdk, Block, c_string, boxed_slice}

abbrev pub CStr : Type 0
CStr = Option Bytes

-- `std::ptr::null_mut()`, and the error code.
abbrev pub null : Ptr
null = 0

abbrev pub minus_one : ℤ
minus_one = negsuc 0

abbrev pub has_zero : Bytes → Bool
has_zero [] = false
has_zero (b ∷ bytes) = (b == 0) || has_zero bytes

-- A function of the interface.
abbrev pub Api : Sdk → Type 0 → Type 0
Api sdk A = M (World sdk.Env (Block sdk)) A

-- `from_cstr_option!`
unfoldable pub from_cstr_option : CStr → Option Bytes
from_cstr_option none = none
from_cstr_option (some s) = some (from_utf8_lossy s)

module _ (sdk : Sdk) {A : Type 0} where
  -- `from_cstr_null_check!` and `from_cstr_null_check_int!`: the name of the argument, the
  -- argument, the value of an early return, and the rest of the function.
  unfoldable pub with_cstr : Bytes → CStr → A → (Bytes → Api sdk A) → Api sdk A
  unfolding fail_with
  with_cstr name none early rest = fail_with (null_parameter name) early
  with_cstr name (some s) early rest = rest (from_utf8_lossy s)

  -- `null_check!` and `null_check_int!`
  unfoldable pub null_check : Bytes → Ptr → A → Api sdk A → Api sdk A
  unfolding fail_with
  null_check name p early rest = if p == null then fail_with (null_parameter name) early else rest

  -- `Error::from_c2pa_error(err).set_last()`, and the value that stands for the error.
  unfoldable pub sdk_error : C2paError → A → Api sdk A
  unfolding fail_with
  sdk_error e a = fail_with (from_c2pa_error e) a

module _ (sdk : Sdk) where
  -- `to_c_string`: a text with a zero byte in it gives null.
  unfoldable pub to_c_string : Bytes → Api sdk Ptr
  to_c_string s = if has_zero s then pure null else alloc (c_string s)

  -- A vector is given away as a boxed slice, through a variable of C; its length is the result.
  unfoldable pub give_bytes : Ptr → Bytes → Api sdk ℤ
  give_bytes slot bytes = do
    p ← alloc (boxed_slice bytes)
    write_slot slot p
    pure (as_c_int (length bytes))
