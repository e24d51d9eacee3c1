-- ===== src/Error/Last.antt =====
-- The last error (`LAST_ERROR` of src/error.rs): a cell of the thread, empty at the start.
use c2pa_c.Common.{ℕ, Bytes, Option, none, some, M, gets, modify}
use mathlib.Core.Option
use c2pa_c.Error.{Error, to_string}

-- A thread of the process: the last error, the error code of the operating system, and all that
-- lies outside the library (files, the network, the SDK's settings, the memory behind a stream's
-- context).
pub record Thread (E : Type 0) : Type 0 where
  pub last_error : Option Error
  pub errno : ℕ
  pub outside : E

module _ {E : Type 0} where
  -- `Error::set_last` replaces what the cell held.
  unfoldable pub set_last : Error → M (Thread E) (Unit {0})
  set_last e = modify λ t. record t { last_error = some e }

  -- `Error::last_message` reads the text and leaves the cell as it is.
  unfoldable pub last_message : M (Thread E) (Option Bytes)
  last_message = gets λ t. Option.map to_string t.last_error

  -- `Error::take_last` empties the cell.
  unfoldable pub take_last : M (Thread E) (Option Error)
  take_last t = some (t.last_error, record t { last_error = none })
