-- ===== src/Stream/Cursor.antt =====
-- `std::io::Cursor<Vec<u8>>`, which the test stream of src/c_stream.rs wraps. The error is its
-- text.
pub mod Laws
use c2pa_c.Common.{
  ℕ, ◌+◌, ◌-◌, ◌^◌, min, Bytes, codes, ◌++◌, length, take, drop, replicate, ltb, leb, ◌&&◌,
  if◌then◌else◌, ℤ, pos, negsuc, isize_max, Result, ok, err, Option, none, some,
}

-- `position` is a u64.
pub record Cursor : Type 0 where
  pub inner : Bytes
  pub position : ℕ

-- `Cursor::new`
unfoldable pub cursor_new : Bytes → Cursor
cursor_new inner = record { inner = inner; position = 0 }

-- The bytes from the position on.
unfoldable pub remaining : Cursor → Bytes
remaining c = drop (min c.position (length c.inner)) c.inner

-- `Read::read` fills the front of the buffer, as far as bytes remain.
unfoldable pub cursor_read : Cursor → Bytes → Result ℕ Bytes × Bytes × Cursor
unfolding remaining
cursor_read c buf =
    let n = min (length buf) (length (remaining c)) in
    (ok n, take n (remaining c) ++ drop n buf, record c { position = c.position + n })

-- Zeros up to the position.
unfoldable pub padded : Cursor → Bytes
padded c = c.inner ++ replicate (c.position - length c.inner) 0

-- `Write::write` pads, overwrites and extends. A vector of more than `isize::MAX` bytes is a panic.
unfoldable pub cursor_write : Cursor → Bytes → Option (Result ℕ Bytes × Cursor)
unfolding padded
cursor_write c buf =
    let end = c.position + length buf in
    if ltb isize_max end
    then none
    else some (
      ok (length buf),
      record { inner = take c.position (padded c) ++ (buf ++ drop end (padded c)); position = end },
    )

-- `u64::checked_add_signed`
unfoldable pub checked_add_signed : ℕ → ℤ → Option ℕ
checked_add_signed base (pos n) = if ltb (base + n) (2 ^ 64) then some (base + n) else none
checked_add_signed base (negsuc n) = if ltb n base then some (base - (n + 1)) else none

abbrev pub bad_seek : Bytes
bad_seek = codes "invalid seek to a negative or overflowing position"

-- `Seek::seek` by an offset from a base.
unfoldable pub cursor_seek : Cursor → ℕ → ℤ → Result ℕ Bytes × Cursor
unfolding checked_add_signed
cursor_seek c base offset = elim (checked_add_signed base offset) [
  | some n ↦ (ok n, record c { position = n })
  | none ↦ (err bad_seek, c)
]
