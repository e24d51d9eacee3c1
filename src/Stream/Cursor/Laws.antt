-- ===== src/Stream/Cursor/Laws.antt =====
-- The cursor of the test stream (src/c_stream.rs) as a file: its reads and writes.
use mathlib.Core.Path.{subst}
use c2pa_c.Common.{
  ℕ, ◌+◌, ◌-◌, ◌≤◌, min, Bytes, ◌++◌, length, take, drop, replicate, isize_max, ok, some, ◌≡◌, sym,
  arith, le→ltb, length-append, length-take, length-replicate, take-append, drop-append_at,
  drop_all,
}
use mathlib.Core.List.{append-nil}
use c2pa_c.Stream.Cursor.{Cursor, remaining, padded, cursor_write}

-- The bytes that a write leaves, and the cursor after it.
abbrev pub written : Cursor → Bytes → Cursor
written c buf = record {
  inner = take c.position (padded c) ++ (buf ++ drop (c.position + length buf) (padded c));
  position = c.position + length buf;
}

pub cursor_write-written :
    (c : Cursor) (buf : Bytes)
    → c.position + length buf ≤ isize_max
    → cursor_write c buf ≡ some (ok (length buf), written c buf)
unfolding cursor_write
cursor_write-written c buf h = rw (le→ltb isize_max (c.position + length buf) h)

length-padded : (c : Cursor) → c.position ≤ length (padded c)
unfolding padded
length-padded c = omega (
  arith,
  length-append c.inner (replicate (c.position - length c.inner) 0),
  length-replicate {A = ℕ} (c.position - length c.inner) 0,
)

front : (c : Cursor) → length (take c.position (padded c)) ≡ c.position
front c = omega (arith, length-take c.position (padded c), length-padded c)

remaining-append :
    (p : ℕ) (xs ys : Bytes)
    → length xs ≡ p
    → remaining (record { inner = xs ++ ys; position = p }) ≡ ys
unfolding remaining
remaining-append p xs ys h =
    let bound : min p (length (xs ++ ys)) ≡ p = omega (arith, length-append xs ys) in
    subst (λ (k : ℕ). drop k (xs ++ ys) ≡ ys) (sym bound) (drop-append_at p xs ys h)

-- Going back after a write, the written bytes come first.
pub remaining-written :
    (c : Cursor) (buf : Bytes)
    → remaining (record { inner = (written c buf).inner; position = c.position })
      ≡ buf ++ drop (c.position + length buf) (padded c)
remaining-written c buf = remaining-append c.position (take c.position (padded c)) _ (front c)

-- What a read returns and where it stands afterwards.
abbrev pub read_count : Cursor → Bytes → ℕ
read_count c buf = min (length buf) (length (remaining c))

abbrev pub advanced : Cursor → ℕ → Cursor
advanced c n = record c { position = c.position + n }

-- Bytes that a cursor holds first are what a buffer of their length receives.
module _ (c : Cursor) (bytes rest buf : Bytes) (front : remaining c ≡ bytes ++ rest)
    (same : length buf ≡ length bytes) where
  pub read_count_front : read_count c buf ≡ length bytes
  read_count_front = rw front (omega (arith, length-append bytes rest, same))

  pub read_bytes_front : take (length bytes) (remaining c) ++ drop (length bytes) buf ≡ bytes
  read_bytes_front =
      rw (front, take-append bytes rest, drop_all (length bytes) buf (omega arith), append-nil)
