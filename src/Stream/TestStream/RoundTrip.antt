-- ===== src/Stream/TestStream/RoundTrip.antt =====
-- Whole runs of `TestCStream` (src/c_stream.rs, lines 198 to 299).
use c2pa_c.Common.{
  ℕ, ◌+◌, ◌≤◌, Bytes, ◌++◌, length, isize_max, Result, ok, M, some, none, ◌≡◌, ◌∙◌, arith, ◌>>=◌,
  ==_refl, ==_ne, or_fault, ◌≢◌,
}
use c2pa_c.Error.Last.{Thread}
use c2pa_c.Stream.{Ptr, IoError, from_start, read, write, seek, CStream}
use c2pa_c.Stream.Cursor.{Cursor, remaining, cursor_new}
use c2pa_c.Stream.Cursor.Laws.{
  written, remaining-written, read_count_front, read_bytes_front, advanced,
}
use c2pa_c.Stream.TestStream.{Arena, update, test_stream, from_bytes, from_c_stream}
use c2pa_c.Stream.TestStream.Refinement.{stored, read-cursor, write-cursor, seek-start}

-- A client writes at the position, seeks back to it and reads into a buffer.
abbrev pub write_seek_read :
    CStream Arena
    → (position : ℕ) → (data_bytes buf : Bytes) → M (Thread Arena) (Result ℕ IoError × Bytes)
write_seek_read s position bytes buf = do
  count ← write s bytes
  place ← seek s (from_start position)
  read s buf

module _ (t : Thread Arena) (context : Ptr) (c : Cursor) where
  abbrev after_write : Bytes → Thread Arena
  after_write bytes = stored t context (written c bytes)

  abbrev back : Bytes → Cursor
  back bytes = record { inner = (written c bytes).inner; position = c.position }

  now : (u : Thread Arena) (d : Cursor) → (stored u context d).outside.cursors context ≡ some d
  now u d = rw (==_refl context)

  -- A read of bytes that stand first.
  read_front :
      (u : Thread Arena) (d : Cursor) (bytes rest buf : Bytes)
      → u.outside.cursors context ≡ some d
      → remaining d ≡ bytes ++ rest
      → length buf ≡ length bytes
      → length buf ≤ isize_max
      → read (test_stream context) buf u
        ≡ some ((ok (length bytes), bytes), stored u context (advanced d (length bytes)))
  read_front u d bytes rest buf here front same small =
      let count = read_count_front d bytes rest buf front same in
      read-cursor u context d buf here small
      ∙ rw count (rw (read_bytes_front d bytes rest buf front same))

  -- A test stream whose context points at a cursor, and bytes written at its position, inside or
  -- beyond the old contents, that end within the range of an `isize`: after a seek back to that
  -- position a read into a buffer of the same length returns all of the bytes, and the cursor is
  -- the one after the write.
  pub read-write :
      (bytes buf : Bytes)
      → t.outside.cursors context ≡ some c
      → c.position + length bytes ≤ isize_max
      → length buf ≡ length bytes
      → (t' : Thread Arena) × (write_seek_read (test_stream context) c.position bytes buf t
          ≡ some ((ok (length bytes), bytes), t'))
        × (t'.outside.cursors context ≡ some (written c bytes))
  read-write bytes buf here fits same =
      let t₁ = after_write bytes in
      let t₂ = stored t₁ context (back bytes) in
      let got = t₁.outside.cursors in
      let w = write-cursor t context c bytes here fits in
      let k =
        seek-start t₁ context (written c bytes) c.position (now t (written c bytes))
          (omega arith) in
      let r =
        read_front t₂ (back bytes) bytes _ buf (now t₁ (back bytes)) (remaining-written c bytes)
          same (omega arith) in
      (
        stored t₂ context (written c bytes),
        rw (w, ◌>>=◌) (rw (k, ◌>>=◌) r),
        now t₂ (written c bytes),
      )

-- Where the next address of a box is not null and not in use, the stream that `from_bytes` makes
-- gives back, by `from_c_stream`, a cursor at the start of the bytes, and the boxes are as
-- before.
from_c_stream-from_bytes :
    (t : Thread Arena) (bytes : Bytes)
    → t.outside.next ≢ 0
    → t.outside.cursors t.outside.next ≡ none
    → (t' : Thread Arena) × ((do s ← from_bytes bytes; from_c_stream s) t
        ≡ some (cursor_new bytes, t'))
      × ((p : Ptr) → t'.outside.cursors p ≡ t.outside.cursors p)
unfolding from_bytes from_c_stream
from_c_stream-from_bytes t bytes h unused =
    let p = t.outside.next in
    let first = update t.outside.cursors p (some (cursor_new bytes)) in
    (
      record t { outside = record { cursors = update first p none; next = p + 1 } },
      rw (==_ne p 0 h, ◌>>=◌) (rw (==_refl p, ◌>>=◌, or_fault)),
      λ q. ground (arith, unused),
    )
