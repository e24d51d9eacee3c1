-- ===== src/Stream/TestStream/Refinement.antt =====
-- `TestCStream` (src/c_stream.rs, lines 212 to 272) against the cursor that its context points at.
use c2pa_c.Common.{
  ℕ, ◌+◌, ◌-◌, ◌≤◌, ◌<◌, ◌^◌, Bytes, ◌++◌, length, take, drop, ℤ, isize_max, as_i64, ok, err, some,
  none, ◌≡◌, refl, arith, le→ltb, ◌>>=◌, as_i64_small, as_u64_small, as_u64-as_i64, lt→ltb,
  or_fault,
}
use mathlib.Core.Option.{Option, some-injective}
use c2pa_c.Error.{io}
use c2pa_c.Error.Last.{Thread}
use c2pa_c.Stream.{Ptr, SeekFrom, from_start, from_current, from_end, read, write, seek}
use c2pa_c.Stream.Cursor.{
  Cursor, remaining, cursor_write, checked_add_signed, cursor_seek, bad_seek,
}
use c2pa_c.Stream.Cursor.Laws.{written, cursor_write-written, read_count, advanced}
use c2pa_c.Stream.TestStream.{
  Arena, update, deref, test_stream, test_reader, test_writer, test_seeker,
}

-- The thread after the cursor at `context` has become `c`.
abbrev pub stored : Thread Arena → Ptr → Cursor → Thread Arena
stored t context c = record t {
  outside = record t.outside { cursors = update t.outside.cursors context (some c) };
}

module _ (t : Thread Arena) (context : Ptr) (c : Cursor) where
  deref-some : t.outside.cursors context ≡ some c → deref context t ≡ some (c, t)
  unfolding deref
  deref-some here = rw here

  test_reader-some :
      (buf : Bytes)
      → t.outside.cursors context ≡ some c
      → test_reader context buf t
        ≡ some (
          (
            as_i64 (read_count c buf),
            take (read_count c buf) (remaining c) ++ drop (read_count c buf) buf,
          ),
          stored t context (advanced c (read_count c buf)),
        )
  unfolding test_reader
  test_reader-some buf here = rw (here, test_reader, deref, ◌>>=◌) refl

  -- A read of a test stream whose context points at a cursor, into a buffer whose length an
  -- `isize` holds, returns what the cursor holds from its position on, as much as the buffer
  -- takes, and moves the position; the rest of the buffer stays.
  pub read-cursor :
      (buf : Bytes)
      → t.outside.cursors context ≡ some c
      → length buf ≤ isize_max
      → read (test_stream context) buf t
        ≡ some (
          (
            ok (read_count c buf),
            take (read_count c buf) (remaining c) ++ drop (read_count c buf) buf,
          ),
          stored t context (advanced c (read_count c buf)),
        )
  unfolding read
  read-cursor buf here h =
      let small : read_count c buf ≤ isize_max = omega arith in
      rw (le→ltb isize_max (length buf) h) (
        rw (test_reader-some buf here, ◌>>=◌)
          (rw (as_i64_small (read_count c buf) small) (rw (as_u64_small (read_count c buf) small))))

  test_writer-some :
      (buf : Bytes)
      → t.outside.cursors context ≡ some c
      → c.position + length buf ≤ isize_max
      → test_writer context buf t ≡ some (as_i64 (length buf), stored t context (written c buf))
  unfolding test_writer
  test_writer-some buf here h =
      rw (here, test_writer, deref, ◌>>=◌) (rw (cursor_write-written c buf h, or_fault))

  -- A write to a test stream whose context points at a cursor, if it ends within the range of an
  -- `isize`, returns the whole length, and leaves the cursor with the bytes at its position.
  pub write-cursor :
      (buf : Bytes)
      → t.outside.cursors context ≡ some c
      → c.position + length buf ≤ isize_max
      → write (test_stream context) buf t ≡ some (ok (length buf), stored t context (written c buf))
  unfolding write
  write-cursor buf here h =
      let small : length buf ≤ isize_max = omega arith in
      rw (le→ltb isize_max (length buf) small) (
        rw (test_writer-some buf here h, ◌>>=◌)
          (rw (as_i64_small (length buf) small) (rw (as_u64_small (length buf) small))))

  -- A write to a test stream whose context points at a cursor, of bytes whose length an `isize`
  -- holds but that would end beyond that range, is a fault.
  write-overflow :
      (buf : Bytes)
      → t.outside.cursors context ≡ some c
      → length buf ≤ isize_max
      → isize_max < c.position + length buf
      → write (test_stream context) buf t ≡ none
  unfolding write test_writer cursor_write
  write-overflow buf here small over = rw (le→ltb isize_max (length buf) small) (
      rw (here, test_writer, deref, ◌>>=◌)
        (rw (lt→ltb isize_max (c.position + length buf) over, ◌>>=◌, or_fault)))

  -- A seek from the start goes to any u64, also beyond the end and beyond the signed range that
  -- the callback is called with.
  pub seek-start :
      (p : ℕ)
      → t.outside.cursors context ≡ some c
      → p < 2 ^ 64
      → seek (test_stream context) (from_start p) t
        ≡ some (ok p, stored t context (record c { position = p }))
  unfolding seek test_seeker
  seek-start p here h =
      rw (here, test_seeker, deref, ◌>>=◌) (rw (as_u64-as_i64 p h) (rw (as_u64-as_i64 p h)))

-- Where a seek should land, if it may.
abbrev pub landing : Cursor → SeekFrom → Option ℕ
landing c (from_start p) = some p
landing c (from_current n) = checked_add_signed c.position n
landing c (from_end n) = checked_add_signed (length c.inner) n

-- The last error after a callback has failed.
abbrev pub failed : Thread Arena → Bytes → Thread Arena
failed t e = record t { last_error = some (io e) }

module _ (c : Cursor) (base : ℕ) where
  cursor_seek-some :
      (m : ℕ) (n : ℤ)
      → checked_add_signed base n ≡ some m
      → cursor_seek c base n ≡ (ok m, record c { position = m })
  unfolding cursor_seek
  cursor_seek-some m n e = rw (e, cursor_seek)

  cursor_seek-none :
      (n : ℤ) → checked_add_signed base n ≡ none → cursor_seek c base n ≡ (err bad_seek, c)
  unfolding cursor_seek
  cursor_seek-none n e = rw (e, cursor_seek)

module _ (t : Thread Arena) (context : Ptr) (c : Cursor) where
  -- A seek of a test stream whose context points at a cursor, to a place from the start, the
  -- position or the end that a u64 holds, moves the position there and returns it.
  pub seek-landing :
      (from : SeekFrom) (m : ℕ)
      → t.outside.cursors context ≡ some c
      → landing c from ≡ some m
      → m < 2 ^ 64
      → seek (test_stream context) from t
        ≡ some (ok m, stored t context (record c { position = m }))
  unfolding seek test_seeker
  seek-landing (from_start p) m here e h =
      rw (← some-injective _ _ e) (seek-start t context c p here (rw (some-injective _ _ e) h))
  seek-landing (from_current n) m here e h =
      rw (here, test_seeker, deref, ◌>>=◌)
        (rw (cursor_seek-some c c.position m n e)
          (rw (cursor_seek-some c c.position m n e) (rw (as_u64-as_i64 m h))))
  seek-landing (from_end n) m here e h =
      rw (here, test_seeker, deref, ◌>>=◌)
        (rw (cursor_seek-some c (length c.inner) m n e)
          (rw (cursor_seek-some c (length c.inner) m n e) (rw (as_u64-as_i64 m h))))

  -- A seek of a test stream whose context points at a cursor, to a place before the start or past
  -- the u64 range, leaves the position and sets the last error, but returns no error: the result
  -- is the position `u64::MAX`.
  pub seek-nowhere :
      (from : SeekFrom)
      → t.outside.cursors context ≡ some c
      → landing c from ≡ none
      → seek (test_stream context) from t
        ≡ some (ok (2 ^ 64 - 1), failed (stored t context c) bad_seek)
  unfolding seek test_seeker
  seek-nowhere (from_start p) here e = cc
  seek-nowhere (from_current n) here e =
      rw (here, test_seeker, deref, ◌>>=◌) (rw (cursor_seek-none c c.position n e))
  seek-nowhere (from_end n) here e =
      rw (here, test_seeker, deref, ◌>>=◌) (rw (cursor_seek-none c (length c.inner) n e))
