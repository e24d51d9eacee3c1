-- ===== src/Stream.antt =====
-- The streams that C implements by callbacks (`CStream` of src/c_stream.rs, lines 21 to 158).
pub mod Cursor
pub mod Contract
pub mod TestStream
use c2pa_c.Common.{
  ℕ, Bytes, codes, length, ltb, if◌then◌else◌, ℤ, is_negative, isize_max, as_u64, as_i64, Result,
  ok, err, M, ◌>>=◌, pure, gets, fault, ◌==◌,
}
use c2pa_c.Error.Last.{Thread}

-- An address; 0 is null.
abbrev pub Ptr : Type 0
Ptr = ℕ

-- `C2paSeekMode`
pub data SeekMode : Type 0 where
  start current end : SeekMode

-- `std::io::SeekFrom`: a u64 from the start, an i64 else.
pub data SeekFrom : Type 0 where
  from_start : ℕ → SeekFrom
  from_current from_end : ℤ → SeekFrom

-- The errors of `std::io` that a stream returns: `InvalidInput` with a text, and the code that the
-- operating system left.
pub data IoError : Type 0 where
  invalid_input : Bytes → IoError
  os_error : ℕ → IoError

-- The callbacks, on the context. The reader is given the buffer and returns it with what it wrote.
pub record CStream (E : Type 0) : Type 0 where
  pub context : Ptr
  pub reader : Ptr → Bytes → M (Thread E) (ℤ × Bytes)
  pub seeker : Ptr → ℤ → SeekMode → M (Thread E) ℤ
  pub writer : Ptr → Bytes → M (Thread E) ℤ
  pub flusher : Ptr → M (Thread E) ℤ

-- The arguments of the seek callback.
unfoldable pub seek_args : SeekFrom → ℤ × SeekMode
seek_args (from_current n) = (n, current)
seek_args (from_start n) = (as_i64 n, start)
seek_args (from_end n) = (n, end)

module _ {E : Type 0} where
  -- `std::io::Error::last_os_error`
  unfoldable pub last_os_error : M (Thread E) IoError
  last_os_error = gets λ t. os_error t.errno

  -- `Read::read`: the result, and the buffer.
  unfoldable pub read : CStream E → Bytes → M (Thread E) (Result ℕ IoError × Bytes)
  unfolding last_os_error
  read s buf =
      if ltb isize_max (length buf)
      then pure (err (invalid_input (codes "Read buffer is too large")), buf)
      else do
        (bytes_read, buf') ← s.reader s.context buf
        if is_negative bytes_read
            then (do e ← last_os_error; pure (err e, buf'))
            else pure (ok (as_u64 bytes_read), buf')

  -- `Seek::seek`
  unfoldable pub seek : CStream E → SeekFrom → M (Thread E) (Result ℕ IoError)
  unfolding seek_args
  seek s from = do
    let (offset, mode) = seek_args from
    new_pos ← s.seeker s.context offset mode
    pure (ok (as_u64 new_pos))

  -- `Write::write`
  unfoldable pub write : CStream E → Bytes → M (Thread E) (Result ℕ IoError)
  unfolding last_os_error
  write s buf =
      if ltb isize_max (length buf)
      then pure (err (invalid_input (codes "Write buffer is too large")))
      else do
        bytes_written ← s.writer s.context buf
        if is_negative bytes_written
            then (do e ← last_os_error; pure (err e))
            else pure (ok (as_u64 bytes_written))

  -- `Write::flush`
  unfoldable pub flush : CStream E → M (Thread E) (Result (Unit {0}) IoError)
  unfolding last_os_error
  flush s = do
    code ← s.flusher s.context
    if is_negative code then (do e ← last_os_error; pure (err e)) else pure (ok tt)

  -- `CStream::new`, on the context and the callbacks. The context becomes a box, so null is
  -- undefined behaviour.
  unfoldable pub c_stream_new : CStream E → M (Thread E) (CStream E)
  c_stream_new s = if s.context == 0 then fault else pure s

  -- `CStream::extract_context` leaves the dangling pointer of a box of no bytes.
  unfoldable pub extract_context : CStream E → Ptr × CStream E
  extract_context s = (s.context, record s { context = 1 })
