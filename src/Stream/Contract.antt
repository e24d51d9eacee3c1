-- ===== src/Stream/Contract.antt =====
-- `CStream` and its callbacks, whatever they are (src/c_stream.rs, lines 104 to 158).
use c2pa_c.Common.{
  ℕ, ◌-◌, ◌≤◌, ◌<◌, ◌^◌, Bytes, codes, length, negsuc, isize_max, ok, err, some, ◌≡◌, arith, lt→ltb,
  ◌>>=◌, as_u64_small,
}
use c2pa_c.Error.Last.{Thread}
use c2pa_c.Stream.{CStream, SeekFrom, seek_args, invalid_input, read, write, seek}

-- A buffer that a signed length cannot describe is refused, whatever the callbacks are: nothing is
-- read or written, and the thread stays as it is.
pub read-write-too_large :
    {E : Type 0} (s : CStream E) (buf : Bytes) (t : Thread E)
    → isize_max < length buf
    → (read s buf t ≡ some ((err (invalid_input (codes "Read buffer is too large")), buf), t))
      × (write s buf t ≡ some (err (invalid_input (codes "Write buffer is too large")), t))
unfolding read write
read-write-too_large s buf t h = let large = lt→ltb isize_max (length buf) h in (rw large, rw large)

-- Where the callback of a seek reports an error by a negative code of an `isize`, the seek
-- returns no error, but a position above every `isize`.
pub seek-swallows :
    {E : Type 0} (s : CStream E) (from : SeekFrom) (k : ℕ) (t t' : Thread E)
    → s.seeker s.context (seek_args from).0 (seek_args from).1 t ≡ some (negsuc k, t')
    → k ≤ isize_max
    → (n : ℕ) × (seek s from t ≡ some (ok n, t')) × (isize_max < n)
unfolding seek
seek-swallows s from k t t' e h =
    (2 ^ 64 - 1 - k, rw (e, ◌>>=◌) (rw (as_u64_small k h)), omega arith)
