-- ===== src/Cpp/Iostream/Results.antt =====
-- Rust's `read`, `write` and `seek` (src/c_stream.rs) on a stream of C++ (src/c2pa.cpp, lines 174
-- to 452).
use c2pa_c.Common.{
  ℕ, ◌≤◌, ◌-◌, ◌^◌, ◌%◌, Bytes, Bool, true, false, ◌&&◌, not, length, Result, ok, err, pos, negsuc,
  ℤ, some, isize_max, ◌>>=◌, ◌≡◌, refl, arith, le→ltb, as_u64_small,
}
use c2pa_c.Error.Last.{Thread}
use c2pa_c.Stream.{CStream, IoError, os_error, read, write, seek, SeekFrom, seek_args}
use c2pa_c.Cpp.Iostream.{
  Iostream, cpp_istream, einval, eio, istream_reader, istream_seeker, ostream_writer, unless_failed,
  told, refuse,
}

module _ {E : Type 0} where
  abbrev pub with_errno : Thread E → ℕ → Thread E
  with_errno t code = record t { errno = code }

  -- What a stream that stands in a state after an operation makes of a count.
  abbrev pub settled : (failed broken : Bool) → ℕ → Thread E → Result ℕ IoError × Thread E
  settled true broken n t = (err (os_error einval), with_errno t einval)
  settled false true n t = (err (os_error eio), with_errno t eio)
  settled false false n t = (ok n, t)

  module _ (stream : Iostream E) (buf : Bytes) (small : length buf ≤ isize_max)
      {t u : Thread E} where
    -- A read by Rust into a buffer whose length an `isize` holds, from a stream that returns and
    -- then tells a count of at most that length: the error `EINVAL` for a stream that failed before
    -- its end, else `EIO` for a bad one, else the count; the buffer is the one that the stream
    -- left.
    pub read-settled :
        (buf' : Bytes) (n : ℕ)
        → stream.read buf t ≡ some (buf', u)
        → stream.gcount u ≡ pos n
        → n ≤ length buf
        → read (cpp_istream stream) buf t ≡ (
            let (r, t') = settled (stream.fail u && not (stream.eof u)) (stream.bad u) n u in
            some ((r, buf'), t'))
    unfolding istream_reader refuse read
    read-settled buf' n run count least =
        by_flags (stream.fail u && not (stream.eof u)) (stream.bad u) refl refl
      where
        by_flags :
            (failed broken : Bool)
            → (stream.fail u && not (stream.eof u)) ≡ failed
            → stream.bad u ≡ broken
            → read (cpp_istream stream) buf t
              ≡ (let (r, t') = settled failed broken n u in some ((r, buf'), t'))
        by_flags true broken f b =
            rw (le→ltb isize_max (length buf) small) (rw (run, ◌>>=◌) (rw f refl))
        by_flags false true f b =
            rw (le→ltb isize_max (length buf) small) (rw (run, ◌>>=◌) (rw (f, b) refl))
        by_flags false false f b =
            rw (le→ltb isize_max (length buf) small)
              (rw (run, ◌>>=◌) (rw (f, b, count) (rw (as_u64_small n (omega arith)) refl)))

    -- A write by Rust of a buffer whose length an `isize` holds, through an adapter with the writer
    -- of the wrapper, to a stream that returns: the error `EINVAL` for a stream that failed, else
    -- `EIO` for a bad one, else the length of the buffer.
    pub write-settled :
        (adapter : CStream E)
        → adapter.writer ≡ ostream_writer stream
        → stream.write buf t ≡ some (tt, u)
        → write adapter buf t
          ≡ (let (r, t') = settled (stream.fail u) (stream.bad u) (length buf) u in some (r, t'))
    unfolding ostream_writer unless_failed refuse write
    write-settled adapter same run = by_flags (stream.fail u) (stream.bad u) refl refl
      where
        by_flags :
            (failed broken : Bool)
            → stream.fail u ≡ failed
            → stream.bad u ≡ broken
            → write adapter buf t
              ≡ (let (r, t') = settled failed broken (length buf) u in some (r, t'))
        by_flags true broken f b =
            rw (le→ltb isize_max (length buf) small) (rw same (rw (run, ◌>>=◌) (rw f refl)))
        by_flags false true f b =
            rw (le→ltb isize_max (length buf) small) (rw same (rw (run, ◌>>=◌) (rw (f, b) refl)))
        by_flags false false f b =
            rw (le→ltb isize_max (length buf) small)
              (rw same (rw (run, ◌>>=◌) (rw (f, b) (rw (as_u64_small (length buf) small) refl))))

  -- The place after a seek: the code -1 of a failure is cast like any other.
  abbrev pub landed : (failed broken : Bool) → Thread E → ℤ → Thread E → ℕ × Thread E
  landed true broken t place t' = (2 ^ 64 - 1, with_errno t einval)
  landed false true t place t' = (2 ^ 64 - 1, with_errno t eio)
  landed false false t (pos n) t' = (n % 2 ^ 64, t')
  landed false false t (negsuc n) t' = (2 ^ 64 - 1, with_errno t' eio)

  module _ (stream : Iostream E) (from : SeekFrom) {t a b c : Thread E} where
    -- A seek by Rust in a stream to read from, whose operations return, succeeds: at the place that
    -- the stream tells, modulo 2 ^ 64, or at 2 ^ 64 - 1 if the stream failed, is bad or tells no
    -- place, of which only `errno` says more.
    pub istream_seek-landed :
        (place : ℤ)
        → stream.clear t ≡ some (tt, a)
        → stream.seekg (seek_args from).0 (seek_args from).1 a ≡ some (tt, b)
        → stream.tellg b ≡ some (place, c)
        → seek (cpp_istream stream) from t
          ≡ (let (n, t') = landed (stream.fail b) (stream.bad b) b place c in some (ok n, t'))
    unfolding istream_seeker unless_failed told refuse seek
    istream_seek-landed place cleared moved tells =
        by_flags (stream.fail b) (stream.bad b) place refl refl tells
      where
        by_flags :
            (failed broken : Bool) (place : ℤ)
            → stream.fail b ≡ failed
            → stream.bad b ≡ broken
            → stream.tellg b ≡ some (place, c)
            → seek (cpp_istream stream) from t
              ≡ (let (n, t') = landed failed broken b place c in some (ok n, t'))
        by_flags true broken place f g tells = rw (cleared, ◌>>=◌) (rw (moved, ◌>>=◌) (rw f refl))
        by_flags false true place f g tells =
            rw (cleared, ◌>>=◌) (rw (moved, ◌>>=◌) (rw (f, g) refl))
        by_flags false false (pos n) f g tells =
            rw (cleared, ◌>>=◌) (rw (moved, ◌>>=◌) (rw (f, g) (rw (tells, ◌>>=◌) refl)))
        by_flags false false (negsuc n) f g tells =
            rw (cleared, ◌>>=◌) (rw (moved, ◌>>=◌) (rw (f, g) (rw (tells, ◌>>=◌) refl)))
