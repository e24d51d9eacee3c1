-- ===== src/Cpp/Iostream.antt =====
-- The streams of C++ behind `CStream` (src/c2pa.cpp, lines 174 to 452): the callbacks of
-- `CppIStream`, `CppOStream` and `CppIOStream`. The stream itself is of the standard library.
pub mod Answers
pub mod Results
use c2pa_c.Common.{
  ℕ, Bytes, Bool, true, false, ◌&&◌, not, ℤ, is_negative, negsuc, pos, as_i64, length, M, ◌>>=◌,
  ◌>>◌, pure, gets, modify, if◌then◌else◌, ◌==◌,
}
use c2pa_c.Error.Last.{Thread}
use c2pa_c.Stream.{Ptr, CStream, SeekMode}

-- What the wrapper uses of `std::iostream`: the address, the operations, and the state that its
-- constant members tell. `read` is given the buffer and returns it with what it wrote. The writers
-- cast any stream to one that can be written; what `write` does to another is left to the
-- parameter.
pub record Iostream (E : Type 0) : Type 0 where
  pub address : Ptr
  pub read : Bytes → M (Thread E) Bytes
  pub write : Bytes → M (Thread E) (Unit {0})
  pub flush : M (Thread E) (Unit {0})
  pub clear : M (Thread E) (Unit {0})
  pub seekg : ℤ → SeekMode → M (Thread E) (Unit {0})
  pub seekp : ℤ → SeekMode → M (Thread E) (Unit {0})
  pub tellg : M (Thread E) ℤ
  pub tellp : M (Thread E) ℤ
  pub fail : Thread E → Bool
  pub eof : Thread E → Bool
  pub bad : Thread E → Bool
  pub gcount : Thread E → ℤ

-- The codes of Linux.
abbrev pub einval : ℕ
einval = 22

abbrev pub eio : ℕ
eio = 5

abbrev pub minus_one : ℤ
minus_one = negsuc 0

module _ {E : Type 0} where
  -- `errno = code; return -1`
  unfoldable pub refuse : ℕ → M (Thread E) ℤ
  refuse code = do modify (λ t. record t { errno = code }); pure minus_one

  -- The two tests after an operation.
  unfoldable pub unless_failed : Iostream E → M (Thread E) ℤ → M (Thread E) ℤ
  unfolding refuse
  unless_failed stream rest = do
    failed ← gets stream.fail
    if failed
        then refuse einval
        else (do broken ← gets stream.bad; if broken then refuse eio else rest)

  -- A position, if there is one.
  unfoldable pub told : M (Thread E) ℤ → M (Thread E) ℤ
  unfolding refuse
  told tell = do place ← tell; if is_negative place then refuse eio else pure place

  -- `CppIStream::reader` and `CppIOStream::reader`. The end of the stream is no error.
  unfoldable pub istream_reader : Iostream E → Ptr → Bytes → M (Thread E) (ℤ × Bytes)
  unfolding refuse
  istream_reader stream context buffer = do
    buffer' ← stream.read buffer
    failed ← gets stream.fail
    ended ← gets stream.eof
    broken ← gets stream.bad
    code ←
        (if failed && not ended
          then refuse einval
          else if broken
          then refuse eio
          else gets stream.gcount)
    pure (code, buffer')

  -- `CppIStream::seeker`
  unfoldable pub istream_seeker : Iostream E → Ptr → ℤ → SeekMode → M (Thread E) ℤ
  unfolding unless_failed told
  istream_seeker stream context offset whence = do
    stream.clear
    stream.seekg offset whence
    unless_failed stream (told stream.tellg)

  -- `writer`, of the three classes.
  unfoldable pub ostream_writer : Iostream E → Ptr → Bytes → M (Thread E) ℤ
  unfolding unless_failed
  ostream_writer stream context buffer = do
    stream.write buffer
    unless_failed stream (pure (pos (length buffer)))

  -- `flusher`, of the three classes.
  unfoldable pub ostream_flusher : Iostream E → Ptr → M (Thread E) ℤ
  ostream_flusher stream context = do stream.flush; pure (pos 0)

  -- `CppOStream::reader`
  unfoldable pub ostream_reader : Ptr → Bytes → M (Thread E) (ℤ × Bytes)
  unfolding refuse
  ostream_reader context buffer = do code ← refuse einval; pure (code, buffer)

  -- `CppOStream::seeker`
  unfoldable pub ostream_seeker : Iostream E → Ptr → ℤ → SeekMode → M (Thread E) ℤ
  unfolding refuse unless_failed told
  ostream_seeker stream context offset whence =
      if context == 0
      then refuse einval
      else (do stream.clear; stream.seekp offset whence; unless_failed stream (told stream.tellp))

  -- `CppIOStream::seeker` moves the place of reading, then the place of writing.
  unfoldable pub iostream_seeker : Iostream E → Ptr → ℤ → SeekMode → M (Thread E) ℤ
  unfolding refuse unless_failed told
  iostream_seeker stream context offset whence = if context == 0 then refuse einval else (do
    stream.clear
    stream.seekg offset whence
    unless_failed stream (do
      place ← stream.tellg
      if is_negative place
          then refuse eio
          else (do stream.seekp offset whence; unless_failed stream (told stream.tellp))))

  -- The arguments that the three constructors give to `c2pa_create_stream`.
  abbrev pub cpp_istream : Iostream E → CStream E
  cpp_istream stream = record {
    context = stream.address;
    reader = istream_reader stream;
    seeker = istream_seeker stream;
    writer = ostream_writer stream;
    flusher = ostream_flusher stream;
  }

  abbrev pub cpp_ostream : Iostream E → CStream E
  cpp_ostream stream = record {
    context = stream.address;
    reader = ostream_reader;
    seeker = ostream_seeker stream;
    writer = ostream_writer stream;
    flusher = ostream_flusher stream;
  }

  abbrev pub cpp_iostream : Iostream E → CStream E
  cpp_iostream stream = record {
    context = stream.address;
    reader = istream_reader stream;
    seeker = iostream_seeker stream;
    writer = ostream_writer stream;
    flusher = ostream_flusher stream;
  }
