-- ===== src/Cpp/Iostream/Answers.antt =====
-- The adapters of a stream of C++ that returns from its operations (src/c2pa.cpp, lines 174 to
-- 452).
use c2pa_c.Common.{
  ℕ, Bytes, Bool, true, false, not, ◌&&◌, M, ◌>>=◌, pure, gets, ℤ, pos, is_negative, refl,
  if◌then◌else◌, ◌==◌, length,
}
use c2pa_c.Error.Last.{Thread}
use c2pa_c.Stream.{Ptr, SeekMode}
use c2pa_c.Sdk.Calm.{Answers, Answering}
use c2pa_c.Cpp.Iostream.{
  Iostream, einval, eio, refuse, unless_failed, told, istream_reader, istream_seeker,
  ostream_writer, ostream_flusher, ostream_reader, ostream_seeker, iostream_seeker, cpp_istream,
  cpp_ostream, cpp_iostream,
}

module _ {E : Type 0} where
  -- Every operation returns.
  pub record IsReturning (stream : Iostream E) : Type 0 where
    pub reads : (buf : Bytes) → Answers (stream.read buf)
    pub writes : (buf : Bytes) → Answers (stream.write buf)
    pub flushes : Answers stream.flush
    pub clears : Answers stream.clear
    pub seeks_get : (offset : ℤ) (mode : SeekMode) → Answers (stream.seekg offset mode)
    pub seeks_put : (offset : ℤ) (mode : SeekMode) → Answers (stream.seekp offset mode)
    pub tells_get : Answers stream.tellg
    pub tells_put : Answers stream.tellp

  Answers-pure : {A : Type 0} (a : A) → Answers (pure {W = Thread E} a)
  Answers-pure a t = (a, t, refl)

  Answers-gets : {A : Type 0} (f : Thread E → A) → Answers (gets f)
  Answers-gets f t = (f t, t, refl)

  Answers-bind :
      {A B : Type 0} (m : M (Thread E) A) (f : A → M (Thread E) B)
      → Answers m
      → ((a : A) → Answers (f a))
      → Answers (m >>= f)
  Answers-bind m f h k t =
      let (a, u, run) = h t in let (b, x, more) = k a u in (b, x, rw (run, ◌>>=◌) more)

  Answers-if :
      {A : Type 0} (b : Bool) {m k : M (Thread E) A}
      → Answers m
      → Answers k
      → Answers (if b then m else k)
  Answers-if true h k = h
  Answers-if false h k = k

  refuse-Answers : (code : ℕ) → Answers (refuse {E = E} code)
  unfolding refuse
  refuse-Answers code t = (_, _, refl)

  module _ (stream : Iostream E) (h : IsReturning stream) where
    unless_failed-Answers :
        (rest : M (Thread E) ℤ) → Answers rest → Answers (unless_failed stream rest)
    unfolding unless_failed
    unless_failed-Answers rest k =
        Answers-bind (gets stream.fail) _ (Answers-gets stream.fail) λ failed.
          Answers-if failed (refuse-Answers einval) (
            Answers-bind (gets stream.bad) _ (Answers-gets stream.bad)
              λ broken. Answers-if broken (refuse-Answers eio) k)

    told-Answers : (tell : M (Thread E) ℤ) → Answers tell → Answers (told tell)
    unfolding told
    told-Answers tell k =
        Answers-bind tell _ k
          λ place. Answers-if (is_negative place) (refuse-Answers eio) (Answers-pure place)

    istream_reader-Answers :
        (context : Ptr) (buf : Bytes) → Answers (istream_reader stream context buf)
    unfolding istream_reader
    istream_reader-Answers context buf = Answers-bind (stream.read buf) _ (h.reads buf) λ buf'.
        Answers-bind (gets stream.fail) _ (Answers-gets stream.fail) λ failed.
          Answers-bind (gets stream.eof) _ (Answers-gets stream.eof) λ ended.
            Answers-bind (gets stream.bad) _ (Answers-gets stream.bad) λ broken.
              Answers-bind _ _
                (Answers-if (failed && not ended) (refuse-Answers einval)
                  (Answers-if broken (refuse-Answers eio) (Answers-gets stream.gcount)))
                λ code. Answers-pure (code, buf')

    ostream_writer-Answers :
        (context : Ptr) (buf : Bytes) → Answers (ostream_writer stream context buf)
    unfolding ostream_writer
    ostream_writer-Answers context buf =
        Answers-bind (stream.write buf) _ (h.writes buf)
          λ _. unless_failed-Answers _ (Answers-pure (pos (length buf)))

    ostream_flusher-Answers : (context : Ptr) → Answers (ostream_flusher stream context)
    unfolding ostream_flusher
    ostream_flusher-Answers context =
        Answers-bind stream.flush _ h.flushes λ _. Answers-pure (pos 0)

    -- The adapters of a stream that returns answer, those of a stream to write to, by refusals,
    -- too.
    pub cpp_istream-Answering : Answering (cpp_istream stream)
    unfolding istream_seeker
    cpp_istream-Answering = record {
      reads = istream_reader-Answers stream.address;
      seeks = λ offset mode. Answers-bind stream.clear _ h.clears λ _.
          Answers-bind (stream.seekg offset mode) _ (h.seeks_get offset mode)
            λ _. unless_failed-Answers _ (told-Answers stream.tellg h.tells_get);
      writes = ostream_writer-Answers stream.address;
      flushes = ostream_flusher-Answers stream.address;
    }

    pub cpp_ostream-Answering : Answering (cpp_ostream stream)
    unfolding ostream_reader ostream_seeker
    cpp_ostream-Answering = record {
      reads = λ buf t. (_, _, refl);
      seeks = λ offset mode. Answers-if (stream.address == 0) (refuse-Answers einval) (
          Answers-bind stream.clear _ h.clears λ _.
            Answers-bind (stream.seekp offset mode) _ (h.seeks_put offset mode)
              λ _. unless_failed-Answers _ (told-Answers stream.tellp h.tells_put));
      writes = ostream_writer-Answers stream.address;
      flushes = ostream_flusher-Answers stream.address;
    }

    pub cpp_iostream-Answering : Answering (cpp_iostream stream)
    unfolding iostream_seeker
    cpp_iostream-Answering = record {
      reads = istream_reader-Answers stream.address;
      seeks = λ offset mode. Answers-if (stream.address == 0) (refuse-Answers einval) (
          Answers-bind stream.clear _ h.clears λ _.
            Answers-bind (stream.seekg offset mode) _ (h.seeks_get offset mode) λ _.
              unless_failed-Answers _ (
                Answers-bind stream.tellg _ h.tells_get λ place.
                  Answers-if (is_negative place) (refuse-Answers eio) (
                    Answers-bind (stream.seekp offset mode) _ (h.seeks_put offset mode)
                      λ _. unless_failed-Answers _ (told-Answers stream.tellp h.tells_put))));
      writes = ostream_writer-Answers stream.address;
      flushes = ostream_flusher-Answers stream.address;
    }
