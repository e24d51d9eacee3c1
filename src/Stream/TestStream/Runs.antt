-- ===== src/Stream/TestStream/Runs.antt =====
-- Sequences of operations on a stream (src/c_stream.rs): the implementations of `Read`, `Write` and
-- `Seek` over `TestCStream`, and the cursor itself.
use c2pa_c.Common.{
  ℕ, ◌+◌, ◌-◌, ◌≤◌, ◌<◌, ◌^◌, Bytes, ◌++◌, length, take, drop, List, [], ◌∷◌, isize_max, Result, ok,
  Option, none, some, M, ◌>>=◌, pure, ◌≡◌, ◌≢◌, ◌∙◌, refl, ==_refl, ==_ne,
}
use c2pa_c.Error.Last.{Thread}
use c2pa_c.Stream.{Ptr, CStream, SeekFrom, IoError, read, write, seek, flush}
use c2pa_c.Stream.Cursor.{Cursor, remaining, bad_seek}
use c2pa_c.Stream.Cursor.Laws.{written, read_count, advanced}
use c2pa_c.Stream.TestStream.{Arena, test_stream, test_flusher}
use c2pa_c.Stream.TestStream.Refinement.{
  stored, failed, landing, read-cursor, write-cursor, seek-landing, seek-nowhere,
}

pub data Operation : Type 0 where
  reads : (buf : Bytes) → Operation
  writes : (buf : Bytes) → Operation
  seeks : SeekFrom → Operation
  flushes : Operation

-- A read answers with its result and the buffer.
pub data Answer : Type 0 where
  got : Result ℕ IoError × Bytes → Answer
  count : Result ℕ IoError → Answer
  flushed : Result (Unit {0}) IoError → Answer

module _ {E : Type 0} (s : CStream E) where
  unfoldable pub operate : Operation → M (Thread E) Answer
  unfolding read write seek flush
  operate (reads buf) = do r ← read s buf; pure (got r)
  operate (writes buf) = do r ← write s buf; pure (count r)
  operate (seeks from) = do r ← seek s from; pure (count r)
  operate flushes = do r ← flush s; pure (flushed r)

  unfoldable pub operate_all : List Operation → M (Thread E) (List Answer)
  unfolding operate
  operate_all [] = pure []
  operate_all (op ∷ ops) = do
    answer ← operate op
    answers ← operate_all ops
    pure (answer ∷ answers)

-- The same on a cursor alone. A seek to nowhere leaves it where it is, and answers `u64::MAX`.
abbrev sought : Cursor → Option ℕ → Answer × Cursor
sought c none = (count (ok (2 ^ 64 - 1)), c)
sought c (some m) = (count (ok m), record c { position = m })

unfoldable pub on_cursor : Cursor → Operation → Answer × Cursor
on_cursor c (reads buf) =
    let n = read_count c buf in (got (ok n, take n (remaining c) ++ drop n buf), advanced c n)
on_cursor c (writes buf) = (count (ok (length buf)), written c buf)
on_cursor c (seeks from) = sought c (landing c from)
on_cursor c flushes = (flushed (ok tt), c)

unfoldable pub all_on_cursor : Cursor → List Operation → List Answer × Cursor
unfolding on_cursor
all_on_cursor c [] = ([], c)
all_on_cursor c (op ∷ ops) =
    let (answer, c') = on_cursor c op in
    let (answers, c'') = all_on_cursor c' ops in (answer ∷ answers, c'')

-- The ranges of the machine: buffers and what they end at fit an `isize`, positions a u64.
abbrev pub Below : Option ℕ → Type 0
Below none = Unit
Below (some m) = m < 2 ^ 64

abbrev pub Within : Cursor → Operation → Type 0
Within c (reads buf) = length buf ≤ isize_max
Within c (writes buf) = c.position + length buf ≤ isize_max
Within c (seeks from) = Below (landing c from)
Within c flushes = Unit

abbrev pub AllWithin : Cursor → List Operation → Type 0
unfolding on_cursor
AllWithin c [] = Unit
AllWithin c (op ∷ ops) = Within c op × AllWithin (on_cursor c op).1 ops

-- From `t` to `t'` the cursor at the context has become `c`, and no other has changed.
pub record Became (t : Thread Arena) (context : Ptr) (c : Cursor) (t' : Thread Arena) : Type 0 where
  pub there : t'.outside.cursors context ≡ some c
  pub others : (p : Ptr) → context ≢ p → t'.outside.cursors p ≡ t.outside.cursors p

module _ (context : Ptr) where
  stored-Became : (t : Thread Arena) (c : Cursor) → Became t context c (stored t context c)
  stored-Became t c = record {
    there = rw (==_refl context);
    others = λ p ne. rw (==_ne context p ne);
  }

  operate-seeks :
      (t : Thread Arena) (c : Cursor) (from : SeekFrom) (goal : Option ℕ)
      → landing c from ≡ goal
      → t.outside.cursors context ≡ some c
      → Below goal
      → (t' : Thread Arena) × (operate (test_stream context) (seeks from) t
          ≡ some ((sought c goal).0, t'))
        × Became t context (sought c goal).1 t'
  unfolding operate
  operate-seeks t c from none e here fits = (
    failed (stored t context c) bad_seek,
    rw (seek-nowhere t context c from here e, ◌>>=◌),
    record { there = rw (==_refl context); others = λ p ne. rw (==_ne context p ne) },
  )
  operate-seeks t c from (some m) e here fits =
      (_, rw (seek-landing t context c from m here e fits, ◌>>=◌), stored-Became t _)

  operate-cursor :
      (t : Thread Arena) (c : Cursor) (op : Operation)
      → t.outside.cursors context ≡ some c
      → Within c op
      → (t' : Thread Arena) × (operate (test_stream context) op t ≡ some ((on_cursor c op).0, t'))
        × Became t context (on_cursor c op).1 t'
  unfolding operate on_cursor test_flusher
  operate-cursor t c (reads buf) here fits =
      (_, rw (read-cursor t context c buf here fits, ◌>>=◌), stored-Became t _)
  operate-cursor t c (writes buf) here fits =
      (_, rw (write-cursor t context c buf here fits, ◌>>=◌), stored-Became t _)
  operate-cursor t c (seeks from) here fits = operate-seeks t c from (landing c from) refl here fits
  operate-cursor t c flushes here fits = (t, refl, record { there = here; others = λ p ne. refl })

  -- A test stream whose context points at a cursor answers any sequence of reads, writes, seeks
  -- and flushes, within the ranges of the machine, as the cursor alone does, where a seek to
  -- nowhere answers `u64::MAX`; then its context points at the cursor that is left, and no other
  -- box has changed.
  pub operate_all-cursor :
      (t : Thread Arena) (c : Cursor) (ops : List Operation)
      → t.outside.cursors context ≡ some c
      → AllWithin c ops
      → (t' : Thread Arena) × (operate_all (test_stream context) ops t
          ≡ some ((all_on_cursor c ops).0, t'))
        × Became t context (all_on_cursor c ops).1 t'
  unfolding operate_all all_on_cursor
  operate_all-cursor t c [] here fits = (t, refl, record { there = here; others = λ p ne. refl })
  operate_all-cursor t c (op ∷ ops) here (fits, rest) =
      let (t₁, e, became) = operate-cursor t c op here fits in
      let (t₂, es, became') = operate_all-cursor t₁ (on_cursor c op).1 ops became.there rest in
      (
        t₂,
        rw (e, ◌>>=◌) (rw (es, ◌>>=◌)),
        record { there = became'.there; others = λ p ne. became'.others p ne ∙ became.others p ne },
      )
