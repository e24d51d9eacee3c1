-- ===== src/Stream/TestStream.antt =====
-- The stream over a cursor in memory (`TestCStream` of src/c_stream.rs, lines 198 to 299). Its
-- context points at a cursor in an arena of boxes.
pub mod Refinement
pub mod RoundTrip
pub mod Runs
pub mod UnitTests
use c2pa_c.Common.{
  ℕ, ◌+◌, Bytes, ℤ, pos, negsuc, as_i64, as_u64, length, Result, ok, err, Option, none, some, M,
  ◌>>=◌, ◌>>◌, pure, fault, or_fault, gets, modify, if◌then◌else◌, ◌==◌,
}
use c2pa_c.Error.{Error, io}
use c2pa_c.Error.Last.{Thread, set_last}
use c2pa_c.Stream.{Ptr, CStream, SeekMode, start, current, end, c_stream_new, extract_context}
use c2pa_c.Stream.Cursor.{Cursor, cursor_new, cursor_read, cursor_write, cursor_seek}

-- The boxes that hold a `TestCStream`, and the next free address.
pub record Arena : Type 0 where
  pub cursors : Ptr → Option Cursor
  pub next : Ptr

abbrev pub update : (Ptr → Option Cursor) → Ptr → Option Cursor → Ptr → Option Cursor
update f p c q = if p == q then c else f q

-- The cursor behind a context: no valid one is undefined behaviour.
unfoldable pub deref : Ptr → M (Thread Arena) Cursor
deref context t = or_fault (t.outside.cursors context) t

unfoldable pub store : Ptr → Cursor → M (Thread Arena) (Unit {0})
store context c = modify λ t. record t {
  outside = record t.outside { cursors = update t.outside.cursors context (some c) };
}

-- The end of each callback: the value, or -1 with the error as the last error.
unfoldable pub report : Result ℕ Bytes → M (Thread Arena) ℤ
unfolding set_last
report (ok n) = pure (as_i64 n)
report (err e) = do set_last (io e); pure (negsuc 0)

-- `TestCStream::reader`
unfoldable pub test_reader : Ptr → Bytes → M (Thread Arena) (ℤ × Bytes)
unfolding deref store report cursor_read
test_reader context buf = do
  stream ← deref context
  let (result, buf', stream') = cursor_read stream buf
  store context stream'
  code ← report result
  pure (code, buf')

-- The three arms of `TestCStream::seeker`, up to the error.
seek_to : Cursor → ℤ → SeekMode → Result ℕ Bytes × Cursor
seek_to c offset start = (ok (as_u64 offset), record c { position = as_u64 offset })
seek_to c offset current = cursor_seek c c.position offset
seek_to c offset end = cursor_seek c (length c.inner) offset

-- `TestCStream::seeker`
unfoldable pub test_seeker : Ptr → ℤ → SeekMode → M (Thread Arena) ℤ
unfolding deref store report seek_to
test_seeker context offset mode = do
  stream ← deref context
  let (result, stream') = seek_to stream offset mode
  store context stream'
  elim result [ ok _ ↦ pure (as_i64 stream'.position) | err e ↦ report (err e) ]

-- `TestCStream::flusher`
unfoldable pub test_flusher : Ptr → M (Thread Arena) ℤ
test_flusher context = pure (pos 0)

-- `TestCStream::writer`
unfoldable pub test_writer : Ptr → Bytes → M (Thread Arena) ℤ
unfolding deref store report cursor_write
test_writer context buf = do
  stream ← deref context
  (result, stream') ← or_fault (cursor_write stream buf)
  store context stream'
  report result

-- The stream with the callbacks of `TestCStream`.
abbrev pub test_stream : Ptr → CStream Arena
test_stream context = record {
  context = context;
  reader = test_reader;
  seeker = test_seeker;
  writer = test_writer;
  flusher = test_flusher;
}

-- `Box::into_raw(Box::new(stream))`
unfoldable pub box_cursor : Cursor → M (Thread Arena) Ptr
box_cursor c t =
    let context = t.outside.next in
    some (
      context,
      record t {
        outside = record {
          cursors = update t.outside.cursors context (some c);
          next = context + 1;
        };
      },
    )

-- `TestCStream::from_bytes`, with `new` and `into_c_stream`.
unfoldable pub from_bytes : Bytes → M (Thread Arena) (CStream Arena)
unfolding cursor_new box_cursor c_stream_new
from_bytes bytes = do context ← box_cursor (cursor_new bytes); c_stream_new (test_stream context)

-- `TestCStream::from_c_stream` takes the cursor back and frees its box.
unfoldable pub from_c_stream : CStream Arena → M (Thread Arena) Cursor
unfolding extract_context deref
from_c_stream s = do
  let (context, left) = extract_context s
  stream ← deref context
  modify λ t. record t {
    outside = record t.outside { cursors = update t.outside.cursors context none };
  }
  pure stream

-- `TestCStream::drop_c_stream`
unfoldable pub drop_c_stream : CStream Arena → M (Thread Arena) (Unit {0})
unfolding from_c_stream
drop_c_stream s = do stream ← from_c_stream s; pure tt
