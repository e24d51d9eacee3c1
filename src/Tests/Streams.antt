-- ===== src/Tests/Streams.antt =====
-- The theorems on streams, at inputs.
use c2pa_c.Common.{
  List, M, Bool, true, false, ◌&&◌, ℕ, ◌<◌, Bytes, [], ◌∷◌, isize_max, none, some, ok, negsuc, ◌≡◌,
  refl, arith, pure, ◌==◌, if◌then◌else◌,
}
use c2pa_c.Error.Last.{Thread}
use c2pa_c.Stream.{
  Ptr, CStream, SeekFrom, from_start, from_current, from_end, IoError, invalid_input, os_error,
  read, write, seek,
}
use c2pa_c.Stream.Contract.{seek-swallows}
use c2pa_c.Stream.Cursor.{Cursor, remaining, bad_seek, cursor_new}
use c2pa_c.Stream.Cursor.Laws.{written}
use c2pa_c.Stream.TestStream.{Arena, test_stream, from_bytes, from_c_stream}
use c2pa_c.Stream.TestStream.RoundTrip.{write_seek_read, read-write}
use c2pa_c.Stream.TestStream.Runs.{
  Operation, reads, writes, seeks, flushes, AllWithin, on_cursor, operate_all, all_on_cursor,
  Became, operate_all-cursor,
}
use c2pa_c.Stream.TestStream.UnitTests.{test_cstream_read, test_cstream_seek, test_cstream_write}
use c2pa_c.Tests.Demo.{empty_stream, start}

abbrev cursor : Cursor
cursor = record { inner = 1 ∷ 2 ∷ 3 ∷ 4 ∷ 5 ∷ []; position = 3 }

abbrev thread : Thread Arena
thread = record {
  last_error = none;
  errno = 5;
  outside = record { cursors = λ p. if p == 7 then some cursor else none; next = 8 };
}

abbrev zeros : Bytes
zeros = 0 ∷ 0 ∷ 0 ∷ []

read-write_example :
    (t' : Thread Arena) × (write_seek_read (test_stream 7) 3 (8 ∷ 9 ∷ 10 ∷ []) zeros thread
      ≡ some ((ok 3, 8 ∷ 9 ∷ 10 ∷ []), t'))
    × (t'.outside.cursors 7 ≡ some (written cursor (8 ∷ 9 ∷ 10 ∷ [])))
read-write_example = read-write thread 7 cursor (8 ∷ 9 ∷ 10 ∷ []) zeros refl (omega arith) refl

abbrev broken : CStream ℕ
broken = record empty_stream { seeker = λ context offset mode. pure (negsuc 0) }

seek-swallows_example :
    (n : ℕ) × (seek broken (from_start 4) start ≡ some (ok n, start)) × (isize_max < n)
seek-swallows_example = seek-swallows broken (from_start 4) 0 start start refl (omega arith)

abbrev operations : List Operation
operations =
    reads zeros
    ∷ seeks (from_end (negsuc 4))
    ∷ writes (9 ∷ [])
    ∷ seeks (from_current (negsuc 5))
    ∷ flushes
    ∷ reads zeros
    ∷ []

operations-AllWithin : AllWithin cursor operations
unfolding c2pa_c.Stream.Cursor.checked_add_signed on_cursor remaining
operations-AllWithin = (omega arith, (omega arith, (omega arith, (tt, (tt, (omega arith, tt))))))

operate_all-cursor_example :
    (t' : Thread Arena) × (operate_all (test_stream 7) operations thread
      ≡ some ((all_on_cursor cursor operations).0, t'))
    × Became thread 7 (all_on_cursor cursor operations).1 t'
operate_all-cursor_example = operate_all-cursor 7 thread cursor operations refl operations-AllWithin

-- The unit tests of the source pass.
abbrev passes : M (Thread Arena) (Unit {0}) → Bool
passes test = elim (test thread) [ none ↦ false | some _ ↦ true ]

unit_tests :
    (passes test_cstream_read && passes test_cstream_seek && passes test_cstream_write) ≡ true
unfolding test_cstream_read test_cstream_seek test_cstream_write
    c2pa_c.Stream.TestStream.test_reader c2pa_c.Stream.TestStream.test_seeker
    c2pa_c.Stream.Cursor.cursor_seek c2pa_c.Stream.TestStream.test_writer
unit_tests = refl
