-- ===== src/Mmap/Tests.antt =====
-- Tests of the model of the stream of swoole_mmap.cc, and an instance of its theorem.
use async_ext.Prelude.{◌≡◌, refl, none, some, List, [], ◌∷◌, get_or, arith}
use async_ext.Prelude.Int.{pos, negsuc}
use async_ext.Mmap.{MmapFile, cur, end, stream_write, stream_read, stream_seek}
use async_ext.Mmap.Cursor.{Cursor}
use async_ext.Mmap.Refine.{
  Op, put, get, seek, count, text, offset, run_stream, run_cursor, run_stream-run_cursor,
}

abbrev mapped : MmapFile
mapped = record { size = 4; memory = λ i. get_or (1 ∷ 2 ∷ 3 ∷ 4 ∷ []) i 0; ptr = 0 }

abbrev file : Cursor
file = record { before = []; behind = 1 ∷ 2 ∷ 3 ∷ 4 ∷ [] }

abbrev calls : List Op
calls = get 1 ∷ put (8 ∷ 9 ∷ []) ∷ seek (negsuc 1) cur ∷ get 9 ∷ get 1 ∷ seek (pos 1) end ∷ []

replies : run_stream mapped calls ≡ (
    text (1 ∷ []) ∷ count 2 ∷ offset (some 1) ∷ text (8 ∷ 9 ∷ 4 ∷ []) ∷ text [] ∷ offset none ∷ [])
unfolding run_stream stream_read stream_write stream_seek
replies = refl

run_stream-run_cursor_example : run_stream mapped calls ≡ run_cursor file calls
run_stream-run_cursor_example =
    run_stream-run_cursor mapped file calls (omega arith)
      (record { holds = (refl, (refl, (refl, (refl, tt)))); full = refl; at = refl })
