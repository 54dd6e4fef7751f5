-- ===== src/Mmap/Refine.antt =====
-- The stream of swoole_mmap.cc against a file of a fixed size with a cursor in it, call by call.
use async_ext.Prelude.{ℕ, ◌≡◌, refl, ap, ap₂, Option, List, [], ◌∷◌}
use async_ext.Prelude.Int.{ℤ}
use async_ext.Str.Holds.{IsText}
use async_ext.Mmap.{MmapFile, Whence, stream_write, stream_read, stream_seek}
use async_ext.Mmap.Cursor.{
  Cursor, write, read, target, move, Represents, stream_read-read, stream_write-write,
}
use async_ext.Mmap.Seek.{stream_seek-move}

-- Calls of a stream, and what each answers.
pub data Op : Type 0 where
  put : List ℕ → Op
  get : ℕ → Op
  seek : ℤ → Whence → Op

pub data Reply : Type 0 where
  count : ℕ → Reply
  text : List ℕ → Reply
  offset : Option ℕ → Reply

abbrev IsOp : Op → Type 0
IsOp (put t) = IsText t
IsOp (get n) = Unit {0}
IsOp (seek o w) = Unit {0}

abbrev pub AllTexts : List Op → Type 0
AllTexts [] = Unit {0}
AllTexts (o ∷ os) = IsOp o × AllTexts os

abbrev pub stream_op : MmapFile → Op → Reply × MmapFile
stream_op f (put t) = (count (stream_write f t).0, (stream_write f t).1)
stream_op f (get n) = (text (stream_read f n).0, (stream_read f n).1)
stream_op f (seek o w) = (offset (stream_seek f o w).0, (stream_seek f o w).1)

abbrev pub cursor_op : Cursor → Op → Reply × Cursor
cursor_op c (put t) = (count (write c t).0, (write c t).1)
cursor_op c (get n) = (text (read c n).0, (read c n).1)
cursor_op c (seek o w) = (offset (move c (target c o w)).0, (move c (target c o w)).1)

unfoldable pub run_stream : MmapFile → List Op → List Reply
run_stream f [] = []
run_stream f (o ∷ os) = (stream_op f o).0 ∷ run_stream (stream_op f o).1 os

unfoldable pub run_cursor : Cursor → List Op → List Reply
run_cursor c [] = []
run_cursor c (o ∷ os) = (cursor_op c o).0 ∷ run_cursor (cursor_op c o).1 os

op_refines :
    (f : MmapFile) (c : Cursor) (o : Op)
    → IsOp o
    → Represents f c
    → ((stream_op f o).0 ≡ (cursor_op c o).0) × Represents (stream_op f o).1 (cursor_op c o).1
op_refines f c (put t) p r = let (a, b) = stream_write-write f c t p r in (ap count a, b)
op_refines f c (get n) p r = let (a, b) = stream_read-read f c n r in (ap text a, b)
op_refines f c (seek o w) p r = let (a, b) = stream_seek-move f c o w r in (ap offset a, b)

-- If the mapping holds a file and its pointer is at the cursor, every sequence of
-- mmap_stream_write with bytes, mmap_stream_read and mmap_stream_seek answers as the file of that
-- fixed size with a cursor in it does: writes and reads stop at the end, and a seek goes to any
-- place up to the end and is refused elsewhere.
pub run_stream-run_cursor :
    (f : MmapFile) (c : Cursor) (ops : List Op)
    → AllTexts ops
    → Represents f c
    → run_stream f ops ≡ run_cursor c ops
unfolding run_stream run_cursor
run_stream-run_cursor f c [] t r = refl
run_stream-run_cursor f c (o ∷ os) (p, t) r =
    let (a, b) = op_refines f c o p r in
    ap₂ ◌∷◌ a (run_stream-run_cursor (stream_op f o).1 (cursor_op c o).1 os t b)
