-- ===== src/Mmap.antt =====
-- swoole_mmap.cc: the stream over a file that is mapped into memory. The mapping, `msync` and the
-- answers of the kernel are parameters.
pub mod Cursor
pub mod Seek
pub mod Refine
mod Tests
use async_ext.Prelude.{
  ℕ, zero, suc, ◌+◌, ◌-◌, ◌%◌, ◌^◌, min, Bool, true, false, ◌||◌, Option, none, some, List, length,
  get_or, ltb, leb, ◌==◌, if◌then◌else◌, ◌>>=◌,
}
use async_ext.Prelude.Int.{ℤ, pos, negsuc, pos_part, neg_part, sub_ℕ, ltb_ℤ, ◌+ℤ◌}
use async_ext.Str.{Memory, slice, memcpy, size_of_long}

-- `swMmapFile`. `memory` is what the mapping holds, and `ptr` counts from its start.
pub record MmapFile : Type 0 where
  pub size : ℕ
  pub memory : Memory
  pub ptr : ℕ

-- `mmap_stream_write`: the number of bytes that were written, and the file.
unfoldable pub stream_write : MmapFile → List ℕ → ℕ × MmapFile
unfolding memcpy
stream_write f buffer =
    let n = min (f.size - f.ptr) (length buffer) in
    if n == 0 then (0, f) else (
      n,
      record f { memory = memcpy f.memory f.ptr (λ i. get_or buffer i 0) 0 n; ptr = f.ptr + n },
    )

-- `mmap_stream_read`: the bytes that were read, and the file.
unfoldable pub stream_read : MmapFile → ℕ → List ℕ × MmapFile
stream_read f size =
    let n = min (f.size - f.ptr) size in
    if n == 0 then (List.[], f) else (slice f.memory f.ptr n, record f { ptr = f.ptr + n })

-- `mmap_stream_flush` hands the whole mapping to `msync`.
unfoldable pub stream_flush : (Memory → ℕ → ℤ) → MmapFile → ℤ
stream_flush msync f = msync f.memory f.size

-- SEEK_SET, SEEK_CUR, SEEK_END, and any other number.
pub data Whence : Type 0 where
  set : Whence
  cur : Whence
  end : Whence
  other : Whence

-- What `mmap_stream_seek` leaves: the new offset, or nothing for -1.
abbrev pub Sought : Type 0
Sought = Option ℕ × MmapFile

abbrev pub moved : ℕ → MmapFile → Sought
moved p f = (some p, record f { ptr = p })

-- `mmap_stream_seek`
unfoldable pub stream_seek : MmapFile → ℤ → Whence → Sought
unfolding ◌+ℤ◌
stream_seek f offset set =
    if ltb_ℤ offset (pos 0) || ltb_ℤ (pos f.size) offset
    then (none, f)
    else moved (pos_part offset) f
stream_seek f offset cur =
    let p = pos f.ptr +ℤ offset in
    if ltb_ℤ p (pos 0) || ltb_ℤ (pos f.size) p then (none, f) else moved (pos_part p) f
stream_seek f offset end =
    if ltb_ℤ (pos 0) offset || ltb f.size (neg_part offset)
    then (none, f)
    else moved (f.size - neg_part offset) f
stream_seek f offset other = (none, f)

-- The kernel's answers when a file is opened: whether `open` works, `st_size` of `fstat`, and what
-- `mmap` gives for a size and an offset.
pub record Kernel : Type 0 where
  pub opens : Bool
  pub st_size : Option ℕ
  pub mmap : ℕ → ℤ → Option Memory

unfoldable pub map_file : Kernel → ℤ → ℤ → Option MmapFile
map_file k size offset = k.mmap (size_of_long size) offset >>= λ m.
    some (record { size = size_of_long size; memory = m; ptr = 0 })

-- The size of a mapping for which none was given.
unfoldable pub rest_of_file : ℕ → ℤ → ℤ
rest_of_file st_size (pos n) = sub_ℕ st_size n
rest_of_file st_size (negsuc n) = pos st_size

-- `open`; nothing is false.
unfoldable pub open_file : Kernel → ℕ → ℤ → ℤ → Option MmapFile
unfolding map_file rest_of_file
open_file k l_filename size offset =
    if l_filename == 0
    then none
    else if k.opens
    then (if ltb_ℤ (pos 0) size
        then map_file k size offset
        else (k.st_size >>= λ st_size.
            if st_size == 0 then none else map_file k (rest_of_file st_size offset) offset))
    else none
