-- ===== src/Pool/Run.antt =====
-- Every sequence of reads and writes of the slices of a pool of swoole_memory_pool.cc.
use async_ext.Prelude.{
  ℕ, ◌+◌, ◌^◌, ◌<◌, ◌≤◌, ◌≡◌, ◌≢◌, ◌⊎◌, inl, inr, refl, ap, ap₂, subst, Bool, Bool-cases, Option,
  List, [], ◌∷◌, length, ◌==◌, ==_iff, if◌then◌else◌,
}
use async_ext.Prelude.Int.{ℤ}
use async_ext.Str.{IsLong, Memory}
use async_ext.Str.Holds.{IsText}
use async_ext.Pool.{MemorySlice, slice_read, slice_write}
use async_ext.Pool.Blocks.{
  block_read, block_write, Holding, slice_read-block_read, slice_write-block_write,
  slice_write-Holding,
}

-- Calls on the slice with a number, and what each answers.
pub data Op : Type 0 where
  get : ℕ → ℤ → ℤ → Op
  put : ℕ → List ℕ → ℤ → Op

pub data Reply : Type 0 where
  text : Option (List ℕ) → Reply
  done : Bool → Reply

abbrev pub IsOp : ℕ → Op → Type 0
IsOp n (get i size offset) = (i < n) × IsLong size × IsLong offset
IsOp n (put i bs offset) = (i < n) × IsText bs × (length bs < 2 ^ 63) × IsLong offset

abbrev pub AllOps : ℕ → List Op → Type 0
AllOps n [] = Unit {0}
AllOps n (o ∷ os) = IsOp n o × AllOps n os

unfoldable pub run_slices : (ℕ → MemorySlice) → Memory → List Op → List Reply
unfolding slice_read slice_write
run_slices info m [] = []
run_slices info m (get i size offset ∷ os) =
    text (slice_read m (info i) size offset) ∷ run_slices info m os
run_slices info m (put i bs offset ∷ os) =
    done (slice_write m (info i) bs offset).0
    ∷ run_slices info (slice_write m (info i) bs offset).1 os

-- The blocks with one of them replaced.
abbrev pub update : (ℕ → List ℕ) → ℕ → List ℕ → ℕ → List ℕ
update blocks i bs j = if i == j then bs else blocks j

unfoldable pub run_blocks : (ℕ → List ℕ) → List Op → List Reply
unfolding block_read block_write
run_blocks blocks [] = []
run_blocks blocks (get i size offset ∷ os) =
    text (block_read (blocks i) size offset) ∷ run_blocks blocks os
run_blocks blocks (put i bs offset ∷ os) =
    done (block_write (blocks i) bs offset).0
    ∷ run_blocks (update blocks i (block_write (blocks i) bs offset).1) os

-- The memories of any two of the first slices do not overlap.
abbrev pub Apart : ℕ → (ℕ → MemorySlice) → Type 0
Apart n info =
    (i j : ℕ)
    → i < n
    → j < n
    → i ≢ j
    → ((info i).memory + (info i).size ≤ (info j).memory)
      ⊎ ((info j).memory + (info j).size ≤ (info i).memory)

-- If slices of less than 2^63 bytes do not overlap, every sequence of reads and writes of them
-- with 64-bit sizes and offsets answers as separate blocks of those sizes do: a size to read that
-- is not positive or exceeds the block is replaced by the block's size; then a read or write that
-- fits its block gives or changes that part of it and no other block, and any other is refused.
pub run_slices-run_blocks :
    (n : ℕ) (info : ℕ → MemorySlice) (m : Memory) (blocks : ℕ → List ℕ) (os : List Op)
    → Apart n info
    → ((i : ℕ) → i < n → Holding m (info i) (blocks i))
    → AllOps n os
    → run_slices info m os ≡ run_blocks blocks os
unfolding run_slices run_blocks
run_slices-run_blocks n info m blocks [] d h a = refl
run_slices-run_blocks n info m blocks (get i size offset ∷ os) d h ((l, p, q), a) =
    ap₂ ◌∷◌ (ap text (slice_read-block_read m (info i) (blocks i) size offset (h i l) p q))
      (run_slices-run_blocks n info m blocks os d h a)
run_slices-run_blocks n info m blocks (put i bs offset ∷ os) d h ((l, t, small, q), a) =
    let (same, kept) = slice_write-block_write m (info i) (blocks i) bs offset (h i l) t small q in
    ap₂ ◌∷◌ (ap done same) (
      run_slices-run_blocks n info (slice_write m (info i) bs offset).1
        (update blocks i (block_write (blocks i) bs offset).1) os d
        (λ j lj. elim (Bool-cases (i == j)) [
          | inl one ↦ rw one (
              subst
                (λ k.
                  Holding (slice_write m (info i) bs offset).1 (info k)
                    (block_write (blocks i) bs offset).1)
                ((==_iff i j).0 one) kept)
          | inr two ↦
              let ne : i ≢ j = λ e. let f = (==_iff i j).1 e in cc in
              rw two (
                slice_write-Holding m (info i) (info j) (blocks i) (blocks j) bs offset (h i l)
                  (h j lj) (d i j l lj ne) small q)
        ])
        a)
