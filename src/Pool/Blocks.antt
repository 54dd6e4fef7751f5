-- ===== src/Pool/Blocks.antt =====
-- The slices of a pool of swoole_memory_pool.cc against blocks of bytes: one read, and one write.
use async_ext.Prelude.{
  ℕ, ◌+◌, ◌%◌, ◌^◌, ◌<◌, ◌≤◌, ◌≡◌, ◌⊎◌, inl, inr, refl, ap, ◌∙◌, Bool, true, false, ◌&&◌,
  Bool-cases, Option, none, some, List, length, take, drop, arith, ltb, leb, if◌then◌else◌,
  not-ltb→le, le→not-ltb, lt→ltb, lt→not-leb, le→leb,
}
use native.Mathlib.Decide.{dec_lt}
use async_ext.Prelude.Int.{ℤ, pos, negsuc, ltb_ℤ}
use async_ext.Str.{IsLong, Memory, size_of_long}
use async_ext.Str.Holds.{IsText, Holds}
use async_ext.Str.Patch.{patch, length-patch, slice-part, Holds-patch, Holds-apart}
use async_ext.Pool.{MemorySlice, slice_read, slice_write}

-- A part of a block: of the size given, or of the block's where that is none or too big.
abbrev pub part_size : List ℕ → ℤ → ℕ
part_size bs (negsuc n) = length bs
part_size bs (pos n) = if ltb 0 n && leb n (length bs) then n else length bs

unfoldable pub block_read : List ℕ → ℤ → ℤ → Option (List ℕ)
block_read bs size (negsuc k) = none
block_read bs size (pos k) =
    if leb (k + part_size bs size) (length bs)
    then some (take (part_size bs size) (drop k bs))
    else none

unfoldable pub block_write : List ℕ → List ℕ → ℤ → Bool × List ℕ
block_write bs text (negsuc k) = (false, bs)
block_write bs text (pos k) =
    if leb (k + length text) (length bs) then (true, patch bs k text) else (false, bs)

-- A slice whose memory holds the block.
pub record Holding (m : Memory) (info : MemorySlice) (bs : List ℕ) : Type 0 where
  pub small : info.size < 2 ^ 63
  pub whole : length bs ≡ info.size
  pub holds : Holds m info.memory bs

size_lem :
    (info : MemorySlice) (bs : List ℕ) (size : ℤ)
    → info.size < 2 ^ 63
    → length bs ≡ info.size
    → IsLong size
    → (if ltb_ℤ (pos 0) size
        then (if ltb info.size (size_of_long size) then info.size else size_of_long size)
        else info.size)
      ≡ part_size bs size
size_lem info bs (negsuc n) s w l = ground arith
size_lem info bs (pos n) s w l = ground arith

part_size-le : (bs : List ℕ) (size : ℤ) → part_size bs size ≤ length bs
part_size-le bs (negsuc n) = omega arith
part_size-le bs (pos n) = ground arith

pub slice_read-block_read :
    (m : Memory) (info : MemorySlice) (bs : List ℕ) (size offset : ℤ)
    → Holding m info bs
    → IsLong size
    → IsLong offset
    → slice_read m info size offset ≡ block_read bs size offset
unfolding slice_read block_read
slice_read-block_read m info bs size (negsuc k) h a b = refl
slice_read-block_read m info bs size (pos k) h a b =
    let s = h.small in
    let w = h.whole in
    let n = part_size bs size in
    let l = part_size-le bs size in
    let e = size_lem info bs size h.small h.whole a in
    let e' : (k + n) % 2 ^ 64 ≡ k + n = omega arith in
    rw (e, e')
      (elim (dec_lt (length bs) (k + n)) [
        | yes over ↦
            rw (lt→ltb info.size (k + n) (omega arith), lt→not-leb (k + n) (length bs) over) refl
        | no within ↦
            rw
              (le→not-ltb info.size (k + n) (omega arith), le→leb (k + n) (length bs) (omega arith))
              (ap some (slice-part m info.memory k n bs h.holds (omega arith)))
      ])

-- A write to its own block: the answer is the block's, and the memory holds what the block then is.
pub slice_write-block_write :
    (m : Memory) (info : MemorySlice) (bs text : List ℕ) (offset : ℤ)
    → Holding m info bs
    → IsText text
    → length text < 2 ^ 63
    → IsLong offset
    → ((slice_write m info text offset).0 ≡ (block_write bs text offset).0)
      × Holding (slice_write m info text offset).1 info (block_write bs text offset).1
unfolding slice_write block_write
slice_write-block_write m info bs text (negsuc k) h t l b =
    elim (Bool-cases (ltb info.size (length text))) [
      | inl over ↦ rw over (refl, h)
      | inr within ↦ rw within (refl, h)
    ]
slice_write-block_write m info bs text (pos k) h t l b =
    let s = h.small in
    let w = h.whole in
    let n = length text in
    let e : (k + n) % 2 ^ 64 ≡ k + n = omega arith in
    elim (dec_lt (length bs) (k + n)) [
      | yes over ↦ elim (Bool-cases (ltb info.size n)) [
        | inl large ↦ rw (large, lt→not-leb (k + n) (length bs) over) (refl, h)
        | inr enough ↦
            rw
              (
                enough,
                e,
                lt→ltb info.size (k + n) (omega arith),
                lt→not-leb (k + n) (length bs) over,
              )
              (refl, h)
      ]
      | no within ↦
          rw
            (
              le→not-ltb info.size n (omega arith),
              e,
              le→not-ltb info.size (k + n) (omega arith),
              le→leb (k + n) (length bs) (omega arith),
            )
            (
              refl,
              record {
                small = s;
                whole = length-patch bs k text (omega arith) ∙ w;
                holds = Holds-patch m info.memory k bs text t (omega arith) h.holds;
              },
            )
    ]

-- A write leaves alone what another slice holds.
pub slice_write-Holding :
    (m : Memory) (info other : MemorySlice) (bs bs' text : List ℕ) (offset : ℤ)
    → Holding m info bs
    → Holding m other bs'
    → (info.memory + info.size ≤ other.memory) ⊎ (other.memory + other.size ≤ info.memory)
    → length text < 2 ^ 63
    → IsLong offset
    → Holding (slice_write m info text offset).1 other bs'
unfolding slice_write
slice_write-Holding m info other bs bs' text (negsuc k) h h' d l b =
    elim (Bool-cases (ltb info.size (length text))) [
      | inl over ↦ rw over h'
      | inr within ↦ rw within h'
    ]
slice_write-Holding m info other bs bs' text (pos k) h h' d l b =
    let s = h.small in
    let w' = h'.whole in
    let n = length text in
    let e : (k + n) % 2 ^ 64 ≡ k + n = omega arith in
    elim (Bool-cases (ltb info.size n)) [
      | inl large ↦ rw large h'
      | inr enough ↦ elim (Bool-cases (ltb info.size (k + n))) [
        | inl over ↦ rw (enough, e, over) h'
        | inr within ↦
            let q = not-ltb→le info.size (k + n) within in
            rw (enough, e, within)
              (record {
                small = h'.small;
                whole = h'.whole;
                holds =
                    Holds-apart m (info.memory + k) n other.memory bs' text
                      (elim d [ inl x ↦ inr (omega arith) | inr x ↦ inl (omega arith) ]) h'.holds;
              })
      ]
    ]
