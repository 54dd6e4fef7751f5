-- ===== src/Mmap/Seek.antt =====
-- mmap_stream_seek of swoole_mmap.cc against a move of the cursor.
use async_ext.Prelude.{
  ℕ, ◌≡◌, inl, inr, refl, sym, ap, subst, ◌∙◌, Bool-cases, Option, none, some, ◌++◌, length,
  length-append, length-take, length-drop, take-append-drop, leb→le, arith, leb, if◌then◌else◌,
}
use async_ext.Prelude.Int.{ℤ, pos, negsuc, ◌+ℤ◌}
use async_ext.Str.Holds.{Holds}
use async_ext.Mmap.{MmapFile, Whence, set, cur, end, other, stream_seek}
use async_ext.Mmap.Cursor.{Cursor, target, move, Represents}

-- What the stream does with the place that a seek asks for.
abbrev seek_to : MmapFile → Option ℤ → Option ℕ × MmapFile
seek_to f none = (none, f)
seek_to f (some (negsuc n)) = (none, f)
seek_to f (some (pos n)) = if leb n f.size then (some n, record f { ptr = n }) else (none, f)

abbrev place : MmapFile → ℤ → Whence → Option ℤ
place f offset set = some offset
place f offset cur = some (pos f.ptr +ℤ offset)
place f offset end = some (pos f.size +ℤ offset)
place f offset other = none

stream_seek_lem :
    (f : MmapFile) (offset : ℤ) (whence : Whence)
    → stream_seek f offset whence ≡ seek_to f (place f offset whence)
unfolding stream_seek ◌+ℤ◌
stream_seek_lem f (pos n) set = ground arith
stream_seek_lem f (negsuc n) set = ground arith
stream_seek_lem f (pos n) cur = ground arith
stream_seek_lem f (negsuc n) cur = ground arith
stream_seek_lem f (pos n) end = ground arith
stream_seek_lem f (negsuc n) end = ground arith
stream_seek_lem f offset other = refl

place-target :
    (f : MmapFile) (c : Cursor) (offset : ℤ) (whence : Whence)
    → Represents f c
    → place f offset whence ≡ target c offset whence
place-target f c offset set r = refl
place-target f c offset cur r = ap (λ p. some (pos p +ℤ offset)) r.at
place-target f c offset end r =
    ap (λ n. some (pos n +ℤ offset)) (r.full ∙ sym (length-append c.before c.behind))
place-target f c offset other r = refl

seek_to-move :
    (f : MmapFile) (c : Cursor) (t : Option ℤ)
    → Represents f c
    → ((seek_to f t).0 ≡ (move c t).0) × Represents (seek_to f t).1 (move c t).1
seek_to-move f c none r = (refl, r)
seek_to-move f c (some (negsuc n)) r = (refl, r)
seek_to-move f c (some (pos n)) r =
    let all = c.before ++ c.behind in
    let total : f.size ≡ length all = r.full ∙ sym (length-append c.before c.behind) in
    elim (Bool-cases (leb n (length all))) [
      | inl inside ↦
          rw (ap (leb n) total ∙ inside, inside)
            (
              refl,
              record {
                holds = subst (Holds f.memory 0) (sym (take-append-drop n all)) r.holds;
                full =
                    let l = leb→le n (length all) inside in
                    omega (arith, length-take n all, length-drop n all);
                at = let l = leb→le n (length all) inside in omega (arith, length-take n all);
              },
            )
      | inr outside ↦ rw (ap (leb n) total ∙ outside, outside) (refl, r)
    ]

pub stream_seek-move :
    (f : MmapFile) (c : Cursor) (offset : ℤ) (whence : Whence)
    → Represents f c
    → ((stream_seek f offset whence).0 ≡ (move c (target c offset whence)).0)
      × Represents (stream_seek f offset whence).1 (move c (target c offset whence)).1
stream_seek-move f c offset whence r =
    let t = target c offset whence in
    subst (λ x. (x.0 ≡ (move c t).0) × Represents x.1 (move c t).1)
      (sym (stream_seek_lem f offset whence ∙ ap (seek_to f) (place-target f c offset whence r)))
      (seek_to-move f c t r)
