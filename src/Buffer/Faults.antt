-- ===== src/Buffer/Faults.antt =====
-- Where the methods of swoole_buffer.cc answer with another text than is meant, or with one that is not
-- in the buffer.
use async_ext.Prelude.{
  ℕ, suc, ◌+◌, ◌-◌, ◌*◌, ◌%◌, ◌^◌, ◌<◌, ◌≤◌, ◌≡◌, inl, inr, refl, ap, ◌∙◌, Bool, true, false, ◌&&◌,
  Bool-cases, List, length, take, drop, drop-drop, length-drop, arith, ltb, if◌then◌else◌,
  le→not-ltb,
}
use async_ext.Prelude.Int.{pos, negsuc, ltb_ℤ, ◌+ℤ◌, ◌-ℤ◌}
use async_ext.Str.{Str, wrap_long}
use async_ext.Buffer.{
  StringApi, Limits, Buffer, string, overrun, text_at, recycled, remove_from, substr_at,
  substr_from, substr, read_at, read_from, read,
}
use async_ext.Buffer.Documented.{Documented, Contains, Contains-drop}
use async_ext.Buffer.Places.{
  long_small, wrap-add, wrap-sub, text_at-part, not_negative, negative, from_end-place,
}
use async_ext.Buffer.Writes.{substr_from-remove, recycled-Contains}
use async_ext.Buffer.Text.{Represents}
use async_ext.Buffer.Met.{with_ptr-some}

-- A removal of `n` chars makes the buffer give its garbage back.
abbrev pub collects : Limits → Str → ℕ → Bool
collects lim s n =
    ltb lim.garbage_min (s.offset + n) && ltb s.size ((s.offset + n) * lim.garbage_ratio)

before_start : (n m : ℕ) → n ≤ m → m < 2 ^ 62 → wrap_long (pos n +ℤ negsuc m) ≡ negsuc (m - n)
unfolding ◌+ℤ◌
before_start n m h l = ground arith

moved_start : (a o : ℕ) → o ≤ a → a < 2 ^ 62 → wrap_long (negsuc a +ℤ pos o) ≡ negsuc (a - o)
unfolding ◌+ℤ◌
moved_start a o h l = ground arith

length_before :
    (n q : ℕ) → n < 2 ^ 62 → q < 2 ^ 62 → wrap_long (pos n -ℤ negsuc q) ≡ pos (n + suc q)
unfolding ◌-ℤ◌
length_before n q h l = ground arith

end_before : (n q : ℕ) → n < 2 ^ 62 → q < 2 ^ 62 → wrap_long (pos (n + suc q) +ℤ negsuc q) ≡ pos n
unfolding ◌+ℤ◌
end_before n q h l = ground arith

not_below : (n : ℕ) → ltb_ℤ (pos n) (pos n) ≡ false
not_below n = ground arith

module _ (api : StringApi) (lim : Limits) (d : Documented api) where
  remove_from-answer :
      (b : Buffer) (s : Str) (c : List ℕ) (n : ℕ)
      → Contains s c
      → s.length < 2 ^ 62
      → s.offset + n + n ≤ length c
      → 0 < s.offset + n
      → (remove_from api lim (pos s.offset) (pos n) b s).0
        ≡ string (if collects lim s n then take n (drop (s.offset + n) c) else take n c)
  unfolding remove_from
  remove_from-answer b s c n r l h p =
      let w = r.whole in
      let e : n % 2 ^ 64 ≡ n = omega arith in
      let s1 = record s { offset = s.offset + n } in
      let r1 = Contains-drop s c n r (omega arith) in
      let (r2, shorter, front) = recycled-Contains api lim s1 (drop n c) d r1 in
      rw e (elim (Bool-cases (collects lim s n)) [
        | inl garbage ↦ rw garbage (
            ap (λ o. text_at (recycled api lim s1) (pos o) (pos n)) (omega arith)
            ∙ text_at-part (recycled api lim s1) (drop n c) s.offset n r2
                (omega (arith, length-drop n c))
            ∙ ap (λ x. string (take n x))
                (drop-drop n s.offset c ∙ ap (λ k. drop k c) (omega arith)))
        | inr clean ↦ rw clean (
            ap (λ o. text_at s (pos o) (pos n)) (omega arith)
            ∙ text_at-part s c 0 n r (omega arith))
      ])

  -- When substr removes n chars from the start of a buffer whose contents go on far enough, it
  -- answers with these chars, unless the removal makes the buffer give its garbage back: then it
  -- answers with the n chars that stand further on, behind as many as had been removed in all.
  pub substr-removal :
      (b : Buffer) (used : ℕ) (c : List ℕ) (n : ℕ) (v : Represents b used c)
      → used < 2 ^ 62
      → 0 < n
      → v.string.offset + n + n ≤ length c
      → (substr api lim (pos 0) (pos n) true b).0
        ≡ string
            (if collects lim v.string n then take n (drop (v.string.offset + n) c) else take n c)
  unfolding substr
  substr-removal b used c n v small p h =
      let l = v.bound in
      let w = v.contents.whole in
      ap (λ x. x.0)
        (with_ptr-some b.ptr v.string (substr_from api lim (pos 0) (pos n) true b) b v.here
          ∙ substr_from-remove api lim b v.string c n v.contents (omega arith) (omega arith))
      ∙ remove_from-answer b v.string c n v.contents (omega arith) h (omega arith)

module _ (api : StringApi) (lim : Limits) where
  substr_from-overrun :
      (b : Buffer) (s : Str) (m j : ℕ)
      → s.length < 2 ^ 62
      → s.offset ≤ s.length
      → s.length + s.offset ≤ m
      → m < 2 ^ 62
      → substr_from api lim (negsuc m) (negsuc j) false b s ≡ (overrun, b)
  unfolding substr_from substr_at text_at
  substr_from-overrun b s m j l o h k =
      let e = long_small s.length (omega arith) in
      let q : ℕ = m - s.length - s.offset in
      rw (negative m, e, before_start s.length m (omega arith) k)
        (rw (moved_start (m - s.length) s.offset (omega arith) (omega arith)) (
          rw (negative j, length_before s.length q l (omega arith))
            (rw (end_before s.length q l (omega arith), not_below s.length) refl)))

  read_from-overrun :
      (b : Buffer) (s : Str) (c : List ℕ) (k m : ℕ)
      → Contains s c
      → s.length < 2 ^ 62
      → k ≤ length c
      → read_from (pos k) (negsuc m) b s ≡ (overrun, b)
  unfolding read_from read_at text_at
  read_from-overrun b s c k m r l h =
      let w = r.whole in
      let e = long_small s.length (omega arith) in
      let f = from_end-place s c (pos k) k r l refl in
      let g : wrap_long (pos k +ℤ pos s.offset) ≡ pos (s.offset + k) =
        wrap-add k s.offset (omega arith) ∙ ap pos (omega arith) in
      rw f (
        rw (not_negative k, g, e)
          (rw (wrap-sub s.length (s.offset + k) (omega arith) (omega arith))
            (rw (le→not-ltb (s.length - (s.offset + k) + suc m) (0 + 0) (omega arith)) refl)))

  -- Without a length, substr with a negative offset that is further back than the string's length
  -- and the buffer's offset together reads in front of the buffer's memory; read with a negative
  -- length asks for a text of a negative length.
  pub texts_outside :
      (b : Buffer) (used : ℕ) (c : List ℕ) (k m j : ℕ) (v : Represents b used c)
      → used < 2 ^ 62
      → m < 2 ^ 62
      → v.string.length + v.string.offset ≤ m
      → k ≤ length c
      → (substr api lim (negsuc m) (negsuc j) false b ≡ (overrun, b))
        × (read (pos k) (negsuc j) b ≡ (overrun, b))
  unfolding substr read
  texts_outside b used c k m j v small l h h' =
      let n = v.bound in
      let w = v.contents.whole in
      (
        with_ptr-some b.ptr v.string (substr_from api lim (negsuc m) (negsuc j) false b) b v.here
            ∙ substr_from-overrun b v.string m j (omega arith) (omega arith) h l,
        with_ptr-some b.ptr v.string (read_from (pos k) (negsuc j) b) b v.here
            ∙ read_from-overrun b v.string c k j v.contents (omega arith) h',
      )
