-- ===== src/Buffer/Reads.antt =====
-- The methods of swoole_buffer.cc that read, by the contents of the string.
use async_ext.Prelude.{
  ℕ, ◌+◌, ◌-◌, ◌^◌, ◌<◌, ◌≤◌, ◌≡◌, inl, inr, refl, ap, ◌∙◌, false, not, Bool-cases, none, some,
  List, length, length-drop, take, drop, take-ge, arith, leb, if◌then◌else◌, leb→le, le→leb,
}
use async_ext.Prelude.Int.{ℤ, pos, negsuc, ltb_ℤ, ◌+ℤ◌, ◌-ℤ◌}
use async_ext.Str.{Str, IsLong, wrap_long}
use async_ext.Buffer.{
  StringApi, Limits, Buffer, Answer, bool, string, substr_at, substr_from, from_end, read_at,
  read_from,
}
use async_ext.Buffer.Documented.{Contains}
use async_ext.Buffer.Places.{
  long_small, wrap-add, wrap-sub, place, from_end-place, from_end-nowhere, text_at-part,
  not_negative, negative,
}

-- Reading a part, as `substr` and `read` do; nothing else is answered with false.
abbrev pub part : List ℕ → ℕ → ℕ → Answer
part c k n = if leb (k + n) (length c) then string (take n (drop k c)) else bool false

read_past_end :
    (size o k n len : ℕ)
    → size ≡ o + len
    → size < 2 ^ 62
    → k < 2 ^ 62
    → ltb_ℤ (wrap_long (pos size -ℤ pos (o + k))) (pos n) ≡ not (leb (k + n) len)
unfolding ◌-ℤ◌
read_past_end size o k n len e a b = ground arith

pub read_at-part :
    (b : Buffer) (s : Str) (c : List ℕ) (k n : ℕ)
    → Contains s c
    → s.length < 2 ^ 62
    → k < 2 ^ 62
    → read_at (pos (s.offset + k)) (pos n) b s ≡ (part c k n, b)
unfolding read_at
read_at-part b s c k n r l kl =
    let e = long_small s.length (omega arith) in
    let t = read_past_end s.length s.offset k n (length c) r.whole l kl in
    rw (e, t)
      (elim (Bool-cases (leb (k + n) (length c))) [
        | inl inside ↦
            rw inside (ap (λ x. (x, b)) (text_at-part s c k n r (leb→le (k + n) (length c) inside)))
        | inr outside ↦ rw outside refl
      ])

pub read_from-place :
    (b : Buffer) (s : Str) (c : List ℕ) (z : ℤ) (k n : ℕ)
    → Contains s c
    → s.length < 2 ^ 62
    → place z c ≡ some k
    → k < 2 ^ 62
    → read_from z (pos n) b s ≡ (part c k n, b)
unfolding read_from
read_from-place b s c z k n r l p kl =
    let w = r.whole in
    let f : from_end z s ≡ pos k = from_end-place s c z k r l p in
    let g : wrap_long (pos k +ℤ pos s.offset) ≡ pos (s.offset + k) =
      wrap-add k s.offset (omega arith) ∙ ap pos (omega arith) in
    rw f (rw (not_negative k, g) (read_at-part b s c k n r l kl))

pub read_from-nowhere :
    (b : Buffer) (s : Str) (c : List ℕ) (z n : ℤ)
    → Contains s c
    → s.length < 2 ^ 62
    → IsLong z
    → place z c ≡ none
    → read_from z n b s ≡ (bool false, b)
unfolding read_from
read_from-nowhere b s c z n r l zl p = rw (from_end-nowhere s c z r l zl p) refl

pub substr_past_end :
    (size o k n len : ℕ)
    → size ≡ o + len
    → size < 2 ^ 62
    → k + n < 2 ^ 62
    → ltb_ℤ (pos size) (wrap_long (pos n +ℤ pos (o + k))) ≡ not (leb (k + n) len)
unfolding ◌+ℤ◌
substr_past_end size o k n len e a b = ground arith

module _ (api : StringApi) (lim : Limits) where
  pub substr_at-part :
      (b : Buffer) (s : Str) (c : List ℕ) (k n : ℕ)
      → Contains s c
      → s.length < 2 ^ 62
      → k + n < 2 ^ 62
      → substr_at api lim (pos (s.offset + k)) (pos n) false b s ≡ (part c k n, b)
  unfolding substr_at
  substr_at-part b s c k n r l kl =
      let e = long_small s.length (omega arith) in
      let t = substr_past_end s.length s.offset k n (length c) r.whole l kl in
      rw (not_negative n, e, t)
        (elim (Bool-cases (leb (k + n) (length c))) [
          | inl inside ↦
              rw inside
                (ap (λ x. (x, b)) (text_at-part s c k n r (leb→le (k + n) (length c) inside)))
          | inr outside ↦ rw outside refl
        ])

  pub substr_at-rest :
      (b : Buffer) (s : Str) (c : List ℕ) (k m : ℕ)
      → Contains s c
      → s.length < 2 ^ 62
      → k ≤ length c
      → substr_at api lim (pos (s.offset + k)) (negsuc m) false b s ≡ (string (drop k c), b)
  unfolding substr_at
  substr_at-rest b s c k m r l kl =
      let w = r.whole in
      let e = long_small s.length (omega arith) in
      let f : wrap_long (pos s.length -ℤ pos (s.offset + k)) ≡ pos (length c - k) =
        wrap-sub s.length (s.offset + k) (omega arith) (omega arith) ∙ ap pos (omega arith) in
      let t =
        substr_past_end s.length s.offset k (length c - k) (length c) r.whole l (omega arith) in
      rw (negative m, e, f, t)
        (rw (le→leb (k + (length c - k)) (length c) (omega arith)) (
          ap (λ x. (x, b))
            (text_at-part s c k (length c - k) r (omega arith)
              ∙ ap string (take-ge (length c - k) (drop k c) (omega (arith, length-drop k c))))))

  pub substr_from-at :
      (b : Buffer) (s : Str) (k : ℕ) (n : ℤ)
      → s.offset + k < 2 ^ 63
      → substr_from api lim (pos k) n false b s ≡ substr_at api lim (pos (s.offset + k)) n false b s
  unfolding substr_from
  substr_from-at b s k n l = rw (not_negative k) (
      ap (λ o. substr_at api lim o n false b s)
        (wrap-add k s.offset (omega arith) ∙ ap pos (omega arith)))
