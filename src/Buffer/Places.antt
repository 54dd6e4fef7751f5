-- ===== src/Buffer/Places.antt =====
-- Offsets and lengths of type zend_long in swoole_buffer.cc, as places in the contents of a string.
use async_ext.Prelude.{
  ℕ, ◌+◌, ◌-◌, ◌^◌, ◌<◌, ◌≤◌, ◌≡◌, inl, inr, refl, ap, ◌∙◌, true, false, Bool-cases, Option, none,
  some, List, length, take, drop, arith, leb, if◌then◌else◌, lt→ltb, leb→le, not-leb→lt, le→leb,
}
use async_ext.Prelude.Int.{ℤ, pos, negsuc, ltb_ℤ, ◌+ℤ◌, ◌-ℤ◌}
use async_ext.Str.{Str, IsLong, sub_size, long_of_size, wrap_long}
use async_ext.Str.Patch.{slice-part}
use async_ext.Buffer.{string, text_at, long_left, from_end}
use async_ext.Buffer.Documented.{Contains}

pub long_small : (n : ℕ) → n < 2 ^ 63 → long_of_size n ≡ pos n
long_small n h = rw (lt→ltb n (2 ^ 63) h) refl

pub wrap-add : (a b : ℕ) → a + b < 2 ^ 63 → wrap_long (pos a +ℤ pos b) ≡ pos (a + b)
unfolding ◌+ℤ◌
wrap-add a b h = ground arith

pub wrap-sub : (a b : ℕ) → b ≤ a → a < 2 ^ 63 → wrap_long (pos a -ℤ pos b) ≡ pos (a - b)
unfolding ◌-ℤ◌
wrap-sub a b h l = ground arith

pub long_left-pos :
    (s : Str) (c : List ℕ) → Contains s c → s.length < 2 ^ 62 → long_left s ≡ pos (length c)
long_left-pos s c r l =
    let w = r.whole in
    let e : sub_size s.length s.offset ≡ length c = omega arith in
    rw e (long_small (length c) (omega arith))

-- A place in the contents that an offset of `read` or `write` is.
abbrev pub place : ℤ → List ℕ → Option ℕ
place (pos k) c = some k
place (negsuc m) c = if leb (m + 1) (length c) then some (length c - (m + 1)) else none

from_end-pos : (k : ℕ) (s : Str) → from_end (pos k) s ≡ pos k
unfolding from_end
from_end-pos k s = ground arith

from_end-inside :
    (m : ℕ) (s : Str) (c : List ℕ)
    → Contains s c
    → s.length < 2 ^ 62
    → m + 1 ≤ length c
    → from_end (negsuc m) s ≡ pos (length c - (m + 1))
unfolding from_end ◌+ℤ◌
from_end-inside m s c r l h = let w = r.whole in rw (long_left-pos s c r l) (ground arith)

from_end-outside :
    (m : ℕ) (s : Str) (c : List ℕ)
    → Contains s c
    → s.length < 2 ^ 62
    → m < 2 ^ 63
    → length c < m + 1
    → ltb_ℤ (from_end (negsuc m) s) (pos 0) ≡ true
unfolding from_end ◌+ℤ◌
from_end-outside m s c r l b h = let w = r.whole in rw (long_left-pos s c r l) (ground arith)

pub from_end-place :
    (s : Str) (c : List ℕ) (z : ℤ) (k : ℕ)
    → Contains s c
    → s.length < 2 ^ 62
    → place z c ≡ some k
    → from_end z s ≡ pos k
from_end-place s c (pos n) k r l p = from_end-pos n s ∙ ap pos (cc)
from_end-place s c (negsuc m) k r l p = elim (Bool-cases (leb (m + 1) (length c))) [
  | inl inside ↦
      let p' : some (length c - (m + 1)) ≡ some k = rw inside at p in
      from_end-inside m s c r l (leb→le (m + 1) (length c) inside) ∙ ap pos (cc)
  | inr outside ↦ let p' : none ≡ some k = rw outside at p in cc
]

pub from_end-nowhere :
    (s : Str) (c : List ℕ) (z : ℤ)
    → Contains s c
    → s.length < 2 ^ 62
    → IsLong z
    → place z c ≡ none
    → ltb_ℤ (from_end z s) (pos 0) ≡ true
from_end-nowhere s c (pos n) r l zl p = cc
from_end-nowhere s c (negsuc m) r l zl p = elim (Bool-cases (leb (m + 1) (length c))) [
  | inl inside ↦ let p' : some (length c - (m + 1)) ≡ none = rw inside at p in cc
  | inr outside ↦ from_end-outside m s c r l zl (not-leb→lt (m + 1) (length c) outside)
]

-- A part of the contents.
pub text_at-part :
    (s : Str) (c : List ℕ) (k n : ℕ)
    → Contains s c
    → k + n ≤ length c
    → text_at s (pos (s.offset + k)) (pos n) ≡ string (take n (drop k c))
unfolding text_at
text_at-part s c k n r l =
    let w = r.whole in
    let m = r.room in
    rw (le→leb (s.offset + k + n) s.size (omega arith))
      (ap string (slice-part s.str s.offset k n c r.holds l))

pub not_negative : (n : ℕ) → ltb_ℤ (pos n) (pos 0) ≡ false
not_negative n = ground arith

pub negative : (m : ℕ) → ltb_ℤ (negsuc m) (pos 0) ≡ true
negative m = ground arith
