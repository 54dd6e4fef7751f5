-- ===== src/Str/Patch.antt =====
-- Parts of what a stretch of memory holds, read and written over. No code of the repository is
-- modelled here.
use async_ext.Prelude.{
  ℕ, ◌+◌, ◌≤◌, ◌<◌, ◌≡◌, ◌⊎◌, inl, inr, sym, ap, subst, ◌∙◌, List, [], ◌++◌, length, length-append,
  length-take, length-drop, length-zero, take, drop, take-append-drop, get_or, arith,
}
use native.Mathlib.Decide.{dec_lt}
use async_ext.Str.{Memory, byte, slice, memcpy}
use async_ext.Str.Holds.{
  IsText, Holds, Holds-append, Holds-concat, Holds-copy, Holds-ext, Holds-get_or, memcpy-byte,
  memcpy-before, memcpy-behind, slice-Holds,
}

-- A text written over a list from a place in it on; it may go on behind the end.
abbrev pub patch : List ℕ → ℕ → List ℕ → List ℕ
patch bs k text = take k bs ++ (text ++ drop (k + length text) bs)

pub length-patch :
    (bs : List ℕ) (k : ℕ) (text : List ℕ)
    → k + length text ≤ length bs
    → length (patch bs k text) ≡ length bs
length-patch bs k text h = omega (
  arith,
  length-append (take k bs) (text ++ drop (k + length text) bs),
  length-append text (drop (k + length text) bs),
  length-take k bs,
  length-drop (k + length text) bs,
)

pub Holds-drop :
    (m : Memory) (a k : ℕ) (bs : List ℕ)
    → k ≤ length bs
    → Holds m a bs
    → Holds m (a + k) (drop k bs)
Holds-drop m a k bs l h =
    let (x, y) =
      Holds-append m a (take k bs) (drop k bs)
        (subst (Holds m a) (sym (take-append-drop k bs)) h) in
    subst (λ j. Holds m j (drop k bs)) (omega (arith, length-take k bs)) y

pub Holds-take : (m : Memory) (a k : ℕ) (bs : List ℕ) → Holds m a bs → Holds m a (take k bs)
Holds-take m a k bs h =
    (Holds-append m a (take k bs) (drop k bs) (subst (Holds m a) (sym (take-append-drop k bs)) h)).0

pub slice-part :
    (m : Memory) (a k n : ℕ) (bs : List ℕ)
    → Holds m a bs
    → k + n ≤ length bs
    → slice m (a + k) n ≡ take n (drop k bs)
slice-part m a k n bs h l =
    ap (slice m (a + k)) {x = n} {y = length (take n (drop k bs))}
      (omega (arith, length-take n (drop k bs), length-drop k bs))
    ∙ slice-Holds m (a + k) (take n (drop k bs))
        (Holds-take m (a + k) n (drop k bs) (Holds-drop m a k bs (omega arith) h))

abbrev pub chars : List ℕ → Memory
chars text i = get_or text i 0

-- A text that is written over what the memory holds, while all else stays.
pub Holds-over :
    (m m' : Memory) (a k : ℕ) (bs text : List ℕ)
    → k ≤ length bs
    → Holds m a bs
    → Holds m' (a + k) text
    → ((i : ℕ) → i < a + k → byte m' i ≡ byte m i)
    → ((i : ℕ) → a + k + length text ≤ i → i < a + length bs → byte m' i ≡ byte m i)
    → Holds m' a (patch bs k text)
Holds-over m m' a k bs text l h there before behind =
    let n = length text in
    let tk : length (take k bs) ≡ k = omega (arith, length-take k bs) in
    let front =
      Holds-ext m m' a (take k bs) (λ i p q. before i (omega arith)) (Holds-take m a k bs h) in
    let rest : Holds m' (a + k + n) (drop (k + n) bs) = elim (dec_lt (length bs) (k + n)) [
      | yes over ↦
          let e : drop (k + n) bs ≡ [] = length-zero _ (omega (arith, length-drop (k + n) bs)) in
          subst (Holds m' (a + k + n)) (sym e) tt
      | no within ↦
          Holds-ext m m' (a + k + n) (drop (k + n) bs)
            (λ i p q. behind i p (omega (arith, length-drop (k + n) bs)))
            (subst (λ j. Holds m j (drop (k + n) bs)) {x = a + (k + n)} {y = a + k + n}
              (omega arith) (Holds-drop m a (k + n) bs (omega arith) h))
    ] in
    Holds-concat m' a (take k bs) (text ++ drop (k + n) bs) front (
      subst (λ j. Holds m' j (text ++ drop (k + n) bs)) {x = a + k} {y = a + length (take k bs)}
        (omega arith) (Holds-concat m' (a + k) text (drop (k + n) bs) there rest))

-- `memcpy` of a text to a place, and to a place in what the memory holds.
pub Holds-memcpy :
    (m : Memory) (a : ℕ) (text : List ℕ)
    → IsText text
    → Holds (memcpy m a (chars text) 0 (length text)) a text
Holds-memcpy m a text t =
    Holds-copy (chars text) (memcpy m a (chars text) 0 (length text)) 0 a text
      (λ i p. memcpy-byte m (chars text) a 0 (length text) i p)
      (Holds-get_or (chars text) 0 text t (λ i p. ap (chars text) (omega arith)))

pub Holds-patch :
    (m : Memory) (a k : ℕ) (bs text : List ℕ)
    → IsText text
    → k ≤ length bs
    → Holds m a bs
    → Holds (memcpy m (a + k) (chars text) 0 (length text)) a (patch bs k text)
Holds-patch m a k bs text t l h =
    let n = length text in
    Holds-over m (memcpy m (a + k) (chars text) 0 n) a k bs text l h (Holds-memcpy m (a + k) text t)
      (λ i p. memcpy-before m (chars text) (a + k) 0 n i p)
      (λ i p q. memcpy-behind m (chars text) (a + k) 0 n i p)

-- What is held elsewhere stays.
pub Holds-apart :
    (m : Memory) (a n b : ℕ) (bs text : List ℕ)
    → (b + length bs ≤ a) ⊎ (a + n ≤ b)
    → Holds m b bs
    → Holds (memcpy m a (chars text) 0 n) b bs
Holds-apart m a n b bs text (inl l) h =
    Holds-ext m (memcpy m a (chars text) 0 n) b bs
      (λ i p q. memcpy-before m (chars text) a 0 n i (omega arith)) h
Holds-apart m a n b bs text (inr l) h =
    Holds-ext m (memcpy m a (chars text) 0 n) b bs
      (λ i p q. memcpy-behind m (chars text) a 0 n i (omega arith)) h
