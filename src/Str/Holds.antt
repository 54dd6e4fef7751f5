-- ===== src/Str/Holds.antt =====
-- What a stretch of memory holds. No code of the repository is modelled here.
use async_ext.Prelude.{
  ℕ, zero, suc, ◌+◌, ◌%◌, ◌<◌, ◌≤◌, ◌≡◌, ◌⊎◌, inl, inr, refl, ap, ap₂, subst, ◌∙◌, List, [], ◌∷◌,
  ◌++◌, length, tabulate-ext, get_or, arith,
}
use native.Mathlib.Decide.{dec_lt}
use async_ext.Str.{Memory, byte, store, slice, memcpy}

-- The memory holds these bytes from the address on.
abbrev pub Holds : Memory → ℕ → List ℕ → Type 0
Holds m k [] = Unit {0}
Holds m k (b ∷ bs) = (byte m k ≡ b) × Holds m (k + 1) bs

pub Holds-append :
    (m : Memory) (k : ℕ) (xs ys : List ℕ)
    → Holds m k (xs ++ ys)
    → Holds m k xs × Holds m (k + length xs) ys
Holds-append m k [] ys h = (tt, subst (λ j. Holds m j ys) (omega arith) h)
Holds-append m k (x ∷ xs) ys h =
    let (a, b) = Holds-append m (k + 1) xs ys h.1 in
    ((h.0, a), subst (λ j. Holds m j ys) (omega arith) b)

pub slice-Holds : (m : Memory) (k : ℕ) (s : List ℕ) → Holds m k s → slice m k (length s) ≡ s
slice-Holds m k [] h = refl
slice-Holds m k (b ∷ s) h =
    ap₂ ◌∷◌ (ap (byte m) (omega arith) ∙ h.0)
      (tabulate-ext _ _ (length s) (λ i _. ap (byte m) (omega arith)) ∙ slice-Holds m (k + 1) s h.1)

-- Chars that are stored elsewhere change nothing.
pub byte-store_ne : (m : Memory) (a v i : ℕ) → (i < a) ⊎ (a < i) → byte (store m a v) i ≡ byte m i
unfolding store
byte-store_ne m a v i h = ground arith

pub byte-store_self : (m : Memory) (a v : ℕ) → byte (store m a v) a ≡ v % 256
unfolding store
byte-store_self m a v = ground arith

pub Holds-ext :
    (m m' : Memory) (k : ℕ) (bs : List ℕ)
    → ((i : ℕ) → k ≤ i → i < k + length bs → byte m' i ≡ byte m i)
    → Holds m k bs
    → Holds m' k bs
Holds-ext m m' k [] e h = tt
Holds-ext m m' k (b ∷ bs) e h = (
  e k (omega arith) (omega arith) ∙ h.0,
  Holds-ext m m' (k + 1) bs (λ i l u. e i (omega arith) (omega arith)) h.1,
)

pub Holds-concat :
    (m : Memory) (k : ℕ) (xs ys : List ℕ)
    → Holds m k xs
    → Holds m (k + length xs) ys
    → Holds m k (xs ++ ys)
Holds-concat m k [] ys a b = subst (λ j. Holds m j ys) (omega arith) b
Holds-concat m k (x ∷ xs) ys a b =
    (a.0, Holds-concat m (k + 1) xs ys a.1 (subst (λ j. Holds m j ys) (omega arith) b))

pub Holds-read :
    (m : Memory) (k : ℕ) (bs : List ℕ)
    → ((i : ℕ) → i < length bs → byte m (k + i) ≡ get_or bs i 0)
    → Holds m k bs
Holds-read m k [] h = tt
Holds-read m k (b ∷ bs) h = (
  ap (byte m) (omega arith) ∙ h 0 (omega arith),
  Holds-read m (k + 1) bs (λ i l. ap (byte m) (omega arith) ∙ h (suc i) (omega arith)),
)

pub Holds-copy :
    (m m' : Memory) (k k' : ℕ) (bs : List ℕ)
    → ((i : ℕ) → i < length bs → byte m' (k' + i) ≡ byte m (k + i))
    → Holds m k bs
    → Holds m' k' bs
Holds-copy m m' k k' [] e h = tt
Holds-copy m m' k k' (b ∷ bs) e h = (
  ap (byte m') (omega arith) ∙ e 0 (omega arith) ∙ ap (byte m) (omega arith) ∙ h.0,
  Holds-copy m m' (k + 1) (k' + 1) bs
      (λ i l. ap (byte m') (omega arith) ∙ e (suc i) (omega arith) ∙ ap (byte m) (omega arith)) h.1,
)

pub Holds-byte :
    (m : Memory) (k : ℕ) (bs : List ℕ)
    → Holds m k bs
    → (i : ℕ) → i < length bs
    → byte m (k + i) ≡ get_or bs i 0
Holds-byte m k [] h i l = elim l [ ]
Holds-byte m k (b ∷ bs) h zero l = ap (byte m) (omega arith) ∙ h.0
Holds-byte m k (b ∷ bs) h (suc i) l =
    ap (byte m) (omega arith) ∙ Holds-byte m (k + 1) bs h.1 i (omega arith)

-- A list of bytes, and a memory that was made from it.
abbrev pub IsText : List ℕ → Type 0
IsText [] = Unit {0}
IsText (c ∷ cs) = (c < 256) × IsText cs

pub Holds-get_or :
    (m : Memory) (k : ℕ) (bs : List ℕ)
    → IsText bs
    → ((i : ℕ) → i < length bs → m (k + i) ≡ get_or bs i 0)
    → Holds m k bs
Holds-get_or m k [] t e = tt
Holds-get_or m k (b ∷ bs) t e = (
  ap (λ v. v % 256) (ap m {x = k} {y = k + 0} (omega arith) ∙ e 0 (omega arith)) ∙ omega arith,
  Holds-get_or m (k + 1) bs t.1 (λ i l. ap m (omega arith) ∙ e (suc i) (omega arith)),
)

-- `memcpy` copies the bytes, and nothing else changes.
pub memcpy-byte :
    (dest src : Memory) (d s n i : ℕ)
    → i < n
    → byte (memcpy dest d src s n) (d + i) ≡ byte src (s + i)
unfolding memcpy
memcpy-byte dest src d s zero i h = elim h [ ]
memcpy-byte dest src d s (suc n) i h = elim (dec_lt i n) [
  | yes p ↦
      byte-store_ne (memcpy dest d src s n) (d + n) (src (s + n)) (d + i) (inl (omega arith))
      ∙ memcpy-byte dest src d s n i p
  | no p ↦
      let e : i ≡ n = omega arith in
      rw e (byte-store_self (memcpy dest d src s n) (d + n) (src (s + n)))
]

pub memcpy-before :
    (dest src : Memory) (d s n j : ℕ) → j < d → byte (memcpy dest d src s n) j ≡ byte dest j
unfolding memcpy
memcpy-before dest src d s zero j l = refl
memcpy-before dest src d s (suc n) j l =
    byte-store_ne (memcpy dest d src s n) (d + n) (src (s + n)) j (inl (omega arith))
    ∙ memcpy-before dest src d s n j l

pub memcpy-behind :
    (dest src : Memory) (d s n j : ℕ) → d + n ≤ j → byte (memcpy dest d src s n) j ≡ byte dest j
unfolding memcpy
memcpy-behind dest src d s zero j l = refl
memcpy-behind dest src d s (suc n) j l =
    byte-store_ne (memcpy dest d src s n) (d + n) (src (s + n)) j (inr (omega arith))
    ∙ memcpy-behind dest src d s n j (omega arith)
