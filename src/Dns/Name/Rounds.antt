-- ===== src/Dns/Name/Rounds.antt =====
-- The rounds of domain_decode of swoole_async.cc, one label each.
use async_ext.Prelude.{
  ℕ, zero, suc, ◌+◌, ◌-◌, ◌<◌, ◌≤◌, ◌≡◌, ◌≢◌, ◌⊎◌, inl, inr, refl, ap, subst, ◌∙◌, true, false,
  some, List, [], ◌∷◌, ◌++◌, length, length-append, arith, ◌==◌,
}
use native.Mathlib.Decide.{dec_lt}
use async_ext.Str.{Memory, byte, store}
use async_ext.Str.Holds.{
  Holds, Holds-append, Holds-concat, Holds-ext, byte-store_ne, byte-store_self,
}
use async_ext.Dns.Name.{dot, strlen, shift}
use async_ext.Dns.Name.Encode.{dotted, encode_labels}

abbrev pub IsString : List ℕ → Type 0
IsString [] = Unit {0}
IsString (c ∷ cs) = (0 < c) × IsString cs

-- Labels that are not empty, have no char 0, and lengths that are positive as a `char`.
abbrev pub IsName : List (List ℕ) → Type 0
IsName [] = Unit {0}
IsName (l ∷ ls) = IsString l × (0 < length l) × (length l < 128) × IsName ls

pub nonzero :
    (m : Memory) (k : ℕ) (cs : List ℕ)
    → IsString cs
    → Holds m k cs
    → (i : ℕ) → i < length cs
    → byte m (k + i) ≢ 0
nonzero m k [] p h i l = elim l [ ]
nonzero m k (c ∷ cs) p h zero l =
    omega (arith, ap (byte m) {x = k + 0} {y = k} (omega arith), h.0, p.0)
nonzero m k (c ∷ cs) p h (suc i) l =
    subst (λ j. byte m j ≢ 0) (omega arith) (nonzero m (k + 1) cs p.1 h.1 i (omega arith))

-- The size of encoded labels without the zero behind them.
abbrev pub text_size : List (List ℕ) → ℕ
text_size [] = 0
text_size (l ∷ ls) = length l + 1 + text_size ls

pub length-dotted : (ls : List (List ℕ)) → length (dotted ls) ≡ text_size ls
length-dotted [] = refl
length-dotted (l ∷ ls) = omega (arith, length-append l (dot ∷ dotted ls), length-dotted ls)

pub labels_nonzero :
    (m : Memory) (k : ℕ) (ls : List (List ℕ))
    → IsName ls
    → Holds m k (encode_labels ls)
    → (byte m (k + text_size ls) ≡ 0) × ((i : ℕ) → i < text_size ls → byte m (k + i) ≢ 0)
labels_nonzero m k [] p h = (ap (byte m) (omega arith) ∙ h.0, λ i l. elim l [ ])
labels_nonzero m k (l ∷ ls) (s, pos, small, p) (h0, h) =
    let (a, b) = Holds-append m (k + 1) l (encode_labels ls) h in
    let (z, rest) = labels_nonzero m (k + 1 + length l) ls p b in
    (
      ap (byte m) (omega arith) ∙ z,
      λ i below. elim (dec_lt i 1) [
        | yes first ↦ omega (arith, ap (byte m) {x = k + i} {y = k} (omega arith), h0)
        | no later ↦ elim (dec_lt i (1 + length l)) [
          | yes inside ↦
              subst (λ j. byte m j ≢ 0) (omega arith)
                (nonzero m (k + 1) l s a (i - 1) (omega arith))
          | no behind ↦
              subst (λ j. byte m j ≢ 0) (omega arith) (rest (i - (1 + length l)) (omega arith))
        ]
      ],
    )

pub strlen-of :
    (n room : ℕ) (m : Memory) (k : ℕ)
    → ((i : ℕ) → i < n → byte m (k + i) ≢ 0)
    → byte m (k + n) ≡ 0
    → n < room
    → strlen room m k ≡ some n
unfolding strlen
strlen-of n zero m k h z l = elim l [ ]
strlen-of zero (suc room) m k h z l =
    let e : (byte m k == 0) ≡ true =
      ground (arith, ap (byte m) {x = k + 0} {y = k} (omega arith), z) in
    rw e
strlen-of (suc n) (suc room) m k h z l =
    let e : (byte m k == 0) ≡ false =
      ground (arith, ap (byte m) {x = k + 0} {y = k} (omega arith), h 0 (omega arith)) in
    let rest =
      strlen-of n room m (k + 1)
        (λ i b. subst (λ j. byte m j ≢ 0) (omega arith) (h (suc i) (omega arith)))
        (ap (byte m) (omega arith) ∙ z) (omega arith) in
    rw (e, rest)

shift-Holds :
    (l : List ℕ) (k : ℕ) (m : Memory)
    → Holds m (k + 1) l
    → Holds (shift (length l) k m) k l
      × ((j : ℕ) → (j < k) ⊎ (k + length l ≤ j) → byte (shift (length l) k m) j ≡ byte m j)
unfolding shift
shift-Holds [] k m h = (tt, λ j a. refl)
shift-Holds (c ∷ cs) k m h =
    let m1 = store m k (m (k + 1)) in
    let (a, b) = shift-Holds cs (k + 1) m1 (
      Holds-ext m m1 (k + 1 + 1) cs (λ i p q. byte-store_ne m k (m (k + 1)) i (inr (omega arith)))
        h.1) in
    (
      (b k (inl (omega arith)) ∙ byte-store_self m k (m (k + 1)) ∙ h.0, a),
      λ j p. b j (omega arith) ∙ byte-store_ne m k (m (k + 1)) j (omega arith),
    )

-- A round of the outer loop: the label moves down, and the dot takes the place behind it.
pub one_round :
    (k i : ℕ) (m : Memory) (l : List ℕ) (ls : List (List ℕ))
    → Holds m (k + i) (encode_labels (l ∷ ls))
    → let m1 = store (shift (length l) (k + i) m) (k + (i + length l)) dot in
      Holds m1 (k + i) (l ++ (dot ∷ []))
      × Holds m1 (k + (i + length l + 1)) (encode_labels ls)
      × ((j : ℕ) → (j < k + i) ⊎ (k + i + (length l + 1) ≤ j) → byte m1 j ≡ byte m j)
one_round k i m l ls (h0, h) =
    let n = length l in
    let (a, b) = Holds-append m (k + i + 1) l (encode_labels ls) h in
    let (c, d) = shift-Holds l (k + i) m a in
    let s = shift n (k + i) m in
    let q = k + (i + n) in
    let m1 = store s q dot in
    (
      Holds-concat m1 (k + i) l (dot ∷ [])
          (Holds-ext s m1 (k + i) l (λ j u v. byte-store_ne s q dot j (inl (omega arith))) c)
          (ap (byte m1) {x = k + i + n} {y = q} (omega arith) ∙ byte-store_self s q dot, tt),
      Holds-ext m m1 (k + (i + n + 1)) (encode_labels ls)
          (λ j u v. byte-store_ne s q dot j (inr (omega arith)) ∙ d j (inr (omega arith)))
          (subst (λ j. Holds m j (encode_labels ls)) (omega arith) b),
      λ j u. byte-store_ne s q dot j (omega arith) ∙ d j (omega arith),
    )

pub nonzero_text :
    (m : Memory) (k i : ℕ) (l : List ℕ)
    → IsString l
    → Holds m (k + i) (l ++ (dot ∷ []))
    → ((j : ℕ) → j < i → byte m (k + j) ≢ 0)
    → (j : ℕ) → j < i + length l + 1
    → byte m (k + j) ≢ 0
nonzero_text m k i l s h old j u =
    let (a, b) = Holds-append m (k + i) l (dot ∷ []) h in
    elim (dec_lt j i) [
      | yes before ↦ old j before
      | no later ↦ elim (dec_lt j (i + length l)) [
        | yes inside ↦
            subst (λ x. byte m x ≢ 0) (omega arith) (nonzero m (k + i) l s a (j - i) (omega arith))
        | no behind ↦
            let e : byte m (k + j) ≡ 46 = ap (byte m) (omega arith) ∙ b.0 in omega (arith, e)
      ]
    ]
