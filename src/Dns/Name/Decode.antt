-- ===== src/Dns/Name/Decode.antt =====
-- domain_decode of swoole_async.cc: the text of a DNS name, and the way back from domain_encode.
use async_ext.Prelude.{
  ℕ, zero, suc, ◌+◌, ◌-◌, ◌<◌, ◌≤◌, ◌≡◌, ◌≢◌, ◌⊎◌, inl, refl, sym, ap, subst, ◌∙◌, true, false,
  some, List, [], ◌∷◌, ◌++◌, length, length-append, arith, ltb, ◌>>=◌,
}
use native.Mathlib.Decide.{dec_lt}
use async_ext.Str.{Memory, byte, store, uint_of_char}
use async_ext.Str.Holds.{
  Holds, Holds-append, Holds-concat, Holds-ext, byte-store_ne, byte-store_self,
}
use async_ext.Dns.Name.{dot, strlen, shift, decode_loop, end_text, domain_encode, domain_decode}
use async_ext.Dns.Name.Encode.{dotted, encode_labels, IsLabels, domain_encode-labels}
use async_ext.Dns.Name.Rounds.{
  IsName, text_size, length-dotted, strlen-of, labels_nonzero, one_round, nonzero_text,
}

module _ (room k : ℕ) where
  -- What the loop makes of the labels from `i` on.
  abbrev Decoded : ℕ → ℕ → Memory → List (List ℕ) → Type 0
  Decoded fuel i m ls =
      (m' : Memory) × (decode_loop fuel room k i m ≡ some (i + text_size ls, m'))
      × Holds m' (k + i) (dotted ls)
      × ((j : ℕ) → (j < k + i) ⊎ (k + i + text_size ls ≤ j) → byte m' j ≡ byte m j)

  Decoded-label :
      (fuel i : ℕ) (m : Memory) (l : List ℕ) (ls : List (List ℕ))
      → length l < 128
      → strlen room m k ≡ some (i + text_size (l ∷ ls))
      → i + text_size (l ∷ ls) < room
      → Holds m (k + i) (encode_labels (l ∷ ls))
      → Decoded fuel
          (i + length l + 1)
          (store (shift (length l) (k + i) m) (k + (i + length l)) dot)
          ls
      → Decoded (suc fuel) i m (l ∷ ls)
  unfolding decode_loop
  Decoded-label fuel i m l ls small size fits h (m', run, text, keep) =
      let (a, b, c) = one_round k i m l ls h in
      let m1 = store (shift (length l) (k + i) m) (k + (i + length l)) dot in
      let label =
        Holds-ext m1 m' (k + i) (l ++ (dot ∷ []))
          (λ j u v. keep j (inl (omega (arith, length-append l (dot ∷ []))))) a in
      let (first, behind) = Holds-append m' (k + i) l (dot ∷ []) label in
      let len : uint_of_char (byte m (k + i)) ≡ length l = ground (arith, h.0) in
      let go : ltb i (i + text_size (l ∷ ls)) ≡ true = ground arith in
      let inside : ltb (i + length l) room ≡ true = ground arith in
      (
        m',
        rw (size, len, go, inside)
            (run
              ∙ ap (λ t. some (t, m')) {x = i + length l + 1 + text_size ls}
                  {y = i + text_size (l ∷ ls)} (omega arith)),
        Holds-concat m' (k + i) l (dot ∷ dotted ls) first
            (behind.0, subst (λ j. Holds m' j (dotted ls)) (omega arith) text),
        λ j u. keep j (omega arith) ∙ c j (omega arith),
      )

  size_of :
      (i : ℕ) (m : Memory) (ls : List (List ℕ))
      → IsName ls
      → Holds m (k + i) (encode_labels ls)
      → ((j : ℕ) → j < i → byte m (k + j) ≢ 0)
      → i + text_size ls < room
      → strlen room m k ≡ some (i + text_size ls)
  size_of i m ls s h old fits =
      let (z, rest) = labels_nonzero m (k + i) ls s h in
      strlen-of (i + text_size ls) room m k
        (λ j u. elim (dec_lt j i) [
          | yes before ↦ old j before
          | no later ↦ subst (λ x. byte m x ≢ 0) (omega arith) (rest (j - i) (omega arith))
        ])
        (ap (byte m) (omega arith) ∙ z) fits

  decode_loop-Decoded :
      (fuel i : ℕ) (m : Memory) (ls : List (List ℕ))
      → IsName ls
      → Holds m (k + i) (encode_labels ls)
      → ((j : ℕ) → j < i → byte m (k + j) ≢ 0)
      → i + text_size ls < room
      → length ls < fuel
      → Decoded fuel i m ls
  unfolding decode_loop
  decode_loop-Decoded zero i m ls s h old fits enough = elim enough [ ]
  decode_loop-Decoded (suc fuel) i m [] s h old fits enough =
      let size = strlen-of i room m k old (ap (byte m) (omega arith) ∙ h.0) (omega arith) in
      let stop : ltb i i ≡ false = ground arith in
      (
        m,
        rw (size, stop) (ap (λ j. some (j, m)) {x = i} {y = i + 0} (omega arith)),
        tt,
        λ j u. refl,
      )
  decode_loop-Decoded (suc fuel) i m (l ∷ ls) s h old fits enough =
      let (a, b, c) = one_round k i m l ls h in
      let m1 = store (shift (length l) (k + i) m) (k + (i + length l)) dot in
      Decoded-label fuel i m l ls s.2 (size_of i m (l ∷ ls) s h old fits) fits h (
        decode_loop-Decoded fuel (i + length l + 1) m1 ls s.3 b
          (nonzero_text m1 k i l s.0 a
            (λ j u. subst (λ v. v ≢ 0) (sym (c (k + j) (inl (omega arith)))) (old j u)))
          (omega arith) (omega arith))

length-le-text_size : (ls : List (List ℕ)) → length ls ≤ text_size ls
length-le-text_size [] = omega arith
length-le-text_size (l ∷ ls) = omega (arith, length-le-text_size ls)

size_of_text :
    (text : List ℕ) (ls : List (List ℕ))
    → text ++ (dot ∷ []) ≡ dotted ls
    → text_size ls ≡ length text + 1
size_of_text text ls e = omega (arith, length-dotted ls, ap length e, length-append text (dot ∷ []))

-- x
pub domain_decode-labels :
    (room : ℕ) (m : Memory) (k : ℕ) (text : List ℕ) (ls : List (List ℕ))
    → IsName ls
    → text ++ (dot ∷ []) ≡ dotted ls
    → Holds m k (encode_labels ls)
    → length text + 1 < room
    → (m' : Memory) × (domain_decode room m k ≡ some m')
      × Holds m' k (text ++ (0 ∷ []))
      × ((j : ℕ) → (j < k) ⊎ (k + length text < j) → byte m' j ≡ byte m j)
unfolding domain_decode end_text
domain_decode-labels room m k text ls s e h fits =
    let size = size_of_text text ls e in
    let (m1, run, labels, keep) =
      decode_loop-Decoded room k (suc room) 0 m ls s
        (subst (λ j. Holds m j (encode_labels ls)) (omega arith) h) (λ j u. elim u [ ])
        (omega arith) (omega (arith, length-le-text_size ls)) in
    let n = length text in
    let last : 0 + text_size ls ≡ suc n = omega arith in
    let (a, b) =
      Holds-append m1 k text (dot ∷ [])
        (subst (Holds m1 k) (sym e) (subst (λ j. Holds m1 j (dotted ls)) (omega arith) labels)) in
    let m2 = store m1 (k + n) 0 in
    (
      m2,
      rw run (rw last refl),
      Holds-concat m2 k text (0 ∷ [])
          (Holds-ext m1 m2 k text (λ j u v. byte-store_ne m1 (k + n) 0 j (inl v)) a)
          (byte-store_self m1 (k + n) 0, tt),
      λ j u. byte-store_ne m1 (k + n) 0 j (omega arith) ∙ keep j (omega arith),
    )

-- For a text whose labels are non-empty, have no dot and no char 0 and fewer than 128 chars,
-- domain_decode of what domain_encode wrote, in a buffer with room for it, gives the text and its
-- terminating zero.
pub domain_decode-domain_encode :
    (room : ℕ) (src dest : Memory) (s d : ℕ) (text : List ℕ) (ls : List (List ℕ))
    → IsLabels ls
    → IsName ls
    → text ++ (dot ∷ []) ≡ dotted ls
    → Holds src s text
    → byte src (s + length text) ≡ 0
    → length text + 1 < room
    → (m : Memory) × ((domain_encode src s (length text) dest d >>= λ m'. domain_decode room m' d)
        ≡ some m)
      × Holds m d (text ++ (0 ∷ []))
domain_decode-domain_encode room src dest s d text ls p q e h z fits =
    let (m', encoded, labels, front) = domain_encode-labels src dest s d text ls p e h z in
    let (m, decoded, result, keep) = domain_decode-labels room m' d text ls q e labels fits in
    (m, rw encoded decoded, result)
