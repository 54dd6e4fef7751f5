-- ===== src/Dns/Name/Harmless.antt =====
-- domain_decode of swoole_async.cc on a text that is no encoded name: it stays inside the row.
use async_ext.Prelude.{
  ℕ, zero, suc, ◌+◌, ◌-◌, ◌<◌, ◌≤◌, ◌≡◌, ◌≢◌, inl, inr, refl, sym, ap, subst, ◌∙◌, true, false,
  some, arith, ltb,
}
use native.Mathlib.Decide.{dec_lt}
use async_ext.Str.{Memory, byte, store, uint_of_char}
use async_ext.Str.Holds.{byte-store_ne, byte-store_self}
use async_ext.Dns.Name.{dot, strlen, shift, decode_loop, end_text, domain_decode}
use async_ext.Dns.Name.Rounds.{strlen-of}

end_text-pos : (i : ℕ) (m : Memory) → 0 < i → (m' : Memory) × (end_text 0 (i, m) ≡ some m')
unfolding end_text
end_text-pos zero m h = elim h [ ]
end_text-pos (suc i) m h = (store m (0 + i) 0, refl)

-- The move of `n` chars, byte by byte.
shift-byte_before : (n k : ℕ) (m : Memory) (j : ℕ) → j < k → byte (shift n k m) j ≡ byte m j
unfolding shift
shift-byte_before zero k m j l = refl
shift-byte_before (suc n) k m j l =
    shift-byte_before n (k + 1) (store m k (m (k + 1))) j (omega arith)
    ∙ byte-store_ne m k (m (k + 1)) j (inl l)

shift-byte_behind : (n k : ℕ) (m : Memory) (j : ℕ) → k + n ≤ j → byte (shift n k m) j ≡ byte m j
unfolding shift
shift-byte_behind zero k m j l = refl
shift-byte_behind (suc n) k m j l =
    shift-byte_behind n (k + 1) (store m k (m (k + 1))) j (omega arith)
    ∙ byte-store_ne m k (m (k + 1)) j (inr (omega arith))

shift-byte_inside :
    (n k : ℕ) (m : Memory) (j : ℕ) → k ≤ j → j < k + n → byte (shift n k m) j ≡ byte m (j + 1)
unfolding shift
shift-byte_inside zero k m j a b = absurd (omega arith)
shift-byte_inside (suc n) k m j a b =
    let m1 = store m k (m (k + 1)) in
    elim (dec_lt k j) [
      | yes later ↦
          shift-byte_inside n (k + 1) m1 j (omega arith) (omega arith)
          ∙ byte-store_ne m k (m (k + 1)) (j + 1) (inr (omega arith))
      | no here ↦
          let e : j ≡ k = omega arith in
          shift-byte_before n (k + 1) m1 j (omega arith)
          ∙ ap (byte m1) e
          ∙ byte-store_self m k (m (k + 1))
          ∙ ap (λ x. byte m (x + 1)) (sym e)
    ]

-- A text of plain chars with its zero at `n`, of which the loop has passed `i`.
record Passed (m : Memory) (n i : ℕ) : Type 0 where
  within : i ≤ n
  passed : (j : ℕ) → j < i → byte m j ≢ 0
  plain : (j : ℕ) → i ≤ j → j < n → (0 < byte m j) × (byte m j < 128)
  end : byte m n ≡ 0

nonzero_before : {m : Memory} {n i : ℕ} → Passed m n i → (j : ℕ) → j < n → byte m j ≢ 0
nonzero_before {m} {n} {i} s j l = elim (dec_lt j i) [
  | yes a ↦ s.passed j a
  | no b ↦ let p = s.plain j (omega arith) l in omega arith
]

abbrev after : ℕ → ℕ → Memory → Memory
after len i m = store (shift len i m) (i + len) dot

module _ (m : Memory) (n i len : ℕ) (s : Passed m n i) (more : i < n) where
  nonzero_after : (j : ℕ) → j < i + len → j + 1 < n → byte (after len i m) j ≢ 0
  nonzero_after j a b =
      let e = byte-store_ne (shift len i m) (i + len) dot j (inl a) in
      elim (dec_lt j i) [
        | yes before ↦
            subst (λ v. v ≢ 0) (sym (e ∙ shift-byte_before len i m j before)) (s.passed j before)
        | no later ↦
            subst (λ v. v ≢ 0) (sym (e ∙ shift-byte_inside len i m j (omega arith) a))
              (nonzero_before s (j + 1) b)
      ]

  -- The label ends inside the text.
  Passed-inside : i + len < n → Passed (after len i m) n (i + len + 1)
  Passed-inside inside =
      let old : (j : ℕ) → i + len < j → byte (after len i m) j ≡ byte m j = λ j l.
        byte-store_ne (shift len i m) (i + len) dot j (inr l)
        ∙ shift-byte_behind len i m j (omega arith) in
      record {
        within = omega arith;
        passed = λ j l. elim (dec_lt j (i + len)) [
          | yes inner ↦ nonzero_after j inner (omega arith)
          | no last ↦
              let e : j ≡ i + len = omega arith in
              subst (λ v. v ≢ 0)
                (sym (ap (byte (after len i m)) e ∙ byte-store_self (shift len i m) (i + len) dot))
                (omega arith)
        ];
        plain = λ j a b.
            subst (λ v. (0 < v) × (v < 128)) (sym (old j (omega arith)))
              (s.plain j (omega arith) b);
        end = old n inside ∙ s.end;
      }

  -- It ends behind the text, and the zero moved with it.
  zero_moved : n ≤ i + len → 0 < len → byte (after len i m) (n - 1) ≡ 0
  zero_moved out pos =
      byte-store_ne (shift len i m) (i + len) dot (n - 1) (inl (omega arith))
      ∙ shift-byte_inside len i m (n - 1) (omega arith) (omega arith)
      ∙ ap (byte m) (omega arith)
      ∙ s.end

module _ (room n : ℕ) (fits : n + 128 ≤ room) where
  abbrev Ends : ℕ → ℕ → Memory → Type 0
  Ends fuel i m =
      (i' : ℕ) × (m' : Memory) × (decode_loop fuel room 0 i m ≡ some (i', m')) × (0 < i')

  Ends-now :
      (fuel i size : ℕ) (m : Memory)
      → strlen room m 0 ≡ some size
      → size ≤ i
      → 0 < i
      → Ends (suc fuel) i m
  unfolding decode_loop
  Ends-now fuel i size m e le pos =
      let stop : ltb i size ≡ false = ground arith in (i, m, rw (e, stop) refl, pos)

  one_step :
      (fuel i : ℕ) (m : Memory)
      → Passed m n i
      → i < n
      → Ends fuel (i + byte m i + 1) (after (byte m i) i m)
      → Ends (suc fuel) i m
  unfolding decode_loop
  one_step fuel i m s more (i', m', run, pos) =
      let (p, q) = s.plain i (omega arith) more in
      let size : strlen room m 0 ≡ some n =
        strlen-of n room m 0 (λ j l. subst (λ x. byte m x ≢ 0) (omega arith) (nonzero_before s j l))
          (ap (byte m) (omega arith) ∙ s.end) (omega arith) in
      let z : 0 + i ≡ i = omega arith in
      let len : uint_of_char (byte m i) ≡ byte m i = ground arith in
      let z' : 0 + (i + byte m i) ≡ i + byte m i = omega arith in
      let go : ltb i n ≡ true = ground arith in
      let inside : ltb (i + byte m i) room ≡ true = ground arith in
      (i', m', rw (size, z, len, z', go, inside) run, pos)

  strlen-zero_at :
      (m : Memory) (k : ℕ)
      → ((j : ℕ) → j < k → byte m j ≢ 0)
      → byte m k ≡ 0
      → k < room
      → strlen room m 0 ≡ some k
  strlen-zero_at m k h z l =
      strlen-of k room m 0 (λ j u. subst (λ x. byte m x ≢ 0) (omega arith) (h j u))
        (ap (byte m) (omega arith) ∙ z) l

  -- The label of the last round ends behind the text.
  Ends-outside :
      (fuel i len : ℕ) (m : Memory)
      → Passed m n i
      → i < n
      → 0 < len
      → n ≤ i + len
      → 0 < fuel
      → Ends fuel (i + len + 1) (after len i m)
  Ends-outside zero i len m s more pos out enough = elim enough [ ]
  Ends-outside (suc fuel) i len m s more pos out enough =
      Ends-now fuel (i + len + 1) (n - 1) (after len i m)
        (strlen-zero_at (after len i m) (n - 1)
          (λ j l. nonzero_after m n i len s more j (omega arith) (omega arith))
          (zero_moved m n i len s more out pos) (omega arith))
        (omega arith) (omega arith)

  Passed-Ends : (fuel i : ℕ) (m : Memory) → 0 < n → Passed m n i → n + 1 < fuel + i → Ends fuel i m
  Passed-Ends zero i m pos s enough = let w = s.within in absurd (omega arith)
  Passed-Ends (suc fuel) i m pos s enough =
      let w = s.within in
      elim (dec_lt i n) [
        | no done ↦
            Ends-now fuel i n m
              (strlen-zero_at m n (λ j l. nonzero_before s j l) s.end (omega arith)) (omega arith)
              (omega arith)
        | yes more ↦
            let (a, b) = s.plain i (omega arith) more in
            one_step fuel i m s more (elim (dec_lt (i + byte m i) n) [
              | yes inside ↦
                  Passed-Ends fuel (i + byte m i + 1) (after (byte m i) i m) pos
                    (Passed-inside m n i (byte m i) s more inside) (omega arith)
              | no outside ↦ Ends-outside fuel i (byte m i) m s more a (omega arith) (omega arith)
            ])
      ]

-- Plain chars with a zero behind them, in a row with 128 chars to spare.
pub domain_decode-plain :
    (room n : ℕ) (m : Memory)
    → n + 128 ≤ room
    → 0 < n
    → ((j : ℕ) → j < n → (0 < byte m j) × (byte m j < 128))
    → byte m n ≡ 0
    → (m' : Memory) × (domain_decode room m 0 ≡ some m')
unfolding domain_decode
domain_decode-plain room n m fits pos plain z =
    let s : Passed m n 0 = record {
      within = omega arith;
      passed = λ j l. elim l [ ];
      plain = λ j a b. plain j b;
      end = z;
    } in
    let (i, m', run, p) = Passed-Ends room n fits (suc room) 0 m pos s (omega arith) in
    rw run (end_text-pos i m' p)
