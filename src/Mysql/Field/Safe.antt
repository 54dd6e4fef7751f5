-- ===== src/Mysql/Field/Safe.antt =====
-- Memory safety of mysql_decode_field: when its copies stay within the packet and the buffer.
use async_ext.Prelude.{
  ℕ, ◌+◌, ◌-◌, ◌^◌, ◌<◌, ◌≤◌, ◌≡◌, Option, none, some, List, arith, ltb, Bool-cases, inl, inr, ap,
  ap₂, ◌∙◌, suc, ◌≢◌, ◌%◌, ◌||◌,
}
use async_ext.Mysql.Wire.{Memory, Coded, length_coded_binary}
use async_ext.Mysql.Wire.Lcb.{length_coded_binary_bounds, width_of_large}
use async_ext.Mysql.Field.{
  Result, ok, failed, overrun, ◌>>=◌, Cursor, Field, copy, take_string, read_string, read_names,
  read_default, read_numbers, Names, decode_field,
}

-- Where the lengths of a packet stand: those of its six names, one behind another, the numbers, and
-- behind these the length of the default value.
pub data LengthAt (m : Memory) (k len : ℕ) : ℕ → ℕ → Type 0 where
  first : LengthAt m k len 0 0
  behind :
      {n pos : ℕ} (c : Coded)
      → LengthAt m k len n pos
      → n < 6
      → length_coded_binary m (k + pos) (len - pos) ≡ some c
      → LengthAt m k len (suc n) (pos + c.width + c.value)
  default : {pos : ℕ} → LengthAt m k len 6 pos → LengthAt m k len 7 (pos + 13)

-- No length of the packet is so large that adding it to an index wraps round.
abbrev pub Moderate : Memory → ℕ → ℕ → Type 0
Moderate m k len =
    (n pos : ℕ) (c : Coded)
    → LengthAt m k len n pos
    → n ≢ 6
    → length_coded_binary m (k + pos) (len - pos) ≡ some c
    → c.value < 2 ^ 63

-- The buffer is never ahead of the packet, and the packet's end is not passed.
abbrev pub Within : ℕ → Cursor → Type 0
Within len c = (c.out ≤ c.pos) × (c.pos ≤ len)

-- A result that is no overrun, and holds what is asked where it is a value.
abbrev pub Ensures : {A : Type 0} → (A → Type 0) → Result A → Type 0
Ensures P (ok a) = P a
Ensures P (failed e) = Unit {0}
Ensures P overrun = ⊥

Ensures-bind :
    {A B : Type 0} (P : A → Type 0) (Q : B → Type 0) (r : Result A) (f : A → Result B)
    → Ensures P r
    → ((a : A) → P a → Ensures Q (f a))
    → Ensures Q (r >>= f)
Ensures-bind P Q (ok a) f h k = k a h
Ensures-bind P Q (failed e) f h k = tt
Ensures-bind P Q overrun f h k = h

Ensures-both :
    {A : Type 0} (P Q : A → Type 0) (r : Result A)
    → Ensures P r
    → Ensures Q r
    → Ensures (λ a. P a × Q a) r
Ensures-both P Q (ok a) p q = (p, q)
Ensures-both P Q (failed e) p q = tt
Ensures-both P Q overrun p q = p

-- The cursor behind a string: further on, and still within the packet.
abbrev pub Read : {A : Type 0} → ℕ → ℕ → A × Cursor → Type 0
Read len low (a, c) = Within len c × (low < c.out)

module _ (m : Memory) (k len : ℕ) (small : len < 2 ^ 24) (h : Moderate m k len) where
  -- The cursor is, besides, where the next length stands.
  abbrev At : {A : Type 0} → ℕ → ℕ → A × Cursor → Type 0
  At n low r = Read len low r × LengthAt m k len n (r.1).pos

  take_string-Safe :
      (n : ℕ) (c : Cursor) (o : Option Coded)
      → Within len c
      → LengthAt m k len n c.pos
      → n ≢ 6
      → length_coded_binary m (k + c.pos) (len - c.pos) ≡ o
      → Ensures (Read len c.out) (take_string m k len c o)
  unfolding take_string copy
  take_string-Safe n c none w at d e = tt
  take_string-Safe n c (some r) w at d e =
      ground (arith, h n c.pos r at d e, length_coded_binary_bounds m (k + c.pos) (len - c.pos) e)

  take_string-LengthAt :
      (n : ℕ) (c : Cursor) (o : Option Coded)
      → Within len c
      → LengthAt m k len n c.pos
      → n < 6
      → length_coded_binary m (k + c.pos) (len - c.pos) ≡ o
      → Ensures (λ r. LengthAt m k len (suc n) (r.1).pos) (take_string m k len c o)
  unfolding take_string copy
  take_string-LengthAt n c none w at l e = tt
  take_string-LengthAt n c (some r) w at l e =
      let i = c.pos + r.width in
      let safe = take_string-Safe n c (some r) w at (omega arith) e in
      elim (Bool-cases (ltb len ((i + r.value) % 2 ^ 64))) [
        | inl f ↦ rw f tt
        | inr f ↦ elim (Bool-cases (ltb len (i + r.value) || ltb len (c.out + r.value + 1))) [
          | inl g ↦ absurd (rw (f, g) at safe)
          | inr g ↦ rw (f, g) (behind r at l e)
        ]
      ]

  read_string-Safe :
      (n : ℕ) (c : Cursor)
      → Within len c
      → LengthAt m k len n c.pos
      → n ≢ 6
      → Ensures (Read len c.out) (read_string m k len c)
  unfolding read_string
  read_string-Safe n c w at d =
      take_string-Safe n c _ w at d (ap (length_coded_binary m (k + c.pos)) (omega arith))

  read_string-At :
      (n : ℕ) (c : Cursor)
      → Within len c
      → LengthAt m k len n c.pos
      → n < 6
      → Ensures (At (suc n) c.out) (read_string m k len c)
  unfolding read_string
  read_string-At n c w at l =
      Ensures-both (Read len c.out) (λ r. LengthAt m k len (suc n) (r.1).pos)
        (read_string m k len c) (read_string-Safe n c w at (omega arith))
        (take_string-LengthAt n c _ w at l (ap (length_coded_binary m (k + c.pos)) (omega arith)))

  -- The next name, wherever the one before it ended.
  next :
      {B : Type 0} (Q : B → Type 0) (n : ℕ) (f : List ℕ × Cursor → Result B) (a : List ℕ × Cursor)
      → n < 6
      → At n 0 a
      → ((a : List ℕ × Cursor) → At (suc n) 0 a → Ensures Q (f a))
      → Ensures Q (read_string m k len (a.1) >>= f)
  next Q n f a l w k' =
      Ensures-bind (At (suc n) ((a.1).out)) Q (read_string m k len (a.1)) f
        (read_string-At n (a.1) w.0.0 w.1 l)
        (λ a' r. k' a' ((r.0.0, omega (arith, r.0.1, w.0.1)), r.1))

  read_names-Safe : Ensures (At 6 0) (read_names m k len)
  unfolding read_names
  read_names-Safe =
      let Q : Names × Cursor → Type 0 = At 6 0 in
      Ensures-bind (At 1 0) Q _ _
        (read_string-At 0 (record { pos = 0; out = 0 }) (omega arith) first (omega arith))
        λ (a₁ : List ℕ × Cursor) w₁. next Q 1 _ a₁ (omega arith) w₁ λ a₂ w₂.
          next Q 2 _ a₂ (omega arith) w₂ λ a₃ w₃. next Q 3 _ a₃ (omega arith) w₃ λ a₄ w₄.
            next Q 4 _ a₄ (omega arith) w₄ λ a₅ w₅. next Q 5 _ a₅ (omega arith) w₅ λ a₆ w₆. w₆

  read_default-Safe :
      (c : Cursor) (low : ℕ)
      → Within len c
      → LengthAt m k len 7 c.pos
      → low < c.out
      → Ensures (Read len low) (read_default m k len c)
  unfolding read_default
  read_default-Safe c low w at l = elim (Bool-cases (ltb c.pos len)) [
    | inl e ↦ rw e (
        Ensures-bind (Read len c.out) (Read len low) (read_string m k len c) _
          (read_string-Safe 7 c w at (omega arith)) λ a r. (r.0, omega (arith, r.1)))
    | inr e ↦ rw e (w, l)
  ]

  read_numbers-Safe :
      (a : Names × Cursor)
      → At 6 0 a
      → Ensures (λ r. (0 < r.1) × (r.1 ≤ len)) (read_numbers m k len a)
  unfolding read_numbers
  read_numbers-Safe (names, c) w = elim (Bool-cases (ltb len (c.pos + 13))) [
    | inl e ↦ rw e tt
    | inr e ↦
        let l = w.0.1 in
        let x = w.0.0 in
        rw e (
          Ensures-bind (Read len 0) _ _ _
            (read_default-Safe (record c { pos = c.pos + 13 }) 0 (ground arith) (default w.1) w.0.1)
            λ d r. (r.1, omega (arith, r.0)))
  ]

  -- For a packet of less than 2^24 bytes in which none of the lengths, which stand one behind
  -- another and behind the numbers, is 2^63 or more, no copy of mysql_decode_field leaves the
  -- packet or the buffer of the packet's size, and a value that it returns is positive and at most
  -- that size.
  pub decode_field-Safe :
      Ensures (λ (r : Field × ℕ). (0 < r.1) × (r.1 ≤ len)) (decode_field m k len)
  unfolding decode_field
  decode_field-Safe =
      Ensures-bind (At 6 0) _ (read_names m k len) _ read_names-Safe read_numbers-Safe

overrun_taken :
    (m : Memory) (k len : ℕ) (c : Coded)
    → len < 2 ^ 24
    → c.width ≡ 9
    → c.width ≤ len
    → 2 ^ 64 - 9 ≤ c.value
    → c.value < 2 ^ 64
    → take_string m k len (record { pos = 0; out = 0 }) (some c) ≡ overrun
unfolding take_string copy
overrun_taken m k len c small w l big top = ground arith

first_overrun :
    (m : Memory) (k len : ℕ) (c : Coded)
    → len < 2 ^ 24
    → length_coded_binary m k len ≡ some c
    → 2 ^ 64 - 9 ≤ c.value
    → read_string m k len (record { pos = 0; out = 0 }) ≡ overrun
unfolding read_string
first_overrun m k len c small e big =
    let b = length_coded_binary_bounds m k len e in
    ap (take_string m k len _) (ap₂ (length_coded_binary m) (omega arith) (omega arith) ∙ e)
    ∙ overrun_taken m k len c small (width_of_large m k len e (omega arith)) b.1 big b.3

-- If the first length of a packet of less than 2^24 bytes is 2^64 - 9 or more, the first copy of
-- mysql_decode_field leaves the packet.
pub decode_field-overrun :
    (m : Memory) (k len : ℕ) (c : Coded)
    → len < 2 ^ 24
    → length_coded_binary m k len ≡ some c
    → 2 ^ 64 - 9 ≤ c.value
    → decode_field m k len ≡ overrun
unfolding decode_field read_names
decode_field-overrun m k len c small e big = rw (first_overrun m k len c small e big)
