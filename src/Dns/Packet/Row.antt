-- ===== src/Dns/Packet/Row.antt =====
-- The loops of swDNSResolver_onReceive of swoole_async.cc over a name: a text behind a pointer.
use async_ext.Prelude.{
  ℕ, zero, suc, ◌+◌, ◌-◌, ◌<◌, ◌≤◌, ◌≡◌, inl, refl, sym, ap, subst, ◌∙◌, true, false, some, List,
  [], ◌∷◌, ◌++◌, length, arith, ltb, leb, lt→ltb, lt→not-leb, ◌==◌,
}
use native.Mathlib.Decide.{dec_lt}
use async_ext.Str.{Memory, byte, store}
use async_ext.Str.Holds.{Holds, byte-store_ne, byte-store_self}
use async_ext.Dns.Name.{domain_decode}
use async_ext.Dns.Name.Harmless.{domain_decode-plain}
use async_ext.Dns.Packet.{row_size, read_name, end_row, name_row}

abbrev pub IsPlainText : List ℕ → Type 0
IsPlainText [] = Unit {0}
IsPlainText (c ∷ cs) = (0 < c) × (c < 128) × IsPlainText cs

-- A row that has got the chars from `temp` on, as many as `n`, behind the `j` it had.
record Copied (m : Memory) (temp j n : ℕ) (row row' : Memory) : Type 0 where
  got : (i : ℕ) → i < n → byte row' (j + i) ≡ byte m (temp + i)
  kept : (i : ℕ) → i < j → byte row' i ≡ byte row i

Copied-char :
    (m : Memory) (temp j n : ℕ) (row row' : Memory)
    → Copied m (temp + 1) (j + 1) n (store row j (byte m temp)) row'
    → Copied m temp j (suc n) row row'
Copied-char m temp j n row row' c =
    let row1 = store row j (byte m temp) in
    record {
      got = λ i l. elim (dec_lt 0 i) [
        | yes later ↦
            ap (byte row') {x = j + i} {y = j + 1 + (i - 1)} (omega arith)
            ∙ c.got (i - 1) (omega arith)
            ∙ ap (byte m) (omega arith)
        | no first ↦
            ap (byte row') {x = j + i} {y = j} (omega arith)
            ∙ c.kept j (omega arith)
            ∙ byte-store_self row j (byte m temp)
            ∙ omega arith
            ∙ ap (byte m) {x = temp} {y = temp + i} (omega arith)
      ];
      kept = λ i l. c.kept i (omega arith) ∙ byte-store_ne row j (byte m temp) i (inl l);
    }

read_name-text :
    (fuel size : ℕ) (m : Memory) (temp j : ℕ) (row : Memory) (text : List ℕ)
    → IsPlainText text
    → Holds m temp (text ++ (0 ∷ []))
    → temp + length text < size
    → j + length text ≤ row_size
    → length text < fuel
    → (row' : Memory) × (read_name fuel size m temp j row ≡ some (j + length text, row'))
      × Copied m temp j (length text) row row'
unfolding read_name
read_name-text zero size m temp j row text t h fits room enough = elim enough [ ]
read_name-text (suc fuel) size m temp j row [] t h fits room enough =
    let inside : leb size temp ≡ false = ground arith in
    let stop : (byte m temp == 0) ≡ true = ground (arith, h.0) in
    (
      row,
      rw (inside, stop) (ap (λ x. some (x, row)) {x = j} {y = j + 0} (omega arith)),
      record { got = λ i l. elim l [ ]; kept = λ i l. refl },
    )
read_name-text (suc fuel) size m temp j row (c ∷ cs) (pos, small, t) h fits room enough =
    let (row', run, copied) =
      read_name-text fuel size m (temp + 1) (j + 1) (store row j (byte m temp)) cs t h.1
        (omega arith) (omega arith) (omega arith) in
    let inside : leb size temp ≡ false = ground arith in
    let go : (byte m temp == 0) ≡ false = ground (arith, h.0) in
    let no_jump : (byte m temp == 192) ≡ false = ground (arith, h.0) in
    let place : ltb j 254 ≡ true = ground arith in
    (
      row',
      rw (inside, go, no_jump, place)
          (run
            ∙ ap (λ x. some (x, row')) {x = j + 1 + length cs} {y = j + suc (length cs)}
                (omega arith)),
      Copied-char m temp j (length cs) row row' copied,
    )

plain_at :
    (m : Memory) (k : ℕ) (text rest : List ℕ)
    → IsPlainText text
    → Holds m k (text ++ rest)
    → (i : ℕ) → i < length text
    → (0 < byte m (k + i)) × (byte m (k + i) < 128)
plain_at m k [] rest t h i l = elim l [ ]
plain_at m k (c ∷ cs) rest (pos, small, t) h zero l =
    omega (arith, ap (byte m) {x = k + 0} {y = k} (omega arith), h.0)
plain_at m k (c ∷ cs) rest (pos, small, t) h (suc i) l =
    subst (λ j. (0 < byte m j) × (byte m j < 128)) (omega arith)
      (plain_at m (k + 1) cs rest t h.1 i (omega arith))

name_row-some :
    (fuel size : ℕ) (stack m : Memory) (temp n : ℕ) (row done : Memory)
    → read_name fuel size m temp 0 stack ≡ some (n, row)
    → n < 254
    → domain_decode row_size (store row n 0) 0 ≡ some done
    → name_row fuel size stack m temp ≡ some done
unfolding name_row end_row
name_row-some fuel size stack m temp n row done read fits decoded =
    rw (read, lt→ltb n 254 fits) decoded

read_name-jump :
    (fuel size : ℕ) (m : Memory) (temp k j : ℕ) (row : Memory)
    → byte m temp ≡ 0xc0
    → byte m (temp + 1) ≡ k
    → temp + 1 < size
    → read_name (suc fuel) size m temp j row ≡ read_name fuel size m k j row
unfolding read_name
read_name-jump fuel size m temp k j row c0 ptr inside =
    let a : leb size temp ≡ false = lt→not-leb size temp (omega arith) in
    let d = lt→ltb (temp + 1) size inside in rw (a, c0, d, ptr) refl

-- A pointer to a text that was decoded before.
pub name_row-pointer :
    (fuel size : ℕ) (stack m : Memory) (temp k : ℕ) (text : List ℕ)
    → byte m temp ≡ 0xc0
    → byte m (temp + 1) ≡ k
    → temp + 1 < size
    → IsPlainText text
    → Holds m k (text ++ (0 ∷ []))
    → 0 < length text
    → length text ≤ 125
    → k + length text < size
    → length text < fuel
    → (row : Memory) × (name_row (suc fuel) size stack m temp ≡ some row)
name_row-pointer fuel size stack m temp k text c0 ptr inside t h pos small fits enough =
    let n = length text in
    let (row, run, copied) =
      read_name-text fuel size m k 0 stack text t h fits (omega arith) enough in
    let row' = store row n 0 in
    let (done, decoded) =
      domain_decode-plain 254 n row' (omega arith) pos
        (λ j l.
          subst (λ v. (0 < v) × (v < 128))
            (sym (
              byte-store_ne row n 0 j (inl l)
              ∙ ap (byte row) {x = j} {y = 0 + j} (omega arith)
              ∙ copied.got j l))
            (plain_at m k text (0 ∷ []) t h j l))
        (byte-store_self row n 0) in
    let read = read_name-jump fuel size m temp k 0 stack c0 ptr inside ∙ run in
    (
      done,
      name_row-some (suc fuel) size stack m temp n row done
          (read ∙ ap (λ x. some (x, row)) {x = 0 + n} {y = n} (omega arith)) (omega arith) decoded,
    )
