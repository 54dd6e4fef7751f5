-- ===== src/Mmap/Cursor.antt =====
-- Reading and writing the stream of swoole_mmap.cc, against a file of a fixed size with a cursor in it.
use async_ext.Prelude.{
  ℕ, ◌+◌, ◌-◌, ◌≡◌, inl, inr, min, refl, sym, ap, subst, ◌∙◌, Bool-cases, Option, none, some, List,
  ◌++◌, append_assoc, length, length-append, length-take, length-drop, take, drop, take-append-drop,
  take-ge, ==_iff, get_or, arith, leb, ◌==◌, if◌then◌else◌,
}
use native.Mathlib.Decide.{dec_lt}
use async_ext.Prelude.Int.{ℤ, pos, negsuc, ◌+ℤ◌}
use async_ext.Str.{Memory, slice, memcpy}
use async_ext.Str.Holds.{
  IsText, Holds, Holds-append, Holds-concat, Holds-copy, Holds-ext, Holds-get_or, memcpy-byte,
  memcpy-before, memcpy-behind, slice-Holds,
}
use async_ext.Mmap.{MmapFile, Whence, set, cur, end, other, stream_write, stream_read}

-- The file: what stands before the cursor, and what stands behind it.
pub record Cursor : Type 0 where
  pub before : List ℕ
  pub behind : List ℕ

abbrev pub write : Cursor → List ℕ → ℕ × Cursor
write c text =
    let n = min (length c.behind) (length text) in
    (n, record { before = c.before ++ take n text; behind = drop n c.behind })

abbrev pub read : Cursor → ℕ → List ℕ × Cursor
read c n =
    (take n c.behind, record { before = c.before ++ take n c.behind; behind = drop n c.behind })

-- Where a seek goes.
abbrev pub target : Cursor → ℤ → Whence → Option ℤ
target c offset set = some offset
target c offset cur = some (pos (length c.before) +ℤ offset)
target c offset end = some (pos (length (c.before ++ c.behind)) +ℤ offset)
target c offset other = none

-- A seek to a place in the file or at its end; any other is refused.
abbrev pub move : Cursor → Option ℤ → Option ℕ × Cursor
move c none = (none, c)
move c (some (negsuc n)) = (none, c)
move c (some (pos n)) =
    let all = c.before ++ c.behind in
    if leb n (length all)
    then (some n, record { before = take n all; behind = drop n all })
    else (none, c)

-- The mapping holds the file, and its pointer is at the cursor.
pub record Represents (f : MmapFile) (c : Cursor) : Type 0 where
  pub holds : Holds f.memory 0 (c.before ++ c.behind)
  pub full : f.size ≡ length c.before + length c.behind
  pub at : f.ptr ≡ length c.before

take-min : (n : ℕ) (xs : List ℕ) → take (min (length xs) n) xs ≡ take n xs
take-min n xs = elim (dec_lt n (length xs)) [
  | yes inside ↦ ap (λ k. take k xs) (omega arith)
  | no outside ↦ take-ge (min (length xs) n) xs (omega arith) ∙ sym (take-ge n xs (omega arith))
]

-- The cursor moves over some of what stands behind it.
Represents-pass :
    (f : MmapFile) (c : Cursor) (n k : ℕ)
    → Represents f c
    → k ≡ min (length c.behind) n
    → Represents
        (record f { ptr = f.ptr + k })
        (record { before = c.before ++ take n c.behind; behind = drop n c.behind })
Represents-pass f c n k r e =
    let a = r.full in
    let b = r.at in
    record {
      holds =
          subst (Holds f.memory 0)
            (sym (
              append_assoc c.before (take n c.behind) (drop n c.behind)
              ∙ ap (λ x. c.before ++ x) (take-append-drop n c.behind)))
            r.holds;
      full = omega (
        arith,
        length-append c.before (take n c.behind),
        length-take n c.behind,
        length-drop n c.behind,
      );
      at = omega (arith, length-append c.before (take n c.behind), length-take n c.behind);
    }

stream_read_lem :
    (f : MmapFile) (n : ℕ)
    → let k = min (f.size - f.ptr) n in
      stream_read f n ≡ (slice f.memory f.ptr k, record f { ptr = f.ptr + k })
unfolding stream_read
stream_read_lem f n =
    let k = min (f.size - f.ptr) n in
    elim (Bool-cases (k == 0)) [
      | inl none_left ↦
          let e : k ≡ 0 = (==_iff k 0).0 none_left in
          let e' : f.ptr + 0 ≡ f.ptr = omega arith in rw e (rw e' refl)
      | inr more ↦ rw more refl
    ]

pub stream_read-read :
    (f : MmapFile) (c : Cursor) (n : ℕ)
    → Represents f c
    → ((stream_read f n).0 ≡ (read c n).0) × Represents (stream_read f n).1 (read c n).1
stream_read-read f c n r =
    let a = r.full in
    let b = r.at in
    let k = min (f.size - f.ptr) n in
    let e : k ≡ min (length c.behind) n = omega arith in
    let (h0, h1) = Holds-append f.memory 0 c.before c.behind r.holds in
    let (h2, h3) =
      Holds-append f.memory (0 + length c.before) (take n c.behind) (drop n c.behind)
        (subst (Holds f.memory (0 + length c.before)) (sym (take-append-drop n c.behind)) h1) in
    let got : slice f.memory f.ptr k ≡ take n c.behind =
      ap (λ j. slice f.memory j k) {x = f.ptr} {y = 0 + length c.before} (omega arith)
      ∙ ap (slice f.memory (0 + length c.before)) {x = k} {y = length (take n c.behind)}
          (omega (arith, length-take n c.behind))
      ∙ slice-Holds f.memory (0 + length c.before) (take n c.behind) h2 in
    subst (λ x. (x.0 ≡ take n c.behind) × Represents x.1 (read c n).1) (sym (stream_read_lem f n))
      (got, Represents-pass f c n k r e)

stream_write_lem :
    (f : MmapFile) (text : List ℕ)
    → let k = min (f.size - f.ptr) (length text) in
      stream_write f text
      ≡ (k, record f { memory = memcpy f.memory f.ptr (λ i. get_or text i 0) 0 k; ptr = f.ptr + k })
unfolding stream_write memcpy
stream_write_lem f text =
    let k = min (f.size - f.ptr) (length text) in
    elim (Bool-cases (k == 0)) [
      | inl none_left ↦
          let e : k ≡ 0 = (==_iff k 0).0 none_left in
          let e' : f.ptr + 0 ≡ f.ptr = omega arith in rw e (rw e' refl)
      | inr more ↦ rw more refl
    ]

-- A text that is copied into the middle of what the memory holds.
Holds-memcpy :
    (m : Memory) (xs ys text : List ℕ) (k : ℕ)
    → IsText text
    → Holds m 0 (xs ++ ys)
    → k ≡ min (length ys) (length text)
    → Holds (memcpy m (length xs) (λ i. get_or text i 0) 0 k) 0 ((xs ++ take k text) ++ drop k ys)
Holds-memcpy m xs ys text k t h e =
    let src = λ (i : ℕ). get_or text i 0 in
    let p = length xs in
    let m' = memcpy m p src 0 k in
    let n : length (take k text) ≡ k = omega (arith, length-take k text) in
    let n' : length (take k ys) ≡ k = omega (arith, length-take k ys) in
    let (h0, h1) = Holds-append m 0 xs ys h in
    let (h2, h3) =
      Holds-append m (0 + p) (take k ys) (drop k ys)
        (subst (Holds m (0 + p)) (sym (take-append-drop k ys)) h1) in
    let from = Holds-append src 0 (take k text) (drop k text) (
      subst (Holds src 0) (sym (take-append-drop k text))
        (Holds-get_or src 0 text t (λ i l. ap src (omega arith)))) in
    let front = Holds-ext m m' 0 xs (λ i a b. memcpy-before m src p 0 k i (omega arith)) h0 in
    let middle =
      Holds-copy src m' 0 p (take k text) (λ i l. memcpy-byte m src p 0 k i (omega arith)) from.0 in
    let rest =
      Holds-ext m m' (0 + p + length (take k ys)) (drop k ys)
        (λ i a b. memcpy-behind m src p 0 k i (omega arith)) h3 in
    Holds-concat m' 0 (xs ++ take k text) (drop k ys)
      (Holds-concat m' 0 xs (take k text) front
        (subst (λ j. Holds m' j (take k text)) {x = p} {y = 0 + p} (omega arith) middle))
      (subst (λ j. Holds m' j (drop k ys)) (omega (arith, length-append xs (take k text))) rest)

pub stream_write-write :
    (f : MmapFile) (c : Cursor) (text : List ℕ)
    → IsText text
    → Represents f c
    → ((stream_write f text).0 ≡ (write c text).0)
      × Represents (stream_write f text).1 (write c text).1
stream_write-write f c text t r =
    let a = r.full in
    let b = r.at in
    let k = min (f.size - f.ptr) (length text) in
    let n = min (length c.behind) (length text) in
    let e : n ≡ k = omega arith in
    let src = λ (i : ℕ). get_or text i 0 in
    let held =
      subst
        (λ p. Holds (memcpy f.memory p src 0 n) 0 ((c.before ++ take n text) ++ drop n c.behind))
        (sym b) (Holds-memcpy f.memory c.before c.behind text n t r.holds refl) in
    let f' : MmapFile = record f { memory = memcpy f.memory f.ptr src 0 n; ptr = f.ptr + n } in
    let same : stream_write f text ≡ (n, f') =
      stream_write_lem f text
      ∙ ap (λ j. (j, record f { memory = memcpy f.memory f.ptr src 0 j; ptr = f.ptr + j }))
          (sym e) in
    subst (λ x. (x.0 ≡ n) × Represents x.1 (write c text).1) (sym same)
      (
        refl,
        record {
          holds = held;
          full = omega (
            arith,
            length-append c.before (take n text),
            length-take n text,
            length-drop n c.behind,
          );
          at = omega (arith, length-append c.before (take n text), length-take n text);
        },
      )
