-- ===== src/Buffer/Tests.antt =====
-- Tests of the model of swoole_buffer.cc, and instances of its theorems with a string that does what is
-- documented.
use async_ext.Prelude.{
  ℕ, ◌+◌, ◌-◌, ◌^◌, ◌<◌, ◌≤◌, ◌≡◌, inl, inr, refl, sym, true, false, ◌&&◌, Bool-cases, Option, none,
  some, List, [], ◌∷◌, length, take, drop, arith, ltb, leb, leb→le, not-leb→lt, if◌then◌else◌,
}
use async_ext.Prelude.Int.{pos, negsuc}
use async_ext.Str.{Str, memcpy}
use async_ext.Str.Holds.{IsText, memcpy-before, memcpy-behind}
use async_ext.Str.Patch.{chars, Holds-memcpy}
use async_ext.Buffer.{
  StringApi, Limits, Buffer, null, bool, long, string, overrun, construct, substr, read,
}
use async_ext.Buffer.Documented.{Documented, Appended, WrittenOver, Extended}
use async_ext.Buffer.Text.{
  Call, appends, takes, removes, shows, writes, reads, recycles, clears, Represents, run_buffer,
  run_text,
}
use async_ext.Buffer.Refine.{run_buffer-run_text}
use async_ext.Buffer.Faults.{collects, substr-removal, texts_outside}

-- A string with 2^62 bytes.
abbrev copy : Str → ℕ → List ℕ → Str
copy s o text = record {
  str = memcpy s.str o (chars text) 0 (length text);
  length = if leb s.length (o + length text) then o + length text else s.length;
  offset = s.offset;
  size = 2 ^ 62;
}

abbrev larger : Str → ℕ → Option Str
larger s n = if ltb n (2 ^ 63) && ltb s.size n then some (record s { size = n }) else none

abbrev api : StringApi
api = record {
  make = λ n. record { str = λ i. 0; length = 0; offset = 0; size = n };
  append = λ s text. some (copy s s.length text);
  write = λ s o text. copy s o text;
  extend = larger;
  reduce =
      λ s n. record { str = λ i. s.str (n + i); length = s.length - n; offset = 0; size = s.size };
}

copy-Appended :
    (s : Str) (text : List ℕ)
    → IsText text
    → s.length + length text < 2 ^ 62
    → Appended s text (copy s s.length text)
copy-Appended s text t l = elim (Bool-cases (leb s.length (s.length + length text))) [
  | inl more ↦ record {
    length_lem = rw more refl;
    offset = refl;
    room = rw more (omega arith);
    real = omega arith;
    behind = Holds-memcpy s.str s.length text t;
    same = λ i p. memcpy-before s.str (chars text) s.length 0 (length text) i p;
  }
  | inr less ↦ let h = not-leb→lt s.length (s.length + length text) less in absurd (omega arith)
]

copy-WrittenOver :
    (s : Str) (o : ℕ) (text : List ℕ)
    → IsText text
    → o ≤ s.length
    → s.length + length text < 2 ^ 62
    → WrittenOver s o text (copy s o text)
copy-WrittenOver s o text t l small = elim (Bool-cases (leb s.length (o + length text))) [
  | inl more ↦
      let h = leb→le s.length (o + length text) more in
      record {
        length_ge = rw more h;
        length_end = rw more (omega arith);
        length_lem = rw more (inr refl);
        offset = refl;
        room = rw more (omega arith);
        real = omega arith;
        there = Holds-memcpy s.str o text t;
        before = λ i p. memcpy-before s.str (chars text) o 0 (length text) i p;
        behind = λ i p q. memcpy-behind s.str (chars text) o 0 (length text) i p;
      }
  | inr less ↦
      let h = not-leb→lt s.length (o + length text) less in
      record {
        length_ge = rw less (omega arith);
        length_end = rw less (omega arith);
        length_lem = rw less (inl refl);
        offset = refl;
        room = rw less (omega arith);
        real = omega arith;
        there = Holds-memcpy s.str o text t;
        before = λ i p. memcpy-before s.str (chars text) o 0 (length text) i p;
        behind = λ i p q. memcpy-behind s.str (chars text) o 0 (length text) i p;
      }
]

larger-Extended : (s t : Str) (n : ℕ) → s.size < n → larger s n ≡ some t → Extended s t
larger-Extended s t n l e = elim (Bool-cases (ltb n (2 ^ 63) && ltb s.size n)) [
  | inl given ↦
      let e' : some (record s { size = n }) ≡ some t = rw given at e in
      let e'' : record s { size = n } ≡ t = cc in
      let small : n < 2 ^ 63 = ground arith in
      rw (sym e'') (record {
        length_lem = refl;
        offset = refl;
        room = omega arith;
        real = small;
        same = λ i p. refl;
      })
  | inr refused ↦ let e' : none ≡ some t = rw refused at e in cc
]

api-Documented : Documented api
api-Documented = record {
  made = λ n l. (record { whole = refl; room = omega arith; real = omega arith; holds = tt }, refl);
  append = λ s text t l. (copy s s.length text, refl, copy-Appended s text t l);
  write = copy-WrittenOver;
  extend = larger-Extended;
  reduce = λ s n l. record { length_lem = refl; offset = refl; size = refl; moved = λ i p. refl };
}

abbrev lim : Limits
lim = record { maxlen = 1000; garbage_min = 2; garbage_ratio = 2 ^ 62 }

abbrev new : Buffer
new = record { ptr = none; capacity = pos 0; length = pos 0 }

-- "abcdef", without its first two chars, and then with others in the place of the last two.
abbrev calls : List Call
calls =
    appends (97 ∷ 98 ∷ 99 ∷ 100 ∷ 101 ∷ 102 ∷ [])
    ∷ removes 2
    ∷ writes (negsuc 1) (88 ∷ 89 ∷ 90 ∷ [])
    ∷ recycles
    ∷ takes 1 (negsuc 0)
    ∷ reads (pos 3) 9
    ∷ shows
    ∷ clears
    ∷ []

text_answers :
    run_text [] calls
    ≡ (long (pos 6), pos 6)
      ∷ (null, pos 4)
      ∷ (long (pos 5), pos 5)
      ∷ (null, pos 5)
      ∷ (string (100 ∷ 88 ∷ 89 ∷ 90 ∷ []), pos 5)
      ∷ (bool false, pos 5)
      ∷ (string (99 ∷ 100 ∷ 88 ∷ 89 ∷ 90 ∷ []), pos 5)
      ∷ (null, pos 0)
      ∷ []
unfolding run_text
text_answers = refl

run_buffer-run_text_example :
    ((construct api lim (pos 16) new).0 ≡ null)
    × (run_buffer api lim (construct api lim (pos 16) new).1 calls ≡ run_text [] calls)
run_buffer-run_text_example =
    run_buffer-run_text api lim api-Documented (omega arith) new 16 calls refl (omega arith)
      (omega arith) (omega arith) (omega arith)

-- A string of 12 chars of which the first two have been removed.
abbrev twelve : Str
twelve = record { str = λ i. 65 + i; length = 12; offset = 2; size = 16 }

abbrev ten : List ℕ
ten = 67 ∷ 68 ∷ 69 ∷ 70 ∷ 71 ∷ 72 ∷ 73 ∷ 74 ∷ 75 ∷ 76 ∷ []

abbrev used_buffer : Buffer
used_buffer = record { ptr = some twelve; capacity = pos 16; length = pos 10 }

abbrev used_buffer-Represents : Represents used_buffer 12 ten
used_buffer-Represents = record {
  string = twelve;
  here = refl;
  contents = record {
    whole = refl;
    room = omega arith;
    real = omega arith;
    holds = (refl, (refl, (refl, (refl, (refl, (refl, (refl, (refl, (refl, (refl, tt))))))))));
  };
  bound = omega arith;
  property = refl;
}

-- The text that is removed begins with 67, the one that is answered with 71.
substr-removal_example :
    (substr api lim (pos 0) (pos 2) true used_buffer).0
    ≡ string (if collects lim twelve 2 then take 2 (drop (2 + 2) ten) else take 2 ten)
substr-removal_example =
    substr-removal api lim api-Documented used_buffer 12 ten 2 used_buffer-Represents (omega arith)
      (omega arith) (omega arith)

texts_outside_example :
    (substr api lim (negsuc 20) (negsuc 0) false used_buffer ≡ (overrun, used_buffer))
    × (read (pos 3) (negsuc 0) used_buffer ≡ (overrun, used_buffer))
texts_outside_example =
    texts_outside api lim used_buffer 12 ten 3 20 0 used_buffer-Represents (omega arith)
      (omega arith) (omega arith) (omega arith)
