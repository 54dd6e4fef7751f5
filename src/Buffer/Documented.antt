-- ===== src/Buffer/Documented.antt =====
-- What the core documents of the methods of swString that swoole_buffer.cc calls, and the contents of
-- the memory after each.
use async_ext.Prelude.{
  ℕ, ◌+◌, ◌-◌, ◌^◌, ◌<◌, ◌≤◌, ◌≡◌, ◌⊎◌, inl, inr, sym, ap, subst, ◌∙◌, some, List, [], ◌++◌, length,
  length-append, length-take, length-drop, take, drop, arith,
}
use async_ext.Str.{Str, byte}
use async_ext.Str.Holds.{IsText, Holds, Holds-ext, Holds-concat, Holds-copy}
use async_ext.Str.Patch.{patch, Holds-over, Holds-drop}
use async_ext.Buffer.{StringApi}

-- The bytes before a place are those of another string.
abbrev pub SameBelow : ℕ → Str → Str → Type 0
SameBelow n s t = (i : ℕ) → i < n → byte t.str i ≡ byte s.str i

-- No memory has 2^63 bytes.
-- `append` puts a text behind the old one, and grows if need be.
pub record Appended (s : Str) (text : List ℕ) (t : Str) : Type 0 where
  pub length_lem : t.length ≡ s.length + length text
  pub offset : t.offset ≡ s.offset
  pub room : t.length ≤ t.size
  pub real : t.size < 2 ^ 63
  pub behind : Holds t.str s.length text
  pub same : SameBelow s.length s t

-- `write` puts a text over the old one from a place in it on, and grows if need be.
pub record WrittenOver (s : Str) (o : ℕ) (text : List ℕ) (t : Str) : Type 0 where
  pub length_ge : s.length ≤ t.length
  pub length_end : o + length text ≤ t.length
  pub length_lem : (t.length ≡ s.length) ⊎ (t.length ≡ o + length text)
  pub offset : t.offset ≡ s.offset
  pub room : t.length ≤ t.size
  pub real : t.size < 2 ^ 63
  pub there : Holds t.str o text
  pub before : SameBelow o s t
  pub behind : (i : ℕ) → o + length text ≤ i → i < s.length → byte t.str i ≡ byte s.str i

-- `extend` makes room and changes nothing.
pub record Extended (s t : Str) : Type 0 where
  pub length_lem : t.length ≡ s.length
  pub offset : t.offset ≡ s.offset
  pub room : s.size ≤ t.size
  pub real : t.size < 2 ^ 63
  pub same : SameBelow s.length s t

-- `reduce` drops chars from the front and starts at 0.
pub record Reduced (s : Str) (n : ℕ) (t : Str) : Type 0 where
  pub length_lem : t.length ≡ s.length - n
  pub offset : t.offset ≡ 0
  pub size : t.size ≡ s.size
  pub moved : (i : ℕ) → n + i < s.length → byte t.str i ≡ byte s.str (n + i)

-- The contents of a string, from its offset on.
pub record Contains (s : Str) (c : List ℕ) : Type 0 where
  pub whole : s.length ≡ s.offset + length c
  pub room : s.length ≤ s.size
  pub real : s.size < 2 ^ 63
  pub holds : Holds s.str s.offset c

-- There is memory for a text below 2^62 chars.
pub record Documented (api : StringApi) : Type 0 where
  pub made : (n : ℕ) → n < 2 ^ 62 → Contains (api.make n) [] × ((api.make n).length ≡ 0)
  pub append :
      (s : Str) (text : List ℕ)
      → IsText text
      → s.length + length text < 2 ^ 62
      → (t : Str) × (api.append s text ≡ some t) × Appended s text t
  pub write :
      (s : Str) (o : ℕ) (text : List ℕ)
      → IsText text
      → o ≤ s.length
      → s.length + length text < 2 ^ 62
      → WrittenOver s o text (api.write s o text)
  pub extend : (s t : Str) (n : ℕ) → s.size < n → api.extend s n ≡ some t → Extended s t
  pub reduce : (s : Str) (n : ℕ) → n ≤ s.length → Reduced s n (api.reduce s n)

pub Contains-append :
    (s t : Str) (c text : List ℕ) → Contains s c → Appended s text t → Contains t (c ++ text)
Contains-append s t c text r a =
    let w = r.whole in
    let l = a.length_lem in
    let o = a.offset in
    let front = Holds-ext s.str t.str s.offset c (λ i p q. a.same i (omega arith)) r.holds in
    record {
      whole = omega (arith, length-append c text);
      room = a.room;
      real = a.real;
      holds =
          subst (λ j. Holds t.str j (c ++ text)) (sym a.offset)
            (Holds-concat t.str s.offset c text front (subst (λ j. Holds t.str j text) w a.behind));
    }

length-patch_cases :
    (c : List ℕ) (k : ℕ) (text : List ℕ)
    → k ≤ length c
    → ((length (patch c k text) ≡ length c) × (k + length text ≤ length c))
      ⊎ ((length (patch c k text) ≡ k + length text) × (length c ≤ k + length text))
length-patch_cases c k text l = omega (
  arith,
  length-append (take k c) (text ++ drop (k + length text) c),
  length-append text (drop (k + length text) c),
  length-take k c,
  length-drop (k + length text) c,
)

pub Contains-write :
    (s t : Str) (c : List ℕ) (k : ℕ) (text : List ℕ)
    → Contains s c
    → k ≤ length c
    → WrittenOver s (s.offset + k) text t
    → Contains t (patch c k text)
Contains-write s t c k text r l a =
    let w = r.whole in
    let o = a.offset in
    let g = a.length_ge in
    let g' = a.length_end in
    record {
      whole = elim (length-patch_cases c k text l) [
        | inl (e, p) ↦ elim a.length_lem [ inl x ↦ omega arith | inr x ↦ omega arith ]
        | inr (e, p) ↦ elim a.length_lem [ inl x ↦ omega arith | inr x ↦ omega arith ]
      ];
      room = a.room;
      real = a.real;
      holds =
          subst (λ j. Holds t.str j (patch c k text)) (sym a.offset)
            (Holds-over s.str t.str s.offset k c text l r.holds a.there a.before
              (λ i p q. a.behind i p (omega arith)));
    }

pub Contains-extend : (s t : Str) (c : List ℕ) → Contains s c → Extended s t → Contains t c
Contains-extend s t c r a =
    let w = r.whole in
    let o = a.offset in
    let l = a.length_lem in
    let m = r.room in
    let n = a.room in
    record {
      whole = omega arith;
      room = omega arith;
      real = a.real;
      holds =
          subst (λ j. Holds t.str j c) (sym a.offset)
            (Holds-ext s.str t.str s.offset c (λ i p q. a.same i (omega arith)) r.holds);
    }

pub Contains-reduce : (s t : Str) (c : List ℕ) → Contains s c → Reduced s s.offset t → Contains t c
Contains-reduce s t c r a =
    let w = r.whole in
    let o = a.offset in
    let l = a.length_lem in
    let m = r.room in
    let n = a.size in
    record {
      whole = omega arith;
      room = omega arith;
      real = let q = r.real in omega arith;
      holds =
          subst (λ j. Holds t.str j c) (sym a.offset)
            (Holds-copy s.str t.str s.offset 0 c
              (λ i p. ap (byte t.str) (omega arith) ∙ a.moved i (omega arith)) r.holds);
    }

pub Contains-drop :
    (s : Str) (c : List ℕ) (n : ℕ)
    → Contains s c
    → n ≤ length c
    → Contains (record s { offset = s.offset + n }) (drop n c)
Contains-drop s c n r l =
    let w = r.whole in
    record {
      whole = omega (arith, length-drop n c);
      room = r.room;
      real = r.real;
      holds = Holds-drop s.str s.offset n c l r.holds;
    }
