-- ===== src/Dns/Name/Encode.antt =====
-- domain_encode of swoole_async.cc against the labels of a DNS name.
use async_ext.Prelude.{
  ℕ, suc, ◌+◌, ◌-◌, ◌<◌, ◌≤◌, ◌≡◌, ◌≢◌, ◌⊎◌, inl, inr, sym, ap, ap₂, subst, ◌∙◌, true, false, some,
  List, [], ◌∷◌, ◌++◌, length, length-append, arith, ◌==◌,
}
use async_ext.Str.{Memory, byte, store, memcpy}
use async_ext.Str.Holds.{
  Holds, Holds-append, Holds-concat, Holds-copy, Holds-ext, memcpy-byte, memcpy-before,
  byte-store_ne, byte-store_self,
}
use async_ext.Dns.Name.{dot, encode_loop, end_name, domain_encode}

-- Labels, each with the dot behind it, and each with its length in front.
abbrev pub dotted : List (List ℕ) → List ℕ
dotted [] = []
dotted (l ∷ ls) = l ++ (dot ∷ dotted ls)

abbrev pub encode_labels : List (List ℕ) → List ℕ
encode_labels [] = 0 ∷ []
encode_labels (l ∷ ls) = length l ∷ l ++ encode_labels ls

abbrev pub IsPlain : List ℕ → Type 0
IsPlain [] = Unit {0}
IsPlain (c ∷ cs) = (c ≢ dot) × IsPlain cs

-- No label has a dot, and the length of each is a char.
abbrev pub IsLabels : List (List ℕ) → Type 0
IsLabels [] = Unit {0}
IsLabels (l ∷ ls) = IsPlain l × (length l < 256) × IsLabels ls

-- The loop passes over the chars of a label.
scan :
    (d left : ℕ) (l : List ℕ) (i pos : ℕ) (m : Memory)
    → IsPlain l
    → Holds m (d + 1 + i) l
    → encode_loop d (length l + left) i pos m ≡ encode_loop d left (i + length l) pos m
unfolding encode_loop
scan d left [] i pos m p h = ap₂ (λ a b. encode_loop d a b pos m) (omega arith) (omega arith)
scan d left (c ∷ cs) i pos m p h =
    let e : (byte m (d + 1 + i) == dot) ≡ false = ground (arith, h.0, p.0) in
    ap (λ n. encode_loop d n i pos m) {x = suc (length cs) + left} {y = suc (length cs + left)}
      (omega arith)
    ∙ rw e (
        scan d left cs (i + 1) pos m p.1 (subst (λ j. Holds m j cs) (omega arith) h.1)
        ∙ ap (λ j. encode_loop d left j pos m) (omega arith))

-- The dot behind it makes the char in front of it the length.
pass :
    (d left i pos : ℕ) (m : Memory)
    → byte m (d + 1 + i) ≡ dot
    → pos ≤ i
    → encode_loop d (suc left) i pos m
      ≡ encode_loop d left (i + 1) (i + 1) (store m (d + pos) (i - pos))
unfolding encode_loop
pass d left i pos m h le =
    let e : (byte m (d + 1 + i) == dot) ≡ true = ground (arith, h) in
    rw e (ap (λ j. encode_loop d left (i + 1) j (store m (d + pos) (i - pos))) (omega arith))

-- What the loop makes of the labels from `p` on, and what it leaves alone.
record Encoded (d p : ℕ) (m m' : Memory) (ls : List (List ℕ)) : Type 0 where
  labels : Holds m' (d + p) (encode_labels ls)
  before : (j : ℕ) → j < d + p → byte m' j ≡ byte m j

one_label :
    (d p : ℕ) (m : Memory) (l : List ℕ) (ls : List (List ℕ))
    → IsPlain l
    → Holds m (d + 1 + p) l
    → byte m (d + 1 + p + length l) ≡ dot
    → encode_loop d (length (dotted (l ∷ ls))) p p m
      ≡ encode_loop d
          (length (dotted ls))
          (p + length l + 1)
          (p + length l + 1)
          (store m (d + p) (length l))
one_label d p m l ls plain hl hd =
    ap (λ n. encode_loop d n p p m) (length-append l (dot ∷ dotted ls))
    ∙ scan d (suc (length (dotted ls))) l p p m plain hl
    ∙ pass d (length (dotted ls)) (p + length l) p m (ap (byte m) (omega arith) ∙ hd) (omega arith)
    ∙ ap
        (λ j.
          encode_loop d (length (dotted ls)) (p + length l + 1) (p + length l + 1)
            (store m (d + p) j))
        (omega arith)

Encoded-label :
    (d p : ℕ) (m m' : Memory) (l : List ℕ) (ls : List (List ℕ))
    → length l < 256
    → Holds m (d + 1 + p) l
    → Encoded d (p + length l + 1) (store m (d + p) (length l)) m' ls
    → Encoded d p m m' (l ∷ ls)
Encoded-label d p m m' l ls small hl r =
    let old : (j : ℕ)
        → j < d + (p + length l + 1)
        → (j < d + p) ⊎ (d + p < j)
        → byte m' j ≡ byte m j =
      λ j a b. r.before j a ∙ byte-store_ne m (d + p) (length l) j b in
    record {
      labels = (
        r.before (d + p) (omega arith) ∙ byte-store_self m (d + p) (length l) ∙ omega arith,
        Holds-concat m' (d + p + 1) l (encode_labels ls)
            (Holds-ext m m' (d + p + 1) l (λ i a b. old i (omega arith) (inr (omega arith)))
              (subst (λ j. Holds m j l) (omega arith) hl))
            (subst (λ j. Holds m' j (encode_labels ls)) (omega arith) r.labels),
      );
      before = λ j a. old j (omega arith) (inl a);
    }

encode_loop-Encoded :
    (d p : ℕ) (m : Memory) (ls : List (List ℕ))
    → IsLabels ls
    → Holds m (d + 1 + p) (dotted ls)
    → Encoded d p m (end_name d (encode_loop d (length (dotted ls)) p p m)) ls
unfolding encode_loop end_name
encode_loop-Encoded d p m [] k h = record {
  labels = (byte-store_self m (d + p) 0, tt);
  before = λ j l. byte-store_ne m (d + p) 0 j (inl l);
}
encode_loop-Encoded d p m (l ∷ ls) (plain, small, k) h =
    let (hl, hd) = Holds-append m (d + 1 + p) l (dot ∷ dotted ls) h in
    let q = p + length l + 1 in
    let m1 = store m (d + p) (length l) in
    let rest = encode_loop-Encoded d q m1 ls k (
      Holds-ext m m1 (d + 1 + q) (dotted ls)
        (λ i a b. byte-store_ne m (d + p) (length l) i (inr (omega arith)))
        (subst (λ j. Holds m j (dotted ls)) (omega arith) hd.1)) in
    subst (λ r. Encoded d p m (end_name d r) (l ∷ ls)) (sym (one_label d p m l ls plain hl hd.0))
      (Encoded-label d p m _ l ls small hl rest)

-- For a text without a zero in it, of labels that have no dot and fewer than 256 chars,
-- domain_encode succeeds; the destination then holds each label behind its length, with a zero
-- behind the last, and nothing in front of the destination changes.
pub domain_encode-labels :
    (src dest : Memory) (s d : ℕ) (text : List ℕ) (ls : List (List ℕ))
    → IsLabels ls
    → text ++ (dot ∷ []) ≡ dotted ls
    → Holds src s text
    → byte src (s + length text) ≡ 0
    → (m : Memory) × (domain_encode src s (length text) dest d ≡ some m)
      × Holds m d (encode_labels ls)
      × ((j : ℕ) → j < d → byte m j ≡ byte dest j)
unfolding domain_encode
domain_encode-labels src dest s d text ls k e h z =
    let n = length text in
    let c = memcpy dest (d + 1) src s (n + 1) in
    let m1 = store c (d + (n + 1)) dot in
    let m = store m1 (d + (n + 2)) 0 in
    let len : length (dotted ls) ≡ n + 1 =
      ap length (sym e) ∙ length-append text (dot ∷ []) ∙ omega arith in
    let no_dot : (byte src (s + n) == dot) ≡ false = ground (arith, z) in
    let copied : Holds m (d + 1) text =
      Holds-copy src m s (d + 1) text
        (λ i l.
          byte-store_ne m1 (d + (n + 2)) 0 (d + 1 + i) (inl (omega arith))
          ∙ byte-store_ne c (d + (n + 1)) dot (d + 1 + i) (inl (omega arith))
          ∙ memcpy-byte dest src (d + 1) s (n + 1) i (omega arith))
        h in
    let last : byte m (d + 1 + n) ≡ dot =
      byte-store_ne m1 (d + (n + 2)) 0 (d + 1 + n) (inl (omega arith))
      ∙ ap (byte m1) {x = d + 1 + n} {y = d + (n + 1)} (omega arith)
      ∙ byte-store_self c (d + (n + 1)) dot in
    let all : Holds m (d + 1 + 0) (dotted ls) = subst (Holds m (d + 1 + 0)) e (
      subst (λ j. Holds m j (text ++ (dot ∷ []))) {x = d + 1} {y = d + 1 + 0} (omega arith)
        (Holds-concat m (d + 1) text (dot ∷ []) copied (last, tt))) in
    let r = encode_loop-Encoded d 0 m ls k all in
    let m' = end_name d (encode_loop d (length (dotted ls)) 0 0 m) in
    (
      m',
      rw (no_dot, len),
      subst (λ j. Holds m' j (encode_labels ls)) {x = d + 0} {y = d} (omega arith) r.labels,
      λ j l.
          r.before j (omega arith)
          ∙ byte-store_ne m1 (d + (n + 2)) 0 j (inl (omega arith))
          ∙ byte-store_ne c (d + (n + 1)) dot j (inl (omega arith))
          ∙ memcpy-before dest src (d + 1) s (n + 1) j (omega arith),
    )
