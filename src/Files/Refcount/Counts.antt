-- ===== src/Files/Refcount/Counts.antt =====
-- The invariant of the table `open_write_files` of swoole_async.cc and the writes in flight: no file has
-- more writes in flight than references.
use async_ext.Prelude.{
  ℕ, suc, ◌+◌, ◌-◌, ◌<◌, ◌≤◌, ◌≡◌, ◌⊎◌, inl, inr, refl, sym, ap, subst, ◌∙◌, true, Bool-cases, none,
  some, List, [], ◌∷◌, ◌++◌, append-nil, arith, if◌then◌else◌,
}
use async_ext.Prelude.Bytes.{str_eq, str_eq_self, str_eq→eq}
use async_ext.Files.{OpenFile, find}
use async_ext.Files.Table.{Table, refs}
use async_ext.Files.Refcount.{Write, count, Gains, Loses}

-- The entry of a write has the write's descriptor.
abbrev pub At : Table → Write → Type 0
At m v = (f : OpenFile) × (find v.filename m ≡ some f) × (f.fd ≡ v.fd)

abbrev pub Placed : Table → List Write → Type 0
Placed m [] = Unit {0}
Placed m (v ∷ vs) = At m v × Placed m vs

pub record Inv (n : ℕ) (m : Table) (pending : List Write) : Type 0 where
  pub counted : (key : List ℕ) → count key pending ≤ refs key m
  pub bounded : (key : List ℕ) → refs key m ≤ n
  pub placed : Placed m pending

pub count-append :
    (key : List ℕ) (xs ys : List Write) → count key (xs ++ ys) ≡ count key xs + count key ys
unfolding count
count-append key [] ys = omega arith
count-append key (x ∷ xs) ys = ground (arith, count-append key xs ys)

pub count-cons_self :
    (key : List ℕ) (v : Write) (vs : List Write)
    → v.filename ≡ key
    → count key (v ∷ vs) ≡ count key vs + 1
unfolding count
count-cons_self key v vs e =
    let t : str_eq v.filename key ≡ true =
      subst (λ k. str_eq k key ≡ true) (sym e) (str_eq_self key) in
    rw t refl

count-cons :
    (v : Write) (vs : List Write) (j : List ℕ)
    → count j (v ∷ vs) ≡ (if str_eq v.filename j then count j vs + 1 else count j vs)
unfolding count
count-cons v vs j = refl

count-cons-le : (key : List ℕ) (v : Write) (vs : List Write) → count key vs ≤ count key (v ∷ vs)
unfolding count
count-cons-le key v vs = ground arith

Placed-append : (m : Table) (xs ys : List Write) → Placed m xs → Placed m ys → Placed m (xs ++ ys)
Placed-append m [] ys p q = q
Placed-append m (x ∷ xs) ys p q = (p.0, Placed-append m xs ys p.1 q)

pub Placed-split :
    (m : Table) (xs ys : List Write) → Placed m (xs ++ ys) → Placed m xs × Placed m ys
Placed-split m [] ys p = (tt, p)
Placed-split m (x ∷ xs) ys p = let (a, b) = Placed-split m xs ys p.1 in ((p.0, a), b)

refs-other : (j : List ℕ) (m m' : Table) → find j m' ≡ find j m → refs j m' ≡ refs j m
refs-other j m m' e = ap (λ o. elim o as (λ x. ℕ) [ none ↦ 0 | some f ↦ f.refcount ]) e

pub refs-found : (j : List ℕ) (m : Table) (f : OpenFile) → find j m ≡ some f → refs j m ≡ f.refcount
refs-found j m f e = rw (e, refs) refl

module _ (key : List ℕ) (fd : ℕ) (m m' : Table) (g : Gains key fd m m') where
  refs-Gains : (j : List ℕ) → refs j m' ≡ (if str_eq key j then refs j m + 1 else refs j m)
  refs-Gains j = elim (Bool-cases (str_eq key j)) [
    | inl same ↦ rw same (
        subst (λ k. refs k m' ≡ refs k m + 1) (str_eq→eq key j same)
          (refs-found key m' g.file g.found ∙ g.more))
    | inr other ↦ rw other (refs-other j m m' (g.others j other))
  ]

  Placed-Gains : (vs : List Write) → Placed m vs → Placed m' vs
  Placed-Gains [] p = tt
  Placed-Gains (v ∷ vs) ((f, found, same_fd), p) = (
    elim (Bool-cases (str_eq key v.filename)) [
      | inl same ↦
          let e = str_eq→eq key v.filename same in
          (
            g.file,
            subst (λ k. find k m' ≡ some g.file) e g.found,
            g.same_fd ∙ sym (g.before f (subst (λ k. find k m ≡ some f) (sym e) found)) ∙ same_fd,
          )
      | inr other ↦ (f, g.others v.filename other ∙ found, same_fd)
    ],
    Placed-Gains vs p,
  )

module _ (key : List ℕ) (f : OpenFile) (m m' : Table) (known : find key m ≡ some f)
    (s : Loses key f m m') where
  refs-Loses : (j : List ℕ) → refs j m' ≡ (if str_eq key j then refs j m - 1 else refs j m)
  refs-Loses j = elim (Bool-cases (str_eq key j)) [
    | inl same ↦ rw same (
        subst (λ k. refs k m' ≡ refs k m - 1) (str_eq→eq key j same)
          (s.less ∙ ap (λ n. n - 1) (sym (refs-found key m f known))))
    | inr other ↦ rw other (refs-other j m m' (s.others j other))
  ]

  Placed-Loses :
      (vs : List Write) → (0 < count key vs → 1 < f.refcount) → Placed m vs → Placed m' vs
  Placed-Loses [] h p = tt
  Placed-Loses (v ∷ vs) h ((g, found, same_fd), p) = (
    elim (Bool-cases (str_eq key v.filename)) [
      | inl same ↦
          let e = str_eq→eq key v.filename same in
          let more = h (omega (arith, count-cons_self key v vs (sym e))) in
          let (g', found', same_fd') = s.kept more in
          let o : some f ≡ some g = sym known ∙ subst (λ k. find k m ≡ some g) (sym e) found in
          let fg : f ≡ g = cc in
          (g', subst (λ k. find k m' ≡ some g') e found', same_fd' ∙ ap (λ x. x.fd) fg ∙ same_fd)
      | inr other ↦ (g, s.others v.filename other ∙ found, same_fd)
    ],
    Placed-Loses vs (λ c. h (omega (arith, count-cons-le key v vs))) p,
  )

pub Inv-start : Inv 0 [] []
unfolding count find
Inv-start = record { counted = λ key. omega arith; bounded = λ key. omega arith; placed = tt }

-- A step that leaves the table alone.
pub Inv-same :
    (n : ℕ) (m m' : Table) (pending : List Write)
    → m' ≡ m
    → Inv n m pending
    → Inv (suc n) m' (pending ++ [])
Inv-same n m m' pending e i =
    rw (e, append-nil pending)
      (record {
        counted = i.counted;
        bounded = λ key. let b = i.bounded key in omega arith;
        placed = i.placed;
      })

-- What a call adds to the writes in flight.
abbrev pub IsNew : List ℕ → ℕ → List Write → Type 0
IsNew key fd vs = (vs ≡ []) ⊎ ((v : Write) × (vs ≡ (v ∷ [])) × (v.filename ≡ key) × (v.fd ≡ fd))

count-IsNew :
    (key : List ℕ) (fd : ℕ) (vs : List Write) (j : List ℕ)
    → IsNew key fd vs
    → count j vs ≤ (if str_eq key j then 1 else 0)
unfolding count
count-IsNew key fd vs j (inl e) = rw e (ground arith)
count-IsNew key fd vs j (inr (v, e, name, same)) =
    rw e (subst (λ k. count j (v ∷ []) ≤ (if str_eq k j then 1 else 0)) name (ground arith))

Placed-IsNew :
    (key : List ℕ) (fd : ℕ) (m' : Table) (vs : List Write) (f : OpenFile)
    → find key m' ≡ some f
    → f.fd ≡ fd
    → IsNew key fd vs
    → Placed m' vs
Placed-IsNew key fd m' vs f found same (inl e) = rw e tt
Placed-IsNew key fd m' vs f found same (inr (v, e, name, same')) =
    rw e ((f, subst (λ k. find k m' ≡ some f) (sym name) found, same ∙ sym same'), tt)

pub Inv-gain :
    (n : ℕ) (key : List ℕ) (fd : ℕ) (m m' : Table) (pending vs : List Write)
    → Inv n m pending
    → Gains key fd m m'
    → IsNew key fd vs
    → Inv (suc n) m' (pending ++ vs)
Inv-gain n key fd m m' pending vs i g new = record {
  counted = λ j.
      let b = i.counted j in
      let e = refs-Gains key fd m m' g j in
      ground (arith, count-append j pending vs, count-IsNew key fd vs j new);
  bounded = λ j. let b = i.bounded j in let e = refs-Gains key fd m m' g j in ground arith;
  placed =
      Placed-append m' pending vs (Placed-Gains key fd m m' g pending i.placed)
        (Placed-IsNew key fd m' vs g.file g.found g.same_fd new);
}

Inv-lose :
    (n : ℕ) (m m' : Table) (xs ys : List Write) (v : Write) (f : OpenFile)
    → Inv n m (xs ++ (v ∷ ys))
    → find v.filename m ≡ some f
    → Loses v.filename f m m'
    → Inv n m' (xs ++ ys)
Inv-lose n m m' xs ys v f i known s = record {
  counted = λ j.
      let b = i.counted j in
      let e = refs-Loses v.filename f m m' known s j in
      ground (arith, count-append j xs ys, count-append j xs (v ∷ ys), count-cons v ys j);
  bounded =
      λ j. let b = i.bounded j in let e = refs-Loses v.filename f m m' known s j in ground arith;
  placed =
      let (p, q) = Placed-split m xs (v ∷ ys) i.placed in
      let b = i.counted v.filename in
      Placed-Loses v.filename f m m' known s (xs ++ ys)
        (λ c. omega (
          arith,
          refs-found v.filename m f known,
          count-append v.filename xs ys,
          count-append v.filename xs (v ∷ ys),
          count-cons_self v.filename v ys refl,
        ))
        (Placed-append m xs ys p q.1);
}

-- A completion leaves the table alone, or takes a reference.
pub Inv-table :
    (n : ℕ) (m m1 m2 : Table) (xs ys : List Write) (v : Write) (f : OpenFile)
    → Inv n m (xs ++ (v ∷ ys))
    → find v.filename m ≡ some f
    → Loses v.filename f m m2
    → (m1 ≡ m) ⊎ (m1 ≡ m2)
    → Inv n m1 (xs ++ ys)
Inv-table n m m1 m2 xs ys v f i known s (inl e) = rw e (record {
  counted = λ j.
      let b = i.counted j in
      omega (arith, count-append j xs ys, count-append j xs (v ∷ ys), count-cons-le j v ys);
  bounded = i.bounded;
  placed = let (p, q) = Placed-split m xs (v ∷ ys) i.placed in Placed-append m xs ys p q.1;
})
Inv-table n m m1 m2 xs ys v f i known s (inr e) = rw e (Inv-lose n m m2 xs ys v f i known s)
