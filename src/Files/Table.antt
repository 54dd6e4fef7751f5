-- ===== src/Files/Table.antt =====
-- The table `open_write_files` of swoole_async.cc: what is found after a change.
use async_ext.Prelude.{
  ℕ, ◌≡◌, refl, true, false, Bool-cases, none, some, List, [], ◌∷◌, ◌++◌, inl, inr,
}
use async_ext.Prelude.Bytes.{str_eq, str_eq_self, str_eq→eq}
use async_ext.Files.{OpenFile, find, update, erase}

abbrev pub Table : Type 0
Table = List (List ℕ × OpenFile)

-- The count of a file, and its descriptor.
abbrev pub refs : List ℕ → Table → ℕ
refs key m = elim (find key m) [ none ↦ 0 | some f ↦ f.refcount ]

pub find-update_self :
    (key : List ℕ) (f g : OpenFile) (m : Table)
    → find key m ≡ some g
    → find key (update key f m) ≡ some f
unfolding find update
find-update_self key f g [] h = cc
find-update_self key f g ((k, x) ∷ rest) h = elim (Bool-cases (str_eq k key)) [
  | inl same ↦ rw (same, same) refl
  | inr other ↦ rw (other, other) (find-update_self key f g rest (rw other at h))
]

-- A key that differs from that of the entry that changed.
apart : (j key k : List ℕ) → str_eq key j ≡ false → str_eq k key ≡ true → str_eq k j ≡ false
apart j key k d e = rw (str_eq→eq k key e) d

pub find-update_ne :
    (key j : List ℕ) (f : OpenFile) (m : Table)
    → str_eq key j ≡ false
    → find j (update key f m) ≡ find j m
unfolding find update
find-update_ne key j f [] d = refl
find-update_ne key j f ((k, x) ∷ rest) d = elim (Bool-cases (str_eq k key)) [
  | inl same ↦ rw (same, apart j key k d same) refl
  | inr other ↦ rw other (elim (Bool-cases (str_eq k j)) [
    | inl here ↦ rw here refl
    | inr there ↦ rw there (find-update_ne key j f rest d)
  ])
]

pub find-erase_ne :
    (key j : List ℕ) (m : Table) → str_eq key j ≡ false → find j (erase key m) ≡ find j m
unfolding find erase
find-erase_ne key j [] d = refl
find-erase_ne key j ((k, x) ∷ rest) d = elim (Bool-cases (str_eq k key)) [
  | inl same ↦ rw (same, apart j key k d same) (find-erase_ne key j rest d)
  | inr other ↦ rw other (elim (Bool-cases (str_eq k j)) [
    | inl here ↦ rw here refl
    | inr there ↦ rw there (find-erase_ne key j rest d)
  ])
]

pub find-erase_self : (key : List ℕ) (m : Table) → find key (erase key m) ≡ none
unfolding find erase
find-erase_self key [] = refl
find-erase_self key ((k, x) ∷ rest) = elim (Bool-cases (str_eq k key)) [
  | inl same ↦ rw same (find-erase_self key rest)
  | inr other ↦ rw (other, other) (find-erase_self key rest)
]

pub find-append_self :
    (key : List ℕ) (f : OpenFile) (m : Table)
    → find key m ≡ none
    → find key (m ++ ((key, f) ∷ [])) ≡ some f
unfolding find
find-append_self key f [] h = rw (str_eq_self key) refl
find-append_self key f ((k, x) ∷ rest) h = elim (Bool-cases (str_eq k key)) [
  | inl same ↦ let e : some x ≡ none = rw same at h in cc
  | inr other ↦ rw other (find-append_self key f rest (rw other at h))
]

pub find-append_ne :
    (key j : List ℕ) (f : OpenFile) (m : Table)
    → str_eq key j ≡ false
    → find j (m ++ ((key, f) ∷ [])) ≡ find j m
unfolding find
find-append_ne key j f [] d = rw d refl
find-append_ne key j f ((k, x) ∷ rest) d = elim (Bool-cases (str_eq k j)) [
  | inl here ↦ rw here refl
  | inr there ↦ rw there (find-append_ne key j f rest d)
]
