-- ===== src/Objects/Grow.antt =====
-- swoole_get_new_size of swoole_async.cc: its loop ends, and the size fits the handle.
use async_ext.Prelude.{
  ℕ, zero, suc, ◌+◌, ◌*◌, ◌%◌, ◌^◌, ◌<◌, ◌≤◌, ◌≡◌, refl, ap, ◌∙◌, Bool-cases, inl, inr, false, some,
  arith, ltb, leb, le→not-ltb, leb→le, not-leb→lt, ltb→lt, not-ltb→le, ◌==◌,
}
use async_ext.Objects.{object_max, object_default, double, get_new_size, property_size}

double-lt :
    (fuel n handle : ℕ)
    → 0 < n
    → handle < 2 ^ 31
    → handle + 1 < fuel + n
    → 0 < fuel
    → (r : ℕ) × (double fuel n handle ≡ some r) × (handle < r) × (n ≤ r)
unfolding double
double-lt zero n handle pos small enough more = elim more [ ]
double-lt (suc fuel) n handle pos small enough more = elim (Bool-cases (leb n handle)) [
  | inr big ↦ (n, rw big refl, not-leb→lt n handle big, omega arith)
  | inl less ↦
      let l = leb→le n handle less in
      let e : n * 2 % 2 ^ 32 ≡ n * 2 = omega arith in
      let (r, run, a, b) =
        double-lt fuel (n * 2) handle (omega arith) small (omega arith) (omega arith) in
      (r, rw less (ap (λ k. double fuel k handle) e ∙ run), a, omega arith)
]

-- A positive size that is too small for the handle grows to one that has room for it.
pub get_new_size-lt :
    (old_size handle : ℕ)
    → 0 < old_size
    → old_size ≤ handle
    → handle < object_max
    → (n : ℕ) × (get_new_size old_size handle ≡ some n) × (handle < n) × (n ≤ object_max)
unfolding get_new_size
get_new_size-lt old_size handle pos le small =
    let e : old_size * 2 % 2 ^ 32 ≡ old_size * 2 = omega arith in
    let (r, run, a, b) =
      double-lt (handle + 1) (old_size * 2) handle (omega arith) (omega arith) (omega arith)
        (omega arith) in
    let run' : double (handle + 1) (old_size * 2 % 2 ^ 32) handle ≡ some r =
      ap (λ k. double (handle + 1) k handle) e ∙ run in
    let ok : ltb 10000000 handle ≡ false = le→not-ltb _ _ (omega arith) in
    elim (Bool-cases (ltb object_max r)) [
      | inl over ↦ (object_max, rw (ok, run', over) refl, small, omega arith)
      | inr within ↦ (r, rw (ok, run', within) refl, a, not-ltb→le object_max r within)
    ]

pub property_size-lt :
    (old_size handle : ℕ)
    → old_size ≤ handle
    → handle < object_max
    → (n : ℕ) × (property_size old_size handle ≡ some n) × (handle < n) × (n ≤ object_max)
unfolding property_size
property_size-lt old_size handle le small = elim (Bool-cases (old_size == 0)) [
  | inl fresh ↦ elim (Bool-cases (ltb handle object_default)) [
    | inl first ↦ (8, rw (fresh, first) refl, ltb→lt handle object_default first, omega arith)
    | inr later ↦
        let (n, size, a1, a2) =
          get_new_size-lt object_default handle (omega arith)
            (not-ltb→le handle object_default later) small in
        (n, rw (fresh, later) size, a1, a2)
  ]
  | inr more ↦
      let p : 0 < old_size = ground arith in
      let (n, size, a1, a2) = get_new_size-lt old_size handle p le small in
      (n, rw more size, a1, a2)
]
