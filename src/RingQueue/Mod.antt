-- ===== src/RingQueue/Mod.antt =====
-- Remainders on the ring: lemmas for the proofs about swoole_ringqueue.cc.
use native.Mathlib.Nat.{mod-add-mod, mod-eq_of_lt, mod-eq-sub-mod}
use native.Mathlib.Decide.{dec_lt}
use async_ext.Prelude.{ℕ, ◌+◌, ◌-◌, ◌%◌, ◌≤◌, ◌<◌, ◌≡◌, ◌≢◌, arith, ◌∙◌, ap, ◌⊎◌, inl, inr}

pub mod-once : (n m : ℕ) → m ≤ n → n < m + m → n % m ≡ n - m
mod-once n m h k =
    omega (arith, mod-eq-sub-mod {n = n} {m = m} h, mod-eq_of_lt {n = n - m} {m = m} (omega arith))

-- Distances below the size tell two places apart.
pub mod-ne : (h i n m : ℕ) → h < m → i < n → n < m → (h + n) % m ≢ (h + i) % m
mod-ne h i n m p q r e = elim (dec_lt (h + n) m) [
  | yes a ↦ omega (arith, e, mod-eq_of_lt a, mod-eq_of_lt {n = h + i} {m = m} (omega arith))
  | no a ↦ elim (dec_lt (h + i) m) [
    | yes b ↦ omega (arith, e, mod-once (h + n) m (omega arith) (omega arith), mod-eq_of_lt b)
    | no b ↦ omega (
      arith,
      e,
      mod-once (h + n) m (omega arith) (omega arith),
      mod-once (h + i) m (omega arith) (omega arith),
    )
  ]
]

pub mod-shift : (h i m : ℕ) → ((h + 1) % m + i) % m ≡ (h + (1 + i)) % m
mod-shift h i m = mod-add-mod (h + 1) m i ∙ ap (λ k. k % m) (omega arith)

pub mod-step :
    (i m : ℕ) → i < m → ((i + 1 < m) × ((i + 1) % m ≡ i + 1)) ⊎ ((i + 1 ≡ m) × ((i + 1) % m ≡ 0))
mod-step i m h = elim (dec_lt (i + 1) m) [
  | yes a ↦ inl (a, mod-eq_of_lt a)
  | no a ↦ inr (omega arith, omega (arith, mod-once (i + 1) m (omega arith) (omega arith)))
]
