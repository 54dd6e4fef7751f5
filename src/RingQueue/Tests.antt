-- ===== src/RingQueue/Tests.antt =====
-- Runs of a ring of three places.
use async_ext.Prelude.{ℕ, ◌^◌, ◌≤◌, ◌≡◌, arith, refl, Bool, false, some, List, [], ◌∷◌, ltb}
use async_ext.RingQueue.{Ring, init, count}
use async_ext.RingQueue.Inv.{IsValid, init-IsValid}
use async_ext.RingQueue.Refine.{contents, Call, pushes, pops, run, run_queue, run_refines}

-- The ring has gone round: the items are 7 and 8.
abbrev ring : Ring ℕ
ring = record { head = 2; tail = 1; tag = 0; size = 3; slots = 8 ∷ 0 ∷ 7 ∷ [] }

ring-IsValid : IsValid ring
ring-IsValid = record {
  storage = refl;
  positive = omega arith;
  small = omega arith;
  head_in = omega arith;
  tail_in = omega arith;
  flag = omega arith;
}

abbrev script : List (Call ℕ)
script = pushes 9 ∷ pushes 10 ∷ pops ∷ pops ∷ pops ∷ pops ∷ []

run_refines_example : run script ring ≡ some (run_queue 3 script (contents 0 ring))
run_refines_example = run_refines 0 script ring-IsValid

-- A system with little memory.
abbrev calloc : ℕ → Bool
calloc n = ltb n 1000

calloc-refuses : (n : ℕ) → 2 ^ 61 ≤ n → calloc n ≡ false
calloc-refuses n h = ground arith

abbrev fresh : Ring ℕ
fresh = record { head = 0; tail = 0; tag = 0; size = 3; slots = 0 ∷ 0 ∷ 0 ∷ [] }

init-IsValid_example : IsValid fresh × (count fresh ≡ 0)
unfolding init
init-IsValid_example = init-IsValid calloc calloc-refuses 0 3 (omega arith) refl
