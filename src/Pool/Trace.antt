-- ===== src/Pool/Trace.antt =====
-- Every history of a pool of swoole_memory_pool.cc: slices are made, and the objects go in any order.
use async_ext.Prelude.{ℕ, suc, ◌≡◌, Bool, true, Option, some}
use async_ext.Prelude.Int.{ℤ}
use async_ext.Pool.{Core, built, State, construct, Answer, alloc, pool_destruct, slice_destruct}

-- The state after so many calls of `alloc`, which is a method of a pool that has not gone.
pub data Trace : ℕ → State → Type 0 where
  constructed :
      {s : State} (k : Core) (size type slice_size : ℤ) (shared : Bool)
      → construct k size type slice_size shared ≡ built s
      → Trace 0 s
  took :
      {n : ℕ} {s s' : State} (memory : ℤ → Option ℕ) (size : Option ℤ) (a : Answer)
      → Trace n s
      → s.owner ≡ true
      → alloc memory size s ≡ some (a, s')
      → Trace (suc n) s'
  pool_gone : {n : ℕ} {s s' : State} → Trace n s → pool_destruct s ≡ some s' → Trace n s'
  slice_gone :
      {n : ℕ} {s s' : State} (i : ℕ) → Trace n s → slice_destruct i s ≡ some s' → Trace n s'
