-- ===== src/Pool/Tests.antt =====
-- Tests of the model of swoole_memory_pool.cc, and instances of its theorems.
use async_ext.Prelude.{
  ℕ, zero, suc, ◌+◌, ◌<◌, ◌≡◌, inl, inr, refl, true, false, Option, some, List, [], ◌∷◌, replicate,
  arith, ◌==◌, if◌then◌else◌, ◌>>=◌,
}
use async_ext.Prelude.Int.{ℤ, pos}
use async_ext.Str.{memcpy}
use async_ext.Pool.{
  ring, live, deleted, unknown_type, MemorySlice, State, Core, thrown, construct, fresh, alloc,
  alloc_from, pool_destruct, release_as, slice_destruct,
}
use async_ext.Pool.Trace.{Trace}
use async_ext.Pool.Blocks.{Holding}
use async_ext.Pool.Run.{
  Op, get, put, text, done, run_slices, run_blocks, Apart, run_slices-run_blocks,
}

abbrev core : Core
core = record { memory = λ size shared. true; mem_pool = true; room = λ n. n + 8 }

abbrev place : ℤ → Option ℕ
place size = some 4096

-- A ring pool of 1024 bytes, and TYPE_EMALLOC.
abbrev ring_pool : State
ring_pool = fresh (pos 1024) (pos 256) ring false live

no_emalloc : construct core (pos 1024) (pos 4) (pos 256) false ≡ thrown unknown_type
unfolding construct
no_emalloc = refl

-- The pool goes before its slice, which then deletes the pool of the core.
slice_last :
    (alloc place (some (pos 16)) ring_pool >>= λ r.
    pool_destruct (r.1) >>= λ s. slice_destruct 0 s >>= λ s'. some s'.core)
    ≡ some deleted
unfolding alloc alloc_from pool_destruct release_as slice_destruct
slice_last = refl

abbrev with_slice : State
with_slice = record ring_pool {
  mp = some (record {
    size = 1024;
    slice_size = 256;
    type = ring;
    shared = false;
    released = false;
    slice_count = 1;
  });
  slices = some (record { size = 16; type = ring; memory = 4096 }) ∷ [];
}

-- Two slices, of 4 and of 2 bytes.
abbrev info : ℕ → MemorySlice
info i =
    if i == 0
    then record { size = 4; type = ring; memory = 100 }
    else record { size = 2; type = ring; memory = 104 }

abbrev blocks : ℕ → List ℕ
blocks i = if i == 0 then replicate 4 0 else replicate 2 0

abbrev ops : List Op
ops =
    put 0 (7 ∷ 8 ∷ []) (pos 1)
    ∷ put 1 (9 ∷ []) (pos 2)
    ∷ get 0 (pos 0) (pos 0)
    ∷ get 1 (pos 5) (pos 0)
    ∷ []

info-Apart : Apart 2 info
info-Apart zero zero a b d = absurd (d refl)
info-Apart zero (suc j) a b d = let e : j ≡ 0 = omega arith in rw e (inl (omega arith))
info-Apart (suc i) zero a b d = let e : i ≡ 0 = omega arith in rw e (inr (omega arith))
info-Apart (suc i) (suc j) a b d = absurd (d (omega arith))

holding : (i : ℕ) → i < 2 → Holding (λ k. 0) (info i) (blocks i)
holding zero l = record {
  small = omega arith;
  whole = refl;
  holds = (refl, (refl, (refl, (refl, tt))));
}
holding (suc i) l =
    let e : i ≡ 0 = omega arith in
    rw e (record { small = omega arith; whole = refl; holds = (refl, (refl, tt)) })

answers :
    run_slices info (λ k. 0) ops
    ≡ done true ∷ done false ∷ text (some (0 ∷ 7 ∷ 8 ∷ 0 ∷ [])) ∷ text (some (0 ∷ 0 ∷ [])) ∷ []
unfolding run_slices memcpy
answers = refl

run_slices-run_blocks_example : run_slices info (λ k. 0) ops ≡ run_blocks blocks ops
run_slices-run_blocks_example =
    run_slices-run_blocks 2 info (λ k. 0) blocks ops info-Apart holding (omega arith)
