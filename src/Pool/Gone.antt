-- ===== src/Pool/Gone.antt =====
-- What goes of a pool of swoole_memory_pool.cc: the destructors of the pool and of its slices.
use async_ext.Prelude.{
  ℕ, ◌+◌, ◌-◌, ◌%◌, ◌^◌, ◌<◌, ◌≡◌, inl, inr, refl, sym, ap, ◌∙◌, true, false, ◌&&◌, Bool-cases,
  Option-cases, none, some, set, get_or, arith, ◌==◌, ==_iff, if◌then◌else◌, ◌>>=◌,
}
use async_ext.Pool.{
  PoolType, fixed, ring, global, malloc, emalloc, live, deleted, MemoryPool, MemorySlice, State,
  is_managed, is_live, delete_pool, release_as, pool_destruct, give_back, forgotten, slice_destruct,
}
use async_ext.Pool.Life.{
  count, count-set, AllOf-set, AllOf-at, Open, Inv, Steps, guarded, is_open, is_closed, is_heaped,
}

abbrev pub after_delete : MemoryPool → State → State
after_delete mp s = record s { mp = if mp.shared then some mp else none; core = deleted }

delete_pool_live :
    (mp : MemoryPool) (s : State) → s.core ≡ live → delete_pool mp s ≡ some (after_delete mp s)
unfolding delete_pool
delete_pool_live mp s e = rw e refl

release_as-managed :
    (t : PoolType) (mp : MemoryPool) (s : State)
    → is_managed t ≡ true
    → release_as t mp s ≡ (
        if mp.slice_count == 0
        then delete_pool
            (record mp { released = true })
            (record s { mp = some (record mp { released = true }) })
        else some (record s { mp = some (record mp { released = true }) }))
unfolding release_as
release_as-managed fixed mp s m = refl
release_as-managed ring mp s m = refl
release_as-managed global mp s m = refl
release_as-managed malloc mp s m = cc
release_as-managed emalloc mp s m = cc

pool_destruct-owned :
    (t : PoolType) (n : ℕ) (s : State) → Inv t n s → s.owner ≡ true → Steps t n (pool_destruct s)
unfolding pool_destruct release_as
pool_destruct-owned t n s (is_open o) w =
    let mp = o.pool in
    let mp' = record mp { released = true } in
    let s1 = record s { owner = false; mp = some mp' } in
    let run =
      guarded s.owner s.mp mp (λ q. release_as q.type q (record s { owner = false })) (some s) w
        o.here
      ∙ ap (λ k. release_as k mp (record s { owner = false })) o.type
      ∙ release_as-managed t mp (record s { owner = false }) o.managed in
    let c = o.counted in
    elim (Bool-cases (mp.slice_count == 0)) [
      | inl unused ↦ (
        after_delete mp' s1,
        run ∙ rw unused (delete_pool_live mp' s1 o.core),
        is_closed (record {
          managed = o.managed;
          core = refl;
          owner = refl;
          unused = sym o.counted ∙ (==_iff _ _).0 unused;
        }),
      )
      | inr some_left ↦ (
        s1,
        run ∙ rw some_left refl,
        is_open (record {
          managed = o.managed;
          pool = mp';
          here = refl;
          type = o.type;
          counted = o.counted;
          marked = refl;
          core = o.core;
          used = inr (ground arith);
          bounded = o.bounded;
          all = o.all;
        }),
      )
    ]
pool_destruct-owned t n s (is_closed c) w = let f = c.owner in cc
pool_destruct-owned t n s (is_heaped h) w =
    let (p, here, type) = h.here w in
    (
      record s { owner = false; mp = none },
      guarded s.owner s.mp p (λ q. release_as q.type q (record s { owner = false })) (some s) w here
          ∙ ap (λ k. release_as k p (record s { owner = false })) type,
      is_heaped (record { core = h.core; here = λ f. cc; all = h.all }),
    )

pub pool_destruct-Inv : (t : PoolType) (n : ℕ) (s : State) → Inv t n s → Steps t n (pool_destruct s)
unfolding pool_destruct
pool_destruct-Inv t n s i = elim (Bool-cases s.owner) [
  | inr gone ↦ (s, rw gone refl, i)
  | inl w ↦ pool_destruct-owned t n s i w
]

slice_destruct-some :
    (i : ℕ) (info : MemorySlice) (s : State)
    → get_or s.slices i none ≡ some info
    → slice_destruct i s ≡ (
        if is_managed info.type
        then (if is_live s.core then (s.mp >>= λ mp. give_back mp (forgotten i info s)) else none)
        else some (forgotten i info s))
unfolding slice_destruct
slice_destruct-some i info s e = rw (e, slice_destruct) refl

give_back-Inv :
    (t : PoolType) (n i : ℕ) (info : MemorySlice) (s : State) (o : Open t n s)
    → get_or s.slices i none ≡ some info
    → n < 2 ^ 32
    → Steps t n (give_back o.pool (forgotten i info s))
unfolding give_back
give_back-Inv t n i info s o e small =
    let mp = o.pool in
    let c = o.counted in
    let b = o.bounded in
    let less = count-set s.slices i info e in
    let left : ℕ = (mp.slice_count + 2 ^ 32 - 1) % 2 ^ 32 in
    let mp' = record mp { slice_count = left } in
    let s1 = record (forgotten i info s) { mp = some mp' } in
    let counted : left ≡ count (set s.slices i none) = omega arith in
    elim (Bool-cases (mp.released && (left == 0))) [
      | inl last ↦ (
        after_delete mp' s1,
        rw last (delete_pool_live mp' s1 o.core),
        is_closed (record {
          managed = o.managed;
          core = refl;
          owner = let m = o.marked in ground arith;
          unused = ground arith;
        }),
      )
      | inr more ↦ (
        s1,
        rw more refl,
        is_open (record {
          managed = o.managed;
          pool = mp';
          here = refl;
          type = o.type;
          counted = counted;
          marked = o.marked;
          core = o.core;
          used = let m = o.marked in ground arith;
          bounded = omega arith;
          all = AllOf-set t s.slices i o.all;
        }),
      )
    ]

slice_destruct-held :
    (t : PoolType) (n i : ℕ) (info : MemorySlice) (s : State)
    → Inv t n s
    → get_or s.slices i none ≡ some info
    → n < 2 ^ 32
    → Steps t n (slice_destruct i s)
slice_destruct-held t n i info s (is_open o) e small =
    let (s', run, inv) = give_back-Inv t n i info s o e small in
    let m : is_managed info.type ≡ true =
      ap is_managed (AllOf-at t s.slices i info o.all e) ∙ o.managed in
    let l : is_live s.core ≡ true = ap is_live o.core in
    (
      s',
      slice_destruct-some i info s e
          ∙ rw (m, l) (ap (λ q. q >>= λ mp. give_back mp (forgotten i info s)) o.here ∙ run),
      inv,
    )
slice_destruct-held t n i info s (is_closed c) e small =
    let u = c.unused in let less = count-set s.slices i info e in absurd (omega arith)
slice_destruct-held t n i info s (is_heaped h) e small =
    let m : is_managed info.type ≡ false =
      ap is_managed (AllOf-at malloc s.slices i info h.all e) in
    (
      forgotten i info s,
      slice_destruct-some i info s e ∙ rw m refl,
      is_heaped (record { core = h.core; here = h.here; all = AllOf-set malloc s.slices i h.all }),
    )

pub slice_destruct-Inv :
    (t : PoolType) (n i : ℕ) (s : State) → Inv t n s → n < 2 ^ 32 → Steps t n (slice_destruct i s)
unfolding slice_destruct
slice_destruct-Inv t n i s inv small = elim (Option-cases (get_or s.slices i none)) [
  | inl gone ↦ (s, rw (gone, slice_destruct) refl, inv)
  | inr (info, there) ↦ slice_destruct-held t n i info s inv there small
]
