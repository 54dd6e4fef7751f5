-- ===== src/Pool/Life.antt =====
-- The life of a pool of swoole_memory_pool.cc and of its slices, in every order in which the objects go.
use async_ext.Prelude.{
  ℕ, zero, suc, ◌+◌, ◌%◌, ◌^◌, ◌<◌, ◌≤◌, ◌≡◌, ◌⊎◌, inl, inr, refl, sym, ap, ◌∙◌, Bool, true, false,
  not, ◌&&◌, ◌||◌, Bool-cases, Option-cases, Option, none, some, List, [], ◌∷◌, ◌++◌, length, set,
  get_or, arith, if◌then◌else◌, ◌>>=◌,
}
use async_ext.Prelude.Int.{ℤ, pos, ltb_ℤ}
use async_ext.Str.{long_of_size}
use async_ext.Pool.{
  PoolType, malloc, null, live, deleted, MemoryPool, MemorySlice, State, is_managed, is_fixed,
  Answer, throws, failed, allocated, is_live, slice_made, alloc_from, alloc, invalid_size,
}

-- The slices that have not been destructed.
unfoldable pub count : List (Option MemorySlice) → ℕ
count [] = 0
count (none ∷ xs) = count xs
count (some x ∷ xs) = suc (count xs)

abbrev pub AllOf : PoolType → List (Option MemorySlice) → Type 0
AllOf t [] = Unit {0}
AllOf t (none ∷ xs) = AllOf t xs
AllOf t (some x ∷ xs) = (x.type ≡ t) × AllOf t xs

count-append_slice :
    (xs : List (Option MemorySlice)) (x : MemorySlice) → count (xs ++ (some x ∷ [])) ≡ count xs + 1
unfolding count
count-append_slice [] x = refl
count-append_slice (none ∷ xs) x = count-append_slice xs x
count-append_slice (some y ∷ xs) x = omega (arith, count-append_slice xs x)

AllOf-append_slice :
    (t : PoolType) (xs : List (Option MemorySlice)) (x : MemorySlice)
    → AllOf t xs
    → x.type ≡ t
    → AllOf t (xs ++ (some x ∷ []))
AllOf-append_slice t [] x a e = (e, tt)
AllOf-append_slice t (none ∷ xs) x a e = AllOf-append_slice t xs x a e
AllOf-append_slice t (some y ∷ xs) x a e = (a.0, AllOf-append_slice t xs x a.1 e)

pub count-set :
    (xs : List (Option MemorySlice)) (i : ℕ) (x : MemorySlice)
    → get_or xs i none ≡ some x
    → count (set xs i none) + 1 ≡ count xs
unfolding count
count-set [] i x e = cc
count-set (none ∷ xs) zero x e = cc
count-set (some y ∷ xs) zero x e = omega arith
count-set (none ∷ xs) (suc i) x e = count-set xs i x e
count-set (some y ∷ xs) (suc i) x e = omega (arith, count-set xs i x e)

pub AllOf-set :
    (t : PoolType) (xs : List (Option MemorySlice)) (i : ℕ) → AllOf t xs → AllOf t (set xs i none)
AllOf-set t [] i a = tt
AllOf-set t (none ∷ xs) zero a = a
AllOf-set t (some y ∷ xs) zero a = a.1
AllOf-set t (none ∷ xs) (suc i) a = AllOf-set t xs i a
AllOf-set t (some y ∷ xs) (suc i) a = (a.0, AllOf-set t xs i a.1)

pub AllOf-at :
    (t : PoolType) (xs : List (Option MemorySlice)) (i : ℕ) (x : MemorySlice)
    → AllOf t xs
    → get_or xs i none ≡ some x
    → x.type ≡ t
AllOf-at t [] i x a e = cc
AllOf-at t (none ∷ xs) zero x a e = cc
AllOf-at t (some y ∷ xs) zero x a e = let e' : y ≡ x = cc in ap (λ s. s.type) (sym e') ∙ a.0
AllOf-at t (none ∷ xs) (suc i) x a e = AllOf-at t xs i x a e
AllOf-at t (some y ∷ xs) (suc i) x a e = AllOf-at t xs i x a.1 e

-- Each state is one of these: the pool of the core is there, it is deleted, or there never was one.
pub record Open (t : PoolType) (n : ℕ) (s : State) : Type 0 where
  pub managed : is_managed t ≡ true
  pub pool : MemoryPool
  pub here : s.mp ≡ some pool
  pub type : pool.type ≡ t
  pub counted : pool.slice_count ≡ count s.slices
  pub marked : pool.released ≡ not s.owner
  pub core : s.core ≡ live
  pub used : (s.owner ≡ true) ⊎ (0 < count s.slices)
  pub bounded : count s.slices ≤ n
  pub all : AllOf t s.slices

pub record Closed (t : PoolType) (s : State) : Type 0 where
  pub managed : is_managed t ≡ true
  pub core : s.core ≡ deleted
  pub owner : s.owner ≡ false
  pub unused : count s.slices ≡ 0

pub record Heaped (s : State) : Type 0 where
  pub core : s.core ≡ null
  pub here : s.owner ≡ true → (p : MemoryPool) × (s.mp ≡ some p) × (p.type ≡ malloc)
  pub all : AllOf malloc s.slices

pub data Inv (t : PoolType) (n : ℕ) (s : State) : Type 0 where
  is_open : Open t n s → Inv t n s
  is_closed : Closed t s → Inv t n s
  is_heaped : Heaped s → Inv t n s

-- What a step gives: it is defined, and its state is one of those.
abbrev pub Steps : PoolType → ℕ → Option State → Type 0
Steps t n o = (s : State) × (o ≡ some s) × Inv t n s

Inv-more : (t : PoolType) (n : ℕ) (s : State) → Inv t n s → Inv t (suc n) s
Inv-more t n s (is_open o) =
    let b = o.bounded in
    is_open (record {
      managed = o.managed;
      pool = o.pool;
      here = o.here;
      type = o.type;
      counted = o.counted;
      marked = o.marked;
      core = o.core;
      used = o.used;
      bounded = omega arith;
      all = o.all;
    })
Inv-more t n s (is_closed c) = is_closed c
Inv-more t n s (is_heaped h) = is_heaped h

-- A slice more.
Inv-slice_made :
    (t : PoolType) (n : ℕ) (mp : MemoryPool) (size : ℤ) (place : ℕ) (s : State)
    → Inv t n s
    → s.mp ≡ some mp
    → s.owner ≡ true
    → suc n < 2 ^ 32
    → Inv t (suc n) (slice_made mp size place s)
unfolding slice_made
Inv-slice_made t n mp size place s (is_open o) e w small =
    let same : o.pool ≡ mp = let e' : some o.pool ≡ some mp = sym o.here ∙ e in cc in
    let c : mp.slice_count ≡ count s.slices = ap (λ p. p.slice_count) (sym same) ∙ o.counted in
    let b = o.bounded in
    let more = count-append_slice s.slices in
    is_open (record {
      managed = o.managed;
      pool = record mp { slice_count = (mp.slice_count + 1) % 2 ^ 32 };
      here = refl;
      type = ap (λ p. p.type) (sym same) ∙ o.type;
      counted = omega (arith, more _);
      marked = ap (λ p. p.released) (sym same) ∙ o.marked;
      core = o.core;
      used = inl w;
      bounded = omega (arith, more _);
      all = AllOf-append_slice t s.slices _ o.all (ap (λ p. p.type) (sym same) ∙ o.type);
    })
Inv-slice_made t n mp size place s (is_closed c) e w small = let f = c.owner in cc
Inv-slice_made t n mp size place s (is_heaped h) e w small =
    let (p, here, type) = h.here w in
    let same : p ≡ mp = let e' : some p ≡ some mp = sym here ∙ e in cc in
    let type' : mp.type ≡ malloc = ap (λ q. q.type) (sym same) ∙ type in
    is_heaped (record {
      core = h.core;
      here = λ _. (record mp { slice_count = (mp.slice_count + 1) % 2 ^ 32 }, refl, type');
      all = AllOf-append_slice malloc s.slices _ h.all type';
    })

pub guarded :
    {A B : Type 0} (b : Bool) (o : Option A) (a : A) (f : A → Option B) (d : Option B)
    → b ≡ true
    → o ≡ some a
    → (if b then (o >>= f) else d) ≡ f a
guarded b o a f d w e = rw (w, e) refl

-- While the PHP object has its pool, the pool is there.
owned :
    (t : PoolType) (n : ℕ) (s : State)
    → Inv t n s
    → s.owner ≡ true
    → (mp : MemoryPool) × (s.mp ≡ some mp) × ((not (is_managed mp.type) || is_live s.core) ≡ true)
owned t n s (is_open o) w =
    (o.pool, o.here, let m = o.managed in let e = o.type in let c = o.core in rw (e, m, c) refl)
owned t n s (is_closed c) w = let f = c.owner in cc
owned t n s (is_heaped h) w = let (p, here, type) = h.here w in (p, here, rw type refl)

pub alloc-Inv :
    (t : PoolType) (n : ℕ) (memory : ℤ → Option ℕ) (size : Option ℤ) (s : State)
    → Inv t n s
    → suc n < 2 ^ 32
    → s.owner ≡ true
    → (a : Answer) × (s' : State) × (alloc memory size s ≡ some (a, s')) × Inv t (suc n) s'
unfolding alloc alloc_from
alloc-Inv t n memory size s i small w =
    let (mp, here, ok) = owned t n s i w in
    let z : ℤ = elim size [ none ↦ long_of_size mp.slice_size | some n ↦ n ] in
    let run = guarded s.owner s.mp mp _ none w here in
    elim (Bool-cases (not (is_fixed mp.type) && not (ltb_ℤ (pos 0) z))) [
      | inl bad ↦ (throws invalid_size, s, run ∙ rw bad refl, Inv-more t n s i)
      | inr good ↦ elim (Option-cases (memory z)) [
        | inl empty ↦ (failed, s, run ∙ rw (good, ok, empty) refl, Inv-more t n s i)
        | inr (place, full) ↦ (
          allocated (length s.slices),
          slice_made mp z place s,
          run ∙ rw (good, ok, full) refl,
          Inv-slice_made t n mp z place s i here w small,
        )
      ]
    ]
