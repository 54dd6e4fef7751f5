-- ===== src/Pool.antt =====
-- Swoole\Memory\Pool and its slices, swoole_memory_pool.cc. The allocators of the core and of PHP are
-- parameters; `none` is an access to what was given back, or a second delete.
pub mod Blocks
pub mod Run
pub mod Life
pub mod Gone
pub mod Trace
mod Tests
use async_ext.Prelude.{
  ℕ, zero, suc, ◌+◌, ◌-◌, ◌%◌, ◌^◌, Bool, true, false, not, ◌&&◌, ◌||◌, Option, none, some, List,
  [], ◌∷◌, ◌++◌, length, set, get_or, ltb, leb, ◌==◌, if◌then◌else◌, ◌>>=◌,
}
use async_ext.Prelude.Int.{ℤ, pos, negsuc, ltb_ℤ}
use async_ext.Str.{Memory, slice, memcpy, size_of_long, long_of_size}

-- `memory_pool_type`
pub data PoolType : Type 0 where
  fixed : PoolType
  ring : PoolType
  global : PoolType
  malloc : PoolType
  emalloc : PoolType

-- The member of the enumeration that a number is.
unfoldable pub type_of : ℤ → Option PoolType
type_of (negsuc n) = none
type_of (pos n) =
    if n == 0
    then some fixed
    else if n == 1
    then some ring
    else if n == 2
    then some global
    else if n == 3
    then some malloc
    else if n == 4
    then some emalloc
    else none

-- The pool of the core behind `MemoryPool`: a null pointer, there, or deleted.
pub data CorePool : Type 0 where
  null : CorePool
  live : CorePool
  deleted : CorePool

-- `MemoryPool`.
pub record MemoryPool : Type 0 where
  pub size : ℕ
  pub slice_size : ℕ
  pub type : PoolType
  pub shared : Bool
  pub released : Bool
  pub slice_count : ℕ

-- `MemorySlice`; `memory` is an address.
pub record MemorySlice : Type 0 where
  pub size : ℕ
  pub type : PoolType
  pub memory : ℕ

-- A pool with its slices: whether the PHP object has its pool still, `MemoryPool` until it is given
-- back, the core's pool, the pointers of the slice objects in the order of their making, and the
-- addresses that were given back.
pub record State : Type 0 where
  pub owner : Bool
  pub mp : Option MemoryPool
  pub core : CorePool
  pub slices : List (Option MemorySlice)
  pub frees : List ℕ

pub data Exception : Type 0 where
  malloc_failed : Exception
  unknown_type : Exception
  invalid_size : Exception

-- `sizeof(MemoryPool)` and `sizeof(MemorySlice)` where a pointer has eight bytes.
abbrev pub pool_bytes : ℕ
pool_bytes = 40

abbrev pub slice_bytes : ℕ
slice_bytes = 32

-- Whether there is memory: for a fixed pool of this size, shared or not, and for a shared `MemoryPool`.
-- A block of this size has `room` for so many bytes.
pub record Core : Type 0 where
  pub memory : ℤ → Bool → Bool
  pub mem_pool : Bool
  pub room : ℕ → ℕ

pub data Constructed : Type 0 where
  thrown : Exception → Constructed
  overrun : Constructed
  built : State → Constructed

abbrev pub fresh : ℤ → ℤ → PoolType → Bool → CorePool → State
fresh size slice_size type shared core = record {
  owner = true;
  mp = some (record {
    size = size_of_long size;
    slice_size = size_of_long slice_size;
    type = type;
    shared = shared;
    released = false;
    slice_count = 0;
  });
  core = core;
  slices = [];
  frees = [];
}

-- The end of the constructor, the pool of the core made. The block of the `MemoryPool` is asked for with
-- the size of a `MemorySlice`.
unfoldable pub make : Core → ℤ → ℤ → PoolType → Bool → CorePool → Constructed
make k size slice_size type shared core =
    if shared && not k.mem_pool
    then thrown malloc_failed
    else if ltb (k.room slice_bytes) pool_bytes
    then overrun
    else built (fresh size slice_size type shared core)

-- The branches of `__construct`; the test for TYPE_EMALLOC names TYPE_MALLOC twice.
unfoldable pub construct_as : Core → ℤ → ℤ → Bool → Option PoolType → Constructed
construct_as k size slice_size shared none = thrown unknown_type
construct_as k size slice_size shared (some fixed) =
    if k.memory size shared then make k size slice_size fixed shared live else thrown malloc_failed
construct_as k size slice_size shared (some ring) = make k size slice_size ring shared live
construct_as k size slice_size shared (some global) = make k size slice_size global shared live
construct_as k size slice_size shared (some malloc) = make k size slice_size malloc false null
construct_as k size slice_size shared (some emalloc) = thrown unknown_type

unfoldable pub construct : Core → ℤ → ℤ → ℤ → Bool → Constructed
unfolding type_of construct_as make
construct k size type slice_size shared = construct_as k size slice_size shared (type_of type)

-- The types whose memory comes from the pool of the core.
abbrev pub is_managed : PoolType → Bool
is_managed fixed = true
is_managed ring = true
is_managed global = true
is_managed malloc = false
is_managed emalloc = false

abbrev pub is_fixed : PoolType → Bool
is_fixed fixed = true
is_fixed ring = false
is_fixed global = false
is_fixed malloc = false
is_fixed emalloc = false

-- What `alloc` answers: an exception, false, or the slice with this number.
pub data Answer : Type 0 where
  throws : Exception → Answer
  failed : Answer
  allocated : ℕ → Answer

-- A call of the pool of the core is defined.
abbrev pub is_live : CorePool → Bool
is_live null = false
is_live live = true
is_live deleted = false

-- The slice that is made, and counted.
unfoldable pub slice_made : MemoryPool → ℤ → ℕ → State → State
slice_made mp size place s = record s {
  mp = some (record mp { slice_count = (mp.slice_count + 1) % 2 ^ 32 });
  slices =
      s.slices ++ (some (record { size = size_of_long size; type = mp.type; memory = place }) ∷ []);
}

-- `alloc`; `memory` is what the allocator of the type gives for a size.
unfoldable pub alloc_from : (ℤ → Option ℕ) → ℤ → MemoryPool → State → Option (Answer × State)
unfolding slice_made
alloc_from memory size mp s =
    if not (is_fixed mp.type) && not (ltb_ℤ (pos 0) size)
    then some (throws invalid_size, s)
    else if not (is_managed mp.type) || is_live s.core
    then some (elim (memory size) [
      | none ↦ (failed, s)
      | some place ↦ (allocated (length s.slices), slice_made mp size place s)
    ])
    else none

unfoldable pub alloc : (ℤ → Option ℕ) → Option ℤ → State → Option (Answer × State)
alloc memory size s =
    if s.owner
    then (s.mp >>= λ mp.
        alloc_from memory (elim size [ none ↦ long_of_size mp.slice_size | some n ↦ n ]) mp s)
    else none

-- `delete mp->pool`, then `efree(mp)` unless it is shared.
unfoldable pub delete_pool : MemoryPool → State → Option State
delete_pool mp s =
    let s' = record s { mp = if mp.shared then some mp else none } in
    elim (s.core) [ null ↦ some s' | live ↦ some (record s' { core = deleted }) | deleted ↦ none ]

-- `__destruct` of the pool, its own pointer set to null; the test for TYPE_EMALLOC names TYPE_MALLOC
-- twice.
unfoldable pub release_as : PoolType → MemoryPool → State → Option State
unfolding delete_pool
release_as malloc mp s = some (record s { mp = none })
release_as t mp s =
    let mp' = record mp { released = true } in
    if mp.slice_count == 0
    then delete_pool mp' (record s { mp = some mp' })
    else some (record s { mp = some mp' })

unfoldable pub pool_destruct : State → Option State
pool_destruct s =
    if s.owner then (s.mp >>= λ mp. release_as mp.type mp (record s { owner = false })) else some s

-- A slice gives its memory to the pool of the core; the last one of a released pool deletes it.
unfoldable pub give_back : MemoryPool → State → Option State
unfolding delete_pool
give_back mp s =
    let mp' = record mp { slice_count = (mp.slice_count + 2 ^ 32 - 1) % 2 ^ 32 } in
    let s' = record s { mp = some mp' } in
    if mp'.released && (mp'.slice_count == 0) then delete_pool mp' s' else some s'

-- The memory is given back, and the slice object's pointer is null.
abbrev pub forgotten : ℕ → MemorySlice → State → State
forgotten i info s = record s {
  slices = set s.slices i none;
  frees = s.frees ++ (info.memory ∷ []);
}

-- `__destruct` of the slice with this number.
unfoldable pub slice_destruct : ℕ → State → Option State
unfolding give_back
slice_destruct i s = elim (get_or s.slices i none) [
  | none ↦ some s
  | some info ↦
      if is_managed info.type
      then (if is_live s.core then (s.mp >>= λ mp. give_back mp (forgotten i info s)) else none)
      else some (forgotten i info s)
]

-- `read` of a slice; nothing is false. A size of 0 or less, or one that is too big, is the slice's own.
-- The sum is compared as a `size_t`.
unfoldable pub slice_read : Memory → MemorySlice → ℤ → ℤ → Option (List ℕ)
slice_read m info size offset =
    let n =
      if ltb_ℤ (pos 0) size
      then (if ltb info.size (size_of_long size) then info.size else size_of_long size)
      else info.size in
    elim offset [
      | negsuc k ↦ none
      | pos k ↦
          if ltb info.size ((k + n) % 2 ^ 64) then none else some (slice m (info.memory + k) n)
    ]

-- `write` of a slice: whether it wrote, and the memory.
unfoldable pub slice_write : Memory → MemorySlice → List ℕ → ℤ → Bool × Memory
slice_write m info text offset =
    let n = length text in
    if ltb info.size n then (false, m) else elim offset [
      | negsuc k ↦ (false, m)
      | pos k ↦
          if ltb info.size ((k + n) % 2 ^ 64)
          then (false, m)
          else (true, memcpy m (info.memory + k) (λ i. get_or text i 0) 0 n)
    ]
