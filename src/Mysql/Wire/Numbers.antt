-- ===== src/Mysql/Wire/Numbers.antt =====
-- The number macros of swoole_mysql_async.h: `korr` reads back what `store` wrote.
use async_ext.Prelude.{ℕ, ◌+◌, ◌*◌, ◌/◌, ◌%◌, ◌^◌, ◌<◌, ◌≤◌, ◌≡◌, ◌⊎◌, arith, ap, ap₂, ◌∙◌}
use async_ext.Mysql.Wire.{
  Memory, byte, store, uint2korr, uint3korr, uint4korr, uint8korr, int2store, int3store, int4store,
  int8store, pack_length,
}

-- Two memories that hold the same bytes at the `len` addresses from `k` on.
abbrev pub Agree : Memory → Memory → ℕ → ℕ → Type 0
Agree m m' k len = (i : ℕ) → i < len → byte m (k + i) ≡ byte m' (k + i)

pub uint2korr-lt : (m : Memory) (k : ℕ) → uint2korr m k < 2 ^ 16
unfolding uint2korr
uint2korr-lt m k = omega arith

pub uint3korr-lt : (m : Memory) (k : ℕ) → uint3korr m k < 2 ^ 24
unfolding uint3korr
uint3korr-lt m k = omega arith

pub uint4korr-lt : (m : Memory) (k : ℕ) → uint4korr m k < 2 ^ 32
unfolding uint4korr
uint4korr-lt m k = omega arith

pub uint8korr-lt : (m : Memory) (k : ℕ) → uint8korr m k < 2 ^ 64
unfolding uint8korr
uint8korr-lt m k = omega arith

-- What `mysql_int2store` and `mysql_int3store` write, `korr` reads back, if it fits.
pub uint2korr-int2store : (m : Memory) (k v : ℕ) → v < 2 ^ 16 → uint2korr (int2store m k v) k ≡ v
unfolding uint2korr int2store store
uint2korr-int2store m k v h = ground arith

pub uint3korr-int3store : (m : Memory) (k v : ℕ) → v < 2 ^ 24 → uint3korr (int3store m k v) k ≡ v
unfolding uint3korr int3store store
uint3korr-int3store m k v h = ground arith

pub uint4korr-int4store : (m : Memory) (k v : ℕ) → v < 2 ^ 32 → uint4korr (int4store m k v) k ≡ v
unfolding uint4korr int4store store
uint4korr-int4store m k v h = ground arith

-- A number stored four bytes further on leaves this one alone.
uint4korr-int4store_next :
    (m : Memory) (k v : ℕ) → uint4korr (int4store m (k + 4) v) k ≡ uint4korr m k
unfolding uint4korr int4store store
uint4korr-int4store_next m k v = ground arith

-- mysql_uint8korr reads back what mysql_int8store wrote, for a number below 2^64.
pub uint8korr-int8store : (m : Memory) (k v : ℕ) → v < 2 ^ 64 → uint8korr (int8store m k v) k ≡ v
unfolding uint8korr int8store
uint8korr-int8store m k v h = omega (
  arith,
  uint4korr-int4store_next (int4store m k (v % 2 ^ 32)) k (v / 2 ^ 32 % 2 ^ 32),
  uint4korr-int4store m k (v % 2 ^ 32) (omega arith),
  uint4korr-int4store (int4store m k (v % 2 ^ 32)) (k + 4) (v / 2 ^ 32 % 2 ^ 32) (omega arith),
)

-- mysql_uint3korr reads back what mysql_pack_length wrote, for a length below 2^24.
pub uint3korr-pack_length : (m : Memory) (v : ℕ) → v < 2 ^ 24 → uint3korr (pack_length v m) 0 ≡ v
unfolding uint3korr pack_length store
uint3korr-pack_length m v h = ground arith

-- A number depends on its own bytes only.
module _ (m m' : Memory) (k len : ℕ) (same : Agree m m' k len) where
  pub byte-local : (i : ℕ) → i < len → byte m (k + i) ≡ byte m' (k + i)
  byte-local i h = same i h

  pub byte-local_first : 0 < len → byte m k ≡ byte m' k
  byte-local_first h =
      ap (λ j. byte m j) (omega arith) ∙ same 0 h ∙ ap (λ j. byte m' j) (omega arith)

  at : (i j : ℕ) → i + j < len → byte m (k + i + j) ≡ byte m' (k + i + j)
  at i j h = ap (byte m) (omega arith) ∙ same (i + j) h ∙ ap (byte m') (omega arith)

  pub uint2korr-local : (i : ℕ) → i + 2 ≤ len → uint2korr m (k + i) ≡ uint2korr m' (k + i)
  unfolding uint2korr
  uint2korr-local i h = rw (same i (omega arith), at i 1 (omega arith))

  pub uint3korr-local : (i : ℕ) → i + 3 ≤ len → uint3korr m (k + i) ≡ uint3korr m' (k + i)
  unfolding uint3korr
  uint3korr-local i h = rw (same i (omega arith), at i 1 (omega arith), at i 2 (omega arith))

  pub uint4korr-local : (i : ℕ) → i + 4 ≤ len → uint4korr m (k + i) ≡ uint4korr m' (k + i)
  unfolding uint4korr
  uint4korr-local i h =
      rw (same i (omega arith), at i 1 (omega arith), at i 2 (omega arith), at i 3 (omega arith))

  pub uint8korr-local : (i : ℕ) → i + 8 ≤ len → uint8korr m (k + i) ≡ uint8korr m' (k + i)
  unfolding uint8korr
  uint8korr-local i h =
      ap₂ (λ a b. (a + b * 2 ^ 32) % 2 ^ 64) (uint4korr-local i (omega arith))
        (ap (uint4korr m) (omega arith)
          ∙ uint4korr-local (i + 4) (omega arith)
          ∙ ap (uint4korr m') (omega arith))

-- The bytes that the stores write, one by one, and those that they leave alone.
pub int4store-bytes :
    (m : Memory) (k a : ℕ)
    → let m' = int4store m k a in
      (byte m' k ≡ a % 256)
      × (byte m' (k + 1) ≡ a / 2 ^ 8 % 256)
      × (byte m' (k + 2) ≡ a / 2 ^ 16 % 256)
      × (byte m' (k + 3) ≡ a / 2 ^ 24 % 256)
unfolding int4store store
int4store-bytes m k a = ground arith

pub int4store-outside :
    (m : Memory) (k a j : ℕ) → (j < k) ⊎ (k + 4 ≤ j) → byte (int4store m k a) j ≡ byte m j
unfolding int4store store
int4store-outside m k a j h = ground arith

pub int8store-low :
    (m : Memory) (k a : ℕ)
    → let m' = int8store m k a in
      (byte m' k ≡ a % 256)
      × (byte m' (k + 1) ≡ a / 2 ^ 8 % 256)
      × (byte m' (k + 2) ≡ a / 2 ^ 16 % 256)
      × (byte m' (k + 3) ≡ a / 2 ^ 24 % 256)
unfolding int8store
int8store-low m k a = (
  ground (arith, int4store-bytes m k (a % 2 ^ 32), keep k),
  ground (arith, int4store-bytes m k (a % 2 ^ 32), keep (k + 1)),
  ground (arith, int4store-bytes m k (a % 2 ^ 32), keep (k + 2)),
  ground (arith, int4store-bytes m k (a % 2 ^ 32), keep (k + 3)),
)
  where
    keep :
        (j : ℕ)
        → (j < k + 4) ⊎ (k + 4 + 4 ≤ j)
        → byte (int4store (int4store m k (a % 2 ^ 32)) (k + 4) (a / 2 ^ 32 % 2 ^ 32)) j
          ≡ byte (int4store m k (a % 2 ^ 32)) j
    keep j = int4store-outside (int4store m k (a % 2 ^ 32)) (k + 4) (a / 2 ^ 32 % 2 ^ 32) j

pub int8store-high :
    (m : Memory) (k a : ℕ)
    → let m' = int8store m k a in
      (byte m' (k + 4) ≡ a / 2 ^ 32 % 256)
      × (byte m' (k + 5) ≡ a / 2 ^ 40 % 256)
      × (byte m' (k + 6) ≡ a / 2 ^ 48 % 256)
      × (byte m' (k + 7) ≡ a / 2 ^ 56 % 256)
unfolding int8store
int8store-high m k a =
    (ground (arith, high), ground (arith, high), ground (arith, high), ground (arith, high))
  where
    high :
        let m' = int8store m k a in
        (byte m' (k + 4) ≡ a / 2 ^ 32 % 2 ^ 32 % 256)
        × (byte m' (k + 4 + 1) ≡ a / 2 ^ 32 % 2 ^ 32 / 2 ^ 8 % 256)
        × (byte m' (k + 4 + 2) ≡ a / 2 ^ 32 % 2 ^ 32 / 2 ^ 16 % 256)
        × (byte m' (k + 4 + 3) ≡ a / 2 ^ 32 % 2 ^ 32 / 2 ^ 24 % 256)
    high = int4store-bytes (int4store m k (a % 2 ^ 32)) (k + 4) (a / 2 ^ 32 % 2 ^ 32)
