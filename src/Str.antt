-- ===== src/Str.antt =====
-- Memory, and the fields of `swString` that the sources of this repository read and write
-- themselves. `swString` and its methods belong to the swoole core.
pub mod Holds
pub mod Patch
use async_ext.Prelude.{
  ℕ, zero, suc, ◌+◌, ◌-◌, ◌%◌, ◌^◌, ◌<◌, List, tabulate, ltb, ◌==◌, if◌then◌else◌,
}
use async_ext.Prelude.Int.{ℤ, pos, negsuc}

-- Memory gives the `char` at each address; a read through `zend_uchar` takes it modulo 256.
abbrev pub Memory : Type 0
Memory = ℕ → ℕ

abbrev pub byte : Memory → ℕ → ℕ
byte m k = m k % 256

-- Storing a `char`: `(char) (A)`.
unfoldable pub store : Memory → ℕ → ℕ → Memory
store m k v i = if i == k then v % 256 else m i

-- `memcpy(dest, src, n)` between places that do not overlap.
unfoldable pub memcpy : Memory → ℕ → Memory → ℕ → ℕ → Memory
unfolding store
memcpy dest d src s zero = dest
memcpy dest d src s (suc n) = store (memcpy dest d src s n) (d + n) (src (s + n))

abbrev pub slice : Memory → ℕ → ℕ → List ℕ
slice m k n = tabulate (λ i. byte m (k + i)) n

-- `swString`; `str` gives the memory from the pointer on.
pub record Str : Type 0 where
  pub str : Memory
  pub length : ℕ
  pub offset : ℕ
  pub size : ℕ

-- `a - b` of type `size_t`.
abbrev pub sub_size : ℕ → ℕ → ℕ
sub_size a b = (a + 2 ^ 64 - b) % 2 ^ 64

-- A `char`, which is signed, given as an unsigned number of 32 bits.
abbrev pub uint_of_char : ℕ → ℕ
uint_of_char c = if ltb c 128 then c else c + (2 ^ 32 - 2 ^ 8)

-- A `zend_long` given as a `size_t`.
abbrev pub size_of_long : ℤ → ℕ
size_of_long (pos n) = n % 2 ^ 64
size_of_long (negsuc n) = (2 ^ 64 - (n + 1) % 2 ^ 64) % 2 ^ 64

-- A `size_t` given as a `zend_long`.
abbrev pub long_of_size : ℕ → ℤ
long_of_size n = if ltb n (2 ^ 63) then pos n else negsuc (2 ^ 64 - 1 - n)

-- The value that is left of a sum of type `zend_long`.
abbrev pub wrap_long : ℤ → ℤ
wrap_long z = long_of_size (size_of_long z)

-- An integer of 64 bits.
abbrev pub IsLong : ℤ → Type 0
IsLong (pos n) = n < 2 ^ 63
IsLong (negsuc n) = n < 2 ^ 63
