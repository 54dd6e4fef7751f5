-- ===== src/Mysql/Wire/Lcb.antt =====
-- Length-coded binaries: what mysql_length_coded_binary and mysql_write_lcb of
-- swoole_mysql_async.h do against the encoding of the MySQL protocol.
use native.Mathlib.Decide.{dec_lt}
pub use async_ext.Str.Holds.{Holds, Holds-append, slice-Holds}
use async_ext.Prelude.{
  ℕ, zero, suc, ◌+◌, ◌*◌, ◌/◌, ◌%◌, ◌^◌, ◌<◌, ◌≤◌, ◌≡◌, ◌≢◌, ◌⊎◌, false, some, List, [], ◌∷◌,
  length, leb, if◌then◌else◌, arith, ap,
}
use async_ext.Mysql.Wire.{
  Memory, byte, store, uint2korr, uint4korr, uint8korr, int1store, int2store, int3store, int8store,
  Coded, length_coded_binary, write_lcb,
}
use async_ext.Mysql.Wire.Numbers.{
  Agree, byte-local_first, uint2korr-local, uint3korr-local, uint8korr-local, uint8korr-lt,
  uint2korr-lt, uint3korr-lt, int8store-low, int8store-high,
}

-- A value that needs more than three bytes was read from nine.
pub width_of_large :
    (m : Memory) (k len : ℕ) {c : Coded}
    → length_coded_binary m k len ≡ some c
    → 2 ^ 32 ≤ c.value
    → c.width ≡ 9
unfolding length_coded_binary
width_of_large m k len h big = ground (arith, uint2korr-lt m (k + 1), uint3korr-lt m (k + 1))

-- The protocol's encoding of a number below 2 ^ 64.
abbrev pub tail_bytes : ℕ → ℕ → List ℕ
tail_bytes zero v = []
tail_bytes (suc n) v = v % 256 ∷ tail_bytes n (v / 256)

unfoldable pub encode : ℕ → List ℕ
encode v =
    if leb v 250
    then v ∷ []
    else if leb v 0xffff
    then 252 ∷ tail_bytes 2 v
    else if leb v 0xffffff
    then 253 ∷ tail_bytes 3 v
    else 254 ∷ tail_bytes 8 v

-- What mysql_length_coded_binary reads takes at least one byte, at most nine and no more than are
-- given, and its value is below 2^64.
pub length_coded_binary_bounds :
    (m : Memory) (k len : ℕ) {c : Coded}
    → length_coded_binary m k len ≡ some c
    → (1 ≤ c.width) × (c.width ≤ len) × (c.width ≤ 9) × (c.value < 2 ^ 64)
unfolding length_coded_binary
length_coded_binary_bounds m k len h = ground (arith, uint8korr-lt m (k + 1))

-- The result of mysql_length_coded_binary depends on no byte behind those given.
pub length_coded_binary_local :
    (m m' : Memory) (k len : ℕ)
    → Agree m m' k len
    → length_coded_binary m k len ≡ length_coded_binary m' k len
unfolding length_coded_binary
length_coded_binary_local m m' k len h = ground (
  arith,
  byte-local_first m m' k len h,
  uint2korr-local m m' k len h 1,
  uint3korr-local m m' k len h 1,
  uint8korr-local m m' k len h 1,
)

-- mysql_length_coded_binary reads back the protocol's encoding of a number below 2^64 with its
-- width, if the encoding lies within the bytes given and the number is at most 0xffff or at least
-- five bytes are given.
pub length_coded_binary-encode :
    (m : Memory) (k len v : ℕ)
    → v < 2 ^ 64
    → Holds m k (encode v)
    → length (encode v) ≤ len
    → (v ≤ 0xffff) ⊎ (5 ≤ len)
    → length_coded_binary m k len
      ≡ some (record { width = length (encode v); value = v; nul = false })
unfolding encode length_coded_binary uint4korr
length_coded_binary-encode m k len v small held fits room = ground arith

-- mysql_length_coded_binary, given at least one byte, reads back what mysql_write_lcb writes for a
-- number up to 250, with the width that was reported.
pub write_lcb-small :
    (m : Memory) (k v len : ℕ)
    → v ≤ 250
    → 1 ≤ len
    → length_coded_binary (write_lcb m k v).0 k len
      ≡ some (record { width = (write_lcb m k v).1; value = v; nul = false })
unfolding write_lcb length_coded_binary store
write_lcb-small m k v len h l = ground arith

-- A width tells the form that was read.
wide :
    (m : Memory) (k len : ℕ) {c : Coded}
    → length_coded_binary m k len ≡ some c
    → c.width ≡ 9
    → (byte m k ≡ 254) × (c.value ≡ uint8korr m (k + 1))
unfolding length_coded_binary
wide m k len h w = ground arith

medium :
    (m : Memory) (k len : ℕ) {c : Coded}
    → length_coded_binary m k len ≡ some c
    → c.width ≡ 3
    → c.value ≡ uint2korr m (k + 1)
unfolding length_coded_binary
medium m k len h w = ground arith

narrow : (m : Memory) (k len : ℕ) {c : Coded} → length_coded_binary m k len ≡ some c → c.width ≢ 2
unfolding length_coded_binary
narrow m k len h w = ground arith

-- The number that starts at the second of the eight bytes.
eight-shifted :
    (m : Memory) (k a : ℕ)
    → uint8korr (int8store m k a) (k + 1)
      ≡ a % 2 ^ 64 / 2 ^ 8 + byte (int8store m k a) (k + 8) * 2 ^ 56
unfolding uint8korr uint4korr
eight-shifted m k a = ground (arith, int8store-low m k a, int8store-high m k a)

three-shifted : (m : Memory) (k v : ℕ) → uint2korr (int3store m k v) (k + 1) ≡ v / 2 ^ 8 % 2 ^ 16
unfolding int3store store uint2korr
three-shifted m k v = ground arith

-- The branches of `mysql_write_lcb`.
write_lcb-two :
    (m : Memory) (k v : ℕ) → 250 < v → v < 0x10000 → write_lcb m k v ≡ (int2store m k v, 2)
unfolding write_lcb
write_lcb-two m k v h a = ground arith

write_lcb-three :
    (m : Memory) (k v : ℕ) → 0xffff < v → v < 0x1000000 → write_lcb m k v ≡ (int3store m k v, 3)
unfolding write_lcb
write_lcb-three m k v h a = ground arith

write_lcb-nine :
    (m : Memory) (k v : ℕ)
    → 0xffffff < v
    → v < 2 ^ 63
    → write_lcb m k v ≡ (int8store (int1store m k 254) k v, 9)
unfolding write_lcb
write_lcb-nine m k v h a = ground arith

eight_unreadable :
    (m' m : Memory) (k v : ℕ)
    → 0xffffff < v
    → v < 2 ^ 63
    → m' ≡ int8store m k v
    → (byte m' k ≡ 254) × (v ≡ uint8korr m' (k + 1))
    → ⊥
eight_unreadable m' m k v h l e r = omega (
  arith,
  ap (λ (n : Memory). byte n k) e,
  ap (λ (n : Memory). uint8korr n (k + 1)) e,
  eight-shifted m k v,
  int8store-low m k v,
)

-- For no number from 251 to 2^63 - 1 does mysql_length_coded_binary read back what mysql_write_lcb
-- writes with that value and the width that was reported.
pub write_lcb-unreadable :
    (m : Memory) (k v len : ℕ)
    → 250 < v
    → v < 2 ^ 63
    → length_coded_binary (write_lcb m k v).0 k len
      ≢ some (record { width = (write_lcb m k v).1; value = v; nul = false })
write_lcb-unreadable m k v len h l e = elim (dec_lt v 0x10000) [
  | yes a ↦ narrow _ k len e (ap (λ (r : Memory × ℕ). r.1) (write_lcb-two m k v h a))
  | no a ↦ elim (dec_lt v 0x1000000) [
    | yes b ↦ omega (
      arith,
      medium _ k len e (ap (λ (r : Memory × ℕ). r.1) (write_lcb-three m k v (omega arith) b)),
      ap (λ (r : Memory × ℕ). uint2korr r.0 (k + 1)) (write_lcb-three m k v (omega arith) b),
      three-shifted m k v,
    )
    | no b ↦
        eight_unreadable _ (int1store m k 254) k v (omega arith) l
          (ap (λ (r : Memory × ℕ). r.0) (write_lcb-nine m k v (omega arith) l))
          (wide _ k len e (ap (λ (r : Memory × ℕ). r.1) (write_lcb-nine m k v (omega arith) l)))
  ]
]

pub length-encode : (v : ℕ) → (1 ≤ length (encode v)) × (length (encode v) ≤ 9)
unfolding encode
length-encode v = ground arith

-- With as many bytes as its value a length-coded string satisfies the test for 253.
pub room : (v n : ℕ) → v ≤ n → (v ≤ 0xffff) ⊎ (5 ≤ n)
room v n h = omega arith
