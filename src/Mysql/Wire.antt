-- ===== src/Mysql/Wire.antt =====
-- The wire format of swoole_mysql_async.h: little-endian numbers, length-coded binaries, packet
-- headers.
pub mod Numbers
pub mod Lcb
pub use async_ext.Str.{Memory, byte}
unfoldable pub use async_ext.Str.{store}
use async_ext.Prelude.{
  ℕ, ◌+◌, ◌-◌, ◌*◌, ◌/◌, ◌%◌, ◌^◌, Bool, true, false, ◌||◌, Option, none, some, ltb, leb, ◌==◌,
  if◌then◌else◌,
}

-- The macros `mysql_uint2korr` to `mysql_uint8korr`; the argument is the memory and an address.
unfoldable pub uint2korr : Memory → ℕ → ℕ
uint2korr m k = (byte m k + byte m (k + 1) * 2 ^ 8) % 2 ^ 16

unfoldable pub uint3korr : Memory → ℕ → ℕ
uint3korr m k = (byte m k + byte m (k + 1) * 2 ^ 8 + byte m (k + 2) * 2 ^ 16) % 2 ^ 32

unfoldable pub uint4korr : Memory → ℕ → ℕ
uint4korr m k =
    (byte m k + byte m (k + 1) * 2 ^ 8 + byte m (k + 2) * 2 ^ 16 + byte m (k + 3) * 2 ^ 24) % 2 ^ 32

unfoldable pub uint8korr : Memory → ℕ → ℕ
unfolding uint4korr
uint8korr m k = (uint4korr m k + uint4korr m (k + 4) * 2 ^ 32) % 2 ^ 64

-- The macros `mysql_int1store` to `mysql_int8store`.
unfoldable pub int1store : Memory → ℕ → ℕ → Memory
unfolding store
int1store m k a = store m k a

unfoldable pub int2store : Memory → ℕ → ℕ → Memory
unfolding store
int2store m k a = let def_temp = a % 2 ^ 32 in store (store m k def_temp) (k + 1) (def_temp / 2 ^ 8)

unfoldable pub int3store : Memory → ℕ → ℕ → Memory
unfolding store
int3store m k a = store (store (store m k a) (k + 1) (a / 2 ^ 8)) (k + 2) (a / 2 ^ 16)

unfoldable pub int4store : Memory → ℕ → ℕ → Memory
unfolding store
int4store m k a =
    store (store (store (store m k a) (k + 1) (a / 2 ^ 8)) (k + 2) (a / 2 ^ 16)) (k + 3)
      (a / 2 ^ 24)

unfoldable pub int8store : Memory → ℕ → ℕ → Memory
unfolding int4store
int8store m k a = int4store (int4store m k (a % 2 ^ 32)) (k + 4) (a / 2 ^ 32 % 2 ^ 32)

-- `mysql_pack_length`
unfoldable pub pack_length : ℕ → Memory → Memory
unfolding store
pack_length len m = store (store (store m 2 (len / 2 ^ 16)) 1 (len / 2 ^ 8)) 0 len

-- A length-coded binary as read: the bytes it took, `*r` and `*nul`.
pub record Coded : Type 0 where
  pub width : ℕ
  pub value : ℕ
  pub nul : Bool

abbrev coded : ℕ → ℕ → Bool → Option Coded
coded w v n = some (record { width = w; value = v; nul = n })

-- `mysql_length_coded_binary`; `none` is the result -1.
unfoldable pub length_coded_binary : Memory → ℕ → ℕ → Option Coded
unfolding uint2korr uint3korr uint8korr
length_coded_binary m k len =
    if ltb len 1
    then none
    else if byte m k == 251
    then coded 1 0 true
    else if byte m k == 252
    then (if ltb len 3 then none else coded 3 (uint2korr m (k + 1)) false)
    else if byte m k == 253
    then (if ltb len 5 then none else coded 4 (uint3korr m (k + 1)) false)
    else if byte m k == 254
    then (if ltb len 9 then none else coded 9 (uint8korr m (k + 1)) false)
    else coded 1 (byte m k) false

-- `mysql_write_lcb`: the memory after it, and the number of bytes that it reports. The `long` is
-- given as its bit pattern, so a pattern of 2 ^ 63 or more is negative.
unfoldable pub write_lcb : Memory → ℕ → ℕ → Memory × ℕ
unfolding int1store int2store int3store int8store
write_lcb m k val =
    if leb val 250 || leb (2 ^ 63) val
    then (int1store m k val, 1)
    else if leb val 0xffff
    then (int2store m k val, 2)
    else if leb val 0xffffff
    then (int3store m k val, 3)
    else (int8store (int1store m k 254) k val, 9)

-- The constants of the packet header.
abbrev pub header_size : ℕ
header_size = 4

-- `mysql_ensure_packet` at address `k`; the buffer's length is given as an `int`.
unfoldable pub ensure_packet : Memory → ℕ → ℕ → Bool
unfolding uint3korr
ensure_packet m k n_buf =
    let n = n_buf % 2 ^ 32 in
    if leb (2 ^ 31) n || ltb n header_size
    then false
    else if ltb n (header_size + uint3korr m k)
    then false
    else true
