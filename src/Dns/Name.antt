-- ===== src/Dns/Name.antt =====
-- domain_encode and domain_decode of swoole_async.cc, in place in memory as in the source.
pub mod Encode
pub mod Rounds
pub mod Decode
pub mod Harmless
use async_ext.Prelude.{
  ℕ, zero, suc, ◌+◌, ◌-◌, ◌%◌, ◌^◌, Bool, Option, none, some, ltb, leb, ◌==◌, if◌then◌else◌, ◌>>=◌,
}
use async_ext.Str.{Memory, byte, store, memcpy, uint_of_char}

-- The character '.'.
abbrev pub dot : ℕ
dot = 46

-- The loop of domain_encode, with `left` rounds to go; `src` is `dest + 1`. The last `pos` and the
-- memory.
unfoldable pub encode_loop : ℕ → ℕ → ℕ → ℕ → Memory → ℕ × Memory
unfolding store
encode_loop d zero i pos m = (pos, m)
encode_loop d (suc left) i pos m =
    if byte m (d + 1 + i) == dot
    then encode_loop d left (i + 1) (pos + (i - pos) + 1) (store m (d + pos) (i - pos))
    else encode_loop d left (i + 1) pos m

-- Behind the loop: `dest[pos] = 0`.
unfoldable pub end_name : ℕ → ℕ × Memory → Memory
unfolding store
end_name d (pos, m) = store m (d + pos) 0

-- `domain_encode` of the `n` chars at `s`, with the destination at `d`; `none` is SW_ERR.
unfoldable pub domain_encode : Memory → ℕ → ℕ → Memory → ℕ → Option Memory
unfolding memcpy encode_loop end_name store
domain_encode src s n dest d =
    if byte src (s + n) == dot
    then none
    else some (
        end_name d (
          encode_loop d (n + 1) 0 0
            (store (store (memcpy dest (d + 1) src s (n + 1)) (d + (n + 1)) dot) (d + (n + 2)) 0)))

-- `strlen` of the string at `k`, which has to end within `room` chars.
unfoldable pub strlen : ℕ → Memory → ℕ → Option ℕ
strlen zero m k = none
strlen (suc room) m k =
    let rest = strlen room m (k + 1) in if byte m k == 0 then some 0 else rest >>= λ n. some (suc n)

-- The inner loop of domain_decode: `len` chars move one place down, from `k + i` on.
unfoldable pub shift : ℕ → ℕ → Memory → Memory
unfolding store
shift zero k m = m
shift (suc len) k m = shift len (k + 1) (store m k (m (k + 1)))

-- The outer loop, for a string at `k` in `room` bytes; the result is the last `i` and the memory. A
-- round moves `i` on, so `room` and one more rounds are enough.
unfoldable pub decode_loop : ℕ → ℕ → ℕ → ℕ → Memory → Option (ℕ × Memory)
unfolding strlen shift store
decode_loop zero room k i m = none
decode_loop (suc fuel) room k i m =
    let len = uint_of_char (byte m (k + i)) in
    let rest =
      decode_loop fuel room k (i + len + 1) (store (shift len (k + i) m) (k + (i + len)) dot) in
    strlen room m k >>= λ n.
    if ltb i n then (if ltb (i + len) room then rest else none) else some (i, m)

-- Behind the loop: `str[i - 1] = '\0'`, which is outside the string if it was empty.
unfoldable pub end_text : ℕ → ℕ × Memory → Option Memory
unfolding store
end_text k (zero, m) = none
end_text k (suc i, m) = some (store m (k + i) 0)

-- `domain_decode`
unfoldable pub domain_decode : ℕ → Memory → ℕ → Option Memory
unfolding decode_loop end_text
domain_decode room m k = decode_loop (suc room) room k 0 m >>= end_text k
