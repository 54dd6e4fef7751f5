-- ===== src/Mysql/Auth/Rsa.antt =====
-- swoole_mysql.cc: mysql_parse_rsa.
use async_ext.Prelude.{
  ◌%◌, ◌^◌, ℕ, zero, suc, ◌+◌, ◌-◌, Option, none, some, List, [], ◌∷◌, ◌++◌, take, length,
  replicate, ltb, ◌==◌, if◌then◌else◌, ◌>>=◌,
}
use Prim.Native.Nat.{bit_xor}
use async_ext.Str.{Memory, byte, slice}
use async_ext.Mysql.Wire.{header_size, uint3korr}
use async_ext.Mysql.Auth.{
  Connector, Crypto, Parsed, waits, failed, sends, overrun, wait_result, buf_size, put, finish,
}

-- Where the key begins, in `mysql_parse_rsa`: at the first '-', which is looked for without a limit.
unfoldable pub key_start : ℕ → Memory → ℕ → Option ℕ
key_start zero m k = none
key_start (suc fuel) m k =
    let rest = key_start fuel m (k + 1) in if byte m k == 45 then some k else rest

-- The password with its zero, xored with the challenge over and over.
unfoldable pub xor_nonce : List ℕ → List ℕ → List ℕ → List ℕ
xor_nonce [] nonce all = []
xor_nonce (x ∷ xs) [] [] = []
xor_nonce (x ∷ xs) [] (n ∷ ns) = bit_xor x n ∷ xor_nonce xs ns (n ∷ ns)
xor_nonce (x ∷ xs) (n ∷ ns) all = bit_xor x n ∷ xor_nonce xs ns all

-- The message for the server: as much of the password as the key, of 42 bytes or more, can take.
unfoldable pub rsa_message : Crypto → List ℕ → List ℕ → Option (List ℕ)
rsa_message h key password = h.rsa_size key >>= λ n. h.rsa_encrypt key (take (n - 42) password)

-- `mysql_parse_rsa` of the packet at `k`, from a key that begins at `start`.
unfoldable pub rsa_answer : Crypto → Memory → ℕ → ℕ → Memory → Connector → Parsed
unfolding uint3korr xor_nonce rsa_message put finish
rsa_answer h m k start empty c =
    let password = xor_nonce (c.password ++ (0 ∷ [])) c.auth_plugin_data c.auth_plugin_data in
    elim (rsa_message h (slice m start (k + 4 + uint3korr m k - start)) password) [
      | none ↦ failed (record c { packet_length = 0; buf = empty })
      | some msg ↦
          if ltb buf_size (header_size + length msg)
          then overrun
          else sends wait_result (finish (length msg) (byte m (k + 3) + 1) (put empty 4 msg) c)
    ]

unfoldable pub parse_rsa : Crypto → ℕ → Memory → ℕ → ℕ → Connector → Parsed
unfolding uint3korr key_start rsa_answer put
parse_rsa h fuel m k len c =
    let empty = put c.buf 0 (replicate buf_size 0) in
    if ltb (len % 2 ^ 32) (header_size + uint3korr m k)
    then waits (record c { packet_length = 0; buf = empty })
    else elim (key_start fuel m (k + 4)) [
      | none ↦ overrun
      | some start ↦
          if ltb (k + 4 + uint3korr m k) start then overrun else rsa_answer h m k start empty c
    ]
