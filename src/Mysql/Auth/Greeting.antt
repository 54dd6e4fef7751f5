-- ===== src/Mysql/Auth/Greeting.antt =====
-- mysql_handshake of swoole_mysql.cc: the server's greeting, and the answer to it.
use async_ext.Prelude.{
  ◌&&◌, ℕ, zero, suc, ◌+◌, ◌-◌, ◌*◌, ◌/◌, ◌%◌, ◌^◌, Bool, ◌||◌, Option, none, some, List, [], ◌∷◌,
  ◌++◌, take, length, replicate, ltb, leb, ◌==◌, if◌then◌else◌, ◌>>=◌,
}
use Prim.Native.Nat.{max, min}
use async_ext.Str.{Memory, byte, slice}
use async_ext.Mysql.Wire.{header_size, uint2korr, uint3korr}
use async_ext.Mysql.Packet.{packet_err}
use async_ext.Mysql.Auth.{
  Connector, Crypto, HandshakeState, wait_result, Parsed, waits, failed, sends, overrun,
  nonce_length, buf_size, error_packet, encrypt_dispatch, put, finish,
}

-- The fields of `mysql_handshake_request` that are used. The name is what `memcpy` copies of it, and
-- `plugin` what `strcasecmp` reads.
pub record Request : Type 0 where
  pub auth_plugin_data : List ℕ
  pub character_set : ℕ
  pub capability_flags : ℕ
  pub plugin : Option (List ℕ)
  pub name : List ℕ

abbrev pub has_flag : ℕ → ℕ → Bool
has_flag flags bit = flags / 2 ^ bit % 2 == 1

-- SW_MYSQL_CLIENT_SECURE_CONNECTION and SW_MYSQL_CLIENT_PLUGIN_AUTH, as bits.
abbrev pub secure_connection : ℕ
secure_connection = 15

abbrev pub plugin_auth : ℕ
plugin_auth = 19

-- `strlen` in memory of this size.
unfoldable pub strlen : ℕ → Memory → ℕ → Option ℕ
strlen zero m k = none
strlen (suc room) m k =
    let rest = strlen room m (k + 1) in if byte m k == 0 then some 0 else rest >>= λ n. some (suc n)

-- The name of the plugin at `k`, where `len` is an int as its bit pattern. `MIN` compares with a `size_t`.
unfoldable pub plugin_name : Memory → ℕ → ℕ → ℕ → Request → Option Request
unfolding strlen
plugin_name m k len size r =
    if has_flag r.capability_flags plugin_auth
    then (strlen (size - k) m k >>= λ n. some (record r {
      plugin = some (slice m k n);
      name = slice m k ((if leb k len && ltb len (2 ^ 31) then min n (len - k) else n) % 256);
    }))
    else some r

-- The second part of the challenge. The array has room for 13 chars behind the first part.
unfoldable pub second_part : Memory → ℕ → ℕ → ℕ → ℕ → Request → Option Request
unfolding plugin_name
second_part m k l len size r =
    let n = max 13 (l - 8) in
    if has_flag r.capability_flags secure_connection
    then (if ltb 13 n || ltb size (k + n)
        then none
        else plugin_name m (k + n) len size
            (record r { auth_plugin_data = r.auth_plugin_data ++ slice m k n }))
    else plugin_name m k len size
        (record r { auth_plugin_data = r.auth_plugin_data ++ replicate 13 0 })

-- The fields behind the server's version, from `k` on: `tmp - tmp < len` is true of every packet.
unfoldable pub fields : Memory → ℕ → ℕ → ℕ → Option Request
unfolding uint2korr second_part
fields m k len size =
    let r : Request = record {
      auth_plugin_data = slice m (k + 4) 8;
      character_set = byte m (k + 15);
      capability_flags = uint2korr m (k + 13) + uint2korr m (k + 18) * 2 ^ 16;
      plugin = none;
      name = [];
    } in
    if ltb size (k + 31) then none else second_part m (k + 31) (byte m (k + 20)) len size r

-- Texts that are written to `connector->buf`, one behind another from `k` on.
unfoldable pub put_all : Memory → ℕ → List (List ℕ) → Memory
unfolding put
put_all m k [] = m
put_all m k (text ∷ texts) = put_all (put m k text) (k + length text) texts

abbrev pub total : List (List ℕ) → ℕ
total [] = 0
total (text ∷ texts) = length text + total texts

-- The capability flags 0x000a8209 of the client, the packet size 300 and the character set.
abbrev pub answer_head : ℕ → List (List ℕ)
answer_head character_set =
    (9 ∷ 130 ∷ 10 ∷ 0 ∷ []) ∷ (44 ∷ 1 ∷ 0 ∷ 0 ∷ []) ∷ (character_set ∷ []) ∷ []

-- The texts behind the 23 bytes that are left as they are.
abbrev pub answer_texts : Connector → List ℕ → List ℕ → List (List ℕ)
answer_texts c answer name =
    (c.user ++ (0 ∷ []))
    ∷ (length answer ∷ answer)
    ∷ (c.database ++ (0 ∷ []))
    ∷ (name ++ (0 ∷ []))
    ∷ []

-- Without a password the answer is empty.
unfoldable pub challenged : Crypto → Request → Connector → List ℕ × HandshakeState
unfolding encrypt_dispatch
challenged h r c =
    if ltb 0 (length c.password)
    then encrypt_dispatch h r.plugin c.password r.auth_plugin_data
    else ([], wait_result)

unfoldable pub respond : Crypto → Request → Connector → Parsed
unfolding challenged put_all finish
respond h r c =
    let charset = if c.character_set == 0 then r.character_set else c.character_set in
    let (answer, next) = challenged h r c in
    let texts = answer_texts c answer r.name in
    let c' = record c {
      character_set = charset;
      auth_plugin_data =
          if has_flag r.capability_flags secure_connection
          then take nonce_length r.auth_plugin_data
          else c.auth_plugin_data;
    } in
    if ltb buf_size (36 + total texts)
    then overrun
    else sends next
        (finish (32 + total texts) 1 (put_all (put_all c.buf 4 (answer_head charset)) 36 texts) c')

-- `mysql_handshake` of a buffer of `len` bytes in `size` bytes of memory.
unfoldable pub handshake : Crypto → Memory → ℕ → ℕ → Connector → Parsed
unfolding uint3korr error_packet strlen fields respond
handshake h m len size c =
    if ltb (len % 2 ^ 32) (header_size + uint3korr m 0)
    then waits c
    else if byte m 4 == packet_err
    then failed (error_packet m 0 c)
    else elim (strlen (size - 5) m 5 >>= λ n. fields m (5 + (n + 1)) (len % 2 ^ 32) size) [
      | none ↦ overrun
      | some r ↦ respond h r c
    ]
