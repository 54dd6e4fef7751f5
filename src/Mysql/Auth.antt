-- ===== src/Mysql/Auth.antt =====
-- swoole_mysql.cc: the packets of the handshake and the authentication. SHA-1, SHA-256 and RSA belong to
-- other libraries and are parameters; `overrun` is an access outside an array of the code, or outside the
-- memory of the buffer.
pub mod Greeting
pub mod Connect
pub mod Outcome
pub mod Early
pub mod Rsa
pub mod Written
pub mod Digest
pub mod Framing
use async_ext.Prelude.{
  ℕ, zero, suc, ◌+◌, ◌-◌, ◌*◌, ◌/◌, ◌%◌, ◌^◌, Bool, true, false, not, ◌&&◌, ◌||◌, Option, none,
  some, List, [], ◌∷◌, ◌++◌, map, take, length, replicate, ltb, leb, ◌==◌, if◌then◌else◌, ◌>>=◌,
}
use Prim.Native.Nat.{bit_xor, max, min}
use async_ext.Str.{Memory, Str, byte, slice, memcpy, sub_size}
use async_ext.Str.Patch.{chars}
use async_ext.Prelude.Bytes.{str_eq}
use async_ext.Mysql.Wire.{store, header_size, uint2korr, uint3korr, pack_length}
use async_ext.Mysql.Packet.{packet_err, packet_eof}

-- SW_MYSQL_NONCE_LENGTH, and the size of `connector->buf`.
abbrev pub nonce_length : ℕ
nonce_length = 20

abbrev pub buf_size : ℕ
buf_size = 512

-- The fields of `mysql_connector` that the handshake uses; a text stands for its pointer and length. The
-- code is built with SW_MYSQL_RSA_SUPPORT, and `auth_plugin_data` has 20 bytes.
pub record Connector : Type 0 where
  pub user : List ℕ
  pub password : List ℕ
  pub database : List ℕ
  pub character_set : ℕ
  pub packet_length : ℕ
  pub buf : Memory
  pub auth_plugin_data : List ℕ
  pub error_code : ℕ
  pub error_msg : List ℕ

-- The hash functions, the size of an RSA key in PEM, and encryption with it, which can fail.
pub record Crypto : Type 0 where
  pub sha1 : List ℕ → List ℕ
  pub sha256 : List ℕ → List ℕ
  pub rsa_size : List ℕ → Option ℕ
  pub rsa_encrypt : List ℕ → List ℕ → Option (List ℕ)

-- The states that are waited for, of `enum mysql_handshake_state`.
pub data HandshakeState : Type 0 where
  wait_request : HandshakeState
  wait_switch : HandshakeState
  wait_signature : HandshakeState
  wait_rsa : HandshakeState
  wait_result : HandshakeState
  completed : HandshakeState

-- What a parser returns: there is more to come, another packet stands there, an error, or a packet to
-- send and the next state.
pub data Parsed : Type 0 where
  waits : Connector → Parsed
  other : Parsed
  failed : Connector → Parsed
  sends : HandshakeState → Connector → Parsed
  overrun : Parsed

-- An ERR packet in the place of an answer: its code, and its message as far as the packet says.
unfoldable pub error_packet : Memory → ℕ → Connector → Connector
unfolding uint2korr uint3korr
error_packet m k c = record c {
  error_code = uint2korr m (k + 5);
  error_msg = slice m (k + 7) ((uint3korr m k + 2 ^ 16 - 3) % 2 ^ 16);
}

-- `mysql_get_result` of the packet at `k`. Here and in the other parsers `len` becomes an int, which is
-- compared with an unsigned number.
pub data Result : Type 0 where
  again : Result
  refused : Connector → Result
  accepted : Result

unfoldable pub get_result : Memory → ℕ → ℕ → Connector → Result
unfolding uint3korr error_packet
get_result m k len c =
    if ltb (len % 2 ^ 32) (header_size + uint3korr m k)
    then again
    else if byte m (k + 4) == packet_err
    then refused (error_packet m k c)
    else accepted

unfoldable pub xor_bytes : List ℕ → List ℕ → List ℕ
xor_bytes [] ys = []
xor_bytes (x ∷ xs) [] = []
xor_bytes (x ∷ xs) (y ∷ ys) = bit_xor x y ∷ xor_bytes xs ys

-- The answer to a challenge that `mysql_native_password` wants.
unfoldable pub native_password : Crypto → List ℕ → List ℕ → List ℕ
unfolding xor_bytes
native_password h password nonce =
    let hash_0 = h.sha1 password in
    xor_bytes (h.sha1 (take nonce_length nonce ++ h.sha1 hash_0)) hash_0

-- `mysql_sha2_password_with_nonce`
unfoldable pub sha2_password : Crypto → List ℕ → List ℕ → List ℕ
unfolding xor_bytes
sha2_password h password nonce =
    let hashed = h.sha256 password in
    xor_bytes hashed (h.sha256 (h.sha256 hashed ++ take nonce_length nonce))

-- `strcasecmp` as a test.
abbrev pub lower : ℕ → ℕ
lower c = if leb 65 c && leb c 90 then c + 32 else c

abbrev pub same_name : List ℕ → List ℕ → Bool
same_name a b = str_eq (map lower a) (map lower b)

-- "mysql_native_password" and "caching_sha2_password".
abbrev pub native_name : List ℕ
native_name =
    109 ∷ 121 ∷ 115 ∷ 113 ∷ 108 ∷ 95 ∷ 110 ∷ 97 ∷ 116 ∷ 105 ∷ 118 ∷ 101 ∷ 95 ∷ 112 ∷ 97 ∷ 115 ∷ 115
    ∷ 119 ∷ 111 ∷ 114 ∷ 100 ∷ []

abbrev pub sha2_name : List ℕ
sha2_name =
    99 ∷ 97 ∷ 99 ∷ 104 ∷ 105 ∷ 110 ∷ 103 ∷ 95 ∷ 115 ∷ 104 ∷ 97 ∷ 50 ∷ 95 ∷ 112 ∷ 97 ∷ 115 ∷ 115
    ∷ 119 ∷ 111 ∷ 114 ∷ 100 ∷ []

-- `mysql_auth_encrypt_dispatch`: what is written, and the next state. No plugin is a null pointer.
unfoldable pub encrypt_dispatch :
    Crypto → Option (List ℕ) → List ℕ → List ℕ → List ℕ × HandshakeState
unfolding native_password sha2_password
encrypt_dispatch h none password nonce = (native_password h password nonce, wait_result)
encrypt_dispatch h (some plugin) password nonce =
    if same_name native_name plugin
    then (native_password h password nonce, wait_result)
    else if same_name sha2_name plugin
    then (sha2_password h password nonce, wait_signature)
    else ([], wait_result)

-- A text that is copied to a place in `connector->buf`.
unfoldable pub put : Memory → ℕ → List ℕ → Memory
unfolding memcpy
put m k text = memcpy m k (chars text) 0 (length text)

-- The header of the packet in `connector->buf`.
unfoldable pub finish : ℕ → ℕ → Memory → Connector → Connector
unfolding pack_length store
finish n number m c = record c { packet_length = n; buf = store (pack_length n m) 3 number }

-- The chars of the plugin name in an auth switch: one at least, up to a zero, and no more than the packet
-- has. The array has room for 32 with the zero behind them.
unfoldable pub name_length : ℕ → Memory → ℕ → ℕ
name_length zero m k = 0
name_length (suc left) m k =
    let rest = name_length left m (k + 1) in if byte m (k + 1) == 0 then 1 else suc rest

-- `mysql_auth_switch`; the buffer has `size` bytes of memory.
unfoldable pub auth_switch : Crypto → Memory → ℕ → ℕ → Connector → Parsed
unfolding uint3korr name_length encrypt_dispatch put finish
auth_switch h m len size c =
    let packet_length = uint3korr m 0 in
    let n = name_length packet_length m 5 in
    let nonce = slice m (5 + (n + 1)) nonce_length in
    let (answer, next) = encrypt_dispatch h (some (slice m 5 n)) c.password nonce in
    if not (byte m 4 == packet_eof)
    then other
    else if ltb (len % 2 ^ 32) (header_size + packet_length)
    then waits c
    else if ltb 31 n || ltb size (5 + (n + 1) + nonce_length)
    then overrun
    else sends next (
        finish (length answer) (byte m 3 + 1) (put (put c.buf 0 (replicate buf_size 0)) 4 answer) c)

-- `enum mysql_auth_signature`
abbrev pub signature : ℕ
signature = 1

abbrev pub rsa_prepared : ℕ
rsa_prepared = 2

abbrev pub signature_success : ℕ
signature_success = 3

abbrev pub full_auth_required : ℕ
full_auth_required = 4

-- `mysql_parse_auth_signature`: the value returned, as the caller tells it apart, the buffer and the
-- connector. SW_CONTINUE and SW_MYSQL_AUTH_SIGNATURE_ERROR are neither success nor the demand.
pub data Signature : Type 0 where
  success : Signature
  full_auth : Signature
  neither : Signature

unfoldable pub parse_auth_signature : Str → Connector → Signature × Str × Connector
unfolding uint3korr put finish
parse_auth_signature buffer c =
    let m = buffer.str in
    let packet_length = uint3korr m 0 in
    let buffer' = record buffer { offset = header_size + packet_length } in
    if ltb buffer.length (header_size + packet_length)
    then (neither, buffer, c)
    else if not (byte m 4 == signature)
    then (neither, buffer, c)
    else if byte m 5 == full_auth_required
    then (
      full_auth,
      buffer',
      finish 1 (byte m 3 + 1) (put (put c.buf 0 (replicate buf_size 0)) 4 (rsa_prepared ∷ [])) c,
    )
    else if byte m 5 == signature_success
    then (success, buffer', c)
    else (neither, buffer', c)
