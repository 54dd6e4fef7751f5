-- ===== src/Mysql/Tests/Auth.antt =====
-- Handshakes: a signature that arrives in two parts, an answer that refuses, and an auth switch in two parts.
use async_ext.Prelude.{
  ℕ, zero, suc, ◌+◌, ◌≡◌, inl, inr, arith, refl, true, false, none, some, List, [], ◌∷◌, ◌^◌, ◌*◌,
  replicate,
}
use async_ext.Str.{Str}
use async_ext.Mysql.Wire.{uint2korr, uint3korr}
use async_ext.Str.Holds.{IsText}
use async_ext.Mysql.Auth.{
  Connector, Crypto, wait_signature, wait_result, completed, sends, sha2_name, sha2_password,
  xor_bytes, encrypt_dispatch,
}
use async_ext.Mysql.Auth.Greeting.{
  Request, handshake, challenged, fields, second_part, plugin_name, strlen,
}
use async_ext.Mysql.Auth.Digest.{Digests}
use async_ext.Mysql.Auth.Framing.{IsResponse, handshake-IsResponse}
use async_ext.Mysql.Auth.Connect.{Connection, Socket, on_handshake}
use async_ext.Mysql.Auth.Outcome.{on_handshake-result}
use async_ext.Mysql.Auth.Early.{on_handshake-NoSignature, switch_in_two}
use async_ext.Mysql.Tests.{memory, received}

abbrev crypto : Crypto
crypto = record {
  sha1 = λ text. text;
  sha256 = λ text. text;
  rsa_size = λ key. none;
  rsa_encrypt = λ key text. none;
}

abbrev socket : Socket
socket = record {
  send = λ packet. none;
  strerror = λ errno. [];
  clear = λ b. record b { length = 0; offset = 0 };
}

abbrev connector : Connector
connector = record {
  user = 117 ∷ [];
  password = 112 ∷ [];
  database = 100 ∷ [];
  character_set = 0;
  packet_length = 0;
  buf = memory [];
  auth_plugin_data = replicate 20 0;
  error_code = 0;
  error_msg = [];
}

-- Waiting for the signature, with these bytes in the buffer.
abbrev connecting : List ℕ → Connection
connecting bs = record {
  state = wait_signature;
  switch_check = false;
  connector = connector;
  buffer = received bs;
  connected = false;
  closed = false;
  sent = [];
  calls = [];
}

on_handshake-NoSignature_example :
    (p' : Connection) × (on_handshake crypto socket (connecting (2 ∷ 0 ∷ 0 ∷ 2 ∷ 1 ∷ [])) ≡ some p')
    × (p'.connected ≡ true)
    × (p'.calls ≡ true ∷ [])
unfolding uint3korr
on_handshake-NoSignature_example =
    on_handshake-NoSignature crypto socket (connecting (2 ∷ 0 ∷ 0 ∷ 2 ∷ 1 ∷ [])) refl refl refl
      (inl (omega arith))

-- Access denied: the code 1045.
abbrev denied : Connection
denied = record (connecting (3 ∷ 0 ∷ 0 ∷ 2 ∷ 255 ∷ 21 ∷ 4 ∷ [])) {
  state = wait_result;
  switch_check = true;
}

on_handshake-result_example :
    (p' : Connection) × (on_handshake crypto socket denied ≡ some p')
    × (p'.calls ≡ false ∷ [])
    × (p'.state ≡ wait_result)
    × (p'.closed ≡ true)
    × (p'.connected ≡ false)
    × (p'.connector.error_code ≡ 1045)
    × (p'.sent ≡ [])
unfolding uint2korr uint3korr
on_handshake-result_example =
    on_handshake-result crypto socket denied refl (inr (omega arith)) refl (omega arith)
      (omega arith) (omega arith) (inr (omega arith))

-- The first bytes of the request for another plugin, and the whole of it.
abbrev begun : Connection
begun = record (connecting (3 ∷ 0 ∷ 0 ∷ 2 ∷ 254 ∷ [])) { state = wait_result; switch_check = true }

abbrev whole : Str
whole = received (3 ∷ 0 ∷ 0 ∷ 2 ∷ 254 ∷ 97 ∷ 0 ∷ [])

switch_in_two_example :
    (p1 p2 : Connection) × (on_handshake crypto socket begun ≡ some p1)
    × (on_handshake crypto socket (record p1 { buffer = whole }) ≡ some p2)
    × (p2.state ≡ completed)
    × (p2.connected ≡ true)
    × (p2.calls ≡ true ∷ [])
    × (p2.sent ≡ [])
unfolding uint3korr
switch_in_two_example =
    switch_in_two crypto socket begun whole refl refl refl refl (omega arith) refl refl
      (omega arith) (omega arith)

-- Digests of zeros, and a greeting that wants caching_sha2_password.
abbrev digests : Crypto
digests = record crypto { sha1 = λ text. replicate 20 0; sha256 = λ text. replicate 32 0 }

zeros-IsText : (n : ℕ) → IsText (replicate n 0)
zeros-IsText zero = tt
zeros-IsText (suc n) = (omega arith, zeros-IsText n)

digests-Digests : Digests digests
digests-Digests = (λ text. (zeros-IsText 20, refl), λ text. (zeros-IsText 32, refl))

abbrev greeting : List ℕ
greeting =
    69 ∷ 0 ∷ 0 ∷ 0 ∷ 10 ∷ 56 ∷ 0 ∷ 1 ∷ 0 ∷ 0 ∷ 0 ∷ 1 ∷ 2 ∷ 3 ∷ 4 ∷ 5 ∷ 6 ∷ 7 ∷ 8 ∷ 0 ∷ 0 ∷ 128 ∷ 33
    ∷ 2 ∷ 0 ∷ 8 ∷ 0 ∷ 21 ∷ 0 ∷ 0 ∷ 0 ∷ 0 ∷ 0 ∷ 0 ∷ 0 ∷ 0 ∷ 0 ∷ 0 ∷ 9 ∷ 10 ∷ 11 ∷ 12 ∷ 13 ∷ 14 ∷ 15
    ∷ 16 ∷ 17 ∷ 18 ∷ 19 ∷ 20 ∷ 0 ∷ 99 ∷ 97 ∷ 99 ∷ 104 ∷ 105 ∷ 110 ∷ 103 ∷ 95 ∷ 115 ∷ 104 ∷ 97 ∷ 50
    ∷ 95 ∷ 112 ∷ 97 ∷ 115 ∷ 115 ∷ 119 ∷ 111 ∷ 114 ∷ 100 ∷ 0 ∷ []

abbrev request : Request
request = record {
  auth_plugin_data =
      1 ∷ 2 ∷ 3 ∷ 4 ∷ 5 ∷ 6 ∷ 7 ∷ 8 ∷ 9 ∷ 10 ∷ 11 ∷ 12 ∷ 13 ∷ 14 ∷ 15 ∷ 16 ∷ 17 ∷ 18 ∷ 19 ∷ 20 ∷ 0
      ∷ [];
  character_set = 33;
  capability_flags = 32768 + 8 * 2 ^ 16;
  plugin = some sha2_name;
  name = sha2_name;
}

handshake-IsResponse_example :
    (c' : Connector) × (handshake digests (memory greeting) 73 73 connector
      ≡ sends (challenged digests request connector).1 c')
    × IsResponse digests request connector c'
unfolding uint3korr fields second_part plugin_name strlen uint2korr challenged encrypt_dispatch
    sha2_password xor_bytes
handshake-IsResponse_example =
    handshake-IsResponse digests digests-Digests (memory greeting) 73 73 connector request
      (omega arith, tt) (omega arith, tt) (omega arith) (omega arith) refl (omega arith)
