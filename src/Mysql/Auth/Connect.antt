-- ===== src/Mysql/Auth/Connect.antt =====
-- swoole_mysql.cc: swoole_mysql_onHandShake and swoole_mysql_onConnect. The socket and the clearing of
-- the buffer are parameters; what the callback does by itself is left out. `none` is an access outside
-- the code's memory, or a loop for ever.
use async_ext.Prelude.{
  ℕ, ◌+◌, ◌-◌, ◌%◌, ◌^◌, Bool, true, false, Option, none, some, List, [], ◌∷◌, ◌++◌, ltb,
  if◌then◌else◌,
}
use async_ext.Str.{Str, slice, sub_size}
use async_ext.Mysql.Auth.{
  Connector, Crypto, HandshakeState, wait_request, wait_switch, wait_signature, wait_rsa,
  wait_result, completed, Parsed, waits, other, failed, sends, overrun, Result, again, refused,
  accepted, get_result, auth_switch, Signature, success, full_auth, neither, parse_auth_signature,
}
use async_ext.Mysql.Auth.Greeting.{handshake}
use async_ext.Mysql.Auth.Rsa.{parse_rsa}

-- The client while it connects: the fields of `mysql_client`, the buffer, whether `close` was called, and
-- the packets that were sent and the second arguments of the calls of `onConnect`, the oldest first.
pub record Connection : Type 0 where
  pub state : HandshakeState
  pub switch_check : Bool
  pub connector : Connector
  pub buffer : Str
  pub connected : Bool
  pub closed : Bool
  pub sent : List (List ℕ)
  pub calls : List Bool

-- `cli->send` of a packet: an error, if it fails, and its message; and `buffer->clear()`.
pub record Socket : Type 0 where
  pub send : List ℕ → Option ℕ
  pub strerror : ℕ → List ℕ
  pub clear : Str → Str

-- `swoole_mysql_onConnect`
unfoldable pub on_connect : Connection → Connection
on_connect p =
    if ltb 0 p.connector.error_code
    then record p { calls = p.calls ++ (false ∷ []); closed = true }
    else record p { calls = p.calls ++ (true ∷ []); connected = true }

module _ (h : Crypto) (w : Socket) where
  -- The label `_send`.
  unfoldable pub send_packet : HandshakeState → Connector → Connection → Connection
  unfolding on_connect
  send_packet next c p =
      let packet = slice c.buf 0 (c.packet_length + 4) in
      elim (w.send packet) [
        | none ↦ record p {
          connector = c;
          sent = p.sent ++ (packet ∷ []);
          buffer = w.clear p.buffer;
          state = next;
        }
        | some errno ↦ on_connect (record p {
          connector = record c { error_code = errno % 2 ^ 16; error_msg = w.strerror errno };
        })
      ]

  -- Behind a parser.
  unfoldable pub parsed : Parsed → Connection → Option Connection
  unfolding send_packet on_connect
  parsed (waits c) p = some (record p { connector = c })
  parsed other p = none
  parsed (failed c) p = some (on_connect (record p { connector = c }))
  parsed (sends next c) p = some (send_packet next c p)
  parsed overrun p = none

  -- The default case: the answer that ends the handshake, from the offset of the buffer on.
  unfoldable pub resulted : Result → Connection → Connection
  unfolding on_connect
  resulted again p = p
  resulted (refused c) p = on_connect (record p { connector = c })
  resulted accepted p = on_connect (record p { buffer = w.clear p.buffer; state = completed })

  unfoldable pub on_result : Connection → Connection
  unfolding get_result resulted
  on_result p =
      resulted
        (get_result p.buffer.str p.buffer.offset (sub_size p.buffer.length p.buffer.offset)
          p.connector)
        p

  -- Behind `mysql_parse_auth_signature`.
  unfoldable pub signed : Signature × Str × Connector → Connection → Connection
  unfolding send_packet on_connect on_result
  signed (success, b, c) p =
      let p' = record p { buffer = b; connector = c; state = wait_result } in
      if ltb b.offset b.length then on_result p' else record p' { buffer = w.clear b }
  signed (full_auth, b, c) p = send_packet wait_rsa c (record p { buffer = b })
  signed (neither, b, c) p = on_connect (record p { buffer = b; connector = c })

  -- The switch over `client->handshake`. In SW_MYSQL_HANDSHAKE_WAIT_SWITCH a packet of another kind would
  -- be tried again for ever.
  unfoldable pub by_state : HandshakeState → Connection → Option Connection
  unfolding handshake auth_switch parse_auth_signature parse_rsa parsed signed on_result
  by_state wait_request p =
      parsed (handshake h p.buffer.str p.buffer.length p.buffer.size p.connector)
        (record p { switch_check = true })
  by_state wait_switch p =
      parsed (auth_switch h p.buffer.str p.buffer.length p.buffer.size p.connector)
        (record p { switch_check = false })
  by_state wait_signature p = some (signed (parse_auth_signature p.buffer p.connector) p)
  by_state wait_rsa p =
      parsed
        (parse_rsa h (p.buffer.size - (p.buffer.offset + 4)) p.buffer.str p.buffer.offset
          (sub_size p.buffer.length p.buffer.offset) p.connector)
        p
  by_state wait_result p = some (on_result p)
  by_state completed p = some (on_result p)

  -- The label `_check_switch`: a packet of another kind goes on to the switch over the states.
  unfoldable pub switched : Parsed → Connection → Option Connection
  unfolding parsed by_state
  switched other p = by_state p.state p
  switched r p = parsed r p

  -- `swoole_mysql_onHandShake`
  unfoldable pub on_handshake : Connection → Option Connection
  unfolding auth_switch by_state switched
  on_handshake p =
      if p.switch_check
      then switched (auth_switch h p.buffer.str p.buffer.length p.buffer.size p.connector)
          (record p { switch_check = false })
      else by_state p.state p
