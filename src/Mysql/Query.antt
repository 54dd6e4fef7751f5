-- ===== src/Mysql/Query.antt =====
-- swoole_mysql.cc: mysql_request_pack, mysql_prepare_pack, mysql_query, and the methods query, begin,
-- commit and rollback; Deliver has swoole_mysql_onResponse. `none` is undefined behaviour.
pub mod Request
pub mod Transaction
pub mod Deliver
use async_ext.Prelude.{
  ℕ, ◌+◌, Bool, true, false, Option, none, some, List, [], ◌∷◌, length, ltb, ◌==◌, not,
  if◌then◌else◌,
}
use async_ext.Prelude.Int.{ℤ}
use async_ext.Str.{Memory, Str, slice}
use async_ext.Mysql.Wire.{store, pack_length}
use async_ext.Mysql.Client.{
  Opcode, Opcode.ok, Opcode.error, Opcode.wait, Command, ReadState, Value, Response, Client,
}
use async_ext.Mysql.Packet.{packet_ok, packet_err}
use async_ext.Mysql.Columns.{Outcome}
use async_ext.Mysql.Response.{Setting, response}

-- The methods `clear` and `append` of swString, which belong to the swoole core; `none` where
-- `append` fails.
pub record StrApi : Type 0 where
  pub clear : Str → Str
  pub append : Str → List ℕ → Option Str

abbrev pub com_query : ℕ
com_query = 3

abbrev pub com_stmt_prepare : ℕ
com_stmt_prepare = 22

-- The five bytes in front: `bzero`, `mysql_pack_length`, the command.
unfoldable pub request_head : ℕ → ℕ → Memory → Memory
unfolding store pack_length
request_head command n m =
    store (pack_length (n + 1) (store (store (store (store (store m 0 0) 1 0) 2 0) 3 0) 4 0)) 4
      command

-- `mysql_request_pack` and `mysql_prepare_pack`, which differ in the command.
unfoldable pub command_pack : StrApi → ℕ → List ℕ → Str → Option Str
unfolding request_head
command_pack api command sql buffer =
    let b = api.clear buffer in
    api.append (record b { str = request_head command (length sql) b.str; length = 5 }) sql

unfoldable pub request_pack : StrApi → List ℕ → Str → Option Str
unfolding command_pack
request_pack api sql buffer = command_pack api com_query sql buffer

unfoldable pub prepare_pack : StrApi → List ℕ → Str → Option Str
unfolding command_pack
prepare_pack api sql buffer = command_pack api com_stmt_prepare sql buffer

-- A `swoole_mysql` object: the client, whether `client->cli` is there, and its properties.
pub record Session : Type 0 where
  pub client : Client
  pub has_cli : Bool
  pub connected_property : Bool
  pub errno : ℕ
  pub error : List ℕ
  pub affected_rows : ℤ
  pub insert_id : ℤ

-- What the reactor does with the request: takes it, or fails with or without the connection lost.
pub data Sending : Type 0 where
  sent lost refused : Sending

abbrev pub is_query_state : ReadState → Bool
is_query_state ReadState.query = true
is_query_state _ = false

-- "Lost connection to MySQL server during query"
abbrev pub lost_message : List ℕ
lost_message =
    76 ∷ 111 ∷ 115 ∷ 116 ∷ 32 ∷ 99 ∷ 111 ∷ 110 ∷ 110 ∷ 101 ∷ 99 ∷ 116 ∷ 105 ∷ 111 ∷ 110 ∷ 32 ∷ 116
    ∷ 111 ∷ 32 ∷ 77 ∷ 121 ∷ 83 ∷ 81 ∷ 76 ∷ 32 ∷ 115 ∷ 101 ∷ 114 ∷ 118 ∷ 101 ∷ 114 ∷ 32 ∷ 100 ∷ 117
    ∷ 114 ∷ 105 ∷ 110 ∷ 103 ∷ 32 ∷ 113 ∷ 117 ∷ 101 ∷ 114 ∷ 121 ∷ []

-- The write, on the packed request.
unfoldable pub send_request : Session → Sending → Option Str → Bool × Session
send_request s w none = (false, s)
send_request s sent (some b) =
    (true, record s { client = record s.client { state = ReadState.read_start } })
send_request s lost (some b) =
    (false, record s { connected_property = false; errno = 2013; error = lost_message })
send_request s refused (some b) = (false, s)

-- `mysql_query`; the Boolean is SW_OK. Without `cli` the warning reads its socket through null.
unfoldable pub mysql_query : StrApi → Str → Sending → List ℕ → Session → Option (Bool × Session)
unfolding send_request request_pack
mysql_query api buffer w sql s =
    if not s.has_cli
    then none
    else if not s.client.connected
    then some (false, s)
    else if not (is_query_state s.client.state)
    then some (false, s)
    else some (
        send_request (record s { client = record s.client { cmd = Command.query } }) w
          (request_pack api sql buffer))

-- The methods return false or true, or throw.
pub data Reply : Type 0 where
  replied : Bool → Reply
  thrown : ℕ → Reply

abbrev pub set_transaction : Bool → Session → Session
set_transaction b s = record s { client = record s.client { transaction = b } }

-- Behind the call of mysql_query in `begin`, `commit` and `rollback`.
unfoldable pub end_method : Bool → Option (Bool × Session) → Option (Reply × Session)
end_method b none = none
end_method b (some (false, s)) = some (replied false, s)
end_method b (some (true, s)) = some (replied true, set_transaction b s)

module _ (api : StrApi) (buffer : Str) where
  unfoldable pub query : Sending → List ℕ → Session → Option (Reply × Session)
  unfolding mysql_query end_method
  query w [] s = some (replied false, s)
  query w (c ∷ sql) s = end_method s.client.transaction (mysql_query api buffer w (c ∷ sql) s)

  unfoldable pub begin : Sending → List ℕ → Session → Option (Reply × Session)
  unfolding mysql_query end_method
  begin w start_transaction s =
      if s.client.transaction
      then some (thrown 21, s)
      else end_method true (mysql_query api buffer w start_transaction s)

  -- `commit` and `rollback` differ in the statement that they send.
  unfoldable pub finish : Sending → List ℕ → Session → Option (Reply × Session)
  unfolding mysql_query end_method
  finish w statement s =
      if s.client.transaction
      then end_method false (mysql_query api buffer w statement s)
      else some (thrown 22, s)
