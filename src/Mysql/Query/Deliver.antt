-- ===== src/Mysql/Query/Deliver.antt =====
-- swoole_mysql.cc, swoole_mysql_onResponse: what arrived is read, and a complete answer is handed to
-- the callback of the request. `none` is undefined behaviour.
use async_ext.Prelude.{
  ℕ, ◌+◌, ◌-◌, ◌%◌, ◌^◌, ◌<◌, ◌≤◌, ap, ltb, le→not-ltb, arith, ◌≡◌, refl, false, Option, none, some,
  List, [], length, ◌==◌, if◌then◌else◌, ◌>>=◌,
}
use async_ext.Str.{byte, slice, long_of_size}
use async_ext.Mysql.Wire.{uint2korr, uint3korr}
use async_ext.Mysql.Wire.Lcb.{Holds}
use async_ext.Mysql.Client.{Opcode, ReadState, Value, Response, Client}
use async_ext.Mysql.Packet.{packet_ok, packet_err, is_prepare}
use async_ext.Mysql.Columns.{Outcome, unread}
use async_ext.Mysql.Response.{Setting, response}
use async_ext.Mysql.Response.Single.{Ready, response-err, response-ok, ok_payload}
use async_ext.Mysql.Query.{StrApi, Session}

-- The second argument of the callback: true, false, or the rows.
pub data Answer : Type 0 where
  succeeded failed : Answer
  result_rows : List (List (List ℕ × Value)) → Answer

-- `bzero(&client->response, sizeof(client->response))`
abbrev pub zero_response : Response
zero_response = record {
  columns = none;
  num_column = 0;
  index_column = 0;
  num_row = 0;
  response_type = 0;
  packet_length = 0;
  packet_number = 0;
  error_code = 0;
  warnings = 0;
  status_code = 0;
  status_msg = [];
  server_msg = 0;
  l_server_msg = 0;
  affected_rows = 0;
  insert_id = 0;
  result_array = none;
}

module _ (set : Setting) (api : StrApi) (callback : Answer → Session → Option Session) where
  -- The properties and the state, before the callback.
  unfoldable pub reported : Client → Session → Session
  reported c s = record s {
    client = record c { state = ReadState.query };
    affected_rows = long_of_size c.response.affected_rows;
    insert_id = long_of_size c.response.insert_id;
  }

  -- The message is copied from the memory of the buffer.
  unfoldable pub reported_error : Client → Session → Option Session
  unfolding reported
  reported_error c s =
      if ltb c.buffer.size (c.response.server_msg + c.response.l_server_msg)
      then none
      else some (record (reported c s) {
        error = slice c.buffer.str c.response.server_msg c.response.l_server_msg;
        errno = c.response.error_code;
      })

  unfoldable pub rows_of : Option (List (List (List ℕ × Value))) → Session → Option Session
  rows_of none s = none
  rows_of (some rs) s = callback (result_rows rs) s

  -- Behind the callback, which may have closed the client: `cli->object && client->cli`.
  unfoldable pub cleared : Session → Session
  cleared s =
      if s.has_cli
      then record s {
        client = record s.client { buffer = api.clear s.client.buffer; response = zero_response };
      }
      else s

  unfoldable pub deliver : Client → Session → Option Session
  unfolding reported reported_error rows_of
  deliver c s =
      if c.response.response_type == packet_ok
      then callback succeeded (reported c s)
      else if c.response.response_type == packet_err
      then (reported_error c s >>= callback failed)
      else rows_of c.response.result_array (reported c s)

  unfoldable pub after_response : Outcome → Session → Option Session
  unfolding deliver cleared
  after_response none s = none
  after_response (some (Opcode.ok, c)) s = deliver c s >>= λ s'. some (cleared s')
  after_response (some (Opcode.error, c)) s = some (record s { client = c })
  after_response (some (Opcode.wait, c)) s = some (record s { client = c })

  -- `swoole_mysql_onResponse`
  unfoldable pub on_response : Session → Option Session
  unfolding after_response
  on_response s = after_response (response set s.client) s

  deliver-err :
      (c : Client) (s : Session)
      → c.response.response_type ≡ packet_err
      → deliver c s ≡ (reported_error c s >>= callback failed)
  unfolding deliver
  deliver-err c s e = rw e

  deliver-ok :
      (c : Client) (s : Session)
      → c.response.response_type ≡ packet_ok
      → deliver c s ≡ callback succeeded (reported c s)
  unfolding deliver
  deliver-ok c s e = rw e

  -- For a complete ERR packet with a payload of nine bytes or more that lies within the memory of
  -- the buffer, swoole_mysql_onResponse calls the callback with false, in a session that is ready
  -- for the next query, whose property errno is the packet's code and whose property error is its
  -- message, of the payload's length less nine modulo 2^16, and cleans up behind it.
  pub on_response-err :
      (s : Session)
      → Ready s.client
      → byte s.client.buffer.str (s.client.buffer.offset + 4) ≡ packet_err
      → 9 ≤ uint3korr s.client.buffer.str s.client.buffer.offset
      → s.client.buffer.offset + 4 + uint3korr s.client.buffer.str s.client.buffer.offset
        ≤ s.client.buffer.size
      → (t : Session) × (on_response s ≡ (callback failed t >>= λ s'. some (cleared s')))
        × (t.client.state ≡ ReadState.query)
        × (t.errno ≡ uint2korr s.client.buffer.str (s.client.buffer.offset + 5))
        × (t.error
            ≡ slice s.client.buffer.str
                (s.client.buffer.offset + 13)
                ((uint3korr s.client.buffer.str s.client.buffer.offset - 9) % 2 ^ 16))
        × (t.has_cli ≡ s.has_cli)
  unfolding on_response reported_error reported
  on_response-err s r h whole inside =
      let (c, e, _, type, code, msg, len, _, str, size) = response-err set s.client r h in
      let l = len whole in
      let fits : ltb c.buffer.size (c.response.server_msg + c.response.l_server_msg) ≡ false =
        le→not-ltb c.buffer.size (c.response.server_msg + c.response.l_server_msg) (omega arith) in
      (
        record (reported c s) {
          error = slice c.buffer.str c.response.server_msg c.response.l_server_msg;
          errno = c.response.error_code;
        },
        rw (e, deliver-err c s type, fits) refl,
        refl,
        code,
        (λ i. slice (str i) (msg i) (l i)),
        refl,
      )

  -- For a complete OK packet of the protocol, in answer to anything but a preparation and with
  -- less than 2^31 bytes unread, swoole_mysql_onResponse calls the callback with true, in a
  -- session that is ready for the next query and whose properties affected_rows and insert_id are
  -- those that were encoded, taken as signed 64-bit numbers, and cleans up behind it.
  pub on_response-ok :
      (s : Session) (rows id status warnings : ℕ)
      → Ready s.client
      → is_prepare s.client.cmd ≡ false
      → unread s.client < 2 ^ 31
      → rows < 2 ^ 64
      → id < 2 ^ 64
      → status < 2 ^ 16
      → warnings < 2 ^ 16
      → Holds s.client.buffer.str (s.client.buffer.offset + 4) (ok_payload rows id status warnings)
      → uint3korr s.client.buffer.str s.client.buffer.offset
        ≡ length (ok_payload rows id status warnings)
      → (t : Session) × (on_response s ≡ (callback succeeded t >>= λ s'. some (cleared s')))
        × (t.client.state ≡ ReadState.query)
        × (t.affected_rows ≡ long_of_size rows)
        × (t.insert_id ≡ long_of_size id)
        × (t.has_cli ≡ s.has_cli)
  unfolding on_response reported
  on_response-ok s rows id status warnings r query small a b st w h size =
      let (c, e, _, type, n, i, _, _, _) =
        response-ok set s.client rows id status warnings r query small a b st w h size in
      (reported c s, rw (e, deliver-ok c s type), refl, ap long_of_size n, ap long_of_size i, refl)
