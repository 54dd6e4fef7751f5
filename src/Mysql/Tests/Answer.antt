-- ===== src/Mysql/Tests/Answer.antt =====
-- Answers of one packet, and values that go over several.
use async_ext.Prelude.{
  Option, ℕ, ◌+◌, ◌-◌, ◌%◌, ◌^◌, ◌≤◌, ◌≡◌, ◌↔◌, arith, refl, Bool, true, false, none, some, List,
  [], ◌∷◌, length,
}
use async_ext.Prelude.Int.{pos}
use async_ext.Mysql.Wire.{ensure_packet, uint2korr, uint3korr}
use async_ext.Mysql.Wire.Lcb.{encode}
use async_ext.Mysql.Client.{Opcode, ReadState, Client}
use async_ext.Mysql.Packet.{packet_ok, packet_err}
use async_ext.Mysql.Response.{Setting, response, response_loop}
use async_ext.Mysql.Response.Single.{Ready, response-err, response-ok, ok_payload}
use async_ext.Mysql.Response.Total.{response-rounds}
use async_ext.Mysql.Over.{is_over}
use async_ext.Mysql.Over.Complete.{IsLast, verdict_at, is_over_complete}
use async_ext.Prelude.{◌>>=◌}
use async_ext.Mysql.Query.{StrApi, Session}
use async_ext.Mysql.Query.Deliver
use async_ext.Mysql.Query.Deliver.{cleared, on_response, on_response-err, on_response-ok}
use async_ext.Mysql.BigData.{joined, decode_big_data}
use async_ext.Mysql.BigData.Join.{Packets, decode_big_data-Packets}
use async_ext.Mysql.Tests.{no_library, memory, waiting, ok_packet, err_packet}

abbrev setting : Setting
setting = record { library = no_library; strict_type = false; sw_continue = pos 1 }

abbrev ok_client : Client
ok_client = waiting ok_packet

abbrev err_client : Client
err_client = waiting err_packet

ok_arrived : Ready ok_client
unfolding ensure_packet uint3korr
ok_arrived = record { starting = refl; arrived = refl }

err_arrived : Ready err_client
unfolding ensure_packet uint3korr
err_arrived = record { starting = refl; arrived = refl }

is_over_complete_example :
    (b : Bool) × (c' : Client) × (is_over ok_client ≡ some (b, c'))
    × ((b ≡ true)
        ↔ ((q : ℕ) × IsLast (memory ok_packet) 11 0 q × (verdict_at (memory ok_packet) q ≡ true)))
    × (b ≡ true → (c'.check_offset ≡ 0) × (c'.want_length ≡ 0))
is_over_complete_example = is_over_complete ok_client (omega arith)

response-err_example :
    (c' : Client) × (response setting err_client ≡ some (Opcode.ok, c'))
    × (c'.state ≡ ReadState.read_end)
    × (c'.response.response_type ≡ packet_err)
    × (c'.response.error_code ≡ uint2korr (memory err_packet) 5)
    × (c'.response.server_msg ≡ 13)
    × (9 ≤ uint3korr (memory err_packet) 0
        → c'.response.l_server_msg ≡ (uint3korr (memory err_packet) 0 - 9) % 2 ^ 16)
    × (c'.buffer.offset ≡ 0 + 4 + uint3korr (memory err_packet) 0)
    × (c'.buffer.str ≡ memory err_packet)
    × (c'.buffer.size ≡ 15)
response-err_example = response-err setting err_client err_arrived refl

response-ok_example :
    (c' : Client) × (response setting ok_client ≡ some (Opcode.ok, c'))
    × (c'.state ≡ ReadState.read_end)
    × (c'.response.response_type ≡ packet_ok)
    × (c'.response.affected_rows ≡ 1)
    × (c'.response.insert_id ≡ 5)
    × (c'.response.status_code ≡ 2)
    × (c'.response.warnings ≡ 0)
    × (c'.buffer.offset ≡ 0 + 4 + length (ok_payload 1 5 2 0))
unfolding encode uint3korr
response-ok_example =
    response-ok setting ok_client 1 5 2 0 ok_arrived refl (omega arith) (omega arith) (omega arith)
      (omega arith) (omega arith) (refl, (refl, (refl, (refl, (refl, (refl, (refl, tt))))))) refl

response-rounds_example : response_loop 9 setting ok_client ≡ response setting ok_client
response-rounds_example = response-rounds 9 setting ok_client (omega arith)

-- The value "abcde", of which "ab" stands in the first packet.
abbrev split_value : List ℕ
split_value = 97 ∷ 98 ∷ 3 ∷ 0 ∷ 0 ∷ 2 ∷ 99 ∷ 100 ∷ 101 ∷ []

decode_big_data-Packets_example :
    decode_big_data (memory split_value) 0 5 9 2 ≡ joined (97 ∷ 98 ∷ 99 ∷ 100 ∷ 101 ∷ []) 4 3
unfolding Packets uint3korr
decode_big_data-Packets_example =
    decode_big_data-Packets (memory split_value) 0 9 (97 ∷ 98 ∷ []) ((99 ∷ 100 ∷ 101 ∷ []) ∷ [])
      (refl, (refl, tt)) (omega arith, refl, (refl, (refl, (refl, tt))), tt) refl (omega arith)
      (omega arith)

abbrev api : StrApi
api = record { clear = λ s. record s { length = 0; offset = 0 }; append = λ s bs. none }

-- A callback that asks nothing further.
abbrev callback : Deliver.Answer → Session → Option Session
callback a s = some s

abbrev session : Client → Session
session c = record {
  client = c;
  has_cli = true;
  connected_property = true;
  errno = 0;
  error = [];
  affected_rows = pos 0;
  insert_id = pos 0;
}

on_response-err_example :
    (t : Session) × (on_response setting api callback (session err_client)
      ≡ (callback Deliver.failed t >>= λ s'. some (cleared setting api callback s')))
    × (t.client.state ≡ ReadState.query)
    × (t.errno ≡ uint2korr (memory err_packet) 5)
    × (t.error ≡ 110 ∷ 111 ∷ [])
    × (t.has_cli ≡ true)
unfolding uint3korr
on_response-err_example =
    on_response-err setting api callback (session err_client) err_arrived refl (omega arith)
      (omega arith)

on_response-ok_example :
    (t : Session) × (on_response setting api callback (session ok_client)
      ≡ (callback Deliver.succeeded t >>= λ s'. some (cleared setting api callback s')))
    × (t.client.state ≡ ReadState.query)
    × (t.affected_rows ≡ pos 1)
    × (t.insert_id ≡ pos 5)
    × (t.has_cli ≡ true)
unfolding encode uint3korr
on_response-ok_example =
    on_response-ok setting api callback (session ok_client) 1 5 2 0 ok_arrived refl (omega arith)
      (omega arith) (omega arith) (omega arith) (omega arith)
      (refl, (refl, (refl, (refl, (refl, (refl, (refl, tt))))))) refl
