-- ===== src/Mysql/Tests/Query.antt =====
-- Requests, and a transaction that is begun twice and ended once.
use async_ext.Prelude.{
  ℕ, ◌+◌, ◌<◌, ◌≡◌, arith, refl, ap, subst, Bool, true, false, Option, none, some, List, [], ◌∷◌,
  length, get_or, ltb, ◌-◌, zero, suc, if◌then◌else◌,
}
use async_ext.Prelude.Int.{pos}
use async_ext.Str.{Str, byte}
use async_ext.Mysql.Wire.{uint3korr}
use async_ext.Str.Holds.{Holds, Holds-read}
use async_ext.Mysql.Client.{ReadState}
use async_ext.Mysql.Query.{
  StrApi, Session, sent, mysql_query, request_head, command_pack, com_query,
}
use async_ext.Mysql.Query.Request.{IsText, Appends, command_pack-framed}
use async_ext.Mysql.Query.Transaction.{
  Event, call_query, call_begin, call_finish, Alternates, run_calls, transactions-Alternates,
  mysql_query_once,
}
use async_ext.Mysql.Tests.{waiting}

abbrev append_bytes : Str → List ℕ → Str
append_bytes s bs = record s {
  str = λ i. if ltb i s.length then s.str i else get_or bs (i - s.length) 0;
  length = s.length + length bs;
}

-- A string that grows without limit.
abbrev api : StrApi
api = record {
  clear = λ s. record s { length = 0; offset = 0 };
  append = λ s bs. some (append_bytes s bs);
}

text_byte : (bs : List ℕ) (i : ℕ) → IsText bs → get_or bs i 0 < 256
text_byte [] i h = omega arith
text_byte (b ∷ bs) zero h = h.0
text_byte (b ∷ bs) (suc i) h = text_byte bs i h.1

append_bytes-Appends :
    (s : Str) (bs : List ℕ)
    → IsText bs
    → let t = append_bytes s bs in
      (t.length ≡ s.length + length bs)
      × Holds t.str s.length bs
      × ((i : ℕ) → i < s.length → byte t.str i ≡ byte s.str i)
append_bytes-Appends s bs chars = (
  refl,
  Holds-read _ s.length bs (λ i l.
      let a : s.length + i - s.length ≡ i = omega arith in
      let b : ltb (s.length + i) s.length ≡ false = ground arith in
      rw (b, a) (omega (arith, text_byte bs i chars))),
  λ i l. ground (arith, l),
)

api-Appends : Appends api
api-Appends s t bs chars e =
    subst
      (λ (t : Str).
        (t.length ≡ s.length + length bs)
        × Holds t.str s.length bs
        × ((i : ℕ) → i < s.length → byte t.str i ≡ byte s.str i))
      (ap (λ (o : Option Str). elim o [ none ↦ s | some u ↦ u ]) e)
      (append_bytes-Appends s bs chars)

abbrev buffer : Str
buffer = record { str = λ _. 0; length = 0; offset = 0; size = 0 }

-- The query "S", packed.
abbrev packed : Str
packed =
    append_bytes (record buffer { str = request_head com_query 1 buffer.str; length = 5 }) (83 ∷ [])

command_pack-framed_example :
    (packed.length ≡ 6)
    × (uint3korr packed.str 0 ≡ 2)
    × (byte packed.str 3 ≡ 0)
    × (byte packed.str 4 ≡ com_query)
    × Holds packed.str 5 (83 ∷ [])
unfolding command_pack
command_pack-framed_example =
    command_pack-framed api api-Appends com_query (83 ∷ []) buffer packed (omega arith)
      (omega arith, tt) refl

abbrev session : Session
session = record {
  client = record (waiting []) { state = ReadState.query };
  has_cli = true;
  connected_property = true;
  errno = 0;
  error = [];
  affected_rows = pos 0;
  insert_id = pos 0;
}

abbrev script : List Event
script =
    record { method = call_begin sent (66 ∷ []); state = ReadState.query; connected = true }
    ∷ record { method = call_begin sent (66 ∷ []); state = ReadState.query; connected = true }
    ∷ record { method = call_query sent (83 ∷ []); state = ReadState.query; connected = true }
    ∷ record { method = call_finish sent (67 ∷ []); state = ReadState.query; connected = true }
    ∷ []

transactions-Alternates_example :
    (xs : List Bool) × (s' : Session) × (run_calls api buffer script session ≡ some (xs, s'))
    × Alternates false xs s'.client.transaction
transactions-Alternates_example = transactions-Alternates api buffer script session refl

abbrev asked : Session
asked = record session { client = record session.client { state = ReadState.read_start } }

mysql_query_once_example : mysql_query api buffer sent (83 ∷ []) asked ≡ some (false, asked)
unfolding mysql_query
mysql_query_once_example =
    mysql_query_once api buffer sent sent (83 ∷ []) (83 ∷ []) session asked refl
