-- ===== src/Mysql/Response/Single.antt =====
-- Answers of one packet: what mysql_response of swoole_mysql.cc makes of an ERR and of an OK packet.
use async_ext.Prelude.{
  ℕ, ◌+◌, ◌-◌, ◌%◌, ◌^◌, ◌<◌, ◌≤◌, ◌≡◌, true, false, some, List, ◌∷◌, ◌++◌, length, arith, refl, ap,
  ◌∙◌, subst, ◌==◌, Bool-cases, ==_iff, inl, inr, length-append,
}
use async_ext.Str.{Memory, byte}
use async_ext.Mysql.Wire.{uint2korr, uint3korr, ensure_packet, length_coded_binary}
use async_ext.Mysql.Wire.Lcb.{
  encode, tail_bytes, Holds, Holds-append, length-encode, length_coded_binary-encode,
}
use async_ext.Mysql.Wire.Numbers.{uint3korr-lt}
use async_ext.Mysql.Client.{Opcode.ok, Opcode.wait, ReadState, Client}
use async_ext.Mysql.Packet.{
  read_header, skip_packet, next_number, read_eof, read_err, read_ok, packet_err, packet_ok,
  is_prepare,
}
use async_ext.Mysql.Columns.{Outcome, unread, is_complete}
use async_ext.Mysql.Response.{
  Setting, returns, loop_on, start_packet, unless_ok, unless_start_eof, unless_start_err,
  start_round, response_round, response_loop, response, with_state,
}

-- An answer is expected, and the next packet has arrived.
pub record Ready (c : Client) : Type 0 where
  pub starting : c.state ≡ ReadState.read_start
  pub arrived : is_complete c ≡ true

ready_unread : (c : Client) → is_complete c ≡ true → (unread c == 0) ≡ false
unfolding ensure_packet
ready_unread c h = ground arith

-- A first round that returns is all there is.
response_of_round :
    (s : Setting) (c : Client) (o : Outcome)
    → c.state ≡ ReadState.read_start
    → (unread c == 0) ≡ false
    → start_round c ≡ returns o
    → response s c ≡ o
unfolding response response_loop response_round
response_of_round s c o st u e = rw u (
    ap (λ t. loop_on (response_loop 4 s) (response_round s t c)) st
    ∙ ap (loop_on (response_loop 4 s)) e)

response_of_start :
    (s : Setting) (c : Client) (o : Outcome)
    → Ready c
    → start_round c ≡ returns o
    → response s c ≡ o
response_of_start s c o r = response_of_round s c o r.starting (ready_unread c r.arrived)

-- At the start of an answer whose first packet is incomplete, mysql_response waits and leaves the
-- client as it is.
pub response_waits :
    (s : Setting) (c : Client)
    → c.state ≡ ReadState.read_start
    → is_complete c ≡ false
    → response s c ≡ some (wait, c)
unfolding response response_loop start_round
response_waits s c st h = elim (Bool-cases (unread c == 0)) [
  | inl e ↦ rw e
  | inr e ↦ response_of_round s c (some (wait, c)) st e (rw h)
]

-- For a complete ERR packet, mysql_response returns OK in the end state, with the packet's code
-- and the place and length of its message, reads the packet to its end, and leaves the memory of
-- the buffer and its size.
pub response-err :
    (s : Setting) (c : Client)
    → Ready c
    → byte c.buffer.str (c.buffer.offset + 4) ≡ packet_err
    → let k = c.buffer.offset in
      let size = uint3korr c.buffer.str k in
      (c' : Client) × (response s c ≡ some (ok, c'))
      × (c'.state ≡ ReadState.read_end)
      × (c'.response.response_type ≡ packet_err)
      × (c'.response.error_code ≡ uint2korr c.buffer.str (k + 5))
      × (c'.response.server_msg ≡ k + 13)
      × (9 ≤ size → c'.response.l_server_msg ≡ (size - 9) % 2 ^ 16)
      × (c'.buffer.offset ≡ k + 4 + size)
      × (c'.buffer.str ≡ c.buffer.str)
      × (c'.buffer.size ≡ c.buffer.size)
unfolding start_round unless_start_err start_packet read_header read_err skip_packet
response-err s c r h =
    let k = c.buffer.offset in
    let e : (byte c.buffer.str (k + 4) == packet_err) ≡ true = (==_iff _ _).1 h in
    let l = uint3korr-lt c.buffer.str k in
    let c' = with_state ReadState.read_end (read_err (start_packet c) k).1 in
    (
      c',
      response_of_start s c (some (ok, c')) r (rw (r.arrived, e)),
      refl,
      rw e,
      rw e,
      rw e,
      λ small. rw e (omega (arith, l)),
      rw e (omega (arith, l)),
      rw e refl,
      rw e refl,
    )

-- The payload of an OK packet of the protocol.
abbrev pub ok_payload : ℕ → ℕ → ℕ → ℕ → List ℕ
ok_payload rows id status warnings =
    packet_ok ∷ encode rows ++ (encode id ++ (tail_bytes 2 status ++ tail_bytes 2 warnings))

pub length-ok_payload :
    (rows id status warnings : ℕ)
    → length (ok_payload rows id status warnings) ≡ length (encode rows) + length (encode id) + 5
length-ok_payload rows id status warnings = omega (
  arith,
  length-append (encode rows) (encode id ++ (tail_bytes 2 status ++ tail_bytes 2 warnings)),
  length-append (encode id) (tail_bytes 2 status ++ tail_bytes 2 warnings),
)

-- A complete packet lies within what was received.
complete_size :
    (m : Memory) (k n : ℕ) → n < 2 ^ 31 → ensure_packet m k n ≡ true → 4 + uint3korr m k ≤ n
unfolding ensure_packet
complete_size m k n small h = ground arith

pub record OkPlaces (m : Memory) (k n rows id status warnings : ℕ) : Type 0 where
  pub first :
      length_coded_binary m k n
      ≡ some (record { width = length (encode rows); value = rows; nul = false })
  pub second :
      length_coded_binary m
        (k + length (encode rows))
        ((n + 2 ^ 32 - length (encode rows)) % 2 ^ 32)
      ≡ some (record { width = length (encode id); value = id; nul = false })
  pub flags : uint2korr m (k + length (encode rows) + length (encode id)) ≡ status
  pub count : uint2korr m (k + length (encode rows) + length (encode id) + 2) ≡ warnings

pub ok_places :
    (m : Memory) (k n rows id status warnings : ℕ)
    → Holds m k (encode rows ++ (encode id ++ (tail_bytes 2 status ++ tail_bytes 2 warnings)))
    → length (encode rows) + length (encode id) + 4 ≤ n
    → n < 2 ^ 31
    → rows < 2 ^ 64
    → id < 2 ^ 64
    → status < 2 ^ 16
    → warnings < 2 ^ 16
    → OkPlaces m k n rows id status warnings
unfolding uint2korr
ok_places m k n rows id status warnings h fits small a b c d =
    let (h₁, rest) =
      Holds-append m k (encode rows) (encode id ++ (tail_bytes 2 status ++ tail_bytes 2 warnings))
        h in
    let (h₂, h₃) =
      Holds-append m (k + length (encode rows)) (encode id)
        (tail_bytes 2 status ++ tail_bytes 2 warnings) rest in
    let l₁ = length-encode rows in
    let l₂ = length-encode id in
    record {
      first = length_coded_binary-encode m k n rows a h₁ (omega arith) (inr (omega arith));
      second =
          length_coded_binary-encode m (k + length (encode rows)) _ id b h₂ (omega arith)
            (inr (omega arith));
      flags = ground arith;
      count = ground arith;
    }

-- For a complete OK packet of the protocol, in answer to anything but a preparation and with less
-- than 2^31 bytes unread, mysql_response returns OK in the end state, with the rows, the insert
-- id, the status and the warnings that were encoded, and reads the packet to its end.
pub response-ok :
    (s : Setting) (c : Client) (rows id status warnings : ℕ)
    → Ready c
    → is_prepare c.cmd ≡ false
    → unread c < 2 ^ 31
    → rows < 2 ^ 64
    → id < 2 ^ 64
    → status < 2 ^ 16
    → warnings < 2 ^ 16
    → Holds c.buffer.str (c.buffer.offset + 4) (ok_payload rows id status warnings)
    → uint3korr c.buffer.str c.buffer.offset ≡ length (ok_payload rows id status warnings)
    → (c' : Client) × (response s c ≡ some (ok, c'))
      × (c'.state ≡ ReadState.read_end)
      × (c'.response.response_type ≡ packet_ok)
      × (c'.response.affected_rows ≡ rows)
      × (c'.response.insert_id ≡ id)
      × (c'.response.status_code ≡ status)
      × (c'.response.warnings ≡ warnings)
      × (c'.buffer.offset ≡ c.buffer.offset + 4 + length (ok_payload rows id status warnings))
unfolding start_round unless_start_err unless_start_eof unless_ok start_packet read_header read_err
    read_eof read_ok skip_packet next_number
response-ok s c rows id status warnings r query small a b st w h size =
    let k = c.buffer.offset in
    let m = c.buffer.str in
    let not_err : (byte m (k + 4) == packet_err) ≡ false = ground (arith, h.0) in
    let not_eof : (byte m (k + 4) == 0xfe) ≡ false = ground (arith, h.0) in
    let is_ok : (byte m (k + 4) == packet_ok) ≡ true = ground (arith, h.0) in
    let len = length-ok_payload rows id status warnings in
    let whole = complete_size m k (unread c) small r.arrived in
    let c' = with_state ReadState.read_end (read_ok (start_packet c) k (unread c)).1 in
    let p =
      ok_places m (k + 5) ((unread c + 2 ^ 32 - 5) % 2 ^ 32) rows id status warnings
        (subst
          (λ j.
            Holds m j
              (encode rows ++ (encode id ++ (tail_bytes 2 status ++ tail_bytes 2 warnings))))
          {x = k + 4 + 1} {y = k + 5} (omega arith) h.1)
        (omega (arith, len, whole, size, small)) (omega (arith, small, len, whole, size)) a b st
        w in
    (
      c',
      response_of_start s c (some (ok, c')) r (rw (r.arrived, not_err, not_eof, is_ok, query)),
      refl,
      rw (is_ok, query) h.0,
      rw (is_ok, query, p.first),
      rw (is_ok, query, p.first, p.second),
      rw (is_ok, query, p.first, p.second) p.flags,
      rw (is_ok, query, p.first, p.second) p.count,
      rw (is_ok, query) (omega (arith, uint3korr-lt m k, size)),
    )
