-- ===== src/Mysql/Over/Final.antt =====
-- mysql_is_over of swoole_mysql.cc on the last packet, against the packets of the MySQL protocol.
use async_ext.Prelude.{
  ℕ, ◌+◌, ◌-◌, ◌%◌, ◌^◌, ◌<◌, ◌≡◌, refl, Bool, true, false, not, List, ◌∷◌, ◌++◌, length, arith,
  ◌==◌, if◌then◌else◌,
}
use async_ext.Str.{Memory, byte}
use async_ext.Mysql.Wire.{uint2korr}
use async_ext.Mysql.Wire.Lcb.{encode, tail_bytes, Holds, length-encode}
use async_ext.Mysql.Packet.{next_number, packet_ok, packet_eof}
use async_ext.Mysql.Over.{more_results, ok_flags, is_final}
use async_ext.Mysql.Response.Single.{ok_payload, length-ok_payload, ok_places}

if-not : (b : Bool) → (if b then false else true) ≡ not b
if-not true = refl
if-not false = refl

-- The payload of an EOF packet of the protocol.
abbrev pub eof_payload : ℕ → ℕ → List ℕ
eof_payload warnings status = packet_eof ∷ tail_bytes 2 warnings ++ tail_bytes 2 status

-- When the payload of the last packet is an EOF packet of the protocol, mysql_is_over lets it
-- close the answer exactly if its status does not announce more results.
pub is_final-eof :
    (m : Memory) (p size warnings status : ℕ)
    → Holds m p (eof_payload warnings status)
    → status < 2 ^ 16
    → is_final m p size ≡ not (more_results status)
unfolding is_final uint2korr
is_final-eof m p size warnings status h small =
    let e : (byte m p == packet_eof) ≡ true = ground (arith, h.0) in
    let f : uint2korr m (p + 3) ≡ status = ground (arith, h) in
    rw (e, f) (if-not (more_results status))

-- When the payload of the last packet is an OK packet of the protocol, mysql_is_over lets it close
-- the answer exactly if its status does not announce more results.
pub is_final-ok :
    (m : Memory) (p rows id status warnings : ℕ)
    → Holds m p (ok_payload rows id status warnings)
    → rows < 2 ^ 64
    → id < 2 ^ 64
    → status < 2 ^ 16
    → warnings < 2 ^ 16
    → is_final m p (length (ok_payload rows id status warnings)) ≡ not (more_results status)
unfolding is_final ok_flags next_number
is_final-ok m p rows id status warnings h a b c d =
    let len = length-ok_payload rows id status warnings in
    let w = length-encode rows in
    let v = length-encode id in
    let n = (length (ok_payload rows id status warnings) + 2 ^ 32 - 1) % 2 ^ 32 in
    let q =
      ok_places m (p + 1) n rows id status warnings h.1 (omega (arith, len, w, v))
        (omega (arith, len, w, v)) a b c d in
    let not_eof : (byte m p == packet_eof) ≡ false = ground (arith, h.0) in
    let is_ok : (byte m p == packet_ok) ≡ true = ground (arith, h.0) in
    let f : ok_flags m p (length (ok_payload rows id status warnings))
        ≡ p + 1 + length (encode rows) + length (encode id) =
      rw (ok_flags, q.first, q.second, next_number, q.first) in
    rw (not_eof, is_ok, f, q.flags) (if-not (more_results status))
