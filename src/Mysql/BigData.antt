-- ===== src/Mysql/BigData.antt =====
-- swoole_mysql.cc, mysql_decode_big_data: a value that goes on over the packets that follow.
pub mod Join
use async_ext.Prelude.{
  ℕ, zero, suc, ◌+◌, ◌-◌, ◌*◌, ◌/◌, ◌%◌, ◌^◌, min, List, ◌++◌, ltb, leb, if◌then◌else◌,
}
use async_ext.Str.{Memory, slice}
use async_ext.Mysql.Wire.{header_size, uint3korr}

-- SW_MYSQL_MAX_PACKET_BODY_SIZE
abbrev pub max_body : ℕ
max_body = 0x00ffffff

-- Too few bytes received (the result NULL); the value with `ext_header_len` and `ext_packet_len`;
-- or a read behind the bytes received, which is undefined in C.
pub data Big : Type 0 where
  short overrun : Big
  joined : List ℕ → ℕ → ℕ → Big

-- The copying loop, from the header at `p` on. `stop` is the end of what was received. Every round
-- moves `p` by a header at least, so as much fuel as bytes received is never used up.
unfoldable pub join_loop : ℕ → Memory → ℕ → ℕ → ℕ → ℕ → List ℕ → ℕ → ℕ → Big
unfolding uint3korr
join_loop zero m stop len p write_n out header ext = overrun
join_loop (suc fuel) m stop len p write_n out header ext =
    let size = uint3korr m p in
    let write_s = min size (len - write_n) in
    let rest =
      join_loop fuel m stop len (p + header_size + write_s) (write_n + write_s)
        (out ++ slice m (p + header_size) write_s) header ((ext + size) % 2 ^ 32) in
    if leb len write_n
    then joined out header ext
    else if ltb stop (p + header_size + write_s)
    then overrun
    else rest

-- `mysql_decode_big_data`: `len` bytes wanted at `p`, `remaining` bytes received from there on, of
-- which the current packet has `current`.
unfoldable pub decode_big_data : Memory → ℕ → ℕ → ℕ → ℕ → Big
unfolding join_loop
decode_big_data m p len remaining current =
    let header = header_size * ((len - current) / max_body + 1) % 2 ^ 32 in
    if ltb remaining ((header + len) % 2 ^ 64)
    then short
    else join_loop (suc remaining) m (p + remaining) len (p + current) current (slice m p current)
        header 0
