-- ===== src/Mysql/Over.antt =====
-- swoole_mysql.cc, mysql_is_over: whether the responses received so far are the whole answer.
-- The sizes stay far below 2 ^ 63, so the differences of type `off_t` are those of the sizes.
pub mod Split
pub mod Complete
pub mod Final
use async_ext.Prelude.{
  ℕ, zero, suc, ◌+◌, ◌-◌, ◌/◌, ◌%◌, ◌^◌, Bool, true, false, Option, none, some, ltb, leb, ◌==◌,
  if◌then◌else◌,
}
use async_ext.Str.{Memory, byte}
use async_ext.Mysql.Wire.{header_size, uint2korr, uint3korr, length_coded_binary}
use async_ext.Mysql.Packet.{Place, next_number, packet_ok, packet_eof, packet_err}
use async_ext.Mysql.Client.{Client}

-- The test of SW_MYSQL_SERVER_MORE_RESULTS_EXISTS, the bit of 8.
pub more_results : ℕ → Bool
more_results flags = flags / 8 % 2 == 1

-- The place of the flags in the OK packet whose payload of `size` bytes begins at `p`.
pub ok_flags : Memory → ℕ → ℕ → ℕ
unfolding next_number length_coded_binary
ok_flags m p size =
    let n = (size + 2 ^ 32 - 1) % 2 ^ 32 in
    let rows = next_number 0 (p + 1) n (length_coded_binary m (p + 1) n) in
    (next_number 0 rows.at rows.left (length_coded_binary m rows.at rows.left)).at

-- The `switch` over the first byte of the last packet: whether it goes to `_over`.
pub is_final : Memory → ℕ → ℕ → Bool
unfolding more_results ok_flags uint2korr
is_final m p size =
    if byte m p == packet_eof
    then (if more_results (uint2korr m (p + 3)) then false else true)
    else if byte m p == packet_ok
    then (if more_results (uint2korr m (ok_flags m p size)) then false else true)
    else byte m p == packet_err

-- What a call leaves: whether it is SW_OK, `check_offset` and `want_length`.
pub record Verdict : Type 0 where
  pub over : Bool
  pub check : ℕ
  pub want : ℕ

abbrev pub again : ℕ → ℕ → Verdict
again check want = record { over = false; check = check; want = want }

-- The loop, on the memory and length of the buffer; `none` means that the fuel ran out.
pub over_loop : ℕ → Memory → ℕ → ℕ → ℕ → Option Verdict
unfolding is_final uint3korr
over_loop zero m len check want = none
over_loop (suc fuel) m len check want =
    let size = uint3korr m check in
    let rest = over_loop fuel m len (check + (header_size + size)) want in
    if leb len check
    then some (again check want)
    else if ltb len (check + header_size)
    then some (again check (check + header_size))
    else if ltb (len - check - header_size) size
    then some (again check (check + header_size + size))
    else if leb len (check + (header_size + size))
    then (if is_final m (check + header_size) (len - check - header_size)
        then some (record { over = true; check = 0; want = 0 })
        else some (again (check + (header_size + size)) want))
    else rest

-- `mysql_is_over`: the Boolean is SW_OK, and otherwise SW_CONTINUE.
pub apply_verdict : Client → Option Verdict → Option (Bool × Client)
apply_verdict c none = none
apply_verdict c (some v) = some (v.over, record c { check_offset = v.check; want_length = v.want })

pub is_over : Client → Option (Bool × Client)
unfolding over_loop apply_verdict
is_over c =
    if ltb c.buffer.length c.want_length
    then some (false, c)
    else apply_verdict c
        (over_loop (suc c.buffer.length) c.buffer.str c.buffer.length c.check_offset c.want_length)
