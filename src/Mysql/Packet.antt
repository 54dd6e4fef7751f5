-- ===== src/Mysql/Packet.antt =====
-- swoole_mysql.cc: the readers of single packets. Each is given the address `k` of a packet in the
-- buffer's memory, and the number of bytes from there on.
use async_ext.Prelude.{
  ℕ, ◌+◌, ◌-◌, ◌%◌, ◌^◌, Bool, true, false, ◌||◌, not, Option, none, some, ltb, ◌==◌, if◌then◌else◌,
}
use async_ext.Str.{byte, slice}
use async_ext.Mysql.Wire.{header_size, uint2korr, uint3korr, uint4korr, Coded, length_coded_binary}
use async_ext.Mysql.Client.{Opcode, Opcode.error, Opcode.ok, Command, Client}

-- `enum swMySQL_packet_type` and SW_MYSQL_PACKET_EOF_MAX_SIZE.
abbrev pub packet_ok : ℕ
packet_ok = 0x0

abbrev pub packet_eof : ℕ
packet_eof = 0xfe

abbrev pub packet_err : ℕ
packet_err = 0xff

abbrev pub eof_max_size : ℕ
eof_max_size = 9

abbrev pub is_prepare : Command → Bool
is_prepare Command.stmt_prepare = true
is_prepare _ = false

-- `MYSQL_RESPONSE_BUFFER->offset += SW_MYSQL_PACKET_HEADER_SIZE + client->response.packet_length`
unfoldable pub skip_packet : Client → Client
skip_packet c = record c {
  buffer = record c.buffer { offset = c.buffer.offset + (header_size + c.response.packet_length) };
}

-- The header of the packet at `k`: `packet_length` is a field of 24 bits, `packet_number` of 8.
unfoldable pub read_header : Client → ℕ → Client
unfolding uint3korr
read_header c k = record c {
  response = record c.response {
    packet_length = uint3korr c.buffer.str k % 2 ^ 24;
    packet_number = byte c.buffer.str (k + 3);
  };
}

-- `mysql_read_eof`
unfoldable pub read_eof : Client → ℕ → Opcode × Client
unfolding uint2korr skip_packet
read_eof c k =
    if not (byte c.buffer.str (k + 4) == packet_eof) || ltb eof_max_size c.response.packet_length
    then (error, c)
    else (
      ok,
      skip_packet (record c {
        response = record c.response {
          warnings = uint2korr c.buffer.str (k + 5);
          status_code = uint2korr c.buffer.str (k + 7);
        };
      }),
    )

-- `mysql_read_err`; the Boolean is SW_OK. `l_server_msg` has 16 bits.
unfoldable pub read_err : Client → ℕ → Bool × Client
unfolding uint2korr skip_packet
read_err c k = if not (byte c.buffer.str (k + 4) == packet_err) then (false, c) else (
  true,
  skip_packet (record c {
    response = record c.response {
      response_type = packet_err;
      error_code = uint2korr c.buffer.str (k + 5);
      status_msg = slice c.buffer.str (k + 8) 5;
      server_msg = k + 13;
      l_server_msg = (c.response.packet_length + 2 ^ 16 - 9) % 2 ^ 16;
    };
  }),
)

-- What mysql_length_coded_binary leaves in `*r`, and the address and the number of bytes after
-- `buf += ret; n_buf -= ret`, where `ret` may be -1. The number is an `int` as its bit pattern.
pub record Place : Type 0 where
  pub value : ℕ
  pub at : ℕ
  pub left : ℕ

unfoldable pub next_number : ℕ → ℕ → ℕ → Option Coded → Place
next_number old k n none = record { value = old; at = k - 1; left = (n + 1) % 2 ^ 32 }
next_number old k n (some r) = record {
  value = r.value;
  at = k + r.width;
  left = (n + 2 ^ 32 - r.width) % 2 ^ 32;
}

-- `mysql_read_ok`
unfoldable pub read_ok : Client → ℕ → ℕ → Opcode × Client
unfolding uint2korr skip_packet next_number length_coded_binary
read_ok c k n_buf =
    let m = c.buffer.str in
    if not (byte m (k + 4) == packet_ok) || is_prepare c.cmd
    then (error, c)
    else let n = (n_buf + 2 ^ 32 - 5) % 2 ^ 32 in
      let rows = next_number c.response.affected_rows (k + 5) n (length_coded_binary m (k + 5) n) in
      let id =
        next_number c.response.insert_id rows.at rows.left
          (length_coded_binary m rows.at rows.left) in
      (
        ok,
        skip_packet (record c {
          response = record c.response {
            affected_rows = rows.value;
            insert_id = id.value;
            status_code = uint2korr m id.at;
            warnings = uint2korr m (id.at + 2);
          };
        }),
      )

-- `mysql_parse_prepare_result`
unfoldable pub parse_prepare_result : Client → ℕ → Opcode × Client
unfolding uint2korr uint4korr skip_packet
parse_prepare_result c k =
    let m = c.buffer.str in
    if not (byte m (k + 4) == packet_ok)
      || not (is_prepare c.cmd)
      || ltb c.response.packet_length 12
    then (error, c)
    else let params = uint2korr m (k + 11) in
      (
        ok,
        skip_packet (record c {
          statement = some (record {
            id = uint4korr m (k + 5);
            field_count = uint2korr m (k + 9);
            param_count = params;
            unreaded_param_count = params;
            warning_count = uint2korr m (k + 14);
          });
        }),
      )
