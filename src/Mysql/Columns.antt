-- ===== src/Mysql/Columns.antt =====
-- swoole_mysql.cc: mysql_read_params and mysql_read_columns, which read the packets that announce
-- the parameters and the columns. `none` is undefined behaviour: a null pointer followed, or a copy
-- outside its buffer.
use async_ext.Prelude.{
  ℕ, zero, suc, ◌+◌, ◌-◌, Bool, Option, none, some, List, [], set, ltb, if◌then◌else◌,
}
use async_ext.Str.{sub_size}
use async_ext.Mysql.Wire.{header_size, ensure_packet}
use async_ext.Mysql.Client.{Opcode, Opcode.error, Opcode.ok, Opcode.wait, Statement, Client}
use async_ext.Mysql.Field
use async_ext.Mysql.Field.{Field, decode_field}
use async_ext.Mysql.Packet.{skip_packet, read_header, read_eof, is_prepare}

abbrev pub Outcome : Type 0
Outcome = Option (Opcode × Client)

-- `size_t n_buf = buffer->length - buffer->offset`
abbrev pub unread : Client → ℕ
unread c = sub_size c.buffer.length c.buffer.offset

abbrev pub is_complete : Client → Bool
is_complete c = ensure_packet c.buffer.str c.buffer.offset (unread c)

-- The next round of a loop, after one that has not returned.
unfoldable pub then_next : (Client → Outcome) → Outcome → Outcome
then_next f none = none
then_next f (some (Opcode.ok, c)) = f c
then_next f (some (Opcode.error, c)) = some (error, c)
then_next f (some (Opcode.wait, c)) = some (wait, c)

-- A round of mysql_read_params that skips a parameter, of which `left` remain.
unfoldable pub skip_param : Statement → ℕ → Client → Outcome
unfolding read_header skip_packet ensure_packet
skip_param st left c =
    if is_complete c
    then some (
      ok,
      record (skip_packet (read_header c c.buffer.offset)) {
        statement = some (record st { unreaded_param_count = left });
      },
    )
    else some (wait, c)

unfoldable pub read_param_end : Client → Outcome
unfolding read_header read_eof ensure_packet
read_param_end c =
    if is_complete c
    then some (read_eof (read_header c c.buffer.offset) c.buffer.offset)
    else some (wait, c)

unfoldable pub params_loop : Statement → ℕ → Client → Outcome
unfolding then_next skip_param read_param_end
params_loop st zero c = read_param_end c
params_loop st (suc left) c = then_next (params_loop st left) (skip_param st left c)

unfoldable pub params_of : Option Statement → Client → Outcome
unfolding params_loop
params_of none c = none
params_of (some st) c = params_loop st st.unreaded_param_count c

-- `mysql_read_params`
unfoldable pub read_params : Client → Outcome
unfolding params_of
read_params c = params_of c.statement c

-- What becomes of a decoded column. A decoding that fails may leave the column half written; only
-- mysql_columns_free looks at it then.
unfoldable pub store_column :
    Client → Option (List (Option Field)) → Field.Result (Field × ℕ) → Outcome
unfolding skip_packet
store_column c none r = none
store_column c (some cs) Field.Result.overrun = none
store_column c (some cs) (Field.Result.failed e) = some (error, c)
store_column c (some cs) (Field.Result.ok (f, ret)) =
    if ltb 0 ret
    then some (
      ok,
      skip_packet (record c {
        response = record c.response {
          columns = some (set cs c.response.index_column (some f));
          index_column = suc c.response.index_column;
        };
      }),
    )
    else some (error, c)

unfoldable pub decode_column : Client → Outcome
unfolding store_column decode_field
decode_column c =
    store_column c c.response.columns
      (decode_field c.buffer.str (c.buffer.offset + header_size) c.response.packet_length)

-- A round of the loop of mysql_read_columns.
unfoldable pub read_column : Client → Outcome
unfolding read_header decode_column ensure_packet
read_column c =
    if is_complete c then decode_column (read_header c c.buffer.offset) else some (wait, c)

unfoldable pub columns_loop : ℕ → Client → Outcome
unfolding then_next read_column
columns_loop zero c = some (ok, c)
columns_loop (suc left) c = then_next (columns_loop left) (read_column c)

abbrev pub array_or_empty {ℓ} : {A : Type ℓ} → Option (List A) → Option (List A)
array_or_empty none = some []
array_or_empty (some rows) = some rows

-- `array_init` where the command is no preparation and there is no array yet.
unfoldable pub init_array : Client → Client
init_array c = if is_prepare c.cmd then c else record c {
  response = record c.response { result_array = array_or_empty c.response.result_array };
}

-- Behind the loop: the EOF packet. `buffer->offset` is set to `p`, which is where mysql_read_eof
-- has moved it already.
unfoldable pub end_columns : ℕ → Opcode × Client → Outcome
unfolding init_array
end_columns k (Opcode.ok, c) =
    let c' = init_array c in
    some (
      ok,
      record c' {
        buffer = record c'.buffer { offset = k + (header_size + c'.response.packet_length) };
      },
    )
end_columns k (Opcode.error, c) = some (error, c)
end_columns k (Opcode.wait, c) = some (error, c)

unfoldable pub read_columns_end : Client → Outcome
unfolding read_header read_eof end_columns ensure_packet
read_columns_end c =
    if is_complete c
    then end_columns c.buffer.offset (read_eof (read_header c c.buffer.offset) c.buffer.offset)
    else some (wait, c)

-- `mysql_read_columns`
unfoldable pub read_columns : Client → Outcome
unfolding columns_loop read_columns_end
read_columns c =
    then_next read_columns_end (columns_loop (c.response.num_column - c.response.index_column) c)
