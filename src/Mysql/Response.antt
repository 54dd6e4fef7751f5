-- ===== src/Mysql/Response.antt =====
-- swoole_mysql.cc: mysql_read_rows and mysql_response, the reading of an answer as it arrives.
-- `none` is undefined behaviour, or the end of the fuel of a loop.
pub mod Total
pub mod Single
pub mod ResultSet
use async_ext.Prelude.{
  ℕ, zero, suc, ◌+◌, ◌%◌, ◌^◌, Bool, true, false, Option, none, some, List, [], ◌∷◌, ◌++◌,
  replicate, ltb, ◌==◌, if◌then◌else◌,
}
use async_ext.Prelude.Int.{ℤ, pos, negsuc}
use async_ext.Str.{Memory, Str, byte, sub_size}
use async_ext.Mysql.Wire.{header_size, Coded, length_coded_binary}
use async_ext.Mysql.Field.{Field}
use async_ext.Mysql.Client.{
  Opcode, Opcode.error, Opcode.ok, Opcode.wait, Command, ReadState, Statement, Value, Response,
  Client,
}
use async_ext.Mysql.Packet.{
  read_header, read_eof, read_err, read_ok, parse_prepare_result, is_prepare,
}
use async_ext.Mysql.Columns.{Outcome, unread, is_complete, read_params, read_columns}
use async_ext.Mysql.Rows
use async_ext.Mysql.Rows.{Library, Step, decode_row}
use async_ext.Mysql.Rows.Binary.{decode_row_prepare}

-- `mysql_columns_free`: the decoded columns and their array are given back.
unfoldable pub columns_free : Client → Client
columns_free c = record c { response = record c.response { columns = none } }

-- The columns that a row decoder walks over: all `num_column` of them, null where there is no array.
abbrev pub columns_of : Client → List (Option Field)
columns_of c = elim c.response.columns [
  | none ↦ replicate c.response.num_column none
  | some fs ↦ fs
]

-- The constant SW_CONTINUE of the swoole core, the conversions, and whether `strict_type` is set.
pub record Setting : Type 0 where
  pub library : Library
  pub strict_type : Bool
  pub sw_continue : ℤ

-- `add_next_index_zval`
abbrev pub add_row :
    List (List ℕ × Value)
    → Option (List (List (List ℕ × Value)))
    → Option (List (List (List ℕ × Value)))
add_row r none = none
add_row r (some rows) = some (rows ++ (r ∷ []))

-- Behind a row of `read_n` bytes: `p`, `n_buf` and `buffer->offset` move on together.
unfoldable pub next_row : Client → ℕ → Client
next_row c read_n = record c {
  buffer = record c.buffer { offset = c.buffer.offset + (header_size + read_n) };
  response = record c.response { num_row = suc c.response.num_row };
}

-- The test of `read_n`. SW_CONTINUE is seen as an order to wait only if it is negative.
unfoldable pub after_row : Setting → Client → Step (List (List ℕ × Value) × ℕ) → Outcome
unfolding next_row columns_free
after_row s c (Step.done (r, read_n)) = some (
  ok,
  next_row
      (record c {
        response = record c.response { result_array = add_row r c.response.result_array };
      })
      read_n,
)
after_row s c Step.continue = elim s.sw_continue [
  | pos n ↦ some (ok, next_row c n)
  | negsuc n ↦ some (wait, c)
]
after_row s c (Step.failed e) = some (error, columns_free c)
after_row s c Step.undefined = none

abbrev pub is_execute : Command → Bool
is_execute Command.stmt_execute = true
is_execute _ = false

unfoldable pub decode_next : Setting → Client → ℕ → Step (List (List ℕ × Value) × ℕ)
unfolding decode_row decode_row_prepare
decode_next s c k =
    let n_buf = sub_size (unread c) header_size in
    if is_execute c.cmd
    then decode_row_prepare s.library c.buffer.str (k + header_size) c.response.num_column
        (columns_of c) c.response.packet_length n_buf
    else decode_row s.library s.strict_type c.buffer.str (k + header_size) (columns_of c)
        c.response.packet_length n_buf

-- How a round of mysql_read_rows ends: it returns, or goes on with the next packet.
pub data Round : Type 0 where
  returns : Outcome → Round
  again : Client → Round

abbrev pub round_of : Outcome → Round
round_of none = returns none
round_of (some (Opcode.ok, c)) = again c
round_of (some (Opcode.error, c)) = returns (some (error, c))
round_of (some (Opcode.wait, c)) = returns (some (wait, c))

unfoldable pub unless_err : Setting → Client → ℕ → Bool × Client → Round
unfolding columns_free after_row decode_next
unless_err s c k (true, c') = returns (some (ok, columns_free c'))
unless_err s c k (false, c') = round_of (after_row s c' (decode_next s c' k))

unfoldable pub unless_eof : Setting → Client → ℕ → Opcode × Client → Round
unfolding columns_free unless_err read_err
unless_eof s c k (Opcode.ok, c') = returns (some (ok, columns_free c'))
unless_eof s c k (Opcode.error, c') = unless_err s c' k (read_err c' k)
unless_eof s c k (Opcode.wait, c') = unless_err s c' k (read_err c' k)

-- A round with a complete packet at hand.
unfoldable pub row_round : Setting → Client → Round
unfolding unless_eof read_header read_eof
row_round s c =
    let k = c.buffer.offset in let c' = read_header c k in unless_eof s c' k (read_eof c' k)

abbrev pub loop_on : (Client → Outcome) → Round → Outcome
loop_on f (returns o) = o
loop_on f (again c) = f c

unfoldable pub rows_loop : ℕ → Setting → Client → Outcome
unfolding row_round
rows_loop zero s c = none
rows_loop (suc fuel) s c =
    if unread c == 0
    then some (wait, c)
    else if is_complete c
    then loop_on (rows_loop fuel s) (row_round s c)
    else some (wait, c)

-- `mysql_read_rows`
unfoldable pub read_rows : Setting → Client → Outcome
unfolding rows_loop
read_rows s c = rows_loop (suc (unread c)) s c

-- The array of `num_column` zeroed columns, where there is at least one.
abbrev pub alloc_columns : ℕ → Client → Client
alloc_columns n c = record c {
  response = record c.response {
    num_column = n;
    columns = if ltb 0 n then some (replicate n none) else c.response.columns;
  };
}

abbrev pub with_state : ReadState → Client → Client
with_state st c = record c { state = st }

-- The result set packet: its number of columns.
unfoldable pub start_columns : Client → ℕ → Option Coded → Round
start_columns c k none = returns (some (error, c))
start_columns c k (some r) = again (
    with_state ReadState.read_field (
      alloc_columns r.value
        (record c { buffer = record c.buffer { offset = k + (header_size + r.width) } })))

-- Behind mysql_parse_prepare_result.
unfoldable pub start_statement : Option Statement → Client → Round
start_statement none c = returns none
start_statement (some st) c =
    let c' = alloc_columns st.field_count c in
    if ltb 0 st.param_count
    then again (with_state ReadState.read_param c')
    else if ltb 0 st.field_count
    then again (with_state ReadState.read_field c')
    else returns (some (ok, c'))

unfoldable pub unless_prepared : Client → ℕ → Opcode × Client → Round
unfolding start_columns start_statement length_coded_binary
unless_prepared c k (Opcode.ok, c') = start_statement c'.statement c'
unless_prepared c k (_, c') =
    start_columns c k (
      length_coded_binary c.buffer.str (k + header_size) (sub_size (unread c) header_size % 2 ^ 32))

abbrev pub finished : Client → Round
finished c = returns (some (ok, with_state ReadState.read_end c))

unfoldable pub unless_ok : Client → ℕ → Opcode × Client → Round
unfolding unless_prepared parse_prepare_result
unless_ok c k (Opcode.ok, c') = finished c'
unless_ok c k (_, c') = unless_prepared c k (parse_prepare_result c k)

unfoldable pub unless_start_eof : Client → ℕ → Opcode × Client → Round
unfolding unless_ok read_ok
unless_start_eof c k (Opcode.ok, c') = finished c'
unless_start_eof c k (_, c') = unless_ok c k (read_ok c k (unread c))

unfoldable pub unless_start_err : Client → ℕ → Bool × Client → Round
unfolding unless_start_eof read_eof
unless_start_err c k (true, c') = finished c'
unless_start_err c k (false, c') = unless_start_eof c k (read_eof c k)

-- The header of the first packet of an answer, with its first byte.
unfoldable pub start_packet : Client → Client
unfolding read_header
start_packet c =
    let h = read_header c c.buffer.offset in
    record h {
      response = record h.response { response_type = byte c.buffer.str (c.buffer.offset + 4) };
    }

-- The case of SW_MYSQL_STATE_READ_START.
unfoldable pub start_round : Client → Round
unfolding unless_start_err start_packet read_err
start_round c =
    if is_complete c
    then unless_start_err (start_packet c) c.buffer.offset
        (read_err (start_packet c) c.buffer.offset)
    else returns (some (wait, c))

-- The cases of the fields, the rows and the parameters, behind the calls that they make.
unfoldable pub field_round : Outcome → Round
unfolding columns_free
field_round none = returns none
field_round (some (Opcode.ok, c)) =
    if is_prepare c.cmd
    then returns (some (ok, columns_free c))
    else again (with_state ReadState.read_row c)
field_round (some (Opcode.error, c)) = returns (some (error, c))
field_round (some (Opcode.wait, c)) = returns (some (wait, c))

unfoldable pub row_end : Outcome → Round
row_end none = returns none
row_end (some (Opcode.wait, c)) = returns (some (wait, c))
row_end (some (_, c)) = finished c

unfoldable pub param_statement : Option Statement → Client → Round
unfolding columns_free
param_statement none c = returns none
param_statement (some st) c =
    if ltb 0 st.field_count
    then again (with_state ReadState.read_field c)
    else returns (some (ok, columns_free c))

unfoldable pub param_round : Outcome → Round
unfolding param_statement
param_round none = returns none
param_round (some (Opcode.ok, c)) = param_statement c.statement c
param_round (some (Opcode.error, c)) = returns (some (error, c))
param_round (some (Opcode.wait, c)) = returns (some (wait, c))

-- The `switch` over the state.
unfoldable pub response_round : Setting → ReadState → Client → Round
unfolding start_round field_round row_end param_round read_columns read_rows read_params
response_round s ReadState.read_start c = start_round c
response_round s ReadState.read_field c = field_round (read_columns c)
response_round s ReadState.read_row c = row_end (read_rows s c)
response_round s ReadState.read_param c = param_round (read_params c)
response_round s ReadState.query c = returns (some (error, c))
response_round s ReadState.read_end c = returns (some (error, c))
response_round s ReadState.closed c = returns (some (error, c))

unfoldable pub response_loop : ℕ → Setting → Client → Outcome
unfolding response_round
response_loop zero s c = none
response_loop (suc fuel) s c =
    if unread c == 0
    then some (wait, c)
    else loop_on (response_loop fuel s) (response_round s c.state c)

-- `mysql_response`. Each round goes on to a later state or returns, so five rounds are enough.
unfoldable pub response : Setting → Client → Outcome
unfolding response_loop
response s c = response_loop 5 s c
