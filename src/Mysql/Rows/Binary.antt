-- ===== src/Mysql/Rows/Binary.antt =====
-- swoole_mysql.cc, mysql_decode_row_prepare: a row of the binary protocol. Words are read in the
-- byte order of the machine, which is little-endian.
use async_ext.Prelude.{
  ℕ, suc, ◌+◌, ◌-◌, ◌/◌, ◌%◌, ◌^◌, Option, none, some, List, [], ◌∷◌, take, ltb, ◌==◌,
  if◌then◌else◌,
}
use async_ext.Str.{Memory, byte, slice, sub_size}
use async_ext.Mysql.Wire.{Coded, length_coded_binary, uint2korr, uint4korr, uint8korr}
use async_ext.Mysql.Field.{Field}
use async_ext.Mysql.Client.{Value, null, text, integer, float}
use async_ext.Mysql.Rows.{
  Library, Step, done, failed, undefined, ◌>>=◌, bad_lcb, unknown_type, RowState, is_unsigned,
  sign_extend32, add, assign, locate, c_string,
}
use async_ext.Mysql.Rows.Kinds.{Kind, kind_of}
use async_ext.Mysql.Rows.Dates.{decode_datetime, decode_time, decode_date, decode_year}

-- The loop's variables: `len` keeps its value from column to column.
pub record BinaryState : Type 0 where
  pub state : RowState
  pub len : ℕ

-- An 8-bit and a 16-bit pattern as a `zend_long`.
abbrev pub sign_extend8 : ℕ → ℕ
sign_extend8 n = if ltb n (2 ^ 7) then n else n + (2 ^ 64 - 2 ^ 8)

abbrev pub sign_extend16 : ℕ → ℕ
sign_extend16 n = if ltb n (2 ^ 15) then n else n + (2 ^ 64 - 2 ^ 16)

-- The value entered, `len` set, and `read_n += len`.
abbrev pub enter : Field → Value → ℕ → BinaryState → Step BinaryState
enter f v len b =
    done (record { state = add f v (record b.state { read_n = b.state.read_n + len }); len = len })

-- A string at its length; a joined value is entered at once.
abbrev pub entered_string : Memory → ℕ → Field → ℕ → RowState → Step BinaryState
entered_string m k f len s =
    enter f (elim s.zstring [ none ↦ text (slice m (k + s.read_n) len) | some v ↦ text v ]) len
      (record { state = record s { zstring = none }; len = len })

abbrev pub string_column : Memory → ℕ → ℕ → Field → RowState → Option Coded → Step BinaryState
string_column m k n_buf f s none = failed bad_lcb
string_column m k n_buf f s (some r) =
    locate m k n_buf r.value (record s { read_n = s.read_n + r.width })
    >>= entered_string m k f r.value

abbrev pub int_column : Memory → ℕ → Field → BinaryState → Step BinaryState
int_column m p f b =
    if f.kind == 1
    then enter f (integer (if is_unsigned f then byte m p else sign_extend8 (byte m p))) 1 b
    else if f.kind == 2
    then enter f (integer (if is_unsigned f then uint2korr m p else sign_extend16 (uint2korr m p)))
        2 b
    else enter f (integer (if is_unsigned f then uint4korr m p else sign_extend32 (uint4korr m p)))
        4 b

abbrev pub date_column : Memory → ℕ → Field → BinaryState → Step BinaryState
date_column m p f b =
    if f.kind == 11
    then (let (t, n) = decode_time m p in enter f (text (take 8 t)) (n + 1) b)
    else if f.kind == 13
    then enter f (text (take 4 (decode_year m p))) 2 b
    else if f.kind == 10
    then (let (t, n) = decode_date m p in enter f (text (take 10 t)) (n + 1) b)
    else (let (t, n) = decode_datetime m p in enter f (text (take 19 t)) (n + 1) b)

-- The column of field `f`, whose value begins at `k + read_n`.
unfoldable pub typed_column :
    Library → Memory → ℕ → ℕ → Field → Kind → BinaryState → Step BinaryState
unfolding locate c_string assign decode_datetime decode_time decode_date decode_year uint2korr
    uint4korr uint8korr length_coded_binary
typed_column l m k n_buf f Kind.null_kind b = enter f null b.len b
typed_column l m k n_buf f Kind.string_kind b =
    let s = b.state in
    string_column m k n_buf f s
      (length_coded_binary m (k + s.read_n) (sub_size s.packet_length s.read_n % 2 ^ 32))
typed_column l m k n_buf f Kind.date_kind b = date_column m (k + b.state.read_n) f b
typed_column l m k n_buf f Kind.int_kind b = int_column m (k + b.state.read_n) f b
typed_column l m k n_buf f Kind.longlong_kind b =
    let v = uint8korr m (k + b.state.read_n) in
    enter f (if is_unsigned f then l.ulong_safe v else integer v) 8 b
typed_column l m k n_buf f Kind.float_kind b =
    enter f (float (l.round_float (uint4korr m (k + b.state.read_n)))) 4 b
typed_column l m k n_buf f Kind.double_kind b =
    enter f (float (uint8korr m (k + b.state.read_n))) 8 b
typed_column l m k n_buf f Kind.unknown_kind b = failed unknown_type

-- Column number `i`; its bit of the null bitmap stands behind the first byte at `k₀`.
unfoldable pub binary_column :
    Library → Memory → ℕ → ℕ → ℕ → ℕ → Option Field → BinaryState → Step BinaryState
unfolding typed_column c_string assign
binary_column l m k₀ k n_buf i none b = undefined
binary_column l m k₀ k n_buf i (some f) b =
    if byte m (k₀ + 1 + (i + 2) / 8) / 2 ^ ((i + 2) % 8) % 2 == 1
    then done (record b { state = add f null b.state })
    else typed_column l m k n_buf f (kind_of f.kind) b

unfoldable pub binary_columns :
    Library → Memory → ℕ → ℕ → ℕ → ℕ → List (Option Field) → BinaryState → Step BinaryState
unfolding binary_column
binary_columns l m k₀ k n_buf i [] b = done b
binary_columns l m k₀ k n_buf i (f ∷ fs) b =
    binary_column l m k₀ k n_buf i f b >>= binary_columns l m k₀ k n_buf (suc i) fs

-- `null_count`, the bytes in front of the values, for a number of columns.
abbrev pub null_count : ℕ → ℕ
null_count n = ((n + 9) / 8 + 1) % 2 ^ 32

-- `mysql_decode_row_prepare` of the row at `k₀`, of `n` columns.
unfoldable pub decode_row_prepare :
    Library → Memory → ℕ → ℕ → List (Option Field) → ℕ → ℕ → Step (List (List ℕ × Value) × ℕ)
unfolding binary_columns
decode_row_prepare l m k₀ n fs packet_length n_buf =
    binary_columns l m k₀ (k₀ + null_count n) n_buf 0 fs (record {
      state = record {
        read_n = 0;
        packet_length = (packet_length + 2 ^ 32 - null_count n) % 2 ^ 32;
        zstring = none;
        row = [];
      };
      len = 0;
    })
    >>= λ b. done (b.state.row, b.state.read_n + null_count n)
