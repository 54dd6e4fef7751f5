-- ===== src/Mysql/Rows.antt =====
-- swoole_mysql.cc, mysql_decode_row: a row of the text protocol.
-- The conversions of the C library, the rounding of PHP and add_assoc_ulong_safe of the swoole core
-- are parameters. Numbers are kept as the bit patterns of a `zend_long` or a `double`.
pub mod Kinds
use async_ext.Prelude.{
  ℕ, ◌+◌, ◌-◌, ◌/◌, ◌%◌, ◌^◌, Bool, true, false, not, Option, none, some, List, [], ◌∷◌, ◌++◌, ltb,
  leb, ◌==◌, if◌then◌else◌,
}
use async_ext.Prelude.Bytes.{str_eq}
use async_ext.Str.{Memory, slice, sub_size}
use async_ext.Mysql.Wire.{Coded, length_coded_binary}
use async_ext.Mysql.Field.{Field}
use async_ext.Mysql.Client.{Value, null, text, integer, float}
use async_ext.Mysql.BigData.{Big, short, overrun, joined, decode_big_data}
use Kinds.{Kind, kind_of}
pub mod Dates
pub mod Binary
pub mod Encode

-- `none` where the conversion stops before the end of the text.
pub record Library : Type 0 where
  pub strtoul : List ℕ → Option ℕ
  pub strtol : List ℕ → Option ℕ
  pub strtoull : List ℕ → Option ℕ
  pub strtoll : List ℕ → Option ℕ
  pub strtod : List ℕ → Option ℕ
  pub round_float : ℕ → ℕ
  pub ulong_safe : ℕ → Value

pub data RowError : Type 0 where
  bad_lcb conv_long conv_longlong conv_float conv_double unknown_type : RowError

-- What a row decoder returns: a step, SW_CONTINUE, a negative code, or undefined behaviour.
pub data Step (A : Type 0) : Type 0 where
  done : A → Step A
  continue : Step A
  failed : RowError → Step A
  undefined : Step A

infixl 5 ◌>>=◌
abbrev pub ◌>>=◌ : {A B : Type 0} → Step A → (A → Step B) → Step B
done a >>= f = f a
continue >>= f = continue
failed e >>= f = failed e
undefined >>= f = undefined

-- The variables of the loop over the columns. `zstring` is a joined value that no column has used.
pub record RowState : Type 0 where
  pub read_n : ℕ
  pub packet_length : ℕ
  pub zstring : Option (List ℕ)
  pub row : List (List ℕ × Value)

-- A 32-bit pattern as a `zend_long`.
abbrev pub sign_extend32 : ℕ → ℕ
sign_extend32 n = if ltb n (2 ^ 31) then n else n + (2 ^ 64 - 2 ^ 32)

-- `field->flags & SW_MYSQL_UNSIGNED_FLAG`, the bit of 32.
abbrev pub is_unsigned : Field → Bool
is_unsigned f = f.flags / 32 % 2 == 1

abbrev pub converted : RowError → (ℕ → Value) → Option ℕ → Step Value
converted e f none = failed e
converted e f (some n) = done (f n)

-- `memcpy(value_buffer, buf + read_n, len)` into 32 bytes, with the zero behind.
abbrev pub with_buffer : ℕ → Step Value → Step Value
with_buffer len r = if ltb len 32 then r else undefined

-- The value of a column of `len` bytes at the address `at`, by the type of the field.
unfoldable pub text_value :
    Library → Bool → Field → Kind → Option (List ℕ) → List ℕ → ℕ → Step Value
text_value l strict f Kind.null_kind z raw len = done null
text_value l strict f Kind.string_kind none raw len = done (text raw)
text_value l strict f Kind.string_kind (some s) raw len = done (text s)
text_value l strict f Kind.date_kind none raw len = done (text raw)
text_value l strict f Kind.date_kind (some s) raw len = done (text s)
text_value l strict f Kind.int_kind z raw len =
    if strict
    then with_buffer len (
        if is_unsigned f
        then converted conv_long (λ n. integer (n % 2 ^ 32)) (l.strtoul raw)
        else converted conv_long (λ n. integer (sign_extend32 (n % 2 ^ 32))) (l.strtol raw))
    else done (text raw)
text_value l strict f Kind.longlong_kind z raw len =
    if strict
    then with_buffer len (
        if is_unsigned f
        then converted conv_longlong (λ n. if ltb n (2 ^ 63) then integer n else text raw)
            (l.strtoull raw)
        else converted conv_longlong integer (l.strtoll raw))
    else done (text raw)
text_value l strict f Kind.float_kind z raw len =
    if strict then with_buffer len (converted conv_float float (l.strtod raw)) else done (text raw)
text_value l strict f Kind.double_kind z raw len =
    if strict then with_buffer len (converted conv_double float (l.strtod raw)) else done (text raw)
text_value l strict f Kind.unknown_kind z raw len = failed unknown_type

-- Only the string cases take a joined value, and clear it.
abbrev pub zstring_after : Kind → Option (List ℕ) → Option (List ℕ)
zstring_after Kind.string_kind z = none
zstring_after Kind.date_kind z = none
zstring_after _ z = z

unfoldable pub located : RowState → Big → Step RowState
located s short = continue
located s overrun = undefined
located s (joined v header ext) = done (record s {
  read_n = s.read_n + header;
  packet_length = (s.packet_length + header + ext) % 2 ^ 32;
  zstring = some v;
})

-- Behind the length: a value that is longer than the rest of the packet goes on in the next ones.
-- The difference is signed, and is compared as an unsigned number.
unfoldable pub locate : Memory → ℕ → ℕ → ℕ → RowState → Step RowState
unfolding located decode_big_data
locate m k n_buf len s =
    if ltb (sub_size s.packet_length s.read_n) len
    then located s (
        decode_big_data m (k + s.read_n) len (sub_size n_buf s.read_n)
          (sub_size s.packet_length s.read_n % 2 ^ 32))
    else done s

-- The key of a column: the C string at `field->name`.
unfoldable pub c_string : List ℕ → List ℕ
c_string [] = []
c_string (b ∷ bs) = if b == 0 then [] else b ∷ c_string bs

-- `add_assoc_*`: a key that the array has keeps its place and gets the value. A key that PHP takes for
-- an integer stays its text here.
unfoldable pub assign : List ℕ → Value → List (List ℕ × Value) → List (List ℕ × Value)
assign k v [] = (k, v) ∷ []
assign k v ((k', v') ∷ row) =
    let rest = assign k v row in if str_eq k k' then (k', v) ∷ row else (k', v') ∷ rest

abbrev pub add : Field → Value → RowState → RowState
add f v s = record s { row = assign (c_string f.name) v s.row }

unfoldable pub text_located : Library → Bool → Memory → ℕ → Field → Coded → RowState → Step RowState
unfolding text_value c_string assign
text_located l strict m k f r s =
    if r.nul
    then done (add f null s)
    else (text_value l strict f (kind_of f.kind) s.zstring (slice m (k + s.read_n) r.value) r.value
        >>= λ v. done (
            add f v (record s {
              read_n = s.read_n + r.value;
              zstring = zstring_after (kind_of f.kind) s.zstring;
            })))

unfoldable pub text_coded :
    Library → Bool → Memory → ℕ → ℕ → Field → RowState → Option Coded → Step RowState
unfolding locate text_located
text_coded l strict m k n_buf f s none = failed bad_lcb
text_coded l strict m k n_buf f s (some r) =
    locate m k n_buf r.value (record s { read_n = s.read_n + r.width })
    >>= text_located l strict m k f r

-- One column of the row whose payload is at `k`. A column that was never decoded has no name to
-- enter the value under.
unfoldable pub text_column :
    Library → Bool → Memory → ℕ → ℕ → Option Field → RowState → Step RowState
unfolding text_coded length_coded_binary
text_column l strict m k n_buf none s = undefined
text_column l strict m k n_buf (some f) s =
    text_coded l strict m k n_buf f s
      (length_coded_binary m (k + s.read_n) (sub_size s.packet_length s.read_n % 2 ^ 32))

unfoldable pub text_columns :
    Library → Bool → Memory → ℕ → ℕ → List (Option Field) → RowState → Step RowState
unfolding text_column
text_columns l strict m k n_buf [] s = done s
text_columns l strict m k n_buf (f ∷ fs) s =
    text_column l strict m k n_buf f s >>= text_columns l strict m k n_buf fs

-- `mysql_decode_row` of the row at `k`: the row, and the number of bytes read.
unfoldable pub decode_row :
    Library → Bool → Memory → ℕ → List (Option Field) → ℕ → ℕ → Step (List (List ℕ × Value) × ℕ)
unfolding text_columns
decode_row l strict m k fs packet_length n_buf =
    text_columns l strict m k n_buf fs
      (record { read_n = 0; packet_length = packet_length; zstring = none; row = [] })
    >>= λ s. done (s.row, s.read_n)
