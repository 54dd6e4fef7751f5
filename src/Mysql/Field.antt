-- ===== src/Mysql/Field.antt =====
-- swoole_mysql.cc, mysql_decode_field: the column definition packet into a `mysql_field`.
-- Each copy is checked against the packet that it reads and the `emalloc`ed buffer that it fills,
-- both of `len` bytes; a copy outside them is undefined in C and is `overrun` here.
pub mod Safe
pub mod Encode
pub use async_ext.Str.{slice}
use async_ext.Str.{uint_of_char}
use async_ext.Prelude.{
  ℕ, ◌+◌, ◌-◌, ◌%◌, ◌^◌, Bool, true, false, ◌||◌, Option, none, some, List, [], ◌∷◌, tabulate, ltb,
  leb, if◌then◌else◌,
}
use async_ext.Mysql.Wire.{Memory, byte, uint2korr, uint4korr, Coded, length_coded_binary}

-- `-SW_MYSQL_ERR_BAD_LCB` and `-SW_MYSQL_ERR_LEN_OVER_BUFFER`.
pub data Error : Type 0 where
  bad_lcb len_over_buffer : Error

pub data Result (A : Type 0) : Type 0 where
  ok : A → Result A
  failed : Error → Result A
  overrun : Result A

infixl 5 ◌>>=◌
abbrev pub ◌>>=◌ : {A B : Type 0} → Result A → (A → Result B) → Result B
ok a >>= f = f a
failed e >>= f = failed e
overrun >>= f = overrun

-- `mysql_field`, as far as mysql_decode_field fills it: its six names, its numbers and `def`, the
-- default value.
pub record Names : Type 0 where
  pub catalog : List ℕ
  pub db : List ℕ
  pub table : List ℕ
  pub org_table : List ℕ
  pub name : List ℕ
  pub org_name : List ℕ

pub record Field : Type 0 where
  pub names : Names
  pub open names use *
  pub charsetnr : ℕ
  pub length : ℕ
  pub kind : ℕ
  pub flags : ℕ
  pub decimals : ℕ
  pub def : Option (List ℕ)

-- The place in the packet, `i`, and the place in the string buffer, `_buffer - col->buffer`.
pub record Cursor : Type 0 where
  pub pos : ℕ
  pub out : ℕ

-- `memcpy` of `size` bytes from `i` and the terminating zero.
unfoldable pub copy : Memory → ℕ → ℕ → ℕ → ℕ → ℕ → Result (List ℕ × Cursor)
copy m k len i out size =
    if ltb len (i + size) || ltb len (out + size + 1)
    then overrun
    else ok (slice m (k + i) size, record { pos = i + size; out = out + size + 1 })

-- The tests behind a call of mysql_length_coded_binary. The sum `i + size` is an `ulong_t` and
-- wraps.
unfoldable pub take_string : Memory → ℕ → ℕ → Cursor → Option Coded → Result (List ℕ × Cursor)
unfolding copy
take_string m k len c none = failed bad_lcb
take_string m k len c (some r) =
    let i = c.pos + r.width in
    if ltb len ((i + r.value) % 2 ^ 64)
    then failed len_over_buffer
    else copy m k len i c.out r.value

-- One length-coded string of the packet at `k`.
unfoldable pub read_string : Memory → ℕ → ℕ → Cursor → Result (List ℕ × Cursor)
unfolding take_string
read_string m k len c =
    take_string m k len c (length_coded_binary m (k + c.pos) ((len - c.pos) % 2 ^ 32))

unfoldable pub read_names : Memory → ℕ → ℕ → Result (Names × Cursor)
unfolding read_string
read_names m k len = do
  (catalog, c₁) ← read_string m k len (record { pos = 0; out = 0 })
  (db, c₂) ← read_string m k len c₁
  (table, c₃) ← read_string m k len c₂
  (org_table, c₄) ← read_string m k len c₃
  (name, c₅) ← read_string m k len c₄
  (org_name, c₆) ← read_string m k len c₅
  ok (
    record {
      catalog = catalog;
      db = db;
      table = table;
      org_table = org_table;
      name = name;
      org_name = org_name;
    },
    c₆,
  )

-- The default value, if there are bytes left for it.
unfoldable pub read_default : Memory → ℕ → ℕ → Cursor → Result (Option (List ℕ) × Cursor)
unfolding read_string
read_default m k len c =
    if ltb c.pos len then (do (s, c') ← read_string m k len c; ok (some s, c')) else ok (none, c)

-- The thirteen bytes behind the names, at the address `i`.
unfoldable pub with_numbers : Memory → ℕ → Names → Option (List ℕ) → Field
unfolding uint2korr uint4korr
with_numbers m i names def = record {
  names = names;
  charsetnr = uint2korr m (i + 1);
  length = uint4korr m (i + 3);
  kind = byte m (i + 7);
  flags = uint2korr m (i + 8);
  decimals = uint_of_char (byte m (i + 10));
  def = def;
}

unfoldable pub read_numbers : Memory → ℕ → ℕ → Names × Cursor → Result (Field × ℕ)
unfolding with_numbers read_default
read_numbers m k len (names, c) = if ltb len (c.pos + 13) then failed len_over_buffer else (do
  (def, c') ← read_default m k len (record c { pos = c.pos + 13 })
  ok (with_numbers m (k + c.pos) names def, c'.out))

-- The field, and the returned `wh - buf`.
unfoldable pub decode_field : Memory → ℕ → ℕ → Result (Field × ℕ)
unfolding read_names read_numbers
decode_field m k len = read_names m k len >>= read_numbers m k len
