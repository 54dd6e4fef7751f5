-- ===== src/Mysql/Rows/Kinds.antt =====
-- The cases of the `switch` over `enum mysql_field_types` in mysql_decode_row and
-- mysql_decode_row_prepare of swoole_mysql.cc.
use async_ext.Prelude.{ℕ, Bool, ◌||◌, ◌==◌, if◌then◌else◌}

pub data Kind : Type 0 where
  null_kind string_kind date_kind int_kind longlong_kind float_kind double_kind unknown_kind : Kind

-- DECIMAL, VARCHAR, BIT, JSON, NEWDECIMAL, the four BLOBs, VAR_STRING, STRING and NEWDATE.
abbrev pub is_string : ℕ → Bool
is_string t =
    t == 0
    || t == 14
    || t == 15
    || t == 16
    || t == 245
    || t == 246
    || t == 249
    || t == 250
    || t == 251
    || t == 252
    || t == 253
    || t == 254

-- TIMESTAMP, DATE, TIME, DATETIME and YEAR.
abbrev pub is_date : ℕ → Bool
is_date t = t == 7 || t == 10 || t == 11 || t == 12 || t == 13

-- TINY, SHORT, LONG and INT24.
abbrev pub is_int : ℕ → Bool
is_int t = t == 1 || t == 2 || t == 3 || t == 9

unfoldable pub kind_of : ℕ → Kind
kind_of t =
    if t == 6
    then null_kind
    else if is_string t
    then string_kind
    else if is_date t
    then date_kind
    else if is_int t
    then int_kind
    else if t == 8
    then longlong_kind
    else if t == 4
    then float_kind
    else if t == 5
    then double_kind
    else unknown_kind
