-- ===== src/Mysql/Rows/Dates.antt =====
-- swoole_mysql.cc: mysql_decode_datetime, mysql_decode_time, mysql_decode_date and
-- mysql_decode_year. Each gives the text that it prints and the length byte that it returns.
use async_ext.Prelude.{
  ℕ, zero, suc, ◌+◌, ◌-◌, ◌/◌, ◌%◌, List, [], ◌∷◌, ◌++◌, length, take, replicate, ltb, ◌==◌,
  if◌then◌else◌,
}
use async_ext.Str.{Memory, byte}
use async_ext.Mysql.Wire.{uint2korr}

-- `printf` of "%0wd": the decimal digits, with zeros in front up to the width. The numbers have 16
-- bits at most, so five digits are enough.
unfoldable pub digits : ℕ → ℕ → List ℕ
digits zero n = []
digits (suc fuel) n =
    let rest = digits fuel (n / 10) in
    if ltb n 10 then (b'0' + n) ∷ [] else rest ++ ((b'0' + n % 10) ∷ [])

unfoldable pub padded : ℕ → ℕ → List ℕ
unfolding digits
padded w n = let ds = digits 5 n in replicate (w - length ds) b'0' ++ ds

-- `snprintf` into DATETIME_MAX_SIZE bytes keeps this many characters.
abbrev pub datetime_room : ℕ
datetime_room = 19

unfoldable pub print_date : ℕ → ℕ → ℕ → List ℕ
unfolding padded
print_date y mo d = padded 4 y ++ (b'-' ∷ padded 2 mo) ++ (b'-' ∷ padded 2 d)

unfoldable pub print_time : ℕ → ℕ → ℕ → List ℕ
unfolding padded
print_time h mi s = padded 2 h ++ (b':' ∷ padded 2 mi) ++ (b':' ∷ padded 2 s)

unfoldable pub decode_datetime : Memory → ℕ → List ℕ × ℕ
unfolding print_date print_time uint2korr
decode_datetime m p =
    let n = byte m p in
    let field = λ (low i : ℕ). if ltb low n then byte m (p + i) else 0 in
    (
      take datetime_room (
          print_date (if n == 0 then 0 else uint2korr m (p + 1)) (field 0 3) (field 0 4)
          ++ (b' ' ∷ print_time (field 4 5) (field 4 6) (field 4 7))),
      n,
    )

unfoldable pub decode_time : Memory → ℕ → List ℕ × ℕ
unfolding print_time
decode_time m p =
    let n = byte m p in
    let field = λ (i : ℕ). if n == 0 then 0 else byte m (p + i) in
    (take datetime_room (print_time (field 6) (field 7) (field 8)), n)

unfoldable pub decode_date : Memory → ℕ → List ℕ × ℕ
unfolding print_date uint2korr
decode_date m p =
    let n = byte m p in
    (
      take datetime_room (
          print_date (if n == 0 then 0 else uint2korr m (p + 1))
            (if n == 0 then 0 else byte m (p + 3)) (if n == 0 then 0 else byte m (p + 4))),
      n,
    )

unfoldable pub decode_year : Memory → ℕ → List ℕ
unfolding padded uint2korr
decode_year m p = take datetime_room (padded 4 (uint2korr m p))
