-- ===== src/Mysql/Response/ResultSet.antt =====
-- mysql_read_rows of swoole_mysql.cc on the rows of a result set and the EOF packet behind them.
use async_ext.Prelude.{
  ℕ, zero, suc, ◌+◌, ◌*◌, ◌%◌, ◌^◌, ◌<◌, ◌≤◌, ◌≡◌, refl, sym, ap, ◌∙◌, true, false, Option, none,
  some, List, [], ◌∷◌, ◌++◌, append-nil, append_assoc, length, length-append, arith, ◌==◌,
}
use async_ext.Str.{Memory, byte, sub_size}
use async_ext.Mysql.Wire.{header_size, uint3korr, ensure_packet}
use async_ext.Mysql.Wire.Lcb.{encode, Holds}
use async_ext.Mysql.Wire.Numbers.{uint3korr-lt}
use async_ext.Mysql.Field.{Field}
use async_ext.Mysql.Client.{Opcode, Client}
use async_ext.Mysql.Packet.{read_header, read_eof, read_err, packet_eof, packet_err, skip_packet}
use async_ext.Mysql.Columns.{unread, is_complete}
use async_ext.Mysql.Over.Final.{eof_payload}
use async_ext.Mysql.Rows.Encode.{Values, Row, cons, encode_row, decode_row-encode}
use async_ext.Mysql.Response.{
  Setting, again, returns, row_round, rows_loop, read_rows, next_row, after_row, decode_next,
  unless_eof, unless_err, columns_free, is_execute,
}

-- From one place to another there is a packet for each of the rows.
pub data RowPackets (m : Memory) (fs : List (Option Field)) : ℕ → List Values → ℕ → Type 0 where
  last : (p : ℕ) → RowPackets m fs p [] p
  packet :
      (p : ℕ) {q : ℕ} (vs : List (Option (List ℕ))) {row : Values} {rows : List Values}
      → Row fs vs [] row
      → uint3korr m p ≡ length (encode_row vs)
      → Holds m (p + 4) (encode_row vs)
      → RowPackets m fs (p + (header_size + length (encode_row vs))) rows q
      → RowPackets m fs p (row ∷ rows) q

RowPackets-le :
    {m : Memory} {fs : List (Option Field)} {p q : ℕ} {rows : List Values}
    → RowPackets m fs p rows q
    → p + 4 * length rows ≤ q
RowPackets-le (last p) = omega arith
RowPackets-le (packet p vs r s h rest) = omega (arith, RowPackets-le rest)

-- The first byte of a row of at least one column is that of neither an EOF nor an ERR packet.
first_byte :
    (m : Memory) (j : ℕ) (f : Option Field) {fs : List (Option Field)} {vs : List (Option (List ℕ))}
    {before row : Values}
    → Row (f ∷ fs) vs before row
    → Holds m j (encode_row vs)
    → length (encode_row vs) < 2 ^ 24
    → byte m j < 254
unfolding encode
first_byte m j f (cons g none kind r) h small = omega (arith, h.0)
first_byte m j f (cons g (some s) {fs} {vs} kind r) h small = ground (
  arith,
  h,
  length-append (encode (length s) ++ s) (encode_row vs),
  length-append (encode (length s)) s,
  small,
)

-- Rows of a query are read into an array, which holds these rows so far.
pub record Reading (c : Client) (fs : List (Option Field)) (before : List Values) : Type 0 where
  pub columns : c.response.columns ≡ some fs
  pub no_execute : is_execute c.cmd ≡ false
  pub rows : c.response.result_array ≡ some before

complete :
    (c : Client) (size : ℕ)
    → c.buffer.length < 2 ^ 31
    → c.buffer.offset + (4 + size) ≤ c.buffer.length
    → uint3korr c.buffer.str c.buffer.offset ≡ size
    → ((unread c == 0) ≡ false) × (is_complete c ≡ true)
unfolding ensure_packet
complete c size small fits e = ground (arith, uint3korr-lt c.buffer.str c.buffer.offset)

-- The client behind a row.
abbrev pub behind_row : Client → List Values → Values → ℕ → Client
behind_row c before row size =
    let h = read_header c c.buffer.offset in
    next_row
      (record h { response = record h.response { result_array = some (before ++ (row ∷ [])) } })
      size

row_round-Row :
    (set : Setting) (c : Client) (f : Option Field) {fs : List (Option Field)}
    {before : List Values} (vs : List (Option (List ℕ))) {row : Values}
    → Reading c (f ∷ fs) before
    → Row (f ∷ fs) vs [] row
    → uint3korr c.buffer.str c.buffer.offset ≡ length (encode_row vs)
    → Holds c.buffer.str (c.buffer.offset + 4) (encode_row vs)
    → row_round set c ≡ again (behind_row c before row (length (encode_row vs)))
unfolding row_round unless_eof unless_err read_eof read_err read_header decode_next after_row
row_round-Row set c f {fs} {before} vs {row} r v size h =
    let m = c.buffer.str in
    let k = c.buffer.offset in
    let lt = uint3korr-lt m k in
    let small : length (encode_row vs) < 2 ^ 24 = omega (arith, size, lt) in
    let b = first_byte m (k + 4) f v h small in
    let not_eof : (byte m (k + 4) == packet_eof) ≡ false = ground (arith, b) in
    let not_err : (byte m (k + 4) == packet_err) ≡ false = ground (arith, b) in
    let same : length (encode_row vs) % 2 ^ 24 ≡ length (encode_row vs) = omega (arith, small) in
    let d =
      decode_row-encode set.library set.strict_type m (k + 4) (sub_size (unread c) header_size) v
        small h in
    rw (not_eof, not_err, r.no_execute, r.columns, size, same, d, r.rows)

-- What reading to the end of the rows leaves.
pub record Ended (c c' : Client) (rows : Option (List Values)) (count q : ℕ) : Type 0 where
  pub array : c'.response.result_array ≡ rows
  pub counted : c'.response.num_row ≡ c.response.num_row + count
  pub freed : c'.response.columns ≡ none
  pub offset : c'.buffer.offset ≡ q

row_round-eof :
    (set : Setting) (c : Client) (warnings status : ℕ)
    → uint3korr c.buffer.str c.buffer.offset ≡ 5
    → Holds c.buffer.str (c.buffer.offset + 4) (eof_payload warnings status)
    → (c' : Client) × (row_round set c ≡ returns (some (Opcode.ok, c')))
      × Ended c c' c.response.result_array 0 (c.buffer.offset + 9)
unfolding row_round unless_eof read_eof read_header columns_free skip_packet
row_round-eof set c warnings status size h =
    let k = c.buffer.offset in
    let is_eof : (byte c.buffer.str (k + 4) == packet_eof) ≡ true = ground (arith, h.0) in
    (
      columns_free (read_eof (read_header c k) k).1,
      rw (is_eof, size),
      record {
        array = rw (is_eof, size);
        counted = rw (is_eof, size) (omega arith);
        freed = refl;
        offset = rw (is_eof, size) (omega arith);
      },
    )

rows_loop-RowPackets :
    (set : Setting) (f : Option Field) {fs : List (Option Field)} (warnings status : ℕ) (fuel : ℕ)
    (c : Client) {q : ℕ} {before rows : List Values}
    → RowPackets c.buffer.str (f ∷ fs) c.buffer.offset rows q
    → Reading c (f ∷ fs) before
    → c.buffer.length < 2 ^ 31
    → q + 9 ≤ c.buffer.length
    → uint3korr c.buffer.str q ≡ 5
    → Holds c.buffer.str (q + 4) (eof_payload warnings status)
    → length rows < fuel
    → (c' : Client) × (rows_loop fuel set c ≡ some (Opcode.ok, c'))
      × Ended c c' (some (before ++ rows)) (length rows) (q + 9)
unfolding rows_loop next_row read_header
rows_loop-RowPackets set f w st zero c p r small fits five h more = elim more [ ]
rows_loop-RowPackets set f w st (suc fuel) c {before = before} (last p) r small fits five h more =
    let (u, v) = complete c 5 small (omega arith) five in
    let (c', e, d) = row_round-eof set c w st five h in
    (
      c',
      rw (u, v, e),
      record {
        array = d.array ∙ r.rows ∙ ap some (sym (append-nil before));
        counted = d.counted;
        freed = d.freed;
        offset = d.offset;
      },
    )
rows_loop-RowPackets set f w st (suc fuel) c {before = before}
      (packet p vs {row} {rows} x size held rest) r small fits five h more =
    let b = RowPackets-le rest in
    let (u, v) = complete c (length (encode_row vs)) small (omega arith) size in
    let n = behind_row c before row (length (encode_row vs)) in
    let (c', e, d) =
      rows_loop-RowPackets set f w st fuel n rest
        (record { columns = r.columns; no_execute = r.no_execute; rows = refl }) small fits five h
        (omega arith) in
    (
      c',
      rw (u, v, row_round-Row set c f vs r x size held) e,
      record {
        array = d.array ∙ ap some (append_assoc before (row ∷ []) rows);
        counted = d.counted ∙ omega arith;
        freed = d.freed;
        offset = d.offset;
      },
    )

-- For a client that reads a query's rows into an array, with columns of string types, and a buffer
-- of less than 2^31 bytes in which a packet for each of some text rows of the protocol and an EOF
-- packet stand from the offset on, mysql_read_rows returns OK; the rows are then in the array, in
-- their order, the values of each entered one after another under the names of the columns, where
-- a name that comes again keeps its place and gets the new value, behind those that it held, they
-- are counted, the columns are freed, and the offset is behind the EOF packet.
pub read_rows-RowPackets :
    (set : Setting) (c : Client) (f : Option Field) {fs : List (Option Field)} {q : ℕ}
    (warnings status : ℕ) {before rows : List Values}
    → RowPackets c.buffer.str (f ∷ fs) c.buffer.offset rows q
    → Reading c (f ∷ fs) before
    → c.buffer.length < 2 ^ 31
    → q + 9 ≤ c.buffer.length
    → uint3korr c.buffer.str q ≡ 5
    → Holds c.buffer.str (q + 4) (eof_payload warnings status)
    → (c' : Client) × (read_rows set c ≡ some (Opcode.ok, c'))
      × Ended c c' (some (before ++ rows)) (length rows) (q + 9)
unfolding read_rows
read_rows-RowPackets set c f w st p r small fits five h =
    rows_loop-RowPackets set f w st (suc (unread c)) c p r small fits five h
      (omega (arith, RowPackets-le p, small, fits))
