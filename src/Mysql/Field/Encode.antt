-- ===== src/Mysql/Field/Encode.antt =====
-- mysql_decode_field against the column definition of the MySQL protocol (ColumnDefinition41).
use async_ext.Prelude.{
  ℕ, ◌+◌, ◌-◌, ◌%◌, ◌^◌, ◌<◌, ◌≤◌, ◌≡◌, false, none, some, List, [], ◌∷◌, ◌++◌, length,
  length-append, arith, ap, subst, ◌∙◌,
}
use async_ext.Mysql.Wire.{Memory, uint2korr, uint4korr}
use async_ext.Mysql.Wire.Lcb.{
  encode, tail_bytes, Holds, Holds-append, length-encode, room, slice-Holds,
  length_coded_binary-encode,
}
use async_ext.Mysql.Field.{
  ok, Cursor, Field, copy, take_string, read_string, read_names, read_default, with_numbers,
  read_numbers, decode_field,
}

abbrev pub encode_string : List ℕ → List ℕ
encode_string s = encode (length s) ++ s

-- The fixed part: its length byte, character set, column length, type, flags, decimals, filler.
abbrev pub encode_numbers : Field → List ℕ
encode_numbers f =
    12 ∷ tail_bytes 2 f.charsetnr
    ++ (tail_bytes 4 f.length ++ (f.kind ∷ tail_bytes 2 f.flags ++ (f.decimals ∷ 0 ∷ 0 ∷ [])))

unfoldable pub encode_field : Field → List ℕ
encode_field f =
    encode_string f.catalog
    ++ (encode_string f.db
        ++ (encode_string f.table
            ++ (encode_string f.org_table
                ++ (encode_string f.name ++ (encode_string f.org_name ++ encode_numbers f)))))

-- The numbers have the sizes of their places, and there is no default value.
pub record IsColumn (f : Field) : Type 0 where
  pub charset_size : f.charsetnr < 2 ^ 16
  pub length_size : f.length < 2 ^ 32
  pub kind_size : f.kind < 2 ^ 8
  pub flags_size : f.flags < 2 ^ 16
  pub decimals_size : f.decimals < 2 ^ 7
  pub no_default : f.def ≡ none

module _ (m : Memory) (k len : ℕ) (small : len < 2 ^ 24) where
  -- The cursor stands before these bytes, which the packet ends with.
  abbrev At : Cursor → List ℕ → Type 0
  At c bs = Holds m (k + c.pos) bs × (c.pos + length bs ≡ len) × (c.out ≤ c.pos)

  abbrev behind : Cursor → List ℕ → Cursor
  behind c s = record {
    pos = c.pos + length (encode (length s)) + length s;
    out = c.out + length s + 1;
  }

  take_string-encode :
      (c : Cursor) (s : List ℕ)
      → Holds m (k + (c.pos + length (encode (length s)))) s
      → c.pos + length (encode (length s)) + length s ≤ len
      → c.out ≤ c.pos
      → take_string m k len c
          (some (record { width = length (encode (length s)); value = length s; nul = false }))
        ≡ ok (s, behind c s)
  unfolding take_string copy
  take_string-encode c s h fits o = ground (
    arith,
    length-encode (length s),
    slice-Holds m (k + (c.pos + length (encode (length s)))) s h,
  )

  read_string-encode :
      (c : Cursor) (s rest : List ℕ)
      → At c (encode_string s ++ rest)
      → (read_string m k len c ≡ ok (s, behind c s)) × At (behind c s) rest
  unfolding read_string
  read_string-encode c s rest (h, e, o) =
      let outer = Holds-append m (k + c.pos) (encode_string s) rest h in
      let inner = Holds-append m (k + c.pos) (encode (length s)) s outer.0 in
      let sizes : length (encode_string s ++ rest)
          ≡ length (encode (length s)) + length s + length rest =
        length-append (encode_string s) rest
        ∙ ap (λ j. j + length rest) (length-append (encode (length s)) s) in
      let first = length-encode (length s) in
      (
        ap (take_string m k len c) (
              length_coded_binary-encode m (k + c.pos) ((len - c.pos) % 2 ^ 32) (length s)
                (omega arith) inner.0 (omega arith)
                (room (length s) ((len - c.pos) % 2 ^ 32) (omega arith)))
            ∙ take_string-encode c s (subst (λ j. Holds m j s) (omega arith) inner.1) (omega arith)
                o,
        (
          subst (λ j. Holds m j rest) (omega (arith, length-append (encode (length s)) s)) outer.1,
          omega arith,
          omega arith,
        ),
      )

  -- The cursor behind the six names.
  abbrev behind_names : Field → Cursor
  behind_names f =
      behind
        (behind
          (behind (behind (behind (behind (record { pos = 0; out = 0 }) f.catalog) f.db) f.table)
            f.org_table)
          f.name)
        f.org_name

  read_names-encode :
      (f : Field)
      → Holds m k (encode_field f)
      → length (encode_field f) ≡ len
      → (read_names m k len ≡ ok (f.names, behind_names f)) × At (behind_names f) (encode_numbers f)
  unfolding encode_field read_names
  read_names-encode f h e =
      let (e₁, a₁) =
        read_string-encode (record { pos = 0; out = 0 }) f.catalog _
          (
            subst (λ j. Holds m j (encode_field f)) {x = k} {y = k + 0} (omega arith) h,
            omega (arith, e),
            omega arith,
          ) in
      let (e₂, a₂) = read_string-encode _ f.db _ a₁ in
      let (e₃, a₃) = read_string-encode _ f.table _ a₂ in
      let (e₄, a₄) = read_string-encode _ f.org_table _ a₃ in
      let (e₅, a₅) = read_string-encode _ f.name _ a₄ in
      let (e₆, a₆) = read_string-encode _ f.org_name (encode_numbers f) a₅ in
      (rw (e₁, e₂, e₃, e₄, e₅, e₆), a₆)

  with_numbers-encode :
      (f : Field) (i : ℕ)
      → IsColumn f
      → Holds m i (encode_numbers f)
      → with_numbers m i f.names none ≡ f
  unfolding with_numbers uint2korr uint4korr
  with_numbers-encode f i v h = ground (arith, v.no_default)

  read_numbers-encode :
      (f : Field) (c : Cursor)
      → IsColumn f
      → At c (encode_numbers f)
      → read_numbers m k len (f.names, c) ≡ ok (f, c.out)
  unfolding read_numbers read_default
  read_numbers-encode f c v a = ground (arith, with_numbers-encode f (k + c.pos) v a.0)

  -- For a packet of less than 2^24 bytes that is the protocol's encoding of a column without a
  -- default value, mysql_decode_field returns that column, with the size of its names and their
  -- terminating zeros.
  pub decode_field-encode :
      (f : Field)
      → IsColumn f
      → Holds m k (encode_field f)
      → length (encode_field f) ≡ len
      → decode_field m k len ≡ ok (f, (behind_names f).out)
  unfolding decode_field
  decode_field-encode f v h e =
      let (r, a) = read_names-encode f h e in rw r (read_numbers-encode f (behind_names f) v a)
