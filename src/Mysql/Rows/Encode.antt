-- ===== src/Mysql/Rows/Encode.antt =====
-- mysql_decode_row of swoole_mysql.cc against the text rows of the MySQL protocol.
use async_ext.Prelude.{
  ℕ, ◌+◌, ◌-◌, ◌^◌, ◌<◌, ◌≤◌, ◌≡◌, refl, ap, ap₂, subst, ◌∙◌, Bool, true, false, Option, none, some,
  List, [], ◌∷◌, ◌++◌, length, length-append, arith, ltb,
}
use async_ext.Str.{Memory, sub_size}
use async_ext.Mysql.Wire.{Coded, length_coded_binary}
use async_ext.Mysql.Wire.Lcb.{
  encode, Holds, Holds-append, length-encode, slice-Holds, length_coded_binary-encode, room,
}
use async_ext.Mysql.Field.{Field}
use async_ext.Mysql.Client.{Value}
use async_ext.Mysql.Rows.{
  Library, Step, RowState, assign, c_string, text_value, locate, text_located, text_coded,
  text_column, text_columns, decode_row,
}
use async_ext.Mysql.Rows.Kinds.{Kind, kind_of}

-- A value of a text row: NULL is the byte 251, a text is a length-coded string.
abbrev pub encode_value : Option (List ℕ) → List ℕ
encode_value none = 251 ∷ []
encode_value (some s) = encode (length s) ++ s

abbrev pub encode_row : List (Option (List ℕ)) → List ℕ
encode_row [] = []
encode_row (v ∷ vs) = encode_value v ++ encode_row vs

abbrev pub value_of : Option (List ℕ) → Value
value_of none = Value.null
value_of (some s) = Value.text s

abbrev pub Values : Type 0
Values = List (List ℕ × Value)

-- The values of as many string columns, entered one after another under the columns' names into a row
-- that may hold some already: a name that comes again replaces the value.
pub data Row : List (Option Field) → List (Option (List ℕ)) → Values → Values → Type 0 where
  nil : (row : Values) → Row [] [] row row
  cons :
      (f : Field) (v : Option (List ℕ)) {fs : List (Option Field)} {vs : List (Option (List ℕ))}
      {before row : Values}
      → kind_of f.kind ≡ Kind.string_kind
      → Row fs vs (assign (c_string f.name) (value_of v) before) row
      → Row (some f ∷ fs) (v ∷ vs) before row

module _ (l : Library) (strict : Bool) (m : Memory) (k n_buf len : ℕ) (small : len < 2 ^ 24) where
  abbrev state : ℕ → List (List ℕ × Value) → RowState
  state n row = record { read_n = n; packet_length = len; zstring = none; row = row }

  -- A value that lies within the packet is taken where it stands.
  text_coded-within :
      (f : Field) (r : Coded) (n : ℕ) (row : List (List ℕ × Value))
      → n + r.width + r.value ≤ len
      → text_coded l strict m k n_buf f (state n row) (some r)
        ≡ text_located l strict m k f r (state (n + r.width) row)
  unfolding text_coded locate
  text_coded-within f r n row fits =
      let e : sub_size len (n + r.width) ≡ len - (n + r.width) = omega arith in
      let g : ltb (len - (n + r.width)) r.value ≡ false = ground (arith, fits) in rw (e, g)

  coded_null :
      (j n : ℕ)
      → Holds m j (251 ∷ [])
      → 1 ≤ n
      → length_coded_binary m j n ≡ some (record { width = 1; value = 0; nul = true })
  unfolding length_coded_binary
  coded_null j n h fits = ground (arith, h)

  text_located-string :
      (f : Field) (s : List ℕ) (w n : ℕ) (row : List (List ℕ × Value))
      → kind_of f.kind ≡ Kind.string_kind
      → Holds m (k + n) s
      → text_located l strict m k f
          (record { width = w; value = length s; nul = false })
          (state n row)
        ≡ Step.done (state (n + length s) (assign (c_string f.name) (Value.text s) row))
  unfolding text_located text_value
  text_located-string f s w n row kind h = rw (kind, slice-Holds m (k + n) s h)

  text_column-encode :
      (f : Field) (v : Option (List ℕ)) (n : ℕ) (row : List (List ℕ × Value))
      → kind_of f.kind ≡ Kind.string_kind
      → Holds m (k + n) (encode_value v)
      → n + length (encode_value v) ≤ len
      → text_column l strict m k n_buf (some f) (state n row)
        ≡ Step.done
            (state (n + length (encode_value v)) (assign (c_string f.name) (value_of v) row))
  unfolding text_column text_located
  text_column-encode f none n row kind h fits =
      ap (text_coded l strict m k n_buf f (state n row)) (coded_null (k + n) _ h (omega arith))
      ∙ text_coded-within f (record { width = 1; value = 0; nul = true }) n row (omega arith)
  text_column-encode f (some s) n row kind h fits =
      let (h₁, h₂) = Holds-append m (k + n) (encode (length s)) s h in
      let a = length-append (encode (length s)) s in
      let b = length-encode (length s) in
      ap (text_coded l strict m k n_buf f (state n row)) (
        length_coded_binary-encode m (k + n) _ (length s) (omega (arith, a, b, fits)) h₁
          (omega (arith, a, b, fits)) (room (length s) _ (omega (arith, a, b, fits))))
      ∙ text_coded-within f
          (record { width = length (encode (length s)); value = length s; nul = false }) n row
          (omega (arith, a, fits))
      ∙ text_located-string f s (length (encode (length s))) (n + length (encode (length s))) row
          kind (subst (λ j. Holds m j s) (omega arith) h₂)
      ∙ ap (λ j. Step.done (state j (assign (c_string f.name) (Value.text s) row)))
          (omega (arith, a))

  text_columns-encode :
      {fs : List (Option Field)} {vs : List (Option (List ℕ))} {before row : Values}
      → Row fs vs before row
      → (n : ℕ) → Holds m (k + n) (encode_row vs)
      → n + length (encode_row vs) ≤ len
      → text_columns l strict m k n_buf fs (state n before)
        ≡ Step.done (state (n + length (encode_row vs)) row)
  unfolding text_columns
  text_columns-encode (nil row) n h fits = ap (λ i. Step.done (state i row)) (omega arith)
  text_columns-encode (cons f v {fs} {vs} {before} {row} kind r) n h fits =
      let (h₁, h₂) = Holds-append m (k + n) (encode_value v) (encode_row vs) h in
      let a = length-append (encode_value v) (encode_row vs) in
      rw (text_column-encode f v n before kind h₁ (omega (arith, a, fits))) (
        text_columns-encode r (n + length (encode_value v))
          (subst (λ j. Holds m j (encode_row vs)) (omega arith) h₂) (omega (arith, a, fits))
        ∙ ap (λ i. Step.done (state i row)) (omega (arith, a)))

-- For a text row of the protocol below 2^24 bytes, of texts and NULLs in as many columns of string
-- types, mysql_decode_row returns the values entered one after another under the names of the
-- columns, where a name that comes again keeps its place and gets the new value, and the size of
-- the row.
pub decode_row-encode :
    (l : Library) (strict : Bool) (m : Memory) (k n_buf : ℕ) {fs : List (Option Field)}
    {vs : List (Option (List ℕ))} {row : Values}
    → Row fs vs [] row
    → length (encode_row vs) < 2 ^ 24
    → Holds m k (encode_row vs)
    → decode_row l strict m k fs (length (encode_row vs)) n_buf
      ≡ Step.done (row, length (encode_row vs))
unfolding decode_row
decode_row-encode l strict m k n_buf {fs} {vs} r small h =
    rw
      (text_columns-encode l strict m k n_buf (length (encode_row vs)) small r 0
        (subst (λ j. Holds m j (encode_row vs)) {x = k} {y = k + 0} (omega arith) h) (omega arith))
      (ap Step.done (ap₂ (λ a b. (a, b)) refl (omega arith)))
