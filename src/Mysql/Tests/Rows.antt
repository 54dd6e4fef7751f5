-- ===== src/Mysql/Tests/Rows.antt =====
-- A row of three columns, two of one name, and the packet of it.
use async_ext.Prelude.{some, ℕ, ◌≡◌, arith, refl, none, List, [], ◌∷◌, false}
use async_ext.Mysql.Wire.Lcb.{encode}
use async_ext.Mysql.Field.{Field}
use async_ext.Mysql.Client.{Value}
use async_ext.Mysql.Rows.{assign, c_string, Step, decode_row}
use async_ext.Mysql.Rows.Kinds.{kind_of}
use async_ext.Mysql.Rows.Encode.{Values, Row, nil, cons, decode_row-encode}
use async_ext.Prelude.Int.{pos}
use async_ext.Mysql.Wire.{uint3korr}
use async_ext.Mysql.Client.{Opcode, Client, ReadState}
use async_ext.Mysql.Response.{Setting, read_rows}
use async_ext.Mysql.Response.ResultSet.{RowPackets, last, packet, Ended, read_rows-RowPackets}
use async_ext.Mysql.Tests.Field.{column}
use async_ext.Mysql.Tests.{waiting, memory, no_library}

-- A row with the texts "7" and "8" under one name, and NULL.
abbrev text_field : Field
text_field = record column { kind = 253 }

abbrev other_field : Field
other_field = record text_field { names = record text_field.names { name = 110 ∷ [] } }

three_columns-Row :
    Row
      (some text_field ∷ some other_field ∷ some text_field ∷ [])
      (some (55 ∷ []) ∷ none ∷ some (56 ∷ []) ∷ [])
      []
      ((105 ∷ 100 ∷ [], Value.text (56 ∷ [])) ∷ (110 ∷ [], Value.null) ∷ [])
unfolding kind_of c_string assign
three_columns-Row =
    cons text_field (some (55 ∷ [])) refl
      (cons other_field none refl (cons text_field (some (56 ∷ [])) refl (nil _)))

decode_row-encode_example :
    decode_row no_library false
      (memory (1 ∷ 55 ∷ 251 ∷ 1 ∷ 56 ∷ []))
      0
      (some text_field ∷ some other_field ∷ some text_field ∷ [])
      5
      5
    ≡ Step.done ((105 ∷ 100 ∷ [], Value.text (56 ∷ [])) ∷ (110 ∷ [], Value.null) ∷ [], 5)
unfolding encode
decode_row-encode_example =
    decode_row-encode no_library false (memory (1 ∷ 55 ∷ 251 ∷ 1 ∷ 56 ∷ [])) 0 5 three_columns-Row
      (omega arith) (refl, (refl, (refl, (refl, (refl, tt)))))

-- That row, and an EOF packet.
abbrev row_stream : List ℕ
row_stream = 5 ∷ 0 ∷ 0 ∷ 3 ∷ 1 ∷ 55 ∷ 251 ∷ 1 ∷ 56 ∷ 5 ∷ 0 ∷ 0 ∷ 4 ∷ 254 ∷ 0 ∷ 0 ∷ 2 ∷ 0 ∷ []

abbrev reader : Client
reader = record (waiting row_stream) {
  state = ReadState.read_row;
  response = record (waiting row_stream).response {
    columns = some (some text_field ∷ some other_field ∷ some text_field ∷ []);
    num_column = 3;
    result_array = some [];
  };
}

abbrev one_row : List Values
one_row = ((105 ∷ 100 ∷ [], Value.text (56 ∷ [])) ∷ (110 ∷ [], Value.null) ∷ []) ∷ []

abbrev reader_setting : Setting
reader_setting = record { library = no_library; strict_type = false; sw_continue = pos 1 }

one_row-RowPackets :
    RowPackets
      (memory row_stream)
      (some text_field ∷ some other_field ∷ some text_field ∷ [])
      0
      one_row
      9
unfolding encode uint3korr
one_row-RowPackets =
    packet 0 (some (55 ∷ []) ∷ none ∷ some (56 ∷ []) ∷ []) three_columns-Row refl
      (refl, (refl, (refl, (refl, (refl, tt))))) (last 9)

read_rows-RowPackets_example :
    (c' : Client) × (read_rows reader_setting reader ≡ some (Opcode.ok, c'))
    × Ended reader c' (some one_row) 1 18
unfolding uint3korr
read_rows-RowPackets_example =
    read_rows-RowPackets reader_setting reader (some text_field) 0 2 one_row-RowPackets
      (record { columns = refl; no_execute = refl; rows = refl }) (omega arith) (omega arith) refl
      (refl, (refl, (refl, (refl, (refl, tt)))))
