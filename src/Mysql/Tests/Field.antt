-- ===== src/Mysql/Tests/Field.antt =====
-- A column definition.
use async_ext.Prelude.{
  ℕ, zero, suc, ◌+◌, ◌≤◌, ◌<◌, ◌≡◌, arith, refl, none, List, [], ◌∷◌, Bool, true, leb, ◌&&◌,
}
use async_ext.Str.{Memory}
use async_ext.Mysql.Wire.{length_coded_binary}
use async_ext.Mysql.Wire.Lcb.{encode}
use async_ext.Mysql.Field.{Field, ok, decode_field}
use async_ext.Mysql.Field.Safe.{Ensures, Moderate, decode_field-Safe}
use async_ext.Mysql.Field.Encode.{IsColumn, encode_field, decode_field-encode}
use async_ext.Prelude.{◌+◌}
use async_ext.Mysql.Tests.{memory}

-- The column `id` of the table `t` of the database `d`.
abbrev pub column : Field
column = record {
  names = record {
    catalog = 100 ∷ 101 ∷ 102 ∷ [];
    db = 100 ∷ [];
    table = 116 ∷ [];
    org_table = 116 ∷ [];
    name = 105 ∷ 100 ∷ [];
    org_name = 105 ∷ 100 ∷ [];
  };
  charsetnr = 63;
  length = 11;
  kind = 3;
  flags = 16899;
  decimals = 0;
  def = none;
}

abbrev column_packet : List ℕ
column_packet =
    3 ∷ 100 ∷ 101 ∷ 102 ∷ 1 ∷ 100 ∷ 1 ∷ 116 ∷ 1 ∷ 116 ∷ 2 ∷ 105 ∷ 100 ∷ 2 ∷ 105 ∷ 100 ∷ 12 ∷ 63 ∷ 0
    ∷ 11 ∷ 0 ∷ 0 ∷ 0 ∷ 3 ∷ 3 ∷ 66 ∷ 0 ∷ 0 ∷ 0 ∷ []

column-IsColumn : IsColumn column
column-IsColumn = record {
  charset_size = omega arith;
  length_size = omega arith;
  kind_size = omega arith;
  flags_size = omega arith;
  decimals_size = omega arith;
  no_default = refl;
}

decode_field-encode_example : decode_field (memory column_packet) 0 29 ≡ ok (column, 16)
unfolding encode_field encode
decode_field-encode_example =
    decode_field-encode (memory column_packet) 0 29 (omega arith) column column-IsColumn
      (
        refl,
        (
          refl,
          (
            refl,
            (
              refl,
              (
                refl,
                (
                  refl,
                  (
                    refl,
                    (
                      refl,
                      (
                        refl,
                        (
                          refl,
                          (
                            refl,
                            (
                              refl,
                              (
                                refl,
                                (
                                  refl,
                                  (
                                    refl,
                                    (
                                      refl,
                                      (
                                        refl,
                                        (
                                          refl,
                                          (
                                            refl,
                                            (
                                              refl,
                                              (
                                                refl,
                                                (
                                                  refl,
                                                  (
                                                    refl,
                                                    (
                                                      refl,
                                                      (refl, (refl, (refl, (refl, (refl, tt))))),
                                                    ),
                                                  ),
                                                ),
                                              ),
                                            ),
                                          ),
                                        ),
                                      ),
                                    ),
                                  ),
                                ),
                              ),
                            ),
                          ),
                        ),
                      ),
                    ),
                  ),
                ),
              ),
            ),
          ),
        ),
      )
      refl

abbrev all_low : List ℕ → Bool
all_low [] = true
all_low (b ∷ bs) = leb b 250 && all_low bs

low_byte : (bs : List ℕ) (i : ℕ) → all_low bs ≡ true → memory bs i ≤ 250
low_byte [] i h = omega arith
low_byte (b ∷ bs) zero h = ground (arith, h)
low_byte (b ∷ bs) (suc i) h = low_byte bs i (ground (arith, h))

low-Moderate : (m : Memory) (k len : ℕ) → ((i : ℕ) → m i ≤ 250) → Moderate m k len
unfolding length_coded_binary
low-Moderate m k len h n i c at d r = ground (arith, h (k + i), r)

decode_field-Safe_example :
    Ensures (λ (r : Field × ℕ). (0 < r.1) × (r.1 ≤ 29)) (decode_field (memory column_packet) 0 29)
decode_field-Safe_example =
    decode_field-Safe (memory column_packet) 0 29 (omega arith)
      (low-Moderate (memory column_packet) 0 29 (λ i. low_byte column_packet i refl))
