-- ===== src/Mysql/Tests/Wire.antt =====
-- Numbers of the wire format.
use async_ext.Prelude.{
  ℕ, ◌+◌, ◌^◌, ◌≤◌, ◌<◌, ◌≡◌, ◌≢◌, inl, arith, refl, false, some, List, [], ◌∷◌,
}
use async_ext.Mysql.Wire.{length_coded_binary, write_lcb, uint2korr, uint3korr, pack_length}
use async_ext.Mysql.Wire.Lcb.{
  encode, length_coded_binary-encode, length_coded_binary_bounds, length_coded_binary_local,
  write_lcb-unreadable,
}
use async_ext.Mysql.Wire.Numbers.{uint3korr-pack_length}
use async_ext.Mysql.Tests.{memory}

-- The number 4660 in three bytes.
abbrev number : List ℕ
number = 252 ∷ 52 ∷ 18 ∷ []

length_coded_binary-encode_example :
    length_coded_binary (memory number) 0 3 ≡ some (record { width = 3; value = 4660; nul = false })
unfolding encode
length_coded_binary-encode_example =
    length_coded_binary-encode (memory number) 0 3 4660 (omega arith) (refl, (refl, (refl, tt)))
      (omega arith) (inl (omega arith))

length_coded_binary_bounds_example : (1 ≤ 3) × (3 ≤ 3) × (3 ≤ 9) × (4660 < 2 ^ 64)
unfolding length_coded_binary uint2korr
length_coded_binary_bounds_example =
    length_coded_binary_bounds (memory number) 0 3
      {c = record { width = 3; value = 4660; nul = false }} refl

length_coded_binary_local_example :
    length_coded_binary (memory number) 0 3 ≡ length_coded_binary (λ i. memory number i + 256) 0 3
length_coded_binary_local_example =
    length_coded_binary_local (memory number) (λ i. memory number i + 256) 0 3 (λ i h. omega arith)

write_lcb-unreadable_example :
    length_coded_binary (write_lcb (memory []) 0 4660).0 0 9
    ≢ some (record { width = (write_lcb (memory []) 0 4660).1; value = 4660; nul = false })
write_lcb-unreadable_example = write_lcb-unreadable (memory []) 0 4660 9 (omega arith) (omega arith)

uint3korr-pack_length_example : uint3korr (pack_length 70000 (memory number)) 0 ≡ 70000
uint3korr-pack_length_example = uint3korr-pack_length (memory number) 70000 (omega arith)
