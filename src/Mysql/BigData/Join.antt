-- ===== src/Mysql/BigData/Join.antt =====
-- Long values of swoole_mysql.cc: mysql_decode_big_data puts together what the packets hold.
use async_ext.Prelude.{
  ℕ, zero, suc, ◌+◌, ◌-◌, ◌*◌, ◌/◌, ◌%◌, ◌^◌, ◌≤◌, ◌<◌, ◌≡◌, refl, ap, ap₂, ◌∙◌, List, [], ◌∷◌,
  false, ◌++◌, append-nil, append_assoc, length, length-append, min, arith, ltb, leb,
}
use async_ext.Str.{Memory}
use async_ext.Mysql.Wire.{header_size, uint3korr}
use async_ext.Mysql.Wire.Lcb.{Holds, slice-Holds}
use async_ext.Mysql.BigData.{max_body, joined, join_loop, decode_big_data}

abbrev pub concat : List (List ℕ) → List ℕ
concat [] = []
concat (c ∷ cs) = c ++ concat cs

-- From `p` on there is a packet for each of the pieces, none of which is empty.
unfoldable pub Packets : Memory → ℕ → List (List ℕ) → Type 0
unfolding uint3korr
Packets m p [] = Unit {0}
Packets m p (c ∷ cs) =
    (1 ≤ length c)
    × (uint3korr m p ≡ length c)
    × Holds m (p + header_size) c
    × Packets m (p + header_size + length c) cs

module _ (m : Memory) (stop len header : ℕ) where
  join_loop-Packets :
      (fuel : ℕ) (cs : List (List ℕ)) (p write_n : ℕ) (out : List ℕ) (ext : ℕ)
      → Packets m p cs
      → length cs < fuel
      → p + (header_size * length cs + length (concat cs)) ≤ stop
      → len ≡ write_n + length (concat cs)
      → ext + length (concat cs) < 2 ^ 32
      → join_loop fuel m stop len p write_n out header ext
        ≡ joined (out ++ concat cs) header (ext + length (concat cs))
  unfolding join_loop Packets
  join_loop-Packets (suc fuel) [] p write_n out ext h f fits e small =
      ground (arith, e, append-nil out)
  join_loop-Packets (suc fuel) (c ∷ cs) p write_n out ext (n, size, held, h) f fits e small =
      let l = length-append c (concat cs) in
      let ih =
        join_loop-Packets fuel cs (p + header_size + length c) (write_n + length c) (out ++ c)
          (ext + length c) h (omega arith) (omega (arith, l, fits)) (omega (arith, l, e))
          (omega (arith, l, small)) in
      let u : leb len write_n ≡ false = ground (arith, e, l, n) in
      let t : min (uint3korr m p) (len - write_n) ≡ length c = omega (arith, size, e, l) in
      let v : ltb stop (p + header_size + length c) ≡ false = ground (arith, fits, l) in
      let x : (ext + uint3korr m p) % 2 ^ 32 ≡ ext + length c = omega (arith, size, small, l) in
      rw (u, t, v, x, slice-Holds m (p + header_size) c held)
        (ih ∙ ap₂ (λ bs j. joined bs header j) (append_assoc out c (concat cs)) (omega (arith, l)))
  join_loop-Packets zero cs p write_n out ext h f fits e small = ground (arith, f)

-- For a value of less than 2^32 bytes that begins in the current packet and goes on in packets
-- that are not empty, that have all been received and that are as many as its length makes the
-- code expect, mysql_decode_big_data returns the whole value, with the sizes of the headers and
-- bodies that it went over.
pub decode_big_data-Packets :
    (m : Memory) (p remaining : ℕ) (a : List ℕ) (cs : List (List ℕ))
    → Holds m p a
    → Packets m (p + length a) cs
    → length cs ≡ length (concat cs) / max_body + 1
    → length a + (header_size * length cs + length (concat cs)) ≤ remaining
    → length a + length (concat cs) < 2 ^ 32
    → decode_big_data m p (length a + length (concat cs)) remaining (length a)
      ≡ joined (a ++ concat cs) (header_size * length cs) (length (concat cs))
unfolding decode_big_data
decode_big_data-Packets m p remaining a cs held h n fits small =
    let d : length a + length (concat cs) - length a ≡ length (concat cs) = omega arith in
    let w : header_size * (length (concat cs) / max_body + 1) % 2 ^ 32 ≡ header_size * length cs =
      omega (arith, n, small) in
    let v : ltb remaining ((header_size * length cs + (length a + length (concat cs))) % 2 ^ 64)
        ≡ false =
      ground (arith, fits) in
    let e : decode_big_data m p (length a + length (concat cs)) remaining (length a)
        ≡ join_loop (suc remaining) m (p + remaining) (length a + length (concat cs)) (p + length a)
            (length a) a (header_size * length cs) 0 =
      rw (d, w, v, slice-Holds m p a held) in
    e
    ∙ join_loop-Packets m (p + remaining) (length a + length (concat cs)) (header_size * length cs)
        (suc remaining) cs (p + length a) (length a) a 0 h (omega (arith, fits))
        (omega (arith, fits)) refl (omega (arith, small))
    ∙ ap (joined (a ++ concat cs) (header_size * length cs)) (omega arith)
