-- ===== src/Mysql/Over/Complete.antt =====
-- What mysql_is_over of swoole_mysql.cc answers, in terms of the packets of the stream.
use async_ext.Prelude.{
  ℕ, zero, suc, ◌+◌, ◌-◌, ◌<◌, ◌≤◌, ◌≡◌, ◌⊎◌, ◌↔◌, inl, inr, Bool, true, false, some, arith, refl,
  ap, ltb, leb, Bool-cases, tests,
}
use async_ext.Str.{Memory}
use async_ext.Mysql.Wire.{header_size, uint3korr}
use async_ext.Mysql.Over.{Verdict, again, is_final, over_loop, apply_verdict, is_over}
use async_ext.Mysql.Over.Split.{behind, Split, done, packet, Split-le, behind-le, last_unique}
use async_ext.Mysql.Client.{Client}

-- The packet at `q` is the last one of the `len` bytes.
abbrev pub IsLast : Memory → ℕ → ℕ → ℕ → Type 0
IsLast m len check q = Split m check q × (behind m q ≡ len)

abbrev pub verdict_at : Memory → ℕ → Bool
verdict_at m q = is_final m (q + header_size) (uint3korr m q)

-- The four ways in which a check can end: the last packet closes the answer, or announces more
-- results; nothing is left to check; or the packet at `q` is incomplete, and `w` is the length at
-- which its header or, with the header there, its body will be.
pub data Answer (m : Memory) (len check want : ℕ) (v : Verdict) : Type 0 where
  closed :
      (q : ℕ)
      → IsLast m len check q
      → verdict_at m q ≡ true
      → v ≡ record { over = true; check = 0; want = 0 }
      → Answer m len check want v
  more :
      (q : ℕ)
      → IsLast m len check q
      → verdict_at m q ≡ false
      → v ≡ again len want
      → Answer m len check want v
  nothing : len ≤ check → v ≡ again check want → Answer m len check want v
  partial :
      (q w : ℕ)
      → Split m check q
      → q < len
      → len < w
      → ((len < q + header_size) × (w ≡ q + header_size))
        ⊎ ((q + header_size ≤ len) × (w ≡ behind m q))
      → v ≡ again q w
      → Answer m len check want v

Answer-packet :
    {m : Memory} {len check want : ℕ} {v : Verdict}
    → behind m check < len
    → Answer m len (behind m check) want v
    → Answer m len check want v
Answer-packet {check = a} h (closed q (s, e) f r) = closed q (packet a s, e) f r
Answer-packet {check = a} h (more q (s, e) f r) = more q (packet a s, e) f r
Answer-packet h (nothing l r) = absurd (omega arith)
Answer-packet {check = a} h (partial q w s l g c r) = partial q w (packet a s) l g c r

-- With more fuel than unchecked bytes, the loop of mysql_is_over ends in one of four ways: the
-- last packet closes the answer, or it announces more results, or nothing is left to check, or a
-- packet is incomplete and want_length is where its header or its body will end.
pub over_loop-Answer :
    (fuel : ℕ) (m : Memory) (len check want : ℕ)
    → len - check < fuel
    → (v : Verdict) × (over_loop fuel m len check want ≡ some v) × Answer m len check want v
unfolding over_loop
over_loop-Answer zero m len check want h = elim h [ ]
over_loop-Answer (suc fuel) m len check want h = elim (Bool-cases (leb len check)) [
  | inl none_left ↦ (again check want, rw none_left, nothing (omega tests) refl)
  | inr left ↦ elim (Bool-cases (ltb len (check + header_size))) [
    | inl short ↦ (
      again check (check + header_size),
      rw (left, short),
      partial check (check + header_size) (done check) (omega tests) (omega tests)
          (inl (omega tests, refl)) refl,
    )
    | inr head ↦ elim (Bool-cases (ltb (len - check - header_size) (uint3korr m check))) [
      | inl short ↦ (
        again check (check + header_size + uint3korr m check),
        rw (left, head, short),
        partial check (check + header_size + uint3korr m check) (done check) (omega tests)
            (omega tests) (inr (omega tests, omega tests)) refl,
      )
      | inr whole ↦ elim (Bool-cases (leb len (behind m check))) [
        | inl last ↦
            let e : behind m check ≡ len = omega tests in
            let size : len - check - header_size ≡ uint3korr m check = omega (tests, e) in
            elim (Bool-cases (verdict_at m check)) [
              | inl final ↦ (
                record { over = true; check = 0; want = 0 },
                rw (left, head, whole, last, size, final),
                closed check (done check, e) final refl,
              )
              | inr open_end ↦ (
                again len want,
                rw (left, head, whole, last, size, open_end) (ap (λ j. some (again j want)) e),
                more check (done check, e) open_end refl,
              )
            ]
        | inr rest ↦
            let (v, e, a) = over_loop-Answer fuel m len (behind m check) want (omega tests) in
            (v, rw (left, head, whole, rest, e), Answer-packet (omega tests) a)
      ]
    ]
  ]
]

module _ {m : Memory} {len check want : ℕ} {v : Verdict} where
  closed_of :
      Answer m len check want v
      → v.over ≡ true
      → (q : ℕ) × IsLast m len check q × (verdict_at m q ≡ true)
  closed_of (closed q l f r) e = (q, l, f)
  closed_of (more q l f r) e = cc
  closed_of (nothing l r) e = cc
  closed_of (partial q w s l g c r) e = cc

  over_of :
      Answer m len check want v
      → (q : ℕ) × IsLast m len check q × (verdict_at m q ≡ true)
      → v.over ≡ true
  over_of (closed p l f r) h = cc
  over_of (more p l f r) (q, k, g) = ground (
    arith,
    last_unique l.0 l.1 k.0 k.1,
    f,
    g,
    ap (λ (x : ℕ). verdict_at m x) (last_unique l.0 l.1 k.0 k.1),
  )
  over_of (nothing l r) (q, k, g) = absurd (omega (arith, Split-le k.0, k.1, l))
  over_of (partial p w s l g c r) (q, k, f) =
      absurd (omega (arith, behind-le s k.0 (omega (arith, k.1, l)), k.1, c, g))

  reset_of : Answer m len check want v → v.over ≡ true → (v.check ≡ 0) × (v.want ≡ 0)
  reset_of (closed p l f r) e = rw r (refl, refl)
  reset_of (more q l f r) e = cc
  reset_of (nothing l r) e = cc
  reset_of (partial q w s l g c r) e = cc

-- For a client whose buffer is as long as it waited for, mysql_is_over returns; its answer is
-- SW_OK exactly if whole packets lead from check_offset to the end of the buffer and its switch
-- lets the last of them close the answer; and then check_offset and want_length are 0.
pub is_over_complete :
    (c : Client)
    → c.want_length ≤ c.buffer.length
    → (b : Bool) × (c' : Client) × (is_over c ≡ some (b, c'))
      × ((b ≡ true) ↔ (
          (q : ℕ) × IsLast c.buffer.str c.buffer.length c.check_offset q
          × (verdict_at c.buffer.str q ≡ true)))
      × (b ≡ true → (c'.check_offset ≡ 0) × (c'.want_length ≡ 0))
unfolding is_over apply_verdict
is_over_complete c h =
    let (v, e, a) =
      over_loop-Answer (suc c.buffer.length) c.buffer.str c.buffer.length c.check_offset
        c.want_length (omega arith) in
    (
      v.over,
      record c { check_offset = v.check; want_length = v.want },
      rw (not_waiting, e),
      (closed_of a, over_of a),
      reset_of a,
    )
  where
    not_waiting : ltb c.buffer.length c.want_length ≡ false
    not_waiting = ground arith
