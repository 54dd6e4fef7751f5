-- ===== src/Buffer/Writes.antt =====
-- The methods of swoole_buffer.cc that change the string, by its contents.
use async_ext.Prelude.{
  ℕ, ◌+◌, ◌*◌, ◌%◌, ◌^◌, ◌<◌, ◌≤◌, ◌≡◌, inl, inr, refl, ap, ◌∙◌, Bool, true, false, not, ◌&&◌,
  Bool-cases, none, some, List, [], ◌++◌, length, drop, arith, ltb, ◌==◌, ==_iff, le→not-ltb,
  le→leb,
}
use async_ext.Prelude.Int.{ℤ, pos, ltb_ℤ, ◌+ℤ◌}
use async_ext.Str.{Str, IsLong, wrap_long}
use async_ext.Str.Holds.{IsText}
use async_ext.Str.Patch.{patch}
use async_ext.Buffer.{
  StringApi, Limits, Buffer, bool, long, recycled, append_to, remove_from, substr_at, substr_from,
  from_end, write_at, write_to,
}
use async_ext.Buffer.Documented.{
  Documented, Contains, Contains-append, Contains-write, Contains-reduce, Contains-drop,
}
use async_ext.Buffer.Places.{
  long_small, wrap-add, long_left-pos, place, from_end-place, from_end-nowhere, not_negative,
}
use async_ext.Buffer.Reads.{substr_past_end}

-- What a removal leaves.
pub record Removed (s : Str) (c : List ℕ) (b' : Buffer) : Type 0 where
  pub string : Str
  pub here : b'.ptr ≡ some string
  pub contents : Contains string c
  pub bound : string.length ≤ s.length
  pub property : b'.length ≡ pos (length c)

-- A text is put behind the contents, or over them: what a call leaves.
pub record Put (s : Str) (text c : List ℕ) (b' : Buffer) : Type 0 where
  pub string : Str
  pub here : b'.ptr ≡ some string
  pub contents : Contains string c
  pub bound : string.length ≤ s.length + length text
  pub property : b'.length ≡ pos (length c)

module _ (api : StringApi) (lim : Limits) where
  pub recycled-Contains :
      (s : Str) (c : List ℕ)
      → Documented api
      → Contains s c
      → Contains (recycled api lim s) c
        × ((recycled api lim s).length ≤ s.length)
        × ((recycled api lim s).offset ≡ 0)
  unfolding recycled
  recycled-Contains s c d r =
      let w = r.whole in
      let x = d.reduce s s.offset (omega arith) in
      let l = x.length_lem in
      elim (Bool-cases (s.offset == 0)) [
        | inl zero_offset ↦ rw zero_offset (r, omega arith, (==_iff s.offset 0).0 zero_offset)
        | inr more ↦
            rw more (Contains-reduce s (api.reduce s s.offset) c r x, omega arith, x.offset)
      ]

  pub remove_from-Removed :
      (b : Buffer) (s : Str) (c : List ℕ) (n : ℕ) (o : ℤ)
      → Documented api
      → Contains s c
      → s.length < 2 ^ 62
      → n ≤ length c
      → Removed s (drop n c) (remove_from api lim o (pos n) b s).1
  unfolding remove_from
  remove_from-Removed b s c n o d r l nl =
      let w = r.whole in
      let e : n % 2 ^ 64 ≡ n = omega arith in
      let s1 = record s { offset = s.offset + n } in
      let r1 = Contains-drop s c n r nl in
      let (r2, shorter, _) = recycled-Contains s1 (drop n c) d r1 in
      rw e
        (elim (Bool-cases
          (ltb lim.garbage_min (s.offset + n) && ltb s.size ((s.offset + n) * lim.garbage_ratio))) [
            | inl garbage ↦ rw garbage (record {
              string = recycled api lim s1;
              here = refl;
              contents = r2;
              bound = shorter;
              property = long_left-pos s1 (drop n c) r1 l;
            })
            | inr clean ↦ rw clean (record {
              string = s1;
              here = refl;
              contents = r1;
              bound = omega arith;
              property = long_left-pos s1 (drop n c) r1 l;
            })
          ])

  removal_flag : (size n : ℕ) → n ≤ size → not (ltb_ℤ (pos size) (pos n)) ≡ true
  removal_flag size n l = ground arith

  pub substr_from-remove :
      (b : Buffer) (s : Str) (c : List ℕ) (n : ℕ)
      → Contains s c
      → s.length < 2 ^ 62
      → n ≤ length c
      → substr_from api lim (pos 0) (pos n) true b s
        ≡ remove_from api lim (pos s.offset) (pos n) b s
  unfolding substr_from substr_at
  substr_from-remove b s c n r l nl =
      let w = r.whole in
      let e = long_small s.length (omega arith) in
      let f : wrap_long (pos 0 +ℤ pos s.offset) ≡ pos (s.offset + 0) =
        wrap-add 0 s.offset (omega arith) ∙ ap pos (omega arith) in
      let t = substr_past_end s.length s.offset 0 n (length c) r.whole l (omega arith) in
      rw (not_negative n, e, f, t, removal_flag s.length n (omega arith))
        (rw (le→leb (0 + n) (length c) (omega arith))
          (ap (λ o. remove_from api lim (pos o) (pos n) b s) (omega arith)))

  and_fits : (p : Bool) (n : ℕ) → n ≤ lim.maxlen → (p && ltb lim.maxlen n) ≡ false
  and_fits true n h = le→not-ltb lim.maxlen n h
  and_fits false n h = refl

  pub append_to-Put :
      (b : Buffer) (s : Str) (c text : List ℕ)
      → Documented api
      → lim.maxlen < 2 ^ 62
      → Contains s c
      → IsText text
      → 0 < length text
      → length text + s.length ≤ lim.maxlen
      → ((append_to api lim text b s).0 ≡ long (pos (length (c ++ text))))
        × Put s text (c ++ text) (append_to api lim text b s).1
  unfolding append_to
  append_to-Put b s c text d small r t more fits =
      let e : (length text + s.length) % 2 ^ 64 ≡ length text + s.length = omega arith in
      let (s', run, a) = d.append s text t (omega arith) in
      let l = a.length_lem in
      let r' = Contains-append s s' c text r a in
      let left = long_left-pos s' (c ++ text) r' (omega arith) in
      rw
        (
          le→not-ltb (length text) 1 (omega arith),
          e,
          and_fits (ltb s.size (length text + s.length)) _ fits,
          run,
        )
        (
          ap long left,
          record { string = s'; here = refl; contents = r'; bound = omega arith; property = left },
        )

  pub write_at-Put :
      (b : Buffer) (s : Str) (c text : List ℕ) (k : ℕ)
      → Documented api
      → lim.maxlen < 2 ^ 62
      → Contains s c
      → IsText text
      → k ≤ length c
      → length text + s.length ≤ lim.maxlen
      → ((write_at api lim (pos (s.offset + k)) text b s).0 ≡ long (pos (length (patch c k text))))
        × Put s text (patch c k text) (write_at api lim (pos (s.offset + k)) text b s).1
  unfolding write_at
  write_at-Put b s c text k d small r t inside fits =
      let w = r.whole in
      let e : (s.offset + k) % 2 ^ 64 ≡ s.offset + k = omega arith in
      let n = length text + (s.offset + k) in
      let e' : n % 2 ^ 64 ≡ n = omega arith in
      let a = d.write s (s.offset + k) text t (omega arith) (omega arith) in
      let s' = api.write s (s.offset + k) text in
      let bound : s'.length ≤ s.length + length text = elim a.length_lem [
        | inl x ↦ omega arith
        | inr x ↦ omega arith
      ] in
      let r' = Contains-write s s' c k text r inside a in
      let left = long_left-pos s' (patch c k text) r' (omega arith) in
      rw (e, e', and_fits (ltb s.size n) n (omega arith))
        (
          ap long left,
          record { string = s'; here = refl; contents = r'; bound = bound; property = left },
        )

  -- An offset that `write` and `read` take from the end.
  pub write_to-place :
      (b : Buffer) (s : Str) (c text : List ℕ) (z : ℤ) (k : ℕ)
      → Contains s c
      → s.length < 2 ^ 62
      → 0 < length text
      → place z c ≡ some k
      → k < 2 ^ 62
      → write_to api lim z text b s ≡ write_at api lim (pos (s.offset + k)) text b s
  unfolding write_to
  write_to-place b s c text z k r l more p kl =
      let w = r.whole in
      let f : from_end z s ≡ pos k = from_end-place s c z k r l p in
      let g : wrap_long (pos k +ℤ pos s.offset) ≡ pos (s.offset + k) =
        wrap-add k s.offset (omega arith) ∙ ap pos (omega arith) in
      rw (le→not-ltb (length text) 1 (omega arith), f) (rw (not_negative k, g) refl)

  pub write_to-nowhere :
      (b : Buffer) (s : Str) (c text : List ℕ) (z : ℤ)
      → Contains s c
      → s.length < 2 ^ 62
      → IsLong z
      → place z c ≡ none
      → write_to api lim z text b s ≡ (bool false, b)
  unfolding write_to
  write_to-nowhere b s c text z r l zl p = elim (Bool-cases (ltb (length text) 1)) [
    | inl nothing ↦ rw nothing refl
    | inr more ↦ rw (more, from_end-nowhere s c z r l zl p) refl
  ]

  pub write_to-empty : (b : Buffer) (s : Str) (z : ℤ) → write_to api lim z [] b s ≡ (bool false, b)
  unfolding write_to
  write_to-empty b s z = refl

  pub append_to-empty : (b : Buffer) (s : Str) → append_to api lim [] b s ≡ (bool false, b)
  unfolding append_to
  append_to-empty b s = refl
