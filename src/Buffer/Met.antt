-- ===== src/Buffer/Met.antt =====
-- What a call of a method of Swoole\Buffer answers and leaves, against a text; and expand.
use async_ext.Prelude.{
  ℕ, ◌+◌, ◌^◌, ◌<◌, ◌≤◌, ◌≡◌, inl, inr, refl, sym, subst, true, Bool-cases, Option, Option-cases,
  some, List, length, arith,
}
use async_ext.Prelude.Int.{ℤ, pos, negsuc, ltb_ℤ}
use async_ext.Str.{Str, IsLong, size_of_long}
use async_ext.Buffer.{StringApi, Limits, Buffer, Answer, null, with_ptr, expand_to}
use async_ext.Buffer.Documented.{Documented, Contains-extend}
use async_ext.Buffer.Places.{long_small}
use async_ext.Buffer.Writes.{Put}
use async_ext.Buffer.Text.{Represents}

-- The rest of a method, where there is a string.
pub with_ptr-some :
    (o : Option Str) (s : Str) (f : Str → Answer × Buffer) (b : Buffer)
    → o ≡ some s
    → with_ptr o f b ≡ f s
with_ptr-some o s f b e = rw e refl

size-lt : (n : ℕ) (z : ℤ) → IsLong z → ltb_ℤ (pos n) z ≡ true → n < size_of_long z
size-lt n (pos k) l e = ground arith
size-lt n (negsuc k) l e = ground arith

-- What a call answers, and what it leaves.
unfoldable pub Meets : ℕ → List ℕ → Answer → Answer × Buffer → Type 0
Meets used c a r = (r.0 ≡ a) × Represents r.1 used c

pub Meets-same :
    (b : Buffer) (used more : ℕ) (c : List ℕ) (a : Answer) (r : Answer × Buffer)
    → Represents b used c
    → r ≡ (a, b)
    → Meets (more + used) c a r
unfolding Meets
Meets-same b used more c a r v e =
    let l = v.bound in
    subst (λ x. (x.0 ≡ a) × Represents x.1 (more + used) c) (sym e)
      (
        refl,
        record {
          string = v.string;
          here = v.here;
          contents = v.contents;
          bound = omega arith;
          property = v.property;
        },
      )

pub Meets-more :
    (s : Str) (used : ℕ) (text c : List ℕ) (a : Answer) (r r' : Answer × Buffer)
    → s.length ≤ used
    → r ≡ r'
    → (r'.0 ≡ a) × Put s text c r'.1
    → Meets (length text + used) c a r
unfolding Meets
Meets-more s used text c a r r' l e (e', p) =
    let l' = p.bound in
    subst (λ x. (x.0 ≡ a) × Represents x.1 (length text + used) c) (sym e)
      (
        e',
        record {
          string = p.string;
          here = p.here;
          contents = p.contents;
          bound = omega arith;
          property = p.property;
        },
      )

module _ (api : StringApi) (lim : Limits) (d : Documented api) (small : lim.maxlen < 2 ^ 62) where
  pub expand_to-Meets :
      (z : ℤ) (b : Buffer) (used : ℕ) (c : List ℕ) (v : Represents b used c)
      → IsLong z
      → Meets (0 + used) c null (null, (expand_to api lim z b v.string).1)
  unfolding Meets expand_to
  expand_to-Meets z b used c v e =
      let s = v.string in
      let real = v.contents.real in
      let l = v.bound in
      let kept : Represents b (0 + used) c = record {
        string = s;
        here = v.here;
        contents = v.contents;
        bound = omega arith;
        property = v.property;
      } in
      rw (long_small s.size real) (elim (Bool-cases (ltb_ℤ (pos s.size) z)) [
        | inr enough ↦ rw enough (refl, kept)
        | inl larger ↦ elim (Option-cases (api.extend s (size_of_long z))) [
          | inl failed ↦ rw (larger, failed) (refl, kept)
          | inr (t, run) ↦
              let x = d.extend s t (size_of_long z) (size-lt s.size z e larger) run in
              let n = x.length_lem in
              rw (larger, run)
                (
                  refl,
                  record {
                    string = t;
                    here = refl;
                    contents = Contains-extend s t c v.contents x;
                    bound = omega arith;
                    property = v.property;
                  },
                )
        ]
      ])
