-- ===== src/Buffer/Refine.antt =====
-- Swoole\Buffer of swoole_buffer.cc against a text, over every sequence of calls of its methods.
use async_ext.Prelude.{
  ℕ, ◌+◌, ◌%◌, ◌^◌, ◌<◌, ◌≤◌, ◌≡◌, inl, inr, refl, sym, ap, ap₂, subst, ◌∙◌, true, false,
  Option-cases, none, some, List, [], ◌∷◌, ◌++◌, length, take-length, drop, arith, le→not-ltb,
}
use async_ext.Prelude.Int.{pos, negsuc}
use async_ext.Str.{long_of_size}
use async_ext.Str.Patch.{patch}
use async_ext.Buffer.{
  StringApi, Limits, Buffer, null, bool, string, construct, recycled, append, append_to, substr,
  substr_from, to_string, write, write_to, read, read_from, long_left, expand, expand_to, recycle,
  clear, text_at,
}
use async_ext.Buffer.Documented.{Documented}
use async_ext.Buffer.Places.{place, long_small, long_left-pos, text_at-part}
use async_ext.Buffer.Reads.{
  part, read_from-place, read_from-nowhere, substr_at-part, substr_at-rest, substr_from-at,
}
use async_ext.Buffer.Writes.{
  substr_from-remove, recycled-Contains, remove_from-Removed, append_to-Put, write_at-Put,
  write_to-place, write_to-nowhere, write_to-empty, append_to-empty,
}
use async_ext.Buffer.Text.{
  Call, appends, takes, removes, shows, writes, reads, expands, recycles, clears, call, meant, cost,
  IsInside, IsSmall, Sensible, AllSensible, total, Represents, run_buffer, run_text,
}
use async_ext.Buffer.Met.{with_ptr-some, Meets, Meets-same, Meets-more, expand_to-Meets}

module _ (api : StringApi) (lim : Limits) (d : Documented api) (small : lim.maxlen < 2 ^ 62) where
  call-meant :
      (o : Call) (b : Buffer) (used : ℕ) (c : List ℕ)
      → Represents b used c
      → Sensible o c
      → cost o + used ≤ lim.maxlen
      → Meets (cost o + used) (meant o c).1 (meant o c).0 (call api lim o b)
  unfolding append substr to_string write read expand recycle clear Meets
  call-meant (appends []) b used c v e l =
      Meets-same b used 0 c (bool false) (append api lim [] b) v (
        with_ptr-some b.ptr v.string (append_to api lim [] b) b v.here
        ∙ append_to-empty api lim b v.string)
  call-meant (appends (x ∷ text)) b used c v e l =
      let m = v.bound in
      Meets-more v.string used (x ∷ text) (c ++ (x ∷ text)) _ _ _ v.bound
        (with_ptr-some b.ptr v.string (append_to api lim (x ∷ text) b) b v.here)
        (append_to-Put api lim b v.string c (x ∷ text) d small v.contents e (omega arith)
          (omega arith))
  call-meant (takes k (pos n)) b used c v e l =
      let m = v.bound in
      let w = v.contents.whole in
      Meets-same b used 0 c (part c k n) _ v (
        with_ptr-some b.ptr v.string (substr_from api lim (pos k) (pos n) false b) b v.here
        ∙ substr_from-at api lim b v.string k (pos n) (omega arith)
        ∙ substr_at-part api lim b v.string c k n v.contents (omega arith) e)
  call-meant (takes k (negsuc n)) b used c v e l =
      let m = v.bound in
      let w = v.contents.whole in
      Meets-same b used 0 c (string (drop k c)) _ v (
        with_ptr-some b.ptr v.string (substr_from api lim (pos k) (negsuc n) false b) b v.here
        ∙ substr_from-at api lim b v.string k (negsuc n) (omega arith)
        ∙ substr_at-rest api lim b v.string c k n v.contents (omega arith) e)
  call-meant (removes n) b used c v e l =
      let m = v.bound in
      let r =
        remove_from-Removed api lim b v.string c n (pos v.string.offset) d v.contents (omega arith)
          e in
      let run =
        with_ptr-some b.ptr v.string (substr_from api lim (pos 0) (pos n) true b) b v.here
        ∙ substr_from-remove api lim b v.string c n v.contents (omega arith) e in
      let k = r.bound in
      (
        refl,
        subst (λ x. Represents x.1 (0 + used) (drop n c)) (sym run)
            (record {
              string = r.string;
              here = r.here;
              contents = r.contents;
              bound = omega arith;
              property = r.property;
            }),
      )
  call-meant shows b used c v e l =
      let m = v.bound in
      let s = v.string in
      let left = long_left-pos s c v.contents (omega arith) in
      Meets-same b used 0 c (string c) _ v (
        with_ptr-some b.ptr s (λ s. (text_at s (pos s.offset) (long_left s), b)) b v.here
        ∙ ap (λ n. (text_at s (pos s.offset) n, b)) left
        ∙ ap (λ o. (text_at s (pos o) (pos (length c)), b)) (omega arith)
        ∙ ap (λ x. (x, b))
            (text_at-part s c 0 (length c) v.contents (omega arith) ∙ ap string (take-length c)))
  call-meant (writes z []) b used c v e l = Meets-same b used 0 c (bool false) _ v (
      with_ptr-some b.ptr v.string (write_to api lim z [] b) b v.here
      ∙ write_to-empty api lim b v.string z)
  call-meant (writes z (x ∷ text)) b used c v (zl, t, i) l =
      let m = v.bound in
      let w = v.contents.whole in
      let s = v.string in
      let start = with_ptr-some b.ptr s (write_to api lim z (x ∷ text) b) b v.here in
      elim (Option-cases (place z c)) [
        | inl nowhere ↦ rw nowhere (
            Meets-same b used (length (x ∷ text)) c (bool false) _ v (
              start
              ∙ write_to-nowhere api lim b s c (x ∷ text) z v.contents (omega arith) zl nowhere))
        | inr (k, there) ↦
            let inside : k ≤ length c = subst (λ p. IsInside p c) there i in
            rw there (
              Meets-more s used (x ∷ text) (patch c k (x ∷ text)) _ _ _ v.bound
                (start
                  ∙ write_to-place api lim b s c (x ∷ text) z k v.contents (omega arith)
                      (omega arith) there (omega arith))
                (write_at-Put api lim b s c (x ∷ text) k d small v.contents t inside (omega arith)))
      ]
  call-meant (reads z n) b used c v (zl, i) l =
      let m = v.bound in
      let s = v.string in
      let start = with_ptr-some b.ptr s (read_from z (pos n) b) b v.here in
      elim (Option-cases (place z c)) [
        | inl nowhere ↦ rw nowhere (
            Meets-same b used 0 c (bool false) _ v
              (start ∙ read_from-nowhere b s c z (pos n) v.contents (omega arith) zl nowhere))
        | inr (k, there) ↦ rw there (
            Meets-same b used 0 c (part c k n) _ v (
              start
              ∙ read_from-place b s c z k n v.contents (omega arith) there (subst IsSmall there i)))
      ]
  call-meant (expands z) b used c v e l =
      let s = v.string in
      subst (λ x. Meets (0 + used) c null (null, x.1))
        (sym (with_ptr-some b.ptr s (expand_to api lim z b) b v.here))
        (expand_to-Meets api lim d small z b used c v e)
  call-meant recycles b used c v e l =
      let s = v.string in
      let m = v.bound in
      let (r, shorter, front) = recycled-Contains api lim s c d v.contents in
      let t = recycled api lim s in
      let run =
        with_ptr-some b.ptr s
          (λ s. (
            null,
            record b {
              ptr = some (recycled api lim s);
              length = long_of_size (recycled api lim s).length;
            },
          ))
          b v.here in
      subst (Meets (0 + used) c null) (sym run) (
        refl,
        record {
          string = t;
          here = refl;
          contents = r;
          bound = omega arith;
          property = long_small t.length (omega arith) ∙ ap pos (let w = r.whole in omega arith);
        },
      )
  call-meant clears b used c v e l =
      let s = v.string in
      let run =
        with_ptr-some b.ptr s
          (λ s.
            (null, record b { ptr = some (record s { length = 0; offset = 0 }); length = pos 0 }))
          b v.here in
      subst (Meets (0 + used) [] null) (sym run) (
        refl,
        record {
          string = record s { length = 0; offset = 0 };
          here = refl;
          contents = record {
            whole = refl;
            room = omega arith;
            real = v.contents.real;
            holds = tt;
          };
          bound = omega arith;
          property = refl;
        },
      )

  run_on :
      (os : List Call) (b : Buffer) (used : ℕ) (c : List ℕ)
      → Represents b used c
      → AllSensible os c
      → total os + used ≤ lim.maxlen
      → run_buffer api lim b os ≡ run_text c os
  unfolding run_buffer run_text Meets
  run_on [] b used c v e l = refl
  run_on (o ∷ os) b used c v (e, es) l =
      let (same, v') = call-meant o b used c v e (omega arith) in
      ap₂ ◌∷◌ (λ i. (same i, v'.property i))
        (run_on os (call api lim o b).1 (cost o + used) (meant o c).1 v' es (omega arith))

  construct-Represents :
      (b : Buffer) (n : ℕ)
      → b.ptr ≡ none
      → 0 < n
      → n ≤ lim.maxlen
      → ((construct api lim (pos n) b).0 ≡ null) × Represents (construct api lim (pos n) b).1 0 []
  unfolding construct
  construct-Represents b n e p l =
      let e' : n % 2 ^ 64 ≡ n = omega arith in
      let (r, z) = d.made n (omega arith) in
      rw
        (
          e,
          le→not-ltb (n + 0) (1 + 0) (omega arith),
          le→not-ltb (lim.maxlen + 0) (n + 0) (omega arith),
          e',
        )
        (
          refl,
          record {
            string = api.make n;
            here = refl;
            contents = r;
            bound = omega arith;
            property = refl;
          },
        )

  -- If swString works as documented and grows, a Swoole\Buffer made with a size from 1 to the
  -- maximum answers every sequence of sensible calls that add no more than the maximum, of append,
  -- substr, write, read, __toString, expand, recycle and clear, as a text does that they append
  -- to, cut, overwrite and clear, and its property length is the text's length after each call;
  -- the answers of expand and of removals are left out.
  pub run_buffer-run_text :
      (b : Buffer) (n : ℕ) (os : List Call)
      → b.ptr ≡ none
      → 0 < n
      → n ≤ lim.maxlen
      → AllSensible os []
      → total os ≤ lim.maxlen
      → ((construct api lim (pos n) b).0 ≡ null)
        × (run_buffer api lim (construct api lim (pos n) b).1 os ≡ run_text [] os)
  run_buffer-run_text b n os e p l h t =
      let (a, v) = construct-Represents b n e p l in
      (a, run_on os (construct api lim (pos n) b).1 0 [] v h (omega arith))
