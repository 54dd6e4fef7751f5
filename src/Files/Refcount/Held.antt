-- ===== src/Files/Refcount/Held.antt =====
-- The histories of the writes of swoole_async.cc: while a write is in flight, its entry stays in
-- `open_write_files`.
use async_ext.Prelude.{
  ℕ, suc, ◌+◌, ◌^◌, ◌<◌, ◌≤◌, ◌≡◌, ◌⊎◌, inl, inr, refl, sym, ap, subst, ◌∙◌, not, Bool-cases,
  Option, none, some, List, [], ◌∷◌, ◌++◌, length, arith, ◌==◌,
}
use async_ext.Prelude.Int.{ℤ, pos, negsuc}
use async_ext.Files.{Next, AsyncEvent, OpenFile, Files, Loop, find, release, completed}
use async_ext.Files.Request.{Kernel, Callback, is_usable, is_given, Started, dispatch, async_write}
use async_ext.Files.Table.{Table, refs}
use async_ext.Files.Refcount.Counts.{
  At, Placed, Inv, Inv-start, Inv-same, Inv-gain, Inv-table, Placed-split, count-append,
  count-cons_self, refs-found,
}
use async_ext.Files.Refcount.{Write, event, Gains, Gains-entry, release-Loses, Completion-held}

abbrev pub empty : Files
empty = record { open_write_files = []; calls = []; closed = []; freed = 0; dispatches = 0 }

-- The write that an event in the pool is.
abbrev pub InFlight : Option AsyncEvent → List Write → Type 0
InFlight none vs = vs ≡ []
InFlight (some ev) vs = (v : Write) × (ev ≡ event v (pos 0)) × (vs ≡ (v ∷ []))

-- The state and the writes in flight, after so many calls of `swoole_async_write`. A completion takes
-- any write in flight, with any value returned, and each step has its own answers of PHP, the kernel
-- and the pool.
pub data Trace : ℕ → Files → List Write → Type 0 where
  start : Trace 0 empty []
  wrote :
      {n : ℕ} {w : Files} {pending : List Write} (k : Kernel) (l : Loop) (filename content : List ℕ)
      (offset : ℤ) (callback : Callback) (vs : List Write)
      → Trace n w pending
      → InFlight (async_write k l filename content offset callback w).event vs
      → Trace (suc n) (async_write k l filename content offset callback w).files (pending ++ vs)
  finished :
      {n : ℕ} {w : Files} (l : Loop) (r : ℤ) (xs : List Write) (v : Write) (ys : List Write)
      (w' : Files)
      → Trace n w (xs ++ (v ∷ ys))
      → completed l (event v r) w ≡ some (w', none)
      → Trace n w' (xs ++ ys)

-- A call that is refused before the table, and one that gets a reference.
Written : List ℕ → Files → Started → Type 0
Written key w o =
    ((o.files.open_write_files ≡ w.open_write_files) × (o.event ≡ none))
    ⊎ ((fd : ℕ) × Gains key fd w.open_write_files o.files.open_write_files
        × ((o.event ≡ none)
            ⊎ ((v : Write) × (o.event ≡ some (event v (pos 0)))
                × (v.filename ≡ key)
                × (v.fd ≡ fd))))

async_write-Written :
    (k : Kernel) (l : Loop) (filename content : List ℕ) (offset : ℤ) (callback : Callback)
    (w : Files)
    → refs filename w.open_write_files + 1 < 2 ^ 32
    → Written filename w (async_write k l filename content offset callback w)
unfolding async_write dispatch Written
async_write-Written k l filename content offset callback w small =
    elim (Bool-cases (length content == 0)) [
      | inl empty_content ↦ rw empty_content (inl (refl, refl))
      | inr some_content ↦ elim (Bool-cases (not (is_usable callback))) [
        | inl bad ↦ rw (some_content, bad) (inl (refl, refl))
        | inr good ↦ elim (Gains-entry k filename w small) [
          | inl closed ↦ rw (some_content, good, closed) (inl (refl, refl))
          | inr (fd, w', opened, g) ↦ elim (Bool-cases (l.accepts w'.dispatches)) [
            | inl taken ↦
                let v : Write = record {
                  filename = filename;
                  content = content;
                  fd = fd;
                  offset = elim offset [ pos n ↦ n | negsuc n ↦ 0 ];
                  callback = is_given callback;
                  lock = l.locks w'.dispatches;
                } in
                rw (some_content, good, opened, taken) (inr (fd, g, inr (v, refl, refl, refl)))
            | inr lost ↦ rw (some_content, good, opened, lost) (inr (fd, g, inl refl))
          ]
        ]
      ]
    ]

Inv-wrote :
    (n : ℕ) (key : List ℕ) (w : Files) (o : Started) (pending vs : List Write)
    → Inv n w.open_write_files pending
    → Written key w o
    → InFlight o.event vs
    → Inv (suc n) o.files.open_write_files (pending ++ vs)
unfolding Written
Inv-wrote n key w o pending vs i (inl (same, e)) f =
    let e' : vs ≡ [] = subst (λ x. InFlight x vs) e f in
    rw e' (Inv-same n w.open_write_files o.files.open_write_files pending same i)
Inv-wrote n key w o pending vs i (inr (fd, g, inl e)) f =
    Inv-gain n key fd w.open_write_files o.files.open_write_files pending vs i g
      (inl (subst (λ x. InFlight x vs) e f))
Inv-wrote n key w o pending vs i (inr (fd, g, inr (v, e, name, same))) f =
    let (u, e', one) = subst (λ x. InFlight x vs) e f in
    Inv-gain n key fd w.open_write_files o.files.open_write_files pending vs i g
      (inr (u, one, ap (λ x. x.object.filename) (sym e') ∙ name, ap (λ x. x.fd) (sym e') ∙ same))

-- What holds of one write in flight.
Placed-At : (m : Table) (xs ys : List Write) (v : Write) → Placed m (xs ++ (v ∷ ys)) → At m v
Placed-At m xs ys v p = (Placed-split m xs (v ∷ ys) p).1.0

refs_pos :
    (n : ℕ) (m : Table) (xs ys : List Write) (v : Write) (f : OpenFile)
    → Inv n m (xs ++ (v ∷ ys))
    → find v.filename m ≡ some f
    → (0 < f.refcount) × (f.refcount ≤ n)
refs_pos n m xs ys v f i known =
    let a = i.counted v.filename in
    let b = i.bounded v.filename in
    let c = refs-found v.filename m f known in
    let d = count-append v.filename xs (v ∷ ys) in
    let e = count-cons_self v.filename v ys refl in (omega arith, omega arith)

Inv-finished :
    (n : ℕ) (l : Loop) (r : ℤ) (w w' : Files) (xs ys : List Write) (v : Write)
    → n < 2 ^ 32
    → Inv n w.open_write_files (xs ++ (v ∷ ys))
    → completed l (event v r) w ≡ some (w', none)
    → Inv n w'.open_write_files (xs ++ ys)
Inv-finished n l r w w' xs ys v small i run =
    let m = w.open_write_files in
    let (f, known, same) = Placed-At m xs ys v i.placed in
    let (p, q) = refs_pos n m xs ys v f i known in
    let c = Completion-held l v r f w known in
    let e : ◌≡◌ {A = Option Next} (some (c.files, none)) (some (w', none)) = sym c.runs ∙ run in
    let e' : c.files ≡ w' = cc in
    subst (λ x. Inv n x.open_write_files (xs ++ ys)) e'
      (Inv-table n m c.files.open_write_files (release (event v r) f w).open_write_files xs ys v f i
        known (release-Loses v r f w known p (omega arith)) c.table)

Trace-Inv :
    {n : ℕ} {w : Files} {pending : List Write}
    → Trace n w pending
    → n < 2 ^ 32
    → Inv n w.open_write_files pending
Trace-Inv start small = Inv-start
Trace-Inv (wrote {n} {w} {pending} k l filename content offset callback vs t f) small =
    let i = Trace-Inv t (omega arith) in
    let b = i.bounded filename in
    Inv-wrote n filename w (async_write k l filename content offset callback w) pending vs i
      (async_write-Written k l filename content offset callback w (omega arith)) f
Trace-Inv (finished {n} {w} l r xs v ys w' t run) small =
    Inv-finished n l r w w' xs ys v small (Trace-Inv t small) run

-- In every history of calls of swoole_async_write and completions of writes in flight, in any
-- order, with any answers of PHP, the kernel and the pool and any values returned, that has fewer
-- than 2^32 calls, each write in flight has its entry in open_write_files, which has the write's
-- own descriptor; and its completion is defined, so that its refcount never points nowhere.
pub Trace-held :
    (n : ℕ) (w : Files) (xs : List Write) (v : Write) (ys : List Write)
    → Trace n w (xs ++ (v ∷ ys))
    → n < 2 ^ 32
    → At w.open_write_files v
      × ((l : Loop) (r : ℤ) → (w' : Files) × (completed l (event v r) w ≡ some (w', none)))
Trace-held n w xs v ys t small =
    let i = Trace-Inv t small in
    let (f, known, same) = Placed-At w.open_write_files xs ys v i.placed in
    ((f, known, same), λ l r. let c = Completion-held l v r f w known in (c.files, c.runs))
