-- ===== src/Files/Refcount.antt =====
-- The references to `open_write_files` of swoole_async.cc, over every order in which
-- swoole_async_write is called and aio_onFileCompleted completes the writes in flight.
pub mod Counts
pub mod Held
use async_ext.Prelude.{
  ℕ, zero, suc, ◌+◌, ◌-◌, ◌%◌, ◌^◌, ◌<◌, ◌≤◌, ◌≡◌, ◌⊎◌, inl, inr, refl, sym, ap, subst, ◌∙◌, Bool,
  true, false, Bool-cases, Option, Option-cases, none, some, List, [], ◌∷◌, ◌++◌, length, arith,
  ◌==◌, if◌then◌else◌, ◌>>=◌,
}
use async_ext.Prelude.Bytes.{str_eq, str_eq_self, str_eq→eq}
use async_ext.Prelude.Int.{ℤ, pos, negsuc}
use async_ext.Files.{
  FileRequest, AsyncEvent, OpenFile, Call, written, Files, Answer, failure, stop, go, Loop, find,
  update, erase, closing, free, release, close_file, advance, argument, call_back, settle, Next,
  completed_by, completed,
}
use async_ext.Files.Request.{
  Kernel, Callback, null, callable, uncallable, Started, refused, dispatch, writing, is_given,
  entry, async_write,
}
use async_ext.Files.Table.{
  Table, refs, find-update_self, find-update_ne, find-erase_self, find-erase_ne, find-append_self,
  find-append_ne,
}

-- A write in flight, and its event when so much was returned.
pub record Write : Type 0 where
  pub filename : List ℕ
  pub content : List ℕ
  pub fd : ℕ
  pub offset : ℕ
  pub callback : Bool
  pub lock : Bool

abbrev pub event : Write → ℤ → AsyncEvent
event v r = record {
  fd = v.fd;
  buf = v.content;
  nbytes = length v.content;
  offset = v.offset;
  lock = v.lock;
  retval = r;
  object = writing v.filename v.callback true false (length v.content) v.offset;
}

-- The writes in flight of a file.
unfoldable pub count : List ℕ → List Write → ℕ
count key [] = 0
count key (v ∷ vs) = let n = count key vs in if str_eq v.filename key then n + 1 else n

-- A reference more, and a reference less.
pub record Gains (key : List ℕ) (fd : ℕ) (m m' : Table) : Type 0 where
  pub file : OpenFile
  pub found : find key m' ≡ some file
  pub same_fd : file.fd ≡ fd
  pub more : file.refcount ≡ refs key m + 1
  pub before : (f : OpenFile) → find key m ≡ some f → f.fd ≡ fd
  pub others : (j : List ℕ) → str_eq key j ≡ false → find j m' ≡ find j m

pub record Loses (key : List ℕ) (f : OpenFile) (m m' : Table) : Type 0 where
  pub less : refs key m' ≡ f.refcount - 1
  pub kept : 1 < f.refcount → (g : OpenFile) × (find key m' ≡ some g) × (g.fd ≡ f.fd)
  pub others : (j : List ℕ) → str_eq key j ≡ false → find j m' ≡ find j m

-- A new entry, or one more reference to the entry there is, unless the file cannot be opened.
pub Gains-entry :
    (k : Kernel) (key : List ℕ) (w : Files)
    → refs key w.open_write_files + 1 < 2 ^ 32
    → (entry k key w ≡ none)
      ⊎ ((fd : ℕ) × (w' : Files) × (entry k key w ≡ some (fd, w'))
          × Gains key fd w.open_write_files w'.open_write_files)
unfolding entry
Gains-entry k key w small = elim (Option-cases (find key w.open_write_files)) [
  | inl fresh ↦ elim (Option-cases k.opened) [
    | inl closed ↦ inl (rw (fresh, entry, closed) refl)
    | inr (fd, opened) ↦
        let f : OpenFile = record { fd = fd; refcount = 1 } in
        inr (
          fd,
          record w { open_write_files = w.open_write_files ++ ((key, f) ∷ []) },
          rw (fresh, entry, opened) refl,
          record {
            file = f;
            found = find-append_self key f w.open_write_files fresh;
            same_fd = refl;
            more = rw (fresh, refs) refl;
            before = λ g e. let e' : none ≡ some g = sym fresh ∙ e in cc;
            others = λ j d. find-append_ne key j f w.open_write_files d;
          },
        )
  ]
  | inr (f, known) ↦
      let n : refs key w.open_write_files ≡ f.refcount = rw (known, refs) refl in
      let g : OpenFile = record f { refcount = (f.refcount + 1) % 2 ^ 32 } in
      inr (
        f.fd,
        record w { open_write_files = update key g w.open_write_files },
        rw (known, entry) refl,
        record {
          file = g;
          found = find-update_self key g f w.open_write_files known;
          same_fd = refl;
          more = omega arith;
          before = λ h e.
              let e' : some f ≡ some h = sym known ∙ e in
              let e'' : f ≡ h = cc in ap (λ x. x.fd) (sym e'');
          others = λ j d. find-update_ne key j g w.open_write_files d;
        },
      )
]

pub release-Loses :
    (v : Write) (r : ℤ) (f : OpenFile) (w : Files)
    → find v.filename w.open_write_files ≡ some f
    → 0 < f.refcount
    → f.refcount < 2 ^ 32
    → Loses v.filename f w.open_write_files (release (event v r) f w).open_write_files
unfolding release
release-Loses v r f w known p q =
    let key = v.filename in
    let m = w.open_write_files in
    let e : (f.refcount + 2 ^ 32 - 1) % 2 ^ 32 ≡ f.refcount - 1 = omega arith in
    elim (Bool-cases (f.refcount - 1 == 0)) [
      | inl last ↦
          let one : f.refcount ≡ 1 = ground arith in
          rw (e, last)
            (record {
              less = rw (find-erase_self key m, refs) (omega arith);
              kept = λ more. absurd (omega arith);
              others = λ j d. find-erase_ne key j m d;
            })
      | inr more ↦
          let g : OpenFile = record f { refcount = f.refcount - 1 } in
          rw (e, more)
            (record {
              less = rw (find-update_self key g f m known, refs) refl;
              kept = λ two. (g, find-update_self key g f m known, refl);
              others = λ j d. find-update_ne key j g m d;
            })
    ]

-- One completion of a write: the table stays, or a reference goes.
pub record Completion (l : Loop) (v : Write) (r : ℤ) (f : OpenFile) (w : Files) : Type 0 where
  pub files : Files
  pub runs : completed l (event v r) w ≡ some (files, none)
  pub table :
      (files.open_write_files ≡ w.open_write_files)
      ⊎ (files.open_write_files ≡ (release (event v r) f w).open_write_files)

advance-write : (v : Write) (r : ℤ) → advance (event v r) ≡ (event v r).object
unfolding advance
advance-write v (negsuc n) = refl
advance-write v (pos n) = elim (Bool-cases (n == 0)) [
  | inl nothing ↦ rw nothing refl
  | inr some_more ↦ rw some_more refl
]

-- `w` with more calls in its history.
abbrev heard : List Call → Files → Files
heard calls w = record w { calls = calls }

released :
    (v : Write) (r : ℤ) (f : OpenFile) (w : Files) (calls : List Call)
    → (release (event v r) f (heard calls w)).open_write_files
      ≡ (release (event v r) f w).open_write_files
unfolding release
released v r f w calls = ground arith

settle-write :
    (l : Loop) (again : AsyncEvent → Files → Option Next) (v : Write) (r : ℤ) (f : OpenFile)
    (w : Files) (calls : List Call) (a : Answer)
    → find v.filename w.open_write_files ≡ some f
    → (w' : Files) × (settle l again (event v r) (event v r).object (a, heard calls w)
        ≡ some (w', none))
      × ((w'.open_write_files ≡ w.open_write_files)
          ⊎ (w'.open_write_files ≡ (release (event v r) f w).open_write_files))
unfolding settle close_file
settle-write l again v r f w calls failure known = (heard calls w, refl, inl refl)
settle-write l again v r f w calls stop known =
    (free (release (event v r) f (heard calls w)), rw known refl, inr (released v r f w calls))
settle-write l again v r f w calls go known = (free (heard calls w), refl, inl refl)

completed-settle :
    (l : Loop) (v : Write) (r : ℤ) (w : Files) (calls : List Call) (a : Answer)
    → call_back l (event v r) w ≡ (a, heard calls w)
    → completed l (event v r) w
      ≡ settle l
          (completed_by l (λ ev' w'. some (w', none)))
          (event v r)
          (event v r).object
          (a, heard calls w)
unfolding completed completed_by
completed-settle l v r w calls a e =
    ap (settle l (completed_by l (λ ev' w'. some (w', none))) (event v r) (advance (event v r))) e
    ∙ ap
        (λ q.
          settle l (completed_by l (λ ev' w'. some (w', none))) (event v r) q (a, heard calls w))
        (advance-write v r)

call_back-heard :
    (l : Loop) (v : Write) (r : ℤ) (w : Files)
    → (calls : List Call) × (a : Answer) × (call_back l (event v r) w ≡ (a, heard calls w))
unfolding call_back
call_back-heard l v r w = elim (Bool-cases v.callback) [
  | inl given ↦ (w.calls ++ (written r ∷ []), l.answer (length w.calls), rw given refl)
  | inr missing ↦ (w.calls, go, rw missing refl)
]

pub Completion-held :
    (l : Loop) (v : Write) (r : ℤ) (f : OpenFile) (w : Files)
    → find v.filename w.open_write_files ≡ some f
    → Completion l v r f w
Completion-held l v r f w known =
    let (calls, a, e) = call_back-heard l v r w in
    let (w', run, table) =
      settle-write l (completed_by l (λ ev' w'. some (w', none))) v r f w calls a known in
    record { files = w'; runs = completed-settle l v r w calls a e ∙ run; table = table }
