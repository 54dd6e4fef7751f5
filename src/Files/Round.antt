-- ===== src/Files/Round.antt =====
-- One round of a read of swoole_async.cc: handler_read on a file, and aio_onFileCompleted for what it
-- returned.
use async_ext.Prelude.{
  ℕ, ◌+◌, ◌<◌, ◌≡◌, refl, Bool, true, false, ◌&&◌, Option, none, some, List, [], ◌∷◌, ◌++◌, take,
  drop, length, take-length, arith, ltb, lt→ltb, le→not-ltb, ◌==◌,
}
use async_ext.Prelude.Int.{pos}
use async_ext.Files.{
  AsyncEvent, content, Files, go, Loop, Sys, eintr, error, done, retry, handler_read, close_file,
  closing, free, Next, settle, go_on, completed_by, completed,
}
use async_ext.Files.Request.{reading}

-- The documented behaviour of `pread` on a file of these bytes, after any number of interrupts.
abbrev pub Reads : List ℕ → AsyncEvent → List Sys → Type 0
Reads bytes ev [] = ⊥
Reads bytes ev (eintr ∷ rest) = Reads bytes ev rest
Reads bytes ev (error ∷ rest) = ⊥
Reads bytes ev (done got ∷ rest) = got ≡ take ev.nbytes (drop ev.offset bytes)

retry-Reads :
    (bytes : List ℕ) (ev : AsyncEvent) (results : List Sys)
    → Reads bytes ev results
    → retry results ≡ some (done (take ev.nbytes (drop ev.offset bytes)))
unfolding retry
retry-Reads bytes ev [] h = absurd h
retry-Reads bytes ev (eintr ∷ rest) h = retry-Reads bytes ev rest h
retry-Reads bytes ev (error ∷ rest) h = absurd h
retry-Reads bytes ev (done got ∷ rest) h = rw h refl

and_false : (b : Bool) → (b && false) ≡ false
and_false true = refl
and_false false = refl

pub handler_read-Reads :
    (bytes : List ℕ) (ev : AsyncEvent) (results : List Sys)
    → Reads bytes ev results
    → let got = take ev.nbytes (drop ev.offset bytes) in
      handler_read true results ev ≡ some (record ev { buf = got; retval = pos (length got) })
unfolding handler_read
handler_read-Reads bytes ev results h = rw (and_false ev.lock, retry-Reads bytes ev results h) refl

-- The event of a read at `offset`, for `size` bytes, when so many have come.
abbrev pub reader : ℕ → List ℕ → ℕ → ℕ → ℕ → Bool → List ℕ → AsyncEvent
reader fd filename len size offset lock got = record {
  fd = fd;
  buf = got;
  nbytes = size;
  offset = offset;
  lock = lock;
  retval = pos (length got);
  object = reading filename false len offset;
}

-- The state behind a call of the callback, and behind the last one.
abbrev pub called : List ℕ → Files → Files
called got w = record w { calls = w.calls ++ (content got ∷ []) }

abbrev pub ended : ℕ → Files → Files
ended fd w = free (closing fd (called [] w))

abbrev pub waiting : ℕ → List ℕ → ℕ → ℕ → ℕ → Bool → List ℕ → AsyncEvent
waiting fd filename len size offset lock old = record {
  fd = fd;
  buf = old;
  nbytes = size;
  offset = offset;
  lock = lock;
  retval = pos 0;
  object = reading filename false len offset;
}

-- Every call of the callback returns something other than false, and the pool takes every event.
pub record IsWilling (l : Loop) : Type 0 where
  pub goes : (n : ℕ) → l.answer n ≡ go
  pub accepts : (n : ℕ) → l.accepts n ≡ true

module _ (l : Loop) (g : IsWilling l) (fd : ℕ) (filename : List ℕ) (len size : ℕ)
    (lock : Bool) where
  -- An event with nothing returned; `at` is the request's offset.
  abbrev nothing : ℕ → ℕ → List ℕ → AsyncEvent
  nothing offset at old = record {
    fd = fd;
    buf = old;
    nbytes = size;
    offset = offset;
    lock = lock;
    retval = pos 0;
    object = reading filename false len at;
  }

  completed_by-nothing :
      (again : AsyncEvent → Files → Option Next) (offset at : ℕ) (old : List ℕ) (w : Files)
      → completed_by l again (nothing offset at old) w ≡ some (ended fd w, none)
  unfolding completed_by close_file
  completed_by-nothing again offset at old w = rw (g.goes (length w.calls)) refl

  pub completed-empty :
      (offset : ℕ) (w : Files)
      → completed l (reader fd filename len size offset lock []) w ≡ some (ended fd w, none)
  unfolding completed
  completed-empty offset w =
      completed_by-nothing (completed_by l (λ ev' w'. some (w', none))) offset offset [] w

  pub completed-short :
      (offset : ℕ) (got : List ℕ) (w : Files)
      → 0 < length got
      → length got < size
      → completed l (reader fd filename len size offset lock got) w
        ≡ some (ended fd (called got w), none)
  unfolding completed settle
  completed-short offset got w p q =
      let e : (length got == 0) ≡ false = ground arith in
      let e' : ltb (length got + 0) (size + 0) ≡ true = lt→ltb _ _ (omega arith) in
      rw (g.goes (length w.calls), take-length got, e, e')
        (completed_by-nothing (λ ev' w'. some (w', none)) offset (offset + length got) got
          (called got w))

  pub completed-full :
      (offset : ℕ) (got : List ℕ) (w : Files)
      → 0 < length got
      → length got ≡ size
      → completed l (reader fd filename len size offset lock got) w
        ≡ some (
          record (called got w) { dispatches = w.dispatches + 1 },
          some (waiting fd filename len size (offset + length got) (l.locks w.dispatches) got),
        )
  unfolding completed settle go_on
  completed-full offset got w p q =
      let e : (length got == 0) ≡ false = ground arith in
      let e' : ltb (length got + 0) (size + 0) ≡ false = le→not-ltb _ _ (omega arith) in
      rw (g.goes (length w.calls), take-length got, e, e', g.accepts w.dispatches) refl
