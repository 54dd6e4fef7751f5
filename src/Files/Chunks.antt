-- ===== src/Files/Chunks.antt =====
-- A read of swoole_async.cc from swoole_async_read to the last call of the callback: handler_read and
-- aio_onFileCompleted in turn.
use async_ext.Prelude.{
  ℕ, zero, suc, ◌+◌, ◌-◌, ◌<◌, ◌≤◌, ◌≡◌, min, refl, sym, ap, subst, ◌∙◌, Bool, true, Option, none,
  some, List, [], ◌∷◌, ◌++◌, append_assoc, append-nil, map, take, drop, length, length-take,
  length-drop, take-append-drop, take-ge, drop-drop, length-zero, arith, lt→not-leb, ◌>>=◌,
}
use native.Mathlib.Decide.{dec_lt}
use async_ext.Prelude.Int.{pos}
use async_ext.Files.{AsyncEvent, content, Files, Loop, Sys, handler_read, completed}
use async_ext.Files.Request.{Limits, Kernel, Started, dispatch, async_read}
use async_ext.Files.Round.{
  Reads, handler_read-Reads, reader, called, ended, waiting, IsWilling, completed-empty,
  completed-short, completed-full,
}

-- The pool and the event loop in turn, until no event is left. `pread` is the kernel's answers to the
-- calls that an event makes.
unfoldable pub run : ℕ → Loop → (AsyncEvent → List Sys) → AsyncEvent → Files → Option Files
run zero l pread ev w = none
run (suc fuel) l pread ev w = handler_read true (pread ev) ev >>= λ ev'. completed l ev' w >>= λ r.
    elim (r.1) [ none ↦ some r.0 | some next ↦ run fuel l pread next r.0 ]

-- The texts of a list, one after another.
abbrev pub concat : List (List ℕ) → List ℕ
concat [] = []
concat (x ∷ xs) = x ++ concat xs

-- The callback has had the parts of `rest` in their order and then the empty text; the descriptor is
-- closed, and the request is freed.
pub record Delivered (fd : ℕ) (rest : List ℕ) (w w' : Files) : Type 0 where
  pub parts : List (List ℕ)
  pub whole : concat parts ≡ rest
  pub heard : w'.calls ≡ w.calls ++ (map content parts ++ (content [] ∷ []))
  pub closes : w'.closed ≡ w.closed ++ (fd ∷ [])
  pub frees : w'.freed ≡ w.freed + 1
  pub same : w'.open_write_files ≡ w.open_write_files

Delivered-part :
    (fd : ℕ) (got rest : List ℕ) (n : ℕ) (w w' : Files)
    → Delivered fd rest (record (called got w) { dispatches = n }) w'
    → Delivered fd (got ++ rest) w w'
Delivered-part fd got rest n w w' d = record {
  parts = got ∷ d.parts;
  whole = ap (λ r. got ++ r) d.whole;
  heard =
      d.heard ∙ append_assoc w.calls (content got ∷ []) (map content d.parts ++ (content [] ∷ []));
  closes = d.closes;
  frees = d.frees;
  same = d.same;
}

run-ends :
    (l : Loop) (pread : AsyncEvent → List Sys) (fuel : ℕ) (ev ev' : AsyncEvent) (w w' : Files)
    → handler_read true (pread ev) ev ≡ some ev'
    → completed l ev' w ≡ some (w', none)
    → run (suc fuel) l pread ev w ≡ some w'
unfolding run
run-ends l pread fuel ev ev' w w' a b = rw (a, b) refl

run-goes :
    (l : Loop) (pread : AsyncEvent → List Sys) (fuel : ℕ) (ev ev' next : AsyncEvent) (w w' : Files)
    → handler_read true (pread ev) ev ≡ some ev'
    → completed l ev' w ≡ some (w', some next)
    → run (suc fuel) l pread ev w ≡ run fuel l pread next w'
unfolding run
run-goes l pread fuel ev ev' next w w' a b = rw (a, b) refl

module _ (l : Loop) (g : IsWilling l) (pread : AsyncEvent → List Sys) (bytes : List ℕ)
    (reads : (ev : AsyncEvent) → Reads bytes ev (pread ev)) (fd : ℕ) (filename : List ℕ)
    (len size : ℕ) (pos_size : 0 < size) where
  run-Delivered :
      (fuel offset : ℕ) (lock : Bool) (old : List ℕ) (w : Files)
      → offset ≤ length bytes
      → length bytes < fuel + offset
      → (w' : Files) × (run fuel l pread (waiting fd filename len size offset lock old) w ≡ some w')
        × Delivered fd (drop offset bytes) w w'
  run-Delivered zero offset lock old w a b = absurd (omega arith)
  run-Delivered (suc fuel) offset lock old w a b =
      let ev = waiting fd filename len size offset lock old in
      let got = take size (drop offset bytes) in
      let n : length got ≡ min size (length bytes - offset) =
        length-take size (drop offset bytes) ∙ ap (min size) (length-drop offset bytes) in
      let read = handler_read-Reads bytes ev (pread ev) (reads ev) in
      elim (dec_lt (length got) 1) [
        | yes empty ↦
            let e : got ≡ [] = length-zero got (omega arith) in
            let e' : drop offset bytes ≡ [] =
              length-zero (drop offset bytes) (omega (arith, length-drop offset bytes)) in
            (
              ended fd w,
              run-ends l pread fuel ev (reader fd filename len size offset lock []) w (ended fd w)
                  (read ∙ ap (λ x. some (reader fd filename len size offset lock x)) e)
                  (completed-empty l g fd filename len size lock offset w),
              record {
                parts = [];
                whole = sym e';
                heard = refl;
                closes = refl;
                frees = refl;
                same = refl;
              },
            )
        | no more ↦ elim (dec_lt (length got) size) [
          | yes short ↦ (
            ended fd (called got w),
            run-ends l pread fuel ev (reader fd filename len size offset lock got) w
                (ended fd (called got w)) read
                (completed-short l g fd filename len size lock offset got w (omega arith) short),
            subst (λ r. Delivered fd r w (ended fd (called got w)))
                (append-nil got
                  ∙ take-ge size (drop offset bytes) (omega (arith, length-drop offset bytes)))
                (Delivered-part fd got [] w.dispatches w (ended fd (called got w)) (record {
                  parts = [];
                  whole = refl;
                  heard = refl;
                  closes = refl;
                  frees = refl;
                  same = refl;
                })),
          )
          | no full ↦
              let e : length got ≡ size = omega arith in
              let w1 : Files = record (called got w) { dispatches = w.dispatches + 1 } in
              let next =
                waiting fd filename len size (offset + length got) (l.locks w.dispatches) got in
              let (w', ran, d) =
                run-Delivered fuel (offset + length got) (l.locks w.dispatches) got w1 (omega arith)
                  (omega arith) in
              (
                w',
                run-goes l pread fuel ev (reader fd filename len size offset lock got) next w w1
                      read
                      (completed-full l g fd filename len size lock offset got w (omega arith) e)
                    ∙ ran,
                subst (λ r. Delivered fd r w w')
                    (ap (λ r. got ++ r)
                        (ap (λ k. drop (offset + k) bytes) e ∙ sym (drop-drop offset size bytes))
                      ∙ take-append-drop size (drop offset bytes))
                    (Delivered-part fd got (drop (offset + length got) bytes) (w.dispatches + 1) w
                      w' d),
              )
        ]
      ]

-- When swoole_async_read opens a file of which pread gives the bytes after any number of
-- interrupts, at an offset inside it, with a positive buffer and a positive limit for it, and the
-- pool takes every event and no call of the callback returns false, then it returns true, and with
-- at least one round more than there are bytes to read the reading ends: the callback has had
-- parts that make up the rest of the file, in their order, and then the empty text, the descriptor
-- is closed once, the request is freed once, and the table of files open for writing is as it was.
pub async_read-Delivered :
    (s : Limits) (k : Kernel) (l : Loop) (pread : AsyncEvent → List Sys) (bytes filename : List ℕ)
    (fd n offset fuel : ℕ) (w : Files)
    → IsWilling l
    → ((ev : AsyncEvent) → Reads bytes ev (pread ev))
    → k.opened ≡ some fd
    → k.st_size ≡ some (length bytes)
    → offset < length bytes
    → 0 < n
    → 0 < s.max_chunk_size
    → length bytes < fuel + offset
    → (o : Started) × (ev : AsyncEvent) × (w' : Files) × (async_read s k l filename true
          (pos n)
          (pos offset)
          w
        ≡ some o)
      × (o.ok ≡ true)
      × (o.event ≡ some ev)
      × (run fuel l pread ev o.files ≡ some w')
      × Delivered fd (drop offset bytes) w w'
unfolding async_read dispatch
async_read-Delivered s k l pread bytes filename fd n offset fuel w g reads e0 e1 inside pos_n
      pos_max enough =
    let size = min n s.max_chunk_size in
    let w0 : Files = record w { dispatches = w.dispatches + 1 } in
    let ev = waiting fd filename size size offset (l.locks w.dispatches) [] in
    let (w', ran, d) =
      run-Delivered l g pread bytes reads fd filename size size (omega arith) fuel offset
        (l.locks w.dispatches) [] w0 (omega arith) enough in
    let o : Started = record { ok = true; files = w0; event = some ev } in
    (
      o,
      ev,
      w',
      rw (e0, e1, lt→not-leb (length bytes) offset inside, g.accepts w.dispatches) refl,
      refl,
      refl,
      ran,
      record {
        parts = d.parts;
        whole = d.whole;
        heard = d.heard;
        closes = d.closes;
        frees = d.frees;
        same = d.same;
      },
    )
