-- ===== src/Files.antt =====
-- swoole_async.cc, the file functions: handler_read and handler_write in a thread of the core's pool,
-- aio_onFileCompleted in the event loop, and the requests swoole_async_read, _write, _readfile and
-- _writefile. The answers of the kernel, of the thread pool and of PHP callbacks are parameters.
pub mod Request
pub mod Round
pub mod Chunks
pub mod Table
pub mod Refcount
mod Tests
use async_ext.Prelude.{
  ℕ, zero, suc, ◌+◌, ◌-◌, ◌*◌, ◌%◌, ◌^◌, Bool, true, false, not, ◌&&◌, ◌||◌, Option, none, some,
  List, [], ◌∷◌, ◌++◌, length, take, ltb, ◌==◌, if◌then◌else◌, ◌>>=◌,
}
use async_ext.Prelude.Int.{ℤ, pos, negsuc, ltb_ℤ}
use async_ext.Prelude.Bytes.{str_eq}

-- `file_request`; `counted` says that `refcount` points into the entry of `filename` in
-- `open_write_files`, and `callback` that it is not null.
pub record FileRequest : Type 0 where
  pub callback : Bool
  pub filename : List ℕ
  pub counted : Bool
  pub offset : ℕ
  pub once : Bool
  pub read_op : Bool
  pub length : ℕ

-- `AsyncEvent`; `buf` is what the buffer holds, and `object` the request.
pub record AsyncEvent : Type 0 where
  pub fd : ℕ
  pub buf : List ℕ
  pub nbytes : ℕ
  pub offset : ℕ
  pub lock : Bool
  pub retval : ℤ
  pub object : FileRequest

-- An entry of `open_write_files`.
pub record OpenFile : Type 0 where
  pub fd : ℕ
  pub refcount : ℕ

-- The second argument of a callback.
pub data Call : Type 0 where
  content : List ℕ → Call
  written : ℤ → Call

-- The table of open files, the calls of callbacks in their order, the descriptors that were closed,
-- the requests that were freed, and the events given to the pool.
pub record Files : Type 0 where
  pub open_write_files : List (List ℕ × OpenFile)
  pub calls : List Call
  pub closed : List ℕ
  pub freed : ℕ
  pub dispatches : ℕ

-- What a call of a callback comes to: it fails, or it returns false, or anything else.
pub data Answer : Type 0 where
  failure : Answer
  stop : Answer
  go : Answer

-- The n-th call of a callback; whether the n-th event is accepted by the pool, and its byte `lock`,
-- which no code sets.
pub record Loop : Type 0 where
  pub answer : ℕ → Answer
  pub accepts : ℕ → Bool
  pub locks : ℕ → Bool

-- The kernel's answers to one call: interrupted, failed, or so many bytes of data read or written.
pub data Sys : Type 0 where
  eintr : Sys
  error : Sys
  done : List ℕ → Sys

-- The loops of handler_read and handler_write; without an answer they do not end.
unfoldable pub retry : List Sys → Option Sys
retry [] = none
retry (eintr ∷ rest) = retry rest
retry (error ∷ rest) = some error
retry (done bytes ∷ rest) = some (done bytes)

unfoldable pub returned : AsyncEvent → Sys → AsyncEvent
returned ev eintr = record ev { retval = negsuc 0 }
returned ev error = record ev { retval = negsuc 0 }
returned ev (done bytes) = record ev { buf = bytes; retval = pos (length bytes) }

-- `handler_read`. `locks` is whether `flock` works.
unfoldable pub handler_read : Bool → List Sys → AsyncEvent → Option AsyncEvent
unfolding retry returned
handler_read locks results ev =
    if ev.lock && not locks
    then some (record ev { retval = negsuc 0 })
    else retry results >>= λ r. some (returned ev r)

unfoldable pub wrote : AsyncEvent → Sys → AsyncEvent
wrote ev eintr = record ev { retval = negsuc 0 }
wrote ev error = record ev { retval = negsuc 0 }
wrote ev (done bytes) = record ev { retval = pos (length bytes) }

-- `handler_write`, which leaves `retval` as it is where `flock` fails.
unfoldable pub handler_write : Bool → List Sys → AsyncEvent → Option AsyncEvent
unfolding retry wrote
handler_write locks results ev =
    if ev.lock && not locks then some ev else retry results >>= λ r. some (wrote ev r)

-- The entry of a file, and the table with another count for it, or without it.
unfoldable pub find : List ℕ → List (List ℕ × OpenFile) → Option OpenFile
find key [] = none
find key ((k, f) ∷ rest) = if str_eq k key then some f else find key rest

unfoldable pub update : List ℕ → OpenFile → List (List ℕ × OpenFile) → List (List ℕ × OpenFile)
update key f [] = []
update key f ((k, g) ∷ rest) = if str_eq k key then (k, f) ∷ rest else (k, g) ∷ update key f rest

unfoldable pub erase : List ℕ → List (List ℕ × OpenFile) → List (List ℕ × OpenFile)
erase key [] = []
erase key ((k, g) ∷ rest) =
    let others = erase key rest in if str_eq k key then others else (k, g) ∷ others

abbrev pub closing : ℕ → Files → Files
closing fd w = record w { closed = w.closed ++ (fd ∷ []) }

-- `php_swoole_file_request_free`
abbrev pub free : Files → Files
free w = record w { freed = w.freed + 1 }

-- One reference less, and what follows from it.
unfoldable pub release : AsyncEvent → OpenFile → Files → Files
unfolding update erase
release ev f w =
    let key = ev.object.filename in
    let n = (f.refcount + 2 ^ 32 - 1) % 2 ^ 32 in
    if n == 0
    then closing ev.fd (record w { open_write_files = erase key w.open_write_files })
    else record w { open_write_files = update key (record f { refcount = n }) w.open_write_files }

-- From the label `close_file` on. `none` is a `refcount` that points nowhere.
unfoldable pub close_file : AsyncEvent → Files → Option Files
unfolding find release
close_file ev w =
    if ev.object.counted
    then (find ev.object.filename w.open_write_files >>= λ f. some (free (release ev f w)))
    else some (free (closing ev.fd w))

-- The request behind the tests of `ret`.
unfoldable pub advance : AsyncEvent → FileRequest
advance ev = elim ev.retval [
  | negsuc n ↦ ev.object
  | pos ret ↦
      if ret == 0
      then ev.object
      else if ev.object.once && ltb ret ev.object.length
      then ev.object
      else if ev.object.read_op
      then record ev.object { offset = ev.object.offset + ret }
      else ev.object
]

unfoldable pub argument : AsyncEvent → Call
argument ev =
    if ev.object.read_op
    then elim ev.retval [ negsuc n ↦ content [] | pos ret ↦ content (take ret ev.buf) ]
    else written ev.retval

-- The call of the callback, if there is one; without one nothing is returned.
unfoldable pub call_back : Loop → AsyncEvent → Files → Answer × Files
unfolding argument
call_back l ev w =
    if ev.object.callback
    then (l.answer (length w.calls), record w { calls = w.calls ++ (argument ev ∷ []) })
    else (go, w)

abbrev pub is_stop : Answer → Bool
is_stop failure = false
is_stop stop = true
is_stop go = false

-- The next event of a read.
abbrev pub continued : Bool → AsyncEvent → FileRequest → AsyncEvent
continued lock ev req = record {
  fd = ev.fd;
  buf = ev.buf;
  nbytes = ev.nbytes;
  offset = req.offset;
  lock = lock;
  retval = pos 0;
  object = req;
}

abbrev pub Next : Type 0
Next = Files × Option AsyncEvent

abbrev pub ending : Option Files → Option Next
ending o = o >>= λ w. some (w, none)

-- A read goes on in the pool, or closes the file if the pool does not take it.
unfoldable pub go_on : Loop → AsyncEvent → FileRequest → Files → Option Next
unfolding close_file
go_on l ev req w =
    let w' = record w { dispatches = w.dispatches + 1 } in
    if l.accepts w.dispatches
    then some (w', some (continued (l.locks w.dispatches) ev req))
    else ending (close_file ev w')

-- Behind the call of the callback; `again` is the recursive call.
unfoldable pub settle :
    Loop
    → (AsyncEvent → Files → Option Next)
    → AsyncEvent
    → FileRequest
    → Answer × Files
    → Option Next
unfolding close_file go_on
settle l again ev req (failure, w) = some (w, none)
settle l again ev req (a, w) =
    if req.once
    then ending (close_file ev w)
    else if not req.read_op
    then (if is_stop a then ending (close_file ev w) else some (free w, none))
    else if is_stop a || elim ev.retval [ pos n ↦ n == 0 | negsuc n ↦ false ]
    then ending (close_file ev w)
    else if ltb_ℤ ev.retval (pos ev.nbytes)
    then again (record ev { retval = pos 0; object = req }) w
    else go_on l ev req w

unfoldable pub completed_by :
    Loop → (AsyncEvent → Files → Option Next) → AsyncEvent → Files → Option Next
unfolding advance call_back settle
completed_by l again ev w = settle l again ev (advance ev) (call_back l ev w)

-- `aio_onFileCompleted`, with the event that it gives to the pool. It calls itself at most once,
-- with nothing returned, and then the file is closed.
unfoldable pub completed : Loop → AsyncEvent → Files → Option Next
unfolding completed_by
completed l ev w = completed_by l (completed_by l (λ ev' w'. some (w', none))) ev w
