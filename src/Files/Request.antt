-- ===== src/Files/Request.antt =====
-- swoole_async_read, swoole_async_write, swoole_async_readfile and swoole_async_writefile of
-- swoole_async.cc. `none` as an outcome is the fatal error of an allocation of negative size.
use async_ext.Prelude.{
  ℕ, ◌+◌, ◌%◌, ◌^◌, min, Bool, true, false, not, Option, none, some, List, [], ◌∷◌, ◌++◌, length,
  ltb, leb, ◌==◌, if◌then◌else◌, ◌>>=◌,
}
use async_ext.Prelude.Int.{ℤ, pos, negsuc}
use async_ext.Files.{FileRequest, AsyncEvent, Files, Loop, find, update, closing}

-- What the kernel answers: the descriptor of `open`, and `st_size` of `fstat`; nothing is an error.
pub record Kernel : Type 0 where
  pub opened : Option ℕ
  pub st_size : Option ℕ

-- SW_AIO_MAX_CHUNK_SIZE and SW_AIO_MAX_FILESIZE of the core.
pub record Limits : Type 0 where
  pub max_chunk_size : ℕ
  pub max_filesize : ℕ

-- A callback that is not given, one that can be called, and something that cannot.
pub data Callback : Type 0 where
  null : Callback
  callable : Callback
  uncallable : Callback

-- What a function returns to PHP, the state, and the event in the pool.
pub record Started : Type 0 where
  pub ok : Bool
  pub files : Files
  pub event : Option AsyncEvent

abbrev pub refused : Files → Started
refused w = record { ok = false; files = w; event = none }

-- `dispatch`: what the pool does not take is lost.
unfoldable pub dispatch : Loop → ℕ → List ℕ → ℕ → FileRequest → Files → Started
dispatch l fd buf nbytes req w =
    let w' = record w { dispatches = w.dispatches + 1 } in
    let ev : AsyncEvent = record {
      fd = fd;
      buf = buf;
      nbytes = nbytes;
      offset = req.offset;
      lock = l.locks w.dispatches;
      retval = pos 0;
      object = req;
    } in
    if l.accepts w.dispatches then record { ok = true; files = w'; event = some ev } else refused w'

abbrev pub reading : List ℕ → Bool → ℕ → ℕ → FileRequest
reading filename once length offset = record {
  callback = true;
  filename = filename;
  counted = false;
  offset = offset;
  once = once;
  read_op = true;
  length = length % 2 ^ 32;
}

-- The buffer of a read: SW_AIO_MAX_CHUNK_SIZE at most, and a fatal error for a negative size.
unfoldable pub read_buffer : Limits → Loop → List ℕ → ℤ → ℕ → ℕ → Files → Option Started
unfolding dispatch
read_buffer s l filename (negsuc n) offset fd w = none
read_buffer s l filename (pos n) offset fd w =
    let size = min n s.max_chunk_size in
    some (dispatch l fd [] size (reading filename false size offset) w)

unfoldable pub read_opened : Limits → Loop → List ℕ → ℤ → ℕ → Option ℕ → ℕ → Files → Option Started
unfolding read_buffer
read_opened s l filename buf_size offset none fd w = some (refused (closing fd w))
read_opened s l filename buf_size offset (some st_size) fd w =
    if leb st_size offset
    then some (refused (closing fd w))
    else read_buffer s l filename buf_size offset fd w

-- `swoole_async_read`
unfoldable pub async_read : Limits → Kernel → Loop → List ℕ → Bool → ℤ → ℤ → Files → Option Started
unfolding read_opened
async_read s k l filename is_callable buf_size (negsuc n) w = some (refused w)
async_read s k l filename is_callable buf_size (pos offset) w =
    if not is_callable then some (refused w) else elim k.opened [
      | none ↦ some (refused w)
      | some fd ↦ read_opened s l filename buf_size offset k.st_size fd w
    ]

abbrev pub writing : List ℕ → Bool → Bool → Bool → ℕ → ℕ → FileRequest
writing filename callback counted once length offset = record {
  callback = callback;
  filename = filename;
  counted = counted;
  offset = offset;
  once = once;
  read_op = false;
  length = length % 2 ^ 32;
}

abbrev pub is_given : Callback → Bool
is_given null = false
is_given callable = true
is_given uncallable = true

abbrev pub is_usable : Callback → Bool
is_usable null = true
is_usable callable = true
is_usable uncallable = false

-- The entry for a file: the one there is, counted once more, or a new one.
unfoldable pub entry : Kernel → List ℕ → Files → Option (ℕ × Files)
unfolding find update
entry k key w = elim (find key w.open_write_files) [
  | some f ↦ some (
    f.fd,
    record w {
      open_write_files =
          update key (record f { refcount = (f.refcount + 1) % 2 ^ 32 }) w.open_write_files;
    },
  )
  | none ↦ k.opened >>= λ fd. some (
    fd,
    record w {
      open_write_files = w.open_write_files ++ ((key, record { fd = fd; refcount = 1 }) ∷ []);
    },
  )
]

-- `swoole_async_write`. A negative offset is 0 before the test that would open for appending.
unfoldable pub async_write : Kernel → Loop → List ℕ → List ℕ → ℤ → Callback → Files → Started
unfolding entry dispatch
async_write k l filename content offset callback w =
    let at : ℕ = elim offset [ pos n ↦ n | negsuc n ↦ 0 ] in
    let n = length content in
    let req = writing filename (is_given callback) true false n at in
    if n == 0
    then refused w
    else if not (is_usable callback)
    then refused w
    else elim (entry k filename w) [ none ↦ refused w | some r ↦ dispatch l r.0 content n req r.1 ]

unfoldable pub readfile_opened : Limits → Loop → List ℕ → Bool → Option ℕ → ℕ → Files → Started
unfolding dispatch
readfile_opened s l filename is_callable st_size fd w =
    if not is_callable then refused (closing fd w) else elim st_size [
      | none ↦ refused (closing fd w)
      | some n ↦
          if n == 0
          then refused (closing fd w)
          else if ltb s.max_filesize n
          then refused (closing fd w)
          else dispatch l fd [] n (reading filename true n 0) w
    ]

-- `swoole_async_readfile`
unfoldable pub async_readfile : Limits → Kernel → Loop → List ℕ → Bool → Files → Started
unfolding readfile_opened
async_readfile s k l filename is_callable w = elim k.opened [
  | none ↦ refused w
  | some fd ↦ readfile_opened s l filename is_callable k.st_size fd w
]

-- `swoole_async_writefile`; the flags go to `open`.
unfoldable pub async_writefile :
    Limits → Kernel → Loop → List ℕ → List ℕ → Callback → Files → Started
unfolding dispatch
async_writefile s k l filename content callback w =
    let n = length content in
    if n == 0
    then refused w
    else if ltb s.max_filesize n
    then refused w
    else if not (is_usable callback)
    then refused w
    else elim k.opened [
      | none ↦ refused w
      | some fd ↦ dispatch l fd content n (writing filename (is_given callback) false true n 0) w
    ]
