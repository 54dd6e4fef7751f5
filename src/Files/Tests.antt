-- ===== src/Files/Tests.antt =====
-- Tests of the model of the file functions of swoole_async.cc, and instances of its theorems.
use async_ext.Prelude.{
  ℕ, ◌≡◌, refl, true, false, Option, none, some, List, [], ◌∷◌, take, drop, arith, ◌>>=◌,
}
use async_ext.Prelude.Int.{ℤ, pos, negsuc}
use async_ext.Files.{
  AsyncEvent, Call, content, Files, go, Loop, Sys, eintr, done, handler_read, completed,
}
use async_ext.Files.Request.{Limits, Kernel, null, Started, async_read, async_write}
use async_ext.Files.Chunks.{Delivered, run, async_read-Delivered}
use async_ext.Files.Refcount.{Write, event}
use async_ext.Files.Refcount.Counts.{At}
use async_ext.Files.Refcount.Held.{empty, Trace, start, wrote, Trace-held}

abbrev limits : Limits
limits = record { max_chunk_size = 1048576; max_filesize = 4194304 }

abbrev kernel : Kernel
kernel = record { opened = some 7; st_size = some 5 }

abbrev loop : Loop
loop = record { answer = λ n. go; accepts = λ n. true; locks = λ n. false }

abbrev bytes : List ℕ
bytes = 10 ∷ 11 ∷ 12 ∷ 13 ∷ 14 ∷ []

abbrev name : List ℕ
name = 97 ∷ []

-- The kernel interrupts each call once.
abbrev pread : AsyncEvent → List Sys
pread ev = eintr ∷ done (take ev.nbytes (drop ev.offset bytes)) ∷ []

abbrev history : Option Files → List Call
history none = []
history (some w) = w.calls

abbrev pool : Option Started → Option Files
pool o = o >>= λ s. s.event >>= λ ev. run 6 loop pread ev s.files

chunks :
    history (pool (async_read limits kernel loop name true (pos 2) (pos 1) empty))
    ≡ (content (11 ∷ 12 ∷ []) ∷ content (13 ∷ 14 ∷ []) ∷ content [] ∷ [])
unfolding run async_read handler_read completed
chunks = refl

async_read-Delivered_example :
    (o : Started) × (ev : AsyncEvent) × (w' : Files) × (async_read limits kernel loop name true
        (pos 2)
        (pos 1)
        empty
      ≡ some o)
    × (o.ok ≡ true)
    × (o.event ≡ some ev)
    × (run 5 loop pread ev o.files ≡ some w')
    × Delivered 7 (11 ∷ 12 ∷ 13 ∷ 14 ∷ []) empty w'
async_read-Delivered_example =
    async_read-Delivered limits kernel loop pread bytes name 7 2 1 5 empty
      (record { goes = λ n. refl; accepts = λ n. refl }) (λ ev. refl) refl refl (omega arith)
      (omega arith) (omega arith) (omega arith)

abbrev write_of : ℕ → Write
write_of n = record {
  filename = name;
  content = n ∷ [];
  fd = 7;
  offset = 0;
  callback = false;
  lock = false;
}

abbrev first : Started
first = async_write kernel loop name (1 ∷ []) (pos 0) null empty

abbrev second : Started
second = async_write kernel loop name (2 ∷ []) (negsuc 0) null first.files

two_writes : Trace 2 second.files (write_of 1 ∷ write_of 2 ∷ [])
unfolding async_write
two_writes =
    wrote kernel loop name (2 ∷ []) (negsuc 0) null (write_of 2 ∷ [])
      (wrote kernel loop name (1 ∷ []) (pos 0) null (write_of 1 ∷ []) start
        (write_of 1, refl, refl))
      (write_of 2, refl, refl)

Trace-held_example :
    At second.files.open_write_files (write_of 2)
    × ((l : Loop) (r : ℤ)
        → (w' : Files) × (completed l (event (write_of 2) r) second.files ≡ some (w', none)))
Trace-held_example =
    Trace-held 2 second.files (write_of 1 ∷ []) (write_of 2) [] two_writes (omega arith)
