-- ===== src/RingQueue.antt =====
-- swoole_ringqueue.cc: swRingQueue and the methods of Swoole\RingQueue that drive it.
-- A ring holds pointers of any type. `none` as the result of an operation stands for undefined
-- behaviour of the C code: an access outside the storage, or a remainder by zero.
mod Mod
pub mod Inv
pub mod Refine
mod Tests
use async_ext.Prelude.{
  ℕ, ◌+◌, ◌-◌, ◌%◌, ◌^◌, Bool, true, false, ◌&&◌, ◌||◌, Option, none, some, List, ltb, leb, ◌==◌,
  if◌then◌else◌, length, get_elem?, set, replicate,
}

-- `struct swRingQueue`; `slots` is the array `data`, and `tag` is 1 when equal ends mean full.
pub record Ring (A : Type 0) : Type 0 where
  pub head : ℕ
  pub tail : ℕ
  pub tag : ℕ
  pub size : ℕ
  pub slots : List A

-- A `long` given as an `int`, as its bit pattern, and an `int` given as a `size_t`.
abbrev pub int_of_long : ℕ → ℕ
int_of_long n = n % 2 ^ 32

abbrev pub size_of_int : ℕ → ℕ
size_of_int n = if ltb n (2 ^ 31) then n else n + (2 ^ 64 - 2 ^ 32)

module _ {A : Type 0} where
  -- The macros `swRingQueue_empty` and `swRingQueue_full`.
  pub is_empty : Ring A → Bool
  is_empty q = q.head == q.tail && q.tag == 0

  pub is_full : Ring A → Bool
  is_full q = q.head == q.tail && q.tag == 1

  pub count : Ring A → ℕ
  count q =
      if ltb q.head q.tail
      then q.tail - q.head
      else if q.head == q.tail
      then (if q.tag == 1 then q.size else 0)
      else q.tail + q.size - q.head

  -- The body of `swRingQueue_push`: the item is stored before `tail` moves.
  pub stored : Ring A → A → Ring A
  stored q x =
      let tail' = (q.tail + 1) % q.size in
      record q {
        slots = set q.slots q.tail x;
        tail = tail';
        tag = if tail' == q.head then 1 else q.tag;
      }

  -- The Boolean is `SW_OK`.
  pub push : Ring A → A → Option (Bool × Ring A)
  unfolding is_full stored
  push q x =
      if is_full q
      then some (false, q)
      else if leb (length q.slots) q.tail || q.size == 0
      then none
      else some (true, stored q x)

  -- The body of `swRingQueue_pop`.
  pub dropped : Ring A → Ring A
  dropped q =
      let head' = (q.head + 1) % q.size in
      record q { head = head'; tag = if q.tail == head' then 0 else q.tag }

  -- What goes out through `pop_data` on `SW_OK`, nothing on `SW_ERR`, and the ring.
  pub pop : Ring A → Option (Option A × Ring A)
  unfolding is_empty dropped
  pop q =
      if is_empty q
      then some (none, q)
      else if leb (length q.slots) q.head || q.size == 0
      then none
      else some (get_elem? q.slots q.head, dropped q)

  -- `swRingQueue_init`. `calloc n` says whether memory for `n` pointers is given; it is zeroed, so
  -- each slot holds `null`. The argument is an `int` as its bit pattern.
  pub init : (ℕ → Bool) → A → ℕ → Option (Ring A)
  init calloc null buffer_size =
      if calloc (size_of_int buffer_size)
      then some (record {
        head = 0;
        tail = 0;
        tag = 0;
        size = buffer_size;
        slots = replicate buffer_size null;
      })
      else none

  -- `RingQueue::__construct`: a negative `long` stands for `SW_RINGQUEUE_LEN`, here `default_len`.
  pub construct : (ℕ → Bool) → A → ℕ → ℕ → Option (Ring A)
  unfolding init
  construct calloc null default_len len =
      init calloc null (int_of_long (if ltb len (2 ^ 63) then len else default_len))
