-- ===== src/RingQueue/Inv.antt =====
-- The representation invariant of swRingQueue in swoole_ringqueue.cc.
use async_ext.Prelude.{
  ℕ, ◌+◌, ◌^◌, ◌≤◌, ◌<◌, ◌≡◌, ◌≢◌, Bool, false, some, length, length-set, length-replicate, arith,
  ◌==◌,
}
use async_ext.RingQueue.{Ring, is_empty, is_full, count, stored, dropped, init, size_of_int}
use async_ext.RingQueue.Mod.{mod-step}

-- The ends lie in the storage, `tag` is a flag, and the size is a positive `int`. `tag` is read at
-- equal ends only: it stays up after a removal from a full ring.
pub record IsValid {A : Type 0} (q : Ring A) : Type 0 where
  pub storage : length q.slots ≡ q.size
  pub positive : 0 < q.size
  pub small : q.size < 2 ^ 31
  pub head_in : q.head < q.size
  pub tail_in : q.tail < q.size
  pub flag : q.tag ≤ 1

module _ {A : Type 0} where
  pub count_bounds : {q : Ring A} → IsValid q → count q ≤ q.size
  unfolding count
  count_bounds v = ground arith

  -- The count tells a full ring and an empty one from all others.
  pub is_full-count : {q : Ring A} → IsValid q → is_full q ≡ (count q == q.size)
  unfolding is_full count
  is_full-count v = ground arith

  pub is_empty-count : {q : Ring A} → IsValid q → is_empty q ≡ (count q == 0)
  unfolding is_empty count
  is_empty-count v = ground arith

  -- Storing in a ring that is not full keeps it valid and counts one more.
  pub stored-IsValid : {q : Ring A} (x : A) → IsValid q → count q ≢ q.size → IsValid (stored q x)
  unfolding stored count
  stored-IsValid {q} x v h = ground (arith, length-set q.slots q.tail x)

  pub count-stored :
      {q : Ring A} (x : A) → IsValid q → count q ≢ q.size → count (stored q x) ≡ count q + 1
  unfolding stored count
  count-stored {q} x v h = ground (arith, mod-step q.tail q.size)

  pub dropped-IsValid : {q : Ring A} → IsValid q → count q ≢ 0 → IsValid (dropped q)
  unfolding dropped count
  dropped-IsValid {q} v h = ground arith

  pub count-dropped : {q : Ring A} → IsValid q → count q ≢ 0 → count (dropped q) + 1 ≡ count q
  unfolding dropped count
  count-dropped {q} v h = ground (arith, mod-step q.head q.size)

  -- If requests of 2^61 pointers or more are refused, the ring that swRingQueue_init builds for a
  -- positive size is valid and empty.
  pub init-IsValid :
      (calloc : ℕ → Bool)
      → ((n : ℕ) → 2 ^ 61 ≤ n → calloc n ≡ false)
      → (null : A) (size : ℕ) {q : Ring A} → 0 < size
      → init calloc null size ≡ some q
      → IsValid q × (count q ≡ 0)
  unfolding init count
  init-IsValid calloc refuse null size {q} h e =
      ground (arith, refuse (size_of_int size), length-replicate size null)
