-- ===== src/RingQueue/Refine.antt =====
-- The ring of swoole_ringqueue.cc as a bounded queue.
use async_ext.Prelude.{
  ℕ, suc, ◌+◌, ◌%◌, ◌<◌, ◌≡◌, ◌≢◌, refl, sym, ap, ap₂, ◌∙◌, Bool, true, false, Option, none, some,
  List, [], ◌∷◌, ◌++◌, length, get_or, tabulate, tabulate-snoc, tabulate-ext, length-tabulate,
  get_elem?-eq-get_or, get_or-set_self, get_or-set_ne, ◌==◌, if◌then◌else◌, arith,
}
use async_ext.RingQueue.{Ring, count, push, pop, stored, dropped}
use async_ext.RingQueue.Inv.{
  IsValid, count_bounds, is_full-count, is_empty-count, stored-IsValid, count-stored,
  dropped-IsValid, count-dropped,
}
use async_ext.RingQueue.Mod.{mod-ne, mod-shift, mod-once}
use mathlib.Core.Option
use native.Mathlib.Nat.{mod-eq_of_lt}
use native.Mathlib.Decide.{ℕ_discrete}
use native.Mathlib.Numerals.{add-one}

-- A first-in first-out queue of at most `cap` items, oldest first.
module _ {A : Type 0} where
  pub enqueue : ℕ → List A → A → Bool × List A
  enqueue cap xs x = if length xs == cap then (false, xs) else (true, xs ++ (x ∷ []))

  pub dequeue : List A → Option A × List A
  dequeue [] = (none, [])
  dequeue (x ∷ xs) = (some x, xs)

-- `null` is read nowhere in a valid ring.
module _ {A : Type 0} (null : A) where
  -- The slot that is `i` places behind the head.
  abbrev pub slot : Ring A → ℕ → A
  slot q i = get_or q.slots ((q.head + i) % q.size) null

  abbrev pub contents : Ring A → List A
  contents q = tabulate (slot q) (count q)

  tail-count : {q : Ring A} → IsValid q → count q ≢ q.size → q.tail ≡ (q.head + count q) % q.size
  unfolding count
  tail-count {q} v h =
      ground (
        arith,
        mod-once (q.head + count q) q.size,
        mod-eq_of_lt {n = q.head + count q} {m = q.size},
      )

  slot-stored :
      {q : Ring A} (x : A)
      → IsValid q
      → count q ≢ q.size
      → (i : ℕ) → i < count q
      → slot (stored q x) i ≡ slot q i
  unfolding stored
  slot-stored {q} x v h i p = get_or-set_ne q.slots q.tail ((q.head + i) % q.size) x null (
      rw (tail-count v h) (
        mod-ne q.head i (count q) q.size v.head_in (omega (arith, count_bounds v))
          (omega (arith, count_bounds v))))

  slot-stored_new :
      {q : Ring A} (x : A) → IsValid q → count q ≢ q.size → slot (stored q x) (count q) ≡ x
  unfolding stored
  slot-stored_new {q} x v h =
      rw (← tail-count v h)
        (get_or-set_self q.slots q.tail x null (omega (arith, v.tail_in, v.storage)))

  pub contents-stored :
      {q : Ring A} (x : A)
      → IsValid q
      → count q ≢ q.size
      → contents (stored q x) ≡ contents q ++ (x ∷ [])
  contents-stored {q} x v h =
      ap (tabulate (slot (stored q x))) (count-stored x v h ∙ add-one _)
      ∙ tabulate-snoc (slot (stored q x)) (count q)
      ∙ ap₂ (λ xs y. xs ++ (y ∷ [])) (tabulate-ext _ _ (count q) (slot-stored x v h))
          (slot-stored_new x v h)

  slot-dropped : (q : Ring A) (i : ℕ) → slot q (suc i) ≡ slot (dropped q) i
  unfolding dropped
  slot-dropped q i =
      ap (λ k. get_or q.slots k null)
        (ap (λ k. (q.head + k) % q.size) (omega arith) ∙ sym (mod-shift q.head i q.size))

  pub contents-dropped :
      {q : Ring A}
      → IsValid q
      → count q ≢ 0
      → contents q ≡ get_or q.slots q.head null ∷ contents (dropped q)
  contents-dropped {q} v h =
      ap (tabulate (slot q)) (sym (count-dropped v h) ∙ add-one _)
      ∙ ap₂ ◌∷◌
          (ap (λ k. get_or q.slots k null)
            (mod-eq_of_lt {n = q.head + 0} {m = q.size} (omega (arith, v.head_in)) ∙ omega arith))
          (tabulate-ext _ _ (count (dropped q)) (λ i _. slot-dropped q i))

  -- On a valid ring swRingQueue_push is defined, answers as the bounded queue of the contents
  -- does, and leaves a valid ring of the same size that holds that queue's items.
  pub push_refines :
      {q : Ring A} (x : A)
      → IsValid q
      → (b : Bool) × (q' : Ring A) × (push q x ≡ some (b, q'))
        × IsValid q'
        × (q'.size ≡ q.size)
        × ((b, contents q') ≡ enqueue q.size (contents q) x)
  unfolding push enqueue
  push_refines {q} x v = elim (ℕ_discrete (count q) q.size) [
    | yes e ↦ (
      false,
      q,
      ground (arith, is_full-count v),
      v,
      refl,
      ground (arith, length-tabulate (slot q) (count q)),
    )
    | no e ↦ (
      true,
      stored q x,
      ground (arith, is_full-count v),
      stored-IsValid x v e,
      unfold stored in refl,
      ground (arith, length-tabulate (slot q) (count q), contents-stored x v e),
    )
  ]

  -- On a valid ring swRingQueue_pop is defined, hands out the oldest item if there is one, and
  -- leaves a valid ring of the same size that holds the others.
  pub pop_refines :
      {q : Ring A}
      → IsValid q
      → (o : Option A) × (q' : Ring A) × (pop q ≡ some (o, q'))
        × IsValid q'
        × (q'.size ≡ q.size)
        × ((o, contents q') ≡ dequeue (contents q))
  unfolding pop dequeue
  pop_refines {q} v = elim (ℕ_discrete (count q) 0) [
    | yes e ↦ (none, q, ground (arith, is_empty-count v), v, refl, rw e)
    | no e ↦ (
      some (get_or q.slots q.head null),
      dropped q,
      ground (arith, is_empty-count v, get_elem?-eq-get_or q.slots q.head null),
      dropped-IsValid v e,
      unfold dropped in refl,
      ground (arith, contents-dropped v e),
    )
  ]

-- What a script may ask of a ring, and what it is told.
pub data Call (A : Type 0) : Type 0 where
  pushes : A → Call A
  pops : Call A

pub data Reply (A : Type 0) : Type 0 where
  pushed : Bool → Reply A
  popped : Option A → Reply A

module _ {A : Type 0} where
  pub push_then :
      (Ring A → Option (List (Reply A))) → Option (Bool × Ring A) → Option (List (Reply A))
  push_then k none = none
  push_then k (some (b, q)) = Option.map (◌∷◌ (pushed b)) (k q)

  pub pop_then :
      (Ring A → Option (List (Reply A))) → Option (Option A × Ring A) → Option (List (Reply A))
  pop_then k none = none
  pop_then k (some (o, q)) = Option.map (◌∷◌ (popped o)) (k q)

  -- The calls of a script in turn; `none` when one of them is undefined.
  pub run : List (Call A) → Ring A → Option (List (Reply A))
  unfolding push_then pop_then
  run [] q = some []
  run (pushes x ∷ cs) q = push_then (run cs) (push q x)
  run (pops ∷ cs) q = pop_then (run cs) (pop q)

  pub run_queue : ℕ → List (Call A) → List A → List (Reply A)
  run_queue cap [] xs = []
  run_queue cap (pushes x ∷ cs) xs =
      let (b, ys) = enqueue cap xs x in pushed b ∷ run_queue cap cs ys
  run_queue cap (pops ∷ cs) xs = let (o, ys) = dequeue xs in popped o ∷ run_queue cap cs ys

-- On a valid ring every sequence of swRingQueue_push and swRingQueue_pop is defined, and its
-- results are those of the bounded queue of the ring's contents.
pub run_refines :
    {A : Type 0} (null : A) (cs : List (Call A)) {q : Ring A}
    → IsValid q
    → run cs q ≡ some (run_queue q.size cs (contents null q))
unfolding run run_queue
run_refines null [] v = refl
run_refines null (pushes x ∷ cs) {q} v =
    let (b, q', e, v', same, r) = push_refines null x v in rw (e, run_refines null cs v', same, ← r)
run_refines null (pops ∷ cs) {q} v =
    let (o, q', e, v', same, r) = pop_refines null v in rw (e, run_refines null cs v', same, ← r)
