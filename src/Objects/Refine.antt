-- ===== src/Objects/Refine.antt =====
-- The arrays of swoole_async.cc against a function from handles to pointers, which is null wherever
-- nothing was stored.
use async_ext.Prelude.{
  ℕ, zero, suc, ◌+◌, ◌-◌, ◌<◌, ◌≤◌, ◌≡◌, ◌≢◌, refl, sym, ap, ◌∙◌, Bool-cases, inl, inr, ◌⊎◌, Bool,
  true, Option, none, some, List, [], ◌∷◌, ◌++◌, length, length-append, length-replicate,
  length-set, get_or, get_or-set_self, get_or-set_ne, replicate, arith, leb, ◌==◌, ==_iff, lt→ltb,
  lt→not-leb, leb→le, not-leb→lt, if◌then◌else◌,
}
use async_ext.Objects.{
  Array, object_max, resize, store, extend, is_null, place, set_object, get_object, set_property,
  get_property,
}
use async_ext.Objects.Grow.{get_new_size-lt, property_size-lt}

module _ {A : Type 0} where
  pub record IsArray (a : Array A) : Type 0 where
    pub whole : length a.slots ≡ a.size
    pub small : a.size ≤ object_max

  -- The pointer of a handle, null behind the end.
  abbrev pub pointer : Array A → ℕ → Option A
  pointer a j = get_or a.slots j none

  get_or-replicate : (k j : ℕ) → get_or {A = Option A} (replicate k none) j none ≡ none
  get_or-replicate zero j = refl
  get_or-replicate (suc k) zero = refl
  get_or-replicate (suc k) (suc j) = get_or-replicate k j

  get_or-append_replicate :
      (xs : List (Option A)) (k j : ℕ) → get_or (xs ++ replicate k none) j none ≡ get_or xs j none
  get_or-append_replicate [] k j = get_or-replicate k j
  get_or-append_replicate (x ∷ xs) k zero = refl
  get_or-append_replicate (x ∷ xs) k (suc j) = get_or-append_replicate xs k j

  -- What a store leaves: a valid array that has the pointer at its handle, and is otherwise the same.
  pub record Stored (a : Array A) (handle : ℕ) (ptr : Option A) (a' : Array A) : Type 0 where
    pub valid : IsArray a'
    pub room : handle < a'.size
    pub at : pointer a' handle ≡ ptr
    pub others : (j : ℕ) → j ≢ handle → pointer a' j ≡ pointer a j

  Stored-store :
      (a : Array A) (handle : ℕ) (ptr : Option A)
      → IsArray a
      → handle < a.size
      → Stored a handle ptr (store a handle ptr)
  unfolding store
  Stored-store a handle ptr v inside =
      let w = v.whole in
      record {
        valid = record { whole = length-set a.slots handle ptr ∙ w; small = v.small };
        room = inside;
        at = get_or-set_self a.slots handle ptr none (omega arith);
        others = λ j d. get_or-set_ne a.slots handle j ptr none (λ e. d (sym e));
      }

  IsArray-resize :
      (a : Array A) (n : ℕ) → IsArray a → a.size ≤ n → n ≤ object_max → IsArray (resize a n)
  unfolding resize
  IsArray-resize a n v more most =
      let w = v.whole in
      record {
        whole =
            length-append a.slots (replicate (n - a.size) none)
            ∙ ap (λ k. length a.slots + k) (length-replicate (n - a.size) none)
            ∙ omega arith;
        small = most;
      }

  Stored-extend :
      (alloc : ℕ → Bool) (a : Array A) (handle : ℕ) (ptr : Option A) (n : ℕ)
      → alloc n ≡ true
      → IsArray a
      → a.size ≤ n
      → handle < n
      → n ≤ object_max
      → Stored a handle ptr (extend alloc a handle ptr n)
  unfolding extend resize
  Stored-extend alloc a handle ptr n given v more inside most =
      let s = Stored-store (resize a n) handle ptr (IsArray-resize a n v more most) inside in
      rw given (record {
        valid = s.valid;
        room = s.room;
        at = s.at;
        others = λ j d. s.others j d ∙ get_or-append_replicate a.slots (n - a.size) j;
      })

  place-free :
      (a : Array A) (handle : ℕ) (ptr : Option A)
      → (ptr ≡ none) ⊎ (pointer a handle ≡ none)
      → place a handle ptr ≡ some (store a handle ptr)
  unfolding place
  place-free a handle none h = refl
  place-free a handle (some p) (inl e) = cc
  place-free a handle (some p) (inr e) =
      ap (λ x. if is_null x then some (store a handle (some p)) else none) e

  -- For an array of positive size, at most the maximum, a handle below the maximum whose place is
  -- null unless null is stored, and an allocator that grants everything,
  -- swoole_set_object_by_handle leaves an array that is valid again and has room for the handle,
  -- from which swoole_get_object_by_handle reads the pointer back; every other handle keeps its
  -- pointer, which is null behind the old end.
  pub set_object-Stored :
      (alloc : ℕ → Bool) (a : Array A) (handle : ℕ) (ptr : Option A)
      → ((n : ℕ) → alloc n ≡ true)
      → IsArray a
      → 0 < a.size
      → handle < object_max
      → (ptr ≡ none) ⊎ (pointer a handle ≡ none)
      → (a' : Array A) × (set_object alloc a handle ptr ≡ some a')
        × Stored a handle ptr a'
        × (get_object a' handle ≡ some ptr)
  unfolding set_object get_object
  set_object-Stored alloc a handle ptr given v pos small free =
      let low = lt→not-leb object_max handle small in
      elim (Bool-cases (leb a.size handle)) [
        | inr inside ↦
            let l = not-leb→lt a.size handle inside in
            let s = Stored-store a handle ptr v l in
            (
              store a handle ptr,
              rw (low, inside) (place-free a handle ptr free),
              s,
              rw (lt→ltb _ _ s.room) (ap some s.at),
            )
        | inl outside ↦
            let (n, size, a1, a2) =
              get_new_size-lt a.size handle pos (leb→le a.size handle outside) small in
            let l = leb→le a.size handle outside in
            let s = Stored-extend alloc a handle ptr n (given n) v (omega arith) a1 a2 in
            (
              extend alloc a handle ptr n,
              rw (low, outside, size) refl,
              s,
              rw (lt→ltb _ _ s.room) (ap some s.at),
            )
      ]

  get_or-ge : (xs : List (Option A)) (j : ℕ) → length xs ≤ j → get_or xs j none ≡ none
  get_or-ge [] j h = refl
  get_or-ge (x ∷ xs) zero h = absurd (omega arith)
  get_or-ge (x ∷ xs) (suc j) h = get_or-ge xs j (omega arith)

  get_property-pointer : (a : Array A) (j : ℕ) → IsArray a → get_property a j ≡ pointer a j
  unfolding get_property
  get_property-pointer a j v = elim (Bool-cases (leb a.size j)) [
    | inl behind ↦
        let l = leb→le a.size j behind in
        let w = v.whole in rw behind (sym (get_or-ge a.slots j (omega arith)))
    | inr within ↦ rw within refl
  ]

  get_property-Stored :
      (a a' : Array A) (handle : ℕ) (ptr : Option A)
      → IsArray a
      → Stored a handle ptr a'
      → (j : ℕ) → get_property a' j ≡ (if j == handle then ptr else get_property a j)
  get_property-Stored a a' handle ptr v s j =
      get_property-pointer a' j s.valid ∙ elim (Bool-cases (j == handle)) [
        | inl same ↦ rw same (ap (pointer a') ((==_iff j handle).0 same) ∙ s.at)
        | inr apart ↦ rw apart (
            s.others j (λ e. let t = (==_iff j handle).1 e in cc)
            ∙ sym (get_property-pointer a j v))
      ]

  -- For a valid array of properties, which may be empty, a handle below the maximum whose place is
  -- null unless null is stored, and an allocator that grants everything,
  -- swoole_set_property_by_handle leaves a valid array in which swoole_get_property_by_handle
  -- gives the pointer for the handle and what it gave before for every other.
  pub set_property-Stored :
      (alloc : ℕ → Bool) (a : Array A) (handle : ℕ) (ptr : Option A)
      → ((n : ℕ) → alloc n ≡ true)
      → IsArray a
      → handle < object_max
      → (ptr ≡ none) ⊎ (pointer a handle ≡ none)
      → (a' : Array A) × (set_property alloc a handle ptr ≡ some a')
        × IsArray a'
        × ((j : ℕ) → get_property a' j ≡ (if j == handle then ptr else get_property a j))
  unfolding set_property
  set_property-Stored alloc a handle ptr given v small free =
      let low = lt→not-leb object_max handle small in
      elim (Bool-cases (leb a.size handle)) [
        | inr inside ↦
            let s = Stored-store a handle ptr v (not-leb→lt a.size handle inside) in
            (
              store a handle ptr,
              rw (low, inside) (place-free a handle ptr free),
              s.valid,
              get_property-Stored a (store a handle ptr) handle ptr v s,
            )
        | inl outside ↦
            let l = leb→le a.size handle outside in
            let (n, size, a1, a2) = property_size-lt a.size handle l small in
            let s = Stored-extend alloc a handle ptr n (given n) v (omega arith) a1 a2 in
            (
              extend alloc a handle ptr n,
              rw (low, outside, size) refl,
              s.valid,
              get_property-Stored a (extend alloc a handle ptr n) handle ptr v s,
            )
      ]
