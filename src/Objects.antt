-- ===== src/Objects.antt =====
-- `swoole_objects` of swoole_async.cc and php_swoole_async.h: the pointers that belong to PHP objects,
-- by the objects' handles. `none` is a failed assertion.
pub mod Grow
pub mod Refine
mod Tests
use async_ext.Prelude.{
  ℕ, zero, suc, ◌+◌, ◌-◌, ◌*◌, ◌%◌, ◌^◌, Bool, true, false, Option, none, some, List, [], ◌∷◌, ◌++◌,
  set, get_or, replicate, ltb, leb, ◌==◌, if◌then◌else◌, ◌>>=◌,
}

abbrev pub object_max : ℕ
object_max = 10000000

abbrev pub object_default : ℕ
object_default = 8

-- An array of pointers, of which `none` is null, and its size.
pub record Array (A : Type 0) : Type 0 where
  pub size : ℕ
  pub slots : List (Option A)

-- The loop of swoole_get_new_size, `while (new_size <= handle)`. It takes fuel, since a size of 0
-- stays 0.
unfoldable pub double : ℕ → ℕ → ℕ → Option ℕ
double zero new_size handle = none
double (suc fuel) new_size handle =
    let rest = double fuel (new_size * 2 % 2 ^ 32) handle in
    if leb new_size handle then rest else some new_size

-- `swoole_get_new_size`; each round adds to the size, so `handle` and one more rounds are enough.
unfoldable pub get_new_size : ℕ → ℕ → Option ℕ
get_new_size old_size handle =
    if ltb object_max handle
    then some 0
    else double (handle + 1) (old_size * 2 % 2 ^ 32) handle >>= λ n.
        some (if ltb object_max n then object_max else n)

-- The size of an array of properties that is too small.
unfoldable pub property_size : ℕ → ℕ → Option ℕ
property_size old_size handle =
    if old_size == 0
    then (if ltb handle object_default
        then some object_default
        else get_new_size object_default handle)
    else get_new_size old_size handle

module _ {A : Type 0} where
  -- A new array of this size: the old one with null behind it.
  unfoldable pub resize : Array A → ℕ → Array A
  resize a n = record { size = n; slots = a.slots ++ replicate (n - a.size) none }

  unfoldable pub store : Array A → ℕ → Option A → Array A
  store a handle ptr = record a { slots = set a.slots handle ptr }

  -- The new size is known; `alloc` says whether there is memory for it.
  unfoldable pub extend : (ℕ → Bool) → Array A → ℕ → Option A → ℕ → Array A
  unfolding resize store
  extend alloc a handle ptr n = if alloc n then store (resize a n) handle ptr else a

  abbrev pub is_null : Option A → Bool
  is_null none = true
  is_null (some p) = false

  -- Whether the place of a pointer that is not null must be free: PHP defines ZEND_DEBUG always.
  abbrev pub is_free : Array A → ℕ → Option A → Bool
  is_free a handle none = true
  is_free a handle (some p) = is_null (get_or a.slots handle none)

  -- A handle within the array.
  unfoldable pub place : Array A → ℕ → Option A → Option (Array A)
  unfolding store
  place a handle ptr = if is_free a handle ptr then some (store a handle ptr) else none

  -- `swoole_set_object_by_handle`
  unfoldable pub set_object : (ℕ → Bool) → Array A → ℕ → Option A → Option (Array A)
  unfolding place
  set_object alloc a handle ptr =
      if leb object_max handle
      then none
      else if leb a.size handle
      then (get_new_size a.size handle >>= λ n. some (extend alloc a handle ptr n))
      else place a handle ptr

  -- `swoole_get_object_by_handle`
  unfoldable pub get_object : Array A → ℕ → Option (Option A)
  get_object a handle = if ltb handle a.size then some (get_or a.slots handle none) else none

  -- `swoole_set_property_by_handle` and `swoole_get_property_by_handle`, on the array of one property.
  unfoldable pub set_property : (ℕ → Bool) → Array A → ℕ → Option A → Option (Array A)
  unfolding place property_size
  set_property alloc a handle ptr =
      if leb object_max handle
      then none
      else if leb a.size handle
      then (property_size a.size handle >>= λ n. some (extend alloc a handle ptr n))
      else place a handle ptr

  unfoldable pub get_property : Array A → ℕ → Option A
  get_property a handle = if leb a.size handle then none else get_or a.slots handle none
