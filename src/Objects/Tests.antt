-- ===== src/Objects/Tests.antt =====
-- Tests of the model of the object table of swoole_async.cc, and instances of its theorems.
use async_ext.Prelude.{
  ℕ, ◌≡◌, refl, inr, Bool, true, none, some, [], replicate, arith, ◌==◌, if◌then◌else◌, ◌>>=◌,
}
use async_ext.Objects.{
  Array, double, get_new_size, extend, resize, store, set_object, get_object, set_property,
  get_property,
}
use async_ext.Objects.Refine.{IsArray, Stored, set_object-Stored, set_property-Stored}

abbrev initial : Array ℕ
initial = record { size = 8; slots = replicate 8 none }

abbrev alloc : ℕ → Bool
alloc n = true

grown : get_new_size 8 33 ≡ some 64
unfolding get_new_size double
grown = refl

read_back : (set_object alloc initial 9 (some 5) >>= λ a. get_object a 9) ≡ some (some 5)
unfolding set_object get_object get_new_size double extend resize store
read_back = refl

initial-IsArray : IsArray initial
initial-IsArray = record { whole = refl; small = omega arith }

set_object-Stored_example :
    (a : Array ℕ) × (set_object alloc initial 9 (some 5) ≡ some a)
    × Stored initial 9 (some 5) a
    × (get_object a 9 ≡ some (some 5))
set_object-Stored_example =
    set_object-Stored alloc initial 9 (some 5) (λ n. refl) initial-IsArray (omega arith)
      (omega arith) (inr refl)

abbrev no_properties : Array ℕ
no_properties = record { size = 0; slots = [] }

set_property-Stored_example :
    (a : Array ℕ) × (set_property alloc no_properties 3 (some 5) ≡ some a)
    × IsArray a
    × ((j : ℕ) → get_property a j ≡ (if j == 3 then some 5 else get_property no_properties j))
set_property-Stored_example =
    set_property-Stored alloc no_properties 3 (some 5) (λ n. refl)
      (record { whole = refl; small = omega arith }) (omega arith) (inr refl)
