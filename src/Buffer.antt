-- ===== src/Buffer.antt =====
-- Swoole\Buffer, swoole_buffer.cc. The methods of swString and the constants of its sizes belong to the
-- core and are parameters.
pub mod Documented
pub mod Places
pub mod Reads
pub mod Writes
pub mod Text
pub mod Met
pub mod Refine
pub mod Faults
mod Tests
use async_ext.Prelude.{
  ℕ, zero, suc, ◌+◌, ◌-◌, ◌*◌, ◌%◌, ◌^◌, Bool, true, false, not, ◌&&◌, ◌||◌, Option, none, some,
  List, [], length, ltb, leb, ◌==◌, if◌then◌else◌,
}
use async_ext.Prelude.Int.{ℤ, pos, negsuc, ltb_ℤ, ◌+ℤ◌, ◌-ℤ◌}
use async_ext.Str.{Str, slice, sub_size, size_of_long, long_of_size, wrap_long}

-- The methods of swString; `none` where one fails. What `write` answers is not read.
pub record StringApi : Type 0 where
  pub make : ℕ → Str
  pub append : Str → List ℕ → Option Str
  pub write : Str → ℕ → List ℕ → Str
  pub extend : Str → ℕ → Option Str
  pub reduce : Str → ℕ → Str

-- SW_STRING_BUFFER_MAXLEN, SW_STRING_BUFFER_GARBAGE_MIN and SW_STRING_BUFFER_GARBAGE_RATIO.
pub record Limits : Type 0 where
  pub maxlen : ℕ
  pub garbage_min : ℕ
  pub garbage_ratio : ℕ

-- The object: `ptr`, and the properties `capacity` and `length`.
pub record Buffer : Type 0 where
  pub ptr : Option Str
  pub capacity : ℤ
  pub length : ℤ

-- What a method gives PHP: a fatal error, an exception, a value, or a text that is not in the buffer.
pub data Answer : Type 0 where
  fatal : Answer
  thrown : Answer
  null : Answer
  bool : Bool → Answer
  long : ℤ → Answer
  string : List ℕ → Answer
  overrun : Answer

-- `RETURN_STRINGL(buffer->str + offset, length)`
unfoldable pub text_at : Str → ℤ → ℤ → Answer
text_at s (negsuc o) n = overrun
text_at s (pos o) (negsuc n) = overrun
text_at s (pos o) (pos n) = if leb (o + n) s.size then string (slice s.str o n) else overrun

-- `php_swoole_buffer_get_and_check_ptr`, before the rest of a method.
abbrev pub with_ptr : Option Str → (Str → Answer × Buffer) → Buffer → Answer × Buffer
with_ptr none f b = (fatal, b)
with_ptr (some s) f b = f s

abbrev pub long_left : Str → ℤ
long_left s = long_of_size (sub_size s.length s.offset)

-- The property `length` is brought up to date, and the property `capacity` if the memory has grown.
abbrev pub measured : Buffer → Str → Buffer
measured b s = record b { ptr = some s; length = long_left s }

abbrev pub grown : Buffer → Str → Str → Buffer
grown b s s' = if ltb s.size s'.size then record b { capacity = long_of_size s'.size } else b

abbrev pub is_zero : ℤ → Bool
is_zero (pos n) = n == 0
is_zero (negsuc n) = false

-- `__toString`
unfoldable pub to_string : Buffer → Answer × Buffer
unfolding text_at
to_string b = with_ptr b.ptr (λ s. (text_at s (pos s.offset) (long_left s), b)) b

-- An offset of `read` and `write`: one below 0 counts from the end.
unfoldable pub from_end : ℤ → Str → ℤ
unfolding ◌+ℤ◌
from_end offset s = if ltb_ℤ offset (pos 0) then wrap_long (long_left s +ℤ offset) else offset

unfoldable pub read_at : ℤ → ℤ → Buffer → Str → Answer × Buffer
unfolding ◌-ℤ◌ text_at
read_at offset n b s =
    if ltb_ℤ (wrap_long (long_of_size s.length -ℤ offset)) n
    then (bool false, b)
    else (text_at s offset n, b)

unfoldable pub read_from : ℤ → ℤ → Buffer → Str → Answer × Buffer
unfolding ◌+ℤ◌ from_end read_at
read_from offset n b s =
    if ltb_ℤ (from_end offset s) (pos 0)
    then (bool false, b)
    else read_at (wrap_long (from_end offset s +ℤ pos s.offset)) n b s

unfoldable pub read : ℤ → ℤ → Buffer → Answer × Buffer
unfolding read_from
read offset n b = with_ptr b.ptr (read_from offset n b) b

unfoldable pub clear : Buffer → Answer × Buffer
clear b =
    with_ptr b.ptr
      (λ s. (null, record b { ptr = some (record s { length = 0; offset = 0 }); length = pos 0 })) b

module _ (api : StringApi) (lim : Limits) where
  -- `swoole_buffer_recycle`
  unfoldable pub recycled : Str → Str
  recycled s = if s.offset == 0 then s else api.reduce s s.offset

  -- `__construct`
  unfoldable pub construct : ℤ → Buffer → Answer × Buffer
  construct size b = elim (b.ptr) [
    | some s ↦ (fatal, b)
    | none ↦
        if ltb_ℤ size (pos 1)
        then (thrown, b)
        else if ltb_ℤ (pos lim.maxlen) size
        then (thrown, b)
        else (
          null,
          record { ptr = some (api.make (size_of_long size)); capacity = size; length = pos 0 },
        )
  ]

  unfoldable pub append_to : List ℕ → Buffer → Str → Answer × Buffer
  append_to text b s =
      let n = (length text + s.length) % 2 ^ 64 in
      if ltb (length text) 1
      then (bool false, b)
      else if ltb s.size n && ltb lim.maxlen n
      then (bool false, b)
      else elim (api.append s text) [
        | none ↦ (bool false, b)
        | some s' ↦ (long (long_left s'), measured (grown b s s') s')
      ]

  unfoldable pub append : List ℕ → Buffer → Answer × Buffer
  unfolding append_to
  append text b = with_ptr b.ptr (append_to text b) b

  -- The removal in `substr`: the text is read from the buffer that it leaves.
  unfoldable pub remove_from : ℤ → ℤ → Buffer → Str → Answer × Buffer
  unfolding recycled text_at
  remove_from offset n b s =
      let s1 = record s { offset = s.offset + size_of_long n } in
      let s2 =
        if ltb lim.garbage_min s1.offset && ltb s1.size (s1.offset * lim.garbage_ratio)
        then recycled s1
        else s1 in
      (text_at s2 offset n, record b { ptr = some s2; length = long_left s1 })

  -- The rest of `substr` for an offset that counts from the start of the memory.
  unfoldable pub substr_at : ℤ → ℤ → Bool → Buffer → Str → Answer × Buffer
  unfolding ◌+ℤ◌ ◌-ℤ◌ text_at remove_from
  substr_at offset n remove b s =
      let n' = if ltb_ℤ n (pos 0) then wrap_long (long_of_size s.length -ℤ offset) else n in
      if ltb_ℤ (long_of_size s.length) (wrap_long (n' +ℤ offset))
      then (bool false, b)
      else if remove
      then remove_from offset n' b s
      else (text_at s offset n', b)

  unfoldable pub substr_from : ℤ → ℤ → Bool → Buffer → Str → Answer × Buffer
  unfolding ◌+ℤ◌ substr_at
  substr_from offset n remove b s =
      let offset' =
        if ltb_ℤ offset (pos 0) then wrap_long (long_of_size s.length +ℤ offset) else offset in
      substr_at (wrap_long (offset' +ℤ pos s.offset)) n
        (remove && (is_zero offset && not (ltb_ℤ (long_of_size s.length) n))) b s

  -- `substr`; without a length it is -1.
  unfoldable pub substr : ℤ → ℤ → Bool → Buffer → Answer × Buffer
  unfolding substr_from
  substr offset n remove b = with_ptr b.ptr (substr_from offset n remove b) b

  unfoldable pub write_at : ℤ → List ℕ → Buffer → Str → Answer × Buffer
  write_at offset text b s =
      let end = (length text + size_of_long offset) % 2 ^ 64 in
      if ltb s.size end && ltb lim.maxlen end
      then (bool false, b)
      else let s' = api.write s (size_of_long offset) text in
        (long (long_left s'), measured (grown b s s') s')

  unfoldable pub write_to : ℤ → List ℕ → Buffer → Str → Answer × Buffer
  unfolding ◌+ℤ◌ from_end write_at
  write_to offset text b s =
      if ltb (length text) 1
      then (bool false, b)
      else if ltb_ℤ (from_end offset s) (pos 0)
      then (bool false, b)
      else write_at (wrap_long (from_end offset s +ℤ pos s.offset)) text b s

  unfoldable pub write : ℤ → List ℕ → Buffer → Answer × Buffer
  unfolding write_to
  write offset text b = with_ptr b.ptr (write_to offset text b) b

  unfoldable pub expand_to : ℤ → Buffer → Str → Answer × Buffer
  expand_to size b s =
      if ltb_ℤ (long_of_size s.size) size
      then (elim (api.extend s (size_of_long size)) [
        | none ↦ (bool false, b)
        | some s' ↦ (bool true, record b { ptr = some s'; capacity = size })
      ])
      else (bool false, b)

  unfoldable pub expand : ℤ → Buffer → Answer × Buffer
  unfolding expand_to
  expand size b = with_ptr b.ptr (expand_to size b) b

  unfoldable pub recycle : Buffer → Answer × Buffer
  unfolding recycled
  recycle b =
      with_ptr b.ptr
        (λ s.
          (null, record b { ptr = some (recycled s); length = long_of_size (recycled s).length }))
        b
