-- ===== src/Buffer/Text.antt =====
-- What the methods of swoole_buffer.cc mean: a text, and what each call does to it.
use async_ext.Prelude.{
  ℕ, ◌+◌, ◌^◌, ◌<◌, ◌≤◌, ◌≡◌, true, false, Option, none, some, List, [], ◌∷◌, ◌++◌, length, drop,
}
use async_ext.Prelude.Int.{ℤ, pos, negsuc}
use async_ext.Str.{Str, IsLong}
use async_ext.Str.Holds.{IsText}
use async_ext.Str.Patch.{patch}
use async_ext.Buffer.{
  StringApi, Limits, Buffer, Answer, null, bool, long, string, append, substr, to_string, write,
  read, expand, recycle, clear,
}
use async_ext.Buffer.Documented.{Contains}
use async_ext.Buffer.Places.{place}
use async_ext.Buffer.Reads.{part}

-- The calls. `removes` is `substr` from the start with `remove`; `takes` is without.
pub data Call : Type 0 where
  appends : List ℕ → Call
  takes : ℕ → ℤ → Call
  removes : ℕ → Call
  shows : Call
  writes : ℤ → List ℕ → Call
  reads : ℤ → ℕ → Call
  expands : ℤ → Call
  recycles : Call
  clears : Call

-- The answers of `removes` and `expands` are left out.
abbrev pub call : StringApi → Limits → Call → Buffer → Answer × Buffer
call api lim (appends text) b = append api lim text b
call api lim (takes k n) b = substr api lim (pos k) n false b
call api lim (removes n) b = (null, (substr api lim (pos 0) (pos n) true b).1)
call api lim shows b = to_string b
call api lim (writes z text) b = write api lim z text b
call api lim (reads z n) b = read z (pos n) b
call api lim (expands z) b = (null, (expand api lim z b).1)
call api lim recycles b = recycle api lim b
call api lim clears b = clear b

-- What a call answers on a text, and the text that it leaves.
abbrev pub meant_at : Option ℕ → List ℕ → List ℕ → Answer × List ℕ
meant_at none text c = (bool false, c)
meant_at (some k) text c = (long (pos (length (patch c k text))), patch c k text)

abbrev pub meant_part : Option ℕ → ℕ → List ℕ → Answer
meant_part none n c = bool false
meant_part (some k) n c = part c k n

abbrev pub meant : Call → List ℕ → Answer × List ℕ
meant (appends []) c = (bool false, c)
meant (appends (x ∷ text)) c = (long (pos (length (c ++ (x ∷ text)))), c ++ (x ∷ text))
meant (takes k (pos n)) c = (part c k n, c)
meant (takes k (negsuc m)) c = (string (drop k c), c)
meant (removes n) c = (null, drop n c)
meant shows c = (string c, c)
meant (writes z []) c = (bool false, c)
meant (writes z (x ∷ text)) c = meant_at (place z c) (x ∷ text) c
meant (reads z n) c = (meant_part (place z c) n c, c)
meant (expands z) c = (null, c)
meant recycles c = (null, c)
meant clears c = (null, [])

-- The chars that a call can add.
abbrev pub cost : Call → ℕ
cost (appends text) = length text
cost (takes k n) = 0
cost (removes n) = 0
cost shows = 0
cost (writes z text) = length text
cost (reads z n) = 0
cost (expands z) = 0
cost recycles = 0
cost clears = 0

-- What is left out: offsets and lengths near 2^63, offsets behind the end of the text where the code
-- does not test for them, and removing more than there is.
abbrev pub IsInside : Option ℕ → List ℕ → Type 0
IsInside none c = Unit {0}
IsInside (some k) c = k ≤ length c

abbrev pub IsSmall : Option ℕ → Type 0
IsSmall none = Unit {0}
IsSmall (some k) = k < 2 ^ 62

abbrev pub Sensible : Call → List ℕ → Type 0
Sensible (appends text) c = IsText text
Sensible (takes k (pos n)) c = k + n < 2 ^ 62
Sensible (takes k (negsuc m)) c = k ≤ length c
Sensible (removes n) c = n ≤ length c
Sensible shows c = Unit {0}
Sensible (writes z text) c = IsLong z × IsText text × IsInside (place z c) c
Sensible (reads z n) c = IsLong z × IsSmall (place z c)
Sensible (expands z) c = IsLong z
Sensible recycles c = Unit {0}
Sensible clears c = Unit {0}

abbrev pub AllSensible : List Call → List ℕ → Type 0
AllSensible [] c = Unit {0}
AllSensible (o ∷ os) c = Sensible o c × AllSensible os (meant o c).1

abbrev pub total : List Call → ℕ
total [] = 0
total (o ∷ os) = cost o + total os

-- The object has a string with this text in it, which is at most so long, and its property `length` says
-- how long the text is.
pub record Represents (b : Buffer) (used : ℕ) (c : List ℕ) : Type 0 where
  pub string : Str
  pub here : b.ptr ≡ some string
  pub contents : Contains string c
  pub bound : string.length ≤ used
  pub property : b.length ≡ pos (length c)

-- Each call and the property `length` behind it.
unfoldable pub run_buffer : StringApi → Limits → Buffer → List Call → List (Answer × ℤ)
run_buffer api lim b [] = []
run_buffer api lim b (o ∷ os) =
    ((call api lim o b).0, (call api lim o b).1.length) ∷ run_buffer api lim (call api lim o b).1 os

unfoldable pub run_text : List ℕ → List Call → List (Answer × ℤ)
run_text c [] = []
run_text c (o ∷ os) = ((meant o c).0, pos (length (meant o c).1)) ∷ run_text (meant o c).1 os
