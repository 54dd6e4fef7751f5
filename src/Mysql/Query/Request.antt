-- ===== src/Mysql/Query/Request.antt =====
-- The requests of swoole_mysql.cc, as packets: mysql_request_pack and mysql_prepare_pack.
use async_ext.Prelude.{ℕ, ◌+◌, ◌%◌, ◌/◌, ◌^◌, ◌<◌, ◌≡◌, some, List, [], ◌∷◌, length, arith}
use async_ext.Str.{Memory, Str, byte}
use async_ext.Mysql.Wire.{store, pack_length, uint3korr}
use async_ext.Mysql.Wire.Lcb.{Holds}
use async_ext.Mysql.Query.{StrApi, request_head, command_pack}

-- The numbers of a text are those of chars.
abbrev pub IsText : List ℕ → Type 0
IsText [] = Unit {0}
IsText (b ∷ bs) = (b < 256) × IsText bs

-- What the core documents of `append`: the text stands behind the old contents, which stay.
abbrev pub Appends : StrApi → Type 0
Appends api =
    (s t : Str) (bs : List ℕ)
    → IsText bs
    → api.append s bs ≡ some t
    → (t.length ≡ s.length + length bs)
      × Holds t.str s.length bs
      × ((i : ℕ) → i < s.length → byte t.str i ≡ byte s.str i)

request_head-bytes :
    (command n : ℕ) (m : Memory)
    → let m' = request_head command n m in
      (byte m' 0 ≡ (n + 1) % 256)
      × (byte m' 1 ≡ (n + 1) / 2 ^ 8 % 256)
      × (byte m' 2 ≡ (n + 1) / 2 ^ 16 % 256)
      × (byte m' 3 ≡ 0)
      × (byte m' 4 ≡ command % 256)
unfolding request_head store pack_length
request_head-bytes command n m = ground arith

-- If append works as documented, a packed request of a one-byte command and a text is packet
-- number 0 whose length field is that of the command and the text modulo 2^24, followed by the
-- command, the text, and the end of the buffer.
pub command_pack-framed :
    (api : StrApi)
    → Appends api
    → (command : ℕ) (sql : List ℕ) (buffer t : Str) → command < 256
    → IsText sql
    → command_pack api command sql buffer ≡ some t
    → (t.length ≡ 4 + (length sql + 1))
      × (uint3korr t.str 0 ≡ (length sql + 1) % 2 ^ 24)
      × (byte t.str 3 ≡ 0)
      × (byte t.str 4 ≡ command)
      × Holds t.str 5 sql
unfolding command_pack uint3korr
command_pack-framed api h command sql buffer t small chars e =
    let (len, held, same) = h _ t sql chars e in
    let b = request_head-bytes command (length sql) (api.clear buffer).str in
    (
      omega (arith, len),
      omega (arith, same 0 (omega arith), same 1 (omega arith), same 2 (omega arith), b),
      omega (arith, same 3 (omega arith), b),
      omega (arith, same 4 (omega arith), b),
      held,
    )
