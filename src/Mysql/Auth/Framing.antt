-- ===== src/Mysql/Auth/Framing.antt =====
-- The packet that answers the server's greeting.
use async_ext.Prelude.{
  ◌&&◌, ℕ, zero, suc, ◌+◌, ◌-◌, ◌*◌, ◌%◌, ◌^◌, ◌<◌, ◌≤◌, ◌≡◌, ◌≢◌, inl, inr, ap, subst, ◌∙◌, false,
  Bool-cases, Option, none, some, List, [], ◌∷◌, ◌++◌, length, arith, ltb, ◌==◌, if◌then◌else◌,
  ◌>>=◌, tabulate, leb, ◌||◌, take, le→not-ltb,
}
use Prim.Native.Nat.{max, min}
use async_ext.Str.{Memory, byte, slice}
use async_ext.Str.Holds.{IsText, Holds, Holds-ext}
use async_ext.Mysql.Wire.{uint2korr, uint3korr, header_size}
use async_ext.Mysql.Packet.{packet_err}
use async_ext.Mysql.Auth.{Connector, Crypto, sends, overrun, buf_size, nonce_length, finish}
use async_ext.Mysql.Auth.Greeting.{
  Request, has_flag, plugin_auth, secure_connection, strlen, plugin_name, second_part, fields,
  put_all, total, answer_head, answer_texts, challenged, respond, handshake,
}
use async_ext.Mysql.Auth.Outcome.{not_same}
use async_ext.Mysql.Auth.Digest.{Digests, challenged-IsAnswer}
use async_ext.Mysql.Auth.Written.{
  IsTexts, joined, put_all-before, Holds-put_all, finish-framed, put_head, total-joined,
}

IsText-append : (xs ys : List ℕ) → IsText xs → IsText ys → IsText (xs ++ ys)
IsText-append [] ys t u = u
IsText-append (x ∷ xs) ys t u = (t.0, IsText-append xs ys t.1 u)

tabulate-IsText : (f : ℕ → ℕ) (n : ℕ) → ((i : ℕ) → f i < 256) → IsText (tabulate f n)
tabulate-IsText f zero h = tt
tabulate-IsText f (suc n) h = (h 0, tabulate-IsText (λ i. f (suc i)) n (λ i. h (suc i)))

slice-IsText : (m : Memory) (k n : ℕ) → IsText (slice m k n)
slice-IsText m k n = tabulate-IsText (λ i. byte m (k + i)) n (λ i. omega arith)

-- If there is a request, its name consists of bytes.
abbrev Named : Option Request → Type 0
Named none = Unit {0}
Named (some r) = IsText r.name

Named-bind : (x : Option ℕ) (f : ℕ → Option Request) → ((n : ℕ) → Named (f n)) → Named (x >>= f)
Named-bind none f h = tt
Named-bind (some n) f h = h n

module _ (m : Memory) where
  plugin_name-Named :
      (k len size : ℕ) (r : Request) → IsText r.name → Named (plugin_name m k len size r)
  unfolding plugin_name
  plugin_name-Named k len size r t = elim (Bool-cases (has_flag r.capability_flags plugin_auth)) [
    | inl f ↦ rw f (
        Named-bind (strlen (size - k) m k) _ (λ n.
          slice-IsText m k ((if leb k len && ltb len (2 ^ 31) then min n (len - k) else n) % 256)))
    | inr f ↦ rw f t
  ]

  second_part-Named :
      (k l len size : ℕ) (r : Request) → IsText r.name → Named (second_part m k l len size r)
  unfolding second_part
  second_part-Named k l len size r t =
      elim (Bool-cases (has_flag r.capability_flags secure_connection)) [
        | inr f ↦ rw f (plugin_name-Named k len size _ t)
        | inl f ↦ elim (Bool-cases (ltb 13 (max 13 (l - 8)) || ltb size (k + max 13 (l - 8)))) [
          | inl g ↦ rw (f, g) tt
          | inr g ↦ rw (f, g) (plugin_name-Named (k + max 13 (l - 8)) len size _ t)
        ]
      ]

  fields-Named : (k len size : ℕ) → Named (fields m k len size)
  unfolding fields
  fields-Named k len size = elim (Bool-cases (ltb size (k + 31))) [
    | inl f ↦ rw f tt
    | inr f ↦ rw f (
        second_part-Named (k + 31) (byte m (k + 20)) len size
          (record {
            auth_plugin_data = slice m (k + 4) 8;
            character_set = byte m (k + 15);
            capability_flags = uint2korr m (k + 13) + uint2korr m (k + 18) * 2 ^ 16;
            plugin = none;
            name = [];
          })
          tt)
  ]

  -- What the greeting says, in `size` bytes of memory.
  abbrev pub greeted : ℕ → ℕ → Option Request
  greeted len size = strlen (size - 5) m 5 >>= λ n. fields m (5 + (n + 1)) len size

  greeted-Named : (len size : ℕ) → Named (greeted len size)
  greeted-Named len size =
      Named-bind (strlen (size - 5) m 5) _ (λ n. fields-Named (5 + (n + 1)) len size)

-- The answer to a request, in the layout of Protocol::HandshakeResponse41.
abbrev pub IsResponse : Crypto → Request → Connector → Connector → Type 0
IsResponse h r c c' =
    let texts = answer_texts c (challenged h r c).0 r.name in
    (c'.packet_length ≡ 32 + length (joined texts))
    × (4 + c'.packet_length ≤ buf_size)
    × (uint3korr c'.buf 0 ≡ c'.packet_length)
    × (byte c'.buf 3 ≡ 1)
    × Holds c'.buf 4 (9 ∷ 130 ∷ 10 ∷ 0 ∷ 44 ∷ 1 ∷ 0 ∷ 0 ∷ [])
    × (byte c'.buf 12 ≡ c'.character_set % 256)
    × Holds c'.buf 36 (joined texts)

module _ (h : Crypto) (d : Digests h) where
  answer_texts-IsTexts :
      (r : Request) (c : Connector)
      → IsText r.name
      → IsText c.user
      → IsText c.database
      → IsTexts (answer_texts c (challenged h r c).0 r.name)
  answer_texts-IsTexts r c name user database =
      let (answer, short) = challenged-IsAnswer h d r c in
      let end : IsText (0 ∷ []) = (omega arith, tt) in
      let names : IsTexts ((c.database ++ (0 ∷ [])) ∷ (r.name ++ (0 ∷ [])) ∷ []) = (
        IsText-append c.database (0 ∷ []) database end,
        (IsText-append r.name (0 ∷ []) name end, tt),
      ) in
      (IsText-append c.user (0 ∷ []) user end, ((omega (arith, short), answer), names))

  respond-IsResponse :
      (r : Request) (c : Connector)
      → IsTexts (answer_texts c (challenged h r c).0 r.name)
      → 36 + length (joined (answer_texts c (challenged h r c).0 r.name)) ≤ buf_size
      → (c' : Connector) × (respond h r c ≡ sends (challenged h r c).1 c') × IsResponse h r c c'
  unfolding respond finish
  respond-IsResponse r c t small =
      let texts = answer_texts c (challenged h r c).0 r.name in
      let charset = if c.character_set == 0 then r.character_set else c.character_set in
      let n = total-joined texts in
      let head = put_all c.buf 4 (answer_head charset) in
      let all = put_all head 36 texts in
      let c1 = record c {
        character_set = charset;
        auth_plugin_data =
            if has_flag r.capability_flags secure_connection
            then take nonce_length r.auth_plugin_data
            else c.auth_plugin_data;
      } in
      let c' = finish (32 + total texts) 1 all c1 in
      let (len, number, same) =
        finish-framed (32 + total texts) 1 all c1 (omega (arith, n, small)) in
      let (heads, set) = put_head c.buf charset in
      let fits : ltb buf_size (36 + total texts) ≡ false =
        le→not-ltb buf_size (36 + total texts) (omega (arith, n, small)) in
      (
        c',
        ap (λ x. if x then overrun else sends (challenged h r c).1 c') fits,
        (
          omega (arith, n),
          omega (arith, n, small),
          len,
          number,
          Holds-ext head c'.buf 4 (9 ∷ 130 ∷ 10 ∷ 0 ∷ 44 ∷ 1 ∷ 0 ∷ 0 ∷ [])
              (λ i p q. same i (omega arith) ∙ put_all-before head 36 texts i (omega arith)) heads,
          same 12 (omega arith) ∙ put_all-before head 36 texts 12 (omega arith) ∙ set,
          Holds-ext all c'.buf 36 (joined texts) (λ i p q. same i (omega arith))
              (Holds-put_all head 36 texts t),
        ),
      )

  -- If the hash functions give digests of 20 and of 32 bytes, the user and the database are made
  -- of bytes, a greeting that is whole by its length as an unsigned 32-bit number and is not an
  -- ERR packet has been read as a request within the memory of the buffer, and the answer fits the
  -- 512 bytes for it, then mysql_handshake has a packet sent whose length field is the length of
  -- its payload, with the number 1, the flags and the packet size of the client and the character
  -- set, and from byte 36 on the user with a zero, the answer to the challenge behind its length,
  -- the database with a zero and the plugin's name with a zero; the next state is the one that the
  -- plugin asks for.
  pub handshake-IsResponse :
      (m : Memory) (len size : ℕ) (c : Connector) (r : Request)
      → IsText c.user
      → IsText c.database
      → header_size + uint3korr m 0 ≤ len % 2 ^ 32
      → byte m 4 ≢ packet_err
      → greeted m (len % 2 ^ 32) size ≡ some r
      → 36 + length (joined (answer_texts c (challenged h r c).0 r.name)) ≤ buf_size
      → (c' : Connector) × (handshake h m len size c ≡ sends (challenged h r c).1 c')
        × IsResponse h r c c'
  unfolding handshake
  handshake-IsResponse m len size c r user database whole good e small =
      let name : IsText r.name = subst Named e (greeted-Named m (len % 2 ^ 32) size) in
      let (c', run, response) =
        respond-IsResponse r c (answer_texts-IsTexts r c name user database) small in
      (
        c',
        rw
            (
              le→not-ltb (len % 2 ^ 32) (header_size + uint3korr m 0) whole,
              not_same (byte m 4) packet_err good,
              e,
            )
            run,
        response,
      )
