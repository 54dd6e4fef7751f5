-- ===== src/Dns/Resolver/Deliver.antt =====
-- The parsing in swDNSResolver_onReceive of swoole_async.cc on an answer with addresses.
use async_ext.Prelude.{
  ℕ, zero, suc, ◌+◌, ◌-◌, ◌*◌, ◌/◌, ◌%◌, ◌^◌, ◌<◌, ◌≤◌, ◌≡◌, inl, inr, refl, ap, subst, ◌∙◌, false,
  some, List, [], ◌∷◌, ◌++◌, min, map, take, get_or, length, length-append, arith, ltb, lt→ltb,
  ◌==◌, if◌then◌else◌,
}
use async_ext.Str.{Memory, byte, store}
use async_ext.Str.Holds.{
  IsText, Holds, Holds-append, Holds-ext, Holds-byte, Holds-get_or, byte-store_ne,
}
use async_ext.Dns.Name.{dot, domain_decode}
use async_ext.Dns.Name.Encode.{dotted, encode_labels}
use async_ext.Dns.Name.Rounds.{IsName, length-dotted}
use async_ext.Dns.Name.Decode.{domain_decode-labels}
use async_ext.Dns.Packet.{Platform, Answer, ntohs, received, text_at, read_reply, addresses}
use async_ext.Dns.Packet.Row.{IsPlainText}
use async_ext.Dns.Packet.Address.{AddressRecord, records_bytes, print, read_records-addresses}
use async_ext.Dns.Resolver.Send.{length-encode_labels}

received-Holds :
    (stack : Memory) (bytes : List ℕ) → IsText bytes → Holds (received stack bytes) 0 bytes
unfolding received
received-Holds stack bytes t =
    let m = λ (i : ℕ). if ltb i (length bytes) then get_or bytes i 0 else stack i in
    Holds-ext m (store m (length bytes) 0) 0 bytes
      (λ i a b. byte-store_ne m (length bytes) 0 i (inl (omega arith)))
      (Holds-get_or m 0 bytes t (λ i l.
        rw (lt→ltb (0 + i) (length bytes) (omega arith))
          (ap (λ j. get_or bytes j 0) {x = 0 + i} {y = i} (omega arith))))

text_at-Holds :
    (room : ℕ) (m : Memory) (k : ℕ) (text : List ℕ)
    → IsPlainText text
    → Holds m k (text ++ (0 ∷ []))
    → length text < room
    → text_at room m k ≡ some text
unfolding text_at
text_at-Holds zero m k text t h l = elim l [ ]
text_at-Holds (suc room) m k [] t h l = rw (h.0) refl
text_at-Holds (suc room) m k (c ∷ cs) (pos, small, t) h l =
    let go : (c == 0) ≡ false = ground arith in
    rw (h.0, go, text_at-Holds room m (k + 1) cs t h.1 (omega arith)) refl

-- The fields of an answer that the code does not look at.
pub record Ignored : Type 0 where
  pub flags : ℕ × ℕ
  pub qdcount : ℕ × ℕ
  pub nscount : ℕ × ℕ
  pub arcount : ℕ × ℕ
  pub question : ℕ × ℕ × ℕ × ℕ

-- The header of an answer with `n` records.
abbrev pub reply_header : Ignored → ℕ → ℕ → List ℕ
reply_header g id n =
    (id / 256)
    ∷ (id % 256)
    ∷ g.flags.0
    ∷ g.flags.1
    ∷ g.qdcount.0
    ∷ g.qdcount.1
    ∷ 0
    ∷ n
    ∷ g.nscount.0
    ∷ g.nscount.1
    ∷ g.arcount.0
    ∷ g.arcount.1
    ∷ []

abbrev pub question_flags : Ignored → List ℕ
question_flags g = g.question.0 ∷ g.question.1 ∷ g.question.2 ∷ g.question.3 ∷ []

abbrev pub reply_bytes : Ignored → ℕ → List (List ℕ) → List AddressRecord → List ℕ
reply_bytes g id ls rs =
    reply_header g id (length rs) ++ (encode_labels ls ++ (question_flags g ++ records_bytes rs))

length-records_bytes : (rs : List AddressRecord) → length (records_bytes rs) ≡ 16 * length rs
length-records_bytes [] = refl
length-records_bytes (r ∷ rs) = omega (arith, length-records_bytes rs)

-- What is left to do when the question's name is decoded.
read_reply-decoded :
    (p : Platform) (fuel : ℕ) (stack : Memory) (bytes : List ℕ) (m : Memory) (id : ℕ)
    (text : List ℕ) (rs : List AddressRecord)
    → domain_decode (p.client_buffer_size - 12) (received stack bytes) 12 ≡ some m
    → Holds m 12 (text ++ (0 ∷ []))
    → ntohs m 6 ≡ length rs
    → ntohs m 0 ≡ id
    → Holds m (length text + 18) (records_bytes rs)
    → length text + 18 + 16 * length rs < p.client_buffer_size
    → p.client_buffer_size ≤ 2 ^ 16
    → IsPlainText text
    → 0 < length text
    → length text ≤ 125
    → length rs ≤ 10
    → length text < fuel
    → (answers : List Answer) × (read_reply p (suc fuel) stack bytes
        ≡ some (record { domain = text; answers = answers; id = id }))
      × ((left : ℕ) → addresses p left answers ≡ take left (map (print p) rs))
unfolding read_reply
read_reply-decoded p fuel stack bytes m id text rs run named count number held fits small plain pos
      len ten enough =
    let (answers, read, same) =
      read_records-addresses p fuel p.client_buffer_size stack m (length text + 18) text rs held
        fits small plain named pos len (omega arith) enough in
    let known = text_at-Holds (p.client_buffer_size - 12) m 12 text plain named (omega arith) in
    let at : (12 + (length text + 2) + 4) % 65536 ≡ length text + 18 = omega arith in
    let all : min (ntohs m 6) 10 ≡ length rs = omega arith in
    (answers, rw (run, known, at, all, read, number) refl, same)

-- For an answer of bytes that is shorter than the buffer, which has at most 2^16 bytes, to a
-- question whose name has non-empty labels of chars from 1 to 127 and at most 125 chars in all,
-- with up to ten A records that point to the question's name, and with more fuel than chars, the
-- parsing in swDNSResolver_onReceive gives the name with dots, the answer's id, and records of
-- which the addresses that were sent are made, in their order and as many as there is room for.
pub read_reply-reply_bytes :
    (p : Platform) (fuel : ℕ) (stack : Memory) (g : Ignored) (id : ℕ) (text : List ℕ)
    (ls : List (List ℕ)) (rs : List AddressRecord)
    → IsText (reply_bytes g id ls rs)
    → length (reply_bytes g id ls rs) < p.client_buffer_size
    → p.client_buffer_size ≤ 2 ^ 16
    → IsName ls
    → text ++ (dot ∷ []) ≡ dotted ls
    → IsPlainText text
    → 0 < length text
    → length text ≤ 125
    → length rs ≤ 10
    → length text < fuel
    → (answers : List Answer) × (read_reply p (suc fuel) stack (reply_bytes g id ls rs)
        ≡ some (record { domain = text; answers = answers; id = id }))
      × ((left : ℕ) → addresses p left answers ≡ take left (map (print p) rs))
read_reply-reply_bytes p fuel stack g id text ls rs t fits small s e plain pos len ten enough =
    let names = encode_labels ls in
    let behind = question_flags g ++ records_bytes rs in
    let m0 = received stack (reply_bytes g id ls rs) in
    let head = reply_header g id (length rs) in
    let (h0, h1) =
      Holds-append m0 0 head (names ++ behind) (received-Holds stack (reply_bytes g id ls rs) t) in
    let (h2, h3) = Holds-append m0 12 names behind h1 in
    let (h4, h5) = Holds-append m0 (12 + length names) (question_flags g) (records_bytes rs) h3 in
    let n : length names ≡ length text + 2 = omega (
      arith,
      length-encode_labels ls,
      length-dotted ls,
      ap length e,
      length-append text (dot ∷ []),
    ) in
    let total : length text + 18 + 16 * length rs < p.client_buffer_size =
      omega (arith, length-append names behind, length-records_bytes rs) in
    let (m, decoded, named, keep) =
      domain_decode-labels (p.client_buffer_size - 12) m0 12 text ls s e h2 (omega arith) in
    let at : (i : ℕ) → i < 12 → byte m i ≡ get_or head i 0 = λ i l.
      keep i (inl l)
      ∙ ap (byte m0) {x = i} {y = 0 + i} (omega arith)
      ∙ Holds-byte m0 0 head h0 i l in
    read_reply-decoded p fuel stack (reply_bytes g id ls rs) m id text rs decoded named
      (omega (arith, at 6 (omega arith), at 7 (omega arith)))
      (omega (arith, at 0 (omega arith), at 1 (omega arith)))
      (Holds-ext m0 m (length text + 18) (records_bytes rs) (λ i a b. keep i (inr (omega arith)))
        (subst (λ j. Holds m0 j (records_bytes rs)) (omega arith) h5))
      total small plain pos len ten enough
