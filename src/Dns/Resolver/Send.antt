-- ===== src/Dns/Resolver/Send.antt =====
-- The packet that swDNSResolver_request of swoole_async.cc makes of a domain.
use async_ext.Prelude.{
  ℕ, ◌+◌, ◌-◌, ◌/◌, ◌%◌, ◌<◌, ◌≡◌, refl, sym, ap, subst, ◌∙◌, some, List, [], ◌∷◌, ◌++◌, length,
  length-append, get_or, arith,
}
use async_ext.Str.{Memory, byte, store, slice}
use async_ext.Str.Holds.{IsText, Holds, Holds-get_or, Holds-concat, Holds-ext, slice-Holds}
use async_ext.Dns.Name.{dot, strlen}
use async_ext.Dns.Name.Encode.{dotted, encode_labels, IsLabels, domain_encode-labels}
use async_ext.Dns.Name.Rounds.{IsName, text_size, length-dotted, labels_nonzero, strlen-of}
use async_ext.Dns.Packet.{Platform}
use async_ext.Dns.Resolver.{htons, question_header, question_name, question}

-- A text as a C string.
abbrev pub c_str : List ℕ → Memory
c_str text i = get_or text i 0

get_or-length : (text : List ℕ) → get_or text (length text) 0 ≡ 0
get_or-length [] = refl
get_or-length (c ∷ cs) = get_or-length cs

-- The header of a question in bytes, and the question behind it.
abbrev pub header_bytes : ℕ → List ℕ
header_bytes id = (id / 256 % 256) ∷ (id % 256) ∷ 1 ∷ 0 ∷ 0 ∷ 1 ∷ 0 ∷ 0 ∷ 0 ∷ 0 ∷ 0 ∷ 0 ∷ []

abbrev pub question_bytes : ℕ → List (List ℕ) → List ℕ
question_bytes id ls = header_bytes id ++ (encode_labels ls ++ (0 ∷ 1 ∷ 0 ∷ 1 ∷ []))

question_header-Holds : (id : ℕ) (m : Memory) → Holds (question_header id m) 0 (header_bytes id)
unfolding question_header store
question_header-Holds id m = omega arith

pub length-encode_labels : (ls : List (List ℕ)) → length (encode_labels ls) ≡ text_size ls + 1
length-encode_labels [] = refl
length-encode_labels (l ∷ ls) =
    omega (arith, length-append l (encode_labels ls), length-encode_labels ls)

flags-Holds : (m : Memory) (k : ℕ) → Holds (htons (htons m k 1) (k + 2) 1) k (0 ∷ 1 ∷ 0 ∷ 1 ∷ [])
unfolding store
flags-Holds m k = (ground arith, (ground arith, (ground arith, (ground arith, tt))))

flags-before : (m : Memory) (k j : ℕ) → j < k → byte (htons (htons m k 1) (k + 2) 1) j ≡ byte m j
unfolding store
flags-before m k j l = ground arith

question-question_bytes :
    (p : Platform) (m : Memory) (id : ℕ) (ls : List (List ℕ))
    → IsName ls
    → Holds m 0 (header_bytes id)
    → Holds m 12 (encode_labels ls)
    → 12 + text_size ls < p.buffer_size_std
    → question p m ≡ some (question_bytes id ls)
unfolding question
question-question_bytes p m id ls s h0 h12 fits =
    let n = text_size ls in
    let (z, rest) = labels_nonzero m 12 ls s h12 in
    let size : strlen (p.buffer_size_std - 12) m 12 ≡ some n =
      strlen-of n _ m 12 rest z (omega arith) in
    let k = 12 + (n + 1) in
    let m' = htons (htons m k 1) (k + 2) 1 in
    let front : Holds m' 0 (header_bytes id) =
      Holds-ext m m' 0 (header_bytes id) (λ i a b. flags-before m k i (omega arith)) h0 in
    let name : Holds m' 12 (encode_labels ls) =
      Holds-ext m m' 12 (encode_labels ls)
        (λ i a b. flags-before m k i (omega (arith, length-encode_labels ls))) h12 in
    let behind = Holds-concat m' 12 (encode_labels ls) (0 ∷ 1 ∷ 0 ∷ 1 ∷ []) name (
      subst (λ j. Holds m' j (0 ∷ 1 ∷ 0 ∷ 1 ∷ [])) {x = k} (omega (arith, length-encode_labels ls))
        (flags-Holds m k)) in
    let all =
      Holds-concat m' 0 (header_bytes id) (encode_labels ls ++ (0 ∷ 1 ∷ 0 ∷ 1 ∷ [])) front behind in
    let len : length (question_bytes id ls) ≡ k + 4 =
      omega
        (arith, length-append (encode_labels ls) (0 ∷ 1 ∷ 0 ∷ 1 ∷ []), length-encode_labels ls) in
    rw size (ap some (ap (slice m' 0) (sym len) ∙ slice-Holds m' 0 (question_bytes id ls) all))

-- For a domain of bytes with which the question fits the packet, whose labels are non-empty, have
-- no dot and no zero and fewer than 128 chars, the packet that swDNSResolver_request makes is the
-- header with the id, the encoded name and the question for an A record of class 1.
pub question_name-question_bytes :
    (p : Platform) (stack : Memory) (domain : List ℕ) (id : ℕ) (ls : List (List ℕ))
    → IsText domain
    → IsLabels ls
    → IsName ls
    → domain ++ (dot ∷ []) ≡ dotted ls
    → length domain + 13 < p.buffer_size_std
    → (m : Memory) × (question_name stack domain id ≡ some m)
      × (question p m ≡ some (question_bytes id ls))
unfolding question_name
question_name-question_bytes p stack domain id ls t labels name e fits =
    let m0 = question_header id stack in
    let (m, run, held, front) =
      domain_encode-labels (c_str domain) m0 0 12 domain ls labels e
        (Holds-get_or (c_str domain) 0 domain t (λ i l. ap (c_str domain) (omega arith)))
        (ap (λ v. v % 256)
          (ap (c_str domain) {x = 0 + length domain} {y = length domain} (omega arith)
            ∙ get_or-length domain)) in
    let h0 =
      Holds-ext m0 m 0 (header_bytes id) (λ i a b. front i (omega arith))
        (question_header-Holds id stack) in
    (
      m,
      run,
      question-question_bytes p m id ls name h0 held
          (omega (arith, length-dotted ls, ap length e, length-append domain (dot ∷ []))),
    )
