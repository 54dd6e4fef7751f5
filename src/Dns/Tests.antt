-- ===== src/Dns/Tests.antt =====
-- Tests of the model of the DNS resolver of swoole_async.cc, and instances of its theorems.
mod Message
use async_ext.Prelude.{
  ℕ, zero, suc, ◌+◌, ◌*◌, ◌%◌, ◌≡◌, ◌≢◌, ◌⊎◌, ◌<◌, refl, Option, none, some, List, [], ◌∷◌, ◌++◌,
  length, get_or, arith, ◌>>=◌, map,
}
use async_ext.Str.{Memory, byte, slice}
use async_ext.Str.Holds.{Holds, Holds-get_or}
use async_ext.Dns.Name.{dot, encode_loop, end_name, domain_encode, domain_decode, decode_loop}
use async_ext.Dns.Name.Encode.{dotted, encode_labels, IsLabels, domain_encode-labels}
use async_ext.Dns.Name.Rounds.{IsName}
use async_ext.Dns.Name.Decode.{domain_decode-domain_encode}

-- "a.bc" and its labels.
abbrev pub text : List ℕ
text = 97 ∷ 46 ∷ 98 ∷ 99 ∷ []

abbrev pub labels : List (List ℕ)
labels = (97 ∷ []) ∷ (98 ∷ 99 ∷ []) ∷ []

abbrev pub c_text : Memory
c_text i = get_or text i 0

abbrev pub blank : Memory
blank i = 7

encoded_bytes :
    (domain_encode c_text 0 4 blank 3 >>= λ m. some (slice m 3 6)) ≡ some (encode_labels labels)
unfolding domain_encode
encoded_bytes = refl

-- An empty label ends the name where `strlen` stops.
empty_label :
    (domain_encode (λ i. get_or (97 ∷ 46 ∷ 46 ∷ 98 ∷ []) i 0) 0 4 blank 0 >>= λ m.
    some (slice m 0 5))
    ≡ some (1 ∷ 97 ∷ 0 ∷ 1 ∷ 98 ∷ [])
unfolding domain_encode
empty_label = refl

decoded_bytes :
    (domain_decode 16 (λ i. get_or (encode_labels labels) i 0) 0 >>= λ m. some (slice m 0 5))
    ≡ some (text ++ (0 ∷ []))
unfolding domain_decode
decoded_bytes = refl

pub labels-IsLabels : IsLabels labels
labels-IsLabels = omega arith

pub labels-IsName : IsName labels
labels-IsName = omega arith

c_text-Holds : Holds c_text 0 text
c_text-Holds = (refl, (refl, (refl, (refl, tt))))

domain_encode-labels_example :
    (m : Memory) × (domain_encode c_text 0 4 blank 3 ≡ some m)
    × Holds m 3 (encode_labels labels)
    × ((j : ℕ) → j < 3 → byte m j ≡ byte blank j)
domain_encode-labels_example =
    domain_encode-labels c_text blank 0 3 text labels labels-IsLabels refl c_text-Holds refl

domain_decode-domain_encode_example :
    (m : Memory) × ((domain_encode c_text 0 4 blank 3 >>= λ m'. domain_decode 16 m' 3) ≡ some m)
    × Holds m 3 (text ++ (0 ∷ []))
domain_decode-domain_encode_example =
    domain_decode-domain_encode 16 c_text blank 0 3 text labels labels-IsLabels labels-IsName refl
      c_text-Holds refl (omega arith)
