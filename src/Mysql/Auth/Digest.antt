-- ===== src/Mysql/Auth/Digest.antt =====
-- The answers to a challenge, as bytes.
use async_ext.Prelude.{
  ℕ, zero, suc, ◌*◌, ◌/◌, ◌%◌, ◌<◌, ◌≤◌, ◌≡◌, inl, inr, Bool-cases, Option, none, some, List, [],
  ◌∷◌, ◌++◌, take, length, arith,
}
use Prim.Native.Nat.{bit_xor, bit_xor-bitwise, digits, differ}
use async_ext.Str.Holds.{IsText}
use async_ext.Mysql.Auth.{
  Connector, Crypto, nonce_length, xor_bytes, native_password, sha2_password, encrypt_dispatch,
  same_name, native_name, sha2_name,
}
use async_ext.Mysql.Auth.Greeting.{Request, challenged}

abbrev pow2 : ℕ → ℕ
pow2 zero = 1
pow2 (suc w) = pow2 w * 2

abbrev xor_digits : ℕ → ℕ → ℕ → ℕ
xor_digits n a b = digits (λ b. b) differ n a b

differ-lt : (x y : ℕ) → x < 2 → y < 2 → differ x y < 2
differ-lt zero y h k = k
differ-lt (suc zero) zero h k = h
differ-lt (suc zero) (suc y) h k = omega arith
differ-lt (suc (suc x)) y h k = absurd (omega arith)

xor_digits-lt : (w n a b : ℕ) → a < pow2 w → b < pow2 w → xor_digits n a b < pow2 w
xor_digits-lt w zero a b h k = k
xor_digits-lt w (suc n) zero b h k = k
xor_digits-lt zero (suc n) (suc a) b h k = absurd (omega arith)
xor_digits-lt (suc w) (suc n) (suc a) b h k = omega (
  arith,
  xor_digits-lt w n (suc a / 2) (b / 2) (omega arith) (omega arith),
  differ-lt (suc a % 2) (b % 2) (omega arith) (omega arith),
)

bit_xor-lt : (a b : ℕ) → a < 256 → b < 256 → bit_xor a b < 256
bit_xor-lt a b h k = omega (arith, bit_xor-bitwise a b, xor_digits-lt 8 a a b h k)

xor_bytes-IsText : (xs ys : List ℕ) → IsText xs → IsText ys → IsText (xor_bytes xs ys)
unfolding xor_bytes
xor_bytes-IsText [] ys t u = tt
xor_bytes-IsText (x ∷ xs) [] t u = tt
xor_bytes-IsText (x ∷ xs) (y ∷ ys) t u = (bit_xor-lt x y t.0 u.0, xor_bytes-IsText xs ys t.1 u.1)

length-xor_bytes : (xs ys : List ℕ) → length (xor_bytes xs ys) ≤ length xs
unfolding xor_bytes
length-xor_bytes [] ys = omega arith
length-xor_bytes (x ∷ xs) [] = omega arith
length-xor_bytes (x ∷ xs) (y ∷ ys) = omega (arith, length-xor_bytes xs ys)

-- What is documented of the hash functions: digests of 20 and of 32 bytes.
abbrev pub Digests : Crypto → Type 0
Digests h =
    ((text : List ℕ) → IsText (h.sha1 text) × (length (h.sha1 text) ≡ 20))
    × ((text : List ℕ) → IsText (h.sha256 text) × (length (h.sha256 text) ≡ 32))

-- Bytes, and no more than 32.
abbrev pub IsAnswer : List ℕ → Type 0
IsAnswer bs = IsText bs × (length bs ≤ 32)

module _ (h : Crypto) (d : Digests h) where
  native_password-IsAnswer : (password nonce : List ℕ) → IsAnswer (native_password h password nonce)
  unfolding native_password
  native_password-IsAnswer password nonce =
      let hash_0 = h.sha1 password in
      let text = take nonce_length nonce ++ h.sha1 hash_0 in
      (
        xor_bytes-IsText (h.sha1 text) hash_0 (d.0 text).0 (d.0 password).0,
        omega (arith, length-xor_bytes (h.sha1 text) hash_0, (d.0 text).1),
      )

  sha2_password-IsAnswer : (password nonce : List ℕ) → IsAnswer (sha2_password h password nonce)
  unfolding sha2_password
  sha2_password-IsAnswer password nonce =
      let hashed = h.sha256 password in
      let text = h.sha256 hashed ++ take nonce_length nonce in
      (
        xor_bytes-IsText hashed (h.sha256 text) (d.1 password).0 (d.1 text).0,
        omega (arith, length-xor_bytes hashed (h.sha256 text), (d.1 password).1),
      )

  encrypt_dispatch-IsAnswer :
      (plugin : Option (List ℕ)) (password nonce : List ℕ)
      → IsAnswer (encrypt_dispatch h plugin password nonce).0
  unfolding encrypt_dispatch
  encrypt_dispatch-IsAnswer none password nonce = native_password-IsAnswer password nonce
  encrypt_dispatch-IsAnswer (some plugin) password nonce =
      elim (Bool-cases (same_name native_name plugin)) [
        | inl e ↦ rw e (native_password-IsAnswer password nonce)
        | inr e ↦ elim (Bool-cases (same_name sha2_name plugin)) [
          | inl f ↦ rw (e, f) (sha2_password-IsAnswer password nonce)
          | inr f ↦ rw (e, f) (tt, omega arith)
        ]
      ]

  pub challenged-IsAnswer : (r : Request) (c : Connector) → IsAnswer (challenged h r c).0
  unfolding challenged
  challenged-IsAnswer r c =
      ground (arith, encrypt_dispatch-IsAnswer r.plugin c.password r.auth_plugin_data)
