-- ===== src/Mysql/Auth/Written.antt =====
-- Texts that are written to `connector->buf`, and the header in front of them.
use async_ext.Prelude.{
  ℕ, ◌+◌, ◌%◌, ◌^◌, ◌<◌, ◌≡◌, refl, ◌∙◌, List, [], ◌∷◌, ◌++◌, length, length-append, arith,
}
use async_ext.Str.{Memory, byte, memcpy, store}
use async_ext.Str.Holds.{IsText, Holds, Holds-concat, Holds-ext, memcpy-before}
use async_ext.Str.Patch.{chars, Holds-memcpy}
use async_ext.Mysql.Wire.{pack_length, uint3korr}
use async_ext.Mysql.Auth.{Connector, put, finish}
use async_ext.Mysql.Auth.Greeting.{put_all, total, answer_head}

abbrev pub IsTexts : List (List ℕ) → Type 0
IsTexts [] = Unit {0}
IsTexts (text ∷ texts) = IsText text × IsTexts texts

abbrev pub joined : List (List ℕ) → List ℕ
joined [] = []
joined (text ∷ texts) = text ++ joined texts

pub put_all-before :
    (m : Memory) (k : ℕ) (texts : List (List ℕ)) (i : ℕ)
    → i < k
    → byte (put_all m k texts) i ≡ byte m i
unfolding put_all put
put_all-before m k [] i l = refl
put_all-before m k (text ∷ texts) i l =
    put_all-before (put m k text) (k + length text) texts i (omega arith)
    ∙ memcpy-before m (chars text) k 0 (length text) i l

pub Holds-put_all :
    (m : Memory) (k : ℕ) (texts : List (List ℕ))
    → IsTexts texts
    → Holds (put_all m k texts) k (joined texts)
unfolding put_all put
Holds-put_all m k [] t = tt
Holds-put_all m k (text ∷ texts) t =
    let m' = put m k text in
    let all = put_all m' (k + length text) texts in
    Holds-concat all k text (joined texts)
      (Holds-ext m' all k text (λ i p q. put_all-before m' (k + length text) texts i q)
        (Holds-memcpy m k text t.0))
      (Holds-put_all m' (k + length text) texts t.1)

-- The header that is written last.
pub finish-framed :
    (n number : ℕ) (m : Memory) (c : Connector)
    → n < 2 ^ 24
    → let b = (finish n number m c).buf in
      (uint3korr b 0 ≡ n) × (byte b 3 ≡ number % 256) × ((i : ℕ) → 3 < i → byte b i ≡ byte m i)
unfolding finish pack_length uint3korr store
finish-framed n number m c l = (ground arith, ground arith, λ i h. ground arith)

pub put_head :
    (m : Memory) (charset : ℕ)
    → let b = put_all m 4 (answer_head charset) in
      Holds b 4 (9 ∷ 130 ∷ 10 ∷ 0 ∷ 44 ∷ 1 ∷ 0 ∷ 0 ∷ []) × (byte b 12 ≡ charset % 256)
unfolding put_all put memcpy store
put_head m charset =
    ((refl, (refl, (refl, (refl, (refl, (refl, (refl, (refl, tt)))))))), omega arith)

pub total-joined : (texts : List (List ℕ)) → total texts ≡ length (joined texts)
total-joined [] = refl
total-joined (text ∷ texts) = omega (arith, total-joined texts, length-append text (joined texts))
