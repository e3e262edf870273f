-- ===== src/Crypto.antt =====
-- src/common/crypto/crypto.service.ts. A text is the list of its bytes. The ciphers and the base64
-- coding of Node are not part of the repository, so they are an argument.
use mathlib.Core.Path.{subst}
use girvi_ghata_backend.Base.{
  ℕ, zero, suc, ◌≡◌, sym, Option, some, List, [], ◌∷◌, ◌++◌, length, take, skip, take-append,
  skip-append,
}

abbrev pub Text : Type 0
Text = List ℕ

-- `seal` is the cipher's `update`, `final` and `getAuthTag`: the ciphertext and its tag, from the
-- key, the initial vector and the plain text. `open_sealed` takes the key, the vector, the tag and
-- the ciphertext, and gives the plain text unless the tag does not fit.
pub record Cipher : Type 0 where
  pub seal : Text → Text → Text → Text × Text
  pub open_sealed : Text → Text → Text → Text → Option Text
  pub to_base64 : Text → Text
  pub from_base64 : Text → Text

pub record IsCipher (lib : Cipher) : Type 0 where
  pub tag_length : (key iv text : Text) → length (lib.seal key iv text).1 ≡ 16
  pub open_sealed-seal :
      (key iv text : Text)
      → lib.open_sealed key iv (lib.seal key iv text).1 (lib.seal key iv text).0 ≡ some text
  pub from_base64-to_base64 : (bytes : Text) → lib.from_base64 (lib.to_base64 bytes) ≡ bytes
  pub from_base64-empty : lib.from_base64 [] ≡ []

-- `iv` are the 12 bytes that `randomBytes` draws, and the key is the hash of the secret.
unfoldable pub encrypt : Cipher → Text → Text → Text → Text
encrypt lib key iv plain_text =
    let sealed = lib.seal key iv plain_text in lib.to_base64 (iv ++ (sealed.1 ++ sealed.0))

unfoldable pub decrypt : Cipher → Text → Text → Option Text
decrypt lib key payload =
    let buf = lib.from_base64 payload in
    let iv = take 12 buf in
    let auth_tag = take 16 (skip 12 buf) in
    let encrypted = skip 16 (skip 12 buf) in lib.open_sealed key iv auth_tag encrypted

-- The bytes of `X` and `-`.
abbrev pub x_mark : ℕ
x_mark = 88

abbrev pub dash : ℕ
dash = 45

abbrev pub x_marks : ℕ → Text
x_marks zero = []
x_marks (suc n) = x_mark ∷ x_marks n

unfoldable pub mask_aadhaar : Text → Text
mask_aadhaar last4 = x_marks 4 ++ (dash ∷ (x_marks 4 ++ (dash ∷ last4)))

-- What was encrypted with 12 random bytes is decrypted to itself under the same key.
pub decrypt-encrypt :
    {lib : Cipher}
    → IsCipher lib
    → (key iv plain_text : Text) → length iv ≡ 12
    → decrypt lib key (encrypt lib key iv plain_text) ≡ some plain_text
unfolding encrypt decrypt
decrypt-encrypt {lib} laws key iv text twelve =
    let sealed = lib.seal key iv text in
    let vector : take 12 (iv ++ (sealed.1 ++ sealed.0)) ≡ iv =
      subst (λ n. take n (iv ++ (sealed.1 ++ sealed.0)) ≡ iv) twelve (take-append iv _) in
    let rest : skip 12 (iv ++ (sealed.1 ++ sealed.0)) ≡ sealed.1 ++ sealed.0 =
      subst (λ n. skip n (iv ++ (sealed.1 ++ sealed.0)) ≡ sealed.1 ++ sealed.0) twelve
        (skip-append iv _) in
    let tag : take 16 (sealed.1 ++ sealed.0) ≡ sealed.1 =
      subst (λ n. take n (sealed.1 ++ sealed.0) ≡ sealed.1) (laws.tag_length key iv text)
        (take-append sealed.1 _) in
    let body : skip 16 (sealed.1 ++ sealed.0) ≡ sealed.0 =
      subst (λ n. skip n (sealed.1 ++ sealed.0) ≡ sealed.0) (laws.tag_length key iv text)
        (skip-append sealed.1 _) in
    let buffer = iv ++ (sealed.1 ++ sealed.0) in
    subst
      (λ buf.
        lib.open_sealed key (take 12 buf) (take 16 (skip 12 buf)) (skip 16 (skip 12 buf))
        ≡ some text)
      (sym (laws.from_base64-to_base64 buffer))
      (rw (vector, rest, tag, body) (laws.open_sealed-seal key iv text))
