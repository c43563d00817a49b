-- ===== src/Store/Accounts/Tokens.antt =====
-- internal/store/account.go: the random token of an account, its digest, and the token under the node's
-- key. SHA-256 and AES-GCM are parameters.
use moan_subs.Prelude.{
  ℕ, zero, suc, ◌≤◌, ◌≡◌, refl, sym, ◌∙◌, Bool, true, false, List, [], ◌∷◌, ◌++◌, Option, none,
  some, arith, ltb, if◌then◌else◌, ◌/◌, ◌%◌, length, length-append,
}
use moan_subs.Prelude.Text.{Text}
use moan_subs.Hash.Hex.{digit}

-- hex.EncodeToString.
unfoldable pub hex_encode : List ℕ → Text
hex_encode [] = []
hex_encode (b ∷ bytes) = digit (b / 16) ∷ digit (b % 16) ∷ hex_encode bytes

-- HashToken.
unfoldable pub hash_token : (Text → List ℕ) → Text → Text
hash_token sha256 token = hex_encode (sha256 token)

-- generateAccountToken, with the bytes that were drawn: the token and its digest.
unfoldable pub generate_account_token : (Text → List ℕ) → List ℕ → Text × Text
generate_account_token sha256 bytes =
    let token = hex_encode bytes in (token, hash_token sha256 token)

-- aes.NewCipher with cipher.NewGCM: whether a key is taken, the size of a nonce, Seal and
-- Open.
pub record Gcm : Type 0 where
  pub accepts : List ℕ → Bool
  pub nonce_size : ℕ
  pub seal : List ℕ → List ℕ → Text → List ℕ
  pub unseal : List ℕ → List ℕ → List ℕ → Option Text

abbrev pub token_nonce_bytes : ℕ
token_nonce_bytes = 12

-- encryptUnderKey, with the nonce that was drawn: an error is none, and a NULL is some none.
unfoldable pub encrypt_under_key : Gcm → List ℕ → List ℕ → Text → Option (Option (List ℕ))
encrypt_under_key gcm [] nonce plain = some none
encrypt_under_key gcm (k ∷ key) nonce plain =
    if gcm.accepts (k ∷ key) then some (some (nonce ++ gcm.seal (k ∷ key) nonce plain)) else none

-- enc[:n] and enc[n:], for an n of at most the length.
unfoldable pub split_at : ℕ → List ℕ → List ℕ × List ℕ
split_at zero s = ([], s)
split_at (suc n) [] = ([], [])
split_at (suc n) (c ∷ s) = let (front, back) = split_at n s in (c ∷ front, back)

-- decryptUnderKey, for a ciphertext of at least the nonce's size.
unfoldable pub decrypt_under_key : Gcm → List ℕ → List ℕ → Option Text
decrypt_under_key gcm [] enc = none
decrypt_under_key gcm (k ∷ key) enc =
    let (nonce, sealed) = split_at gcm.nonce_size enc in
    if ltb (length enc) token_nonce_bytes
    then none
    else if gcm.accepts (k ∷ key)
    then gcm.unseal (k ∷ key) nonce sealed
    else none

split_at-append :
    (n : ℕ) (front back : List ℕ) → length front ≡ n → split_at n (front ++ back) ≡ (front, back)
unfolding split_at
split_at-append zero [] back h = refl
split_at-append zero (c ∷ front) back h = absurd (omega arith)
split_at-append (suc n) [] back h = absurd (omega arith)
split_at-append (suc n) (c ∷ front) back h = rw (split_at-append n front back (omega arith))

-- A cipher whose Open undoes its Seal, under the standard nonce.
abbrev pub OpensSealed : Gcm → Type 0
OpensSealed gcm =
    (gcm.nonce_size ≡ token_nonce_bytes)
    × ((key nonce : List ℕ) (plain : Text)
        → gcm.unseal key nonce (gcm.seal key nonce plain) ≡ some plain)

length-encrypted :
    (nonce sealed : List ℕ)
    → length nonce ≡ token_nonce_bytes
    → ltb (length (nonce ++ sealed)) token_nonce_bytes ≡ false
length-encrypted nonce sealed h = ground (arith, length-append nonce sealed)

-- With a GCM whose Open undoes its Seal under nonces of the standard size: without a key nothing is
-- stored and nothing is read; under a key that the cipher takes, and a nonce of the standard size, a
-- token is stored and is read back from what is stored; under another key, encryption fails.
pub decrypt-encrypt_under_key :
    (gcm : Gcm) (key nonce : List ℕ) (plain : Text)
    → OpensSealed gcm
    → length nonce ≡ token_nonce_bytes
    → ((key ≡ [])
        → (encrypt_under_key gcm key nonce plain ≡ some none)
          × ((enc : List ℕ) → decrypt_under_key gcm key enc ≡ none))
      × ((1 ≤ length key)
          → gcm.accepts key ≡ true
          → (enc : List ℕ) × (encrypt_under_key gcm key nonce plain ≡ some (some enc))
            × (decrypt_under_key gcm key enc ≡ some plain))
      × ((1 ≤ length key) → gcm.accepts key ≡ false → encrypt_under_key gcm key nonce plain ≡ none)
unfolding encrypt_under_key decrypt_under_key
decrypt-encrypt_under_key gcm [] nonce plain opens drawn =
    (λ _. (refl, λ enc. refl), λ h. absurd (omega arith), λ h. absurd (omega arith))
decrypt-encrypt_under_key gcm (k ∷ key) nonce plain (size, undo) drawn = (
  λ h. absurd (cc),
  λ _ accepted.
      let sealed = gcm.seal (k ∷ key) nonce plain in
      (
        nonce ++ sealed,
        rw accepted,
        rw
            (
              length-encrypted nonce sealed drawn,
              accepted,
              split_at-append gcm.nonce_size nonce sealed (drawn ∙ sym size),
            )
            (undo (k ∷ key) nonce plain),
      ),
  λ _ refused. rw refused,
)
