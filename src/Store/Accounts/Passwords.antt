-- ===== src/Store/Accounts/Passwords.antt =====
-- internal/store/account.go: the encoded form of a password's hash, and its verification. PBKDF2 and
-- base64 are parameters.
pub mod Verify
use moan_subs.Prelude.{
  ℕ, zero, suc, ◌+◌, ◌-◌, ◌*◌, ◌/◌, ◌%◌, ◌^◌, ◌≤◌, ◌<◌, ◌≡◌, refl, sym, ap, ◌∙◌, Bool, true, false,
  ◌&&◌, List, [], ◌∷◌, ◌++◌, Option, none, some, arith, ltb, leb, ◌==◌, if◌then◌else◌, length, All,
  Bool-cases, inl, inr, ◌↔◌,
}
use native.Mathlib.Nat.{pow-suc}
use moan_subs.Store.Table.{All-map}
use moan_subs.Prelude.Decimal.{print_decimal}
use moan_subs.Prelude.Text.{Text, codes, text_eq, text_eq_refl, eq-text_eq}

-- strconv.Atoi for the values that VerifyPassword goes on with, the positive ones: digits after an
-- optional plus sign, at most 2^63 - 1. A minus sign gives a value below one or an error.
unfoldable pub read_digits : Text → ℕ → Option ℕ
read_digits [] v = some v
read_digits (c ∷ s) v =
    let rest = read_digits s (v * 10 + (c - b'0')) in
    if leb b'0' c && leb c b'9' then rest else none

abbrev pub in_range : Option ℕ → Option ℕ
in_range none = none
in_range (some v) = if ltb v (2 ^ 63) && leb 1 v then some v else none

unfoldable pub positive_int : Text → Option ℕ
positive_int [] = none
positive_int (c ∷ s) =
    if c == b'+'
    then elim s [ [] ↦ none | d ∷ s' ↦ in_range (read_digits (d ∷ s') 0) ]
    else in_range (read_digits (c ∷ s) 0)

-- strings.Split(s, "$").
abbrev pub open_part : ℕ → List Text → List Text
open_part c [] = (c ∷ []) ∷ []
open_part c (part ∷ parts) = (c ∷ part) ∷ parts

unfoldable pub split_dollars : Text → List Text
split_dollars [] = [] ∷ []
split_dollars (c ∷ s) =
    let parts = split_dollars s in if c == b'$' then [] ∷ parts else open_part c parts

-- base64.StdEncoding and pbkdf2.Key with SHA-256: password, salt, iterations and length of the key.
pub record Crypto : Type 0 where
  pub encode64 : List ℕ → Text
  pub decode64 : Text → Option (List ℕ)
  pub pbkdf2 : Text → List ℕ → ℕ → ℕ → Option (List ℕ)

abbrev pub pbkdf2_key_bytes : ℕ
pbkdf2_key_bytes = 32

abbrev pub scheme : Text
scheme = codes "pbkdf2-sha256"

abbrev pub encoded_hash : Crypto → ℕ → List ℕ → List ℕ → Text
encoded_hash crypto iterations salt key =
    scheme
    ++ b'$'
      ∷ (print_decimal 20 iterations []
          ++ b'$' ∷ (crypto.encode64 salt ++ b'$' ∷ crypto.encode64 key))

-- HashPassword, with the salt that was drawn.
unfoldable pub hash_password : Crypto → ℕ → List ℕ → Text → Option Text
hash_password crypto iterations salt pw = elim (crypto.pbkdf2 pw salt iterations pbkdf2_key_bytes) [
  | none ↦ none
  | some key ↦ some (encoded_hash crypto iterations salt key)
]

abbrev pub key_is : Option (List ℕ) → List ℕ → Bool
key_is none want = false
key_is (some got) want = text_eq got want

abbrev pub key_matches : Crypto → Text → Option ℕ → Option (List ℕ) → Option (List ℕ) → Bool
key_matches crypto pw (some iterations) (some salt) (some want) =
    key_is (crypto.pbkdf2 pw salt iterations (length want)) want
key_matches crypto pw none salt want = false
key_matches crypto pw (some iterations) none want = false
key_matches crypto pw (some iterations) (some salt) none = false

abbrev pub verify_parts : Crypto → Text → List Text → Bool
verify_parts crypto pw (name ∷ iterations ∷ salt ∷ key ∷ []) =
    text_eq name scheme
    && key_matches crypto pw (positive_int iterations) (crypto.decode64 salt) (crypto.decode64 key)
verify_parts crypto pw [] = false
verify_parts crypto pw (a ∷ []) = false
verify_parts crypto pw (a ∷ b ∷ []) = false
verify_parts crypto pw (a ∷ b ∷ c ∷ []) = false
verify_parts crypto pw (a ∷ b ∷ c ∷ d ∷ e ∷ parts) = false

-- VerifyPassword.
unfoldable pub verify_password : Crypto → Text → Text → Bool
verify_password crypto encoded pw = verify_parts crypto pw (split_dollars encoded)
