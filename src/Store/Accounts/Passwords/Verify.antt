-- ===== src/Store/Accounts/Passwords/Verify.antt =====
-- internal/store/account.go: VerifyPassword reads what HashPassword wrote.
use moan_subs.Prelude.{
  ℕ, zero, suc, ◌+◌, ◌*◌, ◌/◌, ◌%◌, ◌^◌, ◌≤◌, ◌<◌, ◌≡◌, refl, sym, ap, ◌∙◌, true, false, List, [],
  ◌∷◌, ◌++◌, Option, none, some, arith, ltb, leb, ◌==◌, length, All, Bool-cases, inl, inr, ◌↔◌,
}
use native.Mathlib.Nat.{pow-suc}
use moan_subs.Store.Table.{All-map}
use moan_subs.Prelude.Decimal.{print_decimal}
use moan_subs.Prelude.Text.{Text, text_eq_refl, eq-text_eq}
use moan_subs.Store.Accounts.Passwords.{
  read_digits, positive_int, split_dollars, Crypto, pbkdf2_key_bytes, scheme, encoded_hash,
  hash_password, key_is, verify_parts, verify_password,
}

abbrev pub NoDollar : Text → Type 0
NoDollar = All (λ c. (c == b'$') ≡ false)

split_dollars-append :
    (front rest : Text)
    → NoDollar front
    → split_dollars (front ++ b'$' ∷ rest) ≡ front ∷ split_dollars rest
unfolding split_dollars
split_dollars-append [] rest _ = refl
split_dollars-append (c ∷ front) rest (h, hs) = rw (h, split_dollars-append front rest hs)

split_dollars-last : (last : Text) → NoDollar last → split_dollars last ≡ last ∷ []
unfolding split_dollars
split_dollars-last [] _ = refl
split_dollars-last (c ∷ last) (h, hs) = rw (h, split_dollars-last last hs)

abbrev IsDigit : ℕ → Type 0
IsDigit c = (b'0' ≤ c) × (c ≤ b'9')

print_decimal-Digits :
    (n v : ℕ) (out : Text) → All IsDigit out → All IsDigit (print_decimal n v out)
unfolding print_decimal
print_decimal-Digits zero v out h = h
print_decimal-Digits (suc n) v out h = elim (Bool-cases (ltb v 10)) [
  | inl e ↦ rw e ((omega arith, ground arith), h)
  | inr e ↦
      rw e (print_decimal-Digits n (v / 10) ((b'0' + v % 10) ∷ out) ((omega arith, omega arith), h))
]

read_digits-digit :
    (d v : ℕ) (s : Text) → d < 10 → read_digits ((b'0' + d) ∷ s) v ≡ read_digits s (v * 10 + d)
unfolding read_digits
read_digits-digit d v s h =
    let low : leb b'0' (b'0' + d) ≡ true = ground arith in
    let high : leb (b'0' + d) b'9' ≡ true = ground arith in
    rw (low, high) (ap (read_digits s) (omega arith))

-- Digits that are printed are read back, behind a number that ends there.
read-print_decimal :
    (n v : ℕ) (out : Text) → v < 10 ^ n → read_digits (print_decimal n v out) 0 ≡ read_digits out v
unfolding print_decimal
read-print_decimal zero v out h = ap (read_digits out) (omega arith)
read-print_decimal (suc n) v out h = elim (Bool-cases (ltb v 10)) [
  | inl e ↦ rw e (read_digits-digit v 0 out (ground arith) ∙ ap (read_digits out) (omega arith))
  | inr e ↦ rw e (
      read-print_decimal n (v / 10) ((b'0' + v % 10) ∷ out) (omega (arith, pow-suc 10 n))
      ∙ read_digits-digit (v % 10) (v / 10) out (omega arith)
      ∙ ap (read_digits out) (omega arith))
]

positive_int-digits :
    (s : Text) (v : ℕ)
    → All IsDigit s
    → read_digits s 0 ≡ some v
    → 1 ≤ v
    → v < 2 ^ 63
    → positive_int s ≡ some v
unfolding positive_int read_digits
positive_int-digits [] v _ h lo hi = let zero_read : some 0 ≡ some v = h in absurd (ground arith)
positive_int-digits (c ∷ s) v (digit, _) h lo hi =
    let unsigned : (c == b'+') ≡ false = ground arith in rw (unsigned, h) (ground arith)

positive_int-print : (v : ℕ) → 1 ≤ v → v < 2 ^ 63 → positive_int (print_decimal 20 v []) ≡ some v
unfolding read_digits
positive_int-print v lo hi =
    positive_int-digits (print_decimal 20 v []) v (print_decimal-Digits 20 v [] tt)
      (read-print_decimal 20 v [] (omega arith)) lo hi

digits-NoDollar : (s : Text) → All IsDigit s → NoDollar s
digits-NoDollar s h = All-map (λ c (lo, hi). ground arith) s h

scheme-NoDollar : NoDollar scheme
scheme-NoDollar = (
  refl,
  (
    refl,
    (refl, (refl, (refl, (refl, (refl, (refl, (refl, (refl, (refl, (refl, (refl, tt))))))))))),
  ),
)

split-encoded_hash :
    (crypto : Crypto) (iterations : ℕ) (salt key : List ℕ)
    → ((bytes : List ℕ) → NoDollar (crypto.encode64 bytes))
    → split_dollars (encoded_hash crypto iterations salt key)
      ≡ scheme ∷ print_decimal 20 iterations [] ∷ crypto.encode64 salt ∷ crypto.encode64 key ∷ []
split-encoded_hash crypto iterations salt key plain =
    let digits = print_decimal 20 iterations [] in
    let salted = crypto.encode64 salt ++ b'$' ∷ crypto.encode64 key in
    split_dollars-append scheme (digits ++ b'$' ∷ salted) scheme-NoDollar
    ∙ ap (λ (parts : List Text). scheme ∷ parts)
        (split_dollars-append digits salted
            (digits-NoDollar digits (print_decimal-Digits 20 iterations [] tt))
          ∙ ap (λ (parts : List Text). digits ∷ parts)
              (split_dollars-append (crypto.encode64 salt) (crypto.encode64 key) (plain salt)
                ∙ ap (λ (parts : List Text). crypto.encode64 salt ∷ parts)
                    (split_dollars-last (crypto.encode64 key) (plain key))))

-- What is relied on of base64: a text without a dollar sign that is read back as it was written.
abbrev pub IsBase64 : Crypto → Type 0
IsBase64 crypto =
    (bytes : List ℕ)
    → NoDollar (crypto.encode64 bytes) × (crypto.decode64 (crypto.encode64 bytes) ≡ some bytes)

key_is_iff : (got : Option (List ℕ)) (want : List ℕ) → (key_is got want ≡ true) ↔ (got ≡ some want)
key_is_iff none want = (λ h. absurd (cc), λ h. absurd (cc))
key_is_iff (some got) want =
    (λ h. ap some (eq-text_eq got want h), λ h. let e : got ≡ want = cc in rw e (text_eq_refl want))

verify_password-encoded :
    (crypto : Crypto) (iterations : ℕ) (salt key : List ℕ) (pw : Text)
    → IsBase64 crypto
    → 1 ≤ iterations
    → iterations < 2 ^ 63
    → verify_password crypto (encoded_hash crypto iterations salt key) pw
      ≡ key_is (crypto.pbkdf2 pw salt iterations (length key)) key
unfolding verify_password
verify_password-encoded crypto iterations salt key pw base64 lo hi =
    ap (verify_parts crypto pw)
      (split-encoded_hash crypto iterations salt key (λ bytes. (base64 bytes).0))
    ∙ rw (positive_int-print iterations lo hi, (base64 salt).1, (base64 key).1)

-- A password's hash with a positive int of iterations, whose key of 32 bytes PBKDF2 gives, is encoded. A
-- password is verified against it exactly if PBKDF2 gives the same key for it under the same salt, number
-- of iterations and length; the password itself is.
pub verify-hash_password :
    (crypto : Crypto) (iterations : ℕ) (salt key : List ℕ) (pw : Text)
    → IsBase64 crypto
    → 1 ≤ iterations
    → iterations < 2 ^ 63
    → crypto.pbkdf2 pw salt iterations pbkdf2_key_bytes ≡ some key
    → length key ≡ pbkdf2_key_bytes
    → (encoded : Text) × (hash_password crypto iterations salt pw ≡ some encoded)
      × (verify_password crypto encoded pw ≡ true)
      × ((other : Text)
          → (verify_password crypto encoded other ≡ true)
            ↔ (crypto.pbkdf2 other salt iterations pbkdf2_key_bytes ≡ some key))
unfolding hash_password
verify-hash_password crypto iterations salt key pw base64 lo hi derived size =
    let verified : (other : Text)
        → verify_password crypto (encoded_hash crypto iterations salt key) other
          ≡ key_is (crypto.pbkdf2 other salt iterations pbkdf2_key_bytes) key =
      λ other.
        verify_password-encoded crypto iterations salt key other base64 lo hi
        ∙ ap (λ (n : ℕ). key_is (crypto.pbkdf2 other salt iterations n) key) size in
    (
      encoded_hash crypto iterations salt key,
      rw (derived, hash_password),
      verified pw ∙ rw derived (text_eq_refl key),
      λ other.
          let (forth, back) =
            key_is_iff (crypto.pbkdf2 other salt iterations pbkdf2_key_bytes) key in
          (λ h. forth (sym (verified other) ∙ h), λ h. verified other ∙ back h),
    )
