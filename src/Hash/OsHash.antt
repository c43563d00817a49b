-- ===== src/Hash/OsHash.antt =====
-- hash/oshash.go: the file-identity hash, 16 hexadecimal characters, and its lookup bucket.
use moan_subs.Prelude.{
  ℕ, zero, suc, ◌+◌, ◌≡◌, refl, sym, ap, subst, ◌∙◌, ◌↔◌, Bool, true, ◌&&◌, ◌||◌, [], ◌∷◌, ◌++◌,
  map, Option, none, some, arith, leb, ◌==◌, if◌then◌else◌, length, all, All, length-map,
}
use moan_subs.Prelude.Text.{Text}
use moan_subs.Prelude.Unicode.{Unicode, lower_ascii, lower_ascii_idem}
use native.Mathlib.Decide.{dec_lt}
use moan_subs.Prelude.Result.{Result, ok, err}

pub data OsHashError : Type 0 where
  invalid_oshash : OsHashError

-- [0-9a-f], and the pattern ^[0-9a-f]{16}$.
abbrev pub is_hex : ℕ → Bool
is_hex c = (leb b'0' c && leb c b'9') || (leb b'a' c && leb c b'f')

abbrev pub oshash_pattern : Text → Bool
oshash_pattern s = length s == 16 && all is_hex s

-- The first n characters, or a panic if there are fewer.
abbrev pub slice_to : ℕ → Text → Option Text
slice_to zero s = some []
slice_to (suc n) [] = none
slice_to (suc n) (c ∷ s) = elim (slice_to n s) [ none ↦ none | some t ↦ some (c ∷ t) ]

slice_to-prefix :
    (n m : ℕ) (s : Text)
    → length s ≡ n + m
    → (k r : Text) × (slice_to n s ≡ some k) × (length k ≡ n) × (s ≡ k ++ r)
slice_to-prefix zero m s h = ([], s, refl, refl, refl)
slice_to-prefix (suc n) m [] h = absurd (omega arith)
slice_to-prefix (suc n) m (c ∷ s) h =
    let (k, r, e, l, a) = slice_to-prefix n m s (omega arith) in
    (c ∷ k, r, rw e, ap suc l, ap (◌∷◌ c) a)

-- OSHash.BucketPrefix.
unfoldable pub bucket_prefix : Text → Option Text
bucket_prefix h = slice_to 5 h

-- A hexadecimal digit of either case.
abbrev pub IsHexDigit : ℕ → Type 0
IsHexDigit c = is_hex (lower_ascii c) ≡ true

map-lower_idem : (s : Text) → map lower_ascii (map lower_ascii s) ≡ map lower_ascii s
map-lower_idem [] = refl
map-lower_idem (c ∷ s) = cc (lower_ascii_idem c, map-lower_idem s)

map-lower-digits : (s : Text) → All IsHexDigit s → All IsHexDigit (map lower_ascii s)
map-lower-digits [] _ = tt
map-lower-digits (c ∷ s) (d, ds) = (ap is_hex (lower_ascii_idem c) ∙ d, map-lower-digits s ds)

module _ (u : Unicode) where
  -- ParseOSHash: lower case first, then the pattern.
  unfoldable pub parse_oshash : Text → Result OsHashError Text
  parse_oshash s =
      let lowered = map u.to_lower s in
      if oshash_pattern lowered then ok lowered else err invalid_oshash

  -- A character whose lower case is a hexadecimal digit is an ASCII one.
  hex_sound : (c : ℕ) → is_hex (u.to_lower c) ≡ true → (u.to_lower c ≡ lower_ascii c) × IsHexDigit c
  hex_sound c h = elim (dec_lt c 128) [
    | yes narrow ↦ let e = u.lower_narrow c narrow in (e, ap is_hex (sym e) ∙ h)
    | no wide ↦ absurd (ground (arith, u.lower_wide c (omega arith)))
  ]

  hex_complete : (c : ℕ) → IsHexDigit c → u.to_lower c ≡ lower_ascii c
  hex_complete c h = u.lower_narrow c (ground arith)

  all_hex_sound :
      (s : Text)
      → all is_hex (map u.to_lower s) ≡ true
      → (map u.to_lower s ≡ map lower_ascii s) × All IsHexDigit s
  all_hex_sound [] h = (refl, tt)
  all_hex_sound (c ∷ s) h =
      let head : is_hex (u.to_lower c) ≡ true = ground arith in
      let rest : all is_hex (map u.to_lower s) ≡ true = ground arith in
      let (e, d) = hex_sound c head in let (es, ds) = all_hex_sound s rest in (cc, (d, ds))

  all_hex_complete :
      (s : Text)
      → All IsHexDigit s
      → (map u.to_lower s ≡ map lower_ascii s) × (all is_hex (map u.to_lower s) ≡ true)
  all_hex_complete [] _ = (refl, refl)
  all_hex_complete (c ∷ s) (d, ds) =
      let e = hex_complete c d in let (es, h) = all_hex_complete s ds in (cc, rw e (rw d h))

  parse_oshash_sound :
      (s h : Text)
      → parse_oshash s ≡ ok h
      → (length s ≡ 16) × All IsHexDigit s × (h ≡ map lower_ascii s)
  unfolding parse_oshash
  parse_oshash_sound s h e =
      let long : length (map u.to_lower s) ≡ 16 = ground arith in
      let hex : all is_hex (map u.to_lower s) ≡ true = ground arith in
      let same : map u.to_lower s ≡ h = ground arith in
      let (low, digits) = all_hex_sound s hex in
      (sym (length-map u.to_lower s) ∙ long, digits, sym same ∙ low)

  parse_oshash_complete :
      (s : Text) → length s ≡ 16 → All IsHexDigit s → parse_oshash s ≡ ok (map lower_ascii s)
  unfolding parse_oshash
  parse_oshash_complete s long digits =
      let (low, hex) = all_hex_complete s digits in
      ground (arith, length-map u.to_lower s, low, hex)

  -- ParseOSHash accepts exactly the texts of 16 hexadecimal digits of either case, and its result is the
  -- text in lower case.
  pub parse_oshash_iff :
      (s h : Text)
      → (parse_oshash s ≡ ok h) ↔ ((length s ≡ 16) × All IsHexDigit s × (h ≡ map lower_ascii s))
  parse_oshash_iff s h =
      (parse_oshash_sound s h, λ p. parse_oshash_complete s p.0 p.1 ∙ ap ok (sym p.2))

  -- An accepted text is already in its final form when it is parsed again, and its bucket key is its
  -- first five characters.
  pub parse_oshash_normal :
      (s h : Text)
      → parse_oshash s ≡ ok h
      → (parse_oshash h ≡ ok h)
        × ((k r : Text) × (bucket_prefix h ≡ some k) × (length k ≡ 5) × (h ≡ k ++ r))
  unfolding bucket_prefix
  parse_oshash_normal s h e =
      let (long, digits, low) = parse_oshash_sound s h e in
      let length_h : length h ≡ 16 = ap length low ∙ length-map lower_ascii s ∙ long in
      let digits_h : All IsHexDigit h =
        subst (All IsHexDigit) (sym low) (map-lower-digits s digits) in
      let final : map lower_ascii h ≡ h = ap (map lower_ascii) low ∙ map-lower_idem s ∙ sym low in
      (parse_oshash_complete h length_h digits_h ∙ ap ok final, slice_to-prefix 5 11 h length_h)
