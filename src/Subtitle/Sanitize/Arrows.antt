-- ===== src/Subtitle/Sanitize/Arrows.antt =====
-- internal/subtitle/subtitle.go: the arrows that sanitizeText takes out of a text.
use moan_subs.Prelude.{
  ℕ, zero, suc, ◌+◌, ◌≡◌, refl, sym, ap, ◌∙◌, Bool, true, false, not, ◌&&◌, [], ◌∷◌, ◌++◌, arith,
  leb, ◌==◌, if◌then◌else◌, replicate, Bool-cases, inl, inr, ==_iff, append-nil, all,
}
use moan_subs.Prelude.Text.{Text}
use moan_subs.Subtitle.Sanitize.{collapse_arrows}
use moan_subs.Subtitle.Sanitize.Markup.{names_tag, marks_tag, only_tags}

-- No two dashes before a closing bracket, where so many dashes stand just before the text.
unfoldable pub arrow_free : ℕ → Text → Bool
arrow_free dashes [] = true
arrow_free dashes (c ∷ s) =
    let more = arrow_free (suc dashes) s in
    let fresh = arrow_free zero s in
    if c == b'-' then more else (not (c == b'>' && leb 2 dashes) && fresh)

dashes-free : (n m : ℕ) (s : Text) → arrow_free m (replicate n b'-' ++ s) ≡ arrow_free (n + m) s
unfolding arrow_free
dashes-free zero m s = ap (λ (k : ℕ). arrow_free k s) (omega arith)
dashes-free (suc n) m s = dashes-free n (suc m) s ∙ ap (λ (k : ℕ). arrow_free k s) (omega arith)

dashes_alone : (n m : ℕ) → arrow_free m (replicate n b'-') ≡ true
unfolding arrow_free
dashes_alone zero m = refl
dashes_alone (suc n) m = dashes_alone n (suc m)

pub collapse_arrows-free : (n : ℕ) (s : Text) → arrow_free zero (collapse_arrows n s) ≡ true
unfolding collapse_arrows arrow_free
collapse_arrows-free n [] = dashes_alone n zero
collapse_arrows-free n (c ∷ s) = elim (Bool-cases (c == b'-')) [
  | inl e ↦ rw e (collapse_arrows-free (suc n) s)
  | inr e ↦ elim (Bool-cases (c == b'>' && leb 2 n)) [
    | inl d ↦ rw (e, d) (rw e (ground (arith, collapse_arrows-free zero s)))
    | inr d ↦
        rw (e, d)
          (dashes-free n zero (c ∷ collapse_arrows zero s)
            ∙ rw e (ground (arith, collapse_arrows-free zero s)))
  ]
]

append-dash : (n : ℕ) (s : Text) → replicate n b'-' ++ b'-' ∷ s ≡ replicate (suc n) b'-' ++ s
append-dash zero s = refl
append-dash (suc n) s = ap (λ (t : Text). b'-' ∷ t) (append-dash n s)

-- A text without arrows is left as it is.
pub collapse_arrows-fixed :
    (n : ℕ) (s : Text) → arrow_free n s ≡ true → collapse_arrows n s ≡ replicate n b'-' ++ s
unfolding collapse_arrows arrow_free
collapse_arrows-fixed n [] h = sym (append-nil (replicate n b'-'))
collapse_arrows-fixed n (c ∷ s) h = elim (Bool-cases (c == b'-')) [
  | inl e ↦
      let dash : c ≡ b'-' = (==_iff c b'-').0 e in
      rw e (
        collapse_arrows-fixed (suc n) s (rw e at h)
        ∙ sym (append-dash n s)
        ∙ ap (λ (d : ℕ). replicate n b'-' ++ d ∷ s) (sym dash))
  | inr e ↦
      let tail : arrow_free zero s ≡ true = ground (arith, rw e at h) in
      let apart : (c == b'>' && leb 2 n) ≡ false = ground (arith, rw e at h) in
      rw (e, apart)
        (ap (λ (t : Text). replicate n b'-' ++ c ∷ t) (collapse_arrows-fixed zero s tail))
]

names-collapse :
    (s : Text) → names_tag b'>' s ≡ true → names_tag b'>' (collapse_arrows zero s) ≡ true
unfolding collapse_arrows
names-collapse [] h = absurd (cc)
names-collapse (c ∷ []) h = absurd (cc)
names-collapse (c ∷ d ∷ s) h =
    let no_dash : (c == b'-') ≡ false = ground arith in
    let no_bracket : (c == b'>') ≡ false = ground arith in
    let end : d ≡ b'>' = (==_iff d b'>').0 (ground arith) in
    rw (no_dash, no_bracket, end) (ground arith)

plain-collapse :
    (c : ℕ) (s : Text)
    → (c == b'/') ≡ false
    → names_tag b'>' (c ∷ s) ≡ true
    → marks_tag b'>' (collapse_arrows zero (c ∷ s)) ≡ true
unfolding collapse_arrows
plain-collapse c [] e h = absurd (cc)
plain-collapse c (d ∷ s) e h =
    let no_dash : (c == b'-') ≡ false = ground arith in
    let no_bracket : (c == b'>') ≡ false = ground arith in
    let end : d ≡ b'>' = (==_iff d b'>').0 (ground arith) in
    rw (no_dash, no_bracket, end) (rw e (ground arith))

marks-collapse :
    (s : Text) → marks_tag b'>' s ≡ true → marks_tag b'>' (collapse_arrows zero s) ≡ true
unfolding collapse_arrows
marks-collapse [] h = absurd (cc)
marks-collapse (c ∷ s) h = elim (Bool-cases (c == b'/')) [
  | inl e ↦
      let no_dash : (c == b'-') ≡ false = ground arith in
      let no_bracket : (c == b'>') ≡ false = ground arith in
      rw (no_dash, no_bracket) (rw e (names-collapse s (rw e at h)))
  | inr e ↦ let named : names_tag b'>' (c ∷ s) ≡ true = rw e at h in plain-collapse c s e named
]

dashes-tags :
    (n : ℕ) (s : Text) → only_tags b'<' b'>' (replicate n b'-' ++ s) ≡ only_tags b'<' b'>' s
unfolding only_tags
dashes-tags zero s = refl
dashes-tags (suc n) s = dashes-tags n s

pub collapse_arrows-tags :
    (n : ℕ) (s : Text)
    → only_tags b'<' b'>' s ≡ true
    → only_tags b'<' b'>' (collapse_arrows n s) ≡ true
unfolding collapse_arrows only_tags
collapse_arrows-tags n [] h =
    ap (only_tags b'<' b'>') (sym (append-nil (replicate n b'-'))) ∙ dashes-tags n []
collapse_arrows-tags n (c ∷ s) h = elim (Bool-cases (c == b'-')) [
  | inl e ↦ rw e (collapse_arrows-tags (suc n) s (ground arith))
  | inr e ↦ elim (Bool-cases (c == b'>' && leb 2 n)) [
    | inl d ↦ rw (e, d) (ground (arith, collapse_arrows-tags zero s))
    | inr d ↦
        rw (e, d)
          (dashes-tags n (c ∷ collapse_arrows zero s)
            ∙ ground (arith, collapse_arrows-tags zero s, marks-collapse s))
  ]
]

all-dashes :
    (p : ℕ → Bool) (n : ℕ) (s : Text)
    → p b'-' ≡ true
    → all p s ≡ true
    → all p (replicate n b'-' ++ s) ≡ true
all-dashes p zero s dash h = h
all-dashes p (suc n) s dash h = rw dash (all-dashes p n s dash h)

pub collapse_arrows-all :
    (p : ℕ → Bool)
    → p b'-' ≡ true
    → (n : ℕ) (s : Text) → all p s ≡ true
    → all p (collapse_arrows n s) ≡ true
unfolding collapse_arrows
collapse_arrows-all p dash n [] h =
    ap (all p) (sym (append-nil (replicate n b'-'))) ∙ all-dashes p n [] dash refl
collapse_arrows-all p dash n (c ∷ s) h = elim (Bool-cases (c == b'-')) [
  | inl e ↦ rw e (collapse_arrows-all p dash (suc n) s (ground arith))
  | inr e ↦ elim (Bool-cases (c == b'>' && leb 2 n)) [
    | inl d ↦ rw (e, d) (rw dash (ground (arith, collapse_arrows-all p dash zero s)))
    | inr d ↦
        rw (e, d)
          (all-dashes p n (c ∷ collapse_arrows zero s) dash
            (ground (arith, collapse_arrows-all p dash zero s)))
  ]
]
