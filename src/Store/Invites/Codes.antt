-- ===== src/Store/Invites/Codes.antt =====
-- internal/store/invite.go: what generateInviteCode makes of random bytes.
use moan_subs.Prelude.{
  ℕ, zero, suc, ◌%◌, ◌≤◌, ◌<◌, ◌≡◌, refl, ap, subst, Bool, true, false, List, [], ◌∷◌, none, some,
  arith, ltb, leb, ◌==◌, count, any, all, All, get_elem?, length, Bool-cases, inl, inr, ==_refl,
  ==_iff,
}
use moan_subs.Prelude.Text.{Text, text_eq}
use moan_subs.Store.Invites.{invite_code_alphabet, byte_limit, draw, generate_invite_code}

-- A byte that is not thrown away.
abbrev pub is_kept : ℕ → Bool
is_kept b = ltb b byte_limit

abbrev pub IsCodeCharacter : ℕ → Type 0
IsCodeCharacter c = any (λ d. d == c) invite_code_alphabet ≡ true

pick :
    (cs : List ℕ) (i : ℕ)
    → i < length cs
    → (c : ℕ) × (get_elem? cs i ≡ some c) × (any (λ d. d == c) cs ≡ true)
pick [] i h = absurd (omega arith)
pick (c ∷ cs) zero h = (c, refl, rw (==_refl c))
pick (c ∷ cs) (suc i) h = let (d, e, m) = pick cs i (omega arith) in (d, e, ground arith)

draw_enough :
    (n : ℕ) (bytes : List ℕ)
    → n ≤ count is_kept bytes
    → (s : Text) × (draw n bytes ≡ some s) × (length s ≡ n) × All IsCodeCharacter s
unfolding draw
draw_enough zero bytes h = ([], refl, refl, tt)
draw_enough (suc n) [] h = absurd (omega arith)
draw_enough (suc n) (b ∷ bytes) h = elim (Bool-cases (is_kept b)) [
  | inl e ↦
      let (c, got, member) =
        pick invite_code_alphabet (b % length invite_code_alphabet) (omega arith) in
      let (s, drawn, long, ok) = draw_enough n bytes (ground arith) in
      let kept : leb byte_limit b ≡ false = ground arith in
      (c ∷ s, rw (kept, got, drawn), ap suc long, (member, ok))
  | inr e ↦
      let (s, drawn, long, ok) = draw_enough (suc n) bytes (ground arith) in
      let thrown : leb byte_limit b ≡ true = ground arith in (s, rw (thrown, drawn), long, ok)
]

draw_short : (n : ℕ) (bytes : List ℕ) → count is_kept bytes < n → draw n bytes ≡ none
unfolding draw
draw_short zero bytes h = absurd (omega arith)
draw_short (suc n) [] h = refl
draw_short (suc n) (b ∷ bytes) h = elim (Bool-cases (is_kept b)) [
  | inl e ↦
      let (c, got, _) = pick invite_code_alphabet (b % length invite_code_alphabet) (omega arith) in
      let kept : leb byte_limit b ≡ false = ground arith in
      rw (kept, got, draw_short n bytes (ground arith))
  | inr e ↦
      let thrown : leb byte_limit b ≡ true = ground arith in
      rw (thrown, draw_short (suc n) bytes (ground arith))
]

-- A stream with twelve bytes below the limit gives a code of twelve characters of the alphabet, and no
-- index is out of range; a stream with fewer does not end the loop.
pub generate_invite_code_lem :
    (bytes : List ℕ)
    → (12 ≤ count is_kept bytes
        → (s : Text) × (generate_invite_code bytes ≡ some s)
          × (length s ≡ 12)
          × All IsCodeCharacter s)
      × (count is_kept bytes < 12 → generate_invite_code bytes ≡ none)
unfolding generate_invite_code
generate_invite_code_lem bytes = (draw_enough 12 bytes, draw_short 12 bytes)

-- The numbers below n.
abbrev pub below : ℕ → List ℕ
below zero = []
below (suc n) = n ∷ below n

-- The byte b alone makes the code c.
unfoldable pub draws : ℕ → ℕ → Bool
draws c b = elim (draw 1 (b ∷ [])) [ none ↦ false | some s ↦ text_eq s (c ∷ []) ]

draws_table : all (λ c. count (draws c) (below 256) == 4) invite_code_alphabet ≡ true
unfolding draws draw
draws_table = refl

all_sound :
    (p : ℕ → Bool) (c : ℕ) (cs : List ℕ)
    → all p cs ≡ true
    → any (λ d. d == c) cs ≡ true
    → p c ≡ true
all_sound p c [] h m = absurd (cc)
all_sound p c (d ∷ cs) h m = elim (Bool-cases (d == c)) [
  | inl e ↦ subst (λ (n : ℕ). p n ≡ true) ((==_iff d c).0 e) (ground arith)
  | inr e ↦ all_sound p c cs (ground arith) (ground arith)
]

-- Every character of the alphabet is drawn for exactly four of the 256 bytes, so that all are equally
-- likely.
pub draws_uniform : (c : ℕ) → IsCodeCharacter c → count (draws c) (below 256) ≡ 4
draws_uniform c h =
    (==_iff (count (draws c) (below 256)) 4).0
      (all_sound (λ c. count (draws c) (below 256) == 4) c invite_code_alphabet draws_table h)
