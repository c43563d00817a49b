-- ===== src/Subtitle/Kind.antt =====
-- internal/subtitle/kind.go: the kinds of a subtitle.
use moan_subs.Prelude.{
  ℕ, ◌≤◌, ◌≡◌, refl, subst, Bool, true, false, not, ◌&&◌, ◌||◌, List, [], ◌∷◌, ltb, arith, any,
  length,
}
use moan_subs.Prelude.Result.{Result, ok, err, guard, guard_ok, ok_injective, ◌>>◌}
use moan_subs.Prelude.Text.{Text, codes, text_eq}
use moan_subs.Prelude.Unicode.{trim_space, is_control}
use moan_subs.Store.Tracks.{or_default, kind_allowed, reason_or_null}

pub data KindError : Type 0 where
  unknown_kind label_required label_not_allowed control_character label_too_long : KindError

abbrev pub valid_kinds : List Text
valid_kinds = codes "default" ∷ codes "cc" ∷ codes "sdh" ∷ codes "forced" ∷ codes "other" ∷ []

abbrev pub max_kind_label_len : ℕ
max_kind_label_len = 40

abbrev pub is_empty : Text → Bool
is_empty [] = true
is_empty (c ∷ s) = false

unfoldable pub valid_kind : Text → Bool
valid_kind kind = any (text_eq kind) valid_kinds

-- What NormalizeKind asks of a trimmed label, in the order of the code.
unfoldable pub check_label : Text → Text → Result KindError (Unit {0})
check_label kind label = do
  guard (not (text_eq kind (codes "other") && is_empty label)) label_required
  guard (text_eq kind (codes "other") || is_empty label) label_not_allowed
  guard (is_empty label || not (any is_control label)) control_character
  guard (is_empty label || not (ltb max_kind_label_len (length label))) label_too_long

-- NormalizeKind.
unfoldable pub normalize_kind : Text → Text → Result KindError (Text × Text)
normalize_kind kind label = do
  let named = or_default (codes "default") kind
  guard (valid_kind named) unknown_kind
  check_label named (trim_space label)
  ok (named, trim_space label)

then_ok :
    {A : Type 0} (m : Result KindError (Unit {0})) (k : Result KindError A) {a : A}
    → (m >> k) ≡ ok a
    → (m ≡ ok tt) × (k ≡ ok a)
then_ok (ok u) k h = (refl, h)
then_ok (err e) k h = absurd (cc)

last_guard : (b : Bool) → guard b label_too_long ≡ ok tt → b ≡ true
last_guard true h = refl
last_guard false h = absurd (cc)

clean_label :
    (label : Text)
    → (is_empty label || not (any is_control label)) ≡ true
    → any is_control label ≡ false
clean_label [] h = refl
clean_label (c ∷ s) h = ground arith

short_label :
    (label : Text)
    → (is_empty label || not (ltb max_kind_label_len (length label))) ≡ true
    → length label ≤ 40
short_label [] h = omega arith
short_label (c ∷ s) h = ground arith

check_label_parts :
    (kind label : Text)
    → check_label kind label ≡ ok tt
    → ((text_eq kind (codes "other") || is_empty label) ≡ true)
      × (any is_control label ≡ false)
      × (length label ≤ 40)
unfolding check_label
check_label_parts kind label h =
    let (_, h1) =
      guard_ok (not (text_eq kind (codes "other") && is_empty label)) label_required _ h in
    let (named, h2) =
      guard_ok (text_eq kind (codes "other") || is_empty label) label_not_allowed _ h1 in
    let (clean, h3) =
      guard_ok (is_empty label || not (any is_control label)) control_character _ h2 in
    let short = last_guard (is_empty label || not (ltb max_kind_label_len (length label))) h3 in
    (named, clean_label label clean, short_label label short)

accepted :
    (kind label : Text)
    → valid_kind kind ≡ true
    → ((text_eq kind (codes "other") || is_empty label) ≡ true)
      × (any is_control label ≡ false)
      × (length label ≤ 40)
    → (kind_allowed kind (reason_or_null label) ≡ true)
      × (any is_control label ≡ false)
      × (length label ≤ 40)
unfolding valid_kind kind_allowed
accepted kind [] valid (named, clean, short) = (rw valid refl, clean, short)
accepted kind (c ∷ s) valid (named, clean, short) = (rw valid (ground arith), clean, short)

-- A kind and label that NormalizeKind accepts meet the constraints of the table; the label has no
-- control character and at most 40 characters.
pub normalize_kind-accepted :
    (kind label k l : Text)
    → normalize_kind kind label ≡ ok (k, l)
    → (kind_allowed k (reason_or_null l) ≡ true) × (any is_control l ≡ false) × (length l ≤ 40)
unfolding normalize_kind
normalize_kind-accepted kind label k l h =
    let named = or_default (codes "default") kind in
    let (valid, h1) = guard_ok (valid_kind named) unknown_kind _ h in
    let (checked, h2) =
      then_ok (check_label named (trim_space label)) (ok (named, trim_space label)) h1 in
    subst
      (λ (p : Text × Text).
        (kind_allowed p.0 (reason_or_null p.1) ≡ true)
        × (any is_control p.1 ≡ false)
        × (length p.1 ≤ 40))
      {x = (named, trim_space label)} (ok_injective KindError h2)
      (accepted named (trim_space label) valid (check_label_parts named (trim_space label) checked))
