-- ===== src/Examples/Invites.antt =====
-- The theorems on internal/store/invite.go and internal/subtitle/clamp.go at concrete inputs.
use moan_subs.Prelude.{
  ℕ, suc, ◌+◌, ◌≤◌, ◌<◌, ◌≡◌, refl, Bool, true, false, ◌&&◌, List, [], ◌∷◌, ◌++◌, Option, none,
  some, arith, count, any, find, All, length, replicate, map,
}
use moan_subs.Prelude.Int.{ℤ, pos, ◌≤ℤ◌}
use moan_subs.Prelude.Result.{ok, err}
use moan_subs.Prelude.Text.{Text, codes}
use moan_subs.Store.Schema.{Db, invite_invalid}
use moan_subs.Store.Invites.{
  generate_invite_code, is_pending, of_creator, invite_budget_counts, invite_budget_arithmetic,
  create_invite_within_budget, create_invited_account, count_pending_invites, new_invite,
}
use moan_subs.Store.Invites.Codes.{is_kept, IsCodeCharacter, generate_invite_code_lem}
use moan_subs.Store.Invites.Budget.{create_invite_within_budget-bound}
use moan_subs.Store.Invites.Redemption.{Attempt, admissions, admissions-bound, has_code}
use moan_subs.Store.Invites.Refusals.{create_invited_account-disabled}
use moan_subs.Subtitle.{Cue}
use moan_subs.Subtitle.Clamp.{clamp_cues}
use moan_subs.Subtitle.Separation.{shown, IsHeld, IsSpaced, clamp_cues_lem}
use moan_subs.Examples.Data.{sample, code_of, member}

generate_invite_code_example :
    (12 ≤ count is_kept (255 ∷ replicate 12 60)
      → (s : Text) × (generate_invite_code (255 ∷ replicate 12 60) ≡ some s)
        × (length s ≡ 12)
        × All IsCodeCharacter s)
    × (count is_kept (255 ∷ replicate 12 60) < 12
        → generate_invite_code (255 ∷ replicate 12 60) ≡ none)
generate_invite_code_example = generate_invite_code_lem (255 ∷ replicate 12 60)

minted : Db
minted = record sample {
  invites = sample.invites ++ new_invite (codes "new") 1 (some 1) none 20 ∷ [];
}

mints : create_invite_within_budget (codes "new") 1 (pos 2) (pos 5) (pos 3) 20 sample ≡ ok minted
unfolding create_invite_within_budget invite_budget_counts invite_budget_arithmetic is_pending
    minted moan_subs.Prelude.Int.◌-ℤ◌ moan_subs.Prelude.Int.◌+ℤ◌
mints = refl

create_invite_within_budget-bound_example :
    let (uploads, codes_minted, unused) = invite_budget_counts 1 20 minted in
    let (earned, available) =
      invite_budget_arithmetic uploads codes_minted unused (pos 2) (pos 5) (pos 3) in
    (pos codes_minted ≤ℤ earned)
    × (pos unused ≤ℤ pos 3)
    × (codes_minted ≡ count (of_creator 1) sample.invites + 1)
create_invite_within_budget-bound_example =
    create_invite_within_budget-bound (codes "new") 1 (pos 2) (pos 5) (pos 3) 20 sample minted mints

abbrev visitor : Text → Attempt
visitor name = record {
  name = name;
  code = codes "abc";
  token_hash = codes "hash";
  password_hash = none;
  token_enc = none;
  time = 20;
}

admissions-bound_example :
    admissions (λ t. t) (codes "abc") (visitor (codes "x") ∷ visitor (codes "y") ∷ []) sample + 0
    ≤ 1
admissions-bound_example =
    admissions-bound (λ t. t) (codes "abc") (visitor (codes "x") ∷ visitor (codes "y") ∷ []) sample
      (code_of 1) 1 (omega arith) refl refl (omega arith)

abbrev closed : Db
closed = record sample { accounts = member 1 true ∷ member 2 false ∷ [] }

still_pending : any (λ i. has_code (codes "abc") i && is_pending 20 i) closed.invites ≡ true
unfolding is_pending
still_pending = refl

create_invited_account-disabled_example :
    (create_invited_account (λ t. t) (codes "x") (codes "abc") (codes "hash") none none 20 closed
      ≡ err invite_invalid)
    × (1 ≤ count_pending_invites 20 closed)
create_invited_account-disabled_example =
    create_invited_account-disabled (λ t. t) (codes "x") (codes "abc") (codes "hash") none none 20
      closed ((λ h. refl), tt) still_pending

abbrev cue_at : ℕ → ℕ → Cue
cue_at start end = record { start = pos start; end = pos end; text = codes "line" }

abbrev sparse : List Cue
sparse =
    cue_at 1000000000 90000000000
    ∷ cue_at 90000000000 90000000001
    ∷ cue_at 90000000000 95000000000
    ∷ []

clamp_cues_example :
    (map shown (clamp_cues sparse) ≡ map shown sparse)
    × All IsHeld (clamp_cues sparse)
    × IsSpaced (clamp_cues sparse)
clamp_cues_example = clamp_cues_lem sparse
