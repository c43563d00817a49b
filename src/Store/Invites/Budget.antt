-- ===== src/Store/Invites/Budget.antt =====
-- internal/store/invite.go: an account never mints past its budget.
use moan_subs.Prelude.{
  ℕ, ◌+◌, ◌≡◌, subst, false, not, List, [], ◌∷◌, ◌++◌, none, some, arith, ◌==◌, count, any, ==_refl,
  count-append,
}
use moan_subs.Prelude.Int.{ℤ, pos, ◌-ℤ◌, leb_ℤ, ◌≤ℤ◌, ◌<ℤ◌, int_laws}
use moan_subs.Prelude.Result.{ok, guard_ok, ok_injective}
use moan_subs.Prelude.Text.{Text, text_eq}
use moan_subs.Store.Schema.{Db, Invite, StoreError, not_found, unique_violation, budget_exhausted}
use moan_subs.Store.Invites.{
  is_pending, of_creator, is_active, invite_budget_counts, min_ℤ, floor_ℤ, invite_budget_arithmetic,
  new_invite, create_invite_within_budget,
}

-- Something is available only where there is room under what is earned and under the cap.
room :
    (earned minted cap_limit unused : ℤ)
    → leb_ℤ (floor_ℤ (min_ℤ (earned -ℤ minted) (cap_limit -ℤ unused))) (pos 0) ≡ false
    → (minted <ℤ earned) × (unused <ℤ cap_limit)
room earned minted cap_limit unused h =
    let a = earned -ℤ minted in
    let b = cap_limit -ℤ unused in
    let positive : (pos 0 <ℤ a) × (pos 0 <ℤ b) = ground arith in
    (omega (int_laws, positive), omega (int_laws, positive))

-- A code that was just minted counts for its creator, and as active.
counts_of_new :
    (code : Text) (account now : ℕ) (invites : List Invite)
    → let after = invites ++ new_invite code account (some 1) none now ∷ [] in
      (count (of_creator account) after ≡ count (of_creator account) invites + 1)
      × (count (is_active account now) after ≡ count (is_active account now) invites + 1)
unfolding is_pending
counts_of_new code account now invites =
    let new = new_invite code account (some 1) none now in
    (
      ground (arith, count-append (of_creator account) invites (new ∷ []), ==_refl account),
      ground (arith, count-append (is_active account now) invites (new ∷ []), ==_refl account),
    )

-- Minting succeeds only where the account afterwards has no more codes than it earned, and no more
-- unused ones than the cap. It then has one code more.
pub create_invite_within_budget-bound :
    (code : Text) (account : ℕ) (initial per_uploads cap_limit : ℤ) (now : ℕ) (db db' : Db)
    → create_invite_within_budget code account initial per_uploads cap_limit now db ≡ ok db'
    → let (uploads, minted, unused) = invite_budget_counts account now db' in
      let (earned, available) =
        invite_budget_arithmetic uploads minted unused initial per_uploads cap_limit in
      (pos minted ≤ℤ earned)
      × (pos unused ≤ℤ cap_limit)
      × (minted ≡ count (of_creator account) db.invites + 1)
unfolding create_invite_within_budget invite_budget_counts invite_budget_arithmetic
create_invite_within_budget-bound code account initial per_uploads cap_limit now db db' h =
    let (uploads, minted, unused) = invite_budget_counts account now db in
    let budget = invite_budget_arithmetic uploads minted unused initial per_uploads cap_limit in
    let (_, h1) = guard_ok (any (λ a. a.id == account) db.accounts) not_found _ h in
    let (left, h2) =
      guard_ok (not (leb_ℤ budget.1 (pos 0))) (budget_exhausted unused cap_limit) _ h1 in
    let (_, h3) =
      guard_ok (not (any (λ i. text_eq i.code code) db.invites)) unique_violation _ h2 in
    let (a, b) = room budget.0 (pos minted) cap_limit (pos unused) (ground arith) in
    let (c, d) = counts_of_new code account now db.invites in
    subst
      (λ (s : Db).
        let (u, m, n) = invite_budget_counts account now s in
        let (e, v) = invite_budget_arithmetic u m n initial per_uploads cap_limit in
        (pos m ≤ℤ e) × (pos n ≤ℤ cap_limit) × (m ≡ count (of_creator account) db.invites + 1))
      {x = record db { invites = db.invites ++ new_invite code account (some 1) none now ∷ [] }}
      (ok_injective StoreError h3) (omega (arith, a, c), omega (arith, b, d), c)
