-- ===== src/Store/Invites/Refusals.antt =====
-- internal/store/invite.go: codes that do not redeem.
use moan_subs.Prelude.{
  ℕ, ◌≤◌, ◌≡◌, refl, true, false, ◌&&◌, List, [], ◌∷◌, Option, none, some, arith, count, any, find,
  All,
}
use moan_subs.Prelude.Result.{err}
use moan_subs.Prelude.Text.{Text, text_eq}
use moan_subs.Store.Table.{update_where, is_null}
use moan_subs.Store.Schema.{Db, Invite, Account, invite_invalid}
use moan_subs.Store.Invites.{
  is_pending, is_redeemable, creator_disabled, create_invited_account, count_pending_invites,
  disable_invite,
}
use moan_subs.Store.Invites.Redemption.{has_code}

not_redeemed :
    (code : Text) (now : ℕ) (accounts : List Account) (invites : List Invite)
    → All (λ i. has_code code i ≡ true → creator_disabled accounts i ≡ true) invites
    → find (is_redeemable code now accounts) invites ≡ none
unfolding is_redeemable
not_redeemed code now accounts [] h = refl
not_redeemed code now accounts (i ∷ invites) (h, hs) =
    let miss : is_redeemable code now accounts i ≡ false = ground (arith, h) in
    rw miss (not_redeemed code now accounts invites hs)

disabled_not_redeemed :
    (code : Text) (now later : ℕ) (accounts : List Account) (invites : List Invite)
    → find (is_redeemable code later accounts) (
        update_where
          (λ i. text_eq i.code code && is_null i.disabled_at)
          (λ i. record i { disabled_at = some now })
          invites)
      ≡ none
unfolding is_redeemable is_pending
disabled_not_redeemed code now later accounts [] = refl
disabled_not_redeemed code now later accounts (i ∷ invites) =
    ground (arith, disabled_not_redeemed code now later accounts invites)

pending_counted :
    (code : Text) (now : ℕ) (invites : List Invite)
    → any (λ i. has_code code i && is_pending now i) invites ≡ true
    → 1 ≤ count (is_pending now) invites
pending_counted code now [] h = absurd (cc)
pending_counted code now (i ∷ invites) h = ground (arith, pending_counted code now invites)

module _ (lower : Text → Text) where
  -- A code whose creator is disabled is refused, though CountPendingInvites counts it while it is
  -- enabled, unexpired and under its limit.
  pub create_invited_account-disabled :
      (name code token_hash : Text) (password_hash token_enc : Option Text) (now : ℕ) (db : Db)
      → All (λ i. has_code code i ≡ true → creator_disabled db.accounts i ≡ true) db.invites
      → any (λ i. has_code code i && is_pending now i) db.invites ≡ true
      → (create_invited_account lower name code token_hash password_hash token_enc now db
          ≡ err invite_invalid)
        × (1 ≤ count_pending_invites now db)
  unfolding create_invited_account count_pending_invites
  create_invited_account-disabled name code token_hash password_hash token_enc now db disabled
        pending =
      (
        rw (not_redeemed code now db.accounts db.invites disabled, create_invited_account) refl,
        pending_counted code now db.invites pending,
      )

  -- A code that was disabled is refused from then on, whoever tries it and whenever.
  pub disable_invite-refused :
      (name code token_hash : Text) (password_hash token_enc : Option Text) (now later : ℕ)
      (db : Db)
      → create_invited_account lower name code token_hash password_hash token_enc later
          (disable_invite code now db)
        ≡ err invite_invalid
  unfolding create_invited_account disable_invite
  disable_invite-refused name code token_hash password_hash token_enc now later db =
      rw (disabled_not_redeemed code now later db.accounts db.invites, create_invited_account) refl
