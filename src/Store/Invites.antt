-- ===== src/Store/Invites.antt =====
-- internal/store/invite.go: registration codes, who may redeem them, and the budget that an account
-- mints them from. A random byte, a token's hash and lower() of the database are arguments.
pub mod Codes
pub mod Redemption
pub mod Refusals
pub mod Budget
use moan_subs.Prelude.{
  ℕ, zero, suc, ◌+◌, ◌-◌, ◌/◌, ◌%◌, Bool, true, false, not, ◌&&◌, ◌||◌, List, [], ◌∷◌, ◌++◌, Option,
  none, some, ltb, leb, ◌==◌, if◌then◌else◌, count, any, find, get_elem?, length,
}
use moan_subs.Prelude.Int.{ℤ, pos, negsuc, ◌+ℤ◌, ◌-ℤ◌, ltb_ℤ, leb_ℤ}
use moan_subs.Prelude.Result.{Result, ok, err, guard, ◌>>=◌, ◌>>◌}
use moan_subs.Prelude.Text.{Text, codes, text_eq}
use moan_subs.Store.Table.{update_where, is_null, is_id}
use moan_subs.Store.Schema.{
  Db, Account, Invite, Track, Release, user, StoreError, invite_invalid, name_taken, not_found,
  foreign_key, unique_violation, budget_exhausted,
}

abbrev pub invite_code_alphabet : Text
invite_code_alphabet = codes "23456789ABCDEFGHJKLMNPQRSTUVWXYZabcdefghijkmnopqrstuvwxyz"

abbrev pub invite_code_len : ℕ
invite_code_len = 12

abbrev pub byte_limit : ℕ
byte_limit = 256 - 256 % length invite_code_alphabet

-- The characters drawn from a stream of random bytes; none where the stream ends first, or for an
-- index out of the alphabet, where the program would panic.
abbrev pub put_character : Option ℕ → Option Text → Option Text
put_character none rest = none
put_character (some c) none = none
put_character (some c) (some s) = some (c ∷ s)

unfoldable pub draw : ℕ → List ℕ → Option Text
draw zero bytes = some []
draw (suc n) [] = none
draw (suc n) (b ∷ bytes) =
    if leb byte_limit b
    then draw (suc n) bytes
    else put_character (get_elem? invite_code_alphabet (b % length invite_code_alphabet))
        (draw n bytes)

-- generateInviteCode.
unfoldable pub generate_invite_code : List ℕ → Option Text
generate_invite_code bytes = draw invite_code_len bytes

abbrev pub after : ℕ → Option ℕ → Bool
after now none = true
after now (some t) = ltb now t

abbrev pub under_limit : ℕ → Option ℕ → Bool
under_limit uses none = true
under_limit uses (some m) = ltb uses m

-- Enabled, unexpired, under its limit: the condition of CountPendingInvites and of the budget.
unfoldable pub is_pending : ℕ → Invite → Bool
is_pending now i = is_null i.disabled_at && after now i.expires_at && under_limit i.uses i.max_uses

abbrev pub creator_disabled : List Account → Invite → Bool
creator_disabled accounts i = any (λ a. a.disabled && a.id == i.created_by) accounts

-- The condition of createInvitedAccount's UPDATE.
unfoldable pub is_redeemable : Text → ℕ → List Account → Invite → Bool
is_redeemable code now accounts i =
    text_eq i.code code && is_pending now i && not (creator_disabled accounts i)

abbrev pub redeem_row : Invite → Invite
redeem_row i = record i { uses = suc i.uses }

abbrev pub invited_account : ℕ → Text → Text → Option Text → Option Text → ℕ → Account
invited_account id name token_hash password_hash token_enc inviter = record {
  id = id;
  name = name;
  token_hash = token_hash;
  password_hash = password_hash;
  token_enc = token_enc;
  disabled = false;
  disabled_reason = none;
  disabled_at = none;
  role = user;
  invited_by = some inviter;
  trusted = false;
}

-- The unique indexes on accounts (name) and accounts (lower(name)).
abbrev pub takes_name : (Text → Text) → Text → Account → Bool
takes_name lower name a = text_eq a.name name || text_eq (lower a.name) (lower name)

-- createInvitedAccount, with the new account's id and its inviter.
unfoldable pub create_invited_account :
    (Text → Text)
    → Text
    → Text
    → Text
    → Option Text
    → Option Text
    → ℕ
    → Db
    → Result StoreError (Db × ℕ × ℕ)
create_invited_account lower name code token_hash password_hash token_enc now db =
    elim (find (is_redeemable code now db.accounts) db.invites) [
      | none ↦ err invite_invalid
      | some i ↦ do
        guard (not (any (takes_name lower name) db.accounts)) name_taken
        ok (
          record db {
            accounts =
                db.accounts
                ++ invited_account db.next_account name token_hash password_hash token_enc
                    i.created_by
                  ∷ [];
            invites = update_where (is_redeemable code now db.accounts) redeem_row db.invites;
            next_account = suc db.next_account;
          },
          db.next_account,
          i.created_by,
        )
    ]

abbrev pub new_invite : Text → ℕ → Option ℕ → Option ℕ → ℕ → Invite
new_invite code creator max_uses expires_at now = record {
  code = code;
  created_by = creator;
  max_uses = max_uses;
  uses = 0;
  expires_at = expires_at;
  disabled_at = none;
  created_at = now;
}

-- CreateInvite, with the code that was generated.
unfoldable pub create_invite : Text → ℕ → Option ℕ → Option ℕ → ℕ → Db → Result StoreError Db
create_invite code creator max_uses expires_at now db = do
  guard (not (any (λ i. text_eq i.code code) db.invites)) unique_violation
  guard (any (λ a. a.id == creator) db.accounts) foreign_key
  ok (record db { invites = db.invites ++ new_invite code creator max_uses expires_at now ∷ [] })

abbrev pub of_creator : ℕ → Invite → Bool
of_creator account i = i.created_by == account

abbrev pub is_active : ℕ → ℕ → Invite → Bool
is_active account now i = of_creator account i && is_pending now i

abbrev pub visible_upload : ℕ → List Release → Track → Bool
visible_upload account releases t =
    is_id account t.uploader_id
    && is_null t.withdrawn_at
    && any (λ r. r.id == t.release_id && is_null r.withdrawn_at) releases

-- inviteBudgetCounts: uploads, minted, unused and active.
unfoldable pub invite_budget_counts : ℕ → ℕ → Db → ℕ × ℕ × ℕ
invite_budget_counts account now db = (
  count (visible_upload account db.releases) db.tracks,
  count (of_creator account) db.invites,
  count (is_active account now) db.invites,
)

-- uploads / perUploads, for a positive number of uploads.
abbrev pub by_uploads : ℕ → ℤ → ℕ
by_uploads uploads (pos zero) = 0
by_uploads uploads (pos (suc n)) = uploads / suc n
by_uploads uploads (negsuc n) = 0

abbrev pub min_ℤ : ℤ → ℤ → ℤ
min_ℤ a b = if ltb_ℤ b a then b else a

abbrev pub floor_ℤ : ℤ → ℤ
floor_ℤ a = if ltb_ℤ a (pos 0) then pos 0 else a

-- inviteBudgetArithmetic: earned and available.
unfoldable pub invite_budget_arithmetic : ℕ → ℕ → ℕ → ℤ → ℤ → ℤ → ℤ × ℤ
invite_budget_arithmetic uploads minted unused initial per_uploads cap_limit =
    let earned = initial +ℤ pos (by_uploads uploads per_uploads) in
    (earned, floor_ℤ (min_ℤ (earned -ℤ pos minted) (cap_limit -ℤ pos unused)))

-- CreateInviteWithinBudget, with the code that was generated.
unfoldable pub create_invite_within_budget : Text → ℕ → ℤ → ℤ → ℤ → ℕ → Db → Result StoreError Db
create_invite_within_budget code account initial per_uploads cap_limit now db =
    let (uploads, minted, unused) = invite_budget_counts account now db in
    let budget = invite_budget_arithmetic uploads minted unused initial per_uploads cap_limit in
    do
      guard (any (λ a. a.id == account) db.accounts) not_found
      guard (not (leb_ℤ budget.1 (pos 0))) (budget_exhausted unused cap_limit)
      guard (not (any (λ i. text_eq i.code code) db.invites)) unique_violation
      ok (record db { invites = db.invites ++ new_invite code account (some 1) none now ∷ [] })

unfoldable pub count_pending_invites : ℕ → Db → ℕ
count_pending_invites now db = count (is_pending now) db.invites

-- DisableInvite.
unfoldable pub disable_invite : Text → ℕ → Db → Db
disable_invite code now db = record db {
  invites =
      update_where (λ i. text_eq i.code code && is_null i.disabled_at)
        (λ i. record i { disabled_at = some now }) db.invites;
}
