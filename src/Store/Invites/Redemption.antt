-- ===== src/Store/Invites/Redemption.antt =====
-- internal/store/invite.go: how often a code redeems.
use moan_subs.Prelude.{
  ℕ, suc, ◌+◌, ◌≤◌, ◌≡◌, refl, ap, sym, subst, Bool, true, false, not, List, [], ◌∷◌, Option, some,
  arith, if◌then◌else◌, ltb, count, any, find, Bool-cases, Option-cases, inl, inr,
}
use moan_subs.Prelude.Result.{Result, ok, err, guard_ok, ok_injective}
use moan_subs.Prelude.Text.{Text, text_eq, eq-text_eq}
use moan_subs.Store.Table.{update_where, count-update_where}
use moan_subs.Store.Table.Upsert.{find-update_other}
use moan_subs.Store.Schema.{Db, Invite, Account, StoreError, invite_invalid, name_taken}
use moan_subs.Store.Invites.{
  is_pending, is_redeemable, redeem_row, takes_name, create_invited_account, under_limit, after,
}

abbrev pub has_code : Text → Invite → Bool
has_code code i = text_eq i.code code

redeemable-has_code :
    (code : Text) (now : ℕ) (accounts : List Account) (i : Invite)
    → is_redeemable code now accounts i ≡ true
    → (has_code code i ≡ true) × (under_limit i.uses i.max_uses ≡ true)
unfolding is_redeemable is_pending
redeemable-has_code code now accounts i h = ground arith

module _ (q p : Invite → Bool) (f : Invite → Invite) (sub : (r : Invite) → p r ≡ true → q r ≡ true)
    (kept : (r : Invite) → p r ≡ true → q (f r) ≡ true) where
  none-sub : (rows : List Invite) → count q rows ≡ 0 → any p rows ≡ false
  none-sub [] h = refl
  none-sub (r ∷ rows) h = elim (Bool-cases (p r)) [
    | inl e ↦ absurd (ground (arith, sub r e))
    | inr e ↦ rw e (none-sub rows (ground arith))
  ]

  -- The one row that a key names is updated, if any row is.
  find-update_sub :
      (rows : List Invite) (i : Invite)
      → count q rows ≤ 1
      → find q rows ≡ some i
      → any p rows ≡ true
      → (p i ≡ true) × (find q (update_where p f rows) ≡ some (f i))
  find-update_sub [] i key found hit = absurd (cc)
  find-update_sub (r ∷ rows) i key found hit = elim (Bool-cases (q r)) [
    | inl e ↦
        let same : r ≡ i = let here : some r ≡ some i = rw e at found in cc in
        elim (Bool-cases (p r)) [
          | inl hit_r ↦ (
            subst (λ (s : Invite). p s ≡ true) same hit_r,
            rw (hit_r, kept r hit_r) (ap (λ (s : Invite). some (f s)) same),
          )
          | inr miss ↦
              let later : any p rows ≡ true = rw miss at hit in
              absurd (
                cc (
                  later,
                  none-sub rows (let k : suc (count q rows) ≤ 1 = rw e at key in omega arith),
                ))
        ]
    | inr e ↦
        let miss : p r ≡ false = ground (arith, sub r) in
        let (a, b) = find-update_sub rows i (rw e at key) (rw e at found) (rw miss at hit) in
        (a, rw (miss, e) b)
  ]

any-find :
    (p : Invite → Bool) (rows : List Invite) {i : Invite} → find p rows ≡ some i → any p rows ≡ true
any-find p [] h = absurd (cc)
any-find p (r ∷ rows) h = elim (Bool-cases (p r)) [
  | inl e ↦ rw e
  | inr e ↦ rw e (any-find p rows (rw e at h))
]

-- A registration that somebody tries.
pub record Attempt : Type 0 where
  pub name : Text
  pub code : Text
  pub token_hash : Text
  pub password_hash : Option Text
  pub token_enc : Option Text
  pub time : ℕ

has_code-other :
    (c d : Text) (i : Invite) → text_eq c d ≡ false → has_code c i ≡ true → has_code d i ≡ false
has_code-other c d i ne h = rw (eq-text_eq i.code c h) ne

module _ (lower : Text → Text) where
  unfoldable pub attempt : Attempt → Db → Result StoreError (Db × ℕ × ℕ)
  attempt a db =
      create_invited_account lower a.name a.code a.token_hash a.password_hash a.token_enc a.time db

  -- How many of a sequence of attempts redeem a code; a refused one changes nothing.
  unfoldable pub admissions : Text → List Attempt → Db → ℕ
  admissions code [] db = 0
  admissions code (a ∷ later) db = elim (attempt a db) [
    | ok s ↦ (if text_eq a.code code then 1 else 0) + admissions code later s.0
    | err e ↦ admissions code later db
  ]

  -- What an accepted attempt does to the invites.
  attempt_parts :
      (a : Attempt) (db : Db) (s : Db × ℕ × ℕ)
      → attempt a db ≡ ok s
      → let p = is_redeemable a.code a.time db.accounts in
        (any p db.invites ≡ true) × (s.0.invites ≡ update_where p redeem_row db.invites)
  unfolding attempt create_invited_account
  attempt_parts a db s h =
      let p = is_redeemable a.code a.time db.accounts in
      elim (Option-cases (find p db.invites)) [
        | inl e ↦
            let refused : ◌≡◌ {A = Result StoreError (Db × ℕ × ℕ)} (err invite_invalid) (ok s) =
              rw (e, attempt, create_invited_account) at h in
            absurd (cc)
        | inr (i, e) ↦
            let (_, h') =
              guard_ok (not (any (takes_name lower a.name) db.accounts)) name_taken _
                (rw (e, attempt, create_invited_account) at h) in
            (
              any-find p db.invites e,
              ap (λ (r : Db × ℕ × ℕ). r.0.invites) (sym (ok_injective StoreError h')),
            )
      ]

  -- The row of a code after an accepted attempt: one use more, within the limit, if the attempt had that
  -- code, and as it was otherwise.
  attempt-row :
      (a : Attempt) (db : Db) (s : Db × ℕ × ℕ) (code : Text) (i : Invite)
      → attempt a db ≡ ok s
      → count (has_code code) db.invites ≤ 1
      → find (has_code code) db.invites ≡ some i
      → (count (has_code code) s.0.invites ≤ 1)
        × (if text_eq a.code code
            then (under_limit i.uses i.max_uses ≡ true)
              × (find (has_code code) s.0.invites ≡ some (redeem_row i))
            else find (has_code code) s.0.invites ≡ some i)
  attempt-row a db s code i h key found =
      let p = is_redeemable a.code a.time db.accounts in
      let (hit, e) = attempt_parts a db s h in
      (
        rw (e, count-update_where (has_code code) p redeem_row (λ r _. refl) db.invites) key,
        elim (Bool-cases (text_eq a.code code)) [
          | inl same ↦ rw same (
              let c = eq-text_eq a.code code same in
              let sub : (r : Invite) → p r ≡ true → has_code code r ≡ true = λ r hr.
                subst (λ (t : Text). has_code t r ≡ true) c
                  (redeemable-has_code a.code a.time db.accounts r hr).0 in
              let (redeemed, after) =
                find-update_sub (has_code code) p redeem_row sub sub db.invites i key found hit in
              ((redeemable-has_code a.code a.time db.accounts i redeemed).1, rw e after))
          | inr other ↦
              rw
                (
                  other,
                  e,
                  find-update_other (has_code code) p redeem_row
                      (λ r hr.
                        let miss =
                          has_code-other a.code code r other
                            (redeemable-has_code a.code a.time db.accounts r hr).0 in
                        (miss, miss))
                      db.invites,
                )
                found
        ],
      )

  -- In any sequence of registrations, a code of limited use redeems at most as often as it has uses left.
  -- (Codes are unique, and the uses so far are within the limit.)
  pub admissions-bound :
      (code : Text) (attempts : List Attempt) (db : Db) (i : Invite) (m : ℕ)
      → count (has_code code) db.invites ≤ 1
      → find (has_code code) db.invites ≡ some i
      → i.max_uses ≡ some m
      → i.uses ≤ m
      → admissions code attempts db + i.uses ≤ m
  unfolding admissions
  admissions-bound code [] db i m key found limited within = omega arith
  admissions-bound code (a ∷ later) db i m key found limited within =
      elim (attempt a db)
          as (λ r.
            attempt a db ≡ r
            → elim r [
              | ok s ↦ (if text_eq a.code code then 1 else 0) + admissions code later s.0
              | err e ↦ admissions code later db
            ]
                + i.uses
              ≤ m) [
                | ok s ↦ λ h.
                    let (key', row) = attempt-row a db s code i h key found in
                    elim (Bool-cases (text_eq a.code code)) [
                      | inl same ↦
                          let (left, now) : (under_limit i.uses i.max_uses ≡ true)
                              × (find (has_code code) s.0.invites ≡ some (redeem_row i)) =
                            rw same at row in
                          let room : ltb i.uses m ≡ true = rw limited at left in
                          rw same (
                            omega (
                              arith,
                              admissions-bound code later s.0 (redeem_row i) m key' now limited
                                  (ground arith),
                            ))
                      | inr other ↦
                          let now : find (has_code code) s.0.invites ≡ some i = rw other at row in
                          rw other (
                            omega
                              (arith, admissions-bound code later s.0 i m key' now limited within))
                    ]
                | err e ↦ λ _. admissions-bound code later db i m key found limited within
              ]
        refl
