-- ===== src/Store/Metadata/AutoPins.antt =====
-- internal/store/autoconfirm.go: on what a release is pinned with no moderator.
use moan_subs.Prelude.{
  ℕ, ◌≡◌, ◌≢◌, refl, sym, ap, subst, ◌∙◌, ◌⊎◌, false, List, [], ◌∷◌, Option, none, some, ◌==◌, find,
  Bool-cases, Option-cases, inl, inr, ==_refl, ==_iff,
}
use moan_subs.Prelude.Result.{Result, ok}
use moan_subs.Prelude.Text.{Text}
use moan_subs.Store.Table.Find.{any-find}
use moan_subs.Store.Table.Upsert.{find-upsert, find-upsert_other}
use moan_subs.Store.Schema.{Db, Release, Proposal, Confirmation, StoreError}
use moan_subs.Store.Releases.{is_release}
use moan_subs.Store.Metadata.{
  or_empty, is_empty, of_release, confirmation_row, repin, confirm_metadata, put_confirmation,
}
use moan_subs.Store.Metadata.Pins.{IsPinned}
use moan_subs.Store.Metadata.Confirming.{put_confirmation-IsPinned, apart_pins}
use moan_subs.Store.Metadata.Blocks.{put_confirmation-bare}
use moan_subs.Store.Metadata.Claims.{IsClaim, pinning-IsClaim}
use moan_subs.Store.Metadata.AutoConfirm.{
  Outcome, eligible, no_endpoint, unpinned, no_title, already_pinned, no_trusted_id, contradicted,
  pinning_proposal, stash_id_duration_consistent, pin_if_consistent, auto_confirm_if_eligible,
}

-- What a pin without a moderator rests on, and what it is: the release is not blocked, has a title and no
-- pin, and there is a claim to it; the pin is of what the release shows, by nobody.
abbrev pub IsAutoPinned : ℕ → List Text → ℕ → Db → Release → Db → Type 0
IsAutoPinned release endpoints now db r db' =
    (r.autoconfirm_blocked ≡ false)
    × (is_empty (or_empty r.metadata.title) ≡ false)
    × (find (of_release release) db.confirmations ≡ none)
    × ((p : Proposal) × IsClaim release endpoints db r.duration_ms p)
    × (find (of_release release) db'.confirmations
        ≡ some (confirmation_row release none r.metadata now))

-- No release and no pin that there was is another, and no other release gets a pin.
abbrev pub Holds : ℕ → Db → Db → Type 0
Holds release db db' =
    (db'.releases ≡ db.releases)
    × ((i : ℕ) (c : Confirmation)
        → find (of_release i) db.confirmations ≡ some c
        → find (of_release i) db'.confirmations ≡ some c)
    × ((i : ℕ)
        → (release == i) ≡ false
        → find (of_release i) db'.confirmations ≡ find (of_release i) db.confirmations)

-- An attempt pins, or changes nothing and says why.
abbrev pub Attempt : ℕ → List Text → ℕ → Db → Release → Result StoreError (Db × Outcome) → Type 0
Attempt release endpoints now db r result =
    (db' : Db) × (o : Outcome) × (result ≡ ok (db', o))
    × (((o ≡ eligible) × IsAutoPinned release endpoints now db r db')
        ⊎ ((o ≢ eligible) × (db' ≡ db)))
    × Holds release db db'
    × (IsPinned db → IsPinned db')

module _ (release : ℕ) (endpoints : List Text) (now : ℕ) (db : Db) (r : Release) where
  refusal : (o : Outcome) → o ≢ eligible → Attempt release endpoints now db r (ok (db, o))
  refusal o ne = (db, o, refl, inr (ne, refl), (refl, λ i c h. h, λ i e. refl), λ h. h)

  pinned_row :
      find (of_release release) db.confirmations ≡ none
      → find (of_release release) (put_confirmation release none r.metadata now db).confirmations
        ≡ some (confirmation_row release none r.metadata now)
  pinned_row bare =
      find-upsert (of_release release) (repin none r.metadata now)
        (confirmation_row release none r.metadata now) db.confirmations (λ c hit. hit)
        (==_refl release)
      ∙ rw bare refl

  other_pins :
      find (of_release release) db.confirmations ≡ none
      → (i : ℕ) (c : Confirmation) → find (of_release i) db.confirmations ≡ some c
      → find (of_release i) (put_confirmation release none r.metadata now db).confirmations ≡ some c
  other_pins bare i c h = elim (Bool-cases (release == i)) [
    | inl e ↦
        let same : release ≡ i = (==_iff release i).0 e in
        absurd (cc (ap (λ (k : ℕ). find (of_release k) db.confirmations) same, bare, h))
    | inr e ↦
        find-upsert_other (of_release i) (of_release release) (repin none r.metadata now)
          (confirmation_row release none r.metadata now) db.confirmations
          (λ d hit. (apart_pins i release d e hit, apart_pins i release d e hit)) e
        ∙ h
  ]

  attempt_pin :
      (o : Option Proposal)
      → find (is_release release) db.releases ≡ some r
      → r.autoconfirm_blocked ≡ false
      → is_empty (or_empty r.metadata.title) ≡ false
      → find (of_release release) db.confirmations ≡ none
      → pinning_proposal release endpoints db ≡ o
      → Attempt release endpoints now db r (pin_if_consistent r o release now db)
  unfolding confirm_metadata
  attempt_pin none found open_ titled bare e = refusal no_trusted_id (λ x. cc)
  attempt_pin (some p) found open_ titled bare e =
      let fits =
        stash_id_duration_consistent release (or_empty p.endpoint) (or_empty p.stash_id)
          r.duration_ms db in
      elim (Bool-cases fits) [
        | inl y ↦
            let pinned = put_confirmation release none r.metadata now db in
            (
              pinned,
              eligible,
              rw (y, any-find (is_release release) db.releases r found) refl,
              inl (
                refl,
                (
                  open_,
                  titled,
                  bare,
                  (p, pinning-IsClaim release endpoints db r p e y),
                  pinned_row bare,
                ),
              ),
              (
                refl,
                other_pins bare,
                λ i e. put_confirmation-bare release none r.metadata now i db e,
              ),
              put_confirmation-IsPinned release none now db r found,
            )
        | inr x ↦ rw x (refusal contradicted (λ z. cc))
      ]

-- On a release that is there AutoConfirmIfEligible succeeds. Either it pins the release, and then all of
-- this held: it was not blocked by a moderator, had a title and no pin, and an account that is trusted and
-- not disabled proposed a stash-box id of an accepted endpoint for it, and the release has a runtime within
-- five percent of which are those of the other releases that carry the id; and the pin is of what the release
-- shows, by nobody. Or it changes nothing. The releases and the pins that there were stay, no other release
-- gets a pin, and each pin is shown if it was.
pub auto_confirm_if_eligible_lem :
    (release : ℕ) (endpoints : List Text) (now : ℕ) (db : Db) (r : Release)
    → find (is_release release) db.releases ≡ some r
    → Attempt release endpoints now db r (auto_confirm_if_eligible release endpoints now db)
unfolding auto_confirm_if_eligible
auto_confirm_if_eligible_lem release [] now db r found =
    refusal release [] now db r no_endpoint (λ x. cc)
auto_confirm_if_eligible_lem release (e ∷ es) now db r found =
    let result = auto_confirm_if_eligible release (e ∷ es) now db in
    let refuse = λ (o : Outcome) (ne : o ≢ eligible) (same : result ≡ ok (db, o)).
      subst (Attempt release (e ∷ es) now db r) (sym same)
        (refusal release (e ∷ es) now db r o ne) in
    elim (Bool-cases r.autoconfirm_blocked) [
      | inl y ↦ refuse unpinned (λ x. cc) (rw found (simp y))
      | inr open_ ↦ elim (Bool-cases (is_empty (or_empty r.metadata.title))) [
        | inl y ↦ refuse no_title (λ x. cc) (rw found (simp (open_, y)))
        | inr titled ↦ elim (Option-cases (find (of_release release) db.confirmations)) [
          | inl bare ↦
              let picked = pinning_proposal release (e ∷ es) db in
              let same : result ≡ pin_if_consistent r picked release now db =
                rw found (simp (open_, titled, bare)) in
              subst (Attempt release (e ∷ es) now db r) (sym same)
                (attempt_pin release (e ∷ es) now db r picked found open_ titled bare refl)
          | inr (c, y) ↦ refuse already_pinned (λ x. cc) (rw found (simp (open_, titled, y)))
        ]
      ]
    ]
