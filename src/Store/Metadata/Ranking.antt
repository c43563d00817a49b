-- ===== src/Store/Metadata/Ranking.antt =====
-- internal/store/metadata.go: how pickString ranks the values of a field.
use moan_subs.Prelude.{
  ◌≡◌, ◌≢◌, refl, sym, ◌∙◌, Bool, true, false, not, ◌&&◌, ◌||◌, ltb, List, [], ◌∷◌, Option, none,
  some, arith, ◌==◌, any, Bool-cases, inl, inr,
}
use moan_subs.Prelude.Text.{text_eq, text_eq_refl, eq-text_eq}
use moan_subs.Store.Metadata.Derive.{Candidate, same_bool, better, best}

-- A loop over a map comes to each entry and to nothing else, in an order of its own.
abbrev pub IsVisit : (List Candidate → List Candidate) → Type 0
IsVisit visit = (q : Candidate → Bool) (cs : List Candidate) → any q (visit cs) ≡ any q cs

not_better_trans : (x b d : Candidate) → better x b ≡ false → better d b ≡ true → better x d ≡ false
unfolding better
not_better_trans x b d h k = ground arith

better_irrefl : (b : Candidate) → better b b ≡ false
unfolding better
better_irrefl b = ground arith

pub better-asym : (b d : Candidate) → better d b ≡ true → better b d ≡ false
unfolding better
better-asym b d h = ground arith

pub better-total : (b d : Candidate) → better b d ≡ false → b.order ≢ d.order → better d b ≡ true
unfolding better
better-total b d h ne = ground arith

-- A weight is above another by the stash-box; on a par, by the agreement; on a par again, by being newer.
abbrev pub ranks_above : Candidate → Candidate → Bool
ranks_above a b =
    (a.stash_box && not b.stash_box)
    || (same_bool a.stash_box b.stash_box
        && (ltb b.agree a.agree || (a.agree == b.agree && ltb a.order b.order)))

pub better-above : (a b : Candidate) → better a b ≡ ranks_above a b
unfolding better
better-above a b = ground arith

abbrev pub same_candidate : Candidate → Candidate → Bool
same_candidate b c =
    text_eq b.value c.value
    && same_bool b.stash_box c.stash_box
    && b.agree == c.agree
    && b.order == c.order

pub same_candidate_refl : (b : Candidate) → same_candidate b b ≡ true
same_candidate_refl b = ground (arith, text_eq_refl b.value)

pub eq-same_candidate : (b c : Candidate) → same_candidate b c ≡ true → b ≡ c
eq-same_candidate b c h = ground (arith, eq-text_eq b.value c.value)

-- What is not better than the candidate so far is not better than the last one, and no later one is.
best-keeps :
    (x b c : Candidate) (cs : List Candidate)
    → better x b ≡ false
    → best (some b) cs ≡ some c
    → better x c ≡ false
unfolding best
best-keeps x b c [] h e = ground arith
best-keeps x b c (d ∷ cs) h e = elim (Bool-cases (better d b)) [
  | inl k ↦ best-keeps x d c cs (not_better_trans x b d h k) (rw k at e)
  | inr k ↦ best-keeps x b c cs h (rw k at e)
]

best-unbeaten :
    (b c : Candidate) (cs : List Candidate)
    → best (some b) cs ≡ some c
    → any (λ d. better d c) (b ∷ cs) ≡ false
unfolding best
best-unbeaten b c [] e = let same : b ≡ c = cc in rw (same, better_irrefl c) refl
best-unbeaten b c (d ∷ cs) e = elim (Bool-cases (better d b)) [
  | inl k ↦
      let e' : best (some d) cs ≡ some c = rw k at e in
      rw (best-keeps b d c cs (better-asym b d k) e') (best-unbeaten d c cs e')
  | inr k ↦
      let e' : best (some b) cs ≡ some c = rw k at e in
      ground (arith, best-unbeaten b c cs e', best-keeps d b c cs k e')
]

best-found :
    (b c : Candidate) (cs : List Candidate) (q : Candidate → Bool)
    → best (some b) cs ≡ some c
    → q c ≡ true
    → any q (b ∷ cs) ≡ true
unfolding best
best-found b c [] q e h = let same : b ≡ c = cc in rw (same, h) refl
best-found b c (d ∷ cs) q e h = elim (Bool-cases (better d b)) [
  | inl k ↦ let later = best-found d c cs q (rw k at e) h in ground (arith, later)
  | inr k ↦ let kept = best-found b c cs q (rw k at e) h in ground (arith, kept)
]

best_total : (b : Candidate) (cs : List Candidate) → (c : Candidate) × (best (some b) cs ≡ some c)
unfolding best
best_total b [] = (b, refl)
best_total b (d ∷ cs) = elim (Bool-cases (better d b)) [
  | inl k ↦ rw k (best_total d cs)
  | inr k ↦ rw k (best_total b cs)
]

-- The best of the entries, or that there is none.
abbrev pub IsBest : Option Candidate → List Candidate → Type 0
IsBest none cs = (q : Candidate → Bool) → any q cs ≡ false
IsBest (some c) cs =
    (any (λ d. better d c) cs ≡ false) × ((q : Candidate → Bool) → q c ≡ true → any q cs ≡ true)

pub best-IsBest : (cs : List Candidate) → IsBest (best none cs) cs
unfolding best
best-IsBest [] = λ q. refl
best-IsBest (b ∷ cs) =
    let (c, e) = best_total b cs in rw e (best-unbeaten b c cs e, λ q h. best-found b c cs q e h)

-- The same of the entries in another order.
pub visit-IsBest :
    (visit : List Candidate → List Candidate) (cs : List Candidate) (o : Option Candidate)
    → IsVisit visit
    → IsBest o (visit cs)
    → IsBest o cs
visit-IsBest visit cs none v h = λ q. sym (v q cs) ∙ h q
visit-IsBest visit cs (some c) v (top, there) =
    (sym (v (λ d. better d c) cs) ∙ top, λ q h. sym (v q cs) ∙ there q h)
