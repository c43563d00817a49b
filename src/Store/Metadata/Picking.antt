-- ===== src/Store/Metadata/Picking.antt =====
-- internal/store/metadata.go: pickString finds the value of most weight, in whatever order its map is read.
use moan_subs.Prelude.{
  ◌≡◌, ◌≢◌, refl, sym, ap, subst, ◌∙◌, Bool, true, false, List, [], ◌∷◌, Option, none, some, arith,
  any, All, Bool-cases, inl, inr,
}
use moan_subs.Prelude.Text.{Text, text_eq, text_eq_refl, eq-text_eq}
use moan_subs.Store.Schema.{Metadata, Proposal}
use moan_subs.Store.Metadata.Derive.{Candidate, better, has_value, value_of, gather, pick_string}
use moan_subs.Store.Metadata.Weights.{says-value, IsWeighed, gather-IsWeighed}
use moan_subs.Store.Metadata.Weighing.{says, first, weigh}
use moan_subs.Store.Metadata.Ranking.{
  IsVisit, better-asym, better-total, ranks_above, better-above, same_candidate,
  same_candidate_refl, eq-same_candidate, IsBest, best-IsBest, visit-IsBest,
}

entry-weighed {ℓ} :
    (P : Candidate → Type ℓ) (c : Candidate) (cs : List Candidate)
    → any (same_candidate c) cs ≡ true
    → All P cs
    → P c
entry-weighed P c [] h _ = absurd (cc)
entry-weighed P c (d ∷ cs) h (x, xs) = elim (Bool-cases (same_candidate c d)) [
  | inl e ↦ subst P (sym (eq-same_candidate c d e)) x
  | inr e ↦ entry-weighed P c cs (rw e at h) xs
]

module _ (field : Metadata → Option Text) where
  -- A value outranks another by a proposal with a stash-box id; else by more proposals; else by a newer
  -- one, which stands further ahead.
  abbrev pub outranks : List Proposal → Text → Text → Bool
  outranks ps v w = ranks_above (weigh field v ps) (weigh field w ps)

  abbrev pub IsPicked : List Proposal → Option Text → Type 0
  IsPicked ps none = (v : Text) → any (says field v) ps ≡ false
  IsPicked ps (some v) =
      (any (says field v) ps ≡ true)
      × ((w : Text) → any (says field w) ps ≡ true → w ≢ v → outranks ps v w ≡ true)

  apart :
      (v w : Text) (ps : List Proposal)
      → any (says field v) ps ≡ true
      → any (says field w) ps ≡ true
      → first field v ps ≡ first field w ps
      → w ≡ v
  apart v w [] a b e = absurd (cc)
  apart v w (p ∷ ps) a b e = elim (Bool-cases (says field v p)) [
    | inl x ↦ elim (Bool-cases (says field w p)) [
      | inl y ↦ says-value field v w p x y
      | inr y ↦ absurd (ground arith)
    ]
    | inr x ↦ elim (Bool-cases (says field w p)) [
      | inl y ↦ absurd (ground arith)
      | inr y ↦ apart v w ps (rw x at a) (rw y at b) (ground arith)
    ]
  ]

  weight_unbeaten :
      (c : Candidate) (w : Text) (ps : List Proposal) (cs : List Candidate)
      → any (λ d. better d c) cs ≡ false
      → any (has_value w) cs ≡ true
      → All (λ d. (d ≡ weigh field d.value ps) × (any (says field d.value) ps ≡ true)) cs
      → better (weigh field w ps) c ≡ false
  weight_unbeaten c w ps [] top said each = absurd (cc)
  weight_unbeaten c w ps (d ∷ cs) top said ((same, _), each) = elim (Bool-cases (has_value w d)) [
    | inl e ↦
        let value : weigh field d.value ps ≡ weigh field w ps =
          ap (λ (v : Text). weigh field v ps) (eq-text_eq d.value w e) in
        let beaten : better d c ≡ false = ground arith in
        ap (λ (x : Candidate). better x c) (sym (same ∙ value)) ∙ beaten
    | inr e ↦ weight_unbeaten c w ps cs (ground arith) (rw e at said) each
  ]

  picked :
      (ps : List Proposal) (cs : List Candidate) (o : Option Candidate)
      → IsWeighed field ps cs
      → IsBest o cs
      → IsPicked ps (value_of o)
  picked ps cs none (each, whole) h = λ v. sym (whole v) ∙ h (has_value v)
  picked ps cs (some c) (each, whole) (top, there) =
      let (same, said) =
        entry-weighed (λ d. (d ≡ weigh field d.value ps) × (any (says field d.value) ps ≡ true)) c
          cs (there (same_candidate c) (same_candidate_refl c)) each in
      (
        said,
        λ w also ne.
            let below : better (weigh field w ps) (weigh field c.value ps) ≡ false =
              ap (λ (x : Candidate). better (weigh field w ps) x) (sym same)
              ∙ weight_unbeaten c w ps cs top (whole w ∙ also) each in
            sym (better-above (weigh field c.value ps) (weigh field w ps))
            ∙ better-total (weigh field w ps) (weigh field c.value ps) below
                (λ e. ne (apart c.value w ps said also (sym e))),
      )

  -- There is one such value.
  picked_once : (ps : List Proposal) (o p : Option Text) → IsPicked ps o → IsPicked ps p → o ≡ p
  picked_once ps none none h k = refl
  picked_once ps none (some w) h (said, _) = absurd (cc (h w, said))
  picked_once ps (some v) none (said, _) k = absurd (cc (k v, said))
  picked_once ps (some v) (some w) (said, top) (also, high) = elim (Bool-cases (text_eq w v)) [
    | inl e ↦ ap (λ (t : Text). some t) (sym (eq-text_eq w v e))
    | inr e ↦
        let ne : w ≢ v =
          λ same. let eq = ap (λ (t : Text). text_eq w t) same in cc (eq, e, text_eq_refl w) in
        let first_above = better-above (weigh field v ps) (weigh field w ps) ∙ top w also ne in
        let second_above =
          better-above (weigh field w ps) (weigh field v ps)
          ∙ high v said (λ same. ne (sym same)) in
        absurd (cc (better-asym (weigh field w ps) (weigh field v ps) first_above, second_above))
  ]

-- pickString gives no value exactly when no proposal has one, and else a value that some proposal says
-- and that outranks each other one; and so the same in whatever order the map is read.
pub pick_string-IsPicked :
    (visit : List Candidate → List Candidate) (field : Metadata → Option Text) (ps : List Proposal)
    → IsVisit visit
    → IsPicked field ps (pick_string visit ps field)
      × (pick_string visit ps field ≡ pick_string (λ cs. cs) ps field)
unfolding pick_string
pick_string-IsPicked visit field ps v =
    let cs = gather field 0 ps [] in
    let one =
      picked field ps cs _ (gather-IsWeighed field ps)
        (visit-IsBest visit cs _ v (best-IsBest (visit cs))) in
    let two = picked field ps cs _ (gather-IsWeighed field ps) (best-IsBest cs) in
    (one, picked_once field ps _ _ one two)
