-- ===== src/Store/Metadata/Weights.antt =====
-- internal/store/metadata.go: what the proposals say for a value of one field, and that the map of
-- pickString holds just that.
use moan_subs.Prelude.{
  ℕ, suc, ◌≡◌, refl, sym, ap, subst, ◌∙◌, Bool, true, false, List, [], ◌∷◌, ◌++◌, Option, arith,
  any, length, All, Bool-cases, inl, inr, All-append, append_assoc, append-nil, length-append,
}
use moan_subs.Prelude.Text.{Text, text_eq, text_eq_refl, eq-text_eq}
use moan_subs.Prelude.Unicode.{trim_space}
use moan_subs.Store.Schema.{Metadata, Proposal}
use moan_subs.Store.Table.{update_where, All-update_where, All-map}
use moan_subs.Store.Table.Upsert.{upsert_where}
use moan_subs.Store.Table.Keep.{any-append, any-update_unseen}
use moan_subs.Store.Metadata.{or_empty, non_empty}
use moan_subs.Store.Metadata.Derive.{Candidate, has_value, heard, new_candidate, hear, gather}
use moan_subs.Store.Metadata.Weighing.{says, weigh, weigh_again, weigh_other, weigh_new}

All-missed {ℓ κ ι} :
    {A : Type ℓ} {P : A → Type κ} {Q : A → Type ι} (q : A → Bool)
    → ((r : A) → P r → q r ≡ false → Q r)
    → (rows : List A) → any q rows ≡ false
    → All P rows
    → All Q rows
All-missed q h [] none_passes _ = tt
All-missed q h (r ∷ rows) none_passes (x, xs) = elim (Bool-cases (q r)) [
  | inl e ↦ absurd (ground arith)
  | inr e ↦ (h r x e, All-missed q h rows (rw e at none_passes) xs)
]

module _ (field : Metadata → Option Text) where
  -- The map after some proposals: each entry is the weight of its value, and there is one for each value
  -- that was said.
  abbrev pub IsWeighed : List Proposal → List Candidate → Type 0
  IsWeighed ps cs =
      All (λ c. (c ≡ weigh field c.value ps) × (any (says field c.value) ps ≡ true)) cs
      × ((v : Text) → any (has_value v) cs ≡ any (says field v) ps)

  stays-IsWeighed :
      (ps : List Proposal) (p : Proposal) (cs : List Candidate)
      → ((v : Text) → says field v p ≡ false)
      → IsWeighed ps cs
      → IsWeighed (ps ++ p ∷ []) cs
  stays-IsWeighed ps p cs silent (each, whole) = (
    All-map
        (λ c (same, said). (
          same ∙ sym (weigh_other field c.value ps p said (silent c.value)),
          any-append (says field c.value) ps (p ∷ []) ∙ ground (arith, said),
        ))
        cs each,
    λ v. whole v ∙ sym (any-append (says field v) ps (p ∷ []) ∙ ground (arith, silent v)),
  )

  -- The entry that a proposal meets, and the others.
  heard_weighed :
      (v : Text) (ps : List Proposal) (p : Proposal) (c : Candidate)
      → says field v p ≡ true
      → (c ≡ weigh field c.value ps) × (any (says field c.value) ps ≡ true)
      → has_value v c ≡ true
      → (heard (non_empty p.stash_id) c ≡ weigh field c.value (ps ++ p ∷ []))
        × (any (says field c.value) (ps ++ p ∷ []) ≡ true)
  heard_weighed v ps p c e (same, said) hit =
      let again : says field c.value p ≡ true =
        ap (λ (w : Text). says field w p) (eq-text_eq c.value v hit) ∙ e in
      (
        ap (heard (non_empty p.stash_id)) same ∙ sym (weigh_again field c.value ps p said again),
        any-append (says field c.value) ps (p ∷ []) ∙ ground (arith, said),
      )

  other_value : (v w : Text) → text_eq w v ≡ false → text_eq v w ≡ false
  other_value v w ne = elim (Bool-cases (text_eq v w)) [
    | inl e ↦ absurd (cc (ne, text_eq_refl v, eq-text_eq v w e))
    | inr e ↦ e
  ]

  unheard_weighed :
      (ps : List Proposal) (p : Proposal) (c : Candidate)
      → (c ≡ weigh field c.value ps) × (any (says field c.value) ps ≡ true)
      → has_value (trim_space (or_empty (field p.metadata))) c ≡ false
      → (c ≡ weigh field c.value (ps ++ p ∷ [])) × (any (says field c.value) (ps ++ p ∷ []) ≡ true)
  unheard_weighed ps p c (same, said) miss =
      let silent : says field c.value p ≡ false =
        ground (arith, other_value (trim_space (or_empty (field p.metadata))) c.value miss) in
      (
        same ∙ sym (weigh_other field c.value ps p said silent),
        any-append (says field c.value) ps (p ∷ []) ∙ ground (arith, said),
      )

  pub says-value :
      (v w : Text) (p : Proposal) → says field v p ≡ true → says field w p ≡ true → w ≡ v
  says-value v w p a b =
      let t = trim_space (or_empty (field p.metadata)) in
      sym (eq-text_eq t w (ground arith)) ∙ eq-text_eq t v (ground arith)

  -- A value that is said again.
  heard_again :
      (ps : List Proposal) (p : Proposal) (cs : List Candidate)
      → let v = trim_space (or_empty (field p.metadata)) in
        says field v p ≡ true
        → any (has_value v) cs ≡ true
        → IsWeighed ps cs
        → IsWeighed (ps ++ p ∷ []) (update_where (has_value v) (heard (non_empty p.stash_id)) cs)
  heard_again ps p cs e there (each, whole) =
      let v = trim_space (or_empty (field p.metadata)) in
      let old : any (says field v) ps ≡ true = sym (whole v) ∙ there in
      (
        All-update_where (has_value v) (heard (non_empty p.stash_id))
            (λ c h hit. heard_weighed v ps p c e h hit) (λ c h miss. unheard_weighed ps p c h miss)
            cs each,
        λ w.
            any-update_unseen (has_value w) (has_value v) (heard (non_empty p.stash_id)) (λ c. refl)
              cs
            ∙ whole w
            ∙ sym (
                any-append (says field w) ps (p ∷ []) ∙ elim (Bool-cases (says field w p)) [
                  | inl d ↦ let same_text : w ≡ v = says-value v w p e d in rw (same_text, old) refl
                  | inr d ↦ rw d (ground arith)
                ]),
      )

  -- A value that is said for the first time.
  heard_first :
      (ps : List Proposal) (p : Proposal) (cs : List Candidate)
      → let v = trim_space (or_empty (field p.metadata)) in
        says field v p ≡ true
        → any (has_value v) cs ≡ false
        → IsWeighed ps cs
        → IsWeighed (ps ++ p ∷ []) (cs ++ new_candidate v (non_empty p.stash_id) (length ps) ∷ [])
  heard_first ps p cs e absent (each, whole) =
      let v = trim_space (or_empty (field p.metadata)) in
      let old : any (says field v) ps ≡ false = sym (whole v) ∙ absent in
      let new = new_candidate v (non_empty p.stash_id) (length ps) in
      let said : any (says field v) (ps ++ p ∷ []) ≡ true =
        any-append (says field v) ps (p ∷ []) ∙ rw (old, e) refl in
      (
        All-append
            (λ c.
              (c ≡ weigh field c.value (ps ++ p ∷ []))
              × (any (says field c.value) (ps ++ p ∷ []) ≡ true))
            cs (new ∷ [])
            (All-missed (has_value v) (λ c h miss. unheard_weighed ps p c h miss) cs absent each)
            ((sym (weigh_new field v ps p old e), said), tt),
        λ w.
            any-append (has_value w) cs (new ∷ [])
            ∙ sym (
                any-append (says field w) ps (p ∷ [])
                ∙ rw (whole w) (elim (Bool-cases (says field w p)) [
                  | inl d ↦
                      let same_text : w ≡ v = says-value v w p e d in
                      rw (d, same_text, text_eq_refl v) refl
                  | inr d ↦ let ne : text_eq v w ≡ false = ground arith in rw (d, ne) refl
                ])),
      )

  hear-IsWeighed :
      (ps : List Proposal) (p : Proposal) (cs : List Candidate)
      → non_empty (field p.metadata) ≡ true
      → IsWeighed ps cs
      → IsWeighed
          (ps ++ p ∷ [])
          (hear (trim_space (or_empty (field p.metadata))) (non_empty p.stash_id) (length ps) cs)
  unfolding upsert_where
  hear-IsWeighed ps p cs full h =
      let v = trim_space (or_empty (field p.metadata)) in
      let e : says field v p ≡ true = rw full (text_eq_refl v) in
      elim (Bool-cases (any (has_value v) cs)) [
        | inl there ↦ rw there (heard_again ps p cs e there h)
        | inr absent ↦ rw absent (heard_first ps p cs e absent h)
      ]

  -- pickString's map over all proposals.
  gather_from :
      (ps qs : List Proposal) (cs : List Candidate)
      → IsWeighed ps cs
      → IsWeighed (ps ++ qs) (gather field (length ps) qs cs)
  unfolding gather
  gather_from ps [] cs h = rw (append-nil ps) h
  gather_from ps (p ∷ qs) cs h =
      let longer : length (ps ++ p ∷ []) ≡ suc (length ps) =
        omega (arith, length-append ps (p ∷ [])) in
      let next = λ (ds : List Candidate) (k : IsWeighed (ps ++ p ∷ []) ds).
        subst (λ (n : ℕ). IsWeighed (ps ++ p ∷ qs) (gather field n qs ds)) longer
          (subst
            (λ (all : List Proposal). IsWeighed all (gather field (length (ps ++ p ∷ [])) qs ds))
            (append_assoc ps (p ∷ []) qs) (gather_from (ps ++ p ∷ []) qs ds k)) in
      elim (Bool-cases (non_empty (field p.metadata))) [
        | inl full ↦ rw full (next _ (hear-IsWeighed ps p cs full h))
        | inr bare ↦ rw bare (next cs (stays-IsWeighed ps p cs (λ v. rw bare refl) h))
      ]

  pub gather-IsWeighed : (ps : List Proposal) → IsWeighed ps (gather field 0 ps [])
  gather-IsWeighed ps = gather_from [] ps [] (tt, λ v. refl)
