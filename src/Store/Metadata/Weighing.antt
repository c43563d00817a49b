-- ===== src/Store/Metadata/Weighing.antt =====
-- internal/store/metadata.go: the weight that pickString gives a value, and what one more proposal adds to it.
use moan_subs.Prelude.{
  ℕ, suc, ◌≡◌, refl, Bool, true, false, ◌&&◌, ◌||◌, List, [], ◌∷◌, ◌++◌, Option, arith,
  if◌then◌else◌, any, count, length, Bool-cases, inl, inr, count-append,
}
use moan_subs.Prelude.Text.{Text, text_eq}
use moan_subs.Prelude.Unicode.{trim_space}
use moan_subs.Store.Schema.{Metadata, Proposal}
use moan_subs.Store.Table.Upsert.{count-none}
use moan_subs.Store.Table.Keep.{any-append}
use moan_subs.Store.Metadata.{or_empty, non_empty}
use moan_subs.Store.Metadata.Derive.{Candidate, heard, new_candidate}

module _ (field : Metadata → Option Text) where
  -- A proposal says a value when its field has content and is the value but for white space around it.
  abbrev pub says : Text → Proposal → Bool
  says v p = non_empty (field p.metadata) && text_eq (trim_space (or_empty (field p.metadata))) v

  abbrev backed : Text → Proposal → Bool
  backed v p = says v p && non_empty p.stash_id

  -- The position of the first proposal that says a value.
  abbrev pub first : Text → List Proposal → ℕ
  first v [] = 0
  first v (p ∷ ps) = if says v p then 0 else suc (first v ps)

  -- The weight of a value: whether a proposal with a stash-box id says it, how many proposals say it,
  -- and where the first of them stands.
  abbrev pub weigh : Text → List Proposal → Candidate
  weigh v ps = record {
    value = v;
    stash_box = any (backed v) ps;
    agree = count (says v) ps;
    order = first v ps;
  }

  first-append_said :
      (v : Text) (ps qs : List Proposal) → any (says v) ps ≡ true → first v (ps ++ qs) ≡ first v ps
  first-append_said v [] qs h = absurd (cc)
  first-append_said v (p ∷ ps) qs h = elim (Bool-cases (says v p)) [
    | inl e ↦ rw e refl
    | inr e ↦ rw (e, first-append_said v ps qs (rw e at h)) refl
  ]

  first-append_new :
      (v : Text) (ps : List Proposal) (p : Proposal)
      → any (says v) ps ≡ false
      → says v p ≡ true
      → first v (ps ++ p ∷ []) ≡ length ps
  first-append_new v [] p h e = rw e refl
  first-append_new v (q ∷ ps) p h e = elim (Bool-cases (says v q)) [
    | inl d ↦ absurd (ground arith)
    | inr d ↦ rw (d, first-append_new v ps p (rw d at h) e) refl
  ]

  unbacked : (v : Text) (ps : List Proposal) → any (says v) ps ≡ false → any (backed v) ps ≡ false
  unbacked v [] h = refl
  unbacked v (p ∷ ps) h = elim (Bool-cases (says v p)) [
    | inl e ↦ absurd (ground arith)
    | inr e ↦ rw e (unbacked v ps (rw e at h))
  ]

  or_comm : (a b : Bool) → (a || b) ≡ (b || a)
  or_comm true b = ground arith
  or_comm false b = ground arith

  pub weigh_again :
      (v : Text) (ps : List Proposal) (p : Proposal)
      → any (says v) ps ≡ true
      → says v p ≡ true
      → weigh v (ps ++ p ∷ []) ≡ heard (non_empty p.stash_id) (weigh v ps)
  weigh_again v ps p h e =
      rw
        (
          any-append (backed v) ps (p ∷ []),
          count-append (says v) ps (p ∷ []),
          first-append_said v ps (p ∷ []) h,
          e,
        )
        (ground arith)

  pub weigh_other :
      (v : Text) (ps : List Proposal) (p : Proposal)
      → any (says v) ps ≡ true
      → says v p ≡ false
      → weigh v (ps ++ p ∷ []) ≡ weigh v ps
  weigh_other v ps p h e =
      rw
        (
          any-append (backed v) ps (p ∷ []),
          count-append (says v) ps (p ∷ []),
          first-append_said v ps (p ∷ []) h,
          e,
        )
        (ground arith)

  pub weigh_new :
      (v : Text) (ps : List Proposal) (p : Proposal)
      → any (says v) ps ≡ false
      → says v p ≡ true
      → weigh v (ps ++ p ∷ []) ≡ new_candidate v (non_empty p.stash_id) (length ps)
  weigh_new v ps p h e =
      rw
        (
          any-append (backed v) ps (p ∷ []),
          count-append (says v) ps (p ∷ []),
          first-append_new v ps p h e,
          unbacked v ps h,
          count-none (says v) ps h,
          e,
        )
        (ground arith)
