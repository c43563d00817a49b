-- ===== src/Store/Tracks/Heads.antt =====
-- internal/store/subtitle_track.go: trackIsHead shows one row of a chain.
use moan_subs.Prelude.{
  ℕ, ◌≤◌, ◌≡◌, refl, Bool, ◌&&◌, List, arith, ◌==◌, if◌then◌else◌, count, any, Bool-cases, inl, inr,
  ==_iff,
}
use moan_subs.Store.Table.{max_where}
use moan_subs.Store.Table.Upsert.{count-some, count-none}
use moan_subs.Store.Table.Max.{max_where-attained, count_mono, count-eq}
use moan_subs.Store.Schema.{Track}
use moan_subs.Store.Tracks.{in_chain, is_live_in, revision_of, track_is_head}

-- No two rows of a chain have the same revision.
abbrev pub IsChained : List Track → Type 0
IsChained tracks = (root n : ℕ) → count (λ t. in_chain root t && t.revision == n) tracks ≤ 1

-- A head of a chain, as the listings ask for it.
abbrev pub is_head_in : ℕ → List Track → Track → Bool
is_head_in root tracks t = in_chain root t && track_is_head t tracks

is_head_in_lem :
    (root : ℕ) (tracks : List Track) (t : Track)
    → is_head_in root tracks t
      ≡ (is_live_in root t && t.revision == max_where (is_live_in root) revision_of tracks)
unfolding track_is_head
is_head_in_lem root tracks t = elim (Bool-cases (in_chain root t)) [
  | inl e ↦ let same : t.root_id ≡ root = (==_iff t.root_id root).0 e in rw (e, same) refl
  | inr e ↦ rw e refl
]

-- A chain with a live row has exactly one head, and any other chain has none, where the revisions of a chain are distinct.
pub one_head :
    (root : ℕ) (tracks : List Track)
    → IsChained tracks
    → count (is_head_in root tracks) tracks ≡ (if any (is_live_in root) tracks then 1 else 0)
one_head root tracks chained =
    let top = max_where (is_live_in root) revision_of tracks in
    let heads : count (is_head_in root tracks) tracks
        ≡ count (λ t. is_live_in root t && t.revision == top) tracks =
      count-eq _ _ (is_head_in_lem root tracks) tracks in
    let above : count (λ t. is_live_in root t && t.revision == top) tracks ≤ 1 = omega (
      arith,
      chained root top,
      count_mono (λ t. is_live_in root t && t.revision == top)
          (λ t. in_chain root t && t.revision == top) (λ t h. ground arith) tracks,
    ) in
    elim (Bool-cases (any (is_live_in root) tracks)) [
      | inl e ↦
          rw (heads, e)
            (omega (
              arith,
              above,
              count-some _ tracks
                  (max_where-attained (is_live_in root) revision_of top tracks e refl),
            ))
      | inr e ↦
          rw (heads, e)
            (omega (
              arith,
              count-none (is_live_in root) tracks e,
              count_mono (λ t. is_live_in root t && t.revision == top) (is_live_in root)
                  (λ t h. ground arith) tracks,
            ))
    ]
