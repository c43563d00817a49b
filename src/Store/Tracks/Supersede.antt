-- ===== src/Store/Tracks/Supersede.antt =====
-- internal/store/subtitle_track.go: SupersedeTrack grows a chain by one revision at its head.
use moan_subs.Prelude.{
  ℕ, suc, ◌+◌, ◌≤◌, ◌<◌, ◌≡◌, ◌≢◌, refl, ap, subst, ◌∙◌, true, false, not, ◌&&◌, List, [], ◌∷◌,
  ◌++◌, none, some, arith, ◌==◌, All, Bool-cases, inl, inr, ==_iff, ==_refl,
}
use moan_subs.Prelude.Result.{ok}
use moan_subs.Prelude.Text.{text_eq, text_eq_refl}
use moan_subs.Store.Table.{max_where, max_where-bound, is_id, All-map, All-and}
use moan_subs.Store.Table.Max.{max_where-append, max_where_mono, find_sound, All-find, any-none}
use moan_subs.Store.Schema.{Db, Track}
use moan_subs.Store.Tracks.{
  is_live, in_chain, is_live_in, revision_of, track_is_head, NewTrack, track_row, kind_allowed,
  track_references, slot_free, live_successor, insert_track, find_track, head_revision,
  max_revision, supersede_track,
}

-- A row that supersedes another stands in its chain, at a later revision.
abbrev pub Follows : Track → Track → Type 0
Follows s t =
    is_id s.id t.supersedes_id ≡ true → (t.root_id ≡ s.root_id) × (s.revision < t.revision)

abbrev pub IsLinked : List Track → Type 0
IsLinked tracks = All (λ s. All (Follows s) tracks) tracks

in_chain-live : (root : ℕ) (r : Track) → is_live_in root r ≡ true → in_chain root r ≡ true
in_chain-live root r h = ground arith

-- The revision that a chain grows by is above all that it has, withdrawn ones included.
new_top :
    (root : ℕ) (tracks : List Track) (t : Track)
    → t.root_id ≡ root
    → t.withdrawn_at ≡ none
    → t.revision ≡ max_revision root tracks + 1
    → head_revision root (tracks ++ t ∷ []) ≡ max_revision root tracks + 1
unfolding head_revision max_revision
new_top root tracks t e live h = ground (
  arith,
  max_where-append (is_live_in root) revision_of tracks t,
  max_where_mono (is_live_in root) (in_chain root) revision_of (in_chain-live root) tracks,
  ==_refl root,
)

-- The chains of other roots keep their heads.
other_heads :
    (tracks : List Track) (s t : Track)
    → s.root_id ≢ t.root_id
    → track_is_head s (tracks ++ t ∷ []) ≡ track_is_head s tracks
unfolding track_is_head
other_heads tracks s t ne =
    ap (λ (m : ℕ). is_live s && s.revision == m)
      (max_where-append (is_live_in s.root_id) revision_of tracks t ∙ ground arith)

not_successor :
    (p t : Track) (top : ℕ)
    → p.revision ≡ top
    → Follows p t
    → (is_live_in p.root_id t ≡ true → t.revision ≤ top)
    → live_successor p.id t ≡ false
not_successor p t top e follows bound = elim (Bool-cases (live_successor p.id t)) [
  | inl hit ↦ absurd (ground (arith, follows, bound, ==_refl p.root_id))
  | inr miss ↦ miss
]

-- Nothing live supersedes the head of its chain.
head-slot_free :
    (tracks : List Track) (p : Track)
    → All (Follows p) tracks
    → track_is_head p tracks ≡ true
    → slot_free (some p.id) tracks ≡ true
unfolding track_is_head
head-slot_free tracks p follows head =
    let top = max_where (is_live_in p.root_id) revision_of tracks in
    let e : p.revision ≡ top = ground arith in
    ap not (
      any-none (live_successor p.id) tracks (
        All-map (λ t h. not_successor p t top e h.0 h.1) tracks
          (All-and (Follows p) (λ t. is_live_in p.root_id t ≡ true → t.revision ≤ top) tracks
            follows (max_where-bound (is_live_in p.root_id) revision_of top tracks (omega arith)))))

head_parts :
    (p : Track) (tracks : List Track)
    → track_is_head p tracks ≡ true
    → (is_live p ≡ true) × ((p.revision == head_revision p.root_id tracks) ≡ true)
unfolding track_is_head head_revision
head_parts p tracks h = ground arith

-- A row at the top of its chain is the head, and one below the top is not.
top-head :
    (t : Track) (tracks : List Track)
    → t.withdrawn_at ≡ none
    → head_revision t.root_id tracks ≡ t.revision
    → track_is_head t tracks ≡ true
unfolding track_is_head head_revision
top-head t tracks live top = ground (arith, ==_refl t.revision)

below-head :
    (t : Track) (tracks : List Track)
    → t.revision < head_revision t.root_id tracks
    → track_is_head t tracks ≡ false
unfolding track_is_head head_revision
below-head t tracks below = ground arith

head_le_max :
    (root : ℕ) (tracks : List Track) → head_revision root tracks ≤ max_revision root tracks
unfolding head_revision max_revision
head_le_max root tracks =
    max_where_mono (is_live_in root) (in_chain root) revision_of (in_chain-live root) tracks

-- The head of a chain that is not locked can be superseded by a track of its release and language
-- that meets the constraints. The new row is then the head of the chain, at a revision above all
-- others, the old head is none, and every row of another chain is a head or not as before. (Before
-- the call, every row that supersedes another stands in its chain, at a later revision.)
pub supersede_track-head :
    (parent_id now : ℕ) (t : NewTrack) (db : Db) (parent : Track)
    → let revision = max_revision parent.root_id db.tracks + 1 in
      let row = track_row t db.next_track now parent.root_id revision (some parent_id) in
      let tracks = db.tracks ++ row ∷ [] in
      IsLinked db.tracks
      → find_track parent_id db.tracks ≡ some parent
      → track_is_head parent db.tracks ≡ true
      → parent.revision_locked ≡ false
      → t.release_id ≡ parent.release_id
      → t.lang ≡ parent.lang
      → kind_allowed row.kind row.kind_label ≡ true
      → track_references row db ≡ true
      → (supersede_track parent_id t now db
          ≡ ok (
            record db { tracks = tracks; next_track = suc db.next_track },
            db.next_track,
            revision,
          ))
        × (track_is_head row tracks ≡ true)
        × (track_is_head parent tracks ≡ false)
        × ((s : Track)
            → s.root_id ≢ parent.root_id
            → track_is_head s tracks ≡ track_is_head s db.tracks)
unfolding supersede_track insert_track
supersede_track-head parent_id now t db parent linked found head unlocked release lang kind refs =
    let row =
      track_row t db.next_track now parent.root_id (max_revision parent.root_id db.tracks + 1)
        (some parent_id) in
    let (live, at_head) = head_parts parent db.tracks head in
    let same_id : parent.id ≡ parent_id =
      (==_iff parent.id parent_id).0 (find_sound (λ s. s.id == parent_id) db.tracks parent found) in
    let free : slot_free (some parent_id) db.tracks ≡ true =
      subst (λ (n : ℕ). slot_free (some n) db.tracks ≡ true) same_id
        (head-slot_free db.tracks parent
          (All-find (λ s. All (Follows s) db.tracks) (λ s. s.id == parent_id) db.tracks parent
            linked found)
          head) in
    let same : (t.release_id == parent.release_id && text_eq t.lang parent.lang) ≡ true =
      rw (release, lang, ==_refl parent.release_id) (text_eq_refl parent.lang) in
    let top = new_top parent.root_id db.tracks row refl refl refl in
    (
      rw (found, supersede_track, live, unlocked, at_head, same, kind, free, refs),
      top-head row (db.tracks ++ row ∷ []) refl top,
      below-head parent (db.tracks ++ row ∷ []) (
          omega (
            arith,
            top,
            head_le_max parent.root_id db.tracks,
            (==_iff parent.revision (head_revision parent.root_id db.tracks)).0 at_head,
          )),
      λ s ne. other_heads db.tracks s row ne,
    )
