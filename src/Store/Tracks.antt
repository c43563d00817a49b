-- ===== src/Store/Tracks.antt =====
-- internal/store/subtitle_track.go: subtitle tracks and their revision chains. A chain is the rows
-- with one root_id; its head is the live row with the highest revision. `now` is the time of the
-- transaction, and a call that reports success returns the tables after its commit.
pub mod Heads
pub mod Supersede
pub mod Corrections
use moan_subs.Prelude.{
  ℕ, zero, suc, ◌+◌, ◌≡◌, refl, Bool, true, false, not, ◌&&◌, ◌||◌, List, [], ◌∷◌, ◌++◌, Option,
  none, some, ltb, leb, ◌==◌, if◌then◌else◌, count, any, all, find,
}
use moan_subs.Prelude.Result.{Result, ok, err, guard, ◌>>=◌, ◌>>◌}
use moan_subs.Prelude.Text.{Text, codes, text_eq}
use moan_subs.Store.Table.{update_where, is_null, is_id, max_where}
use moan_subs.Store.Schema.{
  Db, Track, Account, Release, Authorship, shared, credited, uncredited, StoreError, not_found,
  not_head, track_locked, track_withdrawn, mismatch, foreign_key, check_violation, unique_violation,
}

abbrev pub is_live : Track → Bool
is_live t = is_null t.withdrawn_at

abbrev pub in_chain : ℕ → Track → Bool
in_chain root t = t.root_id == root

abbrev pub is_live_in : ℕ → Track → Bool
is_live_in root t = in_chain root t && is_live t

abbrev pub revision_of : Track → ℕ
revision_of t = t.revision

-- trackIsHead.
unfoldable pub track_is_head : Track → List Track → Bool
track_is_head t tracks =
    is_live t && t.revision == max_where (is_live_in t.root_id) revision_of tracks

-- What a caller hands over of a SubtitleTrack; an empty text, and 0 for the root and the revision,
-- stand for what Go's zero values do.
pub record NewTrack : Type 0 where
  pub release_id : ℕ
  pub lang : Text
  pub body : Text
  pub generated : Bool
  pub provenance : Option Text
  pub license : Text
  pub source : Option Text
  pub uploader_id : Option ℕ
  pub kind : Text
  pub kind_label : Option Text
  pub authorship : Option Authorship
  pub declared_generated : Bool
  pub root_id : ℕ
  pub revision : ℕ
  pub supersedes_id : Option ℕ

abbrev pub or_default : Text → Text → Text
or_default d [] = d
or_default d (c ∷ s) = c ∷ s

abbrev pub authorship_or_shared : Option Authorship → Authorship
authorship_or_shared none = shared
authorship_or_shared (some a) = a

-- The row of an INSERT, at a root, a revision and a superseded track.
abbrev pub track_row : NewTrack → ℕ → ℕ → ℕ → ℕ → Option ℕ → Track
track_row t id now root revision supersedes = record {
  id = id;
  release_id = t.release_id;
  lang = t.lang;
  body = t.body;
  generated = t.generated;
  provenance = t.provenance;
  license = or_default (codes "CC0") t.license;
  source = t.source;
  uploader_id = t.uploader_id;
  created_at = now;
  downloads = 0;
  withdrawn_at = none;
  withdrawn_reason = none;
  up = 0;
  down = 0;
  kind = or_default (codes "default") t.kind;
  kind_label = t.kind_label;
  root_id = root;
  revision = revision;
  supersedes_id = supersedes;
  revision_locked = false;
  authorship = authorship_or_shared t.authorship;
  declared_generated = t.declared_generated;
}

abbrev pub track_kinds : List Text
track_kinds = codes "default" ∷ codes "cc" ∷ codes "sdh" ∷ codes "forced" ∷ codes "other" ∷ []

-- The constraints on a row: the kind and its label, the rows it refers to, and one live successor
-- for each track.
unfoldable pub kind_allowed : Text → Option Text → Bool
kind_allowed kind label =
    any (text_eq kind) track_kinds && (is_null label || text_eq kind (codes "other"))

abbrev pub refers : {A : Type 0} → (A → ℕ) → List A → Option ℕ → Bool
refers key rows none = true
refers key rows (some n) = any (λ r. key r == n) rows

unfoldable pub track_references : Track → Db → Bool
track_references t db =
    any (λ r. r.id == t.release_id) db.releases
    && refers (λ (a : Account). a.id) db.accounts t.uploader_id
    && refers (λ (s : Track). s.id) db.tracks t.supersedes_id

abbrev pub live_successor : ℕ → Track → Bool
live_successor parent t = is_live t && is_id parent t.supersedes_id

-- The partial unique index on supersedes_id.
abbrev pub slot_free : Option ℕ → List Track → Bool
slot_free none tracks = true
slot_free (some parent) tracks = not (any (live_successor parent) tracks)

unfoldable pub insert_track : Track → Db → Result StoreError Db
insert_track t db = do
  guard (kind_allowed t.kind t.kind_label) check_violation
  guard (slot_free t.supersedes_id db.tracks) unique_violation
  guard (track_references t db) foreign_key
  ok (record db { tracks = db.tracks ++ t ∷ []; next_track = suc db.next_track })

abbrev pub find_track : ℕ → List Track → Option Track
find_track id = find (λ t. t.id == id)

-- FindIdenticalTrack: the lowest id, or 0.
unfoldable pub find_identical_track : ℕ → Text → Text → List Track → ℕ
find_identical_track release lang body [] = 0
find_identical_track release lang body (t ∷ ts) =
    let rest = find_identical_track release lang body ts in
    if t.release_id == release && text_eq t.lang lang && text_eq t.body body
    then if rest == 0 || ltb t.id rest then t.id else rest
    else rest

-- CreateSubtitleTrack; a root of 0 is a new chain, whose root is the row's own id.
unfoldable pub create_subtitle_track : NewTrack → ℕ → Db → Result StoreError (Db × ℕ)
create_subtitle_track t now db =
    let id = db.next_track in
    let revision = if t.revision == 0 then 1 else t.revision in
    let root = if t.root_id == 0 then id else t.root_id in
    insert_track (track_row t id now root revision t.supersedes_id) db >>= λ db'. ok (db', id)

-- The highest live revision of a chain, and the highest of all, both 0 for none.
unfoldable pub head_revision : ℕ → List Track → ℕ
head_revision root tracks = max_where (is_live_in root) revision_of tracks

unfoldable pub max_revision : ℕ → List Track → ℕ
max_revision root tracks = max_where (in_chain root) revision_of tracks

-- SupersedeTrack.
unfoldable pub supersede_track : ℕ → NewTrack → ℕ → Db → Result StoreError (Db × ℕ × ℕ)
supersede_track parent_id t now db = elim (find_track parent_id db.tracks) [
  | none ↦ err not_found
  | some parent ↦ do
    guard (is_live parent) track_withdrawn
    guard (not parent.revision_locked) track_locked
    guard (parent.revision == head_revision parent.root_id db.tracks) not_head
    guard (t.release_id == parent.release_id && text_eq t.lang parent.lang) mismatch
    let id = db.next_track
    let revision = max_revision parent.root_id db.tracks + 1
    db' ← insert_track (track_row t id now parent.root_id revision (some parent_id)) db
    ok (db', id, revision)
]

-- The state after every UPDATE must have at most one live successor of each track: the index again.
unfoldable pub successors_unique : List Track → List Track → Bool
successors_unique tracks [] = true
successors_unique tracks (t ∷ ts) = elim t.supersedes_id [
  | none ↦ successors_unique tracks ts
  | some parent ↦ leb (count (live_successor parent) tracks) 1 && successors_unique tracks ts
]

abbrev pub index_holds : List Track → Bool
index_holds tracks = successors_unique tracks tracks

-- The reason that is stored for the one a caller gives: an empty text is NULL.
abbrev pub reason_or_null : Text → Option Text
reason_or_null [] = none
reason_or_null (c ∷ s) = some (c ∷ s)

abbrev pub withdraw_row : ℕ → Text → Track → Track
withdraw_row now reason t = record t {
  withdrawn_at = some now;
  withdrawn_reason = reason_or_null reason;
}

abbrev pub restore_row : Track → Track
restore_row t = record t { withdrawn_at = none; withdrawn_reason = none }

-- WithdrawTrack, RestoreTrack and WithdrawTracksByUploader.
unfoldable pub withdraw_track : ℕ → Text → ℕ → Db → Result StoreError Db
withdraw_track id reason now db = do
  guard (any (λ t. t.id == id) db.tracks) not_found
  ok (record db { tracks = update_where (λ t. t.id == id) (withdraw_row now reason) db.tracks })

unfoldable pub restore_track : ℕ → Db → Result StoreError Db
restore_track id db = do
  guard (any (λ t. t.id == id) db.tracks) not_found
  let tracks = update_where (λ t. t.id == id) restore_row db.tracks
  guard (index_holds tracks) unique_violation
  ok (record db { tracks = tracks })

abbrev pub live_upload_of : ℕ → Track → Bool
live_upload_of account t = is_id account t.uploader_id && is_live t

unfoldable pub withdraw_tracks_by_uploader : ℕ → Text → ℕ → Db → Db × ℕ
withdraw_tracks_by_uploader account reason now db = (
  record db { tracks = update_where (live_upload_of account) (withdraw_row now reason) db.tracks },
  count (live_upload_of account) db.tracks,
)
