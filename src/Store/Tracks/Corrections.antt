-- ===== src/Store/Tracks/Corrections.antt =====
-- internal/store/subtitle_track.go: corrections of a track in place.
use moan_subs.Prelude.{
  ℕ, ◌≡◌, refl, Bool, true, false, ◌&&◌, ◌||◌, List, [], ◌∷◌, Option, none, some, arith, ◌==◌, any,
  find, Option-cases, subst, Bool-cases, inl, inr,
}
use moan_subs.Prelude.Result.{Result, ok, err, guard, ok_injective, ◌>>◌}
use moan_subs.Prelude.Text.{Text}
use moan_subs.Store.Table.{update_where, is_id}
use moan_subs.Store.Schema.{Db, Track, Authorship, StoreError, not_found, check_violation}
use moan_subs.Store.Tracks.{kind_allowed}

abbrev pub own_track : ℕ → ℕ → Track → Bool
own_track id uploader t = t.id == id && is_id uploader t.uploader_id

abbrev pub set_kind : Text → Option Text → Track → Track
set_kind kind label t = record t { kind = kind; kind_label = label }

-- UpdateSubtitleTrackKind. The constraint is asked only where a row is updated.
unfoldable pub update_subtitle_track_kind : ℕ → Text → Option Text → ℕ → Db → Result StoreError Db
update_subtitle_track_kind id kind label uploader db = do
  guard (any (own_track id uploader) db.tracks) not_found
  guard (kind_allowed kind label) check_violation
  ok (record db { tracks = update_where (own_track id uploader) (set_kind kind label) db.tracks })

-- UpdateSubtitleTrackKindAsModerator.
unfoldable pub update_subtitle_track_kind_as_moderator :
    ℕ → Text → Option Text → Db → Result StoreError Db
update_subtitle_track_kind_as_moderator id kind label db = do
  guard (any (λ t. t.id == id) db.tracks) not_found
  guard (kind_allowed kind label) check_violation
  ok (record db { tracks = update_where (λ t. t.id == id) (set_kind kind label) db.tracks })

abbrev pub coalesce : Option Authorship → Authorship → Authorship
coalesce none a = a
coalesce (some b) a = b

abbrev pub set_authorship : Option Authorship → Bool → Track → Track
set_authorship authorship declare t = record t {
  authorship = coalesce authorship t.authorship;
  declared_generated = t.declared_generated || declare;
}

-- UpdateSubtitleTrackAuthorship, and what RETURNING gives.
unfoldable pub update_subtitle_track_authorship :
    ℕ → Option Authorship → Bool → ℕ → Db → Result StoreError (Db × Authorship × Bool)
update_subtitle_track_authorship id authorship declare uploader db =
    let tracks =
      update_where (own_track id uploader) (set_authorship authorship declare) db.tracks in
    elim (find (own_track id uploader) tracks) [
      | none ↦ err not_found
      | some t ↦ ok (record db { tracks = tracks }, t.authorship, t.declared_generated)
    ]

-- Row by row: what the caller did not upload is as before, and a declared track stays declared.
abbrev pub KeepsDeclared : ℕ → List Track → List Track → Type 0
KeepsDeclared uploader [] [] = Unit
KeepsDeclared uploader [] (t ∷ new) = ⊥
KeepsDeclared uploader (t ∷ old) [] = ⊥
KeepsDeclared uploader (t ∷ old) (t' ∷ new) =
    (t.declared_generated ≡ true → t'.declared_generated ≡ true)
    × (is_id uploader t.uploader_id ≡ false → t' ≡ t)
    × KeepsDeclared uploader old new

set_authorship-KeepsDeclared :
    (id : ℕ) (authorship : Option Authorship) (declare : Bool) (uploader : ℕ) (tracks : List Track)
    → KeepsDeclared uploader tracks
        (update_where (own_track id uploader) (set_authorship authorship declare) tracks)
set_authorship-KeepsDeclared id authorship declare uploader [] = tt
set_authorship-KeepsDeclared id authorship declare uploader (t ∷ tracks) =
    elim (Bool-cases (own_track id uploader t)) [
      | inl e ↦ (
        rw e (λ d. rw d refl),
        λ stranger. absurd (ground arith),
        set_authorship-KeepsDeclared id authorship declare uploader tracks,
      )
      | inr e ↦ (
        rw e (λ d. d),
        λ _. rw e refl,
        set_authorship-KeepsDeclared id authorship declare uploader tracks,
      )
    ]

-- A re-upload never clears a declaration that a track is generated, and never changes a track of
-- another uploader.
pub update_subtitle_track_authorship-KeepsDeclared :
    (id : ℕ) (authorship : Option Authorship) (declare : Bool) (uploader : ℕ) (db db' : Db)
    (a : Authorship) (d : Bool)
    → update_subtitle_track_authorship id authorship declare uploader db ≡ ok (db', a, d)
    → KeepsDeclared uploader db.tracks db'.tracks
unfolding update_subtitle_track_authorship
update_subtitle_track_authorship-KeepsDeclared id authorship declare uploader db db' a d h =
    let tracks =
      update_where (own_track id uploader) (set_authorship authorship declare) db.tracks in
    elim (Option-cases (find (own_track id uploader) tracks)) [
      | inl e ↦
          let refused : ◌≡◌ {A = Result StoreError (Db × Authorship × Bool)} (err not_found)
              (ok (db', a, d)) =
            rw (e, update_subtitle_track_authorship) at h in
          absurd (cc)
      | inr (t, e) ↦
          let done : ◌≡◌ {A = Result StoreError (Db × Authorship × Bool)}
              (ok (record db { tracks = tracks }, t.authorship, t.declared_generated))
              (ok (db', a, d)) =
            rw (e, update_subtitle_track_authorship) at h in
          subst (λ (s : Db × Authorship × Bool). KeepsDeclared uploader db.tracks s.0.tracks)
            (ok_injective StoreError done)
            (set_authorship-KeepsDeclared id authorship declare uploader db.tracks)
    ]
