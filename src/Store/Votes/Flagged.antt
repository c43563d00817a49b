-- ===== src/Store/Votes/Flagged.antt =====
-- internal/store/vote.go: the triage queue of tracks, and its size. The top reason and the uploader's
-- name of an entry are left out.
use moan_subs.Prelude.{
  ℕ, suc, ◌≡◌, refl, sym, ap, ◌∙◌, Bool, true, false, ◌&&◌, ◌||◌, List, [], ◌∷◌, none, some, arith,
  ltb, leb, ◌==◌, if◌then◌else◌, count, any, keep, length,
}
use moan_subs.Prelude.Text.{text_eq, codes}
use moan_subs.Store.Table.{is_null, length-keep}
use moan_subs.Store.Schema.{Db, Vote, Track}

abbrev pub is_spam : ℕ → Vote → Bool
is_spam track v =
    v.track_id == track && elim v.reason [ none ↦ false | some r ↦ text_eq r (codes "spam") ]

-- The predicate that the list and the count share.
unfoldable pub is_flagged : ℕ → List Vote → Track → Bool
is_flagged min_down votes t =
    is_null t.withdrawn_at && ((leb min_down t.down && ltb t.up t.down) || any (is_spam t.id) votes)

-- ORDER BY down DESC, id ASC.
abbrev pub flagged_before : Track → Track → Bool
flagged_before s t = ltb t.down s.down || (s.down == t.down && leb s.id t.id)

abbrev pub insert_flagged : Track → List Track → List Track
insert_flagged t [] = t ∷ []
insert_flagged t (s ∷ rest) = if flagged_before t s then t ∷ s ∷ rest else s ∷ insert_flagged t rest

abbrev pub sort_flagged : List Track → List Track
sort_flagged [] = []
sort_flagged (t ∷ rest) = insert_flagged t (sort_flagged rest)

unfoldable pub list_flagged_tracks : ℕ → Db → List Track
list_flagged_tracks min_down db = sort_flagged (keep (is_flagged min_down db.votes) db.tracks)

unfoldable pub count_flagged_tracks : ℕ → Db → ℕ
count_flagged_tracks min_down db = count (is_flagged min_down db.votes) db.tracks

-- Each track before those behind it, by the order of the queue.
abbrev pub IsWorstFirst : List Track → Type 0
IsWorstFirst [] = Unit
IsWorstFirst (t ∷ []) = Unit
IsWorstFirst (t ∷ s ∷ rest) = (flagged_before t s ≡ true) × IsWorstFirst (s ∷ rest)

count-insert_flagged :
    (p : Track → Bool) (t : Track) (ts : List Track)
    → count p (insert_flagged t ts) ≡ count p (t ∷ ts)
count-insert_flagged p t [] = refl
count-insert_flagged p t (s ∷ rest) = ground (arith, count-insert_flagged p t rest)

count-sort_flagged : (p : Track → Bool) (ts : List Track) → count p (sort_flagged ts) ≡ count p ts
count-sort_flagged p [] = refl
count-sort_flagged p (t ∷ ts) =
    count-insert_flagged p t (sort_flagged ts) ∙ ground (arith, count-sort_flagged p ts)

flagged_before_total : (s t : Track) → flagged_before s t ≡ false → flagged_before t s ≡ true
flagged_before_total s t h = ground arith

insert-IsWorstFirst :
    (t : Track) (ts : List Track) → IsWorstFirst ts → IsWorstFirst (insert_flagged t ts)
insert-IsWorstFirst t [] h = tt
insert-IsWorstFirst t (s ∷ []) h = ground (arith, flagged_before_total t s)
insert-IsWorstFirst t (s ∷ u ∷ rest) h =
    ground
      (arith, flagged_before_total t s, flagged_before_total t u, insert-IsWorstFirst t (u ∷ rest))

sort-IsWorstFirst : (ts : List Track) → IsWorstFirst (sort_flagged ts)
sort-IsWorstFirst [] = tt
sort-IsWorstFirst (t ∷ ts) = insert-IsWorstFirst t (sort_flagged ts) (sort-IsWorstFirst ts)

count-true : (ts : List Track) → count (λ _. true) ts ≡ length ts
count-true [] = refl
count-true (t ∷ ts) = ap suc (count-true ts)

count-keep :
    (p q : Track → Bool) (ts : List Track) → count q (keep p ts) ≡ count (λ t. p t && q t) ts
count-keep p q [] = refl
count-keep p q (t ∷ ts) = ground (arith, count-keep p q ts)

-- The queue lists every flagged track as often as the table holds it, and no other, worst first: by
-- downvotes, then by id. The count is its length.
pub list_flagged_tracks_lem :
    (min_down : ℕ) (db : Db)
    → let queue = list_flagged_tracks min_down db in
      IsWorstFirst queue
      × ((p : Track → Bool)
          → count p queue ≡ count (λ t. is_flagged min_down db.votes t && p t) db.tracks)
      × (length queue ≡ count_flagged_tracks min_down db)
unfolding list_flagged_tracks count_flagged_tracks
list_flagged_tracks_lem min_down db =
    let flagged = keep (is_flagged min_down db.votes) db.tracks in
    (
      sort-IsWorstFirst flagged,
      λ p. count-sort_flagged p flagged ∙ count-keep (is_flagged min_down db.votes) p db.tracks,
      sym (count-true (sort_flagged flagged))
          ∙ count-sort_flagged (λ _. true) flagged
          ∙ count-true flagged
          ∙ length-keep (is_flagged min_down db.votes) db.tracks,
    )
