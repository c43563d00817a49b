-- ===== src/Store/Fits/Verified.antt =====
-- internal/store/fit.go: which reports earn a pairing the sync_verified label.
use moan_subs.Prelude.{
  ℕ, ◌+◌, ◌≤◌, ◌≡◌, sym, ap, ◌∙◌, Bool, not, ◌&&◌, List, arith, leb, ◌==◌, if◌then◌else◌, count,
  ==_refl,
}
use moan_subs.Prelude.Result.{ok, guard_ok, ok_injective}
use moan_subs.Store.Table.{delete_where}
use moan_subs.Store.Table.Upsert.{count-upsert_self, delete-upsert}
use moan_subs.Store.Schema.{Db, FitReport, StoreError, foreign_key}
use moan_subs.Store.Fits.{
  FitCounts, sync_verified, sync_verified_min_fits, is_report, is_fit, is_misfit,
  recompute_fit_counts, new_report, re_report, put_report, report_references, upsert_fit_report,
  retract_fit_report,
}

-- No account has two reports on a pairing.
abbrev pub IsKeyed : List FitReport → Type 0
IsKeyed reports = (track release account : ℕ) → count (is_report track release account) reports ≤ 1

-- The counts after a report: those of the other accounts, and one for the report itself.
counts-put_report :
    (track release account : ℕ) (fits : Bool) (now : ℕ) (reports : List FitReport)
    → IsKeyed reports
    → let others = delete_where (is_report track release account) reports in
      let after = put_report track release account fits now reports in
      (count (is_fit track release) after
        ≡ count (is_fit track release) others + (if fits then 1 else 0))
      × (count (is_misfit track release) after
          ≡ count (is_misfit track release) others + (if not fits then 1 else 0))
unfolding put_report
counts-put_report track release account fits now reports keyed =
    let p = is_report track release account in
    let f = re_report fits now in
    let new = new_report track release account fits now in
    (
      count-upsert_self (is_fit track release) p f new fits reports (λ r h. ground arith)
          (ground (arith, ==_refl track, ==_refl release)) (keyed track release account),
      count-upsert_self (is_misfit track release) p f new (not fits) reports (λ r h. ground arith)
          (ground (arith, ==_refl track, ==_refl release)) (keyed track release account),
    )

verified_by_one :
    (fits : Bool) (f m f' m' : ℕ)
    → f' ≡ f + (if fits then 1 else 0)
    → m' ≡ m + (if not fits then 1 else 0)
    → (m' == 0 && leb sync_verified_min_fits f') ≡ (fits && m == 0 && leb 1 f)
verified_by_one fits f m f' m' a b = ground arith

-- A report leaves the pairing verified exactly when it is a fit, no other account reports a misfit and
-- at least one other account reports a fit. (No account has two reports on a pairing.)
pub verified-upsert_fit_report :
    (track release account : ℕ) (fits : Bool) (now : ℕ) (db db' : Db) (c : FitCounts)
    → IsKeyed db.fit_reports
    → upsert_fit_report track release account fits now db ≡ ok (db', c)
    → let others =
        recompute_fit_counts track release
          (delete_where (is_report track release account) db.fit_reports) in
      sync_verified c ≡ (fits && others.misfits == 0 && leb 1 others.fits)
unfolding upsert_fit_report recompute_fit_counts sync_verified
verified-upsert_fit_report track release account fits now db db' c keyed h =
    let (_, e) = guard_ok (report_references track release account db) foreign_key _ h in
    let (a, b) = counts-put_report track release account fits now db.fit_reports keyed in
    let same = ap (λ (p : Db × FitCounts). sync_verified p.1) (sym (ok_injective StoreError e)) in
    same ∙ verified_by_one fits _ _ _ _ a b

-- Retracting a report after it was made leaves the database and the counts that retracting without it
-- leaves.
pub retract-upsert_fit_report :
    (track release account : ℕ) (fits : Bool) (now : ℕ) (db db' : Db) (c : FitCounts)
    → upsert_fit_report track release account fits now db ≡ ok (db', c)
    → retract_fit_report track release account db' ≡ retract_fit_report track release account db
unfolding upsert_fit_report retract_fit_report put_report
retract-upsert_fit_report track release account fits now db db' c h =
    let (_, e) = guard_ok (report_references track release account db) foreign_key _ h in
    let gone =
      delete-upsert (is_report track release account) (re_report fits now)
        (new_report track release account fits now) db.fit_reports (λ f h. h)
        (ground (arith, ==_refl track, ==_refl release, ==_refl account)) in
    ap (λ (p : Db × FitCounts). retract_fit_report track release account p.0)
      (sym (ok_injective StoreError e))
    ∙ ap
        (λ (reports : List FitReport).
          (record db { fit_reports = reports }, recompute_fit_counts track release reports))
        gone
