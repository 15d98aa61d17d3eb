-- ===== src/Persist/Artefacts/Overdue.antt =====
-- What a purge of the ledger leaves (persist/artefacts_memory.go).
use liwaisi_assistant.Base.{
  ℕ, suc, String, ◌≡◌, refl, ap, ◌∙◌, inl, inr, false, some, List, [], ◌∷◌, Dict, lookup, All,
  length, arith, Bool-cases,
}
use liwaisi_assistant.Base.Values.{AllValues}
use liwaisi_assistant.Base.Sort.{length-sort_by, sort_by-All, number_of}
use liwaisi_assistant.Persist.Artefacts.{
  Artefact, purged, Ledger, is_overdue, purge_each, sets_of, record_purges, purge_expired,
}

abbrev pub IsKept : (cutoff : ℕ) → Artefact → Type 0
IsKept cutoff a = is_overdue cutoff a ≡ false

abbrev pub IsPurged : Artefact → Type 0
IsPurged a = a.state ≡ purged

abbrev Purges : (now cutoff : ℕ) → Dict Artefact → Dict Artefact × List Artefact → Type 0
Purges now cutoff m r =
    AllValues (IsKept cutoff) r.0
    × (length r.1 ≡ number_of (λ e. is_overdue cutoff e.1) m)
    × All IsPurged r.1

purge_each-Purges :
    (now cutoff : ℕ) (m : Dict Artefact) → Purges now cutoff m (purge_each now cutoff m)
unfolding purge_each is_overdue
purge_each-Purges now cutoff [] = (tt, refl, tt)
purge_each-Purges now cutoff (e ∷ m) =
    let (kept, number, all_purged) = purge_each-Purges now cutoff m in
    elim (Bool-cases (is_overdue cutoff e.1)) [
      | inl overdue ↦ rw (overdue, purge_each) ((refl, kept), ap suc number, (refl, all_purged))
      | inr early ↦ rw (early, purge_each) ((early, kept), number, all_purged)
    ]

purge_each-lookup :
    (now cutoff : ℕ) (m : Dict Artefact) (id : String) (a : Artefact)
    → lookup id m ≡ some a
    → is_overdue cutoff a ≡ false
    → lookup id (purge_each now cutoff m).0 ≡ some a
unfolding purge_each lookup
purge_each-lookup now cutoff [] id a there early = cc
purge_each-lookup now cutoff (e ∷ m) id a there early =
    ground (arith, purge_each-lookup now cutoff m id a)

record_purges-artefacts :
    (now : ℕ) (event_ids : String → String) (actor : String) (sets : List String) (l : Ledger)
    → (record_purges now event_ids actor sets l).artefacts ≡ l.artefacts
unfolding record_purges
record_purges-artefacts now event_ids actor [] l = refl
record_purges-artefacts now event_ids actor (s ∷ sets) l =
    record_purges-artefacts now event_ids actor sets _

-- A purge returns as many artefacts as were quarantined before the cutoff, all purged; after it none
-- such is left, and every other artefact is as it was.
pub purge_expired_lem :
    (now : ℕ) (event_ids : String → String) (cutoff : ℕ) (actor : String) (l : Ledger)
    → (length (purge_expired now event_ids cutoff actor l).0
        ≡ number_of (λ e. is_overdue cutoff e.1) l.artefacts)
      × All IsPurged (purge_expired now event_ids cutoff actor l).0
      × AllValues (IsKept cutoff) (purge_expired now event_ids cutoff actor l).1.artefacts
      × ((id : String) (a : Artefact)
          → lookup id l.artefacts ≡ some a
          → is_overdue cutoff a ≡ false
          → lookup id (purge_expired now event_ids cutoff actor l).1.artefacts ≡ some a)
unfolding purge_expired
purge_expired_lem now event_ids cutoff actor l =
    let p = purge_each now cutoff l.artefacts in
    let (kept, number, all_purged) = purge_each-Purges now cutoff l.artefacts in
    let same =
      record_purges-artefacts now event_ids actor (sets_of p.1) (record l { artefacts = p.0 }) in
    (
      length-sort_by _ p.1 ∙ number,
      sort_by-All IsPurged _ p.1 all_purged,
      rw same kept,
      (λ id a there early. rw same (purge_each-lookup now cutoff l.artefacts id a there early)),
    )
