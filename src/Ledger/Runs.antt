-- ===== src/Ledger/Runs.antt =====
-- The operations of the ledger in any order, and the invariant in their runs.
pub mod Legacy
use nara.Prelude.{
  ℕ, ◌≡◌, subst, inl, inr, Bool, ◌&&◌, Option, some, List, [], ◌∷◌, String, ◌==◌, Bool-cases,
  Option-cases, >>=-some, of_some-eq,
}
use nara.Prelude.Int.{ℤ, pos, ltb_ℤ, eqb_ℤ, div_pos}
use nara.Prelude.Sort.{Sorter}
use nara.Event.{SyncEvent, service_observation, service_social}
use nara.Event.Content.{Host}
use nara.RateLimit.{ObservationRateLimit, check_and_add}
use nara.Ledger.{SyncLedger, new_sync_ledger, set_unknown_nara_checker, clean_rate_limit}
use nara.Ledger.Invariant.{IsIndexed, new_sync_ledger-IsIndexed}
use nara.Ledger.Add.{add_event, add_event_with_dedup}
use nara.Ledger.Add.Index.{Leaves, add_event-IsIndexed, add_event_with_dedup-IsIndexed}
use nara.Ledger.Filters.{
  NaraPersonality, importance_critical, importance_normal, add_event_filtered,
  add_event_with_rate_limit, add_social_event_filtered, social_event_is_meaningful, add_all,
  merge_events,
}
use nara.Ledger.Prune.Index.{prune_unlocked-IsIndexed}
use nara.Ledger.Prune.{prune_unlocked}
use nara.Ledger.Remove.{remove_events_for, remove_events_for-IsIndexed}

module _ (sorter : Sorter) (h : Host) where
  -- One operation that returns, whatever it answers.
  pub data LedgerStep (l : SyncLedger) : SyncLedger → Type 0 where
    adds :
        {l' : SyncLedger} (e : SyncEvent) (ok : Bool)
        → add_event sorter h l e ≡ some (l', ok)
        → LedgerStep l l'
    adds_with_dedup :
        {l' : SyncLedger} (e : SyncEvent) (ok : Bool)
        → add_event_with_dedup sorter h l e ≡ some (l', ok)
        → LedgerStep l l'
    adds_filtered :
        {l' : SyncLedger} (e : SyncEvent) (who : NaraPersonality) (ok : Bool)
        → add_event_filtered sorter h l e who ≡ some (l', ok)
        → LedgerStep l l'
    adds_with_rate_limit :
        {l' : SyncLedger} (e : SyncEvent) (ok : Bool)
        → add_event_with_rate_limit sorter h l e ≡ some (l', ok)
        → LedgerStep l l'
    adds_social_filtered :
        {l' : SyncLedger} (e : SyncEvent) (who : NaraPersonality) (ok : Bool)
        → add_social_event_filtered sorter h l e who ≡ some (l', ok)
        → LedgerStep l l'
    merges :
        {l' : SyncLedger} (events : List SyncEvent) (n : ℕ)
        → merge_events sorter h l events ≡ some (l', n)
        → LedgerStep l l'
    prunes : LedgerStep l (prune_unlocked sorter l)
    removes : (name : String) → LedgerStep l (remove_events_for l name).0
    sets_checker : (checker : String → Bool) → LedgerStep l (set_unknown_nara_checker l checker)
    cleans : (now : ℤ) → LedgerStep l (clean_rate_limit l now)

  pub data LedgerRun (l : SyncLedger) : SyncLedger → Type 0 where
    start : LedgerRun l l
    next : {m n : SyncLedger} → LedgerRun l m → LedgerStep m n → LedgerRun l n

  returned :
      {l' : SyncLedger} (r : Option (SyncLedger × Bool)) (ok : Bool)
      → Leaves IsIndexed r
      → r ≡ some (l', ok)
      → IsIndexed l'
  returned r ok v q = subst (Leaves IsIndexed) q v

  add_event_filtered-IsIndexed :
      (l : SyncLedger) (e : SyncEvent) (who : NaraPersonality)
      → IsIndexed l
      → Leaves IsIndexed (add_event_filtered sorter h l e who)
  unfolding add_event_filtered
  add_event_filtered-IsIndexed l e who v =
      let added = add_event-IsIndexed sorter h l e v in
      elim (Bool-cases (e.service == service_observation)) [
        | inr other ↦ rw other added
        | inl obs ↦ rw obs elim (Option-cases e.observation) [
          | inl empty ↦ rw empty added
          | inr (o, there) ↦ rw there elim (Bool-cases (eqb_ℤ o.importance importance_critical)) [
            | inl critical ↦ rw critical added
            | inr lesser ↦
                rw lesser
                  elim (Bool-cases
                    (eqb_ℤ o.importance importance_normal && ltb_ℤ (pos 85) who.chill)) [
                      | inl chilled ↦ rw chilled v
                      | inr alert ↦ rw alert added
                    ]
          ]
        ]
      ]

  add_event_with_rate_limit-IsIndexed :
      (l : SyncLedger) (e : SyncEvent)
      → IsIndexed l
      → Leaves IsIndexed (add_event_with_rate_limit sorter h l e)
  unfolding add_event_with_rate_limit
  add_event_with_rate_limit-IsIndexed l e v =
      let limited : (r : ObservationRateLimit) → IsIndexed (record l { observation_rl = r }) =
        λ r. record { index = v.index; distinct = v.distinct; valid = v.valid } in
      elim (Bool-cases (e.service == service_observation)) [
        | inr other ↦ rw other (add_event-IsIndexed sorter h l e v)
        | inl obs ↦ rw obs elim (Option-cases e.observation) [
          | inl empty ↦ rw empty (add_event-IsIndexed sorter h l e v)
          | inr (o, there) ↦
              let checked =
                check_and_add l.observation_rl o.subject (div_pos e.timestamp 1000000000) in
              rw there elim (Bool-cases checked.1) [
                | inl admitted ↦ rw admitted (
                    add_event-IsIndexed sorter h (record l { observation_rl = checked.0 }) e
                      (limited checked.0))
                | inr refused ↦ rw refused (limited checked.0)
              ]
        ]
      ]

  add_social_event_filtered-IsIndexed :
      (l : SyncLedger) (e : SyncEvent) (who : NaraPersonality)
      → IsIndexed l
      → Leaves IsIndexed (add_social_event_filtered sorter h l e who)
  unfolding add_social_event_filtered
  add_social_event_filtered-IsIndexed l e who v =
      let added = add_event-IsIndexed sorter h l e v in
      elim (Bool-cases (e.service == service_social)) [
        | inr other ↦ rw other added
        | inl social ↦ rw social elim (Option-cases e.social) [
          | inl empty ↦ rw empty added
          | inr (p, there) ↦ rw there elim (Bool-cases (social_event_is_meaningful p who)) [
            | inl meaningful ↦ rw meaningful added
            | inr dull ↦ rw dull v
          ]
        ]
      ]

  add_all-keeps :
      (l : SyncLedger) (es : List SyncEvent) (l' : SyncLedger) (n : ℕ)
      → IsIndexed l
      → add_all sorter h l es ≡ some (l', n)
      → IsIndexed l'
  unfolding add_all
  add_all-keeps l [] l' n v q = of_some-eq (λ r. IsIndexed r.0) q v
  add_all-keeps l (e ∷ es) l' n v q =
      let ((l₁, ok), added, more) = >>=-some (add_event sorter h l e) _ (l', n) q in
      let ((l₂, k), rest, same) = >>=-some (add_all sorter h l₁ es) _ (l', n) more in
      of_some-eq (λ r. IsIndexed r.0) same
        (add_all-keeps l₁ es l₂ k (returned _ ok (add_event-IsIndexed sorter h l e v) added) rest)

  LedgerStep-IsIndexed : {l l' : SyncLedger} → LedgerStep l l' → IsIndexed l → IsIndexed l'
  unfolding merge_events set_unknown_nara_checker clean_rate_limit
  LedgerStep-IsIndexed {l} (adds e ok q) v = returned _ ok (add_event-IsIndexed sorter h l e v) q
  LedgerStep-IsIndexed {l} (adds_with_dedup e ok q) v =
      returned _ ok (add_event_with_dedup-IsIndexed sorter h l e v) q
  LedgerStep-IsIndexed {l} (adds_filtered e who ok q) v =
      returned _ ok (add_event_filtered-IsIndexed l e who v) q
  LedgerStep-IsIndexed {l} (adds_with_rate_limit e ok q) v =
      returned _ ok (add_event_with_rate_limit-IsIndexed l e v) q
  LedgerStep-IsIndexed {l} (adds_social_filtered e who ok q) v =
      returned _ ok (add_social_event_filtered-IsIndexed l e who v) q
  LedgerStep-IsIndexed {l} {l'} (merges events n q) v = add_all-keeps l _ l' n v q
  LedgerStep-IsIndexed {l} prunes v = prune_unlocked-IsIndexed sorter l v
  LedgerStep-IsIndexed {l} (removes name) v = remove_events_for-IsIndexed l name v
  LedgerStep-IsIndexed {l} (sets_checker checker) v = record {
    index = v.index;
    distinct = v.distinct;
    valid = v.valid;
  }
  LedgerStep-IsIndexed {l} (cleans now) v = record {
    index = v.index;
    distinct = v.distinct;
    valid = v.valid;
  }

  run_keeps : {l l' : SyncLedger} → IsIndexed l → LedgerRun l l' → IsIndexed l'
  run_keeps v start = v
  run_keeps v (next run step) = LedgerStep-IsIndexed step (run_keeps v run)

  -- Every ledger that the operations make of an empty one, in any order, with any events and
  -- whatever callbacks for unknown naras are set between them, has an exact index of IDs, no two
  -- events with one ID, and only valid events.
  pub LedgerRun-IsIndexed :
      (max : ℕ) (l : SyncLedger) → LedgerRun (new_sync_ledger max) l → IsIndexed l
  LedgerRun-IsIndexed max l run = run_keeps (new_sync_ledger-IsIndexed max) run
