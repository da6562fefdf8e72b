-- ===== src/Ledger/Filters/Laws.antt =====
-- What the filters let through and what merging leaves.
use mathlib.Core.List.{mem-cons_self, mem-cons_of_mem}
use nara.Prelude.{
  subst, ℕ, suc, ◌≤◌, ◌≡◌, refl, ◌⊎◌, inl, inr, Bool, true, false, not, ◌&&◌, some, List, [], ◌∷◌,
  Mem, ◌==◌, arith, length, mem-keep, keep, Option-cases, if◌then◌else◌,
}
use nara.Prelude.Int.{pos, ltb_ℤ, eqb_ℤ}
use nara.Prelude.Sort.{Sorter}
use nara.Event.{
  SyncEvent, ObservationEventPayload, SocialEventPayload, service_observation, payload,
}
use nara.Event.Valid.{has_payload}
use nara.Event.Content.{Host}
use nara.Ledger.{SyncLedger, filter_events_for_ingestion, should_filter_checkpoint}
use nara.Ledger.Invariant.{IsIndexed}
use nara.Ledger.Add.{add_event}
use nara.Ledger.Add.Index.{Leaves, add_event-IsIndexed}
use nara.Ledger.Add.Outcome.{add_event-returns}
use nara.Ledger.Filters.{
  NaraPersonality, importance_normal, social_event_is_meaningful, observation_is_meaningful,
  add_event_filtered, add_all, merge_events,
}

-- The personalities that drop a social event can only drop it for a reason they name: a social
-- event whose reason is a comeback or a high restart count is meaningful to every personality.
significant_is_meaningful :
    (p : SocialEventPayload) (who : NaraPersonality)
    → (p.reason ≡ "comeback") ⊎ (p.reason ≡ "high-restarts")
    → social_event_is_meaningful p who ≡ true
unfolding social_event_is_meaningful observation_is_meaningful
significant_is_meaningful p who (inl h) = rw h (ground arith)
significant_is_meaningful p who (inr h) = rw h (ground arith)

module _ (sorter : Sorter) (h : Host) where
  -- `AddEventFiltered` refuses without asking the ledger exactly the observations of normal
  -- importance, for a nara whose chill is above 85; it adds everything else as `AddEvent` does, the
  -- critical observations always.
  add_event_filtered_lem :
      (l : SyncLedger) (e : SyncEvent) (o : ObservationEventPayload) (who : NaraPersonality)
      → e.observation ≡ some o
      → add_event_filtered sorter h l e who ≡ (
          if e.service == service_observation
            && eqb_ℤ o.importance importance_normal
            && ltb_ℤ (pos 85) who.chill
          then some (l, false)
          else add_event sorter h l e)
  unfolding add_event_filtered
  add_event_filtered_lem l e o who there = rw there (ground arith)

  -- `AddEvent` returns, and leaves a ledger with the invariant.
  add_event-outcome :
      (l : SyncLedger) (e : SyncEvent)
      → has_payload (payload e) ≡ true
      → IsIndexed l
      → (l' : SyncLedger) × (ok : Bool) × (add_event sorter h l e ≡ some (l', ok)) × IsIndexed l'
  add_event-outcome l e p v = elim (Option-cases (add_event sorter h l e)) [
    | inl empty ↦ absurd (add_event-returns sorter h l e p empty)
    | inr ((l', ok), q) ↦
        (l', ok, q, subst (Leaves IsIndexed) q (add_event-IsIndexed sorter h l e v))
  ]

  add_all-IsIndexed :
      (l : SyncLedger) (es : List SyncEvent)
      → ((e : SyncEvent) → Mem e es → has_payload (payload e) ≡ true)
      → IsIndexed l
      → (l' : SyncLedger) × (n : ℕ) × (add_all sorter h l es ≡ some (l', n))
        × IsIndexed l'
        × (n ≤ length es)
  unfolding add_all
  add_all-IsIndexed l [] good v = (l, 0, refl, v, omega arith)
  add_all-IsIndexed l (e ∷ es) good v =
      let (l₁, ok, added, v₁) = add_event-outcome l e (good e (mem-cons_self)) v in
      let (l₂, n, rest, v₂, bound) =
        add_all-IsIndexed l₁ es (λ x m. good x (mem-cons_of_mem e m)) v₁ in
      (l₂, (if ok then suc n else n), rw (added, rest) refl, v₂, ground (arith, bound))

  -- Merging events that carry their payloads returns: the ledger it leaves has the invariant, and
  -- the number of added events is at most the number that pass the filter.
  merge_events_lem :
      (l : SyncLedger) (es : List SyncEvent)
      → ((e : SyncEvent) → Mem e es → has_payload (payload e) ≡ true)
      → IsIndexed l
      → (l' : SyncLedger) × (n : ℕ) × (merge_events sorter h l es ≡ some (l', n))
        × IsIndexed l'
        × (n ≤ length (filter_events_for_ingestion es))
  unfolding merge_events filter_events_for_ingestion
  merge_events_lem l es good v =
      add_all-IsIndexed l (keep (λ e. not (should_filter_checkpoint e)) es)
        (λ e m. good e ((mem-keep _ es).0 m).0) v
