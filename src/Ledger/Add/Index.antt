-- ===== src/Ledger/Add/Index.antt =====
-- Adding an event, by `AddEvent` or `AddEventWithDedup`, keeps the invariant of the ledger.
use nara.Prelude.{
  ◌≡◌, refl, inl, inr, Bool, true, false, ◌&&◌, Option, none, some, ◌==◌, ltb, length, Bool-cases,
  Option-cases, ◌>>=◌,
}
use nara.Prelude.Sort.{Sorter}
use nara.Event.{SyncEvent, ObservationEventPayload, service_observation}
use nara.Event.Valid.{is_valid}
use nara.Event.Content.{Host}
use nara.Ledger.{SyncLedger, store_event, notify_listeners, should_filter_checkpoint}
use nara.Ledger.Invariant.{IsIndexed, store_event-IsIndexed}
use nara.Ledger.Prune.Index.{prune_unlocked-IsIndexed}
use nara.Ledger.Add.{
  with_id, make_room, append_and_prune, add_identified, add_compacted, add_observation, add_event,
  any_observation, add_dedup, add_event_with_dedup,
}
use nara.Ledger.Add.Compact.{compact, any_duplicate}
use nara.Ledger.Add.Compact.Entries.{compact-IsIndexed}
use nara.Ledger.Add.Room.{make_room-IsIndexed, make_room-fresh}

-- What an operation that may panic leaves: the invariant, if it returns.
abbrev pub Leaves : (SyncLedger → Type 0) → Option (SyncLedger × Bool) → Type 0
Leaves P none = Unit
Leaves P (some (l, ok)) = P l

Leaves-bind :
    {A : Type 0} (P : SyncLedger → Type 0) (m : Option A) (f : A → Option (SyncLedger × Bool))
    → ((a : A) → m ≡ some a → Leaves P (f a))
    → Leaves P (m >>= f)
Leaves-bind P none f k = tt
Leaves-bind P (some a) f k = k a refl

notify_listeners-IsIndexed :
    (l : SyncLedger) (e : SyncEvent) → IsIndexed l → IsIndexed (notify_listeners l e)
unfolding notify_listeners
notify_listeners-IsIndexed l e v = record {
  index = v.index;
  distinct = v.distinct;
  valid = v.valid;
}

pub add_compacted-IsIndexed :
    (l : SyncLedger) (e : SyncEvent) → IsIndexed l → Leaves IsIndexed (add_compacted l e)
unfolding add_compacted
add_compacted-IsIndexed l e v = Leaves-bind IsIndexed (is_valid e) _ λ ok valid.
    elim (Bool-cases ok) [
      | inr bad ↦ rw bad v
      | inl good ↦ rw good elim (Bool-cases (l.event_ids e.id)) [
        | inl old ↦ rw old v
        | inr fresh ↦ rw fresh (
            notify_listeners-IsIndexed (store_event l e) e
              (store_event-IsIndexed l e fresh (rw good at valid) v))
      ]
    ]

module _ (sorter : Sorter) (h : Host) where
  append_and_prune-IsIndexed :
      (l : SyncLedger) (e : SyncEvent)
      → l.event_ids e.id ≡ false
      → is_valid e ≡ some true
      → IsIndexed l
      → IsIndexed (append_and_prune sorter h l e)
  unfolding append_and_prune
  append_and_prune-IsIndexed l e fresh good v =
      let stored = store_event l e in
      let kept = store_event-IsIndexed l e fresh good v in
      notify_listeners-IsIndexed _ e
        (elim (Bool-cases
          (ltb 0 stored.max_events && ltb stored.max_events (length stored.events))) [
            | inl over ↦ rw over (prune_unlocked-IsIndexed sorter stored kept)
            | inr fits ↦ rw fits kept
          ])

  add_identified-IsIndexed :
      (l : SyncLedger) (e : SyncEvent)
      → IsIndexed l
      → Leaves IsIndexed (add_identified sorter h l e)
  unfolding add_identified
  add_identified-IsIndexed l e v = Leaves-bind IsIndexed (is_valid e) _ λ ok valid.
      elim (Bool-cases ok) [
        | inr bad ↦ rw bad v
        | inl good ↦ rw good elim (Bool-cases (should_filter_checkpoint e)) [
          | inl buggy ↦ rw buggy v
          | inr keepable ↦ rw keepable elim (Bool-cases (l.event_ids e.id)) [
            | inl old ↦ rw old v
            | inr fresh ↦ rw fresh elim (Option-cases (make_room l e)) [
              | inl stale ↦ rw stale v
              | inr (roomy, room) ↦ rw room (
                  append_and_prune-IsIndexed roomy e (make_room-fresh l e roomy e.id room fresh)
                    (rw good at valid) (make_room-IsIndexed l e roomy room v))
            ]
          ]
        ]
      ]

  add_observation-IsIndexed :
      (l : SyncLedger) (e : SyncEvent) (o : ObservationEventPayload) (with_dedup : Bool)
      → IsIndexed l
      → Leaves IsIndexed (add_observation sorter h l e o with_dedup)
  unfolding add_observation
  add_observation-IsIndexed l e o with_dedup v =
      elim (Bool-cases (with_dedup && any_duplicate o l.events)) [
        | inl dup ↦ rw dup v
        | inr new ↦ rw new (
            Leaves-bind IsIndexed (with_id h e) _
              (λ e' q. add_compacted-IsIndexed (compact l o) e' (compact-IsIndexed l o v)))
      ]

  other_event :
      (l : SyncLedger) (e : SyncEvent)
      → IsIndexed l
      → Leaves IsIndexed (with_id h e >>= add_identified sorter h l)
  other_event l e v =
      Leaves-bind IsIndexed (with_id h e) _ (λ e' q. add_identified-IsIndexed l e' v)

  -- `AddEvent` keeps an exact index, distinct IDs and valid events, whatever the event.
  pub add_event-IsIndexed :
      (l : SyncLedger) (e : SyncEvent) → IsIndexed l → Leaves IsIndexed (add_event sorter h l e)
  unfolding add_event
  add_event-IsIndexed l e v = elim (Bool-cases (e.service == service_observation)) [
    | inr other ↦ rw other (other_event l e v)
    | inl obs ↦ rw obs elim (Option-cases e.observation) [
      | inl empty ↦ rw empty (other_event l e v)
      | inr (o, there) ↦ rw there (add_observation-IsIndexed l e o false v)
    ]
  ]

  add_dedup-IsIndexed :
      (l : SyncLedger) (e : SyncEvent) (o : Option ObservationEventPayload)
      → IsIndexed l
      → Leaves IsIndexed (add_dedup sorter h l e o)
  unfolding add_dedup
  add_dedup-IsIndexed l e (some o) v = add_observation-IsIndexed l e o true v
  add_dedup-IsIndexed l e none v = elim (Bool-cases (any_observation l.events)) [
    | inl panics ↦ rw panics tt
    | inr none_there ↦
        rw none_there
          (Leaves-bind IsIndexed (with_id h e) _ (λ e' q. add_compacted-IsIndexed l e' v))
  ]

  -- `AddEventWithDedup` keeps an exact index, distinct IDs and valid events, whatever the event.
  pub add_event_with_dedup-IsIndexed :
      (l : SyncLedger) (e : SyncEvent)
      → IsIndexed l
      → Leaves IsIndexed (add_event_with_dedup sorter h l e)
  unfolding add_event_with_dedup
  add_event_with_dedup-IsIndexed l e v = add_dedup-IsIndexed l e e.observation v
