-- ===== src/Ledger/Add/Outcome.antt =====
-- What `AddEvent` returns, tells the listeners and does with an observation that it refuses.
use nara.Prelude.{
  ◌+◌, ◌≤◌, ◌≡◌, ◌≢◌, ◌⊎◌, inl, inr, Bool, true, false, ◌&&◌, none, some, [], ◌∷◌, ◌++◌, ◌==◌,
  eq_iff, arith, length, Bool-cases, Option-cases, if◌then◌else◌,
}
use nara.Prelude.Int.{pos, eqb_ℤ→eq}
use nara.Prelude.Sort.{Sorter}
use nara.Event.{SyncEvent, ObservationEventPayload, payload, service_observation}
use nara.Event.Valid.{is_valid, has_payload}
use nara.Event.Content.{Host, compute_id}
use nara.Ledger.{SyncLedger, store_event, notify_listeners, max_observations_per_pair}
use nara.Ledger.Prune.{prune_sorted, prune_unlocked}
use nara.Ledger.Add.{
  with_id, make_room, limit_pings, append_and_prune, add_identified, add_compacted, add_observation,
  add_event,
}
use nara.Ledger.Add.Compact.{compact, remove_entry, any_duplicate, has_checkpoint}
use nara.Ledger.Add.Compact.Limit.{pair_count, compact_full}
use nara.Ledger.Add.Total.{
  payload_valid-none, payload_empty, payload_observation, payload_absent, has_payload-some,
  is_valid-total, payload_content-none, with_id-total,
}

module _ (sorter : Sorter) (h : Host) where
  -- A refused observation evicts another: where the pair is full and the subject has a checkpoint,
  -- an observation with an ID that is invalid, or whose ID is still stored after the eviction, is
  -- answered `false`, and the ledger has lost one event and has a new version.
  pub refused_observation_evicts :
      (l : SyncLedger) (e : SyncEvent) (o : ObservationEventPayload)
      → e.service ≡ service_observation
      → e.observation ≡ some o
      → e.id ≢ ""
      → (is_valid e ≡ some false)
        ⊎ ((is_valid e ≡ some true) × ((compact l o).event_ids e.id ≡ true))
      → has_checkpoint o.subject l.events ≡ true
      → max_observations_per_pair ≤ pair_count o l.events
      → (add_event sorter h l e ≡ some (compact l o, false))
        × (length l.events ≡ length (compact l o).events + 1)
        × ((compact l o).version ≡ l.version + 1)
  unfolding add_event add_observation with_id add_compacted
  refused_observation_evicts l e o svc obs id bad c full =
      let (shorter, _, newer) = compact_full l o c full in
      (ground (arith, eq_iff e.service service_observation, eq_iff e.id ""), shorter, newer)

  add_identified-ne-none :
      (l : SyncLedger) (e : SyncEvent)
      → has_payload (payload e) ≡ true
      → add_identified sorter h l e ≢ none
  unfolding add_identified
  add_identified-ne-none l e p q = let (b, valid) = is_valid-total e p in ground arith

  add_compacted-ne-none :
      (l : SyncLedger) (e : SyncEvent) → has_payload (payload e) ≡ true → add_compacted l e ≢ none
  unfolding add_compacted
  add_compacted-ne-none l e p q = let (b, valid) = is_valid-total e p in ground arith

  -- `AddEvent` returns for every event whose payload is there.
  pub add_event-returns :
      (l : SyncLedger) (e : SyncEvent)
      → has_payload (payload e) ≡ true
      → add_event sorter h l e ≢ none
  unfolding add_event add_observation
  add_event-returns l e p q =
      let (id, found) = with_id-total h e p in
      let e' : SyncEvent = record e { id = id } in
      let same : has_payload (payload e') ≡ true = unfold payload in p in
      elim (Bool-cases (e.service == service_observation)) [
        | inr other ↦ add_identified-ne-none l e' same (rw (other, found) at q)
        | inl obs ↦ elim (Option-cases e.observation) [
          | inl empty ↦ add_identified-ne-none l e' same (ground arith)
          | inr (o, there) ↦ elim (Bool-cases (false && any_duplicate o l.events)) [
            | inl dup ↦ ground arith
            | inr new ↦ add_compacted-ne-none (compact l o) e' same (ground arith)
          ]
        ]
      ]

  is_valid-none :
      (e : SyncEvent) → has_payload (payload e) ≡ false → e.timestamp ≢ pos 0 → is_valid e ≡ none
  unfolding is_valid
  is_valid-none e p t = ground (
    arith,
    payload_valid-none (payload e) p,
    eq_iff e.service "",
    payload_empty e,
    eqb_ℤ→eq e.timestamp (pos 0),
    payload_absent,
  )

  -- `AddEvent` panics on every event with a time whose service names a payload that is nil.
  add_event-panics :
      (l : SyncLedger) (e : SyncEvent)
      → has_payload (payload e) ≡ false
      → e.timestamp ≢ pos 0
      → add_event sorter h l e ≡ none
  unfolding add_event with_id add_identified compute_id
  add_event-panics l e p t = elim (Option-cases e.observation) [
    | inl empty ↦ ground (arith, is_valid-none e p t, payload_content-none h (payload e) p)
    | inr (o, there) ↦ ground (
      arith,
      is_valid-none e p t,
      payload_content-none h (payload e) p,
      payload_observation e,
      eq_iff e.service service_observation,
      has_payload-some o,
    )
  ]

  prune_unlocked-notified : (l : SyncLedger) → (prune_unlocked sorter l).notified ≡ l.notified
  unfolding prune_unlocked prune_sorted
  prune_unlocked-notified l = ground arith

  compact-notified :
      (l : SyncLedger) (o : ObservationEventPayload) → (compact l o).notified ≡ l.notified
  unfolding compact remove_entry
  compact-notified l o = ground arith

  make_room-notified :
      (l roomy : SyncLedger) (e : SyncEvent)
      → make_room l e ≡ some roomy
      → roomy.notified ≡ l.notified
  unfolding make_room limit_pings
  make_room-notified l roomy e q = ground arith

  append_and_prune-notified :
      (l : SyncLedger) (e : SyncEvent)
      → (append_and_prune sorter h l e).notified ≡ l.notified ++ e ∷ []
  unfolding append_and_prune notify_listeners store_event
  append_and_prune-notified l e =
      ground (arith, prune_unlocked-notified (unfold store_event in store_event l e))

  -- The listeners have heard of the event, if the answer is `true`.
  abbrev Notified : SyncLedger → SyncEvent → SyncLedger → Bool → Type 0
  Notified l e l' ok = l'.notified ≡ (if ok then l.notified ++ e ∷ [] else l.notified)

  add_identified-Notified :
      (l l' : SyncLedger) (e : SyncEvent) (ok : Bool)
      → add_identified sorter h l e ≡ some (l', ok)
      → Notified l e l' ok
  unfolding add_identified
  add_identified-Notified l l' e ok q = elim (Option-cases (make_room l e)) [
    | inl stale ↦ ground arith
    | inr (roomy, room) ↦
        ground (arith, make_room-notified l roomy e room, append_and_prune-notified roomy e)
  ]

  add_compacted-Notified :
      (l l' : SyncLedger) (e : SyncEvent) (ok : Bool)
      → add_compacted l e ≡ some (l', ok)
      → Notified l e l' ok
  unfolding add_compacted notify_listeners store_event
  add_compacted-Notified l l' e ok q = ground arith

  -- `AddEvent` hands an event to the listeners exactly when it answers `true`: then once, after all
  -- before it, with its ID filled in.
  add_event-notified :
      (l l' : SyncLedger) (e e' : SyncEvent) (ok : Bool)
      → with_id h e ≡ some e'
      → add_event sorter h l e ≡ some (l', ok)
      → l'.notified ≡ (if ok then l.notified ++ e' ∷ [] else l.notified)
  unfolding add_event add_observation
  add_event-notified l l' e e' ok i q = elim (Bool-cases (e.service == service_observation)) [
    | inr other ↦ add_identified-Notified l l' e' ok (ground arith)
    | inl obs ↦ elim (Option-cases e.observation) [
      | inl empty ↦ add_identified-Notified l l' e' ok (ground arith)
      | inr (o, there) ↦ ground (
        arith,
        add_compacted-Notified (compact l o) l' e' ok (ground arith),
        compact-notified l o,
      )
    ]
  ]
