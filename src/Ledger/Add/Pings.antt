-- ===== src/Ledger/Add/Pings.antt =====
-- The retention of pings in `AddEvent`.
use nara.Prelude.{
  ℕ, suc, ◌+◌, ◌-◌, ◌≤◌, ◌≡◌, refl, subst, ◌∙◌, inl, inr, Bool, false, some, List, [], ◌∷◌, ◌++◌,
  String, ◌==◌, eq_iff, arith, drop, length, count_if, count_if-append, count_if-perm,
  count_if-drop, count_if-erase_idx, count_if-erase_idx_le, Bool-cases, Option-cases, if◌then◌else◌,
}
use nara.Prelude.Int.{ℤ}
use nara.Prelude.Sort.{Sorter}
use nara.Event.{SyncEvent, ObservationEventPayload, service_ping, service_observation}
use nara.Event.Content.{Host, compute_id}
use nara.Ledger.{
  SyncLedger, store_event, notify_listeners, by_timestamp, prune_before, max_pings_per_target,
}
use nara.Ledger.Prune.{count_removable, prune_sorted, prune_unlocked}
use nara.Ledger.Add.{
  PingScan, no_pings, is_ping_to, scan_ping, scan_pings, limit_pings, make_room, with_id,
  append_and_prune, add_identified, add_compacted, add_observation, add_event,
}
use nara.Ledger.Add.Compact.{compact, remove_entry, to_remove, pair_entries}
use nara.Ledger.Add.Room.{Found, FoundAt, scan_pings-Found}

abbrev pub pings_to : String → List SyncEvent → ℕ
pings_to target = count_if (is_ping_to target)

scan_pings-count :
    (target : String) (s : PingScan) (i : ℕ) (es : List SyncEvent)
    → (scan_pings target s i es).count ≡ s.count + pings_to target es
unfolding scan_pings scan_ping count_if
scan_pings-count target s i [] = omega arith
scan_pings-count target s i (e ∷ es) =
    let rest = scan_pings-count target (scan_ping target s i e) (suc i) es in ground arith

-- Making room for a ping to a target leaves fewer than five to it, and no more to any other.
limit_pings-count :
    (target other : String) (l roomy : SyncLedger) (timestamp : ℤ) (s : PingScan)
    → Found target l.events s
    → s.count ≡ pings_to target l.events
    → limit_pings l timestamp s ≡ some roomy
    → pings_to target l.events ≤ max_pings_per_target
    → (pings_to target roomy.events + 1 ≤ max_pings_per_target)
      × (pings_to other roomy.events ≤ pings_to other l.events)
unfolding limit_pings
limit_pings-count target other l roomy timestamp s f count q b = elim (Option-cases s.idx) [
  | inl e ↦
      let zero_count = subst (λ o. FoundAt target l.events o s.ts s.id s.count) e f in ground arith
  | inr (i, e) ↦
      let (x, at, _, _, ping) = subst (λ o. FoundAt target l.events o s.ts s.id s.count) e f in
      ground (
        arith,
        count_if-erase_idx (is_ping_to target) l.events i x at,
        count_if-erase_idx (is_ping_to other) l.events i x at,
      )
]

make_room-pings :
    (l roomy : SyncLedger) (e : SyncEvent) (target : String)
    → make_room l e ≡ some roomy
    → ((t : String) → pings_to t l.events ≤ max_pings_per_target)
    → pings_to target roomy.events + (if is_ping_to target e then 1 else 0) ≤ max_pings_per_target
unfolding make_room is_ping_to
make_room-pings l roomy e target q b = elim (Option-cases e.ping) [
  | inl empty ↦ ground (arith, b target)
  | inr (p, there) ↦
      let s = scan_pings p.target no_pings 0 l.events in
      let count = scan_pings-count p.target no_pings 0 l.events in
      let found = scan_pings-Found p.target l.events no_pings 0 l.events refl refl in
      elim (Bool-cases (e.service == service_ping)) [
        | inr other ↦ ground (arith, b target)
        | inl ping ↦
            let (few, rest) =
              limit_pings-count p.target target l roomy e.timestamp s found (omega (arith, count))
                (rw (ping, there) at q) (b p.target) in
            ground (arith, b target, eq_iff p.target target)
      ]
]

-- No target has more than five stored pings.
abbrev pub IsPingBounded : SyncLedger → Type 0
IsPingBounded l = (t : String) → pings_to t l.events ≤ max_pings_per_target

pings_to-snoc :
    (t : String) (es : List SyncEvent) (e : SyncEvent)
    → pings_to t (es ++ e ∷ []) ≡ pings_to t es + (if is_ping_to t e then 1 else 0)
unfolding count_if
pings_to-snoc t es e = ground (arith, count_if-append (is_ping_to t) es (e ∷ []))

-- An event of another service is a ping to nobody.
not_ping : (t : String) (e : SyncEvent) → e.service ≡ service_observation → is_ping_to t e ≡ false
unfolding is_ping_to
not_ping t e q = rw q

compact-pings :
    (l : SyncLedger) (o : ObservationEventPayload) (t : String)
    → pings_to t (compact l o).events ≤ pings_to t l.events
unfolding compact remove_entry
compact-pings l o t =
    let x = to_remove o.subject l.events (pair_entries o 0 l.events) in
    elim (Option-cases x) [
      | inl none_chosen ↦ ground arith
      | inr (y, chosen) ↦ ground (arith, count_if-erase_idx_le (is_ping_to t) l.events y.idx)
    ]

module _ (sorter : Sorter) (h : Host) where
  open sorter use {sort_slice, sort_perm}

  prune_unlocked-pings :
      (l : SyncLedger) (t : String)
      → pings_to t (prune_unlocked sorter l).events ≤ pings_to t l.events
  unfolding prune_unlocked prune_sorted
  prune_unlocked-pings l t =
      let sorted = sort_slice SyncEvent (prune_before l.is_unknown_nara) l.events in
      let n = count_removable (length l.events - l.max_events) sorted in
      ground (
        arith,
        count_if-perm (is_ping_to t)
            (sort_perm SyncEvent (prune_before l.is_unknown_nara) l.events),
        count_if-perm (is_ping_to t) (sort_perm SyncEvent by_timestamp (drop n sorted)),
        count_if-drop (is_ping_to t) n sorted,
      )

  append_and_prune-pings :
      (l : SyncLedger) (e : SyncEvent) (t : String)
      → pings_to t (append_and_prune sorter h l e).events
        ≤ pings_to t l.events + (if is_ping_to t e then 1 else 0)
  unfolding append_and_prune store_event notify_listeners
  append_and_prune-pings l e t = ground (
    arith,
    pings_to-snoc t l.events e,
    prune_unlocked-pings (unfold store_event in store_event l e) t,
  )

  add_identified-pings :
      (l l' : SyncLedger) (e : SyncEvent) (ok : Bool)
      → add_identified sorter h l e ≡ some (l', ok)
      → IsPingBounded l
      → IsPingBounded l'
  unfolding add_identified
  add_identified-pings l l' e ok q b t = elim (Option-cases (make_room l e)) [
    | inl stale ↦ ground (arith, b t)
    | inr (roomy, room) ↦
        ground (arith, b t, make_room-pings l roomy e t room b, append_and_prune-pings roomy e t)
  ]

  add_compacted-pings :
      (l l' : SyncLedger) (e : SyncEvent) (ok : Bool)
      → add_compacted l e ≡ some (l', ok)
      → e.service ≡ service_observation
      → IsPingBounded l
      → IsPingBounded l'
  unfolding add_compacted store_event notify_listeners
  add_compacted-pings l l' e ok q svc b t =
      ground (arith, b t, pings_to-snoc t l.events e, not_ping t e svc)

  with_id-service : (e e' : SyncEvent) → with_id h e ≡ some e' → e'.service ≡ e.service
  unfolding with_id compute_id
  with_id-service e e' q = ground arith

  -- `AddEvent` keeps at most five pings to each target, whatever the event.
  pub add_event-pings :
      (l l' : SyncLedger) (e : SyncEvent) (ok : Bool)
      → add_event sorter h l e ≡ some (l', ok)
      → ((t : String) → pings_to t l.events ≤ max_pings_per_target)
      → (t : String) → pings_to t l'.events ≤ max_pings_per_target
  unfolding add_event add_observation
  add_event-pings l l' e ok q b = elim (Option-cases (with_id h e)) [
    | inl panics ↦ absurd (ground arith)
    | inr (e', i) ↦ elim (Bool-cases (e.service == service_observation)) [
      | inr other ↦ add_identified-pings l l' e' ok (ground arith) b
      | inl obs ↦ elim (Option-cases e.observation) [
        | inl empty ↦ add_identified-pings l l' e' ok (ground arith) b
        | inr (o, there) ↦
            add_compacted-pings (compact l o) l' e' ok (ground arith)
              (with_id-service e e' i ∙ (eq_iff e.service service_observation).0 obs)
              (λ t. omega (arith, compact-pings l o t, b t))
      ]
    ]
  ]
