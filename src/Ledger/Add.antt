-- ===== src/Ledger/Add.antt =====
-- `AddEvent`, `AddEventWithDedup` and what they call, of sync_ledger.go. `none` is a nil-pointer
-- panic.
pub mod Compact
pub mod Room
pub mod Index
pub mod Outcome
pub mod Total
pub mod Pings
use Compact.{compact, any_duplicate, is_observation}
use nara.Prelude.{
  ℕ, zero, suc, ◌+◌, ◌≡◌, Bool, true, false, not, ◌&&◌, ◌||◌, Option, none, some, List, [], ◌∷◌,
  String, ◌==◌, ltb, leb, eqb, length, erase_idx, if◌then◌else◌, ◌>>=◌,
}
use nara.Prelude.Int.{ℤ, pos, ltb_ℤ, leb_ℤ}
use nara.Prelude.Sort.{Sorter}
use nara.Event.{
  SyncEvent, PingObservation, ObservationEventPayload, service_ping, service_observation,
}
use nara.Event.Valid.{is_valid}
use nara.Event.Content.{Host, compute_id}
use nara.Ledger.{
  SyncLedger, delete_id, store_event, notify_listeners, max_pings_per_target, holds,
  should_filter_checkpoint,
}
use nara.Ledger.Prune.{prune_unlocked}

-- `oldestIdx`, `oldestTs`, `oldestID` and `pingCount`; the index -1 is `none`.
pub record PingScan : Type 0 where
  pub idx : Option ℕ
  pub ts : ℤ
  pub id : String
  pub count : ℕ

abbrev pub no_pings : PingScan
no_pings = record { idx = none; ts = pos 0; id = ""; count = 0 }

unfoldable pub is_ping_to : String → SyncEvent → Bool
is_ping_to target e = e.service == service_ping && holds e.ping (λ p. p.target == target)

-- The body of the loop over the events.
unfoldable pub scan_ping : String → PingScan → ℕ → SyncEvent → PingScan
unfolding is_ping_to
scan_ping target s i e =
    if is_ping_to target e
    then (if elim s.idx [ none ↦ true | some j ↦ ltb_ℤ e.timestamp s.ts ]
        then record { idx = some i; ts = e.timestamp; id = e.id; count = suc s.count }
        else record s { count = suc s.count })
    else s

unfoldable pub scan_pings : String → PingScan → ℕ → List SyncEvent → PingScan
unfolding scan_ping
scan_pings target s i [] = s
scan_pings target s i (e ∷ es) = scan_pings target (scan_ping target s i e) (suc i) es

-- Removing the event at the scanned index; with the index -1 the copy keeps all.
abbrev pub drop_at : Option ℕ → List SyncEvent → List SyncEvent
drop_at none es = es
drop_at (some i) es = erase_idx es i

-- The retention of pings; `none` is `return false`.
unfoldable pub limit_pings : SyncLedger → ℤ → PingScan → Option SyncLedger
unfolding delete_id
limit_pings l timestamp s =
    if ltb s.count max_pings_per_target
    then some l
    else if leb_ℤ timestamp s.ts
    then none
    else some (record l {
      events = drop_at s.idx l.events;
      event_ids = delete_id s.id l.event_ids;
      version = l.version + 1;
    })

unfoldable pub make_room : SyncLedger → SyncEvent → Option SyncLedger
unfolding scan_pings limit_pings
make_room l e =
    if e.service == service_ping
    then elim e.ping [
      | none ↦ some l
      | some p ↦ limit_pings l e.timestamp (scan_pings p.target no_pings 0 l.events)
    ]
    else some l

-- `if e.ID == "" { e.ComputeID() }`
unfoldable pub with_id : Host → SyncEvent → Option SyncEvent
unfolding compute_id
with_id h e = if e.id == "" then compute_id h e else some e

-- The end of `addObservationWithCompaction`.
unfoldable pub add_compacted : SyncLedger → SyncEvent → Option (SyncLedger × Bool)
unfolding store_event notify_listeners
add_compacted l e = do
  valid ← is_valid e
  if not valid
      then some (l, false)
      else if l.event_ids e.id
      then some (l, false)
      else some (notify_listeners (store_event l e) e, true)

unfoldable pub any_observation : List SyncEvent → Bool
unfolding is_observation
any_observation [] = false
any_observation (e ∷ es) = is_observation e || any_observation es

module _ (sorter : Sorter) (h : Host) where
  -- The end of `AddEvent`: the append, the pruning and the listeners.
  unfoldable pub append_and_prune : SyncLedger → SyncEvent → SyncLedger
  unfolding store_event notify_listeners
  append_and_prune l e =
      let stored = store_event l e in
      notify_listeners
        (if ltb 0 stored.max_events && ltb stored.max_events (length stored.events)
          then prune_unlocked sorter stored
          else stored)
        e

  -- `AddEvent` for an event with its ID.
  unfoldable pub add_identified : SyncLedger → SyncEvent → Option (SyncLedger × Bool)
  unfolding append_and_prune make_room
  add_identified l e = do
    valid ← is_valid e
    if not valid
        then some (l, false)
        else if should_filter_checkpoint e
        then some (l, false)
        else if l.event_ids e.id
        then some (l, false)
        else elim (make_room l e) [
          | none ↦ some (l, false)
          | some roomy ↦ some (append_and_prune roomy e, true)
        ]

  -- `addObservationWithCompaction`, where `o` is `e.Observation`.
  unfoldable pub add_observation :
      SyncLedger → SyncEvent → ObservationEventPayload → Bool → Option (SyncLedger × Bool)
  unfolding with_id compact any_duplicate add_compacted
  add_observation l e o with_dedup =
      if with_dedup && any_duplicate o l.events
      then some (l, false)
      else do identified ← with_id h e; add_compacted (compact l o) identified

  -- `AddEvent`
  unfoldable pub add_event : SyncLedger → SyncEvent → Option (SyncLedger × Bool)
  unfolding with_id add_identified add_observation
  add_event l e =
      let other = with_id h e >>= add_identified l in
      if e.service == service_observation
      then elim e.observation [ some o ↦ add_observation l e o false | none ↦ other ]
      else other

  -- `AddEventWithDedup`, by `e.Observation`. Where that is nil, the comparison with any stored
  -- observation reads through it.
  unfoldable pub add_dedup :
      SyncLedger → SyncEvent → Option ObservationEventPayload → Option (SyncLedger × Bool)
  unfolding with_id add_compacted add_observation any_observation
  add_dedup l e (some o) = add_observation l e o true
  add_dedup l e none = if any_observation l.events then none else with_id h e >>= add_compacted l

  unfoldable pub add_event_with_dedup : SyncLedger → SyncEvent → Option (SyncLedger × Bool)
  unfolding add_dedup
  add_event_with_dedup l e = add_dedup l e e.observation
