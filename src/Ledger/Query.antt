-- ===== src/Ledger/Query.antt =====
-- The queries of sync_ledger.go that select, count or look up stored events. `none` is a nil-pointer
-- panic.
pub mod Laws
use nara.Prelude.{
  ℕ, zero, suc, ◌+◌, ◌≡◌, Bool, true, false, not, ◌&&◌, ◌||◌, Option, none, some, List, [], ◌∷◌,
  String, ◌==◌, leb, eqb, keep, count_if, drop, take, length, map, if◌then◌else◌, ◌>>=◌,
}
use nara.Prelude.Int.{ℤ, pos, ltb_ℤ}
use nara.Prelude.Sort.{Sorter}
use nara.Prelude.Dict.{Dict, lookup_or, insert}
use nara.Event.{
  SyncEvent, PingObservation, ObservationEventPayload, SocialEventPayload, service_ping,
  service_observation, service_social, service_checkpoint,
}
use nara.Event.Valid.{get_actor, get_target}
use nara.Ledger.{SyncLedger, holds, event_pruning_priority}

-- `HasEvent`
unfoldable pub has_event : SyncLedger → String → Bool
has_event l id = l.event_ids id

-- `GetAllEvents`
unfoldable pub get_all_events : SyncLedger → List SyncEvent
get_all_events l = l.events

-- `GetVersion`
unfoldable pub get_version : SyncLedger → ℕ
get_version l = l.version

-- `EventCount`
unfoldable pub event_count : SyncLedger → ℕ
event_count l = length l.events

-- `GetEventsByService`
unfoldable pub get_events_by_service : SyncLedger → String → List SyncEvent
get_events_by_service l service = keep (λ e. e.service == service) l.events

-- The payloads of the pings among the events that pass a test.
unfoldable pub pings_of : (PingObservation → Bool) → List SyncEvent → List PingObservation
pings_of p [] = []
pings_of p (e ∷ es) =
    let rest = pings_of p es in
    if e.service == service_ping
    then elim e.ping [ none ↦ rest | some q ↦ if p q then q ∷ rest else rest ]
    else rest

-- `GetPingObservations`
unfoldable pub get_ping_observations : SyncLedger → List PingObservation
unfolding pings_of
get_ping_observations l = pings_of (λ p. true) l.events

-- `GetPingsBetween`
unfoldable pub get_pings_between : SyncLedger → String → String → List PingObservation
unfolding pings_of
get_pings_between l a b =
    pings_of (λ p. (p.observer == a && p.target == b) || (p.observer == b && p.target == a))
      l.events

-- A loop that keeps the events of a test that may panic.
unfoldable pub keep_if : (SyncEvent → Option Bool) → List SyncEvent → Option (List SyncEvent)
keep_if p [] = some []
keep_if p (e ∷ es) =
    p e >>= λ wanted. keep_if p es >>= λ rest. some (if wanted then e ∷ rest else rest)

-- `e.GetActor() == name || e.GetTarget() == name`
unfoldable pub is_about : String → SyncEvent → Option Bool
is_about name e = do
  actor ← get_actor e
  if actor == name then some true else (get_target e >>= λ target. some (target == name))

-- `GetEventsInvolving`
unfoldable pub get_events_involving : SyncLedger → String → Option (List SyncEvent)
unfolding keep_if is_about
get_events_involving l name = keep_if (is_about name) l.events

-- `GetEventsSince`
unfoldable pub get_events_since : SyncLedger → ℕ → List SyncEvent × ℕ × ℕ
get_events_since l position =
    let total = length l.events in
    if leb total position
    then ([], total, l.version)
    else (drop position l.events, total, l.version)

-- `GetObservationEventsAbout`
unfoldable pub get_observation_events_about : SyncLedger → String → List SyncEvent
get_observation_events_about l subject =
    keep (λ e. e.service == service_observation && holds e.observation (λ o. o.subject == subject))
      l.events

-- The loop of `GetBackfillEvent`, which the derivations share.
unfoldable pub find_backfill : String → List SyncEvent → Option ObservationEventPayload
find_backfill subject [] = none
find_backfill subject (e ∷ es) =
    let rest = find_backfill subject es in
    if e.service == service_observation
    then elim e.observation [
      | none ↦ rest
      | some o ↦ if o.subject == subject && o.is_backfill then some o else rest
    ]
    else rest

-- `GetBackfillEvent`
unfoldable pub get_backfill_event : SyncLedger → String → Option ObservationEventPayload
unfolding find_backfill
get_backfill_event l subject = find_backfill subject l.events

-- `GetEventHashes`
unfoldable pub get_event_hashes : SyncLedger → List String
get_event_hashes l = map (λ (e : SyncEvent). e.id) l.events

-- The latest ping to a target so far, and its time.
pub record LatestPing : Type 0 where
  pub latest : Option PingObservation
  pub latest_time : ℤ

unfoldable pub scan_latest_ping : String → LatestPing → SyncEvent → LatestPing
scan_latest_ping target s e =
    if e.service == service_ping
    then elim e.ping [
      | none ↦ s
      | some p ↦
          if p.target == target && ltb_ℤ s.latest_time e.timestamp
          then record { latest = some p; latest_time = e.timestamp }
          else s
    ]
    else s

unfoldable pub scan_latest_pings : String → LatestPing → List SyncEvent → LatestPing
unfolding scan_latest_ping
scan_latest_pings target s [] = s
scan_latest_pings target s (e ∷ es) = scan_latest_pings target (scan_latest_ping target s e) es

-- `GetLatestPingTo`
unfoldable pub get_latest_ping_to : SyncLedger → String → Option PingObservation
unfolding scan_latest_pings
get_latest_ping_to l target =
    (scan_latest_pings target (record { latest = none; latest_time = pos 0 }) l.events).latest

-- `counts[key]++`
unfoldable pub increment : String → Dict ℕ → Dict ℕ
unfolding insert lookup_or
increment k counts = insert k (lookup_or 0 k counts + 1) counts

-- `GetTeaseCounts` and `GetTeaseCountsReceived`, by the name that is counted.
unfoldable pub tease_counts : (SocialEventPayload → String) → Dict ℕ → List SyncEvent → Dict ℕ
unfolding increment
tease_counts name counts [] = counts
tease_counts name counts (e ∷ es) =
    tease_counts name
      (if e.service == service_social
        then elim e.social [
          | none ↦ counts
          | some p ↦ if p.type == "tease" then increment (name p) counts else counts
        ]
        else counts)
      es

unfoldable pub get_tease_counts : SyncLedger → Dict ℕ
unfolding tease_counts
get_tease_counts l = tease_counts (λ p. p.actor) [] l.events

unfoldable pub get_tease_counts_received : SyncLedger → Dict ℕ
unfolding tease_counts
get_tease_counts_received l = tease_counts (λ p. p.target) [] l.events

-- `GetEventCountsByService`
unfoldable pub count_services : Dict ℕ → List SyncEvent → Dict ℕ
unfolding increment
count_services counts [] = counts
count_services counts (e ∷ es) = count_services (increment e.service counts) es

unfoldable pub get_event_counts_by_service : SyncLedger → Dict ℕ
unfolding count_services
get_event_counts_by_service l = count_services [] l.events

-- `GetCriticalEventCount`
unfoldable pub get_critical_event_count : SyncLedger → ℕ
get_critical_event_count l = count_if (λ e. eqb (event_pruning_priority e) 0) l.events

-- `GetSocialEventsAbout`
unfoldable pub get_social_events_about : SyncLedger → String → List SyncEvent
get_social_events_about l name =
    keep (λ e. e.service == service_social && holds e.social (λ p. p.target == name)) l.events

-- `GetRecentSocialEvents`, for a number that is not negative.
unfoldable pub get_recent_social_events : Sorter → SyncLedger → ℕ → List SyncEvent
get_recent_social_events sorter l n = take n (
    sorter.sort_slice SyncEvent (λ a b. ltb_ℤ b.timestamp a.timestamp)
      (keep (λ e. e.service == service_social) l.events))
