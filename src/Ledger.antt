-- ===== src/Ledger.antt =====
-- `SyncLedger` of sync_ledger.go: the store of events, its index of IDs and the tests on events
-- that its operations branch on.
--
-- The mutex makes each method one step. The index is a function, since the code only ever asks
-- whether an ID is in it. `notified` is the trace of the events handed to the listeners, in order.
-- The callback for unknown naras is a function, its answers those at the time of the call.
-- `max_events` is not negative and `version` does not overflow. `none` is a nil-pointer panic.
pub mod Invariant
pub mod Erase
pub mod Prune
pub mod Add
pub mod Remove
pub mod Query
pub mod Page
pub mod Filters
pub mod Legacy
pub mod Runs
use nara.Prelude.{
  ℕ, ◌+◌, ◌≡◌, Bool, true, false, not, ◌&&◌, ◌||◌, Option, none, some, List, [], ◌∷◌, ◌++◌, String,
  ◌==◌, ltb, eqb, keep, differ, if◌then◌else◌,
}
use nara.Prelude.Int.{ℤ, pos, ltb_ℤ, leb_ℤ}
use nara.Event.{
  SyncEvent, SocialEventPayload, service_social, service_ping, service_observation,
  service_hey_there, service_chau, service_seen, service_checkpoint,
}
use nara.RateLimit.{ObservationRateLimit, new_rate_limit, cleanup}

pub record SyncLedger : Type 0 where
  pub events : List SyncEvent
  pub max_events : ℕ
  pub event_ids : String → Bool
  pub observation_rl : ObservationRateLimit
  pub version : ℕ
  pub is_unknown_nara : Option (String → Bool)
  pub notified : List SyncEvent

-- `NewSyncLedger`
unfoldable pub new_sync_ledger : ℕ → SyncLedger
new_sync_ledger max = record {
  events = [];
  max_events = max;
  event_ids = λ id. false;
  observation_rl = new_rate_limit;
  version = 0;
  is_unknown_nara = none;
  notified = [];
}

-- `SetUnknownNaraChecker`, as the network does for its ledger
unfoldable pub set_unknown_nara_checker : SyncLedger → (String → Bool) → SyncLedger
set_unknown_nara_checker l checker = record l { is_unknown_nara = some checker }

-- `l.observationRL.Cleanup`, at a time in seconds
unfoldable pub clean_rate_limit : SyncLedger → ℤ → SyncLedger
unfolding cleanup
clean_rate_limit l now = record l { observation_rl = cleanup l.observation_rl now }

-- `l.eventIDs[id] = true`
unfoldable pub set_id : String → (String → Bool) → String → Bool
set_id id ids k = id == k || ids k

-- `delete(l.eventIDs, id)`
unfoldable pub delete_id : String → (String → Bool) → String → Bool
delete_id id ids k = not (id == k) && ids k

-- `for _, e := range removed { delete(l.eventIDs, e.ID) }`
unfoldable pub delete_all : List SyncEvent → (String → Bool) → String → Bool
unfolding delete_id
delete_all [] ids = ids
delete_all (e ∷ es) ids = delete_all es (delete_id e.id ids)

-- The append, the index and `notifyListeners`.
unfoldable pub store_event : SyncLedger → SyncEvent → SyncLedger
unfolding set_id
store_event l e = record l { events = l.events ++ e ∷ []; event_ids = set_id e.id l.event_ids }

unfoldable pub notify_listeners : SyncLedger → SyncEvent → SyncLedger
notify_listeners l e = record l { notified = l.notified ++ e ∷ [] }

abbrev pub max_observations_per_pair : ℕ
max_observations_per_pair = 20

abbrev pub max_pings_per_target : ℕ
max_pings_per_target = 5

abbrev pub checkpoint_cutoff_time : ℤ
checkpoint_cutoff_time = pos 1768774453

-- A test on a payload that is there, and `false` for a nil pointer.
abbrev pub holds {ℓ} : {A : Type ℓ} → Option A → (A → Bool) → Bool
holds none p = false
holds (some a) p = p a

-- The names that `isEventFromUnknownNara` collects.
abbrev social_names : SocialEventPayload → List String
social_names p =
    p.actor ∷ (if not (p.target == "") then p.target ∷ [] else [])
    ++ (if not (p.witness == "") then p.witness ∷ [] else [])

abbrev names {ℓ} : {A : Type ℓ} → Option A → (A → List String) → List String
names none f = []
names (some a) f = f a

unfoldable pub event_names : SyncEvent → List String
event_names e =
    if e.service == service_hey_there
    then names e.hey_there (λ p. p.from ∷ [])
    else if e.service == service_chau
    then names e.chau (λ p. p.from ∷ [])
    else if e.service == service_observation
    then names e.observation (λ p. p.observer ∷ p.subject ∷ [])
    else if e.service == service_social
    then names e.social social_names
    else if e.service == service_ping
    then names e.ping (λ p. p.observer ∷ p.target ∷ [])
    else if e.service == service_seen
    then names e.seen (λ p. p.observer ∷ p.subject ∷ [])
    else []

unfoldable pub any_unknown : (String → Bool) → List String → Bool
any_unknown unknown [] = false
any_unknown unknown (n ∷ ns) =
    let rest = any_unknown unknown ns in if not (n == "") && unknown n then true else rest

-- `isEventFromUnknownNara`
unfoldable pub is_event_from_unknown_nara : Option (String → Bool) → SyncEvent → Bool
unfolding event_names any_unknown
is_event_from_unknown_nara none e = false
is_event_from_unknown_nara (some unknown) e = any_unknown unknown (event_names e)

-- `shouldFilterCheckpoint`
unfoldable pub should_filter_checkpoint : SyncEvent → Bool
should_filter_checkpoint e =
    if not (e.service == service_checkpoint)
    then false
    else holds e.checkpoint (λ c. leb_ℤ c.as_of_time checkpoint_cutoff_time && c.subject == "r2d2")

-- `FilterEventsForIngestion`
unfoldable pub filter_events_for_ingestion : List SyncEvent → List SyncEvent
unfolding should_filter_checkpoint
filter_events_for_ingestion events = keep (λ e. not (should_filter_checkpoint e)) events

-- `eventInvolvesNara`
unfoldable pub event_involves_nara : SyncEvent → String → Bool
event_involves_nara e name =
    if e.emitter == name
    then true
    else if e.service == service_checkpoint
    then holds e.checkpoint (λ p. p.subject == name)
    else if e.service == service_hey_there
    then holds e.hey_there (λ p. p.from == name)
    else if e.service == service_chau
    then holds e.chau (λ p. p.from == name)
    else if e.service == service_observation
    then holds e.observation (λ p. p.observer == name || p.subject == name)
    else if e.service == service_social
    then holds e.social (λ p. p.actor == name || p.target == name || p.witness == name)
    else if e.service == service_ping
    then holds e.ping (λ p. p.observer == name || p.target == name)
    else if e.service == service_seen
    then holds e.seen (λ p. p.observer == name || p.subject == name)
    else false

-- The part of `eventPruningPriority` after the checks of checkpoints and observations.
unfoldable pub service_priority : SyncEvent → ℕ
service_priority e =
    if e.service == service_hey_there || e.service == service_chau
    then 1
    else if e.service == service_social
    then 2
    else if e.service == service_seen
    then 3
    else if e.service == service_ping
    then 4
    else 2

-- `eventPruningPriority`
unfoldable pub event_pruning_priority : SyncEvent → ℕ
unfolding service_priority
event_pruning_priority e =
    if e.service == service_checkpoint
    then 0
    else if e.service == service_observation
        && holds e.observation (λ o. o.type == "restart" || o.type == "first-seen")
    then 0
    else if e.service == service_observation && holds e.observation (λ o. o.type == "status-change")
    then 1
    else service_priority e

-- `Events[i].Timestamp < Events[j].Timestamp`
unfoldable pub by_timestamp : SyncEvent → SyncEvent → Bool
by_timestamp a b = ltb_ℤ a.timestamp b.timestamp

-- The order in which events are given up under storage pressure.
unfoldable pub prune_before : Option (String → Bool) → SyncEvent → SyncEvent → Bool
unfolding by_timestamp
prune_before unknown a b =
    let ua = is_event_from_unknown_nara unknown a in
    let ub = is_event_from_unknown_nara unknown b in
    let pa = event_pruning_priority a in
    let pb = event_pruning_priority b in
    if differ ua ub then ua else if not (eqb pa pb) then ltb pb pa else by_timestamp a b
