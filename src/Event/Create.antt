-- ===== src/Event/Create.antt =====
-- sync_event.go: the constructors of events and `Sign`.
--
-- A keypair is its `SignBase64`. A reading of the clock is an argument: `now` in nanoseconds and
-- `unix_now` in seconds. The constructors with IDs differ from those without only in the IDs that
-- the payloads carry beside the names; these fields are for verification, no check reads them, and
-- they are left out. `none` is a nil-pointer panic.
pub mod Exact
pub mod Signed
use nara.Prelude.{
  ℕ, Bool, true, false, not, ◌&&◌, Option, none, some, List, String, ◌==◌, if◌then◌else◌,
}
use nara.Prelude.Int.{ℤ, pos}
use nara.Event.{
  SyncEvent, SeenEvent, SocialEventPayload, PingObservation, ObservationEventPayload, HeyThereEvent,
  ChauEvent, service_social, service_ping, service_observation, service_hey_there, service_chau,
  service_seen, deref,
}
use nara.Event.Content.{Host, compute_id}
use nara.Event.Signature.{Crypto, signable_data}

-- `SocialEvent` of social.go
pub record SocialEvent : Type 0 where
  pub id : String
  pub timestamp : ℤ
  pub type : String
  pub actor : String
  pub target : String
  pub reason : String
  pub witness : String
  pub signature : String

abbrev pub Sign : Type 0
Sign = List ℕ → String

-- `SyncEvent{Timestamp: …, Service: …}`
abbrev pub event_at : ℤ → String → SyncEvent
event_at now service = record {
  id = "";
  timestamp = now;
  service = service;
  emitter = "";
  emitter_id = "";
  signature = "";
  social = none;
  ping = none;
  observation = none;
  hey_there = none;
  chau = none;
  seen = none;
  checkpoint = none;
}

-- The observation of a type, with the other fields zero.
abbrev pub observed_as : String → String → String → ℤ → ObservationEventPayload
observed_as observer subject type importance = record {
  observer = observer;
  subject = subject;
  type = type;
  importance = importance;
  is_backfill = false;
  start_time = pos 0;
  restart_num = pos 0;
  last_restart = pos 0;
  online_state = "";
  observer_uptime = 0;
}

abbrev pub observation_event : ℤ → ObservationEventPayload → SyncEvent
observation_event now o = record (event_at now service_observation) { observation = some o }

abbrev pub social_event : ℤ → SocialEventPayload → SyncEvent
social_event now p = record (event_at now service_social) { social = some p }

-- `ToSocialEvent`
unfoldable pub to_social_event : SyncEvent → Option SocialEvent
to_social_event e = if not (e.service == service_social) then none else elim e.social [
  | none ↦ none
  | some p ↦ some (record {
    id = e.id;
    timestamp = e.timestamp;
    type = p.type;
    actor = p.actor;
    target = p.target;
    reason = p.reason;
    witness = p.witness;
    signature = "";
  })
]

module _ (c : Crypto) (h : Host) where
  -- `(e *SyncEvent) Sign`
  unfoldable pub sign_event : Sign → String → SyncEvent → Option SyncEvent
  unfolding signable_data
  sign_event sign emitter e =
      let named = record e { emitter = emitter } in
      deref (signable_data c h named) (λ content. record named { signature = sign content })

  -- `e.ComputeID()` and `e.Sign`
  unfoldable pub identify_and_sign : Sign → String → SyncEvent → Option SyncEvent
  unfolding sign_event compute_id
  identify_and_sign sign emitter e = elim (compute_id h e) [
    | none ↦ none
    | some identified ↦ sign_event sign emitter identified
  ]

  -- `NewSocialSyncEvent`
  unfoldable pub new_social_sync_event :
      ℤ → String → String → String → String → String → Option SyncEvent
  unfolding compute_id
  new_social_sync_event now type actor target reason witness = compute_id h (
      social_event now (record {
        type = type;
        actor = actor;
        target = target;
        reason = reason;
        witness = witness;
      }))

  -- `NewPingSyncEvent`
  unfoldable pub new_ping_sync_event : ℤ → String → String → ℕ → Option SyncEvent
  unfolding compute_id
  new_ping_sync_event now observer target rtt = compute_id h (record (event_at now service_ping) {
    ping = some (record { observer = observer; target = target; rtt = rtt });
  })

  -- `NewSignedSocialSyncEvent`
  unfoldable pub new_signed_social_sync_event :
      ℤ → String → String → String → String → String → String → Sign → Option SyncEvent
  unfolding new_social_sync_event sign_event
  new_signed_social_sync_event now type actor target reason witness emitter sign =
      elim (new_social_sync_event now type actor target reason witness) [
        | none ↦ none
        | some e ↦ sign_event sign emitter e
      ]

  -- `NewSignedPingSyncEvent`
  unfoldable pub new_signed_ping_sync_event :
      ℤ → String → String → ℕ → String → Sign → Option SyncEvent
  unfolding new_ping_sync_event sign_event
  new_signed_ping_sync_event now observer target rtt emitter sign =
      elim (new_ping_sync_event now observer target rtt) [
        | none ↦ none
        | some e ↦ sign_event sign emitter e
      ]

  -- `NewRestartObservationEvent`
  unfoldable pub new_restart_observation_event : ℤ → ℤ → String → String → ℤ → ℤ → Option SyncEvent
  unfolding compute_id
  new_restart_observation_event now unix_now observer subject start_time restart_num =
      compute_id h (
        observation_event now (record (observed_as observer subject "restart" (pos 3)) {
          start_time = start_time;
          restart_num = restart_num;
          last_restart = unix_now;
        }))

  -- `NewRestartObservationEventWithUptime`
  unfoldable pub new_restart_observation_event_with_uptime :
      ℤ → ℤ → String → String → ℤ → ℤ → ℕ → Option SyncEvent
  unfolding compute_id
  new_restart_observation_event_with_uptime now unix_now observer subject start_time restart_num
        uptime =
      compute_id h (
        observation_event now (record (observed_as observer subject "restart" (pos 3)) {
          start_time = start_time;
          restart_num = restart_num;
          last_restart = unix_now;
          observer_uptime = uptime;
        }))

  -- `NewFirstSeenObservationEvent`
  unfoldable pub new_first_seen_observation_event : ℤ → String → String → ℤ → Option SyncEvent
  unfolding compute_id
  new_first_seen_observation_event now observer subject start_time = compute_id h (
      observation_event now
        (record (observed_as observer subject "first-seen" (pos 3)) { start_time = start_time }))

  -- `NewStatusChangeObservationEvent`
  unfoldable pub new_status_change_observation_event :
      ℤ → String → String → String → Option SyncEvent
  unfolding compute_id
  new_status_change_observation_event now observer subject online_state = compute_id h (
      observation_event now (record (observed_as observer subject "status-change" (pos 2)) {
        online_state = online_state;
      }))

  -- `NewBackfillObservationEvent`
  unfoldable pub new_backfill_observation_event : ℤ → String → String → ℤ → ℤ → ℤ → Option SyncEvent
  unfolding compute_id
  new_backfill_observation_event now observer subject start_time restart_num last_restart =
      compute_id h (
        observation_event now (record (observed_as observer subject "restart" (pos 3)) {
          is_backfill = true;
          start_time = start_time;
          restart_num = restart_num;
          last_restart = last_restart;
        }))

  -- `NewHeyThereSyncEvent`
  unfoldable pub new_hey_there_sync_event :
      ℤ → String → String → String → String → Sign → Option SyncEvent
  unfolding identify_and_sign
  new_hey_there_sync_event now name public_key mesh_ip id sign =
      identify_and_sign sign name (record (event_at now service_hey_there) {
        hey_there = some (record {
          from = name;
          public_key = public_key;
          mesh_ip = mesh_ip;
          id = id;
          signature = "";
        });
      })

  -- `NewChauSyncEvent`
  unfoldable pub new_chau_sync_event : ℤ → String → String → String → Sign → Option SyncEvent
  unfolding identify_and_sign
  new_chau_sync_event now name public_key id sign =
      identify_and_sign sign name (record (event_at now service_chau) {
        chau = some (record { from = name; public_key = public_key; id = id; signature = "" });
      })

  -- `NewSeenSyncEvent`
  unfoldable pub new_seen_sync_event : ℤ → String → String → String → Sign → Option SyncEvent
  unfolding identify_and_sign
  new_seen_sync_event now observer subject via sign =
      identify_and_sign sign observer (record (event_at now service_seen) {
        seen = some (record { observer = observer; subject = subject; via = via });
      })

  -- `NewTeaseSyncEvent`
  unfoldable pub new_tease_sync_event : ℤ → String → String → String → Sign → Option SyncEvent
  unfolding new_signed_social_sync_event
  new_tease_sync_event now actor target reason sign =
      new_signed_social_sync_event now "tease" actor target reason "" actor sign

  -- `NewObservationSocialSyncEvent`
  unfoldable pub new_observation_social_sync_event :
      ℤ → String → String → String → Sign → Option SyncEvent
  unfolding new_signed_social_sync_event
  new_observation_social_sync_event now actor target reason sign =
      new_signed_social_sync_event now "observation" actor target reason "" actor sign

  -- `NewJourneyObservationSyncEvent`, which does not use the ID of the journey
  unfoldable pub new_journey_observation_sync_event :
      ℤ → String → String → String → String → Sign → Option SyncEvent
  unfolding new_signed_social_sync_event
  new_journey_observation_sync_event now observer originator reason journey_id sign =
      new_signed_social_sync_event now "observation" observer originator reason "" observer sign

  -- `SyncEventFromSocialEvent`
  unfoldable pub sync_event_from_social_event : SocialEvent → Option SyncEvent
  unfolding compute_id
  sync_event_from_social_event se = compute_id h (
      social_event se.timestamp (record {
        type = se.type;
        actor = se.actor;
        target = se.target;
        reason = se.reason;
        witness = se.witness;
      }))
