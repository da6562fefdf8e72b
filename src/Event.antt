-- ===== src/Event.antt =====
-- sync_event.go, presence_heythere.go, presence_chau.go, checkpoint_types.go: the events that
-- naras exchange, their payloads and the dispatch on the service.
--
-- A pointer is an `Option`. Strings are native strings, `int64` is ℤ with the wrap-around in the
-- arithmetic, an `int` of small range is ℤ too, and a `float64` is its 64-bit pattern. The
-- conversions between name and string types are the identity. Fields for display only and the
-- JSON tags are left out.
pub mod Valid
pub mod Content
pub mod Signature
pub mod Create
use nara.Prelude.{
  ℕ, ◌≡◌, Bool, true, false, not, ◌&&◌, ◌||◌, Option, none, some, List, String, ◌==◌, ltb, leb, eqb,
  if◌then◌else◌, length,
}
use nara.Prelude.Int.{ℤ, pos, ltb_ℤ, leb_ℤ, eqb_ℤ}

abbrev pub service_social : String
service_social = "social"

abbrev pub service_ping : String
service_ping = "ping"

abbrev pub service_observation : String
service_observation = "observation"

abbrev pub service_hey_there : String
service_hey_there = "hey-there"

abbrev pub service_chau : String
service_chau = "chau"

abbrev pub service_seen : String
service_seen = "seen"

abbrev pub service_checkpoint : String
service_checkpoint = "checkpoint"

pub record SeenEvent : Type 0 where
  pub observer : String
  pub subject : String
  pub via : String

pub record SocialEventPayload : Type 0 where
  pub type : String
  pub actor : String
  pub target : String
  pub reason : String
  pub witness : String

-- `rtt` is the bit pattern of a float64.
pub record PingObservation : Type 0 where
  pub observer : String
  pub target : String
  pub rtt : ℕ

pub record ObservationEventPayload : Type 0 where
  pub observer : String
  pub subject : String
  pub type : String
  pub importance : ℤ
  pub is_backfill : Bool
  pub start_time : ℤ
  pub restart_num : ℤ
  pub last_restart : ℤ
  pub online_state : String
  pub observer_uptime : ℕ

pub record HeyThereEvent : Type 0 where
  pub from : String
  pub public_key : String
  pub mesh_ip : String
  pub id : String
  pub signature : String

pub record ChauEvent : Type 0 where
  pub from : String
  pub public_key : String
  pub id : String
  pub signature : String

-- The fields of `NaraObservation` that the checkpoint code reads.
pub record NaraObservation : Type 0 where
  pub restarts : ℤ
  pub total_uptime : ℤ
  pub start_time : ℤ

pub record CheckpointEventPayload : Type 0 where
  pub version : ℤ
  pub subject : String
  pub subject_id : String
  pub previous_checkpoint_id : String
  pub observation : NaraObservation
  pub as_of_time : ℤ
  pub voter_ids : List String
  pub signatures : List String

pub record SyncEvent : Type 0 where
  pub id : String
  pub timestamp : ℤ
  pub service : String
  pub emitter : String
  pub emitter_id : String
  pub signature : String
  pub social : Option SocialEventPayload
  pub ping : Option PingObservation
  pub observation : Option ObservationEventPayload
  pub hey_there : Option HeyThereEvent
  pub chau : Option ChauEvent
  pub seen : Option SeenEvent
  pub checkpoint : Option CheckpointEventPayload

-- A value of the interface type `Payload`: `absent` is the nil interface; else the interface holds
-- a pointer of one type, and that pointer may itself be nil.
pub data Payload : Type 0 where
  absent : Payload
  social : Option SocialEventPayload → Payload
  ping : Option PingObservation → Payload
  observation : Option ObservationEventPayload → Payload
  hey_there : Option HeyThereEvent → Payload
  chau : Option ChauEvent → Payload
  seen : Option SeenEvent → Payload
  checkpoint : Option CheckpointEventPayload → Payload

-- `(e *SyncEvent) Payload()`
unfoldable pub payload : SyncEvent → Payload
payload e =
    if e.service == service_social
    then Payload.social e.social
    else if e.service == service_ping
    then Payload.ping e.ping
    else if e.service == service_observation
    then Payload.observation e.observation
    else if e.service == service_hey_there
    then Payload.hey_there e.hey_there
    else if e.service == service_chau
    then Payload.chau e.chau
    else if e.service == service_seen
    then Payload.seen e.seen
    else if e.service == service_checkpoint
    then Payload.checkpoint e.checkpoint
    else Payload.absent

-- A call of a method that reads a field through a nil pointer panics: `none`.
abbrev pub deref {ℓ κ} : {A : Type ℓ} {B : Type κ} → Option A → (A → B) → Option B
deref none f = none
deref (some a) f = some (f a)
