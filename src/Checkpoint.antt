-- ===== src/Checkpoint.antt =====
-- checkpoint_types.go, the queries of `SyncLedger` for checkpoints, and `GetLatestCheckpointID` of
-- sync_ledger.go. The children hold the signatures, the restart counts and the uptime.
pub mod Latest
pub mod Verify
pub mod Restarts
pub mod Uptime
use nara.Prelude.{
  ℕ, ◌+◌, Bool, true, false, ◌&&◌, ◌||◌, Option, none, some, List, [], ◌∷◌, String, ◌==◌,
  if◌then◌else◌, ◌≡◌, Mem, inl, inr, refl,
}
use nara.Prelude.Int.{ℤ, pos, ltb_ℤ, eqb_ℤ, leb_ℤ}
use nara.Event.{SyncEvent, CheckpointEventPayload, service_observation, service_checkpoint}
use nara.Ledger.{SyncLedger}

-- The latest checkpoint so far: its event, its payload and its time.
pub record LatestCheckpoint : Type 0 where
  pub event : Option SyncEvent
  pub contents : Option CheckpointEventPayload
  pub as_of_time : ℤ

unfoldable pub scan_checkpoint : String → LatestCheckpoint → SyncEvent → LatestCheckpoint
scan_checkpoint subject s e =
    if e.service == service_checkpoint
    then elim e.checkpoint [
      | none ↦ s
      | some c ↦
          if c.subject == subject && ltb_ℤ s.as_of_time c.as_of_time
          then record { event = some e; contents = some c; as_of_time = c.as_of_time }
          else s
    ]
    else s

unfoldable pub scan_checkpoints : String → LatestCheckpoint → List SyncEvent → LatestCheckpoint
unfolding scan_checkpoint
scan_checkpoints subject s [] = s
scan_checkpoints subject s (e ∷ es) = scan_checkpoints subject (scan_checkpoint subject s e) es

abbrev pub no_checkpoint : LatestCheckpoint
no_checkpoint = record { event = none; contents = none; as_of_time = pos 0 }

-- The loop that `GetCheckpointEvent` and the derivations share.
unfoldable pub latest_checkpoint : SyncLedger → String → LatestCheckpoint
unfolding scan_checkpoints
latest_checkpoint l subject = scan_checkpoints subject no_checkpoint l.events

-- `GetCheckpointEvent`
unfoldable pub get_checkpoint_event : SyncLedger → String → Option SyncEvent
unfolding latest_checkpoint
get_checkpoint_event l subject = (latest_checkpoint l subject).event

-- `GetCheckpoint`
unfoldable pub get_checkpoint : SyncLedger → String → Option CheckpointEventPayload
unfolding get_checkpoint_event
get_checkpoint l subject = elim (get_checkpoint_event l subject) [
  | none ↦ none
  | some e ↦ e.checkpoint
]

-- `GetLatestCheckpointID`
unfoldable pub get_latest_checkpoint_id : SyncLedger → String → String
unfolding latest_checkpoint
get_latest_checkpoint_id l subject = elim (latest_checkpoint l subject).event [
  | none ↦ ""
  | some e ↦ e.id
]

-- `if earliest == 0 || start < earliest { earliest = start }` for a start time above 0
unfoldable pub earlier : ℤ → ℤ → ℤ
earlier earliest start =
    if ltb_ℤ (pos 0) start && (eqb_ℤ earliest (pos 0) || ltb_ℤ start earliest)
    then start
    else earliest

unfoldable pub scan_first_seen : String → ℤ → SyncEvent → ℤ
unfolding earlier
scan_first_seen subject earliest e =
    if e.service == service_observation
    then elim e.observation [
      | none ↦ earliest
      | some o ↦ if o.subject == subject then earlier earliest o.start_time else earliest
    ]
    else if e.service == service_checkpoint
    then elim e.checkpoint [
      | none ↦ earliest
      | some c ↦
          if c.subject == subject then earlier earliest c.observation.start_time else earliest
    ]
    else earliest

unfoldable pub scan_all_first_seen : String → ℤ → List SyncEvent → ℤ
unfolding scan_first_seen
scan_all_first_seen subject earliest [] = earliest
scan_all_first_seen subject earliest (e ∷ es) =
    scan_all_first_seen subject (scan_first_seen subject earliest e) es

-- `GetFirstSeenFromEvents`
unfoldable pub get_first_seen_from_events : SyncLedger → String → ℤ
unfolding scan_all_first_seen
get_first_seen_from_events l subject = scan_all_first_seen subject (pos 0) l.events
