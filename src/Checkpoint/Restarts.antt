-- ===== src/Checkpoint/Restarts.antt =====
-- `DeriveRestartCount` of checkpoint_types.go and the counts of distinct start times below it.
pub mod Reports
use nara.Prelude.{
  ℕ, zero, suc, ◌+◌, Bool, true, false, not, ◌&&◌, ◌||◌, Option, none, some, List, [], ◌∷◌, String,
  ◌==◌, length, if◌then◌else◌,
}
use nara.Prelude.Int.{ℤ, pos, ltb_ℤ, leb_ℤ, eqb_ℤ, add64}
use nara.Event.{SyncEvent, ObservationEventPayload, service_observation}
use nara.Ledger.{SyncLedger}
use nara.Ledger.Query.{get_backfill_event}
use nara.Checkpoint.{latest_checkpoint}

-- Whether a start time is in the set.
unfoldable pub has_time : ℤ → List ℤ → Bool
has_time t [] = false
has_time t (u ∷ us) = let rest = has_time t us in eqb_ℤ u t || rest

-- `startTimes[t] = true`
unfoldable pub add_time : ℤ → List ℤ → List ℤ
unfolding has_time
add_time t ts = if has_time t ts then ts else t ∷ ts

-- The tests on an observation before its start time is looked at.
unfoldable pub is_restart_of : String → ObservationEventPayload → Bool
is_restart_of subject o = o.subject == subject && o.type == "restart" && not o.is_backfill

-- One event of the loops that collect the start times, for a test on the start time.
unfoldable pub scan_restart : (ℤ → Bool) → String → List ℤ → SyncEvent → List ℤ
unfolding is_restart_of add_time
scan_restart counted subject ts e =
    if e.service == service_observation
    then elim e.observation [
      | none ↦ ts
      | some o ↦
          if is_restart_of subject o && counted o.start_time then add_time o.start_time ts else ts
    ]
    else ts

-- The set of start times of the restarts whose start time passes a test.
unfoldable pub start_times : (ℤ → Bool) → String → List ℤ → List SyncEvent → List ℤ
unfolding scan_restart
start_times counted subject ts [] = ts
start_times counted subject ts (e ∷ es) =
    start_times counted subject (scan_restart counted subject ts e) es

-- `countUniqueStartTimesAfterLocked`
unfoldable pub count_unique_start_times_after : SyncLedger → String → ℤ → ℕ
unfolding start_times
count_unique_start_times_after l subject after =
    length (start_times (λ t. not (ltb_ℤ (pos 0) after && leb_ℤ t after)) subject [] l.events)

-- `countUniqueStartTimesExcludingLocked`
unfoldable pub count_unique_start_times_excluding : SyncLedger → String → ℤ → ℕ
unfolding start_times
count_unique_start_times_excluding l subject excluded =
    length (start_times (λ t. not (eqb_ℤ t excluded)) subject [] l.events)

-- `DeriveRestartCount`
unfoldable pub derive_restart_count : SyncLedger → String → ℤ
unfolding latest_checkpoint count_unique_start_times_after count_unique_start_times_excluding add64
    get_backfill_event
derive_restart_count l subject = elim (latest_checkpoint l subject).contents [
  | some c ↦
      add64 c.observation.restarts (pos (count_unique_start_times_after l subject c.as_of_time))
  | none ↦ elim (get_backfill_event l subject) [
    | some o ↦ add64 o.restart_num (pos (count_unique_start_times_excluding l subject o.start_time))
    | none ↦ pos (count_unique_start_times_after l subject (pos 0))
  ]
]
