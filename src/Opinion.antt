-- ===== src/Opinion.antt =====
-- neighbourhood_opinion.go: the observations of restarts and first sightings, by subject, and the
-- opinion on a subject that is derived from them.
--
-- The records are the state of a handler for Projection. The mutex makes each method one step, and
-- the copies that the methods make of the records are left out, as lists do not change. `none` is
-- an index out of range in the trimmed mean.
pub mod Refine
use nara.Prelude.{
  ℕ, Bool, true, false, ◌&&◌, ◌||◌, Option, none, some, List, [], ◌∷◌, ◌++◌, String, ◌==◌, eqb, leb,
  length, keep, if◌then◌else◌, ◌>>=◌,
}
use nara.Prelude.Int.{ℤ, pos, ltb_ℤ, eqb_ℤ, add64, sub64}
use nara.Prelude.Sort.{Sorter}
use nara.Prelude.Dict.{Dict, lookup, lookup_or, insert}
use nara.Event.{SyncEvent, ObservationEventPayload, CheckpointEventPayload, service_observation}
use nara.Ledger.{SyncLedger}
use nara.Projection.{Projection, reset}
use nara.Consensus.{trimmed_mean_positive}
use nara.Checkpoint.{get_checkpoint}
use nara.Checkpoint.Restarts.{add_time}
use nara.Checkpoint.Uptime.{derive_total_uptime, derive_uptime_after}

pub record ObservationRecord : Type 0 where
  pub observer : String
  pub subject : String
  pub type : String
  pub start_time : ℤ
  pub restart_num : ℤ
  pub last_restart : ℤ
  pub observer_uptime : ℕ

pub record OpinionData : Type 0 where
  pub start_time : ℤ
  pub restarts : ℤ
  pub last_restart : ℤ
  pub total_uptime : ℤ

-- The observation of an event that the projection tracks.
unfoldable pub tracked : SyncEvent → Option ObservationEventPayload
tracked e =
    if e.service == service_observation
    then elim e.observation [
      | none ↦ none
      | some o ↦ if o.type == "restart" || o.type == "first-seen" then some o else none
    ]
    else none

unfoldable pub record_of : ObservationEventPayload → ObservationRecord
record_of o = record {
  observer = o.observer;
  subject = o.subject;
  type = o.type;
  start_time = o.start_time;
  restart_num = o.restart_num;
  last_restart = o.last_restart;
  observer_uptime = if eqb o.observer_uptime 0 then 1 else o.observer_uptime;
}

-- `handleEvent`, which returns no error
unfoldable pub record_observation :
    Dict (List ObservationRecord) → SyncEvent → Dict (List ObservationRecord)
unfolding tracked record_of lookup_or insert
record_observation states e = elim (tracked e) [
  | none ↦ states
  | some o ↦ insert o.subject (lookup_or [] o.subject states ++ record_of o ∷ []) states
]

-- The loops that look for the greatest value, from the greatest so far.
unfoldable pub highest : (ObservationRecord → ℤ) → ℤ → List ObservationRecord → ℤ
highest field best [] = best
highest field best (o ∷ os) = highest field (if ltb_ℤ best (field o) then field o else best) os

-- The loops that collect the values of a field over the records that count.
unfoldable pub collect_values :
    (ObservationRecord → Bool) → (ObservationRecord → ℤ) → List ObservationRecord → List ℤ
collect_values counted field [] = []
collect_values counted field (o ∷ os) =
    let rest = collect_values counted field os in if counted o then field o ∷ rest else rest

abbrev has_start : ObservationRecord → Bool
has_start o = ltb_ℤ (pos 0) o.start_time

abbrev reports_restarts : ObservationRecord → Bool
reports_restarts o = ltb_ℤ (pos 0) o.restart_num && o.type == "restart"

unfoldable pub has_observer : String → List String → Bool
has_observer name [] = false
has_observer name (first ∷ rest) = let later = has_observer name rest in first == name || later

-- The keys of `uniqueObservers`.
unfoldable pub unique_observers : List String → List ObservationRecord → List String
unfolding has_observer
unique_observers names [] = names
unique_observers names (o ∷ os) =
    let added =
      if reports_restarts o
      then if has_observer o.observer names then names else o.observer ∷ names
      else names in
    unique_observers added os

-- `deriveProjectionLastRestartConsensus`
unfoldable pub derive_last_restart : List ObservationRecord → ℤ
unfolding highest
derive_last_restart os = highest (λ o. o.last_restart) (pos 0) os

-- `postCheckpointObs`
unfoldable pub after_checkpoint : ℤ → List ObservationRecord → List ObservationRecord
after_checkpoint as_of os = keep (λ o. o.type == "restart" && ltb_ℤ as_of o.start_time) os

-- The keys of `uniqueStartTimes`.
unfoldable pub unique_start_times : List ℤ → List ℤ → List ℤ
unfolding add_time
unique_start_times seen [] = seen
unique_start_times seen (t ∷ ts) = unique_start_times (add_time t seen) ts

-- The last restart after a checkpoint, or the latest start when no record has one.
unfoldable pub restart_after : List ObservationRecord → ℤ
unfolding highest
restart_after os =
    let last = highest (λ o. o.last_restart) (pos 0) os in
    let started = highest (λ o. o.start_time) last os in
    if eqb_ℤ last (pos 0) then started else last

-- `GetObservationsFor`
unfoldable pub get_observations_for :
    Dict (List ObservationRecord) → String → List ObservationRecord
unfolding lookup_or
get_observations_for states subject = lookup_or [] subject states

-- `SubjectCount`
unfoldable pub subject_count : Dict (List ObservationRecord) → ℕ
subject_count states = length states

-- `d := a - b; if d < 0 { d = -d }`
abbrev difference : ℤ → ℤ → ℤ
difference a b = let d = sub64 a b in if ltb_ℤ d (pos 0) then sub64 (pos 0) d else d

-- The opinions differ by more than the tolerances.
unfoldable pub diverges : OpinionData → OpinionData → Bool
unfolding sub64
diverges o c =
    ltb_ℤ (pos 5) (difference o.restarts c.restarts)
    || ltb_ℤ (pos 3600) (difference o.start_time c.start_time)
    || ltb_ℤ (pos 300) (difference o.total_uptime c.total_uptime)

module _ (sorter : Sorter) where
  -- `deriveProjectionStartTimeConsensus`
  unfoldable pub derive_start_time : List ObservationRecord → Option ℤ
  unfolding collect_values trimmed_mean_positive
  derive_start_time os = elim (collect_values has_start (λ o. o.start_time) os) [
    | [] ↦ some (pos 0)
    | v ∷ vs ↦ trimmed_mean_positive sorter (v ∷ vs)
  ]

  -- `deriveProjectionRestartsConsensus`
  unfoldable pub derive_restarts : List ObservationRecord → Option ℤ
  unfolding highest collect_values unique_observers trimmed_mean_positive
  derive_restarts os =
      let most = highest (λ o. o.restart_num) (pos 0) os in
      if leb (length (unique_observers [] os)) 1
      then some most
      else trimmed_mean_positive sorter (collect_values reports_restarts (λ o. o.restart_num) os)
        >>= λ t. some (if eqb_ℤ t (pos 0) then most else t)

  -- The part of `DeriveOpinion` after the records are read.
  unfoldable pub opinion_of : SyncLedger → ℤ → String → List ObservationRecord → Option OpinionData
  unfolding derive_start_time derive_restarts derive_last_restart derive_total_uptime
  opinion_of l now subject [] =
      some (record {
        start_time = pos 0;
        restarts = pos 0;
        last_restart = pos 0;
        total_uptime = pos 0;
      })
  opinion_of l now subject (o ∷ os) = derive_start_time (o ∷ os) >>= λ start.
      derive_restarts (o ∷ os) >>= λ restarts. some (record {
        start_time = start;
        restarts = restarts;
        last_restart = derive_last_restart (o ∷ os);
        total_uptime = derive_total_uptime sorter l now subject;
      })

  -- `DeriveOpinion`
  unfoldable pub derive_opinion :
      SyncLedger → ℤ → Dict (List ObservationRecord) → String → Option OpinionData
  unfolding opinion_of get_observations_for
  derive_opinion l now states subject =
      opinion_of l now subject (get_observations_for states subject)

  -- The part of `DeriveOpinionFromCheckpoint` with a checkpoint, on the records after it.
  unfoldable pub opinion_after :
      SyncLedger → ℤ → String → CheckpointEventPayload → List ObservationRecord → OpinionData
  unfolding unique_start_times collect_values restart_after derive_uptime_after
  opinion_after l now subject c os = record {
    start_time = c.observation.start_time;
    restarts =
        add64 c.observation.restarts
          (pos (length (unique_start_times [] (collect_values has_start (λ o. o.start_time) os))));
    last_restart = restart_after os;
    total_uptime =
        add64 c.observation.total_uptime (derive_uptime_after sorter l now subject c.as_of_time);
  }

  -- `DeriveOpinionFromCheckpoint`: also whether a checkpoint was used
  unfoldable pub derive_opinion_from_checkpoint :
      SyncLedger → ℤ → Dict (List ObservationRecord) → String → Option (OpinionData × Bool)
  unfolding derive_opinion opinion_after after_checkpoint get_observations_for get_checkpoint
  derive_opinion_from_checkpoint l now states subject = elim (get_checkpoint l subject) [
    | none ↦ derive_opinion l now states subject >>= λ o. some (o, false)
    | some c ↦ some (
      opinion_after l now subject c
          (after_checkpoint c.as_of_time (get_observations_for states subject)),
      true,
    )
  ]

  -- `DeriveOpinionWithValidation`: also whether the warning is logged
  unfoldable pub derive_opinion_with_validation :
      SyncLedger → ℤ → Dict (List ObservationRecord) → String → Option (OpinionData × Bool)
  unfolding derive_opinion derive_opinion_from_checkpoint diverges
  derive_opinion_with_validation l now states subject = derive_opinion l now states subject >>= λ o.
      derive_opinion_from_checkpoint l now states subject >>= λ (c, used).
      some (o, used && diverges o c)

  -- `Reset`
  unfoldable pub reset_opinions :
      Dict (List ObservationRecord) → Projection → Dict (List ObservationRecord) × Projection
  unfolding reset
  reset_opinions states p = ([], reset sorter (λ s e. (record_observation s e, true)) (λ s. []) p)
