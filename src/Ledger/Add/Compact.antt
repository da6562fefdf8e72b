-- ===== src/Ledger/Add/Compact.antt =====
-- The first half of `addObservationWithCompaction` of sync_ledger.go: the search for a duplicate and
-- the limit of observations for each pair of observer and subject.
pub mod Entries
pub mod Limit
use nara.Prelude.{
  ℕ, zero, suc, ◌+◌, ◌≡◌, Bool, true, false, not, ◌&&◌, ◌||◌, Option, none, some, List, [], ◌∷◌,
  String, ◌==◌, ltb, leb, eqb, length, erase_idx, get_elem?, if◌then◌else◌,
}
use nara.Prelude.Int.{ℤ, pos, ltb_ℤ, eqb_ℤ}
use nara.Event.{SyncEvent, ObservationEventPayload, service_observation, service_checkpoint}
use nara.Ledger.{SyncLedger, delete_id, holds, max_observations_per_pair}

unfoldable pub is_observation : SyncEvent → Bool
is_observation e = e.service == service_observation && holds e.observation (λ o. true)

-- An existing observation `x` makes `o` a duplicate by content.
unfoldable pub same_content : ObservationEventPayload → ObservationEventPayload → Bool
same_content o x =
    (o.type == "restart"
      && x.type == "restart"
      && x.subject == o.subject
      && eqb_ℤ x.restart_num o.restart_num
      && eqb_ℤ x.start_time o.start_time)
    || (o.type == "first-seen"
        && x.type == "first-seen"
        && x.observer == o.observer
        && x.subject == o.subject)

unfoldable pub is_duplicate : ObservationEventPayload → SyncEvent → Bool
unfolding same_content
is_duplicate o e = e.service == service_observation && holds e.observation (same_content o)

unfoldable pub any_duplicate : ObservationEventPayload → List SyncEvent → Bool
unfolding is_duplicate
any_duplicate o [] = false
any_duplicate o (e ∷ es) = is_duplicate o e || any_duplicate o es

-- The observations of the pair, with their indices in the ledger.
pub record PairEntry : Type 0 where
  pub idx : ℕ
  pub ts : ℤ
  pub id : String

unfoldable pub is_of_pair : ObservationEventPayload → SyncEvent → Bool
is_of_pair o e =
    e.service == service_observation
    && holds e.observation (λ x. x.observer == o.observer && x.subject == o.subject)

unfoldable pub pair_entries : ObservationEventPayload → ℕ → List SyncEvent → List PairEntry
unfolding is_of_pair
pair_entries o i [] = []
pair_entries o i (e ∷ es) =
    let rest = pair_entries o (suc i) es in
    if is_of_pair o e then record { idx = i; ts = e.timestamp; id = e.id } ∷ rest else rest

unfoldable pub has_checkpoint : String → List SyncEvent → Bool
has_checkpoint subject [] = false
has_checkpoint subject (e ∷ es) =
    (e.service == service_checkpoint && holds e.checkpoint (λ c. c.subject == subject))
    || has_checkpoint subject es

abbrev pub is_non_restart : Option SyncEvent → Bool
is_non_restart none = false
is_non_restart (some e) =
    e.service == service_observation && holds e.observation (λ o. not (o.type == "restart"))

-- `oldestAnyIdx` and `oldestNonRestartIdx`, with the entry in place of its index in `existingObs`.
pub record OldestScan : Type 0 where
  pub any : PairEntry
  pub non_restart : Option PairEntry

unfoldable pub scan_entry : List SyncEvent → OldestScan → PairEntry → OldestScan
scan_entry events s obs = record {
  any = if ltb_ℤ obs.ts s.any.ts then obs else s.any;
  non_restart =
      if is_non_restart (get_elem? events obs.idx)
      then elim s.non_restart [
        | none ↦ some obs
        | some x ↦ if ltb_ℤ obs.ts x.ts then some obs else some x
      ]
      else s.non_restart;
}

unfoldable pub scan_entries : List SyncEvent → OldestScan → List PairEntry → OldestScan
unfolding scan_entry
scan_entries events s [] = s
scan_entries events s (obs ∷ rest) = scan_entries events (scan_entry events s obs) rest

-- The decision what to prune; `none` is the index -1.
unfoldable pub decide : String → List SyncEvent → OldestScan → Option PairEntry
unfolding has_checkpoint
decide subject events s = elim s.non_restart [
  | some x ↦ some x
  | none ↦ if has_checkpoint subject events then some s.any else none
]

unfoldable pub to_remove : String → List SyncEvent → List PairEntry → Option PairEntry
unfolding scan_entries decide
to_remove subject events [] = none
to_remove subject events (first ∷ rest) =
    decide subject events
      (scan_entries events (record { any = first; non_restart = none }) (first ∷ rest))

-- Removing the chosen entry.
unfoldable pub remove_entry : SyncLedger → Option PairEntry → SyncLedger
unfolding delete_id
remove_entry l none = l
remove_entry l (some x) = record l {
  events = erase_idx l.events x.idx;
  event_ids = delete_id x.id l.event_ids;
  version = l.version + 1;
}

-- The pruning step of `addObservationWithCompaction`.
unfoldable pub compact : SyncLedger → ObservationEventPayload → SyncLedger
unfolding pair_entries to_remove remove_entry
compact l o =
    let entries = pair_entries o 0 l.events in
    if ltb (length entries) max_observations_per_pair
    then l
    else remove_entry l (to_remove o.subject l.events entries)
