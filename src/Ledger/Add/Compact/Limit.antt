-- ===== src/Ledger/Add/Compact/Limit.antt =====
-- The limit of observations for a pair: what the compaction removes, and when it removes nothing.
use nara.Prelude.{
  ℕ, suc, ◌+◌, ◌≤◌, ◌≡◌, refl, inl, inr, true, false, none, some, List, [], ◌∷◌, String, arith, ltb,
  length, count_if, count_if-erase_idx, length-erase_idx, Bool-cases, Option-cases, le→ltb,
  get_elem?, mem-get_elem?, Mem,
}
use nara.Event.{SyncEvent, ObservationEventPayload}
use nara.Ledger.{SyncLedger, max_observations_per_pair}
use nara.Ledger.Add.Compact.{
  PairEntry, OldestScan, is_of_pair, pair_entries, is_non_restart, scan_entry, scan_entries,
  has_checkpoint, decide, to_remove, remove_entry, compact,
}
use nara.Ledger.Add.Compact.Entries.{AllName, pair_entries-AllName, to_remove-NamesEvent}

-- The number of a pair's observations.
abbrev pub pair_count : ObservationEventPayload → List SyncEvent → ℕ
pair_count o = count_if (is_of_pair o)

pub length-pair_entries :
    (o : ObservationEventPayload) (i : ℕ) (es : List SyncEvent)
    → length (pair_entries o i es) ≡ pair_count o es
unfolding pair_entries count_if
length-pair_entries o i [] = refl
length-pair_entries o i (e ∷ es) = ground (arith, length-pair_entries o (suc i) es)

-- With a checkpoint of the subject, some entry is always chosen.
to_remove-checkpoint :
    (subject : String) (all : List SyncEvent) (xs : List PairEntry)
    → has_checkpoint subject all ≡ true
    → 1 ≤ length xs
    → (x : PairEntry) × (to_remove subject all xs ≡ some x)
unfolding to_remove decide
to_remove-checkpoint subject all [] c h = absurd (omega arith)
to_remove-checkpoint subject all (first ∷ rest) c h =
    let start : OldestScan = record { any = first; non_restart = none } in
    let s = scan_entries all start (first ∷ rest) in
    elim (Option-cases s.non_restart) [ inr (y, e) ↦ (y, rw e) | inl e ↦ (s.any, rw (e, c)) ]

-- Once the pair has the most observations allowed and the subject has a checkpoint, the compaction
-- removes exactly one event, which is of the pair, and takes a new version.
pub compact_full :
    (l : SyncLedger) (o : ObservationEventPayload)
    → has_checkpoint o.subject l.events ≡ true
    → max_observations_per_pair ≤ pair_count o l.events
    → (length l.events ≡ length (compact l o).events + 1)
      × (pair_count o l.events ≡ pair_count o (compact l o).events + 1)
      × ((compact l o).version ≡ l.version + 1)
unfolding compact remove_entry
compact_full l o c full =
    let xs = pair_entries o 0 l.events in
    let len = length-pair_entries o 0 l.events in
    let (x, chosen) = to_remove-checkpoint o.subject l.events xs c (omega arith) in
    let (e, at, _, _, pair) =
      to_remove-NamesEvent o.subject l.events o xs x
        (pair_entries-AllName o l.events 0 l.events refl) chosen in
    let enough = le→ltb (length xs) max_observations_per_pair (omega arith) in
    rw (enough, chosen)
      (
        length-erase_idx l.events x.idx e at,
        ground (arith, count_if-erase_idx (is_of_pair o) l.events x.idx e at),
        refl,
      )

-- Below the limit nothing is removed.
pub compact_room :
    (l : SyncLedger) (o : ObservationEventPayload)
    → suc (pair_count o l.events) ≤ max_observations_per_pair
    → compact l o ≡ l
unfolding compact
compact_room l o few = ground (arith, length-pair_entries o 0 l.events)

-- `xs` are entries of restarts only.
abbrev AllRestarts : List SyncEvent → List PairEntry → Type 0
AllRestarts all [] = Unit
AllRestarts all (x ∷ xs) = (is_non_restart (get_elem? all x.idx) ≡ false) × AllRestarts all xs

scan_entries-restarts :
    (all : List SyncEvent) (s : OldestScan) (xs : List PairEntry)
    → AllRestarts all xs
    → s.non_restart ≡ none
    → (scan_entries all s xs).non_restart ≡ none
unfolding scan_entries scan_entry
scan_entries-restarts all s [] r n = n
scan_entries-restarts all s (x ∷ xs) r n =
    scan_entries-restarts all (scan_entry all s x) xs r.1 (rw r.0 n)

AllName-AllRestarts :
    (all : List SyncEvent) (o : ObservationEventPayload) (xs : List PairEntry)
    → ((e : SyncEvent) → Mem e all → is_of_pair o e ≡ true → is_non_restart (some e) ≡ false)
    → AllName all o xs
    → AllRestarts all xs
AllName-AllRestarts all o [] r n = tt
AllName-AllRestarts all o (x ∷ xs) r ((e, at, _, _, pair), n) =
    (rw at (r e (mem-get_elem? all x.idx e at) pair), AllName-AllRestarts all o xs r n)

to_remove-restarts :
    (subject : String) (all : List SyncEvent) (xs : List PairEntry)
    → has_checkpoint subject all ≡ false
    → AllRestarts all xs
    → to_remove subject all xs ≡ none
unfolding to_remove decide
to_remove-restarts subject all [] c r = refl
to_remove-restarts subject all (first ∷ rest) c r = rw (
  scan_entries-restarts all (record { any = first; non_restart = none }) (first ∷ rest) r refl,
  c,
)

-- Where the subject has no checkpoint and every observation of the pair is a restart, the compaction
-- changes nothing, however many there are.
pub compact_history :
    (l : SyncLedger) (o : ObservationEventPayload)
    → has_checkpoint o.subject l.events ≡ false
    → ((e : SyncEvent) → Mem e l.events → is_of_pair o e ≡ true → is_non_restart (some e) ≡ false)
    → compact l o ≡ l
unfolding compact remove_entry
compact_history l o c r =
    let xs = pair_entries o 0 l.events in
    let names = pair_entries-AllName o l.events 0 l.events refl in
    let kept =
      to_remove-restarts o.subject l.events xs c (AllName-AllRestarts l.events o xs r names) in
    elim (Bool-cases (ltb (length xs) max_observations_per_pair)) [
      | inl few ↦ rw few
      | inr full ↦ rw (full, kept)
    ]
