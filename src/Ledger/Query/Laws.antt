-- ===== src/Ledger/Query/Laws.antt =====
-- The queries against the operations that change the ledger.
use nara.Prelude.{
  ℕ, ◌-◌, ◌≤◌, ◌≡◌, refl, ap, inl, inr, Bool, List, [], ◌∷◌, ◌++◌, arith, leb, eqb, count_if,
  count_if-append, count_if-perm, take, drop, take-append-drop, length, Bool-cases, zero, suc,
}
use nara.Prelude.Sort.{Sorter}
use nara.Event.{SyncEvent}
use nara.Ledger.{SyncLedger, event_pruning_priority, prune_before, by_timestamp}
use nara.Ledger.Prune.{count_removable, prune_sorted, prune_unlocked}
use nara.Ledger.Query.{get_events_since, get_critical_event_count}

take-all : {A : Type 0} (n : ℕ) (xs : List A) → length xs ≤ n → take n xs ++ [] ≡ xs
take-all zero [] h = refl
take-all (suc n) [] h = refl
take-all zero (x ∷ xs) h = absurd (omega arith)
take-all (suc n) (x ∷ xs) h = ap (λ ys. x ∷ ys) (take-all n xs (omega arith))

-- The incremental read: a caller that has read up to a position which is not beyond the end gets
-- exactly the events it lacks, with the new position and the version.
get_events_since_lem :
    (l : SyncLedger) (position : ℕ)
    → position ≤ length l.events
    → (take position l.events ++ (get_events_since l position).0 ≡ l.events)
      × ((get_events_since l position).1 ≡ length l.events)
      × ((get_events_since l position).2 ≡ l.version)
unfolding get_events_since
get_events_since_lem l position within = elim (Bool-cases (leb (length l.events) position)) [
  | inl e ↦ rw e (take-all position l.events (ground arith), refl, refl)
  | inr e ↦ rw e (take-append-drop position l.events, refl, refl)
]

-- No event among the removed ones is critical.
count-removable :
    (n : ℕ) (es : List SyncEvent)
    → count_if (λ e. eqb (event_pruning_priority e) 0) (take (count_removable n es) es) ≡ 0
unfolding count_removable count_if
count-removable zero [] = refl
count-removable zero (x ∷ es) = refl
count-removable (suc n) [] = refl
count-removable (suc n) (x ∷ es) = ground (arith, count-removable n es)

-- Pruning leaves the count of critical events as it was.
prune-get_critical_event_count :
    (sorter : Sorter) (l : SyncLedger)
    → get_critical_event_count (prune_unlocked sorter l) ≡ get_critical_event_count l
unfolding get_critical_event_count prune_unlocked prune_sorted
prune-get_critical_event_count sorter l =
    let critical : SyncEvent → Bool = λ e. eqb (event_pruning_priority e) 0 in
    let sorted = sorter.sort_slice SyncEvent (prune_before l.is_unknown_nara) l.events in
    let n = count_removable (length l.events - l.max_events) sorted in
    let p =
      count_if-perm critical
        (sorter.sort_perm SyncEvent (prune_before l.is_unknown_nara) l.events) in
    elim (Bool-cases (leb (length l.events) l.max_events)) [
      | inl fits ↦ rw fits refl
      | inr over ↦ elim (Bool-cases (eqb n 0)) [
        | inl none_removed ↦ rw (over, none_removed) p
        | inr some_removed ↦
            rw (over, some_removed)
              (let q =
                  count_if-perm critical
                    (sorter.sort_perm SyncEvent by_timestamp (drop n sorted)) in
                let split = count_if-append critical (take n sorted) (drop n sorted) in
                let whole = ap (count_if critical) (take-append-drop n sorted) in
                let gone = count-removable (length l.events - l.max_events) sorted in
                omega (arith, p, q, split, whole, gone))
      ]
    ]
