-- ===== src/Ledger/Prune/Index.antt =====
-- Pruning keeps the invariant of the ledger.
use mathlib.Core.List.Perm
use nara.Prelude.{
  ◌+◌, ◌-◌, inl, inr, List, [], Perm, leb, eqb, take, drop, length, Bool-cases,
  take-append-drop_perm,
}
use nara.Prelude.Sort.{Sorter}
use nara.Event.{SyncEvent}
use nara.Ledger.{SyncLedger, delete_all, prune_before, by_timestamp}
use nara.Ledger.Invariant.{IsIndexed, split-IsIndexed}
use nara.Ledger.Prune.{count_removable, prune_sorted, prune_unlocked}

module _ (sorter : Sorter) where
  open sorter use {sort_slice, sort_perm}

  prune_sorted-IsIndexed :
      (l : SyncLedger) (sorted : List SyncEvent)
      → Perm sorted l.events
      → IsIndexed l
      → IsIndexed (prune_sorted sorter l sorted)
  unfolding prune_sorted
  prune_sorted-IsIndexed l sorted p v =
      let n = count_removable (length l.events - l.max_events) sorted in
      elim (Bool-cases (eqb n 0)) [
        | inl e ↦ rw e (unfold delete_all in split-IsIndexed l [] sorted l.version (Perm.symm p) v)
        | inr e ↦ rw e (
            split-IsIndexed l (take n sorted) (sort_slice SyncEvent by_timestamp (drop n sorted))
              (l.version + 1) (take-append-drop_perm n p (sort_perm SyncEvent by_timestamp _)) v)
      ]

  pub prune_unlocked-IsIndexed :
      (l : SyncLedger) → IsIndexed l → IsIndexed (prune_unlocked sorter l)
  unfolding prune_unlocked
  prune_unlocked-IsIndexed l v = elim (Bool-cases (leb (length l.events) l.max_events)) [
    | inl e ↦ rw e v
    | inr e ↦ rw e (
        prune_sorted-IsIndexed l _ (sort_perm SyncEvent (prune_before l.is_unknown_nara) l.events)
          v)
  ]
