-- ===== src/Ledger/Prune.antt =====
-- `pruneUnlocked` and `Prune` of sync_ledger.go: giving up events when the ledger is over its size.
-- The sort is Go's `sort.Slice`.
pub mod Index
pub mod Size
pub mod Order
use nara.Prelude.{
  ℕ, zero, suc, ◌+◌, ◌-◌, Bool, true, false, List, [], ◌∷◌, leb, eqb, take, drop, length,
  if◌then◌else◌,
}
use nara.Prelude.Sort.{Sorter}
use nara.Event.{SyncEvent}
use nara.Ledger.{SyncLedger, delete_all, event_pruning_priority, prune_before, by_timestamp}

-- The loop that counts the events to remove and stops at the first critical one.
unfoldable pub count_removable : ℕ → List SyncEvent → ℕ
count_removable zero es = 0
count_removable (suc n) [] = 0
count_removable (suc n) (e ∷ es) =
    let rest = count_removable n es in if eqb (event_pruning_priority e) 0 then 0 else suc rest

module _ (sorter : Sorter) where
  open sorter use {sort_slice}

  -- The body of `pruneUnlocked` after the sort.
  unfoldable pub prune_sorted : SyncLedger → List SyncEvent → SyncLedger
  unfolding count_removable
  prune_sorted l sorted =
      let n = count_removable (length l.events - l.max_events) sorted in
      if eqb n 0 then record l { events = sorted } else record l {
        events = sort_slice SyncEvent by_timestamp (drop n sorted);
        event_ids = delete_all (take n sorted) l.event_ids;
        version = l.version + 1;
      }

  -- `pruneUnlocked`
  unfoldable pub prune_unlocked : SyncLedger → SyncLedger
  unfolding prune_sorted
  prune_unlocked l =
      if leb (length l.events) l.max_events
      then l
      else prune_sorted l (sort_slice SyncEvent (prune_before l.is_unknown_nara) l.events)
