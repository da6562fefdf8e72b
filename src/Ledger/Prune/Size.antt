-- ===== src/Ledger/Prune/Size.antt =====
-- How far pruning gets.
use mathlib.Core.List.{mem-cons_self, mem-cons_of_mem}
use mathlib.Core.List.Perm
use nara.Prelude.{
  ℕ, zero, suc, ◌-◌, ◌≤◌, ◌<◌, ◌≡◌, ◌≢◌, refl, inl, inr, List, [], ◌∷◌, Mem, leb, drop, arith,
  length, length-perm, length-drop, Bool-cases, if◌then◌else◌, lt→leb,
}
use nara.Prelude.Sort.{Sorter}
use nara.Event.{SyncEvent}
use nara.Ledger.{SyncLedger, prune_before, by_timestamp, event_pruning_priority}
use nara.Ledger.Prune.{count_removable, prune_sorted, prune_unlocked}

count_removable-eq :
    (n : ℕ) (es : List SyncEvent)
    → ((e : SyncEvent) → Mem e es → event_pruning_priority e ≢ 0)
    → n ≤ length es
    → count_removable n es ≡ n
unfolding count_removable
count_removable-eq zero es h fits = refl
count_removable-eq (suc n) [] h fits = absurd (omega arith)
count_removable-eq (suc n) (e ∷ es) h fits = ground (
  arith,
  h e mem-cons_self,
  count_removable-eq n es (λ x m. h x (mem-cons_of_mem e m)) (omega arith),
)

count_removable-zero :
    (n : ℕ) (es : List SyncEvent)
    → ((e : SyncEvent) → Mem e es → event_pruning_priority e ≡ 0)
    → count_removable n es ≡ 0
unfolding count_removable
count_removable-zero zero es h = refl
count_removable-zero (suc n) [] h = refl
count_removable-zero (suc n) (e ∷ es) h = ground (arith, h e mem-cons_self)

module _ (sorter : Sorter) where
  open sorter use {sort_slice, sort_perm}

  -- Where no event is critical, a ledger over its limit is pruned to exactly the limit, and any
  -- other keeps its length.
  prune_size :
      (l : SyncLedger)
      → ((e : SyncEvent) → Mem e l.events → event_pruning_priority e ≢ 0)
      → length (prune_unlocked sorter l).events
        ≡ (if leb (length l.events) l.max_events then length l.events else l.max_events)
  unfolding prune_unlocked prune_sorted
  prune_size l h =
      let sorted = sort_slice SyncEvent (prune_before l.is_unknown_nara) l.events in
      let p = sort_perm SyncEvent (prune_before l.is_unknown_nara) l.events in
      let over = length l.events - l.max_events in
      let counted =
        count_removable-eq over sorted (λ e m. h e ((Perm.mem_iff p).0 m))
          (omega (arith, length-perm p)) in
      elim (Bool-cases (leb (length l.events) l.max_events)) [
        | inl fits ↦ rw fits
        | inr full ↦
            rw (full, counted)
              (ground (
                arith,
                length-perm p,
                length-drop over sorted,
                length-perm (sort_perm SyncEvent by_timestamp (drop over sorted)),
              ))
      ]

  -- Where every event is critical, pruning a ledger over its limit removes nothing, but it leaves
  -- the events in the order of pruning, under the same version.
  pub prune_critical :
      (l : SyncLedger)
      → l.max_events < length l.events
      → ((e : SyncEvent) → Mem e l.events → event_pruning_priority e ≡ 0)
      → prune_unlocked sorter l
        ≡ record l { events = sort_slice SyncEvent (prune_before l.is_unknown_nara) l.events }
  unfolding prune_unlocked prune_sorted
  prune_critical l full h =
      let p = sort_perm SyncEvent (prune_before l.is_unknown_nara) l.events in
      let over = lt→leb l.max_events (length l.events) full in
      rw (over, count_removable-zero _ _ (λ e m. h e ((Perm.mem_iff p).0 m)))
