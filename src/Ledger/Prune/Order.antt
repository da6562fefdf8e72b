-- ===== src/Ledger/Prune/Order.antt =====
-- Which events pruning removes.
use mathlib.Core.Bool.{Bool-set}
use mathlib.Core.List.{
  mem-append, mem-append_right, Pairwise-append, not-mem-nil, mem-cons, Mem-prop,
}
use mathlib.Core.HLevel.{⊥_prop}
use mathlib.Core.List.Perm
use mathlib.Core.Logic.Or
use nara.Prelude.{
  ℕ, zero, suc, ◌-◌, ◌≡◌, sym, ap, subst, inl, inr, Bool, false, Option, List, [], ◌∷◌, Mem, String,
  leb, eqb, take, drop, arith, length, Bool-cases, take-append-drop,
}
use nara.Prelude.Sort.{Sorter, IsStrictWeak, IsSorted}
use nara.Event.{SyncEvent}
use nara.Ledger.{SyncLedger, prune_before, by_timestamp, event_pruning_priority}
use nara.Ledger.Prune.{count_removable, prune_sorted, prune_unlocked}

pub by_timestamp-IsStrictWeak : IsStrictWeak SyncEvent by_timestamp
unfolding by_timestamp
by_timestamp-IsStrictWeak = record {
  asym = λ x y h. ground arith;
  neg_trans = λ x y z h k. ground arith;
}

prune_before-IsStrictWeak : (u : Option (String → Bool)) → IsStrictWeak SyncEvent (prune_before u)
unfolding prune_before
prune_before-IsStrictWeak u = record {
  asym = λ x y h. ground arith;
  neg_trans = λ x y z h k. ground arith;
}

-- The events that are counted for removal are not critical.
take-count_removable :
    (n : ℕ) (es : List SyncEvent) (e : SyncEvent)
    → event_pruning_priority e ≡ 0
    → ¬ Mem e (take (count_removable n es) es)
unfolding count_removable
take-count_removable zero es e p m = not-mem-nil m
take-count_removable (suc n) [] e p m = not-mem-nil m
take-count_removable (suc n) (x ∷ xs) e p m = elim (Bool-cases (eqb (event_pruning_priority x) 0)) [
  | inl c ↦ not-mem-nil (rw c at m)
  | inr c ↦
      Or.elim ⊥_prop (mem-cons.0 (rw c at m)) (λ q. ground (arith, ap event_pruning_priority q))
        (take-count_removable n xs e p)
]

module _ (sorter : Sorter) where
  open sorter use {sort_slice, sort_perm, sort_sorted}

  -- `kept` of the events are left after a removal of the first `n` of `sorted`.
  mem-drop :
      (n : ℕ) (sorted : List SyncEvent) (e : SyncEvent)
      → Mem e sorted
      → ¬ Mem e (take n sorted)
      → Mem e (drop n sorted)
  mem-drop n sorted e m out =
      Or.elim Mem-prop (mem-append.0 (subst (Mem e) (sym (take-append-drop n sorted)) m))
        (λ q. absurd (out q)) (λ q. q)

  mem-take :
      (n : ℕ) (sorted : List SyncEvent) (e : SyncEvent)
      → Mem e sorted
      → ¬ Mem e (drop n sorted)
      → Mem e (take n sorted)
  mem-take n sorted e m out =
      Or.elim Mem-prop (mem-append.0 (subst (Mem e) (sym (take-append-drop n sorted)) m)) (λ q. q)
        (λ q. absurd (out q))

  -- A critical event of the ledger (a checkpoint, a restart or a first sighting) is in it after
  -- pruning.
  pub prune_keeps_critical :
      (l : SyncLedger) (e : SyncEvent)
      → Mem e l.events
      → event_pruning_priority e ≡ 0
      → Mem e (prune_unlocked sorter l).events
  unfolding prune_unlocked prune_sorted
  prune_keeps_critical l e m critical =
      let sorted = sort_slice SyncEvent (prune_before l.is_unknown_nara) l.events in
      let n = count_removable (length l.events - l.max_events) sorted in
      let at : Mem e sorted = (Perm.mem_iff (sort_perm _ _ l.events)).1 m in
      elim (Bool-cases (leb (length l.events) l.max_events)) [
        | inl fits ↦ rw fits m
        | inr over ↦ elim (Bool-cases (eqb n 0)) [
          | inl none_removed ↦ rw (over, none_removed) at
          | inr some_removed ↦
              rw (over, some_removed)
                ((Perm.mem_iff (sort_perm SyncEvent by_timestamp (drop n sorted))).1
                  (mem-drop n sorted e at (take-count_removable _ sorted e critical)))
        ]
      ]

  -- Pruning adds nothing, and of two events of which it removes the first and keeps the second, the
  -- second is not before the first in the order of pruning.
  prune_order :
      (l : SyncLedger) (e : SyncEvent)
      → Mem e (prune_unlocked sorter l).events
      → Mem e l.events
        × ((x : SyncEvent)
            → Mem x l.events
            → ¬ Mem x (prune_unlocked sorter l).events
            → prune_before l.is_unknown_nara e x ≡ false)
  unfolding prune_unlocked prune_sorted
  prune_order l e =
      let sorted = sort_slice SyncEvent (prune_before l.is_unknown_nara) l.events in
      let p = sort_perm SyncEvent (prune_before l.is_unknown_nara) l.events in
      let n = count_removable (length l.events - l.max_events) sorted in
      elim (Bool-cases (leb (length l.events) l.max_events)) [
        | inl fits ↦ rw fits λ m. (m, λ x mx out. absurd (out mx))
        | inr over ↦ elim (Bool-cases (eqb n 0)) [
          | inl none_removed ↦
              rw (over, none_removed)
                λ m. ((Perm.mem_iff p).0 m, λ x mx out. absurd (out ((Perm.mem_iff p).1 mx)))
          | inr some_removed ↦
              rw (over, some_removed)
                λ m.
                  let q = sort_perm SyncEvent by_timestamp (drop n sorted) in
                  let kept : Mem e (drop n sorted) = (Perm.mem_iff q).0 m in
                  let parts = (Pairwise-append (λ a b. Bool-set _ _)).0 (
                    subst (IsSorted (prune_before l.is_unknown_nara))
                      (sym (take-append-drop n sorted))
                      (sort_sorted SyncEvent (prune_before l.is_unknown_nara) l.events
                        (prune_before-IsStrictWeak l.is_unknown_nara))) in
                  (
                    (Perm.mem_iff p).0 (
                        subst (Mem e) (take-append-drop n sorted)
                          (mem-append_right (take n sorted) kept)),
                    λ x mx out.
                        parts.2 x
                          (mem-take n sorted x ((Perm.mem_iff p).1 mx)
                            (λ d. out ((Perm.mem_iff q).1 d)))
                          e kept,
                  )
        ]
      ]
