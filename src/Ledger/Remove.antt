-- ===== src/Ledger/Remove.antt =====
-- `RemoveEventsFor` of sync_ledger.go: forgetting every event that involves a nara.
use nara.Prelude.{
  ℕ, ◌+◌, ◌≡◌, sym, inl, inr, Bool, not, String, arith, ltb, keep, length-keep, count_if-not,
  keep-split_perm, keep-none, length, Bool-cases, if◌then◌else◌,
}
use nara.Event.{SyncEvent}
use nara.Ledger.{SyncLedger, delete_all, event_involves_nara}
use nara.Ledger.Invariant.{IsIndexed, split-IsIndexed}

-- `RemoveEventsFor`
unfoldable pub remove_events_for : SyncLedger → String → SyncLedger × ℕ
unfolding delete_all
remove_events_for l name =
    let kept = keep (λ e. not (event_involves_nara e name)) l.events in
    let gone = keep (λ e. event_involves_nara e name) l.events in
    let ids = delete_all gone l.event_ids in
    if ltb 0 (length gone)
    then (record l { events = kept; event_ids = ids; version = l.version + 1 }, length gone)
    else (record l { event_ids = ids }, 0)

-- The events that stay, whether or not the list is replaced.
pub events-remove_events_for :
    (l : SyncLedger) (name : String)
    → (remove_events_for l name).0.events ≡ keep (λ e. not (event_involves_nara e name)) l.events
unfolding remove_events_for
events-remove_events_for l name =
    let p : SyncEvent → Bool = λ e. event_involves_nara e name in
    elim (Bool-cases (ltb 0 (length (keep p l.events)))) [
      | inl some_gone ↦ rw some_gone
      | inr none_gone ↦
          rw none_gone (sym (keep-none p l.events (ground (arith, length-keep p l.events))))
    ]

-- `RemoveEventsFor`: exactly the stored events that do not involve the nara stay, in their order; the answer is the
-- number of the others, and the version changes exactly when there are any.
remove_events_for_lem :
    (l : SyncLedger) (name : String)
    → ((remove_events_for l name).0.events ≡ keep (λ e. not (event_involves_nara e name)) l.events)
      × ((remove_events_for l name).1 + length (remove_events_for l name).0.events
          ≡ length l.events)
      × ((remove_events_for l name).0.version
          ≡ (if ltb 0 (remove_events_for l name).1 then l.version + 1 else l.version))
unfolding remove_events_for
remove_events_for_lem l name =
    let p : SyncEvent → Bool = λ e. event_involves_nara e name in
    let parts = count_if-not p l.events in
    (
      unfold remove_events_for in events-remove_events_for l name,
      ground (
        arith,
        parts,
        length-keep p l.events,
        length-keep (λ e. not (event_involves_nara e name)) l.events,
      ),
      ground arith,
    )

-- `RemoveEventsFor` keeps an exact index, distinct IDs and valid events.
pub remove_events_for-IsIndexed :
    (l : SyncLedger) (name : String) → IsIndexed l → IsIndexed (remove_events_for l name).0
unfolding remove_events_for
remove_events_for-IsIndexed l name v =
    let p : SyncEvent → Bool = λ e. event_involves_nara e name in
    let gone = keep p l.events in
    let kept = keep (λ e. not (p e)) l.events in
    elim (Bool-cases (ltb 0 (length gone))) [
      | inl some_gone ↦
          rw some_gone (split-IsIndexed l gone kept (l.version + 1) (keep-split_perm p l.events) v)
      | inr none_gone ↦
          let same = keep-none p l.events (ground (arith, length-keep p l.events)) in
          rw none_gone
            (rw same at (split-IsIndexed l gone kept l.version (keep-split_perm p l.events) v))
    ]
