-- ===== src/Ledger/Erase.antt =====
-- Removing one event by its index, and its ID from the index of IDs.
use nara.Prelude.{ℕ, ◌≡◌, subst, some, [], ◌∷◌, String, get_elem?, erase_idx, perm-erase_idx}
use nara.Event.{SyncEvent}
use nara.Ledger.{SyncLedger, delete_id, delete_all}
use nara.Ledger.Invariant.{IsIndexed, split-IsIndexed}

-- Removing the event at an index that holds the ID keeps the invariant.
pub erase-IsIndexed :
    (l : SyncLedger) (i : ℕ) (x : SyncEvent) (id : String) (version : ℕ)
    → get_elem? l.events i ≡ some x
    → x.id ≡ id
    → IsIndexed l
    → IsIndexed (record l {
      events = erase_idx l.events i;
      event_ids = delete_id id l.event_ids;
      version = version;
    })
erase-IsIndexed l i x id version at same v =
    subst
      (λ k. IsIndexed (record l {
        events = erase_idx l.events i;
        event_ids = delete_id k l.event_ids;
        version = version;
      }))
      same
      (unfold delete_all in
        split-IsIndexed l (x ∷ []) (erase_idx l.events i) version (perm-erase_idx l.events i x at)
          v)
