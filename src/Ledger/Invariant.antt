-- ===== src/Ledger/Invariant.antt =====
-- What holds of every ledger that the operations build: the index is exact, no two stored events
-- have one ID, and every stored event is valid.
use mathlib.Core.Bool.{Bool-set}
use mathlib.Core.List.{Permᴰ}
use mathlib.Core.HLevel.{×_prop, Unit-prop}
use nara.Prelude.{
  ℕ, ◌≡◌, refl, sym, ap₂, ◌∙◌, subst₂, Bool, true, false, not, ◌&&◌, ◌||◌, some, List, [], ◌∷◌,
  ◌++◌, String, ◌==◌, eq_iff, arith, Perm, ∥∥₁_elim, subst,
}
use nara.Event.{SyncEvent}
use nara.Event.Valid.{is_valid}
use nara.Ledger.{SyncLedger, delete_id, delete_all, store_event, new_sync_ledger}

unfoldable pub has_id : String → List SyncEvent → Bool
has_id k [] = false
has_id k (e ∷ es) = e.id == k || has_id k es

-- No two events have one ID.
abbrev pub DistinctIds : List SyncEvent → Type 0
DistinctIds [] = Unit
DistinctIds (e ∷ es) = (has_id e.id es ≡ false) × DistinctIds es

abbrev pub AllValid : List SyncEvent → Type 0
AllValid [] = Unit
AllValid (e ∷ es) = (is_valid e ≡ some true) × AllValid es

pub record IsIndexed (l : SyncLedger) : Type 0 where
  pub index : (k : String) → l.event_ids k ≡ has_id k l.events
  pub distinct : DistinctIds l.events
  pub valid : AllValid l.events

pub new_sync_ledger-IsIndexed : (max : ℕ) → IsIndexed (new_sync_ledger max)
unfolding new_sync_ledger has_id
new_sync_ledger-IsIndexed max = record { index = λ k. refl; distinct = tt; valid = tt }

has_id-append :
    (k : String) (xs ys : List SyncEvent) → has_id k (xs ++ ys) ≡ (has_id k xs || has_id k ys)
unfolding has_id
has_id-append k [] ys = refl
has_id-append k (x ∷ xs) ys = ground (arith, has_id-append k xs ys)

DistinctIds-append :
    (xs : List SyncEvent) (e : SyncEvent)
    → DistinctIds xs
    → has_id e.id xs ≡ false
    → DistinctIds (xs ++ e ∷ [])
unfolding has_id
DistinctIds-append [] e d h = (refl, tt)
DistinctIds-append (x ∷ xs) e d h = (
  rw (has_id-append x.id xs (e ∷ [])) (ground (arith, eq_iff x.id e.id, eq_iff e.id x.id, d.0)),
  DistinctIds-append xs e d.1 (ground arith),
)

AllValid-append : (xs ys : List SyncEvent) → AllValid xs → AllValid ys → AllValid (xs ++ ys)
AllValid-append [] ys v w = w
AllValid-append (x ∷ xs) ys v w = (v.0, AllValid-append xs ys v.1 w)

AllValid-append_right : (xs ys : List SyncEvent) → AllValid (xs ++ ys) → AllValid ys
AllValid-append_right [] ys v = v
AllValid-append_right (x ∷ xs) ys v = AllValid-append_right xs ys v.1

DistinctIds-append_right : (xs ys : List SyncEvent) → DistinctIds (xs ++ ys) → DistinctIds ys
DistinctIds-append_right [] ys d = d
DistinctIds-append_right (x ∷ xs) ys d = DistinctIds-append_right xs ys d.1

-- Of distinct events split in two parts, an ID is in the second exactly when it is in the whole and
-- not in the first.
has_id-right :
    (k : String) (xs ys : List SyncEvent)
    → DistinctIds (xs ++ ys)
    → has_id k ys ≡ (not (has_id k xs) && has_id k (xs ++ ys))
unfolding has_id
has_id-right k [] ys d = refl
has_id-right k (x ∷ xs) ys d = ground (
  arith,
  has_id-right k xs ys d.1,
  has_id-append k xs ys,
  has_id-append x.id xs ys,
  d.0,
  eq_iff x.id k,
)

delete_all_lem :
    (k : String) (rs : List SyncEvent) (ids : String → Bool)
    → delete_all rs ids k ≡ (not (has_id k rs) && ids k)
unfolding delete_all has_id
delete_all_lem k [] ids = refl
delete_all_lem k (r ∷ rs) ids = rw (delete_all_lem k rs (delete_id r.id ids)) (ground arith)

has_id-swap :
    (k : String) (a b : SyncEvent) (l : List SyncEvent)
    → has_id k (a ∷ b ∷ l) ≡ has_id k (b ∷ a ∷ l)
unfolding has_id
has_id-swap k a b l = ground arith

has_id-Permᴰ : (k : String) {xs ys : List SyncEvent} → Permᴰ xs ys → has_id k xs ≡ has_id k ys
unfolding has_id
has_id-Permᴰ k Permᴰ.nil = refl
has_id-Permᴰ k (Permᴰ.cons e p) = ap₂ (λ (x : SyncEvent) r. x.id == k || r) e (has_id-Permᴰ k p)
has_id-Permᴰ k (Permᴰ.swap {a' = c} {b' = d} {l = l} e f) = rw (e, f) (has_id-swap k d c l)
has_id-Permᴰ k (Permᴰ.trans p q) = has_id-Permᴰ k p ∙ has_id-Permᴰ k q

pub has_id-perm : (k : String) {xs ys : List SyncEvent} → Perm xs ys → has_id k xs ≡ has_id k ys
has_id-perm k p = ∥∥₁_elim p (Bool-set _ _) (has_id-Permᴰ k)

DistinctIds-swap :
    (a b : SyncEvent) (l : List SyncEvent) → DistinctIds (a ∷ b ∷ l) → DistinctIds (b ∷ a ∷ l)
unfolding has_id
DistinctIds-swap a b l d =
    (ground (arith, eq_iff a.id b.id, eq_iff b.id a.id, d.0), (ground (arith, d.0), d.1.1))

DistinctIds-Permᴰ : {xs ys : List SyncEvent} → Permᴰ xs ys → DistinctIds xs → DistinctIds ys
DistinctIds-Permᴰ Permᴰ.nil d = d
DistinctIds-Permᴰ (Permᴰ.cons {a = a} {l₁ = l} e p) d = (
  sym (has_id-Permᴰ _ p) ∙ subst (λ (x : SyncEvent). has_id x.id l ≡ false) e d.0,
  DistinctIds-Permᴰ p d.1,
)
DistinctIds-Permᴰ (Permᴰ.swap {l = l} e f) d =
    DistinctIds-swap _ _ l (subst₂ (λ x y. DistinctIds (x ∷ y ∷ l)) e f d)
DistinctIds-Permᴰ (Permᴰ.trans p q) d = DistinctIds-Permᴰ q (DistinctIds-Permᴰ p d)

AllValid-Permᴰ : {xs ys : List SyncEvent} → Permᴰ xs ys → AllValid xs → AllValid ys
AllValid-Permᴰ Permᴰ.nil v = v
AllValid-Permᴰ (Permᴰ.cons e p) v =
    (subst (λ x. is_valid x ≡ some true) e v.0, AllValid-Permᴰ p v.1)
AllValid-Permᴰ (Permᴰ.swap e f) v = (
  subst (λ x. is_valid x ≡ some true) f v.1.0,
  (subst (λ x. is_valid x ≡ some true) e v.0, v.1.1),
)
AllValid-Permᴰ (Permᴰ.trans p q) v = AllValid-Permᴰ q (AllValid-Permᴰ p v)

DistinctIds-prop : (xs : List SyncEvent) → IsProp (DistinctIds xs)
DistinctIds-prop [] = Unit-prop
DistinctIds-prop (x ∷ xs) = ×_prop (Bool-set _ _) (DistinctIds-prop xs)

AllValid-prop : (xs : List SyncEvent) → IsProp (AllValid xs)
AllValid-prop [] = Unit-prop
AllValid-prop (x ∷ xs) = ×_prop (hlevel) (AllValid-prop xs)

-- The operations that remove events split the list, up to order, in the removed and the kept.
module _ (l : SyncLedger) (removed kept : List SyncEvent) where
  pub split-IsIndexed :
      (version : ℕ)
      → Perm l.events (removed ++ kept)
      → IsIndexed l
      → IsIndexed (record l {
        events = kept;
        event_ids = delete_all removed l.event_ids;
        version = version;
      })
  split-IsIndexed version p v = record {
    index = λ k.
        delete_all_lem k removed l.event_ids
        ∙ (rw (v.index k, has_id-perm k p) (sym (has_id-right k removed kept whole)));
    distinct = DistinctIds-append_right removed kept whole;
    valid =
        AllValid-append_right removed kept
          (∥∥₁_elim p (AllValid-prop (removed ++ kept)) (λ q. AllValid-Permᴰ q v.valid));
  }
    where
      whole : DistinctIds (removed ++ kept)
      whole = ∥∥₁_elim p (DistinctIds-prop (removed ++ kept)) (λ q. DistinctIds-Permᴰ q v.distinct)

-- A new valid event keeps the invariant.
pub store_event-IsIndexed :
    (l : SyncLedger) (e : SyncEvent)
    → l.event_ids e.id ≡ false
    → is_valid e ≡ some true
    → IsIndexed l
    → IsIndexed (store_event l e)
unfolding store_event has_id
store_event-IsIndexed l e fresh good v = record {
  index = λ k. rw (has_id-append k l.events (e ∷ []), ← v.index k) (ground arith);
  distinct = DistinctIds-append l.events e v.distinct (sym (v.index e.id) ∙ fresh);
  valid = AllValid-append l.events (e ∷ []) v.valid (good, tt);
}
