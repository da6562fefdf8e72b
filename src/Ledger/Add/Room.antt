-- ===== src/Ledger/Add/Room.antt =====
-- The retention of pings: the scanned entry stands in the ledger, so removing it keeps the index.
use nara.Prelude.{
  ℕ, suc, ◌+◌, ◌≡◌, refl, subst, inl, inr, true, false, Option, none, some, List, [], ◌∷◌, String,
  ◌==◌, arith, ltb, drop, get_elem?, drop-eq-cons, Bool-cases, Option-cases, of_some-eq,
}
use nara.Prelude.Int.{ℤ, ltb_ℤ, leb_ℤ}
use nara.Event.{SyncEvent, service_ping}
use nara.Ledger.{SyncLedger, delete_id, max_pings_per_target}
use nara.Ledger.Invariant.{IsIndexed}
use nara.Ledger.Erase.{erase-IsIndexed}
use nara.Ledger.Add.{
  PingScan, no_pings, is_ping_to, scan_ping, scan_pings, drop_at, limit_pings, make_room,
}

-- The scan has seen no ping, or it holds the index, the time and the ID of one.
abbrev pub FoundAt : String → List SyncEvent → Option ℕ → ℤ → String → ℕ → Type 0
FoundAt target all none ts id count = count ≡ 0
FoundAt target all (some i) ts id count =
    (x : SyncEvent) × (get_elem? all i ≡ some x)
    × (x.id ≡ id)
    × (x.timestamp ≡ ts)
    × (is_ping_to target x ≡ true)

abbrev pub Found : String → List SyncEvent → PingScan → Type 0
Found target all s = FoundAt target all s.idx s.ts s.id s.count

scan_ping-Found :
    (target : String) (all : List SyncEvent) (s : PingScan) (i : ℕ) (e : SyncEvent)
    → get_elem? all i ≡ some e
    → Found target all s
    → Found target all (scan_ping target s i e)
unfolding scan_ping
scan_ping-Found target all s i e at f = elim (Bool-cases (is_ping_to target e)) [
  | inr other ↦ rw other f
  | inl ping ↦ elim (Option-cases s.idx) [
    | inl first ↦ rw (ping, first) (e, at, refl, refl, ping)
    | inr (j, later) ↦ elim (Bool-cases (ltb_ℤ e.timestamp s.ts)) [
      | inl older ↦ rw (ping, later, older) (e, at, refl, refl, ping)
      | inr newer ↦
          rw (ping, later, newer) (subst (λ o. FoundAt target all o s.ts s.id s.count) later f)
    ]
  ]
]

pub scan_pings-Found :
    (target : String) (all : List SyncEvent) (s : PingScan) (i : ℕ) (es : List SyncEvent)
    → drop i all ≡ es
    → Found target all s
    → Found target all (scan_pings target s i es)
unfolding scan_pings
scan_pings-Found target all s i [] d f = f
scan_pings-Found target all s i (e ∷ es) d f =
    let r = drop-eq-cons all i e es d in
    scan_pings-Found target all (scan_ping target s i e) (suc i) es r.1
      (scan_ping-Found target all s i e r.0 f)

drop-Found-IsIndexed :
    (target : String) (l : SyncLedger) (s : PingScan)
    → Found target l.events s
    → ltb s.count max_pings_per_target ≡ false
    → IsIndexed l
    → IsIndexed (record l {
      events = drop_at s.idx l.events;
      event_ids = delete_id s.id l.event_ids;
      version = l.version + 1;
    })
drop-Found-IsIndexed target l s f full v = elim (Option-cases s.idx) [
  | inl e ↦
      let zero_count = subst (λ o. FoundAt target l.events o s.ts s.id s.count) e f in
      absurd (ground arith)
  | inr (i, e) ↦
      let (x, at, same, _, _) = subst (λ o. FoundAt target l.events o s.ts s.id s.count) e f in
      rw e (erase-IsIndexed l i x s.id (l.version + 1) at same v)
]

-- Making room keeps the invariant.
limit_pings-IsIndexed :
    (target : String) (l : SyncLedger) (timestamp : ℤ) (s : PingScan) (roomy : SyncLedger)
    → Found target l.events s
    → limit_pings l timestamp s ≡ some roomy
    → IsIndexed l
    → IsIndexed roomy
unfolding limit_pings
limit_pings-IsIndexed target l timestamp s roomy f h v =
    elim (Bool-cases (ltb s.count max_pings_per_target)) [
      | inl few ↦ of_some-eq IsIndexed (rw few at h) v
      | inr full ↦ elim (Bool-cases (leb_ℤ timestamp s.ts)) [
        | inl old ↦ absurd (cc (rw (full, old) at h))
        | inr new ↦
            of_some-eq IsIndexed (rw (full, new) at h) (drop-Found-IsIndexed target l s f full v)
      ]
    ]

pub make_room-IsIndexed :
    (l : SyncLedger) (e : SyncEvent) (roomy : SyncLedger)
    → make_room l e ≡ some roomy
    → IsIndexed l
    → IsIndexed roomy
unfolding make_room
make_room-IsIndexed l e roomy h v = elim (Bool-cases (e.service == service_ping)) [
  | inr other ↦ of_some-eq IsIndexed (rw other at h) v
  | inl ping ↦ elim (Option-cases e.ping) [
    | inl none_there ↦ of_some-eq IsIndexed (rw (ping, none_there) at h) v
    | inr (p, there) ↦
        limit_pings-IsIndexed p.target l e.timestamp (scan_pings p.target no_pings 0 l.events) roomy
          (scan_pings-Found p.target l.events no_pings 0 l.events refl refl) (rw (ping, there) at h)
          v
  ]
]

-- Making room takes no ID into the index.
pub make_room-fresh :
    (l : SyncLedger) (e : SyncEvent) (roomy : SyncLedger) (k : String)
    → make_room l e ≡ some roomy
    → l.event_ids k ≡ false
    → roomy.event_ids k ≡ false
unfolding make_room limit_pings delete_id
make_room-fresh l e roomy k h fresh = ground arith
