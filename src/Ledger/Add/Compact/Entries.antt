-- ===== src/Ledger/Add/Compact/Entries.antt =====
-- The entries of a pair name events of the ledger, so the removal of one keeps the index.
use nara.Prelude.{
  ℕ, suc, ◌+◌, ◌≡◌, refl, inl, inr, true, false, none, some, List, [], ◌∷◌, String, arith, ltb,
  drop, get_elem?, drop-eq-cons, Bool-cases, Option-cases, of_some-eq, length,
}
use nara.Prelude.Int.{ltb_ℤ}
use nara.Event.{SyncEvent, ObservationEventPayload}
use nara.Ledger.{SyncLedger, delete_id, max_observations_per_pair}
use nara.Ledger.Invariant.{IsIndexed}
use nara.Ledger.Erase.{erase-IsIndexed}
use nara.Ledger.Add.Compact.{
  PairEntry, OldestScan, is_of_pair, pair_entries, is_non_restart, scan_entry, scan_entries,
  has_checkpoint, decide, to_remove, remove_entry, compact,
}

-- The entry's index holds an event of the pair, with the entry's ID and time.
abbrev pub NamesEvent : List SyncEvent → ObservationEventPayload → PairEntry → Type 0
NamesEvent all o x =
    (e : SyncEvent) × (get_elem? all x.idx ≡ some e)
    × (e.id ≡ x.id)
    × (e.timestamp ≡ x.ts)
    × (is_of_pair o e ≡ true)

abbrev pub AllName : List SyncEvent → ObservationEventPayload → List PairEntry → Type 0
AllName all o [] = Unit
AllName all o (x ∷ xs) = NamesEvent all o x × AllName all o xs

pub pair_entries-AllName :
    (o : ObservationEventPayload) (all : List SyncEvent) (i : ℕ) (es : List SyncEvent)
    → drop i all ≡ es
    → AllName all o (pair_entries o i es)
unfolding pair_entries
pair_entries-AllName o all i [] d = tt
pair_entries-AllName o all i (e ∷ es) d =
    let r = drop-eq-cons all i e es d in
    let rest = pair_entries-AllName o all (suc i) es r.1 in
    elim (Bool-cases (is_of_pair o e)) [
      | inl yes_pair ↦ rw yes_pair ((e, r.0, refl, refl, yes_pair), rest)
      | inr other ↦ rw other rest
    ]

-- What the scan holds comes from the entries: `P` is any property of them.
abbrev Holds : (PairEntry → Type 0) → OldestScan → Type 0
Holds P s = P s.any × ((x : PairEntry) → s.non_restart ≡ some x → P x)

scan_entry-Holds :
    (P : PairEntry → Type 0) (all : List SyncEvent) (s : OldestScan) (x : PairEntry)
    → P x
    → Holds P s
    → Holds P (scan_entry all s x)
unfolding scan_entry
scan_entry-Holds P all s x px h = (
  elim (Bool-cases (ltb_ℤ x.ts s.any.ts)) [ inl e ↦ rw e px | inr e ↦ rw e h.0 ],
  λ y. elim (Bool-cases (is_non_restart (get_elem? all x.idx))) [
    | inr e ↦ rw e (h.1 y)
    | inl e ↦ rw e elim (Option-cases s.non_restart) [
      | inl n ↦ rw n (λ q. of_some-eq P q px)
      | inr (z, n) ↦ rw n elim (Bool-cases (ltb_ℤ x.ts z.ts)) [
        | inl o ↦ rw o (λ q. of_some-eq P q px)
        | inr o ↦ rw o (λ q. of_some-eq P q (h.1 z n))
      ]
    ]
  ],
)

scan_entries-Holds :
    (P : PairEntry → Type 0) (all : List SyncEvent) (o : ObservationEventPayload) (s : OldestScan)
    (xs : List PairEntry)
    → ((x : PairEntry) → NamesEvent all o x → P x)
    → AllName all o xs
    → Holds P s
    → Holds P (scan_entries all s xs)
unfolding scan_entries
scan_entries-Holds P all o s [] f n h = h
scan_entries-Holds P all o s (x ∷ xs) f n h =
    scan_entries-Holds P all o (scan_entry all s x) xs f n.1
      (scan_entry-Holds P all s x (f x n.0) h)

-- The entry that is chosen names an event of the pair.
pub to_remove-NamesEvent :
    (subject : String) (all : List SyncEvent) (o : ObservationEventPayload) (xs : List PairEntry)
    (x : PairEntry)
    → AllName all o xs
    → to_remove subject all xs ≡ some x
    → NamesEvent all o x
unfolding to_remove decide
to_remove-NamesEvent subject all o [] x n h = absurd (cc)
to_remove-NamesEvent subject all o (first ∷ rest) x n h =
    let start : OldestScan = record { any = first; non_restart = none } in
    let s = scan_entries all start (first ∷ rest) in
    let ok =
      scan_entries-Holds (NamesEvent all o) all o start (first ∷ rest) (λ y m. m) n
        (n.0, λ y q. absurd (cc)) in
    elim (Option-cases s.non_restart) [
      | inr (y, e) ↦ of_some-eq (NamesEvent all o) (rw e at h) (ok.1 y e)
      | inl e ↦ elim (Bool-cases (has_checkpoint subject all)) [
        | inl c ↦ of_some-eq (NamesEvent all o) (rw (e, c) at h) ok.0
        | inr c ↦ absurd (cc (rw (e, c) at h))
      ]
    ]

-- The compaction keeps the invariant.
pub compact-IsIndexed :
    (l : SyncLedger) (o : ObservationEventPayload) → IsIndexed l → IsIndexed (compact l o)
unfolding compact
compact-IsIndexed l o v =
    elim (Bool-cases (ltb (length (pair_entries o 0 l.events)) max_observations_per_pair)) [
      | inl few ↦ rw few v
      | inr full ↦
          rw full elim (Option-cases (to_remove o.subject l.events (pair_entries o 0 l.events))) [
            | inl e ↦ rw e v
            | inr (x, e) ↦
                let names = pair_entries-AllName o l.events 0 l.events refl in
                let (y, at, same, _, _) = to_remove-NamesEvent o.subject l.events o _ x names e in
                rw e (erase-IsIndexed l x.idx y x.id (l.version + 1) at same v)
          ]
    ]

-- The compaction takes no ID into the index.
pub compact-fresh :
    (l : SyncLedger) (o : ObservationEventPayload) (k : String)
    → l.event_ids k ≡ false
    → (compact l o).event_ids k ≡ false
unfolding compact remove_entry delete_id
compact-fresh l o k fresh = ground arith
