-- ===== src/Opinion/Refine.antt =====
-- The records of a subject are those of the events that the projection has read, in the order in
-- which it read them.
use mathlib.Core.List.{append-nil, append_assoc}
use nara.Prelude.{
  ◌≡◌, inl, inr, refl, sym, ap, ◌∙◌, none, some, List, [], ◌∷◌, ◌++◌, String, ◌==◌, eq_iff, arith,
  Bool-cases, Option-cases, Perm, if◌then◌else◌,
}
use nara.Prelude.Int.{ℤ}
use nara.Prelude.Sort.{Sorter}
use nara.Prelude.Dict.{Dict, lookup_or, lookup_or-insert}
use nara.Event.{SyncEvent}
use nara.Ledger.{SyncLedger}
use nara.Projection.{Projection}
use nara.Projection.CatchUp.{fold_events}
use nara.Projection.Reading.{Reading, Reading-HasRead}
use nara.Opinion.{
  ObservationRecord, tracked, record_of, record_observation, opinion_of, derive_opinion,
  get_observations_for,
}

-- The records of the tracked events about a subject, in the order of the events.
unfoldable pub records_about : String → List SyncEvent → List ObservationRecord
records_about subject [] = []
records_about subject (e ∷ es) =
    let rest = records_about subject es in
    elim (tracked e) [
      | none ↦ rest
      | some o ↦ if o.subject == subject then record_of o ∷ rest else rest
    ]

record_observation-lookup :
    (subject : String) (states : Dict (List ObservationRecord)) (e : SyncEvent)
    → lookup_or [] subject (record_observation states e)
      ≡ lookup_or [] subject states ++ records_about subject (e ∷ [])
unfolding record_observation records_about
record_observation-lookup subject states e = elim (Option-cases (tracked e)) [
  | inl skipped ↦ rw (record_observation, records_about, skipped) (sym (append-nil _))
  | inr (o, there) ↦
      rw (record_observation, records_about, there)
        (ground (
          arith,
          lookup_or-insert [] o.subject subject (lookup_or [] o.subject states ++ record_of o ∷ [])
              states,
          eq_iff o.subject subject,
          append-nil (lookup_or [] subject states),
        ))
]

records_about-cons :
    (subject : String) (e : SyncEvent) (es : List SyncEvent)
    → records_about subject (e ∷ es) ≡ records_about subject (e ∷ []) ++ records_about subject es
unfolding records_about
records_about-cons subject e es = elim (Option-cases (tracked e)) [
  | inl skipped ↦ rw (records_about, skipped) refl
  | inr (o, there) ↦
      rw (records_about, there)
        elim (Bool-cases (o.subject == subject)) [
          | inl same ↦ rw same refl
          | inr other ↦ rw other refl
        ]
]

fold_events-records :
    (subject : String) (states : Dict (List ObservationRecord)) (es : List SyncEvent)
    → lookup_or [] subject (fold_events record_observation states es)
      ≡ lookup_or [] subject states ++ records_about subject es
unfolding fold_events
fold_events-records subject states [] = unfold records_about in sym (append-nil _)
fold_events-records subject states (e ∷ es) =
    fold_events-records subject (record_observation states e) es
    ∙ ap (λ os. os ++ records_about subject es) (record_observation-lookup subject states e)
    ∙ append_assoc (lookup_or [] subject states) (records_about subject (e ∷ []))
        (records_about subject es)
    ∙ ap (λ os. lookup_or [] subject states ++ os) (sym (records_about-cons subject e es))

-- Whatever complete runs a projection has had, with appended events, or changes of the ledger that
-- its version shows, between them, and also where it was cleared, it has taken each event of the
-- ledger that it read last once, in some order, and `DeriveOpinion` gives the opinion of the
-- tracked events about the subject in that order.
pub derive_opinion-ledger :
    (sorter : Sorter) (l later : SyncLedger) (now : ℤ) (p : Projection)
    (states : Dict (List ObservationRecord)) (es : List SyncEvent) (subject : String)
    → Reading sorter record_observation [] l p states es
    → Perm es l.events
      × (derive_opinion sorter later now states subject
          ≡ opinion_of sorter later now subject (records_about subject es))
unfolding derive_opinion get_observations_for
derive_opinion-ledger sorter l later now p states es subject reading =
    let r = Reading-HasRead sorter record_observation [] reading in
    (
      r.complete,
      ap (opinion_of sorter later now subject) (
          ap (lookup_or [] subject) r.state
          ∙ unfold lookup_or in fold_events-records subject [] es),
    )
