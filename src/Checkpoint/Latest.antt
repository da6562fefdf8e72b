-- ===== src/Checkpoint/Latest.antt =====
-- Which checkpoint the queries for the latest one give.
use mathlib.Core.List.{mem-cons, mem-cons_self, mem-cons_of_mem, not-mem-nil}
use mathlib.Core.Bool.{Bool-set}
use mathlib.Core.Logic.Or
use nara.Prelude.{
  ◌≡◌, refl, subst, inl, inr, true, some, List, [], ◌∷◌, Mem, String, ◌==◌, arith, Bool-cases,
  Option-cases,
}
use nara.Prelude.Int.{ℤ, pos, ltb_ℤ, leb_ℤ}
use nara.Event.{SyncEvent, CheckpointEventPayload, service_checkpoint}
use nara.Ledger.{SyncLedger}
use nara.Checkpoint.{
  LatestCheckpoint, scan_checkpoint, scan_checkpoints, no_checkpoint, latest_checkpoint,
  get_checkpoint_event, get_checkpoint, get_latest_checkpoint_id,
}

-- The event carries this checkpoint of the subject.
pub record Carries (subject : String) (e : SyncEvent) (c : CheckpointEventPayload) : Type 0 where
  pub service : (e.service == service_checkpoint) ≡ true
  pub checkpoint : e.checkpoint ≡ some c
  pub subject_is : (c.subject == subject) ≡ true

scan_checkpoint-grows :
    (subject : String) (s : LatestCheckpoint) (e : SyncEvent)
    → leb_ℤ s.as_of_time (scan_checkpoint subject s e).as_of_time ≡ true
unfolding scan_checkpoint
scan_checkpoint-grows subject s e = ground arith

scan_checkpoints-grows :
    (subject : String) (s : LatestCheckpoint) (es : List SyncEvent)
    → leb_ℤ s.as_of_time (scan_checkpoints subject s es).as_of_time ≡ true
unfolding scan_checkpoints
scan_checkpoints-grows subject s [] = ground arith
scan_checkpoints-grows subject s (e ∷ es) = ground (
  arith,
  scan_checkpoint-grows subject s e,
  scan_checkpoints-grows subject (scan_checkpoint subject s e) es,
)

scan_checkpoint-covers :
    (subject : String) (s : LatestCheckpoint) (e : SyncEvent) (c : CheckpointEventPayload)
    → Carries subject e c
    → leb_ℤ c.as_of_time (scan_checkpoint subject s e).as_of_time ≡ true
unfolding scan_checkpoint
scan_checkpoint-covers subject s e c k = rw (k.service, k.checkpoint) (ground (arith, k.subject_is))

scan_checkpoints-covers :
    (subject : String) (s : LatestCheckpoint) (es : List SyncEvent) (e : SyncEvent)
    (c : CheckpointEventPayload)
    → Mem e es
    → Carries subject e c
    → leb_ℤ c.as_of_time (scan_checkpoints subject s es).as_of_time ≡ true
unfolding scan_checkpoints
scan_checkpoints-covers subject s [] e c m k = absurd (not-mem-nil m)
scan_checkpoints-covers subject s (x ∷ es) e c m k =
    Or.elim (Bool-set _ _) (mem-cons.0 m)
      (λ same. ground (
        arith,
        scan_checkpoint-covers subject s x c (subst (λ y. Carries subject y c) same k),
        scan_checkpoints-grows subject (scan_checkpoint subject s x) es,
      ))
      (λ later. scan_checkpoints-covers subject (scan_checkpoint subject s x) es e c later k)

-- What a scan holds: nothing, or a checkpoint of the subject that one of the events carries.
pub data IsFound (subject : String) (events : List SyncEvent) : LatestCheckpoint → Type 0 where
  nothing : IsFound subject events no_checkpoint
  found :
      (e : SyncEvent)
      → (c : CheckpointEventPayload) → Mem e events
      → Carries subject e c
      → IsFound subject events
          (record { event = some e; contents = some c; as_of_time = c.as_of_time })

scan_checkpoint-IsFound :
    (subject : String) (events : List SyncEvent) (s : LatestCheckpoint) (e : SyncEvent)
    → Mem e events
    → IsFound subject events s
    → IsFound subject events (scan_checkpoint subject s e)
unfolding scan_checkpoint
scan_checkpoint-IsFound subject events s e m f =
    elim (Bool-cases (e.service == service_checkpoint)) [
      | inr other ↦ rw other f
      | inl here ↦ rw here elim (Option-cases e.checkpoint) [
        | inl empty ↦ rw empty f
        | inr (c, there) ↦ rw there elim (Bool-cases (c.subject == subject)) [
          | inr no_match ↦ rw no_match f
          | inl match ↦ rw match elim (Bool-cases (ltb_ℤ s.as_of_time c.as_of_time)) [
            | inr old ↦ rw old f
            | inl new ↦ rw new (
                IsFound.found e c m
                  (record { service = here; checkpoint = there; subject_is = match }))
          ]
        ]
      ]
    ]

scan_checkpoints-IsFound :
    (subject : String) (events : List SyncEvent) (s : LatestCheckpoint) (es : List SyncEvent)
    → ((e : SyncEvent) → Mem e es → Mem e events)
    → IsFound subject events s
    → IsFound subject events (scan_checkpoints subject s es)
unfolding scan_checkpoints
scan_checkpoints-IsFound subject events s [] sub f = f
scan_checkpoints-IsFound subject events s (e ∷ es) sub f =
    scan_checkpoints-IsFound subject events (scan_checkpoint subject s e) es
      (λ x m. sub x (mem-cons_of_mem e m))
      (scan_checkpoint-IsFound subject events s e (sub e mem-cons_self) f)

-- What the queries return of a scan that holds a checkpoint at or after a given time.
abbrev pub Answers : SyncLedger → String → ℤ → Type 0
Answers l subject time =
    (e : SyncEvent) × (c : CheckpointEventPayload) × Mem e l.events
    × Carries subject e c
    × (get_checkpoint_event l subject ≡ some e)
    × (get_checkpoint l subject ≡ some c)
    × (get_latest_checkpoint_id l subject ≡ e.id)
    × (leb_ℤ time c.as_of_time ≡ true)

-- If the ledger holds a checkpoint of the subject with a positive time, then the queries for the
-- subject's latest checkpoint agree on one stored checkpoint of the subject, whose time is at least
-- that one's.
pub get_checkpoint-latest :
    (l : SyncLedger) (subject : String) (e : SyncEvent) (c : CheckpointEventPayload)
    → Mem e l.events
    → Carries subject e c
    → ltb_ℤ (pos 0) c.as_of_time ≡ true
    → Answers l subject c.as_of_time
unfolding get_checkpoint get_checkpoint_event get_latest_checkpoint_id latest_checkpoint
get_checkpoint-latest l subject e c m k positive =
    let found =
      scan_checkpoints-IsFound subject l.events no_checkpoint l.events (λ x q. q) IsFound.nothing in
    let covered = scan_checkpoints-covers subject no_checkpoint l.events e c m k in
    answer (scan_checkpoints subject no_checkpoint l.events) refl found covered
  where
    answer :
        (s : LatestCheckpoint)
        → scan_checkpoints subject no_checkpoint l.events ≡ s
        → IsFound subject l.events s
        → leb_ℤ c.as_of_time s.as_of_time ≡ true
        → Answers l subject c.as_of_time
    answer s q IsFound.nothing after = absurd (ground (arith, positive, after))
    answer s q (IsFound.found e' c' m' k') after = (
      e',
      c',
      m',
      k',
      rw (q, get_checkpoint_event, latest_checkpoint) refl,
      rw (q, k'.checkpoint, get_checkpoint, get_checkpoint_event, latest_checkpoint) refl,
      rw (q, get_latest_checkpoint_id, latest_checkpoint) refl,
      after,
    )
