-- ===== src/Checkpoint/Restarts/Reports.antt =====
-- Repeated reports of one restart.
use mathlib.Core.List.{mem-cons, not-mem-nil}
use mathlib.Core.Bool.{Bool-set}
use mathlib.Core.Logic.Or
use nara.Prelude.{
  ◌≡◌, refl, ap, subst, ◌∙◌, inl, inr, Bool, true, not, ◌&&◌, ◌||◌, some, List, [], ◌∷◌, ◌++◌, Mem,
  String, arith, length, Bool-cases, Option-cases, if◌then◌else◌,
}
use nara.Prelude.Int.{ℤ, pos, ltb_ℤ, leb_ℤ, eqb_ℤ, eqb_ℤ→eq, add64}
use nara.Event.{SyncEvent, ObservationEventPayload, service_observation}
use nara.Ledger.{SyncLedger}
use nara.Ledger.Query.{find_backfill, get_backfill_event}
use nara.Checkpoint.{
  LatestCheckpoint, scan_checkpoint, scan_checkpoints, latest_checkpoint, no_checkpoint,
}
use nara.Checkpoint.Restarts.{
  has_time, add_time, is_restart_of, start_times, count_unique_start_times_after, scan_restart,
  count_unique_start_times_excluding, derive_restart_count,
}

-- The event reports a restart of the subject at a start time, and is no backfill.
pub record Reports (subject : String) (e : SyncEvent) (o : ObservationEventPayload) : Type 0 where
  pub service : e.service ≡ service_observation
  pub observation : e.observation ≡ some o
  pub restart : is_restart_of subject o ≡ true

scan_restart-Reports :
    (counted : ℤ → Bool) (subject : String) (ts : List ℤ) (e : SyncEvent)
    (o : ObservationEventPayload)
    → Reports subject e o
    → scan_restart counted subject ts e
      ≡ (if counted o.start_time then add_time o.start_time ts else ts)
unfolding scan_restart
scan_restart-Reports counted subject ts e o r =
    rw (r.service, r.observation) (ground (arith, r.restart))

has_time-add_time :
    (t u : ℤ) (ts : List ℤ) → has_time t (add_time u ts) ≡ (eqb_ℤ u t || has_time t ts)
unfolding add_time
has_time-add_time t u ts = elim (Bool-cases (has_time u ts)) [
  | inr new ↦ rw new (unfold has_time in ground arith)
  | inl old ↦ rw old elim (Bool-cases (eqb_ℤ u t)) [
    | inr other ↦ rw other refl
    | inl same ↦ rw same (subst (λ v. has_time v ts ≡ true) (eqb_ℤ→eq u t same) old)
  ]
]

scan_restart-has :
    (counted : ℤ → Bool) (subject : String) (ts : List ℤ) (e : SyncEvent) (t : ℤ)
    → has_time t ts ≡ true
    → has_time t (scan_restart counted subject ts e) ≡ true
unfolding scan_restart
scan_restart-has counted subject ts e t h = elim (Option-cases e.observation) [
  | inl empty ↦ rw empty (ground (arith, h))
  | inr (o, there) ↦ rw there (ground (arith, h, has_time-add_time t o.start_time ts))
]

start_times-has :
    (counted : ℤ → Bool) (subject : String) (ts : List ℤ) (es : List SyncEvent) (t : ℤ)
    → has_time t ts ≡ true
    → has_time t (start_times counted subject ts es) ≡ true
unfolding start_times
start_times-has counted subject ts [] t h = h
start_times-has counted subject ts (e ∷ es) t h =
    start_times-has counted subject (scan_restart counted subject ts e) es t
      (scan_restart-has counted subject ts e t h)

-- A counted restart that an event reports is in the set.
start_times-mem :
    (counted : ℤ → Bool) (subject : String) (ts : List ℤ) (es : List SyncEvent) (e : SyncEvent)
    (o : ObservationEventPayload)
    → Mem e es
    → Reports subject e o
    → counted o.start_time ≡ true
    → has_time o.start_time (start_times counted subject ts es) ≡ true
unfolding start_times
start_times-mem counted subject ts [] e o m r c = absurd (not-mem-nil m)
start_times-mem counted subject ts (x ∷ es) e o m r c =
    Or.elim (Bool-set _ _) (mem-cons.0 m)
      (λ same. start_times-has counted subject (scan_restart counted subject ts x) es o.start_time (
        rw
          (scan_restart-Reports counted subject ts x o (subst (λ y. Reports subject y o) same r), c)
          (ground (arith, has_time-add_time o.start_time o.start_time ts))))
      (λ later.
        start_times-mem counted subject (scan_restart counted subject ts x) es e o later r c)

start_times-append :
    (counted : ℤ → Bool) (subject : String) (ts : List ℤ) (es : List SyncEvent) (e : SyncEvent)
    → start_times counted subject ts (es ++ e ∷ [])
      ≡ scan_restart counted subject (start_times counted subject ts es) e
unfolding start_times
start_times-append counted subject ts [] e = refl
start_times-append counted subject ts (x ∷ es) e =
    start_times-append counted subject (scan_restart counted subject ts x) es e

start_times-repeated :
    (counted : ℤ → Bool) (subject : String) (es : List SyncEvent) (x e : SyncEvent)
    (o p : ObservationEventPayload)
    → Mem x es
    → Reports subject x o
    → Reports subject e p
    → p.start_time ≡ o.start_time
    → start_times counted subject [] (es ++ e ∷ []) ≡ start_times counted subject [] es
unfolding add_time
start_times-repeated counted subject es x e o p m r q same =
    start_times-append counted subject [] es e
    ∙ scan_restart-Reports counted subject (start_times counted subject [] es) e p q
    ∙ rw same elim (Bool-cases (counted o.start_time)) [
      | inr skipped ↦ rw skipped refl
      | inl c ↦ rw (c, start_times-mem counted subject [] es x o m r c) refl
    ]

scan_checkpoints-append :
    (subject : String) (s : LatestCheckpoint) (es : List SyncEvent) (e : SyncEvent)
    → e.service ≡ service_observation
    → scan_checkpoints subject s (es ++ e ∷ []) ≡ scan_checkpoints subject s es
unfolding scan_checkpoints scan_checkpoint
scan_checkpoints-append subject s [] e h = rw h refl
scan_checkpoints-append subject s (x ∷ es) e h =
    scan_checkpoints-append subject (scan_checkpoint subject s x) es e h

find_backfill-append :
    (subject : String) (es : List SyncEvent) (e : SyncEvent) (o : ObservationEventPayload)
    → Reports subject e o
    → find_backfill subject (es ++ e ∷ []) ≡ find_backfill subject es
unfolding find_backfill is_restart_of
find_backfill-append subject [] e o r = rw (r.service, r.observation) (ground (arith, r.restart))
find_backfill-append subject (x ∷ es) e o r = ground (arith, find_backfill-append subject es e o r)

-- The ledger with one more event at its end.
abbrev pub appended : SyncLedger → SyncEvent → SyncLedger
appended l e = record l { events = l.events ++ e ∷ [] }

latest_checkpoint-append :
    (l : SyncLedger) (subject : String) (e : SyncEvent)
    → e.service ≡ service_observation
    → latest_checkpoint (appended l e) subject ≡ latest_checkpoint l subject
unfolding latest_checkpoint
latest_checkpoint-append l subject e h = scan_checkpoints-append subject no_checkpoint l.events e h

get_backfill_event-append :
    (l : SyncLedger) (subject : String) (e : SyncEvent) (o : ObservationEventPayload)
    → Reports subject e o
    → get_backfill_event (appended l e) subject ≡ get_backfill_event l subject
unfolding get_backfill_event
get_backfill_event-append l subject e o r = find_backfill-append subject l.events e o r

-- Restarts are counted once: when the ledger holds a report of a restart of the subject that is no
-- backfill, and one more such report with the same start time is appended, from whatever observer,
-- the derived restart count stays as it was.
pub derive_restart_count-repeated :
    (l : SyncLedger) (subject : String) (x e : SyncEvent) (o p : ObservationEventPayload)
    → Mem x l.events
    → Reports subject x o
    → Reports subject e p
    → p.start_time ≡ o.start_time
    → derive_restart_count (appended l e) subject ≡ derive_restart_count l subject
unfolding derive_restart_count
derive_restart_count-repeated l subject x e o p m r q same =
    elim (Option-cases (latest_checkpoint l subject).contents) [
      | inr (c, there) ↦
          rw (latest_checkpoint-append l subject e q.service, there, derive_restart_count)
            (ap (λ n. add64 c.observation.restarts (pos n))
              (unfold count_unique_start_times_after in
                counts (λ t. not (ltb_ℤ (pos 0) c.as_of_time && leb_ℤ t c.as_of_time))))
      | inl nothing ↦
          rw (latest_checkpoint-append l subject e q.service, nothing, derive_restart_count)
            elim (Option-cases (get_backfill_event l subject)) [
              | inr (b, found) ↦
                  rw (get_backfill_event-append l subject e p q, found)
                    (ap (λ n. add64 b.restart_num (pos n))
                      (unfold count_unique_start_times_excluding in
                        counts (λ t. not (eqb_ℤ t b.start_time))))
              | inl no_backfill ↦
                  rw (get_backfill_event-append l subject e p q, no_backfill)
                    (ap pos (
                      unfold count_unique_start_times_after in
                      counts (λ t. not (ltb_ℤ (pos 0) (pos 0) && leb_ℤ t (pos 0)))))
            ]
    ]
  where
    counts :
        (counted : ℤ → Bool)
        → length (start_times counted subject [] (l.events ++ e ∷ []))
          ≡ length (start_times counted subject [] l.events)
    counts counted = ap length (start_times-repeated counted subject l.events x e o p m r q same)
