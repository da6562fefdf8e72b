-- ===== src/Projection/Reading.antt =====
-- The runs of a projection between which the ledger grows, or is pruned, and the order in which its
-- state has read the events.
use mathlib.Core.List.Perm
use nara.Prelude.{
  ℕ, ◌≡◌, ◌≢◌, refl, sym, ap, subst, ◌∙◌, Bool, true, false, some, List, [], ◌++◌, Perm, length,
}
use nara.Prelude.Sort.{Sorter}
use nara.Event.{SyncEvent}
use nara.Ledger.{SyncLedger, by_timestamp}
use nara.Projection.{Projection, new_projection, needs_reset, run_once}
use nara.Projection.CatchUp.{
  fold_events, fold_events-append, needs_reset-same, run_once-appended, run_once-reset,
}

module _ {S : Type 0} (sorter : Sorter) (step : S → SyncEvent → S) (init : S) where
  abbrev runs : SyncLedger → Projection → S → Projection × S × Bool
  runs l p s = (run_once sorter (λ s e. (step s e, true)) (λ s. init) l p s).0

  -- The projection has read this ledger, its state is this one, and it has taken the events in this
  -- order: as they are stored in its first run, and in one after it was cleared. A later run takes
  -- those that were appended since, or starts over in the order of time, where the version shows
  -- another change.
  pub data Reading : SyncLedger → Projection → S → List SyncEvent → Type 0 where
    first :
        {l : SyncLedger} {p : Projection} {s : S}
        → runs l new_projection init ≡ (p, s, true)
        → Reading l p s l.events
    appended :
        {l l' : SyncLedger} {p p' : Projection} {s s' : S} {es : List SyncEvent}
        (new : List SyncEvent)
        → Reading l p s es
        → l'.version ≡ l.version
        → l'.events ≡ l.events ++ new
        → runs l' p s ≡ (p', s', true)
        → Reading l' p' s' (es ++ new)
    restarted :
        {l l' : SyncLedger} {p p' : Projection} {s s' : S} {es : List SyncEvent}
        → Reading l p s es
        → l'.version ≢ l.version
        → runs l' p s ≡ (p', s', true)
        → Reading l' p' s' (sorter.sort_slice SyncEvent by_timestamp l'.events)
    cleared :
        {l l' : SyncLedger} {p p' : Projection} {s s' : S} {es : List SyncEvent}
        → Reading l p s es
        → l'.version ≡ l.version
        → runs l' (record p { position = 0 }) init ≡ (p', s', true)
        → Reading l' p' s' l'.events
    cleared_restarted :
        {l l' : SyncLedger} {p p' : Projection} {s s' : S} {es : List SyncEvent}
        → Reading l p s es
        → l'.version ≢ l.version
        → runs l' (record p { position = 0 }) init ≡ (p', s', true)
        → Reading l' p' s' (sorter.sort_slice SyncEvent by_timestamp l'.events)

  -- What holds after each run.
  pub record HasRead (l : SyncLedger) (p : Projection) (s : S) (es : List SyncEvent) : Type 0 where
    pub position : p.position ≡ length l.events
    pub last_version : p.last_version ≡ some l.version
    pub state : s ≡ fold_events step init es
    pub complete : Perm es l.events

  -- The answer of a run that is known.
  ran :
      (l : SyncLedger) (p' : Projection) (s' t : S) (es : List SyncEvent)
      (r : Projection × S × Bool)
      → r ≡ (p', s', true)
      → r ≡ (record { position = length l.events; last_version = some l.version }, t, true)
      → t ≡ fold_events step init es
      → Perm es l.events
      → HasRead l p' s' es
  ran l p' s' t es r answer known state complete =
      let same : (p', s', true)
          ≡ (record { position = length l.events; last_version = some l.version }, t, true) =
        sym answer ∙ known in
      record {
        position = ap (λ (x : Projection × S × Bool). x.0.position) same;
        last_version = ap (λ (x : Projection × S × Bool). x.0.last_version) same;
        state = ap (λ (x : Projection × S × Bool). x.1) same ∙ state;
        complete = complete;
      }

  fresh_run :
      {l : SyncLedger} {p' : Projection} {s' : S} (p : Projection)
      → p.position ≡ 0
      → needs_reset sorter (λ s e. (step s e, true)) (λ s. init) l p ≡ false
      → runs l p init ≡ (p', s', true)
      → HasRead l p' s' l.events
  fresh_run {l} {p'} {s'} p position same q =
      ran l p' s' (fold_events step init l.events) l.events (runs l p init) q
        (run_once-appended sorter step init l [] l.events p init refl position same) refl
        (Perm.refl l.events)

  restarted_run :
      {l : SyncLedger} {p' : Projection} {s' : S} (p : Projection) (s : S) (v : ℕ)
      → p.last_version ≡ some v
      → l.version ≢ v
      → runs l p s ≡ (p', s', true)
      → HasRead l p' s' (sorter.sort_slice SyncEvent by_timestamp l.events)
  restarted_run {l} {p'} {s'} p s v seen changed q =
      let sorted = sorter.sort_slice SyncEvent by_timestamp l.events in
      ran l p' s' (fold_events step init sorted) sorted (runs l p s) q
        (run_once-reset sorter step init l p s v seen changed) refl
        (sorter.sort_perm SyncEvent by_timestamp l.events)

  same_version :
      (l l' : SyncLedger) (p : Projection)
      → p.last_version ≡ some l.version
      → l'.version ≡ l.version
      → needs_reset sorter (λ s e. (step s e, true)) (λ s. init) l' p ≡ false
  same_version l l' p seen version =
      needs_reset-same sorter step init l' p (seen ∙ ap (λ n. some n) (sym version))

  -- After each run the projection stands at the end of the ledger, and its state is that of all
  -- events of the ledger, in the order in which it took them.
  pub Reading-HasRead :
      {l : SyncLedger} {p : Projection} {s : S} {es : List SyncEvent}
      → Reading l p s es
      → HasRead l p s es
  unfolding needs_reset
  Reading-HasRead (first q) = fresh_run new_projection refl refl q
  Reading-HasRead {l = l'} {p = p'} {s = s'}
        (appended {l} {p = p} {s = s} {es = es} new before version events q) =
      let r = Reading-HasRead before in
      ran l' p' s' (fold_events step s new) (es ++ new) (runs l' p s) q
        (run_once-appended sorter step init l' l.events new p s events r.position
          (same_version l l' p r.last_version version))
        (ap (λ t. fold_events step t new) r.state ∙ sym (fold_events-append step init es new))
        (subst (Perm (es ++ new)) (sym events) (Perm.append_right new r.complete))
  Reading-HasRead (restarted {l} {p = p} {s = s} before changed q) =
      restarted_run p s l.version (Reading-HasRead before).last_version changed q
  Reading-HasRead {l = l'} (cleared {l} {p = p} before version q) =
      let p₀ = record p { position = 0 } in
      fresh_run p₀ refl (same_version l l' p₀ (Reading-HasRead before).last_version version) q
  Reading-HasRead (cleared_restarted {l} {p = p} before changed q) =
      restarted_run (record p { position = 0 }) init l.version (Reading-HasRead before).last_version
        changed q
