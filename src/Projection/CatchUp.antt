-- ===== src/Projection/CatchUp.antt =====
-- What a run of a projection reads, and in which order, where its handler does not fail.
use nara.Prelude.{
  ℕ, suc, ◌+◌, ◌≡◌, ◌≢◌, refl, sym, ap, ◌∙◌, true, false, some, List, [], ◌∷◌, ◌++◌, arith, leb,
  length, length-append, length-perm, drop, if◌then◌else◌,
}
use nara.Prelude.Sort.{Sorter}
use nara.Event.{SyncEvent}
use nara.Ledger.{SyncLedger, by_timestamp}
use nara.Ledger.Query.{get_events_since}
use nara.Projection.{Projection, needs_reset, start_run, handle_all, run_once}

-- The state after the events.
unfoldable pub fold_events : {S : Type 0} → (S → SyncEvent → S) → S → List SyncEvent → S
fold_events step s [] = s
fold_events step s (e ∷ es) = fold_events step (step s e) es

pub fold_events-append :
    {S : Type 0} (step : S → SyncEvent → S) (s : S) (xs ys : List SyncEvent)
    → fold_events step s (xs ++ ys) ≡ fold_events step (fold_events step s xs) ys
unfolding fold_events
fold_events-append step s [] ys = refl
fold_events-append step s (x ∷ xs) ys = fold_events-append step (step s x) xs ys

drop-append : {A : Type 0} (xs ys : List A) → drop (length xs) (xs ++ ys) ≡ ys
drop-append [] ys = refl
drop-append (x ∷ xs) ys = drop-append xs ys

get_events_since-append :
    (l : SyncLedger) (old new : List SyncEvent)
    → (get_events_since (record l { events = old ++ new }) (length old)).0 ≡ new
unfolding get_events_since
get_events_since-append l old [] = ground (arith, length-append old [])
get_events_since-append l old (e ∷ new) =
    ground (arith, length-append old (e ∷ new), drop-append old (e ∷ new))

get_events_since-zero : (l : SyncLedger) → (get_events_since l 0).0 ≡ l.events
unfolding get_events_since
get_events_since-zero l = from_start l.events
  where
    from_start :
        (es : List SyncEvent)
        → (if◌then◌else◌ {A = List SyncEvent × ℕ × ℕ}
            (leb (length es) 0)
            ([], length es, l.version)
            (es, length es, l.version)).0
          ≡ es
    from_start [] = refl
    from_start (e ∷ es) = ground arith

module _ {S : Type 0} (sorter : Sorter) (step : S → SyncEvent → S) (init : S) where
  -- The projection has read the ledger to its end, and its state is that of the events in the order
  -- in which the ledger holds them.
  pub record IsCaughtUp (l : SyncLedger) (p : Projection) (s : S) : Type 0 where
    pub position : p.position ≡ length l.events
    pub last_version : p.last_version ≡ some l.version
    pub state : s ≡ fold_events step init l.events

  handle_all-fold :
      (i : ℕ) (p : Projection) (s : S) (es : List SyncEvent)
      → handle_all sorter (λ s e. (step s e, true)) (λ s. init) (λ i. false) i p s es ≡ (
        record { position = p.position + length es; last_version = p.last_version },
        fold_events step s es,
        true,
      )
  unfolding handle_all fold_events
  handle_all-fold i p s [] =
      ap (λ n. (record { position = n; last_version = p.last_version }, s, true)) (omega arith)
  handle_all-fold i p s (e ∷ es) =
      handle_all-fold (suc i) (record p { position = p.position + 1 }) (step s e) es
      ∙ ap
          (λ n. (
            record { position = n; last_version = p.last_version },
            fold_events step (step s e) es,
            true,
          ))
          (omega arith)

  pub needs_reset-same :
      (l : SyncLedger) (p : Projection)
      → p.last_version ≡ some l.version
      → needs_reset sorter (λ s e. (step s e, true)) (λ s. init) l p ≡ false
  unfolding needs_reset
  needs_reset-same l p same = ground (arith, same)

  needs_reset-changed :
      (l : SyncLedger) (p : Projection) (v : ℕ)
      → p.last_version ≡ some v
      → l.version ≢ v
      → needs_reset sorter (λ s e. (step s e, true)) (λ s. init) l p ≡ true
  unfolding needs_reset
  needs_reset-changed l p v seen changed = ground (arith, seen, changed)

  start_run-append :
      (l : SyncLedger) (old new : List SyncEvent) (p : Projection) (s : S)
      → l.events ≡ old ++ new
      → p.position ≡ length old
      → needs_reset sorter (λ s e. (step s e, true)) (λ s. init) l p ≡ false
      → start_run sorter (λ s e. (step s e, true)) (λ s. init) l p s ≡ (new, p, s)
  unfolding start_run
  start_run-append l old new p s events position same = rw same (
      ap (λ es. (es, p, s))
        (ap (λ n. (get_events_since l n).0) position
          ∙ ap (λ es. (get_events_since (record l { events = es }) (length old)).0) events
          ∙ get_events_since-append l old new))

  -- A run that starts with these events and this projection.
  run_once-from :
      (l : SyncLedger) (p q : Projection) (s t : S) (es : List SyncEvent)
      → start_run sorter (λ s e. (step s e, true)) (λ s. init) l p s ≡ (es, q, t)
      → (run_once sorter (λ s e. (step s e, true)) (λ s. init) l p s).0 ≡ (
        record { position = q.position + length es; last_version = some l.version },
        fold_events step t es,
        true,
      )
  unfolding run_once
  run_once-from l p q s t es start = rw (start, handle_all-fold 0 q t es) refl

  -- A run that does not start over handles what the ledger holds from the projection's position on.
  pub run_once-appended :
      (l : SyncLedger) (old new : List SyncEvent) (p : Projection) (s : S)
      → l.events ≡ old ++ new
      → p.position ≡ length old
      → needs_reset sorter (λ s e. (step s e, true)) (λ s. init) l p ≡ false
      → (run_once sorter (λ s e. (step s e, true)) (λ s. init) l p s).0 ≡ (
        record { position = length l.events; last_version = some l.version },
        fold_events step s new,
        true,
      )
  run_once-appended l old new p s events position same =
      run_once-from l p p s s new (start_run-append l old new p s events position same)
      ∙ ap
          (λ n.
            (record { position = n; last_version = some l.version }, fold_events step s new, true))
          (ap (λ n. n + length new) position
            ∙ sym (length-append old new)
            ∙ ap (λ (es : List SyncEvent). length es) (sym events))

  -- Incremental reading equals batch reading: when the projection has read a ledger to its end, its
  -- state is the one that the handler gives over the ledger in order, and events are appended
  -- without a structural change, one more run without errors leaves the state that the handler
  -- gives over the whole ledger, and has read it to its end.
  pub run_once-append :
      (l : SyncLedger) (new : List SyncEvent) (p : Projection) (s : S)
      → IsCaughtUp l p s
      → (run_once sorter
          (λ s e. (step s e, true))
          (λ s. init)
          (record l { events = l.events ++ new })
          p
          s).0
        ≡ (
          record { position = length (l.events ++ new); last_version = some l.version },
          fold_events step init (l.events ++ new),
          true,
        )
  run_once-append l new p s c =
      let l' = record l { events = l.events ++ new } in
      run_once-appended l' l.events new p s refl c.position (needs_reset-same l' p c.last_version)
      ∙ ap (λ t. (record { position = length l'.events; last_version = some l.version }, t, true))
          (ap (λ t. fold_events step t new) c.state
            ∙ sym (fold_events-append step init l.events new))

  start_run-reset :
      (l : SyncLedger) (p : Projection) (s : S) (v : ℕ)
      → p.last_version ≡ some v
      → l.version ≢ v
      → start_run sorter (λ s e. (step s e, true)) (λ s. init) l p s
        ≡ (sorter.sort_slice SyncEvent by_timestamp l.events, record p { position = 0 }, init)
  unfolding start_run
  start_run-reset l p s v seen changed = rw (needs_reset-changed l p v seen changed) (
      ap (λ es. (sorter.sort_slice SyncEvent by_timestamp es, record p { position = 0 }, init))
        (get_events_since-zero l))

  -- After a structural change of the ledger, which its version shows, a run starts over: it leaves
  -- the state that the handler gives over all events in the order of their times.
  pub run_once-reset :
      (l : SyncLedger) (p : Projection) (s : S) (v : ℕ)
      → p.last_version ≡ some v
      → l.version ≢ v
      → (run_once sorter (λ s e. (step s e, true)) (λ s. init) l p s).0 ≡ (
        record { position = length l.events; last_version = some l.version },
        fold_events step init (sorter.sort_slice SyncEvent by_timestamp l.events),
        true,
      )
  run_once-reset l p s v seen changed =
      let sorted = sorter.sort_slice SyncEvent by_timestamp l.events in
      run_once-from l p (record p { position = 0 }) s init sorted
        (start_run-reset l p s v seen changed)
      ∙ ap
          (λ n. (
            record { position = n; last_version = some l.version },
            fold_events step init sorted,
            true,
          ))
          (omega (arith, length-perm (sorter.sort_perm SyncEvent by_timestamp l.events)))
