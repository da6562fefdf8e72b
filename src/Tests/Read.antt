-- ===== src/Tests/Read.antt =====
-- The queries, the pages, the projection, the presence and the opinions at concrete ledgers.
use mathlib.Core.List.{mem-cons_self, mem-cons, mem-cons_of_mem, not-mem-nil}
use mathlib.Core.HLevel.{⊥_prop}
use mathlib.Core.Logic.Or
use nara.Prelude.{
  Bool, Perm, ℕ, suc, ◌≡◌, refl, ap, true, false, some, [], ◌∷◌, ◌++◌, Mem, List, eq_iff, arith,
}
use nara.Prelude.Int.{pos}
use nara.Prelude.Dict.{Dict}
use nara.Prelude.Sort.Insertion.{insertion}
use nara.Event.{SyncEvent}
use nara.Ledger.{SyncLedger, by_timestamp}
use nara.Ledger.Query.{keep_if, get_events_since}
use nara.Ledger.Page.{
  Page, get_events_page, passes_after, passes, passes_subject, cursor_time, cut_page,
}
use nara.Ledger.Page.Walk.{get_events_page-next}
use nara.Projection.{Projection, new_projection, needs_reset, start_run, handle_all, run_once}
use nara.Projection.CatchUp.{IsCaughtUp, fold_events, run_once-append}
use nara.Projection.Reading.{Reading}
use nara.Presence.{handle_event, report}
use nara.Presence.Latest.{known_since, handle_event-latest}
use nara.Opinion.{ObservationRecord, record_observation, opinion_of, derive_opinion}
use nara.Opinion.Refine.{records_about, derive_opinion-ledger}
use nara.Tests.Data.{host, two_pings, ping_at, holding, observed, restart}

-- Two events with one time, and a page for one.
abbrev twins : SyncLedger
twins = holding 5 (ping_at "a" 10 ∷ ping_at "b" 10 ∷ []) (λ k. true)

abbrev first_page : Page
first_page = record { events = ping_at "a" 10 ∷ []; next_cursor = "10" }

first_page-read : get_events_page insertion host twins "" 1 [] [] ≡ some first_page
unfolding get_events_page keep_if passes_after passes passes_subject cursor_time cut_page
    by_timestamp insertion
first_page-read = refl

second-left : ¬ Mem (ping_at "b" 10) first_page.events
second-left m =
    Or.elim ⊥_prop (mem-cons.0 m)
      (λ same. ground (arith, eq_iff "b" "a", ap (λ (x : SyncEvent). x.id) same)) not-mem-nil

second-passes : passes_after (cursor_time host "") [] [] (ping_at "b" 10) ≡ some true
unfolding passes_after passes passes_subject cursor_time
second-passes = refl

get_events_page-next_example :
    passes_after (cursor_time host "10") [] [] (ping_at "b" 10) ≡ some false
get_events_page-next_example =
    get_events_page-next insertion host twins "" 1 [] [] first_page (ping_at "b" 10) first_page-read
      refl refl (mem-cons_of_mem (ping_at "a" 10) mem-cons_self) second-passes second-left

-- A projection that counts the events.
abbrev count : ℕ → SyncEvent → ℕ
count n e = suc n

abbrev at_end : Projection
at_end = record { position = 2; last_version = some 0 }

caught_up : IsCaughtUp insertion count 0 two_pings at_end 2
unfolding fold_events
caught_up = record { position = refl; last_version = refl; state = refl }

run_once-append_example :
    (run_once insertion
      (λ s e. (count s e, true))
      (λ s. 0)
      (record two_pings { events = two_pings.events ++ ping_at "c" 30 ∷ [] })
      at_end
      2).0
    ≡ (
      record { position = 3; last_version = some 0 },
      fold_events count 0 (two_pings.events ++ ping_at "c" 30 ∷ []),
      true,
    )
run_once-append_example =
    run_once-append insertion count 0 two_pings (ping_at "c" 30 ∷ []) at_end 2 caught_up

handle_event-latest_example :
    known_since (fold_events handle_event [] two_pings.events) "ann" (pos 10) ≡ true
unfolding report
handle_event-latest_example =
    handle_event-latest [] two_pings.events (ping_at "a" 10) "ann"
      (λ h. ground (arith, eq_iff "ann" "", h)) mem-cons_self refl

abbrev ReadState : Type 0
ReadState = Projection × Dict (List ObservationRecord) × Bool

-- A ledger with two restarts of one nara, and the records of a projection that has read it.
abbrev restarts_seen : SyncLedger
restarts_seen =
    holding 5 (observed "o" (restart "ann") ∷ observed "p" (restart "cat") ∷ []) (λ k. false)

abbrev records_read : Dict (List ObservationRecord)
records_read = fold_events record_observation [] restarts_seen.events

abbrev runs : SyncLedger → Projection → Dict (List ObservationRecord) → ReadState
runs l p states =
    (run_once insertion (λ s e. (record_observation s e, true)) (λ s. []) l p states).0

first_run : runs restarts_seen new_projection [] ≡ (at_end, records_read, true)
unfolding run_once start_run needs_reset handle_all get_events_since fold_events record_observation
first_run = refl

-- A change of the ledger that its version shows: the first event is gone.
abbrev restarts_left : SyncLedger
restarts_left = record restarts_seen { events = observed "p" (restart "cat") ∷ []; version = 1 }

abbrev records_left : Dict (List ObservationRecord)
records_left = fold_events record_observation [] restarts_left.events

abbrev at_new_end : Projection
at_new_end = record { position = 1; last_version = some 1 }

second_run : runs restarts_left at_end records_read ≡ (at_new_end, records_left, true)
unfolding run_once start_run needs_reset handle_all get_events_since insertion fold_events
    record_observation
second_run = refl

derive_opinion-ledger_example :
    Perm (observed "p" (restart "cat") ∷ []) restarts_left.events
    × (derive_opinion insertion restarts_left (pos 100) records_left "bob"
        ≡ opinion_of insertion restarts_left
            (pos 100)
            "bob"
            (records_about "bob" (observed "p" (restart "cat") ∷ [])))
unfolding insertion
derive_opinion-ledger_example =
    derive_opinion-ledger insertion restarts_left restarts_left (pos 100) at_new_end records_left
      (observed "p" (restart "cat") ∷ []) "bob"
      (Reading.restarted (Reading.first first_run) (λ same. omega (arith, same)) second_run)
