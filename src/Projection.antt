-- ===== src/Projection.antt =====
-- projections.go: a projection reads the ledger incrementally and folds a handler over its events.
--
-- The state that the handler and the reset callback change is the parameter `S`. A handler returns
-- the new state and whether it succeeded. The context of `RunToEnd` is the test `done`, on the
-- number of events handled so far in the run.
pub mod CatchUp
pub mod Reading
use nara.Prelude.{
  ℕ, zero, suc, ◌+◌, ◌≡◌, Bool, true, false, not, ◌&&◌, Option, none, some, List, [], ◌∷◌, eqb,
  if◌then◌else◌,
}
use nara.Prelude.Sort.{Sorter}
use nara.Event.{SyncEvent}
use nara.Ledger.{SyncLedger, by_timestamp}
use nara.Ledger.Query.{get_events_since}

-- `last_version` is `none` for -1, "never processed".
pub record Projection : Type 0 where
  pub position : ℕ
  pub last_version : Option ℕ

-- `NewProjection`
abbrev pub new_projection : Projection
new_projection = record { position = 0; last_version = none }

module _ {S : Type 0} (sorter : Sorter) (handler : S → SyncEvent → S × Bool)
    (on_reset : S → S) where
  open sorter use {sort_slice}

  -- `version != p.lastVersion && p.lastVersion >= 0`
  unfoldable pub needs_reset : SyncLedger → Projection → Bool
  needs_reset l p = elim p.last_version [ none ↦ false | some v ↦ not (eqb l.version v) ]

  -- The start of a run: the events to handle, with the projection and the state they go to.
  unfoldable pub start_run : SyncLedger → Projection → S → List SyncEvent × Projection × S
  unfolding needs_reset get_events_since
  start_run l p s =
      if needs_reset l p
      then (
        sort_slice SyncEvent by_timestamp (get_events_since l 0).0,
        record p { position = 0 },
        on_reset s,
      )
      else ((get_events_since l p.position).0, p, s)

  -- The loop over the events, and whether it came to its end.
  unfoldable pub handle_all :
      (ℕ → Bool) → ℕ → Projection → S → List SyncEvent → Projection × S × Bool
  handle_all done i p s [] = (p, s, true)
  handle_all done i p s (e ∷ es) =
      let (s', ok) = handler s e in
      let rest = handle_all done (suc i) (record p { position = p.position + 1 }) s' es in
      if done i then (p, s, false) else if ok then rest else (p, s', false)

  abbrev finish_run : SyncLedger → Projection × S × Bool → Projection × S × Bool
  finish_run l (p, s, ok) =
      if ok then (record p { last_version = some l.version }, s, true) else (p, s, false)

  -- `RunToEnd`, with `true` for no error
  unfoldable pub run_to_end : (ℕ → Bool) → SyncLedger → Projection → S → Projection × S × Bool
  unfolding start_run handle_all
  run_to_end done l p s =
      let (events, p₁, s₁) = start_run l p s in finish_run l (handle_all done 0 p₁ s₁ events)

  abbrev any_event : List SyncEvent → Bool
  any_event [] = false
  any_event (e ∷ es) = true

  -- `RunOnce`: also whether there was an event to handle
  unfoldable pub run_once : SyncLedger → Projection → S → (Projection × S × Bool) × Bool
  unfolding start_run handle_all
  run_once l p s =
      let (events, p₁, s₁) = start_run l p s in
      (finish_run l (handle_all (λ i. false) 0 p₁ s₁ events), any_event events)

  -- `Reset`
  unfoldable pub reset : Projection → Projection
  reset p = record p { position = 0 }
