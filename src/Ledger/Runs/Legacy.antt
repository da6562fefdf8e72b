-- ===== src/Ledger/Runs/Legacy.antt =====
-- The convenience methods of sync_ledger.go as runs of the ledger.
use nara.Prelude.{ℕ, ◌≡◌, Bool, Option, some, List, [], ◌∷◌, String, >>=-some, of_some-eq, ◌>>=◌}
use nara.Prelude.Int.{ℤ}
use nara.Prelude.Sort.{Sorter}
use nara.Event.{SyncEvent}
use nara.Event.Content.{Host}
use nara.Event.Signature.{Crypto}
use nara.Event.Create.{
  SocialEvent, Sign, sync_event_from_social_event, new_ping_sync_event, new_signed_ping_sync_event,
}
use nara.Ledger.{SyncLedger}
use nara.Ledger.Add.{add_event}
use nara.Ledger.Filters.{NaraPersonality, add_social_event_filtered}
use nara.Ledger.Legacy.{
  add_social_event, add_social_event_filtered_legacy, merge_social_events_filtered,
  add_ping_observation, add_signed_ping_observation,
}
use nara.Ledger.Runs.{LedgerStep, LedgerRun}

module _ (sorter : Sorter) (c : Crypto) (h : Host) where
  one_step : {l l' : SyncLedger} → LedgerStep sorter h l l' → LedgerRun sorter h l l'
  one_step step = LedgerRun.next LedgerRun.start step

  after :
      {l m n : SyncLedger}
      → LedgerRun sorter h l m
      → LedgerRun sorter h m n
      → LedgerRun sorter h l n
  after before LedgerRun.start = before
  after before (LedgerRun.next run step) = LedgerRun.next (after before run) step

  -- An event that is made, and then added.
  added-LedgerRun :
      (l l' : SyncLedger) (made : Option SyncEvent) (ok : Bool)
      → (made >>= λ e. add_event sorter h l e) ≡ some (l', ok)
      → LedgerRun sorter h l l'
  added-LedgerRun l l' made ok q =
      let (e, _, added) = >>=-some made (λ e. add_event sorter h l e) (l', ok) q in
      one_step (LedgerStep.adds e ok added)

  pub add_social_event-LedgerRun :
      (l l' : SyncLedger) (se : SocialEvent) (ok : Bool)
      → add_social_event sorter c h l se ≡ some (l', ok)
      → LedgerRun sorter h l l'
  unfolding add_social_event
  add_social_event-LedgerRun l l' se ok q =
      added-LedgerRun l l' (sync_event_from_social_event c h se) ok q

  add_social_event_filtered_legacy-LedgerRun :
      (l l' : SyncLedger) (se : SocialEvent) (who : NaraPersonality) (ok : Bool)
      → add_social_event_filtered_legacy sorter c h l se who ≡ some (l', ok)
      → LedgerRun sorter h l l'
  unfolding add_social_event_filtered_legacy
  add_social_event_filtered_legacy-LedgerRun l l' se who ok q =
      let (e, _, added) =
        >>=-some (sync_event_from_social_event c h se)
          (λ e. add_social_event_filtered sorter h l e who) (l', ok) q in
      one_step (LedgerStep.adds_social_filtered e who ok added)

  pub merge_social_events_filtered-LedgerRun :
      (l l' : SyncLedger) (events : List SocialEvent) (who : NaraPersonality) (n : ℕ)
      → merge_social_events_filtered sorter c h l events who ≡ some (l', n)
      → LedgerRun sorter h l l'
  unfolding merge_social_events_filtered
  merge_social_events_filtered-LedgerRun l l' [] who n q =
      of_some-eq (λ (r : SyncLedger × ℕ). LedgerRun sorter h l r.0) q LedgerRun.start
  merge_social_events_filtered-LedgerRun l l' (se ∷ events) who n q =
      let ((l₁, ok), added, more) =
        >>=-some (add_social_event_filtered_legacy sorter c h l se who) _ (l', n) q in
      let ((l₂, k), rest, same) =
        >>=-some (merge_social_events_filtered sorter c h l₁ events who) _ (l', n) more in
      of_some-eq (λ (r : SyncLedger × ℕ). LedgerRun sorter h l r.0) same
        (after (add_social_event_filtered_legacy-LedgerRun l l₁ se who ok added)
          (merge_social_events_filtered-LedgerRun l₁ l₂ events who k rest))

  pub add_ping_observation-LedgerRun :
      (now : ℤ) (l l' : SyncLedger) (observer target : String) (rtt : ℕ) (ok : Bool)
      → add_ping_observation sorter c h now l observer target rtt ≡ some (l', ok)
      → LedgerRun sorter h l l'
  unfolding add_ping_observation
  add_ping_observation-LedgerRun now l l' observer target rtt ok q =
      added-LedgerRun l l' (new_ping_sync_event c h now observer target rtt) ok q

  pub add_signed_ping_observation-LedgerRun :
      (now : ℤ) (l l' : SyncLedger) (observer target : String) (rtt : ℕ) (emitter : String)
      (sign : Sign) (ok : Bool)
      → add_signed_ping_observation sorter c h now l observer target rtt emitter sign
        ≡ some (l', ok)
      → LedgerRun sorter h l l'
  unfolding add_signed_ping_observation
  add_signed_ping_observation-LedgerRun now l l' observer target rtt emitter sign ok q =
      added-LedgerRun l l' (new_signed_ping_sync_event c h now observer target rtt emitter sign) ok
        q
