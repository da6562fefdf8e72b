-- ===== src/CheckpointService/Steps.antt =====
-- The runs of a `CheckpointService`: its handlers and goroutines in any order, each at its own
-- moment, between changes of the ledger by other parts of the program.
use nara.Prelude.{ℕ, suc, ◌≡◌, Option, some}
use nara.Prelude.Sort.{Sorter}
use nara.Event.{SyncEvent}
use nara.Event.Content.{Host}
use nara.Event.Signature.{Crypto}
use nara.Ledger.{SyncLedger}
use nara.CheckpointService.{
  CheckpointProposal, CheckpointVote, CheckpointService, Node, Moment, new_checkpoint_service,
}
use nara.CheckpointService.Consensus.{MapRange}
use nara.CheckpointService.Handlers.{
  initialize_last_checkpoint_time, check_and_propose, handle_proposal, publish_delayed, handle_vote,
}
use nara.CheckpointService.Finalize.{finalize_proposal, handle_final_checkpoint}

module _ (c : Crypto) (h : Host) (sorter : Sorter) (range : MapRange) (n : Node) where
  pub data Step : CheckpointService → CheckpointService → Type 0 where
    started : {s : CheckpointService} (m : Moment) → Step s (initialize_last_checkpoint_time n m s)
    ticked : {s : CheckpointService} (m : Moment) → Step s (check_and_propose c h sorter n m s)
    got_proposal :
        {s : CheckpointService} (m : Moment) (p : CheckpointProposal)
        → Step s (handle_proposal c h sorter n m p s)
    jitter_ended : {s : CheckpointService} (m : Moment) (i : ℕ) → Step s (publish_delayed m i s)
    got_vote : {s : CheckpointService} (v : CheckpointVote) → Step s (handle_vote c h sorter n v s)
    finalizing :
        {s t : CheckpointService} (m : Moment) (k : ℕ)
        → s.finalizers ≡ suc k
        → finalize_proposal c h sorter range n m (record s { finalizers = k }) ≡ some t
        → Step s t
    got_final :
        {s t : CheckpointService} (e : SyncEvent)
        → handle_final_checkpoint c h sorter range n e s ≡ some t
        → Step s t
    ledger_changed :
        {s : CheckpointService} (l : SyncLedger) → Step s (record s { ledger = some l })

  -- The states of a service that starts with the ledger.
  pub data Reachable (ledger : Option SyncLedger) : CheckpointService → Type 0 where
    fresh : Reachable ledger (new_checkpoint_service ledger)
    after : {s t : CheckpointService} → Reachable ledger s → Step s t → Reachable ledger t
