-- ===== src/Tests/Rounds.antt =====
-- Naras, votes and rounds for the checkpoint service.
use nara.Prelude.{true, false, some, [], ◌∷◌, String}
use nara.Prelude.Int.{pos}
use mathlib.Core.List.Perm
use nara.Ledger.{SyncLedger}
use nara.Checkpoint.Verify.{Attestation}
use nara.CheckpointService.{
  CheckpointProposal, CheckpointVote, PendingProposal, CheckpointService, Node, Moment,
  new_checkpoint_service,
}
use nara.CheckpointService.Consensus.{MapRange}
use nara.Tests.Data.{key, holding}

-- Every ID has a key, and every signature is the same.
abbrev pub node : String → Node
node name = record {
  name = name;
  id = name;
  sign_base64 = λ message. "sig";
  lookup = λ id. some key;
}

-- An order that is that of insertion.
abbrev pub in_order : MapRange
in_order = record { entries = λ A xs. xs; entries_perm = λ A xs. Perm.rfl }

-- 1000 seconds after the epoch, with everything up.
abbrev pub noon : Moment
noon = record {
  now = pos 1000000000000;
  boot_complete = true;
  connected = true;
  delivers = true;
  online_count = 6;
  jitter = 0;
}

abbrev pub empty_ledger : SyncLedger
empty_ledger = holding 9 [] (λ k. false)

abbrev pub claim_of : String → Attestation
claim_of attester = record {
  version = pos 2;
  subject = "ann";
  subject_id = "ann";
  observation = record { restarts = pos 2; total_uptime = pos 9; start_time = pos 5 };
  attester = attester;
  attester_id = attester;
  last_seen_checkpoint_id = "";
  as_of_time = pos 1000;
  signature = "sig";
}

abbrev pub proposal : CheckpointProposal
proposal = record { attestation = claim_of "ann"; round = pos 1 }

abbrev pub vote_of : String → CheckpointVote
vote_of voter = record {
  attestation = claim_of voter;
  proposal_ts = pos 1000;
  round = pos 1;
  approved = true;
}

-- Five votes of one kind.
abbrev pub five_votes : PendingProposal
five_votes = record {
  proposal = proposal;
  votes = vote_of "bob" ∷ vote_of "bob" ∷ vote_of "bob" ∷ vote_of "bob" ∷ vote_of "bob" ∷ [];
  round = pos 1;
  finalized = false;
}

abbrev pub no_votes : PendingProposal
no_votes = record five_votes { votes = [] }

abbrev pub service_with : PendingProposal → CheckpointService
service_with p = record (new_checkpoint_service (some empty_ledger)) { pending = some p }
