-- ===== src/CheckpointService.antt =====
-- `CheckpointService` of checkpoint_service.go: its state, its messages and its tests on them. The
-- children hold the consensus on a round, the handlers and the steps between them.
--
-- A time is a number of nanoseconds. The pool of keys, the keypair and the broker are parameters: a
-- `Node` is what stays the same over a run, a `Moment` what a call reads of its surroundings. The
-- round of a checkpoint and the expiry of a proposal are set and never read, so they are left out.
pub mod Groups
pub mod Agreement
pub mod Rounds
pub mod Sound
pub mod Consensus
pub mod Handlers
pub mod Finalize
pub mod Steps
pub mod Stored
pub mod Runs
pub mod Published
pub mod Exchange
use nara.Prelude.{
  ℕ, Bool, true, false, not, ◌&&◌, Option, none, some, List, [], String, ◌==◌, if◌then◌else◌,
}
use nara.Prelude.Int.{ℤ, pos, negsuc, ltb_ℤ, leb_ℤ, sub64}
use nara.Event.{SyncEvent}
use nara.Event.Content.{Host}
use nara.Event.Signature.{Crypto, verify_signature_base64}
use nara.Ledger.{SyncLedger}
use nara.Checkpoint.Verify.{Attestation, signable_content, default_version}

abbrev pub min_voters_required : ℕ
min_voters_required = 5

abbrev pub max_checkpoint_signatures : ℕ
max_checkpoint_signatures = 10

-- 24 hours
abbrev pub default_checkpoint_interval : ℤ
default_checkpoint_interval = pos 86400000000000

pub record CheckpointProposal : Type 0 where
  pub attestation : Attestation
  pub round : ℤ

pub record CheckpointVote : Type 0 where
  pub attestation : Attestation
  pub proposal_ts : ℤ
  pub round : ℤ
  pub approved : Bool

pub record PendingProposal : Type 0 where
  pub proposal : CheckpointProposal
  pub votes : List CheckpointVote
  pub round : ℤ
  pub finalized : Bool

-- What goes out on the topics `propose`, `vote` and `final`.
pub data Sent : Type 0 where
  sent_proposal : CheckpointProposal → Sent
  sent_vote : CheckpointVote → Sent
  sent_final : SyncEvent → Sent

-- `delayed` holds the votes whose jitter is still running, `finalizers` counts the goroutines that
-- are to call `finalizeProposal`, and `published` is the trace of what the broker took.
pub record CheckpointService : Type 0 where
  pub ledger : Option SyncLedger
  pub pending : Option PendingProposal
  pub last_checkpoint_time : ℤ
  pub checkpoint_interval : ℤ
  pub delayed : List CheckpointVote
  pub finalizers : ℕ
  pub published : List Sent

pub record Node : Type 0 where
  pub name : String
  pub id : String
  pub sign_base64 : List ℕ → String
  pub lookup : String → Option (List ℕ)

-- `connected` is false for a nil client too; `delivers` is whether `Publish` succeeds; the jitter is
-- in milliseconds.
pub record Moment : Type 0 where
  pub now : ℤ
  pub boot_complete : Bool
  pub connected : Bool
  pub delivers : Bool
  pub online_count : ℕ
  pub jitter : ℕ

-- `NewCheckpointService`; the zero time of Go is the start of the year 1.
abbrev pub new_checkpoint_service : Option SyncLedger → CheckpointService
new_checkpoint_service ledger = record {
  ledger = ledger;
  pending = none;
  last_checkpoint_time = negsuc 62135596799999999999;
  checkpoint_interval = default_checkpoint_interval;
  delayed = [];
  finalizers = 0;
  published = [];
}

-- `valuesMatch`
unfoldable pub values_match : ℤ → ℤ → ℤ → Bool
unfolding sub64
values_match a b tolerance =
    let diff = sub64 a b in
    leb_ℤ (if ltb_ℤ diff (pos 0) then sub64 (pos 0) diff else diff) tolerance

-- `if version == 0 { version = 1 }; if version < 2 { return }`
abbrev pub is_v1 : Attestation → Bool
is_v1 a = ltb_ℤ (default_version a.version) (pos 2)

-- `getPublicKeyForNaraID` of network.go
unfoldable pub key_for_id : Node → String → Option (List ℕ)
key_for_id n id = if id == "" then none else n.lookup id

module _ (c : Crypto) (h : Host) where
  -- `identity.SignContent` on an attestation that is not signed yet.
  unfoldable pub sign_content : Node → Attestation → Attestation
  sign_content n a = record a { signature = n.sign_base64 (c.bytes (signable_content c h a)) }

  -- `identity.VerifyContent`
  unfoldable pub verify_content : Attestation → List ℕ → String → Bool
  verify_content a key signature =
      verify_signature_base64 c key (c.bytes (signable_content c h a)) signature

  -- The test of an attestation's signature by the key of an ID.
  unfoldable pub verify_by : Node → String → Attestation → Bool
  unfolding verify_content key_for_id
  verify_by n id a =
      if a.signature == ""
      then false
      else elim (key_for_id n id) [ none ↦ false | some key ↦ verify_content a key a.signature ]

  -- `verifyVoteSignature`
  unfoldable pub verify_vote_signature : Node → CheckpointVote → Bool
  unfolding verify_by
  verify_vote_signature n v = verify_by n v.attestation.attester_id v.attestation

  -- `verifyProposalSignature`
  unfoldable pub verify_proposal_signature : Node → CheckpointProposal → Bool
  unfolding verify_by
  verify_proposal_signature n p = verify_by n p.attestation.subject_id p.attestation
