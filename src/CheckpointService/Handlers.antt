-- ===== src/CheckpointService/Handlers.antt =====
-- The methods of `CheckpointService` in checkpoint_service.go that propose, vote and collect. Each is one step, since what it shares with others is behind a mutex.
--
-- `none` is a panic. The marshalling of a message always succeeds. A vote whose jitter is 0 is
-- published in the same step.
use nara.Prelude.{
  ℕ, ◌+◌, Bool, false, not, ◌&&◌, ◌||◌, Option, none, some, [], ◌∷◌, ◌++◌, String, ◌==◌, leb, ltb,
  eqb, length, get_elem?, erase_idx, if◌then◌else◌,
}
use nara.Prelude.Int.{ℤ, pos, ltb_ℤ, eqb_ℤ, ◌-ℤ◌, ◌*ℤ◌, div_pos}
use nara.Prelude.Sort.{Sorter}
use nara.Event.{NaraObservation}
use nara.Event.Content.{Host}
use nara.Event.Signature.{Crypto}
use nara.Ledger.{SyncLedger}
use nara.Checkpoint.{get_checkpoint_event, get_latest_checkpoint_id, get_first_seen_from_events}
use nara.Checkpoint.Restarts.{derive_restart_count}
use nara.Checkpoint.Uptime.{derive_total_uptime}
use nara.CheckpointService.{
  CheckpointProposal, CheckpointVote, PendingProposal, Sent, sent_proposal, sent_vote,
  CheckpointService, Node, Moment, min_voters_required, values_match, is_v1, sign_content,
  verify_vote_signature, verify_proposal_signature,
}

-- `time.Now().Unix()`
abbrev pub unix : Moment → ℤ
unix m = div_pos m.now 1000000000

-- `Publish`, where the client is connected.
unfoldable pub publish : Moment → Sent → CheckpointService → CheckpointService
publish m message s =
    if m.connected && m.delivers then record s { published = s.published ++ message ∷ [] } else s

-- `pending.finalized` of the proposal that is there.
abbrev pub is_open : Option PendingProposal → Bool
is_open none = false
is_open (some p) = not p.finalized

-- The values of the second round.
pub record Round2Values : Type 0 where
  pub restarts : ℤ
  pub total_uptime : ℤ
  pub first_seen : ℤ

abbrev pub observation_of : Round2Values → NaraObservation
observation_of v = record {
  restarts = v.restarts;
  total_uptime = v.total_uptime;
  start_time = v.first_seen;
}

-- `initializeLastCheckpointTime`
unfoldable pub initialize_last_checkpoint_time :
    Node → Moment → CheckpointService → CheckpointService
unfolding get_checkpoint_event ◌*ℤ◌
initialize_last_checkpoint_time n m s = elim s.ledger [
  | none ↦ s
  | some l ↦ record s {
    last_checkpoint_time = elim (get_checkpoint_event l n.name) [
      | none ↦ m.now
      | some e ↦ elim e.checkpoint [ none ↦ m.now | some c ↦ c.as_of_time *ℤ pos 1000000000 ]
    ];
  }
]

-- The proposal becomes the pending one; where it is published, its finalization is scheduled.
unfoldable pub open_proposal : Moment → CheckpointProposal → CheckpointService → CheckpointService
unfolding publish
open_proposal m p s =
    let stored = record s {
      pending = some (record { proposal = p; votes = []; round = p.round; finalized = false });
    } in
    if m.delivers
    then record (publish m (sent_proposal p) stored) { finalizers = s.finalizers + 1 }
    else stored

-- `publishVote`, now or after the jitter
unfoldable pub cast : Moment → CheckpointVote → CheckpointService → CheckpointService
unfolding publish
cast m v s =
    if eqb m.jitter 0 then publish m (sent_vote v) s else record s { delayed = s.delayed ++ v ∷ [] }

-- One of the delayed votes, at the end of its jitter.
unfoldable pub publish_delayed : Moment → ℕ → CheckpointService → CheckpointService
unfolding publish
publish_delayed m i s = elim (get_elem? s.delayed i) [
  | none ↦ s
  | some v ↦ publish m (sent_vote v) (record s { delayed = erase_idx s.delayed i })
]

-- The vote joins the pending proposal; enough of them start the finalization.
unfoldable pub collect : CheckpointVote → PendingProposal → CheckpointService → CheckpointService
collect v p s =
    let votes = p.votes ++ v ∷ [] in
    record s {
      pending = some (record p { votes = votes });
      finalizers =
          if leb min_voters_required (length votes) then s.finalizers + 1 else s.finalizers;
    }

-- Whether the values of a proposal are near enough to ours.
unfoldable pub approves : NaraObservation → NaraObservation → Bool
unfolding values_match
approves o ours =
    values_match o.restarts ours.restarts (pos 5)
    && values_match o.total_uptime ours.total_uptime (pos 60)
    && values_match o.start_time ours.start_time (pos 60)

module _ (c : Crypto) (h : Host) (sorter : Sorter) (n : Node) where
  -- Our own view of a nara.
  unfoldable pub derive_observation : SyncLedger → Moment → String → NaraObservation
  unfolding derive_restart_count derive_total_uptime get_first_seen_from_events
  derive_observation l m name = record {
    restarts = derive_restart_count l name;
    total_uptime = derive_total_uptime sorter l (unix m) name;
    start_time = get_first_seen_from_events l name;
  }

  -- The signed proposal of a round.
  unfoldable pub proposal_of : SyncLedger → Moment → ℤ → Option Round2Values → CheckpointProposal
  unfolding derive_observation sign_content get_latest_checkpoint_id
  proposal_of l m round values = record {
    attestation = sign_content c h n (record {
      version = pos 2;
      subject = n.name;
      subject_id = n.id;
      observation = elim values [
        | none ↦ derive_observation l m n.name
        | some v ↦ if eqb_ℤ round (pos 2) then observation_of v else derive_observation l m n.name
      ];
      attester = n.name;
      attester_id = n.id;
      last_seen_checkpoint_id = get_latest_checkpoint_id l n.name;
      as_of_time = unix m;
      signature = "";
    });
    round = round;
  }

  -- `proposeCheckpointRound`
  unfoldable pub propose_checkpoint_round :
      Moment → ℤ → Option Round2Values → CheckpointService → CheckpointService
  unfolding proposal_of open_proposal
  propose_checkpoint_round m round values s =
      if not m.connected
      then s
      else elim s.ledger [ none ↦ s | some l ↦ open_proposal m (proposal_of l m round values) s ]

  -- `checkAndPropose`
  unfoldable pub check_and_propose : Moment → CheckpointService → CheckpointService
  unfolding propose_checkpoint_round ◌-ℤ◌
  check_and_propose m s =
      if not m.boot_complete
      then s
      else if ltb_ℤ (m.now -ℤ s.last_checkpoint_time) s.checkpoint_interval
      then s
      else if is_open s.pending
      then s
      else if ltb m.online_count (min_voters_required + 1)
      then s
      else propose_checkpoint_round m (pos 1) none s

  -- The signed vote on a proposal, from our own view of its subject.
  unfoldable pub vote_with :
      SyncLedger → CheckpointProposal → NaraObservation → Bool → CheckpointVote
  unfolding sign_content get_latest_checkpoint_id
  vote_with l p ours approved =
      let a = p.attestation in
      record {
        attestation = sign_content c h n (record {
          version = pos 2;
          subject = a.subject;
          subject_id = a.subject_id;
          observation = if approved then a.observation else ours;
          attester = n.name;
          attester_id = n.id;
          last_seen_checkpoint_id = get_latest_checkpoint_id l a.subject;
          as_of_time = a.as_of_time;
          signature = "";
        });
        proposal_ts = a.as_of_time;
        round = p.round;
        approved = approved;
      }

  unfoldable pub vote_on : SyncLedger → Moment → CheckpointProposal → CheckpointVote
  unfolding derive_observation approves vote_with
  vote_on l m p =
      let ours = derive_observation l m p.attestation.subject in
      vote_with l p ours (approves p.attestation.observation ours)

  -- `HandleProposal`
  unfoldable pub handle_proposal :
      Moment → CheckpointProposal → CheckpointService → CheckpointService
  unfolding vote_on cast verify_proposal_signature
  handle_proposal m p s =
      if p.attestation.subject == n.name
      then s
      else if not m.boot_complete
      then s
      else elim s.ledger [
        | none ↦ s
        | some l ↦
            if not (verify_proposal_signature c h n p)
            then s
            else if is_v1 p.attestation
            then s
            else cast m (vote_on l m p) s
      ]

  -- `HandleVote`
  unfoldable pub handle_vote : CheckpointVote → CheckpointService → CheckpointService
  unfolding collect verify_vote_signature
  handle_vote v s =
      if not (v.attestation.subject == n.name)
      then s
      else if not (verify_vote_signature c h n v)
      then s
      else if is_v1 v.attestation
      then s
      else elim s.pending [
        | none ↦ s
        | some p ↦
            if not (eqb_ℤ v.proposal_ts p.proposal.attestation.as_of_time)
              || not (eqb_ℤ v.round p.round)
            then s
            else if p.finalized
            then s
            else collect v p s
      ]
