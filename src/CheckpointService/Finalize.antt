-- ===== src/CheckpointService/Finalize.antt =====
-- The end of a round in checkpoint_service.go: `finalizeProposal` and what it calls, and
-- `HandleFinalCheckpoint`; `NewCheckpointEvent` of checkpoint_types.go.
use nara.Prelude.{
  true, not, Option, none, some, List, [], ◌∷◌, map, String, ◌==◌, ltb, length, if◌then◌else◌,
  ◌>>=◌,
}
use nara.Prelude.Int.{ℤ, pos, eqb_ℤ}
use nara.Prelude.Sort.{Sorter}
use nara.Event.{SyncEvent, NaraObservation, CheckpointEventPayload, service_checkpoint, deref}
use nara.Event.Content.{Host, compute_id}
use nara.Event.Signature.{Crypto}
use nara.Ledger.Add.{add_event}
use nara.Consensus.{trimmed_mean}
use nara.Checkpoint.Verify.{CheckpointVerificationResult, verify_signature_with_counts}
use nara.CheckpointService.{
  CheckpointVote, PendingProposal, sent_final, CheckpointService, Node, Moment, min_voters_required,
  key_for_id,
}
use nara.CheckpointService.Consensus.{MapRange, try_find_consensus}
use nara.CheckpointService.Handlers.{unix, publish, Round2Values, propose_checkpoint_round}

-- The event of `NewCheckpointEvent` before its ID is computed.
abbrev bare_checkpoint_event : ℤ → String → ℤ → NaraObservation → SyncEvent
bare_checkpoint_event now subject as_of_time o = record {
  id = "";
  timestamp = now;
  service = service_checkpoint;
  emitter = "";
  emitter_id = "";
  signature = "";
  social = none;
  ping = none;
  observation = none;
  hey_there = none;
  chau = none;
  seen = none;
  checkpoint = some (record {
    version = pos 0;
    subject = subject;
    subject_id = "";
    previous_checkpoint_id = "";
    observation = o;
    as_of_time = as_of_time;
    voter_ids = [];
    signatures = [];
  });
}

-- The assignments of `storeCheckpoint` to `event.Checkpoint`.
unfoldable pub set_votes : CheckpointEventPayload → SyncEvent → Option SyncEvent
set_votes from e = deref e.checkpoint λ to. record e {
  checkpoint = some (record to {
    version = pos 2;
    voter_ids = from.voter_ids;
    signatures = from.signatures;
    subject_id = from.subject_id;
    previous_checkpoint_id = from.previous_checkpoint_id;
  });
}

module _ (h : Host) where
  -- `NewCheckpointEvent`
  unfoldable pub new_checkpoint_event : Moment → String → ℤ → NaraObservation → Option SyncEvent
  new_checkpoint_event m subject as_of_time o =
      compute_id h (bare_checkpoint_event m.now subject as_of_time o)

  -- The event of a checkpoint, with the ID that its votes give it.
  unfoldable pub checkpoint_event_of : Moment → CheckpointEventPayload → Option SyncEvent
  unfolding new_checkpoint_event set_votes
  checkpoint_event_of m p = do
    e ← new_checkpoint_event m p.subject p.as_of_time p.observation
    voted ← set_votes p e
    compute_id h voted

-- A field of the observations that the votes sign.
abbrev values_of : (NaraObservation → ℤ) → List CheckpointVote → List ℤ
values_of f votes = map (λ (v : CheckpointVote). f v.attestation.observation) votes

-- The trimmed means of the votes.
unfoldable pub round2_values : Sorter → List CheckpointVote → Option Round2Values
unfolding trimmed_mean
round2_values sorter votes = do
  restarts ← trimmed_mean sorter (values_of (λ (o : NaraObservation). o.restarts) votes)
  uptime ← trimmed_mean sorter (values_of (λ (o : NaraObservation). o.total_uptime) votes)
  first ← trimmed_mean sorter (values_of (λ (o : NaraObservation). o.start_time) votes)
  some (record { restarts = restarts; total_uptime = uptime; first_seen = first })

module _ (c : Crypto) (h : Host) (sorter : Sorter) (range : MapRange) (n : Node) where
  -- `verifyCheckpointSignatures`
  unfoldable pub verify_checkpoint_signatures :
      CheckpointEventPayload → CheckpointVerificationResult
  unfolding verify_signature_with_counts key_for_id
  verify_checkpoint_signatures p =
      verify_signature_with_counts c h (some (λ id name. key_for_id n id)) p

  -- `s.ledger.AddEvent(event)`; through a nil ledger it panics.
  unfoldable pub add_to_ledger : SyncEvent → CheckpointService → Option CheckpointService
  unfolding add_event
  add_to_ledger e s = do
    l ← s.ledger
    added ← add_event sorter h l e
    some (record s { ledger = some added.0 })

  -- The end of `storeCheckpoint`, with `broadcastFinalCheckpoint`.
  unfoldable pub store_verified : Moment → SyncEvent → CheckpointService → Option CheckpointService
  unfolding add_to_ledger publish
  store_verified m e s = do stored ← add_to_ledger e s; some (publish m (sent_final e) stored)

  -- `storeCheckpoint`
  unfoldable pub store_checkpoint :
      Moment → CheckpointEventPayload → CheckpointService → Option CheckpointService
  unfolding checkpoint_event_of verify_checkpoint_signatures store_verified
  store_checkpoint m p s = do
    e ← checkpoint_event_of h m p
    voted ← e.checkpoint
    if not (verify_checkpoint_signatures voted).valid then some s else store_verified m e s

  -- `proposeRound2`
  unfoldable pub propose_round2 :
      Moment → List CheckpointVote → CheckpointService → Option CheckpointService
  unfolding propose_checkpoint_round round2_values
  propose_round2 m [] s = some s
  propose_round2 m (v ∷ vs) s = do
    values ← round2_values sorter (v ∷ vs)
    some (propose_checkpoint_round c h sorter n m (pos 2) (some values) s)

  -- The three outcomes of a round.
  unfoldable pub conclude :
      Moment
      → PendingProposal
      → Option CheckpointEventPayload
      → CheckpointService
      → Option CheckpointService
  unfolding store_checkpoint propose_round2
  conclude m p (some checkpoint) s = do
    stored ← store_checkpoint m checkpoint s
    some (record stored { last_checkpoint_time = m.now })
  conclude m p none s =
      if eqb_ℤ p.round (pos 1)
      then propose_round2 m p.votes s
      else some (record s { last_checkpoint_time = m.now })

  -- `finalizeProposal`
  unfoldable pub finalize_proposal : Moment → CheckpointService → Option CheckpointService
  unfolding conclude try_find_consensus
  finalize_proposal m s = elim s.pending [
    | none ↦ some s
    | some p ↦
        if p.finalized
        then some s
        else conclude m p (try_find_consensus sorter range s.ledger (unix m) p.proposal p.votes)
            (record s { pending = some (record p { finalized = true }) })
  ]

  -- `HandleFinalCheckpoint`
  unfoldable pub handle_final_checkpoint : SyncEvent → CheckpointService → Option CheckpointService
  unfolding verify_checkpoint_signatures add_to_ledger
  handle_final_checkpoint e s =
      if not (e.service == service_checkpoint) then some s else elim e.checkpoint [
        | none ↦ some s
        | some p ↦
            if p.subject == n.name
            then some s
            else if ltb (length p.signatures) min_voters_required
            then some s
            else if not (verify_checkpoint_signatures p).valid
            then some s
            else add_to_ledger e s
      ]
