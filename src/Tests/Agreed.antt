-- ===== src/Tests/Agreed.antt =====
-- Consensus, and the rounds of the checkpoint service, at concrete values and votes.
use mathlib.Core.List.{mem-cons, not-mem-nil}
use mathlib.Core.Bool.{Bool-set}
use mathlib.Core.Logic.Or
use nara.Prelude.{
  ◌≤◌, ◌≡◌, refl, sym, subst, true, false, ◌&&◌, Option, none, some, List, [], ◌∷◌, Mem, count_if,
  length, keep, arith,
}
use nara.Prelude.Int.{ℤ, pos, leb_ℤ, wrap, ◌-ℤ◌, div_pos}
use nara.Prelude.Sort.Insertion.{insertion}
use nara.Consensus.{ConsensusValue, consensus_by_uptime, trimmed_mean}
use nara.Consensus.Chosen.{consensus_by_uptime-reported}
use nara.Consensus.Mean.{AreBetween, AnswersBetween, trimmed_mean-bounds}
use nara.Event.{SyncEvent, CheckpointEventPayload, payload}
use nara.Event.Valid.{is_valid, payload_valid, checkpoint_valid}
use nara.Ledger.{should_filter_checkpoint}
use nara.Event.Signature.{verify_signature_base64, verify_signature}
use nara.CheckpointService.{
  CheckpointVote, PendingProposal, CheckpointService, sent_final, verify_vote_signature,
  new_checkpoint_service,
}
use nara.CheckpointService.Consensus.{key_of, same_key}
use nara.CheckpointService.Handlers.{handle_vote, check_and_propose, proposal_of}
use nara.CheckpointService.Finalize.{finalize_proposal, verify_checkpoint_signatures}
use nara.CheckpointService.Steps.{Reachable, fresh, after, ticked, got_vote, finalizing}
use nara.CheckpointService.Sound.{IsRound, Certified, AreAll}
use nara.CheckpointService.Runs.{collected_votes_are_accepted, published_checkpoints-Certified}
use nara.CheckpointService.Agreement.{IsHonest, IsHonest-prop}
use nara.CheckpointService.Published.{honest_round_publishes}
use nara.Tests.Data.{crypto, host}
use nara.Tests.Rounds.{
  node, in_order, noon, empty_ledger, claim_of, proposal, vote_of, five_votes, service_with,
}

abbrev reports : List ConsensusValue
reports =
    record { value = pos 50; weight = 3 }
    ∷ record { value = pos 7; weight = 9 }
    ∷ record { value = pos 51; weight = 4 }
    ∷ []

consensus_by_uptime-reported_example :
    (x : ℤ) × (consensus_by_uptime insertion true reports (pos 2) true ≡ some x)
    × Mem x (pos 50 ∷ pos 7 ∷ pos 51 ∷ [])
consensus_by_uptime-reported_example =
    consensus_by_uptime-reported insertion true reports (pos 2) true (omega arith)

-- The cluster of the two near values wins over the heavier one.
consensus_of_near : consensus_by_uptime insertion true reports (pos 2) true ≡ some (pos 51)
unfolding consensus_by_uptime insertion wrap
consensus_of_near = refl

mem-AreAll :
    {A : Type 0} (P : A → Type 0) (xs : List A)
    → ((x : A) → IsProp (P x))
    → AreAll P xs
    → (x : A) → Mem x xs
    → P x
mem-AreAll P [] p all x m = absurd (not-mem-nil m)
mem-AreAll P (y ∷ ys) p all x m =
    Or.elim (p x) (mem-cons.0 m) (λ e. subst P (sym e) all.0) (mem-AreAll P ys p all.1 x)

small_values : AreBetween 3 40 (pos 3 ∷ pos 4 ∷ pos 40 ∷ [])
small_values =
    mem-AreAll (λ x. (leb_ℤ (pos 3) x && leb_ℤ x (pos 40)) ≡ true) (pos 3 ∷ pos 4 ∷ pos 40 ∷ [])
      (λ x. Bool-set _ _) (refl, (refl, (refl, tt)))

trimmed_mean-bounds_example :
    AnswersBetween 3 40 (trimmed_mean insertion (pos 3 ∷ pos 4 ∷ pos 40 ∷ []))
trimmed_mean-bounds_example =
    trimmed_mean-bounds insertion 3 40 (pos 3 ∷ pos 4 ∷ pos 40 ∷ []) (omega arith) small_values
      (omega arith)

vote_of-IsHonest : IsHonest crypto host (node "ann") proposal (vote_of "bob")
unfolding verify_vote_signature verify_signature_base64 verify_signature same_key
vote_of-IsHonest = record {
  version = refl;
  subject_id = refl;
  as_of_time = refl;
  signed = refl;
  approval = λ e. refl;
}

five_votes-AreHonest :
    (v : CheckpointVote) → Mem v five_votes.votes → IsHonest crypto host (node "ann") proposal v
five_votes-AreHonest =
    let h = vote_of-IsHonest in
    mem-AreAll (IsHonest crypto host (node "ann") proposal) five_votes.votes
      (IsHonest-prop crypto host (node "ann") proposal) (h, (h, (h, (h, (h, tt)))))

honest_round_publishes_example :
    (t : CheckpointService) × (e : SyncEvent) × (cp : CheckpointEventPayload) × (finalize_proposal
        crypto host insertion in_order
        (node "ann")
        noon
        (service_with five_votes)
      ≡ some t)
    × (t.published ≡ sent_final e ∷ [])
    × (e.checkpoint ≡ some cp)
    × (5
        ≤ (verify_checkpoint_signatures crypto host insertion in_order (node "ann") cp).valid_count)
    × (t.last_checkpoint_time ≡ pos 1000000000000)
unfolding count_if same_key
honest_round_publishes_example =
    honest_round_publishes crypto host insertion in_order (node "ann") noon
      (service_with five_votes) five_votes empty_ledger (key_of (claim_of "ann")) refl refl refl
      refl refl five_votes-AreHonest (omega arith)

-- The first proposal, with the votes given.
abbrev first_round : List CheckpointVote → PendingProposal
first_round votes = record {
  proposal = proposal_of crypto host insertion (node "ann") empty_ledger noon (pos 1) none;
  votes = votes;
  round = pos 1;
  finalized = false;
}

abbrev step_vote : CheckpointService → CheckpointService
step_vote s = handle_vote crypto host insertion (node "ann") (vote_of "bob") s

abbrev proposed : CheckpointService
proposed =
    check_and_propose crypto host insertion (node "ann") noon
      (new_checkpoint_service (some empty_ledger))

one_vote_reached :
    Reachable crypto host insertion in_order (node "ann") (some empty_ledger) (step_vote proposed)
one_vote_reached = after (after fresh (ticked noon)) (got_vote (vote_of "bob"))

collected_votes_are_accepted_example :
    IsRound crypto host insertion in_order (node "ann") (first_round (vote_of "bob" ∷ []))
unfolding handle_vote check_and_propose verify_signature_base64 verify_signature proposal_of ◌-ℤ◌
    div_pos
collected_votes_are_accepted_example =
    collected_votes_are_accepted crypto host insertion in_order (node "ann")
      (first_round (vote_of "bob" ∷ [])) one_vote_reached refl

abbrev five_collected : CheckpointService
five_collected = step_vote (step_vote (step_vote (step_vote (step_vote proposed))))

abbrev finish : CheckpointService → Option CheckpointService
finish s =
    finalize_proposal crypto host insertion in_order (node "ann") noon (record s { finalizers = 1 })

abbrev finished : CheckpointService
finished = elim (finish five_collected) [ none ↦ five_collected | some t ↦ t ]

finishes : finish five_collected ≡ some finished
unfolding finalize_proposal handle_vote check_and_propose verify_signature_base64 verify_signature
    ◌-ℤ◌ div_pos keep payload insertion is_valid payload_valid checkpoint_valid
    should_filter_checkpoint
finishes = refl

finished_reached :
    Reachable crypto host insertion in_order (node "ann") (some empty_ledger) finished
unfolding handle_vote check_and_propose verify_signature_base64 verify_signature ◌-ℤ◌ div_pos
finished_reached =
    let vote = vote_of "bob" in
    after
      (after
        (after
          (after (after (after (after fresh (ticked noon)) (got_vote vote)) (got_vote vote))
            (got_vote vote))
          (got_vote vote))
        (got_vote vote))
      (finalizing noon 1 refl finishes)

-- The proposal and the final checkpoint.
finished_published : length finished.published ≡ 2
unfolding finalize_proposal handle_vote check_and_propose verify_signature_base64 verify_signature
    ◌-ℤ◌ div_pos keep payload insertion is_valid payload_valid checkpoint_valid
    should_filter_checkpoint
finished_published = refl

published_checkpoints-Certified_example :
    AreAll (Certified crypto host insertion in_order (node "ann")) finished.published
published_checkpoints-Certified_example =
    published_checkpoints-Certified crypto host insertion in_order (node "ann") finished_reached
