-- ===== src/CheckpointService/Runs.antt =====
-- What holds in every state that a `CheckpointService` reaches: of the votes it collects, and of the
-- checkpoints it publishes.
use mathlib.Core.Option.{none-ne-some}
use nara.Prelude.{
  ℕ, ◌+◌, ◌≡◌, inl, inr, not, Option, none, some, ◌==◌, ltb, eqb, get_elem?, Option-cases,
}
use nara.Prelude.Int.{pos, ltb_ℤ, ◌-ℤ◌}
use nara.Prelude.Sort.{Sorter}
use nara.Event.Content.{Host}
use nara.Event.Signature.{Crypto}
use nara.Ledger.{SyncLedger}
use nara.CheckpointService.{
  CheckpointProposal, CheckpointVote, PendingProposal, sent_vote, CheckpointService, Node, Moment,
  is_v1, verify_proposal_signature, min_voters_required,
}
use nara.CheckpointService.Consensus.{MapRange}
use nara.CheckpointService.Handlers.{
  initialize_last_checkpoint_time, check_and_propose, handle_proposal, publish_delayed, is_open,
  cast, vote_on,
}
use nara.CheckpointService.Steps.{
  Step, started, ticked, got_proposal, jitter_ended, got_vote, finalizing, got_final,
  ledger_changed, Reachable, fresh, after,
}
use nara.CheckpointService.Stored.{finalize_proposal-IsSound, handle_final_checkpoint-IsSound}
use nara.CheckpointService.Sound.{
  AreAll, IsRound, Certified, IsSound, if-IsSound, publish-IsSound, propose-IsSound,
  handle_vote-IsSound,
}

module _ (c : Crypto) (h : Host) (sorter : Sorter) (range : MapRange) (n : Node) where
  abbrev Sound : CheckpointService → Type 0
  Sound = IsSound c h sorter range n

  check_and_propose-IsSound :
      (m : Moment) (s : CheckpointService) → Sound s → Sound (check_and_propose c h sorter n m s)
  unfolding check_and_propose
  check_and_propose-IsSound m s v =
      let keep_if = if-IsSound c h sorter range n in
      keep_if (not m.boot_complete) _ _ v (
        keep_if (ltb_ℤ (m.now -ℤ s.last_checkpoint_time) s.checkpoint_interval) _ _ v (
          keep_if (is_open s.pending) _ _ v (
            keep_if (ltb m.online_count (min_voters_required + 1)) _ _ v
              (propose-IsSound c h sorter range n m (pos 1) none s v))))

  cast-IsSound :
      (m : Moment) (x : CheckpointVote) (s : CheckpointService) → Sound s → Sound (cast m x s)
  unfolding cast
  cast-IsSound m x s v =
      if-IsSound c h sorter range n (eqb m.jitter 0) _ _
        (publish-IsSound c h sorter range n m (sent_vote x) s tt v)
        (record { rounds = v.rounds; finals = v.finals })

  handle_proposal-IsSound :
      (m : Moment) (p : CheckpointProposal) (s : CheckpointService)
      → Sound s
      → Sound (handle_proposal c h sorter n m p s)
  unfolding handle_proposal
  handle_proposal-IsSound m p s v =
      let keep_if = if-IsSound c h sorter range n in
      keep_if (p.attestation.subject == n.name) _ _ v (
        keep_if (not m.boot_complete) _ _ v (elim (Option-cases s.ledger) [
          | inl missing ↦ rw (missing, handle_proposal) v
          | inr (l, held) ↦
              rw (held, handle_proposal)
                (keep_if (not (verify_proposal_signature c h n p)) _ _ v (
                  keep_if (is_v1 p.attestation) _ _ v
                    (cast-IsSound m (vote_on c h sorter n l m p) s v)))
        ]))

  publish_delayed-IsSound :
      (m : Moment) (i : ℕ) (s : CheckpointService) → Sound s → Sound (publish_delayed m i s)
  unfolding publish_delayed
  publish_delayed-IsSound m i s v = elim (Option-cases (get_elem? s.delayed i)) [
    | inl nothing ↦ rw (nothing, publish_delayed) v
    | inr (x, at) ↦
        rw (at, publish_delayed)
          (publish-IsSound c h sorter range n m (sent_vote x) _ tt
            (record { rounds = v.rounds; finals = v.finals }))
  ]

  initialize-IsSound :
      (m : Moment) (s : CheckpointService) → Sound s → Sound (initialize_last_checkpoint_time n m s)
  unfolding initialize_last_checkpoint_time
  initialize-IsSound m s v = elim (Option-cases s.ledger) [
    | inl missing ↦ rw (missing, initialize_last_checkpoint_time) v
    | inr (l, held) ↦
        rw (held, initialize_last_checkpoint_time) (record { rounds = v.rounds; finals = v.finals })
  ]

  Step-IsSound : {s t : CheckpointService} → Step c h sorter range n s t → Sound s → Sound t
  Step-IsSound (started {s = s} m) v = initialize-IsSound m s v
  Step-IsSound (ticked {s = s} m) v = check_and_propose-IsSound m s v
  Step-IsSound (got_proposal {s = s} m p) v = handle_proposal-IsSound m p s v
  Step-IsSound (jitter_ended {s = s} m i) v = publish_delayed-IsSound m i s v
  Step-IsSound (got_vote {s = s} x) v = handle_vote-IsSound c h sorter range n x s v
  Step-IsSound (finalizing {s = s} {t = t} m k some_left done) v =
      finalize_proposal-IsSound c h sorter range n m _ t done
        (record { rounds = v.rounds; finals = v.finals })
  Step-IsSound (got_final {s = s} {t = t} e done) v =
      handle_final_checkpoint-IsSound c h sorter range n e s t done v
  Step-IsSound (ledger_changed l) v = record { rounds = v.rounds; finals = v.finals }

  Reachable-IsSound :
      {ledger : Option SyncLedger} {s : CheckpointService}
      → Reachable c h sorter range n ledger s
      → Sound s
  Reachable-IsSound fresh = record { rounds = λ p e. absurd (none-ne-some _ e); finals = tt }
  Reachable-IsSound (after r step) = Step-IsSound step (Reachable-IsSound r)

  -- In every state that the service reaches, whatever the order of its messages, the pending
  -- proposal is about this nara, and every vote collected on it is about this nara too, is signed
  -- with the key that is known for the ID of its voter, in the second version of the protocol, and
  -- names the time and the round of the proposal. The pool of keys does not change in the run.
  pub collected_votes_are_accepted :
      {ledger : Option SyncLedger} {s : CheckpointService} (p : PendingProposal)
      → Reachable c h sorter range n ledger s
      → s.pending ≡ some p
      → IsRound c h sorter range n p
  collected_votes_are_accepted p r e = (Reachable-IsSound r).rounds p e

  -- In every state that the service reaches, each final checkpoint that it has published is about
  -- this nara, has at most ten voters and one signature for each, and at least two of the
  -- signatures are good. The pool of keys does not change in the run.
  pub published_checkpoints-Certified :
      {ledger : Option SyncLedger} {s : CheckpointService}
      → Reachable c h sorter range n ledger s
      → AreAll (Certified c h sorter range n) s.published
  published_checkpoints-Certified r = (Reachable-IsSound r).finals
