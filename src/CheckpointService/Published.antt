-- ===== src/CheckpointService/Published.antt =====
-- `finalizeProposal` at the end of a round with enough honest votes: what it publishes. The
-- checkpoint is handed to the ledger too, which may refuse it.
use nara.Prelude.{
  ◌≤◌, ◌≡◌, refl, ap, ◌∙◌, inl, inr, true, false, not, Option, some, [], ◌∷◌, ◌++◌, Mem, count_if,
  Option-cases, if◌then◌else◌, ◌>>=◌,
}
use nara.Prelude.Int.{pos}
use nara.Prelude.Sort.{Sorter}
use nara.Event.{SyncEvent, CheckpointEventPayload, payload}
use nara.Event.Valid.{has_payload}
use nara.Event.Content.{Host}
use nara.Event.Signature.{Crypto}
use nara.Ledger.{SyncLedger}
use nara.Ledger.Add.{add_event}
use nara.Ledger.Add.Outcome.{add_event-returns}
use nara.CheckpointService.{
  CheckpointVote, PendingProposal, sent_final, CheckpointService, Node, Moment,
}
use nara.CheckpointService.Consensus.{MapRange, ValueKey}
use nara.CheckpointService.Handlers.{publish, unix}
use nara.CheckpointService.Finalize.{
  finalize_proposal, conclude, store_checkpoint, store_verified, add_to_ledger,
  verify_checkpoint_signatures,
}
use nara.CheckpointService.Rounds.{try_find_consensus-Bundles, checkpoint_event_of-checkpoint}
use nara.CheckpointService.Groups.{signs}
use nara.CheckpointService.Agreement.{IsHonest, honest_votes_reach_checkpoint}

module _ (c : Crypto) (h : Host) (sorter : Sorter) (range : MapRange) (n : Node) where
  store_verified-publishes :
      (m : Moment) (e : SyncEvent) (s : CheckpointService) (l : SyncLedger)
      → s.ledger ≡ some l
      → m.connected ≡ true
      → m.delivers ≡ true
      → has_payload (payload e) ≡ true
      → (t : CheckpointService) × (store_verified c h sorter range n m e s ≡ some t)
        × (t.published ≡ s.published ++ sent_final e ∷ [])
  unfolding store_verified add_to_ledger publish
  store_verified-publishes m e s l held on goes full =
      elim (Option-cases (add_event sorter h l e)) [
        | inl panic ↦ absurd (add_event-returns sorter h l e full panic)
        | inr (r, added) ↦ (
          record s { ledger = some r.0; published = s.published ++ sent_final e ∷ [] },
          rw (held, added, on, goes) refl,
          refl,
        )
      ]

  store_checkpoint-publishes :
      (m : Moment) (cp : CheckpointEventPayload) (s : CheckpointService) (l : SyncLedger)
      → s.ledger ≡ some l
      → m.connected ≡ true
      → m.delivers ≡ true
      → cp.version ≡ pos 2
      → (verify_checkpoint_signatures c h sorter range n cp).valid ≡ true
      → (t : CheckpointService) × (e : SyncEvent) × (store_checkpoint c h sorter range n m cp s
          ≡ some t)
        × (t.published ≡ s.published ++ sent_final e ∷ [])
        × (e.checkpoint ≡ some cp)
  unfolding store_checkpoint
  store_checkpoint-publishes m cp s l held on goes two good =
      let (e, made, holds, full) = checkpoint_event_of-checkpoint h m cp two in
      let (t, stored, sent) = store_verified-publishes m e s l held on goes full in
      let accept : CheckpointEventPayload → Option CheckpointService = λ voted.
        if not (verify_checkpoint_signatures c h sorter range n voted).valid
        then some s
        else store_verified c h sorter range n m e s in
      let accepted : accept cp ≡ some t =
        ap (λ b. if not b then some s else store_verified c h sorter range n m e s) good ∙ stored in
      (t, e, rw made (ap (λ o. o >>= accept) holds ∙ accepted), sent, holds)

  -- Where every vote of the pending round is of the second version, on the proposal and signed by
  -- its voter's key, those that approve sign its values, and at least five votes sign the same
  -- values: with a ledger and a connection, `finalizeProposal` returns, and it has published one
  -- more event, with a checkpoint at least five of whose signatures verify.
  pub honest_round_publishes :
      (m : Moment) (s : CheckpointService) (p : PendingProposal) (l : SyncLedger) (k : ValueKey)
      → s.pending ≡ some p
      → p.finalized ≡ false
      → s.ledger ≡ some l
      → m.connected ≡ true
      → m.delivers ≡ true
      → ((v : CheckpointVote) → Mem v p.votes → IsHonest c h n p.proposal v)
      → 5 ≤ count_if (signs k) p.votes
      → (t : CheckpointService) × (e : SyncEvent) × (cp : CheckpointEventPayload)
        × (finalize_proposal c h sorter range n m s ≡ some t)
        × (t.published ≡ s.published ++ sent_final e ∷ [])
        × (e.checkpoint ≡ some cp)
        × (5 ≤ (verify_checkpoint_signatures c h sorter range n cp).valid_count)
        × (t.last_checkpoint_time ≡ m.now)
  unfolding finalize_proposal conclude
  honest_round_publishes m s p l k pending unfinished held on goes honest agree =
      let (cp, found, valid, counted) =
        honest_votes_reach_checkpoint c h n sorter range s.ledger (unix m) p.proposal p.votes k
          honest agree in
      let bundles =
        try_find_consensus-Bundles sorter range s.ledger (unix m) p.proposal p.votes cp found in
      let (t, e, stored, sent, holds) =
        store_checkpoint-publishes m cp
          (record s { pending = some (record p { finalized = true }) }) l held on goes
          bundles.version valid in
      (
        record t { last_checkpoint_time = m.now },
        e,
        cp,
        rw (pending, finalize_proposal, unfinished, found, conclude, stored) refl,
        sent,
        holds,
        counted,
        refl,
      )
