-- ===== src/CheckpointService/Stored.antt =====
-- Storing a checkpoint, the end of a round and the checkpoints of others keep the invariant.
use mathlib.Core.Option.{some-injective}
use nara.Prelude.{
  ◌≤◌, ◌≡◌, refl, sym, ap, subst, ◌∙◌, inl, inr, true, Option, none, some, List, [], ◌∷◌, ◌==◌, ltb,
  length, Bool-cases, Option-cases, >>=-some,
}
use nara.Prelude.Int.{pos, eqb_ℤ}
use nara.Prelude.Sort.{Sorter}
use nara.Event.{SyncEvent, CheckpointEventPayload, service_checkpoint}
use nara.Event.Content.{Host}
use nara.Event.Signature.{Crypto}
use nara.Ledger.Add.{add_event}
use nara.CheckpointService.{
  CheckpointVote, PendingProposal, sent_final, CheckpointService, Node, Moment, min_voters_required,
}
use nara.CheckpointService.Consensus.{MapRange}
use nara.CheckpointService.Handlers.{unix}
use nara.CheckpointService.Finalize.{
  finalize_proposal, handle_final_checkpoint, conclude, store_checkpoint,
  verify_checkpoint_signatures, add_to_ledger, store_verified, propose_round2, round2_values,
  checkpoint_event_of,
}
use nara.CheckpointService.Rounds.{
  Bundles, try_find_consensus-Bundles, checkpoint_event_of-checkpoint,
}
use nara.CheckpointService.Sound.{IsRound, IsSound, publish-IsSound, propose-IsSound}

module _ (c : Crypto) (h : Host) (sorter : Sorter) (range : MapRange) (n : Node) where
  abbrev Sound : CheckpointService → Type 0
  Sound = IsSound c h sorter range n

  pub add_to_ledger-IsSound :
      (e : SyncEvent) (s t : CheckpointService)
      → add_to_ledger c h sorter range n e s ≡ some t
      → Sound s
      → Sound t
  unfolding add_to_ledger
  add_to_ledger-IsSound e s t done v =
      let (l, held, rest) = >>=-some s.ledger _ t done in
      let (added, at, end) = >>=-some (add_event sorter h l e) _ t rest in
      subst Sound (some-injective _ _ end) (record { rounds = v.rounds; finals = v.finals })

  store_checkpoint-IsSound :
      (m : Moment) (cp : CheckpointEventPayload) (s t : CheckpointService)
      → cp.version ≡ pos 2
      → cp.subject ≡ n.name
      → cp.subject_id ≡ n.id
      → length cp.voter_ids ≡ length cp.signatures
      → length cp.voter_ids ≤ 10
      → store_checkpoint c h sorter range n m cp s ≡ some t
      → Sound s
      → Sound t
  unfolding store_checkpoint store_verified
  store_checkpoint-IsSound m cp s t two name id signed capped done v =
      let (e, made, holds, full) = checkpoint_event_of-checkpoint h m cp two in
      let (e', again, rest) = >>=-some (checkpoint_event_of h m cp) _ t done in
      let same : e ≡ e' = some-injective _ _ (sym made ∙ again) in
      let (held, at, end) = >>=-some e'.checkpoint _ t rest in
      let is_cp : cp ≡ held =
        some-injective _ _ (sym holds ∙ ap (λ (x : SyncEvent). x.checkpoint) same ∙ at) in
      elim (Bool-cases (verify_checkpoint_signatures c h sorter range n held).valid) [
        | inr bad ↦ subst Sound (some-injective _ _ (rw bad at end)) v
        | inl good ↦
            let (stored, ok, fin) =
              >>=-some (add_to_ledger c h sorter range n e' s) _ t (rw good at end) in
            subst Sound (some-injective _ _ fin) (
              publish-IsSound c h sorter range n m (sent_final e') stored
                (record {
                  held = held;
                  is_held = at;
                  subject = subst (λ (x : CheckpointEventPayload). x.subject ≡ n.name) is_cp name;
                  subject_id = subst (λ (x : CheckpointEventPayload). x.subject_id ≡ n.id) is_cp id;
                  signed =
                      subst
                        (λ (x : CheckpointEventPayload). length x.voter_ids ≡ length x.signatures)
                        is_cp signed;
                  capped =
                      subst (λ (x : CheckpointEventPayload). length x.voter_ids ≤ 10) is_cp capped;
                  verified = good;
                })
                (add_to_ledger-IsSound e' s stored ok v))
      ]

  propose_round2-IsSound :
      (m : Moment) (votes : List CheckpointVote) (s t : CheckpointService)
      → propose_round2 c h sorter range n m votes s ≡ some t
      → Sound s
      → Sound t
  unfolding propose_round2
  propose_round2-IsSound m [] s t done v = subst Sound (some-injective _ _ done) v
  propose_round2-IsSound m (x ∷ xs) s t done v =
      let (values, means, end) = >>=-some (round2_values sorter (x ∷ xs)) _ t done in
      subst Sound (some-injective _ _ end)
        (propose-IsSound c h sorter range n m (pos 2) (some values) s v)

  conclude-IsSound :
      (m : Moment) (p : PendingProposal) (found : Option CheckpointEventPayload)
      (s t : CheckpointService)
      → IsRound c h sorter range n p
      → ((cp : CheckpointEventPayload) → found ≡ some cp → Bundles p.proposal cp)
      → conclude c h sorter range n m p found s ≡ some t
      → Sound s
      → Sound t
  unfolding conclude
  conclude-IsSound m p (some cp) s t r b done v =
      let bundles = b cp refl in
      let (stored, at, end) = >>=-some (store_checkpoint c h sorter range n m cp s) _ t done in
      let w =
        store_checkpoint-IsSound m cp s stored bundles.version (bundles.subject ∙ r.subject)
          (bundles.subject_id ∙ r.subject_id) bundles.signed bundles.capped at v in
      subst Sound (some-injective _ _ end) (record { rounds = w.rounds; finals = w.finals })
  conclude-IsSound m p none s t r b done v = elim (Bool-cases (eqb_ℤ p.round (pos 1))) [
    | inl first ↦ propose_round2-IsSound m p.votes s t (rw first at done) v
    | inr second ↦
        subst Sound (some-injective _ _ (rw second at done))
          (record { rounds = v.rounds; finals = v.finals })
  ]

  pub finalize_proposal-IsSound :
      (m : Moment) (s t : CheckpointService)
      → finalize_proposal c h sorter range n m s ≡ some t
      → Sound s
      → Sound t
  unfolding finalize_proposal
  finalize_proposal-IsSound m s t done v = elim (Option-cases s.pending) [
    | inl nothing ↦ subst Sound (some-injective _ _ (rw (nothing, finalize_proposal) at done)) v
    | inr (p, held) ↦ elim (Bool-cases p.finalized) [
      | inl closed ↦
          subst Sound (some-injective _ _ (rw (held, closed, finalize_proposal) at done)) v
      | inr open_round ↦
          let r = v.rounds p held in
          conclude-IsSound m p _ (record s { pending = some (record p { finalized = true }) }) t r
            (try_find_consensus-Bundles sorter range s.ledger (unix m) p.proposal p.votes)
            (rw (held, open_round, finalize_proposal) at done)
            (record {
              rounds = λ q e.
                  subst (IsRound c h sorter range n) (some-injective _ _ e)
                    (record { subject = r.subject; subject_id = r.subject_id; votes = r.votes });
              finals = v.finals;
            })
    ]
  ]

  pub handle_final_checkpoint-IsSound :
      (e : SyncEvent) (s t : CheckpointService)
      → handle_final_checkpoint c h sorter range n e s ≡ some t
      → Sound s
      → Sound t
  unfolding handle_final_checkpoint
  handle_final_checkpoint-IsSound e s t done v =
      let same = λ (d : some s ≡ some t). subst Sound (some-injective _ _ d) v in
      elim (Bool-cases (e.service == service_checkpoint)) [
        | inr other ↦ same (rw other at done)
        | inl is_checkpoint ↦ elim (Option-cases e.checkpoint) [
          | inl nothing ↦ same (rw (is_checkpoint, nothing, handle_final_checkpoint) at done)
          | inr (p, held) ↦ elim (Bool-cases (p.subject == n.name)) [
            | inl own ↦ same (rw (is_checkpoint, held, own, handle_final_checkpoint) at done)
            | inr other ↦ elim (Bool-cases (ltb (length p.signatures) min_voters_required)) [
              | inl few ↦
                  same (rw (is_checkpoint, held, other, few, handle_final_checkpoint) at done)
              | inr enough ↦
                  elim (Bool-cases (verify_checkpoint_signatures c h sorter range n p).valid) [
                    | inr bad ↦ same (
                        rw (is_checkpoint, held, other, enough, bad, handle_final_checkpoint) at
                          done)
                    | inl good ↦
                        add_to_ledger-IsSound e s t
                          (rw (is_checkpoint, held, other, enough, good, handle_final_checkpoint) at
                            done)
                          v
                  ]
            ]
          ]
        ]
      ]
