-- ===== src/CheckpointService/Rounds.antt =====
-- The checkpoint that `tryFindConsensus` bundles, and the event that `storeCheckpoint` makes of it.
use mathlib.Core.Option.{some-injective, none-ne-some}
use nara.Prelude.{
  ℕ, zero, suc, ◌≤◌, ◌≡◌, refl, sym, ap, subst, ◌∙◌, inl, inr, true, Option, some, List, [], ◌∷◌,
  map, arith, ltb, length, take, Bool-cases,
}
use nara.Prelude.Int.{ℤ, pos}
use nara.Prelude.Sort.{Sorter}
use nara.Event.{SyncEvent, CheckpointEventPayload, payload}
use nara.Event.Valid.{has_payload}
use nara.Event.Content.{Host, compute_id, payload_content}
use nara.Ledger.{SyncLedger}
use nara.CheckpointService.{CheckpointProposal, CheckpointVote, Moment, min_voters_required}
use nara.CheckpointService.Consensus.{
  MapRange, ValueKey, same_key, key_of, bundle, winner, try_find_consensus,
}
use nara.CheckpointService.Finalize.{checkpoint_event_of, new_checkpoint_event, set_votes}

length-map : {A B : Type 0} (f : A → B) (xs : List A) → length (map f xs) ≡ length xs
length-map f [] = refl
length-map f (x ∷ xs) = ap suc (length-map f xs)

length-take_le : {A : Type 0} (n : ℕ) (xs : List A) → length (take n xs) ≤ n
length-take_le zero xs = omega arith
length-take_le (suc n) [] = omega arith
length-take_le (suc n) (x ∷ xs) = omega (arith, length-take_le n xs)

-- A checkpoint about the subject of a proposal, with at most ten voters, each with a signature.
pub record Bundles (p : CheckpointProposal) (cp : CheckpointEventPayload) : Type 0 where
  pub version : cp.version ≡ pos 2
  pub subject : cp.subject ≡ p.attestation.subject
  pub subject_id : cp.subject_id ≡ p.attestation.subject_id
  pub signed : length cp.voter_ids ≡ length cp.signatures
  pub capped : length cp.voter_ids ≤ 10

pub bundle-Bundles :
    (p : CheckpointProposal) (k : ValueKey) (votes : List CheckpointVote)
    → Bundles p (bundle p k votes)
unfolding bundle
bundle-Bundles p k votes =
    let ids = λ (vs : List CheckpointVote).
      length-map (λ (v : CheckpointVote). v.attestation.attester_id) vs in
    let signatures = λ (vs : List CheckpointVote).
      length-map (λ (v : CheckpointVote). v.attestation.signature) vs in
    record {
      version = refl;
      subject = refl;
      subject_id = refl;
      signed = elim (Bool-cases (same_key k (key_of p.attestation))) [
        | inl e ↦ rw e (ap suc (ids (take 9 votes) ∙ sym (signatures (take 9 votes))))
        | inr e ↦ rw e (ids (take 10 votes) ∙ sym (signatures (take 10 votes)))
      ];
      capped = elim (Bool-cases (same_key k (key_of p.attestation))) [
        | inl e ↦ rw e (omega (arith, ids (take 9 votes), length-take_le 9 votes))
        | inr e ↦ rw e (omega (arith, ids (take 10 votes), length-take_le 10 votes))
      ];
    }

pub try_find_consensus-Bundles :
    (sorter : Sorter) (range : MapRange) (ledger : Option SyncLedger) (now : ℤ)
    (p : CheckpointProposal) (votes : List CheckpointVote) (cp : CheckpointEventPayload)
    → try_find_consensus sorter range ledger now p votes ≡ some cp
    → Bundles p cp
unfolding try_find_consensus
try_find_consensus-Bundles sorter range ledger now p votes cp e =
    elim (Bool-cases (ltb (length votes) min_voters_required)) [
      | inl few ↦ absurd (none-ne-some _ (rw few at e))
      | inr enough ↦
          elim (Bool-cases
            (ltb (length (winner sorter range p votes).group_votes) min_voters_required)) [
              | inl few ↦ absurd (none-ne-some _ (rw (enough, few) at e))
              | inr most ↦
                  subst (Bundles p) (some-injective _ _ (rw (enough, most) at e))
                    (bundle-Bundles p _ _)
            ]
    ]

-- The event carries the checkpoint as it is.
pub checkpoint_event_of-checkpoint :
    (h : Host) (m : Moment) (cp : CheckpointEventPayload)
    → cp.version ≡ pos 2
    → (e : SyncEvent) × (checkpoint_event_of h m cp ≡ some e)
      × (e.checkpoint ≡ some cp)
      × (has_payload (payload e) ≡ true)
unfolding checkpoint_event_of new_checkpoint_event set_votes compute_id payload payload_content
    has_payload
checkpoint_event_of-checkpoint h m cp two =
    (_, refl, ap (λ v. some (record cp { version = v })) (sym two), refl)
