-- ===== src/CheckpointService/Sound.antt =====
-- The invariant of a `CheckpointService`: what it collects and what it publishes; and the handlers
-- that keep it.
use mathlib.Core.Option.{some-injective}
use nara.Prelude.{
  ◌≤◌, ◌≡◌, refl, subst, inl, inr, Bool, true, false, ◌&&◌, Option, some, List, [], ◌∷◌, ◌++◌, ◌==◌,
  length, Bool-cases, Option-cases, if◌then◌else◌,
}
use nara.Prelude.Int.{ℤ, eqb_ℤ}
use nara.Prelude.Sort.{Sorter}
use nara.Event.{SyncEvent, CheckpointEventPayload}
use nara.Event.Content.{Host}
use nara.Event.Signature.{Crypto}
use nara.CheckpointService.{
  CheckpointProposal, CheckpointVote, PendingProposal, Sent, sent_proposal, sent_vote, sent_final,
  CheckpointService, Node, Moment, is_v1, verify_vote_signature, sign_content,
}
use nara.CheckpointService.Consensus.{MapRange}
use nara.CheckpointService.Handlers.{
  handle_vote, collect, publish, Round2Values, proposal_of, open_proposal, propose_checkpoint_round,
}
use nara.CheckpointService.Finalize.{verify_checkpoint_signatures}

-- Every element has a property.
abbrev pub AreAll : {A : Type 0} → (A → Type 0) → List A → Type 0
AreAll P [] = Unit
AreAll P (x ∷ xs) = P x × AreAll P xs

append-AreAll :
    {A : Type 0} (P : A → Type 0) (xs : List A) (x : A)
    → AreAll P xs
    → P x
    → AreAll P (xs ++ x ∷ [])
append-AreAll P [] x all p = (p, tt)
append-AreAll P (y ∷ ys) x all p = (all.0, append-AreAll P ys x all.1 p)

module _ (c : Crypto) (h : Host) (sorter : Sorter) (range : MapRange) (n : Node) where
  -- A vote about this nara, signed with the key of its voter's ID, in the second version of the
  -- protocol, on the proposal and in its round.
  pub record IsAccepted (as_of_time round : ℤ) (v : CheckpointVote) : Type 0 where
    pub about : (v.attestation.subject == n.name) ≡ true
    pub signed : verify_vote_signature c h n v ≡ true
    pub current : is_v1 v.attestation ≡ false
    pub timely : eqb_ℤ v.proposal_ts as_of_time ≡ true
    pub same_round : eqb_ℤ v.round round ≡ true

  -- A proposal about this nara by its ID, and the votes on it.
  pub record IsRound (p : PendingProposal) : Type 0 where
    pub subject : p.proposal.attestation.subject ≡ n.name
    pub subject_id : p.proposal.attestation.subject_id ≡ n.id
    pub votes : AreAll (IsAccepted p.proposal.attestation.as_of_time p.round) p.votes

  -- An event with a checkpoint about this nara of at most ten voters, each with a signature, of
  -- which enough are good.
  pub record IsCertified (e : SyncEvent) : Type 0 where
    pub held : CheckpointEventPayload
    pub is_held : e.checkpoint ≡ some held
    pub subject : held.subject ≡ n.name
    pub subject_id : held.subject_id ≡ n.id
    pub signed : length held.voter_ids ≡ length held.signatures
    pub capped : length held.voter_ids ≤ 10
    pub verified : (verify_checkpoint_signatures c h sorter range n held).valid ≡ true

  abbrev pub Certified : Sent → Type 0
  Certified (sent_proposal p) = Unit
  Certified (sent_vote v) = Unit
  Certified (sent_final e) = IsCertified e

  pub record IsSound (s : CheckpointService) : Type 0 where
    pub rounds : (p : PendingProposal) → s.pending ≡ some p → IsRound p
    pub finals : AreAll Certified s.published

  pub if-IsSound :
      (b : Bool) (s t : CheckpointService) → IsSound s → IsSound t → IsSound (if b then s else t)
  if-IsSound true s t v w = v
  if-IsSound false s t v w = w

  pub publish-IsSound :
      (m : Moment) (x : Sent) (s : CheckpointService)
      → Certified x
      → IsSound s
      → IsSound (publish m x s)
  unfolding publish
  publish-IsSound m x s good v =
      if-IsSound (m.connected && m.delivers) _ _
        (record { rounds = v.rounds; finals = append-AreAll Certified s.published x v.finals good })
        v

  open_proposal-IsSound :
      (m : Moment) (p : CheckpointProposal) (s : CheckpointService)
      → p.attestation.subject ≡ n.name
      → p.attestation.subject_id ≡ n.id
      → IsSound s
      → IsSound (open_proposal m p s)
  unfolding open_proposal
  open_proposal-IsSound m p s name id v =
      let stored : IsSound (record s {
        pending = some (record { proposal = p; votes = []; round = p.round; finalized = false });
      }) =
        record {
          rounds = λ q e.
              subst IsRound (some-injective _ _ e)
                (record { subject = name; subject_id = id; votes = tt });
          finals = v.finals;
        } in
      let sent = publish-IsSound m (sent_proposal p) _ tt stored in
      if-IsSound m.delivers _ _ (record { rounds = sent.rounds; finals = sent.finals }) stored

  pub propose-IsSound :
      (m : Moment) (round : ℤ) (values : Option Round2Values) (s : CheckpointService)
      → IsSound s
      → IsSound (propose_checkpoint_round c h sorter n m round values s)
  unfolding propose_checkpoint_round
  propose-IsSound m round values s v = elim (Bool-cases m.connected) [
    | inr off ↦ rw off v
    | inl on ↦ elim (Option-cases s.ledger) [
      | inl missing ↦ rw (on, missing, propose_checkpoint_round) v
      | inr (l, held) ↦
          rw (on, held, propose_checkpoint_round)
            (open_proposal-IsSound m (proposal_of c h sorter n l m round values) s
              (unfold proposal_of sign_content in refl) (unfold proposal_of sign_content in refl) v)
    ]
  ]

  collect-IsSound :
      (v : CheckpointVote) (p : PendingProposal) (s : CheckpointService)
      → s.pending ≡ some p
      → IsAccepted p.proposal.attestation.as_of_time p.round v
      → IsSound s
      → IsSound (collect v p s)
  unfolding collect
  collect-IsSound v p s e a w = record {
    rounds = λ q same. subst IsRound (some-injective _ _ same) (
        let r = w.rounds p e in
        record {
          subject = r.subject;
          subject_id = r.subject_id;
          votes =
              append-AreAll (IsAccepted p.proposal.attestation.as_of_time p.round) p.votes v r.votes
                a;
        });
    finals = w.finals;
  }

  pub handle_vote-IsSound :
      (v : CheckpointVote) (s : CheckpointService)
      → IsSound s
      → IsSound (handle_vote c h sorter n v s)
  unfolding handle_vote
  handle_vote-IsSound v s w = elim (Bool-cases (v.attestation.subject == n.name)) [
    | inr other ↦ rw other w
    | inl mine ↦ elim (Bool-cases (verify_vote_signature c h n v)) [
      | inr bad ↦ rw (mine, bad) w
      | inl good ↦ elim (Bool-cases (is_v1 v.attestation)) [
        | inl old ↦ rw (mine, good, old) w
        | inr current ↦ elim (Option-cases s.pending) [
          | inl nothing ↦ rw (mine, good, current, nothing, handle_vote) w
          | inr (p, held) ↦
              elim (Bool-cases (eqb_ℤ v.proposal_ts p.proposal.attestation.as_of_time)) [
                | inr late ↦ rw (mine, good, current, held, late, handle_vote) w
                | inl timely ↦ elim (Bool-cases (eqb_ℤ v.round p.round)) [
                  | inr late ↦ rw (mine, good, current, held, timely, late, handle_vote) w
                  | inl same_round ↦
                      rw (mine, good, current, held, timely, same_round, handle_vote)
                        (if-IsSound p.finalized _ _ w (
                          collect-IsSound v p s held
                            (record {
                              about = mine;
                              signed = good;
                              current = current;
                              timely = timely;
                              same_round = same_round;
                            })
                            w))
                ]
              ]
        ]
      ]
    ]
  ]
