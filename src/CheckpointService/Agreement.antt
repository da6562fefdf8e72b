-- ===== src/CheckpointService/Agreement.antt =====
-- Rounds in which enough voters sign the same values, and the checkpoint that is bundled of them.
use mathlib.Core.List.{mem-cons_self, mem-cons_of_mem, mem-append_left}
use mathlib.Core.List.Perm
use mathlib.Core.Bool.{Bool-set}
use nara.Prelude.{
  ℕ, zero, suc, ◌≤◌, ◌≡◌, refl, sym, ap, subst, inl, inr, true, false, Option, some, List, [], ◌∷◌,
  ◌++◌, map, Mem, Perm, String, ◌==◌, eq_iff, arith, ltb, length, length-perm, take,
  take-append-drop, count_if, count_if-le-length, Bool-cases, Option-cases, if◌then◌else◌,
}
use nara.Prelude.Int.{ℤ, pos, eqb_ℤ, eqb_ℤ→eq}
use nara.Prelude.Sort.{Sorter}
use nara.Event.{CheckpointEventPayload}
use nara.Event.Content.{Host}
use nara.Event.Signature.{Crypto, PublicKeyLookup, verify_signature_base64}
use nara.Ledger.{SyncLedger}
use nara.Checkpoint.Verify.{
  Attestation, attestation_of, signable_content, count_voters, verify_signature_with_counts,
}
use nara.CheckpointService.{
  CheckpointProposal, CheckpointVote, Node, verify_by, verify_content, key_for_id,
  verify_vote_signature,
}
use nara.CheckpointService.Consensus.{
  MapRange, ValueKey, same_key, key_of, bundle, winner, VoteEntry, by_uptime, get_voter_uptime,
  sort_votes, try_find_consensus,
}
use nara.CheckpointService.Finalize.{verify_checkpoint_signatures}
use nara.CheckpointService.Rounds.{bundle-Bundles}
use nara.CheckpointService.Groups.{winner-IsGroupOf, winner-size, signs, same_key→eq}

unpack_votes :
    (uptime : CheckpointVote → ℤ) (votes : List CheckpointVote)
    → map
        (λ (e : VoteEntry). e.vote)
        (map (λ (v : CheckpointVote). record { vote = v; uptime = uptime v }) votes)
      ≡ votes
unpack_votes uptime [] = refl
unpack_votes uptime (v ∷ vs) = ap (◌∷◌ v) (unpack_votes uptime vs)

sort_votes-perm :
    (sorter : Sorter) (ledger : Option SyncLedger) (now : ℤ) (votes : List CheckpointVote)
    → Perm (sort_votes sorter ledger now votes) votes
unfolding sort_votes
sort_votes-perm sorter ledger now votes =
    subst (Perm (sort_votes sorter ledger now votes))
      (unpack_votes (λ v. get_voter_uptime sorter ledger now v.attestation.attester) votes)
      (Perm.map (λ (e : VoteEntry). e.vote) (sorter.sort_perm VoteEntry by_uptime _))

mem-take : {A : Type 0} (k : ℕ) (xs : List A) (x : A) → Mem x (take k xs) → Mem x xs
mem-take k xs x m = subst (Mem x) (take-append-drop k xs) (mem-append_left _ m)

length-take_ge :
    {A : Type 0} (m k : ℕ) (xs : List A) → m ≤ k → m ≤ length xs → m ≤ length (take k xs)
length-take_ge zero k xs a b = omega arith
length-take_ge (suc m) zero xs a b = absurd (omega arith)
length-take_ge (suc m) (suc k) [] a b = absurd (omega arith)
length-take_ge (suc m) (suc k) (x ∷ xs) a b =
    omega (arith, length-take_ge m k xs (omega arith) (omega arith))

module _ (c : Crypto) (h : Host) (n : Node) where
  -- A vote of the second version on the proposal, with a good signature; where it approves, it
  -- signs the values of the proposal.
  pub record IsHonest (p : CheckpointProposal) (v : CheckpointVote) : Type 0 where
    pub version : eqb_ℤ v.attestation.version (pos 2) ≡ true
    pub subject_id : (v.attestation.subject_id == p.attestation.subject_id) ≡ true
    pub as_of_time : eqb_ℤ v.attestation.as_of_time p.attestation.as_of_time ≡ true
    pub signed : verify_vote_signature c h n v ≡ true
    pub approval : v.approved ≡ true → signs (key_of p.attestation) v ≡ true

  pub IsHonest-prop : (p : CheckpointProposal) (v : CheckpointVote) → IsProp (IsHonest p v)
  IsHonest-prop p v x y = λ i. record {
    version = Bool-set _ _ x.version y.version i;
    subject_id = Bool-set _ _ x.subject_id y.subject_id i;
    as_of_time = Bool-set _ _ x.as_of_time y.as_of_time i;
    signed = Bool-set _ _ x.signed y.signed i;
    approval = λ e. Bool-set _ _ (x.approval e) (y.approval e) i;
  }

  -- What a voter of the checkpoint signed is what the vote says.
  same_signed_content :
      (p : CheckpointProposal) (votes : List CheckpointVote) (v : CheckpointVote)
      → IsHonest p v
      → (k : ValueKey) → signs k v ≡ true
      → signable_content c h (attestation_of (bundle p k votes) v.attestation.attester_id)
        ≡ signable_content c h v.attestation
  unfolding signable_content attestation_of bundle
  same_signed_content p votes v good k same =
      let a = v.attestation in
      subst
        (λ k.
          signable_content c h (attestation_of (bundle p k votes) a.attester_id)
          ≡ signable_content c h a)
        (sym (same_key→eq k (key_of a) same))
        (rw
          (
            eqb_ℤ→eq a.version (pos 2) good.version,
            signable_content,
            (eq_iff a.subject_id p.attestation.subject_id).0 good.subject_id,
            eqb_ℤ→eq a.as_of_time p.attestation.as_of_time good.as_of_time,
          )
          refl)

  verify_by_lem :
      (id : String) (a : Attestation)
      → verify_by c h n id a ≡ true
      → (key : List ℕ) × (key_for_id n id ≡ some key)
        × (verify_signature_base64 c key (c.bytes (signable_content c h a)) a.signature ≡ true)
  unfolding verify_by verify_content
  verify_by_lem id a e = elim (Bool-cases (a.signature == "")) [
    | inl empty ↦ absurd (cc (rw empty at e))
    | inr given ↦ elim (Option-cases (key_for_id n id)) [
      | inl unknown ↦ absurd (cc (rw (given, unknown, verify_by) at e))
      | inr (key, known) ↦ (key, known, rw (given, known, verify_by, verify_content) at e)
    ]
  ]

  good_signature :
      (p : CheckpointProposal) (votes : List CheckpointVote) (v : CheckpointVote)
      → IsHonest p v
      → (k : ValueKey) → signs k v ≡ true
      → (key : List ℕ) × (key_for_id n v.attestation.attester_id ≡ some key)
        × (verify_signature_base64 c key
              (c.bytes (
                signable_content c h (attestation_of (bundle p k votes) v.attestation.attester_id)))
              v.attestation.signature
            ≡ true)
  good_signature p votes v good k same =
      let (key, known, fits) =
        verify_by_lem v.attestation.attester_id v.attestation
          (unfold verify_vote_signature in good.signed) in
      (key, known, rw (same_signed_content p votes v good k same) fits)

  abbrev by_id : PublicKeyLookup
  by_id id name = key_for_id n id

  count_voters-honest :
      (p : CheckpointProposal) (votes vs : List CheckpointVote) (k : ValueKey)
      → ((v : CheckpointVote) → Mem v vs → IsHonest p v × (signs k v ≡ true))
      → length vs
        ≤ (count_voters c h by_id
            (bundle p k votes)
            (map (λ (v : CheckpointVote). v.attestation.attester_id) vs)
            (map (λ (v : CheckpointVote). v.attestation.signature) vs)).1
  unfolding count_voters
  count_voters-honest p votes [] k good = omega arith
  count_voters-honest p votes (v ∷ vs) k good =
      let (honest, same) = good v mem-cons_self in
      let (key, known, fits) = good_signature p votes v honest k same in
      let rest = count_voters-honest p votes vs k (λ w m. good w (mem-cons_of_mem v m)) in
      rw (known, fits, count_voters) (omega (arith, rest))

  count_voters-cons :
      (cp : CheckpointEventPayload) (voter s : String) (voters signatures : List String)
      → (count_voters c h by_id cp voters signatures).1
        ≤ (count_voters c h by_id cp (voter ∷ voters) (s ∷ signatures)).1
  unfolding count_voters
  count_voters-cons cp voter s voters signatures = ground arith

  bundle-count :
      (p : CheckpointProposal) (k : ValueKey) (vs : List CheckpointVote)
      → 5 ≤ length vs
      → ((v : CheckpointVote) → Mem v vs → IsHonest p v × (signs k v ≡ true))
      → 5
        ≤ (count_voters c h by_id
            (bundle p k vs)
            (bundle p k vs).voter_ids
            (bundle p k vs).signatures).1
  unfolding bundle
  bundle-count p k vs enough good =
      let ids =
        λ (limit : ℕ). map (λ (v : CheckpointVote). v.attestation.attester_id) (take limit vs) in
      let signatures =
        λ (limit : ℕ). map (λ (v : CheckpointVote). v.attestation.signature) (take limit vs) in
      let top = λ (limit : ℕ).
        count_voters-honest p vs (take limit vs) k (λ v m. good v (mem-take limit vs v m)) in
      let a = p.attestation in
      elim (same_key k (key_of a))
        as (λ b.
          5
          ≤ (count_voters c h by_id (bundle p k vs)
              ((if b then a.subject_id ∷ [] else []) ++ ids (if b then 9 else 10))
              ((if b then a.signature ∷ [] else []) ++ signatures (if b then 9 else 10))).1) [
                | true ↦ omega (
                  arith,
                  top 9,
                  length-take_ge 5 9 vs (omega arith) enough,
                  count_voters-cons (bundle p k vs) a.subject_id a.signature (ids 9) (signatures 9),
                )
                | false ↦ omega (arith, top 10, length-take_ge 5 10 vs (omega arith) enough)
              ]

  enough_good_signatures :
      (sorter : Sorter) (range : MapRange) (cp : CheckpointEventPayload)
      → length cp.voter_ids ≡ length cp.signatures
      → 5 ≤ (count_voters c h by_id cp cp.voter_ids cp.signatures).1
      → ((verify_checkpoint_signatures c h sorter range n cp).valid ≡ true)
        × (5 ≤ (verify_checkpoint_signatures c h sorter range n cp).valid_count)
  unfolding verify_checkpoint_signatures verify_signature_with_counts
  enough_good_signatures sorter range cp same many =
      (ground (arith, same, many), ground (arith, same, many))

  -- Where every vote is of the second version, on the proposal and signed by its voter's key, and
  -- those that approve sign its values, a round in which at least five votes sign the same values
  -- is not lost: `tryFindConsensus` finds a checkpoint, and at least five of its signatures verify.
  -- The other votes may differ in any way.
  pub honest_votes_reach_checkpoint :
      (sorter : Sorter) (range : MapRange) (ledger : Option SyncLedger) (now : ℤ)
      (p : CheckpointProposal) (votes : List CheckpointVote) (k : ValueKey)
      → ((v : CheckpointVote) → Mem v votes → IsHonest p v)
      → 5 ≤ count_if (signs k) votes
      → (cp : CheckpointEventPayload) × (try_find_consensus sorter range ledger now p votes
          ≡ some cp)
        × ((verify_checkpoint_signatures c h sorter range n cp).valid ≡ true)
        × (5 ≤ (verify_checkpoint_signatures c h sorter range n cp).valid_count)
  unfolding try_find_consensus
  honest_votes_reach_checkpoint sorter range ledger now p votes k honest agree =
      let g = winner sorter range p votes in
      let size = winner-size sorter range p votes k agree in
      let good = winner-IsGroupOf sorter range p votes (λ v m. (honest v m).approval) in
      let sorted = sort_votes sorter ledger now g.group_votes in
      let perm = sort_votes-perm sorter ledger now g.group_votes in
      let count =
        bundle-count p g.group_key sorted (omega (arith, size, length-perm perm))
          (λ v m. let (at, same) = good v ((Perm.mem_iff perm).0 m) in (honest v at, same)) in
      let lengths = (bundle-Bundles p g.group_key sorted).signed in
      let many : ltb (length votes) 5 ≡ false =
        ground (arith, agree, count_if-le-length (signs k) votes) in
      let large : ltb (length g.group_votes) 5 ≡ false = ground (arith, size) in
      let (valid, counted) =
        enough_good_signatures sorter range (bundle p g.group_key sorted) lengths count in
      (bundle p g.group_key sorted, rw (many, large) refl, valid, counted)
