-- ===== src/CheckpointService/Consensus.antt =====
-- `tryFindConsensus` of checkpoint_service.go: the votes of a round, grouped by what they sign, and
-- the checkpoint of the group that wins.
--
-- A Go map is ranged over in an unknown order: `MapRange`.
use mathlib.Core.List.{map}
use nara.Prelude.{
  ◌-◌, Bool, ◌&&◌, Option, none, some, List, [], ◌∷◌, ◌++◌, Perm, String, ◌==◌, leb, ltb, length,
  take, keep, if◌then◌else◌,
}
use nara.Prelude.Int.{ℤ, pos, ltb_ℤ, eqb_ℤ}
use nara.Prelude.Sort.{Sorter}
use nara.Event.{CheckpointEventPayload}
use nara.Ledger.{SyncLedger}
use nara.Checkpoint.Uptime.{derive_total_uptime}
use nara.Checkpoint.Verify.{Attestation}
use nara.CheckpointService.{
  CheckpointProposal, CheckpointVote, min_voters_required, max_checkpoint_signatures,
}

-- `for k, v := range m` of Go, over the entries of a map.
pub record MapRange : Type 1 where
  pub entries : (A : Type 0) → List A → List A
  pub entries_perm : (A : Type 0) (xs : List A) → Perm (entries A xs) xs

pub record ValueKey : Type 0 where
  pub restarts : ℤ
  pub total_uptime : ℤ
  pub first_seen : ℤ
  pub last_seen_checkpoint_id : String

-- The key of a vote and the key of the proposal.
abbrev pub key_of : Attestation → ValueKey
key_of a = record {
  restarts = a.observation.restarts;
  total_uptime = a.observation.total_uptime;
  first_seen = a.observation.start_time;
  last_seen_checkpoint_id = a.last_seen_checkpoint_id;
}

unfoldable pub same_key : ValueKey → ValueKey → Bool
same_key a b =
    eqb_ℤ a.restarts b.restarts
    && eqb_ℤ a.total_uptime b.total_uptime
    && eqb_ℤ a.first_seen b.first_seen
    && a.last_seen_checkpoint_id == b.last_seen_checkpoint_id

pub record Group : Type 0 where
  pub group_key : ValueKey
  pub group_votes : List CheckpointVote

-- `groups[key] = append(groups[key], vote)`
unfoldable pub add_to_group : CheckpointVote → List Group → List Group
unfolding same_key
add_to_group v [] = record { group_key = key_of v.attestation; group_votes = v ∷ [] } ∷ []
add_to_group v (g ∷ gs) =
    let rest = add_to_group v gs in
    if same_key g.group_key (key_of v.attestation)
    then record g { group_votes = g.group_votes ++ v ∷ [] } ∷ gs
    else g ∷ rest

-- The loop over the votes.
unfoldable pub group_all : List Group → List CheckpointVote → List Group
unfolding add_to_group
group_all gs [] = gs
group_all gs (v ∷ vs) = group_all (add_to_group v gs) vs

-- `len(groupVotes) >= MinVotersRequired && len(groupVotes) > len(bestVotes)`
abbrev pub beats : List CheckpointVote → Group → Bool
beats votes best =
    leb min_voters_required (length votes) && ltb (length best.group_votes) (length votes)

-- The loop over the groups, from the best so far.
unfoldable pub best_group : Group → List Group → Group
best_group best [] = best
best_group best (g ∷ gs) = best_group (if beats g.group_votes best then g else best) gs

abbrev pub zero_key : ValueKey
zero_key = record {
  restarts = pos 0;
  total_uptime = pos 0;
  first_seen = pos 0;
  last_seen_checkpoint_id = "";
}

-- The group of those that approve the proposal, where it is larger.
unfoldable pub or_approvals : CheckpointProposal → List CheckpointVote → Group → Group
or_approvals p votes best =
    let approvals = keep (λ (v : CheckpointVote). v.approved) votes in
    if beats approvals best
    then record { group_key = key_of p.attestation; group_votes = approvals }
    else best

pub record VoteEntry : Type 0 where
  pub vote : CheckpointVote
  pub uptime : ℤ

-- `sortedVotes[i].uptime > sortedVotes[j].uptime`
abbrev pub by_uptime : VoteEntry → VoteEntry → Bool
by_uptime a b = ltb_ℤ b.uptime a.uptime

-- The checkpoint of a group, from its votes in the order of the voters' uptimes.
unfoldable pub bundle : CheckpointProposal → ValueKey → List CheckpointVote → CheckpointEventPayload
unfolding same_key
bundle p k sorted =
    let included = same_key k (key_of p.attestation) in
    let voters =
      take (if included then max_checkpoint_signatures - 1 else max_checkpoint_signatures) sorted in
    record {
      version = pos 2;
      subject = p.attestation.subject;
      subject_id = p.attestation.subject_id;
      previous_checkpoint_id = k.last_seen_checkpoint_id;
      observation = record {
        restarts = k.restarts;
        total_uptime = k.total_uptime;
        start_time = k.first_seen;
      };
      as_of_time = p.attestation.as_of_time;
      voter_ids =
          (if included then p.attestation.subject_id ∷ [] else [])
          ++ map (λ (v : CheckpointVote). v.attestation.attester_id) voters;
      signatures =
          (if included then p.attestation.signature ∷ [] else [])
          ++ map (λ (v : CheckpointVote). v.attestation.signature) voters;
    }

module _ (sorter : Sorter) where
  -- `getVoterUptime`
  unfoldable pub get_voter_uptime : Option SyncLedger → ℤ → String → ℤ
  unfolding derive_total_uptime
  get_voter_uptime none now name = pos 0
  get_voter_uptime (some l) now name = derive_total_uptime sorter l now name

  -- The votes, those of the highest uptime first.
  unfoldable pub sort_votes : Option SyncLedger → ℤ → List CheckpointVote → List CheckpointVote
  unfolding get_voter_uptime
  sort_votes ledger now votes =
      map (λ (e : VoteEntry). e.vote)
        (sorter.sort_slice VoteEntry by_uptime (
          map
            (λ (v : CheckpointVote). record {
              vote = v;
              uptime = get_voter_uptime ledger now v.attestation.attester;
            })
            votes))

  -- The group that wins.
  unfoldable pub winner : MapRange → CheckpointProposal → List CheckpointVote → Group
  unfolding group_all best_group or_approvals
  winner range p votes = or_approvals p votes (
      best_group (record { group_key = zero_key; group_votes = [] })
        (range.entries Group (group_all [] votes)))

  -- `tryFindConsensus`
  unfoldable pub try_find_consensus :
      MapRange
      → Option SyncLedger
      → ℤ
      → CheckpointProposal
      → List CheckpointVote
      → Option CheckpointEventPayload
  unfolding winner bundle sort_votes
  try_find_consensus range ledger now p votes =
      let best = winner range p votes in
      if ltb (length votes) min_voters_required
      then none
      else if ltb (length best.group_votes) min_voters_required
      then none
      else some (bundle p best.group_key (sort_votes ledger now best.group_votes))
