-- ===== src/World.antt =====
-- world.go: a message that travels around the world, from nara to nara, each of which signs what
-- came before.
--
-- `Hops` is an `Option`, since JSON tells a nil slice (`none`) from an empty one: a message whose
-- JSON has no hops is decoded to a nil slice. A clout score is the bit pattern of a float64. JSON,
-- SHA-256, base64 and the comparison of scores are parameters. An error is the text that says what
-- failed; `none` of the outer `Option` is an index out of range.
pub mod Chain
pub mod Route
use nara.Prelude.{
  ℕ, suc, ◌+◌, ◌%◌, Bool, true, false, not, ◌&&◌, ◌||◌, Option, none, some, List, [], ◌∷◌, ◌++◌,
  map, String, ◌==◌, length, get_elem?, take, keep, if◌then◌else◌, ◌>>=◌,
}
use nara.Prelude.Int.{ℤ}
use nara.Prelude.Dict.{Dict, insert}
use nara.Prelude.Sort.{Sorter}
use nara.Event.Content.{Host, join}
use nara.Event.Signature.{Crypto, verify_signature}

pub record WorldHop : Type 0 where
  pub nara : String
  pub timestamp : ℤ
  pub signature : String
  pub stamp : String

pub record WorldMessage : Type 0 where
  pub id : String
  pub original_message : String
  pub originator : String
  pub hops : Option (List WorldHop)

-- The struct that a hop signs.
pub record HopData : Type 0 where
  pub id : String
  pub original_message : String
  pub originator : String
  pub previous_hops : Option (List WorldHop)
  pub current_nara : String

pub record WorldHost : Type 0 where
  pub marshal_hop : HopData → String
  pub encode_base64 : List ℕ → String
  pub exceeds : ℕ → ℕ → Bool

-- What a slice holds: nothing, if it is nil.
abbrev pub hops_of : Option (List WorldHop) → List WorldHop
hops_of none = []
hops_of (some hops) = hops

-- `HasVisited`
unfoldable pub any_hop : String → List WorldHop → Bool
any_hop nara [] = false
any_hop nara (hop ∷ hops) = let rest = any_hop nara hops in if hop.nara == nara then true else rest

unfoldable pub has_visited : WorldMessage → String → Bool
unfolding any_hop
has_visited wm nara = any_hop nara (hops_of wm.hops)

-- `IsComplete`
unfoldable pub last_hop : List WorldHop → Option WorldHop
last_hop [] = none
last_hop (hop ∷ []) = some hop
last_hop (hop ∷ next ∷ hops) = last_hop (next ∷ hops)

unfoldable pub is_complete : WorldMessage → Bool
unfolding last_hop
is_complete wm = elim (last_hop (hops_of wm.hops)) [
  | none ↦ false
  | some hop ↦ hop.nara == wm.originator
]

-- `CalculateWorldRewards`, in whole clout
unfoldable pub reward_hops : String → List WorldHop → Dict ℕ → Dict ℕ
unfolding insert
reward_hops originator [] rewards = rewards
reward_hops originator (hop ∷ hops) rewards =
    reward_hops originator hops
      (if hop.nara == originator then rewards else insert hop.nara 2 rewards)

unfoldable pub calculate_world_rewards : WorldMessage → Dict ℕ
unfolding reward_hops is_complete
calculate_world_rewards wm =
    if not (is_complete wm)
    then []
    else reward_hops wm.originator (hops_of wm.hops) ((wm.originator, 10) ∷ [])

module _ (c : Crypto) (h : Host) (w : WorldHost) where
  -- `NewWorldMessage`, at a time
  unfoldable pub new_world_message : ℤ → String → String → WorldMessage
  new_world_message now message originator = record {
    id =
        w.encode_base64
          (take 16 (h.sha256 (join (originator ∷ ":" ∷ message ∷ ":" ∷ h.format_int now ∷ []))));
    original_message = message;
    originator = originator;
    hops = some [];
  }

  abbrev hop_hash : WorldMessage → Option (List WorldHop) → String → List ℕ
  hop_hash wm previous nara = h.sha256 (
      w.marshal_hop (record {
        id = wm.id;
        original_message = wm.original_message;
        originator = wm.originator;
        previous_hops = previous;
        current_nara = nara;
      }))

  -- `dataToSign`
  unfoldable pub data_to_sign : WorldMessage → String → List ℕ
  data_to_sign wm nara = hop_hash wm wm.hops nara

  -- `dataToSignForHop`; the slice `Hops[:i]` of a slice with an element is not nil.
  unfoldable pub data_to_sign_for_hop : WorldMessage → ℕ → Option (List ℕ)
  data_to_sign_for_hop wm i = elim (get_elem? (hops_of wm.hops) i) [
    | none ↦ none
    | some hop ↦ some (hop_hash wm (some (take i (hops_of wm.hops))) hop.nara)
  ]

  -- `AddHop`, at a time
  unfoldable pub add_hop : (List ℕ → String) → ℤ → String → String → WorldMessage → WorldMessage
  unfolding data_to_sign
  add_hop sign_base64 now nara stamp wm = record wm {
    hops = some (
        hops_of wm.hops
        ++ record {
          nara = nara;
          timestamp = now;
          signature = sign_base64 (data_to_sign wm nara);
          stamp = stamp;
        }
          ∷ []);
  }

  -- The body of the loop of `VerifyChain`.
  unfoldable pub verify_hop :
      (String → Option (List ℕ)) → WorldMessage → ℕ → WorldHop → Option (Option String)
  unfolding data_to_sign_for_hop verify_signature
  verify_hop get_public_key wm i hop = elim (get_public_key hop.nara) [
    | none ↦ some (some "unknown public key")
    | some key ↦ elim (c.decode_base64 hop.signature) [
      | none ↦ some (some "invalid signature encoding")
      | some signature ↦ data_to_sign_for_hop wm i >>= λ message.
          some (if verify_signature c key message signature then none else some "invalid signature")
    ]
  ]

  unfoldable pub verify_hops :
      (String → Option (List ℕ)) → WorldMessage → ℕ → List WorldHop → Option (Option String)
  unfolding verify_hop
  verify_hops get_public_key wm i [] = some none
  verify_hops get_public_key wm i (hop ∷ hops) = verify_hop get_public_key wm i hop >>= λ error.
      elim error [ none ↦ verify_hops get_public_key wm (suc i) hops | some e ↦ some (some e) ]

  -- `VerifyChain`
  unfoldable pub verify_chain : (String → Option (List ℕ)) → WorldMessage → Option (Option String)
  unfolding verify_hops
  verify_chain get_public_key wm = verify_hops get_public_key wm 0 (hops_of wm.hops)

pub record Candidate : Type 0 where
  pub name : String
  pub score : ℕ

-- The tests on a nara before it is a candidate.
unfoldable pub may_visit : String → WorldMessage → String → Bool
unfolding has_visited
may_visit current wm nara =
    not (nara == current) && not (nara == wm.originator) && not (has_visited wm nara)

unfoldable pub any_name : String → List String → Bool
any_name name [] = false
any_name name (n ∷ ns) = let rest = any_name name ns in if n == name then true else rest

module _ (sorter : Sorter) (w : WorldHost) where
  -- `ChooseNextNara`
  unfoldable pub candidates_of : String → WorldMessage → (String → ℕ) → List String → List Candidate
  unfolding may_visit
  candidates_of current wm clout online =
      map (λ nara. record { name = nara; score = clout nara }) (keep (may_visit current wm) online)

  unfoldable pub choose_next_nara : String → WorldMessage → (String → ℕ) → List String → String
  unfolding candidates_of any_name
  choose_next_nara current wm clout online =
      elim (sorter.sort_slice Candidate (λ a b. w.exceeds a.score b.score)
        (candidates_of current wm clout online)) [
          | [] ↦
              if not (current == wm.originator) && any_name wm.originator online
              then wm.originator
              else ""
          | first ∷ rest ↦ first.name
        ]

abbrev default_stamps : List String
default_stamps = "🌟" ∷ "🎉" ∷ "🚀" ∷ "💫" ∷ "✨" ∷ "🌈" ∷ "🎊" ∷ "💖" ∷ "🌸" ∷ "🔥" ∷ []

-- `pickStamp`
unfoldable pub pick_stamp : WorldMessage → Option String
pick_stamp wm = get_elem? default_stamps (length (hops_of wm.hops) % length default_stamps)

-- What a `WorldJourneyHandler` reads of its nara and the mesh at the time of a call; a missing
-- score is 0.
pub record WorldJourneyHandler : Type 0 where
  pub name : String
  pub sign_base64 : List ℕ → String
  pub now : ℤ
  pub clout : String → ℕ
  pub online : List String
  pub get_public_key : String → Option (List ℕ)
  pub resolve_nara_id : String → String
  pub relay : String → WorldMessage → Bool

-- What comes of a message that arrives: an error with what was done before it, or the end of the
-- journey, or the next nara.
pub data Arrival : Type 0 where
  rejected : String → Arrival
  completed : WorldMessage → Arrival
  stuck : WorldMessage → Arrival
  unsent : String → WorldMessage → Arrival
  forwarded : String → WorldMessage → Arrival

module _ (c : Crypto) (h : Host) (w : WorldHost) (sorter : Sorter) (j : WorldJourneyHandler) where
  -- `sendToNara`
  unfoldable pub send_to_nara : String → WorldMessage → Bool
  send_to_nara name wm =
      if j.resolve_nara_id name == "" then false else j.relay (j.resolve_nara_id name) wm

  -- `chooseNext`
  unfoldable pub choose_next : WorldMessage → String
  unfolding choose_next_nara
  choose_next wm = choose_next_nara sorter w j.name wm j.clout j.online

  -- `StartJourney`
  unfoldable pub start_journey : String → Option WorldMessage
  unfolding choose_next send_to_nara new_world_message
  start_journey message =
      let wm = new_world_message c h w j.now message j.name in
      if choose_next wm == ""
      then none
      else if send_to_nara (choose_next wm) wm
      then some wm
      else none

  -- The journey goes on from here.
  unfoldable pub pass_on : WorldMessage → Arrival
  unfolding choose_next send_to_nara is_complete
  pass_on wm =
      if is_complete wm
      then completed wm
      else if choose_next wm == ""
      then stuck wm
      else if send_to_nara (choose_next wm) wm
      then forwarded (choose_next wm) wm
      else unsent (choose_next wm) wm

  -- `HandleIncoming`
  unfoldable pub handle_incoming : WorldMessage → Option Arrival
  unfolding verify_chain pick_stamp add_hop pass_on
  handle_incoming wm = do
    error ← verify_chain c h w j.get_public_key wm
    elim error [
      | some e ↦ some (rejected e)
      | none ↦ pick_stamp wm >>= λ stamp.
          some (pass_on (add_hop c h w j.sign_base64 j.now j.name stamp wm))
    ]
