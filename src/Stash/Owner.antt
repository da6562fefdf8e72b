-- ===== src/Stash/Owner.antt =====
-- services/stash/service.go: how the owner of a stash chooses confidants, stores with them and
-- recovers from them. Nothing else changes the service while one of these methods runs.
--
-- A method gives its error, with `none` for none, and what it leaves. The clock of the random
-- choice is a function of the round. Numbers are left out of the errors' texts. The runtime is there: `RT` is not nil.
pub mod Bubble
pub mod Selection
pub mod Exchange
pub mod Recovery
use nara.Prelude.{
  ℕ, zero, suc, ◌-◌, ◌%◌, Bool, true, false, not, ◌&&◌, Option, none, some, List, [], ◌∷◌, ◌++◌,
  String, ◌==◌, eqb, ltb, length, get_elem?, erase_idx, keep, if◌then◌else◌,
}
use nara.Prelude.Int.{ℤ, pos, ltb_ℤ}
use nara.Event.Content.{Host, join}
use nara.Event.Signature.{Crypto}
use nara.Runtime.{Message, CallResult}
use nara.Stash.{
  StashPayload, store_payload, store_ack, request_payload, response_payload, StashStoreAck,
  StashResponsePayload, EncryptedStash, StashService, PeerInfo, RuntimeInterface, unix, new_message,
  get_stored_stash, set_confidants,
}
use nara.Stash.Handlers.{build_stash_response, wrap}

-- Data, or the error.
pub data Fetched : Type 0 where
  fetched : List ℕ → Fetched
  failed : String → Fetched

-- The answer to a store request.
unfoldable pub store_outcome : CallResult StashPayload → Option String
unfolding join
store_outcome (CallResult.failure error) = some "store request"
store_outcome (CallResult.response m) = elim m.payload [
  | some (store_ack ack) ↦
      if ack.success then none else some (join ("store failed: " ∷ ack.reason ∷ []))
  | _ ↦ some "unexpected response type"
]

-- One pass of the bubble sort, over the first comparisons.
unfoldable pub bubble_pass : ℕ → List PeerInfo → List PeerInfo
bubble_pass (suc k) (p ∷ q ∷ rest) =
    let swap = ltb_ℤ p.uptime q.uptime in
    (if swap then q else p) ∷ bubble_pass k ((if swap then p else q) ∷ rest)
bubble_pass _ peers = peers

-- The passes, each one comparison shorter than the one before.
unfoldable pub bubble_passes : ℕ → List PeerInfo → List PeerInfo
unfolding bubble_pass
bubble_passes zero peers = peers
bubble_passes (suc k) peers = bubble_passes k (bubble_pass (suc k) peers)

unfoldable pub sort_by_uptime : List PeerInfo → List PeerInfo
unfolding bubble_passes
sort_by_uptime peers = bubble_passes (length peers - 1) peers

module _ (R : RuntimeInterface) where
  open R use {State, me_id, me_name, online_peers, read_clock, emit, call, seal, open_sealed}

  -- `StoreWith`
  unfoldable pub store_with : String → List ℕ → State → Option String × State
  unfolding store_outcome new_message
  store_with confidant_id bytes st =
      let (sealed, sealed_st) = seal bytes st in
      elim sealed [
        | none ↦ (some "encrypt", sealed_st)
        | some (nonce, ciphertext) ↦
            let (now, timed_st) = read_clock sealed_st in
            let (result, called_st) =
              call
                (new_message "stash:store" (pos 1) confidant_id (
                  store_payload (record {
                    owner_id = me_id;
                    owner = me_name;
                    nonce = nonce;
                    ciphertext = ciphertext;
                    timestamp = unix now;
                  })))
                timed_st in
            (store_outcome result, called_st)
      ]

  -- The answer to a request for a stash.
  unfoldable pub request_outcome : String → CallResult StashPayload → Fetched
  unfolding join
  request_outcome confidant_id (CallResult.failure error) = failed "request"
  request_outcome confidant_id (CallResult.response m) = elim m.payload [
    | some (response_payload p) ↦
        if not p.found
        then failed (join ("confidant " ∷ confidant_id ∷ " has no stash for us" ∷ []))
        else elim (open_sealed p.nonce p.ciphertext) [
          | none ↦ failed "decrypt"
          | some plaintext ↦ fetched plaintext
        ]
    | _ ↦ failed "unexpected response type"
  ]

  -- `RequestFrom`
  unfoldable pub request_from : String → State → Fetched × State
  unfolding request_outcome new_message
  request_from confidant_id st =
      let (result, called_st) =
        call
          (new_message "stash:request" (pos 1) confidant_id
            (request_payload (record { owner_id = me_id; request_id = "" })))
          st in
      (request_outcome confidant_id result, called_st)

  -- The loop of `RecoverFromAny`.
  unfoldable pub recover_from : List String → State → Fetched × State
  unfolding request_from
  recover_from [] st = (failed "no confidant had our stash", st)
  recover_from (id ∷ ids) st =
      let (answer, asked_st) = request_from id st in
      let rest = recover_from ids asked_st in
      elim answer [ fetched bytes ↦ (fetched bytes, asked_st) | failed error ↦ rest ]

  -- `RecoverFromAny`
  unfoldable pub recover_from_any : StashService → State → Fetched × State
  unfolding recover_from
  recover_from_any s st =
      if eqb (length s.confidants) 0
      then (failed "no confidants configured", st)
      else recover_from s.confidants st

  -- `PushTo`
  unfoldable pub push_to : StashService → String → State → Option String × State
  unfolding get_stored_stash build_stash_response new_message join
  push_to s owner_id st = elim (get_stored_stash s owner_id) [
    | none ↦ (some (join ("no stash for " ∷ owner_id ∷ [])), st)
    | some stash ↦
        let (error, sent_st) =
          emit
            (new_message "stash:response" (pos 0) owner_id
              (response_payload (build_stash_response owner_id "" (some stash))))
            st in
        (wrap "emit stash response" error, sent_st)
  ]

  -- The loop of `DistributeToConfidants`: how many have stored the data.
  unfoldable pub distribute : List String → List ℕ → ℕ → State → ℕ × State
  unfolding store_with
  distribute [] bytes successes st = (successes, st)
  distribute (id ∷ ids) bytes successes st =
      let (error, stored_st) = store_with id bytes st in
      distribute ids bytes (elim error [ none ↦ suc successes | some e ↦ successes ]) stored_st

  -- `DistributeToConfidants`
  unfoldable pub distribute_to_confidants : StashService → State → Option String × State
  unfolding distribute
  distribute_to_confidants s st =
      if eqb (length s.my_stash_data) 0
      then (some "no stash data to distribute", st)
      else if eqb (length s.confidants) 0
      then (some "no confidants configured", st)
      else if ltb (length s.confidants) s.target_confidants
      then (some "not enough confidants", st)
      else let (successes, st') = distribute s.confidants s.my_stash_data 0 st in
        (if eqb successes 0 then some "failed to distribute to any confidants" else none, st')

  -- The end of `SetStashData`.
  unfoldable pub publish_data : StashService → State → Option String × StashService × State
  unfolding distribute_to_confidants
  publish_data s st = let (error, sent_st) = distribute_to_confidants s st in (error, s, sent_st)

  module _ (c : Crypto) (h : Host) where
    -- The data that a peer is tried with.
    unfoldable pub probe : ℕ → List ℕ
    unfolding join
    probe now =
        c.bytes (join ("{\"test\":\"probe\",\"timestamp\":" ∷ h.format_int (unix now) ∷ "}" ∷ []))

    unfoldable pub try_peer : PeerInfo → State → Option String × State
    unfolding probe store_with
    try_peer peer st =
        let (now, timed_st) = read_clock st in store_with peer.id (probe now) timed_st

    -- The first confidant, of the peers by uptime.
    unfoldable pub first_confidant : List PeerInfo → State → Option String × State
    unfolding try_peer
    first_confidant [] st = (none, st)
    first_confidant (peer ∷ peers) st =
        let (error, tried_st) = try_peer peer st in
        let skip = first_confidant peers st in
        let declined = first_confidant peers tried_st in
        if peer.id == me_id
        then skip
        else elim error [ none ↦ (some peer.id, tried_st) | some e ↦ declined ]

    -- The loop over random peers, with the rounds left, of which there is one for each peer.
    unfoldable pub more_confidants :
        (ℕ → ℕ) → ℕ → ℕ → List String → List PeerInfo → State → List String × State
    unfolding try_peer
    more_confidants nanos target zero selected remaining st = (selected, st)
    more_confidants nanos target (suc rounds) selected remaining st =
        let idx = nanos rounds % length remaining in
        elim (get_elem? remaining idx) [
          | none ↦ (selected, st)
          | some peer ↦
              let (error, tried_st) = try_peer peer st in
              if ltb (length selected) target
              then more_confidants nanos target rounds
                  (elim error [ none ↦ selected ++ peer.id ∷ [] | some e ↦ selected ])
                  (erase_idx remaining idx) tried_st
              else (selected, st)
        ]

    -- The peers that are neither this nara nor its first confidant.
    unfoldable pub remaining_peers : String → List PeerInfo → List PeerInfo
    remaining_peers first peers =
        keep (λ (p : PeerInfo). not (p.id == first) && not (p.id == me_id)) peers

    -- `SelectConfidantsAutomatically`
    unfoldable pub select_confidants :
        (ℕ → ℕ) → StashService → State → Option String × StashService × State
    unfolding sort_by_uptime first_confidant more_confidants remaining_peers set_confidants
    select_confidants nanos s st =
        let peers = online_peers st in
        if ltb (length peers) s.target_confidants
        then (some "not enough online peers", s, st)
        else let (first, first_st) = first_confidant (sort_by_uptime peers) st in
          elim first [
            | none ↦ (some "no peer accepted to be first confidant", s, first_st)
            | some id ↦
                let remaining = remaining_peers id peers in
                let (selected, last_st) =
                  more_confidants nanos s.target_confidants (length remaining) (id ∷ []) remaining
                    first_st in
                if ltb (length selected) s.target_confidants
                then (some "not enough willing confidants", s, last_st)
                else (none, set_confidants selected s, last_st)
          ]

    -- `SetStashData`
    unfoldable pub set_stash_data :
        (ℕ → ℕ) → List ℕ → StashService → State → Option String × StashService × State
    unfolding select_confidants publish_data
    set_stash_data nanos bytes s st =
        let (now, timed_st) = read_clock st in
        let updated = record s { my_stash_data = bytes; my_stash_timestamp = unix now } in
        if ltb (length s.confidants) s.target_confidants
        then (let (error, s', st') =
              select_confidants nanos (record updated { confidants = [] }) timed_st in
            elim error [
              | none ↦ publish_data s' st'
              | some e ↦ (some "failed to auto-select confidants", s', st')
            ])
        else publish_data updated timed_st
