-- ===== src/Tests/Stashes.antt =====
-- Stashes at concrete naras: an owner and a confidant on a link, and five online peers.
use mathlib.Core.List.{Pairwise, not-mem-nil, mem-cons}
use mathlib.Core.HLevel.{⊥_prop}
use mathlib.Core.Logic.Or
use nara.Prelude.{
  ℕ, suc, ◌≡◌, ◌≢◌, refl, ap, ◌∙◌, Mem, ◌==◌, none, some, true, false, List, [], ◌∷◌, String,
  eq_iff, arith, length,
}
use nara.Prelude.Int.{pos}
use nara.Prelude.Dict.{lookup}
use nara.Runtime.{Message, CallResult, reply}
use nara.Stash.{
  StashStorePayload, StashRefreshPayload, StashResponsePayload, StashPayload, EncryptedStash,
  StashService, PeerInfo, RuntimeInterface, store_payload, store_ack, response_payload,
  new_stash_service, new_message, storage_limit, validate_store, can_store, has_stash_data, unix,
}
use nara.Stash.Handlers.{handle_store, handler_for, handle_refresh, handle_response}
use nara.Stash.Handlers.Bounds.{IsWithinLimit, handler_for-IsWithinLimit}
use nara.Stash.Handlers.Race.{Runs, store_exceeds_limit}
use nara.Stash.Handlers.Senders.{handle_store-any_sender}
use nara.Stash.Owner.{fetched, store_with, request_from, select_confidants}
use nara.Stash.Owner.Selection.{HasDistinctIds, Selects, select_confidants_lem}
use nara.Stash.Owner.Exchange.{Link, confidant_runtime, owner_runtime, request_from-store_with}
use nara.Stash.Owner.Recovery.{handle_refresh-recovers}
use nara.Tests.Data.{host, crypto}

abbrev nonce_24 : List ℕ
nonce_24 =
    let eight : List ℕ → List ℕ = λ bs. 1 ∷ 2 ∷ 3 ∷ 4 ∷ 5 ∷ 6 ∷ 7 ∷ 8 ∷ bs in
    eight (eight (eight []))

-- A cipher that puts one byte before the text.
abbrev link : Link
link = record {
  owner_id = "ann";
  owner_name = "ann";
  mode = "low";
  seal = λ bytes. some (nonce_24, 9 ∷ bytes);
  open_sealed = λ nonce ciphertext. elim ciphertext [ [] ↦ none | b ∷ bytes ↦ some bytes ];
}

request_from-store_with_example :
    ((store_with (owner_runtime link) "bob" (4 ∷ 2 ∷ []) (new_stash_service, 7)).0 ≡ none)
    × ((request_from
          (owner_runtime link)
          "bob"
          (store_with (owner_runtime link) "bob" (4 ∷ 2 ∷ []) (new_stash_service, 7)).1).0
        ≡ fetched (4 ∷ 2 ∷ []))
unfolding can_store
request_from-store_with_example =
    request_from-store_with link new_stash_service 7 "bob" (4 ∷ 2 ∷ []) nonce_24 (9 ∷ 4 ∷ 2 ∷ [])
      (λ h. ground (arith, eq_iff "ann" "", h)) refl refl (omega arith) refl

abbrev request_of : String → StashStorePayload
request_of owner = record {
  owner_id = owner;
  owner = owner;
  nonce = nonce_24;
  ciphertext = 1 ∷ [];
  timestamp = pos 0;
}

abbrev store_request : Message StashPayload
store_request = new_message "stash:store" (pos 1) "bob" (store_payload (request_of "ann"))

empty-IsWithinLimit : IsWithinLimit "low" new_stash_service
unfolding storage_limit lookup
empty-IsWithinLimit = record {
  distinct = tt;
  within = omega arith;
  formed = λ owner e h. absurd (ground (arith, h));
}

handler_for-IsWithinLimit_example :
    IsWithinLimit "low"
      (handle_store
        (confidant_runtime link)
        store_request
        (request_of "ann")
        new_stash_service
        (7, [])).1
unfolding new_message
handler_for-IsWithinLimit_example =
    handler_for-IsWithinLimit (confidant_runtime link) store_request
      (store_payload (request_of "ann")) new_stash_service (7, [])
      (handle_store (confidant_runtime link) store_request (request_of "ann"))
      (unfold handler_for in refl) empty-IsWithinLimit

abbrev stash_of : String → EncryptedStash
stash_of owner = record {
  owner_id = owner;
  nonce = nonce_24;
  ciphertext = 5 ∷ 6 ∷ [];
  stored_at = 3;
}

-- Four stashes, where five are allowed.
abbrev four_stashes : StashService
four_stashes = record new_stash_service {
  stored =
      ("a", stash_of "a") ∷ ("b", stash_of "b") ∷ ("c", stash_of "c") ∷ ("d", stash_of "d") ∷ [];
}

store_exceeds_limit_example :
    (t : StashService) × Runs "low"
      (record { service = four_stashes; admitted = [] })
      (record { service = t; admitted = [] })
    × (length t.stored ≡ suc (storage_limit "low"))
unfolding lookup storage_limit validate_store
store_exceeds_limit_example =
    store_exceeds_limit "low" four_stashes (request_of "ann") (request_of "bob") 7 refl refl refl
      (λ h. ground (arith, eq_iff "ann" "bob", h)) refl refl

handle_store-any_sender_example :
    lookup "a"
      (handle_store
        (confidant_runtime link)
        (record store_request { from_id = "eve" })
        (request_of "a")
        four_stashes
        (7, [])).1.stored
    ≡ some (record { owner_id = "a"; nonce = nonce_24; ciphertext = 1 ∷ []; stored_at = 7 })
unfolding validate_store lookup
handle_store-any_sender_example =
    handle_store-any_sender (confidant_runtime link) (record store_request { from_id = "eve" })
      (request_of "a") four_stashes (7, []) (stash_of "a") refl refl

abbrev refresh : StashRefreshPayload
refresh = record { owner_id = "a"; owner = "a" }

handle_refresh-recovers_example :
    (q : StashResponsePayload) × ((handle_refresh
        (confidant_runtime link)
        store_request
        refresh
        four_stashes
        (7, [])).2.1
      ≡ new_message "stash:response" (pos 0) "a" (response_payload q) ∷ [])
    × ((handle_response
          (owner_runtime link)
          store_request
          q
          new_stash_service
          (new_stash_service, 0)).1
        ≡ record new_stash_service { my_stash_data = 6 ∷ []; my_stash_timestamp = unix 3 })
unfolding lookup has_stash_data
handle_refresh-recovers_example =
    handle_refresh-recovers link four_stashes new_stash_service 7 (new_stash_service, 0)
      store_request store_request refresh (stash_of "a") (6 ∷ []) refl (omega arith) refl refl

abbrev peer : String → ℕ → PeerInfo
peer id uptime = record { id = id; name = id; uptime = pos uptime }

-- A runtime in which every peer accepts.
abbrev willing : RuntimeInterface
willing = record {
  State = ℕ;
  me_id = "ann";
  me_name = "ann";
  memory_mode = "low";
  online_peers = λ st. peer "b" 1 ∷ peer "c" 3 ∷ peer "d" 2 ∷ [];
  read_clock = λ st. (st, suc st);
  emit = λ m st. (none, st);
  call = λ m st. (
    CallResult.response (
        reply m "stash:ack" (
          some (
            store_ack
              (record { owner_id = "ann"; stored_at = pos 0; success = true; reason = "" })))),
    st,
  );
  seal = λ bytes st. (some (nonce_24, bytes), st);
  open_sealed = λ nonce ciphertext. some ciphertext;
}

apart : (a b : String) → (a == b) ≡ false → a ≢ b
apart a b e same = ground (arith, e, same, eq_iff a b)

-- The ID is none of the next two peers'.
not_next :
    (id a b : String) (m n : ℕ) (q : PeerInfo)
    → (id == a) ≡ false
    → (id == b) ≡ false
    → Mem q (peer a m ∷ peer b n ∷ [])
    → id ≢ q.id
not_next id a b m n q h k in_next same =
    Or.elim ⊥_prop (mem-cons.0 in_next) (λ e. apart id a h (same ∙ ap (λ (p : PeerInfo). p.id) e))
      (λ rest.
        Or.elim ⊥_prop (mem-cons.0 rest) (λ e. apart id b k (same ∙ ap (λ (p : PeerInfo). p.id) e))
          not-mem-nil)

peers-HasDistinctIds : HasDistinctIds willing crypto host (willing.online_peers 0)
peers-HasDistinctIds =
    Pairwise.cons (λ q m. not_next "b" "c" "d" 3 2 q refl refl m)
      (Pairwise.cons
        (λ q m same.
          Or.elim ⊥_prop (mem-cons.0 m)
            (λ e. apart "c" "d" refl (same ∙ ap (λ (p : PeerInfo). p.id) e)) not-mem-nil)
        (Pairwise.cons (λ q m. absurd (not-mem-nil m)) Pairwise.nil))

select_confidants_lem_example :
    Selects willing crypto host new_stash_service
      (willing.online_peers 0)
      (select_confidants willing crypto host (λ n. n) new_stash_service 0)
select_confidants_lem_example =
    select_confidants_lem willing crypto host (λ n. n) new_stash_service 0 peers-HasDistinctIds
      (omega arith)
