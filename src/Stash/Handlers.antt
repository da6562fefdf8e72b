-- ===== src/Stash/Handlers.antt =====
-- services/stash/handlers.go and behaviors.go: what a nara does with the messages of the stash.
--
-- A handler gives the error, the service and the state of the runtime after it.
pub mod Bounds
pub mod Race
pub mod Senders
use nara.Prelude.{
  ℕ, Bool, true, false, not, ◌&&◌, Option, none, some, List, [], String, ◌==◌, ltb, length,
  if◌then◌else◌,
}
use nara.Prelude.Int.{ℤ, pos, eqb_ℤ}
use nara.Runtime.{Message, reply}
use nara.Stash.{
  StashStorePayload, StashStoreAck, StashRequestPayload, StashResponsePayload, StashRefreshPayload,
  StashPayload, store_payload, store_ack, request_payload, response_payload, refresh_payload,
  validate_store, validate_request, EncryptedStash, StashService, RuntimeInterface, unix,
  new_message, get_stored_stash, can_store, store_stash, has_stash_data,
}

-- `buildStashResponse`
unfoldable pub build_stash_response : String → String → Option EncryptedStash → StashResponsePayload
build_stash_response owner_id request_id none = record {
  owner_id = owner_id;
  request_id = request_id;
  found = false;
  nonce = [];
  ciphertext = [];
  stored_at = pos 0;
}
build_stash_response owner_id request_id (some stash) = record {
  owner_id = owner_id;
  request_id = request_id;
  found = true;
  nonce = stash.nonce;
  ciphertext = stash.ciphertext;
  stored_at = unix stash.stored_at;
}

-- `fmt.Errorf("…: %w", err)`, where there is an error
abbrev pub wrap : String → Option String → Option String
wrap text none = none
wrap text (some error) = some text

module _ (R : RuntimeInterface) where
  open R use {State, memory_mode, read_clock, emit, open_sealed}

  -- What a handler leaves.
  abbrev pub Handled : Type 0
  Handled = Option String × StashService × State

  -- The end of a handler: a message is emitted, and the error of that is the handler's.
  unfoldable pub emit_last : String → Message StashPayload → StashService → State → Handled
  emit_last text m s st = let (error, st') = emit m st in (wrap text error, s, st')

  -- The acknowledgement of a store request, which reads the clock.
  unfoldable pub acknowledge :
      String → Message StashPayload → String → Bool → String → StashService → State → Handled
  unfolding emit_last reply
  acknowledge text m owner_id success reason s st =
      let (now, st') = read_clock st in
      emit_last text
        (reply m "stash:ack" (
          some (
            store_ack (record {
              owner_id = owner_id;
              stored_at = unix now;
              success = success;
              reason = reason;
            }))))
        s st'

  -- `handleRefreshV1`
  unfoldable pub handle_refresh :
      Message StashPayload → StashRefreshPayload → StashService → State → Handled
  unfolding get_stored_stash build_stash_response emit_last new_message
  handle_refresh m p s st = elim (get_stored_stash s p.owner_id) [
    | none ↦ (none, s, st)
    | some stash ↦
        emit_last "send stash response"
          (new_message "stash:response" (pos 0) p.owner_id
            (response_payload (build_stash_response p.owner_id "" (some stash))))
          s st
  ]

  -- `handleStoreV1`
  unfoldable pub handle_store :
      Message StashPayload → StashStorePayload → StashService → State → Handled
  unfolding validate_store can_store store_stash acknowledge
  handle_store m p s st = elim (validate_store p) [
    | some error ↦ acknowledge "send validation failure ack" m p.owner_id false error s st
    | none ↦
        if not (can_store memory_mode s p.owner_id)
        then acknowledge "send storage limit ack" m p.owner_id false "storage limit reached" s st
        else let (now, st') = read_clock st in
          acknowledge "send success ack" m p.owner_id true ""
            (store_stash now s p.owner_id p.nonce p.ciphertext) st'
  ]

  -- `handleStoreAckV1`
  unfoldable pub handle_store_ack :
      Message StashPayload → StashStoreAck → StashService → State → Handled
  handle_store_ack m p s st = (none, s, st)

  -- `handleRequestV1`
  unfoldable pub handle_request :
      Message StashPayload → StashRequestPayload → StashService → State → Handled
  unfolding validate_request get_stored_stash build_stash_response emit_last reply
  handle_request m p s st =
      let answer = λ (text : String) (stash : Option EncryptedStash).
        emit_last text
          (reply m "stash:response"
            (some (response_payload (build_stash_response p.owner_id p.request_id stash))))
          s st in
      elim (validate_request p) [
        | some error ↦ answer "send validation failure response" none
        | none ↦ elim (get_stored_stash s p.owner_id) [
          | none ↦ answer "send not-found response" none
          | some stash ↦ answer "send stash response" (some stash)
        ]
      ]

  -- `handleRecoveryPayload`
  unfoldable pub handle_recovery_payload :
      StashResponsePayload → StashService → Option String × StashService
  handle_recovery_payload p s = elim (open_sealed p.nonce p.ciphertext) [
    | none ↦ (some "decrypt", s)
    | some plaintext ↦
        (none, record s { my_stash_data = plaintext; my_stash_timestamp = p.stored_at })
  ]

  -- `handleResponseV1`
  unfoldable pub handle_response :
      Message StashPayload → StashResponsePayload → StashService → State → Handled
  unfolding has_stash_data handle_recovery_payload
  handle_response m p s st =
      if not (has_stash_data s) && p.found && ltb 0 (length p.ciphertext)
      then (let (error, s') = handle_recovery_payload p s in
          (wrap "process proactive recovery" error, s', st))
      else (none, s, st)

  -- The handlers that `RegisterBehaviors` registers, by the payload of their kind. `none` is a
  -- message that has no handler: another kind or version, or another payload than its kind's.
  unfoldable pub handler_for :
      Message StashPayload → StashPayload → Option (StashService → State → Handled)
  unfolding handle_refresh handle_store handle_store_ack handle_request handle_response
  handler_for m (refresh_payload p) =
      if m.kind == "stash-refresh" && eqb_ℤ m.version (pos 1)
      then some (handle_refresh m p)
      else none
  handler_for m (store_payload p) =
      if m.kind == "stash:store" && eqb_ℤ m.version (pos 1) then some (handle_store m p) else none
  handler_for m (store_ack p) =
      if m.kind == "stash:ack" && eqb_ℤ m.version (pos 1) then some (handle_store_ack m p) else none
  handler_for m (request_payload p) =
      if m.kind == "stash:request" && eqb_ℤ m.version (pos 1)
      then some (handle_request m p)
      else none
  handler_for m (response_payload p) =
      if m.kind == "stash:response" && eqb_ℤ m.version (pos 1)
      then some (handle_response m p)
      else none
