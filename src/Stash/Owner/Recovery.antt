-- ===== src/Stash/Owner/Recovery.antt =====
-- A refresh broadcast of an owner, and what comes back.
use nara.Prelude.{ℕ, ◌≡◌, ◌≢◌, refl, ltb, lt→ltb, arith, length, List, [], ◌∷◌, some, true, false}
use nara.Prelude.Int.{pos}
use nara.Prelude.Dict.{lookup}
use nara.Runtime.{Message}
use nara.Stash.{
  StashPayload, response_payload, StashResponsePayload, StashRefreshPayload, EncryptedStash,
  StashService, get_stored_stash, has_stash_data, new_message, unix,
}
use nara.Stash.Handlers.{
  build_stash_response, handle_refresh, handle_response, handle_recovery_payload, emit_last,
}
use nara.Stash.Owner.Exchange.{Link, confidant_runtime, owner_runtime}

-- A confidant that has the stash of an owner answers the owner's refresh broadcast with one message
-- to the owner. Where the owner has no data, its handler takes from that message the data that the
-- stash decrypts to and the time at which it was stored, and changes nothing else.
pub handle_refresh-recovers :
    (link : Link) (confidant owner : StashService) (clock : ℕ) (st : StashService × ℕ)
    (m answer : Message StashPayload) (p : StashRefreshPayload) (stash : EncryptedStash)
    (bytes : List ℕ)
    → lookup p.owner_id confidant.stored ≡ some stash
    → length stash.ciphertext ≢ 0
    → link.open_sealed stash.nonce stash.ciphertext ≡ some bytes
    → has_stash_data owner ≡ false
    → (q : StashResponsePayload) × ((handle_refresh
          (confidant_runtime link)
          m
          p
          confidant
          (clock, [])).2.1
        ≡ new_message "stash:response" (pos 0) p.owner_id (response_payload q) ∷ [])
      × ((handle_response (owner_runtime link) answer q owner st).1
          ≡ record owner { my_stash_data = bytes; my_stash_timestamp = unix stash.stored_at })
unfolding handle_refresh handle_response get_stored_stash emit_last handle_recovery_payload
    build_stash_response
handle_refresh-recovers link confidant owner clock st m answer p stash bytes there filled opened
      none_yet =
    let full : ltb 0 (length stash.ciphertext) ≡ true =
      lt→ltb 0 (length stash.ciphertext) (omega (arith, filled)) in
    (
      build_stash_response p.owner_id "" (some stash),
      rw (handle_refresh, there) refl,
      rw (handle_response, none_yet, full) (rw (handle_recovery_payload, opened) refl),
    )
