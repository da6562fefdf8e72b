-- ===== src/Stash/Handlers/Senders.antt =====
-- Store requests and their senders.
use text.Mathlib.TextPositions.{eq_refl}
use nara.Prelude.{◌≡◌, refl, ◌∙◌, none, some, true, String}
use nara.Prelude.Dict.{lookup, lookup-insert}
use nara.Runtime.{Message}
use nara.Stash.{
  StashStorePayload, StashPayload, EncryptedStash, StashService, RuntimeInterface, validate_store,
  can_store, store_stash,
}
use nara.Stash.Handlers.{handle_store, acknowledge, emit_last}

can_store-known :
    (mode : String) (s : StashService) (owner_id : String) (old : EncryptedStash)
    → lookup owner_id s.stored ≡ some old
    → can_store mode s owner_id ≡ true
unfolding can_store
can_store-known mode s owner_id old there = rw (can_store, there) refl

-- Whoever sends it, a valid store request replaces the stash that its owner has: the sender of the
-- message is not compared with the owner that the payload names. Only the time is the confidant's.
pub handle_store-any_sender :
    (R : RuntimeInterface) (m : Message StashPayload) (p : StashStorePayload) (s : StashService)
    (st : R.State) (old : EncryptedStash)
    → validate_store p ≡ none
    → lookup p.owner_id s.stored ≡ some old
    → lookup p.owner_id (handle_store R m p s st).1.stored
      ≡ some (record {
        owner_id = p.owner_id;
        nonce = p.nonce;
        ciphertext = p.ciphertext;
        stored_at = (R.read_clock st).0;
      })
unfolding handle_store acknowledge emit_last store_stash
handle_store-any_sender R m p s st old ok there =
    rw (handle_store, ok, can_store-known R.memory_mode s p.owner_id old there)
      (lookup-insert p.owner_id p.owner_id _ s.stored ∙ rw (eq_refl p.owner_id) refl)
