-- ===== src/Stash/Handlers/Race.antt =====
-- `handleStoreV1` on requests that come in at once: `canStore` and `store` take the mutex one after
-- the other, so that other handlers run between them.
use nara.Prelude.{
  ◌∙◌, false, ℕ, suc, ◌<◌, ◌≡◌, ◌≢◌, none, List, [], ◌∷◌, String, ◌==◌, eq_iff, arith, length,
  lt→ltb, true,
}
use nara.Prelude.Dict.{lookup, lookup-insert}
use nara.Stash.{
  StashStorePayload, StashService, validate_store, storage_limit, can_store, store_stash,
}
use nara.Stash.Handlers.Bounds.{length-insert}

-- The service, and the requests whose handlers have passed `canStore`.
pub record Confidant : Type 0 where
  pub service : StashService
  pub admitted : List StashStorePayload

-- One step of one handler, in a memory mode.
pub data RequestStep (mode : String) : Confidant → Confidant → Type 0 where
  admit :
      (s : StashService) (ps : List StashStorePayload) (p : StashStorePayload)
      → validate_store p ≡ none
      → can_store mode s p.owner_id ≡ true
      → RequestStep mode
          (record { service = s; admitted = ps })
          (record { service = s; admitted = p ∷ ps })
  write :
      (s : StashService) (ps : List StashStorePayload) (p : StashStorePayload) (now : ℕ)
      → RequestStep mode
          (record { service = s; admitted = p ∷ ps })
          (record { service = store_stash now s p.owner_id p.nonce p.ciphertext; admitted = ps })

pub data Runs (mode : String) (c : Confidant) : Confidant → Type 0 where
  here : Runs mode c c
  next : {d e : Confidant} → Runs mode c d → RequestStep mode d e → Runs mode c e

abbrev idle : StashService → Confidant
idle s = record { service = s; admitted = [] }

abbrev stored_for : ℕ → StashService → StashStorePayload → StashService
stored_for now s p = store_stash now s p.owner_id p.nonce p.ciphertext

length-store_stash :
    (now : ℕ) (s : StashService) (p : StashStorePayload)
    → lookup p.owner_id s.stored ≡ none
    → length (store_stash now s p.owner_id p.nonce p.ciphertext).stored ≡ suc (length s.stored)
unfolding store_stash
length-store_stash now s p new = rw (length-insert p.owner_id _ s.stored) (ground (arith, new))

lookup-store_stash :
    (now : ℕ) (s : StashService) (p : StashStorePayload) (other : String)
    → p.owner_id ≢ other
    → lookup other s.stored ≡ none
    → lookup other (store_stash now s p.owner_id p.nonce p.ciphertext).stored ≡ none
unfolding store_stash
lookup-store_stash now s p other differs new =
    let no : (p.owner_id == other) ≡ false = ground (arith, eq_iff p.owner_id other, differs) in
    lookup-insert p.owner_id other _ s.stored ∙ rw no new

can_store-new :
    (mode : String) (s : StashService) (owner_id : String)
    → lookup owner_id s.stored ≡ none
    → length s.stored < storage_limit mode
    → can_store mode s owner_id ≡ true
unfolding can_store
can_store-new mode s owner_id new room = rw (can_store, new) (lt→ltb _ _ room)

-- The limit does not hold for requests that come in at once: with room for one more, the handlers
-- of two valid requests of new owners can both store their stash, one above the limit.
pub store_exceeds_limit :
    (mode : String) (s : StashService) (p q : StashStorePayload) (now : ℕ)
    → suc (length s.stored) ≡ storage_limit mode
    → validate_store p ≡ none
    → validate_store q ≡ none
    → p.owner_id ≢ q.owner_id
    → lookup p.owner_id s.stored ≡ none
    → lookup q.owner_id s.stored ≡ none
    → (t : StashService) × Runs mode (idle s) (idle t)
      × (length t.stored ≡ suc (storage_limit mode))
store_exceeds_limit mode s p q now last p_ok q_ok differ p_new q_new =
    let room : length s.stored < storage_limit mode = omega (arith, last) in
    let both =
      Runs.next
        (Runs.next (Runs.here) (admit s [] q q_ok (can_store-new mode s q.owner_id q_new room)))
        (admit s (q ∷ []) p p_ok (can_store-new mode s p.owner_id p_new room)) in
    let first = stored_for now s p in
    (
      stored_for now first q,
      Runs.next (Runs.next both (write s (q ∷ []) p now)) (write first [] q now),
      omega (
        arith,
        last,
        length-store_stash now s p p_new,
        length-store_stash now first q (lookup-store_stash now s p q.owner_id differ q_new),
      ),
    )
