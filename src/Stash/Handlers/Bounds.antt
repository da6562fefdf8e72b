-- ===== src/Stash/Handlers/Bounds.antt =====
-- What the handlers keep for others.
use mathlib.Core.Option.{none-ne-some}
use nara.Prelude.{
  ℕ, suc, ◌≤◌, ◌≡◌, ◌≢◌, refl, sym, ap, ◌∙◌, of_some-eq, ltb→lt, inl, inr, Bool, true, false,
  Option, none, some, [], ◌∷◌, String, ◌==◌, eq_iff, arith, length, Bool-cases, Option-cases,
  if◌then◌else◌,
}
use nara.Prelude.Dict.{Dict, lookup, insert, lookup-insert, DistinctKeys, insert-DistinctKeys}
use nara.Runtime.{Message}
use nara.Stash.{
  StashStorePayload, StashRequestPayload, StashRefreshPayload, StashResponsePayload, StashPayload,
  store_payload, store_ack, request_payload, response_payload, refresh_payload, EncryptedStash,
  StashService, RuntimeInterface, validate_store, storage_limit, can_store, store_stash,
  validate_request, get_stored_stash,
}
use nara.Stash.Handlers.{
  handler_for, handle_store, handle_request, handle_response, handle_refresh, handle_store_ack,
  handle_recovery_payload, acknowledge, emit_last,
}

abbrev is_some : Option EncryptedStash → Bool
is_some none = false
is_some (some e) = true

abbrev is_known : String → Dict EncryptedStash → Bool
is_known k m = is_some (lookup k m)

pub length-insert :
    (k : String) (e : EncryptedStash) (m : Dict EncryptedStash)
    → length (insert k e m) ≡ (if is_known k m then length m else suc (length m))
unfolding insert lookup
length-insert k e [] = refl
length-insert k e ((j, d) ∷ m) = ground (arith, length-insert k e m)

-- The stash is one of the owner's, and could be decrypted.
pub record IsStashOf (owner_id : String) (e : EncryptedStash) : Type 0 where
  pub owned : e.owner_id ≡ owner_id
  pub nonce_size : length e.nonce ≡ 24
  pub not_empty : length e.ciphertext ≢ 0

pub record IsWithinLimit (mode : String) (s : StashService) : Type 0 where
  pub distinct : DistinctKeys s.stored
  pub within : length s.stored ≤ storage_limit mode
  pub formed :
      (owner_id : String) (e : EncryptedStash)
      → lookup owner_id s.stored ≡ some e
      → IsStashOf owner_id e

validated :
    (p : StashStorePayload)
    → validate_store p ≡ none
    → (length p.nonce ≡ 24) × (length p.ciphertext ≢ 0)
unfolding validate_store
validated p ok = ground (arith, ok)

can_store-room :
    (mode : String) (s : StashService) (owner_id : String)
    → can_store mode s owner_id ≡ true
    → length s.stored ≤ storage_limit mode
    → (if is_known owner_id s.stored then length s.stored else suc (length s.stored))
      ≤ storage_limit mode
unfolding can_store
can_store-room mode s owner_id room within = elim (Option-cases (lookup owner_id s.stored)) [
  | inl empty ↦ rw (ap is_some empty) (ltb→lt _ _ (rw (can_store, empty) at room))
  | inr (e, there) ↦ rw (ap is_some there) within
]

stored-IsStashOf :
    (s : StashService) (p : StashStorePayload) (now : ℕ) (owner_id : String) (d : EncryptedStash)
    → ((id : String) (e : EncryptedStash) → lookup id s.stored ≡ some e → IsStashOf id e)
    → (length p.nonce ≡ 24) × (length p.ciphertext ≢ 0)
    → (if p.owner_id == owner_id
        then some (record {
          owner_id = p.owner_id;
          nonce = p.nonce;
          ciphertext = p.ciphertext;
          stored_at = now;
        })
        else lookup owner_id s.stored)
      ≡ some d
    → IsStashOf owner_id d
stored-IsStashOf s p now owner_id d formed ok there = elim (Bool-cases (p.owner_id == owner_id)) [
  | inl same ↦
      of_some-eq (IsStashOf owner_id) (rw same at there) (record {
        owned = (eq_iff p.owner_id owner_id).0 same;
        nonce_size = ok.0;
        not_empty = ok.1;
      })
  | inr other ↦ formed owner_id d (rw other at there)
]

store_stash-IsWithinLimit :
    (mode : String) (now : ℕ) (s : StashService) (p : StashStorePayload)
    → IsWithinLimit mode s
    → validate_store p ≡ none
    → can_store mode s p.owner_id ≡ true
    → IsWithinLimit mode (store_stash now s p.owner_id p.nonce p.ciphertext)
unfolding store_stash
store_stash-IsWithinLimit mode now s p v ok room =
    let e : EncryptedStash = record {
      owner_id = p.owner_id;
      nonce = p.nonce;
      ciphertext = p.ciphertext;
      stored_at = now;
    } in
    record {
      distinct = insert-DistinctKeys p.owner_id e s.stored v.distinct;
      within =
          rw (length-insert p.owner_id e s.stored) (can_store-room mode s p.owner_id room v.within);
      formed = λ owner_id d there.
          stored-IsStashOf s p now owner_id d v.formed (validated p ok)
            (sym (lookup-insert p.owner_id owner_id e s.stored) ∙ there);
    }

module _ (R : RuntimeInterface) where
  open R use {State, memory_mode}

  handle_store-IsWithinLimit :
      (m : Message StashPayload) (p : StashStorePayload) (s : StashService) (st : State)
      → IsWithinLimit memory_mode s
      → IsWithinLimit memory_mode (handle_store R m p s st).1
  unfolding acknowledge emit_last handle_store
  handle_store-IsWithinLimit m p s st v = elim (Option-cases (validate_store p)) [
    | inr (error, bad) ↦ rw (handle_store, bad) v
    | inl ok ↦ elim (Bool-cases (can_store memory_mode s p.owner_id)) [
      | inl room ↦
          rw (handle_store, ok, room)
            (store_stash-IsWithinLimit memory_mode (R.read_clock st).0 s p v ok room)
      | inr full ↦ rw (handle_store, ok, full) v
    ]
  ]

  handle_request-service :
      (m : Message StashPayload) (p : StashRequestPayload) (s : StashService) (st : State)
      → (handle_request R m p s st).1 ≡ s
  unfolding emit_last handle_request
  handle_request-service m p s st = elim (Option-cases (validate_request p)) [
    | inr (error, bad) ↦ rw (handle_request, bad) refl
    | inl ok ↦ elim (Option-cases (get_stored_stash s p.owner_id)) [
      | inl empty ↦ rw (handle_request, ok, empty) refl
      | inr (stash, there) ↦ rw (handle_request, ok, there) refl
    ]
  ]

  handle_refresh-service :
      (m : Message StashPayload) (p : StashRefreshPayload) (s : StashService) (st : State)
      → (handle_refresh R m p s st).1 ≡ s
  unfolding emit_last handle_refresh
  handle_refresh-service m p s st = elim (Option-cases (get_stored_stash s p.owner_id)) [
    | inl empty ↦ rw (handle_refresh, empty) refl
    | inr (stash, there) ↦ rw (handle_refresh, there) refl
  ]

  handle_response-stored :
      (m : Message StashPayload) (p : StashResponsePayload) (s : StashService) (st : State)
      → (handle_response R m p s st).1.stored ≡ s.stored
  unfolding handle_recovery_payload handle_response
  handle_response-stored m p s st = ground arith

  same_stored :
      (s t : StashService)
      → t.stored ≡ s.stored
      → IsWithinLimit memory_mode s
      → IsWithinLimit memory_mode t
  same_stored s t same v = record {
    distinct = rw same v.distinct;
    within = rw same v.within;
    formed = rw same v.formed;
  }

  guarded :
      {A : Type 0} (P : A → Type 0) (b : Bool) (x y : A)
      → (if b then some x else none) ≡ some y
      → P x
      → P y
  guarded P true x y e px = of_some-eq P e px
  guarded P false x y e px = absurd (none-ne-some _ e)

  -- Whatever message comes in, the handler that is registered for it keeps the number of stashes
  -- within the limit of the memory mode, with one for each owner, and each of them is under its
  -- owner's ID, with a nonce of 24 bytes and a ciphertext that is not empty.
  pub handler_for-IsWithinLimit :
      (m : Message StashPayload) (p : StashPayload) (s : StashService) (st : State)
      (handler : StashService → State → Option String × StashService × State)
      → handler_for R m p ≡ some handler
      → IsWithinLimit memory_mode s
      → IsWithinLimit memory_mode (handler s st).1
  unfolding handler_for
  handler_for-IsWithinLimit m p s st handler found v =
      elim p
          as (λ (q : StashPayload).
            handler_for R m q ≡ some handler → IsWithinLimit memory_mode (handler s st).1) [
              | store_payload q ↦ λ e. guarded keeps _ _ _ e (handle_store-IsWithinLimit m q s st v)
              | store_ack q ↦ λ e. guarded keeps _ _ _ e (unfold handle_store_ack in v)
              | request_payload q ↦ λ e. guarded keeps _ _ _ e (
                  same_stored s _
                    (ap (λ (t : StashService). t.stored) (handle_request-service m q s st)) v)
              | refresh_payload q ↦ λ e. guarded keeps _ _ _ e (
                  same_stored s _
                    (ap (λ (t : StashService). t.stored) (handle_refresh-service m q s st)) v)
              | response_payload q ↦
                  λ e. guarded keeps _ _ _ e (same_stored s _ (handle_response-stored m q s st) v)
            ]
        found
    where
      keeps : (StashService → State → Option String × StashService × State) → Type 0
      keeps h = IsWithinLimit memory_mode (h s st).1
