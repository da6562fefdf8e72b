-- ===== src/Stash/Owner/Exchange.antt =====
-- An owner and a confidant on a link that loses nothing: a call runs the confidant's handler, and
-- is answered by the first message that the handler emits in reply.
use text.Mathlib.TextPositions.{eq_refl}
use mathlib.Core.Bool.{true≢false}
use nara.Prelude.{
  ℕ, suc, ◌≡◌, ◌≢◌, refl, ap, ◌∙◌, sym, inl, inr, true, false, Option, none, some, List, [], ◌∷◌,
  ◌++◌, String, ◌==◌, eq_iff, eqb, arith, length, Bool-cases, Option-cases, if◌then◌else◌,
}
use nara.Prelude.Dict.{lookup, lookup-insert}
use nara.Event.Content.{join}
use nara.Runtime.{Message, CallResult, reply}
use nara.Stash.{
  StashPayload, StashService, RuntimeInterface, new_message, validate_store, validate_request,
  store_stash, can_store, get_stored_stash,
}
use nara.Stash.Handlers.{
  handler_for, handle_store, handle_request, acknowledge, emit_last, build_stash_response,
}
use nara.Stash.Owner.{fetched, failed, store_with, request_from, store_outcome, request_outcome}

-- The owner, the memory mode of the confidant and the encryption.
pub record Link : Type 0 where
  pub owner_id : String
  pub owner_name : String
  pub mode : String
  pub seal : List ℕ → Option (List ℕ × List ℕ)
  pub open_sealed : List ℕ → List ℕ → Option (List ℕ)

-- The side of the confidant: its clock, and the messages that it emits.
abbrev pub confidant_runtime : Link → RuntimeInterface
confidant_runtime link = record {
  State = ℕ × List (Message StashPayload);
  me_id = "confidant";
  me_name = "confidant";
  memory_mode = link.mode;
  online_peers = λ st. [];
  read_clock = λ st. (st.0, (suc st.0, st.1));
  emit = λ m st. (none, (st.0, st.1 ++ m ∷ []));
  call = λ m st. (CallResult.failure "call timed out", st);
  seal = λ bytes st. (none, st);
  open_sealed = λ nonce ciphertext. none;
}

unfoldable pub answer_to : String → List (Message StashPayload) → CallResult StashPayload
answer_to id [] = CallResult.failure "call timed out"
answer_to id (m ∷ ms) =
    let later = answer_to id ms in if m.in_reply_to == id then CallResult.response m else later

-- The messages are numbered by the clock of the confidant, which a name stands for here.
unfoldable pub deliver :
    Link → Message StashPayload → StashService × ℕ → CallResult StashPayload × (StashService × ℕ)
unfolding handler_for answer_to
deliver link m (s, clock) =
    let sent = record m { id = "call"; from_id = link.owner_id } in
    elim sent.payload [
      | none ↦ (CallResult.failure "call timed out", (s, clock))
      | some p ↦ elim (handler_for (confidant_runtime link) sent p) [
        | none ↦ (CallResult.failure "call timed out", (s, clock))
        | some handler ↦
            let (error, s', after) = handler s (clock, []) in
            (answer_to "call" after.1, (s', after.0))
      ]
    ]

-- The side of the owner.
abbrev pub owner_runtime : Link → RuntimeInterface
owner_runtime link = record {
  State = StashService × ℕ;
  me_id = link.owner_id;
  me_name = link.owner_name;
  memory_mode = link.mode;
  online_peers = λ st. [];
  read_clock = λ st. (st.1, (st.0, suc st.1));
  emit = λ m st. (none, st);
  call = λ m st. deliver link m st;
  seal = λ bytes st. (link.seal bytes, st);
  open_sealed = link.open_sealed;
}

module _ (link : Link) (s : StashService) (clock : ℕ) (id : String)
    (bytes nonce ciphertext : List ℕ) (named : link.owner_id ≢ "")
    (sealed : link.seal bytes ≡ some (nonce, ciphertext)) (sized : length nonce ≡ 24)
    (filled : length ciphertext ≢ 0) where
  -- The service of the confidant after it has stored the stash.
  abbrev pub kept : StashService
  kept = store_stash (suc clock) s link.owner_id nonce ciphertext

  store_with-accepted :
      can_store link.mode s link.owner_id ≡ true
      → store_with (owner_runtime link) id bytes (s, clock) ≡ (none, (kept, suc (suc (suc clock))))
  unfolding store_with deliver handler_for handle_store validate_store acknowledge emit_last
      answer_to store_outcome new_message reply
  store_with-accepted room =
      let e1 : (link.owner_id == "") ≡ false = ground (arith, named, eq_iff link.owner_id "") in
      let e2 : eqb (length nonce) 24 ≡ true = ground (arith, sized) in
      let e3 : eqb (length ciphertext) 0 ≡ false = ground (arith, filled) in
      rw (store_with, sealed) (rw (handle_store, e1, e2, e3, room) refl)

  store_with-refused :
      can_store link.mode s link.owner_id ≡ false
      → store_with (owner_runtime link) id bytes (s, clock)
        ≡ (some (join ("store failed: " ∷ "storage limit reached" ∷ [])), (s, suc (suc clock)))
  unfolding store_with deliver handler_for handle_store validate_store acknowledge emit_last
      answer_to store_outcome new_message reply
  store_with-refused full =
      let e1 : (link.owner_id == "") ≡ false = ground (arith, named, eq_iff link.owner_id "") in
      let e2 : eqb (length nonce) 24 ≡ true = ground (arith, sized) in
      let e3 : eqb (length ciphertext) 0 ≡ false = ground (arith, filled) in
      rw (store_with, sealed) (rw (handle_store, e1, e2, e3, full) refl)

  kept-lookup :
      lookup link.owner_id kept.stored
      ≡ some (record {
        owner_id = link.owner_id;
        nonce = nonce;
        ciphertext = ciphertext;
        stored_at = suc clock;
      })
  unfolding store_stash
  kept-lookup =
      lookup-insert link.owner_id link.owner_id _ s.stored ∙ rw (eq_refl link.owner_id) refl

  request_from-kept :
      (other : String) (later : ℕ)
      → link.open_sealed nonce ciphertext ≡ some bytes
      → request_from (owner_runtime link) other (kept, later) ≡ (fetched bytes, (kept, later))
  unfolding request_from deliver handler_for handle_request validate_request get_stored_stash
      emit_last build_stash_response answer_to request_outcome new_message reply
  request_from-kept other later opened =
      let e1 : (link.owner_id == "") ≡ false = ground (arith, named, eq_iff link.owner_id "") in
      rw (request_from, handle_request, e1, kept-lookup) (rw opened refl)

  refused-lookup :
      can_store link.mode s link.owner_id ≡ false → lookup link.owner_id s.stored ≡ none
  unfolding can_store
  refused-lookup full = elim (Option-cases (lookup link.owner_id s.stored)) [
    | inl empty ↦ empty
    | inr (stash, there) ↦ absurd (true≢false (sym (rw (can_store, there) refl) ∙ full))
  ]

  request_from-refused :
      (other : String) (later : ℕ)
      → can_store link.mode s link.owner_id ≡ false
      → request_from (owner_runtime link) other (s, later)
        ≡ (failed (join ("confidant " ∷ other ∷ " has no stash for us" ∷ [])), (s, later))
  unfolding request_from deliver handler_for handle_request validate_request get_stored_stash
      emit_last build_stash_response answer_to request_outcome new_message reply
  request_from-refused other later full =
      let e1 : (link.owner_id == "") ≡ false = ground (arith, named, eq_iff link.owner_id "") in
      rw (request_from, handle_request, e1, refused-lookup full) refl

-- Over a link that loses nothing, `StoreWith` succeeds exactly when the confidant has room for the
-- owner, and `RequestFrom` then gives the data back, whatever stash of the owner's was there
-- before. Where it has none, neither does, and the error says so. The encryption must make a nonce
-- of 24 bytes and a ciphertext that is not empty, from which it gets the data back.
pub request_from-store_with :
    (link : Link) (s : StashService) (clock : ℕ) (id : String) (bytes nonce ciphertext : List ℕ)
    → link.owner_id ≢ ""
    → link.seal bytes ≡ some (nonce, ciphertext)
    → length nonce ≡ 24
    → length ciphertext ≢ 0
    → link.open_sealed nonce ciphertext ≡ some bytes
    → ((store_with (owner_runtime link) id bytes (s, clock)).0 ≡ (
        if can_store link.mode s link.owner_id
        then none
        else some (join ("store failed: " ∷ "storage limit reached" ∷ []))))
      × ((request_from
            (owner_runtime link)
            id
            (store_with (owner_runtime link) id bytes (s, clock)).1).0
          ≡ (if can_store link.mode s link.owner_id
              then fetched bytes
              else failed (join ("confidant " ∷ id ∷ " has no stash for us" ∷ []))))
request_from-store_with link s clock id bytes nonce ciphertext named sealed sized filled opened =
    elim (Bool-cases (can_store link.mode s link.owner_id)) [
      | inl room ↦
          let stored =
            store_with-accepted link s clock id bytes nonce ciphertext named sealed sized filled
              room in
          let asked =
            request_from-kept link s clock id bytes nonce ciphertext named sealed sized filled id
              (suc (suc (suc clock))) opened in
          rw (stored, room) (refl, ap (λ r. r.0) asked)
      | inr full ↦
          let refused =
            store_with-refused link s clock id bytes nonce ciphertext named sealed sized filled
              full in
          let asked =
            request_from-refused link s clock id bytes nonce ciphertext named sealed sized filled id
              (suc (suc clock)) full in
          rw (refused, full) (refl, ap (λ r. r.0) asked)
    ]
