-- ===== src/Event/Create/Signed.antt =====
-- `Verify` of sync_event.go, which leaves the check to the payload, on events that `Sign` signs.
use nara.Prelude.{
  ℕ, ◌≡◌, ◌≢◌, refl, ap, ◌∙◌, inl, inr, Bool, true, false, not, Option, none, some, List, String,
  ◌==◌, eq_iff, arith, length, Option-cases, Bool-cases, of_some-eq, if◌then◌else◌,
}
use mathlib.Core.Option.{none-ne-some}
use nara.Event.{SyncEvent, Payload, payload}
use nara.Event.Content.{Host}
use nara.Event.Signature.{
  Crypto, PublicKeyLookup, parse_public_key, signable_data, is_signed, verify_signature,
  verify_with_key, default_verify, verify_embedded,
}
use nara.Event.Create.{Sign, sign_event}
use nara.Checkpoint.Verify.{verify_signature_with_counts}

module _ (c : Crypto) (h : Host) where
  -- `p.VerifySignature(e, lookup)`, on a payload that is not the nil interface
  unfoldable pub verify_payload : Payload → SyncEvent → Option PublicKeyLookup → Option Bool
  unfolding default_verify verify_embedded verify_signature_with_counts
  verify_payload Payload.absent e lookup = some false
  verify_payload (Payload.hey_there none) e lookup = none
  verify_payload (Payload.hey_there (some p)) e lookup = verify_embedded c h e p.public_key
  verify_payload (Payload.chau none) e lookup = none
  verify_payload (Payload.chau (some p)) e lookup = verify_embedded c h e p.public_key
  verify_payload (Payload.checkpoint none) e lookup = none
  verify_payload (Payload.checkpoint (some p)) e lookup =
      some (verify_signature_with_counts c h lookup p).valid
  verify_payload _ e lookup = default_verify c h lookup e

  -- `(e *SyncEvent) Verify`
  unfoldable pub verify_event : Option PublicKeyLookup → SyncEvent → Option Bool
  unfolding is_signed verify_payload
  verify_event lookup e =
      if not (is_signed c h e) then some false else verify_payload (payload e) e lookup

  -- The key that an event is checked with: the one in its payload, or the one that is looked up.
  -- A checkpoint is checked by the signatures of its voters instead.
  abbrev pub checking_key : Option PublicKeyLookup → SyncEvent → Payload → Option (List ℕ)
  checking_key lookup e (Payload.hey_there (some p)) =
      if p.public_key == "" then none else parse_public_key c p.public_key
  checking_key lookup e (Payload.chau (some p)) =
      if p.public_key == "" then none else parse_public_key c p.public_key
  checking_key lookup e (Payload.hey_there none) = none
  checking_key lookup e (Payload.chau none) = none
  checking_key lookup e (Payload.checkpoint p) = none
  checking_key lookup e Payload.absent = none
  checking_key none e (Payload.social p) = none
  checking_key none e (Payload.ping p) = none
  checking_key none e (Payload.observation p) = none
  checking_key none e (Payload.seen p) = none
  checking_key (some lookup) e (Payload.social p) = lookup e.emitter_id e.emitter
  checking_key (some lookup) e (Payload.ping p) = lookup e.emitter_id e.emitter
  checking_key (some lookup) e (Payload.observation p) = lookup e.emitter_id e.emitter
  checking_key (some lookup) e (Payload.seen p) = lookup e.emitter_id e.emitter

  -- A keypair whose signatures are good for its public key, as those of ed25519 are.
  pub record IsKeyOf (sign : Sign) (key : List ℕ) : Type 0 where
    pub key_size : length key ≡ 32
    pub not_empty : (message : List ℕ) → sign message ≢ ""
    pub signature : List ℕ → List ℕ
    pub decoded : (message : List ℕ) → c.decode_base64 (sign message) ≡ some (signature message)
    pub signature_size : (message : List ℕ) → length (signature message) ≡ 64
    pub good : (message : List ℕ) → c.ed25519_verify key message (signature message) ≡ true

  embedded-by_key :
      (e : SyncEvent) (text : String) (key : List ℕ)
      → (if text == "" then none else parse_public_key c text) ≡ some key
      → verify_embedded c h e text ≡ verify_with_key c h e (some key)
  unfolding verify_embedded
  embedded-by_key e text key by = elim (Bool-cases (text == "")) [
    | inl empty ↦ absurd (none-ne-some _ (rw empty at by))
    | inr full ↦ rw (verify_embedded, full, (rw full at by)) refl
  ]

  -- The check depends on the payload only through the key.
  verify_payload-by_key :
      (p : Payload) (e : SyncEvent) (lookup : Option PublicKeyLookup) (key : List ℕ)
      → checking_key lookup e p ≡ some key
      → verify_payload p e lookup ≡ verify_with_key c h e (some key)
  unfolding verify_payload default_verify
  verify_payload-by_key Payload.absent e lookup key by = absurd (none-ne-some _ by)
  verify_payload-by_key (Payload.checkpoint p) e lookup key by = absurd (none-ne-some _ by)
  verify_payload-by_key (Payload.hey_there none) e lookup key by = absurd (none-ne-some _ by)
  verify_payload-by_key (Payload.chau none) e lookup key by = absurd (none-ne-some _ by)
  verify_payload-by_key (Payload.hey_there (some p)) e lookup key by =
      embedded-by_key e p.public_key key by
  verify_payload-by_key (Payload.chau (some p)) e lookup key by =
      embedded-by_key e p.public_key key by
  verify_payload-by_key (Payload.social p) e none key by = absurd (none-ne-some _ by)
  verify_payload-by_key (Payload.ping p) e none key by = absurd (none-ne-some _ by)
  verify_payload-by_key (Payload.observation p) e none key by = absurd (none-ne-some _ by)
  verify_payload-by_key (Payload.seen p) e none key by = absurd (none-ne-some _ by)
  verify_payload-by_key (Payload.social p) e (some lookup) key by = ap (verify_with_key c h e) by
  verify_payload-by_key (Payload.ping p) e (some lookup) key by = ap (verify_with_key c h e) by
  verify_payload-by_key (Payload.observation p) e (some lookup) key by =
      ap (verify_with_key c h e) by
  verify_payload-by_key (Payload.seen p) e (some lookup) key by = ap (verify_with_key c h e) by

  -- The signature is not part of what is signed.
  signable_data-signature :
      (e : SyncEvent) (emitter signature : String)
      → signable_data c h (record e { emitter = emitter; signature = signature })
        ≡ signable_data c h (record e { emitter = emitter })
  unfolding signable_data payload
  signable_data-signature e emitter signature = refl

  signed-is_signed :
      (e : SyncEvent) (emitter signature : String)
      → emitter ≢ ""
      → signature ≢ ""
      → is_signed c h (record e { emitter = emitter; signature = signature }) ≡ true
  unfolding is_signed
  signed-is_signed e emitter signature named full =
      ground (arith, named, full, eq_iff emitter "", eq_iff signature "")

  good-verify_signature :
      (sign : Sign) (key content : List ℕ)
      → (k : IsKeyOf sign key) → verify_signature c key content (k.signature content) ≡ true
  unfolding verify_signature
  good-verify_signature sign key content k =
      ground (arith, k.key_size, k.signature_size content, k.good content)

  signed-verify_with_key :
      (sign : Sign) (emitter : String) (e : SyncEvent) (key content : List ℕ)
      → IsKeyOf sign key
      → emitter ≢ ""
      → signable_data c h (record e { emitter = emitter }) ≡ some content
      → verify_with_key c h (record e { emitter = emitter; signature = sign content }) (some key)
        ≡ some true
  unfolding verify_with_key
  signed-verify_with_key sign emitter e key content k named at =
      rw
        (
          verify_with_key,
          signed-is_signed e emitter (sign content) named (k.not_empty content),
          k.decoded content,
          signable_data-signature e emitter (sign content),
          at,
          good-verify_signature sign key content k,
        )
        refl

  -- An event that a nara signs under a name that is not empty is verified by every nara that checks
  -- it with the key of the signer: the key in its payload for an arrival or a departure, the one
  -- that is looked up for any other but a checkpoint. The keypair must make good signatures of 64
  -- bytes.
  pub sign_event-verifies :
      (sign : Sign) (emitter : String) (e signed : SyncEvent) (lookup : Option PublicKeyLookup)
      (key : List ℕ)
      → IsKeyOf sign key
      → emitter ≢ ""
      → sign_event c h sign emitter e ≡ some signed
      → checking_key lookup signed (payload signed) ≡ some key
      → verify_event lookup signed ≡ some true
  unfolding sign_event verify_event
  sign_event-verifies sign emitter e signed lookup key k named made by =
      elim (Option-cases (signable_data c h (record e { emitter = emitter }))) [
        | inl nil ↦ absurd (none-ne-some _ (rw (sign_event, nil) at made))
        | inr (content, at) ↦
            of_some-eq
              (λ t.
                checking_key lookup t (payload t) ≡ some key → verify_event lookup t ≡ some true)
              (rw (sign_event, at) at made)
              (λ by'.
                rw
                  (
                    verify_event,
                    signed-is_signed e emitter (sign content) named (k.not_empty content),
                  )
                  (verify_payload-by_key
                      (payload (record e { emitter = emitter; signature = sign content }))
                      (record e { emitter = emitter; signature = sign content }) lookup key by'
                    ∙ signed-verify_with_key sign emitter e key content k named at))
              by
      ]
