-- ===== src/Event/Signature.antt =====
-- sync_event.go, presence_heythere.go, presence_chau.go, identity/crypto.go: signatures of events.
--
-- Ed25519 and base64 are Go's standard library: the fields of `Crypto`. A nil public key is `none`,
-- bytes are lists of numbers.
use nara.Prelude.{
  ℕ, Bool, false, not, ◌&&◌, Option, none, some, List, [], ◌∷◌, String, ◌==◌, eqb, length,
  if◌then◌else◌,
}
use nara.Event.{SyncEvent, payload, deref}
use nara.Event.Content.{Host, join, payload_content}

pub record Crypto : Type 0 where
  pub bytes : String → List ℕ
  pub decode_base64 : String → Option (List ℕ)
  pub ed25519_verify : List ℕ → List ℕ → List ℕ → Bool

-- `PublicKeyLookup`: by the ID and the name
abbrev pub PublicKeyLookup : Type 0
PublicKeyLookup = String → String → Option (List ℕ)

module _ (c : Crypto) where
  -- `identity.ParsePublicKey`
  unfoldable pub parse_public_key : String → Option (List ℕ)
  parse_public_key s = elim (c.decode_base64 s) [
    | none ↦ none
    | some key ↦ if eqb (length key) 32 then some key else none
  ]

  -- `identity.VerifySignature`
  unfoldable pub verify_signature : List ℕ → List ℕ → List ℕ → Bool
  verify_signature key message signature =
      eqb (length key) 32 && eqb (length signature) 64 && c.ed25519_verify key message signature

  -- `identity.VerifySignatureBase64`
  unfoldable pub verify_signature_base64 : List ℕ → List ℕ → String → Bool
  unfolding verify_signature
  verify_signature_base64 key message signature = elim (c.decode_base64 signature) [
    | none ↦ false
    | some s ↦ verify_signature key message s
  ]

  module _ (h : Host) where
    -- `signableData`
    unfoldable pub signable_data : SyncEvent → Option (List ℕ)
    signable_data e = deref (payload_content h (payload e)) λ content. h.sha256 (
        join (
          e.id
          ∷ ":"
          ∷ h.format_int e.timestamp
          ∷ ":"
          ∷ e.service
          ∷ ":"
          ∷ e.emitter
          ∷ ":"
          ∷ content
          ∷ []))

    unfoldable pub is_signed : SyncEvent → Bool
    is_signed e = not (e.emitter == "") && not (e.signature == "")

    -- `VerifyWithKey`
    unfoldable pub verify_with_key : SyncEvent → Option (List ℕ) → Option Bool
    unfolding is_signed signable_data verify_signature
    verify_with_key e none = some false
    verify_with_key e (some key) =
        if not (is_signed e) then some false else elim (c.decode_base64 e.signature) [
          | none ↦ some false
          | some s ↦ deref (signable_data e) (λ message. verify_signature key message s)
        ]

    -- `DefaultVerifySignature`
    unfoldable pub default_verify : Option PublicKeyLookup → SyncEvent → Option Bool
    unfolding verify_with_key
    default_verify none e = some false
    default_verify (some lookup) e = verify_with_key e (lookup e.emitter_id e.emitter)

    -- `VerifySignature` of `HeyThereEvent` and `ChauEvent`, by the key in the payload
    unfoldable pub verify_embedded : SyncEvent → String → Option Bool
    unfolding verify_with_key parse_public_key
    verify_embedded e key =
        if key == ""
        then some false
        else elim (parse_public_key key) [ none ↦ some false | some k ↦ verify_with_key e (some k) ]
