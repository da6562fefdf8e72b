-- ===== src/Runtime.antt =====
-- runtime/message.go and runtime/interfaces.go: the message, what the runtime needs of its
-- surroundings, and the registry of pending calls. The children hold the stages, the behaviors and
-- the runtime that runs them.
--
-- A payload is of a type `P`; the nil payload is `none`. A time is a number of nanoseconds. An
-- error is the text that says what failed, without the error it wraps.
pub mod Stages
pub mod Behaviors
pub mod Flow
pub mod Receiving
pub mod Emitting
use nara.Prelude.{
  ℕ, Bool, true, false, not, ◌&&◌, Option, none, some, List, [], ◌∷◌, ◌++◌, String, ◌==◌, eqb,
  length, if◌then◌else◌,
}
use nara.Prelude.Int.{ℤ, pos, negsuc, ltb_ℤ, ◌+ℤ◌}
use nara.Prelude.Dict.{Dict, lookup, insert}

pub record Message (P : Type 0) : Type 0 where
  pub id : String
  pub content_key : String
  pub kind : String
  pub version : ℤ
  pub from : String
  pub from_id : String
  pub to : String
  pub to_id : String
  pub timestamp : ℤ
  pub payload : Option P
  pub signature : List ℕ
  pub in_reply_to : String

-- The struct that `SignableContent` marshals.
pub record Signable (P : Type 0) : Type 0 where
  pub id : String
  pub kind : String
  pub from_id : String
  pub to_id : String
  pub timestamp : ℤ
  pub payload : Option P

pub record Personality : Type 0 where
  pub agreeableness : ℤ
  pub sociability : ℤ
  pub chill : ℤ

-- The interfaces of the runtime (the ledger, the pool of keys, the keypair and the transport) with
-- what it calls of Go's standard library and base58. `none` and `false` are an error.
pub record Surroundings (P : Type 0) : Type 1 where
  pub Store : Type 0
  pub has_id : Store → String → Bool
  pub has_content_key : Store → String → Bool
  pub add : Store → Message P → ℤ → Option Store
  pub Keys : Type 0
  pub lookup_public_key : Keys → String → Option (List ℕ)
  pub register_public_key : Keys → String → List ℕ → Keys
  pub sign : List ℕ → List ℕ
  pub try_send_direct : String → Message P → Bool
  pub publish_mqtt : String → List ℕ → Bool
  pub marshal_payload : P → Option String
  pub marshal_signable : Signable P → Option (List ℕ)
  pub marshal_message : Message P → Option (List ℕ)
  pub format_time : ℤ → String
  pub sha256_base58_16 : List String → String
  pub format_topic : String → String → String
  pub ed25519_verify : List ℕ → List ℕ → List ℕ → Bool

-- What the stages and the runtime do that others notice.
pub data Effect (P : Type 0) : Type 0 where
  stored : Message P → Effect P
  queued : Message P → Effect P
  sent_to : String → Message P → Effect P
  published_on : String → List ℕ → Effect P
  notified_of : Message P → Effect P
  handled : ℤ → Message P → Effect P
  exited : Effect P

module _ {P : Type 0} (S : Surroundings P) where
  open S use {
    Store, Keys, marshal_payload, marshal_signable, format_time, sha256_base58_16, ed25519_verify,
  }

  -- `ComputeID`
  unfoldable pub compute_message_id : Message P → Option String
  compute_message_id m = elim m.payload [
    | none ↦ some (sha256_base58_16 (m.kind ∷ m.from_id ∷ format_time m.timestamp ∷ []))
    | some p ↦ elim (marshal_payload p) [
      | none ↦ none
      | some bytes ↦
          some (sha256_base58_16 (m.kind ∷ m.from_id ∷ format_time m.timestamp ∷ bytes ∷ []))
    ]
  ]

  -- `SignableContent`
  unfoldable pub message_content : Message P → Option (List ℕ)
  message_content m = marshal_signable (record {
    id = m.id;
    kind = m.kind;
    from_id = m.from_id;
    to_id = m.to_id;
    timestamp = m.timestamp;
    payload = m.payload;
  })

  -- `VerifySignature`
  unfoldable pub verify_message : Message P → List ℕ → Bool
  unfolding message_content
  verify_message m key =
      if eqb (length m.signature) 0
      then false
      else if not (eqb (length key) 32)
      then false
      else elim (message_content m) [
        | none ↦ false
        | some content ↦ ed25519_verify key content m.signature
      ]

  -- What the stages share: a nil ledger is `none`, and the Booleans are whether the transport, the
  -- gossip queue and the event bus are there.
  pub record World : Type 0 where
    pub ledger : Option Store
    pub keys : Keys
    pub transport : Bool
    pub gossip_queue : Bool
    pub event_bus : Bool
    pub personality : Option Personality
    pub effects : List (Effect P)

  unfoldable pub happen : Effect P → World → World
  happen x w = record w { effects = w.effects ++ x ∷ [] }

-- `Reply`
unfoldable pub reply : {P : Type 0} → Message P → String → Option P → Message P
reply m kind payload = record {
  id = "";
  content_key = "";
  kind = kind;
  version = pos 1;
  from = "";
  from_id = "";
  to = m.from;
  to_id = m.from_id;
  timestamp = negsuc 62135596799999999999;
  payload = payload;
  signature = [];
  in_reply_to = m.id;
}

pub data CallResult (P : Type 0) : Type 0 where
  response : Message P → CallResult P
  failure : String → CallResult P

-- A channel is a number.
pub record PendingCall : Type 0 where
  pub channel : ℕ
  pub expires : ℤ

-- `answers` is the trace of what is sent on the channels.
pub record CallRegistry (P : Type 0) : Type 0 where
  pub pending : Dict PendingCall
  pub answers : List (ℕ × CallResult P)

-- `delete(r.pending, id)`
unfoldable pub delete : String → Dict PendingCall → Dict PendingCall
delete id [] = []
delete id ((k, c) ∷ rest) = let later = delete id rest in if k == id then later else (k, c) ∷ later

module _ {P : Type 0} where
  -- `Register`
  unfoldable pub register : ℤ → String → ℕ → ℤ → CallRegistry P → CallRegistry P
  unfolding ◌+ℤ◌ insert
  register now id channel timeout r = record r {
    pending = insert id (record { channel = channel; expires = now +ℤ timeout }) r.pending;
  }

  -- `Resolve`
  unfoldable pub resolve : String → Message P → CallRegistry P → Option (CallRegistry P)
  unfolding lookup delete
  resolve in_reply_to m r = elim (lookup in_reply_to r.pending) [
    | none ↦ none
    | some c ↦ some (record {
      pending = delete in_reply_to r.pending;
      answers = r.answers ++ (c.channel, CallResult.response m) ∷ [];
    })
  ]

  -- `Cancel`
  unfoldable pub cancel : String → CallRegistry P → CallRegistry P
  unfolding delete
  cancel id r = record r { pending = delete id r.pending }

  -- One round of `reapLoop`, over the entries in the order of the range.
  unfoldable pub reap : ℤ → Dict PendingCall → CallRegistry P → CallRegistry P
  unfolding delete
  reap now [] r = r
  reap now ((id, c) ∷ rest) r =
      let on_time = reap now rest r in
      let late = reap now rest (record {
        pending = delete id r.pending;
        answers = r.answers ++ (c.channel, CallResult.failure "call timed out") ∷ [];
      }) in
      if ltb_ℤ c.expires now then late else on_time
