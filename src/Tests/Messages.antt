-- ===== src/Tests/Messages.antt =====
-- The runtime at concrete messages and behaviors.
use nara.Prelude.{ℕ, ◌≡◌, refl, true, false, none, some, [], ◌∷◌}
use nara.Prelude.Int.{pos}
use nara.Runtime.{Message, Surroundings, Effect, World, verify_message, CallRegistry}
use nara.Runtime.Stages.{run, process}
use nara.Runtime.Behaviors.{Behavior, broadcast_event, with_payload, with_handler}
use nara.Runtime.Flow.{Raw, Runtime, lookup_behavior, build_emit_pipeline, deserialize, receive}
use nara.Runtime.Receiving.{IsForged, receive-IsForged}
use nara.Runtime.Emitting.{
  IsKeyOf, emit-verifies, default_store-Keeps, gossip-Keeps, mqtt-Keeps, notify-Keeps,
}
use nara.Tests.Data.{key}

-- Payloads are numbers, the ledger counts, every sender's key is the same, and a signature of one
-- byte is good.
abbrev surroundings : Surroundings ℕ
surroundings = record {
  Store = ℕ;
  has_id = λ l id. false;
  has_content_key = λ l k. false;
  add = λ l m priority. some l;
  Keys = ℕ;
  lookup_public_key = λ keys id. some key;
  register_public_key = λ keys id k. keys;
  sign = λ content. 7 ∷ [];
  try_send_direct = λ id m. true;
  publish_mqtt = λ topic bytes. true;
  marshal_payload = λ p. some "p";
  marshal_signable = λ s. some (1 ∷ []);
  marshal_message = λ m. some (2 ∷ []);
  format_time = λ t. "t";
  sha256_base58_16 = λ parts. "id";
  format_topic = λ pattern name. pattern;
  ed25519_verify = λ k content s. true;
}

abbrev news : Behavior surroundings
news = broadcast_event surroundings "news" "" (pos 2) "topic"

abbrev note : Message ℕ
note = record {
  id = "id";
  content_key = "";
  kind = "news";
  version = pos 0;
  from = "bob";
  from_id = "bob";
  to = "";
  to_id = "";
  timestamp = pos 1;
  payload = some 3;
  signature = 7 ∷ [];
  in_reply_to = "";
}

abbrev world : World surroundings
world = record {
  ledger = some 0;
  keys = 0;
  transport = true;
  gossip_queue = true;
  event_bus = true;
  personality = none;
  effects = [];
}

own_key : IsKeyOf surroundings key
own_key = record { size = refl; signs = λ content. refl; fits = λ content. refl }

emit-verifies_example : verify_message surroundings note key ≡ true
unfolding run process broadcast_event build_emit_pipeline
emit-verifies_example =
    emit-verifies surroundings news key (record note { id = ""; signature = [] }) note world
      (record world {
        effects =
            Effect.stored note
            ∷ Effect.queued note
            ∷ Effect.published_on "topic" (2 ∷ [])
            ∷ Effect.notified_of note
            ∷ [];
      })
      own_key refl
      (
        default_store-Keeps surroundings (pos 2),
        (
          gossip-Keeps surroundings,
          (mqtt-Keeps surroundings "topic", (notify-Keeps surroundings, tt)),
        ),
      )
      refl

-- `news` with a payload and a handler for its first version.
abbrev versioned : Behavior surroundings
versioned =
    with_handler surroundings (pos 1) (λ m. true) (with_payload surroundings (λ json. some 3) news)

abbrev runtime : Runtime surroundings
runtime = record {
  me = some (record { id = "ann"; name = "ann" });
  behaviors = ("news", versioned) ∷ [];
  calls = record { pending = []; answers = [] };
  world = world;
}

abbrev raw_note : Message ℕ → Raw ℕ
raw_note m = record { envelope = m; payload_json = "3" }

abbrev forged : Message ℕ
forged = record note { signature = [] }

forged-IsForged : IsForged surroundings forged world
unfolding verify_message
forged-IsForged k e = refl

receive-IsForged_example : receive surroundings (some (raw_note forged)) runtime ≡ (none, runtime)
unfolding deserialize lookup_behavior broadcast_event with_payload with_handler
receive-IsForged_example =
    receive-IsForged surroundings (raw_note forged) forged versioned runtime refl refl refl refl
      forged-IsForged

abbrev asking : CallRegistry ℕ
asking = record { pending = ("q", record { channel = 1; expires = pos 5 }) ∷ []; answers = [] }
