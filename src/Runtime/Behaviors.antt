-- ===== src/Runtime/Behaviors.antt =====
-- runtime/behavior.go: how the messages of a kind are emitted and received, with the templates.
--
-- The payload type of a version is the function that decodes a payload of it, and a handler answers
-- whether it returned without an error. What a handler does besides is the service's.
use nara.Prelude.{Bool, Option, none, some, String, if◌then◌else◌}
use nara.Prelude.Int.{ℤ, pos, eqb_ℤ}
use nara.Runtime.{Message, Personality, Surroundings}
use nara.Runtime.Stages.{
  Stage, default_verify, no_verify, id_dedupe, importance_filter, default_sign, no_sign, no_store,
  default_store, no_gossip, gossip, no_transport, mesh_only, mqtt,
}

pub data ErrorStrategy : Type 0 where
  error_drop : ErrorStrategy
  error_log : ErrorStrategy
  error_retry : ErrorStrategy
  error_queue : ErrorStrategy
  error_panic : ErrorStrategy

module _ {P : Type 0} (S : Surroundings P) where
  -- A stage that is nil is `none`.
  pub record EmitBehavior : Type 0 where
    pub sign_with : Option (Stage S)
    pub store_with : Option (Stage S)
    pub gossip_with : Option (Stage S)
    pub transport_with : Option (Stage S)
    pub on_error : ErrorStrategy

  pub record ReceiveBehavior : Type 0 where
    pub verify_with : Option (Stage S)
    pub dedupe_with : Option (Stage S)
    pub rate_limit_with : Option (Stage S)
    pub filter_with : Option (Stage S)
    pub store_with : Option (Stage S)
    pub on_error : ErrorStrategy

  pub record Behavior : Type 0 where
    pub kind : String
    pub description : String
    pub current_version : ℤ
    pub min_version : ℤ
    pub payload_types : ℤ → Option (String → Option P)
    pub handlers : ℤ → Option (Message P → Bool)
    pub content_key : Option (Option P → String)
    pub emit_behavior : EmitBehavior
    pub receive_behavior : ReceiveBehavior

  abbrev with_stages :
      Stage S
      → Stage S
      → Stage S
      → Option (Stage S)
      → Stage S
      → Stage S
      → Option (Stage S)
      → Behavior
  with_stages sign store spread transport verify receive_store filter = record {
    kind = "";
    description = "";
    current_version = pos 0;
    min_version = pos 0;
    payload_types = λ version. none;
    handlers = λ version. none;
    content_key = none;
    emit_behavior = record {
      sign_with = some sign;
      store_with = some store;
      gossip_with = some spread;
      transport_with = transport;
      on_error = error_drop;
    };
    receive_behavior = record {
      verify_with = some verify;
      dedupe_with = some id_dedupe;
      rate_limit_with = none;
      filter_with = filter;
      store_with = some receive_store;
      on_error = error_drop;
    };
  }

  -- `Critical`, `Normal` and `Casual` of runtime/helpers.go
  abbrev pub critical : Stage S
  critical = importance_filter (pos 3) none

  abbrev pub normal : Stage S
  normal = importance_filter (pos 2) none

  abbrev pub casual : (Message P → Personality → Bool) → Stage S
  casual f = importance_filter (pos 1) (some f)

  abbrev pub ephemeral_defaults : Behavior
  ephemeral_defaults = with_stages no_sign no_store no_gossip none no_verify no_store none

  abbrev pub protocol_defaults : Behavior
  protocol_defaults =
      with_stages default_sign no_store no_gossip none default_verify no_store (some critical)

  abbrev pub protocol_unverified_defaults : Behavior
  protocol_unverified_defaults =
      with_stages no_sign no_store no_gossip none no_verify no_store (some critical)

  abbrev pub stored_defaults : Behavior
  stored_defaults =
      with_stages default_sign (default_store (pos 2)) gossip (some no_transport) default_verify
        (default_store (pos 2)) none

  abbrev pub local_defaults : Behavior
  local_defaults =
      with_stages no_sign no_store no_gossip (some no_transport) no_verify no_store none

  abbrev named : Behavior → String → String → Option (Stage S) → Behavior
  named b kind description transport = record b {
    kind = kind;
    description = description;
    emit_behavior = record b.emit_behavior { transport_with = transport };
  }

  -- `Ephemeral`, `Protocol`, `ProtocolUnverified`, `MeshRequest`, `StoredEvent`, `BroadcastEvent`
  -- and `Local`
  unfoldable pub ephemeral : String → String → String → Behavior
  ephemeral kind description topic = named ephemeral_defaults kind description (some (mqtt topic))

  unfoldable pub protocol : String → String → String → Behavior
  protocol kind description topic = named protocol_defaults kind description (some (mqtt topic))

  unfoldable pub protocol_unverified : String → String → String → Behavior
  protocol_unverified kind description topic =
      named protocol_unverified_defaults kind description (some (mqtt topic))

  unfoldable pub mesh_request : String → String → Behavior
  mesh_request kind description = named protocol_defaults kind description (some mesh_only)

  abbrev storing : Behavior → ℤ → Behavior
  storing b priority = record b {
    emit_behavior = record b.emit_behavior { store_with = some (default_store priority) };
    receive_behavior = record b.receive_behavior { store_with = some (default_store priority) };
  }

  unfoldable pub stored_event : String → String → ℤ → Behavior
  stored_event kind description priority =
      storing (named stored_defaults kind description (some no_transport)) priority

  unfoldable pub broadcast_event : String → String → ℤ → String → Behavior
  broadcast_event kind description priority topic =
      storing (named stored_defaults kind description (some (mqtt topic))) priority

  unfoldable pub local_event : String → String → Behavior
  local_event kind description = named local_defaults kind description (some no_transport)

  -- `WithPayload`, `WithHandler`, `WithContentKey`, `WithFilter` and `WithRateLimit`
  unfoldable pub with_payload : (String → Option P) → Behavior → Behavior
  with_payload decode b = record b {
    current_version = pos 1;
    min_version = pos 1;
    payload_types = λ version. if eqb_ℤ version (pos 1) then some decode else none;
  }

  unfoldable pub with_handler : ℤ → (Message P → Bool) → Behavior → Behavior
  with_handler version handler b = record b {
    handlers = λ v. if eqb_ℤ v version then some handler else b.handlers v;
  }

  unfoldable pub with_content_key : (Option P → String) → Behavior → Behavior
  with_content_key key b = record b { content_key = some key }

  unfoldable pub with_filter : Stage S → Behavior → Behavior
  with_filter stage b = record b {
    receive_behavior = record b.receive_behavior { filter_with = some stage };
  }

  unfoldable pub with_rate_limit : Stage S → Behavior → Behavior
  with_rate_limit stage b = record b {
    receive_behavior = record b.receive_behavior { rate_limit_with = some stage };
  }
