-- ===== src/Runtime/Flow.antt =====
-- runtime/runtime.go: `Emit`, `Call` and `Receive`, the pipelines they build and the behaviors they
-- look up. A `Raw` is a message off the wire, whose payload is not decoded yet.
--
-- The text of a failed stage or step is the answer; `none` is no error. JSON that does not parse
-- is the `none` that `Receive` is given. The error strategies only write to the log, except the
-- panic, which ends the program: the effect `exited`.
use nara.Prelude.{ℕ, ◌||◌, Option, none, some, List, [], ◌∷◌, ◌++◌, String, ◌==◌, if◌then◌else◌}
use nara.Prelude.Int.{ℤ, pos, negsuc, eqb_ℤ, ltb_ℤ}
use nara.Prelude.Dict.{Dict, lookup, insert}
use nara.Runtime.{
  Message, Surroundings, Effect, World, happen, compute_message_id, CallRegistry, CallResult,
  register, resolve, cancel,
}
use nara.Runtime.Stages.{
  Stage, StageResult, continue_with, drop, fail, run, default_verify, id_dedupe, assign_id,
  default_sign, no_store, no_gossip, notify, assign_content_key,
}
use nara.Runtime.Behaviors.{Behavior, ErrorStrategy, error_panic}

-- `Nara` of runtime/interfaces.go
pub record LocalNara : Type 0 where
  pub id : String
  pub name : String

-- What `deserialize` reads of the JSON: the fields of a message, and the JSON of its payload.
pub record Raw (P : Type 0) : Type 0 where
  pub envelope : Message P
  pub payload_json : String

module _ {P : Type 0} (S : Surroundings P) where
  pub record Runtime : Type 0 where
    pub me : Option LocalNara
    pub behaviors : Dict (Behavior S)
    pub calls : CallRegistry P
    pub world : World S

  -- `MeID`
  unfoldable pub me_id : Runtime → String
  me_id rt = elim rt.me [ none ↦ "" | some n ↦ n.id ]

  -- `RegisterBehavior` and `LookupBehavior`
  unfoldable pub register_behavior : Behavior S → Runtime → Runtime
  unfolding insert
  register_behavior b rt = record rt { behaviors = insert b.kind b rt.behaviors }

  unfoldable pub lookup_behavior : String → Runtime → Option (Behavior S)
  unfolding lookup
  lookup_behavior kind rt = lookup kind rt.behaviors

  -- A stage of the behavior, and what stands in for a nil one.
  abbrev pub or_default : Option (Stage S) → Stage S → Stage S
  or_default none d = d
  or_default (some stage) d = stage

  abbrev pub optional : Option (Stage S) → List (Stage S)
  optional none = []
  optional (some stage) = stage ∷ []

  -- The stage for a behavior that derives content keys.
  abbrev pub content_key_stage : Option (Option P → String) → Option (Stage S)
  content_key_stage none = none
  content_key_stage (some key) = some (assign_content_key (some key))

  -- `buildEmitPipeline`
  unfoldable pub build_emit_pipeline : Behavior S → List (Stage S)
  build_emit_pipeline b =
      assign_id ∷ optional (content_key_stage b.content_key)
      ++ (or_default b.emit_behavior.sign_with default_sign
          ∷ or_default b.emit_behavior.store_with no_store
          ∷ or_default b.emit_behavior.gossip_with no_gossip
          ∷ (optional b.emit_behavior.transport_with ++ notify ∷ []))

  -- `buildReceivePipeline`
  unfoldable pub build_receive_pipeline : Behavior S → List (Stage S)
  build_receive_pipeline b =
      or_default b.receive_behavior.verify_with default_verify
        ∷ or_default b.receive_behavior.dedupe_with id_dedupe
        ∷ optional b.receive_behavior.rate_limit_with
      ++ optional b.receive_behavior.filter_with
      ++ optional b.receive_behavior.store_with
      ++ optional b.emit_behavior.gossip_with
      ++ notify ∷ []

  -- `applyErrorStrategy`
  unfoldable pub apply_error_strategy : ErrorStrategy → World S → World S
  unfolding happen
  apply_error_strategy error_panic w = happen S Effect.exited w
  apply_error_strategy _ w = w

  -- The sender, the time and the version of a message that is emitted.
  unfoldable pub fill_sender : ℤ → Runtime → Message P → Message P
  unfolding me_id
  fill_sender now rt m = record m {
    timestamp = if eqb_ℤ m.timestamp (negsuc 62135596799999999999) then now else m.timestamp;
    from_id = if m.from_id == "" then me_id rt else m.from_id;
    from = if m.from == "" then elim rt.me [ none ↦ m.from | some n ↦ n.name ] else m.from;
  }

  unfoldable pub fill_version : Behavior S → Message P → Message P
  fill_version b m =
      if eqb_ℤ m.version (pos 0)
      then record m {
        version = if eqb_ℤ b.current_version (pos 0) then pos 1 else b.current_version;
      }
      else m

  -- The error of a pipeline, and what it leaves.
  unfoldable pub after_run :
      ErrorStrategy → StageResult P × World S → Runtime → Option String × Runtime
  unfolding apply_error_strategy
  after_run strategy (continue_with m, w) rt = (none, record rt { world = w })
  after_run strategy (drop reason, w) rt = (none, record rt { world = w })
  after_run strategy (fail error, w) rt =
      (some error, record rt { world = apply_error_strategy strategy w })

  -- `Emit`
  unfoldable pub emit : ℤ → Message P → Runtime → Option String × Runtime
  unfolding fill_sender fill_version lookup_behavior build_emit_pipeline after_run run
  emit now m rt = elim (lookup_behavior m.kind rt) [
    | none ↦ (some "unknown message kind", rt)
    | some b ↦
        after_run b.emit_behavior.on_error
          (run S (build_emit_pipeline b) (fill_version b (fill_sender now rt m)) rt.world) rt
  ]

  -- The end of `Call`, once the message has an ID.
  unfoldable pub call_with_id : ℤ → Message P → ℕ → ℤ → Runtime → Runtime
  unfolding emit register cancel
  call_with_id now m channel timeout rt =
      let (error, sent) =
        emit now m (record rt { calls = register now m.id channel timeout rt.calls }) in
      elim error [
        | none ↦ sent
        | some e ↦
            let calls = cancel m.id sent.calls in
            record sent {
              calls = record calls {
                answers = calls.answers ++ (channel, CallResult.failure e) ∷ [];
              };
            }
      ]

  -- `Call`, with its channel
  unfoldable pub call : ℤ → Message P → ℕ → ℤ → Runtime → Runtime
  unfolding call_with_id compute_message_id
  call now m channel timeout rt =
      let timed = record m {
        timestamp = if eqb_ℤ m.timestamp (negsuc 62135596799999999999) then now else m.timestamp;
      } in
      if timed.id == ""
      then elim (compute_message_id S timed) [
        | none ↦ record rt {
          calls = record rt.calls {
            answers = rt.calls.answers ++ (channel, CallResult.failure "compute message ID") ∷ [];
          };
        }
        | some id ↦ call_with_id now (record timed { id = id }) channel timeout rt
      ]
      else call_with_id now timed channel timeout rt

  -- The payload of the message, decoded for its version; a version of 0 is taken as 1.
  unfoldable pub decode_payload : Behavior S → Raw P → Option (Message P)
  decode_payload b raw =
      let version = if eqb_ℤ raw.envelope.version (pos 0) then pos 1 else raw.envelope.version in
      if ltb_ℤ version b.min_version || ltb_ℤ b.current_version version
      then none
      else elim (b.payload_types version) [
        | none ↦ none
        | some decode ↦ elim (decode raw.payload_json) [
          | none ↦ none
          | some p ↦ some (record raw.envelope { payload = some p })
        ]
      ]

  -- `deserialize`
  unfoldable pub deserialize : Option (Raw P) → Runtime → Option (Message P)
  unfolding decode_payload lookup_behavior
  deserialize none rt = none
  deserialize (some raw) rt = elim (lookup_behavior raw.envelope.kind rt) [
    | none ↦ none
    | some b ↦ decode_payload b raw
  ]

  -- `invokeHandler`
  unfoldable pub invoke_handler : Behavior S → Message P → Runtime → Runtime
  unfolding happen apply_error_strategy
  invoke_handler b m rt = elim (b.handlers m.version) [
    | none ↦ rt
    | some handler ↦
        let w = happen S (Effect.handled m.version m) rt.world in
        record rt {
          world = if handler m then w else apply_error_strategy b.receive_behavior.on_error w;
        }
  ]

  -- The handler runs on what leaves the pipeline.
  unfoldable pub finish_receive :
      Behavior S → StageResult P × World S → Runtime → Option String × Runtime
  unfolding invoke_handler apply_error_strategy
  finish_receive b (continue_with m, w) rt = (none, invoke_handler b m (record rt { world = w }))
  finish_receive b (drop reason, w) rt = (none, record rt { world = w })
  finish_receive b (fail error, w) rt =
      (some error, record rt { world = apply_error_strategy b.receive_behavior.on_error w })

  -- `Receive` on a message that is no reply to a pending call.
  unfoldable pub receive_new : Message P → Runtime → Option String × Runtime
  unfolding lookup_behavior build_receive_pipeline finish_receive run
  receive_new m rt = elim (lookup_behavior m.kind rt) [
    | none ↦ (some "unknown message kind", rt)
    | some b ↦ finish_receive b (run S (build_receive_pipeline b) m rt.world) rt
  ]

  unfoldable pub receive_message : Message P → Runtime → Option String × Runtime
  unfolding receive_new resolve
  receive_message m rt =
      let unanswered = receive_new m rt in
      if m.in_reply_to == "" then unanswered else elim (resolve m.in_reply_to m rt.calls) [
        | none ↦ unanswered
        | some calls ↦ (none, record rt { calls = calls })
      ]

  -- `Receive`
  unfoldable pub receive : Option (Raw P) → Runtime → Option String × Runtime
  unfolding deserialize receive_message
  receive raw rt = elim (deserialize raw rt) [
    | none ↦ (some "deserialize", rt)
    | some m ↦ receive_message m rt
  ]
