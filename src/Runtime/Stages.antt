-- ===== src/Runtime/Stages.antt =====
-- runtime/stage.go, runtime/stages_receive.go and runtime/stages_emit.go: the stages of a pipeline,
-- and the pipeline that runs them.
use nara.Prelude.{
  ℕ, Bool, not, ◌&&◌, Option, none, some, List, [], ◌∷◌, String, ◌==◌, if◌then◌else◌,
}
use nara.Prelude.Int.{ℤ, pos, ltb_ℤ, eqb_ℤ}
use nara.Runtime.{
  Message, Personality, Surroundings, Effect, World, happen, compute_message_id, message_content,
  verify_message,
}

-- `Continue`, `Drop` and `Fail`
pub data StageResult (P : Type 0) : Type 0 where
  continue_with : Message P → StageResult P
  drop : String → StageResult P
  fail : String → StageResult P

module _ {P : Type 0} (S : Surroundings P) where
  open S use {
    has_id, has_content_key, add, lookup_public_key, register_public_key, sign, try_send_direct,
    publish_mqtt, marshal_message, format_topic,
  }

  -- The types that implement `Stage`, with their fields.
  pub data Stage : Type 0 where
    default_verify : Stage
    self_attesting_verify : (Option P → Option (List ℕ)) → Stage
    custom_verify : (Message P → World S → StageResult P × World S) → Stage
    no_verify : Stage
    id_dedupe : Stage
    content_key_dedupe : Stage
    rate_limit : ℤ → ℤ → (Message P → String) → Stage
    importance_filter : ℤ → Option (Message P → Personality → Bool) → Stage
    no_filter : Stage
    assign_id : Stage
    default_sign : Stage
    no_sign : Stage
    no_store : Stage
    default_store : ℤ → Stage
    content_key_store : ℤ → Stage
    no_gossip : Stage
    gossip : Stage
    no_transport : Stage
    mesh_only : Stage
    mqtt : String → Stage
    mqtt_per_nara : String → Stage
    notify : Stage
    assign_content_key : Option (Option P → String) → Stage
    no_content_key : Stage

  -- A pool of keys that has the signer's key, and a signature that is good under it.
  unfoldable pub verify_sender : Message P → World S → StageResult P
  unfolding verify_message
  verify_sender m w = elim (lookup_public_key w.keys m.from_id) [
    | none ↦ drop "unknown_sender"
    | some key ↦ if verify_message S m key then continue_with m else drop "invalid_signature"
  ]

  unfoldable pub verify_attested :
      (Option P → Option (List ℕ)) → Message P → World S → StageResult P × World S
  unfolding verify_message
  verify_attested extract m w = elim (extract m.payload) [
    | none ↦ (drop "no_public_key_in_payload", w)
    | some key ↦
        if verify_message S m key
        then (continue_with m, record w { keys = register_public_key w.keys m.from_id key })
        else (drop "invalid_signature", w)
  ]

  unfoldable pub dedupe_id : Message P → World S → StageResult P
  dedupe_id m w = elim w.ledger [
    | none ↦ continue_with m
    | some l ↦ if has_id l m.id then drop "duplicate_id" else continue_with m
  ]

  unfoldable pub dedupe_content_key : Message P → World S → StageResult P
  dedupe_content_key m w = elim w.ledger [
    | none ↦ continue_with m
    | some l ↦
        if not (m.content_key == "") && has_content_key l m.content_key
        then drop "duplicate_content"
        else continue_with m
  ]

  unfoldable pub filter_casual :
      Option (Message P → Personality → Bool) → Message P → World S → StageResult P
  filter_casual none m w = continue_with m
  filter_casual (some casual) m w = elim w.personality [
    | none ↦ continue_with m
    | some p ↦ if casual m p then continue_with m else drop "filtered_by_personality"
  ]

  -- `(s *ImportanceFilterStage) Process`
  unfoldable pub filter_importance :
      ℤ → Option (Message P → Personality → Bool) → Message P → World S → StageResult P
  unfolding filter_casual
  filter_importance importance casual m w =
      if eqb_ℤ importance (pos 3)
      then continue_with m
      else if eqb_ℤ importance (pos 2)
      then elim w.personality [
        | none ↦ continue_with m
        | some p ↦ if ltb_ℤ (pos 85) p.chill then drop "filtered_by_chill" else continue_with m
      ]
      else if eqb_ℤ importance (pos 1)
      then filter_casual casual m w
      else continue_with m

  unfoldable pub give_id : Message P → StageResult P
  unfolding compute_message_id
  give_id m =
      if m.id == ""
      then elim (compute_message_id S m) [
        | none ↦ fail "compute ID"
        | some id ↦ continue_with (record m { id = id })
      ]
      else continue_with m

  unfoldable pub sign_message : Message P → StageResult P
  unfolding message_content
  sign_message m = elim (message_content S m) [
    | none ↦ fail "get signable content"
    | some content ↦ continue_with (record m { signature = sign content })
  ]

  -- `ctx.Ledger.Add(msg, s.Priority)`
  unfoldable pub store_message : ℤ → Message P → World S → StageResult P × World S
  unfolding happen
  store_message priority m w = elim w.ledger [
    | none ↦ (continue_with m, w)
    | some l ↦ elim (add l m priority) [
      | none ↦ (fail "ledger add", w)
      | some l' ↦ (continue_with m, happen S (Effect.stored m) (record w { ledger = some l' }))
    ]
  ]

  unfoldable pub store_content : ℤ → Message P → World S → StageResult P × World S
  unfolding store_message
  store_content priority m w = elim w.ledger [
    | none ↦ (continue_with m, w)
    | some l ↦
        if not (m.content_key == "") && has_content_key l m.content_key
        then (drop "content_exists", w)
        else store_message priority m w
  ]

  unfoldable pub send_mesh : Message P → World S → StageResult P × World S
  unfolding happen
  send_mesh m w =
      if m.to_id == ""
      then (fail "mesh-only message has no target (ToID is empty)", w)
      else if not w.transport
      then (fail "no transport configured", w)
      else if try_send_direct m.to_id m
      then (continue_with m, happen S (Effect.sent_to m.to_id m) w)
      else (fail "mesh send", w)

  unfoldable pub broadcast : String → Message P → World S → StageResult P × World S
  unfolding happen
  broadcast topic m w =
      if not w.transport then (fail "no transport configured", w) else elim (marshal_message m) [
        | none ↦ (fail "marshal message", w)
        | some bytes ↦
            if publish_mqtt topic bytes
            then (continue_with m, happen S (Effect.published_on topic bytes) w)
            else (fail "mqtt publish", w)
      ]

  -- `ContentKeyStage`
  unfoldable pub give_content_key : Option (Option P → String) → Message P → Message P
  give_content_key none m = m
  give_content_key (some key) m =
      if m.content_key == "" then record m { content_key = key m.payload } else m

  -- `Process` of each stage
  unfoldable pub process : Stage → Message P → World S → StageResult P × World S
  unfolding verify_sender verify_attested dedupe_id dedupe_content_key filter_importance give_id
      sign_message store_message store_content send_mesh broadcast give_content_key happen
  process default_verify m w = (verify_sender m w, w)
  process (self_attesting_verify extract) m w = verify_attested extract m w
  process (custom_verify check) m w = check m w
  process no_verify m w = (continue_with m, w)
  process id_dedupe m w = (dedupe_id m w, w)
  process content_key_dedupe m w = (dedupe_content_key m w, w)
  process (rate_limit window max key) m w = (continue_with m, w)
  process (importance_filter importance casual) m w = (filter_importance importance casual m w, w)
  process no_filter m w = (continue_with m, w)
  process assign_id m w = (give_id m, w)
  process default_sign m w = (sign_message m, w)
  process no_sign m w = (continue_with m, w)
  process no_store m w = (continue_with m, w)
  process (default_store priority) m w = store_message priority m w
  process (content_key_store priority) m w = store_content priority m w
  process no_gossip m w = (continue_with m, w)
  process gossip m w = (continue_with m, if w.gossip_queue then happen S (Effect.queued m) w else w)
  process no_transport m w = (continue_with m, w)
  process mesh_only m w = send_mesh m w
  process (mqtt topic) m w = broadcast topic m w
  process (mqtt_per_nara pattern) m w = broadcast (format_topic pattern m.from) m w
  process notify m w =
      (continue_with m, if w.event_bus then happen S (Effect.notified_of m) w else w)
  process (assign_content_key key) m w = (continue_with (give_content_key key m), w)
  process no_content_key m w = (continue_with m, w)

  -- What follows a stage, if the stage continues.
  unfoldable pub then_run :
      StageResult P × World S
      → (Message P → World S → StageResult P × World S)
      → StageResult P × World S
  then_run (continue_with m, w) next = next m w
  then_run (drop reason, w) next = (drop reason, w)
  then_run (fail error, w) next = (fail error, w)

  -- `(p Pipeline) Run`
  unfoldable pub run : List Stage → Message P → World S → StageResult P × World S
  unfolding process then_run
  run [] m w = (continue_with m, w)
  run (stage ∷ rest) m w = then_run (process stage m w) (run rest)
