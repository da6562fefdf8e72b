-- ===== src/Runtime/Emitting.antt =====
-- Messages that `Emit` of runtime/runtime.go signs, at their receivers.
use nara.Prelude.{
  ℕ, ◌≡◌, refl, sym, ap, subst, ◌∙◌, inl, inr, true, false, List, [], ◌∷◌, ◌++◌, String, arith, eqb,
  length, Option-cases,
}
use nara.Prelude.Int.{ℤ}
use nara.Runtime.{Message, Surroundings, World, message_content, verify_message}
use nara.Runtime.Stages.{
  Stage, StageResult, continue_with, drop, fail, then_run, run, process, sign_message, assign_id,
  default_sign, notify, no_store, default_store, content_key_store, store_message, store_content,
  send_mesh, broadcast, no_gossip, gossip, mesh_only, mqtt, mqtt_per_nara,
}
use nara.Runtime.Behaviors.{Behavior}
use nara.Runtime.Flow.{or_default, optional, content_key_stage, build_emit_pipeline}

module _ {P : Type 0} (S : Surroundings P) where
  open S use {sign, ed25519_verify}

  abbrev Continues : StageResult P × World S → Message P → World S → Type 0
  Continues r m w = r ≡ (continue_with m, w)

  then_run-Continues :
      (r : StageResult P × World S) (next : Message P → World S → StageResult P × World S)
      (m : Message P) (w : World S)
      → Continues (then_run S r next) m w
      → (m₁ : Message P) × (w₁ : World S) × Continues r m₁ w₁ × Continues (next m₁ w₁) m w
  unfolding then_run
  then_run-Continues (continue_with m₁, w₁) next m w e = (m₁, w₁, refl, e)
  then_run-Continues (drop reason, w₁) next m w e = absurd (cc)
  then_run-Continues (fail error, w₁) next m w e = absurd (cc)

  then_run_assoc :
      (r : StageResult P × World S) (f g : Message P → World S → StageResult P × World S)
      → then_run S r (λ m w. then_run S (f m w) g) ≡ then_run S (then_run S r f) g
  unfolding then_run
  then_run_assoc (continue_with m, w) f g = refl
  then_run_assoc (drop reason, w) f g = refl
  then_run_assoc (fail error, w) f g = refl

  run-append :
      (p q : List (Stage S)) (m : Message P) (w : World S)
      → run S (p ++ q) m w ≡ then_run S (run S p m w) (run S q)
  unfolding run then_run
  run-append [] q m w = refl
  run-append (stage ∷ p) q m w =
      (λ i. then_run S (process S stage m w) (λ m w. run-append p q m w i))
      ∙ then_run_assoc (process S stage m w) (run S p) (run S q)

  -- A stage that passes the message on as it is.
  abbrev pub Keeps : Stage S → Type 0
  Keeps stage =
      (m : Message P) (w : World S) (m₁ : Message P) (w₁ : World S)
      → process S stage m w ≡ (continue_with m₁, w₁)
      → m₁ ≡ m

  abbrev pub AllKeep : List (Stage S) → Type 0
  AllKeep [] = Unit
  AllKeep (stage ∷ rest) = Keeps stage × AllKeep rest

  run-AllKeep :
      (stages : List (Stage S)) (m : Message P) (w : World S) (m₁ : Message P) (w₁ : World S)
      → AllKeep stages
      → Continues (run S stages m w) m₁ w₁
      → m₁ ≡ m
  unfolding run
  run-AllKeep [] m w m₁ w₁ all e = cc
  run-AllKeep (stage ∷ rest) m w m₁ w₁ all e =
      let (m₂, w₂, first, later) = then_run-Continues (process S stage m w) (run S rest) m₁ w₁ e in
      run-AllKeep rest m₂ w₂ m₁ w₁ all.1 later ∙ all.0 m w m₂ w₂ first

  pub default_store-Keeps : (priority : ℤ) → Keeps (default_store priority)
  unfolding process store_message
  default_store-Keeps priority m w m₁ w₁ e = ground arith

  content_key_store-Keeps : (priority : ℤ) → Keeps (content_key_store priority)
  unfolding process store_content store_message
  content_key_store-Keeps priority m w m₁ w₁ e = ground arith

  mesh_only-Keeps : Keeps mesh_only
  unfolding process send_mesh
  mesh_only-Keeps m w m₁ w₁ e = ground arith

  pub mqtt-Keeps : (topic : String) → Keeps (mqtt topic)
  unfolding process broadcast
  mqtt-Keeps topic m w m₁ w₁ e = ground arith

  mqtt_per_nara-Keeps : (pattern : String) → Keeps (mqtt_per_nara pattern)
  unfolding process broadcast
  mqtt_per_nara-Keeps pattern m w m₁ w₁ e = ground arith

  -- The stages that store, gossip and send pass the message on as it is.
  pub gossip-Keeps : Keeps gossip
  unfolding process
  gossip-Keeps m w m₁ w₁ e = cc

  pub notify-Keeps : Keeps notify
  unfolding process
  notify-Keeps m w m₁ w₁ e = cc

  no_store-Keeps : Keeps no_store
  unfolding process
  no_store-Keeps m w m₁ w₁ e = cc

  -- A key under which what the keypair signs is good.
  pub record IsKeyOf (key : List ℕ) : Type 0 where
    pub size : eqb (length key) 32 ≡ true
    pub signs : (content : List ℕ) → eqb (length (sign content)) 0 ≡ false
    pub fits : (content : List ℕ) → ed25519_verify key content (sign content) ≡ true

  continue-injective : (m m₁ : Message P) → continue_with m ≡ continue_with m₁ → m ≡ m₁
  continue-injective m m₁ e = cc

  sign_message-verifies :
      (key : List ℕ) (m m₁ : Message P)
      → IsKeyOf key
      → sign_message S m ≡ continue_with m₁
      → verify_message S m₁ key ≡ true
  unfolding sign_message verify_message
  sign_message-verifies key m m₁ k e = elim (Option-cases (message_content S m)) [
    | inl failed ↦ absurd (cc (rw (failed, sign_message) at e))
    | inr (content, made) ↦
        let same =
          continue-injective (record m { signature = sign content }) m₁
            (rw (made, sign_message) at e) in
        subst (λ x. verify_message S x key ≡ true) same
          (rw (k.signs content, k.size, message_content, made, k.fits content) refl)
  ]

  -- The stages before and after the signature.
  abbrev before_signing : Behavior S → List (Stage S)
  before_signing b = assign_id ∷ optional S (content_key_stage S b.content_key)

  abbrev pub after_signing : Behavior S → List (Stage S)
  after_signing b =
      or_default S b.emit_behavior.store_with no_store
      ∷ or_default S b.emit_behavior.gossip_with no_gossip
      ∷ (optional S b.emit_behavior.transport_with ++ notify ∷ [])

  -- Where the behavior signs by default, and the stages that store, gossip and send pass messages on
  -- as they are, a message that comes out of the emit pipeline is verified by every nara that has
  -- the sender's key, whatever it was when it went in.
  pub emit-verifies :
      (b : Behavior S) (key : List ℕ) (m m₁ : Message P) (w w₁ : World S)
      → IsKeyOf key
      → or_default S b.emit_behavior.sign_with default_sign ≡ default_sign
      → AllKeep (after_signing b)
      → run S (build_emit_pipeline S b) m w ≡ (continue_with m₁, w₁)
      → verify_message S m₁ key ≡ true
  unfolding build_emit_pipeline process run
  emit-verifies b key m m₁ w w₁ k signed keep passed =
      let sign_stage = or_default S b.emit_behavior.sign_with default_sign in
      let whole : run S (before_signing b ++ sign_stage ∷ after_signing b) m w
          ≡ (continue_with m₁, w₁) =
        passed in
      let (m₂, w₂, early, late) =
        then_run-Continues (run S (before_signing b) m w) (run S (sign_stage ∷ after_signing b)) m₁
          w₁ (sym (run-append (before_signing b) (sign_stage ∷ after_signing b) m w) ∙ whole) in
      let (m₃, w₃, signing, rest) =
        then_run-Continues (process S sign_stage m₂ w₂) (run S (after_signing b)) m₁ w₁ late in
      let by_default : (sign_message S m₂, w₂) ≡ (continue_with m₃, w₃) =
        ap (λ stage. process S stage m₂ w₂) (sym signed) ∙ signing in
      subst (λ x. verify_message S x key ≡ true)
        (sym (run-AllKeep (after_signing b) m₃ w₃ m₁ w₁ keep rest))
        (sign_message-verifies key m₂ m₃ k (ap (λ r. r.0) by_default))
