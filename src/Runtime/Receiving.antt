-- ===== src/Runtime/Receiving.antt =====
-- What `Receive` of runtime/runtime.go lets through, and what it does not.
use nara.Prelude.{
  ℕ, ◌≡◌, refl, ap, subst, ◌∙◌, inl, inr, false, none, some, List, [], ◌∷◌, String, ◌==◌, arith,
  Bool-cases, Option-cases,
}
use mathlib.Core.Option.{some-injective, none-ne-some}
use nara.Prelude.Dict.{Dict, lookup}
use nara.Runtime.{
  Message, Surroundings, World, verify_message, CallRegistry, PendingCall, resolve, delete,
}
use nara.Runtime.Stages.{Stage, drop, then_run, run, process, default_verify, verify_sender}
use nara.Runtime.Behaviors.{Behavior}
use nara.Runtime.Flow.{
  Raw, Runtime, lookup_behavior, or_default, build_receive_pipeline, deserialize, finish_receive,
  receive_new, receive_message, receive,
}

module _ {P : Type 0} (S : Surroundings P) where
  open S use {Keys, lookup_public_key}

  -- No key that is known for the sender makes the signature good.
  abbrev pub IsForged : Message P → World S → Type 0
  IsForged m w =
      (key : List ℕ)
      → lookup_public_key w.keys m.from_id ≡ some key
      → verify_message S m key ≡ false

  verify_sender-IsForged :
      (m : Message P) (w : World S)
      → IsForged m w
      → (reason : String) × (verify_sender S m w ≡ drop reason)
  unfolding verify_sender
  verify_sender-IsForged m w forged = elim (Option-cases (lookup_public_key w.keys m.from_id)) [
    | inl unknown ↦ ("unknown_sender", rw (unknown, verify_sender) refl)
    | inr (key, known) ↦ ("invalid_signature", rw (known, verify_sender, forged key known) refl)
  ]

  run-drop :
      (stage : Stage S) (rest : List (Stage S)) (m : Message P) (w : World S) (reason : String)
      → process S stage m w ≡ (drop reason, w)
      → run S (stage ∷ rest) m w ≡ (drop reason, w)
  unfolding run then_run
  run-drop stage rest m w reason e = ap (λ r. then_run S r (run S rest)) e

  pipeline-IsForged :
      (m : Message P) (b : Behavior S) (w : World S)
      → or_default S b.receive_behavior.verify_with default_verify ≡ default_verify
      → IsForged m w
      → (reason : String) × (run S (build_receive_pipeline S b) m w ≡ (drop reason, w))
  unfolding build_receive_pipeline process
  pipeline-IsForged m b w verified forged =
      let (reason, dropped) = verify_sender-IsForged m w forged in
      (
        reason,
        run-drop _ _ m w reason
            (ap (λ stage. process S stage m w) verified ∙ ap (λ r. (r, w)) dropped),
      )

  receive_new-IsForged :
      (m : Message P) (b : Behavior S) (rt : Runtime S)
      → lookup_behavior S m.kind rt ≡ some b
      → or_default S b.receive_behavior.verify_with default_verify ≡ default_verify
      → IsForged m rt.world
      → receive_new S m rt ≡ (none, rt)
  unfolding receive_new
  receive_new-IsForged m b rt kind verified forged =
      let (reason, dropped) = pipeline-IsForged m b rt.world verified forged in
      rw (kind, receive_new, dropped) (unfold finish_receive in refl)

  -- A message with a forged signature, of a kind whose messages are verified by default, and no
  -- reply to a pending call, changes nothing: `Receive` drops it without an error, no later stage
  -- sees it and no handler runs.
  pub receive-IsForged :
      (raw : Raw P) (m : Message P) (b : Behavior S) (rt : Runtime S)
      → deserialize S (some raw) rt ≡ some m
      → lookup_behavior S m.kind rt ≡ some b
      → or_default S b.receive_behavior.verify_with default_verify ≡ default_verify
      → lookup m.in_reply_to rt.calls.pending ≡ none
      → IsForged m rt.world
      → receive S (some raw) rt ≡ (none, rt)
  unfolding receive
  receive-IsForged raw m b rt decoded kind verified unasked forged =
      let dropped = receive_new-IsForged m b rt kind verified forged in
      rw (decoded, receive)
        (elim (Bool-cases (m.in_reply_to == "")) [
          | inl alone ↦ rw (alone, receive_message) dropped
          | inr reply ↦ rw (reply, receive_message, unasked, resolve) dropped
        ])

lookup-delete : (id : String) (d : Dict PendingCall) → lookup id (delete id d) ≡ none
unfolding lookup delete
lookup-delete id [] = refl
lookup-delete id ((k, c) ∷ d) = ground (arith, lookup-delete id d)

module _ {P : Type 0} where
  -- A pending call is answered once: the next message that replies to it is no answer.
  resolve_once :
      (id : String) (m next : Message P) (r r' : CallRegistry P)
      → resolve id m r ≡ some r'
      → resolve id next r' ≡ none
  unfolding resolve
  resolve_once id m next r r' e = elim (Option-cases (lookup id r.pending)) [
    | inl nothing ↦ absurd (none-ne-some _ (rw (nothing, resolve) at e))
    | inr (c, asked) ↦
        subst (λ (x : CallRegistry P). resolve id next x ≡ none)
          (some-injective _ _ (rw (asked, resolve) at e))
          (rw (lookup-delete id r.pending, resolve) refl)
  ]
