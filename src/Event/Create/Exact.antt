-- ===== src/Event/Create/Exact.antt =====
-- The ID and the payload of the events that the constructors give.
use nara.Prelude.{
  ℕ, ◌≡◌, refl, ap, inl, inr, Option, none, some, List, [], ◌∷◌, ◌++◌, String, Option-cases,
  of_some-eq,
}
use mathlib.Core.Option.{none-ne-some, some-injective}
use nara.Prelude.Int.{ℤ}
use nara.Event.{
  SyncEvent, payload, service_social, service_ping, service_observation, service_hey_there,
  service_chau, service_seen, service_checkpoint,
}
use nara.Event.Content.{Host, payload_content, content_id, compute_id}
use nara.Event.Signature.{Crypto, signable_data}
use nara.Event.Create.{
  Sign, SocialEvent, sign_event, identify_and_sign, new_social_sync_event, new_ping_sync_event,
  new_signed_social_sync_event, new_signed_ping_sync_event, new_restart_observation_event,
  new_restart_observation_event_with_uptime, new_first_seen_observation_event,
  new_status_change_observation_event, new_backfill_observation_event, new_hey_there_sync_event,
  new_chau_sync_event, new_seen_sync_event, new_tease_sync_event, new_observation_social_sync_event,
  new_journey_observation_sync_event, sync_event_from_social_event,
}

abbrev named_if {ℓ} : {A : Type ℓ} → String → Option A → List String
named_if service none = []
named_if service (some p) = service ∷ []

-- The services whose payloads an event carries.
abbrev pub carried : SyncEvent → List String
carried e =
    named_if service_social e.social
    ++ named_if service_ping e.ping
    ++ named_if service_observation e.observation
    ++ named_if service_hey_there e.hey_there
    ++ named_if service_chau e.chau
    ++ named_if service_seen e.seen
    ++ named_if service_checkpoint e.checkpoint

pub record IsExact (h : Host) (e : SyncEvent) : Type 0 where
  pub identified : compute_id h e ≡ some e
  pub tagged : carried e ≡ e.service ∷ []

module _ (c : Crypto) (h : Host) where
  -- An event that one of the constructors gives.
  pub data Made (e : SyncEvent) : Type 0 where
    social :
        (now : ℤ) (type actor target reason witness : String)
        → new_social_sync_event c h now type actor target reason witness ≡ some e
        → Made e
    signed_social :
        (now : ℤ) (type actor target reason witness emitter : String) (sign : Sign)
        → new_signed_social_sync_event c h now type actor target reason witness emitter sign
          ≡ some e
        → Made e
    ping :
        (now : ℤ) (observer target : String) (rtt : ℕ)
        → new_ping_sync_event c h now observer target rtt ≡ some e
        → Made e
    signed_ping :
        (now : ℤ) (observer target : String) (rtt : ℕ) (emitter : String) (sign : Sign)
        → new_signed_ping_sync_event c h now observer target rtt emitter sign ≡ some e
        → Made e
    restart :
        (now unix_now : ℤ) (observer subject : String) (start_time restart_num : ℤ)
        → new_restart_observation_event c h now unix_now observer subject start_time restart_num
          ≡ some e
        → Made e
    restart_with_uptime :
        (now unix_now : ℤ) (observer subject : String) (start_time restart_num : ℤ) (uptime : ℕ)
        → new_restart_observation_event_with_uptime c h now unix_now observer subject start_time
            restart_num uptime
          ≡ some e
        → Made e
    first_seen :
        (now : ℤ) (observer subject : String) (start_time : ℤ)
        → new_first_seen_observation_event c h now observer subject start_time ≡ some e
        → Made e
    status_change :
        (now : ℤ) (observer subject online_state : String)
        → new_status_change_observation_event c h now observer subject online_state ≡ some e
        → Made e
    backfill :
        (now : ℤ) (observer subject : String) (start_time restart_num last_restart : ℤ)
        → new_backfill_observation_event c h now observer subject start_time restart_num
            last_restart
          ≡ some e
        → Made e
    hey_there :
        (now : ℤ) (name public_key mesh_ip id : String) (sign : Sign)
        → new_hey_there_sync_event c h now name public_key mesh_ip id sign ≡ some e
        → Made e
    chau :
        (now : ℤ) (name public_key id : String) (sign : Sign)
        → new_chau_sync_event c h now name public_key id sign ≡ some e
        → Made e
    seen :
        (now : ℤ) (observer subject via : String) (sign : Sign)
        → new_seen_sync_event c h now observer subject via sign ≡ some e
        → Made e
    tease :
        (now : ℤ) (actor target reason : String) (sign : Sign)
        → new_tease_sync_event c h now actor target reason sign ≡ some e
        → Made e
    observed :
        (now : ℤ) (actor target reason : String) (sign : Sign)
        → new_observation_social_sync_event c h now actor target reason sign ≡ some e
        → Made e
    journey :
        (now : ℤ) (observer originator reason journey_id : String) (sign : Sign)
        → new_journey_observation_sync_event c h now observer originator reason journey_id sign
          ≡ some e
        → Made e
    converted : (se : SocialEvent) → sync_event_from_social_event c h se ≡ some e → Made e

  compute_id-IsExact :
      (base e : SyncEvent)
      → carried base ≡ base.service ∷ []
      → compute_id h base ≡ some e
      → IsExact h e
  unfolding compute_id payload
  compute_id-IsExact base e tag made = elim (Option-cases (payload_content h (payload base))) [
    | inl nil ↦ absurd (none-ne-some _ (rw (compute_id, nil) at made))
    | inr (content, at) ↦
        of_some-eq (IsExact h) (rw (compute_id, at) at made)
          (record { identified = rw (compute_id, at) refl; tagged = tag })
  ]

  -- Whoever signs, the ID stays exact, as it depends on neither the emitter nor the signature.
  signed-IsExact :
      (emitter signature : String) (base : SyncEvent)
      → IsExact h base
      → IsExact h (record base { emitter = emitter; signature = signature })
  unfolding compute_id payload content_id
  signed-IsExact emitter signature base exact =
      let sign_it : SyncEvent → SyncEvent =
        λ e. record e { emitter = emitter; signature = signature } in
      elim (Option-cases (payload_content h (payload base))) [
        | inl nil ↦ absurd (none-ne-some _ (rw (compute_id, nil) at exact.identified))
        | inr (content, at) ↦ record {
          identified =
              rw (compute_id, at)
                (ap (λ e. some (sign_it e))
                  (some-injective _ _ (rw (compute_id, at) at exact.identified)));
          tagged = exact.tagged;
        }
      ]

  sign_event-IsExact :
      (sign : Sign) (emitter : String) (base e : SyncEvent)
      → IsExact h base
      → sign_event c h sign emitter base ≡ some e
      → IsExact h e
  unfolding sign_event
  sign_event-IsExact sign emitter base e exact made =
      elim (Option-cases (signable_data c h (record base { emitter = emitter }))) [
        | inl nil ↦ absurd (none-ne-some _ (rw (sign_event, nil) at made))
        | inr (content, at) ↦
            of_some-eq (IsExact h) (rw (sign_event, at) at made)
              (signed-IsExact emitter (sign content) base exact)
      ]

  -- `Sign` on the event of a constructor.
  then_sign-IsExact :
      (sign : Sign) (emitter : String) (base e : SyncEvent)
      → carried base ≡ base.service ∷ []
      → elim (compute_id h base) [ none ↦ none | some b ↦ sign_event c h sign emitter b ] ≡ some e
      → IsExact h e
  then_sign-IsExact sign emitter base e tag made = elim (Option-cases (compute_id h base)) [
    | inl nil ↦ absurd (none-ne-some _ (rw nil at made))
    | inr (b, at) ↦
        sign_event-IsExact sign emitter b e (compute_id-IsExact base b tag at) (rw at at made)
  ]

  -- Whatever it is called with, a constructor gives an event whose ID is the one that `ComputeID`
  -- gives it, also after it is signed, and that carries one payload, the one that its service names.
  pub Made-IsExact : (e : SyncEvent) → Made e → IsExact h e
  unfolding new_social_sync_event new_ping_sync_event new_signed_social_sync_event
      new_signed_ping_sync_event new_restart_observation_event
      new_restart_observation_event_with_uptime new_first_seen_observation_event
      new_status_change_observation_event new_backfill_observation_event new_hey_there_sync_event
      new_chau_sync_event new_seen_sync_event new_tease_sync_event new_observation_social_sync_event
      new_journey_observation_sync_event sync_event_from_social_event identify_and_sign
  Made-IsExact e (social now type actor target reason witness m) = compute_id-IsExact _ e refl m
  Made-IsExact e (ping now observer target rtt m) = compute_id-IsExact _ e refl m
  Made-IsExact e (restart now unix_now observer subject start_time restart_num m) =
      compute_id-IsExact _ e refl m
  Made-IsExact e
        (restart_with_uptime now unix_now observer subject start_time restart_num uptime m) =
      compute_id-IsExact _ e refl m
  Made-IsExact e (first_seen now observer subject start_time m) = compute_id-IsExact _ e refl m
  Made-IsExact e (status_change now observer subject online_state m) = compute_id-IsExact _ e refl m
  Made-IsExact e (backfill now observer subject start_time restart_num last_restart m) =
      compute_id-IsExact _ e refl m
  Made-IsExact e (converted se m) = compute_id-IsExact _ e refl m
  Made-IsExact e (signed_social now type actor target reason witness emitter sign m) =
      then_sign-IsExact sign emitter _ e refl m
  Made-IsExact e (signed_ping now observer target rtt emitter sign m) =
      then_sign-IsExact sign emitter _ e refl m
  Made-IsExact e (hey_there now name public_key mesh_ip id sign m) =
      then_sign-IsExact sign name _ e refl m
  Made-IsExact e (chau now name public_key id sign m) = then_sign-IsExact sign name _ e refl m
  Made-IsExact e (seen now observer subject via sign m) = then_sign-IsExact sign observer _ e refl m
  Made-IsExact e (tease now actor target reason sign m) = then_sign-IsExact sign actor _ e refl m
  Made-IsExact e (observed now actor target reason sign m) = then_sign-IsExact sign actor _ e refl m
  Made-IsExact e (journey now observer originator reason journey_id sign m) =
      then_sign-IsExact sign observer _ e refl m
