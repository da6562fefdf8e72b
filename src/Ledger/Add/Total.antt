-- ===== src/Ledger/Add/Total.antt =====
-- `IsValid` and `ComputeID` return exactly when the payload that the service names is there.
use nara.Prelude.{
  ◌≡◌, refl, inl, inr, Bool, true, false, ◌||◌, none, some, String, ◌==◌, Bool-cases,
}
use nara.Prelude.Int.{pos, eqb_ℤ}
use nara.Event.{SyncEvent, ObservationEventPayload, Payload, payload, service_observation}
use nara.Event.Valid.{is_valid, payload_valid, has_payload}
use nara.Event.Content.{Host, compute_id, content_id, payload_content}
use nara.Ledger.Add.{with_id}

pub payload_valid-total :
    (p : Payload) → has_payload p ≡ true → (b : Bool) × (payload_valid p ≡ some b)
unfolding payload_valid has_payload
payload_valid-total Payload.absent q = (false, refl)
payload_valid-total (Payload.social (some p)) q = (_, refl)
payload_valid-total (Payload.ping (some p)) q = (_, refl)
payload_valid-total (Payload.observation (some p)) q = (_, refl)
payload_valid-total (Payload.hey_there (some p)) q = (_, refl)
payload_valid-total (Payload.chau (some p)) q = (_, refl)
payload_valid-total (Payload.seen (some p)) q = (_, refl)
payload_valid-total (Payload.checkpoint (some p)) q = (_, refl)
payload_valid-total _ q = absurd (cc)

pub payload_valid-none : (p : Payload) → has_payload p ≡ false → payload_valid p ≡ none
unfolding payload_valid has_payload
payload_valid-none Payload.absent q = absurd (cc)
payload_valid-none (Payload.social none) q = refl
payload_valid-none (Payload.ping none) q = refl
payload_valid-none (Payload.observation none) q = refl
payload_valid-none (Payload.hey_there none) q = refl
payload_valid-none (Payload.chau none) q = refl
payload_valid-none (Payload.seen none) q = refl
payload_valid-none (Payload.checkpoint none) q = refl
payload_valid-none _ q = absurd (cc)

pub payload_empty : (e : SyncEvent) → e.service ≡ "" → payload e ≡ Payload.absent
unfolding payload
payload_empty e q = rw q

pub payload_observation :
    (e : SyncEvent)
    → e.service ≡ service_observation
    → payload e ≡ Payload.observation e.observation
unfolding payload
payload_observation e q = rw q

pub payload_absent : has_payload Payload.absent ≡ true
unfolding has_payload
payload_absent = refl

pub has_payload-some :
    (o : ObservationEventPayload) → has_payload (Payload.observation (some o)) ≡ true
unfolding has_payload
has_payload-some o = refl

pub is_valid-total :
    (e : SyncEvent) → has_payload (payload e) ≡ true → (b : Bool) × (is_valid e ≡ some b)
unfolding is_valid
is_valid-total e p =
    let (b, q) = payload_valid-total (payload e) p in
    elim (Bool-cases (e.service == "" || eqb_ℤ e.timestamp (pos 0))) [
      | inl early ↦ (false, rw early)
      | inr late ↦ (b, rw late q)
    ]

module _ (h : Host) where
  pub payload_content-total :
      (p : Payload) → has_payload p ≡ true → (s : String) × (payload_content h p ≡ some s)
  unfolding payload_content has_payload
  payload_content-total Payload.absent q = ("", refl)
  payload_content-total (Payload.social (some p)) q = (_, refl)
  payload_content-total (Payload.ping (some p)) q = (_, refl)
  payload_content-total (Payload.observation (some p)) q = (_, refl)
  payload_content-total (Payload.hey_there (some p)) q = (_, refl)
  payload_content-total (Payload.chau (some p)) q = (_, refl)
  payload_content-total (Payload.seen (some p)) q = (_, refl)
  payload_content-total (Payload.checkpoint (some p)) q = (_, refl)
  payload_content-total _ q = absurd (cc)

  pub payload_content-none : (p : Payload) → has_payload p ≡ false → payload_content h p ≡ none
  unfolding payload_content has_payload
  payload_content-none Payload.absent q = absurd (cc)
  payload_content-none (Payload.social none) q = refl
  payload_content-none (Payload.ping none) q = refl
  payload_content-none (Payload.observation none) q = refl
  payload_content-none (Payload.hey_there none) q = refl
  payload_content-none (Payload.chau none) q = refl
  payload_content-none (Payload.seen none) q = refl
  payload_content-none (Payload.checkpoint none) q = refl
  payload_content-none _ q = absurd (cc)

  -- The event that `AddEvent` goes on with has the payload, the service and the time of the first.
  pub with_id-total :
      (e : SyncEvent)
      → has_payload (payload e) ≡ true
      → (id : String) × (with_id h e ≡ some (record e { id = id }))
  unfolding with_id compute_id
  with_id-total e p =
      let (s, q) = payload_content-total (payload e) p in
      elim (Bool-cases (e.id == "")) [
        | inl empty ↦ (content_id h e s, rw (empty, q))
        | inr given ↦ (e.id, rw given)
      ]
