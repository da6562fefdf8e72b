-- ===== src/Event/Valid.antt =====
-- sync_event.go, presence_heythere.go, presence_chau.go, checkpoint_types.go: the validity, the
-- actor and the target of an event. `none` is a nil-pointer panic.
use nara.Prelude.{
  ℕ, Bool, true, false, not, ◌&&◌, ◌||◌, Option, some, String, ◌==◌, ltb, leb, eqb, if◌then◌else◌,
  length,
}
use nara.Prelude.Int.{pos, ltb_ℤ, leb_ℤ, eqb_ℤ}
use nara.Event.{
  SeenEvent, SocialEventPayload, PingObservation, ObservationEventPayload, HeyThereEvent, ChauEvent,
  CheckpointEventPayload, SyncEvent, Payload, payload, deref,
}

unfoldable pub seen_valid : SeenEvent → Bool
seen_valid s = not (s.observer == "") && not (s.subject == "") && not (s.via == "")

abbrev valid_social_type : String → Bool
valid_social_type t =
    t == "tease" || t == "observed" || t == "gossip" || t == "observation" || t == "service"

unfoldable pub social_valid : SocialEventPayload → Bool
social_valid p = valid_social_type p.type && not (p.actor == "") && not (p.target == "")

-- `x > 0` on a float64 given by its bits: the sign is clear, and it is neither 0 nor a NaN.
abbrev pub positive_float : ℕ → Bool
positive_float bits = ltb 0 bits && leb bits 0x7ff0000000000000

unfoldable pub ping_valid : PingObservation → Bool
ping_valid p = not (p.observer == "") && not (p.target == "") && positive_float p.rtt

abbrev valid_observation_type : String → Bool
valid_observation_type t = t == "restart" || t == "first-seen" || t == "status-change"

abbrev valid_state : String → Bool
valid_state s = s == "ONLINE" || s == "OFFLINE" || s == "MISSING"

unfoldable pub observation_valid : ObservationEventPayload → Bool
observation_valid p =
    if p.observer == "" || p.subject == "" || p.type == ""
    then false
    else if not (valid_observation_type p.type)
    then false
    else if ltb_ℤ p.importance (pos 1) || ltb_ℤ (pos 3) p.importance
    then false
    else if p.type == "restart"
    then ltb_ℤ (pos 0) p.start_time && leb_ℤ (pos 0) p.restart_num
    else if p.type == "first-seen"
    then ltb_ℤ (pos 0) p.start_time
    else if p.type == "status-change"
    then valid_state p.online_state
    else true

unfoldable pub hey_there_valid : HeyThereEvent → Bool
hey_there_valid h = not (h.from == "") && not (h.public_key == "")

unfoldable pub chau_valid : ChauEvent → Bool
chau_valid c = not (c.from == "")

unfoldable pub checkpoint_valid : CheckpointEventPayload → Bool
checkpoint_valid p =
    if p.subject == ""
    then false
    else if leb_ℤ p.as_of_time (pos 0)
    then false
    else if ltb_ℤ p.observation.restarts (pos 0)
    then false
    else if ltb_ℤ p.observation.total_uptime (pos 0)
    then false
    else eqb (length p.voter_ids) (length p.signatures)

-- `p != nil && p.IsValid()`
unfoldable pub payload_valid : Payload → Option Bool
payload_valid Payload.absent = some false
payload_valid (Payload.social p) = deref p social_valid
payload_valid (Payload.ping p) = deref p ping_valid
payload_valid (Payload.observation p) = deref p observation_valid
payload_valid (Payload.hey_there p) = deref p hey_there_valid
payload_valid (Payload.chau p) = deref p chau_valid
payload_valid (Payload.seen p) = deref p seen_valid
payload_valid (Payload.checkpoint p) = deref p checkpoint_valid

-- `(e *SyncEvent) IsValid()`
unfoldable pub is_valid : SyncEvent → Option Bool
is_valid e =
    if e.service == "" || eqb_ℤ e.timestamp (pos 0) then some false else payload_valid (payload e)

-- `GetActor`; the checkpoint's method reads no field.
unfoldable pub payload_actor : Payload → Option String
payload_actor Payload.absent = some ""
payload_actor (Payload.social p) = deref p (λ q. q.actor)
payload_actor (Payload.ping p) = deref p (λ q. q.observer)
payload_actor (Payload.observation p) = deref p (λ q. q.observer)
payload_actor (Payload.hey_there p) = deref p (λ q. q.from)
payload_actor (Payload.chau p) = deref p (λ q. q.from)
payload_actor (Payload.seen p) = deref p (λ q. q.observer)
payload_actor (Payload.checkpoint p) = some ""

unfoldable pub get_actor : SyncEvent → Option String
unfolding payload_actor
get_actor e = payload_actor (payload e)

-- `GetTarget`
unfoldable pub payload_target : Payload → Option String
payload_target Payload.absent = some ""
payload_target (Payload.social p) = deref p (λ q. q.target)
payload_target (Payload.ping p) = deref p (λ q. q.target)
payload_target (Payload.observation p) = deref p (λ q. q.subject)
payload_target (Payload.hey_there p) = deref p (λ q. q.from)
payload_target (Payload.chau p) = deref p (λ q. q.from)
payload_target (Payload.seen p) = deref p (λ q. q.subject)
payload_target (Payload.checkpoint p) = deref p (λ q. q.subject)

unfoldable pub get_target : SyncEvent → Option String
unfolding payload_target
get_target e = payload_target (payload e)

-- The interface is nil or holds a pointer that is not.
unfoldable pub has_payload : Payload → Bool
has_payload Payload.absent = true
has_payload (Payload.social (some p)) = true
has_payload (Payload.ping (some p)) = true
has_payload (Payload.observation (some p)) = true
has_payload (Payload.hey_there (some p)) = true
has_payload (Payload.chau (some p)) = true
has_payload (Payload.seen (some p)) = true
has_payload (Payload.checkpoint (some p)) = true
has_payload _ = false
