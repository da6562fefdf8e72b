-- ===== src/Event/Content.antt =====
-- sync_event.go, presence_heythere.go, presence_chau.go, checkpoint_types.go: the canonical content
-- of an event and the identity that is its hash.
--
-- The formatting of numbers and the hash belong to Go's standard library: they are the fields of
-- `Host`. `none` is a nil-pointer panic.
use Prim.Native.String
use nara.Prelude.{
  ℕ, false, ◌&&◌, ◌||◌, Option, some, List, [], ◌∷◌, String, ◌==◌, not, take, if◌then◌else◌,
}
use nara.Prelude.Int.{ℤ, pos, eqb_ℤ}
use nara.Event.{
  SeenEvent, SocialEventPayload, PingObservation, ObservationEventPayload, HeyThereEvent, ChauEvent,
  CheckpointEventPayload, SyncEvent, Payload, payload, deref,
}

-- `fmt` with `%d`, with `%.1f` (of the bits of a float64) and with `%x`, `crypto/sha256`, and the
-- conversions of `strconv` in base 10.
pub record Host : Type 0 where
  pub format_int : ℤ → String
  pub format_float : ℕ → String
  pub format_hex : List ℕ → String
  pub sha256 : String → List ℕ
  pub parse_int : String → Option ℤ

-- The pieces of a format string, one after the other.
unfoldable pub join : List String → String
join [] = ""
join (s ∷ ss) = String.◌++◌ s (join ss)

unfoldable pub seen_content : SeenEvent → String
seen_content s = join ("seen:" ∷ s.observer ∷ ":" ∷ s.subject ∷ ":" ∷ s.via ∷ [])

unfoldable pub social_content : SocialEventPayload → String
social_content p =
    join (p.type ∷ ":" ∷ p.actor ∷ ":" ∷ p.target ∷ ":" ∷ p.reason ∷ ":" ∷ p.witness ∷ [])

-- `signatureMessage`; the branch with the ID is switched off by `&& false`.
unfoldable pub hey_there_message : HeyThereEvent → String
hey_there_message h =
    if not (h.id == "") && false
    then join ("hey_there:" ∷ h.from ∷ ":" ∷ h.public_key ∷ ":" ∷ h.mesh_ip ∷ ":" ∷ h.id ∷ [])
    else join ("hey_there:" ∷ h.from ∷ ":" ∷ h.public_key ∷ ":" ∷ h.mesh_ip ∷ [])

unfoldable pub chau_message : ChauEvent → String
chau_message c =
    if not (c.id == "") && false
    then join ("chau:" ∷ c.from ∷ ":" ∷ c.public_key ∷ ":" ∷ c.id ∷ [])
    else join ("chau:" ∷ c.from ∷ ":" ∷ c.public_key ∷ [])

module _ (h : Host) where
  unfoldable pub ping_content : PingObservation → String
  ping_content p = join (p.observer ∷ ":" ∷ p.target ∷ ":" ∷ h.format_float p.rtt ∷ [])

  unfoldable pub observation_content : ObservationEventPayload → String
  observation_content p =
      if p.type == "restart"
      then join (
          p.subject
          ∷ ":restart:"
          ∷ h.format_int p.restart_num
          ∷ ":"
          ∷ h.format_int p.start_time
          ∷ [])
      else join (
          p.observer
          ∷ ":"
          ∷ p.subject
          ∷ ":"
          ∷ p.type
          ∷ ":"
          ∷ p.online_state
          ∷ ":"
          ∷ h.format_int p.start_time
          ∷ ":"
          ∷ h.format_int p.restart_num
          ∷ [])

  -- The five fields that both versions of the checkpoint content end in or contain.
  abbrev checkpoint_fields : CheckpointEventPayload → List String → List String
  checkpoint_fields p rest =
      (if p.subject_id == "" then p.subject else p.subject_id)
      ∷ ":"
      ∷ h.format_int p.as_of_time
      ∷ ":"
      ∷ h.format_int p.observation.start_time
      ∷ ":"
      ∷ h.format_int p.observation.restarts
      ∷ ":"
      ∷ h.format_int p.observation.total_uptime
      ∷ rest

  unfoldable pub checkpoint_content : CheckpointEventPayload → String
  checkpoint_content p =
      if eqb_ℤ p.version (pos 0) || eqb_ℤ p.version (pos 1)
      then join ("checkpoint:" ∷ checkpoint_fields p [])
      else join ("checkpoint:v2:" ∷ checkpoint_fields p (":" ∷ p.previous_checkpoint_id ∷ []))

  -- `p.ContentString()`, and nothing for the nil interface
  unfoldable pub payload_content : Payload → Option String
  payload_content Payload.absent = some ""
  payload_content (Payload.social p) = deref p social_content
  payload_content (Payload.ping p) = deref p ping_content
  payload_content (Payload.observation p) = deref p observation_content
  payload_content (Payload.hey_there p) = deref p hey_there_message
  payload_content (Payload.chau p) = deref p chau_message
  payload_content (Payload.seen p) = deref p seen_content
  payload_content (Payload.checkpoint p) = deref p checkpoint_content

  -- The ID of an event with the given content.
  unfoldable pub content_id : SyncEvent → String → String
  content_id e content =
      h.format_hex (
        take 16 (h.sha256 (join (h.format_int e.timestamp ∷ ":" ∷ e.service ∷ ":" ∷ content ∷ []))))

  -- `ComputeID`: the event with its new ID
  unfoldable pub compute_id : SyncEvent → Option SyncEvent
  unfolding payload_content content_id
  compute_id e =
      deref (payload_content (payload e)) (λ content. record e { id = content_id e content })
