-- ===== src/Tests/Data.antt =====
-- Concrete events and ledgers, and concrete functions for the parameters of the model.
use nara.Prelude.{
  ℕ, Bool, true, false, ◌||◌, none, some, List, [], ◌∷◌, String, ◌==◌, if◌then◌else◌,
}
use nara.Prelude.Int.{pos, eqb_ℤ}
use nara.Event.{
  SyncEvent, ObservationEventPayload, CheckpointEventPayload, service_ping, service_observation,
  service_checkpoint,
}
use nara.Event.Content.{Host}
use nara.Event.Signature.{Crypto}
use nara.Ledger.{SyncLedger}
use nara.RateLimit.{new_rate_limit}

-- Formats a few numbers, and reads them back.
abbrev pub host : Host
host = record {
  format_int = λ n. if eqb_ℤ n (pos 10) then "10" else if eqb_ℤ n (pos 20) then "20" else "0";
  format_float = λ bits. "0.0";
  format_hex = λ bytes. "00";
  sha256 = λ s. [];
  parse_int = λ s. if s == "10" then some (pos 10) else if s == "20" then some (pos 20) else none;
}

abbrev bytes_32 : List ℕ
bytes_32 =
    let eight : List ℕ → List ℕ = λ bs. 1 ∷ 2 ∷ 3 ∷ 4 ∷ 5 ∷ 6 ∷ 7 ∷ 8 ∷ bs in
    eight (eight (eight (eight [])))

abbrev pub key : List ℕ
key = bytes_32

abbrev pub bytes_64 : List ℕ
bytes_64 =
    let eight : List ℕ → List ℕ = λ bs. 1 ∷ 2 ∷ 3 ∷ 4 ∷ 5 ∷ 6 ∷ 7 ∷ 8 ∷ bs in
    eight (eight (eight (eight bytes_32)))

-- Every signature of the right length is good.
abbrev pub crypto : Crypto
crypto = record {
  bytes = λ s. [];
  decode_base64 = λ s. some bytes_64;
  ed25519_verify = λ k m s. true;
}

abbrev pub blank : SyncEvent
blank = record {
  id = "";
  timestamp = pos 10;
  service = "";
  emitter = "ann";
  emitter_id = "";
  signature = "";
  social = none;
  ping = none;
  observation = none;
  hey_there = none;
  chau = none;
  seen = none;
  checkpoint = none;
}

abbrev pub ping_at : String → ℕ → SyncEvent
ping_at id t = record blank {
  id = id;
  timestamp = pos t;
  service = service_ping;
  ping = some (record { observer = "ann"; target = "bob"; rtt = 1 });
}

abbrev pub restart : String → ObservationEventPayload
restart observer = record {
  observer = observer;
  subject = "bob";
  type = "restart";
  importance = pos 3;
  is_backfill = false;
  start_time = pos 5;
  restart_num = pos 1;
  last_restart = pos 5;
  online_state = "";
  observer_uptime = 0;
}

abbrev pub observed : String → ObservationEventPayload → SyncEvent
observed id o = record blank { id = id; service = service_observation; observation = some o }

abbrev pub status_change : ObservationEventPayload
status_change = record (restart "ann") {
  type = "status-change";
  importance = pos 2;
  online_state = "ONLINE";
}

abbrev pub checkpoint : CheckpointEventPayload
checkpoint = record {
  version = pos 1;
  subject = "bob";
  subject_id = "b";
  previous_checkpoint_id = "";
  observation = record { restarts = pos 2; total_uptime = pos 9; start_time = pos 5 };
  as_of_time = pos 7;
  voter_ids = "v" ∷ "v" ∷ [];
  signatures = "s" ∷ "s" ∷ [];
}

abbrev pub checkpoint_event : SyncEvent
checkpoint_event = record blank {
  id = "cp";
  service = service_checkpoint;
  checkpoint = some checkpoint;
}

-- A ping whose payload is missing.
abbrev pub hollow : SyncEvent
hollow = record (ping_at "p" 10) { ping = none }

abbrev pub holding : ℕ → List SyncEvent → (String → Bool) → SyncLedger
holding max events ids = record {
  events = events;
  max_events = max;
  event_ids = ids;
  observation_rl = new_rate_limit;
  version = 0;
  is_unknown_nara = none;
  notified = [];
}

-- Two pings at different times.
abbrev pub two_pings : SyncLedger
two_pings = holding 5 (ping_at "a" 10 ∷ ping_at "b" 20 ∷ []) (λ k. "a" == k || ("b" == k || false))
