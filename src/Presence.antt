-- ===== src/Presence.antt =====
-- presence_projection.go: the online status of each nara, derived from the events.
--
-- The mutex makes each method one step. The time and the threshold function are arguments.
pub mod Latest
use nara.Prelude.{
  ℕ, zero, suc, Bool, true, false, not, ◌&&◌, ◌||◌, Option, none, some, List, [], ◌∷◌, String, ◌==◌,
  if◌then◌else◌,
}
use nara.Prelude.Int.{ℤ, pos, ltb_ℤ, sub64}
use nara.Prelude.Dict.{Dict, lookup, insert}
use nara.Event.{
  SyncEvent, PingObservation, ObservationEventPayload, service_social, service_ping,
  service_observation, service_hey_there, service_chau, service_seen,
}

pub record OnlineState : Type 0 where
  pub status : String
  pub last_event_time : ℤ
  pub last_event_type : String
  pub observer : String

-- `updateState`
unfoldable pub update_state :
    Dict OnlineState → String → String → ℤ → String → String → Dict OnlineState
unfolding lookup insert
update_state states name status timestamp service observer =
    let new =
      insert name
        (record {
          status = status;
          last_event_time = timestamp;
          last_event_type = service;
          observer = observer;
        })
        states in
    if name == "" then states else elim (lookup name states) [
      | none ↦ new
      | some current ↦ if ltb_ℤ current.last_event_time timestamp then new else states
    ]

-- The nara that an event affects, the status it implies and who reports it.
pub record Report : Type 0 where
  pub target_name : String
  pub new_status : String
  pub observer : String

abbrev no_report : Report
no_report = record { target_name = ""; new_status = ""; observer = "" }

unfoldable pub observation_report : ObservationEventPayload → Report
observation_report o = record {
  target_name = o.subject;
  new_status =
      if o.type == "status-change"
      then o.online_state
      else if o.type == "restart" || o.type == "first-seen"
      then "ONLINE"
      else "";
  observer = o.observer;
}

abbrev report_of {ℓ} : {A : Type ℓ} → Option A → (A → Report) → Report
report_of none f = no_report
report_of (some a) f = f a

-- The `switch` of `handleEvent`
unfoldable pub report : SyncEvent → Report
unfolding observation_report
report e =
    if e.service == service_hey_there
    then report_of e.hey_there
        (λ p. record { target_name = p.from; new_status = "ONLINE"; observer = p.from })
    else if e.service == service_chau
    then report_of e.chau
        (λ p. record { target_name = p.from; new_status = "OFFLINE"; observer = p.from })
    else if e.service == service_seen
    then report_of e.seen
        (λ p. record { target_name = p.subject; new_status = "ONLINE"; observer = p.observer })
    else if e.service == service_observation
    then report_of e.observation observation_report
    else if e.service == service_social
    then report_of e.social
        (λ p. record { target_name = p.actor; new_status = "ONLINE"; observer = p.actor })
    else if e.service == service_ping
    then report_of e.ping
        (λ p. record { target_name = p.target; new_status = "ONLINE"; observer = p.observer })
    else no_report

-- The extra update that a ping makes for its observer.
unfoldable pub observe_pinger : Dict OnlineState → SyncEvent → Dict OnlineState
unfolding update_state
observe_pinger states e =
    if e.service == service_ping
    then elim e.ping [
      | none ↦ states
      | some p ↦ update_state states p.observer "ONLINE" e.timestamp e.service p.observer
    ]
    else states

-- `handleEvent`, which returns no error
unfoldable pub handle_event : Dict OnlineState → SyncEvent → Dict OnlineState
unfolding report observe_pinger update_state
handle_event states e =
    let r = report e in
    let observed = observe_pinger states e in
    if r.target_name == "" || r.new_status == ""
    then observed
    else update_state observed r.target_name r.new_status e.timestamp e.service r.observer

-- The status to show for a state, which `GetStatus` and `GetAllStatuses` share.
unfoldable pub shown_status : (String → ℤ) → ℤ → String → OnlineState → String
unfolding sub64
shown_status threshold now name s =
    if s.status == "ONLINE" && ltb_ℤ (threshold name) (sub64 now s.last_event_time)
    then "MISSING"
    else s.status

-- `GetStatus`
unfoldable pub get_status : Dict OnlineState → (String → ℤ) → ℤ → String → String
unfolding shown_status lookup
get_status states threshold now name = elim (lookup name states) [
  | none ↦ ""
  | some s ↦ shown_status threshold now name s
]

-- `GetAllStatuses`
unfoldable pub get_all_statuses : Dict OnlineState → (String → ℤ) → ℤ → Dict String
unfolding shown_status
get_all_statuses [] threshold now = []
get_all_statuses ((name, s) ∷ states) threshold now =
    (name, shown_status threshold now name s) ∷ get_all_statuses states threshold now
