-- ===== src/Presence/Latest.antt =====
-- The time of the last event about a nara, in the state that the events lead to.
use mathlib.Core.List.{mem-cons, not-mem-nil}
use mathlib.Core.Bool.{Bool-set, true≢false}
use mathlib.Core.Logic.Or
use nara.Prelude.{
  ◌≡◌, ◌≢◌, sym, subst, ◌∙◌, inl, inr, Bool, true, false, not, ◌&&◌, ◌||◌, none, some, List, [],
  ◌∷◌, Mem, String, ◌==◌, eq_iff, arith, Bool-cases, Option-cases, if◌then◌else◌,
}
use nara.Prelude.Int.{ℤ, leb_ℤ}
use nara.Prelude.Dict.{Dict, lookup, lookup-insert}
use nara.Event.{SyncEvent, service_ping}
use nara.Projection.CatchUp.{fold_events}
use nara.Presence.{OnlineState, Report, update_state, report, observe_pinger, handle_event}

-- The nara is known, by an event at or after the time.
abbrev pub known_since : Dict OnlineState → String → ℤ → Bool
known_since states name t = elim (lookup name states) [
  | none ↦ false
  | some s ↦ leb_ℤ t s.last_event_time
]

-- One update: of the named nara the newer of the two states stays, the older one on equal times;
-- every other nara keeps its state.
update_state_lem :
    (states : Dict OnlineState) (name status : String) (t : ℤ) (service observer other : String)
    → name ≢ ""
    → lookup other (update_state states name status t service observer) ≡ (
        if name == other && not (known_since states name t)
        then some (record {
          status = status;
          last_event_time = t;
          last_event_type = service;
          observer = observer;
        })
        else lookup other states)
unfolding update_state
update_state_lem states name status t service observer other named = ground (
  arith,
  named,
  eq_iff name "",
  eq_iff name other,
  lookup-insert name other
      (record {
        status = status;
        last_event_time = t;
        last_event_type = service;
        observer = observer;
      })
      states,
)

-- The nara is one that handling the event may update.
abbrev pub affects : SyncEvent → String → Bool
affects e name =
    ((report e).target_name == name && not ((report e).new_status == ""))
    || (e.service == service_ping && elim e.ping [ none ↦ false | some p ↦ p.observer == name ])

update_state-known :
    (states : Dict OnlineState) (name status : String) (t : ℤ) (service observer other : String)
    (u : ℤ)
    → known_since states other u ≡ true
    → known_since (update_state states name status t service observer) other u ≡ true
update_state-known states name status t service observer other u k =
    elim (Bool-cases (name == "")) [
      | inl empty ↦ unfold update_state in rw empty k
      | inr named ↦ ground (
        arith,
        k,
        eq_iff name other,
        update_state_lem states name status t service observer other
            (λ q. true≢false (sym ((eq_iff name "").1 q) ∙ named)),
      )
    ]

update_state-updates :
    (states : Dict OnlineState) (name status : String) (t : ℤ) (service observer : String)
    → name ≢ ""
    → known_since (update_state states name status t service observer) name t ≡ true
update_state-updates states name status t service observer named =
    ground
      (arith, eq_iff name name, update_state_lem states name status t service observer name named)

observe_pinger-known :
    (states : Dict OnlineState) (e : SyncEvent) (name : String) (u : ℤ)
    → known_since states name u ≡ true
    → known_since (observe_pinger states e) name u ≡ true
unfolding observe_pinger
observe_pinger-known states e name u k = elim (Bool-cases (e.service == service_ping)) [
  | inr other ↦ rw other k
  | inl here ↦ rw here elim (Option-cases e.ping) [
    | inl empty ↦ rw empty k
    | inr (p, there) ↦
        rw there
          (update_state-known states p.observer "ONLINE" e.timestamp e.service p.observer name u k)
  ]
]

handle_event-known :
    (states : Dict OnlineState) (e : SyncEvent) (name : String) (u : ℤ)
    → known_since states name u ≡ true
    → known_since (handle_event states e) name u ≡ true
unfolding handle_event
handle_event-known states e name u k =
    elim (Bool-cases ((report e).target_name == "" || (report e).new_status == "")) [
      | inl silent ↦ rw silent (observe_pinger-known states e name u k)
      | inr loud ↦ rw loud (
          update_state-known (observe_pinger states e) (report e).target_name (report e).new_status
            e.timestamp e.service (report e).observer name u
            (observe_pinger-known states e name u k))
    ]

observe_pinger-updates :
    (states : Dict OnlineState) (e : SyncEvent) (name : String)
    → name ≢ ""
    → (e.service == service_ping && elim e.ping [ none ↦ false | some p ↦ p.observer == name ])
      ≡ true
    → known_since (observe_pinger states e) name e.timestamp ≡ true
unfolding observe_pinger
observe_pinger-updates states e name named a = elim (Option-cases e.ping) [
  | inl empty ↦ absurd (ground (arith, empty, a))
  | inr (p, there) ↦
      let sent : (p.observer == name) ≡ true = ground (arith, there, a) in
      let here : (e.service == service_ping) ≡ true = ground (arith, a) in
      let same = (eq_iff p.observer name).0 sent in
      rw (here, there)
        (subst
          (λ n.
            known_since (update_state states n "ONLINE" e.timestamp e.service n) name e.timestamp
            ≡ true)
          (sym same) (update_state-updates states name "ONLINE" e.timestamp e.service name named))
]

report-updates :
    (observed : Dict OnlineState) (r : Report) (e : SyncEvent) (name : String)
    → name ≢ ""
    → (r.target_name == name && not (r.new_status == "")) ≡ true
    → known_since
        (if r.target_name == "" || r.new_status == ""
          then observed
          else update_state observed r.target_name r.new_status e.timestamp e.service r.observer)
        name
        e.timestamp
      ≡ true
report-updates observed r e name named a = ground (
  arith,
  a,
  named,
  eq_iff r.target_name name,
  eq_iff r.target_name "",
  update_state-updates observed r.target_name r.new_status e.timestamp e.service r.observer,
)

handle_event-updates :
    (states : Dict OnlineState) (e : SyncEvent) (name : String)
    → name ≢ ""
    → affects e name ≡ true
    → known_since (handle_event states e) name e.timestamp ≡ true
unfolding handle_event
handle_event-updates states e name named a =
    let r = report e in
    elim (Bool-cases (r.target_name == name && not (r.new_status == ""))) [
      | inl direct ↦ report-updates (observe_pinger states e) r e name named direct
      | inr indirect ↦
          let seen = observe_pinger-updates states e name named (rw indirect at a) in
          elim (Bool-cases (r.target_name == "" || r.new_status == "")) [
            | inl silent ↦ rw silent seen
            | inr loud ↦ rw loud (
                update_state-known (observe_pinger states e) r.target_name r.new_status e.timestamp
                  e.service r.observer name e.timestamp seen)
          ]
    ]

fold_events-known :
    (states : Dict OnlineState) (es : List SyncEvent) (name : String) (u : ℤ)
    → known_since states name u ≡ true
    → known_since (fold_events handle_event states es) name u ≡ true
unfolding fold_events
fold_events-known states [] name u k = k
fold_events-known states (e ∷ es) name u k =
    fold_events-known (handle_event states e) es name u (handle_event-known states e name u k)

-- After any events, in any order, each nara that one of them affects is known, by an event that is
-- not older than that one.
pub handle_event-latest :
    (states : Dict OnlineState) (es : List SyncEvent) (e : SyncEvent) (name : String)
    → name ≢ ""
    → Mem e es
    → affects e name ≡ true
    → known_since (fold_events handle_event states es) name e.timestamp ≡ true
unfolding fold_events
handle_event-latest states [] e name named m a = absurd (not-mem-nil m)
handle_event-latest states (x ∷ es) e name named m a =
    Or.elim (Bool-set _ _) (mem-cons.0 m)
      (λ same. fold_events-known (handle_event states x) es name e.timestamp (
        subst (λ y. known_since (handle_event states y) name e.timestamp ≡ true) same
          (handle_event-updates states e name named a)))
      (λ later. handle_event-latest (handle_event states x) es e name named later a)
