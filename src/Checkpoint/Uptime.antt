-- ===== src/Checkpoint/Uptime.antt =====
-- `DeriveTotalUptime` and `DeriveUptimeAfter` of checkpoint_types.go. The time is an argument.
pub mod Bounds
use nara.Prelude.{
  ℕ, zero, suc, ◌+◌, Bool, true, false, not, ◌&&◌, ◌||◌, Option, none, some, List, [], ◌∷◌, String,
  ◌==◌, if◌then◌else◌,
}
use nara.Prelude.Int.{ℤ, pos, ltb_ℤ, leb_ℤ, eqb_ℤ, add64, sub64, div_pos}
use nara.Prelude.Sort.{Sorter}
use nara.Event.{SyncEvent, service_observation}
use nara.Ledger.{SyncLedger}
use nara.Ledger.Query.{get_backfill_event}
use nara.Checkpoint.{latest_checkpoint}

pub record StatusEvent : Type 0 where
  pub timestamp : ℤ
  pub state : String

-- The status changes of a subject after a time, in seconds; no time is before them if it is 0.
unfoldable pub status_events : String → ℤ → List SyncEvent → List StatusEvent
status_events subject after [] = []
status_events subject after (e ∷ es) =
    let rest = status_events subject after es in
    if e.service == service_observation
    then elim e.observation [
      | none ↦ rest
      | some o ↦
          if o.subject == subject
            && o.type == "status-change"
            && not (ltb_ℤ (pos 0) after && leb_ℤ (div_pos e.timestamp 1000000000) after)
          then record { timestamp = div_pos e.timestamp 1000000000; state = o.online_state } ∷ rest
          else rest
    ]
    else rest

unfoldable pub earlier_status : StatusEvent → StatusEvent → Bool
earlier_status a b = ltb_ℤ a.timestamp b.timestamp

-- The uptime so far and the start of the open period, 0 when there is none.
pub record Uptime : Type 0 where
  pub uptime : ℤ
  pub online_start : ℤ

unfoldable pub scan_status : Uptime → StatusEvent → Uptime
unfolding add64 sub64
scan_status s e =
    if e.state == "ONLINE" && eqb_ℤ s.online_start (pos 0)
    then record { uptime = s.uptime; online_start = e.timestamp }
    else if (e.state == "OFFLINE" || e.state == "MISSING") && ltb_ℤ (pos 0) s.online_start
    then record { uptime = add64 s.uptime (sub64 e.timestamp s.online_start); online_start = pos 0 }
    else s

unfoldable pub scan_statuses : Uptime → List StatusEvent → Uptime
unfolding scan_status
scan_statuses s [] = s
scan_statuses s (e ∷ es) = scan_statuses (scan_status s e) es

-- `if onlineStart > 0 { uptime += time.Now().Unix() - onlineStart }`
unfoldable pub close_period : ℤ → Uptime → ℤ
unfolding add64 sub64
close_period now s =
    if ltb_ℤ (pos 0) s.online_start then add64 s.uptime (sub64 now s.online_start) else s.uptime

module _ (sorter : Sorter) where
  open sorter use {sort_slice}

  -- `DeriveUptimeAfter`
  unfoldable pub derive_uptime_after : SyncLedger → ℤ → String → ℤ → ℤ
  unfolding status_events scan_statuses close_period
  derive_uptime_after l now subject after = close_period now (
      scan_statuses (record { uptime = pos 0; online_start = pos 0 })
        (sort_slice StatusEvent earlier_status (status_events subject after l.events)))

  -- The part of `DeriveTotalUptime` after its baseline: the uptime of the checkpoint, its time, and
  -- the start time of the backfill.
  unfoldable pub uptime_from : SyncLedger → ℤ → String → ℤ → ℤ → ℤ → ℤ
  unfolding status_events scan_statuses close_period
  uptime_from l now subject base after assumed =
      elim (sort_slice StatusEvent earlier_status (status_events subject after l.events)) [
        | [] ↦ if ltb_ℤ (pos 0) assumed then sub64 now assumed else base
        | e ∷ es ↦ close_period now (
            scan_statuses
              (record {
                uptime = base;
                online_start = if ltb_ℤ (pos 0) assumed then assumed else pos 0;
              })
              (e ∷ es))
      ]

  -- `DeriveTotalUptime`
  unfoldable pub derive_total_uptime : SyncLedger → ℤ → String → ℤ
  unfolding latest_checkpoint uptime_from get_backfill_event
  derive_total_uptime l now subject = elim (latest_checkpoint l subject).contents [
    | some c ↦ uptime_from l now subject c.observation.total_uptime c.as_of_time (pos 0)
    | none ↦ elim (get_backfill_event l subject) [
      | some o ↦ uptime_from l now subject (pos 0) (pos 0) o.start_time
      | none ↦ uptime_from l now subject (pos 0) (pos 0) (pos 0)
    ]
  ]
