-- ===== src/Ledger/Filters.antt =====
-- The ways into the ledger of sync_ledger.go that filter first, with sync_helpers.go and the
-- personality of nara.go. `none` is a nil-pointer panic.
pub mod Laws
use nara.Prelude.{
  ℕ, zero, suc, ◌+◌, Bool, true, false, not, ◌&&◌, ◌||◌, Option, none, some, List, [], ◌∷◌, String,
  ◌==◌, if◌then◌else◌, ◌>>=◌,
}
use nara.Prelude.Int.{ℤ, pos, ltb_ℤ, eqb_ℤ, div_pos}
use nara.Prelude.Sort.{Sorter}
use nara.Event.{SyncEvent, SocialEventPayload, service_observation, service_social}
use nara.Event.Content.{Host}
use nara.RateLimit.{check_and_add}
use nara.Ledger.{SyncLedger, filter_events_for_ingestion}
use nara.Ledger.Add.{add_event}

pub record NaraPersonality : Type 0 where
  pub agreeableness : ℤ
  pub sociability : ℤ
  pub chill : ℤ

-- `ImportanceNormal` and `ImportanceCritical`
abbrev pub importance_normal : ℤ
importance_normal = pos 2

abbrev pub importance_critical : ℤ
importance_critical = pos 3

-- The part of `socialEventIsMeaningful` for observations.
unfoldable pub observation_is_meaningful : SocialEventPayload → NaraPersonality → Bool
observation_is_meaningful p who =
    if p.reason == "journey-timeout"
    then true
    else if ltb_ℤ (pos 85) who.chill && (p.reason == "online" || p.reason == "offline")
    then false
    else if ltb_ℤ who.sociability (pos 30)
        && (p.reason == "journey-pass" || p.reason == "journey-complete")
    then false
    else true

-- `socialEventIsMeaningful`
unfoldable pub social_event_is_meaningful : SocialEventPayload → NaraPersonality → Bool
unfolding observation_is_meaningful
social_event_is_meaningful p who =
    if ltb_ℤ (pos 70) who.chill && p.reason == "random"
    then false
    else if p.type == "observation"
    then observation_is_meaningful p who
    else if ltb_ℤ (pos 85) who.chill
        && (not (p.reason == "comeback") && not (p.reason == "high-restarts"))
    then false
    else if ltb_ℤ (pos 80) who.agreeableness && p.reason == "trend-abandon"
    then false
    else if ltb_ℤ who.sociability (pos 20) && p.reason == "random"
    then false
    else true

module _ (sorter : Sorter) (h : Host) where
  -- `AddEventFiltered`
  unfoldable pub add_event_filtered :
      SyncLedger → SyncEvent → NaraPersonality → Option (SyncLedger × Bool)
  add_event_filtered l e who =
      if e.service == service_observation
      then elim e.observation [
        | none ↦ add_event sorter h l e
        | some o ↦
            if eqb_ℤ o.importance importance_critical
            then add_event sorter h l e
            else if eqb_ℤ o.importance importance_normal && ltb_ℤ (pos 85) who.chill
            then some (l, false)
            else add_event sorter h l e
      ]
      else add_event sorter h l e

  -- `AddEventWithRateLimit`
  unfoldable pub add_event_with_rate_limit : SyncLedger → SyncEvent → Option (SyncLedger × Bool)
  unfolding check_and_add
  add_event_with_rate_limit l e =
      if e.service == service_observation
      then elim e.observation [
        | none ↦ add_event sorter h l e
        | some o ↦
            let checked =
              check_and_add l.observation_rl o.subject (div_pos e.timestamp 1000000000) in
            if checked.1
            then add_event sorter h (record l { observation_rl = checked.0 }) e
            else some (record l { observation_rl = checked.0 }, false)
      ]
      else add_event sorter h l e

  -- `AddSocialEventFiltered`
  unfoldable pub add_social_event_filtered :
      SyncLedger → SyncEvent → NaraPersonality → Option (SyncLedger × Bool)
  unfolding social_event_is_meaningful
  add_social_event_filtered l e who =
      if e.service == service_social
      then elim e.social [
        | none ↦ add_event sorter h l e
        | some p ↦
            if social_event_is_meaningful p who then add_event sorter h l e else some (l, false)
      ]
      else add_event sorter h l e

  -- The loop of `MergeEvents`
  unfoldable pub add_all : SyncLedger → List SyncEvent → Option (SyncLedger × ℕ)
  add_all l [] = some (l, 0)
  add_all l (e ∷ es) = do
    added ← add_event sorter h l e
    rest ← add_all added.0 es
    some (rest.0, (if added.1 then suc rest.1 else rest.1))

  -- `MergeEvents`
  unfoldable pub merge_events : SyncLedger → List SyncEvent → Option (SyncLedger × ℕ)
  unfolding add_all
  merge_events l events = add_all l (filter_events_for_ingestion events)
