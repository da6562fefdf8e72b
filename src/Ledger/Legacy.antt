-- ===== src/Ledger/Legacy.antt =====
-- The convenience methods of sync_ledger.go: the additions and the query in the format of
-- `SocialEvent`, and the additions of pings. `none` is a nil-pointer panic.
use nara.Prelude.{
  ℕ, suc, Bool, ◌&&◌, ◌||◌, Option, none, some, List, [], ◌∷◌, String, ◌==◌, if◌then◌else◌, ◌>>=◌,
}
use nara.Prelude.Int.{ℤ}
use nara.Prelude.Sort.{Sorter}
use nara.Event.{SyncEvent, service_social}
use nara.Event.Content.{Host}
use nara.Event.Signature.{Crypto}
use nara.Event.Create.{
  SocialEvent, Sign, sync_event_from_social_event, to_social_event, new_ping_sync_event,
  new_signed_ping_sync_event,
}
use nara.Ledger.{SyncLedger, holds}
use nara.Ledger.Add.{add_event}
use nara.Ledger.Filters.{NaraPersonality, add_social_event_filtered}
use nara.Ledger.Page.{has_string}

-- `GetSocialEventsForSubjects`, whose set of subjects is their list
unfoldable pub is_social_about : List String → SyncEvent → Bool
unfolding has_string
is_social_about subjects e =
    e.service == service_social
    && holds e.social (λ p. has_string p.actor subjects || has_string p.target subjects)

unfoldable pub social_events_for : List String → List SyncEvent → List SocialEvent
unfolding is_social_about to_social_event
social_events_for subjects [] = []
social_events_for subjects (e ∷ es) =
    let rest = social_events_for subjects es in
    if is_social_about subjects e
    then elim (to_social_event e) [ none ↦ rest | some se ↦ se ∷ rest ]
    else rest

unfoldable pub get_social_events_for_subjects : SyncLedger → List String → List SocialEvent
unfolding social_events_for
get_social_events_for_subjects l subjects = social_events_for subjects l.events

module _ (sorter : Sorter) (c : Crypto) (h : Host) where
  -- `AddSocialEvent`
  unfoldable pub add_social_event : SyncLedger → SocialEvent → Option (SyncLedger × Bool)
  unfolding sync_event_from_social_event add_event
  add_social_event l se = do e ← sync_event_from_social_event c h se; add_event sorter h l e

  -- `AddSocialEventFilteredLegacy`
  unfoldable pub add_social_event_filtered_legacy :
      SyncLedger → SocialEvent → NaraPersonality → Option (SyncLedger × Bool)
  unfolding sync_event_from_social_event add_social_event_filtered
  add_social_event_filtered_legacy l se who = do
    e ← sync_event_from_social_event c h se
    add_social_event_filtered sorter h l e who

  -- `MergeSocialEventsFiltered`
  unfoldable pub merge_social_events_filtered :
      SyncLedger → List SocialEvent → NaraPersonality → Option (SyncLedger × ℕ)
  unfolding add_social_event_filtered_legacy
  merge_social_events_filtered l [] who = some (l, 0)
  merge_social_events_filtered l (se ∷ events) who = do
    added ← add_social_event_filtered_legacy l se who
    rest ← merge_social_events_filtered added.0 events who
    some (rest.0, (if added.1 then suc rest.1 else rest.1))

  -- `AddPingObservation`, at a time
  unfoldable pub add_ping_observation :
      ℤ → SyncLedger → String → String → ℕ → Option (SyncLedger × Bool)
  unfolding new_ping_sync_event add_event
  add_ping_observation now l observer target rtt = do
    e ← new_ping_sync_event c h now observer target rtt
    add_event sorter h l e

  -- `AddSignedPingObservation` and `AddSignedPingObservationWithReplace`, which have one body
  unfoldable pub add_signed_ping_observation :
      ℤ → SyncLedger → String → String → ℕ → String → Sign → Option (SyncLedger × Bool)
  unfolding new_signed_ping_sync_event add_event
  add_signed_ping_observation now l observer target rtt emitter sign = do
    e ← new_signed_ping_sync_event c h now observer target rtt emitter sign
    add_event sorter h l e
