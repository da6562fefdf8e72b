-- ===== src/Tests/Added.antt =====
-- Additions to the ledger at concrete events.
use mathlib.Core.List.{mem-cons, not-mem-nil}
use mathlib.Core.Bool.{Bool-set}
use mathlib.Core.Logic.Or
use nara.Prelude.{
  ap, ℕ, zero, suc, ◌+◌, ◌≤◌, ◌≡◌, ◌≢◌, refl, inr, true, false, none, some, List, [], ◌∷◌, Mem,
  String, ◌==◌, eq_iff, arith, length, count_if, ◌||◌,
}
use nara.Prelude.Int.{pos}
use nara.Prelude.Sort.Insertion.{insertion}
use nara.Event.{SyncEvent, SocialEventPayload, payload}
use nara.Event.Valid.{has_payload, is_valid, payload_valid, ping_valid, observation_valid}
use nara.Ledger.{
  SyncLedger, max_pings_per_target, should_filter_checkpoint, store_event, set_id, notify_listeners,
}
use nara.Ledger.Prune.{prune_unlocked}
use nara.Ledger.Add.{
  add_event, with_id, limit_pings, make_room, append_and_prune, add_identified, scan_ping,
  scan_pings, is_ping_to,
}
use nara.Ledger.Add.Compact.{compact, has_checkpoint, is_of_pair, is_non_restart, is_observation}
use nara.Ledger.Add.Compact.Limit.{compact_history}
use nara.Ledger.Add.Outcome.{add_event-returns, refused_observation_evicts}
use nara.Ledger.Add.Pings.{pings_to, add_event-pings}
use nara.Ledger.Filters.{NaraPersonality}
use nara.Tests.Data.{host, two_pings, ping_at, observed, restart, checkpoint_event, holding}

add_event-returns_example : add_event insertion host two_pings (ping_at "c" 30) ≢ none
unfolding payload has_payload
add_event-returns_example = add_event-returns insertion host two_pings (ping_at "c" 30) refl

-- The ledger after the third ping.
abbrev third : SyncLedger
third =
    record (holding 5 (ping_at "a" 10 ∷ ping_at "b" 20 ∷ ping_at "c" 30 ∷ [])
      (λ k. "c" == k || ("a" == k || ("b" == k || false)))) { notified = ping_at "c" 30 ∷ [] }

added_third : add_event insertion host two_pings (ping_at "c" 30) ≡ some (third, true)
unfolding add_event with_id add_identified make_room limit_pings scan_ping scan_pings is_ping_to
    append_and_prune is_valid payload payload_valid ping_valid should_filter_checkpoint store_event
    set_id notify_listeners prune_unlocked
added_third = refl

few_pings : (t : String) → pings_to t two_pings.events ≤ max_pings_per_target
unfolding is_ping_to count_if
few_pings t = ground arith

add_event-pings_example : pings_to "bob" third.events ≤ max_pings_per_target
add_event-pings_example =
    add_event-pings insertion host two_pings third (ping_at "c" 30) true added_third few_pings "bob"

-- Twenty reports of one pair.
abbrev reports : ℕ → List SyncEvent
reports zero = []
reports (suc n) = observed "r" (restart "ann") ∷ reports n

abbrev full_pair : SyncLedger
full_pair = holding 100 (checkpoint_event ∷ reports 20) (λ k. true)

reports-restarts :
    (n : ℕ) (e : SyncEvent)
    → Mem e (reports n)
    → is_of_pair (restart "ann") e ≡ true
    → is_non_restart (some e) ≡ false
reports-restarts zero e m pair = absurd (not-mem-nil m)
reports-restarts (suc n) e m pair =
    Or.elim (Bool-set _ _) (mem-cons.0 m)
      (λ same. ap (λ (x : SyncEvent). is_non_restart (some x)) same)
      (λ rest. reports-restarts n e rest pair)

-- The pair is full, without a checkpoint of the subject.
abbrev restarts_only : SyncLedger
restarts_only = holding 100 (reports 20) (λ k. true)

pair_full : count_if (is_of_pair (restart "ann")) restarts_only.events ≡ 20
unfolding is_of_pair is_observation count_if
pair_full = refl

compact_history_example : compact restarts_only (restart "ann") ≡ restarts_only
unfolding has_checkpoint is_of_pair is_observation
compact_history_example = compact_history restarts_only (restart "ann") refl (reports-restarts 20)

-- An observation that is refused, by a full pair: its ID is stored.
stored :
    (is_valid (observed "z" (restart "ann")) ≡ some true)
    × ((compact full_pair (restart "ann")).event_ids "z" ≡ true)
unfolding is_valid payload payload_valid observation_valid compact
stored = (refl, refl)

refused_observation_evicts_example :
    (add_event insertion host full_pair (observed "z" (restart "ann"))
      ≡ some (compact full_pair (restart "ann"), false))
    × (length full_pair.events ≡ length (compact full_pair (restart "ann")).events + 1)
    × ((compact full_pair (restart "ann")).version ≡ 1)
unfolding has_checkpoint is_of_pair is_observation count_if
refused_observation_evicts_example =
    refused_observation_evicts insertion host full_pair (observed "z" (restart "ann"))
      (restart "ann") refl refl (λ h. ground (arith, eq_iff "z" "", h)) (inr stored) refl
      (omega arith)

abbrev chill : NaraPersonality
chill = record { agreeableness = pos 50; sociability = pos 50; chill = pos 90 }

abbrev comeback : SocialEventPayload
comeback = record {
  type = "tease";
  actor = "ann";
  target = "bob";
  reason = "comeback";
  witness = "";
}

third_has_payload : (e : SyncEvent) → Mem e (ping_at "c" 30 ∷ []) → has_payload (payload e) ≡ true
unfolding has_payload payload
third_has_payload e m =
    Or.elim (Bool-set _ _) (mem-cons.0 m)
      (λ same. ap (λ (x : SyncEvent). has_payload (payload x)) same)
      (λ nothing. absurd (not-mem-nil nothing))
