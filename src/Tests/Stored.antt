-- ===== src/Tests/Stored.antt =====
-- The invariants and the pruning at concrete ledgers.
use mathlib.Core.List.{mem-cons, mem-cons_self, not-mem-nil}
use mathlib.Core.HLevel.{¬_prop}
use mathlib.Core.Logic.Or
use native.Mathlib.Nat.{ℕ_set}
use nara.Prelude.{ℕ, ◌≡◌, ◌≢◌, ◌∙◌, ap, sym, refl, true, none, [], ◌∷◌, Mem, String, arith}
use nara.Prelude.Int.{pos}
use nara.Prelude.Sort.Insertion.{insertion}
use nara.Event.{SyncEvent, payload}
use nara.Event.Valid.{is_valid, payload_valid, ping_valid}
use nara.RateLimit.{new_rate_limit, check_and_add}
use nara.RateLimit.Window.{IsBounded, check_and_add-IsBounded}
use nara.Prelude.Dict.{lookup, lookup_or}
use nara.Ledger.{SyncLedger, event_pruning_priority, service_priority, prune_before}
use nara.Ledger.Invariant.{IsIndexed, has_id}
use nara.Ledger.Prune.{prune_unlocked}
use nara.Ledger.Prune.Order.{prune_keeps_critical}
use nara.Ledger.Prune.Size.{prune_critical}
use nara.Tests.Data.{two_pings, ping_at, checkpoint_event, holding}

pub two_pings-IsIndexed : IsIndexed two_pings
unfolding has_id is_valid payload_valid payload ping_valid
two_pings-IsIndexed = record {
  index = λ k. refl;
  distinct = (refl, (refl, tt));
  valid = (refl, (refl, tt));
}

-- A checkpoint and a newer ping, in a ledger for one event.
abbrev critical_and_ping : SyncLedger
critical_and_ping = holding 1 (checkpoint_event ∷ ping_at "b" 20 ∷ []) (λ k. true)

checkpoint-critical : event_pruning_priority checkpoint_event ≡ 0
unfolding event_pruning_priority
checkpoint-critical = refl

ping-noncritical : (id : String) (t : ℕ) → event_pruning_priority (ping_at id t) ≢ 0
unfolding event_pruning_priority service_priority
ping-noncritical id t h = omega (arith, h)

prune_keeps_critical_example :
    Mem checkpoint_event (prune_unlocked insertion critical_and_ping).events
prune_keeps_critical_example =
    prune_keeps_critical insertion critical_and_ping checkpoint_event mem-cons_self
      checkpoint-critical

kept_checkpoint : Mem checkpoint_event (prune_unlocked insertion critical_and_ping).events
kept_checkpoint =
    prune_keeps_critical insertion critical_and_ping checkpoint_event mem-cons_self
      checkpoint-critical

-- Three pings in a ledger for two.
abbrev three_pings : SyncLedger
three_pings = holding 2 (ping_at "a" 10 ∷ ping_at "b" 20 ∷ ping_at "c" 30 ∷ []) (λ k. true)

three_pings-noncritical : (e : SyncEvent) → Mem e three_pings.events → event_pruning_priority e ≢ 0
three_pings-noncritical e m =
    Or.elim ¬_prop (mem-cons.0 m)
      (λ same h. ping-noncritical "a" 10 (ap event_pruning_priority (sym same) ∙ h))
      (λ rest.
        Or.elim ¬_prop (mem-cons.0 rest)
          (λ same h. ping-noncritical "b" 20 (ap event_pruning_priority (sym same) ∙ h))
          (λ last.
            Or.elim ¬_prop (mem-cons.0 last)
              (λ same h. ping-noncritical "c" 30 (ap event_pruning_priority (sym same) ∙ h))
              (λ nothing. absurd (not-mem-nil nothing))))

abbrev two_checkpoints : SyncLedger
two_checkpoints = holding 1 (checkpoint_event ∷ checkpoint_event ∷ []) (λ k. true)

two_checkpoints-critical :
    (e : SyncEvent) → Mem e two_checkpoints.events → event_pruning_priority e ≡ 0
two_checkpoints-critical e m =
    Or.elim (ℕ_set _ _) (mem-cons.0 m)
      (λ same. ap event_pruning_priority same ∙ checkpoint-critical)
      (λ rest.
        Or.elim (ℕ_set _ _) (mem-cons.0 rest)
          (λ same. ap event_pruning_priority same ∙ checkpoint-critical)
          (λ nothing. absurd (not-mem-nil nothing)))

prune_critical_example : prune_unlocked insertion two_checkpoints ≡ record two_checkpoints {
  events = insertion.sort_slice SyncEvent (prune_before none) two_checkpoints.events;
}
prune_critical_example =
    prune_critical insertion two_checkpoints (omega arith) two_checkpoints-critical

new_rate_limit-IsBounded : IsBounded new_rate_limit
unfolding lookup_or lookup
new_rate_limit-IsBounded s = omega arith

check_and_add-IsBounded_example : IsBounded (check_and_add new_rate_limit "bob" (pos 400)).0
check_and_add-IsBounded_example =
    check_and_add-IsBounded new_rate_limit "bob" (pos 400) new_rate_limit-IsBounded
