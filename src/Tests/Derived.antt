-- ===== src/Tests/Derived.antt =====
-- The checkpoints, the restart counts and the uptime at concrete ledgers.
use mathlib.Core.List.{mem-cons_self, mem-cons, not-mem-nil}
use mathlib.Core.Bool.{Bool-set}
use mathlib.Core.Logic.Or
use nara.Prelude.{ap, ℕ, ◌≤◌, ◌≡◌, refl, true, some, [], ◌∷◌, String, arith}
use nara.Prelude.Int.{pos, eqb_ℤ, eqb_ℤ→eq, div_pos}
use nara.Prelude.Sort.Insertion.{insertion}
use nara.Event.Signature.{verify_signature_base64, verify_signature}
use nara.Ledger.{SyncLedger}
use nara.Checkpoint.Latest.{Answers, get_checkpoint-latest}
use nara.Checkpoint.Verify.{verify_signature_with_counts}
use nara.Checkpoint.Verify.Voters.{repeated_voter_is_valid, verify-subject_unbound}
use nara.Checkpoint.Restarts.{derive_restart_count, is_restart_of}
use nara.Checkpoint.Restarts.Reports.{Reports, appended, derive_restart_count-repeated}
use nara.Checkpoint.Uptime.{derive_uptime_after, status_events, StatusEvent}
use nara.Checkpoint.Uptime.Bounds.{AreUntil, derive_uptime_after-bounds}
use nara.Tests.Data.{
  host, crypto, key, holding, checkpoint, checkpoint_event, observed, restart, status_change,
}

-- A checkpoint, a restart and a status change of one nara.
abbrev history : SyncLedger
history =
    holding 9 (observed "o" (restart "ann") ∷ observed "s" status_change ∷ checkpoint_event ∷ [])
      (λ k. true)

abbrev only_checkpoint : SyncLedger
only_checkpoint = holding 9 (checkpoint_event ∷ []) (λ k. true)

get_checkpoint-latest_example : Answers only_checkpoint "bob" (pos 7)
get_checkpoint-latest_example =
    get_checkpoint-latest only_checkpoint "bob" checkpoint_event checkpoint mem-cons_self
      (record { service = refl; checkpoint = refl; subject_is = refl }) refl

repeated_voter_is_valid_example :
    (verify_signature_with_counts crypto host (some (λ id name. some key)) checkpoint).valid ≡ true
unfolding verify_signature_base64 verify_signature
repeated_voter_is_valid_example =
    repeated_voter_is_valid crypto host (λ id name. some key) checkpoint "v" "s" key refl refl

verify-subject_unbound_example :
    verify_signature_with_counts crypto host
      (some (λ id name. some key))
      (record checkpoint { subject = "eve" })
    ≡ verify_signature_with_counts crypto host (some (λ id name. some key)) checkpoint
verify-subject_unbound_example =
    verify-subject_unbound crypto host (some (λ id name. some key)) checkpoint "eve"

Reports-restart :
    (id observer : String) → Reports "bob" (observed id (restart observer)) (restart observer)
unfolding is_restart_of
Reports-restart id observer = record { service = refl; observation = refl; restart = refl }

derive_restart_count-repeated_example :
    derive_restart_count (appended history (observed "p" (restart "cat"))) "bob"
    ≡ derive_restart_count history "bob"
derive_restart_count-repeated_example =
    derive_restart_count-repeated history "bob" (observed "o" (restart "ann"))
      (observed "p" (restart "cat")) (restart "ann") (restart "cat") mem-cons_self
      (Reports-restart "o" "ann") (Reports-restart "p" "cat") refl

changes-until : AreUntil 100 (status_events "bob" (pos 0) history.events)
unfolding status_events div_pos
changes-until e m = (
  0,
  eqb_ℤ→eq e.timestamp (pos 0) (
      Or.elim (Bool-set _ _) (mem-cons.0 m)
        (λ same. ap (λ (x : StatusEvent). eqb_ℤ x.timestamp (pos 0)) same)
        (λ nothing. absurd (not-mem-nil nothing))),
  omega arith,
)

derive_uptime_after-bounds_example :
    (n : ℕ) × (derive_uptime_after insertion history (pos 100) "bob" (pos 0) ≡ pos n) × (n ≤ 100)
derive_uptime_after-bounds_example =
    derive_uptime_after-bounds insertion history 100 "bob" (pos 0) (omega arith) changes-until
