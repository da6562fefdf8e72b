-- ===== src/Tests/Created.antt =====
-- Events that the constructors give, a signature by a test keypair, and a run of the ledger.
use nara.Prelude.{
  ◌≡◌, refl, subst, some, true, false, not, [], ◌∷◌, ◌&&◌, ◌||◌, ◌==◌, arith, eq_iff,
}
use nara.Prelude.Int.{pos}
use nara.Event.{SyncEvent, payload}
use nara.Event.Content.{payload_content}
use nara.Event.Create.{Sign, new_ping_sync_event, sign_event}
use nara.Event.Create.Exact.{IsExact, Made, Made-IsExact}
use nara.Event.Create.Signed.{IsKeyOf, verify_event, sign_event-verifies}
use nara.Event.Valid.{is_valid, payload_valid, ping_valid}
use nara.Prelude.Sort.Insertion.{insertion}
use nara.Ledger.{
  SyncLedger, new_sync_ledger, should_filter_checkpoint, store_event, set_id, notify_listeners,
  set_unknown_nara_checker, prune_before, is_event_from_unknown_nara, event_pruning_priority,
  by_timestamp, delete_all,
}
use nara.Ledger.Prune.{prune_unlocked, prune_sorted, count_removable}
use nara.Ledger.Invariant.{IsIndexed}
use nara.Ledger.Add.{
  add_event, with_id, limit_pings, make_room, append_and_prune, add_identified, scan_ping,
  scan_pings, is_ping_to,
}
use nara.Ledger.Runs.{LedgerRun, LedgerStep, LedgerRun-IsIndexed}
use nara.Tests.Data.{host, crypto, key, bytes_64, ping_at, holding}

abbrev made_ping : SyncEvent
made_ping = record (ping_at "00" 10) { emitter = "" }

made : new_ping_sync_event crypto host (pos 10) "ann" "bob" 1 ≡ some made_ping
unfolding new_ping_sync_event payload payload_content
made = refl

Made-IsExact_example : IsExact host made_ping
Made-IsExact_example = Made-IsExact crypto host made_ping (Made.ping (pos 10) "ann" "bob" 1 made)

abbrev sign : Sign
sign = λ message. "sig"

key-IsKeyOf : IsKeyOf crypto host sign key
key-IsKeyOf = record {
  key_size = refl;
  not_empty = λ m e. ground (arith, eq_iff "sig" "", e);
  signature = λ m. bytes_64;
  decoded = λ m. refl;
  signature_size = λ m. refl;
  good = λ m. refl;
}

abbrev signed_ping : SyncEvent
signed_ping = record made_ping { emitter = "ann"; signature = "sig" }

signed : sign_event crypto host sign "ann" made_ping ≡ some signed_ping
unfolding sign_event payload payload_content
signed = refl

sign_event-verifies_example :
    verify_event crypto host (some (λ id name. some key)) signed_ping ≡ some true
unfolding payload
sign_event-verifies_example =
    sign_event-verifies crypto host sign "ann" made_ping signed_ping (some (λ id name. some key))
      key key-IsKeyOf (λ e. ground (arith, eq_iff "ann" "", e)) signed refl

-- A ledger for one event, with one ping.
abbrev one_ping : SyncLedger
one_ping = record (holding 1 (ping_at "a" 10 ∷ []) (λ k. "a" == k || false)) {
  notified = ping_at "a" 10 ∷ [];
}

added : add_event insertion host (new_sync_ledger 1) (ping_at "a" 10) ≡ some (one_ping, true)
unfolding add_event with_id add_identified make_room limit_pings scan_ping scan_pings is_ping_to
    append_and_prune is_valid payload payload_valid ping_valid should_filter_checkpoint store_event
    set_id notify_listeners prune_unlocked new_sync_ledger
added = refl

-- Cat is unknown, and her later ping is given up for the one that is there.
abbrev guarded : SyncLedger
guarded = record one_ping { is_unknown_nara = some (λ name. name == "cat") }

checked : set_unknown_nara_checker one_ping (λ name. name == "cat") ≡ guarded
unfolding set_unknown_nara_checker
checked = refl

abbrev ping_of_cat : SyncEvent
ping_of_cat = record (ping_at "c" 20) {
  ping = some (record { observer = "cat"; target = "bob"; rtt = 1 });
}

abbrev pruned : SyncLedger
pruned = record guarded {
  event_ids = λ k. not ("c" == k) && ("c" == k || ("a" == k || false));
  version = 1;
  notified = ping_at "a" 10 ∷ ping_of_cat ∷ [];
}

added_unknown : add_event insertion host guarded ping_of_cat ≡ some (pruned, true)
unfolding add_event with_id add_identified make_room limit_pings scan_ping scan_pings is_ping_to
    append_and_prune is_valid payload payload_valid ping_valid should_filter_checkpoint store_event
    set_id notify_listeners prune_unlocked insertion prune_sorted count_removable prune_before
    is_event_from_unknown_nara event_pruning_priority by_timestamp delete_all
added_unknown = refl

LedgerRun-IsIndexed_example : IsIndexed pruned
LedgerRun-IsIndexed_example = LedgerRun-IsIndexed insertion host 1 pruned (
    LedgerRun.next
      (LedgerRun.next (LedgerRun.next LedgerRun.start (LedgerStep.adds (ping_at "a" 10) true added))
        (subst (LedgerStep insertion host one_ping) checked
          (LedgerStep.sets_checker (λ name. name == "cat"))))
      (LedgerStep.adds ping_of_cat true added_unknown))
