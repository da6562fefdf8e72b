-- ===== src/Checkpoint/Uptime/Bounds.antt =====
-- The range of the uptime that `DeriveUptimeAfter` gives.
use mathlib.Core.List.{mem-cons_self, mem-cons_of_mem, Pairwise-cons}
use mathlib.Core.List.Perm
use nara.Prelude.{
  ℕ, ◌+◌, ◌-◌, ◌≤◌, ◌<◌, ◌≡◌, refl, ap, ap₂, ◌∙◌, ◌⊎◌, inl, inr, true, ◌&&◌, ◌||◌, List, [], ◌∷◌,
  Mem, String, ◌==◌, arith, Bool-cases,
}
use nara.Prelude.Int.{add64-pos, sub64-pos, ℤ, pos, ltb_ℤ, leb_ℤ, eqb_ℤ, add64, sub64, two_63}
use nara.Prelude.Sort.{Sorter, IsSorted, IsStrictWeak}
use nara.Ledger.{SyncLedger}
use nara.Checkpoint.Uptime.{
  StatusEvent, Uptime, scan_status, scan_statuses, close_period, status_events, earlier_status,
  derive_uptime_after,
}

-- A scan up to a time: the uptime so far fits before the open period, and that before the time.
record IsWithin (time : ℕ) (s : Uptime) : Type 0 where
  total : ℕ
  start : ℕ
  uptime : s.uptime ≡ pos total
  online_start : s.online_start ≡ pos start
  start_le : start ≤ time
  total_le : total ≤ time
  apart : (start ≡ 0) ⊎ (total ≤ start)

later : (time t : ℕ) (s : Uptime) → time ≤ t → IsWithin time s → IsWithin t s
later time t s h w = record {
  total = w.total;
  start = w.start;
  uptime = w.uptime;
  online_start = w.online_start;
  start_le = ground (arith, h, w.start_le);
  total_le = ground (arith, h, w.total_le);
  apart = w.apart;
}

-- The uptime after the open period is closed at a time.
close_at :
    (time t : ℕ) (s : Uptime)
    → time ≤ t
    → t < two_63
    → ltb_ℤ (pos 0) s.online_start ≡ true
    → IsWithin time s
    → (n : ℕ) × (add64 s.uptime (sub64 (pos t) s.online_start) ≡ pos n) × (n ≤ t)
close_at time t s h k open_period w = (
  w.total + (t - w.start),
  ap₂ (λ u o. add64 u (sub64 (pos t) o)) w.uptime w.online_start
      ∙ ap (add64 (pos w.total)) (sub64-pos t w.start (ground (arith, w.start_le)) k)
      ∙ add64-pos w.total (t - w.start)
          (ground (arith, w.apart, w.start_le, w.online_start, open_period)),
  ground (arith, w.apart, w.start_le, w.online_start, open_period),
)

scan_status-IsWithin :
    (time t : ℕ) (s : Uptime) (e : StatusEvent)
    → e.timestamp ≡ pos t
    → time ≤ t
    → t < two_63
    → IsWithin time s
    → IsWithin t (scan_status s e)
unfolding scan_status
scan_status-IsWithin time t s e at h k w =
    elim (Bool-cases (e.state == "ONLINE" && eqb_ℤ s.online_start (pos 0))) [
      | inl opens ↦ rw opens record {
        total = w.total;
        start = t;
        uptime = w.uptime;
        online_start = at;
        start_le = omega arith;
        total_le = omega (arith, w.total_le, h);
        apart = inr (omega (arith, w.total_le, h));
      }
      | inr stays ↦
          rw stays
            elim (Bool-cases
              ((e.state == "OFFLINE" || e.state == "MISSING") && ltb_ℤ (pos 0) s.online_start)) [
                | inr other ↦ rw other (later time t s h w)
                | inl closes ↦
                    rw closes
                      let (n, sum, bound) = close_at time t s h k (ground (arith, closes)) w in
                        record {
                          total = n;
                          start = 0;
                          uptime = ap (λ ts. add64 s.uptime (sub64 ts s.online_start)) at ∙ sum;
                          online_start = refl;
                          start_le = omega arith;
                          total_le = bound;
                          apart = inl refl;
                        }
              ]
    ]

-- The status changes at times between 0 and `now`.
abbrev pub AreUntil : ℕ → List StatusEvent → Type 0
AreUntil now es = (e : StatusEvent) → Mem e es → (t : ℕ) × (e.timestamp ≡ pos t) × (t ≤ now)

scan_statuses-IsWithin :
    (now time : ℕ) (s : Uptime) (es : List StatusEvent)
    → now < two_63
    → time ≤ now
    → AreUntil now es
    → ((e : StatusEvent) → Mem e es → leb_ℤ (pos time) e.timestamp ≡ true)
    → IsSorted earlier_status es
    → IsWithin time s
    → IsWithin now (scan_statuses s es)
unfolding scan_statuses earlier_status
scan_statuses-IsWithin now time s [] small le until after sorted w = later time now s le w
scan_statuses-IsWithin now time s (e ∷ es) small le until after sorted w =
    let (t, at, bound) = until e mem-cons_self in
    let (first, rest) = Pairwise-cons.0 sorted in
    scan_statuses-IsWithin now t (scan_status s e) es small bound
      (λ x m. until x (mem-cons_of_mem e m)) (λ x m. ground (arith, first x m, at)) rest
      (scan_status-IsWithin time t s e at (ground (arith, after e mem-cons_self, at))
        (omega (arith, bound, small)) w)

earlier_status-IsStrictWeak : IsStrictWeak StatusEvent earlier_status
unfolding earlier_status
earlier_status-IsStrictWeak = record {
  asym = λ x y h. ground arith;
  neg_trans = λ x y z h k. ground arith;
}

-- If the subject's counted status changes lie between the epoch and the present, and the present
-- fits an `int64`, then the uptime is a number of seconds from 0 to the present: no open period is
-- counted twice, none is negative and the sum does not wrap around.
pub derive_uptime_after-bounds :
    (sorter : Sorter) (l : SyncLedger) (now : ℕ) (subject : String) (after : ℤ)
    → now < two_63
    → AreUntil now (status_events subject after l.events)
    → (n : ℕ) × (derive_uptime_after sorter l (pos now) subject after ≡ pos n) × (n ≤ now)
unfolding derive_uptime_after close_period
derive_uptime_after-bounds sorter l now subject after small until =
    let es = status_events subject after l.events in
    let sorted = sorter.sort_slice StatusEvent earlier_status es in
    let p = sorter.sort_perm StatusEvent earlier_status es in
    let initial : Uptime = record { uptime = pos 0; online_start = pos 0 } in
    let within : AreUntil now sorted = λ e m. until e ((Perm.mem_iff p).0 m) in
    let final = scan_statuses initial sorted in
    let w : IsWithin now final =
      scan_statuses-IsWithin now 0 initial sorted small (omega arith) within
        (λ e m. ground (arith, within e m))
        (sorter.sort_sorted StatusEvent earlier_status es earlier_status-IsStrictWeak)
        (record {
          total = 0;
          start = 0;
          uptime = refl;
          online_start = refl;
          start_le = omega arith;
          total_le = omega arith;
          apart = inl refl;
        }) in
    elim (Bool-cases (ltb_ℤ (pos 0) final.online_start)) [
      | inl still ↦ rw still (close_at now now final (omega arith) small still w)
      | inr over ↦ rw over (w.total, w.uptime, w.total_le)
    ]
