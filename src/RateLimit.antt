-- ===== src/RateLimit.antt =====
-- `ObservationRateLimit` of sync_ledger.go: a sliding window of event times for each subject.
-- The mutex makes each method one step. The time is an argument.
pub mod Window
use nara.Prelude.{
  ℕ, Bool, true, false, not, List, [], ◌∷◌, ◌++◌, String, ltb, leb, keep, length, if◌then◌else◌,
}
use nara.Prelude.Int.{ℤ, pos, leb_ℤ, sub64}
use nara.Prelude.Dict.{Dict, lookup_or, insert}

pub record ObservationRateLimit : Type 0 where
  pub subject_counts : Dict (List ℤ)
  pub window_sec : ℤ
  pub max_events : ℕ

-- `NewObservationRateLimit`
abbrev pub new_rate_limit : ObservationRateLimit
new_rate_limit = record { subject_counts = []; window_sec = pos 300; max_events = 10 }

-- The times that are not before the start of the window.
unfoldable pub in_window : ℤ → List ℤ → List ℤ
unfolding keep
in_window start times = keep (λ t. leb_ℤ start t) times

-- `CheckAndAdd`
unfoldable pub check_and_add : ObservationRateLimit → String → ℤ → ObservationRateLimit × Bool
unfolding in_window lookup_or sub64
check_and_add r subject timestamp =
    let valid = in_window (sub64 timestamp r.window_sec) (lookup_or [] subject r.subject_counts) in
    if leb r.max_events (length valid) then (r, false) else (
      record r { subject_counts = insert subject (valid ++ timestamp ∷ []) r.subject_counts },
      true,
    )

-- The loop of `Cleanup` over the map.
unfoldable pub cleanup_counts : ℤ → Dict (List ℤ) → Dict (List ℤ)
unfolding in_window
cleanup_counts start [] = []
cleanup_counts start ((subject, times) ∷ m) =
    let valid = in_window start times in
    let rest = cleanup_counts start m in
    if leb (length valid) 0 then rest else (subject, valid) ∷ rest

-- `Cleanup`
unfoldable pub cleanup : ObservationRateLimit → ℤ → ObservationRateLimit
unfolding cleanup_counts sub64
cleanup r now = record r {
  subject_counts = cleanup_counts (sub64 now r.window_sec) r.subject_counts;
}
