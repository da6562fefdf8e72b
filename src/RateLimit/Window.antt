-- ===== src/RateLimit/Window.antt =====
-- What the rate limiter promises: the bound on each subject's window and what the clean-up keeps.
use nara.Prelude.{
  ◌≤◌, ◌≡◌, refl, ◌&&◌, none, some, List, [], ◌∷◌, ◌++◌, String, ◌==◌, eq_iff, arith, leb, ltb,
  length, length-append, if◌then◌else◌, Bool-cases, inl, inr,
}
use nara.Prelude.Int.{ℤ, sub64}
use nara.Prelude.Dict.{Dict, lookup, lookup_or, DistinctKeys, lookup_or-insert}
use nara.RateLimit.{ObservationRateLimit, in_window, check_and_add, cleanup_counts, cleanup}

-- The times that the limiter holds for a subject.
abbrev pub times_of : ObservationRateLimit → String → List ℤ
times_of r s = lookup_or [] s r.subject_counts

-- The times of a subject that a call at the given time still counts.
abbrev pub active : ObservationRateLimit → String → ℤ → List ℤ
active r s t = in_window (sub64 t r.window_sec) (times_of r s)

-- A call is admitted exactly when fewer than the maximum of the subject's times lie in the window
-- before it. When it is, the subject's times become those and the new one; every other subject's
-- are left. When it is not, nothing changes.
check_and_add_lem :
    (r : ObservationRateLimit) (s j : String) (t : ℤ)
    → ((check_and_add r s t).1 ≡ ltb (length (active r s t)) r.max_events)
      × (times_of (check_and_add r s t).0 j
          ≡ (if (check_and_add r s t).1 && s == j then active r s t ++ t ∷ [] else times_of r j))
unfolding check_and_add
check_and_add_lem r s j t = elim (Bool-cases (leb r.max_events (length (active r s t)))) [
  | inl e ↦ rw e (ground arith, refl)
  | inr e ↦ rw e (ground arith, lookup_or-insert [] s j (active r s t ++ t ∷ []) r.subject_counts)
]

-- No subject ever holds more times than the maximum.
abbrev pub IsBounded : ObservationRateLimit → Type 0
IsBounded r = (s : String) → length (times_of r s) ≤ r.max_events

-- Where no subject has more times in the limiter than the maximum, none has more after
-- `CheckAndAdd`, whether it admits the event or not.
pub check_and_add-IsBounded :
    (r : ObservationRateLimit) (s : String) (t : ℤ)
    → IsBounded r
    → IsBounded (check_and_add r s t).0
unfolding check_and_add
check_and_add-IsBounded r s t b j = ground (
  arith,
  b j,
  lookup_or-insert [] s j (active r s t ++ t ∷ []) r.subject_counts,
  length-append (active r s t) (t ∷ []),
)

lookup-cleanup_counts :
    (start : ℤ) (s : String) (m : Dict (List ℤ))
    → DistinctKeys m
    → lookup s (cleanup_counts start m) ≡ (
        if leb (length (in_window start (lookup_or [] s m))) 0
        then none
        else some (in_window start (lookup_or [] s m)))
unfolding lookup_or lookup cleanup_counts in_window
lookup-cleanup_counts start s [] d = refl
lookup-cleanup_counts start s ((j, ts) ∷ m) d =
    ground (arith, lookup-cleanup_counts start s m d.1, eq_iff j s, d.0)

-- After a clean-up at a time a subject has an entry exactly when one of its times lies in the
-- window before that time, and the entry is those times: no empty entry stays.
cleanup_lem :
    (r : ObservationRateLimit) (now : ℤ) (s : String)
    → DistinctKeys r.subject_counts
    → lookup s (cleanup r now).subject_counts
      ≡ (if leb (length (active r s now)) 0 then none else some (active r s now))
unfolding cleanup
cleanup_lem r now s d = lookup-cleanup_counts (sub64 now r.window_sec) s r.subject_counts d
