-- ===== src/Ledger/Page.antt =====
-- The reads of sync_ledger.go that serve other naras: slices, pages and the most recent events.
--
-- `none` is a nil-pointer panic. A slice index is not negative; a limit, a page size or a number of
-- slices that is negative in Go acts as 0 does, and is 0 here.
pub mod Walk
use nara.Prelude.{
  ℕ, zero, suc, ◌+◌, ◌-◌, ◌%◌, Bool, true, false, not, ◌&&◌, ◌||◌, Option, none, some, List, [],
  ◌∷◌, String, ◌==◌, leb, ltb, eqb, drop, take, length, get_elem?, if◌then◌else◌, ◌>>=◌,
}
use nara.Prelude.Int.{ℤ, pos, ltb_ℤ, leb_ℤ}
use nara.Prelude.Sort.{Sorter}
use nara.Event.{SyncEvent}
use nara.Event.Valid.{get_actor, get_target}
use nara.Event.Content.{Host}
use nara.Ledger.{SyncLedger, by_timestamp}
use nara.Ledger.Query.{keep_if}

-- The membership test of the sets that the filters build.
unfoldable pub has_string : String → List String → Bool
has_string s [] = false
has_string s (x ∷ xs) = let rest = has_string s xs in x == s || rest

-- `filterBySubject && !subjectSet[e.GetActor()] && !subjectSet[e.GetTarget()]`, negated
unfoldable pub passes_subject : List String → SyncEvent → Option Bool
unfolding has_string
passes_subject [] e = some true
passes_subject (s ∷ ss) e = get_actor e >>= λ actor.
    if has_string actor (s ∷ ss)
    then some true
    else (get_target e >>= λ target. some (has_string target (s ∷ ss)))

-- The filters by service and by subject.
unfoldable pub passes : List String → List String → SyncEvent → Option Bool
unfolding has_string passes_subject
passes [] subjects e = passes_subject subjects e
passes (s ∷ ss) subjects e =
    if has_string e.service (s ∷ ss) then passes_subject subjects e else some false

-- An event after a time that passes the filters.
unfoldable pub passes_after : ℤ → List String → List String → SyncEvent → Option Bool
unfolding passes
passes_after since services subjects e =
    if leb_ℤ e.timestamp since then some false else passes services subjects e

-- `i % sliceTotal == sliceIndex`, from the position `i` on
unfoldable pub slice_from : ℕ → ℕ → ℕ → List SyncEvent → List SyncEvent
slice_from i index total [] = []
slice_from i index total (e ∷ es) =
    let rest = slice_from (suc i) index total es in if eqb (i % total) index then e ∷ rest else rest

-- `Events[i].Timestamp > Events[j].Timestamp`
unfoldable pub newest_first : SyncEvent → SyncEvent → Bool
newest_first a b = ltb_ℤ b.timestamp a.timestamp

-- The page and the cursor of the page after it.
pub record Page : Type 0 where
  pub events : List SyncEvent
  pub next_cursor : String

-- `filtered[len(filtered)-1].Timestamp` of a page of `n` events
abbrev pub last_time : List SyncEvent → ℤ
last_time [] = pos 0
last_time (e ∷ []) = e.timestamp
last_time (e ∷ f ∷ es) = last_time (f ∷ es)

-- `parsed, err := strconv.ParseInt(cursor, 10, 64)`; an unreadable cursor counts as none.
unfoldable pub cursor_time : Host → String → ℤ
cursor_time h cursor =
    if cursor == "" then pos 0 else elim (h.parse_int cursor) [ none ↦ pos 0 | some t ↦ t ]

-- The cut to the page size and the cursor, of the sorted events.
unfoldable pub cut_page : Host → ℕ → List SyncEvent → Page
cut_page h size sorted =
    let has_more = ltb 0 size && ltb size (length sorted) in
    let events = if has_more then take size sorted else sorted in
    record {
      events = events;
      next_cursor =
          if has_more || (ltb 0 size && eqb (length events) size)
          then h.format_int (last_time events)
          else "";
    }

module _ (sorter : Sorter) where
  open sorter use {sort_slice}

  -- `GetEventsForSync`
  unfoldable pub get_events_for_sync :
      SyncLedger → List String → List String → ℤ → ℕ → ℕ → ℕ → Option (List SyncEvent)
  unfolding keep_if passes_after passes slice_from
  get_events_for_sync l services subjects since slice_index slice_total max = do
    filtered ←
        keep_if
          (λ e.
            if ltb_ℤ (pos 0) since
            then passes_after since services subjects e
            else passes services subjects e)
          l.events
    let sorted = sort_slice SyncEvent by_timestamp filtered
    let sliced =
        if ltb 1 slice_total && ltb slice_index slice_total
        then slice_from 0 slice_index slice_total sorted
        else sorted
    some
        (if ltb 0 max && ltb max (length sliced) then drop (length sliced - max) sliced else sliced)

  -- `GetEventsPage`
  unfoldable pub get_events_page :
      Host → SyncLedger → String → ℕ → List String → List String → Option Page
  unfolding keep_if passes_after cursor_time cut_page
  get_events_page h l cursor size services subjects = do
    filtered ← keep_if (passes_after (cursor_time h cursor) services subjects) l.events
    some (cut_page h size (sort_slice SyncEvent by_timestamp filtered))

  -- `GetRecentEvents`
  unfoldable pub get_recent_events :
      SyncLedger → ℕ → List String → List String → Option (List SyncEvent)
  unfolding keep_if passes newest_first
  get_recent_events l limit services subjects = do
    filtered ← keep_if (passes services subjects) l.events
    let sorted = sort_slice SyncEvent newest_first filtered
    some (if ltb 0 limit && ltb limit (length sorted) then take limit sorted else sorted)
