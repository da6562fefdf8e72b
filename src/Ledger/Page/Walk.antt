-- ===== src/Ledger/Page/Walk.antt =====
-- What a page of `GetEventsPage` holds and what a walk along the cursors may miss.
use mathlib.Core.Bool.{Bool-set, true≢false}
use mathlib.Core.Option.{none-ne-some, some_inj}
use mathlib.Core.List.{
  Pairwise-append, mem-append, mem-cons, mem-cons_self, mem-cons_of_mem, not-mem-nil, Mem-prop,
}
use mathlib.Core.Logic.Or
use mathlib.Core.List.Perm
use nara.Prelude.{
  ℕ, ◌≤◌, ◌≡◌, refl, sym, ap, subst, ◌∙◌, inl, inr, Bool, true, false, not, ◌&&◌, Option, none,
  some, List, [], ◌∷◌, Mem, String, ◌==◌, arith, eq_iff, ltb, drop, take, length, length-take,
  take-append-drop, Bool-cases, Option-cases, if◌then◌else◌,
}
use nara.Prelude.Int.{ℤ, leb_ℤ, eqb_ℤ}
use nara.Prelude.Sort.{Sorter, IsSorted}
use nara.Event.{SyncEvent}
use nara.Event.Content.{Host}
use nara.Ledger.{SyncLedger, by_timestamp}
use nara.Ledger.Query.{keep_if}
use nara.Ledger.Prune.Order.{by_timestamp-IsStrictWeak}
use nara.Ledger.Page.{Page, passes_after, cursor_time, cut_page, last_time, get_events_page}

keep_if-mem :
    (p : SyncEvent → Option Bool) (xs : List SyncEvent) {ys : List SyncEvent} (e : SyncEvent)
    → keep_if p xs ≡ some ys
    → Mem e xs
    → p e ≡ some true
    → Mem e ys
unfolding keep_if
keep_if-mem p [] e q m wanted = absurd (not-mem-nil m)
keep_if-mem p (x ∷ xs) {ys} e q m wanted = elim (Option-cases (p x)) [
  | inl bad ↦ absurd (none-ne-some _ (rw bad at q))
  | inr (b, first) ↦ elim (Option-cases (keep_if p xs)) [
    | inl bad ↦ absurd (none-ne-some _ (rw (first, bad) at q))
    | inr (rest, later) ↦
        let found = some_inj.0 (rw (first, later) at q) in
        Or.elim Mem-prop (mem-cons.0 m)
          (λ same.
            elim b as (λ b. p x ≡ some b → (if b then x ∷ rest else rest) ≡ ys → Mem e ys) [
              | true ↦
                  λ _ eq. subst (Mem e) eq (subst (λ y. Mem y (x ∷ rest)) (sym same) mem-cons_self)
              | false ↦
                  λ is_false _. absurd (true≢false (some_inj.0 (sym wanted ∙ ap p same ∙ is_false)))
            ]
              first found)
          (λ tail. subst (Mem e) found (elim b as (λ b. Mem e (if b then x ∷ rest else rest)) [
            | true ↦ mem-cons_of_mem x (keep_if-mem p xs e later tail wanted)
            | false ↦ keep_if-mem p xs e later tail wanted
          ]))
  ]
]

-- A bound on every event of a list that is not empty bounds its last time.
last_time-bound :
    (es : List SyncEvent) (t : ℤ)
    → 1 ≤ length es
    → ((x : SyncEvent) → Mem x es → leb_ℤ x.timestamp t ≡ true)
    → leb_ℤ (last_time es) t ≡ true
last_time-bound [] t h b = absurd (omega arith)
last_time-bound (x ∷ []) t h b = b x mem-cons_self
last_time-bound (x ∷ y ∷ es) t h b =
    last_time-bound (y ∷ es) t (omega arith) (λ z m. b z (mem-cons_of_mem x m))

-- An event that is left behind by a cut of sorted events: there were more events than fit, and it
-- is not before the last that is kept.
cut_page-rest :
    (h : Host) (n : ℕ) (sorted : List SyncEvent) (e : SyncEvent)
    → IsSorted by_timestamp sorted
    → Mem e sorted
    → ¬ Mem e (cut_page h n sorted).events
    → ((cut_page h n sorted).next_cursor ≡ h.format_int (last_time (cut_page h n sorted).events))
      × (leb_ℤ (last_time (cut_page h n sorted).events) e.timestamp ≡ true)
unfolding cut_page by_timestamp
cut_page-rest h n sorted e s m out = elim (Bool-cases (ltb 0 n && ltb n (length sorted))) [
  | inr fits ↦ absurd (out (rw fits m))
  | inl more ↦
      let parts : IsSorted by_timestamp (take n sorted)
          × IsSorted by_timestamp (drop n sorted)
          × ((x : SyncEvent)
              → Mem x (take n sorted)
              → (y : SyncEvent) → Mem y (drop n sorted)
              → by_timestamp y x ≡ false) =
        (Pairwise-append (λ a b. Bool-set _ _)).0
          (subst (IsSorted by_timestamp) (sym (take-append-drop n sorted)) s) in
      let left : ¬ Mem e (take n sorted) = rw more at out in
      let behind : Mem e (drop n sorted) =
        Or.elim Mem-prop (mem-append.0 (subst (Mem e) (sym (take-append-drop n sorted)) m))
          (λ q. absurd (left q)) (λ q. q) in
      rw more (
        refl,
        last_time-bound (take n sorted) e.timestamp (ground (arith, more, length-take n sorted))
            λ x mx. ground (arith, parts.2 x mx e behind),
      )
]

cursor_time-format_int :
    (h : Host) (t : ℤ)
    → h.parse_int "" ≡ none
    → h.parse_int (h.format_int t) ≡ some t
    → cursor_time h (h.format_int t) ≡ t
unfolding cursor_time
cursor_time-format_int h t unread read = elim (Bool-cases (h.format_int t == "")) [
  | inl empty ↦ absurd (
      none-ne-some _
        (sym unread ∙ ap h.parse_int (sym ((eq_iff (h.format_int t) "").0 empty)) ∙ read))
  | inr full ↦ rw (full, read) refl
]

-- A walk along the cursors. If the empty string is no number and the page's last time can be read
-- back from its decimal form, then an event that passes the filters, lies after a page's cursor and is not
-- on that page is one that the page's next cursor leads to, unless its time is that of the page's
-- last event. In that case the next page, and so the walk, passes over it.
pub get_events_page-next :
    (sorter : Sorter) (h : Host) (l : SyncLedger) (cursor : String) (size : ℕ)
    (services subjects : List String) (page : Page) (e : SyncEvent)
    → get_events_page sorter h l cursor size services subjects ≡ some page
    → h.parse_int "" ≡ none
    → h.parse_int (h.format_int (last_time page.events)) ≡ some (last_time page.events)
    → Mem e l.events
    → passes_after (cursor_time h cursor) services subjects e ≡ some true
    → ¬ Mem e page.events
    → passes_after (cursor_time h page.next_cursor) services subjects e
      ≡ some (not (eqb_ℤ e.timestamp (last_time page.events)))
unfolding get_events_page passes_after
get_events_page-next sorter h l cursor size services subjects page e q unread read m wanted out =
    elim (Option-cases (keep_if (passes_after (cursor_time h cursor) services subjects) l.events)) [
      | inl bad ↦ absurd (none-ne-some _ (rw bad at q))
      | inr (filtered, found) ↦
          let sorted = sorter.sort_slice SyncEvent by_timestamp filtered in
          let same : cut_page h size sorted ≡ page = some_inj.0 (rw found at q) in
          let at : Mem e sorted =
            (Perm.mem_iff (sorter.sort_perm SyncEvent by_timestamp filtered)).1
              (keep_if-mem _ l.events e found m wanted) in
          let (next, after) =
            subst
              (λ (p : Page).
                (p.next_cursor ≡ h.format_int (last_time p.events))
                × (leb_ℤ (last_time p.events) e.timestamp ≡ true))
              same
              (cut_page-rest h size sorted e
                (sorter.sort_sorted SyncEvent by_timestamp filtered by_timestamp-IsStrictWeak) at
                (λ there. out (subst (λ (p : Page). Mem e p.events) same there))) in
          let time =
            ap (cursor_time h) next
            ∙ cursor_time-format_int h (last_time page.events) unread read in
          rw time (ground (arith, after, wanted))
    ]
