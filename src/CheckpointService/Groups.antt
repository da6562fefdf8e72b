-- ===== src/CheckpointService/Groups.antt =====
-- The group of votes that `tryFindConsensus` settles on.
use mathlib.Core.List.{mem-cons, mem-cons_self, mem-cons_of_mem, mem-append, not-mem-nil, Mem-prop}
use mathlib.Core.List.Perm
use mathlib.Core.Logic.Or
use mathlib.Core.Bool.{Bool-set}
use mathlib.Core.HLevel.{Π_prop, ×_prop}
use native.Mathlib.Bridge.{le_prop}
use nara.Prelude.{
  ℕ, ◌+◌, ◌≤◌, ◌≡◌, refl, sym, ap, subst, ◌∙◌, inl, inr, Bool, true, false, List, [], ◌∷◌, ◌++◌,
  Mem, eq_iff, arith, length, length-append, keep, mem-keep, count_if, Bool-cases, if◌then◌else◌,
}
use nara.Prelude.Int.{eqb_ℤ→eq}
use nara.Prelude.Sort.{Sorter}
use nara.CheckpointService.{CheckpointProposal, CheckpointVote}
use nara.CheckpointService.Consensus.{
  MapRange, ValueKey, Group, same_key, key_of, zero_key, add_to_group, group_all, best_group, beats,
  or_approvals, winner,
}

pub same_key→eq : (a b : ValueKey) → same_key a b ≡ true → a ≡ b
unfolding same_key
same_key→eq a b e = ground (
  arith,
  eqb_ℤ→eq a.restarts b.restarts,
  eqb_ℤ→eq a.total_uptime b.total_uptime,
  eqb_ℤ→eq a.first_seen b.first_seen,
  eq_iff a.last_seen_checkpoint_id b.last_seen_checkpoint_id,
)

pub same_key_refl : (k : ValueKey) → same_key k k ≡ true
unfolding same_key
same_key_refl k = ground (arith, eq_iff k.last_seen_checkpoint_id k.last_seen_checkpoint_id)

-- All votes of a group are among those given, and sign the values of its key.
abbrev pub IsGroupOf : List CheckpointVote → Group → Type 0
IsGroupOf votes g =
    (v : CheckpointVote)
    → Mem v g.group_votes
    → Mem v votes × (same_key g.group_key (key_of v.attestation) ≡ true)

IsGroupOf-prop : (votes : List CheckpointVote) (g : Group) → IsProp (IsGroupOf votes g)
IsGroupOf-prop votes g = Π_prop λ v. Π_prop λ m. ×_prop Mem-prop (Bool-set _ _)

add_vote-IsGroupOf :
    (votes before : List CheckpointVote) (k : ValueKey) (v : CheckpointVote)
    → Mem v votes
    → same_key k (key_of v.attestation) ≡ true
    → IsGroupOf votes (record { group_key = k; group_votes = before })
    → IsGroupOf votes (record { group_key = k; group_votes = before ++ v ∷ [] })
add_vote-IsGroupOf votes before k v here same good w m =
    Or.elim (×_prop Mem-prop (Bool-set _ _)) (mem-append.0 m) (good w) (λ last.
      Or.elim (×_prop Mem-prop (Bool-set _ _)) (mem-cons.0 last)
        (λ e.
          subst (λ (x : CheckpointVote). Mem x votes × (same_key k (key_of x.attestation) ≡ true))
            (sym e) (here, same))
        (λ nothing. absurd (not-mem-nil nothing)))

add_to_group-IsGroupOf :
    (votes : List CheckpointVote) (v : CheckpointVote) (gs : List Group)
    → Mem v votes
    → ((g : Group) → Mem g gs → IsGroupOf votes g)
    → (g : Group) → Mem g (add_to_group v gs)
    → IsGroupOf votes g
unfolding add_to_group
add_to_group-IsGroupOf votes v [] here all g m =
    let k = key_of v.attestation in
    Or.elim (IsGroupOf-prop votes g) (mem-cons.0 m)
      (λ same.
        subst (IsGroupOf votes) (sym same)
          (add_vote-IsGroupOf votes [] k v here (same_key_refl k) (λ w n. absurd (not-mem-nil n))))
      (λ nothing. absurd (not-mem-nil nothing))
add_to_group-IsGroupOf votes v (f ∷ gs) here all g m =
    elim (Bool-cases (same_key f.group_key (key_of v.attestation))) [
      | inl match ↦
          Or.elim (IsGroupOf-prop votes g) (mem-cons.0 (rw match at m))
            (λ same. subst (IsGroupOf votes) (sym same) (
              add_vote-IsGroupOf votes f.group_votes f.group_key v here match
                (all f mem-cons_self)))
            (λ later. all g (mem-cons_of_mem f later))
      | inr other ↦
          Or.elim (IsGroupOf-prop votes g) (mem-cons.0 (rw other at m))
            (λ same. subst (IsGroupOf votes) (sym same) (all f mem-cons_self))
            (add_to_group-IsGroupOf votes v gs here (λ x n. all x (mem-cons_of_mem f n)) g)
    ]

group_all-IsGroupOf :
    (votes : List CheckpointVote) (gs : List Group) (vs : List CheckpointVote)
    → ((v : CheckpointVote) → Mem v vs → Mem v votes)
    → ((g : Group) → Mem g gs → IsGroupOf votes g)
    → (g : Group) → Mem g (group_all gs vs)
    → IsGroupOf votes g
unfolding group_all
group_all-IsGroupOf votes gs [] sub all = all
group_all-IsGroupOf votes gs (v ∷ vs) sub all =
    group_all-IsGroupOf votes (add_to_group v gs) vs (λ w m. sub w (mem-cons_of_mem v m))
      (add_to_group-IsGroupOf votes v gs (sub v mem-cons_self) all)

-- The size of the first group with a key.
held : ValueKey → List Group → ℕ
held k [] = 0
held k (g ∷ gs) =
    let rest = held k gs in if same_key k g.group_key then length g.group_votes else rest

-- Whether a vote signs the values of a key.
abbrev pub signs : ValueKey → CheckpointVote → Bool
signs k v = same_key k (key_of v.attestation)

held_nothing : (k : ValueKey) → held k [] ≡ 0
unfolding held
held_nothing k = refl

other_key : (k a b : ValueKey) → same_key k a ≡ true → same_key a b ≡ false → same_key k b ≡ false
other_key k a b same other = elim (Bool-cases (same_key k b)) [
  | inl e ↦ e ∙ sym (subst (λ x. same_key x b ≡ true) (same_key→eq k a same) e) ∙ other
  | inr e ↦ e
]

held-add_to_group :
    (k : ValueKey) (v : CheckpointVote) (gs : List Group)
    → held k (add_to_group v gs) ≡ held k gs + (if signs k v then 1 else 0)
unfolding held add_to_group
held-add_to_group k v [] = ground arith
held-add_to_group k v (g ∷ gs) = elim (Bool-cases (same_key g.group_key (key_of v.attestation))) [
  | inl match ↦ rw match (
      ground (
        arith,
        length-append g.group_votes (v ∷ []),
        ap (same_key k) (same_key→eq g.group_key (key_of v.attestation) match),
      ))
  | inr other ↦ elim (Bool-cases (same_key k g.group_key)) [
    | inl first ↦ rw (other, first, other_key k _ _ first other) (omega arith)
    | inr later ↦ rw (other, later) (held-add_to_group k v gs)
  ]
]

held-group_all :
    (k : ValueKey) (gs : List Group) (vs : List CheckpointVote)
    → held k (group_all gs vs) ≡ held k gs + count_if (signs k) vs
unfolding group_all count_if
held-group_all k gs [] = omega arith
held-group_all k gs (v ∷ vs) =
    ground (arith, held-group_all k (add_to_group v gs) vs, held-add_to_group k v gs)

held-mem :
    (k : ValueKey) (gs : List Group)
    → 1 ≤ held k gs
    → (g : Group) × Mem g gs × (length g.group_votes ≡ held k gs)
unfolding held
held-mem k [] h = absurd (omega arith)
held-mem k (g ∷ gs) h = elim (Bool-cases (same_key k g.group_key)) [
  | inl match ↦ (g, mem-cons_self, rw match refl)
  | inr other ↦
      let (f, m, e) = held-mem k gs (rw other at h) in (f, mem-cons_of_mem g m, rw other e)
]

abbrev larger : Group → Group → Group
larger g best = if beats g.group_votes best then g else best

larger-left : (g best : Group) → length best.group_votes ≤ length (larger g best).group_votes
larger-left g best = ground arith

larger-right :
    (g best : Group)
    → 5 ≤ length g.group_votes
    → length g.group_votes ≤ length (larger g best).group_votes
larger-right g best h = ground (arith, h)

larger-IsGroupOf :
    (votes : List CheckpointVote) (g best : Group)
    → IsGroupOf votes g
    → IsGroupOf votes best
    → IsGroupOf votes (larger g best)
larger-IsGroupOf votes g best v w =
    elim (beats g.group_votes best) as (λ b. IsGroupOf votes (if b then g else best)) [
      | true ↦ v
      | false ↦ w
    ]

best_group-grows :
    (best : Group) (gs : List Group)
    → length best.group_votes ≤ length (best_group best gs).group_votes
unfolding best_group
best_group-grows best [] = omega arith
best_group-grows best (g ∷ gs) =
    omega (arith, larger-left g best, best_group-grows (larger g best) gs)

best_group-ge :
    (best : Group) (gs : List Group) (g : Group)
    → Mem g gs
    → 5 ≤ length g.group_votes
    → length g.group_votes ≤ length (best_group best gs).group_votes
unfolding best_group
best_group-ge best [] g m h = absurd (not-mem-nil m)
best_group-ge best (f ∷ gs) g m h =
    Or.elim le_prop (mem-cons.0 m)
      (λ same.
        subst (λ x. length x.group_votes ≤ length (best_group (larger f best) gs).group_votes)
          (sym same)
          (omega (
            arith,
            larger-right f best (subst (λ x. 5 ≤ length x.group_votes) same h),
            best_group-grows (larger f best) gs,
          )))
      (λ later. best_group-ge (larger f best) gs g later h)

best_group-IsGroupOf :
    (votes : List CheckpointVote) (best : Group) (gs : List Group)
    → IsGroupOf votes best
    → ((g : Group) → Mem g gs → IsGroupOf votes g)
    → IsGroupOf votes (best_group best gs)
unfolding best_group
best_group-IsGroupOf votes best [] own all = own
best_group-IsGroupOf votes best (g ∷ gs) own all =
    best_group-IsGroupOf votes (larger g best) gs
      (larger-IsGroupOf votes g best (all g mem-cons_self) own) (λ f m. all f (mem-cons_of_mem g m))

-- Where those who approve the proposal sign its values, all votes of the group that wins sign the
-- values of its key.
pub winner-IsGroupOf :
    (sorter : Sorter) (range : MapRange) (p : CheckpointProposal) (votes : List CheckpointVote)
    → ((v : CheckpointVote)
        → Mem v votes
        → v.approved ≡ true
        → signs (key_of p.attestation) v ≡ true)
    → IsGroupOf votes (winner sorter range p votes)
unfolding winner or_approvals
winner-IsGroupOf sorter range p votes honest =
    let none_yet : Group = record { group_key = zero_key; group_votes = [] } in
    let best = best_group none_yet (range.entries Group (group_all [] votes)) in
    let perm = range.entries_perm Group (group_all [] votes) in
    let good : IsGroupOf votes best =
      best_group-IsGroupOf votes none_yet _ (λ v m. absurd (not-mem-nil m))
        (λ g m.
          group_all-IsGroupOf votes [] votes (λ v n. n) (λ f n. absurd (not-mem-nil n)) g
            ((Perm.mem_iff perm).0 m)) in
    elim (Bool-cases (beats (keep (λ (v : CheckpointVote). v.approved) votes) best)) [
      | inr fewer ↦ rw fewer good
      | inl more ↦
          rw more (λ v m. let (at, approves) = (mem-keep _ votes).0 m in (at, honest v at approves))
    ]

-- Where at least five votes sign the same values, the group that wins has at least five votes.
pub winner-size :
    (sorter : Sorter) (range : MapRange) (p : CheckpointProposal) (votes : List CheckpointVote)
    (k : ValueKey)
    → 5 ≤ count_if (signs k) votes
    → 5 ≤ length (winner sorter range p votes).group_votes
unfolding winner or_approvals
winner-size sorter range p votes k h =
    let none_yet : Group = record { group_key = zero_key; group_votes = [] } in
    let best = best_group none_yet (range.entries Group (group_all [] votes)) in
    let perm = range.entries_perm Group (group_all [] votes) in
    let (g, m, size) =
      held-mem k (group_all [] votes)
        (omega (arith, h, held-group_all k [] votes, held_nothing k)) in
    let large : 5 ≤ length g.group_votes =
      omega (arith, h, size, held-group_all k [] votes, held_nothing k) in
    let largest : length g.group_votes ≤ length best.group_votes =
      best_group-ge none_yet (range.entries Group (group_all [] votes)) g ((Perm.mem_iff perm).1 m)
        large in
    elim (Bool-cases (beats (keep (λ (v : CheckpointVote). v.approved) votes) best)) [
      | inr fewer ↦ rw fewer (omega (arith, large, largest))
      | inl more ↦ rw more (ground (arith, more))
    ]
