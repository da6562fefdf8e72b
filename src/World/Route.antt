-- ===== src/World/Route.antt =====
-- The way that `ChooseNextNara` of world.go sends a message.
use mathlib.Core.List.{mem-cons, mem-cons_self, not-mem-nil}
use mathlib.Core.List.Perm
use mathlib.Core.Logic.Or
use native.Mathlib.Bridge.{le_prop}
use nara.Prelude.{
  ℕ, ◌≤◌, ◌<◌, ◌≡◌, ◌⊎◌, refl, ap, subst, inl, inr, Bool, true, false, not, ◌&&◌, some, List, [],
  ◌∷◌, ◌++◌, map, Mem, Perm, String, ◌==◌, eq_iff, arith, keep, mem-keep, count_if, Bool-cases,
  if◌then◌else◌,
}
use nara.Prelude.Int.{ℤ}
use nara.Prelude.Sort.{Sorter}
use nara.Event.Content.{Host}
use nara.Event.Signature.{Crypto}
use nara.World.{
  WorldHop, WorldMessage, WorldHost, Candidate, hops_of, any_hop, has_visited, last_hop,
  is_complete, add_hop, data_to_sign, may_visit, candidates_of, choose_next_nara, any_name,
}

-- A nara other than the originator that has no hop yet.
unfoldable pub is_left : WorldMessage → String → Bool
unfolding has_visited
is_left wm nara = not (nara == wm.originator) && not (has_visited wm nara)

count_if_mono :
    {A : Type 0} (p q : A → Bool) (xs : List A)
    → ((x : A) → p x ≡ true → q x ≡ true)
    → count_if p xs ≤ count_if q xs
unfolding count_if
count_if_mono p q [] sub = omega arith
count_if_mono p q (x ∷ xs) sub = ground (arith, sub x, count_if_mono p q xs sub)

count_if-less :
    {A : Type 0} (p q : A → Bool) (xs : List A) (y : A)
    → ((x : A) → p x ≡ true → q x ≡ true)
    → p y ≡ false
    → q y ≡ true
    → Mem y xs
    → count_if p xs < count_if q xs
unfolding count_if
count_if-less p q [] y sub out here m = absurd (not-mem-nil m)
count_if-less p q (x ∷ xs) y sub out here m =
    Or.elim le_prop (mem-cons.0 m)
      (λ same.
        let out_here : p x ≡ false = subst (λ z. p z ≡ false) same out in
        let in_here : q x ≡ true = subst (λ z. q z ≡ true) same here in
        ground (arith, out_here, in_here, count_if_mono p q xs sub))
      (λ later. ground (arith, sub x, count_if-less p q xs y sub out here later))

any_hop-append :
    (nara : String) (hops : List WorldHop) (hop : WorldHop)
    → any_hop nara (hops ++ hop ∷ []) ≡ (if any_hop nara hops then true else hop.nara == nara)
unfolding any_hop
any_hop-append nara [] hop = ground arith
any_hop-append nara (x ∷ hops) hop = ground (arith, any_hop-append nara hops hop)

last_hop-append : (hops : List WorldHop) (hop : WorldHop) → last_hop (hops ++ hop ∷ []) ≡ some hop
unfolding last_hop
last_hop-append [] hop = refl
last_hop-append (x ∷ []) hop = refl
last_hop-append (x ∷ y ∷ hops) hop = last_hop-append (y ∷ hops) hop

abbrev with_hop : WorldMessage → WorldHop → WorldMessage
with_hop wm hop = record wm { hops = some (hops_of wm.hops ++ hop ∷ []) }

hop_home :
    (wm : WorldMessage) (hop : WorldHop)
    → hop.nara ≡ wm.originator
    → is_complete (with_hop wm hop) ≡ true
unfolding is_complete
hop_home wm hop e =
    rw (is_complete, last_hop-append (hops_of wm.hops) hop) ((eq_iff hop.nara wm.originator).1 e)

hop_onward :
    (wm : WorldMessage) (hop : WorldHop) (current : String) (online : List String)
    → Mem hop.nara (keep (may_visit current wm) online)
    → count_if (is_left (with_hop wm hop)) online < count_if (is_left wm) online
unfolding is_left has_visited may_visit
hop_onward wm hop current online m =
    let (there, fresh) = (mem-keep (may_visit current wm) online).0 m in
    count_if-less (is_left (with_hop wm hop)) (is_left wm) online hop.nara
      (λ x left. ground (arith, left, any_hop-append x (hops_of wm.hops) hop))
      (ground (arith, any_hop-append hop.nara (hops_of wm.hops) hop, eq_iff hop.nara hop.nara))
      (ground (arith, fresh)) there

names_of :
    (clout : String → ℕ) (names : List String)
    → map
        (λ (a : Candidate). a.name)
        (map (λ nara. record { name = nara; score = clout nara }) names)
      ≡ names
names_of clout [] = refl
names_of clout (n ∷ names) = ap (◌∷◌ n) (names_of clout names)

module _ (sorter : Sorter) (w : WorldHost) where
  -- The first of some candidates is one of the names that may be visited.
  first-mem :
      (current : String) (wm : WorldMessage) (clout : String → ℕ) (online : List String)
      (first : Candidate) (rest : List Candidate)
      → Perm (first ∷ rest) (candidates_of sorter w current wm clout online)
      → Mem first.name (keep (may_visit current wm) online)
  unfolding candidates_of
  first-mem current wm clout online first rest p =
      (Perm.mem_iff (
          subst (Perm (map (λ (a : Candidate). a.name) (first ∷ rest)))
            (names_of clout (keep (may_visit current wm) online))
            (Perm.map (λ (a : Candidate). a.name) p))).0
        mem-cons_self

  -- The nara that is chosen from the sorted candidates.
  chosen : String → WorldMessage → List String → List Candidate → String
  chosen current wm online sorted = elim sorted [
    | [] ↦
        if not (current == wm.originator) && any_name wm.originator online
        then wm.originator
        else ""
    | first ∷ rest ↦ first.name
  ]

  chosen-cases :
      (current : String) (wm : WorldMessage) (clout : String → ℕ) (online : List String)
      (sorted : List Candidate)
      → Perm sorted (candidates_of sorter w current wm clout online)
      → (chosen current wm online sorted == "") ≡ false
      → (chosen current wm online sorted ≡ wm.originator)
        ⊎ Mem (chosen current wm online sorted) (keep (may_visit current wm) online)
  unfolding chosen
  chosen-cases current wm clout online [] p found =
      elim (Bool-cases (not (current == wm.originator) && any_name wm.originator online)) [
        | inl home ↦ inl (rw home refl)
        | inr nowhere ↦ absurd (cc (rw nowhere at found))
      ]
  chosen-cases current wm clout online (first ∷ rest) p found =
      inr (first-mem current wm clout online first rest p)

  choose_next_nara-cases :
      (current : String) (wm : WorldMessage) (clout : String → ℕ) (online : List String)
      → (choose_next_nara sorter w current wm clout online == "") ≡ false
      → (choose_next_nara sorter w current wm clout online ≡ wm.originator)
        ⊎ Mem
            (choose_next_nara sorter w current wm clout online)
            (keep (may_visit current wm) online)
  unfolding choose_next_nara chosen
  choose_next_nara-cases current wm clout online found =
      chosen-cases current wm clout online
        (sorter.sort_slice Candidate (λ a b. w.exceeds a.score b.score)
          (candidates_of sorter w current wm clout online))
        (sorter.sort_perm Candidate (λ a b. w.exceeds a.score b.score) _) found

  -- Where `ChooseNextNara` finds a nara, the hop of that nara either ends the journey, or leaves
  -- fewer of the naras that were online without a hop. So a journey among the same naras ends,
  -- whatever the scores and the sort.
  pub journey_shrinks :
      (c : Crypto) (h : Host) (sign_base64 : List ℕ → String) (now : ℤ) (current stamp : String)
      (wm : WorldMessage) (clout : String → ℕ) (online : List String)
      → (choose_next_nara sorter w current wm clout online == "") ≡ false
      → (is_complete (
            add_hop c h w sign_base64 now
              (choose_next_nara sorter w current wm clout online)
              stamp
              wm)
          ≡ true)
        ⊎ (count_if
              (is_left (
                add_hop c h w sign_base64 now
                  (choose_next_nara sorter w current wm clout online)
                  stamp
                  wm))
              online
            < count_if (is_left wm) online)
  unfolding add_hop
  journey_shrinks c h sign_base64 now current stamp wm clout online found =
      let next = choose_next_nara sorter w current wm clout online in
      let hop : WorldHop = record {
        nara = next;
        timestamp = now;
        signature = sign_base64 (data_to_sign c h w wm next);
        stamp = stamp;
      } in
      elim (choose_next_nara-cases current wm clout online found) [
        | inl home ↦ inl (hop_home wm hop home)
        | inr onward ↦ inr (hop_onward wm hop current online onward)
      ]
