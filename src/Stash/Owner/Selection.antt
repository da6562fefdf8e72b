-- ===== src/Stash/Owner/Selection.antt =====
-- The confidants that are chosen automatically.
use mathlib.Core.List.{
  Nodup, Nodup-cons, Nodup-append, append_assoc, perm_middle, mem-append_left, mem-cons_of_mem, map,
  mem-cons_self, exists_of_mem-map, Mem-prop, mem-map_of_mem, mem-cons,
}
use mathlib.Core.List.Perm
use mathlib.Core.Logic.Or
use mathlib.Core.HLevel.{⊥_prop}
use mathlib.Core.Option.{none-ne-some}
use nara.Prelude.{
  ∥∥₁_elim, of_some-eq, ℕ, zero, suc, ◌%◌, ◌≤◌, ◌≡◌, ◌≢◌, refl, sym, subst, ◌∙◌, inl, inr, Option,
  none, some, List, [], ◌∷◌, ◌++◌, Mem, Perm, Pairwise, String, ◌==◌, eq_iff, arith, length,
  length-append, get_elem?, erase_idx, perm-erase_idx, mem-keep, Pairwise-keep, ltb, ltb→lt, ltb→le,
  Bool-cases, Option-cases, if◌then◌else◌,
}
use nara.Event.Content.{Host}
use nara.Event.Signature.{Crypto}
use nara.Stash.{PeerInfo, StashService, RuntimeInterface, set_confidants}
use nara.Stash.Owner.{
  sort_by_uptime, try_peer, first_confidant, more_confidants, remaining_peers, select_confidants,
}
use nara.Stash.Owner.Bubble.{sort_by_uptime_lem}

abbrev pub ids_of : List PeerInfo → List String
ids_of peers = map (λ (p : PeerInfo). p.id) peers

-- A choice out of a pool, of at most so many.
record IsChosen (target : ℕ) (pool ids : List String) : Type 0 where
  distinct : Nodup ids
  from_pool : (id : String) → Mem id ids → Mem id pool
  size : length ids ≤ target

IsChosen-perm :
    {target : ℕ} {pool other ids : List String}
    → Perm pool other
    → IsChosen target pool ids
    → IsChosen target other ids
IsChosen-perm p k = record {
  distinct = k.distinct;
  from_pool = λ id m. (Perm.mem_iff p).0 (k.from_pool id m);
  size = k.size;
}

widen :
    {target : ℕ} {pool ids : List String} (id : String)
    → IsChosen target pool ids
    → IsChosen target (id ∷ pool) ids
widen id k = record {
  distinct = k.distinct;
  from_pool = λ j m. mem-cons_of_mem id (k.from_pool j m);
  size = k.size;
}

-- The pool of the next round, with the peer accepted or declined.
accepted-perm :
    (selected : List String) (remaining : List PeerInfo) (i : ℕ) (peer : PeerInfo)
    → get_elem? remaining i ≡ some peer
    → Perm
        ((selected ++ peer.id ∷ []) ++ ids_of (erase_idx remaining i))
        (selected ++ ids_of remaining)
accepted-perm selected remaining i peer at =
    subst (λ l. Perm l (selected ++ ids_of remaining))
      (sym (append_assoc selected (peer.id ∷ []) (ids_of (erase_idx remaining i))))
      (Perm.append_left selected
        (Perm.symm (Perm.map (λ (p : PeerInfo). p.id) (perm-erase_idx remaining i peer at))))

declined-perm :
    (selected : List String) (remaining : List PeerInfo) (i : ℕ) (peer : PeerInfo)
    → get_elem? remaining i ≡ some peer
    → Perm (peer.id ∷ (selected ++ ids_of (erase_idx remaining i))) (selected ++ ids_of remaining)
declined-perm selected remaining i peer at = Perm.symm (
    Perm.trans
      (Perm.append_left selected
        (Perm.map (λ (p : PeerInfo). p.id) (perm-erase_idx remaining i peer at)))
      (perm_middle selected (ids_of (erase_idx remaining i))))

module _ (R : RuntimeInterface) (c : Crypto) (h : Host) where
  open R use {State, me_id, online_peers}

  unchosen :
      (target : ℕ) (selected : List String) (remaining : List PeerInfo)
      → Nodup (selected ++ ids_of remaining)
      → length selected ≤ target
      → IsChosen target (selected ++ ids_of remaining) selected
  unchosen target selected remaining nodup small = record {
    distinct = (Nodup-append.0 nodup).0;
    from_pool = λ id m. mem-append_left (ids_of remaining) m;
    size = small;
  }

  more_confidants-IsChosen :
      (nanos : ℕ → ℕ) (target rounds : ℕ) (selected : List String) (remaining : List PeerInfo)
      (st : State)
      → Nodup (selected ++ ids_of remaining)
      → length selected ≤ target
      → IsChosen target
          (selected ++ ids_of remaining)
          (more_confidants R c h nanos target rounds selected remaining st).0
  unfolding more_confidants
  more_confidants-IsChosen nanos target zero selected remaining st nodup small =
      unchosen target selected remaining nodup small
  more_confidants-IsChosen nanos target (suc rounds) selected remaining st nodup small =
      let i = nanos rounds % length remaining in
      elim (Option-cases (get_elem? remaining i)) [
        | inl out ↦ rw (more_confidants, out) (unchosen target selected remaining nodup small)
        | inr (peer, at) ↦ elim (Bool-cases (ltb (length selected) target)) [
          | inr enough ↦
              rw (more_confidants, at, enough) (unchosen target selected remaining nodup small)
          | inl less ↦ elim (Option-cases (try_peer R c h peer st).0) [
            | inl accepted ↦
                let p = accepted-perm selected remaining i peer at in
                rw (more_confidants, at, less, accepted)
                  (IsChosen-perm p (
                    more_confidants-IsChosen nanos target rounds (selected ++ peer.id ∷ [])
                      (erase_idx remaining i) (try_peer R c h peer st).1
                      (Perm.nodup (Perm.symm p) nodup)
                      (omega (
                        arith,
                        length-append selected (peer.id ∷ []),
                        ltb→lt (length selected) target less,
                      ))))
            | inr (e, declined) ↦
                let p = declined-perm selected remaining i peer at in
                rw (more_confidants, at, less, declined)
                  (IsChosen-perm p (
                    widen peer.id (
                      more_confidants-IsChosen nanos target rounds selected (erase_idx remaining i)
                        (try_peer R c h peer st).1 (Nodup-cons.0 (Perm.nodup (Perm.symm p) nodup)).1
                        small)))
          ]
        ]
      ]

  first_confidant-some :
      (peers : List PeerInfo) (st : State) (id : String)
      → (first_confidant R c h peers st).0 ≡ some id
      → Mem id (ids_of peers) × (id ≢ me_id)
  unfolding first_confidant
  first_confidant-some [] st id e = absurd (none-ne-some _ e)
  first_confidant-some (peer ∷ peers) st id e = elim (Bool-cases (peer.id == me_id)) [
    | inl own ↦
        let (m, other) = first_confidant-some peers st id (rw (first_confidant, own) at e) in
        (mem-cons_of_mem peer.id m, other)
    | inr foreign ↦ elim (Option-cases (try_peer R c h peer st).0) [
      | inl accepted ↦
          of_some-eq (λ j. Mem j (ids_of (peer ∷ peers)) × (j ≢ me_id))
            (rw (first_confidant, foreign, accepted) at e)
            (mem-cons_self, λ same. ground (arith, eq_iff peer.id me_id, foreign, same))
      | inr (why, declined) ↦
          let (m, other) =
            first_confidant-some peers (try_peer R c h peer st).1 id
              (rw (first_confidant, foreign, declined) at e) in
          (mem-cons_of_mem peer.id m, other)
    ]
  ]

  -- No two peers have one ID.
  abbrev pub HasDistinctIds : List PeerInfo → Type 0
  HasDistinctIds = Pairwise (λ p q. p.id ≢ q.id)

  ids_of-Nodup : (peers : List PeerInfo) → HasDistinctIds peers → Nodup (ids_of peers)
  ids_of-Nodup [] d = Pairwise.nil
  ids_of-Nodup (p ∷ peers) (Pairwise.cons l d) =
      Pairwise.cons
        (λ id m same. ∥∥₁_elim (exists_of_mem-map m) ⊥_prop (λ q. l q.0 q.1 (same ∙ sym q.2)))
        (ids_of-Nodup peers d)

  -- The peers that remain are others than this nara and the first confidant.
  remaining_peers-others :
      (first : String) (peers : List PeerInfo) (id : String)
      → Mem id (ids_of (remaining_peers R c h first peers))
      → Mem id (ids_of peers) × (id ≢ first) × (id ≢ me_id)
  unfolding remaining_peers
  remaining_peers-others first peers id m = (
    ∥∥₁_elim (exists_of_mem-map m) Mem-prop (λ t.
        subst (λ j. Mem j (ids_of peers)) t.2
          (mem-map_of_mem (λ (p : PeerInfo). p.id) ((mem-keep _ peers).0 t.1).0)),
    λ same. ∥∥₁_elim (exists_of_mem-map m) ⊥_prop (λ t.
        let kept = ((mem-keep _ peers).0 t.1).1 in
        let is_first = t.2 ∙ same in ground (arith, kept, eq_iff (t.0).id first, is_first)),
    λ same. ∥∥₁_elim (exists_of_mem-map m) ⊥_prop (λ t.
        let kept = ((mem-keep _ peers).0 t.1).1 in
        let is_me = t.2 ∙ same in ground (arith, kept, eq_iff (t.0).id me_id, is_me)),
  )

  first-Nodup :
      (peers : List PeerInfo) (id : String)
      → HasDistinctIds peers
      → Nodup (id ∷ ids_of (remaining_peers R c h id peers))
  unfolding remaining_peers
  first-Nodup peers id d = Nodup-cons.1 (
    λ m. (remaining_peers-others id peers id m).1 refl,
    ids_of-Nodup (remaining_peers R c h id peers) (Pairwise-keep _ peers d),
  )

  -- What the choice promises of the confidants.
  pub record IsSelection (target : ℕ) (peers : List PeerInfo) (ids : List String) : Type 0 where
    pub distinct : Nodup ids
    pub size : length ids ≡ target
    pub online : (id : String) → Mem id ids → Mem id (ids_of peers)
    pub others : ¬ Mem me_id ids

  -- Nothing has changed after an error, and the confidants are the target number of distinct others
  -- who are online where there is none.
  abbrev pub Selects : StashService → List PeerInfo → Option String × StashService × State → Type 0
  Selects s peers (some error, t, st) = t ≡ s
  Selects s peers (none, t, st) =
      IsSelection s.target_confidants peers t.confidants
      × (t ≡ record s { confidants = t.confidants })

  select_from_first :
      (nanos : ℕ → ℕ) (s : StashService) (peers : List PeerInfo) (id : String) (st : State)
      → HasDistinctIds peers
      → 1 ≤ s.target_confidants
      → Mem id (ids_of peers)
      → id ≢ me_id
      → Selects s peers (
          let remaining = remaining_peers R c h id peers in
          let (selected, last_st) =
            more_confidants R c h nanos s.target_confidants
              (length remaining)
              (id ∷ [])
              remaining
              st in
          if ltb (length selected) s.target_confidants
          then (some "not enough willing confidants", s, last_st)
          else (none, set_confidants selected s, last_st))
  unfolding set_confidants
  select_from_first nanos s peers id st d small m other =
      let remaining = remaining_peers R c h id peers in
      let target = s.target_confidants in
      let chosen = more_confidants R c h nanos target (length remaining) (id ∷ []) remaining st in
      let k =
        more_confidants-IsChosen nanos target (length remaining) (id ∷ []) remaining st
          (first-Nodup peers id d) small in
      elim (Bool-cases (ltb (length chosen.0) target)) [
        | inl few ↦ rw few refl
        | inr enough ↦ rw enough (
          record {
            distinct = k.distinct;
            size = omega (arith, k.size, ltb→le (length chosen.0) target enough);
            online = λ j in_chosen.
                Or.elim Mem-prop (mem-cons.0 (k.from_pool j in_chosen))
                  (λ same. subst (λ l. Mem l (ids_of peers)) (sym same) m)
                  (λ rest. (remaining_peers-others id peers j rest).0);
            others = λ in_chosen.
                Or.elim ⊥_prop (mem-cons.0 (k.from_pool me_id in_chosen)) (λ same. other (sym same))
                  (λ rest. (remaining_peers-others id peers me_id rest).2 refl);
          },
          refl,
        )
      ]

-- Where no two of the online peers have one ID, and the target is at least one, the automatic
-- choice either gives an error and leaves the service as it was, or gives exactly the target
-- number of confidants: distinct online peers, none of which is this nara.
pub select_confidants_lem :
    (R : RuntimeInterface) (c : Crypto) (h : Host) (nanos : ℕ → ℕ) (s : StashService) (st : R.State)
    → HasDistinctIds R c h (R.online_peers st)
    → 1 ≤ s.target_confidants
    → Selects R c h s (R.online_peers st) (select_confidants R c h nanos s st)
unfolding select_confidants
select_confidants_lem R c h nanos s st d small =
    let peers = R.online_peers st in
    elim (Bool-cases (ltb (length peers) s.target_confidants)) [
      | inl few ↦ rw (select_confidants, few) refl
      | inr enough ↦ elim (Option-cases (first_confidant R c h (sort_by_uptime peers) st).0) [
        | inl nobody ↦ rw (select_confidants, enough, nobody) refl
        | inr (id, first) ↦
            let (m, other) = first_confidant-some R c h (sort_by_uptime peers) st id first in
            rw (select_confidants, enough, first)
              (select_from_first R c h nanos s peers id
                (first_confidant R c h (sort_by_uptime peers) st).1 d small
                ((Perm.mem_iff (Perm.map (λ (p : PeerInfo). p.id) (sort_by_uptime_lem peers).1)).0
                  m)
                other)
      ]
    ]
