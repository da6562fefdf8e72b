-- ===== src/Consensus/Chosen.antt =====
-- The value that `consensusByUptime` chooses.
use mathlib.Core.List.{
  mem-cons, mem-cons_self, mem-cons_of_mem, not-mem-nil, Mem-prop, mem-append, mem-map_of_mem,
}
use mathlib.Core.List.Perm
use mathlib.Core.HLevel.{Π_prop, ×_prop}
use mathlib.Core.Option.{some-injective}
use native.Mathlib.Bridge.{le_prop}
use mathlib.Core.Logic.Or
use nara.Prelude.{
  ◌/◌, ◌≤◌, ◌≡◌, sym, subst, inl, inr, Bool, true, false, ◌&&◌, Option, some, List, [], ◌∷◌, map,
  Mem, arith, leb, length, get_elem?-some, mem-get_elem?, length-append, length-perm, ◌*◌, ◌%◌,
  Bool-cases, Option-cases, if◌then◌else◌,
}
use nara.Prelude.Int.{ℤ, leb_ℤ, sub64, two_64}
use nara.Prelude.Sort.{Sorter}
use nara.Consensus.{
  ConsensusValue, ConsensusCluster, single, join_cluster, build_clusters, middle, first_shared,
  flip, choose, by_value, by_weight, consensus_of_sorted, consensus_by_uptime,
}

-- A cluster that is not empty and whose values are all among those reported.
abbrev pub IsReported : List ℤ → ConsensusCluster → Type 0
IsReported reported c = (1 ≤ length c.values) × ((x : ℤ) → Mem x c.values → Mem x reported)

IsReported-prop : (reported : List ℤ) (c : ConsensusCluster) → IsProp (IsReported reported c)
IsReported-prop reported c = ×_prop le_prop (Π_prop λ x. Π_prop λ m. Mem-prop)

-- An answer that is one of the values reported.
abbrev pub Answers : List ℤ → Option ℤ → Type 0
Answers reported r = (x : ℤ) × (r ≡ some x) × Mem x reported

middle-Answers :
    (reported : List ℤ) (c : ConsensusCluster)
    → IsReported reported c
    → Answers reported (middle c.values)
unfolding middle
middle-Answers reported c r =
    let (x, at) = get_elem?-some c.values (length c.values / 2) (omega (arith, r.0)) in
    (x, at, r.1 x (mem-get_elem? c.values _ x at))

first_shared-mem :
    (cs : List ConsensusCluster) (c : ConsensusCluster) → first_shared cs ≡ some c → Mem c cs
unfolding first_shared
first_shared-mem [] c e = absurd (cc)
first_shared-mem (d ∷ cs) c e = elim (Bool-cases (leb 2 (length d.values))) [
  | inl yes_shared ↦
      subst (λ x. Mem x (d ∷ cs)) (some-injective _ _ (rw yes_shared at e)) mem-cons_self
  | inr no_shared ↦ mem-cons_of_mem d (first_shared-mem cs c (rw no_shared at e))
]

flip-Answers :
    (reported : List ℤ) (coin allowed : Bool) (cs : List ConsensusCluster)
    → 1 ≤ length cs
    → ((c : ConsensusCluster) → Mem c cs → IsReported reported c)
    → Answers reported (flip coin allowed cs)
unfolding flip
flip-Answers reported coin allowed [] h r = absurd (omega arith)
flip-Answers reported coin allowed (a ∷ []) h r = middle-Answers reported a (r a mem-cons_self)
flip-Answers reported coin allowed (a ∷ b ∷ cs) h r =
    let first = middle-Answers reported a (r a mem-cons_self) in
    let second = middle-Answers reported b (r b (mem-cons_of_mem a mem-cons_self)) in
    elim (Bool-cases (allowed && leb ((a.total_weight * 80 % two_64) / 100) b.total_weight)) [
      | inr heaviest ↦ rw heaviest first
      | inl close ↦
          rw close
            (elim coin as (λ k. Answers reported (middle (if k then a.values else b.values))) [
              | true ↦ first
              | false ↦ second
            ])
    ]

build_clusters-IsReported :
    (reported : List ℤ) (tolerance start : ℤ) (current : ConsensusCluster)
    (vs : List ConsensusValue)
    → IsReported reported current
    → ((v : ConsensusValue) → Mem v vs → Mem v.value reported)
    → (1 ≤ length (build_clusters tolerance current start vs))
      × ((c : ConsensusCluster)
          → Mem c (build_clusters tolerance current start vs)
          → IsReported reported c)
unfolding build_clusters
build_clusters-IsReported reported tolerance start current [] r m = (
  omega arith,
  λ c at.
      Or.elim (IsReported-prop reported c) (mem-cons.0 at)
        (λ same. subst (IsReported reported) (sym same) r)
        (λ nothing. absurd (not-mem-nil nothing)),
)
build_clusters-IsReported reported tolerance start current (v ∷ vs) r m =
    let later = λ (w : ConsensusValue) (at : Mem w vs). m w (mem-cons_of_mem v at) in
    let own = m v mem-cons_self in
    let joined =
      build_clusters-IsReported reported tolerance start (join_cluster current v) vs
        (
          ground (arith, length-append current.values (v.value ∷ [])),
          λ x at. Or.elim Mem-prop (mem-append.0 at) (r.1 x) (λ last.
              Or.elim Mem-prop (mem-cons.0 last)
                (λ same. subst (λ y. Mem y reported) (sym same) own)
                (λ nothing. absurd (not-mem-nil nothing))),
        )
        later in
    let fresh =
      build_clusters-IsReported reported tolerance v.value (single v) vs
        (
          omega arith,
          λ x at.
              Or.elim Mem-prop (mem-cons.0 at) (λ same. subst (λ y. Mem y reported) (sym same) own)
                (λ nothing. absurd (not-mem-nil nothing)),
        )
        later in
    elim (Bool-cases (leb_ℤ (sub64 v.value start) tolerance)) [
      | inl near ↦ rw near joined
      | inr far ↦ rw far (
        omega arith,
        λ c at.
            Or.elim (IsReported-prop reported c) (mem-cons.0 at)
              (λ same. subst (IsReported reported) (sym same) r) (fresh.1 c),
      )
    ]

choose-Answers :
    (reported : List ℤ) (coin allowed : Bool) (cs : List ConsensusCluster)
    → 1 ≤ length cs
    → ((c : ConsensusCluster) → Mem c cs → IsReported reported c)
    → Answers reported (choose coin allowed cs)
unfolding choose
choose-Answers reported coin allowed cs h r = elim (Option-cases (first_shared cs)) [
  | inl alone ↦ rw (alone, choose) (flip-Answers reported coin allowed cs h r)
  | inr (c, shared) ↦
      rw (shared, choose) (middle-Answers reported c (r c (first_shared-mem cs c shared)))
]

consensus_of_sorted-Answers :
    (sorter : Sorter) (coin : Bool) (vs : List ConsensusValue) (tolerance : ℤ) (allowed : Bool)
    → 1 ≤ length vs
    → Answers
        (map (λ (v : ConsensusValue). v.value) vs)
        (consensus_of_sorted sorter coin vs tolerance allowed)
unfolding consensus_of_sorted
consensus_of_sorted-Answers sorter coin [] tolerance allowed h = absurd (omega arith)
consensus_of_sorted-Answers sorter coin (v ∷ vs) tolerance allowed h =
    let reported = map (λ (v : ConsensusValue). v.value) (v ∷ vs) in
    let (some_cluster, sound) =
      build_clusters-IsReported reported tolerance v.value (single v) vs
        (
          omega arith,
          λ x at.
              Or.elim Mem-prop (mem-cons.0 at)
                (λ same. subst (λ y. Mem y reported) (sym same) mem-cons_self)
                (λ nothing. absurd (not-mem-nil nothing)),
        )
        (λ w at. mem-cons_of_mem v.value (mem-map_of_mem (λ (v : ConsensusValue). v.value) at)) in
    let p =
      sorter.sort_perm ConsensusCluster by_weight
        (build_clusters tolerance (single v) v.value vs) in
    choose-Answers reported coin allowed _ (omega (arith, some_cluster, length-perm p))
      (λ c at. sound c ((Perm.mem_iff p).0 at))

-- Where any value is reported, `consensusByUptime` answers, with one of the values reported,
-- whatever the weights, the tolerance and the coin. So it answers with the value that all report,
-- if they agree.
pub consensus_by_uptime-reported :
    (sorter : Sorter) (coin : Bool) (values : List ConsensusValue) (tolerance : ℤ) (allowed : Bool)
    → 1 ≤ length values
    → (x : ℤ) × (consensus_by_uptime sorter coin values tolerance allowed ≡ some x)
      × Mem x (map (λ (v : ConsensusValue). v.value) values)
unfolding consensus_by_uptime
consensus_by_uptime-reported sorter coin values tolerance allowed h =
    let p = sorter.sort_perm ConsensusValue by_value values in
    let (x, answer, m) =
      consensus_of_sorted-Answers sorter coin (sorter.sort_slice ConsensusValue by_value values)
        tolerance allowed (omega (arith, length-perm p)) in
    (x, answer, (Perm.mem_iff (Perm.map (λ (v : ConsensusValue). v.value) p)).0 m)
