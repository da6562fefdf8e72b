-- ===== src/Consensus.antt =====
-- consensus.go and math_helpers.go: one value out of the values that the neighbours report.
--
-- The coin of `consensusByUptime`, the parity of the clock, is an argument: `true` for 0. `none` is
-- an index out of range. Weights are `uint64` with the wrap-around written out.
pub mod Chosen
pub mod Mean
use nara.Prelude.{
  ℕ, zero, suc, ◌+◌, ◌*◌, ◌/◌, ◌%◌, Bool, true, false, ◌&&◌, Option, none, some, List, [], ◌∷◌,
  ◌++◌, leb, ltb, length, get_elem?, keep, if◌then◌else◌, ◌>>=◌,
}
use nara.Prelude.Int.{ℤ, pos, negsuc, ltb_ℤ, leb_ℤ, eqb_ℤ, add64, sub64, mul64, div_pos, two_64}
use nara.Prelude.Sort.{Sorter}

pub record ConsensusValue : Type 0 where
  pub value : ℤ
  pub weight : ℕ

pub record ConsensusCluster : Type 0 where
  pub values : List ℤ
  pub total_weight : ℕ

-- A cluster of one value.
abbrev pub single : ConsensusValue → ConsensusCluster
single v = record { values = v.value ∷ []; total_weight = v.weight }

abbrev pub join_cluster : ConsensusCluster → ConsensusValue → ConsensusCluster
join_cluster c v = record {
  values = c.values ++ v.value ∷ [];
  total_weight = (c.total_weight + v.weight) % two_64;
}

-- The loop that cuts the sorted values into clusters, from the current cluster and its start.
unfoldable pub build_clusters :
    ℤ → ConsensusCluster → ℤ → List ConsensusValue → List ConsensusCluster
unfolding sub64
build_clusters tolerance current start [] = current ∷ []
build_clusters tolerance current start (v ∷ vs) =
    let joined = build_clusters tolerance (join_cluster current v) start vs in
    let fresh = current ∷ build_clusters tolerance (single v) v.value vs in
    if leb_ℤ (sub64 v.value start) tolerance then joined else fresh

-- `values[len(values)/2]`
unfoldable pub middle : List ℤ → Option ℤ
middle vs = get_elem? vs (length vs / 2)

-- `for _, cluster := range clusters { if len(cluster.values) >= 2 { … } }`
unfoldable pub first_shared : List ConsensusCluster → Option ConsensusCluster
first_shared [] = none
first_shared (c ∷ cs) =
    let rest = first_shared cs in if leb 2 (length c.values) then some c else rest

-- The coin flip between the two heaviest clusters, or the heaviest.
unfoldable pub flip : Bool → Bool → List ConsensusCluster → Option ℤ
unfolding middle
flip coin allowed [] = none
flip coin allowed (first ∷ []) = middle first.values
flip coin allowed (first ∷ second ∷ rest) =
    if allowed && leb ((first.total_weight * 80 % two_64) / 100) second.total_weight
    then middle (if coin then first.values else second.values)
    else middle first.values

-- The choice among the clusters, heaviest first.
unfoldable pub choose : Bool → Bool → List ConsensusCluster → Option ℤ
unfolding first_shared flip
choose coin allowed clusters = elim (first_shared clusters) [
  | some c ↦ middle c.values
  | none ↦ flip coin allowed clusters
]

abbrev pub by_value : ConsensusValue → ConsensusValue → Bool
by_value a b = ltb_ℤ a.value b.value

abbrev pub by_weight : ConsensusCluster → ConsensusCluster → Bool
by_weight a b = ltb b.total_weight a.total_weight

-- The bounds outside which `TrimmedMeanInt64` drops a value.
abbrev pub div_5 : ℤ → ℤ
div_5 m = div_pos m 5

unfoldable pub within_bounds : ℤ → ℤ → Bool
unfolding mul64 div_pos
within_bounds median v =
    if eqb_ℤ median (pos 0)
    then leb_ℤ (negsuc 9) v && leb_ℤ v (pos 10)
    else if ltb_ℤ (pos 0) median
    then leb_ℤ (div_5 median) v && leb_ℤ v (mul64 median (pos 5))
    else leb_ℤ (mul64 median (pos 5)) v && leb_ℤ v (div_5 median)

-- `for _, v := range filtered { sum += v }`
unfoldable pub sum64 : ℤ → List ℤ → ℤ
unfolding add64
sum64 sum [] = sum
sum64 sum (v ∷ vs) = sum64 (add64 sum v) vs

-- The average of the values that were kept, or the median.
unfoldable pub average_or : ℤ → List ℤ → ℤ
unfolding sum64 div_pos
average_or median [] = median
average_or median (v ∷ vs) = div_pos (sum64 (pos 0) (v ∷ vs)) (length (v ∷ vs))

module _ (sorter : Sorter) where
  open sorter use {sort_slice}

  -- `consensusByUptime` on the sorted values
  unfoldable pub consensus_of_sorted : Bool → List ConsensusValue → ℤ → Bool → Option ℤ
  unfolding build_clusters choose
  consensus_of_sorted coin [] tolerance allowed = some (pos 0)
  consensus_of_sorted coin (v ∷ vs) tolerance allowed =
      choose coin allowed
        (sort_slice ConsensusCluster by_weight (build_clusters tolerance (single v) v.value vs))

  -- `consensusByUptime`
  unfoldable pub consensus_by_uptime : Bool → List ConsensusValue → ℤ → Bool → Option ℤ
  unfolding consensus_of_sorted
  consensus_by_uptime coin values tolerance allowed =
      consensus_of_sorted coin (sort_slice ConsensusValue by_value values) tolerance allowed

  -- `TrimmedMeanInt64` of two or more values
  unfoldable pub trim : List ℤ → Option ℤ
  unfolding middle within_bounds average_or
  trim sorted =
      middle sorted >>= λ median. some (average_or median (keep (within_bounds median) sorted))

  -- `TrimmedMeanInt64`
  unfoldable pub trimmed_mean : List ℤ → Option ℤ
  unfolding trim
  trimmed_mean [] = some (pos 0)
  trimmed_mean (v ∷ []) = some v
  trimmed_mean (v ∷ w ∷ vs) = trim (sort_slice ℤ ltb_ℤ (v ∷ w ∷ vs))

  -- `TrimmedMeanPositive`
  unfoldable pub trimmed_mean_positive : List ℤ → Option ℤ
  unfolding trimmed_mean
  trimmed_mean_positive values = trimmed_mean (keep (λ v. ltb_ℤ (pos 0) v) values)
