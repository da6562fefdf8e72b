-- ===== src/Neighbourhood.antt =====
-- neighbourhood_observations.go, neighbourhood_tracking.go, neighbourhood_queries.go,
-- neighbourhood_pruning.go and observations.go: who is known, and who is forgotten.
--
-- A pointer to a nara is its address in `naras`, so that the index by name and the one by ID can
-- hold the same nara or two. The mutexes make each operation one step. The order of a map's
-- entries is any. Latencies are left out of an observation, as nothing here reads them. `none` is
-- no ledger, no projections or the nil nara; both indexes of a network are made with it.
pub mod Forgotten
pub mod Kept
use nara.Prelude.{
  ℕ, ◌+◌, Bool, true, false, not, ◌&&◌, ◌||◌, Option, none, some, List, [], ◌∷◌, String, ◌==◌, ltb,
  eqb, length, keep, map, if◌then◌else◌,
}
use nara.Prelude.Int.{ℤ, pos, ltb_ℤ, eqb_ℤ, sub64}
use nara.Prelude.Dict.{Dict, lookup, lookup_or, delete_each, has_name}
use nara.Ledger.{SyncLedger}
use nara.Ledger.Remove.{remove_events_for}

pub record NaraObservation : Type 0 where
  pub restarts : ℤ
  pub total_uptime : ℤ
  pub start_time : ℤ
  pub online : String
  pub last_seen : ℤ
  pub last_restart : ℤ
  pub cluster_name : String
  pub cluster_emoji : String

abbrev pub no_observation : NaraObservation
no_observation = record {
  restarts = pos 0;
  total_uptime = pos 0;
  start_time = pos 0;
  online = "";
  last_seen = pos 0;
  last_restart = pos 0;
  cluster_name = "";
  cluster_emoji = "";
}

-- `Nara`, with the fields of its status that the operations read.
pub record NaraObject : Type 0 where
  pub name : String
  pub id : String
  pub status_id : String
  pub mesh_ip : String
  pub flair : String
  pub buzz : ℤ
  pub chattiness : ℤ
  pub observations : Dict NaraObservation

pub record Network : Type 0 where
  pub me : ℕ
  pub my_id : String
  pub naras : ℕ → NaraObject
  pub neighbourhood : Dict ℕ
  pub neighbourhood_by_id : Dict ℕ
  pub name_to_id : Dict String
  pub howdy_coordinators : String → Bool
  pub verify_ping_last_attempt : Dict ℤ
  pub verify_ping_last_result : Dict Bool
  pub sync_ledger : Option SyncLedger
  pub triggers : Option ℕ

-- `isOnline`
unfoldable pub is_online : NaraObservation → Bool
is_online obs = obs.online == "ONLINE"

-- `getObservation` of a nara
unfoldable pub nara_observation : NaraObject → String → NaraObservation
unfolding lookup_or
nara_observation x name = lookup_or no_observation name x.observations

-- `meName`
unfoldable pub me_name : Network → String
me_name n = (n.naras n.me).name

-- `getObservation` and `getObservationLocked` of the local nara
unfoldable pub my_observation : Network → String → NaraObservation
unfolding nara_observation
my_observation n name = nara_observation (n.naras n.me) name

-- `getNara`
unfoldable pub get_nara : Network → String → Option ℕ
unfolding lookup
get_nara n name = lookup name n.neighbourhood

-- The search of the neighbourhood that `getNaraByID` falls back on.
unfoldable pub search_id : Network → String → Dict ℕ → Option ℕ
search_id n id [] = none
search_id n id ((name, a) ∷ rest) =
    if (n.naras a).status_id == id || (n.naras a).id == id then some a else search_id n id rest

-- `getNaraByID`
unfoldable pub get_nara_by_id : Network → String → Option ℕ
unfolding lookup search_id
get_nara_by_id n id = if id == "" then none else elim (lookup id n.neighbourhood_by_id) [
  | some a ↦ some a
  | none ↦ search_id n id n.neighbourhood
]

-- `getNaraIDByName`
unfoldable pub get_nara_id_by_name : Network → String → String
unfolding me_name lookup_or
get_nara_id_by_name n name =
    if name == "" then "" else if name == me_name n then n.my_id else lookup_or "" name n.name_to_id

-- `getMeshInfoForNara`
unfoldable pub get_mesh_info : Network → String → String × String
unfolding lookup
get_mesh_info n name = elim (lookup name n.neighbourhood) [
  | none ↦ ("", "")
  | some a ↦ ((n.naras a).mesh_ip, (n.naras a).status_id)
]

-- `NeighbourhoodNames`
unfoldable pub neighbourhood_names : Dict ℕ → List String
neighbourhood_names entries = map (λ entry. entry.0) entries

-- `getOnlineNarasSnapshot`
unfoldable pub online_naras : Network → Dict ℕ → List ℕ
unfolding my_observation is_online
online_naras n [] = []
online_naras n ((name, a) ∷ rest) =
    let others = online_naras n rest in
    if is_online (my_observation n (n.naras a).name) then a ∷ others else others

-- `NeighbourhoodOnlineNames`
unfoldable pub online_names : Network → Dict ℕ → List String
unfolding my_observation is_online
online_names n [] = []
online_names n ((name, a) ∷ rest) =
    let others = online_names n rest in
    if is_online (my_observation n (n.naras a).name) then (n.naras a).name ∷ others else others

-- The tests of one nara in `pruneInactiveNaras`, from the online one on.
unfoldable pub should_prune : ℤ → NaraObservation → Bool → Bool
should_prune now obs has_activity =
    let started = ltb_ℤ (pos 0) obs.start_time in
    let unseen = eqb_ℤ obs.last_seen (pos 0) in
    let nara_age = if started then sub64 now obs.start_time else pos 0 in
    let time_since_last_seen =
      if ltb_ℤ (pos 0) obs.last_seen then sub64 now obs.last_seen else pos 0 in
    if obs.online == "ONLINE"
    then false
    else if unseen && started && ltb_ℤ (pos 3600) (sub64 now obs.start_time)
    then true
    else if unseen && eqb_ℤ obs.start_time (pos 0) && not has_activity
    then true
    else if unseen
    then false
    else if ltb_ℤ nara_age (pos 172800)
    then ltb_ℤ (pos 86400) time_since_last_seen
    else ltb_ℤ nara_age (pos 2592000) && ltb_ℤ (pos 604800) time_since_last_seen

unfoldable pub has_activity : NaraObject → Bool
has_activity x = not (x.flair == "") || ltb_ℤ (pos 0) x.buzz || ltb_ℤ (pos 0) x.chattiness

-- The names that `pruneInactiveNaras` collects.
unfoldable pub inactive_naras : ℤ → Network → Dict ℕ → List String
unfolding my_observation me_name should_prune has_activity
inactive_naras now n [] = []
inactive_naras now n ((name, a) ∷ rest) =
    let others = inactive_naras now n rest in
    if name == me_name n
    then others
    else if should_prune now (my_observation n name) (has_activity (n.naras a))
    then name ∷ others
    else others

-- `for _, name := range toRemove { SyncLedger.RemoveEventsFor(name) }`
unfoldable pub remove_events_for_each : List String → SyncLedger → SyncLedger
unfolding remove_events_for
remove_events_for_each [] l = l
remove_events_for_each (name ∷ names) l = remove_events_for_each names (remove_events_for l name).0

-- `pruneVerifyPingCache`
unfoldable pub prune_verify_ping_cache : List String → Network → Network
unfolding delete_each
prune_verify_ping_cache names n = record n {
  verify_ping_last_attempt = delete_each names n.verify_ping_last_attempt;
  verify_ping_last_result = delete_each names n.verify_ping_last_result;
}

-- The observations of the local nara, less those on the names.
unfoldable pub forget_observations : List String → Network → Network
unfolding delete_each
forget_observations names n =
    let mine = n.naras n.me in
    record n {
      naras = λ a.
          if eqb a n.me
          then record mine { observations = delete_each names mine.observations }
          else n.naras a;
    }

-- `pruneInactiveNaras`
unfoldable pub prune_inactive_naras : ℤ → Network → Network
unfolding inactive_naras delete_each has_name remove_events_for_each prune_verify_ping_cache
    forget_observations
prune_inactive_naras now n =
    let gone = inactive_naras now n n.neighbourhood in
    if ltb 0 (length gone)
    then forget_observations gone (
        prune_verify_ping_cache gone (record n {
          neighbourhood = delete_each gone n.neighbourhood;
          howdy_coordinators = λ k. not (has_name k gone) && n.howdy_coordinators k;
          sync_ledger = elim n.sync_ledger [
            | none ↦ none
            | some l ↦ some (remove_events_for_each gone l)
          ];
          triggers = elim n.triggers [ none ↦ none | some k ↦ some (k + 1) ];
        }))
    else n

-- Whether an observation holds data of a nara.
unfoldable pub has_data : NaraObservation → Bool
has_data obs =
    ltb_ℤ (pos 0) obs.start_time || ltb_ℤ (pos 0) obs.restarts || ltb_ℤ (pos 0) obs.last_restart

-- The loop of `isGhostNara`
unfoldable pub no_neighbour_has_data : Network → String → Dict ℕ → Bool
unfolding nara_observation has_data
no_neighbour_has_data n name [] = true
no_neighbour_has_data n name ((other, a) ∷ rest) =
    not (has_data (nara_observation (n.naras a) name)) && no_neighbour_has_data n name rest

-- `isGhostNara`
unfoldable pub is_ghost_nara : Network → String → Bool
unfolding my_observation has_data no_neighbour_has_data
is_ghost_nara n name =
    not (has_data (my_observation n name)) && no_neighbour_has_data n name n.neighbourhood

-- The loop of `isGhostNaraSafeToDelete`: the number of neighbours checked, or `none` where one of
-- them is against it.
unfoldable pub check_neighbours : Network → String → Dict ℕ → Option ℕ
unfolding nara_observation has_data
check_neighbours n name [] = some 0
check_neighbours n name ((other, a) ∷ rest) =
    let checked = check_neighbours n name rest in
    let obs = nara_observation (n.naras a) name in
    if other == name
    then checked
    else if has_data obs || obs.online == "ONLINE"
    then none
    else elim checked [ none ↦ none | some k ↦ some (k + 1) ]

-- `isGhostNaraSafeToDelete`
unfoldable pub is_ghost_safe_to_delete : ℤ → Network → String → Bool
unfolding me_name my_observation has_data check_neighbours
is_ghost_safe_to_delete now n name =
    let mine = my_observation n name in
    if name == me_name n
    then false
    else if has_data mine || mine.online == "ONLINE"
    then false
    else if ltb_ℤ (pos 0) mine.last_seen && ltb_ℤ (sub64 now (pos 86400)) mine.last_seen
    then false
    else elim (check_neighbours n name n.neighbourhood) [
      | none ↦ false
      | some checked ↦ not (ltb checked 3)
    ]

-- `garbageCollectGhostNaras`: the network, and the number of naras deleted.
unfoldable pub garbage_collect_ghosts : ℤ → Network → Network × ℕ
unfolding is_ghost_safe_to_delete neighbourhood_names delete_each remove_events_for_each
    forget_observations
garbage_collect_ghosts now n =
    let gone = keep (is_ghost_safe_to_delete now n) (neighbourhood_names n.neighbourhood) in
    if eqb (length gone) 0 then (n, 0) else (
      forget_observations gone (record n {
        neighbourhood = delete_each gone n.neighbourhood;
        sync_ledger = elim n.sync_ledger [
          | none ↦ none
          | some l ↦ some (remove_events_for_each gone l)
        ];
      }),
      length gone,
    )
