-- ===== src/Tests/Neighbours.antt =====
-- A neighbourhood in which one nara has been offline for more than a day.
use nara.Prelude.{
  ◌≡◌, refl, inl, inr, true, false, ◌||◌, ◌==◌, some, [], ◌∷◌, String, eqb, if◌then◌else◌,
}
use nara.Prelude.Int.{pos}
use nara.Prelude.Dict.{lookup}
use nara.Neighbourhood.{
  NaraObservation, NaraObject, Network, no_observation, my_observation, prune_inactive_naras,
  is_ghost_nara, is_ghost_safe_to_delete, no_neighbour_has_data, check_neighbours,
  garbage_collect_ghosts, has_data, nara_observation, me_name,
}
use nara.Neighbourhood.Kept.{prune_inactive_naras-kept, garbage_collect_ghosts-kept}
use nara.Tests.Data.{ping_at, holding}

abbrev bare_nara : String → NaraObject
bare_nara name = record {
  name = name;
  id = "";
  status_id = "";
  mesh_ip = "";
  flair = "";
  buzz = pos 0;
  chattiness = pos 0;
  observations = [];
}

abbrev seen_once : NaraObservation
seen_once = record no_observation { online = "OFFLINE"; start_time = pos 5; last_seen = pos 10 }

-- The local nara knows bob, who is gone, and cat, who is online and remembers dan.
abbrev network : Network
network = record {
  me = 0;
  my_id = "id-ann";
  naras = λ a.
      if eqb a 0
      then record (bare_nara "ann") {
        observations = ("bob", seen_once) ∷ ("cat", record seen_once { online = "ONLINE" }) ∷ [];
      }
      else if eqb a 1
      then bare_nara "bob"
      else if eqb a 2
      then record (bare_nara "cat") { observations = ("dan", seen_once) ∷ [] }
      else bare_nara "dan";
  neighbourhood = ("bob", 1) ∷ ("cat", 2) ∷ ("dan", 3) ∷ [];
  neighbourhood_by_id = ("id-bob", 1) ∷ [];
  name_to_id = ("bob", "id-bob") ∷ [];
  howdy_coordinators = λ name. true;
  verify_ping_last_attempt = ("bob", pos 11) ∷ [];
  verify_ping_last_result = ("bob", false) ∷ [];
  sync_ledger = some (holding 5 (ping_at "a" 10 ∷ []) (λ id. "a" == id || false));
  triggers = some 0;
}

prune_inactive_naras-kept_example :
    lookup "cat" (prune_inactive_naras (pos 100000) network).neighbourhood
    ≡ lookup "cat" network.neighbourhood
prune_inactive_naras-kept_example =
    prune_inactive_naras-kept (pos 100000) network "cat"
      (inr (inl (unfold my_observation nara_observation in refl)))

garbage_collect_ghosts-kept_example :
    lookup "dan" (garbage_collect_ghosts (pos 100000) network).0.neighbourhood
    ≡ lookup "dan" network.neighbourhood
garbage_collect_ghosts-kept_example =
    garbage_collect_ghosts-kept (pos 100000) network "dan"
      (inr (inr ("cat", 2, unfold lookup in refl, refl, unfold nara_observation has_data in refl)))

-- A nara that alone has data of itself is no ghost, and still safe to delete.
abbrev own_data : Network
own_data = record network {
  naras = λ a.
      if eqb a 1
      then record (bare_nara "bob") { observations = ("bob", seen_once) ∷ [] }
      else if eqb a 0
      then bare_nara "ann"
      else bare_nara "cat";
  neighbourhood = ("bob", 1) ∷ ("cat", 2) ∷ ("dan", 3) ∷ ("eve", 4) ∷ [];
}

own_data_is_no_ghost : is_ghost_nara own_data "bob" ≡ false
unfolding is_ghost_nara my_observation nara_observation has_data no_neighbour_has_data
own_data_is_no_ghost = refl

own_data_is_deleted : is_ghost_safe_to_delete (pos 100000) own_data "bob" ≡ true
unfolding is_ghost_safe_to_delete me_name my_observation nara_observation has_data check_neighbours
own_data_is_deleted = refl
