-- ===== src/Neighbourhood/Kept.antt =====
-- Whom `pruneInactiveNaras` and `garbageCollectGhostNaras` keep.
use nara.Prelude.{
  ℕ, if◌then◌else◌, ◌∙◌, ◌≡◌, refl, ◌⊎◌, inl, inr, Bool, true, false, ◌&&◌, ◌||◌, none, some, List,
  [], ◌∷◌, String, ◌==◌, eq_iff, arith, eqb, ltb, length, keep, Bool-cases,
}
use nara.Prelude.Int.{ℤ, pos, ltb_ℤ, eqb_ℤ, sub64}
use nara.Prelude.Dict.{Dict, lookup, has_name, lookup-delete_each}
use nara.Neighbourhood.{
  NaraObservation, Network, me_name, my_observation, nara_observation, should_prune, has_activity,
  inactive_naras, prune_inactive_naras, has_data, check_neighbours, is_ghost_safe_to_delete,
  neighbourhood_names, garbage_collect_ghosts, prune_verify_ping_cache, forget_observations,
}

-- A nara first seen at least 30 days ago that was seen at all.
abbrev pub IsVeteran : ℤ → NaraObservation → Type 0
IsVeteran now obs =
    (eqb_ℤ obs.last_seen (pos 0) ≡ false)
    × (ltb_ℤ (pos 0) obs.start_time ≡ true)
    × (ltb_ℤ (sub64 now obs.start_time) (pos 2592000) ≡ false)

veteran_stays :
    (now : ℤ) (obs : NaraObservation) (active : Bool)
    → IsVeteran now obs
    → should_prune now obs active ≡ false
unfolding should_prune
veteran_stays now obs active (seen, started, old) =
    rw (should_prune, seen, started, old) (ground arith)

online_stays :
    (now : ℤ) (obs : NaraObservation) (active : Bool)
    → obs.online ≡ "ONLINE"
    → should_prune now obs active ≡ false
unfolding should_prune
online_stays now obs active h = rw h refl

skipped :
    (name first : String) (own inactive : Bool) (others : List String)
    → has_name name others ≡ false
    → ((first == name) ≡ true → (own ≡ true) ⊎ (inactive ≡ false))
    → has_name name (if own then others else if inactive then first ∷ others else others) ≡ false
unfolding has_name
skipped name first own inactive others h k = elim (Bool-cases (first == name)) [
  | inr other ↦ ground (arith, h, other)
  | inl same ↦ elim (k same) [
    | inl mine ↦ rw (mine, h) refl
    | inr stays ↦
        rw stays
          (elim (Bool-cases own) [ inl mine ↦ rw (mine, h) refl | inr yours ↦ rw (yours, h) refl ])
  ]
]

not_inactive :
    (now : ℤ) (n : Network) (name : String)
    → ((name ≡ me_name n)
        ⊎ ((active : Bool) → should_prune now (my_observation n name) active ≡ false))
    → (entries : Dict ℕ) → has_name name (inactive_naras now n entries) ≡ false
unfolding inactive_naras
not_inactive now n name h [] = unfold has_name in refl
not_inactive now n name h ((first, a) ∷ rest) =
    skipped name first (first == me_name n)
      (should_prune now (my_observation n first) (has_activity (n.naras a)))
      (inactive_naras now n rest) (not_inactive now n name h rest)
      (λ same.
        let is_name : first ≡ name = (eq_iff first name).0 same in
        elim h [
          | inl own ↦ inl ((eq_iff first (me_name n)).1 (is_name ∙ own))
          | inr stays ↦ inr (rw is_name (stays (has_activity (n.naras a))))
        ])

-- `pruneInactiveNaras` keeps the local nara, every nara that is observed online, and every veteran: one that
-- was ever seen and whose start time is at least 30 days ago.
pub prune_inactive_naras-kept :
    (now : ℤ) (n : Network) (name : String)
    → (name ≡ me_name n)
      ⊎ ((my_observation n name).online ≡ "ONLINE")
      ⊎ IsVeteran now (my_observation n name)
    → lookup name (prune_inactive_naras now n).neighbourhood ≡ lookup name n.neighbourhood
unfolding prune_inactive_naras forget_observations prune_verify_ping_cache
prune_inactive_naras-kept now n name h =
    let gone = inactive_naras now n n.neighbourhood in
    let stays : has_name name gone ≡ false =
      not_inactive now n name
        (elim h [
          | inl own ↦ inl own
          | inr (inl online) ↦
              inr (λ active. online_stays now (my_observation n name) active online)
          | inr (inr veteran) ↦
              inr (λ active. veteran_stays now (my_observation n name) active veteran)
        ])
        n.neighbourhood in
    elim (Bool-cases (ltb 0 (length gone))) [
      | inr none_gone ↦ rw none_gone refl
      | inl some_gone ↦ rw (some_gone, lookup-delete_each gone name n.neighbourhood, stays) refl
    ]

-- A known nara other than the named one whose own observations hold data of it, or have it online.
abbrev pub IsVouched : Network → String → Dict ℕ → Type 0
IsVouched n name entries =
    (witness : String) × (a : ℕ) × (lookup witness entries ≡ some a)
    × ((witness == name) ≡ false)
    × ((has_data (nara_observation (n.naras a) name)
          || (nara_observation (n.naras a) name).online == "ONLINE")
        ≡ true)

checked-none :
    (n : Network) (name : String) (entries : Dict ℕ)
    → IsVouched n name entries
    → check_neighbours n name entries ≡ none
unfolding check_neighbours lookup
checked-none n name [] (witness, a, found, other, vouches) = absurd (cc found)
checked-none n name ((first, b) ∷ rest) (witness, a, found, other, vouches) =
    elim (Bool-cases (first == witness)) [
      | inl here ↦
          let is_a : b ≡ a = cc (rw here at found) in
          let is_witness : first ≡ witness = (eq_iff first witness).0 here in
          rw (is_witness, other, is_a, vouches) refl
      | inr later ↦
          let none_later =
            checked-none n name rest (witness, a, rw later at found, other, vouches) in
          elim (Bool-cases (first == name)) [
            | inl target ↦ rw target none_later
            | inr checked ↦
                elim (Bool-cases (
                  has_data (nara_observation (n.naras b) name)
                  || (nara_observation (n.naras b) name).online == "ONLINE")) [
                    | inl against ↦ rw (checked, against) refl
                    | inr silent ↦ rw (checked, silent, none_later) refl
                  ]
          ]
    ]

has_name-keep :
    (p : String → Bool) (name : String) (names : List String)
    → p name ≡ false
    → has_name name (keep p names) ≡ false
unfolding has_name keep
has_name-keep p name [] h = refl
has_name-keep p name (first ∷ rest) h =
    ground (arith, has_name-keep p name rest h, eq_iff first name, h)

all_false :
    (a b c : Bool) → (if a then false else if b then false else if c then false else false) ≡ false
all_false a b c = ground arith

not_safe :
    (now : ℤ) (n : Network) (name : String)
    → (name ≡ me_name n)
      ⊎ (has_data (my_observation n name) ≡ true)
      ⊎ IsVouched n name n.neighbourhood
    → is_ghost_safe_to_delete now n name ≡ false
unfolding is_ghost_safe_to_delete
not_safe now n name h = elim h [
  | inl own ↦ rw ((eq_iff name (me_name n)).1 own) refl
  | inr (inl data_held) ↦ elim (Bool-cases (name == me_name n)) [
    | inl own ↦ rw own refl
    | inr other ↦ rw (other, data_held) refl
  ]
  | inr (inr vouched) ↦
      let mine = my_observation n name in
      rw (checked-none n name n.neighbourhood vouched) (
        all_false (name == me_name n) (has_data mine || mine.online == "ONLINE")
          (ltb_ℤ (pos 0) mine.last_seen && ltb_ℤ (sub64 now (pos 86400)) mine.last_seen))
]

-- `garbageCollectGhostNaras` keeps the local nara, every nara that the local nara has data of, and every nara
-- that another known nara has data of or has online.
pub garbage_collect_ghosts-kept :
    (now : ℤ) (n : Network) (name : String)
    → (name ≡ me_name n)
      ⊎ (has_data (my_observation n name) ≡ true)
      ⊎ IsVouched n name n.neighbourhood
    → lookup name (garbage_collect_ghosts now n).0.neighbourhood ≡ lookup name n.neighbourhood
unfolding garbage_collect_ghosts forget_observations
garbage_collect_ghosts-kept now n name h =
    let names = neighbourhood_names n.neighbourhood in
    let gone = keep (is_ghost_safe_to_delete now n) names in
    let stays = has_name-keep (is_ghost_safe_to_delete now n) name names (not_safe now n name h) in
    elim (Bool-cases (eqb (length gone) 0)) [
      | inl none_gone ↦ rw none_gone refl
      | inr some_gone ↦ rw (some_gone, lookup-delete_each gone name n.neighbourhood, stays) refl
    ]
