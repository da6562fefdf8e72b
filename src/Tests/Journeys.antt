-- ===== src/Tests/Journeys.antt =====
-- Journeys around a world of three naras.
use nara.Prelude.{
  ◌<◌, ◌⊎◌, ◌≡◌, refl, true, none, some, List, [], ◌∷◌, String, count_if, keep, ltb, eqb, length,
  ◌==◌, if◌then◌else◌,
}
use nara.Prelude.Int.{pos}
use nara.Prelude.Sort.Insertion.{insertion}
use nara.Event.Signature.{Crypto, verify_signature_base64, verify_signature}
use nara.Event.Content.{Host}
use nara.World.{
  WorldHop, WorldMessage, WorldHost, is_complete, add_hop, verify_chain, choose_next_nara,
}
use nara.World.Chain.{add_hop-verifies}
use nara.World.Route.{is_left, journey_shrinks}
use nara.Tests.Data.{crypto, host, key}

abbrev world_host : WorldHost
world_host = record {
  marshal_hop = λ d. d.current_nara;
  encode_base64 = λ bytes. "world";
  exceeds = λ a b. ltb b a;
}

abbrev bob_hop : List WorldHop
bob_hop = record { nara = "bob"; timestamp = pos 1; signature = "sig"; stamp = "star" } ∷ []

-- Ann's message, with a hop of Bob.
abbrev greeting : WorldMessage
greeting = record {
  id = "world";
  original_message = "hello";
  originator = "ann";
  hops = some bob_hop;
}

greeting_verifies : verify_chain crypto host world_host (λ name. some key) greeting ≡ some none
unfolding verify_chain
greeting_verifies = refl

add_hop-verifies_example :
    verify_chain crypto host world_host
      (λ name. some key)
      (add_hop crypto host world_host (λ message. "sig") (pos 2) "cat" "star" greeting)
    ≡ some none
unfolding verify_signature_base64 verify_signature
add_hop-verifies_example =
    add_hop-verifies crypto host world_host (λ name. some key) (λ message. "sig") (pos 2) "cat"
      "star" greeting bob_hop key refl refl (λ message. refl) greeting_verifies

-- A message that arrived without hops, JSON that tells a nil slice from an empty one, and a
-- signature that is good for the one only.
abbrev hopless : WorldMessage
hopless = record greeting { hops = none }

abbrev null_host : Host
null_host = record host { sha256 = λ s. if s == "null" then 1 ∷ [] else 2 ∷ 2 ∷ [] }

abbrev null_json : WorldHost
null_json = record world_host {
  marshal_hop = λ d. elim d.previous_hops [ none ↦ "null" | some hops ↦ "hops" ];
}

abbrev null_crypto : Crypto
null_crypto = record crypto { ed25519_verify = λ k message s. eqb (length message) 1 }

abbrev everyone : List String
everyone = "ann" ∷ "bob" ∷ "cat" ∷ []

-- Cat is the only one left.
next_is_cat : choose_next_nara insertion world_host "bob" greeting (λ name. 0) everyone ≡ "cat"
unfolding choose_next_nara insertion keep
next_is_cat = refl

journey_shrinks_example :
    (is_complete (
        add_hop crypto host world_host
          (λ message. "sig")
          (pos 2)
          (choose_next_nara insertion world_host "bob" greeting (λ name. 0) everyone)
          "star"
          greeting)
      ≡ true)
    ⊎ (count_if
          (is_left (
            add_hop crypto host world_host
              (λ message. "sig")
              (pos 2)
              (choose_next_nara insertion world_host "bob" greeting (λ name. 0) everyone)
              "star"
              greeting))
          everyone
        < count_if (is_left greeting) everyone)
unfolding choose_next_nara insertion keep
journey_shrinks_example =
    journey_shrinks insertion world_host crypto host (λ message. "sig") (pos 2) "bob" "star"
      greeting (λ name. 0) everyone refl
