-- ===== src/World/Chain.antt =====
-- The chain of hops that `VerifyChain` of world.go accepts, and the hop that `AddHop` adds.
use nara.Prelude.{
  ℕ, zero, suc, ◌+◌, ◌≤◌, ◌<◌, ◌≡◌, refl, sym, subst, ap, inl, inr, true, Option, none, some, List,
  [], ◌∷◌, ◌++◌, String, arith, length, get_elem?, get_elem?-some, take, Option-cases, >>=-some,
}
use nara.Prelude.Int.{ℤ}
use nara.Event.Content.{Host}
use nara.Event.Signature.{Crypto, verify_signature_base64}
use nara.World.{
  WorldHop, WorldMessage, WorldHost, hops_of, data_to_sign, data_to_sign_for_hop, add_hop,
  verify_hop, verify_hops, verify_chain,
}

get_elem?-append :
    {A : Type 0} (xs ys : List A) (i : ℕ) → i < length xs → get_elem? (xs ++ ys) i ≡ get_elem? xs i
get_elem?-append [] ys i h = absurd (omega arith)
get_elem?-append (x ∷ xs) ys zero h = refl
get_elem?-append (x ∷ xs) ys (suc i) h = get_elem?-append xs ys i (omega arith)

take-append : {A : Type 0} (xs ys : List A) (i : ℕ) → i ≤ length xs → take i (xs ++ ys) ≡ take i xs
take-append xs ys zero h = refl
take-append [] ys (suc i) h = absurd (omega arith)
take-append (x ∷ xs) ys (suc i) h = ap (◌∷◌ x) (take-append xs ys i (omega arith))

get_elem?-length :
    {A : Type 0} (xs : List A) (x : A) → get_elem? (xs ++ x ∷ []) (length xs) ≡ some x
get_elem?-length [] x = refl
get_elem?-length (y ∷ xs) x = get_elem?-length xs x

take-length : {A : Type 0} (xs ys : List A) → take (length xs) (xs ++ ys) ≡ xs
take-length [] ys = refl
take-length (x ∷ xs) ys = ap (◌∷◌ x) (take-length xs ys)

module _ (c : Crypto) (h : Host) (w : WorldHost) (get_public_key : String → Option (List ℕ)) where
  abbrev with_hop : WorldMessage → WorldHop → WorldMessage
  with_hop wm hop = record wm { hops = some (hops_of wm.hops ++ hop ∷ []) }

  earlier_hop :
      (wm : WorldMessage) (hop : WorldHop) (i : ℕ)
      → i < length (hops_of wm.hops)
      → data_to_sign_for_hop c h w (with_hop wm hop) i ≡ data_to_sign_for_hop c h w wm i
  unfolding data_to_sign_for_hop
  earlier_hop wm hop i small =
      let (x, at) = get_elem?-some (hops_of wm.hops) i small in
      rw
        (
          data_to_sign_for_hop,
          get_elem?-append (hops_of wm.hops) (hop ∷ []) i small,
          at,
          take-append (hops_of wm.hops) (hop ∷ []) i (omega arith),
        )
        refl

  own_hop :
      (wm : WorldMessage) (hop : WorldHop)
      → data_to_sign_for_hop c h w (with_hop wm hop) (length (hops_of wm.hops))
        ≡ some (data_to_sign c h w (record wm { hops = some (hops_of wm.hops) }) hop.nara)
  unfolding data_to_sign_for_hop data_to_sign
  own_hop wm hop =
      rw
        (
          data_to_sign_for_hop,
          get_elem?-length (hops_of wm.hops) hop,
          take-length (hops_of wm.hops) (hop ∷ []),
        )
        refl

  verify_earlier_hop :
      (wm : WorldMessage) (hop : WorldHop) (i : ℕ) (x : WorldHop)
      → i < length (hops_of wm.hops)
      → verify_hop c h w get_public_key (with_hop wm hop) i x
        ≡ verify_hop c h w get_public_key wm i x
  unfolding verify_hop
  verify_earlier_hop wm hop i x small = elim (Option-cases (get_public_key x.nara)) [
    | inl unknown ↦ rw (verify_hop, unknown) refl
    | inr (key, known) ↦ elim (Option-cases (c.decode_base64 x.signature)) [
      | inl undecoded ↦ rw (verify_hop, known, undecoded) refl
      | inr (signature, decoded) ↦ rw (verify_hop, known, decoded, earlier_hop wm hop i small) refl
    ]
  ]

  verify_own_hop :
      (wm : WorldMessage) (hop : WorldHop) (key : List ℕ)
      → get_public_key hop.nara ≡ some key
      → verify_signature_base64 c key
          (data_to_sign c h w (record wm { hops = some (hops_of wm.hops) }) hop.nara)
          hop.signature
        ≡ true
      → verify_hop c h w get_public_key (with_hop wm hop) (length (hops_of wm.hops)) hop ≡ some none
  unfolding verify_hop verify_signature_base64
  verify_own_hop wm hop key known good = elim (Option-cases (c.decode_base64 hop.signature)) [
    | inl undecoded ↦ absurd (cc (rw (verify_signature_base64, undecoded) at good))
    | inr (signature, decoded) ↦
        rw
          (
            verify_hop,
            known,
            decoded,
            own_hop wm hop,
            (rw (verify_signature_base64, decoded) at good),
          )
          refl
  ]

  verify_hops-append :
      (wm : WorldMessage) (hop : WorldHop) (i : ℕ) (rest : List WorldHop)
      → i + length rest ≡ length (hops_of wm.hops)
      → verify_hops c h w get_public_key wm i rest ≡ some none
      → verify_hop c h w get_public_key (with_hop wm hop) (length (hops_of wm.hops)) hop ≡ some none
      → verify_hops c h w get_public_key (with_hop wm hop) i (rest ++ hop ∷ []) ≡ some none
  unfolding verify_hops
  verify_hops-append wm hop i [] at done own =
      let here : i ≡ length (hops_of wm.hops) = omega (arith, at) in rw (here, own) refl
  verify_hops-append wm hop i (x ∷ rest) at done own =
      let (error, checked, later) =
        >>=-some (verify_hop c h w get_public_key wm i x)
          (λ error. elim error [
            | none ↦ verify_hops c h w get_public_key wm (suc i) rest
            | some e ↦ some (some e)
          ])
          none done in
      elim (Option-cases error) [
        | inr (e, failed) ↦ absurd (cc (rw failed at later))
        | inl fine ↦
            rw (verify_earlier_hop wm hop i x (omega (arith, at)), checked, fine)
              (verify_hops-append wm hop (suc i) rest (omega (arith, at)) (rw fine at later) own)
      ]

  present :
      (wm : WorldMessage) (hops : List WorldHop)
      → wm.hops ≡ some hops
      → record wm { hops = some (hops_of wm.hops) } ≡ wm
  present wm hops there =
      ap (λ (x : Option (List WorldHop)). record wm { hops = x }) (rw there refl)

  -- A chain that `VerifyChain` accepts is accepted with the hop that `AddHop` signs on top, by each
  -- nara that has the signer's key, where the slice of hops is not nil. Nothing is asked of the
  -- hash, the JSON or the stamp.
  pub add_hop-verifies :
      (sign_base64 : List ℕ → String) (now : ℤ) (nara stamp : String) (wm : WorldMessage)
      (hops : List WorldHop) (key : List ℕ)
      → wm.hops ≡ some hops
      → get_public_key nara ≡ some key
      → ((message : List ℕ) → verify_signature_base64 c key message (sign_base64 message) ≡ true)
      → verify_chain c h w get_public_key wm ≡ some none
      → verify_chain c h w get_public_key (add_hop c h w sign_base64 now nara stamp wm) ≡ some none
  unfolding verify_chain add_hop
  add_hop-verifies sign_base64 now nara stamp wm hops key there known good done =
      let hop : WorldHop = record {
        nara = nara;
        timestamp = now;
        signature = sign_base64 (data_to_sign c h w wm nara);
        stamp = stamp;
      } in
      verify_hops-append wm hop 0 (hops_of wm.hops) (omega arith) done (
        verify_own_hop wm hop key known (
          subst
            (λ x.
              verify_signature_base64 c key (data_to_sign c h w x nara)
                (sign_base64 (data_to_sign c h w wm nara))
              ≡ true)
            (sym (present wm hops there)) (good (data_to_sign c h w wm nara))))
