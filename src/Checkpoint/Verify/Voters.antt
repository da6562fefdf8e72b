-- ===== src/Checkpoint/Verify/Voters.antt =====
-- What the counts of `VerifySignatureWithCounts` mean, and what they do not exclude.
use nara.Prelude.{
  ℕ, ◌≤◌, ◌≡◌, refl, true, Option, none, some, List, [], ◌∷◌, String, arith, leb, length,
}
use nara.Event.{CheckpointEventPayload}
use nara.Event.Content.{Host}
use nara.Event.Signature.{Crypto, PublicKeyLookup, verify_signature_base64}
use nara.Checkpoint.Verify.{
  attestation_of, signable_content, count_voters, verify_signature_with_counts,
}

module _ (c : Crypto) (h : Host) where
  count_voters-bounds :
      (lookup : PublicKeyLookup) (p : CheckpointEventPayload) (voters signatures : List String)
      → ((count_voters c h lookup p voters signatures).1
          ≤ (count_voters c h lookup p voters signatures).0)
        × ((count_voters c h lookup p voters signatures).0 ≤ length voters)
  unfolding count_voters
  count_voters-bounds lookup p [] signatures = (omega arith, omega arith)
  count_voters-bounds lookup p (v ∷ voters) [] = (omega arith, omega arith)
  count_voters-bounds lookup p (v ∷ voters) (s ∷ signatures) =
      let (good, known) = count_voters-bounds lookup p voters signatures in
      (ground (arith, good, known), ground (arith, good, known))

  -- The counts are ordered: the valid signatures are at most the known voters, and those at most
  -- all voters. A checkpoint is valid exactly when at least two signatures are.
  verify_signature_with_counts_lem :
      (lookup : Option PublicKeyLookup) (p : CheckpointEventPayload)
      → ((verify_signature_with_counts c h lookup p).valid_count
          ≤ (verify_signature_with_counts c h lookup p).known_count)
        × ((verify_signature_with_counts c h lookup p).known_count
            ≤ (verify_signature_with_counts c h lookup p).total_count)
        × ((verify_signature_with_counts c h lookup p).valid
            ≡ leb 2 (verify_signature_with_counts c h lookup p).valid_count)
  unfolding verify_signature_with_counts
  verify_signature_with_counts_lem none p = (omega arith, omega arith, refl)
  verify_signature_with_counts_lem (some lookup) p =
      let (good, known) = count_voters-bounds lookup p p.voter_ids p.signatures in
      (ground (arith, good, known), ground (arith, good, known), ground (arith, good, known))

  -- One voter is enough: a checkpoint that lists the same known voter twice, with the same good
  -- signature, is valid.
  pub repeated_voter_is_valid :
      (lookup : PublicKeyLookup) (p : CheckpointEventPayload) (voter signature : String)
      (key : List ℕ)
      → lookup voter "" ≡ some key
      → verify_signature_base64 c key
          (c.bytes (signable_content c h (attestation_of p voter)))
          signature
        ≡ true
      → (verify_signature_with_counts c h (some lookup) (record p {
        voter_ids = voter ∷ voter ∷ [];
        signatures = signature ∷ signature ∷ [];
      })).valid
        ≡ true
  unfolding verify_signature_with_counts count_voters attestation_of signable_content
  repeated_voter_is_valid lookup p voter signature key known good = ground (arith, known, good)

  count_voters-subject :
      (lookup : PublicKeyLookup) (p : CheckpointEventPayload) (name : String)
      (voters signatures : List String)
      → count_voters c h lookup (record p { subject = name }) voters signatures
        ≡ count_voters c h lookup p voters signatures
  unfolding count_voters attestation_of signable_content
  count_voters-subject lookup p name [] signatures = refl
  count_voters-subject lookup p name (v ∷ voters) [] = refl
  count_voters-subject lookup p name (v ∷ voters) (s ∷ signatures) =
      ground (arith, count_voters-subject lookup p name voters signatures)

  -- The voters' signatures do not cover the subject's name: a checkpoint with its subject replaced
  -- by any name verifies with the same outcome and the same counts.
  pub verify-subject_unbound :
      (lookup : Option PublicKeyLookup) (p : CheckpointEventPayload) (name : String)
      → verify_signature_with_counts c h lookup (record p { subject = name })
        ≡ verify_signature_with_counts c h lookup p
  unfolding verify_signature_with_counts
  verify-subject_unbound none p name = refl
  verify-subject_unbound (some lookup) p name =
      ground (arith, count_voters-subject lookup p name p.voter_ids p.signatures)
