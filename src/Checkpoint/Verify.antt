-- ===== src/Checkpoint/Verify.antt =====
-- `VerifySignatureWithCounts` of checkpoint_types.go and `SignableContent` of
-- identity_attestation.go: the signatures of the voters under a checkpoint.
pub mod Voters
use nara.Prelude.{
  ℕ, zero, suc, ◌+◌, ◌≤◌, ◌≡◌, refl, Bool, true, false, not, ◌&&◌, Option, none, some, List, [],
  ◌∷◌, String, ◌==◌, arith, leb, eqb, length, if◌then◌else◌,
}
use nara.Prelude.Int.{ℤ, pos, leb_ℤ, eqb_ℤ}
use nara.Event.{NaraObservation, CheckpointEventPayload}
use nara.Event.Content.{Host, join}
use nara.Event.Signature.{Crypto, PublicKeyLookup, verify_signature_base64}

pub record Attestation : Type 0 where
  pub version : ℤ
  pub subject : String
  pub subject_id : String
  pub observation : NaraObservation
  pub attester : String
  pub attester_id : String
  pub last_seen_checkpoint_id : String
  pub as_of_time : ℤ
  pub signature : String

pub record CheckpointVerificationResult : Type 0 where
  pub valid : Bool
  pub valid_count : ℕ
  pub known_count : ℕ
  pub total_count : ℕ

abbrev pub min_checkpoint_signatures : ℕ
min_checkpoint_signatures = 2

-- `if version == 0 { version = 1 }`
abbrev pub default_version : ℤ → ℤ
default_version v = if eqb_ℤ v (pos 0) then pos 1 else v

-- The attestation that a voter of the checkpoint signed.
unfoldable pub attestation_of : CheckpointEventPayload → String → Attestation
attestation_of p voter = record {
  version = default_version p.version;
  subject = p.subject;
  subject_id = p.subject_id;
  observation = p.observation;
  attester = "";
  attester_id = voter;
  last_seen_checkpoint_id =
      if leb_ℤ (pos 2) (default_version p.version) then p.previous_checkpoint_id else "";
  as_of_time = p.as_of_time;
  signature = "";
}

module _ (c : Crypto) (h : Host) where
  abbrev attestation_fields : Attestation → List String → List String
  attestation_fields a rest =
      h.format_int (default_version a.version)
      ∷ ":"
      ∷ a.attester_id
      ∷ ":"
      ∷ a.subject_id
      ∷ ":"
      ∷ h.format_int a.as_of_time
      ∷ ":"
      ∷ h.format_int a.observation.restarts
      ∷ ":"
      ∷ h.format_int a.observation.total_uptime
      ∷ ":"
      ∷ h.format_int a.observation.start_time
      ∷ rest

  -- `SignableContent`
  unfoldable pub signable_content : Attestation → String
  signable_content a =
      if eqb_ℤ (default_version a.version) (pos 1)
      then join ("attestation:v" ∷ attestation_fields a [])
      else join ("attestation:v" ∷ attestation_fields a (":" ∷ a.last_seen_checkpoint_id ∷ []))

  -- The loop over the voters: how many are known and how many of their signatures are good.
  unfoldable pub count_voters :
      PublicKeyLookup → CheckpointEventPayload → List String → List String → ℕ × ℕ
  unfolding attestation_of signable_content
  count_voters lookup p [] signatures = (0, 0)
  count_voters lookup p (voter ∷ voters) [] = (0, 0)
  count_voters lookup p (voter ∷ voters) (s ∷ signatures) =
      let (known, good) = count_voters lookup p voters signatures in
      elim (lookup voter "") [
        | none ↦ (known, good)
        | some key ↦
            if verify_signature_base64 c key (c.bytes (signable_content (attestation_of p voter))) s
            then (suc known, suc good)
            else (suc known, good)
      ]

  -- `VerifySignatureWithCounts`
  unfoldable pub verify_signature_with_counts :
      Option PublicKeyLookup → CheckpointEventPayload → CheckpointVerificationResult
  unfolding count_voters
  verify_signature_with_counts none p = record {
    valid = false;
    valid_count = 0;
    known_count = 0;
    total_count = length p.voter_ids;
  }
  verify_signature_with_counts (some lookup) p =
      if not (eqb (length p.voter_ids) (length p.signatures))
      then record {
        valid = false;
        valid_count = 0;
        known_count = 0;
        total_count = length p.voter_ids;
      }
      else let (known, good) = count_voters lookup p p.voter_ids p.signatures in
        record {
          valid = leb min_checkpoint_signatures good;
          valid_count = good;
          known_count = known;
          total_count = length p.voter_ids;
        }
