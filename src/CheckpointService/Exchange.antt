-- ===== src/CheckpointService/Exchange.antt =====
-- A vote on its way from one nara to another: what `HandleProposal` of the voter makes, `HandleVote`
-- of the proposer collects.
use nara.Prelude.{ℕ, ◌≡◌, true, false, some, List, ◌==◌}
use nara.Event.Signature.{Crypto, verify_signature_base64}
use nara.CheckpointService.{CheckpointService, Node, key_for_id}

-- The key that one nara knows for another's ID is that of its keypair, and no signature is empty.
pub record Knows (c : Crypto) (a b : Node) : Type 0 where
  pub key : List ℕ
  pub known : key_for_id a b.id ≡ some key
  pub fits :
      (message : List ℕ) → verify_signature_base64 c key message (b.sign_base64 message) ≡ true
  pub signs_all : (message : List ℕ) → (b.sign_base64 message == "") ≡ false
