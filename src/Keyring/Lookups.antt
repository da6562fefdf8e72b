-- ===== src/Keyring/Lookups.antt =====
-- What a registration changes in the later checks of signatures.
use nara.Prelude.{
  ℕ, ◌≡◌, ◌≢◌, refl, inl, inr, ◌&&◌, ◌||◌, not, List, String, ◌==◌, eqb, eq_iff, arith, length,
  some, false, Bool-cases, if◌then◌else◌,
}
use nara.Prelude.Dict.{lookup-insert}
use nara.Event.Signature.{Crypto}
use nara.Keyring.{Keyring, register_key, register_base64, lookup_key, verify, verify_by_key}

lookup_key-register_key :
    (k : Keyring) (id other : String) (key : List ℕ)
    → id ≢ ""
    → length key ≢ 0
    → lookup_key (register_key k id key) other
      ≡ (if id == other && not (id == k.my_id) then some key else lookup_key k other)
unfolding lookup_key register_key
lookup_key-register_key k id other key named full = ground (
  arith,
  named,
  full,
  eq_iff id "",
  eq_iff other "",
  eq_iff id other,
  eq_iff id k.my_id,
  eq_iff other k.my_id,
  lookup-insert id other key k.keys,
)

-- The check of a signature, by the key that is looked up.
verify-looked_up :
    (c : Crypto) (k j : Keyring) (id : String) (content signature : List ℕ)
    → lookup_key j id ≡ lookup_key k id
    → verify c j id content signature ≡ verify c k id content signature
unfolding verify
verify-looked_up c k j id content signature same = rw (verify, same) refl

verify-known :
    (c : Crypto) (k : Keyring) (id : String) (key content signature : List ℕ)
    → lookup_key k id ≡ some key
    → length key ≡ 32
    → verify c k id content signature ≡ some (verify_by_key c key content signature)
unfolding verify verify_by_key
verify-known c k id key content signature known size =
    rw (verify, known)
      elim (Bool-cases (eqb (length signature) 64)) [
        | inl whole ↦ rw (whole, size) refl
        | inr short ↦ rw (short, size) refl
      ]

register_key-verify :
    (c : Crypto) (k : Keyring) (id other : String) (key content signature : List ℕ)
    → id ≢ ""
    → length key ≡ 32
    → verify c (register_key k id key) other content signature ≡ (
        if id == other && not (id == k.my_id)
        then some (verify_by_key c key content signature)
        else verify c k other content signature)
register_key-verify c k id other key content signature named size =
    let found = lookup_key-register_key k id other key named (omega (arith, size)) in
    elim (Bool-cases (id == other && not (id == k.my_id))) [
      | inl hit ↦ rw hit (
          verify-known c (register_key k id key) other key content signature (rw hit at found) size)
      | inr miss ↦
          rw miss (
            verify-looked_up c k (register_key k id key) other content signature (rw miss at found))
    ]

-- Where its text decodes, `RegisterBase64` replaces the key of an ID by one of 32 bytes, whatever
-- key was there, and ignores any other: `Verify` then answers for that ID, unless it is the nara's
-- own, as `VerifyWithKey` does with the new key, without a panic, and for every other ID as before.
pub register_base64-verify :
    (c : Crypto) (k : Keyring) (id other key_base64 : String) (key content signature : List ℕ)
    → id ≢ ""
    → key_base64 ≢ ""
    → c.decode_base64 key_base64 ≡ some key
    → verify c (register_base64 c k id key_base64).0 other content signature ≡ (
        if eqb (length key) 32 && (id == other && not (id == k.my_id))
        then some (verify_by_key c key content signature)
        else verify c k other content signature)
unfolding register_base64
register_base64-verify c k id other key_base64 key content signature named given decoded =
    let full : (id == "" || key_base64 == "") ≡ false =
      ground (arith, named, given, eq_iff id "", eq_iff key_base64 "") in
    rw (full, decoded)
      elim (Bool-cases (eqb (length key) 32)) [
        | inl sized ↦
            rw sized
              (register_key-verify c k id other key content signature named (ground (arith, sized)))
        | inr wrong ↦ rw wrong refl
      ]
