-- ===== src/Keyring.antt =====
-- utilities/keyring/keyring.go: the identity of a nara and the public keys of the others.
--
-- The mutex makes each method one step. A nil key is `none`. `ed25519.Verify` panics on a public
-- key of another length than 32 bytes, which is the answer `none` of `verify`. The keypair is the
-- public key and the signing of `ed25519`; the base64 encoder is an argument.
pub mod Lookups
use nara.Prelude.{
  ℕ, Bool, true, false, not, ◌&&◌, ◌||◌, Option, none, some, List, [], ◌∷◌, String, ◌==◌, eqb,
  length, if◌then◌else◌,
}
use nara.Prelude.Dict.{Dict, lookup, insert}
use nara.Event.Signature.{Crypto}

pub record NaraKeypair : Type 0 where
  pub public_key : Option (List ℕ)
  pub sign : List ℕ → List ℕ

pub record Keyring : Type 0 where
  pub keypair : NaraKeypair
  pub my_id : String
  pub keys : Dict (List ℕ)

-- The two errors of `RegisterBase64` and `ParsePublicKey`.
pub data KeyError : Type 0 where
  bad_base64 : KeyError
  invalid_size : KeyError

pub data Parsed : Type 0 where
  parsed : List ℕ → Parsed
  refused : KeyError → Parsed

-- `New`
abbrev pub new_keyring : NaraKeypair → String → Keyring
new_keyring keypair my_id = record { keypair = keypair; my_id = my_id; keys = [] }

-- `Register`
unfoldable pub register_key : Keyring → String → List ℕ → Keyring
unfolding insert
register_key k id key =
    if id == "" || eqb (length key) 0 then k else record k { keys = insert id key k.keys }

-- `Lookup`
unfoldable pub lookup_key : Keyring → String → Option (List ℕ)
unfolding lookup
lookup_key k id =
    if id == "" then none else if id == k.my_id then k.keypair.public_key else lookup id k.keys

-- `Has`
unfoldable pub has_key : Keyring → String → Bool
unfolding lookup_key
has_key k id = elim (lookup_key k id) [ none ↦ false | some key ↦ true ]

-- `Count`
unfoldable pub count_keys : Keyring → ℕ
count_keys k = length k.keys

-- `MyPublicKeyBase64`, `SignBase64` and `FormatPublicKey`; a nil key is encoded like an empty one
module _ (encode_base64 : List ℕ → String) where
  unfoldable pub my_public_key_base64 : Keyring → String
  my_public_key_base64 k = elim k.keypair.public_key [
    | none ↦ encode_base64 []
    | some key ↦ encode_base64 key
  ]

  unfoldable pub sign_data_base64 : Keyring → List ℕ → String
  sign_data_base64 k content = encode_base64 (k.keypair.sign content)

module _ (c : Crypto) where
  -- `ParsePublicKey`
  unfoldable pub parse_key : String → Parsed
  parse_key s = elim (c.decode_base64 s) [
    | none ↦ refused bad_base64
    | some key ↦ if eqb (length key) 32 then parsed key else refused invalid_size
  ]

  -- `RegisterBase64`: the error is `none` for nil
  unfoldable pub register_base64 : Keyring → String → String → Keyring × Option KeyError
  unfolding register_key
  register_base64 k id key_base64 =
      if id == "" || key_base64 == "" then (k, none) else elim (c.decode_base64 key_base64) [
        | none ↦ (k, some bad_base64)
        | some key ↦
            if eqb (length key) 32 then (register_key k id key, none) else (k, some invalid_size)
      ]

  -- `Verify`
  unfoldable pub verify : Keyring → String → List ℕ → List ℕ → Option Bool
  unfolding lookup_key
  verify k id content signature = elim (lookup_key k id) [
    | none ↦ some false
    | some key ↦
        if not (eqb (length signature) 64)
        then some false
        else if eqb (length key) 32
        then some (c.ed25519_verify key content signature)
        else none
  ]

  -- `VerifyBase64`
  unfoldable pub verify_base64 : Keyring → String → List ℕ → String → Option Bool
  unfolding verify
  verify_base64 k id content signature = elim (c.decode_base64 signature) [
    | none ↦ some false
    | some s ↦ verify k id content s
  ]

  -- `VerifyWithKey`
  unfoldable pub verify_by_key : List ℕ → List ℕ → List ℕ → Bool
  verify_by_key key content signature =
      if not (eqb (length key) 32) || not (eqb (length signature) 64)
      then false
      else c.ed25519_verify key content signature
