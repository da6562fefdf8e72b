-- ===== src/Tests/Keys.antt =====
-- A keyring in which the key of a nara is replaced.
use nara.Prelude.{◌≡◌, refl, eq_iff, arith, some, [], ◌∷◌}
use nara.Event.Signature.{Crypto}
use nara.Keyring.{NaraKeypair, Keyring, register_base64, verify, verify_by_key}
use nara.Keyring.Lookups.{register_base64-verify}
use nara.Tests.Data.{crypto, key, bytes_64}

abbrev keypair : NaraKeypair
keypair = record { public_key = some key; sign = λ content. bytes_64 }

-- The nara `ann` has a key of one byte for `bob`.
abbrev keyring : Keyring
keyring = record { keypair = keypair; my_id = "ann"; keys = ("bob", 7 ∷ []) ∷ [] }

abbrev crypto_32 : Crypto
crypto_32 = record crypto { decode_base64 = λ s. some key }

register_base64-verify_example :
    verify crypto_32 (register_base64 crypto_32 keyring "bob" "k").0 "bob" [] bytes_64
    ≡ some (verify_by_key crypto_32 key [] bytes_64)
register_base64-verify_example =
    register_base64-verify crypto_32 keyring "bob" "bob" "k" key [] bytes_64
      (λ h. ground (arith, eq_iff "bob" "", h)) (λ h. ground (arith, eq_iff "k" "", h)) refl
