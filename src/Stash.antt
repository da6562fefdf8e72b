-- ===== src/Stash.antt =====
-- messages/stash.go and services/stash/service.go: the messages of the stash, the stashes that a
-- nara keeps for others, and the state of the service. The children hold the handlers and the side
-- of the owner.
--
-- Bytes are numbers, and a nil slice is the empty one. A time is the number of nanoseconds since
-- the epoch. A method that takes the mutex is one step. An error is the text that says what
-- failed, without the error it wraps. What only goes to the log is left out.
pub mod Handlers
pub mod Owner
use nara.Prelude.{
  ℕ, ◌/◌, Bool, true, false, not, Option, none, some, List, [], ◌∷◌, String, ◌==◌, eqb, ltb, length,
  if◌then◌else◌,
}
use nara.Prelude.Int.{ℤ, pos, negsuc}
use nara.Prelude.Dict.{Dict, lookup, insert}
use nara.Runtime.{Message, CallResult}

pub record StashStorePayload : Type 0 where
  pub owner_id : String
  pub owner : String
  pub nonce : List ℕ
  pub ciphertext : List ℕ
  pub timestamp : ℤ

pub record StashStoreAck : Type 0 where
  pub owner_id : String
  pub stored_at : ℤ
  pub success : Bool
  pub reason : String

pub record StashRequestPayload : Type 0 where
  pub owner_id : String
  pub request_id : String

pub record StashResponsePayload : Type 0 where
  pub owner_id : String
  pub request_id : String
  pub found : Bool
  pub nonce : List ℕ
  pub ciphertext : List ℕ
  pub stored_at : ℤ

pub record StashRefreshPayload : Type 0 where
  pub owner_id : String
  pub owner : String

-- A pointer to one of the payloads, as the payload of a message.
pub data StashPayload : Type 0 where
  store_payload : StashStorePayload → StashPayload
  store_ack : StashStoreAck → StashPayload
  request_payload : StashRequestPayload → StashPayload
  response_payload : StashResponsePayload → StashPayload
  refresh_payload : StashRefreshPayload → StashPayload

-- `Validate` of `StashStorePayload`, with `none` for no error
unfoldable pub validate_store : StashStorePayload → Option String
validate_store p =
    if p.owner_id == ""
    then some "owner_id required"
    else if not (eqb (length p.nonce) 24)
    then some "nonce must be 24 bytes for XChaCha20-Poly1305"
    else if eqb (length p.ciphertext) 0
    then some "ciphertext required"
    else none

-- `Validate` of `StashRequestPayload`
unfoldable pub validate_request : StashRequestPayload → Option String
validate_request p = if p.owner_id == "" then some "owner_id required" else none

-- `Validate` of `StashRefreshPayload`, which no handler calls
unfoldable pub validate_refresh : StashRefreshPayload → Option String
validate_refresh p = if p.owner_id == "" then some "owner_id required" else none

pub record EncryptedStash : Type 0 where
  pub owner_id : String
  pub nonce : List ℕ
  pub ciphertext : List ℕ
  pub stored_at : ℕ

-- `Service`, without the runtime, the log and the keypair
pub record StashService : Type 0 where
  pub stored : Dict EncryptedStash
  pub confidants : List String
  pub target_confidants : ℕ
  pub my_stash_data : List ℕ
  pub my_stash_timestamp : ℤ

pub record PeerInfo : Type 0 where
  pub id : String
  pub name : String
  pub uptime : ℤ

-- What the service calls of the runtime and of the clock, over the state of everything else.
-- `emit` gives the error, `seal` the nonce and the ciphertext, and `none` is an error of `seal` and
-- of `open_sealed`.
pub record RuntimeInterface : Type 1 where
  pub State : Type 0
  pub me_id : String
  pub me_name : String
  pub memory_mode : String
  pub online_peers : State → List PeerInfo
  pub read_clock : State → ℕ × State
  pub emit : Message StashPayload → State → Option String × State
  pub call : Message StashPayload → State → CallResult StashPayload × State
  pub seal : List ℕ → State → Option (List ℕ × List ℕ) × State
  pub open_sealed : List ℕ → List ℕ → Option (List ℕ)

-- `t.Unix()`
abbrev pub unix : ℕ → ℤ
unix nanoseconds = pos (nanoseconds / 1000000000)

-- A literal of `runtime.Message` with these fields.
unfoldable pub new_message : String → ℤ → String → StashPayload → Message StashPayload
new_message kind version to_id payload = record {
  id = "";
  content_key = "";
  kind = kind;
  version = version;
  from = "";
  from_id = "";
  to = "";
  to_id = to_id;
  timestamp = negsuc 62135596799999999999;
  payload = some payload;
  signature = [];
  in_reply_to = "";
}

-- `NewService`
abbrev pub new_stash_service : StashService
new_stash_service = record {
  stored = [];
  confidants = [];
  target_confidants = 3;
  my_stash_data = [];
  my_stash_timestamp = pos 0;
}

-- `GetStoredStash`
unfoldable pub get_stored_stash : StashService → String → Option EncryptedStash
unfolding lookup
get_stored_stash s owner_id = lookup owner_id s.stored

-- `HasStashFor`
unfoldable pub has_stash_for : StashService → String → Bool
unfolding lookup
has_stash_for s owner_id = elim (lookup owner_id s.stored) [ none ↦ false | some stash ↦ true ]

-- `StoredCount`
unfoldable pub stored_count : StashService → ℕ
stored_count s = length s.stored

-- `StorageLimit`
unfoldable pub storage_limit : String → ℕ
storage_limit mode =
    if mode == "low" then 5 else if mode == "medium" then 20 else if mode == "high" then 50 else 5

-- `canStore`, in a memory mode
unfoldable pub can_store : String → StashService → String → Bool
unfolding lookup storage_limit
can_store mode s owner_id = elim (lookup owner_id s.stored) [
  | some stash ↦ true
  | none ↦ ltb (length s.stored) (storage_limit mode)
]

-- `store`, at a time
unfoldable pub store_stash : ℕ → StashService → String → List ℕ → List ℕ → StashService
unfolding insert
store_stash now s owner_id nonce ciphertext = record s {
  stored =
      insert owner_id
        (record { owner_id = owner_id; nonce = nonce; ciphertext = ciphertext; stored_at = now })
        s.stored;
}

-- `SetConfidants`
unfoldable pub set_confidants : List String → StashService → StashService
set_confidants ids s = record s { confidants = ids }

-- `HasStashData`
unfoldable pub has_stash_data : StashService → Bool
has_stash_data s = ltb 0 (length s.my_stash_data)

-- `GetStashData`
unfoldable pub get_stash_data : StashService → List ℕ × ℤ
get_stash_data s = (s.my_stash_data, s.my_stash_timestamp)

-- `ClearMyStash`
unfoldable pub clear_my_stash : StashService → StashService
clear_my_stash s = record s { my_stash_data = []; my_stash_timestamp = pos 0 }
