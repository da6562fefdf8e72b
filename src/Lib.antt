-- ===== src/Lib.antt =====
-- nara is a network of small programs, the naras, that tell each other what they see. Every
-- observation, ping, joke, arrival, departure and checkpoint is a signed event. Each nara keeps the
-- events it knows in a ledger of bounded size, exchanges them with its neighbours, and derives from
-- them who is online, how often each nara restarted and for how long it was up.
--
-- Parts and files:
--   Event (sync_event.go, presence_heythere.go, presence_chau.go, checkpoint_types.go): `SyncEvent`
--     with its payloads. Event/Valid has `IsValid`, `GetActor` and `GetTarget`; Event/Content has
--     `ContentString` and `ComputeID`; Event/Signature has `signableData`, `VerifyWithKey` and the
--     checks of identity/crypto.go; Event/Create has the constructors and `Sign`, and
--     Event/Create/Signed `Verify`.
--   RateLimit (sync_ledger.go): `ObservationRateLimit`, with `CheckAndAdd` and `Cleanup`.
--   Ledger (sync_ledger.go): `SyncLedger` and the tests on events. Ledger/Add has `AddEvent` and
--     `AddEventWithDedup`, with `addObservationWithCompaction` in Ledger/Add/Compact; Ledger/Prune
--     has `pruneUnlocked`; Ledger/Remove has `RemoveEventsFor`; Ledger/Query and Ledger/Page have the
--     reads; Ledger/Filters has `AddEventFiltered`, `AddEventWithRateLimit`,
--     `AddSocialEventFiltered` (with sync_helpers.go) and `MergeEvents`; Ledger/Legacy the
--     convenience methods. Ledger/Invariant states what every operation keeps: an exact index of
--     IDs, distinct IDs and valid events; Ledger/Runs has the runs in which the operations come in
--     any order.
--   Checkpoint (checkpoint_types.go, identity_attestation.go): the latest checkpoint of a nara, the
--     signatures of its voters, and the restart count and uptime that start from it.
--   Projection (projections.go): the incremental reader of the ledger, for any handler.
--     Projection/Reading has its runs, between which the ledger changes.
--   Presence (presence_projection.go): the online status, a handler for Projection.
--   Opinion (neighbourhood_opinion.go): the reports of restarts and first sightings by subject, a
--     handler for Projection, and the opinions derived from them with Consensus and Checkpoint.
--   Neighbourhood (neighbourhood_observations.go, neighbourhood_tracking.go,
--     neighbourhood_queries.go, neighbourhood_pruning.go, observations.go): the lookups of naras, the
--     pruning of inactive ones and the collection of ghosts. A pointer to a nara is an address, so
--     that two indexes can hold one nara or two. The children are proofs.
--   Consensus (consensus.go, math_helpers.go): `consensusByUptime` and the trimmed means.
--   CheckpointService (checkpoint_service.go): the rounds of proposals and votes that make a
--     checkpoint. CheckpointService/Consensus has `tryFindConsensus`; CheckpointService/Handlers the
--     methods that propose, vote and collect; CheckpointService/Finalize those that end a round,
--     store and publish; CheckpointService/Steps the runs, in which the handlers and goroutines
--     come in any order and other parts change the ledger at will. The other children are proofs.
--   Runtime (runtime/message.go, runtime/interfaces.go): the message and the registry of calls.
--     Runtime/Stages has the stages of stage.go, stages_receive.go and stages_emit.go and
--     `Pipeline.Run`; Runtime/Behaviors the templates of behavior.go; Runtime/Flow `Emit`, `Call`
--     and `Receive` of runtime.go. The other children are proofs.
--   Stash (messages/stash.go, services/stash): the encrypted stashes that naras keep for each other.
--     Stash/Handlers has the handlers of handlers.go and behaviors.go, Stash/Handlers/Race their
--     steps when requests come in at once; Stash/Owner has the owner's methods of service.go, and
--     Stash/Owner/Exchange two naras on a link that loses nothing. The other children are proofs.
--   Keyring (utilities/keyring/keyring.go): the public keys of the other naras and the checks of
--     signatures by them.
--   World (world.go): the messages that travel from nara to nara, with `AddHop`, `VerifyChain`,
--     `ChooseNextNara` and `HandleIncoming`.
--   Prelude: the names all modules share, lists and counts, `int64`, string-keyed maps, and the
--     contract of `sort.Slice` with one sort that meets it. Tests: runs at concrete data.
--
-- A method that locks a mutex is one step: a function from the state before to the state after and
-- the answer. The listeners of a ledger are the trace `notified` of the events handed to them. A nil
-- pointer is `none` of an `Option` field, and a function that may dereference one returns an
-- `Option`, whose `none` is the panic. Loops are structural recursion over the list they range over,
-- so no fuel is needed. The current time is an argument.
--
-- Numbers: an `int64` is `ℤ` with wrap-around written out in `add64` and `sub64`; lengths, counts and
-- the version of a ledger are natural numbers. A `float64` is its bit pattern.
--
-- Parameters: `Host` stands for fmt, strconv and crypto/sha256; `Crypto` for encoding/base64 and
-- crypto/ed25519; `Sorter` for `sort.Slice`, of which the model uses that it permutes, and that it
-- sorts by a strict weak order. It need not be stable. `MapRange` is the order in which Go ranges
-- over a map, of which only that it permutes the entries is used. `Surroundings` are the
-- interfaces that the runtime is given, with JSON, the hash and base58. A `Node` is the name, the
-- ID, the keypair and the pool of keys of a nara. `WorldHost` stands for JSON and base64 of a hop
-- and the comparison of clout.
--
-- Not modelled: the transports (MQTT, mesh HTTP), the HTTP API, the web interface and the logs,
-- which are input and output; the start and stop of services and the adapters of the runtime;
-- `importNara` and the rest of observations.go; coordinates, trends and teasing; the weights of social events, which are
-- floating-point; the sensors, and the loops with timers that run the rest.
pub mod Prelude
pub mod Event
pub mod RateLimit
pub mod Ledger
pub mod Checkpoint
pub mod Projection
pub mod Presence
pub mod Opinion
pub mod Neighbourhood
pub mod Consensus
pub mod CheckpointService
pub mod Runtime
pub mod Stash
pub mod Keyring
pub mod World
pub mod Tests
