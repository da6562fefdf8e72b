-- ===== src/Neighbourhood/Forgotten.antt =====
-- What is left of a nara that `pruneInactiveNaras` removes.
use nara.Prelude.{Option, none, some, List, []}
use nara.Event.{SyncEvent}
use nara.Ledger.{SyncLedger}

-- The events of a ledger that may be missing.
abbrev pub stored_events : Option SyncLedger → List SyncEvent
stored_events ledger = elim ledger [ none ↦ [] | some l ↦ l.events ]
