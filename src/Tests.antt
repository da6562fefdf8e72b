-- ===== src/Tests.antt =====
-- The data of the tests, and the runs of the theorems at concrete events and ledgers.
mod Data
mod Stored
mod Added
mod Read
mod Derived
mod Rounds
mod Agreed
mod Messages
mod Journeys
mod Keys
mod Stashes
mod Created
mod Neighbours
