-- ===== src/Live.antt =====
-- The live platform catalog: what a node resolves for the lines in catalog mode, and what the devices
-- of those lines are told.
pub mod Catalog
pub mod Reports
pub mod Resolver
mod Once
mod Trimmed
mod Cidrs
mod Taken
mod Batches
mod Keyed
mod Handover
mod Told
mod Rounds
mod Tests
