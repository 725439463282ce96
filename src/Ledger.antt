-- ===== src/Ledger.antt =====
-- packages/core/src/ledger.ts: the criteria ledger. The children are its data, its history of changes,
-- its entries, the document that holds both, the store of a file, and the commands that write one.
pub mod Types
pub mod History
pub mod Canonical
pub mod Entries
pub mod Document
pub mod Store
pub mod Commands
