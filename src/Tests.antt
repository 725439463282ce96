-- ===== src/Tests.antt =====
-- Tests of the definitions at inputs taken from the repository's own tests, and an instance of each
-- headline theorem at an input that meets its hypotheses.
mod Judge
mod Runs
mod Stores
mod History
mod Ledger
mod Images
mod Main
mod Totp
mod Wire
mod Egress
mod Proposals
