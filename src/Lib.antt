-- ===== src/Lib.antt =====
-- qare runs a plan of checks against an app and judges the result. This library models the
-- parts of packages/core that decide something: what a verdict is, what a model may change in
-- it, what a person may, which criteria run, and what the criteria ledger keeps. Each part is
-- modelled as the source has it, function by function, under the source's names in snake case
-- (`judgeRun` is `judge_run`).
--
-- The parts, and where they are modelled:
-- - packages/core/src/judge.ts: Judge. Judge/Sides compares the head with the base
--   (`detectRegressions`, `toSideResults`), Judge/Run derives the verdicts (`judgeRun`,
--   `verdictOf`), Judge/Claims, Findings and Turns are the verifier (`prepareVerifierInputs`,
--   `consumeVerifierFindings`, `runVerifier`), Judge/Fold writes the judged result
--   (`judgedResult`) and Judge/Executed puts them together (`judgeExecuted`). The results are
--   those of packages/core/src/result.ts (Result), redacted as in packages/core/src/redact.ts
--   (Redact), and verdicts are merged as in packages/core/src/egress.ts.
-- - packages/core/src/triggers.ts (Triggers) starts runs, and packages/core/src/waiver.ts
--   (Waivers) lets a person waive criteria of a result that the judge wrote.
-- - packages/core/src/quarantine.ts (Quarantine): the store of checks that do not run.
-- - packages/core/src/ledger.ts: Ledger. Ledger/Types has the entries and Ledger/Entries their
--   strict reader (`parseEntry`), Ledger/History the chain of changes (`appendChange`,
--   `parseChanges`), Ledger/Canonical the canonical text and its fingerprint, Ledger/Document
--   the document (`parseLedgerDocument`, `serializeLedgerDocument`) and Ledger/Store the
--   operations of `FileLedgerStore`, whose state is the text of its file; a check of the file and
--   the write that follows it are one step. Ledger/Commands has the commands of
--   packages/cli/src/index.ts that write the file, `ledgerImport` and `ledgerMigrate` with `--to
--   files`, and Ledger/Commands/Kept the step relation of their runs, in which other steps may
--   stand between what a migration observes and what it writes over.
-- - packages/core/src/main-passes.ts (MainPasses): the record of the passes on the default
--   branch, its strict reader (MainPasses/Read) and `recordMainPasses`;
--   packages/core/src/main-findings.ts (MainFindings): what a run on the default branch amounts
--   to, from its result, the ledger's document and that record.
-- - packages/core/src/ledger-proposal.ts and packages/core/src/ledger-apply.ts (Proposals):
--   what a run proposes to the ledger and what is applied, which appends to the history of
--   Ledger.
-- - packages/core/src/ledger-resolve.ts (Questions): conflicts with the ledger, and what an
--   open question holds in a result, judged again by `verdict_of` of Judge/Run.
-- - packages/core/src/selection.ts (Selection), packages/core/src/subset.ts (Subset) and
--   packages/core/src/shards.ts (Shards): which criteria of the ledger run, and in which lane.
-- - packages/core/src/egress.ts (Egress): which attempts to reach a host a stub takes, and the
--   summary of the others.
-- - packages/core/src/replay.ts (Replay): where a stored result and the one recomputed
--   disagree.
-- - packages/core/src/png.ts (Png): the chunks, the filters, `decodePng` and `encodePng`.
-- - packages/core/src/cell-wire.ts (CellWire): what a cell reads of a DNS question, of a TLS
--   client hello (CellWire/Tls) and of an HTTP request.
-- - packages/core/src/totp.ts (Totp): base32 secrets, windows and codes.
--
-- Prelude has what they share, Fallible the values of code that throws, and Json the values
-- that `JSON.parse` gives. A string is its code points, and `<` on strings compares UTF-16 code
-- units; a Map is its entries in insertion order and a Set the list of its members; a loop is
-- recursion on its list. The verifier's loop recurs on a number of rounds, the number of
-- claims, which is enough because each round drops at least one claim; the loop over the chunks
-- of a PNG on one round more than the file has bytes, and the loop over the extensions of a TLS
-- hello on one more than they have, since each round takes at least eight and four bytes; the
-- labels of a DNS name on the length of the message. A buffer is the list of its bytes, and a
-- shift that keeps 32 bits is written with its remainder. A whole number is a natural number,
-- and no arithmetic of these parts reaches the bound of a safe integer. Of an error the field
-- or the first words of its message are kept.
--
-- Parameters stand for what is not in the repository: the SHA-256 of a text, an HMAC,
-- `inflateSync` and `deflateSync`, and the answers of a model; and for `JSON.stringify`,
-- `JSON.parse`, `Date.parse`, `Number` and `toUpperCase` of the runtime; what a theorem needs
-- of one is among its hypotheses. The sweep of one text for secrets is a parameter of Redact,
-- since its rules are not modelled. Files are what was read from them and what is written to
-- them. Not modelled are processes, browsers, mail, the comparison of images, git and GitHub,
-- the other commands of the command line, the refusal of forks and the rendering of comments.
mod Prelude
pub mod Fallible
pub mod Json
pub mod Result
pub mod Redact
pub mod Judge
pub mod Triggers
pub mod Waivers
pub mod Quarantine
pub mod Ledger
pub mod Shards
pub mod Selection
pub mod Subset
pub mod Questions
pub mod Proposals
pub mod Png
pub mod MainPasses
pub mod MainFindings
pub mod Totp
pub mod CellWire
pub mod Egress
pub mod Replay
mod Tests
