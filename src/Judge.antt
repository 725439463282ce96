-- ===== src/Judge.antt =====
-- packages/core/src/judge.ts: the verdict of a run, decided by code from the outcomes of both sides,
-- the waivers, and the findings of a verifier that can only take a pass away.
pub mod Sides
pub mod Run
pub mod Claims
pub mod Findings
pub mod Turns
pub mod Fold
pub mod Executed
