-- ===== src/ProofJobs.antt =====
-- implementations/vault/server/proof-jobs.mjs: the queue of proof jobs.
pub mod Input
pub mod Queue
pub mod Steps
mod Examples
