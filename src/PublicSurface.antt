-- ===== src/PublicSurface.antt =====
-- implementations/vault/server/public-surface.mjs: what a public server answers.
pub mod Routes
pub mod Policy
pub mod Middleware
pub mod Passed
pub mod Slots
mod Examples
