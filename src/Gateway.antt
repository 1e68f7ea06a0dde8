-- ===== src/Gateway.antt =====
-- implementations/vault/server/rpc-gateway.mjs: what the public gateway checks of a request before it
-- forwards anything, and what it forwards. Its limiter is RateLimit.
pub mod Json
pub mod Hex
pub mod Params
pub mod Envelope
pub mod Transactions
pub mod Admitted
pub mod Quantities
pub mod Gas
pub mod Dispatch
mod Examples
