-- ===== src/Client.antt =====
-- implementations/vault/sdk/index.mjs: the operations that send transactions, and the quotes of liquidity.
pub mod Chain
pub mod Quotes
pub mod Operations
pub mod Views
pub mod Steps
pub mod Allowed
pub mod Fresh
pub mod Pools
pub mod Swapping
pub mod Safety
pub mod Completion
mod Examples
