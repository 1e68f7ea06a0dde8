-- ===== src/Market.antt =====
-- implementations/vault/sdk: the arithmetic of swaps, liquidity, settlement and revenue.
-- A BigInt that may be negative is a ℤ; a JavaScript number that should be an integer is an
-- `Option ℤ`, `none` where `Number.isInteger` fails; an address is its number.
pub mod SwapLimits
pub mod Liquidity
pub mod Capital
pub mod Revenue
mod Examples
