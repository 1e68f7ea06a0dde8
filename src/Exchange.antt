-- ===== src/Exchange.antt =====
-- implementations/exchange/sdk: the client of the exchange, `ExchangeSDK` of index.mjs with the readiness of derived-readiness.mjs.
pub mod Chain
pub mod Markets
pub mod Trades
pub mod Proposals
pub mod History
pub mod Quiet
pub mod Recorded
pub mod Meant
pub mod Runs
pub mod Finished
pub mod Swapped
pub mod Trading
pub mod Csv
mod Examples
pub mod Commands
