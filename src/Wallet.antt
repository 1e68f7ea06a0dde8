-- ===== src/Wallet.antt =====
-- implementations/vault/sdk/public-transport.mjs and local-endpoints.mjs, and the wallets of sdk/index.mjs: how a wallet is brought to
-- the network of a deployment. The wallet's answers, what a text parses to as a URL, and the code of contracts are parameters.
pub mod Endpoints
pub mod Network
pub mod Rejection
pub mod Connected
mod Examples
