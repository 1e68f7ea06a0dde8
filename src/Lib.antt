-- ===== src/Lib.antt =====
-- Verification library of the JavaScript modules of implementations/vault.
--
-- The program is a market for formal proofs: a server (implementations/vault/server) with a queue of
-- proof jobs, a public gateway to a node and the community's data, and a client library
-- (implementations/vault/sdk) that computes limits, shares and views before it calls contracts.
--
-- Paths below that begin with server or sdk are in implementations/vault.
--
-- Prelude: tests, lists, results that may throw, integers, a stable sort and Maps as lists of entries.
--
-- RateLimit: `createWindowLimiter` of server/rpc-gateway.mjs. `admit` is one call of the function that it
-- returns; the Map is a list of entries in insertion order, and each call brings the time that the clock shows.
--
-- Treasury.Allocation: `allocationWithTreasury` of sdk/treasury.mjs, from reading the rows to the draft.
-- The rest of that file calls contracts and is not modelled.
--
-- Market: SwapLimits is sdk/swap-limits.mjs, Liquidity sdk/liquidity.mjs, Capital sdk/capital.mjs and
-- Revenue sdk/revenue.mjs. A bigint is an integer or, where the code has checked it, a natural number. What a
-- callback answers is an argument, and the calls that are made are a list.
--
-- ProofJobs: `createProofJobs` of server/proof-jobs.mjs. Input is `normalize`. Queue has the state and the
-- parts of the functions that run between two awaits: `submit`, `cancel`, the beginning and the end of
-- the task that p-queue runs. Steps orders them as p-queue does with `concurrency: 1`: a task begins only
-- when none is held, which may be before the `finally` of the one that has ended. A wallet is its number, the digest of a request is a parameter, and what the worker does is the
-- argument `Ending`. Dates, log paths and the worker's process are not modelled.
--
-- RemoteSlot: tools/lean-zk/remote/remote-slot.mjs. `claim` and `release` are the operations of the two functions,
-- `enter` and `leave` the two ends of `transaction`; Exclusion has the steps of the processes that share
-- a directory, with any number of operations under way: that the lock keeps them apart is proved, and not assumed.
--
-- PublicLogs: `paginatedLogs` of sdk/public-logs.mjs; the provider's answers are parameters.
--
-- Community: server/community.mjs, with `list` in Listing: its parents (Walks, Breaking,
-- Broken), its fallbacks (Fallbacks) and its stack (Stack, Complete). History has the steps
-- of the database, Votes who may vote,
-- Threads what is true of the comments that are stored.
--
-- Governance: `governanceEligibility` of sdk/governance.mjs; a reason is a constructor in place of its text.
--
-- PublicSurface: server/public-surface.mjs. Routes, Policy and Middleware are the functions, Slots the handlers that
-- `publicRouteWrapper` admits; its limiters are RateLimit's.
--
-- Gateway: server/rpc-gateway.mjs. Json and Hex read values, Params and Envelope are the checks up to
-- `validateRpcEnvelope`, Dispatch is `dispatch` from its slot to its answer, with Dispatch.Slots for the
-- slots. Answers of the node, the deadline and the permission to write come from outside. A number is written with as much
-- fuel as its own value, and Quantities proves that to be enough.
--
-- Client: sdk/index.mjs and sdk/derived-readiness.mjs. Chain has `send`, `approve` and `permit`, Quotes what is read before, Operations
-- one function for each operation that sends transactions, Views what is only read; an operation runs on a session: what was sent, with whether it was confirmed, and a clock, which
-- each question to the node moves. Between two questions anything may happen at the node.
--
-- Wallet: sdk/public-transport.mjs, sdk/local-endpoints.mjs and the wallets of sdk/index.mjs. A connection is a log of the requests to the
-- wallet with their answers.
--
-- Lifecycle: implementations/exchange/web/wallet-lifecycle.mjs, the generations of a wallet and signing in.
--
-- Scenario: implementations/vault/web/settlement-scenario.mjs, the scenario of a pool that is shown to a wallet.
--
-- Connection: implementations/vault/web/wallet-connection.mjs, the requests of one attempt to connect a wallet.
--
-- Exchange: implementations/exchange/sdk/index.mjs and derived-readiness.mjs. Chain has `guard`, `tx` and `approve`, Markets, Trades and
-- Proposals the functions of `ExchangeSDK`, Commands those that send; a session has the log of what was sent and reported. History
-- is `executions`, Csv `executionsCSV` with a reader of such texts.
--
-- Fuel is given to three loops of the code: `fetch` of PublicLogs, and `walk` and `unfold_stack` of Community.Listing, where one more than
-- the number of the comments is proved enough. That of `fetch` is the number of pages that the code has just bounded, and
-- `fetch_range` is proved equal to a reading of the whole range. Every other loop runs over a list or down a number.
--
-- Not modelled: the contracts, the web interface, the scripts, the implementation agora, that of exchange but for the files above, and
-- the calls of ethers, of the file system and of HTTP.
pub mod Prelude
pub mod RateLimit
pub mod Treasury
pub mod Market
pub mod ProofJobs
pub mod RemoteSlot
pub mod PublicLogs
pub mod Community
pub mod Governance
pub mod PublicSurface
pub mod Gateway
pub mod Client
pub mod Wallet
pub mod Lifecycle
pub mod Scenario
pub mod Connection
pub mod Exchange
