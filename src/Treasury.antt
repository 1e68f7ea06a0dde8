-- ===== src/Treasury.antt =====
-- implementations/vault/sdk/treasury.mjs: the draft of an allocation with a treasury share.
-- An address is its 160-bit number: `getAddress` and the comparisons of lower-case text, which has a
-- fixed length, read the same number. Integers are those that `BigInt` gives.
pub mod Allocation
