-- ===== src/Audit.antt =====
-- packages/audit/src: the hash of an audit row (hash.ts), the verifier of a range of rows
-- (verify-chain.ts) and the check that every decision has one closer (decision-closure.ts).
-- Text is the list of the UTF-8 bytes of a well-formed string.
pub mod Hash
pub mod Chain
pub mod Closure
mod Examples
