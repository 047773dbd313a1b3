-- ===== src/Lib.antt =====
-- A verification library for the Commitment Workbench: a local engine that runs an agent's tool calls
-- under a policy and a spending cap, records every decision in a hash-chained audit log, and a command
-- line client that checks that log.
--
-- The parts and their files
--
-- - Governance (packages/governance/src). Governance/Policy.antt is policy.ts and evaluate-policy.ts:
--   `entry_match` is entryMatch, `before` the comparator of its sort, `evaluate_policy` evaluatePolicy.
--   Governance/Spend.antt is evaluate-spend.ts: `evaluate_spend` is evaluateSpend, `double_sum` the sum of
--   two doubles. Their child modules Order, Winner and Exact hold the proofs.
-- - Audit (packages/audit/src). Audit/Hash.antt is hash.ts (`hash_input`, `compute_entry_hash`),
--   Audit/Chain.antt is verify-chain.ts (`verify_chain_range` with its rules `check_hash`, `check_sentinel`,
--   `check_link` and `check_seam`), Audit/Closure.antt is decision-closure.ts (`check_decision_closure`, and
--   `closure_step` for a round of its loop).
-- - LogWalk (packages/cli/src/audit/walk.ts). LogWalk.antt is walkAuditChain, which pages back through the
--   log and hands each page to the two verifiers of Audit; LogWalk/Summary.antt is summarizeWalk and its
--   exit code.
-- - Store (packages/engine/src/data/helpers). Store/Tables.antt says what an INSERT, an UPDATE, a DELETE
--   and an ORDER BY do to the list of a table's rows. Runs is commission-runs.ts, Grants policy-entries.ts,
--   Ledger spend-ledger.ts, Sessions session-state.ts, Flows oauth-state.ts and Holds held-tool-calls.ts:
--   one function for each helper, under its name in snake case. Grants feeds the evaluator of
--   Governance/Policy, and Ledger that of Governance/Spend.
-- - Store/AuditLog (packages/engine/src/data/helpers/audit-log.ts). AuditLog.antt is the append, insertRow,
--   with its two exported forms and the CHECK and NOT NULL constraints of
--   data/ddl.ts; a row is the `ChainEntry` that Audit/Chain verifies. AuditLog/Queries.antt
--   is its reads, AuditLog/Reads.antt the page of the log that the user agent serves (listAuditEntries of
--   agent/user-agent.ts), AuditLog/Closers.antt any sequence of writes, AuditLog/Delivery.antt the client's
--   walk (LogWalk) over the pages that the engine serves.
-- - Budget (packages/engine/src/workflows/model-budget.ts). Budget/Data.antt is boundedCopy and the shape
--   tests, Budget/State.antt the fields of ModelBudget with close and checkOpen, Budget/Calls.antt
--   createMessage up to the call of the provider, Budget/Settle.antt receive and what is left of
--   createMessage, Budget/Make.antt the constructor. createMessage is cut where it waits: at
--   `create_message` for the admission, `receive` or `provider_failed` for the provider's end and `complete`
--   for the return. Budget/Traces.antt runs any sequence of these steps. Budget/Idle.antt and
--   Budget/Bounds.antt say what a step that admits nothing may change, Budget/Accounts.antt which sums over
--   the attempts the counters are; Budget/Settled.antt and Budget/Balanced.antt keep them.
-- - ContextCodec (packages/engine/src/workflows/rlm-context-codec.ts). ContextCodec/Json.antt is the JSON
--   and UTF-8 forms of a text and the code's own counts of them, ContextCodec/Rows.antt packRow and the
--   loop that calls it, ContextCodec/Plan.antt planContextSlices, ContextCodec/Encode.antt
--   encodeWorkflowRlmContext. ContextCodec/Decode.antt is the reconstruction that the code documents.
-- - Handoff (packages/engine/src/workflows/commitment-handoff.ts). Handoff.antt is validateCommitmentSnapshot
--   and validateCommitmentLedger, Handoff/Create.antt createCommitmentSnapshot,
--   Handoff/Index.antt createCommitmentSourceIndex, whose index ContextCodec packs with the snapshot.
-- - Contracts (packages/contracts/src/workflows.ts). Contracts.antt is the schemas CommitmentSnapshot and
--   CommitmentLedger as tests, `is_snapshot` and `is_ledger`, which Handoff applies where the code parses.
-- - Prelude: tests, lists, text and integers that the parts share.
--
-- How the code is represented
--
-- A table is the list of its rows, and a statement is a function of it. A thrown error is a result:
-- `none` for a violated key, a constructor for a checked one. Text is a list of numbers: UTF-16 code
-- units in Governance, Budget, ContextCodec and Handoff, bytes in Audit and in Store/AuditLog, code points in the rest of Store. An
-- amount is a `Number`: a whole number, or `other` for a fraction, NaN or an infinity. Clocks are
-- arguments of the operations that read them. SHA-256, String.prototype.toLowerCase,
-- String.prototype.trim, btoa, atob, the time zones of Intl, the timestamps that z.iso.datetime and
-- Date.parse take, the issues that the schema library reports and the client that fetches pages are
-- parameters; where SHA-256 must tell inputs apart, the theorem has as a hypothesis that it gives no
-- two of them one digest, and where its digests must pass a schema, that they are of 64 hexadecimal digits.
--
-- Bounds and fuel
--
-- The loop of the log walk runs on fuel, one more round than the bound of pages that the code itself
-- tests (AUDIT_MAX_PAGES): each round but the last fetches a page, and the last meets the bound.
-- `decimal` runs on fuel that is the number itself, which has at most as many digits. The depth bound
-- 32 of boundedCopy is the code's. The loop of encodeWorkflowRlmContext runs on the number of rows
-- that its bound still admits, and the outer loop of planContextSlices on the number of rows, of which
-- each slice takes one at least. All else is structural recursion.
--
-- Not modelled
--
-- The user agent (packages/engine/src/agent/user-agent.ts) but for listAuditEntries and one loop of
-- cancelTask, whose audit rows are left out; the refinement and settings tables; the schemas that
-- validate requests; the workflow runtime; the budget's native-operation scope
-- and snapshot; model clients, the HTTP and MCP surfaces, the client's commands and rendering,
-- credentials and the tool services, which are mostly input and output.
pub mod Audit
pub mod Budget
pub mod ContextCodec
pub mod Contracts
pub mod Governance
pub mod Handoff
pub mod LogWalk
pub mod Prelude
pub mod Store
