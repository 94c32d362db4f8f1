-- ===== src/Lib.antt =====
-- Karma Sakshi (the chitragupta-protocol repository, src/karmasakshi): a Python library that lets an
-- agent's effect on the world happen only under a signed, bounded, revocable grant. An engine takes a
-- sealed manifest of the effect and a grant, checks both, reserves a use of the grant and a part of
-- its authority budget, moves the manifest's lifecycle, notes its intent in an outbox, lets an adapter
-- perform the effect, and records the outcome. Grants are delegated by attenuation, and sagas run
-- several effects in order with compensations.
--
-- The parts and their files:
--   - Base: Boolean tests, lists, Python's dicts (Base/Dict) and ints (Base/Int). Errors: the exception
--     classes and calls that may raise.
--   - Lifecycle: src/karmasakshi/state_machine/states.py and record.py; Lifecycle/Graph the table,
--     Lifecycle/History the records, Lifecycle/Store the compare-and-set of stores/lifecycle_memory.py.
--   - Domain and Crypto: the values of domain/, protocol/versioning.py, crypto/keys.py and keyring.py.
--   - Grants: grants/model.py and verifier.py; Grants/Verify what a verification amounts to.
--     Grants/Issuer: grants/issuer.py and the validators of the model; Grants/Issuing what an issued
--     grant is.
--   - Duty: duty/roles.py, policy.py and enforcement.py; Duty/Separation. Approval: approval/model.py,
--     policy.py, signing.py and quorum.py; Approval/Quorum.
--   - GrantStore: stores/memory.py, the in-process grant store; GrantStore/Steps its calls as steps,
--     GrantStore/Uses the count of uses, GrantStore/Exclusion reservations and revocations.
--   - Budget: budget/model.py, ledger.py and consume.py; Budget/Limits, Budget/Spending.
--   - Delegation: delegation/attenuation.py, chain.py and revocation.py; Delegation/Attenuation,
--     Delegation/Chain, Delegation/Revocation, and Delegation/Lineage with what
--     engine/core.py (_record_grant_lineage) records.
--   - Envelope: the parameter constraints of envelope/constraints.py; Envelope/Values,
--     Envelope/Narrowing.
--   - Outbox: outbox/model.py and memory.py; Outbox/Progress.
--   - Saga: saga/model.py; Saga/Machine: saga/machine.py; Saga/Session: the saga operations of
--     engine/core.py (begin_saga to record_saga_compensation); Saga/Shape the invariant, Saga/Split
--     lemmas on lists of steps, Saga/Forward, Saga/Verifying, Saga/Reverse, Saga/Undo, Saga/Runs and
--     Saga/Safety its preservation, Saga/Order, Saga/Refusal and Saga/Halt what follows from
--     it.
--   - Manifest: domain/manifest.py, domain/seal.py and protocol/sealing.py. Policy: policy/bundle.py and
--     sealing.py. Causal: causal/link.py, graph.py and envelope/plan.py. Envelope/Decision:
--     envelope/model.py and sealing.py, with Envelope/Decision/Fitting. Manifest/Sealing,
--     Policy/Sealing and Envelope/Decision/Sealing: what sealing and verifying come to.
--   - Adapters: adapters/base.py and registry.py; Adapters/Trust. Tenant: tenant/model.py, registry.py
--     and enforce.py; Tenant/Isolation.
--   - Audit: audit/events.py and audit/journal.py; Audit/Chain what a verified chain determines,
--     Audit/Journal what the journal writes.
--   - Protection: protection/limits.py; Protection/Windows the rate limiter's windows.
--   - Engine: the lifecycle records of engine/core.py (seed_lifecycle_state to _transition) over a
--     lifecycle store; Engine/WriteThrough. Engine/Checks: the checks of commit, and
--     Engine/Checks/Signed and Engine/Checks/Bindings what they come to; Engine/Control: the
--     stores that an engine works on; Engine/Commit: commit, with Engine/Commit/Settling,
--     Engine/Commit/Holding and Engine/Commit/Budgeting on its stages, Engine/Commit/Endings and
--     Engine/Commit/Accounts on its ends, Engine/Commit/Authority, Engine/Commit/Once,
--     Engine/Commit/Keeping and Engine/Commit/Stuck. Engine/Recovery: recover_ambiguous_commit, list_pending_outbox and
--     revoke, with Engine/Recovery/Evidence, Engine/Recovery/Refusal and
--     Engine/Recovery/Revocation. Engine/Issuance: authorize and delegate, with
--     Engine/Issuance/Inversion and Engine/Issuance/Separated on their steps,
--     Engine/Issuance/Granted on authorize and Engine/Issuance/Attenuated on delegate.
--   - Examples: concrete grants, ledgers and runs, and the theorems applied to them.
--
-- How the code is read. A class with a lock is a state and its methods functions from a state to a
-- result and a state, so a sequence of calls stands for every interleaving of callers. An exception is
-- a value of Error; messages carry no control flow and are left out. Identifiers, digests, currencies
-- and times are only compared and are numbers. Signatures (the cryptography package) and digests
-- (SHA-256 over canonical JSON) are parameters, as is what an adapter answers in a call; that a key
-- pair's signatures verify, and that budgets of one digest have one limit, are named hypotheses where
-- they are used. A commit is one step on the in-memory stores, and the keys with which it called an
-- adapter are kept in a list that the code does not have. The walk up a grant's ancestors recurs on
-- the depth that is left, which starts at the max_depth that the code itself enforces, at most 16;
-- every other loop is over a list.
--
-- Not modelled: the engine's prepare, seal, verify and compensate paths and the authorizations under
-- an envelope, a plan or a quorum: the modelled saga
-- operations take the results of their calls of other operations as arguments; an audit journal that
-- refuses to write; the SQLite and Redis stores, the HTTP API, the gateway, the command line, the
-- sample adapters and integrations, which are input and output; the witness quorum, passports
-- and evidence; the validators of the pydantic
-- models but ExecutionGrant's, whose bounds the types stand for (an amount is at least 0).
pub mod Base
pub mod Errors
pub mod Lifecycle
pub mod Manifest
pub mod Causal
pub mod Adapters
pub mod Policy
pub mod Tenant
pub mod Domain
pub mod Crypto
pub mod Grants
pub mod GrantStore
pub mod Budget
pub mod Delegation
pub mod Duty
pub mod Approval
pub mod Envelope
pub mod Outbox
pub mod Saga
pub mod Examples
pub mod Audit
pub mod Protection
pub mod Engine
