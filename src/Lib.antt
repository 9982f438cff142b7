-- ===== src/Lib.antt =====
-- The coordination backend of a multi-user bitcoin multisig custody platform (kota).
--
-- The program has two event-sourced entities. A wallet (core/coordination/src/wallet/entity.rs) is
-- registered with an N-of-M policy, collects one keystore from each participant and becomes active
-- with its descriptor. A signing session (core/coordination/src/psbt_session/entity.rs) is proposed
-- on an active wallet, whose policy it snapshots, gets its unsigned PSBT, collects signatures, is
-- finalized at the threshold and then follows the chain. An entity is its list of events with
-- fields that hydration computes from them.
--
-- Base             Boolean tests, lists over the native numbers, sort and dedup with their laws,
--                  results and `Idempotent`
--   Actions        steps on a state that return, fail or panic, with a rule for each combinator
-- EsEntity         the `idempotency_guard!` macro of es-entity, a parameter with its documented loop
-- Primitives       identifiers and `WalletStatus` (core/coordination/src/primitives.rs,
--                  wallet/primitives.rs)
--   Hex, Digest, Fingerprint, Address
--                  digests and fingerprints with their texts, and the newtype of addresses
-- Session          core/coordination/src/psbt_session
--   Types          statuses, records, events, the entity, errors (primitives.rs, error.rs)
--   Entity         the accessors and the commands of `PsbtSession`, under their names in the source
--   Hydrate        `try_from_events` and `verify_hydrated_invariants`
--   Propose        `NewPsbtSession::try_new` and the caps
--   Commands       the commands as data, `execute`, `reply` and the sessions they reach
--   Invariant, WellFormed, Replay, Lifecycle, Idempotence, Policy, Proposal, After, Outcomes,
--   Completion, Log
--                                                                             the proofs
--   Examples, Spends                                                          runs on input
-- Wallet           core/coordination/src/wallet.rs and wallet/
--   Types          keys, events, the entity, errors, and the interface to miniscript
--   Descriptor     `sortedmulti_wsh_descriptor`, `descriptor_fingerprint`, `keystore_fingerprint`
--   Entity         `Wallet` and `NewWallet`
--   Build          `build_unsigned_psbt`
--   Balance, Submissions, Invariant, Activation, Registered, Log, Replay, Canonical
--                                                                             the proofs
--   Examples                                                                  runs on input
-- Psbt             core/coordination/src/psbt.rs
--   Types          documents, errors, the maps of signatures, and the interface to bitcoin
--   Validate       `parse_psbt`, `validate_signed_submission`, `merge_partial_sigs`,
--                  `verify_merged_blob`
--   Accepted, Additive, Complete, Exact, Merged, Verified                  the proofs
--   Examples                                                                  runs on input
-- Storage          core/coordination/src/storage.rs
--   Store          the in-memory store and `fetch_verified`
--   Fetch                                                                     the proofs
--   Examples                                                                  runs on input
-- Platform         what the entities run on
--   Database, Repos   event rows, job rows and transactions as the repositories see them, finding
--                  an entity by hydrating its rows (psbt_session/repo.rs, wallet/repo.rs)
--   Columns        the sqlx codecs of the columns, in the same files
--   Jobs           core/coordination/src/jobs
--     Types        `JobsError`, `ChainObservation` (mod.rs) and the crates behind the jobs
--     Units        `apply_chain_observation` (mod.rs), `run_psbt_creation` (psbt_creation.rs)
--     Finalization `run_finalization` (finalization.rs)
--     Atomic, Observation, Absorb, Loop, Final, Creation, Retry, Accepted, Finishes
--                                                                             the proofs
--   Service        the use cases of `Coordination`, kota/app/src/lib.rs, and error.rs
--     Wallets, Import, Reimport, Registration, Spends, Upload, Signing, Accepted
--                                                                             the proofs
--   Steps          the use cases and the jobs as the operations of one system
--   Genuine, GenuineWallet, Dispatch, Consistent, Committed     what holds of every stored row
--   Commits        the jobs and the use cases, over what transactions keep
--   History, WalletHistory   the stored sessions and wallets over time
--   Toy, AppendToy, States   stand-ins for the crates, and databases of theirs
--   Runs, JobExamples, ServiceExamples, AcceptedExamples, FinishExamples, ReimportExamples,
--   ColumnExamples, HistoryExamples                                           runs on input
--
-- An upload is checked by Psbt, stored by Storage and recorded by `add_signature` of Session under
-- its digest, in the transaction that also queues its finalization; the jobs build the unsigned
-- document and the final transaction.
--
-- A use case or a job is an `Action`: a function of the database and the blob store to its result
-- (a value, an error or a panic) and to both after it. It takes one step: a conflict with a
-- concurrent call is a transaction that fails and writes nothing. New ids are arguments, and what
-- the chain backend answers is one too. `jobs` of the database lists all jobs ever spawned.
--
-- A command on `&mut self` is a function to the entity after it and the result. `events` is the
-- list that `iter_all` yields, the oldest first. Identifiers, digests and opaque values of the
-- bitcoin crate are numbers; `u32` casts are written out as remainders, sums of amounts in
-- sats are checked against 2 ^ 64. Every loop is a recursion over its list, so no fuel is
-- needed. The nine fields of `Initialized` are one record, `NewPsbtSession`.
--
-- Code of other crates is a parameter: `IdempotencyGuard` (es-entity), `Miniscript` (miniscript and
-- sha2), `Bitcoin` (addresses, scripts and dust), `PsbtBuilder` (derivation and the PSBT calls),
-- `Crypto` (decoding, sighashes and ECDSA), `Finalizer` (finalizing and extracting), `Database`
-- (es-entity, sqlx and job) and the digest of blobs. A hypothesis on one of them is named where it
-- is used: `applied_lem`, the documented loop of the guard; `PrintsFaithfully`, that keys that print
-- alike are the same; and the laws of `Database`, that a committed transaction shows in every later
-- query, and only that, that the column of content addresses is `UNIQUE` and that its index finds
-- the wallet that has one; `AppendOnly`, that event rows are only inserted behind those that are
-- there; `Sha256` (32 bytes), `AddressCrate` and `StringCodec`, which read back
-- the text that they write.
--
-- Not modelled: what es-entity generates behind the repositories, serde and the text of error
-- messages, the status columns of the rows (no query of the program reads them), the wiring of the
-- job service, read errors of sqlx (a query finds the entity, does not find it or cannot hydrate
-- it), and the `debug_assert!` of `NewPsbtSession::try_new`. The `unreachable!` of `Wallet::cancel`
-- is answered like a second cancellation, since the guard before it leaves no such case. The
-- subtraction of the fee in the balance check of `build_unsigned_psbt` stops at 0 in the model; the
-- total that it is taken from starts at the fee.
pub mod Base
pub mod EsEntity
pub mod Platform
pub mod Primitives
pub mod Psbt
pub mod Session
pub mod Storage
pub mod Wallet
