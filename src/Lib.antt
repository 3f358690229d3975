-- ===== src/Lib.antt =====
-- The on-chain programs of Helix Protocol and their indexer: their accounting, their instructions,
-- and what these keep true over any history.
--
-- The programs. `staking` holds principal in one vault and rewards in another: a pool accrues
-- rewards to its positions in proportion to their weight, through an accumulator that every
-- instruction brings up to date first. `treasury` holds the funds that governance spends, within
-- a cap for each epoch, and the vesting streams that governance grants. `token-manager` owns the
-- HLX mint: an admin registers minters, each with a cap for each epoch. These three move tokens
-- through the token program. `governance` takes proposals, and votes that are weighed by staking
-- positions; a proposal that carries waits in a timelock before it is executed: then governance
-- calls the other programs, signing as the realm's executor. All four check their accounts through
-- the Anchor framework. The `indexer` reads the logs of transactions off the chain, finds the events
-- of the four in them, and folds these into rows, across rollbacks of what is not final.
--
-- Correspondence. `Prelude` has the shared names, `Prelude.Lists` the sums and invariants over
-- lists of accounts, `Prelude.Int` integers, `Prelude.Machine` Rust's checked and saturating
-- operations, casts and ranges, and `Prelude.Fallible` results: a program's own error, a failed
-- account constraint, a failed call or a panic. `Anchor` has what the programs take from outside
-- the repository, as parameters: the derivation of program addresses, and the token program with
-- the laws of its transfers.
--   Staking.Types, .Events   programs/staking/src/constants.rs, errors.rs, events.rs
--   Staking.State            programs/staking/src/state.rs
--   Staking.Stake            programs/staking/src/instructions/stake.rs
--   Staking.Withdraw         .../unstake.rs, claim.rs and close_position.rs
--   Staking.Admin            .../initialize_pool.rs and admin.rs
--   Treasury.Types, .Events  programs/treasury/src/constants.rs, errors.rs, events.rs
--   Treasury.State           programs/treasury/src/state.rs
--   Treasury.Funds           programs/treasury/src/instructions/initialize.rs and funds.rs
--   Treasury.Vesting         .../vesting.rs
--   TokenManager.Types, .Events  programs/token-manager/src/constants.rs, errors.rs, events.rs
--   TokenManager.State       programs/token-manager/src/state.rs
--   TokenManager.Registry    .../initialize_token.rs, minter_registry.rs and admin.rs
--   TokenManager.Issuance    .../issuance.rs
--   Governance.Types, .Events  programs/governance/src/constants.rs, errors.rs, events.rs
--   Governance.State         programs/governance/src/state.rs, and the gate of execute.rs
--   Governance.Realm, .Vote  .../realm.rs and vote.rs
--   Governance.Proposals     .../proposal.rs
--   Governance.Lifecycle     .../lifecycle.rs
--   Governance.Execute       .../execute.rs, execute_token.rs and execute_realm.rs
--   Indexer.Event            indexer/src/event.rs
--   Indexer.Text, .Logs      indexer/src/logs.rs, and the operations on `str` that it uses
--   Indexer.Projection       indexer/src/projection.rs
--   Indexer.Ingest           indexer/src/ingest.rs: the live poll, with the types of source.rs
--   Indexer.Backfill         indexer/src/ingest.rs: the descent, with the types of source.rs
-- A struct of accounts is a record `…Accounts`, its constraints are `check_…`, in the order of the
-- struct, and the handler is a function of the accounts, the clock `now` and the arguments. It
-- gives the accounts that it changes, and the event that it emits, or a failure; a failure changes
-- nothing, since the chain undoes the transaction. An instruction is the constraints and then the
-- handler; its model has the name of the Rust function.
-- `Staking.System`, `Treasury.System`, `TokenManager.Supply`, `Governance.Process` and, for a
-- treasury under governance, `Dao` put the accounts together: a state with all open accounts, a
-- step relation with one constructor for each instruction, and its closure `Reach`.
-- `Staking.Books` and `Treasury.System.Books` hold the invariants of the books; `Effects` what
-- each instruction does when it succeeds; `Samples` and the `Tests` run the programs on concrete
-- accounts. An execution that calls another program is that program's own instruction here, on
-- the accounts that are passed on. The rows of the indexer are maps by address;
-- `Indexer.Projection.Mirror` has the accounts of staking beside them.
--
-- Bounds. Unsigned numbers are natural numbers and the bounds of their types are the arguments of
-- the checked operations; times are integers within `i64`. No function uses fuel.
--
-- Not modelled. Rent, compute limits, serialization and account sizes; Token-2022's metadata
-- calls; the entry points in each lib.rs, which only pass their arguments on.
-- Which of several failing account constraints is reported first is the framework's affair. Of the
-- indexer, the read views, storage, RPC and HTTP; the wire format of events, base58 and base64, which
-- are parameters; the web application, the bootstrap tool and the scripts.
pub mod Prelude
pub mod Anchor
pub mod Staking
pub mod Treasury
pub mod TokenManager
pub mod Governance
pub mod Dao
pub mod Indexer
pub mod Samples
