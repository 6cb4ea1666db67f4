-- ===== src/Lib.antt =====
-- energychain-node: a Cosmos SDK chain with an EVM, of which this library models the chain's own
-- modules. A module keeps its state in collections (`collections.Map`, `KeySet`, `Sequence`, `Item`)
-- and changes it in message handlers; the crisis module runs its invariants.
--
-- How the code is modelled. A Go function that changes the store is a function of type
-- `Exec E S A = S → Outcome E A × S` (Outcome.antt): it returns a value, an error or a panic, and the
-- store comes back in each case, since what a handler wrote before an error is still in the context
-- that it was given. The collections are interfaces with laws (Sdk/Store.antt); reads can fail, and
-- a write can be refused because its key or value has no encoding. `Sdk.Memory` meets the laws by
-- lists, and `Sdk.OnePage` those of pages. A Go string is its list of bytes; a uint32 or uint64 is a
-- native natural number with the wrap-around written out; an int64 is a `Prelude.Int` integer.
--
-- Files and the code they model:
--   Sdk          what the modules use of the SDK; Walk has the counting loop of the checks, Paging the
--                pages of queries, PutAll the loops of an import
--   Crypto       the digest, a parameter
--   Binary, Hex  encoding/binary and encoding/hex, as far as they are used
--   Energy       chain/x/energy: Types (types/), State and Keeper (keeper/keeper.go), EnergyId (its
--                identifiers), Merkle and MsgServer (keeper/msg_server.go), Invariants
--                (keeper/invariants.go), Genesis (InitGenesis, ExportGenesis, Validate, ValidateBasic),
--                Client (the helpers of client/cli/tx.go); the other files prove: Consistency (what
--                the handlers keep), RateLimit (the limit of submissions in a block), Acceptance,
--                Governance, Merkle/Tree (which root is computed) and Merkle/Binding (what a root
--                binds, by Rounds and Collision), Genesis/Consistent (what an import makes, by
--                Validated and Restore), Genesis/Reimport (an export imported again), Client/Roots;
--                Memory is a keeper in memory for the witnesses
--   Identity     chain/x/identity: Types, State, Keeper, MsgServer, Invariants and Genesis as above;
--                Lifecycle (what the handlers write and keep) and Access (who may, and roles) prove
--   Oracle       chain/x/oracle: Types, State, Keeper, MsgServer, Invariants and Genesis as above;
--                Latest (the history and the latest values) and Export prove
--   Audit        chain/x/audit: Types, State, Keeper, MsgServer, Invariants and Genesis as above; Written,
--                Append, Ledger (the store as a list of logs), Sound (the checks), Governance,
--                RateLimit, Restore and Reimport (an export imported again) prove
--   */Queries    keeper/query_server.go of each module, over Sdk/Paging.antt; Stored, Window and
--                Matching prove
--   Precompiles  chain/precompiles: Abi (what they use of the EVM libraries), Energy and Identity (the
--                two precompiles); Reads proves what they read after messages to the modules
--   Mempool      chain/mempool_broadcast.go (Broadcast) and chain/mempool.go with chain/tx_verifier.go
--                (Setup); Closing is the wait of the broadcaster's Close; Enqueue, Fifo (every
--                interleaving with the goroutine), Shutdown and Configured prove
--   Export       chain/export.go: Keepers (what it uses of the SDK), ZeroHeight with the loop of Reset, and
--                AppState; Frame, Maps, Zeroed, Prepared and Unfinished prove
--   App          chain/app.go, what is not wiring, with Close as two functions and the wait between
--                them as a relation; Closed proves
--   Commands     the messages that chain/x/*/client/cli/tx.go make of their arguments
--   Testnet      chain/cmd/energychaind/cmd/testnet_utils.go, less what works by reflection; Overrides and
--                Powers prove
--   ChainGenesis chain/genesis.go; Sorted proves
--   Upgrades     chain/upgrades.go and, in MetadataCap, chain/upgrades/v1_0_1/upgrade.go; Idempotent and
--                Loader prove
--
-- Loops and fuel. Loops over lists are structural. `computeMerkleRoot` has as fuel the number of
-- leaves, which is above the depth of the tree; the decimal digits of n have n + 1. The goroutine of
-- the broadcaster is a step relation without fuel, and the wait of Close for it is a sequence of steps
-- to its return. A scheduler that always lets the same ready case of a select wait is not excluded, so
-- what is proved is that a bounded number of steps changes anything and that a return stays possible.
--
-- `strings.TrimSpace` and `strings.ToLower` are modelled on ASCII.
--
-- Not modelled: logging, the texts of errors, telemetry, the wiring of the application, flags and
-- broadcasts of the commands, generated code. The transaction runner of the SDK, which discards
-- the writes of a failed message, is not modelled either; statements about failing handlers hold
-- for what they wrote.
pub mod Prelude
pub mod Outcome
pub mod Binary
pub mod Hex
pub mod Crypto
pub mod Sdk
pub mod Energy
pub mod Identity
pub mod Oracle
pub mod Audit
pub mod Precompiles
pub mod Mempool
pub mod Upgrades
pub mod Testnet
pub mod ChainGenesis
pub mod Export
pub mod App
pub mod Commands
