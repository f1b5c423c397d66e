-- ===== src/Lib.antt =====
-- A model of the indexer of the Gridcoin block explorer: the parts under
-- packages/grc-explorer/src/services/indexer that keep the store in step with the daemon's chain,
-- and the libraries under packages/grc-explorer/src/lib that decide what is stored.
--
-- Common: what the modules share: Boolean tests, lists over the native numbers, integers, and
-- hexadecimal text.
-- Script: lib/htlc.ts (`tokenize`, `redeemScriptIsHtlc`) and lib/scriptAsm.ts (`disassembleScript`).
-- A script is a list of bytes; the loops run on fuel, which is the length of the script, since each
-- round uses up a byte.
-- AddressState: lib/addressState.ts (`applyAddressStateDeltas`, `repairAddressState`). The table of
-- running totals is a function from addresses to rows, the event log a list of rows. The bounded
-- rebuild after a backfill and the reads are not modelled.
-- Chain: the store that the indexer works on: the cursor of lib/redis.ts, the chain tables and their
-- deletion by height of lib/chainTables.ts, and the effects on other parts of the process, in order.
-- Indexer.AdaptiveLimits: services/indexer/AdaptiveLimits.ts. The clock is an argument; times are
-- milliseconds.
-- Indexer.ChainReorg: services/indexer/ChainReorgHandler.ts (`handle`, `safetySweep` and their
-- helpers). The daemon is a function from heights to hashes, which may fail; it is the same
-- throughout a run. The walk back to the fork has the source's own bound, MAX_REORG_DEPTH, as fuel.
-- BlockFlow: lib/blockFlow.ts (`categorizeTx`, `tallyTx`, `summarizeBlock`). Coinstake and Categorize have the three
-- kinds of transactions, and Mrc the search for the outputs that pay MRCs; the order that `sort` gives
-- to equal amounts there is a parameter. Summary is the rollup of a block.
-- Indexer.PhantomSpends: services/indexer/PhantomSpendDetector.ts (`markPhantomSpends`), over the stored
-- rows of `tx_inputs` as a list.
-- Address: lib/address.ts (`pubkeyToAddress`, `isValidAddress`, Base58). The two hash functions are
-- parameters, of which only the number of their bytes is used; the loops of repeated division have
-- the number itself as fuel, since each round makes it smaller.
-- Indexer.PrevOutputs: services/indexer/prevOutputs.ts, the lookup of spent outputs. The conversion of
-- amounts is a parameter.
-- VoteMessage: lib/voteClaim.ts (`packVoteMessage`).
-- Chunked: lib/chunked.ts, whose loop has the length of the list as fuel.
-- Parsed: the rows of services/indexer/ContractParser.ts, and the hashes of a block row.
-- Indexer.BlockWriter: services/indexer/BlockWriter.ts (`applyBlocks`) with the insertion of lib/db.ts.
-- How many slices of each table of a batch are written is an argument, so that a batch can fail midway.
-- Indexer.TipFollower: services/indexer/TipFollower.ts (`tick`), over the writer and the reorg handler.
-- The rounds of its loop are a list of what the daemon answers in each; a chain that does not change
-- needs one for each 32 blocks.
-- Indexer.Backfill: the class `BackfillJob` of services/indexer/HistoricalBackfiller.ts, as a machine
-- whose steps are the pieces of code between two `await`s, over any order of events.
-- Indexer.Deltas: the inputs, outputs and address deltas of services/indexer/ContractParser.ts
-- (`bumpDelta`, `processTransactions`); Indexer.Deltas.Fees: its fees and its moved value.
--
-- Numbers that the source keeps in JavaScript numbers are natural numbers without a bound, and
-- bigints are integers. Failures of the database are left out but for a batch of BlockWriter that is
-- cut off: a query returns what the tables hold.
-- Not modelled are the HTTP interface, the search index, the network pollers, the migrations and
-- the frontend, which keep no state of the indexer.
pub mod Common
pub mod Address
pub mod AddressState
pub mod BlockFlow
pub mod Chain
pub mod Chunked
pub mod Indexer
pub mod Parsed
pub mod Script
pub mod VoteMessage
