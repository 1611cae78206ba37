-- ===== src/Lib.antt =====
-- Verification of the Proof Hunters miner: the proof core and the command-line miner.
--
-- The program searches for a nonce whose proof digest meets a target, and submits it to a contract.
-- The parts, the files that model them, and the code:
--
-- - Word, Proof, Keccak: the 256-bit words, preimages, digests and target rule of
--   crates/proof-core/src/proof.rs. A word, digest or target is the list of its 32 bytes, the
--   highest first, as in the source. Keccak-256 comes from a third-party crate: it is the parameter
--   `Keccak`, of which only the hashing in pieces and the size of a digest are assumed.
-- - Search: `search_nonce` of crates/proof-core/src/search.rs, by recursion on the attempts left.
-- - Schedule: crates/proof-core/src/schedule.rs, and the loop of the schedule summary in
--   crates/bproof/src/cli.rs, as `drain` with fuel. Each reward is at least one token or all that
--   remains, so 21,000,000 rounds are enough.
-- - Parse: crates/bproof/src/parse.rs. A text is the list of its bytes. The loop that prints
--   decimal digits has fuel 78, the most digits that a 256-bit number has.
-- - Power: crates/bproof/src/power.rs. `effective_value` states the formula in plain numbers.
-- - Failure, Json: the errors of the next parts, and the values of `serde_json`, a parameter.
-- - Rpc, Chain: crates/bproof/src/chain.rs. A computation that talks to the node counts the messages
--   that it sends, and a node may answer each message differently. Rpc has single and batched calls,
--   Chain the reads; Chain/Offline has the state file, from its parsed JSON on.
-- - Receipt: receipts, events and mined transactions of crates/bproof/src/submit.rs. Receipt/Wait has
--   the loops that poll the node, with fuel: as many rounds as the deadline lets pass are enough.
-- - Submit/Document: the document of the journal, of crates/bproof/src/submit.rs, without its JSON.
-- - Mining: the workers of crates/bproof/src/mining.rs, each with its own stride of the nonces.
--   Mining/Coordinate has `mine_with_control`, by fuel on its rounds: each round makes an attempt,
--   so with a cap the cap is enough. What threads and channels decide is an environment: the
--   readings of the stop flag, the order of the reports, and whether a worker leaves or fails.
-- - Command: the options of a mining command in crates/bproof/src/cli.rs that decide who mines and
--   what may be spent, as values that the argument parser has filled.
-- - Fees, Submit: the fee quote and the preparation of crates/bproof/src/submit.rs. The answers of
--   the node are a record of replies, and the text of an error is an abstract type.
-- - Transaction: crates/bproof/src/transaction.rs. The wallet's signature is a parameter.
-- - Classification: crates/bproof/src/classification.rs, with its long division by bits.
-- - Continuous: the loop of crates/bproof/src/continuous.rs. Continuous/Send has the journal
--   around a broadcast, of crates/bproof/src/submit.rs; Continuous/Outcome and Continuous/Round
--   have one round of the loop as a function of what it reads.
--
-- The loop calls the search, prepares what it finds, and sends what is prepared; the classification
-- of a proof only chooses a counter. Each of `u64` and `u128` is a number below its limit. Checked
-- operations test their result; others keep the wrap-around of a release build.
--
-- Base, Bytes hold what the parts share; Examples, Runs, Flows, Documents, Exchanges, Readings and
-- Searches hold concrete inputs.
--
-- Not modelled: threads and channels themselves, the HTTP client and the encoding of JSON, the
-- system calls that write and remove the journal (their outcomes are inputs), the keystore,
-- argument parsing, rendering, and the browser benchmark. In Continuous a transaction that passes the
-- checks of Receipt is a reply that is settled.
pub mod Base
pub mod Bytes
pub mod Word
pub mod Keccak
pub mod Proof
pub mod Search
pub mod Parse
pub mod Power
pub mod Mining
pub mod Schedule
pub mod Fees
pub mod Transaction
pub mod Submit
pub mod Classification
pub mod Continuous
pub mod Examples
pub mod Runs
pub mod Flows
pub mod Documents
pub mod Exchanges
pub mod Readings
pub mod Searches
pub mod Json
pub mod Failure
pub mod Rpc
pub mod Chain
pub mod Receipt
pub mod Command
