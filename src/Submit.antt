-- ===== src/Submit.antt =====
-- crates/bproof/src/submit.rs: how a transaction is prepared from one batch of node reads. A node
-- reply is the text of its result, or an error; what an error's text is made of stays abstract.
pub mod Document
pub mod Reading
pub mod Prepare
pub mod Ceiling
use proof_hunter_miner.Base.{
  ◌>>=◌, ℕ, Bool, false, Option, none, some, List, ltb, if◌then◌else◌, Result, ok, err, replicate,
}
use proof_hunter_miner.Word.{Uint256, Address, Digest, word_zero, from_u128, from_u64}
use proof_hunter_miner.Parse.{ParseError, parse_hex_quantity_uint256}
use proof_hunter_miner.Fees.{
  FeeError, FeeOptions, FeeQuote, fee_quote, uint256_to_u128, uint256_to_u64,
}
use proof_hunter_miner.Transaction.{Eip1559Transaction}

pub record PreparedSubmission : Type 0 where
  pub seed_refresh : Bool
  pub mining_nonce : Uint256
  pub account_nonce : Uint256
  pub fee_quote : FeeQuote
  pub miner : Address
  pub challenge_id : Uint256
  pub seed_parent_block : Uint256
  pub challenge : Digest
  pub expected_digest : Digest
  pub basket : Address
  pub transaction : Eip1559Transaction

-- `E` is the text of an error, which is passed on.
pub data PreparationOutcome (E : Type 0) : Type 0 where
  ready : PreparedSubmission → PreparationOutcome E
  simulation_rejected : E → PreparationOutcome E
  expired_seed_changed : PreparationOutcome E
  fee_refused : FeeQuote → PreparationOutcome E

pub data PrepareError (E : Type 0) : Type 0 where
  rpc : E → PrepareError E
  parse : ParseError → PrepareError E
  fee : FeeError → PrepareError E
  no_base_fee : PrepareError E

-- The calls of the batch.
pub data BatchCall : Type 0 where
  proof_simulation gas_estimate latest_block priority_fee_quote transaction_count : BatchCall

-- What the batch returns: a string for most calls; for the block, its `baseFeePerGas` string, if it
-- has one.
pub record NodeReplies (E : Type 0) : Type 0 where
  pub text : BatchCall → Result E (List ℕ)
  pub block_base_fee : Result E (Option (List ℕ))
  -- `error.contains("JSON-RPC proof simulation failed with error")`
  pub is_simulation_failure : E → Bool

abbrev pub Prepare : Type 0 → Type 0 → Type 0
Prepare E = Result (PrepareError E)

unfoldable pub lift_parse : {E A : Type 0} → Result ParseError A → Prepare E A
lift_parse (ok a) = ok a
lift_parse (err e) = err (parse e)

unfoldable pub lift_fee : {E A : Type 0} → Result FeeError A → Prepare E A
lift_fee (ok a) = ok a
lift_fee (err e) = err (fee e)

unfoldable pub lift_rpc : {E A : Type 0} → Result E A → Prepare E A
lift_rpc (ok a) = ok a
lift_rpc (err e) = err (rpc e)

unfoldable pub base_fee_per_gas_from_block : {E : Type 0} → Option (List ℕ) → Prepare E ℕ
base_fee_per_gas_from_block none = err no_base_fee
base_fee_per_gas_from_block (some text) = do
  word ← lift_parse (parse_hex_quantity_uint256 text)
  lift_fee (uint256_to_u128 word)

unfoldable pub priority_fee_per_gas_from_text : {E : Type 0} → List ℕ → Prepare E ℕ
priority_fee_per_gas_from_text text = do
  word ← lift_parse (parse_hex_quantity_uint256 text)
  lift_fee (uint256_to_u128 word)

-- `match (override, index)`.
unfoldable pub base_fee_of : {E : Type 0} → Option ℕ → NodeReplies E → Prepare E ℕ
base_fee_of (some wei) replies = ok wei
base_fee_of none replies = do
  block ← lift_rpc replies.block_base_fee
  base_fee_per_gas_from_block block

unfoldable pub priority_fee_of : {E : Type 0} → Option ℕ → NodeReplies E → Prepare E ℕ
priority_fee_of (some wei) replies = ok wei
priority_fee_of none replies = do
  text ← lift_rpc (replies.text priority_fee_quote)
  priority_fee_per_gas_from_text text

unfoldable pub call_transaction :
    Uint256 → Address → List ℕ → FeeQuote → Uint256 → Eip1559Transaction
call_transaction chain_id core call_data quote account_nonce = record {
  chain_id = chain_id;
  account_nonce = account_nonce;
  max_priority_fee_per_gas = from_u128 quote.priority_fee_per_gas_wei;
  max_fee_per_gas = from_u128 quote.max_fee_per_gas_wei;
  gas_limit = from_u64 quote.gas_limit;
  to = core;
  call_data = call_data;
}

unfoldable pub prepared_call :
    Address → FeeQuote → Uint256 → Eip1559Transaction → PreparedSubmission
prepared_call miner quote account_nonce transaction = record {
  seed_refresh = false;
  mining_nonce = word_zero;
  account_nonce = account_nonce;
  fee_quote = quote;
  miner = miner;
  challenge_id = word_zero;
  seed_parent_block = word_zero;
  challenge = replicate 32 0;
  expected_digest = replicate 32 0;
  basket = replicate 20 0;
  transaction = transaction;
}

-- From the account nonce on, once the fee is accepted.
unfoldable pub ready_call :
    {E : Type 0}
    → NodeReplies E
    → Uint256
    → Address
    → Address
    → List ℕ
    → FeeQuote
    → Prepare E (PreparationOutcome E)
ready_call replies chain_id core miner call_data quote = do
  text ← lift_rpc (replies.text transaction_count)
  account_nonce ← lift_parse (parse_hex_quantity_uint256 text)
  ok (
      ready (
        prepared_call miner quote account_nonce
          (call_transaction chain_id core call_data quote account_nonce)))

-- From the gas estimate on, once the simulation has succeeded.
unfoldable pub quote_call : {E : Type 0} → NodeReplies E → FeeOptions → Prepare E FeeQuote
quote_call replies options = do
  text ← lift_rpc (replies.text gas_estimate)
  word ← lift_parse (parse_hex_quantity_uint256 text)
  estimated_gas ← lift_fee (uint256_to_u64 word)
  base_fee ← base_fee_of options.base_fee_per_gas_override_wei replies
  priority_fee ← priority_fee_of options.priority_fee_per_gas_override_wei replies
  lift_fee (
      fee_quote base_fee priority_fee estimated_gas options.gas_margin_percent
        options.fee_ceiling_wei)

unfoldable pub within_ceiling :
    {E : Type 0}
    → NodeReplies E
    → Uint256
    → Address
    → Address
    → List ℕ
    → FeeQuote
    → Prepare E (PreparationOutcome E)
within_ceiling replies chain_id core miner call_data quote =
    if ltb quote.fee_ceiling_wei quote.maximum_exposure_wei
    then ok (fee_refused quote)
    else ready_call replies chain_id core miner call_data quote

unfoldable pub simulated_call :
    {E : Type 0}
    → NodeReplies E
    → Uint256
    → Address
    → Address
    → List ℕ
    → FeeOptions
    → Prepare E (PreparationOutcome E)
simulated_call replies chain_id core miner call_data options = do
  quote ← quote_call replies options
  within_ceiling replies chain_id core miner call_data quote

unfoldable pub prepare_call :
    {E : Type 0}
    → NodeReplies E
    → Uint256
    → Address
    → Address
    → List ℕ
    → FeeOptions
    → Prepare E (PreparationOutcome E)
prepare_call replies chain_id core miner call_data options = elim (replies.text proof_simulation) [
  | err e ↦ if replies.is_simulation_failure e then ok (simulation_rejected e) else err (rpc e)
  | ok result ↦ simulated_call replies chain_id core miner call_data options
]
