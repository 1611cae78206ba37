-- ===== src/Receipt/Mined.antt =====
-- crates/bproof/src/submit.rs: waiting for the receipt, the mined transaction against the signed
-- one, and the fee that was paid.
use Prim.Native.String.{String}
use proof_hunter_miner.Base.{
  [], ℕ, ◌*◌, ◌^◌, Bool, false, not, none, some, List, ◌∷◌, ltb, leb, ◌==◌, if◌then◌else◌, require,
  ok_or, ok, ◌>>=◌,
}
use proof_hunter_miner.Bytes.{value}
use proof_hunter_miner.Continuous.Send.{MinedSubmission}
use proof_hunter_miner.Failure.{Checked, fee_above_exposure, fee_overflow, not_object}
use proof_hunter_miner.Json.{Json, get_in}
use proof_hunter_miner.Parse.{hex_body, hex_string}
use proof_hunter_miner.Receipt.{
  require_address_field, require_digest_field, require_hex_bytes_field, require_quantity_field,
}
use proof_hunter_miner.Receipt.Parse.{TransactionReceipt}
use proof_hunter_miner.Rpc.{Call, text_param}
use proof_hunter_miner.Rpc.Calls.{call}
use proof_hunter_miner.Submit.{PreparedSubmission}
use proof_hunter_miner.Word.{Digest, from_u64, to_be_bytes, word_zero}

abbrev pub hash_call : String → Digest → Call
hash_call method transaction_hash = call method (text_param (hex_string transaction_hash) ∷ [])

-- The hexadecimal digits of a number without the leading zeros.
unfoldable pub significant : List ℕ → List ℕ
significant [] = b'0' ∷ []
significant (digit ∷ rest) = if digit == b'0' then significant rest else digit ∷ rest

-- `format!("0x{:x}", number)` of a `u128`.
unfoldable pub lower_hex : ℕ → List ℕ
lower_hex number = b'0' ∷ (b'x' ∷ significant (hex_body (to_be_bytes 16 number)))

unfoldable pub mined_submission :
    Digest → TransactionReceipt → PreparedSubmission → Checked MinedSubmission
mined_submission transaction_hash receipt prepared = do
  _ ← require (ltb (receipt.gas_used * receipt.effective_gas_price_wei) (2 ^ 128)) fee_overflow
  _ ←
      require
        (leb (receipt.gas_used * receipt.effective_gas_price_wei)
          prepared.fee_quote.maximum_exposure_wei)
        fee_above_exposure
  ok (record {
    seed_refresh = prepared.seed_refresh;
    transaction_hash = transaction_hash;
    mining_nonce = prepared.mining_nonce;
    account_nonce = prepared.account_nonce;
    fee_quote = prepared.fee_quote;
    fee_paid_wei = receipt.gas_used * receipt.effective_gas_price_wei;
    succeeded = receipt.succeeded;
    proof_nft_minted = receipt.proof_nft_minted;
    nft_token_id = receipt.nft_token_id;
  })

module _ (j : Json) where
  -- The checks of the fields of the mined transaction, in order.
  unfoldable pub check_mined :
      j.Fields → Digest → TransactionReceipt → PreparedSubmission → Checked (Unit {0})
  check_mined fields transaction_hash receipt prepared = do
    _ ← require_digest_field j fields "hash" transaction_hash
    _ ← require_address_field j fields "from" prepared.miner
    _ ← require_address_field j fields "to" prepared.transaction.to
    _ ← require_digest_field j fields "blockHash" receipt.block_hash
    _ ← require_quantity_field j fields "blockNumber" receipt.block_number
    _ ← require_quantity_field j fields "chainId" prepared.transaction.chain_id
    _ ← require_quantity_field j fields "nonce" prepared.transaction.account_nonce
    _ ← require_quantity_field j fields "gas" prepared.transaction.gas_limit
    _ ← require_quantity_field j fields "maxFeePerGas" prepared.transaction.max_fee_per_gas
    _ ←
        require_quantity_field j fields "maxPriorityFeePerGas"
          prepared.transaction.max_priority_fee_per_gas
    _ ← require_quantity_field j fields "value" word_zero
    _ ← require_quantity_field j fields "type" (from_u64 2)
    require_hex_bytes_field j fields "input" prepared.transaction.call_data

  unfoldable pub check_mined_value :
      j.Value → Digest → TransactionReceipt → PreparedSubmission → Checked (Unit {0})
  check_mined_value value transaction_hash receipt prepared = do
    fields ← ok_or not_object (j.as_object value)
    check_mined fields transaction_hash receipt prepared

  unfoldable pub check_canonical : j.Value → TransactionReceipt → Checked (Unit {0})
  check_canonical value receipt = do
    block ← ok_or not_object (j.as_object value)
    require_digest_field j block "hash" receipt.block_hash

  -- `value.get("blockHash").is_some_and(|v| !v.is_null())`.
  unfoldable pub is_included : j.Value → Bool
  is_included value = elim (get_in j value "blockHash") [
    | none ↦ false
    | some hash ↦ not (j.is_null hash)
  ]
