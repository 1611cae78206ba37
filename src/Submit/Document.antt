-- ===== src/Submit/Document.antt =====
-- crates/bproof/src/submit.rs: the document of a pending submission, which is written before a
-- transaction is broadcast and read back after a crash. Its encoding as JSON (`serde`) is left out.
use proof_hunter_miner.Base.{
  [], ℕ, ◌*◌, ◌^◌, Bool, not, ◌&&◌, ◌||◌, Option, none, some, List, ltb, leb, ◌==◌, require, ok,
  ◌>>=◌,
}
use proof_hunter_miner.Bytes.{same_bytes}
use proof_hunter_miner.Failure.{
  Checked, bad_refresh_data, exposure_overflow, in_range, inconsistent_fees, inconsistent_nonces,
  legacy_refresh, read, unauthorised_fee, unsupported_version,
}
use proof_hunter_miner.Fees.{FeeQuote, fee_quote, padded_gas_limit}
use proof_hunter_miner.Keccak.{Keccak}
use proof_hunter_miner.Parse.{
  hex_string, parse_address, parse_decimal_uint256, parse_digest, parse_hex_bytes, parse_u128,
  parse_u64, uint256_to_decimal,
}
use proof_hunter_miner.Submit.{PreparedSubmission}
use proof_hunter_miner.Submit.Prepare.{refresh_call_data}
use proof_hunter_miner.Transaction.{Eip1559Transaction}
use proof_hunter_miner.Word.{Digest, Uint256, from_u128, from_u64}

pub record PendingSubmissionDocument : Type 0 where
  pub seed_refresh : Bool
  pub version : ℕ
  pub transaction_hash : List ℕ
  pub raw_transaction : List ℕ
  pub mining_nonce : List ℕ
  pub account_nonce : List ℕ
  pub miner : List ℕ
  pub challenge_id : List ℕ
  pub seed_parent_block : List ℕ
  pub challenge : List ℕ
  pub expected_digest : List ℕ
  pub basket : List ℕ
  pub chain_id : List ℕ
  pub max_priority_fee_per_gas : List ℕ
  pub max_fee_per_gas : List ℕ
  pub gas_limit : List ℕ
  pub to : List ℕ
  pub call_data : List ℕ
  pub base_fee_per_gas_wei : List ℕ
  pub priority_fee_per_gas_wei : List ℕ
  pub estimated_gas : List ℕ
  pub gas_margin_percent : List ℕ
  pub maximum_exposure_wei : List ℕ
  pub fee_ceiling_wei : List ℕ
  pub proof_classification : List ℕ
  pub classification_reason : Option (List ℕ)

abbrev pub pending_submission_version : ℕ
pending_submission_version = 2

-- The text of `uint256_to_decimal`, whose rounds are enough for every word.
unfoldable pub decimal_text : Uint256 → List ℕ
decimal_text word = elim (uint256_to_decimal word) [ none ↦ [] | some written ↦ written ]

-- `to_string` of a `u128` or a `u64`: the decimal digits of the number.
unfoldable pub number_text : ℕ → List ℕ
number_text n = decimal_text (from_u128 n)

unfoldable pub from_prepared :
    Digest → List ℕ → PreparedSubmission → List ℕ → Option (List ℕ) → PendingSubmissionDocument
from_prepared transaction_hash raw_transaction prepared proof_classification classification_reason =
    record {
      seed_refresh = prepared.seed_refresh;
      version = pending_submission_version;
      transaction_hash = hex_string transaction_hash;
      raw_transaction = raw_transaction;
      mining_nonce = decimal_text prepared.mining_nonce;
      account_nonce = decimal_text prepared.account_nonce;
      miner = hex_string prepared.miner;
      challenge_id = decimal_text prepared.challenge_id;
      seed_parent_block = decimal_text prepared.seed_parent_block;
      challenge = hex_string prepared.challenge;
      expected_digest = hex_string prepared.expected_digest;
      basket = hex_string prepared.basket;
      chain_id = decimal_text prepared.transaction.chain_id;
      max_priority_fee_per_gas = decimal_text prepared.transaction.max_priority_fee_per_gas;
      max_fee_per_gas = decimal_text prepared.transaction.max_fee_per_gas;
      gas_limit = decimal_text prepared.transaction.gas_limit;
      to = hex_string prepared.transaction.to;
      call_data = hex_string prepared.transaction.call_data;
      base_fee_per_gas_wei = number_text prepared.fee_quote.base_fee_per_gas_wei;
      priority_fee_per_gas_wei = number_text prepared.fee_quote.priority_fee_per_gas_wei;
      estimated_gas = number_text prepared.fee_quote.estimated_gas;
      gas_margin_percent = number_text prepared.fee_quote.gas_margin_percent;
      maximum_exposure_wei = number_text prepared.fee_quote.maximum_exposure_wei;
      fee_ceiling_wei = number_text prepared.fee_quote.fee_ceiling_wei;
      proof_classification = proof_classification;
      classification_reason = classification_reason;
    }

unfoldable pub document_fee : PendingSubmissionDocument → Checked FeeQuote
document_fee doc = do
  base_fee_per_gas_wei ← read (parse_u128 doc.base_fee_per_gas_wei)
  priority_fee_per_gas_wei ← read (parse_u128 doc.priority_fee_per_gas_wei)
  max_fee_per_gas_wei ← read (parse_u128 doc.max_fee_per_gas)
  estimated_gas ← read (parse_u64 doc.estimated_gas)
  gas_margin_percent ← read (parse_u64 doc.gas_margin_percent)
  gas_limit ← read (parse_u64 doc.gas_limit)
  maximum_exposure_wei ← read (parse_u128 doc.maximum_exposure_wei)
  fee_ceiling_wei ← read (parse_u128 doc.fee_ceiling_wei)
  ok (record {
    base_fee_per_gas_wei = base_fee_per_gas_wei;
    priority_fee_per_gas_wei = priority_fee_per_gas_wei;
    max_fee_per_gas_wei = max_fee_per_gas_wei;
    estimated_gas = estimated_gas;
    gas_margin_percent = gas_margin_percent;
    gas_limit = gas_limit;
    maximum_exposure_wei = maximum_exposure_wei;
    fee_ceiling_wei = fee_ceiling_wei;
  })

unfoldable pub document_transaction : PendingSubmissionDocument → Checked Eip1559Transaction
document_transaction doc = do
  chain_id ← read (parse_decimal_uint256 doc.chain_id)
  account_nonce ← read (parse_decimal_uint256 doc.account_nonce)
  max_priority_fee_per_gas ← read (parse_decimal_uint256 doc.max_priority_fee_per_gas)
  max_fee_per_gas ← read (parse_decimal_uint256 doc.max_fee_per_gas)
  gas_limit ← read (parse_decimal_uint256 doc.gas_limit)
  to ← read (parse_address doc.to)
  call_data ← read (parse_hex_bytes doc.call_data)
  ok (record {
    chain_id = chain_id;
    account_nonce = account_nonce;
    max_priority_fee_per_gas = max_priority_fee_per_gas;
    max_fee_per_gas = max_fee_per_gas;
    gas_limit = gas_limit;
    to = to;
    call_data = call_data;
  })

unfoldable pub document_prepared : PendingSubmissionDocument → FeeQuote → Checked PreparedSubmission
document_prepared doc fee_quote = do
  mining_nonce ← read (parse_decimal_uint256 doc.mining_nonce)
  account_nonce ← read (parse_decimal_uint256 doc.account_nonce)
  miner ← read (parse_address doc.miner)
  challenge_id ← read (parse_decimal_uint256 doc.challenge_id)
  seed_parent_block ← read (parse_decimal_uint256 doc.seed_parent_block)
  challenge ← read (parse_digest doc.challenge)
  expected_digest ← read (parse_digest doc.expected_digest)
  basket ← read (parse_address doc.basket)
  transaction ← document_transaction doc
  ok (record {
    seed_refresh = doc.seed_refresh;
    mining_nonce = mining_nonce;
    account_nonce = account_nonce;
    fee_quote = fee_quote;
    miner = miner;
    challenge_id = challenge_id;
    seed_parent_block = seed_parent_block;
    challenge = challenge;
    expected_digest = expected_digest;
    basket = basket;
    transaction = transaction;
  })

-- What is asked of the fields against each other.
unfoldable pub check_fees : PreparedSubmission → FeeQuote → Checked (Unit {0})
check_fees prepared fee_quote = do
  _ ←
      require
        (same_bytes prepared.transaction.max_fee_per_gas (from_u128 fee_quote.max_fee_per_gas_wei)
          && (same_bytes prepared.transaction.max_priority_fee_per_gas
                (from_u128 fee_quote.priority_fee_per_gas_wei)
              && same_bytes prepared.transaction.gas_limit (from_u64 fee_quote.gas_limit)))
        inconsistent_fees
  expected_gas_limit ←
      in_range (padded_gas_limit fee_quote.estimated_gas fee_quote.gas_margin_percent)
  _ ←
      require (ltb (fee_quote.gas_limit * fee_quote.max_fee_per_gas_wei) (2 ^ 128))
        exposure_overflow
  require
      (expected_gas_limit == fee_quote.gas_limit
        && (fee_quote.gas_limit * fee_quote.max_fee_per_gas_wei == fee_quote.maximum_exposure_wei
            && leb fee_quote.maximum_exposure_wei fee_quote.fee_ceiling_wei))
      unauthorised_fee

unfoldable pub check_consistent : Keccak → PreparedSubmission → FeeQuote → Checked (Unit {0})
check_consistent k prepared fee_quote = do
  _ ←
      require
        (not prepared.seed_refresh
          || same_bytes prepared.transaction.call_data (refresh_call_data k))
        bad_refresh_data
  _ ←
      require (same_bytes prepared.transaction.account_nonce prepared.account_nonce)
        inconsistent_nonces
  check_fees prepared fee_quote

unfoldable pub check_version : PendingSubmissionDocument → Checked (Unit {0})
check_version doc = do
  _ ← require (doc.version == 1 || doc.version == pending_submission_version) unsupported_version
  require (not (doc.version == 1 && doc.seed_refresh)) legacy_refresh

unfoldable pub to_prepared :
    Keccak → PendingSubmissionDocument → Checked (Digest × List ℕ × PreparedSubmission)
to_prepared k doc = do
  _ ← check_version doc
  transaction_hash ← read (parse_digest doc.transaction_hash)
  raw_transaction ← read (parse_hex_bytes doc.raw_transaction)
  fee_quote ← document_fee doc
  prepared ← document_prepared doc fee_quote
  _ ← check_consistent k prepared fee_quote
  ok (transaction_hash, raw_transaction, prepared)
