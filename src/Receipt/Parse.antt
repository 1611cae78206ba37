-- ===== src/Receipt/Parse.antt =====
-- crates/bproof/src/submit.rs: `parse_receipt` and the events that it demands.
use proof_hunter_miner.Base.{
  [], ℕ, Bool, true, false, not, ◌&&◌, ◌||◌, Option, none, some, List, ◌∷◌, require, ok_or, codes,
  ok, err, ◌>>=◌,
}
use proof_hunter_miner.Bytes.{bytes_ltb, same_bytes, value}
use proof_hunter_miner.Failure.{
  Checked, bad_count, bad_status, bad_tier, id_overflow, in_range, is_some, mint_mismatch, no_logs,
  no_token, not_object, refresh_minted, seed_not_advanced,
}
use proof_hunter_miner.Fees.{uint256_to_u128}
use proof_hunter_miner.Json.{Json, get_array}
use proof_hunter_miner.Keccak.{Keccak}
use proof_hunter_miner.Proof.{address_word}
use proof_hunter_miner.Receipt.{
  digest_field, quantity_field, receipt_quantity, require_address_field, require_digest_field,
}
use proof_hunter_miner.Receipt.Events.{
  Inclusion, event_candidates, event_data_words, event_fields, event_signature, event_topics,
  inclusion, require_topic_address, require_topic_digest, require_topic_uint256,
  require_word_digest, require_word_uint256, same_bool, topic_word, word_at,
}
use proof_hunter_miner.Submit.{PreparedSubmission}
use proof_hunter_miner.Word.{Digest, Uint256, from_u64, word_one, word_zero, wrapping_add}

pub record TransactionReceipt : Type 0 where
  pub succeeded : Bool
  pub gas_used : ℕ
  pub effective_gas_price_wei : ℕ
  pub proof_nft_minted : Bool
  pub nft_token_id : Option Uint256
  pub block_hash : Digest
  pub block_number : Uint256

abbrev pub proof_accepted_event : List ℕ
proof_accepted_event =
    codes
      "ProofAccepted(address,uint256,bytes32,uint256,bytes32,uint256,uint256,uint256,uint256,uint256,bool)"

abbrev pub proof_nft_event : List ℕ
proof_nft_event = codes "ProofNftMinted(address,uint256,uint256,bytes32,uint8,address)"

abbrev pub seed_refreshed_event : List ℕ
seed_refreshed_event = codes "SeedRefreshed(uint256,uint256,uint256,uint256)"

-- The one candidate of a list that must have one.
unfoldable pub only : {A : Type 0} → List A → Checked A
only [] = err bad_count
only (x ∷ []) = ok x
only (x ∷ (y ∷ ys)) = err bad_count

module _ (k : Keccak) (j : Json) where
  unfoldable pub verify_proof_accepted_event :
      List j.Value → Inclusion → PreparedSubmission → Checked (Unit {0})
  verify_proof_accepted_event logs at prepared = do
    candidates ← event_candidates j logs (event_signature k proof_accepted_event)
    log ← only candidates
    fields ← event_fields j log at prepared.transaction.to
    topics ← event_topics j fields 4
    _ ← require_topic_address j topics 1 prepared.miner
    _ ← require_topic_uint256 j topics 2 prepared.challenge_id
    _ ← require_topic_digest j topics 3 prepared.expected_digest
    words ← event_data_words j fields 8
    _ ← require_word_uint256 words 0 prepared.seed_parent_block
    _ ← require_word_digest words 1 prepared.challenge
    require_word_uint256 words 2 prepared.mining_nonce

  -- The one `ProofNftMinted` event, from its fields on.
  unfoldable pub nft_event : j.Value → Inclusion → PreparedSubmission → Checked Uint256
  nft_event log at prepared = do
    fields ← event_fields j log at prepared.transaction.to
    topics ← event_topics j fields 4
    _ ← require_topic_address j topics 1 prepared.miner
    _ ← require_topic_uint256 j topics 3 prepared.challenge_id
    words ← event_data_words j fields 3
    _ ← require_word_digest words 0 prepared.expected_digest
    _ ← require_word_uint256 words 2 (address_word prepared.basket)
    tier ← word_at words 1
    _ ← require (not (bytes_ltb tier word_one) && not (bytes_ltb (from_u64 4) tier)) bad_tier
    token_id ← topic_word j topics 2
    _ ← require (not (same_bytes token_id word_zero)) no_token
    ok token_id

  unfoldable pub nft_of : List j.Value → Inclusion → PreparedSubmission → Checked (Option Uint256)
  nft_of [] at prepared = ok none
  nft_of (log ∷ []) at prepared = do token_id ← nft_event log at prepared; ok (some token_id)
  nft_of (log ∷ (other ∷ more)) at prepared = err bad_count

  unfoldable pub verify_proof_nft_event :
      List j.Value → Inclusion → PreparedSubmission → Checked (Option Uint256)
  verify_proof_nft_event logs at prepared = do
    candidates ← event_candidates j logs (event_signature k proof_nft_event)
    nft_of candidates at prepared

  unfoldable pub refreshed_event : j.Value → Inclusion → PreparedSubmission → Checked (Unit {0})
  refreshed_event log at prepared = do
    fields ← event_fields j log at prepared.transaction.to
    topics ← event_topics j fields 3
    _ ← require_topic_uint256 j topics 1 prepared.challenge_id
    _ ←
        require (not (same_bytes (wrapping_add prepared.challenge_id word_one) word_zero))
          id_overflow
    _ ← require_topic_uint256 j topics 2 (wrapping_add prepared.challenge_id word_one)
    words ← event_data_words j fields 2
    _ ← require_word_uint256 words 0 prepared.seed_parent_block
    seed ← word_at words 1
    require (bytes_ltb prepared.seed_parent_block seed) seed_not_advanced

  -- A refresh that succeeded has one event, one that reverted has none.
  unfoldable pub refreshed_of :
      Bool → List j.Value → Inclusion → PreparedSubmission → Checked (Unit {0})
  refreshed_of true candidates at prepared = do
    log ← only candidates
    refreshed_event log at prepared
  refreshed_of false [] at prepared = ok tt
  refreshed_of false (log ∷ more) at prepared = err bad_count

  unfoldable pub verify_seed_refreshed_event :
      List j.Value → Inclusion → PreparedSubmission → Bool → Checked (Unit {0})
  verify_seed_refreshed_event logs at prepared succeeded = do
    candidates ← event_candidates j logs (event_signature k seed_refreshed_event)
    refreshed_of succeeded candidates at prepared

  -- The demands on the mint: none for a refresh, one exactly for a proof that succeeded.
  unfoldable pub mint_demand :
      Bool
      → List j.Value
      → Inclusion
      → PreparedSubmission
      → Bool
      → Option Uint256
      → Checked (Unit {0})
  mint_demand true logs at prepared succeeded token_id = do
    _ ← verify_seed_refreshed_event logs at prepared succeeded
    require (not (is_some token_id)) refresh_minted
  mint_demand false logs at prepared succeeded token_id =
      require (same_bool succeeded (is_some token_id)) mint_mismatch

  unfoldable pub check_mint :
      List j.Value → Inclusion → PreparedSubmission → Bool → Option Uint256 → Checked (Unit {0})
  check_mint logs at prepared succeeded token_id =
      mint_demand prepared.seed_refresh logs at prepared succeeded token_id

  unfoldable pub acceptance_demand :
      Bool → List j.Value → Inclusion → PreparedSubmission → Checked (Unit {0})
  acceptance_demand true logs at prepared = verify_proof_accepted_event logs at prepared
  acceptance_demand false logs at prepared = ok tt

  unfoldable pub check_accepted :
      List j.Value → Inclusion → PreparedSubmission → Bool → Checked (Unit {0})
  check_accepted logs at prepared succeeded =
      acceptance_demand (succeeded && not prepared.seed_refresh) logs at prepared

  unfoldable pub parse_receipt : j.Value → Digest → PreparedSubmission → Checked TransactionReceipt
  parse_receipt value transaction_hash prepared = do
    fields ← ok_or not_object (j.as_object value)
    _ ← require_digest_field j fields "transactionHash" transaction_hash
    _ ← require_address_field j fields "from" prepared.miner
    _ ← require_address_field j fields "to" prepared.transaction.to
    block_hash ← digest_field j fields "blockHash"
    block_number ← quantity_field j fields "blockNumber"
    status ← receipt_quantity j fields "status"
    _ ← require (same_bytes status word_zero || same_bytes status word_one) bad_status
    gas_word ← receipt_quantity j fields "gasUsed"
    gas_used ← in_range (uint256_to_u128 gas_word)
    price_word ← receipt_quantity j fields "effectiveGasPrice"
    price ← in_range (uint256_to_u128 price_word)
    logs ← ok_or no_logs (get_array j fields "logs")
    _ ←
        check_accepted logs (inclusion transaction_hash block_hash block_number) prepared
          (same_bytes status word_one)
    token_id ←
        verify_proof_nft_event logs (inclusion transaction_hash block_hash block_number) prepared
    _ ←
        check_mint logs (inclusion transaction_hash block_hash block_number) prepared
          (same_bytes status word_one) token_id
    ok (record {
      succeeded = same_bytes status word_one;
      gas_used = gas_used;
      effective_gas_price_wei = price;
      proof_nft_minted = is_some token_id;
      nft_token_id = token_id;
      block_hash = block_hash;
      block_number = block_number;
    })
