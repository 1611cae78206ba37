-- ===== src/Flows.antt =====
-- Concrete flows: a worker's batches, a prepared proof, its payload, and rounds of the loop.
use proof_hunter_miner.Base.{
  [], ℕ, ◌≡◌, refl, true, false, none, some, List, ◌∷◌, ◌++◌, arith, Result, ok, err, length,
  replicate,
}
use proof_hunter_miner.Bytes.{same_bytes, value}
use proof_hunter_miner.Continuous.{
  ChallengeMarker, active, no_counters, reset, same_marker, take_delay,
}
use proof_hunter_miner.Continuous.Invariant.{IsSound, IsSteady}
use proof_hunter_miner.Continuous.Outcome.{
  Loop, Replies, ending, mining, mining_abandoned, mining_found, repeated_failure, rpc_retry,
  running, watched_mine,
}
use proof_hunter_miner.Continuous.Round.{
  active_round, after_recovery, marked_round, marker_of, mining_round, proof_outcome, round, rounds,
  send_proof, submitted, watched_outcome,
}
use proof_hunter_miner.Continuous.Send.{
  RecoverReplies, SendReplies, after_persist, broadcast_signed, cleared, persist_then_broadcast,
  persisted, recover_pending_submission, send_prepared_submission, settled_then,
}
use proof_hunter_miner.Continuous.Start.{
  IsSafeRecovery, after_recovery-IsSound, recover_pending_submission-IsSafeRecovery,
}
use proof_hunter_miner.Continuous.Steady.{rounds-IsSound}
use proof_hunter_miner.Fees.{
  FeeOptions, FeeQuote, checked, fee_quote, padded_gas_limit, uint256_to_u64,
}
use proof_hunter_miner.Keccak.{Keccak}
use proof_hunter_miner.Mining.{worker_run}
use proof_hunter_miner.Mining.Batches.{summary, total, worker_run-search_nonce}
use proof_hunter_miner.Parse.{
  hex_nibble, hex_pairs, nibble, parse_hex_quantity_uint256, quantity_bytes, quantity_word,
  strip_0x,
}
use proof_hunter_miner.Proof.{ChallengeInputs, IsChallengeInputs}
use proof_hunter_miner.Search.{search_nonce}
use proof_hunter_miner.Submit.{
  BatchCall, NodeReplies, PreparedSubmission, base_fee_of, call_transaction, gas_estimate, lift_fee,
  lift_parse, lift_rpc, prepare_call, prepared_call, priority_fee_of, quote_call, ready, ready_call,
  simulated_call, transaction_count, within_ceiling,
}
use proof_hunter_miner.Submit.Ceiling.{IsProofPrepared, prepare_submission-IsProofPrepared}
use proof_hunter_miner.Submit.Prepare.{prepare_submission, when_ready, with_proof}
use proof_hunter_miner.Transaction.{
  Eip1559Transaction, concat, rlp_bytes, rlp_integer, rlp_length, rlp_list, skip_zeros,
  submit_proof_call_data, unsigned_fields,
}
use proof_hunter_miner.Transaction.Payload.{IsTransaction, typed_payload-injective}
use proof_hunter_miner.Word.{
  word_one, from_u128, from_u128-IsWord, from_u64, from_u64-IsWord, to_be_bytes,
  to_be_bytes-IsArray, zeros-IsArray,
}

abbrev pub last_word : Keccak
last_word = record {
  State = List ℕ;
  new = [];
  update = λ s bytes. s ++ bytes;
  finalize = λ s. to_be_bytes 32 (value s);
  update_pieces = λ front back. refl;
  finalize-IsWord = λ s. to_be_bytes-IsArray 32 (value s);
}

abbrev pub inputs : ChallengeInputs
inputs = record {
  chain_id = from_u64 31_337;
  mining_core = replicate 20 0;
  challenge_id = from_u64 7;
  previous_accepted_digest = replicate 32 0;
  seed_parent_block = from_u64 99;
  seed_blockhash = from_u64 12_345;
}

pub inputs-IsChallengeInputs : IsChallengeInputs inputs
inputs-IsChallengeInputs = record {
  chain_id = from_u64-IsWord 31_337;
  mining_core = zeros-IsArray 20;
  challenge_id = from_u64-IsWord 7;
  previous_accepted_digest = zeros-IsArray 32;
  seed_parent_block = from_u64-IsWord 99;
  seed_blockhash = from_u64-IsWord 12_345;
}

worker_run-search_nonce_example :
    summary (
      worker_run last_word inputs
        (replicate 20 0)
        (from_u64 14)
        (from_u64 3)
        (from_u64 20)
        (2 ∷ 5 ∷ []))
    ≡ search_nonce last_word inputs
        (replicate 20 0)
        (from_u64 14)
        (from_u64 20)
        (from_u64 3)
        (total (2 ∷ 5 ∷ []))
worker_run-search_nonce_example =
    worker_run-search_nonce last_word inputs (replicate 20 0) (from_u64 14) (from_u64 3)
      inputs-IsChallengeInputs (zeros-IsArray 20) (from_u64-IsWord 3) (2 ∷ 5 ∷ []) (from_u64 20)
      (from_u64-IsWord 20)

abbrev a_transaction : Eip1559Transaction
a_transaction = record {
  chain_id = from_u64 31_337;
  account_nonce = from_u64 4;
  max_priority_fee_per_gas = from_u128 7;
  max_fee_per_gas = from_u128 2_007;
  gas_limit = from_u64 25_202;
  to = replicate 20 0;
  call_data = 0xaa ∷ 0xbb ∷ 0xcc ∷ 0xdd ∷ [];
}

payload_size : length (concat (unsigned_fields a_transaction)) ≡ 39
unfolding unsigned_fields rlp_integer rlp_bytes rlp_list rlp_length skip_zeros from_u64 from_u128
    to_be_bytes
payload_size = refl

a_transaction-IsTransaction : IsTransaction a_transaction
a_transaction-IsTransaction = record {
  chain_id = from_u64-IsWord 31_337;
  account_nonce = from_u64-IsWord 4;
  max_priority_fee_per_gas = from_u128-IsWord 7;
  max_fee_per_gas = from_u128-IsWord 2_007;
  gas_limit = from_u64-IsWord 25_202;
  to = zeros-IsArray 20;
  call_data = omega arith;
  payload = rw payload_size (omega arith);
}

typed_payload-injective_example : a_transaction ≡ a_transaction
typed_payload-injective_example =
    typed_payload-injective a_transaction a_transaction a_transaction-IsTransaction
      a_transaction-IsTransaction refl

-- The gas is estimated as 0x5209, the account nonce is 0x4, and the operator fixes both fees.
abbrev answers : BatchCall → Result ℕ (List ℕ)
answers gas_estimate = ok (b'0' ∷ b'x' ∷ b'5' ∷ b'2' ∷ b'0' ∷ b'9' ∷ [])
answers transaction_count = ok (b'0' ∷ b'x' ∷ b'4' ∷ [])
answers _ = ok []

abbrev node : NodeReplies ℕ
node = record { text = answers; block_base_fee = err 0; is_simulation_failure = λ e. false }

abbrev options : FeeOptions
options = record {
  fee_ceiling_wei = 900_000_000;
  base_fee_per_gas_override_wei = some 1_000;
  priority_fee_per_gas_override_wei = some 7;
  gas_margin_percent = 20;
}

abbrev pub quote : FeeQuote
quote = record {
  base_fee_per_gas_wei = 1_000;
  priority_fee_per_gas_wei = 7;
  max_fee_per_gas_wei = 2_007;
  estimated_gas = 21_001;
  gas_margin_percent = 20;
  gas_limit = 25_202;
  maximum_exposure_wei = 50_580_414;
  fee_ceiling_wei = 900_000_000;
}

abbrev pub submission : PreparedSubmission
submission = with_proof last_word inputs (replicate 20 0) (from_u64 5) (replicate 20 0) (
    prepared_call (replicate 20 0) quote (from_u64 4) (
      call_transaction (from_u64 31_337) (replicate 20 0)
        (submit_proof_call_data last_word (from_u64 7) (from_u64 99) (from_u64 5) (replicate 20 0))
        quote (from_u64 4)))

prepares :
    prepare_submission last_word node inputs (replicate 20 0) (from_u64 5) (replicate 20 0) options
    ≡ ok (ready submission)
unfolding prepare_submission prepare_call simulated_call within_ceiling ready_call quote_call
    lift_rpc lift_parse lift_fee base_fee_of priority_fee_of uint256_to_u64 fee_quote
    padded_gas_limit checked parse_hex_quantity_uint256 quantity_word quantity_bytes strip_0x
    hex_pairs nibble hex_nibble when_ready value from_u64 to_be_bytes
prepares = refl

prepare_submission-IsProofPrepared_example :
    IsProofPrepared last_word inputs
      (replicate 20 0)
      (from_u64 5)
      (replicate 20 0)
      900_000_000
      submission
prepare_submission-IsProofPrepared_example =
    prepare_submission-IsProofPrepared last_word node inputs (replicate 20 0) (from_u64 5)
      (replicate 20 0) options prepares

abbrev unsettled : SendReplies
unsettled = record {
  wallet_matches = true;
  seed_is_current = true;
  signs = true;
  persists = persisted;
  hash_returned = true;
  settled = none;
  clears = cleared;
}

abbrev marker : ChallengeMarker
marker = record {
  challenge_id = from_u64 7;
  previous_accepted_digest = replicate 32 0;
  challenge = some (from_u64 1);
  status = active;
}

-- A round that finds a proof and sends it, the receipt missing.
abbrev a_round : Replies ℕ
a_round = record {
  interrupted = false;
  marker = some marker;
  retry_waited = true;
  watch_waited = true;
  refresh = ok none;
  interrupted_before_send = false;
  state =
      some
        (record { challenge_inputs = inputs; challenge = from_u64 1; nft_classification = none });
  watcher = mining mining_abandoned;
  searched = some (mining_found (from_u64 5) (from_u64 5));
  prepared = ok (ready submission);
  send = unsettled;
  marker_after = none;
  interrupted_after = false;
  is_rpc_error = λ e. false;
}

-- A round whose first read fails.
abbrev a_retry : Replies ℕ
a_retry = record a_round { marker = none }

abbrev start : Loop
start = record { counters = no_counters; backoff = record { next = 1; cap = 30 }; journal = false }

start-IsSteady : IsSteady start
start-IsSteady = record {
  settled = refl;
  counted = record { few_failures = omega arith; fees_in_range = omega arith };
  delay = record { lower = omega arith; upper = omega arith; cap = refl };
}

rounds-IsSound_example : IsSound (rounds (a_retry ∷ a_round ∷ []) (running start))
rounds-IsSound_example = rounds-IsSound (a_retry ∷ a_round ∷ []) start start-IsSteady

-- The loop stops, with exit code 1, after the unresolved broadcast.
rounds_unresolved :
    rounds (a_retry ∷ a_round ∷ []) (running start)
    ≡ ending repeated_failure
        (record start { backoff = record { next = 1; cap = 30 }; journal = true })
unfolding rounds round rpc_retry take_delay marked_round active_round mining_round marker_of
    same_marker watched_mine watched_outcome submitted proof_outcome send_proof
    send_prepared_submission persist_then_broadcast after_persist broadcast_signed settled_then
    reset from_u64 to_be_bytes same_bytes
rounds_unresolved = refl

-- A journal whose receipt is found at once and verified.
abbrev a_recovery : RecoverReplies
a_recovery = record {
  document_reads = true;
  deployment_matches = true;
  identity_verified = true;
  hash_matches = true;
  seed_refresh = false;
  receipt = some true;
  seed_is_current = true;
  settled = some (record {
    seed_refresh = false;
    transaction_hash = replicate 32 0;
    mining_nonce = word_one;
    account_nonce = word_one;
    fee_quote = quote;
    fee_paid_wei = 1_000;
    succeeded = true;
    proof_nft_minted = true;
    nft_token_id = some word_one;
  });
  clears = cleared;
}

recover_pending_submission-IsSafeRecovery_example :
    IsSafeRecovery a_recovery.settled (recover_pending_submission true a_recovery)
recover_pending_submission-IsSafeRecovery_example =
    recover_pending_submission-IsSafeRecovery true a_recovery

after_recovery-IsSound_example :
    IsSound (after_recovery (recover_pending_submission true a_recovery) start)
after_recovery-IsSound_example =
    after_recovery-IsSound true a_recovery start start-IsSteady.counted start-IsSteady.delay
