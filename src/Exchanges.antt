-- ===== src/Exchanges.antt =====
-- Concrete exchanges with a node: receipts, a journal and a submission that is settled.
use proof_hunter_miner.Base.{
  [], ℕ, zero, suc, ◌≤◌, ◌≡◌, refl, ◌≢◌, ◌⊎◌, true, false, none, some, List, ◌∷◌, ◌++◌, arith, leb,
  require, ok_or, codes, ok, replicate,
}
use proof_hunter_miner.Flows.{last_word, quote, submission}
use proof_hunter_miner.Documents.{
  json, Doc, more_docs, no_docs, reply, hexed, block, transaction, log_of, accepted_log, nft_log,
  receipt_doc, transaction_doc, listed, lookup, entry_keys, entries_of, text_in, array_in, flag_in,
  number_in, null_in,
}
use proof_hunter_miner.Bytes.{bytes_ltb, same_bytes, value}
use proof_hunter_miner.Chain.{Deployment}
use proof_hunter_miner.Continuous.Send.{MinedSubmission}
use proof_hunter_miner.Failure.{in_range, read}
use proof_hunter_miner.Fees.{checked, padded_gas_limit, uint256_to_u128}
use proof_hunter_miner.Json.{get_array, get_in, get_str}
use proof_hunter_miner.Keccak.{keccak256}
use proof_hunter_miner.Parse.{
  hex_body, hex_digit, hex_nibble, hex_pairs, hex_string, nibble, parse_address, parse_digest,
  parse_hex_exact, parse_hex_quantity_uint256, parse_uint256_word, quantity_bytes, quantity_word,
  strip_0x,
}
use proof_hunter_miner.Proof.{address_word, derive_challenge, proof_digest}
use proof_hunter_miner.Receipt.{
  digest_field, eq_ignore_ascii_case, quantity_field, receipt_quantity, require_address_field,
  require_digest_field, require_hex_bytes_field, require_quantity_field,
}
use proof_hunter_miner.Receipt.Candidates.{IsSole}
use proof_hunter_miner.Receipt.Events.{
  event_candidates, event_data_words, event_fields, event_signature, event_topics, first, get_at,
  is_candidate, require_topic_address, require_topic_digest, require_topic_uint256,
  require_word_digest, require_word_uint256, topic_word, word_at, words_of,
}
use proof_hunter_miner.Receipt.Mined.{
  check_mined, check_mined_value, hash_call, is_included, mined_submission,
}
use proof_hunter_miner.Receipt.Paid.{
  IsSettled, poll_ends, settle_sent-IsSettled, settle_sent_within_ceiling,
}
use proof_hunter_miner.Receipt.Parse.{
  TransactionReceipt, acceptance_demand, check_accepted, check_mint, mint_demand, nft_event, nft_of,
  only, parse_receipt, proof_accepted_event, refreshed_event, refreshed_of, seed_refreshed_event,
  verify_proof_accepted_event, verify_proof_nft_event, verify_seed_refreshed_event,
}
use proof_hunter_miner.Receipt.Settled.{
  HasLogs, IsAcceptedLog, IsRefreshedLog, inclusion_of, parse_receipt-IsAcceptedLog,
  parse_receipt-IsRefreshedLog, parse_receipt_minted_iff,
}
use proof_hunter_miner.Receipt.Wait.{
  after_poll, check_refresh, poll, settle_sent, verified_submission, verify_mined_transaction,
  wait_for_receipt, when_some,
}
use proof_hunter_miner.Rpc.{Node, continue_with, done, lift, ◌>>=◌}
use proof_hunter_miner.Rpc.Calls.{decoded, post_then, rpc_result}
use proof_hunter_miner.Rpc.Decode.{decode_rpc_response, get_u64, has_error, is_id, is_version}
use proof_hunter_miner.Submit.{PreparedSubmission, call_transaction, prepared_call}
use proof_hunter_miner.Submit.Document.{PendingSubmissionDocument, from_prepared, to_prepared}
use proof_hunter_miner.Submit.Prepare.{with_proof}
use proof_hunter_miner.Submit.Reading.{
  IsAuthorised, IsPrepared, to_prepared-IsAuthorised, to_prepared-from_prepared,
}
use proof_hunter_miner.Word.{
  add_loop, from_u128, from_u64, from_u64-IsWord, to_be_bytes, word_one, word_zero, wrapping_add,
  zeros-IsArray,
}

abbrev proof_receipt : Doc
proof_receipt =
    receipt_doc submission
      (more_docs (accepted_log submission) (more_docs (nft_log submission) no_docs))

abbrev received : TransactionReceipt
received = record {
  succeeded = true;
  gas_used = 21_000;
  effective_gas_price_wei = 1_999;
  proof_nft_minted = true;
  nft_token_id = some word_one;
  block_hash = block;
  block_number = from_u64 16;
}

parses : parse_receipt last_word json proof_receipt transaction submission ≡ ok received
unfolding parse_receipt require_digest_field digest_field require_address_field quantity_field
    receipt_quantity get_str get_array ok_or require read in_range uint256_to_u128 check_accepted
    acceptance_demand verify_proof_accepted_event event_candidates is_candidate eq_ignore_ascii_case
    first only event_fields event_topics event_data_words words_of topic_word get_at
    require_topic_address require_topic_uint256 require_topic_digest require_word_uint256
    require_word_digest word_at verify_proof_nft_event nft_of nft_event check_mint mint_demand
    event_signature require_quantity_field parse_digest parse_address parse_hex_quantity_uint256
    parse_uint256_word parse_hex_exact quantity_word quantity_bytes strip_0x hex_pairs nibble
    hex_nibble hex_string hex_body hex_digit same_bytes bytes_ltb keccak256 value from_u64 from_u128
    to_be_bytes address_word proof_digest derive_challenge with_proof prepared_call call_transaction
    wrapping_add add_loop listed lookup entry_keys entries_of text_in array_in flag_in number_in
    null_in
parses = refl

parse_receipt-IsAcceptedLog_example :
    (logs : List Doc) × (log : Doc) × HasLogs json proof_receipt logs
    × (event_candidates json logs (event_signature last_word proof_accepted_event) ≡ ok (log ∷ []))
    × IsSole json (keccak256 last_word proof_accepted_event) logs log
    × IsAcceptedLog json (inclusion_of transaction received) submission log
unfolding with_proof prepared_call
parse_receipt-IsAcceptedLog_example =
    parse_receipt-IsAcceptedLog json last_word proof_receipt transaction submission received parses
      refl refl

parse_receipt_minted_iff_example : true ≡ true
unfolding with_proof prepared_call
parse_receipt_minted_iff_example =
    parse_receipt_minted_iff json last_word proof_receipt transaction submission received parses

-- A refresh of challenge 7 at seed block 99.
abbrev refresh : PreparedSubmission
refresh = record submission {
  seed_refresh = true;
  challenge_id = from_u64 7;
  seed_parent_block = from_u64 99;
}

abbrev refreshed_log : Doc
refreshed_log =
    log_of refresh
      (more_docs (hexed (event_signature last_word seed_refreshed_event))
        (more_docs (hexed (from_u64 7)) (more_docs (hexed (from_u64 8)) no_docs)))
      (from_u64 99 ++ from_u64 200)

abbrev refresh_receipt : Doc
refresh_receipt = receipt_doc refresh (more_docs refreshed_log no_docs)

abbrev refresh_received : TransactionReceipt
refresh_received = record received { proof_nft_minted = false; nft_token_id = none }

refresh_parses :
    parse_receipt last_word json refresh_receipt transaction refresh ≡ ok refresh_received
unfolding parse_receipt verify_seed_refreshed_event refreshed_of refreshed_event
    require_digest_field digest_field require_address_field quantity_field receipt_quantity get_str
    get_array ok_or require read in_range uint256_to_u128 check_accepted acceptance_demand
    verify_proof_accepted_event event_candidates is_candidate eq_ignore_ascii_case first only
    event_fields event_topics event_data_words words_of topic_word get_at require_topic_address
    require_topic_uint256 require_topic_digest require_word_uint256 require_word_digest word_at
    verify_proof_nft_event nft_of nft_event check_mint mint_demand event_signature
    require_quantity_field parse_digest parse_address parse_hex_quantity_uint256 parse_uint256_word
    parse_hex_exact quantity_word quantity_bytes strip_0x hex_pairs nibble hex_nibble hex_string
    hex_body hex_digit same_bytes bytes_ltb keccak256 value from_u64 from_u128 to_be_bytes
    address_word proof_digest derive_challenge with_proof prepared_call call_transaction
    wrapping_add add_loop listed lookup entry_keys entries_of text_in array_in flag_in number_in
    null_in
refresh_parses = refl

parse_receipt-IsRefreshedLog_example :
    (logs : List Doc) × (log : Doc) × HasLogs json refresh_receipt logs
    × (event_candidates json logs (event_signature last_word seed_refreshed_event) ≡ ok (log ∷ []))
    × IsSole json (keccak256 last_word seed_refreshed_event) logs log
    × IsRefreshedLog json (inclusion_of transaction refresh_received) refresh log
parse_receipt-IsRefreshedLog_example =
    parse_receipt-IsRefreshedLog json last_word refresh_receipt transaction refresh refresh_received
      refresh_parses refl refl

-- A submission without calldata.
abbrev plain : PreparedSubmission
plain =
    prepared_call (replicate 20 0) quote (from_u64 4)
      (call_transaction (from_u64 31_337) (replicate 20 0) [] quote (from_u64 4))

plain-IsPrepared : IsPrepared last_word plain
unfolding prepared_call call_transaction padded_gas_limit checked
plain-IsPrepared = record {
  mining_nonce_word = zeros-IsArray 32;
  account_nonce_word = from_u64-IsWord 4;
  challenge_id_word = zeros-IsArray 32;
  seed_word = zeros-IsArray 32;
  challenge_word = zeros-IsArray 32;
  digest_word = zeros-IsArray 32;
  chain_id_word = from_u64-IsWord 31_337;
  miner_address = zeros-IsArray 20;
  basket_address = zeros-IsArray 20;
  to_address = zeros-IsArray 20;
  call_bytes = zeros-IsArray 0;
  base_fits = omega arith;
  priority_fits = omega arith;
  max_fee_fits = omega arith;
  estimate_fits = omega arith;
  margin_fits = omega arith;
  gas_limit_fits = omega arith;
  ceiling_fits = omega arith;
  same_nonce = refl;
  max_fee_signed = refl;
  priority_signed = refl;
  gas_limit_signed = refl;
  padded = refl;
  exposure = refl;
  within_ceiling = omega arith;
  refresh_data = λ h. absurd cc;
}

abbrev journal : PendingSubmissionDocument
journal = from_prepared transaction (hex_string []) plain (codes "standard") none

to_prepared-from_prepared_example : to_prepared last_word journal ≡ ok (transaction, [], plain)
to_prepared-from_prepared_example =
    to_prepared-from_prepared last_word transaction [] plain (codes "standard") none
      plain-IsPrepared (from_u64-IsWord 78) (zeros-IsArray 0)

journal_accepted : to_prepared last_word journal ≡ ok (transaction, [], plain)
journal_accepted =
    to_prepared-from_prepared last_word transaction [] plain (codes "standard") none
      plain-IsPrepared (from_u64-IsWord 78) (zeros-IsArray 0)

to_prepared-IsAuthorised_example :
    ((journal.version ≡ 1) ⊎ (journal.version ≡ 2)) × IsAuthorised plain
to_prepared-IsAuthorised_example =
    to_prepared-IsAuthorised last_word journal transaction [] plain journal_accepted

abbrev plain_receipt : Doc
plain_receipt =
    receipt_doc plain (more_docs (accepted_log plain) (more_docs (nft_log plain) no_docs))

-- The receipt first, the transaction afterwards.
abbrev replies : ℕ → Doc
replies zero = plain_receipt
replies (suc n) = transaction_doc plain

abbrev node : Node json
node = record { post = λ n message. ok (reply (replies n)); past_deadline = λ n. leb 5 n }

abbrev deployment : Deployment
deployment = record { mining_core_address = replicate 20 0; expected_chain_id = from_u64 31_337 }

abbrev mined : MinedSubmission
mined = record {
  seed_refresh = false;
  transaction_hash = transaction;
  mining_nonce = word_zero;
  account_nonce = from_u64 4;
  fee_quote = quote;
  fee_paid_wei = 41_979_000;
  succeeded = true;
  proof_nft_minted = true;
  nft_token_id = some word_one;
}

settles : settle_sent last_word json node deployment 5 transaction plain 0 ≡ (ok (some mined), 2)
unfolding settle_sent wait_for_receipt poll after_poll rpc_result post_then decoded
    decode_rpc_response is_version is_id get_u64 has_error ◌>>=◌ continue_with lift done when_some
    verify_mined_transaction check_mined_value check_mined is_included get_in check_refresh
    verified_submission mined_submission require_hex_bytes_field parse_receipt require_digest_field
    digest_field require_address_field quantity_field receipt_quantity get_str get_array ok_or
    require read in_range uint256_to_u128 check_accepted acceptance_demand
    verify_proof_accepted_event event_candidates is_candidate eq_ignore_ascii_case first only
    event_fields event_topics event_data_words words_of topic_word get_at require_topic_address
    require_topic_uint256 require_topic_digest require_word_uint256 require_word_digest word_at
    verify_proof_nft_event nft_of nft_event check_mint mint_demand event_signature
    require_quantity_field parse_digest parse_address parse_hex_quantity_uint256 parse_uint256_word
    parse_hex_exact quantity_word quantity_bytes strip_0x hex_pairs nibble hex_nibble hex_string
    hex_body hex_digit same_bytes bytes_ltb keccak256 value from_u64 from_u128 to_be_bytes
    address_word proof_digest derive_challenge with_proof prepared_call call_transaction
    wrapping_add add_loop listed lookup entry_keys entries_of text_in array_in flag_in number_in
    null_in
settles = refl

settle_sent-IsSettled_example : IsSettled last_word json node transaction plain mined
settle_sent-IsSettled_example =
    settle_sent-IsSettled last_word json node deployment 5 transaction plain 0 mined 2 settles

settle_sent_within_ceiling_example : 41_979_000 ≤ 900_000_000
unfolding prepared_call
settle_sent_within_ceiling_example =
    settle_sent_within_ceiling last_word json node deployment journal 5 transaction [] plain 0 mined
      2 journal_accepted settles

poll_ends_example :
    poll json node 5 (hash_call "eth_getTransactionReceipt" transaction) null_in 0 ≢ (ok none, 5)
poll_ends_example =
    poll_ends json node 4 (hash_call "eth_getTransactionReceipt" transaction) null_in 0 refl 5
