-- ===== src/Readings.antt =====
-- Concrete reads of the chain: a state, and a batch whose entries are in another order.
use proof_hunter_miner.Base.{
  ◌↔◌, [], ℕ, ◌≡◌, refl, true, some, List, ◌∷◌, arith, require, ok_or, codes, ok, replicate, get_or,
}
use proof_hunter_miner.Flows.{last_word}
use proof_hunter_miner.Documents.{
  json, Doc, reply, lookup, entries_of, text_in, number_in, null_in, entry, no_entries, doc_null,
  doc_flag, doc_number, doc_text, doc_object,
}
use proof_hunter_miner.Bytes.{bytes_ltb, same_bytes}
use proof_hunter_miner.Chain.{Deployment, validate_contract_code, validate_hex}
use proof_hunter_miner.Chain.Honest.{
  Contract, IsReady, Texts, Words, contract_inputs, contract_state, identity_calls,
  read_state-contract, transcript,
}
use proof_hunter_miner.Chain.State.{read_state}
use proof_hunter_miner.Chain.Verified.{IsState, read_state-IsState}
use proof_hunter_miner.Json.{get_in, get_str}
use proof_hunter_miner.Parse.{
  hex_nibble, hex_pairs, hex_string, nibble, parse_hex_quantity_uint256, quantity_bytes,
  quantity_word, strip_0x,
}
use proof_hunter_miner.Proof.{derive_challenge}
use proof_hunter_miner.Rpc.{Node, continue_with, lift, ◌>>=◌}
use proof_hunter_miner.Rpc.Calls.{decoded, post_then, rpc_result, string_result}
use proof_hunter_miner.Rpc.Decode.{
  answers, answers_of, place, put, put_entry, slot_of, decode_entries, decode_rpc_response, get_u64,
  has_error, is_id, is_version, text_of,
}
use proof_hunter_miner.Rpc.Matching.{IsDecoded, decode_entries_iff}
use proof_hunter_miner.Word.{from_u128, from_u64, from_u64-IsWord, to_be_bytes, zeros-IsArray}

abbrev contract : Contract
contract = record {
  block_tag = codes "0x10";
  challenge_id = from_u64 7;
  previous_accepted_digest = replicate 32 0;
  seed_parent_block = from_u64 99;
  target = from_u64 1_000;
  accepted = 5;
  parent_block = from_u64 100;
  seed_blockhash = from_u64 12_345;
}

abbrev deployment : Deployment
deployment = record { mining_core_address = replicate 20 0; expected_chain_id = from_u64 31_337 }

contract-IsReady : IsReady last_word deployment contract
unfolding parse_hex_quantity_uint256 quantity_word quantity_bytes strip_0x hex_pairs nibble
    hex_nibble bytes_ltb same_bytes from_u64 to_be_bytes
contract-IsReady = record {
  tag = from_u64 16;
  tag_read = refl;
  id_word = from_u64-IsWord 7;
  digest_word = zeros-IsArray 32;
  seed_word = from_u64-IsWord 99;
  target_word = from_u64-IsWord 1_000;
  parent_word = from_u64-IsWord 100;
  hash_word = from_u64-IsWord 12_345;
  accepted_fits = omega arith;
  seed_passed = refl;
  seed_hashed = refl;
}

-- What the node answers, message by message.
abbrev texts : List (List ℕ)
texts =
    codes "0x7a69"
    ∷ (codes "0x10"
        ∷ (codes "0x6001"
            ∷ (hex_string (from_u64 7)
                ∷ (hex_string (replicate 32 0)
                    ∷ (hex_string (from_u64 99)
                        ∷ (hex_string (from_u64 1_000)
                            ∷ (hex_string (from_u128 5)
                                ∷ (hex_string (from_u128 5)
                                    ∷ (hex_string (from_u64 100)
                                        ∷ (hex_string (from_u64 12_345)
                                            ∷ (hex_string (
                                                  derive_challenge last_word
                                                    (contract_inputs last_word deployment contract))
                                                ∷ [])))))))))))

abbrev node : Node json
node = record {
  post = λ n message. ok (reply (doc_text (get_or texts n [])));
  past_deadline = λ n. true;
}

node-Texts :
    Texts json node (identity_calls deployment contract (codes "0x7a69") (codes "0x6001")) 0
unfolding string_result rpc_result post_then decoded decode_rpc_response is_version is_id get_u64
    has_error ◌>>=◌ continue_with lift text_of ok_or require get_str same_bytes lookup entries_of
    text_in number_in null_in
node-Texts = (refl, (refl, (refl, tt)))

node-Words : Words json node (transcript last_word deployment contract) 3
unfolding string_result rpc_result post_then decoded decode_rpc_response is_version is_id get_u64
    has_error ◌>>=◌ continue_with lift text_of ok_or require get_str same_bytes lookup entries_of
    text_in number_in null_in
node-Words = (refl, (refl, (refl, (refl, (refl, (refl, (refl, (refl, (refl, tt)))))))))

chain_read : parse_hex_quantity_uint256 (codes "0x7a69") ≡ ok deployment.expected_chain_id
unfolding parse_hex_quantity_uint256 quantity_word quantity_bytes strip_0x hex_pairs nibble
    hex_nibble from_u64 to_be_bytes
chain_read = refl

code_valid : validate_contract_code (codes "0x6001") ≡ ok tt
unfolding validate_contract_code validate_hex strip_0x require
code_valid = refl

reads :
    (after : ℕ) × (read_state last_word json node deployment 0
      ≡ (ok (contract_state last_word deployment contract), after))
reads =
    read_state-contract last_word json node deployment contract (codes "0x7a69") (codes "0x6001") 0
      contract-IsReady chain_read code_valid node-Texts node-Words

read_state-contract_example :
    (after : ℕ) × (read_state last_word json node deployment 0
      ≡ (ok (contract_state last_word deployment contract), after))
read_state-contract_example =
    read_state-contract last_word json node deployment contract (codes "0x7a69") (codes "0x6001") 0
      contract-IsReady chain_read code_valid node-Texts node-Words

read_state-IsState_example :
    IsState last_word deployment (contract_state last_word deployment contract)
read_state-IsState_example =
    read_state-IsState last_word json node deployment 0
      (contract_state last_word deployment contract) reads.0 reads.1

-- The entry of a batch with an id.
abbrev entry_of : ℕ → Doc → Doc
entry_of id result = doc_object (
    entry "jsonrpc" (doc_text (codes "2.0"))
      (entry "id" (doc_number id) (entry "result" result no_entries)))

abbrev replies : List Doc
replies = entry_of 2 (doc_flag true) ∷ (entry_of 1 doc_null ∷ [])

answers_found :
    decode_entries json 2 (some replies) ≡ some (ok doc_null ∷ (ok (doc_flag true) ∷ []))
unfolding decode_entries place put_entry put slot_of answers_of answers decode_rpc_response
    is_version is_id get_u64 has_error ok_or require get_str same_bytes lookup entries_of text_in
    number_in null_in get_in
answers_found = refl

decode_entries_iff_example :
    (decode_entries json 2 (some replies) ≡ some (ok doc_null ∷ (ok (doc_flag true) ∷ [])))
    ↔ IsDecoded json 2 replies (ok doc_null ∷ (ok (doc_flag true) ∷ []))
decode_entries_iff_example =
    decode_entries_iff json 2 replies (ok doc_null ∷ (ok (doc_flag true) ∷ []))
