-- ===== src/Chain/Reads.antt =====
-- crates/bproof/src/chain.rs: the reads that the snapshots are made of.
use Prim.Native.String.{String}
use proof_hunter_miner.Base.{
  [], ℕ, Bool, not, Option, none, some, List, ◌∷◌, if◌then◌else◌, require, codes,
}
use proof_hunter_miner.Bytes.{bytes_ltb, same_bytes}
use proof_hunter_miner.Chain.{Deployment, from_word, function_selector, validate_contract_code}
use proof_hunter_miner.Continuous.{ChallengeMarker, ChallengeStatus, active, expired, same_status}
use proof_hunter_miner.Failure.{no_seed_blockhash, read, seed_not_passed, wrong_chain}
use proof_hunter_miner.Json.{Json}
use proof_hunter_miner.Keccak.{Keccak}
use proof_hunter_miner.Parse.{hex_string, parse_hex_quantity_uint256, parse_uint256_word}
use proof_hunter_miner.Rpc.{
  ◌>>=◌, Call, Node, Rpc, code_override, done, lift, object_param, text_param,
}
use proof_hunter_miner.Rpc.Calls.{call, string_result}
use proof_hunter_miner.Word.{Digest, Uint256, word_zero}

abbrev pub evm_context_helper_address : List ℕ
evm_context_helper_address = codes "0x00000000000000000000000000000000000c0de1"

abbrev pub parent_block_number_helper_code : List ℕ
parent_block_number_helper_code = codes "0x4360005260206000f3"

abbrev pub parent_blockhash_helper_code : List ℕ
parent_blockhash_helper_code = codes "0x6000354060005260206000f3"

-- The `eth_call` of a function of the core at a block tag.
unfoldable pub core_call : Keccak → Deployment → String → List ℕ → Call
core_call k reader signature block_tag = call "eth_call" (
    object_param (
      ("to", hex_string reader.mining_core_address)
      ∷ (("data", function_selector k signature) ∷ []))
    ∷ (text_param block_tag ∷ []))

unfoldable pub evm_context_call : List ℕ → List ℕ → List ℕ → Call
evm_context_call helper_code call_data rpc_snapshot_tag = call "eth_call" (
    object_param (("to", evm_context_helper_address) ∷ (("data", call_data) ∷ []))
    ∷ (text_param rpc_snapshot_tag ∷ (code_override evm_context_helper_address helper_code ∷ [])))

-- The answer of the first of two calls decides whether there is a second.
abbrev pub when : {A : Type 0} → Bool → Rpc A → Rpc (Option A)
when test m = if test then m >>= (λ a. done (some a)) else done none

module _ (k : Keccak) (j : Json) (node : Node j) (reader : Deployment) where
  unfoldable pub word_result : Call → Rpc Uint256
  word_result c = do result ← string_result j node c; lift (read (parse_uint256_word result))

  unfoldable pub call_word : String → List ℕ → Rpc Uint256
  call_word signature block_tag = word_result (core_call k reader signature block_tag)

  unfoldable pub call_evm_context_word : List ℕ → List ℕ → List ℕ → Rpc Uint256
  call_evm_context_word helper_code call_data rpc_snapshot_tag =
      word_result (evm_context_call helper_code call_data rpc_snapshot_tag)

  unfoldable pub parent_block_number : List ℕ → Rpc Uint256
  parent_block_number rpc_snapshot_tag =
      call_evm_context_word parent_block_number_helper_code (codes "0x") rpc_snapshot_tag

  unfoldable pub seed_blockhash : Uint256 → List ℕ → Rpc Digest
  seed_blockhash seed_parent_block rpc_snapshot_tag = do
    current_parent_block ← parent_block_number rpc_snapshot_tag
    _ ← lift (require (bytes_ltb seed_parent_block current_parent_block) seed_not_passed)
    blockhash ←
        call_evm_context_word parent_blockhash_helper_code (hex_string seed_parent_block)
          rpc_snapshot_tag
    _ ← lift (require (not (same_bytes blockhash word_zero)) no_seed_blockhash)
    done blockhash

  -- A block tag that is a quantity, as the node wrote it.
  unfoldable pub snapshot_block : Rpc (List ℕ)
  snapshot_block = do
    block_tag ← string_result j node (call "eth_blockNumber" [])
    _ ← lift (read (parse_hex_quantity_uint256 block_tag))
    done block_tag

  unfoldable pub verified_block_tag : Rpc (List ℕ)
  verified_block_tag = do
    chain_id_text ← string_result j node (call "eth_chainId" [])
    chain_id ← lift (read (parse_hex_quantity_uint256 chain_id_text))
    _ ← lift (require (same_bytes chain_id reader.expected_chain_id) wrong_chain)
    block_tag ← snapshot_block
    code ← string_result j node (
        call "eth_getCode"
          (text_param (hex_string reader.mining_core_address) ∷ (text_param block_tag ∷ [])))
    _ ← lift (validate_contract_code code)
    done block_tag

  unfoldable pub verify_identity : Rpc (Unit {0})
  verify_identity = do _ ← verified_block_tag; done tt

  unfoldable pub read_status : List ℕ → Rpc ChallengeStatus
  read_status block_tag = do word ← call_word "challengeState()" block_tag; lift (from_word word)

  unfoldable pub expired_identity : List ℕ → Rpc (Uint256 × Uint256)
  expired_identity tag = do
    challenge_id ← call_word "activeChallengeId()" tag
    seed_parent_block ← call_word "activeSeedParentBlock()" tag
    done (challenge_id, seed_parent_block)

  unfoldable pub expired_seed : Rpc (Option (Uint256 × Uint256))
  expired_seed = do
    tag ← verified_block_tag
    status ← read_status tag
    when (same_status status expired) (expired_identity tag)

  unfoldable pub read_challenge_marker_at : List ℕ → Rpc ChallengeMarker
  read_challenge_marker_at block_tag = do
    status ← read_status block_tag
    challenge_id ← call_word "activeChallengeId()" block_tag
    previous_accepted_digest ← call_word "previousAcceptedDigest()" block_tag
    challenge ← when (same_status status active) (call_word "currentChallenge()" block_tag)
    done (record {
      challenge_id = challenge_id;
      previous_accepted_digest = previous_accepted_digest;
      challenge = challenge;
      status = status;
    })

  unfoldable pub read_challenge_marker : Rpc ChallengeMarker
  read_challenge_marker = do block_tag ← snapshot_block; read_challenge_marker_at block_tag
