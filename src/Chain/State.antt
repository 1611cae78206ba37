-- ===== src/Chain/State.antt =====
-- crates/bproof/src/chain.rs: the mining state at a block, the power of a miner and the NFT counters.
use proof_hunter_miner.Base.{
  [], ℕ, Option, none, some, List, ◌∷◌, ◌++◌, ◌==◌, if◌then◌else◌, require, ok, err, take, drop,
  replicate,
}
use proof_hunter_miner.Bytes.{all_zero, bytes_ltb, same_bytes}
use proof_hunter_miner.Chain.{
  String, ClassifiedMiningState, Deployment, MiningState, function_selector,
}
use proof_hunter_miner.Chain.Reads.{call_word, seed_blockhash, verified_block_tag, word_result}
use proof_hunter_miner.Classification.{NftClassificationSnapshot}
use proof_hunter_miner.Failure.{
  Checked, bad_module, challenge_mismatch, classification_unknown, counters_disagree, in_range,
  powered,
}
use proof_hunter_miner.Fees.{uint256_to_u128}
use proof_hunter_miner.Json.{Json}
use proof_hunter_miner.Keccak.{Keccak}
use proof_hunter_miner.Parse.{hex_string}
use proof_hunter_miner.Power.{base_wad, bytes_min, effective_target, max_wad}
use proof_hunter_miner.Proof.{ChallengeInputs, derive_challenge}
use proof_hunter_miner.Rpc.{◌>>=◌, Call, Node, Rpc, done, lift, object_param, text_param}
use proof_hunter_miner.Rpc.Calls.{call}
use proof_hunter_miner.Word.{Address, Digest, Target, Uint256, from_u64, word_one}

-- `Ord::max`.
abbrev pub bytes_max : List ℕ → List ℕ → List ℕ
bytes_max xs ys = if bytes_ltb ys xs then xs else ys

-- What `map_err` makes of an error.
unfoldable pub unknown_unless_ok : {A : Type 0} → Checked A → Checked A
unknown_unless_ok (ok a) = ok a
unknown_unless_ok (err e) = err (classification_unknown e)

unfoldable pub classify_error : {A : Type 0} → Checked A × ℕ → Checked A × ℕ
classify_error (a, sent) = (unknown_unless_ok a, sent)

-- A step whose failure is kept as a value.
unfoldable pub attempt : {A : Type 0} → Checked A × ℕ → Checked (Checked A) × ℕ
attempt (a, sent) = (ok a, sent)

abbrev pub power_call : Deployment → List ℕ → List ℕ → List ℕ → Call
power_call reader module_word call_data block_tag = call "eth_call" (
    object_param (
      ("to", hex_string (drop 12 module_word))
      ∷ (("from", hex_string reader.mining_core_address) ∷ (("data", call_data) ∷ [])))
    ∷ (text_param block_tag ∷ []))

abbrev pub challenge_inputs_of : Deployment → Uint256 → Digest → Uint256 → Digest → ChallengeInputs
challenge_inputs_of reader challenge_id previous_accepted_digest seed_parent_block seed_blockhash =
    record {
      chain_id = reader.expected_chain_id;
      mining_core = reader.mining_core_address;
      challenge_id = challenge_id;
      previous_accepted_digest = previous_accepted_digest;
      seed_parent_block = seed_parent_block;
      seed_blockhash = seed_blockhash;
    }

module _ (k : Keccak) (j : Json) (node : Node j) (reader : Deployment) where
  -- The calldata of `powerMultiplierWad(uint256,address)`.
  unfoldable pub power_data : Uint256 → Address → List ℕ
  power_data challenge_id miner =
      function_selector k "powerMultiplierWad(uint256,address)"
      ++ (drop 2 (hex_string challenge_id) ++ (replicate 24 b'0' ++ drop 2 (hex_string miner)))

  unfoldable pub clamp_power : Uint256 → Uint256
  clamp_power raw = bytes_min (bytes_max raw (from_u64 base_wad)) (from_u64 max_wad)

  unfoldable pub target_with_power : List ℕ → MiningState → Uint256 → Rpc (Target × Uint256)
  target_with_power block_tag state raw =
      if same_bytes (clamp_power raw) (from_u64 base_wad)
      then done (state.target, clamp_power raw)
      else (do
        maximum ← call_word k j node reader "MAX_TARGET()" block_tag
        effective ← lift (powered (effective_target state.target raw maximum))
        done (effective, clamp_power raw))

  unfoldable pub module_power : List ℕ → MiningState → Address → Uint256 → Rpc (Target × Uint256)
  module_power block_tag state miner module_word =
      if all_zero module_word then done (state.target, from_u64 base_wad) else (do
        raw ← word_result k j node reader (
            power_call reader module_word (power_data state.challenge_inputs.challenge_id miner)
              block_tag)
        target_with_power block_tag state raw)

  unfoldable pub read_mining_power_at : List ℕ → MiningState → Address → Rpc (Target × Uint256)
  read_mining_power_at block_tag state miner = do
    module_word ← call_word k j node reader "miningPower()" block_tag
    _ ← lift (require (all_zero (take 12 module_word)) bad_module)
    module_power block_tag state miner module_word

  unfoldable pub classified_word : String → List ℕ → Rpc Uint256
  classified_word signature block_tag sent =
      classify_error (call_word k j node reader signature block_tag sent)

  unfoldable pub read_nft_classification_at : List ℕ → Target → Rpc NftClassificationSnapshot
  read_nft_classification_at block_tag accepted_target = do
    max_nfts_ever ← classified_word "MAX_NFTS_EVER()" block_tag
    nfts_minted_ever ← classified_word "nftsMintedEver()" block_tag
    done (record {
      accepted_target = accepted_target;
      nft_odds_denominator = word_one;
      max_nfts_ever = max_nfts_ever;
      nfts_minted_ever = nfts_minted_ever;
    })

  -- The rest of `read_state_at`, once the words are read.
  unfoldable pub state_from : List ℕ → Uint256 → Digest → Uint256 → Target → ℕ → ℕ → Rpc MiningState
  state_from block_tag challenge_id previous_accepted_digest seed_parent_block target
        accepted_proofs nfts_minted_ever =
      do
        _ ← lift (require (nfts_minted_ever == accepted_proofs) counters_disagree)
        seed_hash ← seed_blockhash k j node reader seed_parent_block block_tag
        contract_challenge ← call_word k j node reader "currentChallenge()" block_tag
        _ ← lift (
            require
              (same_bytes contract_challenge (
                derive_challenge k (
                  challenge_inputs_of reader challenge_id previous_accepted_digest seed_parent_block
                    seed_hash)))
              challenge_mismatch)
        done (record {
          challenge_inputs =
              challenge_inputs_of reader challenge_id previous_accepted_digest seed_parent_block
                seed_hash;
          challenge = contract_challenge;
          target = target;
          accepted_proofs = accepted_proofs;
          total_minted_wei = 0;
          nfts_minted_ever = some nfts_minted_ever;
        })

  unfoldable pub read_state_at : List ℕ → Rpc MiningState
  read_state_at block_tag = do
    challenge_id ← call_word k j node reader "activeChallengeId()" block_tag
    previous_accepted_digest ← call_word k j node reader "previousAcceptedDigest()" block_tag
    seed_parent_block ← call_word k j node reader "activeSeedParentBlock()" block_tag
    target ← call_word k j node reader "currentTarget()" block_tag
    accepted_word ← call_word k j node reader "acceptedProofs()" block_tag
    accepted_proofs ← lift (in_range (uint256_to_u128 accepted_word))
    minted_word ← call_word k j node reader "nftsMintedEver()" block_tag
    nfts_minted_ever ← lift (in_range (uint256_to_u128 minted_word))
    state_from block_tag challenge_id previous_accepted_digest seed_parent_block target
        accepted_proofs nfts_minted_ever

  unfoldable pub read_state : Rpc MiningState
  read_state = do block_tag ← verified_block_tag k j node reader; read_state_at block_tag

  unfoldable pub power_of : List ℕ → MiningState → Option Address → Rpc (Target × Uint256)
  power_of block_tag state none = done (state.target, from_u64 base_wad)
  power_of block_tag state (some miner) = read_mining_power_at block_tag state miner

  unfoldable pub attempt_classification : List ℕ → Target → Rpc (Checked NftClassificationSnapshot)
  attempt_classification block_tag target sent =
      attempt (read_nft_classification_at block_tag target sent)

  unfoldable pub read_classified_state : Option Address → Rpc ClassifiedMiningState
  read_classified_state miner = do
    block_tag ← verified_block_tag k j node reader
    state ← read_state_at block_tag
    power ← power_of block_tag state miner
    nft_classification ← attempt_classification block_tag power.0
    done (record {
      state = state;
      effective_target = power.0;
      power_multiplier_wad = power.1;
      nft_classification = nft_classification;
    })
