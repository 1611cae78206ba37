-- ===== src/Chain/Offline.antt =====
-- crates/bproof/src/chain.rs: the state that is read from a JSON file. Reading the file and parsing
-- its JSON is the caller's: the model starts at the parsed value.
use Prim.Native.String.{String}
use proof_hunter_miner.Base.{
  [], ℕ, Bool, true, false, ◌&&◌, ◌||◌, none, List, ◌∷◌, require, ok_or, codes, Result, ok, ◌>>=◌,
}
use proof_hunter_miner.Bytes.{same_bytes, value}
use proof_hunter_miner.Chain.{MiningState}
use proof_hunter_miner.Chain.Reads.{seed_blockhash}
use proof_hunter_miner.Failure.{Checked, is_some, missing, not_object, not_text, read, unknown_key}
use proof_hunter_miner.Json.{Json, get_str}
use proof_hunter_miner.Keccak.{Keccak}
use proof_hunter_miner.Parse.{
  ParseError, parse_address, parse_decimal_uint256, parse_digest, parse_target, parse_u128,
}
use proof_hunter_miner.Proof.{ChallengeInputs, derive_challenge}

abbrev pub state_keys : List String
state_keys =
    "chainId"
    ∷ ("miningCore"
        ∷ ("challengeId"
            ∷ ("previousAcceptedDigest"
                ∷ ("seedParentBlock"
                    ∷ ("seedBlockhash"
                        ∷ ("target" ∷ ("acceptedProofs" ∷ ("totalMintedWei" ∷ []))))))))

-- `STATE_KEYS.contains(key)`.
unfoldable pub is_one_of : List String → List ℕ → Bool
is_one_of [] key = false
is_one_of (name ∷ names) key = same_bytes (codes name) key || is_one_of names key

-- Every key of the file is one of them: no `find` of one that is not.
unfoldable pub all_known : List (List ℕ) → Bool
all_known [] = true
all_known (key ∷ keys) = is_one_of state_keys key && all_known keys

module _ (k : Keccak) (j : Json) where
  -- `for key in STATE_KEYS`.
  unfoldable pub all_present : j.Fields → List String → Bool
  all_present fields [] = true
  all_present fields (key ∷ keys) = is_some (j.get fields key) && all_present fields keys

  unfoldable pub validate_keys : j.Fields → Checked (Unit {0})
  validate_keys fields = do
    _ ← require (all_known (j.keys fields)) unknown_key
    require (all_present fields state_keys) missing

  unfoldable pub field : j.Fields → String → Checked (List ℕ)
  field fields key = ok_or not_text (get_str j fields key)

  -- `parse(field(fields, key)?, key)?`.
  unfoldable pub parsed_field :
      {A : Type 0} → (List ℕ → Result ParseError A) → j.Fields → String → Checked A
  parsed_field parser fields key = do content ← field fields key; read (parser content)

  unfoldable pub file_challenge_inputs : j.Fields → Checked ChallengeInputs
  file_challenge_inputs fields = do
    chain_id ← parsed_field parse_decimal_uint256 fields "chainId"
    mining_core ← parsed_field parse_address fields "miningCore"
    challenge_id ← parsed_field parse_decimal_uint256 fields "challengeId"
    previous_accepted_digest ← parsed_field parse_digest fields "previousAcceptedDigest"
    seed_parent_block ← parsed_field parse_decimal_uint256 fields "seedParentBlock"
    seed_blockhash ← parsed_field parse_digest fields "seedBlockhash"
    ok (record {
      chain_id = chain_id;
      mining_core = mining_core;
      challenge_id = challenge_id;
      previous_accepted_digest = previous_accepted_digest;
      seed_parent_block = seed_parent_block;
      seed_blockhash = seed_blockhash;
    })

  unfoldable pub read_file_state : j.Value → Checked MiningState
  read_file_state value = do
    fields ← ok_or not_object (j.as_object value)
    _ ← validate_keys fields
    challenge_inputs ← file_challenge_inputs fields
    target ← parsed_field parse_target fields "target"
    accepted_proofs ← parsed_field parse_u128 fields "acceptedProofs"
    total_minted_wei ← parsed_field parse_u128 fields "totalMintedWei"
    ok (record {
      challenge_inputs = challenge_inputs;
      challenge = derive_challenge k challenge_inputs;
      target = target;
      accepted_proofs = accepted_proofs;
      total_minted_wei = total_minted_wei;
      nfts_minted_ever = none;
    })
