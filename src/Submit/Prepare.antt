-- ===== src/Submit/Prepare.antt =====
-- crates/bproof/src/submit.rs: `prepare_submission` and `prepare_seed_refresh`.
use proof_hunter_miner.Bytes.{same_bytes}
use proof_hunter_miner.Base.{
  [], ◌>>=◌, ℕ, Bool, true, false, ◌&&◌, Option, none, some, List, ◌∷◌, Result, ok, take,
}
use proof_hunter_miner.Word.{Uint256, Address}
use proof_hunter_miner.Keccak.{Keccak, keccak256}
use proof_hunter_miner.Proof.{ChallengeInputs, derive_challenge, proof_digest}
use proof_hunter_miner.Fees.{FeeOptions}
use proof_hunter_miner.Transaction.{submit_proof_call_data}
use proof_hunter_miner.Submit.{
  PreparationOutcome, ready, simulation_rejected, expired_seed_changed, fee_refused,
  PreparedSubmission, Prepare, NodeReplies, lift_rpc, prepare_call,
}

-- `if let PreparationOutcome::Ready(prepared) = &mut outcome`.
unfoldable pub when_ready :
    {E : Type 0}
    → (PreparedSubmission → PreparedSubmission)
    → PreparationOutcome E
    → PreparationOutcome E
when_ready change (ready prepared) = ready (change prepared)
when_ready change (simulation_rejected e) = simulation_rejected e
when_ready change expired_seed_changed = expired_seed_changed
when_ready change (fee_refused quote) = fee_refused quote

unfoldable pub with_proof :
    Keccak → ChallengeInputs → Address → Uint256 → Address → PreparedSubmission → PreparedSubmission
with_proof k inputs miner mining_nonce basket prepared =
    let challenge = derive_challenge k inputs in
    record {
      seed_refresh = prepared.seed_refresh;
      mining_nonce = mining_nonce;
      account_nonce = prepared.account_nonce;
      fee_quote = prepared.fee_quote;
      miner = prepared.miner;
      challenge_id = inputs.challenge_id;
      seed_parent_block = inputs.seed_parent_block;
      challenge = challenge;
      expected_digest = proof_digest k (record {
        chain_id = inputs.chain_id;
        mining_core = inputs.mining_core;
        challenge_id = inputs.challenge_id;
        challenge = challenge;
        miner = miner;
        nonce = mining_nonce;
      });
      basket = basket;
      transaction = prepared.transaction;
    }

unfoldable pub prepare_submission :
    {E : Type 0}
    → Keccak
    → NodeReplies E
    → ChallengeInputs
    → Address
    → Uint256
    → Address
    → FeeOptions
    → Prepare E (PreparationOutcome E)
prepare_submission k replies inputs miner mining_nonce basket options = do
  outcome ←
      prepare_call replies inputs.chain_id inputs.mining_core miner
        (submit_proof_call_data k inputs.challenge_id inputs.seed_parent_block mining_nonce basket)
        options
  ok (when_ready (with_proof k inputs miner mining_nonce basket) outcome)

-- `keccak256(b"refreshExpiredSeed()")[..4]`.
unfoldable pub refresh_call_data : Keccak → List ℕ
refresh_call_data k = take 4 (
    keccak256 k (
      b'r' ∷ b'e' ∷ b'f' ∷ b'r' ∷ b'e' ∷ b's' ∷ b'h' ∷ b'E' ∷ b'x' ∷ b'p' ∷ b'i' ∷ b'r' ∷ b'e'
      ∷ b'd' ∷ b'S' ∷ b'e' ∷ b'e' ∷ b'd' ∷ b'(' ∷ b')' ∷ []))

unfoldable pub as_refresh : Uint256 × Uint256 → PreparedSubmission → PreparedSubmission
as_refresh (challenge_id, seed_parent_block) prepared = record {
  seed_refresh = true;
  mining_nonce = prepared.mining_nonce;
  account_nonce = prepared.account_nonce;
  fee_quote = prepared.fee_quote;
  miner = prepared.miner;
  challenge_id = challenge_id;
  seed_parent_block = seed_parent_block;
  challenge = prepared.challenge;
  expected_digest = prepared.expected_digest;
  basket = prepared.basket;
  transaction = prepared.transaction;
}

-- `reader.expired_seed()? != Some(expired)`.
unfoldable pub is_expired_seed : Option (Uint256 × Uint256) → Uint256 × Uint256 → Bool
is_expired_seed none expired = false
is_expired_seed (some (a, b)) (c, d) = same_bytes a c && same_bytes b d

unfoldable pub refresh_if :
    {E : Type 0}
    → Bool
    → Keccak
    → NodeReplies E
    → Uint256
    → Address
    → Address
    → Uint256 × Uint256
    → FeeOptions
    → Prepare E (PreparationOutcome E)
refresh_if false k replies chain_id core miner expired options = ok expired_seed_changed
refresh_if true k replies chain_id core miner expired options = do
  outcome ← prepare_call replies chain_id core miner (refresh_call_data k) options
  ok (when_ready (as_refresh expired) outcome)

-- `matches_deployment` and `expired_seed` are the reader's answers.
unfoldable pub prepare_seed_refresh :
    {E : Type 0}
    → Keccak
    → NodeReplies E
    → Bool
    → Result E (Option (Uint256 × Uint256))
    → Uint256
    → Address
    → Address
    → Uint256 × Uint256
    → FeeOptions
    → Prepare E (PreparationOutcome E)
prepare_seed_refresh k replies false expired_seed chain_id core miner expired options =
    ok expired_seed_changed
prepare_seed_refresh k replies true expired_seed chain_id core miner expired options = do
  seed ← lift_rpc expired_seed
  refresh_if (is_expired_seed seed expired) k replies chain_id core miner expired options
