-- ===== src/Search.antt =====
-- crates/proof-core/src/search.rs: the bounded, deterministic nonce search.
pub mod First
use proof_hunter_miner.Base.{ℕ, zero, suc, ◌+◌, if◌then◌else◌}
use proof_hunter_miner.Word.{Uint256, Digest, Target, Address, wrapping_add}
use proof_hunter_miner.Keccak.{Keccak}
use proof_hunter_miner.Proof.{
  ChallengeInputs, ProofInputs, PreparedProof, derive_challenge, prepare, prepared_digest,
  meets_target,
}

pub data SearchResult : Type 0 where
  found : Uint256 → Digest → ℕ → SearchResult
  exhausted : ℕ → SearchResult

-- The inputs that the search prepares, and that `check_proof` hashes.
abbrev pub proof_inputs : Keccak → ChallengeInputs → Address → Uint256 → ProofInputs
proof_inputs k inputs miner nonce = record {
  chain_id = inputs.chain_id;
  mining_core = inputs.mining_core;
  challenge_id = inputs.challenge_id;
  challenge = derive_challenge k inputs;
  miner = miner;
  nonce = nonce;
}

module _ (k : Keccak) (prepared : PreparedProof k) (target : Target) (step : Uint256) where
  -- `for attempt in 0..attempt_budget`, by the rounds that are left.
  unfoldable pub search_loop : ℕ → ℕ → ℕ → Uint256 → SearchResult
  search_loop budget zero attempt nonce = exhausted budget
  search_loop budget (suc rounds) attempt nonce =
      let digest = prepared_digest k prepared nonce in
      let rest = search_loop budget rounds (attempt + 1) (wrapping_add nonce step) in
      if meets_target digest target then found nonce digest (attempt + 1) else rest

unfoldable pub search_nonce :
    Keccak → ChallengeInputs → Address → Target → Uint256 → Uint256 → ℕ → SearchResult
unfolding search_loop
search_nonce k inputs miner target start_nonce step attempt_budget =
    let prepared = prepare k (proof_inputs k inputs miner start_nonce) in
    search_loop k prepared target step attempt_budget attempt_budget 0 start_nonce
