-- ===== src/Chain.antt =====
-- crates/bproof/src/chain.rs: the mining state that is read, and the calls that read one word.
pub mod Reads
pub mod State
pub mod Offline
pub mod Verified
pub mod Honest
use Prim.Native.String.{String}
use proof_hunter_miner.Base.{
  [], ℕ, ◌%◌, Bool, ◌&&◌, Option, none, some, List, ◌∷◌, ◌==◌, if◌then◌else◌, require, codes, ok,
  err, length, take,
}
use proof_hunter_miner.Bytes.{same_bytes}
use proof_hunter_miner.Classification.{NftClassificationSnapshot}
use proof_hunter_miner.Continuous.{
  ChallengeStatus, active, ended, expired, stopped, waiting_for_seed,
}
use proof_hunter_miner.Failure.{Checked, all_hex, bad_code, no_code, unknown_status}
use proof_hunter_miner.Keccak.{Keccak, keccak256}
use proof_hunter_miner.Parse.{hex_string, strip_0x}
use proof_hunter_miner.Power.{effective_target}
use proof_hunter_miner.Proof.{ChallengeInputs}
use proof_hunter_miner.Word.{Address, Digest, Target, Uint256, from_u64, word_one, word_zero}

pub record MiningState : Type 0 where
  pub challenge_inputs : ChallengeInputs
  pub challenge : Digest
  pub target : Target
  pub accepted_proofs : ℕ
  pub total_minted_wei : ℕ
  pub nfts_minted_ever : Option ℕ

pub record ClassifiedMiningState : Type 0 where
  pub state : MiningState
  pub effective_target : Target
  pub power_multiplier_wad : Uint256
  pub nft_classification : Checked NftClassificationSnapshot

-- What an `RpcChainReader` is set up with; its endpoint and agent are the node.
pub record Deployment : Type 0 where
  pub mining_core_address : Address
  pub expected_chain_id : Uint256

unfoldable pub from_word : Uint256 → Checked ChallengeStatus
from_word word =
    if same_bytes word word_zero
    then ok waiting_for_seed
    else if same_bytes word word_one
    then ok active
    else if same_bytes word (from_u64 2)
    then ok expired
    else if same_bytes word (from_u64 3)
    then ok ended
    else if same_bytes word (from_u64 4)
    then ok stopped
    else err unknown_status

unfoldable pub function_selector : Keccak → String → List ℕ
function_selector k signature = hex_string (take 4 (keccak256 k (codes signature)))

-- The digits are those of a `&str`.
unfoldable pub validate_hex : Option (List ℕ) → Checked (Unit {0})
validate_hex none = err bad_code
validate_hex (some []) = err no_code
validate_hex (some (digit ∷ hex)) =
    require (length (digit ∷ hex) % 2 == 0 && all_hex (digit ∷ hex)) bad_code

unfoldable pub validate_contract_code : List ℕ → Checked (Unit {0})
validate_contract_code code = validate_hex (strip_0x code)

unfoldable pub matches_deployment : Deployment → Uint256 → Address → Bool
matches_deployment reader chain_id core =
    same_bytes chain_id reader.expected_chain_id && same_bytes core reader.mining_core_address
