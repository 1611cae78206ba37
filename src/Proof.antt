-- ===== src/Proof.antt =====
-- crates/proof-core/src/proof.rs: the preimages, digests and the target rule of a proof.
pub mod Layout
pub mod Digests
use proof_hunter_miner.Base.{
  [], ℕ, ◌+◌, ◌-◌, ◌*◌, List, ◌∷◌, ◌++◌, Bool, length, replicate, take, drop,
}
use proof_hunter_miner.Bytes.{bytes_leb}
use proof_hunter_miner.Word.{Uint256, Digest, Target, Address, word_one, IsWord, IsAddress}
use proof_hunter_miner.Keccak.{Keccak, keccak256}

-- `PREIMAGE_BYTES`, eight words of 32 bytes.
abbrev pub preimage_bytes : ℕ
preimage_bytes = 32 * 8

abbrev pub proof_version : Uint256
proof_version = word_one

abbrev pub proof_typehash : Digest
proof_typehash =
    0xdf ∷ 0x48 ∷ 0x04 ∷ 0x9c ∷ 0x80 ∷ 0x32 ∷ 0xf0 ∷ 0x61 ∷ 0xc4 ∷ 0x7a ∷ 0x9b ∷ 0x74 ∷ 0xb3 ∷ 0xf5
    ∷ 0x45 ∷ 0x16 ∷ 0xba ∷ 0x0b ∷ 0x83 ∷ 0x39 ∷ 0x56 ∷ 0x0b ∷ 0xd2 ∷ 0x3c ∷ 0x99 ∷ 0xb0 ∷ 0xc5
    ∷ 0xd4 ∷ 0x50 ∷ 0x61 ∷ 0x39 ∷ 0x3a ∷ []

abbrev pub challenge_typehash : Digest
challenge_typehash =
    0xe0 ∷ 0xe8 ∷ 0x2b ∷ 0x0a ∷ 0x91 ∷ 0x88 ∷ 0x73 ∷ 0x86 ∷ 0xe1 ∷ 0x6d ∷ 0x42 ∷ 0x09 ∷ 0x17 ∷ 0x0f
    ∷ 0x8f ∷ 0x80 ∷ 0x21 ∷ 0x63 ∷ 0x18 ∷ 0xfc ∷ 0x95 ∷ 0xf9 ∷ 0x02 ∷ 0xa4 ∷ 0xa5 ∷ 0xab ∷ 0x3f
    ∷ 0x18 ∷ 0xcf ∷ 0x5b ∷ 0x0c ∷ 0x5b ∷ []

pub record ChallengeInputs : Type 0 where
  pub chain_id : Uint256
  pub mining_core : Address
  pub challenge_id : Uint256
  pub previous_accepted_digest : Digest
  pub seed_parent_block : Uint256
  pub seed_blockhash : Digest

pub record ProofInputs : Type 0 where
  pub chain_id : Uint256
  pub mining_core : Address
  pub challenge_id : Uint256
  pub challenge : Digest
  pub miner : Address
  pub nonce : Uint256

-- What the array types of the fields say.
pub record IsChallengeInputs (inputs : ChallengeInputs) : Type 0 where
  pub chain_id : IsWord inputs.chain_id
  pub mining_core : IsAddress inputs.mining_core
  pub challenge_id : IsWord inputs.challenge_id
  pub previous_accepted_digest : IsWord inputs.previous_accepted_digest
  pub seed_parent_block : IsWord inputs.seed_parent_block
  pub seed_blockhash : IsWord inputs.seed_blockhash

pub record IsProofInputs (inputs : ProofInputs) : Type 0 where
  pub chain_id : IsWord inputs.chain_id
  pub mining_core : IsAddress inputs.mining_core
  pub challenge_id : IsWord inputs.challenge_id
  pub challenge : IsWord inputs.challenge
  pub miner : IsAddress inputs.miner
  pub nonce : IsWord inputs.nonce

-- `array[start..start + source.len()].copy_from_slice(&source)`.
unfoldable pub copy_at : List ℕ → ℕ → List ℕ → List ℕ
copy_at array start source = take start array ++ (source ++ drop (start + length source) array)

unfoldable pub address_word : Address → List ℕ
unfolding copy_at
address_word address = copy_at (replicate 32 0) 12 address

unfoldable pub write_word : List ℕ → ℕ → List ℕ → List ℕ
unfolding copy_at
write_word preimage index word = copy_at preimage (index * 32) word

unfoldable pub challenge_preimage : ChallengeInputs → List ℕ
unfolding write_word address_word
challenge_preimage inputs =
    let p0 = write_word (replicate preimage_bytes 0) 0 challenge_typehash in
    let p1 = write_word p0 1 inputs.chain_id in
    let p2 = write_word p1 2 (address_word inputs.mining_core) in
    let p3 = write_word p2 3 proof_version in
    let p4 = write_word p3 4 inputs.challenge_id in
    let p5 = write_word p4 5 inputs.previous_accepted_digest in
    let p6 = write_word p5 6 inputs.seed_parent_block in write_word p6 7 inputs.seed_blockhash

unfoldable pub proof_preimage : ProofInputs → List ℕ
unfolding write_word address_word
proof_preimage inputs =
    let p0 = write_word (replicate preimage_bytes 0) 0 proof_typehash in
    let p1 = write_word p0 1 inputs.chain_id in
    let p2 = write_word p1 2 (address_word inputs.mining_core) in
    let p3 = write_word p2 3 proof_version in
    let p4 = write_word p3 4 inputs.challenge_id in
    let p5 = write_word p4 5 inputs.challenge in
    let p6 = write_word p5 6 (address_word inputs.miner) in write_word p6 7 inputs.nonce

unfoldable pub meets_target : Digest → Target → Bool
unfolding bytes_leb
meets_target digest target = bytes_leb digest target

module _ (k : Keccak) where
  unfoldable pub derive_challenge : ChallengeInputs → Digest
  unfolding keccak256 challenge_preimage
  derive_challenge inputs = keccak256 k (challenge_preimage inputs)

  unfoldable pub proof_digest : ProofInputs → Digest
  unfolding keccak256 proof_preimage
  proof_digest inputs = keccak256 k (proof_preimage inputs)

  -- `PreparedProof`, whose one field is the hasher's state.
  abbrev pub PreparedProof : Type 0
  PreparedProof = k.State

  unfoldable pub prepare : ProofInputs → PreparedProof
  unfolding proof_preimage
  prepare inputs = k.update k.new (take (preimage_bytes - 32) (proof_preimage inputs))

  unfoldable pub prepared_digest : PreparedProof → Uint256 → Digest
  prepared_digest prefix nonce = k.finalize (k.update prefix nonce)

  unfoldable pub check_proof : ChallengeInputs → Address → Uint256 → Target → Bool
  unfolding derive_challenge proof_digest meets_target
  check_proof inputs miner nonce target =
      meets_target
        (proof_digest (record {
          chain_id = inputs.chain_id;
          mining_core = inputs.mining_core;
          challenge_id = inputs.challenge_id;
          challenge = derive_challenge inputs;
          miner = miner;
          nonce = nonce;
        }))
        target
