-- ===== src/Examples.antt =====
-- Concrete runs, and the theorems at concrete inputs. The hash here stands in for Keccak: it keeps
-- the last 32 bytes, so the digest of a proof is its nonce.
use proof_hunter_miner.Base.{
  [], ℕ, ◌+◌, ◌-◌, ◌%◌, ◌^◌, ◌<◌, ◌≡◌, refl, ◌≢◌, ◌⊎◌, none, some, List, ◌∷◌, ◌++◌, arith,
  if◌then◌else◌, ok, err, replicate, All-replicate,
}
use proof_hunter_miner.Bytes.{IsByte, value}
use proof_hunter_miner.Keccak.{Keccak}
use proof_hunter_miner.Parse.{
  decimal, hex_nibble, hex_pairs, hex_string, is_decimal, nibble, not_decimal,
  parse_decimal_uint256, parse_hex_bytes, parse_hex_exact, parse_hex_quantity_uint256,
  quantity_bytes, quantity_word, strip_0x, uint256_to_decimal,
}
use proof_hunter_miner.Parse.Decimal.{parse_decimal_uint256-total, word_or_refusal}
use proof_hunter_miner.Parse.Hex.{parse_hex-hex_string}
use proof_hunter_miner.Parse.Print.{Writes, parse_decimal_uint256-uint256_to_decimal}
use proof_hunter_miner.Proof.{
  ChallengeInputs, IsChallengeInputs, IsProofInputs, ProofInputs, challenge_preimage, check_proof,
  prepare, prepared_digest, proof_digest, proof_preimage,
}
use proof_hunter_miner.Proof.Digests.{
  challenge_preimage-injective, preimages_disjoint, prepared_digest-proof_digest,
  proof_preimage-injective,
}
use proof_hunter_miner.Schedule.{RewardSchedule, drain, max_minted_ever, new, next, reward_at}
use proof_hunter_miner.Schedule.Supply.{IsDrained, IsValid, next-IsValid, schedule_complete}
use proof_hunter_miner.Search.{proof_inputs, search_nonce}
use proof_hunter_miner.Search.First.{FirstHit, nonce_at, search_nonce-FirstHit}
use proof_hunter_miner.Word.{
  Address, IsAddress, IsWord, Uint256, from_u64, from_u64-IsWord, to_be_bytes, to_be_bytes-IsArray,
  wrapping_add, wrapping_add-mod, zeros-IsArray,
}

abbrev last_word : Keccak
last_word = record {
  State = List ℕ;
  new = [];
  update = λ s bytes. s ++ bytes;
  finalize = λ s. to_be_bytes 32 (value s);
  update_pieces = λ front back. refl;
  finalize-IsWord = λ s. to_be_bytes-IsArray 32 (value s);
}

abbrev miner_address : Address
miner_address = replicate 20 0x11

miner_address-IsAddress : IsAddress miner_address
miner_address-IsAddress = record { size = refl; bytes = All-replicate IsByte 20 0x11 (omega arith) }

abbrev challenge_inputs : ChallengeInputs
challenge_inputs = record {
  chain_id = from_u64 31_337;
  mining_core = replicate 20 0;
  challenge_id = from_u64 7;
  previous_accepted_digest = replicate 32 0;
  seed_parent_block = from_u64 99;
  seed_blockhash = from_u64 12_345;
}

challenge_inputs-IsChallengeInputs : IsChallengeInputs challenge_inputs
challenge_inputs-IsChallengeInputs = record {
  chain_id = from_u64-IsWord 31_337;
  mining_core = zeros-IsArray 20;
  challenge_id = from_u64-IsWord 7;
  previous_accepted_digest = zeros-IsArray 32;
  seed_parent_block = from_u64-IsWord 99;
  seed_blockhash = from_u64-IsWord 12_345;
}

abbrev proof_at : ℕ → ProofInputs
proof_at n = record {
  chain_id = from_u64 31_337;
  mining_core = replicate 20 0;
  challenge_id = from_u64 7;
  challenge = from_u64 1;
  miner = miner_address;
  nonce = from_u64 n;
}

proof_at-IsProofInputs : (n : ℕ) → IsProofInputs (proof_at n)
proof_at-IsProofInputs n = record {
  chain_id = from_u64-IsWord 31_337;
  mining_core = zeros-IsArray 20;
  challenge_id = from_u64-IsWord 7;
  challenge = from_u64-IsWord 1;
  miner = miner_address-IsAddress;
  nonce = from_u64-IsWord n;
}

abbrev last_nonce : Uint256
last_nonce = to_be_bytes 32 (2 ^ 256 - 2)

-- From 2^256 - 2 on, with the target 0, the third attempt hits: the nonce wraps around.
search_nonce-FirstHit_example :
    FirstHit
      (λ j.
        check_proof last_word challenge_inputs miner_address
          (nonce_at last_nonce (from_u64 1) j)
          (from_u64 0))
      (nonce_at last_nonce (from_u64 1))
      (λ j. proof_digest last_word (
        proof_inputs last_word challenge_inputs miner_address (nonce_at last_nonce (from_u64 1) j)))
      0
      4
      4
      (search_nonce last_word challenge_inputs miner_address (from_u64 0) last_nonce (from_u64 1) 4)
search_nonce-FirstHit_example =
    search_nonce-FirstHit last_word challenge_inputs miner_address (from_u64 0) last_nonce
      (from_u64 1) 4 challenge_inputs-IsChallengeInputs miner_address-IsAddress
      (to_be_bytes-IsArray 32 (2 ^ 256 - 2)) (from_u64-IsWord 1)

prepared_digest-proof_digest_example :
    prepared_digest last_word (prepare last_word (proof_at 5)) (from_u64 9)
    ≡ proof_digest last_word (proof_at 9)
prepared_digest-proof_digest_example =
    prepared_digest-proof_digest last_word (proof_at 5) (from_u64 9) (proof_at-IsProofInputs 5)
      (from_u64-IsWord 9)

proof_preimage-injective_example : proof_at 5 ≡ proof_at 5
proof_preimage-injective_example =
    proof_preimage-injective (proof_at 5) (proof_at 5) (proof_at-IsProofInputs 5)
      (proof_at-IsProofInputs 5) refl

challenge_preimage-injective_example : challenge_inputs ≡ challenge_inputs
challenge_preimage-injective_example =
    challenge_preimage-injective challenge_inputs challenge_inputs
      challenge_inputs-IsChallengeInputs challenge_inputs-IsChallengeInputs refl

preimages_disjoint_example : proof_preimage (proof_at 5) ≢ challenge_preimage challenge_inputs
preimages_disjoint_example =
    preimages_disjoint (proof_at 5) challenge_inputs (proof_at-IsProofInputs 5)
      challenge_inputs-IsChallengeInputs

wrapping_add-mod_example :
    (value (wrapping_add last_nonce (from_u64 5))
      ≡ (value last_nonce + value (from_u64 5)) % 2 ^ 256)
    × IsWord (wrapping_add last_nonce (from_u64 5))
wrapping_add-mod_example =
    wrapping_add-mod last_nonce (from_u64 5) (to_be_bytes-IsArray 32 (2 ^ 256 - 2))
      (from_u64-IsWord 5)

abbrev first_schedule : RewardSchedule
first_schedule = record { accepted_proofs = 0; total_minted = 0 }

next-IsValid_example :
    IsValid (next first_schedule).0
    × (((0 ≡ max_minted_ever) × (next first_schedule ≡ (first_schedule, none)))
        ⊎ ((0 < max_minted_ever)
            × (next first_schedule ≡ (
              record { accepted_proofs = 1; total_minted = 0 + reward_at 0 0 },
              some (reward_at 0 0),
            ))))
next-IsValid_example =
    next-IsValid first_schedule
      (record { capped = omega arith; counted = omega arith; token_each = λ h. omega arith })

schedule_complete_example :
    IsDrained new (drain 21_000_000 new).0 (drain 21_000_000 new).1
    × (next (drain 21_000_000 new).0 ≡ ((drain 21_000_000 new).0, none))
schedule_complete_example = schedule_complete 21_000_000 (omega arith)

abbrev text_256 : List ℕ
text_256 = b'2' ∷ b'5' ∷ b'6' ∷ []

parse_decimal_uint256-total_example :
    parse_decimal_uint256 text_256
    ≡ (if is_decimal text_256 then word_or_refusal (decimal text_256) else err not_decimal)
parse_decimal_uint256-total_example = parse_decimal_uint256-total text_256

parse_decimal_uint256-uint256_to_decimal_example :
    (text : List ℕ) × (uint256_to_decimal last_nonce ≡ some text)
    × Writes (value last_nonce) text
    × (parse_decimal_uint256 text ≡ ok last_nonce)
parse_decimal_uint256-uint256_to_decimal_example =
    parse_decimal_uint256-uint256_to_decimal last_nonce (to_be_bytes-IsArray 32 (2 ^ 256 - 2))

parse_hex-hex_string_example :
    (parse_hex_exact 20 (hex_string miner_address) ≡ ok miner_address)
    × (parse_hex_bytes (hex_string miner_address) ≡ ok miner_address)
parse_hex-hex_string_example = parse_hex-hex_string 20 miner_address miner_address-IsAddress

abbrev text_0x1f : List ℕ
text_0x1f = b'0' ∷ b'x' ∷ b'1' ∷ b'f' ∷ []

parses_exact : parse_hex_exact 1 text_0x1f ≡ ok (0x1f ∷ [])
unfolding parse_hex_exact strip_0x hex_pairs nibble hex_nibble
parses_exact = refl

abbrev text_0xa1f : List ℕ
text_0xa1f = b'0' ∷ b'x' ∷ b'a' ∷ b'1' ∷ b'f' ∷ []

abbrev word_0xa1f : Uint256
word_0xa1f = replicate 30 0 ++ (0xa ∷ 0x1f ∷ [])

parses_quantity : parse_hex_quantity_uint256 text_0xa1f ≡ ok word_0xa1f
unfolding parse_hex_quantity_uint256 quantity_word quantity_bytes strip_0x hex_pairs nibble
    hex_nibble
parses_quantity = refl
