-- ===== src/Classification.antt =====
-- crates/bproof/src/classification.rs: whether an accepted proof is predicted to mint a Proof
-- Hunter. The text of an unknown classification's reason is left out.
pub mod Steps
pub mod Division
use proof_hunter_miner.Base.{
  [], ℕ, zero, suc, ◌+◌, ◌-◌, ◌*◌, ◌/◌, ◌%◌, ◌^◌, ◌&&◌, Option, none, some, List, ◌∷◌, ltb,
  if◌then◌else◌, replicate,
}
use proof_hunter_miner.Bytes.{all_zero, bytes_leb, bytes_ltb}
use proof_hunter_miner.Word.{Uint256, Digest, Target}

pub record NftClassificationSnapshot : Type 0 where
  pub accepted_target : Target
  pub nft_odds_denominator : Uint256
  pub max_nfts_ever : Uint256
  pub nfts_minted_ever : Uint256

pub data ProofClassification : Type 0 where
  proof_hunter ordinary unknown : ProofClassification

-- `for byte in value.iter_mut().rev()`: the carry out of the list, and the list. `byte >> 7` and
-- `(byte << 1) | carry`, on a `u8`.
unfoldable pub shift_loop : ℕ → List ℕ → ℕ × List ℕ
shift_loop carry [] = (carry, [])
shift_loop carry (byte ∷ bytes) =
    let (c, result) = shift_loop carry bytes in (byte / 128, (byte * 2 % 256 + c) ∷ result)

unfoldable pub shift_left_one : List ℕ → List ℕ
shift_left_one bytes = (shift_loop 0 bytes).1

-- `for index in (0..value.len()).rev()`: the borrow out of the lists, and the difference. The
-- operands are below 512, so `wrapping_sub` on a `u16` and the cast is the sum that stands here.
unfoldable pub subtract_loop : List ℕ → List ℕ → ℕ × List ℕ
subtract_loop [] ys = (0, [])
subtract_loop (x ∷ xs) [] = (0, x ∷ xs)
subtract_loop (x ∷ xs) (y ∷ ys) =
    let (borrow, result) = subtract_loop xs ys in
    let subtrahend = y + borrow in
    (if ltb x subtrahend then 1 else 0, (2 ^ 16 + x - subtrahend) % 2 ^ 16 % 256 ∷ result)

unfoldable pub subtract_word : List ℕ → List ℕ → List ℕ
subtract_word xs ys = (subtract_loop xs ys).1

-- One round of `for bit_index in 0..256`: the bit that enters the remainder, the remainder, and
-- the bit of the quotient. The lowest bit is clear after the shift, so `|=` adds.
unfoldable pub add_bit : ℕ → List ℕ → List ℕ
add_bit bit [] = []
add_bit bit (x ∷ []) = (x + bit) ∷ []
add_bit bit (x ∷ (y ∷ ys)) = x ∷ add_bit bit (y ∷ ys)

unfoldable pub divide_bit : List ℕ → List ℕ → ℕ → ℕ × List ℕ
divide_bit wide_divisor remainder bit =
    let shifted = add_bit bit (shift_left_one remainder) in
    if bytes_leb wide_divisor shifted then (1, subtract_word shifted wide_divisor) else (0, shifted)

-- The bits of one byte of the dividend, the highest first: `source_bit` is `bits - 1`, and the byte
-- of the quotient is built up from `quotient`.
unfoldable pub divide_byte : ℕ → List ℕ → ℕ → ℕ → List ℕ → ℕ × List ℕ
divide_byte zero wide_divisor byte quotient remainder = (quotient, remainder)
divide_byte (suc bit) wide_divisor byte quotient remainder =
    let (one, rest) = divide_bit wide_divisor remainder (byte / 2 ^ bit % 2) in
    divide_byte bit wide_divisor byte (quotient + one * 2 ^ bit) rest

unfoldable pub divide_bytes : List ℕ → List ℕ → List ℕ → List ℕ
divide_bytes wide_divisor remainder [] = []
divide_bytes wide_divisor remainder (byte ∷ bytes) =
    let (quotient, rest) = divide_byte 8 wide_divisor byte 0 remainder in
    quotient ∷ divide_bytes wide_divisor rest bytes

unfoldable pub divide_word : List ℕ → List ℕ → List ℕ
divide_word dividend divisor = divide_bytes (0 ∷ divisor) (replicate 33 0) dividend

-- `none` is a snapshot that could not be read.
unfoldable pub classify_proof : Digest → Option NftClassificationSnapshot → ProofClassification
classify_proof digest none = unknown
classify_proof digest (some snapshot) =
    let threshold = divide_word snapshot.accepted_target snapshot.nft_odds_denominator in
    let qualifies = bytes_leb digest threshold in
    let capacity_remains = bytes_ltb snapshot.nfts_minted_ever snapshot.max_nfts_ever in
    if all_zero snapshot.nft_odds_denominator
    then unknown
    else if qualifies && capacity_remains
    then proof_hunter
    else ordinary
