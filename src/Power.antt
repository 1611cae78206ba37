-- ===== src/Power.antt =====
-- crates/bproof/src/power.rs: the mining-power target.
pub mod MulDiv
pub mod Effective
use proof_hunter_miner.Base.{
  [], ◌>>=◌, ℕ, ◌+◌, ◌*◌, ◌/◌, ◌%◌, ◌^◌, List, ◌∷◌, ◌++◌, if◌then◌else◌, Result, ok, err, take,
  drop,
}
use proof_hunter_miner.Bytes.{all_zero, value, bytes_leb, bytes_ltb}
use proof_hunter_miner.Word.{Uint256, Target, to_be_bytes, from_u64}

abbrev pub base_wad : ℕ
base_wad = 1_000_000_000_000_000_000

abbrev pub max_wad : ℕ
max_wad = 3_000_000_000_000_000_000

pub data PowerError : Type 0 where
  base_exceeds_maximum target_exceeds_uint256 : PowerError

-- `for i in (0..32).rev()`: times `factor`, with a `u128` product and carry.
unfoldable pub multiply_loop : ℕ → List ℕ → ℕ × List ℕ
multiply_loop factor [] = (0, [])
multiply_loop factor (x ∷ xs) =
    let (carry, result) = multiply_loop factor xs in
    let product = (x * factor + carry) % 2 ^ 128 in (product / 256, product % 256 ∷ result)

-- `for byte in &mut wide`: the quotient bytes, from the first on. The remainder is below a `u64`,
-- so `(remainder << 8) | byte` is the sum that stands here, and fits a `u128`.
unfoldable pub divide_loop : ℕ → ℕ → List ℕ → List ℕ
divide_loop divisor remainder [] = []
divide_loop divisor remainder (x ∷ xs) =
    let partial = (remainder * 256 + x) % 2 ^ 128 in
    partial / divisor % 256 ∷ divide_loop divisor (partial % divisor) xs

-- The 40 bytes of `wide` after the multiplication: the carry as a `u64`, then the low 32 bytes.
unfoldable pub widen : Uint256 → ℕ → List ℕ
widen word factor =
    let (carry, result) = multiply_loop factor word in to_be_bytes 8 (carry % 2 ^ 64) ++ result

unfoldable pub mul_div : Uint256 → ℕ → ℕ → Result PowerError Uint256
mul_div word factor divisor =
    let wide = divide_loop divisor 0 (widen word factor) in
    if all_zero (take 8 wide) then ok (drop 8 wide) else err target_exceeds_uint256

-- `Ord::min` on byte arrays.
unfoldable pub bytes_min : List ℕ → List ℕ → List ℕ
bytes_min a b = if bytes_leb a b then a else b

-- `u64::from_be_bytes(bounded[24..])` is the value of those bytes.
unfoldable pub effective_target : Target → Uint256 → Uint256 → Result PowerError Target
effective_target base multiplier maximum =
    let bounded = bytes_min multiplier (from_u64 max_wad) in
    let mult = value (drop 24 bounded) in
    let widened = (do
      max_safe ← mul_div maximum base_wad mult
      widened ← (if bytes_leb max_safe base then ok maximum else mul_div base mult base_wad)
      ok (bytes_min widened maximum)) in
    if bytes_leb multiplier (from_u64 base_wad)
    then ok base
    else if bytes_ltb maximum base
    then err base_exceeds_maximum
    else widened
