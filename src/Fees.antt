-- ===== src/Fees.antt =====
-- crates/bproof/src/submit.rs: the fee quote of a transaction. A `u64` or a `u128` is a number
-- below its limit; each checked operation tests its result.
pub mod Quote
use proof_hunter_miner.Base.{
  ◌>>=◌, ℕ, ◌+◌, ◌*◌, ◌/◌, ◌^◌, Option, ltb, if◌then◌else◌, Result, ok, err, take, drop,
}
use proof_hunter_miner.Bytes.{all_zero, value}
use proof_hunter_miner.Word.{Uint256}

pub data FeeError : Type 0 where
  max_fee_exceeds_u128 exposure_exceeds_u128 margin_too_large padded_too_large : FeeError
  gas_limit_exceeds_u64 exceeds_u128 exceeds_u64 : FeeError

pub record FeeOptions : Type 0 where
  pub fee_ceiling_wei : ℕ
  pub base_fee_per_gas_override_wei : Option ℕ
  pub priority_fee_per_gas_override_wei : Option ℕ
  pub gas_margin_percent : ℕ

pub record FeeQuote : Type 0 where
  pub base_fee_per_gas_wei : ℕ
  pub priority_fee_per_gas_wei : ℕ
  pub max_fee_per_gas_wei : ℕ
  pub estimated_gas : ℕ
  pub gas_margin_percent : ℕ
  pub gas_limit : ℕ
  pub maximum_exposure_wei : ℕ
  pub fee_ceiling_wei : ℕ

-- `u128::from_be_bytes` of the last 16 bytes is their value.
unfoldable pub uint256_to_u128 : Uint256 → Result FeeError ℕ
uint256_to_u128 word =
    if all_zero (take 16 word) then ok (value (drop 16 word)) else err exceeds_u128

unfoldable pub uint256_to_u64 : Uint256 → Result FeeError ℕ
uint256_to_u64 word = if all_zero (take 24 word) then ok (value (drop 24 word)) else err exceeds_u64

-- A checked `u128` operation with the result `n`.
unfoldable pub checked : FeeError → ℕ → Result FeeError ℕ
checked e n = if ltb n (2 ^ 128) then ok n else err e

unfoldable pub padded_gas_limit : ℕ → ℕ → Result FeeError ℕ
padded_gas_limit estimated_gas gas_margin_percent = do
  multiplier ← checked margin_too_large (100 + gas_margin_percent)
  product ← checked padded_too_large (estimated_gas * multiplier)
  sum ← checked padded_too_large (product + 99)
  (if ltb (sum / 100) (2 ^ 64) then ok (sum / 100) else err gas_limit_exceeds_u64)

unfoldable pub fee_quote : ℕ → ℕ → ℕ → ℕ → ℕ → Result FeeError FeeQuote
fee_quote base_fee priority_fee estimated_gas gas_margin_percent fee_ceiling = do
  doubled ← checked max_fee_exceeds_u128 (base_fee * 2)
  max_fee ← checked max_fee_exceeds_u128 (doubled + priority_fee)
  gas_limit ← padded_gas_limit estimated_gas gas_margin_percent
  exposure ← checked exposure_exceeds_u128 (gas_limit * max_fee)
  ok (record {
    base_fee_per_gas_wei = base_fee;
    priority_fee_per_gas_wei = priority_fee;
    max_fee_per_gas_wei = max_fee;
    estimated_gas = estimated_gas;
    gas_margin_percent = gas_margin_percent;
    gas_limit = gas_limit;
    maximum_exposure_wei = exposure;
    fee_ceiling_wei = fee_ceiling;
  })
