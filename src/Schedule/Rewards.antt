-- ===== src/Schedule/Rewards.antt =====
-- One reward of crates/proof-core/src/schedule.rs: the divisor, and the remaining capacity.
use native.Mathlib.Nat.{le-div_iff_mul-le, mul-le-mul_left, div-mul-le_self}
use proof_hunter_miner.Base.{◌/◌, min, ◌≡◌, ◌<◌, ◌-◌, arith, ◌≤◌}
use proof_hunter_miner.Schedule.{
  ℕ, divisor_at, reward_at, max_minted_ever, min_reward, opening_divisor, final_divisor,
  ramp_proofs,
}

-- The divisor never falls from one index to a later one, stays between its opening and its final
-- value, and is the final value from the end of the ramp on.
pub divisor_at_ramp :
    (a b : ℕ)
    → a ≤ b
    → (opening_divisor ≤ divisor_at a)
      × (divisor_at a ≤ divisor_at b)
      × (divisor_at b ≤ final_divisor)
      × (ramp_proofs ≤ b → divisor_at b ≡ final_divisor)
unfolding divisor_at
divisor_at_ramp a b h = ground arith

-- A reward is no more than what remains, and no less than one token or what remains.
pub reward_at_bounds :
    (accepted total : ℕ)
    → (reward_at accepted total ≤ max_minted_ever - total)
      × (min (max_minted_ever - total) min_reward ≤ reward_at accepted total)
unfolding reward_at
reward_at_bounds accepted total = ground arith

div_mono : (m n d e : ℕ) → m ≤ n → 0 < e → e ≤ d → m / d ≤ n / e
div_mono m n d e h pos le =
    (le-div_iff_mul-le pos).1 (omega (arith, mul-le-mul_left (m / d) le, div-mul-le_self m d))

-- With at least as many proofs accepted and at least as much minted, the next reward is no larger.
pub reward_at_antitone : (a b t u : ℕ) → a ≤ b → t ≤ u → reward_at b u ≤ reward_at a t
unfolding reward_at
reward_at_antitone a b t u h k = ground (
  arith,
  divisor_at_ramp a b h,
  div_mono (max_minted_ever - u) (max_minted_ever - t) (divisor_at b) (divisor_at a),
)
