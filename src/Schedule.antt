-- ===== src/Schedule.antt =====
-- crates/proof-core/src/schedule.rs: the deterministic reward schedule. A `u128` is a number below
-- 2^128; sums that the source makes with `+` and `+=` keep the wrap-around of a release build.
pub mod Rewards
pub mod Supply
use proof_hunter_miner.Base.{
  [], ℕ, zero, suc, ◌+◌, ◌-◌, ◌*◌, ◌/◌, ◌%◌, ◌^◌, List, ◌∷◌, Option, none, some, ltb, ◌==◌,
  if◌then◌else◌,
}

abbrev pub u128 : ℕ → ℕ
u128 n = n % 2 ^ 128

abbrev pub token_wei : ℕ
token_wei = 1_000_000_000_000_000_000

abbrev pub max_minted_ever : ℕ
max_minted_ever = 21_000_000 * token_wei

abbrev pub ramp_proofs : ℕ
ramp_proofs = 8_640

abbrev pub opening_divisor : ℕ
opening_divisor = 10_000

abbrev pub final_divisor : ℕ
final_divisor = 45_350

abbrev pub min_reward : ℕ
min_reward = token_wei

unfoldable pub divisor_at : ℕ → ℕ
divisor_at accepted_proofs =
    let progress = if ltb accepted_proofs ramp_proofs then accepted_proofs else ramp_proofs in
    u128 (opening_divisor + u128 ((final_divisor - opening_divisor) * progress) / ramp_proofs)

-- `saturating_sub` is `-` on ℕ.
unfoldable pub reward_at : ℕ → ℕ → ℕ
reward_at accepted_proofs total_minted =
    let remaining = max_minted_ever - total_minted in
    let proportional_reward = remaining / divisor_at accepted_proofs in
    let floored_reward =
      if ltb min_reward proportional_reward then proportional_reward else min_reward in
    if remaining == 0 then 0 else if ltb floored_reward remaining then floored_reward else remaining

unfoldable pub reserve_for : ℕ → ℕ
reserve_for reward = reward

pub record RewardSchedule : Type 0 where
  pub accepted_proofs : ℕ
  pub total_minted : ℕ

unfoldable pub new : RewardSchedule
new = record { accepted_proofs = 0; total_minted = 0 }

-- `Iterator::next`: the new state and the item.
unfoldable pub next : RewardSchedule → RewardSchedule × Option ℕ
next s =
    let reward = reward_at s.accepted_proofs s.total_minted in
    if reward == 0 then (s, none) else (
      record s {
        accepted_proofs = u128 (s.accepted_proofs + 1);
        total_minted = u128 (s.total_minted + reward);
      },
      some reward,
    )

-- The iterator drained, as `collect` and a `for` loop do, for at most `fuel` items: the state that
-- is left and the items.
unfoldable pub drain : ℕ → RewardSchedule → RewardSchedule × List ℕ
drain zero s = (s, [])
drain (suc fuel) s =
    let (s', item) = next s in
    elim item [
      | none ↦ (s', [])
      | some reward ↦ let (t, rewards) = drain fuel s' in (t, reward ∷ rewards)
    ]
