-- ===== src/Runs.antt =====
-- Further concrete runs and theorems at concrete inputs: powers, workers, fees and submissions.
use proof_hunter_miner.Base.{
  ℕ, ◌+◌, ◌*◌, ◌/◌, ◌%◌, ◌^◌, ◌≤◌, ◌<◌, ◌≡◌, refl, ◌↔◌, true, false, ◌&&◌, none, some, arith, ltb,
  leb, ◌==◌, if◌then◌else◌, ok, err,
}
use proof_hunter_miner.Bytes.{value}
use proof_hunter_miner.Classification.{
  NftClassificationSnapshot, classify_proof, ordinary, proof_hunter, unknown,
}
use proof_hunter_miner.Classification.Division.{classify_proof-quotient}
use proof_hunter_miner.Continuous.Journal.{IsSafeSend, send_prepared_submission-IsSafeSend}
use proof_hunter_miner.Continuous.Send.{SendReplies, cleared, persisted, send_prepared_submission}
use proof_hunter_miner.Fees.{FeeQuote, checked, fee_quote, padded_gas_limit}
use proof_hunter_miner.Fees.Quote.{IsQuote, fee_quote-IsQuote, fee_quote-total}
use proof_hunter_miner.Mining.{worker_budget, worker_start}
use proof_hunter_miner.Mining.Stride.{attempt_of, worker_budget-attempt_of, workers_cover}
use proof_hunter_miner.Power.{base_exceeds_maximum, base_wad, effective_target}
use proof_hunter_miner.Power.Effective.{
  effective_target-total, effective_target_bounds, effective_value,
}
use proof_hunter_miner.Search.First.{nonce_at}
use proof_hunter_miner.Word.{IsWord, Target, from_u64, from_u64-IsWord, to_be_bytes, value-from_u64}

abbrev two_wad : ℕ
two_wad = 2_000_000_000_000_000_000

effective_target-total_example :
    effective_target (from_u64 100) (from_u64 two_wad) (from_u64 150) ≡ (
      if leb (value (from_u64 two_wad)) base_wad
      then ok (from_u64 100)
      else if ltb (value (from_u64 150)) (value (from_u64 100))
      then err base_exceeds_maximum
      else ok (
          to_be_bytes 32 (
            effective_value
              (value (from_u64 100))
              (value (from_u64 two_wad))
              (value (from_u64 150)))))
effective_target-total_example =
    effective_target-total (from_u64 100) (from_u64 two_wad) (from_u64 150) (from_u64-IsWord 100)
      (from_u64-IsWord two_wad) (from_u64-IsWord 150)

base_below_maximum : value (from_u64 100) ≤ value (from_u64 150)
base_below_maximum =
    rw (value-from_u64 100 (omega arith), value-from_u64 150 (omega arith)) (omega arith)

effective_target_bounds_example :
    (target : Target) × (effective_target (from_u64 100) (from_u64 two_wad) (from_u64 150)
      ≡ ok target)
    × IsWord target
    × (value (from_u64 100) ≤ value target)
    × (value target ≤ value (from_u64 150))
    × (value target ≤ 3 * (value (from_u64 100) + 1))
effective_target_bounds_example =
    effective_target_bounds (from_u64 100) (from_u64 two_wad) (from_u64 150) (from_u64-IsWord 100)
      (from_u64-IsWord two_wad) (from_u64-IsWord 150) base_below_maximum

worker_budget-attempt_of_example : (2 < worker_budget 10 4 1) ↔ (attempt_of 4 1 2 < 10)
worker_budget-attempt_of_example = worker_budget-attempt_of 10 4 1 2 (omega arith) (omega arith)

workers_cover_example :
    (worker_id : ℕ) × (i : ℕ) × (worker_id < 4)
    × (i < worker_budget 10 4 worker_id)
    × (value (nonce_at (worker_start (from_u64 50) 4 worker_id) (from_u64 4) i)
        ≡ (value (from_u64 50) + 9) % 2 ^ 256)
workers_cover_example =
    workers_cover (from_u64 50) 10 4 9 (from_u64-IsWord 50) (omega arith) (omega arith)
      (omega arith) (omega arith)

fee_quote-total_example : (q : FeeQuote) × (fee_quote 1_000 7 21_001 20 900_000_000 ≡ ok q)
fee_quote-total_example =
    fee_quote-total 1_000 7 21_001 20 900_000_000 (omega arith) (omega arith) (omega arith)
      (omega arith)

abbrev quoted : FeeQuote
quoted = record {
  base_fee_per_gas_wei = 1_000;
  priority_fee_per_gas_wei = 7;
  max_fee_per_gas_wei = 2_007;
  estimated_gas = 21_001;
  gas_margin_percent = 20;
  gas_limit = 25_202;
  maximum_exposure_wei = 50_580_414;
  fee_ceiling_wei = 900_000_000;
}

quotes : fee_quote 1_000 7 21_001 20 900_000_000 ≡ ok quoted
unfolding fee_quote padded_gas_limit checked
quotes = refl

fee_quote-IsQuote_example : IsQuote 1_000 7 21_001 20 900_000_000 quoted
fee_quote-IsQuote_example = fee_quote-IsQuote 1_000 7 21_001 20 900_000_000 quotes

abbrev a_send : SendReplies
a_send = record {
  wallet_matches = true;
  seed_is_current = true;
  signs = true;
  persists = persisted;
  hash_returned = true;
  settled = none;
  clears = cleared;
}

-- The broadcast is answered, but no receipt comes in time.
send_prepared_submission-IsSafeSend_example :
    IsSafeSend false none (send_prepared_submission false false a_send)
send_prepared_submission-IsSafeSend_example = send_prepared_submission-IsSafeSend false false a_send

five_is_positive : 0 < value (from_u64 5)
five_is_positive = rw (value-from_u64 5 (omega arith)) (omega arith)

abbrev a_snapshot : NftClassificationSnapshot
a_snapshot = record {
  accepted_target = from_u64 100;
  nft_odds_denominator = from_u64 5;
  max_nfts_ever = from_u64 5_000;
  nfts_minted_ever = from_u64 4_999;
}

classify_proof-quotient_example : classify_proof (from_u64 20) (some a_snapshot) ≡ (
    if value (from_u64 5) == 0
    then unknown
    else if leb (value (from_u64 20)) (value (from_u64 100) / value (from_u64 5))
        && ltb (value (from_u64 4_999)) (value (from_u64 5_000))
    then proof_hunter
    else ordinary)
classify_proof-quotient_example =
    classify_proof-quotient (from_u64 20) a_snapshot (from_u64-IsWord 20) (record {
      accepted_target = from_u64-IsWord 100;
      nft_odds_denominator = from_u64-IsWord 5;
      max_nfts_ever = from_u64-IsWord 5_000;
      nfts_minted_ever = from_u64-IsWord 4_999;
    })
