-- ===== src/Searches.antt =====
-- Concrete runs of the workers: a search that wraps around, whose reports arrive in another order;
-- and the options of a mining loop.
use mathlib.Core.List.{Permᴰ}
use proof_hunter_miner.Base.{
  ℕ, ◌-◌, ◌^◌, ◌≡◌, refl, true, false, Option, none, some, List, [], ◌∷◌, arith, require, ok_or, ok,
  replicate,
}
use proof_hunter_miner.Bytes.{same_bytes, bytes_ltb, value}
use proof_hunter_miner.Command.{
  MineArgs, MineSubmissionConfig, check_miner, given, margin_of, parse_fee_options,
  resolve_mine_identity_and_submission, resolve_submission, transpose, value_of,
}
use proof_hunter_miner.Command.Explicit.{
  IsResolved, resolve_mine_identity_and_submission-IsResolved,
}
use proof_hunter_miner.Parse.{
  decimal, hex_body, hex_digit, hex_nibble, hex_pairs, hex_string, nibble, parse_address,
  parse_hex_exact, parse_u128, parse_u64, strip_0x,
}
use proof_hunter_miner.Flows.{inputs, inputs-IsChallengeInputs, last_word}
use proof_hunter_miner.Mining.{advance, worker_budget, worker_search, worker_start}
use proof_hunter_miner.Mining.Accounting.{mine_with_control_found}
use proof_hunter_miner.Mining.Reports.{IsFair}
use proof_hunter_miner.Mining.Budgets.{IsCounted}
use proof_hunter_miner.Mining.Capped.{mine_with_control-IsCounted}
use proof_hunter_miner.Mining.Coordinate.{
  Environment, Run, WorkerReport, add_worker, after_commands, after_first, after_reports,
  attempts_of, batch_of, best_of, coordinate_batches, is_zero_cap, joined, knows, least,
  mine_with_control, moved, push_winner, receive, receive_one, reports_of, run_found, searched,
  spend, spend_of, start_workers, when_running,
}
use proof_hunter_miner.Mining.Ending.{IsDone, mine_with_control_ends}
use proof_hunter_miner.Proof.{
  check_proof, derive_challenge, meets_target, prepare, prepared_digest, proof_digest,
}
use proof_hunter_miner.Search.{proof_inputs, search_loop, search_nonce}
use proof_hunter_miner.Word.{
  Address, Uint256, from_u64, to_be_bytes, to_be_bytes-IsArray, wrapping_add, zeros-IsArray,
}

abbrev swapped : List WorkerReport → List WorkerReport
swapped [] = []
swapped (report ∷ []) = report ∷ []
swapped (first_report ∷ second ∷ rest) = second ∷ first_report ∷ rest

abbrev two_workers : Environment
two_workers = record {
  is_stopped = λ reading. false;
  worker_left = λ round. false;
  arrival = λ round reports. swapped reports;
  spawn_fails = false;
  panics = false;
}

two_workers-IsFair : IsFair two_workers
two_workers-IsFair round [] = Permᴰ.nil
two_workers-IsFair round (report ∷ []) = Permᴰ.cons refl Permᴰ.nil
two_workers-IsFair round (a_report ∷ b_report ∷ rest) = Permᴰ.swap refl refl

-- The second highest nonce.
abbrev high_start : Uint256
high_start = to_be_bytes 32 (2 ^ 256 - 2)

abbrev a_run : Run
a_run =
    mine_with_control last_word two_workers inputs (replicate 20 0) (from_u64 14) high_start 2
      (some 5) 5

-- The first nonce is refused. The first worker finds 0 and the second one finds 1, a round's
-- attempts being three.
a_run_finds : a_run ≡ ok (some (run_found (replicate 32 0) (replicate 32 0) 4))
unfolding mine_with_control is_zero_cap when_running after_first joined coordinate_batches
    start_workers add_worker worker_budget worker_start after_commands receive receive_one spend_of
    spend knows push_winner attempts_of after_reports best_of least reports_of moved searched
    batch_of worker_search search_nonce search_loop advance wrapping_add from_u64 to_be_bytes
    prepare prepared_digest meets_target bytes_ltb value derive_challenge require
a_run_finds = refl

mine_with_control_found_example :
    (check_proof last_word inputs (replicate 20 0) (replicate 32 0) (from_u64 14) ≡ true)
    × (replicate 32 0
        ≡ proof_digest last_word (proof_inputs last_word inputs (replicate 20 0) (replicate 32 0)))
mine_with_control_found_example =
    mine_with_control_found last_word two_workers inputs (replicate 20 0) (from_u64 14) high_start 2
      (some 5) 5 (replicate 32 0) (replicate 32 0) 4 two_workers-IsFair inputs-IsChallengeInputs
      (zeros-IsArray 20) (to_be_bytes-IsArray 32 (2 ^ 256 - 2)) a_run_finds

mine_with_control-IsCounted_example : IsCounted 5 a_run
mine_with_control-IsCounted_example =
    mine_with_control-IsCounted last_word two_workers inputs (replicate 20 0) (from_u64 14)
      high_start 2 5 5

mine_with_control_ends_example : IsDone a_run
mine_with_control_ends_example =
    mine_with_control_ends last_word two_workers inputs (replicate 20 0) (from_u64 14) high_start 2
      5 5 two_workers-IsFair (omega arith)

abbrev own_text : List ℕ
own_text = hex_string (replicate 20 7)

abbrev loop_args : MineArgs
loop_args = record {
  rpc_url = some [];
  state_file = none;
  chain_id = none;
  mining_core = none;
  challenge_id = none;
  previous_digest = none;
  seed_parent_block = none;
  seed_blockhash = none;
  miner = some own_text;
  target = none;
  threads = none;
  start_nonce = none;
  max_attempts = none;
  submit = true;
  loop_mode = true;
  watch_interval_ms = some (b'5' ∷ []);
  keystore = some (1 ∷ []);
  passphrase_file = none;
  max_fee = some (b'9' ∷ b'0' ∷ []);
  basket = some (hex_string (replicate 20 3));
  base_fee_per_gas = none;
  priority_fee_per_gas = some (b'7' ∷ []);
  gas_margin_percent = none;
}

abbrev loop_answer : Address × Option MineSubmissionConfig
loop_answer = (
  replicate 20 7,
  some (record {
    config_keystore = 1 ∷ [];
    config_passphrase_file = none;
    config_basket = replicate 20 3;
    fee_options = record {
      fee_ceiling_wei = 90;
      base_fee_per_gas_override_wei = none;
      priority_fee_per_gas_override_wei = some 7;
      gas_margin_percent = 100;
    };
  }),
)

loop_args_resolve :
    resolve_mine_identity_and_submission (λ path. some own_text) loop_args ≡ ok loop_answer
unfolding resolve_mine_identity_and_submission resolve_submission given value_of transpose margin_of
    parse_fee_options check_miner hex_string hex_body hex_digit parse_address parse_hex_exact
    strip_0x hex_pairs nibble hex_nibble parse_u128 parse_u64 decimal same_bytes require ok_or
loop_args_resolve = refl

resolve_mine_identity_and_submission-IsResolved_example :
    IsResolved (λ path. some own_text) loop_args loop_answer
resolve_mine_identity_and_submission-IsResolved_example =
    resolve_mine_identity_and_submission-IsResolved (λ path. some own_text) loop_args loop_answer
      loop_args_resolve
