-- ===== src/Receipt/Wait.antt =====
-- crates/bproof/src/submit.rs: the loops that wait for the node, and what follows them. A loop takes
-- fuel: `ok none` says that it ran out before the deadline passed.
use proof_hunter_miner.Base.{
  [], ℕ, zero, suc, Bool, false, not, ◌&&◌, Option, none, some, ◌∷◌, if◌then◌else◌, require, ok,
  err,
}
use proof_hunter_miner.Bytes.{same_bytes}
use proof_hunter_miner.Chain.{Deployment, matches_deployment}
use proof_hunter_miner.Chain.Reads.{expired_seed}
use proof_hunter_miner.Continuous.Send.{MinedSubmission}
use proof_hunter_miner.Failure.{in_range, stale_refresh, timed_out}
use proof_hunter_miner.Fees.{uint256_to_u128}
use proof_hunter_miner.Json.{Json}
use proof_hunter_miner.Keccak.{Keccak}
use proof_hunter_miner.Receipt.Mined.{
  check_canonical, check_mined_value, hash_call, is_included, lower_hex, mined_submission,
}
use proof_hunter_miner.Receipt.Parse.{TransactionReceipt, parse_receipt}
use proof_hunter_miner.Rpc.{◌>>=◌, Call, Node, Rpc, done, flag_param, lift, text_param}
use proof_hunter_miner.Rpc.Calls.{call, rpc_result}
use proof_hunter_miner.Submit.{PreparedSubmission}
use proof_hunter_miner.Word.{Digest, Uint256}

-- `loop { ask; if it is there, leave; if the deadline is past, fail; sleep }`.
module _ (j : Json) (node : Node j) where
  unfoldable pub after_poll :
      (j.Value → Bool) → Rpc (Option j.Value) → j.Value → Rpc (Option j.Value)
  after_poll is_there again value sent =
      if is_there value
      then (ok (some value), sent)
      else if node.past_deadline sent
      then (err timed_out, sent)
      else again sent

  unfoldable pub poll : ℕ → Call → (j.Value → Bool) → Rpc (Option j.Value)
  poll zero c is_there = done none
  poll (suc fuel) c is_there = rpc_result j node c >>= after_poll is_there (poll fuel c is_there)

-- A step for a value that the fuel was enough for.
unfoldable pub when_some : {A B : Type 0} → (A → Rpc (Option B)) → Option A → Rpc (Option B)
when_some f none = done none
when_some f (some a) = f a

module _ (k : Keccak) (j : Json) (node : Node j) (reader : Deployment) where
  unfoldable pub wait_for_receipt :
      ℕ → Digest → PreparedSubmission → Rpc (Option TransactionReceipt)
  wait_for_receipt fuel transaction_hash prepared = do
    value ←
        poll j node fuel (hash_call "eth_getTransactionReceipt" transaction_hash)
          (λ v. not (j.is_null v))
    when_some
        (λ v.
          lift (parse_receipt k j v transaction_hash prepared) >>= (λ receipt. done (some receipt)))
        value

  -- The canonical block of a refresh.
  unfoldable pub check_refresh : TransactionReceipt → PreparedSubmission → Rpc (Option (Unit {0}))
  check_refresh receipt prepared =
      if prepared.seed_refresh
      then (do
        number ← lift (in_range (uint256_to_u128 receipt.block_number))
        block ←
            rpc_result j node (
              call "eth_getBlockByNumber" (text_param (lower_hex number) ∷ (flag_param false ∷ [])))
        _ ← lift (check_canonical j block receipt)
        done (some tt))
      else done (some tt)

  unfoldable pub verify_mined_transaction :
      ℕ → Digest → TransactionReceipt → PreparedSubmission → Rpc (Option (Unit {0}))
  verify_mined_transaction fuel transaction_hash receipt prepared = do
    value ← poll j node fuel (hash_call "eth_getTransactionByHash" transaction_hash) (is_included j)
    when_some
        (λ v.
          lift (check_mined_value j v transaction_hash receipt prepared)
          >>= (λ checked_fields. check_refresh receipt prepared))
        value

  unfoldable pub verified_submission :
      ℕ → Digest → PreparedSubmission → TransactionReceipt → Rpc (Option MinedSubmission)
  verified_submission fuel transaction_hash prepared receipt = do
    transaction ← verify_mined_transaction fuel transaction_hash receipt prepared
    when_some
        (λ checked_transaction.
          lift (mined_submission transaction_hash receipt prepared)
          >>= (λ mined. done (some mined)))
        transaction

  -- `wait_for_receipt(..)?`, `verify_mined_transaction(..)?`, `mined_submission(..)`.
  unfoldable pub settle_sent : ℕ → Digest → PreparedSubmission → Rpc (Option MinedSubmission)
  settle_sent fuel transaction_hash prepared = do
    receipt ← wait_for_receipt fuel transaction_hash prepared
    when_some (verified_submission fuel transaction_hash prepared) receipt

  unfoldable pub same_expired : Option (Uint256 × Uint256) → PreparedSubmission → Bool
  same_expired none prepared = false
  same_expired (some (challenge_id, seed_parent_block)) prepared =
      same_bytes challenge_id prepared.challenge_id
      && same_bytes seed_parent_block prepared.seed_parent_block

  unfoldable pub require_current_expired_seed : PreparedSubmission → Rpc (Unit {0})
  require_current_expired_seed prepared = do
    _ ← lift (
        require (matches_deployment reader prepared.transaction.chain_id prepared.transaction.to)
          stale_refresh)
    seed ← expired_seed k j node reader
    lift (require (same_expired seed prepared) stale_refresh)
