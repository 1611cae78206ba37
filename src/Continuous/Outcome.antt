-- ===== src/Continuous/Outcome.antt =====
-- crates/bproof/src/continuous.rs: the state of the loop of `run`, what a round of it reads of the
-- chain, the clock and the operator, and how a failed read or a failed round is handled.
use proof_hunter_miner.Base.{ℕ, Bool, true, false, Option, none, some, leb, if◌then◌else◌}
use proof_hunter_miner.Word.{Uint256, Digest}
use proof_hunter_miner.Proof.{ChallengeInputs}
use proof_hunter_miner.Classification.{NftClassificationSnapshot}
use proof_hunter_miner.Submit.{Prepare, PrepareError, PreparationOutcome}
use proof_hunter_miner.Continuous.{
  LoopCounters, RetryBackoff, take_delay, ChallengeMarker, record_failure, failure_limit,
}
use proof_hunter_miner.Continuous.Send.{SendReplies}

-- The counts of attempts and threads, which the loop only writes out, are left out.
pub data MiningResult : Type 0 where
  mining_found : Uint256 → Digest → MiningResult
  mining_abandoned mining_exhausted : MiningResult

-- What the watcher or the search ended with; the watcher's own `Mining` is that it stopped.
pub data WatchedMining : Type 0 where
  mining : MiningResult → WatchedMining
  challenge_moved : ChallengeMarker → WatchedMining
  rpc_error : WatchedMining

-- The end of `watched_mine`, from the joined watcher and the search; `none` is an error.
unfoldable pub watched_mine : WatchedMining → Option MiningResult → Option WatchedMining
watched_mine (challenge_moved current) searched = some (challenge_moved current)
watched_mine rpc_error searched = some rpc_error
watched_mine (mining halted) searched = elim searched [
  | none ↦ none
  | some result ↦ some (mining result)
]

pub record ClassifiedState : Type 0 where
  pub challenge_inputs : ChallengeInputs
  pub challenge : Digest
  pub nft_classification : Option NftClassificationSnapshot

-- The answers that a round gets. An `Option` that is `none` is a failed read.
pub record Replies (E : Type 0) : Type 0 where
  pub interrupted : Bool
  pub marker : Option ChallengeMarker
  -- `wait_interruptibly` was not interrupted: after a failed read, and between two looks.
  pub retry_waited : Bool
  pub watch_waited : Bool
  -- `reader.expired_seed()` with `prepare_seed_refresh`; an inner `none` is no expired seed.
  pub refresh : Prepare E (Option (PreparationOutcome E))
  pub interrupted_before_send : Bool
  pub state : Option ClassifiedState
  pub watcher : WatchedMining
  pub searched : Option MiningResult
  pub prepared : Prepare E (PreparationOutcome E)
  pub send : SendReplies
  pub marker_after : Option ChallengeMarker
  pub interrupted_after : Bool
  -- `is_rpc_error`, on the error's text.
  pub is_rpc_error : PrepareError E → Bool

pub record Loop : Type 0 where
  pub counters : LoopCounters
  pub backoff : RetryBackoff
  pub journal : Bool

-- `return`, with the summary's reason, or `Err` for an error that `?` passes on.
pub data Ending : Type 0 where
  interrupt mining_ended mining_stopped repeated_failure error : Ending
  fatal_failure : ℕ → Ending

-- The loop goes on, or ends.
pub data Outcome : Type 0 where
  running : Loop → Outcome
  ending : Ending → Loop → Outcome

unfoldable pub exit_code : Ending → Option ℕ
exit_code interrupt = some 0
exit_code mining_ended = some 0
exit_code mining_stopped = some 0
exit_code repeated_failure = some 1
exit_code (fatal_failure code) = some code
exit_code error = none

-- `if !rpc_retry(..)? { return clean_stop(..) }`.
unfoldable pub rpc_retry : Bool → Loop → Outcome
rpc_retry waited l =
    let l' = record l { backoff = (take_delay l.backoff).1 } in
    if waited then running l' else ending interrupt l'

-- `if repeated_failure(..)? { return failed_stop(..) }`.
unfoldable pub fail_round : Loop → Outcome
fail_round l =
    let counted = record_failure l.counters in
    if leb failure_limit counted.consecutive_failures
    then ending repeated_failure (record l { counters = counted })
    else running (record l { counters = counted; backoff = (take_delay l.backoff).1 })

-- `if !wait_interruptibly(request.watch_interval, &shutdown) { return clean_stop(..) }`.
unfoldable pub then_watch : Bool → Outcome → Outcome
then_watch waited (ending e l) = ending e l
then_watch true (running l) = running l
then_watch false (running l) = ending interrupt l

unfoldable pub with_counters : Loop → LoopCounters → Loop
with_counters l counters = record l { counters = counters }
