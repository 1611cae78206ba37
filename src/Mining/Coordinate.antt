-- ===== src/Mining/Coordinate.antt =====
-- crates/bproof/src/mining.rs: `mine_with_control` and the rounds of `coordinate_batches`. What the
-- threads and the channels decide is an environment: the readings of the stop flag, the order in
-- which the reports of a round arrive, and whether a worker leaves before it takes its command.
use proof_hunter_miner.Base.{
  ℕ, zero, suc, ◌+◌, ◌-◌, ◌*◌, ◌^◌, min, Bool, true, false, not, ◌||◌, Option, none, some, List, [],
  ◌∷◌, ◌++◌, ltb, leb, ◌==◌, if◌then◌else◌, require, Result, ok, err, ◌>>=◌,
}
use proof_hunter_miner.Bytes.{bytes_ltb}
use proof_hunter_miner.Continuous.Round.{round}
use proof_hunter_miner.Keccak.{Keccak}
use proof_hunter_miner.Mining.{attempt_batch, worker_budget, worker_search, worker_start}
use proof_hunter_miner.Mining.Batches.{total}
use proof_hunter_miner.Proof.{ChallengeInputs}
use proof_hunter_miner.Schedule.{next}
use proof_hunter_miner.Search.{SearchResult, exhausted, found, search_nonce}
use proof_hunter_miner.Word.{Address, Digest, Target, Uint256, from_u64}

-- A `WorkerSlot` with the nonce that its thread goes on from.
pub record Worker : Type 0 where
  pub worker_id : ℕ
  pub remaining : Option ℕ
  pub next_nonce : Uint256

pub record WorkerReport : Type 0 where
  pub reporter : ℕ
  pub result : SearchResult

-- `MiningResult`, less the configured thread count that it repeats.
pub data RunResult : Type 0 where
  run_found : Uint256 → Digest → ℕ → RunResult
  run_exhausted run_abandoned : ℕ → RunResult

pub data MineError : Type 0 where
  no_threads worker_stopped unknown_worker too_many_attempts budget_exceeded : MineError
  spawn_failed worker_panicked : MineError

pub record Environment : Type 0 where
  -- The readings of the stop flag by `mine_with_control` and its coordinator, in their order.
  pub is_stopped : ℕ → Bool
  -- In a round, a worker that has seen the flag is gone when its command is sent or awaited.
  pub worker_left : ℕ → Bool
  pub arrival : ℕ → List WorkerReport → List WorkerReport
  pub spawn_fails : Bool
  pub panics : Bool

pub record MiningTask : Type 0 where
  pub challenge_inputs : ChallengeInputs
  pub miner : Address
  pub target : Target
  pub step : Uint256

unfoldable pub batch_of : Option ℕ → ℕ
batch_of none = attempt_batch
batch_of (some remaining) = min remaining attempt_batch

module _ (k : Keccak) (s : MiningTask) where
  -- What a worker does with one command: its report, and the worker afterwards.
  unfoldable pub searched : Worker → SearchResult × Uint256
  searched w =
      worker_search k s.challenge_inputs s.miner s.target s.step w.next_nonce (batch_of w.remaining)

  -- `active_workers`, as the reports that they make.
  unfoldable pub reports_of : List Worker → List WorkerReport
  reports_of [] = []
  reports_of (w ∷ ws) =
      let rest = reports_of ws in
      if batch_of w.remaining == 0
      then rest
      else record { reporter = w.worker_id; result = (searched w).0 } ∷ rest

  unfoldable pub moved : List Worker → List Worker
  moved [] = []
  moved (w ∷ ws) =
      (if batch_of w.remaining == 0 then w else record w { next_nonce = (searched w).1 }) ∷ moved ws

unfoldable pub attempts_of : SearchResult → ℕ
attempts_of (found nonce digest attempts) = attempts
attempts_of (exhausted attempts) = attempts

-- `winners.push((nonce, digest))`.
unfoldable pub push_winner : SearchResult → List (Uint256 × Digest) → List (Uint256 × Digest)
push_winner (found nonce digest attempts) winners = winners ++ ((nonce, digest) ∷ [])
push_winner (exhausted attempts) winners = winners

unfoldable pub spend : ℕ → Option ℕ → Result MineError (Option ℕ)
spend attempts none = ok none
spend attempts (some remaining) =
    if leb attempts remaining then ok (some (remaining - attempts)) else err budget_exceeded

unfoldable pub knows : ℕ → List Worker → Bool
knows id [] = false
knows id (w ∷ ws) = w.worker_id == id || knows id ws

-- `find`, and the `checked_sub` of the worker that is found.
unfoldable pub spend_of : ℕ → ℕ → List Worker → Result MineError (List Worker)
spend_of id attempts [] = ok []
spend_of id attempts (w ∷ ws) =
    if w.worker_id == id
    then (do remaining ← spend attempts w.remaining; ok (record w { remaining = remaining } ∷ ws))
    else (do rest ← spend_of id attempts ws; ok (w ∷ rest))

-- What the coordinator carries through the reports of a round.
pub record Tally : Type 0 where
  pub workers : List Worker
  pub total_attempts : ℕ
  pub winners : List (Uint256 × Digest)

unfoldable pub receive_one : WorkerReport → Tally → Result MineError Tally
receive_one report t = do
  _ ← require (knows report.reporter t.workers) unknown_worker
  _ ← require (ltb (t.total_attempts + attempts_of report.result) (2 ^ 128)) too_many_attempts
  workers ← spend_of report.reporter (attempts_of report.result) t.workers
  ok (record {
    workers = workers;
    total_attempts = t.total_attempts + attempts_of report.result;
    winners = push_winner report.result t.winners;
  })

unfoldable pub receive : List WorkerReport → Tally → Result MineError Tally
receive [] t = ok t
receive (report ∷ reports) t = do next ← receive_one report t; receive reports next

-- `min_by_key(|winner| winner.0)`: the first of the least.
unfoldable pub least : Uint256 × Digest → List (Uint256 × Digest) → Uint256 × Digest
least best [] = best
least best (winner ∷ winners) = least (if bytes_ltb winner.0 best.0 then winner else best) winners

unfoldable pub best_of : List (Uint256 × Digest) → Option (Uint256 × Digest)
best_of [] = none
best_of (winner ∷ winners) = some (least winner winners)

-- `none`: the fuel ran out.
abbrev pub Run : Type 0
Run = Result MineError (Option RunResult)

-- The end of a round: it is abandoned, it has a winner, or the next one follows.
unfoldable pub after_reports : Bool → Tally → Option (Uint256 × Digest) → (Tally → Run) → Run
after_reports true t winner again = ok (some (run_abandoned t.total_attempts))
after_reports false t none again = again t
after_reports false t (some (nonce, digest)) again =
    ok (some (run_found nonce digest t.total_attempts))

-- A round after its first reading of the flag, by the reports that its active workers make.
unfoldable pub after_commands : Environment → ℕ → List WorkerReport → Tally → (Tally → Run) → Run
after_commands env round [] t again = ok (some (run_exhausted t.total_attempts))
after_commands env round (report ∷ reports) t again = do
  _ ← require (not (env.worker_left round)) worker_stopped
  after ← receive (env.arrival round (report ∷ reports)) t
  after_reports (env.is_stopped (round * 2 + 3)) after (best_of after.winners) again

unfoldable pub when_running : Bool → ℕ → Run → Run
when_running true total run = ok (some (run_abandoned total))
when_running false total run = run

-- A round reads the flag twice, after the two readings of `mine_with_control`.
unfoldable pub coordinate_batches :
    Keccak → MiningTask → Environment → ℕ → ℕ → List Worker → ℕ → Run
coordinate_batches k s env zero round workers total = ok none
coordinate_batches k s env (suc fuel) round workers total =
    when_running (env.is_stopped (round * 2 + 2)) total (
      after_commands env round (reports_of k s workers)
        (record { workers = moved k s workers; total_attempts = total; winners = [] })
        (λ t. coordinate_batches k s env fuel (round + 1) t.workers t.total_attempts))

abbrev pub budget_of : Option ℕ → ℕ → ℕ → Option ℕ
budget_of none threads worker_id = none
budget_of (some total) threads worker_id = some (worker_budget total threads worker_id)

-- `if remaining == Some(0) { continue }`.
unfoldable pub add_worker : Worker → List Worker → List Worker
add_worker w ws = elim w.remaining [
  | none ↦ w ∷ ws
  | some remaining ↦ if remaining == 0 then ws else w ∷ ws
]

-- `for worker_id in 0..threads`, from an index on and for so many workers.
unfoldable pub start_workers : Uint256 → ℕ → Option ℕ → ℕ → ℕ → List Worker
start_workers start_nonce threads max_attempts worker_id zero = []
start_workers start_nonce threads max_attempts worker_id (suc more) =
    add_worker
      (record {
        worker_id = worker_id;
        remaining = budget_of max_attempts threads worker_id;
        next_nonce = worker_start start_nonce threads worker_id;
      })
      (start_workers start_nonce threads max_attempts (worker_id + 1) more)

unfoldable pub joined : Bool → Run → Run
joined true run = err worker_panicked
joined false run = run

-- After the search of the first nonce, by its result.
unfoldable pub after_first :
    Keccak → MiningTask → Environment → ℕ → Uint256 → ℕ → Option ℕ → SearchResult → Run
after_first k s env fuel start_nonce threads max_attempts (found nonce digest attempts) =
    when_running (env.is_stopped 1) attempts (ok (some (run_found nonce digest attempts)))
after_first k s env fuel start_nonce threads max_attempts (exhausted attempts) =
    when_running (env.is_stopped 1) 1 (
      if env.spawn_fails
      then err spawn_failed
      else joined env.panics (
          coordinate_batches k s env fuel 0
            (start_workers start_nonce threads max_attempts 0 threads) 1))

unfoldable pub is_zero_cap : Option ℕ → Bool
is_zero_cap none = false
is_zero_cap (some cap) = cap == 0

unfoldable pub mine_with_control :
    Keccak → Environment → ChallengeInputs → Address → Target → Uint256 → ℕ → Option ℕ → ℕ → Run
mine_with_control k env inputs miner target start_nonce threads max_attempts fuel =
    if threads == 0
    then err no_threads
    else if is_zero_cap max_attempts
    then ok (some (run_exhausted 0))
    else when_running (env.is_stopped 0) 0 (
        after_first k
          (record {
            challenge_inputs = inputs;
            miner = miner;
            target = target;
            step = from_u64 threads;
          })
          env fuel start_nonce threads max_attempts
          (search_nonce k inputs miner target start_nonce (from_u64 threads) 1))
