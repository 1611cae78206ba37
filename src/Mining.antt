-- ===== src/Mining.antt =====
-- crates/bproof/src/mining.rs: how one search is split between worker threads. Each worker walks a
-- stride of the nonces; the first nonce is tried before any worker starts.
pub mod Stride
pub mod Batches
pub mod Coordinate
pub mod Reports
pub mod Accounting
pub mod Budgets
pub mod Shares
pub mod Capped
pub mod Ending
use proof_hunter_miner.Base.{
  [], ℕ, zero, suc, ◌+◌, ◌-◌, ◌*◌, ◌/◌, List, ◌∷◌, ltb, ◌==◌, if◌then◌else◌,
}
use proof_hunter_miner.Word.{Uint256, Target, Address, wrapping_add, from_u64}
use proof_hunter_miner.Keccak.{Keccak}
use proof_hunter_miner.Proof.{ChallengeInputs}
use proof_hunter_miner.Search.{SearchResult, found, exhausted, search_nonce}

abbrev pub attempt_batch : ℕ
attempt_batch = 16 * 1024

-- The callers pass `total_attempts` above 0 and `threads` above 0.
unfoldable pub worker_budget : ℕ → ℕ → ℕ → ℕ
worker_budget total_attempts threads worker_id =
    let last_index = total_attempts - 1 in
    if worker_id == 0
    then last_index / threads
    else if ltb last_index worker_id
    then 0
    else 1 + (last_index - worker_id) / threads

-- The nonce at which `mine_with_control` starts a worker.
unfoldable pub worker_start : Uint256 → ℕ → ℕ → Uint256
worker_start start_nonce threads worker_id =
    if worker_id == 0
    then wrapping_add start_nonce (from_u64 threads)
    else wrapping_add start_nonce (from_u64 worker_id)

-- `for _ in 0..attempts { next_nonce = next_nonce.wrapping_add(step) }`.
unfoldable pub advance : ℕ → Uint256 → Uint256 → Uint256
advance zero step nonce = nonce
advance (suc attempts) step nonce = advance attempts step (wrapping_add nonce step)

-- One `WorkerCommand::Search(budget)` in `worker_loop`: the report, and the nonce to go on from.
unfoldable pub worker_search :
    Keccak → ChallengeInputs → Address → Target → Uint256 → Uint256 → ℕ → SearchResult × Uint256
worker_search k inputs miner target step next_nonce budget =
    let result = search_nonce k inputs miner target next_nonce step budget in
    elim result [
      | found nonce digest attempts ↦ (found nonce digest attempts, next_nonce)
      | exhausted attempts ↦ (exhausted attempts, advance attempts step next_nonce)
    ]

-- Several `Search` commands in a row, for as long as the batches are exhausted.
unfoldable pub worker_run :
    Keccak → ChallengeInputs → Address → Target → Uint256 → Uint256 → List ℕ → List SearchResult
worker_run k inputs miner target step next_nonce [] = []
worker_run k inputs miner target step next_nonce (budget ∷ budgets) =
    let (result, next) = worker_search k inputs miner target step next_nonce budget in
    let rest = worker_run k inputs miner target step next budgets in
    elim result [
      | found nonce digest attempts ↦ found nonce digest attempts ∷ []
      | exhausted attempts ↦ exhausted attempts ∷ rest
    ]
