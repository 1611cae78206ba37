-- ===== src/Mining/Capped.antt =====
-- crates/bproof/src/mining.rs: the attempts of a whole run with a cap.
use proof_hunter_miner.Base.{
  ℕ, zero, suc, ◌+◌, ◌*◌, ◌≤◌, ◌<◌, ◌≡◌, refl, ◌∙◌, Bool, true, false, not, some, List, [], ◌∷◌,
  arith, ◌==◌, ==_iff, require, if-elim, if-elim-eq, All,
}
use proof_hunter_miner.Keccak.{Keccak}
use proof_hunter_miner.Mining.Budgets.{
  IsCapped, IsCounted, after_reports-IsCounted, bind-IsCounted, idle-outstanding, moved-IsCapped,
  moved-outstanding, outstanding, receive-outstanding, when_running-IsCounted,
}
use proof_hunter_miner.Mining.Shares.{positive, start_workers-IsCapped, start_workers-all}
use proof_hunter_miner.Mining.Coordinate.{
  Environment, MiningTask, Run, Tally, Worker, WorkerReport, after_commands, after_first, best_of,
  coordinate_batches, is_zero_cap, joined, mine_with_control, moved, receive, reports_of,
  start_workers, worker_stopped,
}
use proof_hunter_miner.Proof.{ChallengeInputs, meets_target, prepare, prepared_digest}
use proof_hunter_miner.Search.{
  SearchResult, proof_inputs, exhausted, found, search_loop, search_nonce,
}
use proof_hunter_miner.Word.{Address, Target, Uint256}

module _ (k : Keccak) (s : MiningTask) where
  after_commands-IsCounted :
      (env : Environment) (round : ℕ) (reports : List WorkerReport) (t : Tally) (cap : ℕ)
      (again : Tally → Run)
      → All IsCapped t.workers
      → t.total_attempts + outstanding t.workers ≡ cap
      → (reports ≡ [] → outstanding t.workers ≡ 0)
      → ((after : Tally)
          → All IsCapped after.workers
          → after.total_attempts + outstanding after.workers ≡ cap
          → IsCounted cap (again after))
      → IsCounted cap (after_commands env round reports t again)
  unfolding after_commands
  after_commands-IsCounted env round [] t cap again capped sum idle later =
      let z = idle refl in omega (arith, sum, z)
  after_commands-IsCounted env round (report ∷ reports) t cap again capped sum idle later =
      bind-IsCounted cap (require (not (env.worker_left round)) worker_stopped) _ (λ u _.
        bind-IsCounted cap (receive (env.arrival round (report ∷ reports)) t) _ (λ after e.
          let (same, capped') =
            receive-outstanding (env.arrival round (report ∷ reports)) t capped e in
          let total = same ∙ sum in
          after_reports-IsCounted (env.is_stopped (round * 2 + 3)) after cap (best_of after.winners)
            again (omega (arith, total)) (later after capped' total)))

  coordinate_batches-IsCounted :
      (env : Environment) (fuel round : ℕ) (ws : List Worker) (total cap : ℕ)
      → All IsCapped ws
      → total + outstanding ws ≡ cap
      → IsCounted cap (coordinate_batches k s env fuel round ws total)
  unfolding coordinate_batches
  coordinate_batches-IsCounted env zero round ws total cap capped sum = tt
  coordinate_batches-IsCounted env (suc fuel) round ws total cap capped sum =
      let still = moved-outstanding k s ws in
      when_running-IsCounted (env.is_stopped (round * 2 + 2)) total cap _ (omega (arith, sum)) (
        after_commands-IsCounted env round (reports_of k s ws)
          (record { workers = moved k s ws; total_attempts = total; winners = [] }) cap _
          (moved-IsCapped k s ws capped) (omega (arith, sum, still))
          (λ e. still ∙ idle-outstanding k s ws capped e)
          (λ t capped' sum'.
            coordinate_batches-IsCounted env fuel (round + 1) t.workers t.total_attempts cap capped'
              sum'))

below_cap : (attempts total : ℕ) → attempts ≤ 1 → 0 < total → attempts ≤ total
below_cap attempts total h pos = omega arith

abbrev IsOnce : SearchResult → Type 0
IsOnce (found nonce digest attempts) = attempts ≤ 1
IsOnce (exhausted attempts) = Unit

search_nonce-IsOnce :
    (k : Keccak) (inputs : ChallengeInputs) (miner : Address) (target : Target)
    (start step : Uint256)
    → IsOnce (search_nonce k inputs miner target start step 1)
unfolding search_nonce search_loop
search_nonce-IsOnce k inputs miner target start step =
    let digest = prepared_digest k (prepare k (proof_inputs k inputs miner start)) start in
    if-elim IsOnce (meets_target digest target) (omega arith) tt

joined-IsCounted :
    (panicked : Bool) (cap : ℕ) (run : Run)
    → IsCounted cap run
    → IsCounted cap (joined panicked run)
unfolding joined
joined-IsCounted true cap run h = tt
joined-IsCounted false cap run h = h

after_first-IsCounted :
    (k : Keccak) (s : MiningTask) (env : Environment) (fuel : ℕ) (start : Uint256)
    (threads total : ℕ) (first : SearchResult)
    → 0 < threads
    → 0 < total
    → IsOnce first
    → IsCounted total (after_first k s env fuel start threads (some total) first)
unfolding after_first
after_first-IsCounted k s env fuel start threads total (found nonce digest attempts) busy pos once =
    when_running-IsCounted (env.is_stopped 1) attempts total _ (below_cap attempts total once pos)
      (below_cap attempts total once pos)
after_first-IsCounted k s env fuel start threads total (exhausted attempts) busy pos once =
    when_running-IsCounted (env.is_stopped 1) 1 total _ pos (
      if-elim (IsCounted total) env.spawn_fails tt (
        joined-IsCounted env.panics total _ (
          coordinate_batches-IsCounted k s env fuel 0
            (start_workers start threads (some total) 0 threads) 1 total
            (start_workers-IsCapped start threads total 0 threads)
            (start_workers-all start threads total busy pos))))

-- Whatever the threads do, a run of `mine_with_control` with a cap that reports exhaustion has
-- made exactly the attempts of the cap, and one that reports a proof or is abandoned has made no
-- more: the budgets of the workers add up to what the first attempt leaves.
pub mine_with_control-IsCounted :
    (k : Keccak) (env : Environment) (inputs : ChallengeInputs) (miner : Address) (target : Target)
    (start_nonce : Uint256) (threads cap fuel : ℕ)
    → IsCounted cap
        (mine_with_control k env inputs miner target start_nonce threads (some cap) fuel)
unfolding mine_with_control is_zero_cap
mine_with_control-IsCounted k env inputs miner target start threads cap fuel =
    if-elim-eq (IsCounted cap) (threads == 0) (λ _. tt)
      (λ busy.
        if-elim-eq (IsCounted cap) (cap == 0)
          (λ z. let z' = (==_iff cap 0).0 z in omega (arith, z'))
          (λ pos. when_running-IsCounted (env.is_stopped 0) 0 cap _ (omega arith) (
            after_first-IsCounted k _ env fuel start threads cap _ (positive threads busy)
              (positive cap pos) (search_nonce-IsOnce k inputs miner target start _))))
