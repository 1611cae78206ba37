-- ===== src/Mining/Accounting.antt =====
-- crates/bproof/src/mining.rs: what a run of the coordinator reports as found.
use proof_hunter_miner.Base.{
  ℕ, zero, suc, ◌+◌, ◌*◌, ◌≡◌, refl, subst, Bool, true, false, not, Option, none, some, List, [],
  ◌∷◌, ◌==◌, if◌then◌else◌, require, if-elim, Option-elim, Result, ok, err, ◌>>=◌, All,
}
use proof_hunter_miner.Bytes.{bytes_ltb}
use proof_hunter_miner.Continuous.Round.{round}
use proof_hunter_miner.Keccak.{Keccak}
use proof_hunter_miner.Mining.{worker_start}
use proof_hunter_miner.Mining.Batches.{total}
use proof_hunter_miner.Mining.Reports.{
  HasWord, IsFair, IsProof, IsTask, IsTrue, IsTrueReport, IsTrueTally, moved-HasWord,
  receive-IsTrueTally, reports_of-IsTrueReport, search-IsTrue, All-Permᴰ,
}
use proof_hunter_miner.Mining.Coordinate.{
  Environment, MineError, MiningTask, Run, Tally, Worker, WorkerReport, add_worker, after_commands,
  after_first, after_reports, best_of, coordinate_batches, is_zero_cap, joined, least,
  mine_with_control, receive, reports_of, run_abandoned, run_exhausted, run_found, start_workers,
  when_running, worker_stopped,
}
use proof_hunter_miner.Proof.{ChallengeInputs, IsChallengeInputs, check_proof, proof_digest}
use proof_hunter_miner.Search.{SearchResult, exhausted, found, proof_inputs}
use proof_hunter_miner.Word.{
  Address, Digest, IsAddress, IsWord, Target, Uint256, from_u64, from_u64-IsWord, wrapping_add-mod,
}

module _ (k : Keccak) (s : MiningTask) where
  -- What a run may report: an error or an end without a winner, or a winner that is a proof.
  abbrev pub IsTrueRun : Run → Type 0
  IsTrueRun (ok (some (run_found nonce digest attempts))) = IsProof k s (nonce, digest)
  IsTrueRun (ok (some (run_exhausted attempts))) = Unit
  IsTrueRun (ok (some (run_abandoned attempts))) = Unit
  IsTrueRun (ok none) = Unit
  IsTrueRun (err e) = Unit

  least-IsProof :
      (best : Uint256 × Digest) (winners : List (Uint256 × Digest))
      → IsProof k s best
      → All (IsProof k s) winners
      → IsProof k s (least best winners)
  unfolding least
  least-IsProof best [] h hs = h
  least-IsProof best (winner ∷ winners) h (hw, hs) =
      least-IsProof (if bytes_ltb winner.0 best.0 then winner else best) winners
        (if-elim (IsProof k s) (bytes_ltb winner.0 best.0) hw h) hs

  after_reports-IsTrueRun :
      (stopped : Bool) (t : Tally) (winners : List (Uint256 × Digest)) (again : Tally → Run)
      → All (IsProof k s) winners
      → IsTrueRun (again t)
      → IsTrueRun (after_reports stopped t (best_of winners) again)
  unfolding after_reports best_of
  after_reports-IsTrueRun true t winners again h later = tt
  after_reports-IsTrueRun false t [] again h later = later
  after_reports-IsTrueRun false t (winner ∷ winners) again (hw, hs) later =
      least-IsProof winner winners hw hs

  when_running-IsTrueRun :
      (stopped : Bool) (total : ℕ) (run : Run)
      → IsTrueRun run
      → IsTrueRun (when_running stopped total run)
  unfolding when_running
  when_running-IsTrueRun true total run h = tt
  when_running-IsTrueRun false total run h = h

  bind-IsTrueRun :
      {A : Type 0} (m : Result MineError A) (f : A → Run)
      → ((a : A) → m ≡ ok a → IsTrueRun (f a))
      → IsTrueRun (m >>= f)
  bind-IsTrueRun (ok a) f h = h a refl
  bind-IsTrueRun (err e) f h = tt

  after_commands-IsTrueRun :
      (env : Environment) (round : ℕ) (reports : List WorkerReport) (t : Tally)
      (again : Tally → Run)
      → IsFair env
      → All (IsTrueReport k s) reports
      → IsTrueTally k s t
      → ((after : Tally) → All (HasWord k s) after.workers → IsTrueRun (again after))
      → IsTrueRun (after_commands env round reports t again)
  unfolding after_commands
  after_commands-IsTrueRun env round [] t again fair hr h later = tt
  after_commands-IsTrueRun env round (report ∷ reports) t again fair hr h later =
      bind-IsTrueRun (require (not (env.worker_left round)) worker_stopped) _ (λ u _.
        bind-IsTrueRun (receive (env.arrival round (report ∷ reports)) t) _ (λ after e.
          let (hw, hp) =
            receive-IsTrueTally k s (env.arrival round (report ∷ reports)) t
              (All-Permᴰ (IsTrueReport k s) (fair round (report ∷ reports)) hr) h e in
          after_reports-IsTrueRun (env.is_stopped (round * 2 + 3)) after after.winners again hp
            (later after hw)))

  coordinate_batches-IsTrueRun :
      (env : Environment) (fuel round : ℕ) (ws : List Worker) (total : ℕ)
      → IsFair env
      → IsTask k s
      → All (HasWord k s) ws
      → IsTrueRun (coordinate_batches k s env fuel round ws total)
  unfolding coordinate_batches
  coordinate_batches-IsTrueRun env zero round ws total fair task h = tt
  coordinate_batches-IsTrueRun env (suc fuel) round ws total fair task h =
      when_running-IsTrueRun (env.is_stopped (round * 2 + 2)) total _ (
        after_commands-IsTrueRun env round (reports_of k s ws) _ _ fair
          (reports_of-IsTrueReport k s ws task h) (moved-HasWord k s ws task h, tt)
          (λ t hw.
            coordinate_batches-IsTrueRun env fuel (round + 1) t.workers t.total_attempts fair task
              hw))

worker_start-IsWord :
    (start : Uint256) (threads worker_id : ℕ)
    → IsWord start
    → IsWord (worker_start start threads worker_id)
unfolding worker_start
worker_start-IsWord start threads worker_id h =
    if-elim IsWord (worker_id == 0)
      (wrapping_add-mod start (from_u64 threads) h (from_u64-IsWord threads)).1
      (wrapping_add-mod start (from_u64 worker_id) h (from_u64-IsWord worker_id)).1

module _ (k : Keccak) (s : MiningTask) where
  add_worker-HasWord :
      (w : Worker) (ws : List Worker)
      → HasWord k s w
      → All (HasWord k s) ws
      → All (HasWord k s) (add_worker w ws)
  unfolding add_worker
  add_worker-HasWord w ws hw hs =
      Option-elim (All (HasWord k s)) w.remaining (λ _. (hw, hs))
        (λ remaining _. if-elim (All (HasWord k s)) (remaining == 0) hs (hw, hs))

  start_workers-HasWord :
      (start : Uint256) (threads : ℕ) (cap : Option ℕ) (id more : ℕ)
      → IsWord start
      → All (HasWord k s) (start_workers start threads cap id more)
  unfolding start_workers
  start_workers-HasWord start threads cap id zero h = tt
  start_workers-HasWord start threads cap id (suc more) h =
      add_worker-HasWord _ _ (worker_start-IsWord start threads id h)
        (start_workers-HasWord start threads cap (id + 1) more h)

  joined-IsTrueRun :
      (panicked : Bool) (run : Run) → IsTrueRun k s run → IsTrueRun k s (joined panicked run)
  unfolding joined
  joined-IsTrueRun true run h = tt
  joined-IsTrueRun false run h = h

  after_first-IsTrueRun :
      (env : Environment) (fuel : ℕ) (start : Uint256) (threads : ℕ) (cap : Option ℕ)
      (first : SearchResult)
      → IsFair env
      → IsTask k s
      → IsWord start
      → IsTrue k s first
      → IsTrueRun k s (after_first k s env fuel start threads cap first)
  unfolding after_first
  after_first-IsTrueRun env fuel start threads cap (found nonce digest attempts) fair task h good =
      when_running-IsTrueRun k s (env.is_stopped 1) attempts _ good
  after_first-IsTrueRun env fuel start threads cap (exhausted attempts) fair task h good =
      when_running-IsTrueRun k s (env.is_stopped 1) 1 _ (
        if-elim (IsTrueRun k s) env.spawn_fails tt (
          joined-IsTrueRun env.panics _ (
            coordinate_batches-IsTrueRun k s env fuel 0 (start_workers start threads cap 0 threads)
              1 fair task (start_workers-HasWord start threads cap 0 threads h))))

-- However the threads interleave, as long as the reports of a round are the ones that its workers
-- made: for inputs of the field types, what `mine_with_control` reports as found is a nonce that
-- the proof check accepts, with its canonical digest.
pub mine_with_control_found :
    (k : Keccak) (env : Environment) (inputs : ChallengeInputs) (miner : Address) (target : Target)
    (start_nonce : Uint256) (threads : ℕ) (max_attempts : Option ℕ) (fuel : ℕ) (nonce : Uint256)
    (digest : Digest) (attempts : ℕ)
    → IsFair env
    → IsChallengeInputs inputs
    → IsAddress miner
    → IsWord start_nonce
    → mine_with_control k env inputs miner target start_nonce threads max_attempts fuel
      ≡ ok (some (run_found nonce digest attempts))
    → (check_proof k inputs miner nonce target ≡ true)
      × (digest ≡ proof_digest k (proof_inputs k inputs miner nonce))
unfolding mine_with_control
mine_with_control_found k env inputs miner target start threads cap fuel nonce digest attempts fair
      hi hm hs e =
    let task : MiningTask = record {
      challenge_inputs = inputs;
      miner = miner;
      target = target;
      step = from_u64 threads;
    } in
    let good : IsTask k task = record {
      inputs = hi;
      address = hm;
      word = from_u64-IsWord threads;
    } in
    subst (IsTrueRun k task) e (
      if-elim (IsTrueRun k task) (threads == 0) tt (
        if-elim (IsTrueRun k task) (is_zero_cap cap) tt (
          when_running-IsTrueRun k task (env.is_stopped 0) 0 _ (
            after_first-IsTrueRun k task env fuel start threads cap _ fair good hs
              (search-IsTrue k task 1 start good hs)))))
