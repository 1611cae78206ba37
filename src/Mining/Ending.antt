-- ===== src/Mining/Ending.antt =====
-- crates/bproof/src/mining.rs: the end of a run with a cap.
use mathlib.Core.List.{Permᴰ}
use proof_hunter_miner.Base.{
  ℕ, zero, suc, ◌+◌, ◌*◌, ◌≤◌, ◌<◌, ◌≡◌, refl, sym, ap, ◌∙◌, subst, inl, inr, Bool, true, false,
  not, Option, none, some, List, [], ◌∷◌, arith, ◌==◌, >>=-ok, require, if-elim, if-elim-eq,
  ok-injective, Result, ok, err, ◌>>=◌, length, All,
}
use proof_hunter_miner.Keccak.{Keccak}
use proof_hunter_miner.Mining.{advance, worker_search}
use proof_hunter_miner.Mining.Batches.{SearchResult-cases}
use proof_hunter_miner.Mining.Reports.{All-Permᴰ, IsFair}
use proof_hunter_miner.Mining.Budgets.{
  IsCapped, moved-IsCapped, moved-outstanding, outstanding, receive-outstanding,
  receive_one-outstanding,
}
use proof_hunter_miner.Mining.Shares.{positive, start_workers-IsCapped, start_workers-all}
use proof_hunter_miner.Mining.Coordinate.{
  Environment, MineError, MiningTask, Run, Tally, Worker, WorkerReport, after_commands, after_first,
  after_reports, attempts_of, batch_of, best_of, coordinate_batches, is_zero_cap, joined,
  mine_with_control, moved, receive, receive_one, reports_of, searched, start_workers, when_running,
  worker_stopped,
}
use proof_hunter_miner.Proof.{
  ChallengeInputs, PreparedProof, prepare, meets_target, prepared_digest,
}
use proof_hunter_miner.Search.{
  SearchResult, exhausted, found, search_loop, search_nonce, proof_inputs,
}
use proof_hunter_miner.Word.{Address, Digest, Target, Uint256, wrapping_add}

-- A run that has not run out of fuel.
abbrev pub IsDone : Run → Type 0
IsDone (ok none) = ⊥
IsDone (ok (some result)) = Unit
IsDone (err e) = Unit

abbrev IsBusy : WorkerReport → Type 0
IsBusy report = 0 < attempts_of report.result

length-Permᴰ : {A : Type 0} {xs ys : List A} → Permᴰ xs ys → length xs ≡ length ys
length-Permᴰ Permᴰ.nil = refl
length-Permᴰ (Permᴰ.cons e p) = ap suc (length-Permᴰ p)
length-Permᴰ (Permᴰ.swap e f) = refl
length-Permᴰ (Permᴰ.trans p q) = length-Permᴰ p ∙ length-Permᴰ q

module _ (k : Keccak) where
  search_loop_busy :
      (prepared : PreparedProof k) (target : Target) (step : Uint256) (budget left attempt : ℕ)
      (nonce : Uint256)
      → 0 < budget
      → 0 < attempts_of (search_loop k prepared target step budget left attempt nonce)
  unfolding search_loop attempts_of
  search_loop_busy prepared target step budget zero attempt nonce some_left = some_left
  search_loop_busy prepared target step budget (suc left) attempt nonce some_left =
      if-elim (λ (r : SearchResult). 0 < attempts_of r)
        (meets_target (prepared_digest k prepared nonce) target) (omega arith)
        (search_loop_busy prepared target step budget left (attempt + 1) (wrapping_add nonce step)
          some_left)

  search_nonce_busy :
      (inputs : ChallengeInputs) (miner : Address) (target : Target) (start step : Uint256)
      (budget : ℕ)
      → 0 < budget
      → 0 < attempts_of (search_nonce k inputs miner target start step budget)
  unfolding search_nonce
  search_nonce_busy inputs miner target start step budget some_left =
      search_loop_busy (prepare k (proof_inputs k inputs miner start)) target step budget budget 0
        start some_left

  module _ (s : MiningTask) where
    searched_busy : (w : Worker) → 0 < batch_of w.remaining → 0 < attempts_of (searched k s w).0
    unfolding searched worker_search
    searched_busy w some_left =
        let IsMade : SearchResult → Type 0 = λ r. 0 < attempts_of r in
        let busy =
          search_nonce_busy s.challenge_inputs s.miner s.target w.next_nonce s.step
            (batch_of w.remaining) some_left in
        elim (SearchResult-cases (
          search_nonce k s.challenge_inputs s.miner s.target w.next_nonce s.step
            (batch_of w.remaining))) [
              | inl (nonce, digest, attempts, e) ↦
                  let answer : searched k s w ≡ (found nonce digest attempts, w.next_nonce) =
                    rw (searched, worker_search, e) refl in
                  subst (λ (r : SearchResult × Uint256). IsMade r.0) (sym answer)
                    (subst IsMade e busy)
              | inr (attempts, e) ↦
                  let answer : searched k s w
                      ≡ (exhausted attempts, advance attempts s.step w.next_nonce) =
                    rw (searched, worker_search, e) refl in
                  subst (λ (r : SearchResult × Uint256). IsMade r.0) (sym answer)
                    (subst IsMade e busy)
            ]

    reports_of-IsBusy : (ws : List Worker) → All IsBusy (reports_of k s ws)
    unfolding reports_of
    reports_of-IsBusy [] = tt
    reports_of-IsBusy (w ∷ ws) =
        if-elim-eq (All IsBusy) (batch_of w.remaining == 0) (λ _. reports_of-IsBusy ws)
          (λ busy. (searched_busy w (positive _ busy), reports_of-IsBusy ws))

receive_more :
    (reports : List WorkerReport) (t : Tally) {after : Tally}
    → All IsCapped t.workers
    → All IsBusy reports
    → receive reports t ≡ ok after
    → t.total_attempts + length reports ≤ after.total_attempts
unfolding receive
receive_more [] t capped busy e =
    subst (λ (a : Tally). t.total_attempts + 0 ≤ a.total_attempts) (ok-injective e) (omega arith)
receive_more (report ∷ reports) t {after} capped (b, bs) e =
    let (next, e1, e2) = >>=-ok (receive_one report t) _ e in
    let (total, sum, capped') = receive_one-outstanding report t capped e1 in
    let rest = receive_more reports next capped' bs e2 in omega (arith, total, rest, b)

bind-IsDone :
    {A : Type 0} (m : Result MineError A) (f : A → Run)
    → ((a : A) → m ≡ ok a → IsDone (f a))
    → IsDone (m >>= f)
bind-IsDone (ok a) f h = h a refl
bind-IsDone (err e) f h = tt

when_running-IsDone :
    (stopped : Bool) (total : ℕ) (run : Run) → IsDone run → IsDone (when_running stopped total run)
unfolding when_running
when_running-IsDone true total run h = tt
when_running-IsDone false total run h = h

after_reports-IsDone :
    (stopped : Bool) (t : Tally) (winner : Option (Uint256 × Digest)) (again : Tally → Run)
    → IsDone (again t)
    → IsDone (after_reports stopped t winner again)
unfolding after_reports
after_reports-IsDone true t winner again h = tt
after_reports-IsDone false t none again h = h
after_reports-IsDone false t (some (nonce, digest)) again h = tt

joined-IsDone : (panicked : Bool) (run : Run) → IsDone run → IsDone (joined panicked run)
unfolding joined
joined-IsDone true run h = tt
joined-IsDone false run h = h

after_commands-IsDone :
    (env : Environment) (round : ℕ) (reports : List WorkerReport) (t : Tally) (again : Tally → Run)
    → IsFair env
    → All IsCapped t.workers
    → All IsBusy reports
    → ((after : Tally)
        → All IsCapped after.workers
        → outstanding after.workers < outstanding t.workers
        → IsDone (again after))
    → IsDone (after_commands env round reports t again)
unfolding after_commands
after_commands-IsDone env round [] t again fair capped busy later = tt
after_commands-IsDone env round (report ∷ reports) t again fair capped busy later =
    let order = fair round (report ∷ reports) in
    let arrived = env.arrival round (report ∷ reports) in
    bind-IsDone (require (not (env.worker_left round)) worker_stopped) _ (λ u _.
      bind-IsDone (receive arrived t) _ (λ after e.
        let (sum, capped') = receive-outstanding arrived t capped e in
        let more = receive_more arrived t capped (All-Permᴰ IsBusy order busy) e in
        let size : suc (length reports) ≡ length arrived = length-Permᴰ order in
        after_reports-IsDone (env.is_stopped (round * 2 + 3)) after (best_of after.winners) again
          (later after capped' (omega (arith, sum, more, size)))))

module _ (k : Keccak) (s : MiningTask) where
  coordinate_batches-IsDone :
      (env : Environment) (fuel round : ℕ) (ws : List Worker) (total : ℕ)
      → IsFair env
      → All IsCapped ws
      → outstanding ws < fuel
      → IsDone (coordinate_batches k s env fuel round ws total)
  unfolding coordinate_batches
  coordinate_batches-IsDone env zero round ws total fair capped enough =
      absurd (omega (arith, enough))
  coordinate_batches-IsDone env (suc fuel) round ws total fair capped enough =
      let still = moved-outstanding k s ws in
      when_running-IsDone (env.is_stopped (round * 2 + 2)) total _ (
        after_commands-IsDone env round (reports_of k s ws)
          (record { workers = moved k s ws; total_attempts = total; winners = [] }) _ fair
          (moved-IsCapped k s ws capped) (reports_of-IsBusy k s ws)
          (λ t capped' fewer.
            coordinate_batches-IsDone env fuel (round + 1) t.workers t.total_attempts fair capped'
              (omega (arith, fewer, still, enough))))

after_first-IsDone :
    (k : Keccak) (s : MiningTask) (env : Environment) (fuel : ℕ) (start : Uint256)
    (threads total : ℕ) (first : SearchResult)
    → IsFair env
    → 0 < threads
    → 0 < total
    → total ≤ fuel
    → IsDone (after_first k s env fuel start threads (some total) first)
unfolding after_first
after_first-IsDone k s env fuel start threads total (found nonce digest attempts) fair busy pos
      enough =
    when_running-IsDone (env.is_stopped 1) attempts _ tt
after_first-IsDone k s env fuel start threads total (exhausted attempts) fair busy pos enough =
    let all = start_workers-all start threads total busy pos in
    when_running-IsDone (env.is_stopped 1) 1 _ (
      if-elim IsDone env.spawn_fails tt (
        joined-IsDone env.panics _ (
          coordinate_batches-IsDone k s env fuel 0
            (start_workers start threads (some total) 0 threads) 1 fair
            (start_workers-IsCapped start threads total 0 threads) (omega (arith, all, enough)))))

-- A run of `mine_with_control` with a cap on its attempts does not run out of fuel when the fuel
-- is at least the cap, if each round receives the reports that its workers made: every round makes
-- an attempt.
pub mine_with_control_ends :
    (k : Keccak) (env : Environment) (inputs : ChallengeInputs) (miner : Address) (target : Target)
    (start_nonce : Uint256) (threads cap fuel : ℕ)
    → IsFair env
    → cap ≤ fuel
    → IsDone (mine_with_control k env inputs miner target start_nonce threads (some cap) fuel)
unfolding mine_with_control is_zero_cap
mine_with_control_ends k env inputs miner target start threads cap fuel fair enough =
    if-elim-eq IsDone (threads == 0) (λ _. tt)
      (λ busy.
        if-elim-eq IsDone (cap == 0) (λ _. tt)
          (λ pos. when_running-IsDone (env.is_stopped 0) 0 _ (
            after_first-IsDone k _ env fuel start threads cap _ fair (positive threads busy)
              (positive cap pos) enough)))
