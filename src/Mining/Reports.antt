-- ===== src/Mining/Reports.antt =====
-- crates/bproof/src/mining.rs: the reports of a round and their receipt, against the search.
use mathlib.Core.List.{Permᴰ}
use proof_hunter_miner.Base.{
  ℕ, ◌+◌, ◌^◌, ◌≡◌, refl, sym, subst, inl, inr, true, List, [], ◌∷◌, ltb, ◌==◌, >>=-ok, require,
  if-elim, if-elim-eq, ok-injective, Result, ok, All, All-append,
}
use proof_hunter_miner.Keccak.{Keccak}
use proof_hunter_miner.Mining.{advance, worker_search}
use proof_hunter_miner.Mining.Batches.{SearchResult-cases, advance-IsWord}
use proof_hunter_miner.Mining.Coordinate.{
  Environment, MineError, MiningTask, Tally, Worker, WorkerReport, attempts_of, batch_of, knows,
  moved, push_winner, receive, receive_one, reports_of, searched, spend, spend_of,
  too_many_attempts, unknown_worker,
}
use proof_hunter_miner.Proof.{IsChallengeInputs, check_proof, proof_digest}
use proof_hunter_miner.Schedule.{next}
use proof_hunter_miner.Search.{SearchResult, exhausted, found, proof_inputs, search_nonce}
use proof_hunter_miner.Search.First.{search_nonce-FirstHit}
use proof_hunter_miner.Word.{Digest, IsAddress, IsWord, Uint256}

-- The reports of a round arrive in some order, none lost and none made up.
abbrev pub IsFair : Environment → Type 0
IsFair env = (round : ℕ) (reports : List WorkerReport) → Permᴰ reports (env.arrival round reports)

pub All-Permᴰ : {A : Type 0} (P : A → Type 0) {xs ys : List A} → Permᴰ xs ys → All P xs → All P ys
All-Permᴰ P Permᴰ.nil h = h
All-Permᴰ P (Permᴰ.cons e p) (hx, hs) = (subst P e hx, All-Permᴰ P p hs)
All-Permᴰ P (Permᴰ.swap e f) (hx, (hy, hs)) = (subst P f hy, (subst P e hx, hs))
All-Permᴰ P (Permᴰ.trans p q) h = All-Permᴰ P q (All-Permᴰ P p h)

module _ (k : Keccak) (s : MiningTask) where
  -- A nonce that the proof check accepts, with its canonical digest.
  abbrev pub IsProof : Uint256 × Digest → Type 0
  IsProof (nonce, digest) =
      (check_proof k s.challenge_inputs s.miner nonce s.target ≡ true)
      × (digest ≡ proof_digest k (proof_inputs k s.challenge_inputs s.miner nonce))

  abbrev pub IsTrue : SearchResult → Type 0
  IsTrue (found nonce digest attempts) = IsProof (nonce, digest)
  IsTrue (exhausted attempts) = Unit

  abbrev pub IsTrueReport : WorkerReport → Type 0
  IsTrueReport report = IsTrue report.result

  abbrev pub HasWord : Worker → Type 0
  HasWord w = IsWord w.next_nonce

  pub record IsTask : Type 0 where
    pub inputs : IsChallengeInputs s.challenge_inputs
    pub address : IsAddress s.miner
    pub word : IsWord s.step

  pub search-IsTrue :
      (budget : ℕ) (nonce : Uint256)
      → IsTask
      → IsWord nonce
      → IsTrue (search_nonce k s.challenge_inputs s.miner s.target nonce s.step budget)
  search-IsTrue budget nonce task h =
      elim (search_nonce-FirstHit k s.challenge_inputs s.miner s.target nonce s.step budget
        task.inputs task.address h task.word) [
          | inl (i, lt, hit, _, e) ↦ subst IsTrue (sym e) (hit, refl)
          | inr (_, e) ↦ subst IsTrue (sym e) tt
        ]

  searched-IsTrue :
      (w : Worker) → IsTask → HasWord w → IsTrue (searched k s w).0 × IsWord (searched k s w).1
  unfolding searched worker_search
  searched-IsTrue w task h =
      let good = search-IsTrue (batch_of w.remaining) w.next_nonce task h in
      elim (SearchResult-cases (
        search_nonce k s.challenge_inputs s.miner s.target w.next_nonce s.step
          (batch_of w.remaining))) [
            | inl (nonce, digest, attempts, e) ↦
                let answer : searched k s w ≡ (found nonce digest attempts, w.next_nonce) =
                  rw (searched, worker_search, e) refl in
                subst (λ (r : SearchResult × Uint256). IsTrue r.0 × IsWord r.1) (sym answer)
                  (subst IsTrue e good, h)
            | inr (attempts, e) ↦
                let answer : searched k s w
                    ≡ (exhausted attempts, advance attempts s.step w.next_nonce) =
                  rw (searched, worker_search, e) refl in
                subst (λ (r : SearchResult × Uint256). IsTrue r.0 × IsWord r.1) (sym answer)
                  (tt, advance-IsWord attempts s.step w.next_nonce task.word h)
          ]

  pub reports_of-IsTrueReport :
      (ws : List Worker) → IsTask → All HasWord ws → All IsTrueReport (reports_of k s ws)
  unfolding reports_of
  reports_of-IsTrueReport [] task h = tt
  reports_of-IsTrueReport (w ∷ ws) task (hw, hs) =
      if-elim (All IsTrueReport) (batch_of w.remaining == 0) (reports_of-IsTrueReport ws task hs)
        ((searched-IsTrue w task hw).0, reports_of-IsTrueReport ws task hs)

  pub moved-HasWord : (ws : List Worker) → IsTask → All HasWord ws → All HasWord (moved k s ws)
  unfolding moved
  moved-HasWord [] task h = tt
  moved-HasWord (w ∷ ws) task (hw, hs) = (
    if-elim HasWord (batch_of w.remaining == 0) hw (searched-IsTrue w task hw).1,
    moved-HasWord ws task hs,
  )

  push_winner-IsProof :
      (r : SearchResult) (winners : List (Uint256 × Digest))
      → IsTrue r
      → All IsProof winners
      → All IsProof (push_winner r winners)
  unfolding push_winner
  push_winner-IsProof (found nonce digest attempts) winners h hs =
      All-append IsProof winners ((nonce, digest) ∷ []) hs (h, tt)
  push_winner-IsProof (exhausted attempts) winners h hs = hs

  spend_of-HasWord :
      (id attempts : ℕ) (ws : List Worker) {rest : List Worker}
      → All HasWord ws
      → spend_of id attempts ws ≡ ok rest
      → All HasWord rest
  unfolding spend_of
  spend_of-HasWord id attempts [] {rest} h e = subst (All HasWord) (ok-injective e) tt
  spend_of-HasWord id attempts (w ∷ ws) {rest} (hw, hs) e0 =
      if-elim-eq (λ (r : Result MineError (List Worker)). r ≡ ok rest → All HasWord rest)
        (w.worker_id == id)
        (λ _ e.
          let (left, _, e') = >>=-ok (spend attempts w.remaining) _ e in
          subst (All HasWord) (ok-injective e') (hw, hs))
        (λ _ e.
          let (others, e', e'') = >>=-ok (spend_of id attempts ws) _ e in
          subst (All HasWord) (ok-injective e'') (hw, spend_of-HasWord id attempts ws hs e'))
        e0

  abbrev pub IsTrueTally : Tally → Type 0
  IsTrueTally t = All HasWord t.workers × All IsProof t.winners

  receive_one-IsTrueTally :
      (report : WorkerReport) (t : Tally) {after : Tally}
      → IsTrueReport report
      → IsTrueTally t
      → receive_one report t ≡ ok after
      → IsTrueTally after
  unfolding receive_one
  receive_one-IsTrueTally report t hr (hw, hp) e =
      let (u1, _, e1) = >>=-ok (require (knows report.reporter t.workers) unknown_worker) _ e in
      let (u2, _, e2) =
        >>=-ok
          (require (ltb (t.total_attempts + attempts_of report.result) (2 ^ 128)) too_many_attempts)
          _ e1 in
      let (ws, e3, e4) =
        >>=-ok (spend_of report.reporter (attempts_of report.result) t.workers) _ e2 in
      subst IsTrueTally (ok-injective e4) (
        spend_of-HasWord report.reporter (attempts_of report.result) t.workers hw e3,
        push_winner-IsProof report.result t.winners hr hp,
      )

  pub receive-IsTrueTally :
      (reports : List WorkerReport) (t : Tally) {after : Tally}
      → All IsTrueReport reports
      → IsTrueTally t
      → receive reports t ≡ ok after
      → IsTrueTally after
  unfolding receive
  receive-IsTrueTally [] t hr h e = subst IsTrueTally (ok-injective e) h
  receive-IsTrueTally (report ∷ reports) t (hr, hrs) h e =
      let (next, e1, e2) = >>=-ok (receive_one report t) _ e in
      receive-IsTrueTally reports next hrs (receive_one-IsTrueTally report t hr h e1) e2
