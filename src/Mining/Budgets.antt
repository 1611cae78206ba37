-- ===== src/Mining/Budgets.antt =====
-- crates/bproof/src/mining.rs: the attempts of a round, and what the workers have left of a cap.
use proof_hunter_miner.Base.{
  ℕ, ◌+◌, ◌-◌, ◌^◌, ◌≤◌, min, ◌≡◌, refl, sym, ap, ◌∙◌, subst, inl, inr, Bool, true, false, ◌||◌,
  Option, none, some, List, [], ◌∷◌, arith, ltb, leb, ◌==◌, if◌then◌else◌, leb→le, ==_iff,
  Bool-cases, >>=-ok, require, require-ok, if-elim-eq, ok-injective, Result, ok, err, ◌>>=◌, All,
}
use proof_hunter_miner.Keccak.{Keccak}
use proof_hunter_miner.Mining.{attempt_batch}
use proof_hunter_miner.Mining.Batches.{total}
use proof_hunter_miner.Mining.Coordinate.{
  MineError, MiningTask, Run, Tally, Worker, WorkerReport, after_reports, attempts_of, batch_of,
  knows, moved, receive, receive_one, reports_of, run_abandoned, run_exhausted, run_found, searched,
  spend, spend_of, too_many_attempts, unknown_worker, when_running,
}
use proof_hunter_miner.Schedule.{next}
use proof_hunter_miner.Schedule.Supply.{sum}
use proof_hunter_miner.Word.{Digest, Uint256}

abbrev pub left_of : Option ℕ → ℕ
left_of none = 0
left_of (some remaining) = remaining

-- The attempts that the workers have left.
unfoldable pub outstanding : List Worker → ℕ
outstanding [] = 0
outstanding (w ∷ ws) = left_of w.remaining + outstanding ws

abbrev pub IsCapped : Worker → Type 0
IsCapped w = (n : ℕ) × (w.remaining ≡ some n)

-- What a run with so many attempts in all may report.
abbrev pub IsCounted : ℕ → Run → Type 0
IsCounted cap (ok (some (run_found nonce digest attempts))) = attempts ≤ cap
IsCounted cap (ok (some (run_exhausted attempts))) = attempts ≡ cap
IsCounted cap (ok (some (run_abandoned attempts))) = attempts ≤ cap
IsCounted cap (ok none) = Unit
IsCounted cap (err e) = Unit

spend-ok :
    (attempts : ℕ) (n : ℕ) {rest : Option ℕ}
    → spend attempts (some n) ≡ ok rest
    → (m : ℕ) × (rest ≡ some m) × (attempts + m ≡ n)
unfolding spend
spend-ok attempts n {rest} =
    if-elim-eq
      (λ (r : Result MineError (Option ℕ)).
        r ≡ ok rest → (m : ℕ) × (rest ≡ some m) × (attempts + m ≡ n))
      (leb attempts n)
      (λ fits e.
        let le = leb→le attempts n fits in (n - attempts, sym (ok-injective e), omega arith))
      (λ _ e. absurd cc)

if-true : {A : Type 0} {b : Bool} (x y : A) {z : A} → b ≡ true → (if b then x else y) ≡ z → x ≡ z
if-true {b = true} x y t e = e
if-true {b = false} x y t e = absurd cc

if-false : {A : Type 0} {b : Bool} (x y : A) {z : A} → b ≡ false → (if b then x else y) ≡ z → y ≡ z
if-false {b = true} x y t e = absurd cc
if-false {b = false} x y t e = e

or_false : {a b : Bool} → a ≡ false → (a || b) ≡ true → b ≡ true
or_false {a = true} f h = absurd cc
or_false {a = false} f h = h

-- A worker that is known pays its attempts out of what is left.
spend_of-outstanding :
    (id attempts : ℕ) (ws : List Worker) {rest : List Worker}
    → knows id ws ≡ true
    → All IsCapped ws
    → spend_of id attempts ws ≡ ok rest
    → (attempts + outstanding rest ≡ outstanding ws) × All IsCapped rest
unfolding spend_of knows outstanding
spend_of-outstanding id attempts [] known capped e = absurd cc
spend_of-outstanding id attempts (w ∷ ws) {rest} known ((n, is_n), capped) e =
    elim (Bool-cases (w.worker_id == id)) [
      | inl own ↦
          let e' = if-true _ _ own e in
          let (left, spent, e'') = >>=-ok (spend attempts w.remaining) _ e' in
          let (m, is_m, sum) =
            spend-ok attempts n (subst (λ (o : Option ℕ). spend attempts o ≡ ok left) is_n spent) in
          let l1 : left_of left ≡ m = ap left_of is_m in
          let l2 : left_of w.remaining ≡ n = ap left_of is_n in
          subst
            (λ (t : List Worker).
              (attempts + outstanding t ≡ outstanding (w ∷ ws)) × All IsCapped t)
            (ok-injective e'') (omega arith, ((m, is_m), capped))
      | inr other ↦
          let e' = if-false _ _ other e in
          let (others, e1, e2) = >>=-ok (spend_of id attempts ws) _ e' in
          let (sum, capped') =
            spend_of-outstanding id attempts ws (or_false other known) capped e1 in
          subst
            (λ (t : List Worker).
              (attempts + outstanding t ≡ outstanding (w ∷ ws)) × All IsCapped t)
            (ok-injective e2) (omega (arith, sum), ((n, is_n), capped'))
    ]

pub receive_one-outstanding :
    (report : WorkerReport) (t : Tally) {after : Tally}
    → All IsCapped t.workers
    → receive_one report t ≡ ok after
    → (after.total_attempts ≡ t.total_attempts + attempts_of report.result)
      × (attempts_of report.result + outstanding after.workers ≡ outstanding t.workers)
      × All IsCapped after.workers
unfolding receive_one
receive_one-outstanding report t {after} capped e =
    let n = attempts_of report.result in
    let (u1, known, e1) = >>=-ok (require (knows report.reporter t.workers) unknown_worker) _ e in
    let (u2, _, e2) =
      >>=-ok (require (ltb (t.total_attempts + n) (2 ^ 128)) too_many_attempts) _ e1 in
    let (ws, e3, e4) = >>=-ok (spend_of report.reporter n t.workers) _ e2 in
    let (sum, capped') =
      spend_of-outstanding report.reporter n t.workers (require-ok _ unknown_worker known) capped
        e3 in
    subst
      (λ (a : Tally).
        (a.total_attempts ≡ t.total_attempts + n)
        × (n + outstanding a.workers ≡ outstanding t.workers)
        × All IsCapped a.workers)
      (ok-injective e4) (refl, sum, capped')

-- Whatever the reports are, the attempts made and the attempts left have the same sum afterwards.
pub receive-outstanding :
    (reports : List WorkerReport) (t : Tally) {after : Tally}
    → All IsCapped t.workers
    → receive reports t ≡ ok after
    → (after.total_attempts + outstanding after.workers ≡ t.total_attempts + outstanding t.workers)
      × All IsCapped after.workers
unfolding receive
receive-outstanding [] t capped e =
    subst
      (λ (a : Tally).
        (a.total_attempts + outstanding a.workers ≡ t.total_attempts + outstanding t.workers)
        × All IsCapped a.workers)
      (ok-injective e) (refl, capped)
receive-outstanding (report ∷ reports) t {after} capped e =
    let (next, e1, e2) = >>=-ok (receive_one report t) _ e in
    let (total, sum, capped') = receive_one-outstanding report t capped e1 in
    let (rest, capped'') = receive-outstanding reports next capped' e2 in
    (omega (arith, total, sum, rest), capped'')

module _ (k : Keccak) (s : MiningTask) where
  keeps :
      (b : Bool) (w : Worker) (nonce : Uint256)
      → (if b then w else record w { next_nonce = nonce }).remaining ≡ w.remaining
  keeps true w nonce = refl
  keeps false w nonce = refl

  pub moved-outstanding : (ws : List Worker) → outstanding (moved k s ws) ≡ outstanding ws
  unfolding moved outstanding
  moved-outstanding [] = refl
  moved-outstanding (w ∷ ws) =
      let e = ap left_of (keeps (batch_of w.remaining == 0) w (searched k s w).1) in
      omega (arith, e, moved-outstanding ws)

  pub moved-IsCapped : (ws : List Worker) → All IsCapped ws → All IsCapped (moved k s ws)
  unfolding moved
  moved-IsCapped [] h = tt
  moved-IsCapped (w ∷ ws) ((n, e), h) =
      ((n, keeps (batch_of w.remaining == 0) w (searched k s w).1 ∙ e), moved-IsCapped ws h)

  cons-nil :
      {A : Type 0} {b : Bool} (x : A) {xs : List A}
      → (if b then xs else x ∷ xs) ≡ []
      → (b ≡ true) × (xs ≡ [])
  cons-nil {b = true} x e = (refl, e)
  cons-nil {b = false} x e = absurd cc

  no_batch : (n : ℕ) → (batch_of (some n) == 0) ≡ true → n ≡ 0
  unfolding batch_of
  no_batch n e = let z = (==_iff (min n attempt_batch) 0).0 e in omega arith

  -- Without an active worker nothing is left.
  pub idle-outstanding :
      (ws : List Worker) → All IsCapped ws → reports_of k s ws ≡ [] → outstanding ws ≡ 0
  unfolding reports_of outstanding
  idle-outstanding [] h e = refl
  idle-outstanding (w ∷ ws) ((n, is_n), h) e =
      let (idle, none_left) = cons-nil _ e in
      let l : left_of w.remaining ≡ n = ap left_of is_n in
      let z = no_batch n (subst (λ (o : Option ℕ). (batch_of o == 0) ≡ true) is_n idle) in
      omega (arith, l, z, idle-outstanding ws h none_left)

pub when_running-IsCounted :
    (stopped : Bool) (total cap : ℕ) (run : Run)
    → total ≤ cap
    → IsCounted cap run
    → IsCounted cap (when_running stopped total run)
unfolding when_running
when_running-IsCounted true total cap run le h = le
when_running-IsCounted false total cap run le h = h

pub after_reports-IsCounted :
    (stopped : Bool) (t : Tally) (cap : ℕ) (winner : Option (Uint256 × Digest))
    (again : Tally → Run)
    → t.total_attempts ≤ cap
    → IsCounted cap (again t)
    → IsCounted cap (after_reports stopped t winner again)
unfolding after_reports
after_reports-IsCounted true t cap winner again le h = le
after_reports-IsCounted false t cap none again le h = h
after_reports-IsCounted false t cap (some (nonce, digest)) again le h = le

pub bind-IsCounted :
    {A : Type 0} (cap : ℕ) (m : Result MineError A) (f : A → Run)
    → ((a : A) → m ≡ ok a → IsCounted cap (f a))
    → IsCounted cap (m >>= f)
bind-IsCounted cap (ok a) f h = h a refl
bind-IsCounted cap (err e) f h = tt
