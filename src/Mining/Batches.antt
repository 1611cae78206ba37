-- ===== src/Mining/Batches.antt =====
-- crates/bproof/src/mining.rs: a worker's `Search` commands in a row, against one search.
use native.Mathlib.Nat.{add-zero, suc-add, add_assoc, zero-add}
use proof_hunter_miner.Base.{
  [], ℕ, zero, suc, ◌+◌, ◌≡◌, refl, sym, ap, ◌∙◌, ◌⊎◌, inl, inr, List, ◌∷◌, arith, Bool-cases,
}
use proof_hunter_miner.Word.{
  Uint256, Target, Address, IsWord, IsAddress, wrapping_add, wrapping_add-mod,
}
use proof_hunter_miner.Keccak.{Keccak}
use proof_hunter_miner.Proof.{
  ChallengeInputs, IsChallengeInputs, PreparedProof, prepare, prepared_digest, meets_target,
}
use proof_hunter_miner.Search.First.{IsProofInputs-proof_inputs}
use proof_hunter_miner.Proof.Digests.{prepare_nonce}
use proof_hunter_miner.Search.{
  SearchResult, found, exhausted, search_nonce, search_loop, proof_inputs,
}
use proof_hunter_miner.Mining.{advance, worker_search, worker_run}

-- A result after `n` attempts that found nothing.
abbrev after_attempts : ℕ → SearchResult → SearchResult
after_attempts n (found nonce digest attempts) = found nonce digest (n + attempts)
after_attempts n (exhausted attempts) = exhausted (n + attempts)

-- A result, or what comes later where it found nothing.
abbrev go_on : SearchResult → SearchResult → SearchResult
go_on (found nonce digest attempts) later = found nonce digest attempts
go_on (exhausted attempts) later = later

-- The reports of a worker as one result.
abbrev pub summary : List SearchResult → SearchResult
summary [] = exhausted 0
summary (found nonce digest attempts ∷ later) = found nonce digest attempts
summary (exhausted attempts ∷ later) = after_attempts attempts (summary later)

abbrev pub total : List ℕ → ℕ
total [] = 0
total (b ∷ bs) = b + total bs

module _ (k : Keccak) (prepared : PreparedProof k) (target : Target) (step : Uint256) where
  loop_shift :
      (before budget rounds attempt : ℕ) (nonce : Uint256)
      → search_loop k prepared target step (before + budget) rounds (before + attempt) nonce
        ≡ after_attempts before (search_loop k prepared target step budget rounds attempt nonce)
  unfolding search_loop
  loop_shift before budget zero attempt nonce = refl
  loop_shift before budget (suc rounds) attempt nonce =
      elim (Bool-cases (meets_target (prepared_digest k prepared nonce) target)) [
        | inl hit ↦ rw hit (ap (found nonce (prepared_digest k prepared nonce)) (omega arith))
        | inr miss ↦
            rw (miss, add_assoc before attempt 1)
              (loop_shift before budget rounds (attempt + 1) (wrapping_add nonce step))
      ]

  loop_split :
      (first budget a b attempt : ℕ) (nonce : Uint256)
      → search_loop k prepared target step budget (a + b) attempt nonce
        ≡ go_on
            (search_loop k prepared target step first a attempt nonce)
            (search_loop k prepared target step budget b (attempt + a) (advance a step nonce))
  unfolding search_loop advance
  loop_split first budget zero b attempt nonce = rw (zero-add, add-zero)
  loop_split first budget (suc a) b attempt nonce =
      rw suc-add (elim (Bool-cases (meets_target (prepared_digest k prepared nonce) target)) [
        | inl hit ↦ rw hit
        | inr miss ↦
            let moved : attempt + suc a ≡ attempt + 1 + a = omega arith in
            rw (miss, moved) (loop_split first budget a b (attempt + 1) (wrapping_add nonce step))
      ])

  loop_exhausted :
      (budget rounds attempt : ℕ) (nonce : Uint256) (attempts : ℕ)
      → search_loop k prepared target step budget rounds attempt nonce ≡ exhausted attempts
      → attempts ≡ budget
  unfolding search_loop
  loop_exhausted budget zero attempt nonce attempts e = cc
  loop_exhausted budget (suc rounds) attempt nonce attempts e =
      ground (arith, loop_exhausted budget rounds (attempt + 1) (wrapping_add nonce step) attempts)

pub SearchResult-cases :
    (r : SearchResult)
    → ((nonce : Uint256) × (digest : List ℕ) × (attempts : ℕ) × (r ≡ found nonce digest attempts))
      ⊎ ((attempts : ℕ) × (r ≡ exhausted attempts))
SearchResult-cases (found nonce digest attempts) = inl (nonce, digest, attempts, refl)
SearchResult-cases (exhausted attempts) = inr (attempts, refl)

pub advance-IsWord :
    (n : ℕ) (step nonce : Uint256) → IsWord step → IsWord nonce → IsWord (advance n step nonce)
unfolding advance
advance-IsWord zero step nonce hs hn = hn
advance-IsWord (suc n) step nonce hs hn =
    advance-IsWord n step (wrapping_add nonce step) hs (wrapping_add-mod nonce step hn hs).1

module _ (k : Keccak) (inputs : ChallengeInputs) (miner : Address) (target : Target)
    (step : Uint256) (hi : IsChallengeInputs inputs) (hm : IsAddress miner) (hs : IsWord step) where
  same_prefix :
      (a b : Uint256)
      → IsWord a
      → IsWord b
      → prepare k (proof_inputs k inputs miner a) ≡ prepare k (proof_inputs k inputs miner b)
  same_prefix a b ha hb =
      prepare_nonce k (proof_inputs k inputs miner b) a
        (IsProofInputs-proof_inputs k inputs miner b hi hm hb)
        (IsProofInputs-proof_inputs k inputs miner a hi hm ha)

  -- Two searches in a row, the second from the nonce that the first stopped at.
  search_nonce-split :
      (a b : ℕ) (nonce : Uint256)
      → IsWord nonce
      → search_nonce k inputs miner target nonce step (a + b)
        ≡ go_on
            (search_nonce k inputs miner target nonce step a)
            (after_attempts a (search_nonce k inputs miner target (advance a step nonce) step b))
  unfolding search_nonce
  search_nonce-split a b nonce h =
      let prepared = prepare k (proof_inputs k inputs miner nonce) in
      let next = advance a step nonce in
      let start : 0 + a ≡ a + 0 = omega arith in
      rw (same_prefix next nonce (advance-IsWord a step nonce hs h) h) (
        loop_split k prepared target step a (a + b) a b 0 nonce
        ∙ ap (go_on (search_loop k prepared target step a a 0 nonce))
            (rw start (loop_shift k prepared target step a b b 0 next)))

  search_nonce-exhausted :
      (budget : ℕ) (nonce : Uint256) (attempts : ℕ)
      → search_nonce k inputs miner target nonce step budget ≡ exhausted attempts
      → attempts ≡ budget
  unfolding search_nonce
  search_nonce-exhausted budget nonce attempts e =
      loop_exhausted k (prepare k (proof_inputs k inputs miner nonce)) target step budget budget 0
        nonce attempts e

  run_found :
      (b : ℕ) (bs : List ℕ) (nonce winner : Uint256) (digest : List ℕ) (attempts : ℕ)
      → search_nonce k inputs miner target nonce step b ≡ found winner digest attempts
      → summary (worker_run k inputs miner target step nonce (b ∷ bs))
        ≡ found winner digest attempts
  unfolding worker_run worker_search
  run_found b bs nonce winner digest attempts e = ground (arith, e)

  run_exhausted :
      (b : ℕ) (bs : List ℕ) (nonce : Uint256)
      → search_nonce k inputs miner target nonce step b ≡ exhausted b
      → summary (worker_run k inputs miner target step nonce (b ∷ bs))
        ≡ after_attempts b
            (summary (worker_run k inputs miner target step (advance b step nonce) bs))
  unfolding worker_run worker_search
  run_exhausted b bs nonce e = ground (arith, e)

  -- For inputs of the field types, a worker's reports, taken together, are the search with the sum
  -- of its budgets: the first accepted nonce of the worker's whole stride with the exact number of
  -- attempts, or exhaustion.
  pub worker_run-search_nonce :
      (budgets : List ℕ) (nonce : Uint256)
      → IsWord nonce
      → summary (worker_run k inputs miner target step nonce budgets)
        ≡ search_nonce k inputs miner target nonce step (total budgets)
  worker_run-search_nonce [] nonce h = unfold search_nonce search_loop worker_run in refl
  worker_run-search_nonce (b ∷ bs) nonce h =
      let later =
        after_attempts b
          (search_nonce k inputs miner target (advance b step nonce) step (total bs)) in
      elim (SearchResult-cases (search_nonce k inputs miner target nonce step b)) [
        | inl (winner, digest, attempts, e) ↦
            run_found b bs nonce winner digest attempts e
            ∙ sym (search_nonce-split b (total bs) nonce h ∙ ap (λ r. go_on r later) e)
        | inr (attempts, e) ↦
            let next = advance b step nonce in
            let spent = search_nonce-exhausted b nonce attempts e in
            let e' = e ∙ ap exhausted spent in
            run_exhausted b bs nonce e'
            ∙ ap (after_attempts b)
                (worker_run-search_nonce bs next (advance-IsWord b step nonce hs h))
            ∙ sym (search_nonce-split b (total bs) nonce h ∙ ap (λ r. go_on r later) e')
      ]
