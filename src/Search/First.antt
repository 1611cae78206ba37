-- ===== src/Search/First.antt =====
-- `search_nonce` of crates/proof-core/src/search.rs against the nonces of its sequence.
use mathlib.Core.Path.{fun_ext, subst}
use native.Mathlib.Nat.{mod-add-mod}
use proof_hunter_miner.Base.{
  ℕ, zero, suc, ◌+◌, ◌*◌, ◌%◌, ◌^◌, ◌<◌, ◌≡◌, refl, ap, ◌∙◌, ◌⊎◌, inl, inr, arith, List, Bool, true,
  false, Bool-cases,
}
use proof_hunter_miner.Bytes.{value}
use proof_hunter_miner.Word.{
  Uint256, Digest, Target, Address, wrapping_add, IsWord, IsAddress, wrapping_add-mod, IsWord-lt,
}
use proof_hunter_miner.Keccak.{Keccak}
use proof_hunter_miner.Proof.{
  ChallengeInputs, IsChallengeInputs, IsProofInputs, PreparedProof, derive_challenge, prepare,
  prepared_digest, proof_digest, meets_target, check_proof,
}
use proof_hunter_miner.Proof.Digests.{prepared_digest-proof_digest}
use proof_hunter_miner.Search.{
  SearchResult, found, exhausted, proof_inputs, search_loop, search_nonce,
}

-- The nonce of attempt `i`, counted from 0.
unfoldable pub nonce_at : Uint256 → Uint256 → ℕ → Uint256
nonce_at start step zero = start
nonce_at start step (suc i) = nonce_at (wrapping_add start step) step i

mod_step : (a s i m : ℕ) → 0 < m → ((a + s) % m + i * s) % m ≡ (a + suc i * s) % m
mod_step a s i m h = rw (mod-add-mod (a + s) m (i * s)) (ap (λ (t : ℕ). t % m) (omega arith))

-- Attempt `i` tries `start + i * step`, modulo 2^256.
pub nonce_at-value :
    (start step : Uint256) (i : ℕ)
    → IsWord start
    → IsWord step
    → (value (nonce_at start step i) ≡ (value start + i * value step) % 2 ^ 256)
      × IsWord (nonce_at start step i)
unfolding nonce_at
nonce_at-value start step zero hs ht = (omega (arith, IsWord-lt start hs), hs)
nonce_at-value start step (suc i) hs ht =
    let (e, w) = wrapping_add-mod start step hs ht in
    let (ih, word) = nonce_at-value (wrapping_add start step) step i w ht in
    (ih ∙ rw e (mod_step (value start) (value step) i (2 ^ 256) (omega arith)), word)

-- None of the first `n` attempts passes the test.
abbrev pub NoneBefore : (ℕ → Bool) → ℕ → Type 0
NoneBefore test zero = Unit
NoneBefore test (suc n) = NoneBefore test n × (test n ≡ false)

NoneBefore-first :
    (test : ℕ → Bool) (n : ℕ)
    → test 0 ≡ false
    → NoneBefore (λ j. test (suc j)) n
    → NoneBefore test (suc n)
NoneBefore-first test zero e h = (tt, e)
NoneBefore-first test (suc n) e (h, l) = (NoneBefore-first test n e h, l)

-- A search result against the list of its attempts: the first that passes, with its nonce, its
-- digest and `before + i + 1` attempts, or none of them and `budget` attempts.
abbrev pub FirstHit : (ℕ → Bool) → (ℕ → Uint256) → (ℕ → Digest) → ℕ → ℕ → ℕ → SearchResult → Type 0
FirstHit test nonce digest before rounds budget result =
    ((i : ℕ) × (i < rounds)
      × (test i ≡ true)
      × NoneBefore test i
      × (result ≡ found (nonce i) (digest i) (before + i + 1)))
    ⊎ (NoneBefore test rounds × (result ≡ exhausted budget))

module _ (k : Keccak) (prepared : PreparedProof k) (target : Target) (step : Uint256) where
  abbrev tried : Uint256 → ℕ → Digest
  tried nonce j = prepared_digest k prepared (nonce_at nonce step j)

  abbrev passes : Uint256 → ℕ → Bool
  passes nonce j = meets_target (tried nonce j) target

  search_loop-FirstHit :
      (budget rounds attempt : ℕ) (nonce : Uint256)
      → FirstHit
          (passes nonce)
          (nonce_at nonce step)
          (tried nonce)
          attempt
          rounds
          budget
          (search_loop k prepared target step budget rounds attempt nonce)
  unfolding search_loop nonce_at
  search_loop-FirstHit budget zero attempt nonce = inr (tt, refl)
  search_loop-FirstHit budget (suc rounds) attempt nonce = elim (Bool-cases (passes nonce 0)) [
    | inl hit ↦
        inl (0, omega arith, hit, tt, rw hit (ap (found nonce (tried nonce 0)) (omega arith)))
    | inr miss ↦ elim (search_loop-FirstHit budget rounds (attempt + 1) (wrapping_add nonce step)) [
      | inl (i, lt, pass, none_before, e) ↦ inl (
        suc i,
        omega arith,
        pass,
        NoneBefore-first (passes nonce) i miss none_before,
        rw miss (e ∙ ap (found (nonce_at nonce step (suc i)) (tried nonce (suc i))) (omega arith)),
      )
      | inr (none_passes, e) ↦
          inr (NoneBefore-first (passes nonce) rounds miss none_passes, rw miss e)
    ]
  ]

pub IsProofInputs-proof_inputs :
    (k : Keccak) (inputs : ChallengeInputs) (miner nonce : List ℕ)
    → IsChallengeInputs inputs
    → IsAddress miner
    → IsWord nonce
    → IsProofInputs (proof_inputs k inputs miner nonce)
unfolding derive_challenge
IsProofInputs-proof_inputs k inputs miner nonce h hm hn = record {
  chain_id = h.chain_id;
  mining_core = h.mining_core;
  challenge_id = h.challenge_id;
  challenge = k.finalize-IsWord _;
  miner = hm;
  nonce = hn;
}

-- For inputs of the field types, `search_nonce` returns the first of the nonces `start + i * step`
-- within the budget that `check_proof` accepts, with its canonical digest and the attempt count `i
-- + 1`, or reports the whole budget as spent when `check_proof` accepts none of them.
pub search_nonce-FirstHit :
    (k : Keccak) (inputs : ChallengeInputs) (miner : Address) (target : Target)
    (start step : Uint256) (budget : ℕ)
    → IsChallengeInputs inputs
    → IsAddress miner
    → IsWord start
    → IsWord step
    → FirstHit
        (λ j. check_proof k inputs miner (nonce_at start step j) target)
        (nonce_at start step)
        (λ j. proof_digest k (proof_inputs k inputs miner (nonce_at start step j)))
        0
        budget
        budget
        (search_nonce k inputs miner target start step budget)
unfolding search_nonce check_proof
search_nonce-FirstHit k inputs miner target start step budget h hm hs ht =
    let prepared = prepare k (proof_inputs k inputs miner start) in
    let same : tried k prepared target step start
        ≡ (λ j. proof_digest k (proof_inputs k inputs miner (nonce_at start step j))) =
      fun_ext (λ j.
        prepared_digest-proof_digest k (proof_inputs k inputs miner start) (nonce_at start step j)
          (IsProofInputs-proof_inputs k inputs miner start h hm hs)
          (nonce_at-value start step j hs ht).1) in
    subst
      (λ digest.
        FirstHit (λ j. meets_target (digest j) target) (nonce_at start step) digest 0 budget budget
          (search_loop k prepared target step budget budget 0 start))
      same (search_loop-FirstHit k prepared target step budget budget 0 start)
