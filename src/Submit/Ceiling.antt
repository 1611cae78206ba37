-- ===== src/Submit/Ceiling.antt =====
-- The operator's fee ceiling and the transaction that is prepared (crates/bproof/src/submit.rs).
use proof_hunter_miner.Base.{
  Result-cases, ℕ, ◌*◌, ◌^◌, ◌≤◌, ◌<◌, ◌≡◌, refl, ap, ◌∙◌, subst, ◌≢◌, inl, inr, List, arith, ltb,
  Bool-cases, >>=-ok, ok-injective, Result, ok, err,
}
use proof_hunter_miner.Bytes.{value}
use proof_hunter_miner.Word.{Target, Uint256, Address, value-from_u64, value-from_u128}
use proof_hunter_miner.Keccak.{Keccak}
use proof_hunter_miner.Proof.{
  derive_challenge, proof_digest, meets_target, check_proof, ChallengeInputs,
}
use proof_hunter_miner.Fees.{uint256_to_u64, FeeError, FeeOptions, FeeQuote, fee_quote}
use proof_hunter_miner.Fees.Quote.{fee_quote-IsQuote}
use proof_hunter_miner.Transaction.{Eip1559Transaction, submit_proof_call_data}
use proof_hunter_miner.Submit.{
  priority_fee_of, base_fee_of, parse_hex_quantity_uint256, transaction_count, proof_simulation,
  gas_estimate, call_transaction, prepared_call, PreparationOutcome, ready, simulation_rejected,
  expired_seed_changed, fee_refused, PreparedSubmission, Prepare, NodeReplies, lift_rpc, lift_fee,
  lift_parse, prepare_call, quote_call, simulated_call, within_ceiling, ready_call,
}
use proof_hunter_miner.Submit.Prepare.{prepare_submission, when_ready, with_proof}

-- A quote whose numbers fit the words that a transaction carries, made under these options.
pub record IsQuoteUnder (options : FeeOptions) (q : FeeQuote) : Type 0 where
  pub ceiling : q.fee_ceiling_wei ≡ options.fee_ceiling_wei
  pub exposure : q.maximum_exposure_wei ≡ q.gas_limit * q.max_fee_per_gas_wei
  pub limit_in_range : q.gas_limit < 2 ^ 64
  pub max_fee_in_range : q.max_fee_per_gas_wei < 2 ^ 128

lift_fee-ok :
    {E A : Type 0} (r : Result FeeError A) {a : A}
    → ◌≡◌ {A = Prepare E A} (lift_fee r) (ok a)
    → r ≡ ok a
unfolding lift_fee
lift_fee-ok (ok a) h = cc
lift_fee-ok (err e) h = absurd cc

pub quote_call-IsQuoteUnder :
    {E : Type 0} (replies : NodeReplies E) (options : FeeOptions) {q : FeeQuote}
    → quote_call replies options ≡ ok q
    → IsQuoteUnder options q
unfolding quote_call
quote_call-IsQuoteUnder replies options {q} h =
    let (text, e1, h1) = >>=-ok (lift_rpc (replies.text gas_estimate)) _ h in
    let (word, e2, h2) = >>=-ok (lift_parse (parse_hex_quantity_uint256 text)) _ h1 in
    let (estimate, e3, h3) = >>=-ok (lift_fee (uint256_to_u64 word)) _ h2 in
    let (base, e4, h4) = >>=-ok (base_fee_of options.base_fee_per_gas_override_wei replies) _ h3 in
    let (priority, e5, h5) =
      >>=-ok (priority_fee_of options.priority_fee_per_gas_override_wei replies) _ h4 in
    let quote =
      fee_quote-IsQuote base priority estimate options.gas_margin_percent options.fee_ceiling_wei (
        lift_fee-ok
          (fee_quote base priority estimate options.gas_margin_percent options.fee_ceiling_wei)
          h5) in
    record {
      ceiling = quote.fee_ceiling;
      exposure = quote.exposure;
      limit_in_range = quote.padded.in_range;
      max_fee_in_range = quote.max_fee_in_range;
    }

-- A prepared transaction, the numbers read off its own words.
pub record IsWithin (ceiling : ℕ) (to : Address) (call_data : List ℕ) (t : Eip1559Transaction)
    : Type 0 where
  pub cost : value t.gas_limit * value t.max_fee_per_gas ≤ ceiling
  pub recipient : t.to ≡ to
  pub carried : t.call_data ≡ call_data

ready-injective :
    {E : Type 0} (a b : PreparedSubmission)
    → ◌≡◌ {A = PreparationOutcome E} (ready a) (ready b)
    → a ≡ b
ready-injective a b e = cc

ready_call-IsWithin :
    {E : Type 0} (replies : NodeReplies E) (chain_id : Uint256) (core miner : Address)
    (call_data : List ℕ) (options : FeeOptions) (q : FeeQuote) {p : PreparedSubmission}
    → IsQuoteUnder options q
    → q.maximum_exposure_wei ≤ q.fee_ceiling_wei
    → ready_call replies chain_id core miner call_data q ≡ ok (ready p)
    → IsWithin options.fee_ceiling_wei core call_data p.transaction
unfolding ready_call prepared_call call_transaction
ready_call-IsWithin replies chain_id core miner call_data options q {p} quote le h =
    let (text, e1, h1) = >>=-ok (lift_rpc (replies.text transaction_count)) _ h in
    let (nonce, e2, h2) = >>=-ok (lift_parse (parse_hex_quantity_uint256 text)) _ h1 in
    let made = prepared_call miner q nonce (call_transaction chain_id core call_data q nonce) in
    let same : made ≡ p = ready-injective made p (ok-injective h2) in
    subst (λ t. IsWithin options.fee_ceiling_wei core call_data t.transaction) same
      (record {
        cost =
            rw
              (
                value-from_u64 q.gas_limit quote.limit_in_range,
                value-from_u128 q.max_fee_per_gas_wei quote.max_fee_in_range,
              )
              (subst (λ t. t ≤ options.fee_ceiling_wei) quote.exposure
                (subst (λ t. q.maximum_exposure_wei ≤ t) quote.ceiling le));
        recipient = refl;
        carried = refl;
      })

within_ceiling-IsWithin :
    {E : Type 0} (replies : NodeReplies E) (chain_id : Uint256) (core miner : Address)
    (call_data : List ℕ) (options : FeeOptions) (q : FeeQuote) {p : PreparedSubmission}
    → IsQuoteUnder options q
    → within_ceiling replies chain_id core miner call_data q ≡ ok (ready p)
    → IsWithin options.fee_ceiling_wei core call_data p.transaction
unfolding within_ceiling
within_ceiling-IsWithin replies chain_id core miner call_data options q quote h =
    elim (Bool-cases (ltb q.fee_ceiling_wei q.maximum_exposure_wei)) [
      | inl t ↦ absurd cc
      | inr f ↦
          ready_call-IsWithin replies chain_id core miner call_data options q quote
            (ground (arith, f)) (rw f at h)
    ]

simulation_failed :
    {E : Type 0} (replies : NodeReplies E) (chain_id : Uint256) (core miner : Address)
    (call_data : List ℕ) (options : FeeOptions) (e : E) {p : PreparedSubmission}
    → replies.text proof_simulation ≡ err e
    → prepare_call replies chain_id core miner call_data options ≢ ok (ready p)
unfolding prepare_call
simulation_failed replies chain_id core miner call_data options e f h =
    let h' = (rw (f, prepare_call) at h) in
    elim (Bool-cases (replies.is_simulation_failure e)) [ inl t ↦ absurd cc | inr g ↦ absurd cc ]

check_proof-digest :
    (k : Keccak) (inputs : ChallengeInputs) (miner : Address) (nonce : Uint256) (target : Target)
    → check_proof k inputs miner nonce target
      ≡ meets_target
          (proof_digest k (record {
            chain_id = inputs.chain_id;
            mining_core = inputs.mining_core;
            challenge_id = inputs.challenge_id;
            challenge = derive_challenge k inputs;
            miner = miner;
            nonce = nonce;
          }))
          target
unfolding check_proof
check_proof-digest k inputs miner nonce target = refl

pub prepare_call-IsWithin :
    {E : Type 0} (replies : NodeReplies E) (chain_id : Uint256) (core miner : Address)
    (call_data : List ℕ) (options : FeeOptions) {p : PreparedSubmission}
    → prepare_call replies chain_id core miner call_data options ≡ ok (ready p)
    → IsWithin options.fee_ceiling_wei core call_data p.transaction
unfolding prepare_call simulated_call
prepare_call-IsWithin replies chain_id core miner call_data options {p} h =
    elim (Result-cases (replies.text proof_simulation)) [
      | inl (result, e) ↦
          let h' = (rw (e, prepare_call) at h) in
          let (q, eq, hq) = >>=-ok (quote_call replies options) _ h' in
          within_ceiling-IsWithin replies chain_id core miner call_data options q
            (quote_call-IsQuoteUnder replies options eq) hq
      | inr (e, f) ↦ absurd (simulation_failed replies chain_id core miner call_data options e f h)
    ]

when_ready-ready :
    {E : Type 0} (change : PreparedSubmission → PreparedSubmission) (outcome : PreparationOutcome E)
    {p : PreparedSubmission}
    → when_ready change outcome ≡ ready p
    → (q : PreparedSubmission) × (outcome ≡ ready q) × (change q ≡ p)
unfolding when_ready
when_ready-ready change (ready q) h = (q, refl, ready-injective (change q) _ h)
when_ready-ready change (simulation_rejected e) h = absurd cc
when_ready-ready change expired_seed_changed h = absurd cc
when_ready-ready change (fee_refused q) h = absurd cc

-- A prepared proof: its transaction, and the digest that its receipt is checked against.
pub record IsProofPrepared (k : Keccak) (inputs : ChallengeInputs) (miner : Address)
    (nonce : Uint256) (basket : Address) (ceiling : ℕ) (p : PreparedSubmission) : Type 0 where
  pub within :
      IsWithin ceiling inputs.mining_core
        (submit_proof_call_data k inputs.challenge_id inputs.seed_parent_block nonce basket)
        p.transaction
  pub proves :
      (target : Target)
      → check_proof k inputs miner nonce target ≡ meets_target p.expected_digest target

-- A submission that `prepare_submission` declares ready spends at most the operator's ceiling: the
-- gas limit times the maximum fee, as its transaction carries them, is at most `fee_ceiling_wei`.
-- Its call data is that of the proof, its recipient the mining core, and its expected digest meets
-- a target exactly when the proof check accepts the nonce for that target.
pub prepare_submission-IsProofPrepared :
    {E : Type 0} (k : Keccak) (replies : NodeReplies E) (inputs : ChallengeInputs) (miner : Address)
    (nonce : Uint256) (basket : Address) (options : FeeOptions) {p : PreparedSubmission}
    → prepare_submission k replies inputs miner nonce basket options ≡ ok (ready p)
    → IsProofPrepared k inputs miner nonce basket options.fee_ceiling_wei p
unfolding prepare_submission with_proof
prepare_submission-IsProofPrepared k replies inputs miner nonce basket options {p} h =
    let call_data =
      submit_proof_call_data k inputs.challenge_id inputs.seed_parent_block nonce basket in
    let (outcome, e, h1) =
      >>=-ok (prepare_call replies inputs.chain_id inputs.mining_core miner call_data options) _
        h in
    let (q, e1, e2) =
      when_ready-ready (with_proof k inputs miner nonce basket) outcome (ok-injective h1) in
    subst (IsProofPrepared k inputs miner nonce basket options.fee_ceiling_wei) e2 (record {
      within =
          prepare_call-IsWithin replies inputs.chain_id inputs.mining_core miner call_data options
            (e ∙ ap ok e1);
      proves = λ target. check_proof-digest k inputs miner nonce target;
    })
