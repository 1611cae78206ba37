-- ===== src/Receipt/Paid.antt =====
-- crates/bproof/src/submit.rs: the end of a submission: the mined transaction, the fee that was
-- paid, and the waiting.
use proof_hunter_miner.Base.{
  ℕ, zero, suc, ◌+◌, ◌*◌, ◌^◌, ◌≤◌, ◌<◌, ◌≡◌, refl, sym, ap, ◌∙◌, subst, ◌≢◌, ◌⊎◌, inl, inr, Bool,
  true, false, not, Option, none, some, List, arith, ltb, leb, ltb→lt, leb→le, Bool-cases, >>=-ok,
  require, require-ok, ok_or, ok_or-ok, ok-injective, ok, err,
}
use proof_hunter_miner.Chain.{Deployment}
use proof_hunter_miner.Continuous.Send.{MinedSubmission}
use proof_hunter_miner.Failure.{
  Checked, fee_above_exposure, fee_overflow, mismatch, missing, not_object, timed_out,
}
use proof_hunter_miner.Json.{Json, get_str}
use proof_hunter_miner.Keccak.{Keccak}
use proof_hunter_miner.Parse.{hex_string, parse_address, parse_digest, parse_hex_quantity_uint256}
use proof_hunter_miner.Receipt.{
  eq_ignore_ascii_case, require_address_field, require_digest_field, require_hex_bytes_field,
  require_quantity_field,
}
use proof_hunter_miner.Receipt.Fields.{
  Holds, require_address_field-Holds, require_digest_field-Holds, require_quantity_field-Holds,
}
use proof_hunter_miner.Receipt.Mined.{
  check_mined, check_mined_value, hash_call, is_included, mined_submission,
}
use proof_hunter_miner.Receipt.Parse.{TransactionReceipt, parse_receipt}
use proof_hunter_miner.Receipt.Wait.{
  after_poll, poll, settle_sent, verified_submission, verify_mined_transaction, wait_for_receipt,
  when_some,
}
use proof_hunter_miner.Rpc.{Call, Node, Rpc, bind-ok, done-eq, lift, lift-ok, reply-eq, sent-eq}
use proof_hunter_miner.Rpc.Calls.{post_then, rpc_result}
use proof_hunter_miner.Submit.{PreparedSubmission}
use proof_hunter_miner.Submit.Document.{PendingSubmissionDocument, to_prepared}
use proof_hunter_miner.Submit.Reading.{to_prepared-IsAuthorised}
use proof_hunter_miner.Word.{Digest, from_u64, word_zero}

module _ (j : Json) where
  -- A mined transaction has every field of the signed one and is in the block of the receipt.
  pub record IsMined (fields : j.Fields) (hash : Digest) (r : TransactionReceipt)
      (p : PreparedSubmission) : Type 0 where
    pub hash_held : Holds j parse_digest fields "hash" hash
    pub from_held : Holds j parse_address fields "from" p.miner
    pub to_held : Holds j parse_address fields "to" p.transaction.to
    pub block_held : Holds j parse_digest fields "blockHash" r.block_hash
    pub number_held : Holds j parse_hex_quantity_uint256 fields "blockNumber" r.block_number
    pub chain_held : Holds j parse_hex_quantity_uint256 fields "chainId" p.transaction.chain_id
    pub nonce_held : Holds j parse_hex_quantity_uint256 fields "nonce" p.transaction.account_nonce
    pub gas_held : Holds j parse_hex_quantity_uint256 fields "gas" p.transaction.gas_limit
    pub max_fee_held :
        Holds j parse_hex_quantity_uint256 fields "maxFeePerGas" p.transaction.max_fee_per_gas
    pub priority_held :
        Holds j parse_hex_quantity_uint256 fields "maxPriorityFeePerGas"
          p.transaction.max_priority_fee_per_gas
    pub value_held : Holds j parse_hex_quantity_uint256 fields "value" word_zero
    pub type_held : Holds j parse_hex_quantity_uint256 fields "type" (from_u64 2)
    pub input : List ℕ
    pub input_held : get_str j fields "input" ≡ some input
    pub same_input : eq_ignore_ascii_case input (hex_string p.transaction.call_data) ≡ true

  check_mined-IsMined :
      (fields : j.Fields) (hash : Digest) (r : TransactionReceipt) (p : PreparedSubmission)
      {u : Unit {0}}
      → check_mined j fields hash r p ≡ ok u
      → IsMined fields hash r p
  unfolding check_mined require_hex_bytes_field
  check_mined-IsMined fields hash r p h =
      let tx = p.transaction in
      let (u1, c1, h1) = >>=-ok (require_digest_field j fields "hash" hash) _ h in
      let (u2, c2, h2) = >>=-ok (require_address_field j fields "from" p.miner) _ h1 in
      let (u3, c3, h3) = >>=-ok (require_address_field j fields "to" tx.to) _ h2 in
      let (u4, c4, h4) = >>=-ok (require_digest_field j fields "blockHash" r.block_hash) _ h3 in
      let (u5, c5, h5) =
        >>=-ok (require_quantity_field j fields "blockNumber" r.block_number) _ h4 in
      let (u6, c6, h6) = >>=-ok (require_quantity_field j fields "chainId" tx.chain_id) _ h5 in
      let (u7, c7, h7) = >>=-ok (require_quantity_field j fields "nonce" tx.account_nonce) _ h6 in
      let (u8, c8, h8) = >>=-ok (require_quantity_field j fields "gas" tx.gas_limit) _ h7 in
      let (u9, c9, h9) =
        >>=-ok (require_quantity_field j fields "maxFeePerGas" tx.max_fee_per_gas) _ h8 in
      let (u10, c10, h10) =
        >>=-ok (require_quantity_field j fields "maxPriorityFeePerGas" tx.max_priority_fee_per_gas)
          _ h9 in
      let (u11, c11, h11) = >>=-ok (require_quantity_field j fields "value" word_zero) _ h10 in
      let (u12, c12, h12) = >>=-ok (require_quantity_field j fields "type" (from_u64 2)) _ h11 in
      let (content, there, h13) = >>=-ok (ok_or missing (get_str j fields "input")) _ h12 in
      record {
        hash_held = require_digest_field-Holds j fields "hash" hash c1;
        from_held = require_address_field-Holds j fields "from" p.miner c2;
        to_held = require_address_field-Holds j fields "to" tx.to c3;
        block_held = require_digest_field-Holds j fields "blockHash" r.block_hash c4;
        number_held = require_quantity_field-Holds j fields "blockNumber" r.block_number c5;
        chain_held = require_quantity_field-Holds j fields "chainId" tx.chain_id c6;
        nonce_held = require_quantity_field-Holds j fields "nonce" tx.account_nonce c7;
        gas_held = require_quantity_field-Holds j fields "gas" tx.gas_limit c8;
        max_fee_held = require_quantity_field-Holds j fields "maxFeePerGas" tx.max_fee_per_gas c9;
        priority_held =
            require_quantity_field-Holds j fields "maxPriorityFeePerGas" tx.max_priority_fee_per_gas
              c10;
        value_held = require_quantity_field-Holds j fields "value" word_zero c11;
        type_held = require_quantity_field-Holds j fields "type" (from_u64 2) c12;
        input = content;
        input_held = ok_or-ok missing _ there;
        same_input = require-ok _ mismatch h13;
      }

  check_mined_value-IsMined :
      (v : j.Value) (hash : Digest) (r : TransactionReceipt) (p : PreparedSubmission) {u : Unit {0}}
      → check_mined_value j v hash r p ≡ ok u
      → (fields : j.Fields) × (j.as_object v ≡ some fields) × IsMined fields hash r p
  unfolding check_mined_value
  check_mined_value-IsMined v hash r p h =
      let (fields, obj, h1) = >>=-ok (ok_or not_object (j.as_object v)) _ h in
      (fields, ok_or-ok not_object _ obj, check_mined-IsMined fields hash r p h1)

-- What is reported of a mined submission.
pub record IsReported (hash : Digest) (r : TransactionReceipt) (p : PreparedSubmission)
    (m : MinedSubmission) : Type 0 where
  pub same_hash : m.transaction_hash ≡ hash
  pub same_nonce : m.mining_nonce ≡ p.mining_nonce
  pub same_refresh : m.seed_refresh ≡ p.seed_refresh
  pub fee : m.fee_paid_wei ≡ r.gas_used * r.effective_gas_price_wei
  pub fits : m.fee_paid_wei < 2 ^ 128
  pub within_exposure : m.fee_paid_wei ≤ p.fee_quote.maximum_exposure_wei
  pub same_success : m.succeeded ≡ r.succeeded
  pub same_mint : m.proof_nft_minted ≡ r.proof_nft_minted

mined_submission-IsReported :
    (hash : Digest) (r : TransactionReceipt) (p : PreparedSubmission) (m : MinedSubmission)
    → mined_submission hash r p ≡ ok m
    → IsReported hash r p m
unfolding mined_submission
mined_submission-IsReported hash r p m h =
    let fee = r.gas_used * r.effective_gas_price_wei in
    let (u1, fits, h1) = >>=-ok (require (ltb fee (2 ^ 128)) fee_overflow) _ h in
    let (u2, within, h2) =
      >>=-ok (require (leb fee p.fee_quote.maximum_exposure_wei) fee_above_exposure) _ h1 in
    subst (λ (t : MinedSubmission). IsReported hash r p t) (ok-injective h2)
      (record {
        same_hash = refl;
        same_nonce = refl;
        same_refresh = refl;
        fee = refl;
        fits = ltb→lt fee (2 ^ 128) (require-ok _ fee_overflow fits);
        within_exposure =
            leb→le fee p.fee_quote.maximum_exposure_wei (require-ok _ fee_above_exposure within);
        same_success = refl;
        same_mint = refl;
      })

some-eq : {A : Type 0} {a b : A} → some a ≡ some b → a ≡ b
some-eq h = cc

when_some-ok :
    {A B : Type 0} (f : A → Rpc (Option B)) (o : Option A) (m : ℕ) {b : B} {n : ℕ}
    → when_some f o m ≡ (ok (some b), n)
    → (a : A) × (o ≡ some a) × (f a m ≡ (ok (some b), n))
unfolding when_some
when_some-ok f none m {b} h = let e : none ≡ some b = done-eq none m h in absurd cc
when_some-ok f (some a) m h = (a, refl, h)

module _ (j : Json) (node : Node j) where
  after_poll-ok :
      (test : j.Value → Bool) (again : Rpc (Option j.Value)) (answer : j.Value) (sent : ℕ)
      {v : j.Value} {after : ℕ}
      → after_poll j node test again answer sent ≡ (ok (some v), after)
      → ((test answer ≡ true) × (answer ≡ v) × (sent ≡ after)) ⊎ (again sent ≡ (ok (some v), after))
  unfolding after_poll
  after_poll-ok test again answer sent {v} {after} h = elim (Bool-cases (test answer)) [
    | inl there ↦
        let h' = rw (there) at h in
        let e : some answer ≡ some v = ok-injective (reply-eq h') in inl (there, cc, sent-eq h')
    | inr not_there ↦
        let h' = rw (not_there) at h in
        elim (Bool-cases (node.past_deadline sent)) [
          | inl past ↦
              let h'' = rw (past) at h' in
              let e : err timed_out ≡ ok (some v) = reply-eq h'' in absurd cc
          | inr before ↦ inr (rw (before) at h')
        ]
  ]

  -- What a loop that waits ends with is an answer of the node.
  poll-ok :
      (fuel : ℕ) (c : Call) (test : j.Value → Bool) (sent : ℕ) {v : j.Value} {after : ℕ}
      → poll j node fuel c test sent ≡ (ok (some v), after)
      → (test v ≡ true) × (n : ℕ) × (rpc_result j node c n ≡ (ok v, after))
  unfolding poll
  poll-ok zero c test sent {v} h = let e : none ≡ some v = done-eq none sent h in absurd cc
  poll-ok (suc fuel) c test sent {v} {after} h =
      let (u, n, asked, h1) = bind-ok (rpc_result j node c) _ sent h in
      elim (after_poll-ok test (poll j node fuel c test) u n h1) [
        | inl (there, same, last) ↦
            (subst (λ (t : j.Value). test t ≡ true) same there, sent, asked ∙ rw (same, last) refl)
        | inr later ↦ poll-ok fuel c test n later
      ]

  rpc_result-sent :
      (c : Call) (sent : ℕ) {r : Checked j.Value} {n : ℕ}
      → ◌≡◌ {A = Checked j.Value × ℕ} (rpc_result j node c sent) (r, n)
      → n ≡ sent + 1
  unfolding rpc_result post_then
  rpc_result-sent c sent h = sym (sent-eq h)

  -- A round that ends with no answer and no error left the deadline ahead.
  after_poll-none :
      (test : j.Value → Bool) (again : Rpc (Option j.Value)) (answer : j.Value) (sent : ℕ)
      {after : ℕ}
      → after_poll j node test again answer sent ≡ (ok none, after)
      → (node.past_deadline sent ≡ false) × (again sent ≡ (ok none, after))
  unfolding after_poll
  after_poll-none test again answer sent {after} h = elim (Bool-cases (test answer)) [
    | inl there ↦
        let h' = rw (there) at h in
        let e : some answer ≡ none = ok-injective (reply-eq h') in absurd cc
    | inr not_there ↦
        let h' = rw (not_there) at h in
        elim (Bool-cases (node.past_deadline sent)) [
          | inl past ↦
              let h'' = rw (past) at h' in
              let e : err timed_out ≡ ok none = reply-eq h'' in absurd cc
          | inr before ↦ (before, rw (before) at h')
        ]
  ]

  -- A loop that waits for the node ends, with an answer or an error, at the latest with the answer
  -- after which its deadline is past: so many rounds of fuel are enough.
  pub poll_ends :
      (fuel : ℕ) (c : Call) (test : j.Value → Bool) (sent : ℕ)
      → node.past_deadline (sent + suc fuel) ≡ true
      → (after : ℕ) → poll j node (suc fuel) c test sent ≢ (ok none, after)
  unfolding poll
  poll_ends zero c test sent past after h =
      let (u, n, asked, h1) = bind-ok (rpc_result j node c) _ sent h in
      let (before, again) = after_poll-none test (poll j node zero c test) u n h1 in
      let late =
        subst (λ (t : ℕ). node.past_deadline t ≡ false) (rpc_result-sent c sent asked) before in
      absurd cc
  poll_ends (suc fuel) c test sent past after h =
      let (u, n, asked, h1) = bind-ok (rpc_result j node c) _ sent h in
      let (before, again) = after_poll-none test (poll j node (suc fuel) c test) u n h1 in
      let next = rpc_result-sent c sent asked in
      let count : sent + suc (suc fuel) ≡ n + suc fuel = omega arith in
      poll_ends fuel c test n (subst (λ (t : ℕ). node.past_deadline t ≡ true) count past) after
        again

-- What settles a submission: a receipt and a transaction that the node gave, both checked, and what is reported of them.
pub record IsSettled (k : Keccak) (j : Json) (node : Node j) (hash : Digest)
    (p : PreparedSubmission) (m : MinedSubmission) : Type 0 where
  pub receipt_value : j.Value
  pub transaction_value : j.Value
  pub receipt : TransactionReceipt
  pub receipt_sent : ℕ
  pub transaction_sent : ℕ
  pub receipt_after : ℕ
  pub transaction_after : ℕ
  pub receipt_given :
      rpc_result j node (hash_call "eth_getTransactionReceipt" hash) receipt_sent
      ≡ (ok receipt_value, receipt_after)
  pub transaction_given :
      rpc_result j node (hash_call "eth_getTransactionByHash" hash) transaction_sent
      ≡ (ok transaction_value, transaction_after)
  pub receipt_parsed : parse_receipt k j receipt_value hash p ≡ ok receipt
  pub mined_fields : j.Fields
  pub is_object : j.as_object transaction_value ≡ some mined_fields
  pub mined : IsMined j mined_fields hash receipt p
  pub reported : IsReported hash receipt p m

module _ (k : Keccak) (j : Json) (node : Node j) (reader : Deployment) where
  wait-ok :
      (fuel : ℕ) (hash : Digest) (p : PreparedSubmission) (sent : ℕ) {r : TransactionReceipt}
      {after : ℕ}
      → wait_for_receipt k j node reader fuel hash p sent ≡ (ok (some r), after)
      → (v : j.Value) × (n : ℕ) × (later : ℕ) × (rpc_result j node
            (hash_call "eth_getTransactionReceipt" hash)
            n
          ≡ (ok v, later))
        × (parse_receipt k j v hash p ≡ ok r)
  unfolding wait_for_receipt
  wait-ok fuel hash p sent h =
      let c = hash_call "eth_getTransactionReceipt" hash in
      let (o, later, polled, h1) = bind-ok (poll j node fuel c (λ v. not (j.is_null v))) _ sent h in
      let (v, there, h2) = when_some-ok _ o later h1 in
      let (r', n2, parsed, h3) = bind-ok (lift (parse_receipt k j v hash p)) _ later h2 in
      let (_, n, asked) =
        poll-ok j node fuel c (λ v. not (j.is_null v)) sent
          (polled ∙ ap (λ (t : Option j.Value). (ok t, later)) there) in
      (
        v,
        n,
        later,
        asked,
        lift-ok (parse_receipt k j v hash p) later parsed
            ∙ ap (λ (t : TransactionReceipt). ok t) (some-eq (done-eq (some r') n2 h3)),
      )

  verify-ok :
      (fuel : ℕ) (hash : Digest) (r : TransactionReceipt) (p : PreparedSubmission) (sent : ℕ)
      {u : Unit {0}} {after : ℕ}
      → verify_mined_transaction k j node reader fuel hash r p sent ≡ (ok (some u), after)
      → (v : j.Value) × (n : ℕ) × (later : ℕ) × (rpc_result j node
            (hash_call "eth_getTransactionByHash" hash)
            n
          ≡ (ok v, later))
        × (fields : j.Fields) × (j.as_object v ≡ some fields)
        × IsMined j fields hash r p
  unfolding verify_mined_transaction
  verify-ok fuel hash r p sent h =
      let c = hash_call "eth_getTransactionByHash" hash in
      let (o, later, polled, h1) = bind-ok (poll j node fuel c (is_included j)) _ sent h in
      let (v, there, h2) = when_some-ok _ o later h1 in
      let (u, n2, good, h3) = bind-ok (lift (check_mined_value j v hash r p)) _ later h2 in
      let (_, n, asked) =
        poll-ok j node fuel c (is_included j) sent
          (polled ∙ ap (λ (t : Option j.Value). (ok t, later)) there) in
      let (fields, obj, mined) =
        check_mined_value-IsMined j v hash r p
          (lift-ok (check_mined_value j v hash r p) later good) in
      (v, n, later, asked, fields, obj, mined)

  -- Whatever the node answers, a submission is reported as mined only for a receipt and a
  -- transaction that the node gave for its hash: the receipt is accepted, the transaction has
  -- every field that was signed and is in the block of the receipt, and the fee is the gas used
  -- times the price, fits a `u128` and is at most the exposure.
  pub settle_sent-IsSettled :
      (fuel : ℕ) (hash : Digest) (p : PreparedSubmission) (sent : ℕ) (m : MinedSubmission)
      (after : ℕ)
      → settle_sent k j node reader fuel hash p sent ≡ (ok (some m), after)
      → IsSettled k j node hash p m
  unfolding settle_sent verified_submission
  settle_sent-IsSettled fuel hash p sent m after h =
      let (o, n1, waited, h1) = bind-ok (wait_for_receipt k j node reader fuel hash p) _ sent h in
      let (r, got, h2) = when_some-ok _ o n1 h1 in
      let (o2, n2, checked_o, h3) =
        bind-ok (verify_mined_transaction k j node reader fuel hash r p) _ n1 h2 in
      let (u, verified_u, h4) = when_some-ok _ o2 n2 h3 in
      let (m', n3, mined, h5) = bind-ok (lift (mined_submission hash r p)) _ n2 h4 in
      let (v, s1, l1, asked1, parsed) =
        wait-ok fuel hash p sent
          (waited ∙ ap (λ (t : Option TransactionReceipt). (ok t, n1)) got) in
      let (w, s2, l2, asked2, fields, obj, is_mined) =
        verify-ok fuel hash r p n1
          (checked_o ∙ ap (λ (t : Option (Unit {0})). (ok t, n2)) verified_u) in
      record {
        receipt_value = v;
        transaction_value = w;
        receipt = r;
        receipt_sent = s1;
        transaction_sent = s2;
        receipt_after = l1;
        transaction_after = l2;
        receipt_given = asked1;
        transaction_given = asked2;
        receipt_parsed = parsed;
        mined_fields = fields;
        is_object = obj;
        mined = is_mined;
        reported = mined_submission-IsReported hash r p m (
            lift-ok (mined_submission hash r p) n2 mined
            ∙ ap (λ (t : MinedSubmission). ok t) (some-eq (done-eq (some m') n3 h5)));
      }

-- A submission that is taken from an accepted journal and settled cost at most the fee ceiling of
-- the journal, whatever the node answers.
pub settle_sent_within_ceiling :
    (k : Keccak) (j : Json) (node : Node j) (reader : Deployment) (doc : PendingSubmissionDocument)
    (fuel : ℕ) (hash raw : List ℕ) (p : PreparedSubmission) (sent : ℕ) (m : MinedSubmission)
    (after : ℕ)
    → to_prepared k doc ≡ ok (hash, raw, p)
    → settle_sent k j node reader fuel hash p sent ≡ (ok (some m), after)
    → m.fee_paid_wei ≤ p.fee_quote.fee_ceiling_wei
settle_sent_within_ceiling k j node reader doc fuel hash raw p sent m after accepted settled =
    let (_, authorised) = to_prepared-IsAuthorised k doc hash raw p accepted in
    let s = settle_sent-IsSettled k j node reader fuel hash p sent m after settled in
    let paid = s.reported.within_exposure in let bound = authorised.within_ceiling in omega arith
