-- ===== src/Receipt/Settled.antt =====
-- crates/bproof/src/submit.rs: what a receipt that is accepted says.
use proof_hunter_miner.Base.{
  [], ℕ, ◌≡◌, refl, ap, ◌∙◌, subst, ◌≢◌, Bool, true, false, not, ◌&&◌, Option, some, List, ◌∷◌,
  ◌==◌, ==_iff, >>=-ok, require, require-ok, ok_or, ok_or-ok, ok-injective, ok, length, get_or,
}
use proof_hunter_miner.Bytes.{bytes_ltb, same_bytes, same_bytes_iff}
use proof_hunter_miner.Failure.{
  CheckError, bad_status, bad_topics, id_overflow, in_range, is_some, mint_mismatch, missing,
  no_logs, not_object, refresh_minted, seed_not_advanced,
}
use proof_hunter_miner.Fees.{uint256_to_u128}
use proof_hunter_miner.Json.{Json, get_array}
use proof_hunter_miner.Keccak.{Keccak, keccak256}
use proof_hunter_miner.Parse.{parse_digest, parse_uint256_word}
use proof_hunter_miner.Proof.{address_word}
use proof_hunter_miner.Receipt.{
  digest_field, quantity_field, receipt_quantity, require_address_field, require_digest_field,
}
use proof_hunter_miner.Receipt.Candidates.{IsSole, event_candidates-IsSole}
use proof_hunter_miner.Receipt.Events.{
  Inclusion, event_candidates, event_data_words, event_fields, event_signature, event_topics,
  inclusion, require_topic_address, require_topic_digest, require_topic_uint256,
  require_word_digest, require_word_uint256, same_bool, word_at,
}
use proof_hunter_miner.Receipt.Fields.{
  HoldsTopic, HoldsWords, IsLogOf, event_data_words-HoldsWords, event_fields-IsLogOf,
  require_topic_address-HoldsTopic, require_topic_digest-HoldsTopic,
  require_topic_uint256-HoldsTopic, require_word_digest-ok, require_word_uint256-ok, word_at-ok,
}
use proof_hunter_miner.Receipt.Parse.{
  TransactionReceipt, acceptance_demand, check_accepted, check_mint, mint_demand, only,
  parse_receipt, proof_accepted_event, refreshed_event, refreshed_of, seed_refreshed_event,
  verify_proof_accepted_event, verify_proof_nft_event, verify_seed_refreshed_event,
}
use proof_hunter_miner.Submit.{PreparedSubmission}
use proof_hunter_miner.Word.{Digest, Uint256, word_one, word_zero, wrapping_add}

abbrev pub inclusion_of : Digest → TransactionReceipt → Inclusion
inclusion_of transaction_hash r = inclusion transaction_hash r.block_hash r.block_number

-- The logs that a receipt lists.
abbrev pub HasLogs : (j : Json) → j.Value → List j.Value → Type 0
HasLogs j receipt logs =
    (fields : j.Fields) × (j.as_object receipt ≡ some fields)
    × (get_array j fields "logs" ≡ some logs)

module _ (j : Json) where
  -- The event that a proof was accepted: the miner, the challenge, the digest and the nonce that were signed.
  pub record IsAcceptedLog (at : Inclusion) (p : PreparedSubmission) (log : j.Value) : Type 0 where
    pub fields : j.Fields
    pub topics : List j.Value
    pub words : List (List ℕ)
    pub is_object : j.as_object log ≡ some fields
    pub is_log : IsLogOf j fields at p.transaction.to
    pub has_topics : get_array j fields "topics" ≡ some topics
    pub four_topics : length topics ≡ 4
    pub miner_topic : HoldsTopic j parse_uint256_word topics 1 (address_word p.miner)
    pub challenge_topic : HoldsTopic j parse_uint256_word topics 2 p.challenge_id
    pub digest_topic : HoldsTopic j parse_digest topics 3 p.expected_digest
    pub has_words : HoldsWords j fields 8 words
    pub seed_read : parse_uint256_word (get_or words 0 []) ≡ ok p.seed_parent_block
    pub challenge_read : parse_digest (get_or words 1 []) ≡ ok p.challenge
    pub nonce_read : parse_uint256_word (get_or words 2 []) ≡ ok p.mining_nonce

  only-ok : {A : Type 0} (xs : List A) {x : A} → only xs ≡ ok x → xs ≡ x ∷ []
  unfolding only
  only-ok [] h = absurd cc
  only-ok (x ∷ []) h = cc
  only-ok (x ∷ (y ∷ ys)) h = absurd cc

  event_topics-ok :
      (fields : j.Fields) (count : ℕ) {topics : List j.Value}
      → event_topics j fields count ≡ ok topics
      → (get_array j fields "topics" ≡ some topics) × (length topics ≡ count)
  unfolding event_topics
  event_topics-ok fields count h =
      let (ts, there, h1) = >>=-ok (ok_or missing (get_array j fields "topics")) _ h in
      let (u, size, h2) = >>=-ok (require (length ts == count) bad_topics) _ h1 in
      let same = ok-injective h2 in
      (
        ok_or-ok missing _ there ∙ ap (λ (t : List j.Value). some t) same,
        subst (λ (t : List j.Value). length t ≡ count) same
            ((==_iff _ _).0 (require-ok _ bad_topics size)),
      )

  verify_proof_accepted_event-IsAcceptedLog :
      (k : Keccak) (logs : List j.Value) (at : Inclusion) (p : PreparedSubmission) {u : Unit {0}}
      → verify_proof_accepted_event k j logs at p ≡ ok u
      → (log : j.Value) × (event_candidates j logs (event_signature k proof_accepted_event)
          ≡ ok (log ∷ []))
        × IsAcceptedLog at p log
  unfolding verify_proof_accepted_event
  verify_proof_accepted_event-IsAcceptedLog k logs at p h =
      let (candidates, all, h1) =
        >>=-ok (event_candidates j logs (event_signature k proof_accepted_event)) _ h in
      let (log, one, h2) = >>=-ok (only candidates) _ h1 in
      let (fields, ef, h3) = >>=-ok (event_fields j log at p.transaction.to) _ h2 in
      let (topics, et, h4) = >>=-ok (event_topics j fields 4) _ h3 in
      let (u1, t1, h5) = >>=-ok (require_topic_address j topics 1 p.miner) _ h4 in
      let (u2, t2, h6) = >>=-ok (require_topic_uint256 j topics 2 p.challenge_id) _ h5 in
      let (u3, t3, h7) = >>=-ok (require_topic_digest j topics 3 p.expected_digest) _ h6 in
      let (words, ew, h8) = >>=-ok (event_data_words j fields 8) _ h7 in
      let (u4, w0, h9) = >>=-ok (require_word_uint256 words 0 p.seed_parent_block) _ h8 in
      let (u5, w1, h10) = >>=-ok (require_word_digest words 1 p.challenge) _ h9 in
      let (obj, is_of) = event_fields-IsLogOf j log at p.transaction.to ef in
      let (has, four) = event_topics-ok fields 4 et in
      (
        log,
        all ∙ ap (λ (t : List j.Value). ok t) (only-ok candidates one),
        record {
          fields = fields;
          topics = topics;
          words = words;
          is_object = obj;
          is_log = is_of;
          has_topics = has;
          four_topics = four;
          miner_topic = require_topic_address-HoldsTopic j topics 1 p.miner t1;
          challenge_topic = require_topic_uint256-HoldsTopic j topics 2 p.challenge_id t2;
          digest_topic = require_topic_digest-HoldsTopic j topics 3 p.expected_digest t3;
          has_words = event_data_words-HoldsWords j fields 8 ew;
          seed_read = require_word_uint256-ok words 0 p.seed_parent_block w0;
          challenge_read = require_word_digest-ok words 1 p.challenge w1;
          nonce_read = require_word_uint256-ok words 2 p.mining_nonce h10;
        },
      )

  -- The event that a seed was refreshed: the challenge after the expired one, at a later seed block.
  pub record IsRefreshedLog (at : Inclusion) (p : PreparedSubmission) (log : j.Value) : Type 0 where
    pub fields : j.Fields
    pub topics : List j.Value
    pub words : List (List ℕ)
    pub seed : Uint256
    pub is_object : j.as_object log ≡ some fields
    pub is_log : IsLogOf j fields at p.transaction.to
    pub has_topics : get_array j fields "topics" ≡ some topics
    pub three_topics : length topics ≡ 3
    pub expired_topic : HoldsTopic j parse_uint256_word topics 1 p.challenge_id
    pub next_topic : HoldsTopic j parse_uint256_word topics 2 (wrapping_add p.challenge_id word_one)
    pub no_wrap : wrapping_add p.challenge_id word_one ≢ word_zero
    pub has_words : HoldsWords j fields 2 words
    pub expired_read : parse_uint256_word (get_or words 0 []) ≡ ok p.seed_parent_block
    pub seed_read : parse_uint256_word (get_or words 1 []) ≡ ok seed
    pub advanced : bytes_ltb p.seed_parent_block seed ≡ true

  not_same :
      (xs ys : List ℕ) (e : CheckError) {u : Unit {0}}
      → require (not (same_bytes xs ys)) e ≡ ok u
      → xs ≢ ys
  not_same xs ys e h same =
      let t : not (same_bytes xs ys) ≡ true = require-ok _ e h in
      let f : same_bytes xs ys ≡ true = (same_bytes_iff xs ys).1 same in absurd cc

  refreshed_event-IsRefreshedLog :
      (k : Keccak) (log : j.Value) (at : Inclusion) (p : PreparedSubmission) {u : Unit {0}}
      → refreshed_event k j log at p ≡ ok u
      → IsRefreshedLog at p log
  unfolding refreshed_event
  refreshed_event-IsRefreshedLog k log at p h =
      let next = wrapping_add p.challenge_id word_one in
      let (fields, ef, h1) = >>=-ok (event_fields j log at p.transaction.to) _ h in
      let (topics, et, h2) = >>=-ok (event_topics j fields 3) _ h1 in
      let (u1, t1, h3) = >>=-ok (require_topic_uint256 j topics 1 p.challenge_id) _ h2 in
      let (u2, wrap, h4) = >>=-ok (require (not (same_bytes next word_zero)) id_overflow) _ h3 in
      let (u3, t2, h5) = >>=-ok (require_topic_uint256 j topics 2 next) _ h4 in
      let (words, ew, h6) = >>=-ok (event_data_words j fields 2) _ h5 in
      let (u4, w0, h7) = >>=-ok (require_word_uint256 words 0 p.seed_parent_block) _ h6 in
      let (seed, w1, h8) = >>=-ok (word_at words 1) _ h7 in
      let (obj, is_of) = event_fields-IsLogOf j log at p.transaction.to ef in
      let (has, three) = event_topics-ok fields 3 et in
      record {
        fields = fields;
        topics = topics;
        words = words;
        seed = seed;
        is_object = obj;
        is_log = is_of;
        has_topics = has;
        three_topics = three;
        expired_topic = require_topic_uint256-HoldsTopic j topics 1 p.challenge_id t1;
        next_topic = require_topic_uint256-HoldsTopic j topics 2 next t2;
        no_wrap = not_same next word_zero id_overflow wrap;
        has_words = event_data_words-HoldsWords j fields 2 ew;
        expired_read = require_word_uint256-ok words 0 p.seed_parent_block w0;
        seed_read = word_at-ok words 1 w1;
        advanced = require-ok _ seed_not_advanced h8;
      }

  module _ (k : Keccak) where
    accepted_when :
        (logs : List j.Value) (at : Inclusion) (p : PreparedSubmission) (succeeded : Bool)
        {u : Unit {0}}
        → succeeded ≡ true
        → p.seed_refresh ≡ false
        → check_accepted k j logs at p succeeded ≡ ok u
        → verify_proof_accepted_event k j logs at p ≡ ok u
    unfolding check_accepted acceptance_demand
    accepted_when logs at p succeeded {u} success is_proof h =
        let decided : (succeeded && not p.seed_refresh) ≡ true =
          ap (λ (b : Bool). b && not p.seed_refresh) success ∙ ap (λ (b : Bool). not b) is_proof in
        subst (λ (b : Bool). acceptance_demand k j b logs at p ≡ ok u) decided h

    refreshed_of-ok :
        (candidates : List j.Value) (at : Inclusion) (p : PreparedSubmission) {u : Unit {0}}
        → refreshed_of k j true candidates at p ≡ ok u
        → (log : j.Value) × (candidates ≡ log ∷ []) × IsRefreshedLog at p log
    unfolding refreshed_of
    refreshed_of-ok candidates at p h =
        let (log, one, h1) = >>=-ok (only candidates) _ h in
        (log, only-ok candidates one, refreshed_event-IsRefreshedLog k log at p h1)

    refreshed_when :
        (logs : List j.Value) (at : Inclusion) (p : PreparedSubmission) (succeeded : Bool)
        (token : Option Uint256) {u : Unit {0}}
        → succeeded ≡ true
        → p.seed_refresh ≡ true
        → check_mint k j logs at p succeeded token ≡ ok u
        → (log : j.Value) × (event_candidates j logs (event_signature k seed_refreshed_event)
            ≡ ok (log ∷ []))
          × IsRefreshedLog at p log
    unfolding check_mint mint_demand verify_seed_refreshed_event
    refreshed_when logs at p succeeded token {u} success is_refresh h =
        let demand =
          subst (λ (b : Bool). mint_demand k j b logs at p succeeded token ≡ ok u) is_refresh h in
        let (u1, event, _) =
          >>=-ok (verify_seed_refreshed_event k j logs at p succeeded) _ demand in
        let (candidates, all, h1) =
          >>=-ok (event_candidates j logs (event_signature k seed_refreshed_event)) _ event in
        let (log, one, good) =
          refreshed_of-ok candidates at p
            (subst (λ (b : Bool). refreshed_of k j b candidates at p ≡ ok u1) success h1) in
        (log, all ∙ ap (λ (t : List j.Value). ok t) one, good)

    same_bool-eq : (a b : Bool) → same_bool a b ≡ true → b ≡ (a && true)
    same_bool-eq true b h = h
    same_bool-eq false true h = absurd cc
    same_bool-eq false false h = refl

    not-true : (a b : Bool) → not b ≡ true → b ≡ (a && false)
    not-true a true h = absurd cc
    not-true true false h = refl
    not-true false false h = refl

    minted_when :
        (refresh : Bool) (logs : List j.Value) (at : Inclusion) (p : PreparedSubmission)
        (succeeded : Bool) (token : Option Uint256) {u : Unit {0}}
        → mint_demand k j refresh logs at p succeeded token ≡ ok u
        → is_some token ≡ (succeeded && not refresh)
    unfolding mint_demand
    minted_when true logs at p succeeded token h =
        let (u, _, h1) = >>=-ok (verify_seed_refreshed_event k j logs at p succeeded) _ h in
        not-true succeeded (is_some token) (require-ok _ refresh_minted h1)
    minted_when false logs at p succeeded token h =
        same_bool-eq succeeded (is_some token) (require-ok _ mint_mismatch h)

    -- What is left of a receipt that is accepted, once its fields are read.
    pub record IsChecked (logs : List j.Value) (hash : Digest) (p : PreparedSubmission)
        (r : TransactionReceipt) : Type 0 where
      pub unit_accepted : Unit {0}
      pub unit_mint : Unit {0}
      pub accepted : check_accepted k j logs (inclusion_of hash r) p r.succeeded ≡ ok unit_accepted
      pub minted : verify_proof_nft_event k j logs (inclusion_of hash r) p ≡ ok r.nft_token_id
      pub mint :
          check_mint k j logs (inclusion_of hash r) p r.succeeded r.nft_token_id ≡ ok unit_mint
      pub is_minted : r.proof_nft_minted ≡ is_some r.nft_token_id

    pub parse_receipt-IsChecked :
        (v : j.Value) (hash : Digest) (p : PreparedSubmission) (r : TransactionReceipt)
        → parse_receipt k j v hash p ≡ ok r
        → (fields : j.Fields) × (logs : List j.Value) × (j.as_object v ≡ some fields)
          × (get_array j fields "logs" ≡ some logs)
          × IsChecked logs hash p r
    unfolding parse_receipt
    parse_receipt-IsChecked v hash p r h =
        let (fields, obj, h1) = >>=-ok (ok_or not_object (j.as_object v)) _ h in
        let (u1, _, h2) = >>=-ok (require_digest_field j fields "transactionHash" hash) _ h1 in
        let (u2, _, h3) = >>=-ok (require_address_field j fields "from" p.miner) _ h2 in
        let (u3, _, h4) = >>=-ok (require_address_field j fields "to" p.transaction.to) _ h3 in
        let (bh, _, h5) = >>=-ok (digest_field j fields "blockHash") _ h4 in
        let (bn, _, h6) = >>=-ok (quantity_field j fields "blockNumber") _ h5 in
        let (status, _, h7) = >>=-ok (receipt_quantity j fields "status") _ h6 in
        let (u4, _, h8) = >>=-ok (require _ bad_status) _ h7 in
        let (gw, _, h9) = >>=-ok (receipt_quantity j fields "gasUsed") _ h8 in
        let (g, _, h10) = >>=-ok (in_range (uint256_to_u128 gw)) _ h9 in
        let (pw, _, h11) = >>=-ok (receipt_quantity j fields "effectiveGasPrice") _ h10 in
        let (price, _, h12) = >>=-ok (in_range (uint256_to_u128 pw)) _ h11 in
        let (logs, ls, h13) = >>=-ok (ok_or no_logs (get_array j fields "logs")) _ h12 in
        let at = inclusion hash bh bn in
        let (u5, acc, h14) =
          >>=-ok (check_accepted k j logs at p (same_bytes status word_one)) _ h13 in
        let (token, nft, h15) = >>=-ok (verify_proof_nft_event k j logs at p) _ h14 in
        let (u6, mint, h16) =
          >>=-ok (check_mint k j logs at p (same_bytes status word_one) token) _ h15 in
        (
          fields,
          logs,
          ok_or-ok not_object _ obj,
          ok_or-ok no_logs _ ls,
          subst (λ (t : TransactionReceipt). IsChecked logs hash p t) (ok-injective h16)
              (record {
                unit_accepted = u5;
                unit_mint = u6;
                accepted = acc;
                minted = nft;
                mint = mint;
                is_minted = refl;
              }),
        )

    event_signature-IsSole :
        (event : List ℕ) (logs : List j.Value) (log : j.Value)
        → event_candidates j logs (event_signature k event) ≡ ok (log ∷ [])
        → IsSole j (keccak256 k event) logs log
    unfolding event_signature
    event_signature-IsSole event logs log one =
        event_candidates-IsSole j logs (keccak256 k event) log one

    -- A receipt of a proof that is accepted and says success lists exactly one log whose first
    -- topic is the signature of the event that a proof was accepted; it is by the core and in the
    -- transaction and block of the receipt, with the miner, the challenge, the digest, the seed
    -- block and the nonce that were prepared.
    pub parse_receipt-IsAcceptedLog :
        (v : j.Value) (hash : Digest) (p : PreparedSubmission) (r : TransactionReceipt)
        → parse_receipt k j v hash p ≡ ok r
        → r.succeeded ≡ true
        → p.seed_refresh ≡ false
        → (logs : List j.Value) × (log : j.Value) × HasLogs j v logs
          × (event_candidates j logs (event_signature k proof_accepted_event) ≡ ok (log ∷ []))
          × IsSole j (keccak256 k proof_accepted_event) logs log
          × IsAcceptedLog (inclusion_of hash r) p log
    parse_receipt-IsAcceptedLog v hash p r h success is_proof =
        let (fields, logs, obj, ls, c) = parse_receipt-IsChecked v hash p r h in
        let (log, one, good) =
          verify_proof_accepted_event-IsAcceptedLog k logs (inclusion_of hash r) p
            (accepted_when logs (inclusion_of hash r) p r.succeeded success is_proof c.accepted) in
        (
          logs,
          log,
          (fields, obj, ls),
          one,
          event_signature-IsSole proof_accepted_event logs log one,
          good,
        )

    -- A receipt of a seed refresh that is accepted and says success lists exactly one log whose
    -- first topic is the signature of the event that the seed was refreshed; it names the expired
    -- challenge and seed block, the next challenge, which does not wrap around, and a later seed
    -- block.
    pub parse_receipt-IsRefreshedLog :
        (v : j.Value) (hash : Digest) (p : PreparedSubmission) (r : TransactionReceipt)
        → parse_receipt k j v hash p ≡ ok r
        → r.succeeded ≡ true
        → p.seed_refresh ≡ true
        → (logs : List j.Value) × (log : j.Value) × HasLogs j v logs
          × (event_candidates j logs (event_signature k seed_refreshed_event) ≡ ok (log ∷ []))
          × IsSole j (keccak256 k seed_refreshed_event) logs log
          × IsRefreshedLog (inclusion_of hash r) p log
    parse_receipt-IsRefreshedLog v hash p r h success is_refresh =
        let (fields, logs, obj, ls, c) = parse_receipt-IsChecked v hash p r h in
        let (log, one, good) =
          refreshed_when logs (inclusion_of hash r) p r.succeeded r.nft_token_id success is_refresh
            c.mint in
        (
          logs,
          log,
          (fields, obj, ls),
          one,
          event_signature-IsSole seed_refreshed_event logs log one,
          good,
        )

    -- An accepted receipt reports an NFT exactly when it reports success and the transaction is no
    -- seed refresh.
    pub parse_receipt_minted_iff :
        (v : j.Value) (hash : Digest) (p : PreparedSubmission) (r : TransactionReceipt)
        → parse_receipt k j v hash p ≡ ok r
        → r.proof_nft_minted ≡ (r.succeeded && not p.seed_refresh)
    unfolding check_mint
    parse_receipt_minted_iff v hash p r h =
        let (fields, logs, obj, ls, c) = parse_receipt-IsChecked v hash p r h in
        c.is_minted
        ∙ minted_when p.seed_refresh logs (inclusion_of hash r) p r.succeeded r.nft_token_id c.mint
