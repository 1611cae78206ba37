-- ===== src/Submit/Reading.antt =====
-- crates/bproof/src/submit.rs: reading back a journal, and what a journal may spend.
use proof_hunter_miner.Base.{
  ℕ, ◌*◌, ◌^◌, ◌≤◌, ◌<◌, ◌≡◌, refl, sym, ap, ◌∙◌, subst, ◌⊎◌, inl, inr, true, not, ◌||◌, Option,
  List, arith, ◌==◌, lt→ltb, leb→le, le→leb, ==_iff, Bool-cases, >>=-ok, and-true, require,
  require-ok, ok-injective, Result, ok, err, length,
}
use proof_hunter_miner.Bytes.{IsArray, same_bytes, same_bytes_iff, value}
use proof_hunter_miner.Failure.{
  bad_refresh_data, exposure_overflow, in_range, inconsistent_fees, inconsistent_nonces, read,
  unauthorised_fee, unsupported_version,
}
use proof_hunter_miner.Fees.{FeeError, FeeQuote, padded_gas_limit}
use proof_hunter_miner.Keccak.{Keccak}
use proof_hunter_miner.Parse.{
  hex_string, parse_address, parse_decimal_uint256, parse_digest, parse_hex_bytes, parse_hex_exact,
  parse_u128, parse_u64,
}
use proof_hunter_miner.Parse.Hex.{parse_hex-hex_string}
use proof_hunter_miner.Parse.Print.{Writes, parse_decimal_uint256-uint256_to_decimal}
use proof_hunter_miner.Submit.{PreparedSubmission}
use proof_hunter_miner.Submit.Document.{
  PendingSubmissionDocument, check_consistent, check_fees, check_version, decimal_text,
  document_fee, document_prepared, document_transaction, from_prepared, number_text, to_prepared,
}
use proof_hunter_miner.Submit.Prepare.{refresh_call_data}
use proof_hunter_miner.Word.{
  Digest, IsAddress, IsWord, Uint256, from_u128, from_u128-IsWord, from_u64, from_u64-IsWord,
  value-from_u128, value-from_u64,
}

-- What a prepared submission satisfies: its arrays are of their sizes, its numbers fit their types,
-- and its transaction and its fees agree.
pub record IsPrepared (k : Keccak) (p : PreparedSubmission) : Type 0 where
  pub mining_nonce_word : IsWord p.mining_nonce
  pub account_nonce_word : IsWord p.account_nonce
  pub challenge_id_word : IsWord p.challenge_id
  pub seed_word : IsWord p.seed_parent_block
  pub challenge_word : IsWord p.challenge
  pub digest_word : IsWord p.expected_digest
  pub chain_id_word : IsWord p.transaction.chain_id
  pub miner_address : IsAddress p.miner
  pub basket_address : IsAddress p.basket
  pub to_address : IsAddress p.transaction.to
  pub call_bytes : IsArray (length p.transaction.call_data) p.transaction.call_data
  pub base_fits : p.fee_quote.base_fee_per_gas_wei < 2 ^ 128
  pub priority_fits : p.fee_quote.priority_fee_per_gas_wei < 2 ^ 128
  pub max_fee_fits : p.fee_quote.max_fee_per_gas_wei < 2 ^ 128
  pub estimate_fits : p.fee_quote.estimated_gas < 2 ^ 64
  pub margin_fits : p.fee_quote.gas_margin_percent < 2 ^ 64
  pub gas_limit_fits : p.fee_quote.gas_limit < 2 ^ 64
  pub ceiling_fits : p.fee_quote.fee_ceiling_wei < 2 ^ 128
  pub same_nonce : p.transaction.account_nonce ≡ p.account_nonce
  pub max_fee_signed : p.transaction.max_fee_per_gas ≡ from_u128 p.fee_quote.max_fee_per_gas_wei
  pub priority_signed :
      p.transaction.max_priority_fee_per_gas ≡ from_u128 p.fee_quote.priority_fee_per_gas_wei
  pub gas_limit_signed : p.transaction.gas_limit ≡ from_u64 p.fee_quote.gas_limit
  pub padded :
      padded_gas_limit p.fee_quote.estimated_gas p.fee_quote.gas_margin_percent
      ≡ ok p.fee_quote.gas_limit
  pub exposure :
      p.fee_quote.maximum_exposure_wei ≡ p.fee_quote.gas_limit * p.fee_quote.max_fee_per_gas_wei
  pub within_ceiling : p.fee_quote.maximum_exposure_wei ≤ p.fee_quote.fee_ceiling_wei
  pub refresh_data : p.seed_refresh ≡ true → p.transaction.call_data ≡ refresh_call_data k

text_of_word :
    (word : Uint256)
    → IsWord word
    → (text : List ℕ) × (decimal_text word ≡ text)
      × Writes (value word) text
      × (parse_decimal_uint256 text ≡ ok word)
unfolding decimal_text
text_of_word word h =
    let (text, e, writes, back) = parse_decimal_uint256-uint256_to_decimal word h in
    (text, rw (decimal_text, e) refl, writes, back)

word_text :
    (word : Uint256) → IsWord word → read (parse_decimal_uint256 (decimal_text word)) ≡ ok word
word_text word h =
    let (text, e, writes, back) = text_of_word word h in rw (e, back) (unfold read in refl)

u128_text :
    (word : Uint256) (n : ℕ)
    → IsWord word
    → value word ≡ n
    → n < 2 ^ 128
    → read (parse_u128 (decimal_text word)) ≡ ok n
u128_text word n h v small =
    let (text, e, writes, back) = text_of_word word h in
    rw (e) (
      unfold read in
      unfold parse_u128 in rw (writes.digits, writes.reads, v, lt→ltb n (2 ^ 128) small) refl)

u64_text :
    (word : Uint256) (n : ℕ)
    → IsWord word
    → value word ≡ n
    → n < 2 ^ 64
    → read (parse_u64 (decimal_text word)) ≡ ok n
u64_text word n h v small =
    let (text, e, writes, back) = text_of_word word h in
    rw (e) (
      unfold read in
      unfold parse_u64 in rw (writes.digits, writes.reads, v, lt→ltb n (2 ^ 64) small) refl)

number_u128 : (n : ℕ) → n < 2 ^ 128 → read (parse_u128 (number_text n)) ≡ ok n
unfolding number_text
number_u128 n small = u128_text (from_u128 n) n (from_u128-IsWord n) (value-from_u128 n small) small

number_u64 : (n : ℕ) → n < 2 ^ 64 → read (parse_u64 (number_text n)) ≡ ok n
unfolding number_text
number_u64 n small =
    u64_text (from_u128 n) n (from_u128-IsWord n) (value-from_u128 n (omega arith)) small

pub hex_text :
    (n : ℕ) (bytes : List ℕ)
    → IsArray n bytes
    → read (parse_hex_exact n (hex_string bytes)) ≡ ok bytes
hex_text n bytes h = rw ((parse_hex-hex_string n bytes h).0) (unfold read in refl)

bytes_text :
    (n : ℕ) (bytes : List ℕ)
    → IsArray n bytes
    → read (parse_hex_bytes (hex_string bytes)) ≡ ok bytes
bytes_text n bytes h = rw ((parse_hex-hex_string n bytes h).1) (unfold read in refl)

module _ (k : Keccak) (h raw : List ℕ) (p : PreparedSubmission) (class : List ℕ)
    (reason : Option (List ℕ)) (good : IsPrepared k p) where
  abbrev doc : PendingSubmissionDocument
  doc = from_prepared h raw p class reason

  exposure_fits : p.fee_quote.maximum_exposure_wei < 2 ^ 128
  exposure_fits = let a = good.within_ceiling in let b = good.ceiling_fits in omega arith

  max_fee_text :
      read (parse_u128 (decimal_text p.transaction.max_fee_per_gas))
      ≡ ok p.fee_quote.max_fee_per_gas_wei
  max_fee_text =
      rw (good.max_fee_signed)
        (u128_text _ _ (from_u128-IsWord _) (value-from_u128 _ good.max_fee_fits) good.max_fee_fits)

  gas_limit_text :
      read (parse_u64 (decimal_text p.transaction.gas_limit)) ≡ ok p.fee_quote.gas_limit
  gas_limit_text =
      rw (good.gas_limit_signed) (
        u64_text _ _ (from_u64-IsWord _) (value-from_u64 _ good.gas_limit_fits) good.gas_limit_fits)

  document_fee-from_prepared : document_fee doc ≡ ok p.fee_quote
  unfolding document_fee from_prepared
  document_fee-from_prepared = simp (
    number_u128 _ good.base_fits,
    number_u128 _ good.priority_fits,
    max_fee_text,
    number_u64 _ good.estimate_fits,
    number_u64 _ good.margin_fits,
    gas_limit_text,
    number_u128 _ exposure_fits,
    number_u128 _ good.ceiling_fits,
  )

  signed_nonce :
      read (parse_decimal_uint256 (decimal_text p.account_nonce)) ≡ ok p.transaction.account_nonce
  signed_nonce =
      word_text p.account_nonce good.account_nonce_word
      ∙ ap (λ (w : Uint256). ok w) (sym good.same_nonce)

  document_transaction-from_prepared : document_transaction doc ≡ ok p.transaction
  unfolding document_transaction from_prepared parse_address
  document_transaction-from_prepared = simp (
    word_text _ good.chain_id_word,
    signed_nonce,
    word_text p.transaction.max_priority_fee_per_gas
        (rw (good.priority_signed) (from_u128-IsWord _)),
    word_text p.transaction.max_fee_per_gas (rw (good.max_fee_signed) (from_u128-IsWord _)),
    word_text p.transaction.gas_limit (rw (good.gas_limit_signed) (from_u64-IsWord _)),
    hex_text _ _ good.to_address,
    bytes_text _ _ good.call_bytes,
  )

  document_prepared-from_prepared : document_prepared doc p.fee_quote ≡ ok p
  unfolding document_prepared from_prepared parse_address parse_digest
  document_prepared-from_prepared = simp (
    word_text _ good.mining_nonce_word,
    word_text _ good.account_nonce_word,
    hex_text _ _ good.miner_address,
    word_text _ good.challenge_id_word,
    word_text _ good.seed_word,
    hex_text _ _ good.challenge_word,
    hex_text _ _ good.digest_word,
    hex_text _ _ good.basket_address,
    document_transaction-from_prepared,
  )

  product_fits : p.fee_quote.gas_limit * p.fee_quote.max_fee_per_gas_wei < 2 ^ 128
  product_fits = subst (λ (n : ℕ). n < 2 ^ 128) good.exposure exposure_fits

  check_fees-from_prepared : check_fees p p.fee_quote ≡ ok tt
  unfolding check_fees require in_range
  check_fees-from_prepared = simp (
    (same_bytes_iff _ _).1 good.max_fee_signed,
    (same_bytes_iff _ _).1 good.priority_signed,
    (same_bytes_iff _ _).1 good.gas_limit_signed,
    good.padded,
    lt→ltb _ _ product_fits,
    (==_iff _ _).1 refl,
    (==_iff _ _).1 (sym good.exposure),
    le→leb _ _ good.within_ceiling,
  )

  refreshes :
      (not p.seed_refresh || same_bytes p.transaction.call_data (refresh_call_data k)) ≡ true
  refreshes = elim (Bool-cases p.seed_refresh) [
    | inl is_refresh ↦ rw (is_refresh, (same_bytes_iff _ _).1 (good.refresh_data is_refresh)) refl
    | inr is_proof ↦ rw (is_proof) refl
  ]

  check_consistent-from_prepared : check_consistent k p p.fee_quote ≡ ok tt
  unfolding check_consistent require
  check_consistent-from_prepared =
      simp (refreshes, (same_bytes_iff _ _).1 good.same_nonce, check_fees-from_prepared)

-- A submission whose fields have their sizes and agree with each other is read back unchanged from
-- the journal that is written of it, with the hash and the bytes of its transaction.
pub to_prepared-from_prepared :
    (k : Keccak) (h raw : List ℕ) (p : PreparedSubmission) (class : List ℕ)
    (reason : Option (List ℕ)) {n : ℕ}
    → IsPrepared k p
    → IsWord h
    → IsArray n raw
    → to_prepared k (from_prepared h (hex_string raw) p class reason) ≡ ok (h, raw, p)
unfolding to_prepared from_prepared check_version parse_digest require
to_prepared-from_prepared k h raw p class reason good hash bytes = simp (
  hex_text _ _ hash,
  bytes_text _ _ bytes,
  document_fee-from_prepared k h (hex_string raw) p class reason good,
  document_prepared-from_prepared k h (hex_string raw) p class reason good,
  check_consistent-from_prepared k h (hex_string raw) p class reason good,
)

-- What the fees of an accepted journal are bound to.
pub record IsAuthorised (p : PreparedSubmission) : Type 0 where
  pub max_fee_signed : p.transaction.max_fee_per_gas ≡ from_u128 p.fee_quote.max_fee_per_gas_wei
  pub priority_signed :
      p.transaction.max_priority_fee_per_gas ≡ from_u128 p.fee_quote.priority_fee_per_gas_wei
  pub gas_limit_signed : p.transaction.gas_limit ≡ from_u64 p.fee_quote.gas_limit
  pub padded :
      padded_gas_limit p.fee_quote.estimated_gas p.fee_quote.gas_margin_percent
      ≡ ok p.fee_quote.gas_limit
  pub exposure :
      p.fee_quote.maximum_exposure_wei ≡ p.fee_quote.gas_limit * p.fee_quote.max_fee_per_gas_wei
  pub within_ceiling : p.fee_quote.maximum_exposure_wei ≤ p.fee_quote.fee_ceiling_wei
  pub nonces : p.transaction.account_nonce ≡ p.account_nonce

in_range-ok : {A : Type 0} (r : Result FeeError A) {a : A} → in_range r ≡ ok a → r ≡ ok a
unfolding in_range
in_range-ok (ok a) h = cc
in_range-ok (err e) h = absurd cc

document_prepared-quote :
    (doc : PendingSubmissionDocument) (q : FeeQuote) {p : PreparedSubmission}
    → document_prepared doc q ≡ ok p
    → p.fee_quote ≡ q
unfolding document_prepared
document_prepared-quote doc q h =
    let (a1, _, h1) = >>=-ok (read (parse_decimal_uint256 doc.mining_nonce)) _ h in
    let (a2, _, h2) = >>=-ok (read (parse_decimal_uint256 doc.account_nonce)) _ h1 in
    let (a3, _, h3) = >>=-ok (read (parse_address doc.miner)) _ h2 in
    let (a4, _, h4) = >>=-ok (read (parse_decimal_uint256 doc.challenge_id)) _ h3 in
    let (a5, _, h5) = >>=-ok (read (parse_decimal_uint256 doc.seed_parent_block)) _ h4 in
    let (a6, _, h6) = >>=-ok (read (parse_digest doc.challenge)) _ h5 in
    let (a7, _, h7) = >>=-ok (read (parse_digest doc.expected_digest)) _ h6 in
    let (a8, _, h8) = >>=-ok (read (parse_address doc.basket)) _ h7 in
    let (a9, _, h9) = >>=-ok (document_transaction doc) _ h8 in
    sym (ap (λ (r : PreparedSubmission). r.fee_quote) (ok-injective h9))

check_consistent-IsAuthorised :
    (k : Keccak) (p : PreparedSubmission) {u : Unit {0}}
    → check_consistent k p p.fee_quote ≡ ok u
    → IsAuthorised p
unfolding check_consistent check_fees
check_consistent-IsAuthorised k p h =
    let q = p.fee_quote in
    let (a1, _, h1) = >>=-ok (require _ bad_refresh_data) _ h in
    let (a2, nonce, h2) = >>=-ok (require _ inconsistent_nonces) _ h1 in
    let (a3, fees, h3) = >>=-ok (require _ inconsistent_fees) _ h2 in
    let (limit, pad, h4) =
      >>=-ok (in_range (padded_gas_limit q.estimated_gas q.gas_margin_percent)) _ h3 in
    let (a5, fits, h5) = >>=-ok (require _ exposure_overflow) _ h4 in
    let (f1, f23) = and-true _ _ (require-ok _ inconsistent_fees fees) in
    let (f2, f3) = and-true _ _ f23 in
    let (g1, g23) = and-true _ _ (require-ok _ unauthorised_fee h5) in
    let (g2, g3) = and-true _ _ g23 in
    record {
      max_fee_signed = (same_bytes_iff _ _).0 f1;
      priority_signed = (same_bytes_iff _ _).0 f2;
      gas_limit_signed = (same_bytes_iff _ _).0 f3;
      padded = in_range-ok _ pad ∙ ap (λ (n : ℕ). ok n) ((==_iff _ _).0 g1);
      exposure = sym ((==_iff _ _).0 g2);
      within_ceiling = leb→le _ _ g3;
      nonces = (same_bytes_iff _ _).0 (require-ok _ inconsistent_nonces nonce);
    }

one_or_two : (n : ℕ) → (n == 1 || n == 2) ≡ true → (n ≡ 1) ⊎ (n ≡ 2)
one_or_two n h = ground arith

-- A journal that is accepted has version 1 or 2; the fees and the nonce that its transaction signs
-- are those of its quote and of the submission, the gas limit is the padded estimate, and the
-- exposure is the gas limit times the fee and at most the ceiling.
pub to_prepared-IsAuthorised :
    (k : Keccak) (doc : PendingSubmissionDocument) (h raw : List ℕ) (p : PreparedSubmission)
    → to_prepared k doc ≡ ok (h, raw, p)
    → ((doc.version ≡ 1) ⊎ (doc.version ≡ 2)) × IsAuthorised p
unfolding to_prepared check_version
to_prepared-IsAuthorised k doc h raw p e =
    let (v1, version, e1) = >>=-ok (check_version doc) _ e in
    let (v2, known, _) = >>=-ok (require _ unsupported_version) _ version in
    let (h', _, e2) = >>=-ok (read (parse_digest doc.transaction_hash)) _ e1 in
    let (raw', _, e3) = >>=-ok (read (parse_hex_bytes doc.raw_transaction)) _ e2 in
    let (q, _, e4) = >>=-ok (document_fee doc) _ e3 in
    let (p', read_back, e5) = >>=-ok (document_prepared doc q) _ e4 in
    let (u, consistent, e6) = >>=-ok (check_consistent k p' q) _ e5 in
    let same : p' ≡ p = ap (λ (t : Digest × List ℕ × PreparedSubmission). t.2) (ok-injective e6) in
    let quoted : q ≡ p.fee_quote =
      sym (document_prepared-quote doc q read_back)
      ∙ ap (λ (r : PreparedSubmission). r.fee_quote) same in
    (
      one_or_two doc.version (require-ok _ unsupported_version known),
      check_consistent-IsAuthorised k p (
          subst (λ (r : PreparedSubmission). check_consistent k r p.fee_quote ≡ ok u) same
            (subst (λ (r : FeeQuote). check_consistent k p' r ≡ ok u) quoted consistent)),
    )
