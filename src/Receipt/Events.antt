-- ===== src/Receipt/Events.antt =====
-- crates/bproof/src/submit.rs: the events in the logs of a receipt.
use proof_hunter_miner.Base.{
  [], ℕ, zero, suc, ◌*◌, Bool, true, false, not, ◌&&◌, Option, none, some, List, ◌∷◌, ◌==◌,
  if◌then◌else◌, require, ok_or, ok, ◌>>=◌, length, take, drop, get_or,
}
use proof_hunter_miner.Bytes.{same_bytes, value}
use proof_hunter_miner.Failure.{
  Checked, all_hex, bad_topics, bad_words, mismatch, missing, not_object, read, removed_log,
}
use proof_hunter_miner.Json.{Json, get_array, get_str}
use proof_hunter_miner.Keccak.{Keccak, keccak256}
use proof_hunter_miner.Parse.{hex_string, parse_digest, parse_uint256_word, strip_0x}
use proof_hunter_miner.Proof.{address_word}
use proof_hunter_miner.Receipt.{
  eq_ignore_ascii_case, require_address_field, require_digest_field, require_quantity_field,
}
use proof_hunter_miner.Word.{Address, Digest, Uint256}

-- The transaction that the events must belong to.
pub record Inclusion : Type 0 where
  pub transaction_hash : Digest
  pub block_hash : Digest
  pub block_number : Uint256

abbrev pub inclusion : Digest → Digest → Uint256 → Inclusion
inclusion transaction_hash block_hash block_number = record {
  transaction_hash = transaction_hash;
  block_hash = block_hash;
  block_number = block_number;
}

-- `==` of two `bool`s.
abbrev pub same_bool : Bool → Bool → Bool
same_bool true b = b
same_bool false b = not b

unfoldable pub event_signature : Keccak → List ℕ → Digest
event_signature k signature = keccak256 k signature

unfoldable pub first : {A : Type 0} → List A → Option A
first [] = none
first (x ∷ xs) = some x

-- `topics.get(index)`.
unfoldable pub get_at : {A : Type 0} → List A → ℕ → Option A
get_at [] i = none
get_at (x ∷ xs) zero = some x
get_at (x ∷ xs) (suc i) = get_at xs i

-- `chunks_exact(64)`, each with `0x` in front.
unfoldable pub words_of : ℕ → List ℕ → List (List ℕ)
words_of zero hex = []
words_of (suc n) hex = (b'0' ∷ (b'x' ∷ take 64 hex)) ∷ words_of n (drop 64 hex)

module _ (j : Json) where
  -- The first topic of a log is the signature, in either case of its digits.
  unfoldable pub is_candidate : j.Fields → Digest → Bool
  is_candidate fields signature = elim (get_array j fields "topics") [
    | none ↦ false
    | some topics ↦ elim (first topics) [
      | none ↦ false
      | some topic ↦ elim (j.as_str topic) [
        | none ↦ false
        | some text ↦ eq_ignore_ascii_case text (hex_string signature)
      ]
    ]
  ]

  -- The `collect` of results stops at the first log that is no object.
  unfoldable pub event_candidates : List j.Value → Digest → Checked (List j.Value)
  event_candidates [] signature = ok []
  event_candidates (log ∷ logs) signature = do
    fields ← ok_or not_object (j.as_object log)
    rest ← event_candidates logs signature
    ok (if is_candidate fields signature then log ∷ rest else rest)

  unfoldable pub event_fields : j.Value → Inclusion → Address → Checked j.Fields
  event_fields log at emitter = do
    fields ← ok_or not_object (j.as_object log)
    _ ← require_address_field j fields "address" emitter
    _ ← require_digest_field j fields "transactionHash" at.transaction_hash
    _ ← require_digest_field j fields "blockHash" at.block_hash
    _ ← require_quantity_field j fields "blockNumber" at.block_number
    removed ←
        ok_or removed_log
          (elim (j.get fields "removed") [ none ↦ none | some value ↦ j.as_bool value ])
    _ ← require (not removed) removed_log
    ok fields

  unfoldable pub event_topics : j.Fields → ℕ → Checked (List j.Value)
  event_topics fields expected_len = do
    topics ← ok_or missing (get_array j fields "topics")
    _ ← require (length topics == expected_len) bad_topics
    ok topics

  unfoldable pub event_data_words : j.Fields → ℕ → Checked (List (List ℕ))
  event_data_words fields expected_words = do
    text ← ok_or missing (get_str j fields "data")
    hex ← ok_or bad_words (strip_0x text)
    _ ← require (length hex == expected_words * 64 && all_hex hex) bad_words
    ok (words_of expected_words hex)

  unfoldable pub topic_word : List j.Value → ℕ → Checked Uint256
  topic_word topics index = do
    topic ← ok_or missing (get_at topics index)
    text ← ok_or missing (j.as_str topic)
    read (parse_uint256_word text)

  unfoldable pub require_topic_address : List j.Value → ℕ → Address → Checked (Unit {0})
  require_topic_address topics index expected = do
    word ← topic_word topics index
    require (same_bytes word (address_word expected)) mismatch

  unfoldable pub require_topic_uint256 : List j.Value → ℕ → Uint256 → Checked (Unit {0})
  require_topic_uint256 topics index expected = do
    word ← topic_word topics index
    require (same_bytes word expected) mismatch

  unfoldable pub require_topic_digest : List j.Value → ℕ → Digest → Checked (Unit {0})
  require_topic_digest topics index expected = do
    topic ← ok_or missing (get_at topics index)
    text ← ok_or missing (j.as_str topic)
    digest ← read (parse_digest text)
    require (same_bytes digest expected) mismatch

-- `words[index]`: the callers stay within the words that were counted.
unfoldable pub word_at : List (List ℕ) → ℕ → Checked Uint256
word_at words index = read (parse_uint256_word (get_or words index []))

unfoldable pub require_word_uint256 : List (List ℕ) → ℕ → Uint256 → Checked (Unit {0})
require_word_uint256 words index expected = do
  word ← word_at words index
  require (same_bytes word expected) mismatch

unfoldable pub require_word_digest : List (List ℕ) → ℕ → Digest → Checked (Unit {0})
require_word_digest words index expected = do
  digest ← read (parse_digest (get_or words index []))
  require (same_bytes digest expected) mismatch
