-- ===== src/Receipt/Fields.antt =====
-- crates/bproof/src/submit.rs: the checks of single fields, topics and words.
use Prim.Native.String.{String}
use proof_hunter_miner.Base.{
  [], ℕ, ◌*◌, ◌≡◌, sym, ap, ◌∙◌, subst, not, some, List, ◌∷◌, ==_iff, >>=-ok, and-true, require,
  require-ok, ok_or, ok_or-ok, ok-injective, Result, ok, err, length, get_or,
}
use proof_hunter_miner.Bytes.{same_bytes, same_bytes_iff}
use proof_hunter_miner.Failure.{
  CheckError, bad_words, mismatch, missing, not_object, read, removed_log,
}
use proof_hunter_miner.Json.{Json, get_str}
use proof_hunter_miner.Parse.{
  ParseError, digits, parse_address, parse_digest, parse_hex_quantity_uint256, parse_uint256_word,
  strip_0x,
}
use proof_hunter_miner.Parse.Accepted.{strip_0x-some}
use proof_hunter_miner.Proof.{address_word}
use proof_hunter_miner.Receipt.{
  digest_field, quantity_field, require_address_field, require_digest_field, require_quantity_field,
}
use proof_hunter_miner.Receipt.Events.{
  Inclusion, event_data_words, event_fields, get_at, require_topic_address, require_topic_digest,
  require_topic_uint256, require_word_digest, require_word_uint256, topic_word, word_at, words_of,
}
use proof_hunter_miner.Word.{Address, Digest, Uint256}

pub read-ok : {A : Type 0} (r : Result ParseError A) {a : A} → read r ≡ ok a → r ≡ ok a
unfolding read
read-ok (ok a) h = cc
read-ok (err e) h = absurd cc

pub same-ok :
    (xs ys : List ℕ) (e : CheckError) {u : Unit {0}} → require (same_bytes xs ys) e ≡ ok u → xs ≡ ys
same-ok xs ys e h = (same_bytes_iff xs ys).0 (require-ok _ e h)

module _ (j : Json) where
  -- A field is a text that a parser reads as a value.
  abbrev pub Holds : {A : Type 0} → (List ℕ → Result ParseError A) → j.Fields → String → A → Type 0
  Holds parser fields name a =
      (content : List ℕ) × (get_str j fields name ≡ some content) × (parser content ≡ ok a)

  abbrev pub HoldsTopic :
      {A : Type 0} → (List ℕ → Result ParseError A) → List j.Value → ℕ → A → Type 0
  HoldsTopic parser topics index a =
      (topic : j.Value) × (content : List ℕ) × (get_at topics index ≡ some topic)
      × (j.as_str topic ≡ some content)
      × (parser content ≡ ok a)

  pub digest_field-Holds :
      (fields : j.Fields) (name : String) {d : Digest}
      → digest_field j fields name ≡ ok d
      → Holds parse_digest fields name d
  unfolding digest_field
  digest_field-Holds fields name h =
      let (content, there, h1) = >>=-ok (ok_or missing (get_str j fields name)) _ h in
      (content, ok_or-ok missing _ there, read-ok _ h1)

  pub require_digest_field-Holds :
      (fields : j.Fields) (name : String) (d : Digest) {u : Unit {0}}
      → require_digest_field j fields name d ≡ ok u
      → Holds parse_digest fields name d
  unfolding require_digest_field
  require_digest_field-Holds fields name d h =
      let (digest, held, h1) = >>=-ok (digest_field j fields name) _ h in
      subst (λ (t : Digest). Holds parse_digest fields name t) (same-ok digest d mismatch h1)
        (digest_field-Holds fields name held)

  pub require_address_field-Holds :
      (fields : j.Fields) (name : String) (a : Address) {u : Unit {0}}
      → require_address_field j fields name a ≡ ok u
      → Holds parse_address fields name a
  unfolding require_address_field
  require_address_field-Holds fields name a h =
      let (content, there, h1) = >>=-ok (ok_or missing (get_str j fields name)) _ h in
      let (address, parsed, h2) = >>=-ok (read (parse_address content)) _ h1 in
      (
        content,
        ok_or-ok missing _ there,
        read-ok _ parsed ∙ ap (λ (t : Address). ok t) (same-ok address a mismatch h2),
      )

  pub quantity_field-Holds :
      (fields : j.Fields) (name : String) {w : Uint256}
      → quantity_field j fields name ≡ ok w
      → Holds parse_hex_quantity_uint256 fields name w
  unfolding quantity_field
  quantity_field-Holds fields name h =
      let (content, there, h1) = >>=-ok (ok_or missing (get_str j fields name)) _ h in
      (content, ok_or-ok missing _ there, read-ok _ h1)

  pub require_quantity_field-Holds :
      (fields : j.Fields) (name : String) (w : Uint256) {u : Unit {0}}
      → require_quantity_field j fields name w ≡ ok u
      → Holds parse_hex_quantity_uint256 fields name w
  unfolding require_quantity_field
  require_quantity_field-Holds fields name w h =
      let (word, held, h1) = >>=-ok (quantity_field j fields name) _ h in
      subst (λ (t : Uint256). Holds parse_hex_quantity_uint256 fields name t)
        (same-ok word w mismatch h1) (quantity_field-Holds fields name held)

  pub topic_word-HoldsTopic :
      (topics : List j.Value) (index : ℕ) {w : Uint256}
      → topic_word j topics index ≡ ok w
      → HoldsTopic parse_uint256_word topics index w
  unfolding topic_word
  topic_word-HoldsTopic topics index h =
      let (topic, at, h1) = >>=-ok (ok_or missing (get_at topics index)) _ h in
      let (content, str, h2) = >>=-ok (ok_or missing (j.as_str topic)) _ h1 in
      (topic, content, ok_or-ok missing _ at, ok_or-ok missing _ str, read-ok _ h2)

  pub require_topic_uint256-HoldsTopic :
      (topics : List j.Value) (index : ℕ) (w : Uint256) {u : Unit {0}}
      → require_topic_uint256 j topics index w ≡ ok u
      → HoldsTopic parse_uint256_word topics index w
  unfolding require_topic_uint256
  require_topic_uint256-HoldsTopic topics index w h =
      let (word, held, h1) = >>=-ok (topic_word j topics index) _ h in
      subst (λ (t : Uint256). HoldsTopic parse_uint256_word topics index t)
        (same-ok word w mismatch h1) (topic_word-HoldsTopic topics index held)

  pub require_topic_address-HoldsTopic :
      (topics : List j.Value) (index : ℕ) (a : Address) {u : Unit {0}}
      → require_topic_address j topics index a ≡ ok u
      → HoldsTopic parse_uint256_word topics index (address_word a)
  unfolding require_topic_address
  require_topic_address-HoldsTopic topics index a h =
      let (word, held, h1) = >>=-ok (topic_word j topics index) _ h in
      subst (λ (t : Uint256). HoldsTopic parse_uint256_word topics index t)
        (same-ok word (address_word a) mismatch h1) (topic_word-HoldsTopic topics index held)

  pub require_topic_digest-HoldsTopic :
      (topics : List j.Value) (index : ℕ) (d : Digest) {u : Unit {0}}
      → require_topic_digest j topics index d ≡ ok u
      → HoldsTopic parse_digest topics index d
  unfolding require_topic_digest
  require_topic_digest-HoldsTopic topics index d h =
      let (topic, at, h1) = >>=-ok (ok_or missing (get_at topics index)) _ h in
      let (content, str, h2) = >>=-ok (ok_or missing (j.as_str topic)) _ h1 in
      let (digest, parsed, h3) = >>=-ok (read (parse_digest content)) _ h2 in
      (
        topic,
        content,
        ok_or-ok missing _ at,
        ok_or-ok missing _ str,
        read-ok _ parsed ∙ ap (λ (t : Digest). ok t) (same-ok digest d mismatch h3),
      )

  -- A log that is of this block and transaction, and was not removed.
  pub record IsLogOf (fields : j.Fields) (at : Inclusion) (emitter : Address) : Type 0 where
    pub emitted : Holds parse_address fields "address" emitter
    pub of_transaction : Holds parse_digest fields "transactionHash" at.transaction_hash
    pub of_block : Holds parse_digest fields "blockHash" at.block_hash
    pub at_height : Holds parse_hex_quantity_uint256 fields "blockNumber" at.block_number

  pub event_fields-IsLogOf :
      (log : j.Value) (at : Inclusion) (emitter : Address) {fields : j.Fields}
      → event_fields j log at emitter ≡ ok fields
      → (j.as_object log ≡ some fields) × IsLogOf fields at emitter
  unfolding event_fields
  event_fields-IsLogOf log at emitter {fields} h =
      let (there, obj, h1) = >>=-ok (ok_or not_object (j.as_object log)) _ h in
      let (u1, c1, h2) = >>=-ok (require_address_field j there "address" emitter) _ h1 in
      let (u2, c2, h3) =
        >>=-ok (require_digest_field j there "transactionHash" at.transaction_hash) _ h2 in
      let (u3, c3, h4) = >>=-ok (require_digest_field j there "blockHash" at.block_hash) _ h3 in
      let (u4, c4, h5) =
        >>=-ok (require_quantity_field j there "blockNumber" at.block_number) _ h4 in
      let (removed, c5, h6) = >>=-ok (ok_or removed_log _) _ h5 in
      let (u6, c6, h7) = >>=-ok (require (not removed) removed_log) _ h6 in
      let same : there ≡ fields = ok-injective h7 in
      (
        ok_or-ok not_object _ obj ∙ ap (λ (t : j.Fields). some t) same,
        subst (λ (t : j.Fields). IsLogOf t at emitter) same
            (record {
              emitted = require_address_field-Holds there "address" emitter c1;
              of_transaction =
                  require_digest_field-Holds there "transactionHash" at.transaction_hash c2;
              of_block = require_digest_field-Holds there "blockHash" at.block_hash c3;
              at_height = require_quantity_field-Holds there "blockNumber" at.block_number c4;
            }),
      )

  -- The data of a log is so many words.
  abbrev pub HoldsWords : j.Fields → ℕ → List (List ℕ) → Type 0
  HoldsWords fields count words =
      (hex : List ℕ) × (get_str j fields "data" ≡ some (b'0' ∷ (b'x' ∷ hex)))
      × (length hex ≡ count * 64)
      × (words ≡ words_of count hex)

  pub event_data_words-HoldsWords :
      (fields : j.Fields) (count : ℕ) {words : List (List ℕ)}
      → event_data_words j fields count ≡ ok words
      → HoldsWords fields count words
  unfolding event_data_words
  event_data_words-HoldsWords fields count h =
      let (content, there, h1) = >>=-ok (ok_or missing (get_str j fields "data")) _ h in
      let (hex, stripped, h2) = >>=-ok (ok_or bad_words (strip_0x content)) _ h1 in
      let (u, good, h3) = >>=-ok (require _ bad_words) _ h2 in
      let (size, digits) = and-true _ _ (require-ok _ bad_words good) in
      (
        hex,
        ok_or-ok missing _ there
            ∙ ap (λ (t : List ℕ). some t)
                (strip_0x-some content hex (ok_or-ok bad_words _ stripped)),
        (==_iff _ _).0 size,
        sym (ok-injective h3),
      )

pub word_at-ok :
    (words : List (List ℕ)) (index : ℕ) {w : Uint256}
    → word_at words index ≡ ok w
    → parse_uint256_word (get_or words index []) ≡ ok w
unfolding word_at
word_at-ok words index h = read-ok _ h

pub require_word_uint256-ok :
    (words : List (List ℕ)) (index : ℕ) (w : Uint256) {u : Unit {0}}
    → require_word_uint256 words index w ≡ ok u
    → parse_uint256_word (get_or words index []) ≡ ok w
unfolding require_word_uint256
require_word_uint256-ok words index w h =
    let (word, parsed, h1) = >>=-ok (word_at words index) _ h in
    word_at-ok words index parsed ∙ ap (λ (t : Uint256). ok t) (same-ok word w mismatch h1)

pub require_word_digest-ok :
    (words : List (List ℕ)) (index : ℕ) (d : Digest) {u : Unit {0}}
    → require_word_digest words index d ≡ ok u
    → parse_digest (get_or words index []) ≡ ok d
unfolding require_word_digest
require_word_digest-ok words index d h =
    let (digest, parsed, h1) = >>=-ok (read (parse_digest (get_or words index []))) _ h in
    read-ok _ parsed ∙ ap (λ (t : Digest). ok t) (same-ok digest d mismatch h1)
