-- ===== src/Documents.antt =====
-- JSON as a tree, and the documents that a node answers: test data.
use Prim.Native.String.{String}
use proof_hunter_miner.Base.{
  [], ℕ, Bool, true, false, Option, none, some, List, ◌∷◌, ◌++◌, if◌then◌else◌, codes, replicate,
}
use proof_hunter_miner.Flows.{last_word}
use proof_hunter_miner.Bytes.{same_bytes}
use proof_hunter_miner.Json.{Json}
use proof_hunter_miner.Parse.{hex_string}
use proof_hunter_miner.Proof.{address_word}
use proof_hunter_miner.Receipt.Events.{event_signature}
use proof_hunter_miner.Receipt.Parse.{proof_accepted_event, proof_nft_event}
use proof_hunter_miner.Submit.{PreparedSubmission}
use proof_hunter_miner.Word.{Digest, from_u64, word_one}

mutual
  pub data Doc : Type 0 where
    doc_null : Doc
    doc_flag : Bool → Doc
    doc_number : ℕ → Doc
    doc_text : List ℕ → Doc
    doc_array : Docs → Doc
    doc_object : Entries → Doc

  pub data Docs : Type 0 where
    no_docs : Docs
    more_docs : Doc → Docs → Docs

  pub data Entries : Type 0 where
    no_entries : Entries
    entry : String → Doc → Entries → Entries

unfoldable pub listed : Docs → List Doc
listed no_docs = []
listed (more_docs d ds) = d ∷ listed ds

unfoldable pub lookup : Entries → String → Option Doc
lookup no_entries name = none
lookup (entry key d rest) name =
    let later = lookup rest name in if same_bytes (codes key) (codes name) then some d else later

unfoldable pub entry_keys : Entries → List (List ℕ)
entry_keys no_entries = []
entry_keys (entry key d rest) = codes key ∷ entry_keys rest

unfoldable pub entries_of : Doc → Option Entries
entries_of (doc_object entries) = some entries
entries_of _ = none

unfoldable pub text_in : Doc → Option (List ℕ)
text_in (doc_text content) = some content
text_in _ = none

unfoldable pub array_in : Doc → Option (List Doc)
array_in (doc_array ds) = some (listed ds)
array_in _ = none

unfoldable pub flag_in : Doc → Option Bool
flag_in (doc_flag b) = some b
flag_in _ = none

unfoldable pub number_in : Doc → Option ℕ
number_in (doc_number n) = some n
number_in _ = none

unfoldable pub null_in : Doc → Bool
null_in doc_null = true
null_in _ = false

abbrev pub json : Json
json = record {
  Value = Doc;
  Fields = Entries;
  as_object = entries_of;
  get = lookup;
  keys = entry_keys;
  as_str = text_in;
  as_array = array_in;
  as_bool = flag_in;
  as_u64 = number_in;
  is_null = null_in;
}

-- The reply with a result.
abbrev pub reply : Doc → Doc
reply result = doc_object (
    entry "jsonrpc" (doc_text (codes "2.0"))
      (entry "id" (doc_number 1) (entry "result" result no_entries)))

abbrev pub hexed : List ℕ → Doc
hexed bytes = doc_text (hex_string bytes)

abbrev pub block : Digest
block = from_u64 77

abbrev pub transaction : Digest
transaction = from_u64 78

abbrev pub log_of : PreparedSubmission → Docs → List ℕ → Doc
log_of p topics words = doc_object (
    entry "address" (hexed p.transaction.to) (
      entry "transactionHash" (hexed transaction) (
        entry "blockHash" (hexed block) (
          entry "blockNumber" (doc_text (codes "0x10")) (
            entry "removed" (doc_flag false)
              (entry "topics" (doc_array topics) (entry "data" (hexed words) no_entries)))))))

abbrev pub four : Doc → Doc → Doc → Doc → Docs
four a b c d = more_docs a (more_docs b (more_docs c (more_docs d no_docs)))

abbrev pub accepted_log : PreparedSubmission → Doc
accepted_log p =
    log_of p
      (four (hexed (event_signature last_word proof_accepted_event)) (hexed (address_word p.miner))
        (hexed p.challenge_id) (hexed p.expected_digest))
      (p.seed_parent_block ++ (p.challenge ++ (p.mining_nonce ++ replicate 160 0)))

abbrev pub nft_log : PreparedSubmission → Doc
nft_log p =
    log_of p
      (four (hexed (event_signature last_word proof_nft_event)) (hexed (address_word p.miner))
        (hexed word_one) (hexed p.challenge_id))
      (p.expected_digest ++ (word_one ++ address_word p.basket))

abbrev pub receipt_doc : PreparedSubmission → Docs → Doc
receipt_doc p logs = doc_object (
    entry "transactionHash" (hexed transaction) (
      entry "from" (hexed p.miner) (
        entry "to" (hexed p.transaction.to) (
          entry "blockHash" (hexed block) (
            entry "blockNumber" (doc_text (codes "0x10")) (
              entry "status" (doc_text (codes "0x1")) (
                entry "gasUsed" (doc_text (codes "0x5208")) (
                  entry "effectiveGasPrice" (doc_text (codes "0x7cf"))
                    (entry "logs" (doc_array logs) no_entries)))))))))

abbrev pub transaction_doc : PreparedSubmission → Doc
transaction_doc p = doc_object (
    entry "hash" (hexed transaction) (
      entry "from" (hexed p.miner) (
        entry "to" (hexed p.transaction.to) (
          entry "blockHash" (hexed block) (
            entry "blockNumber" (doc_text (codes "0x10")) (
              entry "chainId" (doc_text (codes "0x7a69")) (
                entry "nonce" (doc_text (codes "0x4")) (
                  entry "gas" (doc_text (codes "0x6272")) (
                    entry "maxFeePerGas" (doc_text (codes "0x7d7")) (
                      entry "maxPriorityFeePerGas" (doc_text (codes "0x7")) (
                        entry "value" (doc_text (codes "0x0")) (
                          entry "type" (doc_text (codes "0x2"))
                            (entry "input" (hexed p.transaction.call_data) no_entries)))))))))))))
