-- ===== src/Receipt.antt =====
-- crates/bproof/src/submit.rs: the fields of a receipt, a mined transaction and a log, against what
-- was signed. An error stands for its message.
pub mod Events
pub mod Candidates
pub mod Parse
pub mod Mined
pub mod Wait
pub mod Fields
pub mod Settled
pub mod Paid
use Prim.Native.String.{String}
use proof_hunter_miner.Base.{
  ℕ, ◌+◌, Bool, ◌&&◌, List, map, leb, if◌then◌else◌, require, ok_or, ◌>>=◌,
}
use proof_hunter_miner.Bytes.{same_bytes}
use proof_hunter_miner.Failure.{Checked, mismatch, missing, read}
use proof_hunter_miner.Json.{Json, get_str}
use proof_hunter_miner.Parse.{hex_string, parse_address, parse_digest, parse_hex_quantity_uint256}
use proof_hunter_miner.Word.{Address, Digest, Uint256}

-- `u8::to_ascii_lowercase`.
abbrev pub to_lower : ℕ → ℕ
to_lower byte = if leb b'A' byte && leb byte b'Z' then byte + 32 else byte

unfoldable pub eq_ignore_ascii_case : List ℕ → List ℕ → Bool
eq_ignore_ascii_case xs ys = same_bytes (map to_lower xs) (map to_lower ys)

module _ (j : Json) where
  unfoldable pub digest_field : j.Fields → String → Checked Digest
  digest_field fields name = do
    text ← ok_or missing (get_str j fields name)
    read (parse_digest text)

  unfoldable pub require_digest_field : j.Fields → String → Digest → Checked (Unit {0})
  require_digest_field fields name expected = do
    digest ← digest_field fields name
    require (same_bytes digest expected) mismatch

  unfoldable pub require_address_field : j.Fields → String → Address → Checked (Unit {0})
  require_address_field fields name expected = do
    text ← ok_or missing (get_str j fields name)
    address ← read (parse_address text)
    require (same_bytes address expected) mismatch

  unfoldable pub quantity_field : j.Fields → String → Checked Uint256
  quantity_field fields name = do
    text ← ok_or missing (get_str j fields name)
    read (parse_hex_quantity_uint256 text)

  unfoldable pub require_quantity_field : j.Fields → String → Uint256 → Checked (Unit {0})
  require_quantity_field fields name expected = do
    word ← quantity_field fields name
    require (same_bytes word expected) mismatch

  unfoldable pub require_hex_bytes_field : j.Fields → String → List ℕ → Checked (Unit {0})
  require_hex_bytes_field fields name expected = do
    text ← ok_or missing (get_str j fields name)
    require (eq_ignore_ascii_case text (hex_string expected)) mismatch

  unfoldable pub receipt_quantity : j.Fields → String → Checked Uint256
  receipt_quantity fields name = do
    text ← ok_or missing (get_str j fields name)
    read (parse_hex_quantity_uint256 text)
