-- ===== src/Transaction.antt =====
-- crates/bproof/src/transaction.rs: the call data of a proof and the RLP of its transaction. The
-- wallet's signature is a parameter: `keystore.rs` makes it with a third-party curve.
pub mod Rlp
pub mod Payload
use proof_hunter_miner.Base.{
  [], ◌>>=◌, ℕ, ◌+◌, ◌%◌, Bool, false, List, ◌∷◌, ◌++◌, ltb, ◌==◌, if◌then◌else◌, Result, ok,
  length, take, drop,
}
use proof_hunter_miner.Word.{Uint256, Address, Digest, to_be_bytes}
use proof_hunter_miner.Keccak.{Keccak, keccak256}
use proof_hunter_miner.Proof.{address_word}

abbrev pub eip_1559_type : ℕ
eip_1559_type = 2

-- The bytes of "submitProof(uint256,uint256,uint256,address)".
abbrev pub submit_proof_signature : List ℕ
submit_proof_signature =
    b's' ∷ b'u' ∷ b'b' ∷ b'm' ∷ b'i' ∷ b't' ∷ b'P' ∷ b'r' ∷ b'o' ∷ b'o' ∷ b'f' ∷ b'(' ∷ b'u' ∷ b'i'
    ∷ b'n' ∷ b't' ∷ b'2' ∷ b'5' ∷ b'6' ∷ b',' ∷ b'u' ∷ b'i' ∷ b'n' ∷ b't' ∷ b'2' ∷ b'5' ∷ b'6'
    ∷ b',' ∷ b'u' ∷ b'i' ∷ b'n' ∷ b't' ∷ b'2' ∷ b'5' ∷ b'6' ∷ b',' ∷ b'a' ∷ b'd' ∷ b'd' ∷ b'r'
    ∷ b'e' ∷ b's' ∷ b's' ∷ b')' ∷ []

-- The field `data` is `call_data` here.
pub record Eip1559Transaction : Type 0 where
  pub chain_id : Uint256
  pub account_nonce : Uint256
  pub max_priority_fee_per_gas : Uint256
  pub max_fee_per_gas : Uint256
  pub gas_limit : Uint256
  pub to : Address
  pub call_data : List ℕ

pub record SignedTransaction : Type 0 where
  pub raw_bytes : List ℕ
  pub transaction_hash : Digest

unfoldable pub submit_proof_call_data : Keccak → Uint256 → Uint256 → Uint256 → Address → List ℕ
submit_proof_call_data k expected_challenge_id expected_seed_parent_block mining_nonce basket =
    take 4 (keccak256 k submit_proof_signature)
    ++ (expected_challenge_id
        ++ (expected_seed_parent_block ++ (mining_nonce ++ address_word basket)))

-- `bytes[first_nonzero..]`.
unfoldable pub skip_zeros : List ℕ → List ℕ
skip_zeros [] = []
skip_zeros (b ∷ bs) = let rest = skip_zeros bs in if b == 0 then rest else b ∷ bs

-- A `usize` of 8 bytes; a `u8` sum that wraps around.
unfoldable pub rlp_length : ℕ → ℕ → List ℕ
rlp_length size offset =
    let length_bytes = skip_zeros (to_be_bytes 8 size) in
    if ltb size 56
    then (offset + size) % 256 ∷ []
    else (offset + 55 + length length_bytes) % 256 ∷ length_bytes

abbrev pub is_small_byte : List ℕ → Bool
is_small_byte [] = false
is_small_byte (b ∷ []) = ltb b 0x80
is_small_byte (b ∷ (c ∷ bs)) = false

unfoldable pub rlp_bytes : List ℕ → List ℕ
rlp_bytes bytes = if is_small_byte bytes then bytes else rlp_length (length bytes) 0x80 ++ bytes

unfoldable pub rlp_integer : List ℕ → List ℕ
rlp_integer bytes = rlp_bytes (skip_zeros bytes)

abbrev pub concat : List (List ℕ) → List ℕ
concat [] = []
concat (x ∷ xs) = x ++ concat xs

unfoldable pub rlp_list : List (List ℕ) → List ℕ
rlp_list items = rlp_length (length (concat items)) 0xc0 ++ concat items

unfoldable pub unsigned_fields : Eip1559Transaction → List (List ℕ)
unsigned_fields transaction =
    rlp_integer transaction.chain_id
    ∷ (rlp_integer transaction.account_nonce
        ∷ (rlp_integer transaction.max_priority_fee_per_gas
            ∷ (rlp_integer transaction.max_fee_per_gas
                ∷ (rlp_integer transaction.gas_limit
                    ∷ (rlp_bytes transaction.to
                        ∷ (rlp_integer []
                            ∷ (rlp_bytes transaction.call_data ∷ (rlp_list [] ∷ []))))))))

unfoldable pub typed_payload : List (List ℕ) → List ℕ
typed_payload fields = eip_1559_type ∷ rlp_list fields

-- The fields extended by the signature: the bytes that are sent.
unfoldable pub signed_payload : Eip1559Transaction → List ℕ → ℕ → List ℕ
signed_payload transaction signature y_parity = typed_payload (
    unsigned_fields transaction
    ++ (rlp_integer (y_parity ∷ [])
        ∷ (rlp_integer (take 32 signature) ∷ (rlp_integer (drop 32 signature) ∷ []))))

unfoldable pub signed : Keccak → List ℕ → SignedTransaction
signed k raw_bytes = record { raw_bytes = raw_bytes; transaction_hash = keccak256 k raw_bytes }

-- `sign_digest` is the wallet's: 64 bytes of signature and the parity of y, or an error.
unfoldable pub sign_eip1559_transaction {ℓ} :
    {E : Type ℓ}
    → Keccak
    → (Digest → Result E (List ℕ × ℕ))
    → Eip1559Transaction
    → Result E SignedTransaction
sign_eip1559_transaction k sign_digest transaction = do
  (signature, y_parity) ← sign_digest (keccak256 k (typed_payload (unsigned_fields transaction)))
  ok (signed k (signed_payload transaction signature y_parity))
