-- ===== src/Transaction/Payload.antt =====
-- The signed payload and the fields of the transaction (crates/bproof/src/transaction.rs).
use proof_hunter_miner.Base.{[], ℕ, ◌^◌, ◌<◌, ◌≡◌, sym, ap, ◌∙◌, List, arith, length, drop}
use proof_hunter_miner.Word.{IsWord, IsAddress}
use proof_hunter_miner.Transaction.{
  skip_zeros, Eip1559Transaction, rlp_integer, rlp_list, concat, unsigned_fields, typed_payload,
}
use proof_hunter_miner.Transaction.Rlp.{
  rlp_integer-append_injective, rlp_bytes-append_injective, read_size, read_size-rlp_length,
}

-- What the field types say; the sizes of a `Vec` are `usize`s.
pub record IsTransaction (t : Eip1559Transaction) : Type 0 where
  pub chain_id : IsWord t.chain_id
  pub account_nonce : IsWord t.account_nonce
  pub max_priority_fee_per_gas : IsWord t.max_priority_fee_per_gas
  pub max_fee_per_gas : IsWord t.max_fee_per_gas
  pub gas_limit : IsWord t.gas_limit
  pub to : IsAddress t.to
  pub call_data : length t.call_data < 2 ^ 64
  pub payload : length (concat (unsigned_fields t)) < 2 ^ 64

pub typed_payload-concat :
    (xs ys : List (List ℕ))
    → length (concat xs) < 2 ^ 64
    → length (concat ys) < 2 ^ 64
    → typed_payload xs ≡ typed_payload ys
    → concat xs ≡ concat ys
unfolding typed_payload rlp_list
typed_payload-concat xs ys hx hy e =
    let tails : rlp_list xs ≡ rlp_list ys = ap (drop 1) e in
    let read_x = read_size-rlp_length 0xc0 (length (concat xs)) (concat xs) (omega arith) hx in
    let read_y = read_size-rlp_length 0xc0 (length (concat ys)) (concat ys) (omega arith) hy in
    ap (λ p. p.1) (sym read_x ∙ ap (read_size 0xc0) tails ∙ read_y)

same_fields :
    (t u : Eip1559Transaction)
    → t.chain_id ≡ u.chain_id
    → t.account_nonce ≡ u.account_nonce
    → t.max_priority_fee_per_gas ≡ u.max_priority_fee_per_gas
    → t.max_fee_per_gas ≡ u.max_fee_per_gas
    → t.gas_limit ≡ u.gas_limit
    → t.to ≡ u.to
    → t.call_data ≡ u.call_data
    → t ≡ u
same_fields t u h1 h2 h3 h4 h5 h6 h7 = cc

-- Two transactions of the field types with the same signed payload are the same transaction: they
-- agree in the chain, the nonce, the fees, the gas limit, the recipient and the data.
pub typed_payload-injective :
    (t u : Eip1559Transaction)
    → IsTransaction t
    → IsTransaction u
    → typed_payload (unsigned_fields t) ≡ typed_payload (unsigned_fields u)
    → t ≡ u
unfolding unsigned_fields rlp_integer skip_zeros
typed_payload-injective t u ht hu e =
    let e0 = typed_payload-concat (unsigned_fields t) (unsigned_fields u) ht.payload hu.payload e in
    let (a1, e1) =
      rlp_integer-append_injective t.chain_id u.chain_id _ _ ht.chain_id hu.chain_id e0 in
    let (a2, e2) =
      rlp_integer-append_injective t.account_nonce u.account_nonce _ _ ht.account_nonce
        hu.account_nonce e1 in
    let (a3, e3) =
      rlp_integer-append_injective t.max_priority_fee_per_gas u.max_priority_fee_per_gas _ _
        ht.max_priority_fee_per_gas hu.max_priority_fee_per_gas e2 in
    let (a4, e4) =
      rlp_integer-append_injective t.max_fee_per_gas u.max_fee_per_gas _ _ ht.max_fee_per_gas
        hu.max_fee_per_gas e3 in
    let (a5, e5) =
      rlp_integer-append_injective t.gas_limit u.gas_limit _ _ ht.gas_limit hu.gas_limit e4 in
    let (a6, e6) =
      rlp_bytes-append_injective t.to u.to _ _ (omega (arith, ht.to.size))
        (omega (arith, hu.to.size)) e5 in
    let (a7, e7) = rlp_bytes-append_injective [] [] _ _ (omega arith) (omega arith) e6 in
    let (a8, e8) =
      rlp_bytes-append_injective t.call_data u.call_data _ _ ht.call_data hu.call_data e7 in
    same_fields t u a1 a2 a3 a4 a5 a6 a8
