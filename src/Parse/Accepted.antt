-- ===== src/Parse/Accepted.antt =====
-- The texts that the hexadecimal readers of crates/bproof/src/parse.rs accept.
use proof_hunter_miner.Base.{
  [], ℕ, suc, ◌+◌, ◌-◌, ◌*◌, ◌/◌, ◌%◌, ◌≤◌, ◌≡◌, refl, ◌∙◌, subst, inl, inr, true, some, List, ◌∷◌,
  ◌++◌, arith, ◌==◌, Bool-cases, Option-cases, >>=-ok, ok-injective, ok, length, replicate,
}
use proof_hunter_miner.Bytes.{IsArray, value}
use proof_hunter_miner.Word.{IsWord, zeros-IsArray, IsArray-append, value-zeros-append}
use proof_hunter_miner.Parse.{
  nibble, hex_pairs, strip_0x, parse_hex_exact, quantity_bytes, quantity_word,
  parse_hex_quantity_uint256, starts_with_zero,
}
use proof_hunter_miner.Parse.Hex.{
  nibble_value, hexadecimal, hex_pairs-value, nibble-nibble_value, value_cons, hexadecimal_cons,
  pow_sixteen,
}

-- `text` is `0x` and the digits `hex`, which write the number of the array `bytes`.
pub record IsHexOf (text hex bytes : List ℕ) : Type 0 where
  pub prefixed : text ≡ b'0' ∷ (b'x' ∷ hex)
  pub number : value bytes ≡ hexadecimal hex

pub strip_0x-some : (text hex : List ℕ) → strip_0x text ≡ some hex → text ≡ b'0' ∷ (b'x' ∷ hex)
unfolding strip_0x
strip_0x-some [] hex e = cc
strip_0x-some (a ∷ []) hex e = cc
strip_0x-some (a ∷ (b ∷ rest)) hex e = ground arith

accepts_exact :
    (n : ℕ) (text bytes : List ℕ)
    → parse_hex_exact n text ≡ ok bytes
    → (hex : List ℕ) × (strip_0x text ≡ some hex)
      × (length hex ≡ n * 2)
      × (hex_pairs hex ≡ ok bytes)
unfolding parse_hex_exact
accepts_exact n text bytes e = elim (Option-cases (strip_0x text)) [
  | inl e0 ↦ ground arith
  | inr (hex, e0) ↦ (hex, e0, ground arith, ground arith)
]

-- What `parse_hex_exact` accepts is `0x` and exactly `2 * n` digits, and it returns an array of
-- `n` bytes for the number that they write.
pub parse_hex_exact-IsHexOf :
    (n : ℕ) (text bytes : List ℕ)
    → parse_hex_exact n text ≡ ok bytes
    → IsArray n bytes × (hex : List ℕ) × IsHexOf text hex bytes × (length hex ≡ n * 2)
parse_hex_exact-IsHexOf n text bytes e =
    let (hex, stripped, size, read) = accepts_exact n text bytes e in
    let (array, number) = hex_pairs-value hex bytes n size read in
    (array, hex, record { prefixed = strip_0x-some text hex stripped; number = number }, size)

first_byte :
    (h a n : ℕ) (rest bs : List ℕ)
    → nibble_value h ≡ a
    → length rest ≡ n * 2
    → length bs ≡ n
    → value bs ≡ hexadecimal rest
    → value (a ∷ bs) ≡ hexadecimal (h ∷ rest)
first_byte h a n rest bs va even size number =
    rw (value_cons a bs, hexadecimal_cons h rest, va, size, even, pow_sixteen n, number)

quantity_bytes-value :
    (hex bytes : List ℕ)
    → quantity_bytes hex ≡ ok bytes
    → IsArray ((length hex + 1) / 2) bytes × (value bytes ≡ hexadecimal hex)
unfolding quantity_bytes
quantity_bytes-value [] bytes e = unfold hex_pairs in hex_pairs-value [] bytes 0 refl e
quantity_bytes-value (h ∷ rest) bytes e = elim (Bool-cases (length (h ∷ rest) % 2 == 1)) [
  | inl odd ↦
      let (a, ha, e1) = >>=-ok (nibble h) _ (rw odd at e) in
      let (bs, hbs, e2) = >>=-ok (hex_pairs rest) _ e1 in
      let n = length rest / 2 in
      let even : length rest ≡ n * 2 = ground arith in
      let half : (length (h ∷ rest) + 1) / 2 ≡ suc n = ground arith in
      let (array, number) = hex_pairs-value rest bs n even hbs in
      let (va, la) = nibble-nibble_value h a ha in
      let whole : a ∷ bs ≡ bytes = ok-injective e2 in
      (
        rw half (
            subst (IsArray (suc n)) whole
              (record { size = omega (arith, array.size); bytes = (omega arith, array.bytes) })),
        subst (λ t. value t ≡ hexadecimal (h ∷ rest)) whole
            (first_byte h a n rest bs va even array.size number),
      )
  | inr even ↦
      let k = length (h ∷ rest) / 2 in
      let (array, number) = hex_pairs-value (h ∷ rest) bytes k (ground arith) (rw even at e) in
      let half : (length (h ∷ rest) + 1) / 2 ≡ k = ground arith in (rw half array, number)
]

accepts_quantity :
    (text word : List ℕ)
    → parse_hex_quantity_uint256 text ≡ ok word
    → (hex : List ℕ) × (strip_0x text ≡ some hex)
      × (1 ≤ length hex)
      × (length hex ≤ 64)
      × (starts_with_zero hex ≡ true → length hex ≡ 1)
      × (quantity_word hex ≡ ok word)
unfolding parse_hex_quantity_uint256
accepts_quantity text word e = elim (Option-cases (strip_0x text)) [
  | inl e0 ↦ ground arith
  | inr (hex, e0) ↦ (hex, e0, ground arith, ground arith, ground arith, ground arith)
]

quantity_word-value :
    (hex word : List ℕ)
    → length hex ≤ 64
    → quantity_word hex ≡ ok word
    → IsWord word × (value word ≡ hexadecimal hex)
unfolding quantity_word
quantity_word-value hex word le e =
    let (bytes, read, e1) = >>=-ok (quantity_bytes hex) _ e in
    let k = (length hex + 1) / 2 in
    let (array, number) = quantity_bytes-value hex bytes read in
    let whole : replicate (32 - k) 0 ++ bytes ≡ word = ok-injective e1 in
    let full : 32 - k + k ≡ 32 = omega arith in
    (
      subst IsWord whole (
          subst (λ n. IsArray n (replicate (32 - k) 0 ++ bytes)) full
            (IsArray-append (replicate (32 - k) 0) bytes (zeros-IsArray (32 - k)) array)),
      subst (λ t. value t ≡ hexadecimal hex) whole (value-zeros-append (32 - k) bytes ∙ number),
    )

-- What `parse_hex_quantity_uint256` accepts is `0x` and 1 to 64 digits with no zero in front of
-- others, and it returns the word of the number that they write.
pub parse_hex_quantity_uint256-IsHexOf :
    (text word : List ℕ)
    → parse_hex_quantity_uint256 text ≡ ok word
    → IsWord word
      × (hex : List ℕ) × IsHexOf text hex word
      × (1 ≤ length hex)
      × (length hex ≤ 64)
      × (starts_with_zero hex ≡ true → length hex ≡ 1)
parse_hex_quantity_uint256-IsHexOf text word e =
    let (hex, stripped, some_digits, fits, canonical, read) = accepts_quantity text word e in
    let (array, number) = quantity_word-value hex word fits read in
    (
      array,
      hex,
      record { prefixed = strip_0x-some text hex stripped; number = number },
      some_digits,
      fits,
      canonical,
    )
