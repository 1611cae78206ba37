-- ===== src/Parse.antt =====
-- crates/bproof/src/parse.rs: strict parsing and canonical formatting. A `&str` is the list of its
-- bytes. An error stands for its message less the caller's `name`.
pub mod Decimal
pub mod Print
pub mod Hex
pub mod Accepted
use proof_hunter_miner.Base.{
  [], ◌>>=◌, ℕ, zero, suc, ◌+◌, ◌-◌, ◌*◌, ◌/◌, ◌%◌, ◌^◌, Bool, true, false, not, ◌&&◌, ◌||◌, Option,
  none, some, List, ◌∷◌, ◌++◌, ltb, leb, ◌==◌, if◌then◌else◌, Result, ok, err, length, replicate,
  get_or,
}
use proof_hunter_miner.Bytes.{all_zero}
use proof_hunter_miner.Word.{Uint256, Address, Digest, Target, from_u128}

pub data ParseError : Type 0 where
  not_decimal exceeds_u128 exceeds_u64 exceeds_uint256 : ParseError
  not_quantity quantity_size quantity_not_canonical non_hex : ParseError
  not_hex_bytes odd_hex not_exact_hex : ParseError

abbrev pub Parsed : Type 0 → Type 0
Parsed = Result ParseError

-- `u8::is_ascii_digit`.
abbrev pub is_ascii_digit : ℕ → Bool
is_ascii_digit byte = leb b'0' byte && leb byte b'9'

-- `value.is_empty() || value.bytes().any(|byte| !byte.is_ascii_digit())`, negated.
abbrev pub all_digits : List ℕ → Bool
all_digits [] = true
all_digits (b ∷ bs) = is_ascii_digit b && all_digits bs

abbrev pub is_decimal : List ℕ → Bool
is_decimal [] = false
is_decimal (b ∷ bs) = all_digits (b ∷ bs)

-- The number that decimal digits write.
unfoldable pub decimal : List ℕ → ℕ
decimal [] = 0
decimal (b ∷ bs) = (b - b'0') * 10 ^ length bs + decimal bs

-- `str::parse` of the standard library on digits: the number, if it is below the type's limit.
unfoldable pub parse_u128 : List ℕ → Parsed ℕ
unfolding decimal
parse_u128 text =
    if not (is_decimal text)
    then err not_decimal
    else if ltb (decimal text) (2 ^ 128)
    then ok (decimal text)
    else err exceeds_u128

unfoldable pub parse_u64 : List ℕ → Parsed ℕ
unfolding decimal
parse_u64 text =
    if not (is_decimal text)
    then err not_decimal
    else if ltb (decimal text) (2 ^ 64)
    then ok (decimal text)
    else err exceeds_u64

-- `for byte in bytes.iter_mut().rev()`: times ten, plus the carry, which is a `u16`.
unfoldable pub times_ten : List ℕ → ℕ → ℕ × List ℕ
times_ten [] carry = (carry, [])
times_ten (x ∷ xs) carry =
    let (c, result) = times_ten xs carry in
    let next = (x * 10 + c) % 2 ^ 16 in (next / 256, next % 256 ∷ result)

unfoldable pub decimal_loop : List ℕ → List ℕ → Parsed Uint256
decimal_loop bytes [] = ok bytes
decimal_loop bytes (b ∷ text) =
    let (carry, bytes') = times_ten bytes (b - b'0') in
    let rest = decimal_loop bytes' text in if carry == 0 then rest else err exceeds_uint256

unfoldable pub parse_decimal_uint256 : List ℕ → Parsed Uint256
unfolding decimal_loop times_ten
parse_decimal_uint256 text =
    if not (is_decimal text) then err not_decimal else decimal_loop (replicate 32 0) text

-- `for byte in &mut bytes`: divide by ten, from the first byte on, with the remainder carried.
-- The remainder is below 10, so `(remainder << 8) | byte` is the sum that stands here.
unfoldable pub divide_ten : ℕ → List ℕ → List ℕ × ℕ
divide_ten remainder [] = ([], remainder)
divide_ten remainder (x ∷ xs) =
    let current = (remainder * 256 + x) % 2 ^ 16 in
    let (result, last) = divide_ten (current % 10) xs in (current / 10 % 256 ∷ result, last)

-- `while bytes.iter().any(|byte| *byte != 0)`. The digits are kept last pushed first, which is the
-- order of `into_iter().rev()`. `none`: the fuel ran out.
unfoldable pub digits_loop : ℕ → List ℕ → List ℕ → Option (List ℕ)
digits_loop zero bytes digits = if all_zero bytes then some digits else none
digits_loop (suc fuel) bytes digits =
    let (bytes', remainder) = divide_ten 0 bytes in
    let rest = digits_loop fuel bytes' ((b'0' + remainder) ∷ digits) in
    if all_zero bytes then some digits else rest

-- 2^256 has 78 decimal digits, so 78 rounds are enough.
unfoldable pub uint256_to_decimal : Uint256 → Option (List ℕ)
uint256_to_decimal word = if all_zero word then some (b'0' ∷ []) else digits_loop 78 word []

unfoldable pub hex_nibble : ℕ → Option ℕ
hex_nibble byte =
    if leb b'0' byte && leb byte b'9'
    then some (byte - b'0')
    else if leb b'a' byte && leb byte b'f'
    then some (byte - b'a' + 10)
    else if leb b'A' byte && leb byte b'F'
    then some (byte - b'A' + 10)
    else none

-- `hex_nibble(byte).ok_or_else(..)?`.
unfoldable pub nibble : ℕ → Parsed ℕ
unfolding hex_nibble
nibble byte = elim (hex_nibble byte) [ none ↦ err non_hex | some n ↦ ok n ]

-- The loops over pairs of characters; `(high << 4) | low` of nibbles is the sum that stands here.
-- The callers pass an even number of characters.
unfoldable pub hex_pairs : List ℕ → Parsed (List ℕ)
hex_pairs [] = ok []
hex_pairs (h ∷ []) = ok []
hex_pairs (h ∷ (l ∷ rest)) = do
  high ← nibble h
  low ← nibble l
  bytes ← hex_pairs rest
  ok ((high * 16 + low) ∷ bytes)

-- `strip_prefix("0x")`.
unfoldable pub strip_0x : List ℕ → Option (List ℕ)
strip_0x [] = none
strip_0x (a ∷ []) = none
strip_0x (a ∷ (b ∷ rest)) = if a == b'0' && b == b'x' then some rest else none

unfoldable pub parse_hex_exact : ℕ → List ℕ → Parsed (List ℕ)
parse_hex_exact n text = elim (strip_0x text) [
  | none ↦ err not_exact_hex
  | some hex ↦ if length hex == n * 2 then hex_pairs hex else err not_exact_hex
]

unfoldable pub parse_hex_bytes : List ℕ → Parsed (List ℕ)
parse_hex_bytes text = elim (strip_0x text) [
  | none ↦ err not_hex_bytes
  | some hex ↦ if length hex % 2 == 0 then hex_pairs hex else err odd_hex
]

abbrev pub starts_with_zero : List ℕ → Bool
starts_with_zero [] = false
starts_with_zero (b ∷ bs) = b == b'0'

-- An odd first character is a byte of its own.
unfoldable pub quantity_bytes : List ℕ → Parsed (List ℕ)
quantity_bytes [] = ok []
quantity_bytes (h ∷ rest) =
    if length (h ∷ rest) % 2 == 1
    then (do first ← nibble h; bytes ← hex_pairs rest; ok (first ∷ bytes))
    else hex_pairs (h ∷ rest)

-- The bytes are written from `destination` to the end of a zeroed word.
unfoldable pub quantity_word : List ℕ → Parsed Uint256
quantity_word hex = do
  bytes ← quantity_bytes hex
  ok (replicate (32 - (length hex + 1) / 2) 0 ++ bytes)

unfoldable pub parse_hex_quantity_uint256 : List ℕ → Parsed Uint256
parse_hex_quantity_uint256 text = elim (strip_0x text) [
  | none ↦ err not_quantity
  | some hex ↦
      if length hex == 0 || ltb 64 (length hex)
      then err quantity_size
      else if ltb 1 (length hex) && starts_with_zero hex
      then err quantity_not_canonical
      else quantity_word hex
]

unfoldable pub parse_uint256_word : List ℕ → Parsed Uint256
parse_uint256_word text = parse_hex_exact 32 text

unfoldable pub parse_address : List ℕ → Parsed Address
parse_address text = parse_hex_exact 20 text

unfoldable pub parse_digest : List ℕ → Parsed Digest
parse_digest text = parse_hex_exact 32 text

unfoldable pub parse_target : List ℕ → Parsed Target
parse_target text = parse_hex_exact 32 text

unfoldable pub parse_nonce : List ℕ → Parsed Uint256
parse_nonce text = elim (strip_0x text) [
  | none ↦ (do n ← parse_u128 text; ok (from_u128 n))
  | some _ ↦ parse_hex_exact 32 text
]

-- `b"0123456789abcdef"`, and `DIGITS[usize::from(n)]`.
abbrev pub digits : List ℕ
digits =
    b'0' ∷ b'1' ∷ b'2' ∷ b'3' ∷ b'4' ∷ b'5' ∷ b'6' ∷ b'7' ∷ b'8' ∷ b'9' ∷ b'a' ∷ b'b' ∷ b'c' ∷ b'd'
    ∷ b'e' ∷ b'f' ∷ []

unfoldable pub hex_digit : ℕ → ℕ
hex_digit n = get_or digits n 0

unfoldable pub hex_body : List ℕ → List ℕ
hex_body [] = []
hex_body (b ∷ bs) = hex_digit (b / 16) ∷ (hex_digit (b % 16) ∷ hex_body bs)

unfoldable pub hex_string : List ℕ → List ℕ
unfolding hex_body hex_digit
hex_string bytes = b'0' ∷ (b'x' ∷ hex_body bytes)
