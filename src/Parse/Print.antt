-- ===== src/Parse/Print.antt =====
-- `uint256_to_decimal` of crates/bproof/src/parse.rs: its fuel, its digits, and reading them back.
use native.Mathlib.Nat.{pow-suc, div-add-mod}
use proof_hunter_miner.Base.{
  [], ℕ, zero, suc, ◌+◌, ◌-◌, ◌*◌, ◌/◌, ◌%◌, ◌^◌, ◌≤◌, ◌<◌, ◌≡◌, refl, sym, ap, ◌∙◌, subst, inl,
  inr, true, false, some, List, ◌∷◌, arith, Bool-cases, ok, length, All,
}
use proof_hunter_miner.Bytes.{all_zero, all_zero-value, IsByte, IsArray, value, pow-length}
use proof_hunter_miner.Word.{word_or-word, Uint256, IsWord, IsWord-lt}
use proof_hunter_miner.Parse.{
  exceeds_uint256, all_digits, is_decimal, decimal, divide_ten, digits_loop, uint256_to_decimal,
  parse_decimal_uint256, starts_with_zero,
}
use proof_hunter_miner.Parse.Decimal.{parse_decimal_uint256-total}

record IsTenth (xs : List ℕ) (before : ℕ) (result : List ℕ) (last : ℕ) : Type 0 where
  exact : value result * 10 + last ≡ before * 256 ^ length xs + value xs
  small : last ≤ 9
  array : IsArray (length xs) result

divide_ten-IsTenth :
    (xs : List ℕ) (remainder : ℕ)
    → All IsByte xs
    → remainder ≤ 9
    → IsTenth xs remainder (divide_ten remainder xs).0 (divide_ten remainder xs).1
unfolding divide_ten value
divide_ten-IsTenth [] remainder h le = record {
  exact = omega arith;
  small = le;
  array = record { size = refl; bytes = tt };
}
divide_ten-IsTenth (x ∷ xs) remainder (hx, h) le =
    let s = remainder * 256 + x in
    let small : s % 2 ^ 16 ≡ s = omega arith in
    let byte : s / 10 % 256 ≡ s / 10 = omega arith in
    rw (small, byte)
      (let ih = divide_ten-IsTenth xs (s % 10) h (omega arith) in
        let (r, last) = divide_ten (s % 10) xs in
        let p = 256 ^ length xs in
        record {
          exact =
              rw (pow-suc 256 (length xs), pow-length r xs ih.array.size)
                (omega (arith, ih.exact, ap (λ (t : ℕ). t * p) (div-add-mod s 10)));
          small = ih.small;
          array = record {
            size = omega (arith, ih.array.size);
            bytes = (omega arith, ih.array.bytes);
          };
        })

-- Digits that write `n`, with no superfluous zero in front unless they are the one digit 0.
pub record Writes (n : ℕ) (text : List ℕ) : Type 0 where
  pub reads : decimal text ≡ n
  pub digits : is_decimal text ≡ true
  pub canonical : starts_with_zero text ≡ true → text ≡ b'0' ∷ []

decimal_digit :
    (d : ℕ) (digits : List ℕ)
    → decimal ((b'0' + d) ∷ digits) ≡ d * 10 ^ length digits + decimal digits
unfolding decimal
decimal_digit d digits =
    let same : b'0' + d - b'0' ≡ d = omega arith in
    ap (λ (t : ℕ). t * 10 ^ length digits + decimal digits) same

is_decimal-all_digits :
    (text : List ℕ) → 0 < length text → all_digits text ≡ true → is_decimal text ≡ true
is_decimal-all_digits [] h e = absurd (omega arith)
is_decimal-all_digits (b ∷ text) h e = e

all_zero-Writes :
    (bytes digits : List ℕ)
    → All IsByte bytes
    → all_digits digits ≡ true
    → 0 < value bytes + length digits
    → (value bytes ≡ 0 → starts_with_zero digits ≡ false)
    → all_zero bytes ≡ true
    → Writes (value bytes * 10 ^ length digits + decimal digits) digits
all_zero-Writes bytes digits h hd pos first done =
    let nothing = (all_zero-value bytes h).0 done in
    record {
      reads = rw nothing (omega arith);
      digits = is_decimal-all_digits digits (omega (arith, nothing)) hd;
      canonical = λ e. cc (first nothing);
    }

digits_loop-Writes :
    (fuel : ℕ) (bytes digits : List ℕ)
    → All IsByte bytes
    → value bytes < 10 ^ fuel
    → all_digits digits ≡ true
    → 0 < value bytes + length digits
    → (value bytes ≡ 0 → starts_with_zero digits ≡ false)
    → (text : List ℕ) × (digits_loop fuel bytes digits ≡ some text)
      × Writes (value bytes * 10 ^ length digits + decimal digits) text
unfolding digits_loop
digits_loop-Writes zero bytes digits h lt hd pos first = elim (Bool-cases (all_zero bytes)) [
  | inl done ↦ (digits, rw done, all_zero-Writes bytes digits h hd pos first done)
  | inr more ↦ absurd (omega (arith, (all_zero-value bytes h).1 more))
]
digits_loop-Writes (suc fuel) bytes digits h lt hd pos first = elim (Bool-cases (all_zero bytes)) [
  | inl done ↦ (digits, rw done, all_zero-Writes bytes digits h hd pos first done)
  | inr more ↦
      let t = divide_ten-IsTenth bytes 0 h (omega arith) in
      let (r, last) = divide_ten 0 bytes in
      let positive = (all_zero-value bytes h).1 more in
      let ih =
        digits_loop-Writes fuel r ((b'0' + last) ∷ digits) t.array.bytes
          (omega (arith, t.exact, rw pow-suc at lt)) (ground (arith, t.small)) (omega arith)
          (λ e. ground (arith, t.exact)) in
      let total : value r * 10 ^ suc (length digits) + (last * 10 ^ length digits + decimal digits)
          ≡ value bytes * 10 ^ length digits + decimal digits =
        rw pow-suc (omega (arith, ap (λ (n : ℕ). n * 10 ^ length digits) t.exact)) in
      let (text, e, w) = ih in
      let total' =
        ap (λ (n : ℕ). value r * 10 ^ suc (length digits) + n) (decimal_digit last digits)
        ∙ total in
      (text, rw more e, subst (λ n. Writes n text) total' w)
]

uint256_to_decimal-Writes :
    (word : Uint256)
    → IsWord word
    → (text : List ℕ) × (uint256_to_decimal word ≡ some text) × Writes (value word) text
unfolding uint256_to_decimal
uint256_to_decimal-Writes word h = elim (Bool-cases (all_zero word)) [
  | inl zero_word ↦
      let nothing = (all_zero-value word h.bytes).0 zero_word in
      (
        b'0' ∷ [],
        rw zero_word,
        record {
          reads = unfold decimal in omega (arith, nothing);
          digits = refl;
          canonical = λ e. refl;
        },
      )
  | inr more ↦
      let positive = (all_zero-value word h.bytes).1 more in
      let (text, e, w) =
        digits_loop-Writes 78 word [] h.bytes (omega (arith, IsWord-lt word h)) refl (omega arith)
          (λ e. absurd (omega arith)) in
      let total : value word * 10 ^ 0 + decimal [] ≡ value word = unfold decimal in omega arith in
      (text, rw more e, subst (λ n. Writes n text) total w)
]

-- `uint256_to_decimal` ends on every word and writes its number in decimal digits, with no zero in
-- front of others; `parse_decimal_uint256` reads the word back.
pub parse_decimal_uint256-uint256_to_decimal :
    (word : Uint256)
    → IsWord word
    → (text : List ℕ) × (uint256_to_decimal word ≡ some text)
      × Writes (value word) text
      × (parse_decimal_uint256 text ≡ ok word)
parse_decimal_uint256-uint256_to_decimal word h =
    let (text, e, w) = uint256_to_decimal-Writes word h in
    (
      text,
      e,
      w,
      parse_decimal_uint256-total text
          ∙ rw (w.digits) (sym (word_or-word exceeds_uint256 word (decimal text) h w.reads)),
    )
