-- ===== src/Parse/Decimal.antt =====
-- `parse_decimal_uint256` of crates/bproof/src/parse.rs against the number that digits write.
use native.Mathlib.Nat.{pow-suc, div-add-mod, mul-le-mul_right}
use proof_hunter_miner.Base.{
  [], ℕ, zero, suc, ◌+◌, ◌-◌, ◌*◌, ◌%◌, ◌^◌, ◌≤◌, ◌≡◌, refl, ap, inl, inr, true, List, ◌∷◌, arith,
  ◌==◌, if◌then◌else◌, ==_iff, Bool-cases, err, length, replicate, All,
}
use proof_hunter_miner.Bytes.{IsByte, IsArray, value, pow-length, value-zeros}
use proof_hunter_miner.Word.{word_or, word_or-word, word_or-large, Uint256, IsWord, zeros-IsArray}
use proof_hunter_miner.Parse.{
  Parsed, not_decimal, exceeds_uint256, all_digits, is_decimal, decimal, times_ten, decimal_loop,
  parse_decimal_uint256,
}

-- One round of the inner loop: the array and the carry hold ten times the number plus the digit.
pub record IsTimesTen (xs : List ℕ) (digit carry : ℕ) (result : List ℕ) : Type 0 where
  pub exact : carry * 256 ^ length xs + value result ≡ value xs * 10 + digit
  pub small : carry ≤ 9
  pub array : IsArray (length xs) result

times_ten-IsTimesTen :
    (xs : List ℕ) (digit : ℕ)
    → All IsByte xs
    → digit ≤ 9
    → IsTimesTen xs digit (times_ten xs digit).0 (times_ten xs digit).1
unfolding times_ten value
times_ten-IsTimesTen [] digit h le = record {
  exact = omega arith;
  small = le;
  array = record { size = refl; bytes = tt };
}
times_ten-IsTimesTen (x ∷ xs) digit (hx, h) le =
    let ih = times_ten-IsTimesTen xs digit h le in
    let (c, r) = times_ten xs digit in
    let s = x * 10 + c in
    let p = 256 ^ length xs in
    let small : s % 2 ^ 16 ≡ s = omega (arith, ih.small) in
    record {
      exact =
          rw (small, pow-suc 256 (length xs), pow-length r xs ih.array.size)
            (omega (arith, ih.exact, ap (λ (t : ℕ). t * p) (div-add-mod s 256)));
      small = omega (arith, ih.small);
      array = record { size = omega (arith, ih.array.size); bytes = (omega arith, ih.array.bytes) };
    }

-- The answer that a number deserves: its word, or a refusal if it has none.
abbrev pub word_or_refusal : ℕ → Parsed Uint256
word_or_refusal = word_or exceeds_uint256

digit_le : (b : ℕ) (text : List ℕ) → all_digits (b ∷ text) ≡ true → b - 48 ≤ 9
digit_le b text e = ground arith

digits_rest : (b : ℕ) (text : List ℕ) → all_digits (b ∷ text) ≡ true → all_digits text ≡ true
digits_rest b text e = ground arith

scale_ge : (v d p : ℕ) → 2 ^ 256 ≤ v * 10 + d → 1 ≤ p → 2 ^ 256 ≤ v * (p * 10) + d * p
scale_ge v d p h k = omega (arith, mul-le-mul_right p h)

pow_ten_pos : (n : ℕ) → 1 ≤ 10 ^ n
pow_ten_pos zero = omega arith
pow_ten_pos (suc n) = rw pow-suc (omega (arith, pow_ten_pos n))

decimal_loop-total :
    (bytes : Uint256) (text : List ℕ)
    → IsWord bytes
    → all_digits text ≡ true
    → decimal_loop bytes text ≡ word_or_refusal (value bytes * 10 ^ length text + decimal text)
unfolding decimal_loop decimal
decimal_loop-total bytes [] h e =
    word_or-word exceeds_uint256 bytes (value bytes * 1 + 0) h (omega arith)
decimal_loop-total bytes (b ∷ text) h e =
    let d = b - 48 in
    let p = 10 ^ length text in
    let t = times_ten-IsTimesTen bytes d h.bytes (digit_le b text e) in
    let (c, r) = times_ten bytes d in
    let exact : c * 2 ^ 256 + value r ≡ value bytes * 10 + d = rw h.size at t.exact in
    let word : IsWord r = record {
      size = omega (arith, t.array.size, h.size);
      bytes = t.array.bytes;
    } in
    rw pow-suc (elim (Bool-cases (c == 0)) [
      | inl none_left ↦
          let exact' : value r ≡ value bytes * 10 + d =
            omega (arith, exact, (==_iff c 0).0 none_left) in
          let same : value bytes * (p * 10) + (d * p + decimal text) ≡ value r * p + decimal text =
            omega (arith, ap (λ (t : ℕ). t * p) exact') in
          rw (none_left, same) (decimal_loop-total r text word (digits_rest b text e))
      | inr over ↦ rw over (
          word_or-large exceeds_uint256 (value bytes * (p * 10) + (d * p + decimal text))
            (omega (arith, scale_ge (value bytes) d p (ground arith) (pow_ten_pos (length text)))))
    ])

is_decimal_digits : (text : List ℕ) → is_decimal text ≡ true → all_digits text ≡ true
is_decimal_digits [] e = refl
is_decimal_digits (b ∷ text) e = e

-- On every text `parse_decimal_uint256` refuses what is no decimal number, returns the word of a
-- number below 2^256, and refuses a larger one.
pub parse_decimal_uint256-total :
    (text : List ℕ)
    → parse_decimal_uint256 text
      ≡ (if is_decimal text then word_or_refusal (decimal text) else err not_decimal)
unfolding parse_decimal_uint256
parse_decimal_uint256-total text = elim (Bool-cases (is_decimal text)) [
  | inl good ↦
      rw
        (
          good,
          decimal_loop-total (replicate 32 0) text (zeros-IsArray 32) (is_decimal_digits text good),
        )
        (ap word_or_refusal (rw value-zeros (omega arith)))
  | inr bad ↦ rw bad
]
