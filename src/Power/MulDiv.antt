-- ===== src/Power/MulDiv.antt =====
-- `mul_div` of crates/bproof/src/power.rs against multiplication and division of numbers.
use native.Mathlib.Nat.{
  mod-lt, pow-suc, div-eq_of_lt-le, div-add-mod, div-add-mod', div-lt_iff_lt-mul, mod-eq_of_lt,
  mod-lt,
}
use proof_hunter_miner.Base.{
  [], ℕ, ◌+◌, ◌*◌, ◌/◌, ◌%◌, ◌^◌, ◌≤◌, ◌<◌, ◌≡◌, refl, sym, ap, ◌∙◌, ◌≢◌, inl, inr, List, ◌∷◌,
  arith, Bool-cases, Result, length, take, drop, All,
}
use proof_hunter_miner.Bytes.{
  all_zero, all_zero_iff, IsArray-IsCut, IsByte, IsArray, value, pow-length, value-append,
}
use proof_hunter_miner.Word.{
  word_or, word_or-word, word_or-large, Uint256, IsWord, IsWord-lt, to_be_bytes,
  to_be_bytes-IsArray, value-to_be_bytes, IsArray-append,
}
use proof_hunter_miner.Power.{
  multiply_loop, divide_loop, widen, mul_div, PowerError, target_exceeds_uint256,
}

record IsProduct (xs : List ℕ) (factor carry : ℕ) (result : List ℕ) : Type 0 where
  exact : carry * 256 ^ length xs + value result ≡ value xs * factor
  small : carry ≤ factor
  array : IsArray (length xs) result

carry_le : (x f c : ℕ) → x < 256 → c ≤ f → x * f + c ≤ f * 256
carry_le x f c h k = grind arith

multiply_loop-IsProduct :
    (factor : ℕ) (xs : List ℕ)
    → factor < 2 ^ 64
    → All IsByte xs
    → IsProduct xs factor (multiply_loop factor xs).0 (multiply_loop factor xs).1
unfolding multiply_loop value
multiply_loop-IsProduct f [] lt h = record {
  exact = omega arith;
  small = omega arith;
  array = record { size = refl; bytes = tt };
}
multiply_loop-IsProduct f (x ∷ xs) lt (hx, h) =
    let ih = multiply_loop-IsProduct f xs lt h in
    let (c, r) = multiply_loop f xs in
    let s = x * f + c in
    let p = 256 ^ length xs in
    let bound = carry_le x f c hx ih.small in
    let small : s % 2 ^ 128 ≡ s = omega (arith, bound) in
    record {
      exact =
          rw (small, pow-suc 256 (length xs), pow-length r xs ih.array.size)
            (omega (arith, ih.exact, ap (λ (t : ℕ). t * p) (div-add-mod s 256)));
      small = rw small (omega (arith, bound));
      array = record { size = omega (arith, ih.array.size); bytes = (omega arith, ih.array.bytes) };
    }

record IsQuotient (xs : List ℕ) (divisor before : ℕ) (result : List ℕ) : Type 0 where
  last : ℕ
  exact : value result * divisor + last ≡ before * 256 ^ length xs + value xs
  small : last < divisor
  array : IsArray (length xs) result

digit_fits : (d r x : ℕ) → 0 < d → r < d → x < 256 → (r * 256 + x) / d < 256
digit_fits d r x pos h hx = (div-lt_iff_lt-mul pos).1 (omega arith)

divide_loop-IsQuotient :
    (divisor before : ℕ) (xs : List ℕ)
    → divisor < 2 ^ 64
    → before < divisor
    → All IsByte xs
    → IsQuotient xs divisor before (divide_loop divisor before xs)
unfolding divide_loop value
divide_loop-IsQuotient d r [] lt h hx = record {
  last = r;
  exact = omega arith;
  small = h;
  array = record { size = refl; bytes = tt };
}
divide_loop-IsQuotient d r (x ∷ xs) lt h (hx, hxs) =
    let s = r * 256 + x in
    let small : s % 2 ^ 128 ≡ s = omega arith in
    let byte : s / d % 256 ≡ s / d = mod-eq_of_lt (digit_fits d r x (omega arith) h hx) in
    rw (small, byte)
      (let ih = divide_loop-IsQuotient d (s % d) xs lt (mod-lt s (omega arith)) hxs in
        let q = divide_loop d (s % d) xs in
        let p = 256 ^ length xs in
        record {
          last = ih.last;
          exact =
              rw (pow-suc 256 (length xs), pow-length q xs ih.array.size)
                (omega (arith, ih.exact, ap (λ (t : ℕ). t * p) (div-add-mod' s d)));
          small = ih.small;
          array = record {
            size = omega (arith, ih.array.size);
            bytes = (omega arith, ih.array.bytes);
          };
        })

-- `wide` holds the exact product in 40 bytes.
widen-value :
    (word : Uint256) (factor : ℕ)
    → IsWord word
    → factor < 2 ^ 64
    → (value (widen word factor) ≡ value word * factor) × IsArray 40 (widen word factor)
unfolding widen
widen-value word factor h lt =
    let m = multiply_loop-IsProduct factor word lt h.bytes in
    let (c, r) = multiply_loop factor word in
    let small : c % 2 ^ 64 ≡ c = omega (arith, m.small) in
    let array : IsWord r = record {
      size = omega (arith, m.array.size, h.size);
      bytes = m.array.bytes;
    } in
    let exact : c * 256 ^ 32 + value r ≡ value word * factor = rw h.size at m.exact in
    rw small (
      value-append (to_be_bytes 8 c) r
          ∙ rw (value-to_be_bytes 8 c (omega (arith, m.small)), array.size) exact,
      IsArray-append (to_be_bytes 8 c) r (to_be_bytes-IsArray 8 c) array,
    )

quotient_unique : (q d n last : ℕ) → last < d → q * d + last ≡ n → q ≡ n / d
quotient_unique q d n last h e = sym (div-eq_of_lt-le d (omega arith) (omega arith))

-- The exact answer of `mul_div`.
abbrev pub word_or_overflow : ℕ → Result PowerError Uint256
word_or_overflow = word_or target_exceeds_uint256

high_zero : (a b p q : ℕ) → q ≡ a * p + b → b < p → (a ≡ 0 → q ≡ b) × (a ≢ 0 → p ≤ q)
high_zero a b p q e h = grind arith

-- On every word and every factor and divisor that fit a `u64`, the divisor positive, `mul_div`
-- returns the word of `word * factor / divisor`, or refuses it exactly if it needs more than 256
-- bits.
pub mul_div-total :
    (word : Uint256) (factor divisor : ℕ)
    → IsWord word
    → factor < 2 ^ 64
    → 0 < divisor
    → divisor < 2 ^ 64
    → mul_div word factor divisor ≡ word_or_overflow (value word * factor / divisor)
unfolding mul_div
mul_div-total word factor divisor h hf pos hd =
    let n = value word * factor / divisor in
    let (product, wide) = widen-value word factor h hf in
    let d = divide_loop-IsQuotient divisor 0 (widen word factor) hd pos wide.bytes in
    let q = divide_loop divisor 0 (widen word factor) in
    let array : IsArray 40 q = record { size = d.array.size ∙ wide.size; bytes = d.array.bytes } in
    let quotient : value q ≡ n =
      quotient_unique (value q) divisor (value word * factor) d.last d.small
        (omega (arith, d.exact, product)) in
    let cut = IsArray-IsCut 8 32 q array in
    let low = IsWord-lt (drop 8 q) cut.back in
    let (fits, large) =
      high_zero (value (take 8 q)) (value (drop 8 q)) (2 ^ 256) (value q) cut.number low in
    elim (Bool-cases (all_zero (take 8 q))) [
      | inl zeros ↦
          let same = fits ((all_zero_iff (take 8 q) cut.front.bytes).0 zeros) in
          rw zeros (word_or-word target_exceeds_uint256 (drop 8 q) n cut.back (sym quotient ∙ same))
      | inr more ↦
          let nonzero : value (take 8 q) ≢ 0 =
            λ e. cc (more, (all_zero_iff (take 8 q) cut.front.bytes).1 e) in
          rw more (word_or-large target_exceeds_uint256 n (omega (arith, large nonzero, quotient)))
    ]
