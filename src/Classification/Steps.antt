-- ===== src/Classification/Steps.antt =====
-- The steps of the long division of crates/bproof/src/classification.rs, in numbers.
use proof_hunter_miner.Base.{
  [], ℕ, suc, ◌+◌, ◌-◌, ◌*◌, ◌/◌, ◌%◌, ◌^◌, ◌≤◌, ◌<◌, ◌≡◌, refl, ap, inl, inr, List, ◌∷◌, arith,
  ltb, if◌then◌else◌, Bool-cases, length, All,
}
use proof_hunter_miner.Bytes.{IsByte, pow-length, value}
use proof_hunter_miner.Classification.{add_bit, shift_loop, subtract_loop}
use native.Mathlib.Nat.{pow-suc}

pub record IsShifted (bit : ℕ) (xs : List ℕ) (carry : ℕ) (result : List ℕ) : Type 0 where
  pub size : length result ≡ length xs
  pub bytes : All IsByte result
  pub carry_bit : carry ≤ 1
  pub number : carry * 256 ^ length xs + value result ≡ 2 * value xs + bit

digit_shift :
    (x c p r v bit : ℕ)
    → c * p + r ≡ 2 * v + bit
    → x / 128 * (p * 256) + ((x * 2 % 256 + c) * p + r) ≡ 2 * (x * p + v) + bit
digit_shift x c p r v bit h =
    let d : x / 128 * 256 + x * 2 % 256 ≡ x * 2 = omega arith in
    omega (arith, h, ap (λ (n : ℕ). n * p) d)

pub shift_loop-IsShifted :
    (bit : ℕ) (xs : List ℕ)
    → bit ≤ 1
    → All IsByte xs
    → IsShifted bit xs (shift_loop bit xs).0 (shift_loop bit xs).1
unfolding shift_loop value
shift_loop-IsShifted bit [] hb h = record {
  size = refl;
  bytes = tt;
  carry_bit = hb;
  number = omega arith;
}
shift_loop-IsShifted bit (x ∷ xs) hb (hx, h) =
    let (c, r) = shift_loop bit xs in
    let ih = shift_loop-IsShifted bit xs hb h in
    let p = 256 ^ length xs in
    record {
      size = ap suc ih.size;
      bytes = (omega (arith, ih.carry_bit), ih.bytes);
      carry_bit = omega arith;
      number =
          rw (pow-suc 256 (length xs), pow-length r xs ih.size)
            (digit_shift x c p (value r) (value xs) bit ih.number);
    }

pub record IsDifference (xs ys : List ℕ) (borrow : ℕ) (result : List ℕ) : Type 0 where
  pub size : length result ≡ length xs
  pub bytes : All IsByte result
  pub borrow_bit : borrow ≤ 1
  pub number : value result + value ys ≡ value xs + borrow * 256 ^ length xs

digit_difference :
    (x y b p r v w : ℕ)
    → x < 256
    → y < 256
    → b ≤ 1
    → r + w ≡ v + b * p
    → (2 ^ 16 + x - (y + b)) % 2 ^ 16 % 256 * p + r + (y * p + w)
      ≡ x * p + v + (if ltb x (y + b) then 1 else 0) * (p * 256)
digit_difference x y b p r v w hx hy hb h = elim (Bool-cases (ltb x (y + b))) [
  | inl t ↦
      let d : (2 ^ 16 + x - (y + b)) % 2 ^ 16 % 256 + (y + b) ≡ x + 256 = ground (arith, t) in
      rw t (omega (arith, h, ap (λ (n : ℕ). n * p) d))
  | inr f ↦
      let d : (2 ^ 16 + x - (y + b)) % 2 ^ 16 % 256 + (y + b) ≡ x = ground (arith, f) in
      rw f (omega (arith, h, ap (λ (n : ℕ). n * p) d))
]

pub subtract_loop-IsDifference :
    (xs ys : List ℕ)
    → length xs ≡ length ys
    → All IsByte xs
    → All IsByte ys
    → IsDifference xs ys (subtract_loop xs ys).0 (subtract_loop xs ys).1
unfolding subtract_loop value
subtract_loop-IsDifference [] [] e hx hy = record {
  size = refl;
  bytes = tt;
  borrow_bit = omega arith;
  number = refl;
}
subtract_loop-IsDifference [] (y ∷ ys) e hx hy = absurd (omega arith)
subtract_loop-IsDifference (x ∷ xs) [] e hx hy = absurd (omega arith)
subtract_loop-IsDifference (x ∷ xs) (y ∷ ys) e (bx, hx) (by', hy) =
    let ih = subtract_loop-IsDifference xs ys (omega arith) hx hy in
    let (b, r) = subtract_loop xs ys in
    let p = 256 ^ length xs in
    record {
      size = ap suc ih.size;
      bytes = (omega arith, ih.bytes);
      borrow_bit = ground arith;
      number =
          rw (pow-suc 256 (length xs), pow-length r xs ih.size, pow-length ys xs (omega arith))
            (digit_difference x y b p (value r) (value xs) (value ys) bx by' ih.borrow_bit
              ih.number);
    }

-- The bit that enters at the end is the carry that enters the shift.
pub add_bit-shift :
    (bit x : ℕ) (xs : List ℕ)
    → (add_bit bit (shift_loop 0 (x ∷ xs)).1 ≡ (shift_loop bit (x ∷ xs)).1)
      × ((shift_loop 0 (x ∷ xs)).0 ≡ (shift_loop bit (x ∷ xs)).0)
unfolding add_bit shift_loop
add_bit-shift bit x [] = (ap (λ (n : ℕ). n ∷ []) (omega arith), refl)
add_bit-shift bit x (y ∷ ys) = let (list, _) = add_bit-shift bit y ys in (cc list, refl)
