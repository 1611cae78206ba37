-- ===== src/Classification/Division.antt =====
-- `divide_word` of crates/bproof/src/classification.rs against the quotient of numbers.
use native.Mathlib.Nat.{pow-suc, div-add-mod, mod-lt}
use proof_hunter_miner.Base.{
  [], ℕ, zero, suc, ◌+◌, ◌*◌, ◌/◌, ◌%◌, ◌^◌, ◌≤◌, ◌<◌, ◌≡◌, refl, sym, ap, ◌∙◌, subst, inl, inr,
  true, false, ◌&&◌, some, List, ◌∷◌, arith, ltb, leb, ◌==◌, if◌then◌else◌, leb→le, not_leb→lt,
  ==_iff, Bool-cases, if-elim-eq, length, replicate, All,
}
use proof_hunter_miner.Bytes.{
  IsArray, IsByte, all_zero, all_zero-value, all_zero_iff, bytes_leb, bytes_leb-value,
  bytes_ltb-value, pow-length, value, value-zeros,
}
use proof_hunter_miner.Classification.{
  NftClassificationSnapshot, add_bit, classify_proof, divide_bit, divide_byte, divide_bytes,
  divide_word, ordinary, proof_hunter, shift_left_one, shift_loop, subtract_loop, subtract_word,
  unknown,
}
use proof_hunter_miner.Classification.Steps.{
  add_bit-shift, shift_loop-IsShifted, subtract_loop-IsDifference,
}
use proof_hunter_miner.Mining.Stride.{digit_unique}
use proof_hunter_miner.Word.{Digest, IsArray-lt, IsWord, IsWord-lt, wrap_carry, zeros-IsArray}

-- One bit: the remainder is doubled, the bit enters, and the divisor is taken off if it fits.
pub record IsBitStep (divisor before bit quotient : ℕ) (after : List ℕ) : Type 0 where
  pub array : IsArray 33 after
  pub small : value after < divisor
  pub one : quotient ≤ 1
  pub number : quotient * divisor + value after ≡ 2 * before + bit

more_bits : (one s p : ℕ) → one ≤ 1 → s < p → one * p + s < p * 2
more_bits zero s p h lt = omega (arith, lt)
more_bits (suc n) s p h lt = let z : n ≡ 0 = omega arith in rw z (omega (arith, lt))

two_pow_pos : (n : ℕ) → 0 < 2 ^ n
two_pow_pos zero = omega arith
two_pow_pos (suc n) = rw (pow-suc 2 n) (omega (arith, two_pow_pos n))

-- The low bits of a number, one more of them.
mod_split : (a p : ℕ) → 0 < p → a % (p * 2) ≡ a / p % 2 * p + a % p
mod_split a p pos =
    let whole : p * (a / p) + a % p ≡ a = div-add-mod a p in
    let halves : 2 * (a / p / 2) + a / p % 2 ≡ a / p = div-add-mod (a / p) 2 in
    let e : a / p / 2 * (p * 2) + (a / p % 2 * p + a % p) ≡ a =
      omega (arith, whole, ap (λ (t : ℕ). t * p) halves) in
    let low : a % p < p = mod-lt a pos in
    subst (λ t. t % (p * 2) ≡ a / p % 2 * p + a % p) e
      (wrap_carry (a / p / 2) (a / p % 2 * p + a % p) (p * 2)
        (more_bits (a / p % 2) (a % p) p (omega arith) low))

module _ (divisor : List ℕ) (hd : IsWord divisor) (pos : 0 < value divisor) where
  wide-IsArray : IsArray 33 (0 ∷ divisor)
  wide-IsArray = record { size = ap suc hd.size; bytes = (omega arith, hd.bytes) }

  wide_value : value (0 ∷ divisor) ≡ value divisor
  unfolding value
  wide_value = omega arith

  shifted_lem :
      (remainder : List ℕ) (bit : ℕ)
      → IsArray 33 remainder
      → value remainder < value divisor
      → bit ≤ 1
      → IsArray 33 (add_bit bit (shift_left_one remainder))
        × (value (add_bit bit (shift_left_one remainder)) ≡ 2 * value remainder + bit)
  unfolding shift_left_one
  shifted_lem [] bit h lt hb = absurd (omega (arith, h.size))
  shifted_lem (x ∷ xs) bit h lt hb =
      let s = shift_loop-IsShifted bit (x ∷ xs) hb h.bytes in
      let r = (shift_loop bit (x ∷ xs)).1 in
      let array : IsArray 33 r = record { size = s.size ∙ h.size; bytes = s.bytes } in
      let room : value divisor < 2 ^ 256 = IsWord-lt divisor hd in
      let number : (shift_loop bit (x ∷ xs)).0 * 256 ^ 33 + value r ≡ 2 * value (x ∷ xs) + bit =
        subst (λ n. (shift_loop bit (x ∷ xs)).0 * 256 ^ n + value r ≡ 2 * value (x ∷ xs) + bit)
          h.size s.number in
      let exact : value r ≡ 2 * value (x ∷ xs) + bit = omega (arith, number, room, lt, hb) in
      rw (add_bit-shift bit x xs).0 (array, exact)

  taken :
      (shifted remainder : List ℕ) (bit : ℕ)
      → IsArray 33 shifted
      → value shifted ≡ 2 * value remainder + bit
      → value divisor ≤ value shifted
      → value remainder < value divisor
      → bit ≤ 1
      → IsBitStep (value divisor) (value remainder) bit 1 (subtract_loop shifted (0 ∷ divisor)).1
  taken shifted remainder bit h number le lt hb =
      let wide = wide-IsArray in
      let d =
        subtract_loop-IsDifference shifted (0 ∷ divisor) (h.size ∙ sym wide.size) h.bytes
          wide.bytes in
      let (b, r) = subtract_loop shifted (0 ∷ divisor) in
      let array : IsArray 33 r = record { size = d.size ∙ h.size; bytes = d.bytes } in
      let top : value r < 256 ^ 33 = IsArray-lt r array in
      let exact : value r + value divisor ≡ value shifted + b * 256 ^ 33 =
        subst (λ n. value r + n ≡ value shifted + b * 256 ^ 33) wide_value
          (subst (λ n. value r + value (0 ∷ divisor) ≡ value shifted + b * 256 ^ n) h.size
            d.number) in
      let none : b ≡ 0 = omega (arith, exact, top, le, d.borrow_bit) in
      let whole : value r + value divisor ≡ value shifted =
        omega
          (arith, subst (λ n. value r + value divisor ≡ value shifted + n * 256 ^ 33) none exact) in
      record {
        array = array;
        small = omega (arith, whole, number, lt, hb);
        one = omega arith;
        number = omega (arith, whole, number);
      }

  kept :
      (shifted remainder : List ℕ) (bit : ℕ)
      → IsArray 33 shifted
      → value shifted ≡ 2 * value remainder + bit
      → value shifted < value divisor
      → IsBitStep (value divisor) (value remainder) bit 0 shifted
  kept shifted remainder bit h number gt = record {
    array = h;
    small = gt;
    one = omega arith;
    number = omega (arith, number);
  }

  divide_bit-IsBitStep :
      (remainder : List ℕ) (bit : ℕ)
      → IsArray 33 remainder
      → value remainder < value divisor
      → bit ≤ 1
      → IsBitStep
          (value divisor)
          (value remainder)
          bit
          (divide_bit (0 ∷ divisor) remainder bit).0
          (divide_bit (0 ∷ divisor) remainder bit).1
  unfolding divide_bit subtract_word
  divide_bit-IsBitStep remainder bit h lt hb =
      let (array, number) = shifted_lem remainder bit h lt hb in
      let shifted = add_bit bit (shift_left_one remainder) in
      let wide = wide-IsArray in
      let same : bytes_leb (0 ∷ divisor) shifted ≡ leb (value (0 ∷ divisor)) (value shifted) =
        bytes_leb-value (0 ∷ divisor) shifted (wide.size ∙ sym array.size) wide.bytes array.bytes in
      if-elim-eq (λ (p : ℕ × List ℕ). IsBitStep (value divisor) (value remainder) bit p.0 p.1)
        (bytes_leb (0 ∷ divisor) shifted)
        (λ t.
          let le : value divisor ≤ value shifted =
            subst (λ n. n ≤ value shifted) wide_value
              (leb→le (value (0 ∷ divisor)) (value shifted) (sym same ∙ t)) in
          taken shifted remainder bit array number le lt hb)
        (λ f.
          let gt : value shifted < value divisor =
            subst (λ n. value shifted < n) wide_value
              (not_leb→lt (value (0 ∷ divisor)) (value shifted) (sym same ∙ f)) in
          kept shifted remainder bit array number gt)

  -- The low `n` bits of a byte enter the remainder, and as many bits of quotient come out.
  divide_byte-quotient :
      (n byte quotient : ℕ) (remainder : List ℕ)
      → IsArray 33 remainder
      → value remainder < value divisor
      → (s : ℕ) × (s < 2 ^ n)
        × ((divide_byte n (0 ∷ divisor) byte quotient remainder).0 ≡ quotient + s)
        × IsArray 33 (divide_byte n (0 ∷ divisor) byte quotient remainder).1
        × (value (divide_byte n (0 ∷ divisor) byte quotient remainder).1 < value divisor)
        × (s * value divisor + value (divide_byte n (0 ∷ divisor) byte quotient remainder).1
            ≡ value remainder * 2 ^ n + byte % 2 ^ n)
  unfolding divide_byte
  divide_byte-quotient zero byte quotient remainder h lt =
      (0, omega arith, omega arith, h, lt, omega arith)
  divide_byte-quotient (suc n) byte quotient remainder h lt =
      let bit = byte / 2 ^ n % 2 in
      let (one, rest) = divide_bit (0 ∷ divisor) remainder bit in
      let step = divide_bit-IsBitStep remainder bit h lt (omega arith) in
      let (s, hs, same, array, small, number) =
        divide_byte-quotient n byte (quotient + one * 2 ^ n) rest step.array step.small in
      (
        one * 2 ^ n + s,
        rw (pow-suc 2 n) (more_bits one s (2 ^ n) step.one hs),
        omega (arith, same),
        array,
        small,
        rw (pow-suc 2 n, mod_split byte (2 ^ n) (two_pow_pos n))
            (omega (arith, number, ap (λ (t : ℕ). t * 2 ^ n) step.number)),
      )

  -- The bytes of the dividend, from the first on.
  divide_bytes-quotient :
      (bytes remainder : List ℕ)
      → All IsByte bytes
      → IsArray 33 remainder
      → value remainder < value divisor
      → IsArray (length bytes) (divide_bytes (0 ∷ divisor) remainder bytes)
        × (r : ℕ) × (r < value divisor)
        × (value (divide_bytes (0 ∷ divisor) remainder bytes) * value divisor + r
            ≡ value remainder * 256 ^ length bytes + value bytes)
  unfolding divide_bytes value
  divide_bytes-quotient [] remainder hb h lt =
      (record { size = refl; bytes = tt }, value remainder, lt, omega arith)
  divide_bytes-quotient (x ∷ xs) remainder (hx, hb) h lt =
      let (s, hs, same, array, small, number) = divide_byte-quotient 8 x 0 remainder h lt in
      let (q, rest) = divide_byte 8 (0 ∷ divisor) x 0 remainder in
      let (out, r, below, ih) = divide_bytes-quotient xs rest hb array small in
      let whole : q * value divisor + value rest ≡ value remainder * 256 + x =
        rw same (omega (arith, number, hx)) in
      (
        record { size = ap suc out.size; bytes = (omega (arith, same, hs), out.bytes) },
        r,
        below,
        rw (pow-suc 256 (length xs), pow-length (divide_bytes (0 ∷ divisor) rest xs) xs out.size)
            (omega (arith, ih, ap (λ (t : ℕ). t * 256 ^ length xs) whole)),
      )

same_quotient : (d p q r s : ℕ) → r < d → s < d → p * d + r ≡ d * q + s → p ≡ q
same_quotient d p q r s hr hs e = (digit_unique d p q r s hr hs (omega (arith, e))).0

quotient_unique : (a d q r : ℕ) → r < d → q * d + r ≡ a → q ≡ a / d
quotient_unique a d q r h e =
    let pos : 0 < d = omega arith in
    let whole : d * (a / d) + a % d ≡ a = div-add-mod a d in
    let low : a % d < d = mod-lt a pos in
    same_quotient d q (a / d) r (a % d) h low (omega (arith, e, whole))

-- For words with a divisor above 0, `divide_word` is the word of the quotient of their numbers.
pub divide_word-quotient :
    (dividend divisor : List ℕ)
    → IsWord dividend
    → IsWord divisor
    → 0 < value divisor
    → (value (divide_word dividend divisor) ≡ value dividend / value divisor)
      × IsWord (divide_word dividend divisor)
unfolding divide_word
divide_word-quotient dividend divisor ha hd pos =
    let zeros = zeros-IsArray 33 in
    let none : value (replicate 33 0) ≡ 0 = value-zeros 33 in
    let (out, r, below, number) =
      divide_bytes-quotient divisor hd pos dividend (replicate 33 0) ha.bytes zeros
        (subst (λ n. n < value divisor) (sym none) pos) in
    let q = divide_bytes (0 ∷ divisor) (replicate 33 0) dividend in
    let exact : value q * value divisor + r ≡ value dividend =
      number ∙ ap (λ (n : ℕ). n * 256 ^ length dividend + value dividend) none ∙ omega arith in
    (
      quotient_unique (value dividend) (value divisor) (value q) r below exact,
      record { size = out.size ∙ ha.size; bytes = out.bytes },
    )

-- What the array types of a snapshot say.
pub record IsSnapshot (s : NftClassificationSnapshot) : Type 0 where
  pub accepted_target : IsWord s.accepted_target
  pub nft_odds_denominator : IsWord s.nft_odds_denominator
  pub max_nfts_ever : IsWord s.max_nfts_ever
  pub nfts_minted_ever : IsWord s.nfts_minted_ever

positive_ne_zero : (n : ℕ) → 0 < n → (n == 0) ≡ false
positive_ne_zero n h = ground arith

-- For a digest and a snapshot of words, `classify_proof` answers that it does not know for a
-- denominator of 0, and otherwise predicts a Proof Hunter exactly if the digest is at most the
-- quotient of the accepted target by the denominator and fewer are minted than the maximum.
pub classify_proof-quotient :
    (digest : Digest) (s : NftClassificationSnapshot)
    → IsWord digest
    → IsSnapshot s
    → classify_proof digest (some s) ≡ (
        if value s.nft_odds_denominator == 0
        then unknown
        else if leb (value digest) (value s.accepted_target / value s.nft_odds_denominator)
            && ltb (value s.nfts_minted_ever) (value s.max_nfts_ever)
        then proof_hunter
        else ordinary)
unfolding classify_proof
classify_proof-quotient digest s hd h =
    let den = s.nft_odds_denominator in
    elim (Bool-cases (all_zero den)) [
      | inl z ↦
          let e : (value den == 0) ≡ true =
            (==_iff (value den) 0).1 ((all_zero_iff den h.nft_odds_denominator.bytes).0 z) in
          rw (z, e) refl
      | inr f ↦
          let pos = (all_zero-value den h.nft_odds_denominator.bytes).1 f in
          let (number, word) =
            divide_word-quotient s.accepted_target den h.accepted_target h.nft_odds_denominator
              pos in
          rw
            (
              f,
              positive_ne_zero (value den) pos,
              bytes_leb-value digest (divide_word s.accepted_target den) (hd.size ∙ sym word.size)
                  hd.bytes word.bytes,
              number,
              bytes_ltb-value s.nfts_minted_ever s.max_nfts_ever
                  (h.nfts_minted_ever.size ∙ sym h.max_nfts_ever.size) h.nfts_minted_ever.bytes
                  h.max_nfts_ever.bytes,
            )
            refl
    ]
