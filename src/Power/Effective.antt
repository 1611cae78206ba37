-- ===== src/Power/Effective.antt =====
-- `effective_target` of crates/bproof/src/power.rs against its formula in plain numbers, and its
-- bounds.
use native.Mathlib.Nat.{mul-le-mul_left, le-div_iff_mul-le, div-lt_iff_lt-mul}
use proof_hunter_miner.Base.{
  ◌>>=◌, ℕ, zero, suc, ◌+◌, ◌*◌, ◌/◌, ◌^◌, ◌≤◌, ◌<◌, min, ◌≡◌, sym, ap, ◌∙◌, inl, inr, arith, ltb,
  leb, if◌then◌else◌, lt→ltb, leb→le, not_ltb, not_leb→lt, Bool-cases, Result, ok, err, drop,
}
use proof_hunter_miner.Bytes.{
  value, IsArray-IsCut, bytes_leb, bytes_ltb, bytes_leb-value, bytes_ltb-value,
}
use proof_hunter_miner.Word.{
  Uint256, Target, IsWord, IsWord-lt, to_be_bytes, to_be_bytes-IsArray, value-to_be_bytes, from_u64,
  from_u64-IsWord, value-from_u64, word-to_be_bytes,
}
use proof_hunter_miner.Power.{
  base_wad, max_wad, bytes_min, mul_div, effective_target, PowerError, base_exceeds_maximum,
}
use proof_hunter_miner.Power.MulDiv.{mul_div-total, word_or_overflow}

word_leb : (a b : Uint256) → IsWord a → IsWord b → bytes_leb a b ≡ leb (value a) (value b)
word_leb a b ha hb = bytes_leb-value a b (ha.size ∙ sym hb.size) ha.bytes hb.bytes

word_ltb : (a b : Uint256) → IsWord a → IsWord b → bytes_ltb a b ≡ ltb (value a) (value b)
word_ltb a b ha hb = bytes_ltb-value a b (ha.size ∙ sym hb.size) ha.bytes hb.bytes

-- The smaller of two words.
bytes_min-min :
    (a b : Uint256)
    → IsWord a
    → IsWord b
    → IsWord (bytes_min a b) × (value (bytes_min a b) ≡ min (value a) (value b))
unfolding bytes_min
bytes_min-min a b ha hb = elim (Bool-cases (bytes_leb a b)) [
  | inl le ↦ rw le (ha, omega (arith, leb→le (value a) (value b) (sym (word_leb a b ha hb) ∙ le)))
  | inr gt ↦
      rw gt (hb, omega (arith, not_leb→lt (value a) (value b) (sym (word_leb a b ha hb) ∙ gt)))
]

low_part : (a b p q : ℕ) → q ≡ a * p + b → q < p → b ≡ q
low_part zero b p q e h = omega arith
low_part (suc a) b p q e h = absurd (omega arith)

-- The multiplier that is used: capped, and read as a `u64`.
multiplier_read :
    (m : Uint256)
    → IsWord m
    → value (drop 24 (bytes_min m (from_u64 max_wad))) ≡ min (value m) max_wad
multiplier_read m h =
    let cap = value-from_u64 max_wad (omega arith) in
    let (word, number) = bytes_min-min m (from_u64 max_wad) h (from_u64-IsWord max_wad) in
    let cut = IsArray-IsCut 24 8 (bytes_min m (from_u64 max_wad)) word in
    low_part _ _ (2 ^ 64) _ cut.number (omega (arith, number, cap))
    ∙ number
    ∙ ap (min (value m)) cap

-- The contract's formula: at and below one unit the base target; above it the base scaled by the
-- capped multiplier, or the maximum once the base reaches `maximum / multiplier`, rounded down.
pub effective_value : ℕ → ℕ → ℕ → ℕ
effective_value base multiplier maximum =
    let m = min multiplier max_wad in
    if leb multiplier base_wad
    then base
    else if leb (maximum * base_wad / m) base
    then maximum
    else base * m / base_wad

scaled_le : (b m t : ℕ) → 0 < m → b < t * base_wad / m → b * m / base_wad ≤ t
scaled_le b m t pos h =
    let whole : (b + 1) * m ≤ t * base_wad = (le-div_iff_mul-le pos).0 (omega arith) in omega arith

-- A multiplier between one and three units scales up, to at most the maximum, and not past three
-- times the next number.
scaled_bounds :
    (b m t : ℕ)
    → base_wad < m
    → m ≤ max_wad
    → b ≤ t
    → (b ≤ b * m / base_wad)
      × (b * m / base_wad ≤ 3 * (b + 1))
      × (t * base_wad / m ≤ b → t ≤ 3 * (b + 1))
scaled_bounds b m t lo hi h =
    let pos : 0 < m = omega arith in
    let up : b * base_wad ≤ b * m = mul-le-mul_left b (omega arith) in
    let down : (b + 1) * m ≤ (b + 1) * max_wad = mul-le-mul_left (b + 1) hi in
    (
      omega arith,
      omega arith,
      λ le.
          let room : t * base_wad < (b + 1) * m = (div-lt_iff_lt-mul pos).0 (omega arith) in
          omega arith,
    )

-- The formula lies between the base and the maximum, and below three times the next base.
pub effective_value_bounds :
    (base multiplier maximum : ℕ)
    → base ≤ maximum
    → (base ≤ effective_value base multiplier maximum)
      × (effective_value base multiplier maximum ≤ maximum)
      × (effective_value base multiplier maximum ≤ 3 * (base + 1))
unfolding effective_value
effective_value_bounds base multiplier maximum h = ground (
  arith,
  scaled_bounds base (min multiplier max_wad) maximum,
  scaled_le base (min multiplier max_wad) maximum,
)

word_or_overflow_fits : (n : ℕ) → n < 2 ^ 256 → word_or_overflow n ≡ ok (to_be_bytes 32 n)
word_or_overflow_fits n h = rw (lt→ltb n (2 ^ 256) h)

bytes_min-word :
    (a b : Uint256) (n : ℕ)
    → IsWord a
    → IsWord b
    → min (value a) (value b) ≡ n
    → bytes_min a b ≡ to_be_bytes 32 n
bytes_min-word a b n ha hb e =
    let (word, number) = bytes_min-min a b ha hb in
    word-to_be_bytes (bytes_min a b) word ∙ ap (to_be_bytes 32) (number ∙ e)

-- The part of the code behind the two early returns.
widened_target : Uint256 → Uint256 → ℕ → Result PowerError Target
widened_target base maximum mult = do
  max_safe ← mul_div maximum base_wad mult
  widened ← (if bytes_leb max_safe base then ok maximum else mul_div base mult base_wad)
  ok (bytes_min widened maximum)

shrinks : (t m : ℕ) → base_wad < m → t * base_wad / m ≤ t
shrinks t m lo =
    let pos : 0 < m = omega arith in
    let down : t * base_wad ≤ t * m = mul-le-mul_left t (omega arith) in
    let below : t * base_wad / m < t + 1 = (div-lt_iff_lt-mul pos).1 (omega arith) in omega arith

min_self : (t : ℕ) → min t t ≡ t
min_self t = omega arith

widened_target-total :
    (base maximum : Uint256) (m : ℕ)
    → IsWord base
    → IsWord maximum
    → base_wad < m
    → m ≤ max_wad
    → value base ≤ value maximum
    → widened_target base maximum m
      ≡ ok (
          to_be_bytes 32 (
            if leb (value maximum * base_wad / m) (value base)
            then value maximum
            else value base * m / base_wad))
unfolding widened_target
widened_target-total base maximum m hb hx lo hi le =
    let b = value base in
    let t = value maximum in
    let safe = t * base_wad / m in
    let top = IsWord-lt maximum hx in
    let safe_le = shrinks t m lo in
    let safe_word = to_be_bytes-IsArray 32 safe in
    let read : mul_div maximum base_wad m ≡ ok (to_be_bytes 32 safe) =
      mul_div-total maximum base_wad m hx (omega arith) (omega arith) (omega arith)
      ∙ word_or_overflow_fits safe (omega arith) in
    let test : bytes_leb (to_be_bytes 32 safe) base ≡ leb safe b =
      word_leb (to_be_bytes 32 safe) base safe_word hb
      ∙ ap (λ (n : ℕ). leb n b) (value-to_be_bytes 32 safe (omega arith)) in
    rw (read, test)
      (elim (Bool-cases (leb safe b)) [
        | inl reached ↦ rw reached (ap ok (bytes_min-word maximum maximum t hx hx (min_self t)))
        | inr below ↦
            let n = b * m / base_wad in
            let small : n ≤ t = scaled_le b m t (omega arith) (not_leb→lt safe b below) in
            let scaled : mul_div base m base_wad ≡ ok (to_be_bytes 32 n) =
              mul_div-total base m base_wad hb (omega arith) (omega arith) (omega arith)
              ∙ word_or_overflow_fits n (omega arith) in
            rw (below, scaled)
              (ap ok (
                bytes_min-word (to_be_bytes 32 n) maximum n (to_be_bytes-IsArray 32 n) hx
                  (omega (arith, value-to_be_bytes 32 n (omega arith)))))
      ])

-- On every base target, multiplier and maximum that are words, `effective_target` returns the base
-- for a multiplier up to 1e18, refuses a base above the maximum, and otherwise returns the word of
-- `effective_value`, the formula in plain numbers.
pub effective_target-total :
    (base multiplier maximum : Uint256)
    → IsWord base
    → IsWord multiplier
    → IsWord maximum
    → effective_target base multiplier maximum ≡ (
        if leb (value multiplier) base_wad
        then ok base
        else if ltb (value maximum) (value base)
        then err base_exceeds_maximum
        else ok (to_be_bytes 32 (effective_value (value base) (value multiplier) (value maximum))))
unfolding effective_target effective_value widened_target
effective_target-total base multiplier maximum hb hm hx =
    let m = value multiplier in
    let start : bytes_leb multiplier (from_u64 base_wad) ≡ leb m base_wad =
      word_leb multiplier (from_u64 base_wad) hm (from_u64-IsWord base_wad)
      ∙ ap (leb m) (value-from_u64 base_wad (omega arith)) in
    rw (start, word_ltb maximum base hx hb, multiplier_read multiplier hm)
      (elim (Bool-cases (leb m base_wad)) [
        | inl idle ↦ rw idle
        | inr active ↦ rw active (elim (Bool-cases (ltb (value maximum) (value base))) [
          | inl above ↦ rw above
          | inr within ↦ rw within (
              widened_target-total base maximum (min m max_wad) hb hx
                (omega (arith, not_leb→lt m base_wad active)) (omega arith) (ground arith))
        ])
      ])

-- For words with the base target up to the maximum, `effective_target` answers: a word that is no
-- harder than the base, no easier than the maximum, and at most three times the number above the
-- base.
pub effective_target_bounds :
    (base multiplier maximum : Uint256)
    → IsWord base
    → IsWord multiplier
    → IsWord maximum
    → value base ≤ value maximum
    → (target : Target) × (effective_target base multiplier maximum ≡ ok target)
      × IsWord target
      × (value base ≤ value target)
      × (value target ≤ value maximum)
      × (value target ≤ 3 * (value base + 1))
effective_target_bounds base multiplier maximum hb hm hx le =
    let total = effective_target-total base multiplier maximum hb hm hx in
    elim (Bool-cases (leb (value multiplier) base_wad)) [
      | inl idle ↦ (base, rw (total, idle), hb, omega arith, le, omega arith)
      | inr active ↦
          let n = effective_value (value base) (value multiplier) (value maximum) in
          let (up, down, triple) =
            effective_value_bounds (value base) (value multiplier) (value maximum) le in
          let number : value (to_be_bytes 32 n) ≡ n =
            value-to_be_bytes 32 n (omega (arith, IsWord-lt maximum hx)) in
          (
            to_be_bytes 32 n,
            rw (total, active, not_ltb (value maximum) (value base) le),
            to_be_bytes-IsArray 32 n,
            omega arith,
            omega arith,
            omega arith,
          )
    ]
