-- ===== src/Fees/Quote.antt =====
-- A fee quote against its parts (crates/bproof/src/submit.rs).
use proof_hunter_miner.Base.{
  ℕ, ◌+◌, ◌-◌, ◌*◌, ◌/◌, ◌^◌, ◌≤◌, ◌<◌, ◌≡◌, refl, sym, ap, ◌∙◌, subst, inl, inr, arith, ltb,
  ltb→lt, lt→ltb, Bool-cases, >>=-ok, ok-injective, ok,
}
use proof_hunter_miner.Fees.{
  exposure_exceeds_u128, max_fee_exceeds_u128, margin_too_large, FeeError, FeeQuote, checked,
  padded_gas_limit, fee_quote, padded_too_large,
}

pub checked-ok : (e : FeeError) (n : ℕ) {m : ℕ} → checked e n ≡ ok m → (m ≡ n) × (n < 2 ^ 128)
unfolding checked
checked-ok e n h = elim (Bool-cases (ltb n (2 ^ 128))) [
  | inl t ↦ (cc, ltb→lt n (2 ^ 128) t)
  | inr f ↦ absurd cc
]

pub checked-eq : (e : FeeError) (n : ℕ) → n < 2 ^ 128 → checked e n ≡ ok n
unfolding checked
checked-eq e n h = rw (lt→ltb n (2 ^ 128) h)

-- The padded limit is the estimate and its margin, in hundredths, rounded up.
pub record IsPadded (estimate margin limit : ℕ) : Type 0 where
  pub covers : estimate * (100 + margin) ≤ limit * 100
  pub least : limit * 100 < estimate * (100 + margin) + 100
  pub in_range : limit < 2 ^ 64

rounds_up : (n q : ℕ) → q ≡ (n + 99) / 100 → (n ≤ q * 100) × (q * 100 < n + 100)
rounds_up n q h = (omega arith, omega arith)

pub padded_gas_limit-IsPadded :
    (estimate margin : ℕ) {limit : ℕ}
    → padded_gas_limit estimate margin ≡ ok limit
    → IsPadded estimate margin limit
unfolding padded_gas_limit
padded_gas_limit-IsPadded estimate margin {limit} h =
    let (multiplier, e1, h1) = >>=-ok (checked margin_too_large (100 + margin)) _ h in
    let (product, e2, h2) = >>=-ok (checked padded_too_large (estimate * multiplier)) _ h1 in
    let (sum, e3, h3) = >>=-ok (checked padded_too_large (product + 99)) _ h2 in
    let a1 = (checked-ok _ _ e1).0 in
    let a2 = (checked-ok _ _ e2).0 in
    let a3 = (checked-ok _ _ e3).0 in
    let total : sum ≡ estimate * (100 + margin) + 99 =
      a3 ∙ ap (λ t. t + 99) (a2 ∙ ap (λ t. estimate * t) a1) in
    elim (Bool-cases (ltb (sum / 100) (2 ^ 64))) [
      | inr f ↦ absurd cc
      | inl t ↦
          let l : limit ≡ sum / 100 = cc in
          let rounded = rounds_up (estimate * (100 + margin)) limit (l ∙ ap (λ t. t / 100) total) in
          record {
            covers = rounded.0;
            least = rounded.1;
            in_range = subst (λ t. t < 2 ^ 64) (sym l) (ltb→lt (sum / 100) (2 ^ 64) t);
          }
    ]

padded_gas_limit-eq :
    (estimate margin : ℕ)
    → margin < 2 ^ 64
    → estimate * (100 + margin) ≤ (2 ^ 64 - 1) * 100
    → padded_gas_limit estimate margin ≡ ok ((estimate * (100 + margin) + 99) / 100)
unfolding padded_gas_limit
padded_gas_limit-eq estimate margin hm h =
    let product = estimate * (100 + margin) in
    let below : product + 99 < 2 ^ 128 = omega arith in
    let limit : (product + 99) / 100 < 2 ^ 64 = omega arith in
    rw (
      checked-eq margin_too_large (100 + margin) (omega arith),
      checked-eq padded_too_large product (omega arith),
      checked-eq padded_too_large (product + 99) below,
      lt→ltb ((product + 99) / 100) (2 ^ 64) limit,
    )

-- What a quote says of the numbers it was made from.
pub record IsQuote (base priority estimate margin ceiling : ℕ) (q : FeeQuote) : Type 0 where
  pub base_fee : q.base_fee_per_gas_wei ≡ base
  pub priority_fee : q.priority_fee_per_gas_wei ≡ priority
  pub max_fee : q.max_fee_per_gas_wei ≡ base * 2 + priority
  pub max_fee_in_range : q.max_fee_per_gas_wei < 2 ^ 128
  pub padded : IsPadded estimate margin q.gas_limit
  pub exposure : q.maximum_exposure_wei ≡ q.gas_limit * q.max_fee_per_gas_wei
  pub in_range : q.maximum_exposure_wei < 2 ^ 128
  pub fee_ceiling : q.fee_ceiling_wei ≡ ceiling

-- A successful `fee_quote` doubles the base fee and adds the tip, pads the gas estimate by the
-- margin in percent, rounded up, and records the exact product of both, which fits a `u128`, as
-- the exposure.
pub fee_quote-IsQuote :
    (base priority estimate margin ceiling : ℕ) {q : FeeQuote}
    → fee_quote base priority estimate margin ceiling ≡ ok q
    → IsQuote base priority estimate margin ceiling q
unfolding fee_quote
fee_quote-IsQuote base priority estimate margin ceiling {q} h =
    let (doubled, e1, h1) = >>=-ok (checked max_fee_exceeds_u128 (base * 2)) _ h in
    let (max_fee, e2, h2) = >>=-ok (checked max_fee_exceeds_u128 (doubled + priority)) _ h1 in
    let (limit, e3, h3) = >>=-ok (padded_gas_limit estimate margin) _ h2 in
    let (exposure, e4, h4) = >>=-ok (checked exposure_exceeds_u128 (limit * max_fee)) _ h3 in
    let a1 = (checked-ok _ _ e1).0 in
    let (a2, fits) = checked-ok _ _ e2 in
    let (a4, small) = checked-ok _ _ e4 in
    let made : IsQuote base priority estimate margin ceiling (record {
      base_fee_per_gas_wei = base;
      priority_fee_per_gas_wei = priority;
      max_fee_per_gas_wei = max_fee;
      estimated_gas = estimate;
      gas_margin_percent = margin;
      gas_limit = limit;
      maximum_exposure_wei = exposure;
      fee_ceiling_wei = ceiling;
    }) =
      record {
        base_fee = refl;
        priority_fee = refl;
        max_fee = a2 ∙ ap (λ t. t + priority) a1;
        max_fee_in_range = subst (λ t. t < 2 ^ 128) (sym a2) fits;
        padded = padded_gas_limit-IsPadded estimate margin e3;
        exposure = a4;
        in_range = subst (λ t. t < 2 ^ 128) (sym a4) small;
        fee_ceiling = refl;
      } in
    subst (IsQuote base priority estimate margin ceiling) (ok-injective h4) made

-- For a margin of 64 bits, `fee_quote` succeeds when the doubled base fee with the tip fits a
-- `u128`, the estimate with its margin fits a `u64`, and the exposure fits a `u128`.
pub fee_quote-total :
    (base priority estimate margin ceiling : ℕ)
    → margin < 2 ^ 64
    → base * 2 + priority < 2 ^ 128
    → estimate * (100 + margin) ≤ (2 ^ 64 - 1) * 100
    → (estimate * (100 + margin) + 99) / 100 * (base * 2 + priority) < 2 ^ 128
    → (q : FeeQuote) × (fee_quote base priority estimate margin ceiling ≡ ok q)
unfolding fee_quote
fee_quote-total base priority estimate margin ceiling hm hb hg hx =
    let limit = (estimate * (100 + margin) + 99) / 100 in
    let max_fee = base * 2 + priority in
    (
      record {
        base_fee_per_gas_wei = base;
        priority_fee_per_gas_wei = priority;
        max_fee_per_gas_wei = max_fee;
        estimated_gas = estimate;
        gas_margin_percent = margin;
        gas_limit = limit;
        maximum_exposure_wei = limit * max_fee;
        fee_ceiling_wei = ceiling;
      },
      rw (
        checked-eq max_fee_exceeds_u128 (base * 2) (omega (arith, hb)),
        checked-eq max_fee_exceeds_u128 max_fee hb,
        padded_gas_limit-eq estimate margin hm hg,
        checked-eq exposure_exceeds_u128 (limit * max_fee) hx,
      ),
    )
