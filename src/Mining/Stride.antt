-- ===== src/Mining/Stride.antt =====
-- crates/bproof/src/mining.rs: the attempts and the nonces of each worker.
use native.Mathlib.Nat.{mul_comm, add_assoc, div-add-mod, mod-lt, le-div_iff_mul-le, mod-add-mod}
use proof_hunter_miner.Base.{
  ℕ, zero, suc, ◌+◌, ◌-◌, ◌*◌, ◌/◌, ◌%◌, ◌^◌, ◌≤◌, ◌<◌, ◌≡◌, sym, ap, ◌∙◌, subst, ◌↔◌, inl, inr,
  arith, ◌==◌, if◌then◌else◌, ==_iff, Bool-cases,
}
use proof_hunter_miner.Bytes.{value}
use proof_hunter_miner.Word.{
  Uint256, IsWord, wrapping_add, wrapping_add-mod, from_u64, from_u64-IsWord, value-from_u64,
}
use proof_hunter_miner.Mining.{worker_budget, worker_start}
use proof_hunter_miner.Search.First.{nonce_at, nonce_at-value}

-- Which attempt of the whole search attempt `i` of a worker is.
abbrev pub attempt_of : ℕ → ℕ → ℕ → ℕ
attempt_of threads worker_id i =
    if worker_id == 0 then (i + 1) * threads else worker_id + i * threads

-- For a positive total and positive threads, attempt `i` of a worker is within its budget exactly
-- if its place in the whole search lies below the total.
pub worker_budget-attempt_of :
    (total threads worker_id i : ℕ)
    → 0 < total
    → 0 < threads
    → (i < worker_budget total threads worker_id) ↔ (attempt_of threads worker_id i < total)
unfolding worker_budget
worker_budget-attempt_of total threads w i ht pos =
    let le : (y : ℕ) → (i + 1 ≤ y / threads) ↔ ((i + 1) * threads ≤ y) =
      λ y. le-div_iff_mul-le pos in
    let le' : (y : ℕ) → (i ≤ y / threads) ↔ (i * threads ≤ y) = λ y. le-div_iff_mul-le pos in
    ground (arith, le (total - 1), le' (total - 1 - w))

multiple_of : (t q w a : ℕ) → 0 < a → t * q + w ≡ a → w ≡ 0 → (q - 1 + 1) * t ≡ a
multiple_of t zero w a first e z = absurd (omega arith)
multiple_of t (suc q) w a first e z =
    let same : suc q - 1 + 1 ≡ suc q = omega arith in rw same (omega (arith, mul_comm t (suc q)))

pub digit_unique : (t a b v w : ℕ) → v < t → w < t → a * t + v ≡ b * t + w → (a ≡ b) × (v ≡ w)
digit_unique t zero zero v w hv hw e = omega arith
digit_unique t zero (suc b) v w hv hw e = absurd (omega arith)
digit_unique t (suc a) zero v w hv hw e = absurd (omega arith)
digit_unique t (suc a) (suc b) v w hv hw e =
    let ih = digit_unique t a b v w hv hw (omega arith) in omega (arith, ih.0, ih.1)

-- Every attempt behind the first belongs to a worker.
pub attempt_of-covers :
    (threads attempt : ℕ)
    → 0 < threads
    → 0 < attempt
    → (worker_id : ℕ) × (i : ℕ) × (worker_id < threads) × (attempt_of threads worker_id i ≡ attempt)
attempt_of-covers t a pos first =
    let w = a % t in
    let q = a / t in
    let whole : t * q + w ≡ a = div-add-mod a t in
    elim (Bool-cases (w == 0)) [
      | inl multiple ↦ (
        w,
        q - 1,
        mod-lt a pos,
        rw multiple (multiple_of t q w a first whole ((==_iff w 0).0 multiple)),
      )
      | inr between ↦ (w, q, mod-lt a pos, rw between (omega (arith, whole)))
    ]

-- No attempt belongs to two workers, or twice to one.
pub attempt_of-injective :
    (threads v w i j : ℕ)
    → v < threads
    → w < threads
    → attempt_of threads v i ≡ attempt_of threads w j
    → (v ≡ w) × (i ≡ j)
attempt_of-injective t v w i j hv hw e = ground (
  arith,
  digit_unique t (i + 1) (j + 1) v w,
  digit_unique t (i + 1) j v w,
  digit_unique t i (j + 1) v w,
  digit_unique t i j v w,
)

step_up : (i t : ℕ) → (i + 1) * t ≡ t + i * t
step_up i t = omega arith

start_value :
    (start : Uint256) (n : ℕ)
    → IsWord start
    → n < 2 ^ 64
    → (value (wrapping_add start (from_u64 n)) ≡ (value start + n) % 2 ^ 256)
      × IsWord (wrapping_add start (from_u64 n))
start_value start n h lt =
    rw (value-from_u64 n lt) at (wrapping_add-mod start (from_u64 n) h (from_u64-IsWord n))

from_offset :
    (start from : Uint256) (d i t : ℕ)
    → IsWord from
    → value from ≡ (value start + d) % 2 ^ 256
    → t < 2 ^ 64
    → value (nonce_at from (from_u64 t) i) ≡ (value start + (d + i * t)) % 2 ^ 256
from_offset start from d i t word e lt =
    (nonce_at-value from (from_u64 t) i word (from_u64-IsWord t)).0
    ∙ rw (
      e,
      value-from_u64 t lt,
      mod-add-mod (value start + d) (2 ^ 256) (i * t),
      add_assoc (value start) d (i * t),
    )

-- For a starting nonce that is a word, fewer than 2^64 threads and a worker among them, attempt
-- `i` of the worker tries the nonce at the attempt's place in the whole search, counted from the
-- starting nonce modulo 2^256.
pub worker_nonce :
    (start : Uint256) (threads worker_id i : ℕ)
    → IsWord start
    → threads < 2 ^ 64
    → worker_id < threads
    → value (nonce_at (worker_start start threads worker_id) (from_u64 threads) i)
      ≡ (value start + attempt_of threads worker_id i) % 2 ^ 256
unfolding worker_start
worker_nonce start t w i h lt hw = elim (Bool-cases (w == 0)) [
  | inl own ↦
      let (e, word) = start_value start t h lt in
      rw (own, step_up i t) (from_offset start (wrapping_add start (from_u64 t)) t i t word e lt)
  | inr other ↦
      let (e, word) = start_value start w h (omega arith) in
      rw other (from_offset start (wrapping_add start (from_u64 w)) w i t word e lt)
]

-- In a search of `total` attempts from a word on any positive number of threads below 2^64, every
-- attempt but the first is made by some worker within its budget, and it tries the nonce at its
-- own place, counted from the starting nonce modulo 2^256.
pub workers_cover :
    (start : Uint256) (total threads attempt : ℕ)
    → IsWord start
    → 0 < threads
    → threads < 2 ^ 64
    → 0 < attempt
    → attempt < total
    → (worker_id : ℕ) × (i : ℕ) × (worker_id < threads)
      × (i < worker_budget total threads worker_id)
      × (value (nonce_at (worker_start start threads worker_id) (from_u64 threads) i)
          ≡ (value start + attempt) % 2 ^ 256)
workers_cover start total threads attempt hs pos fits first below =
    let (w, i, hw, e) = attempt_of-covers threads attempt pos first in
    (
      w,
      i,
      hw,
      (worker_budget-attempt_of total threads w i (omega (arith, below)) pos).1
          (subst (λ t. t < total) (sym e) below),
      worker_nonce start threads w i hs fits hw ∙ ap (λ t. (value start + t) % 2 ^ 256) e,
    )
