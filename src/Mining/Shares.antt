-- ===== src/Mining/Shares.antt =====
-- crates/bproof/src/mining.rs: the budgets that the workers start with, of a cap.
use native.Mathlib.Nat.{div-add-mod, div-eq_of_lt, mod-le, mod-lt, mul-add-div, mul-suc, suc-mul}
use proof_hunter_miner.Base.{
  ℕ, zero, suc, ◌+◌, ◌-◌, ◌*◌, ◌/◌, ◌%◌, ◌≤◌, ◌<◌, ◌≡◌, refl, ap, ◌∙◌, ◌⊎◌, inl, inr, false, some,
  List, arith, ltb, leb, ◌==◌, ltb→lt, lt→ltb, leb→le, not_leb→lt, ==_iff, Bool-cases, if-elim,
  if-elim-eq, Option-elim, All,
}
use proof_hunter_miner.Mining.{worker_budget}
use proof_hunter_miner.Mining.Budgets.{IsCapped, left_of, outstanding}
use proof_hunter_miner.Mining.Coordinate.{Worker, add_worker, start_workers}
use proof_hunter_miner.Word.{Uint256}

zero_or_suc : (n : ℕ) → (n ≡ 0) ⊎ ((m : ℕ) × (n ≡ suc m))
zero_or_suc zero = inl refl
zero_or_suc (suc m) = inr (m, refl)

not_ltb→le : (a b : ℕ) → ltb a b ≡ false → b ≤ a
not_ltb→le a b e = elim (Bool-cases (leb b a)) [
  | inl le ↦ leb→le b a le
  | inr past ↦ let lt = lt→ltb a b (not_leb→lt b a past) in absurd cc
]

pub positive : (n : ℕ) → (n == 0) ≡ false → 0 < n
positive zero e = absurd cc
positive (suc n) e = omega arith

div_value : (t a b : ℕ) → b < t → (t * a + b) / t ≡ a
div_value t a b h =
    let e = mul-add-div {m = t} (omega arith) a b in let z = div-eq_of_lt h in omega (arith, e, z)

-- The budget of a worker but the first: one more for the workers up to the remainder.
budget_up_to :
    (last t id : ℕ) → 0 < id → id ≤ last % t → id < t → 1 + (last - id) / t ≡ last / t + 1
budget_up_to last t id pos le below =
    let q = last / t in
    let r = last % t in
    let whole : t * q + r ≡ last = div-add-mod last t in
    let lt : r < t = mod-lt last (omega arith) in
    let parts : last - id ≡ t * q + (r - id) = omega (arith, whole) in
    let e : (last - id) / t ≡ q = rw parts (div_value t q (r - id) (omega (arith, lt))) in
    omega (arith, e)

budget_past : (last t id : ℕ) → last % t < id → id < t → id ≤ last → 1 + (last - id) / t ≡ last / t
budget_past last t id past below le =
    let r = last % t in
    let whole : t * (last / t) + r ≡ last = div-add-mod last t in
    elim (zero_or_suc (last / t)) [
      | inl z ↦
          let none_left = ap (λ (x : ℕ). t * x + r) z in absurd (omega (arith, whole, none_left))
      | inr (q, is_q) ↦
          let one_more = ap (λ (x : ℕ). t * x + r) is_q in
          let more = mul-suc t q in
          let parts : last - id ≡ t * q + (t + r - id) = omega (arith, whole, one_more, more) in
          let e : (last - id) / t ≡ q = rw parts (div_value t q (t + r - id) (omega arith)) in
          omega (arith, e, is_q)
    ]

-- The budget of a worker but the first: one more for the workers up to the remainder.
worker_budget-value :
    (total t id : ℕ)
    → 0 < id
    → id < t
    → worker_budget total t id + ((total - 1) % t - id)
      ≡ (total - 1) / t + (suc ((total - 1) % t) - id)
unfolding worker_budget
worker_budget-value total t id pos below =
    let last = total - 1 in
    let r = last % t in
    let whole : t * (last / t) + r ≡ last = div-add-mod last t in
    let IsValue : ℕ → Type 0 = λ x. x + (r - id) ≡ last / t + (suc r - id) in
    if-elim-eq IsValue (id == 0) (λ e. let z = (==_iff id 0).0 e in absurd (omega (arith, z, pos)))
      (λ _.
        if-elim-eq IsValue (ltb last id)
          (λ beyond.
            let lt = ltb→lt last id beyond in
            let z : last / t ≡ 0 = div-eq_of_lt (omega (arith, lt, below)) in
            omega (arith, z, lt, mod-le last t))
          (λ within.
            let le = not_ltb→le last id within in
            elim (Bool-cases (leb id r)) [
              | inl up ↦
                  let fits = leb→le id r up in
                  let e = budget_up_to last t id pos fits below in omega (arith, e, fits)
              | inr past ↦
                  let lt = not_leb→lt id r past in
                  let e = budget_past last t id lt below le in omega (arith, e, lt)
            ]))

add_worker-outstanding :
    (w : Worker) (ws : List Worker) (n : ℕ)
    → w.remaining ≡ some n
    → outstanding (add_worker w ws) ≡ n + outstanding ws
unfolding add_worker outstanding
add_worker-outstanding w ws n e =
    let l : left_of w.remaining ≡ n = ap left_of e in
    Option-elim (λ (xs : List Worker). outstanding xs ≡ n + outstanding ws) w.remaining
      (λ _. omega (arith, l))
      (λ remaining is_r.
        let l' : left_of w.remaining ≡ remaining = ap left_of is_r in
        if-elim-eq (λ (xs : List Worker). outstanding xs ≡ n + outstanding ws) (remaining == 0)
          (λ z. let z' = (==_iff remaining 0).0 z in omega (arith, l, l', z'))
          (λ _. omega (arith, l)))

start_workers-outstanding :
    (start : Uint256) (t total id more : ℕ)
    → 0 < id
    → id + more ≡ t
    → outstanding (start_workers start t (some total) id more)
      ≡ more * ((total - 1) / t) + (suc ((total - 1) % t) - id)
unfolding start_workers outstanding
start_workers-outstanding start t total id zero pos sum =
    let lt : (total - 1) % t < t = mod-lt (total - 1) (omega (arith, sum, pos)) in
    omega (arith, lt, sum)
start_workers-outstanding start t total id (suc more) pos sum =
    let rest =
      start_workers-outstanding start t total (id + 1) more (omega arith) (omega (arith, sum)) in
    let value = worker_budget-value total t id pos (omega (arith, sum)) in
    let product = suc-mul more ((total - 1) / t) in
    add_worker-outstanding _ (start_workers start t (some total) (id + 1) more)
      (worker_budget total t id) refl
    ∙ (omega (arith, rest, value, product))

add_worker-IsCapped :
    (w : Worker) (ws : List Worker) → IsCapped w → All IsCapped ws → All IsCapped (add_worker w ws)
unfolding add_worker
add_worker-IsCapped w ws h hs =
    Option-elim (All IsCapped) w.remaining (λ _. (h, hs))
      (λ remaining _. if-elim (All IsCapped) (remaining == 0) hs (h, hs))

pub start_workers-IsCapped :
    (start : Uint256) (t total id more : ℕ)
    → All IsCapped (start_workers start t (some total) id more)
unfolding start_workers
start_workers-IsCapped start t total id zero = tt
start_workers-IsCapped start t total id (suc more) =
    add_worker-IsCapped _ _ (worker_budget total t id, refl)
      (start_workers-IsCapped start t total (id + 1) more)

-- The workers share what the first attempt leaves of the cap.
pub start_workers-all :
    (start : Uint256) (threads total : ℕ)
    → 0 < threads
    → 0 < total
    → 1 + outstanding (start_workers start threads (some total) 0 threads) ≡ total
unfolding start_workers worker_budget
start_workers-all start zero total some_threads pos = absurd (omega (arith, some_threads))
start_workers-all start (suc threads) total some_threads pos =
    let t = suc threads in
    let rest = start_workers-outstanding start t total 1 threads (omega arith) (omega arith) in
    let whole : t * ((total - 1) / t) + (total - 1) % t ≡ total - 1 = div-add-mod (total - 1) t in
    let product = suc-mul threads ((total - 1) / t) in
    let first =
      add_worker-outstanding _ (start_workers start t (some total) 1 threads) ((total - 1) / t)
        refl in
    let sum : outstanding (start_workers start t (some total) 0 t) ≡ total - 1 =
      first ∙ omega (arith, rest, whole, product) in
    omega (arith, sum)
