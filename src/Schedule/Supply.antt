-- ===== src/Schedule/Supply.antt =====
-- The whole schedule of schedule.rs: `RewardSchedule` as an iterator, run from genesis.
use proof_hunter_miner.Base.{
  [], ℕ, zero, suc, ◌+◌, ◌*◌, ◌≤◌, ◌<◌, ◌≡◌, ap, subst, ◌⊎◌, inl, inr, none, some, List, ◌∷◌, arith,
  length,
}
use proof_hunter_miner.Schedule.{
  drain, RewardSchedule, new, next, reward_at, max_minted_ever, token_wei,
}
use proof_hunter_miner.Schedule.Rewards.{reward_at_bounds, reward_at_antitone}

-- The supply cap holds, each proof but the last minted a token at least, and so the proofs count
-- no more than the tokens.
pub record IsValid (s : RewardSchedule) : Type 0 where
  pub capped : s.total_minted ≤ max_minted_ever
  pub counted : s.accepted_proofs ≤ 21_000_000
  pub token_each : s.total_minted < max_minted_ever → s.accepted_proofs * token_wei ≤ s.total_minted

pub new-IsValid : IsValid new
unfolding new
new-IsValid = omega arith

-- From a valid schedule `next` keeps the invariant, and its sums are exact: it emits `None` at the
-- cap and changes nothing then, or, below the cap, it emits the reward and adds it, with no
-- wrap-around.
pub next-IsValid :
    (s : RewardSchedule)
    → IsValid s
    → IsValid (next s).0
      × (((s.total_minted ≡ max_minted_ever) × (next s ≡ (s, none)))
          ⊎ ((s.total_minted < max_minted_ever)
              × (next s ≡ (
                record {
                  accepted_proofs = s.accepted_proofs + 1;
                  total_minted = s.total_minted + reward_at s.accepted_proofs s.total_minted;
                },
                some (reward_at s.accepted_proofs s.total_minted),
              ))))
unfolding next
next-IsValid s v = ground (arith, reward_at_bounds s.accepted_proofs s.total_minted)

abbrev pub sum : List ℕ → ℕ
sum [] = 0
sum (r ∷ rs) = r + sum rs

-- Each item is at most the one before it, the first at most `b`.
abbrev pub Descends : ℕ → List ℕ → Type 0
Descends b [] = Unit
Descends b (r ∷ rs) = (r ≤ b) × Descends r rs

-- What is left, and what was emitted, when the iterator has been drained from `s`.
pub record IsDrained (s t : RewardSchedule) (rewards : List ℕ) : Type 0 where
  pub spent : t.total_minted ≡ max_minted_ever
  pub emitted : s.total_minted + sum rewards ≡ max_minted_ever
  pub counted : s.accepted_proofs + length rewards ≡ t.accepted_proofs
  pub bounded : t.accepted_proofs ≤ 21_000_000
  pub descends : (b : ℕ) → reward_at s.accepted_proofs s.total_minted ≤ b → Descends b rewards

drain-none : (fuel : ℕ) (s : RewardSchedule) → next s ≡ (s, none) → drain (suc fuel) s ≡ (s, [])
unfolding drain
drain-none fuel s e = rw (e, drain) (ap (λ p. (p.0, [])) e)

drain-some :
    (fuel : ℕ) (s t : RewardSchedule) (r : ℕ)
    → next s ≡ (t, some r)
    → drain (suc fuel) s ≡ ((drain fuel t).0, r ∷ (drain fuel t).1)
unfolding drain
drain-some fuel s t r e = rw (e, drain) (ap (λ p. ((drain fuel p.0).0, r ∷ (drain fuel p.0).1)) e)

at_cap : (s : RewardSchedule) → IsValid s → s.total_minted ≡ max_minted_ever → IsDrained s s []
at_cap s v full = record {
  spent = full;
  emitted = omega (arith, full);
  counted = omega arith;
  bounded = v.counted;
  descends = λ b le. tt;
}

-- One emitted reward in front of a drained rest.
IsDrained-step :
    (s t : RewardSchedule) (rewards : List ℕ)
    → let reward = reward_at s.accepted_proofs s.total_minted in
      IsDrained
        (record { accepted_proofs = s.accepted_proofs + 1; total_minted = s.total_minted + reward })
        t
        rewards
      → IsDrained s t (reward ∷ rewards)
IsDrained-step s t rewards d =
    let reward = reward_at s.accepted_proofs s.total_minted in
    record {
      spent = d.spent;
      emitted = omega (arith, d.emitted);
      counted = omega (arith, d.counted);
      bounded = d.bounded;
      descends = λ b le. (
        le,
        d.descends reward (
            reward_at_antitone s.accepted_proofs (s.accepted_proofs + 1) s.total_minted
              (s.total_minted + reward) (omega arith) (omega arith)),
      );
    }

drain-IsDrained :
    (fuel : ℕ) (s : RewardSchedule)
    → IsValid s
    → max_minted_ever ≤ s.total_minted + fuel * token_wei
    → IsDrained s (drain fuel s).0 (drain fuel s).1
drain-IsDrained zero s v h = unfold drain in at_cap s v (omega (arith, v.capped))
drain-IsDrained (suc fuel) s v h = elim (next-IsValid s v).1 [
  | inl (full, e) ↦ rw (drain-none fuel s e) (at_cap s v full)
  | inr (room, e) ↦
      let reward = reward_at s.accepted_proofs s.total_minted in
      let s' : RewardSchedule = record {
        accepted_proofs = s.accepted_proofs + 1;
        total_minted = s.total_minted + reward;
      } in
      let valid : IsValid s' = subst IsValid (ap (λ p. p.0) e) (next-IsValid s v).0 in
      rw (drain-some fuel s s' reward e) (
        IsDrained-step s (drain fuel s').0 (drain fuel s').1 (
          drain-IsDrained fuel s' valid
            (omega (arith, reward_at_bounds s.accepted_proofs s.total_minted))))
]

-- Drained from genesis, for at least as many rounds as there are tokens, the schedule mints the
-- cap exactly, in rewards that never grow and sum to it; it accepts one proof for each reward, at
-- most 21,000,000, and from then on emits nothing.
pub schedule_complete :
    (fuel : ℕ)
    → 21_000_000 ≤ fuel
    → IsDrained new (drain fuel new).0 (drain fuel new).1
      × (next (drain fuel new).0 ≡ ((drain fuel new).0, none))
schedule_complete fuel h =
    let d = drain-IsDrained fuel new new-IsValid (unfold new in omega arith) in
    let t = (drain fuel new).0 in
    let valid : IsValid t = record {
      capped = omega (arith, d.spent);
      counted = d.bounded;
      token_each = λ room. absurd (omega (arith, d.spent));
    } in
    (
      d,
      elim (next-IsValid t valid).1 [
        | inl (full, e) ↦ e
        | inr (room, e) ↦ absurd (omega (arith, d.spent))
      ],
    )
