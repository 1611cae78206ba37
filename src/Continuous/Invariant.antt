-- ===== src/Continuous/Invariant.antt =====
-- The invariant of the mining loop (crates/bproof/src/continuous.rs).
use proof_hunter_miner.Base.{
  if-elim-eq, Option-elim, if-elim, ℕ, ◌+◌, ◌%◌, ◌^◌, ◌≤◌, ◌<◌, ◌≡◌, subst, ◌≢◌, inl, inr, Bool,
  true, false, some, arith, ltb, leb, ltb→lt, not_leb→lt, Bool-cases,
}
use proof_hunter_miner.Classification.{ProofClassification, proof_hunter, ordinary, unknown}
use proof_hunter_miner.Continuous.{
  LoopCounters, RetryBackoff, take_delay, reset, ChallengeMarker, add_fee, record_failure,
  record_accepted, record_challenge_move, record_fee_refusal, same_marker, failure_limit,
}
use proof_hunter_miner.Continuous.Send.{SendReplies, MinedSubmission, send_prepared_submission}
use proof_hunter_miner.Continuous.Journal.{send_prepared_submission-IsSafeSend}
use proof_hunter_miner.Continuous.Outcome.{
  Replies, Loop, Ending, Outcome, running, ending, exit_code, interrupt, error, repeated_failure,
  fatal_failure, rpc_retry, fail_round, then_watch, with_counters,
}
use proof_hunter_miner.Continuous.Round.{
  refresh_mined, send_refresh, recheck, proof_mined, send_proof,
}

pub record IsCounted (c : LoopCounters) : Type 0 where
  pub few_failures : c.consecutive_failures < failure_limit
  pub fees_in_range : c.total_fees_paid_wei < 2 ^ 128

pub record IsDelay (b : RetryBackoff) : Type 0 where
  pub lower : 1 ≤ b.next
  pub upper : b.next ≤ 30
  pub cap : b.cap ≡ 30

-- The state in which a round may start.
pub record IsSteady (l : Loop) : Type 0 where
  pub settled : l.journal ≡ false
  pub counted : IsCounted l.counters
  pub delay : IsDelay l.backoff

-- A loop that goes on is steady; one that ends well left no journal.
unfoldable pub IsSound : Outcome → Type 0
IsSound (running l) = IsSteady l
IsSound (ending e l) = l.journal ≡ true → exit_code e ≢ some 0

pub take_delay-IsDelay : (b : RetryBackoff) → IsDelay b → IsDelay (take_delay b).1
unfolding take_delay
take_delay-IsDelay b d = record {
  lower = ground (arith, d.lower, d.cap);
  upper = ground (arith, d.cap);
  cap = d.cap;
}

pub reset-IsDelay : (b : RetryBackoff) → IsDelay b → IsDelay (reset b)
unfolding reset
reset-IsDelay b d = record { lower = omega arith; upper = omega arith; cap = d.cap }

pub ends_clean : (e : Ending) (l : Loop) → l.journal ≡ false → IsSound (ending e l)
unfolding IsSound
ends_clean e l h = λ t. absurd cc

pub ends_failed : (l : Loop) → IsSound (ending repeated_failure l)
unfolding IsSound exit_code
ends_failed l = λ t h. absurd (ground arith)

pub rpc_retry-IsSound : (waited : Bool) (l : Loop) → IsSteady l → IsSound (rpc_retry waited l)
unfolding rpc_retry IsSound
rpc_retry-IsSound waited l s =
    if-elim IsSound waited
      (record {
        settled = s.settled;
        counted = s.counted;
        delay = take_delay-IsDelay l.backoff s.delay;
      })
      (λ t. absurd cc)

pub fail_round-IsSound : (l : Loop) → IsSteady l → IsSound (fail_round l)
unfolding fail_round IsSound record_failure
fail_round-IsSound l s =
    let n = (l.counters.consecutive_failures + 1) % 2 ^ 64 in
    elim (Bool-cases (leb failure_limit n)) [
      | inl t ↦ simp t (ends_failed (record l { counters = record_failure l.counters }))
      | inr f ↦ simp f (record {
        settled = s.settled;
        counted = record {
          few_failures = not_leb→lt failure_limit n f;
          fees_in_range = s.counted.fees_in_range;
        };
        delay = take_delay-IsDelay l.backoff s.delay;
      })
    ]

pub then_watch-IsSound : (waited : Bool) (o : Outcome) → IsSound o → IsSound (then_watch waited o)
unfolding then_watch IsSound
then_watch-IsSound waited (ending e l) h = h
then_watch-IsSound true (running l) h = h
then_watch-IsSound false (running l) h = ends_clean interrupt l h.settled

-- Counters that change only where the invariant allows it.
pub recounted :
    (l : Loop) (c : LoopCounters) → IsSteady l → IsCounted c → IsSteady (with_counters l c)
unfolding with_counters
recounted l c s h = record { settled = s.settled; counted = h; delay = s.delay }

pub add_fee-IsCounted :
    (c : LoopCounters) (fee : ℕ) {d : LoopCounters}
    → IsCounted c
    → add_fee c fee ≡ some d
    → IsCounted d
unfolding add_fee
add_fee-IsCounted c fee {d} h e = elim (Bool-cases (ltb (c.total_fees_paid_wei + fee) (2 ^ 128))) [
  | inl t ↦
      let same : record c { total_fees_paid_wei = c.total_fees_paid_wei + fee } ≡ d = cc in
      subst IsCounted same (record {
        few_failures = h.few_failures;
        fees_in_range = ltb→lt (c.total_fees_paid_wei + fee) (2 ^ 128) t;
      })
  | inr f ↦ absurd cc
]

pub moved-IsCounted :
    (c : LoopCounters) (expected current : ChallengeMarker)
    → IsCounted c
    → IsCounted (record_challenge_move c expected current)
unfolding record_challenge_move
moved-IsCounted c expected current h = record {
  few_failures = omega arith;
  fees_in_range = h.fees_in_range;
}

pub refused-IsCounted :
    (c : LoopCounters) (k : ProofClassification) → IsCounted c → IsCounted (record_fee_refusal c k)
unfolding record_fee_refusal
refused-IsCounted c proof_hunter h = record {
  few_failures = omega arith;
  fees_in_range = h.fees_in_range;
}
refused-IsCounted c ordinary h = record {
  few_failures = omega arith;
  fees_in_range = h.fees_in_range;
}
refused-IsCounted c unknown h = record {
  few_failures = omega arith;
  fees_in_range = h.fees_in_range;
}

pub accepted-IsCounted :
    (c : LoopCounters) (nft : Bool) → IsCounted c → IsCounted (record_accepted c nft)
unfolding record_accepted
accepted-IsCounted c nft h = record { few_failures = omega arith; fees_in_range = h.fees_in_range }

-- The state once a send is over, from the promise of the send.
pub after_send :
    (l : Loop) (journal : Bool)
    → IsSteady l
    → journal ≡ false
    → IsSteady (record l { journal = journal })
after_send l journal s h = record { settled = h; counted = s.counted; delay = s.delay }

pub refresh_mined-IsSound :
    (mined : MinedSubmission) (l : Loop) → IsSteady l → IsSound (refresh_mined mined l)
unfolding refresh_mined IsSound
refresh_mined-IsSound mined l s =
    Option-elim IsSound (add_fee l.counters mined.fee_paid_wei) (λ e. ends_clean error l s.settled)
      (λ c e.
        let counted = add_fee-IsCounted l.counters mined.fee_paid_wei s.counted e in
        if-elim IsSound mined.succeeded
          (recounted l (record c { consecutive_failures = 0 }) s
            (record { few_failures = omega arith; fees_in_range = counted.fees_in_range }))
          (fail_round-IsSound (with_counters l c) (recounted l c s counted)))

pub send_refresh-IsSound :
    (replies : SendReplies) (l : Loop) → IsSteady l → IsSound (send_refresh replies l)
unfolding send_refresh IsSound
send_refresh-IsSound replies l s =
    let sent = send_prepared_submission l.journal true replies in
    let safe = send_prepared_submission-IsSafeSend l.journal true replies in
    let l' : Loop = record l { journal = sent.journal } in
    Option-elim IsSound sent.result
      (λ e.
        if-elim-eq IsSound sent.journal (λ t. ends_failed l')
          (λ f. fail_round-IsSound l' (after_send l sent.journal s f)))
      (λ mined e.
        refresh_mined-IsSound mined l' (after_send l sent.journal s (safe.cleared mined e).0))

pub recheck-IsSound :
    {E : Type 0} (replies : Replies E) (expected : ChallengeMarker) (l : Loop)
    → IsSteady l
    → IsSound (recheck replies expected l)
unfolding recheck IsSound
recheck-IsSound replies expected l s =
    Option-elim IsSound replies.marker_after (λ e. rpc_retry-IsSound replies.retry_waited l s)
      (λ current e. if-elim IsSound (same_marker current expected) (fail_round-IsSound l s) (
        recounted l (record_challenge_move l.counters expected current) s
          (moved-IsCounted l.counters expected current s.counted)))

pub proof_mined-IsSound :
    {E : Type 0} (replies : Replies E) (expected : ChallengeMarker) (mined : MinedSubmission)
    (l : Loop)
    → IsSteady l
    → IsSound (proof_mined replies expected mined l)
unfolding proof_mined IsSound with_counters
proof_mined-IsSound replies expected mined l s =
    Option-elim IsSound (add_fee l.counters mined.fee_paid_wei)
      (λ e. ends_clean (fatal_failure 1) (with_counters l (record_failure l.counters)) s.settled)
      (λ c e.
        let counted = add_fee-IsCounted l.counters mined.fee_paid_wei s.counted e in
        if-elim IsSound mined.succeeded
          (recounted l (record_accepted c mined.proof_nft_minted) s
            (accepted-IsCounted c mined.proof_nft_minted counted))
          (recheck-IsSound replies expected (with_counters l c) (recounted l c s counted)))

pub send_proof-IsSound :
    {E : Type 0} (replies : Replies E) (expected : ChallengeMarker) (l : Loop)
    → IsSteady l
    → IsSound (send_proof replies expected l)
unfolding send_proof IsSound
send_proof-IsSound replies expected l s =
    let sent = send_prepared_submission l.journal false replies.send in
    let safe = send_prepared_submission-IsSafeSend l.journal false replies.send in
    let l' : Loop = record l { journal = sent.journal } in
    Option-elim IsSound sent.result (λ e. ends_failed l')
      (λ mined e.
        proof_mined-IsSound replies expected mined l'
          (after_send l sent.journal s (safe.cleared mined e).0))
