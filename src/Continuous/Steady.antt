-- ===== src/Continuous/Steady.antt =====
-- The rounds of the mining loop and its invariant (crates/bproof/src/continuous.rs).
use proof_hunter_miner.Base.{[], if-elim, Option-elim, Option, none, some, List, ◌∷◌, ok, err}
use proof_hunter_miner.Classification.{
  NftClassificationSnapshot, ProofClassification, classify_proof,
}
use proof_hunter_miner.Submit.{
  Prepare, PreparationOutcome, ready, fee_refused, simulation_rejected, expired_seed_changed,
}
use proof_hunter_miner.Continuous.{
  reset, ChallengeMarker, ChallengeStatus, waiting_for_seed, active, expired, ended, stopped,
  record_challenge_move, record_fee_refusal, same_marker,
}
use proof_hunter_miner.Continuous.Outcome.{
  Replies, Loop, Outcome, running, ending, interrupt, mining_ended, mining_stopped, with_counters,
  WatchedMining, mining, mining_found, mining_abandoned, mining_exhausted, challenge_moved,
  rpc_error, watched_mine, ClassifiedState,
}
use proof_hunter_miner.Continuous.Round.{
  refresh_outcome, expired_round, proof_outcome, submitted, refreshed, watched_outcome, marker_of,
  mining_round, active_round, marked_round, round, rounds,
}
use proof_hunter_miner.Continuous.Invariant.{
  reset-IsDelay, recheck-IsSound, send_refresh-IsSound, rpc_retry-IsSound, refused-IsCounted,
  moved-IsCounted, fail_round-IsSound, then_watch-IsSound, send_proof-IsSound, recounted,
  ends_clean, IsSteady, IsSound,
}

refresh_outcome-IsSound :
    {E : Type 0} (replies : Replies E) (outcome : PreparationOutcome E) (l : Loop)
    → IsSteady l
    → IsSound (refresh_outcome replies outcome l)
unfolding refresh_outcome IsSound
refresh_outcome-IsSound replies (ready prepared) l s =
    if-elim IsSound replies.interrupted_before_send (ends_clean interrupt l s.settled)
      (send_refresh-IsSound replies.send l s)
refresh_outcome-IsSound replies (fee_refused quote) l s = s
refresh_outcome-IsSound replies (simulation_rejected e) l s = fail_round-IsSound l s
refresh_outcome-IsSound replies expired_seed_changed l s = fail_round-IsSound l s

refreshed-IsSound :
    {E : Type 0} (replies : Replies E) (r : Prepare E (Option (PreparationOutcome E))) (l : Loop)
    → IsSteady l
    → IsSound (refreshed replies r l)
unfolding refreshed IsSound
refreshed-IsSound replies (ok (some outcome)) l s = refresh_outcome-IsSound replies outcome l s
refreshed-IsSound replies (ok none) l s = s
refreshed-IsSound replies (err e) l s = rpc_retry-IsSound replies.retry_waited l s

expired_round-IsSound :
    {E : Type 0} (replies : Replies E) (l : Loop) → IsSteady l → IsSound (expired_round replies l)
unfolding expired_round IsSound
expired_round-IsSound replies l s =
    then_watch-IsSound replies.watch_waited (refreshed replies replies.refresh l)
      (refreshed-IsSound replies replies.refresh l s)

proof_outcome-IsSound :
    {E : Type 0} (replies : Replies E) (expected : ChallengeMarker) (k : ProofClassification)
    (outcome : PreparationOutcome E) (l : Loop)
    → IsSteady l
    → IsSound (proof_outcome replies expected k outcome l)
unfolding proof_outcome IsSound
proof_outcome-IsSound replies expected k (ready prepared) l s =
    send_proof-IsSound replies expected l s
proof_outcome-IsSound replies expected k (fee_refused quote) l s =
    then_watch-IsSound replies.watch_waited
      (running (with_counters l (record_fee_refusal l.counters k)))
      (recounted l (record_fee_refusal l.counters k) s (refused-IsCounted l.counters k s.counted))
proof_outcome-IsSound replies expected k (simulation_rejected e) l s =
    recheck-IsSound replies expected l s
proof_outcome-IsSound replies expected k expired_seed_changed l s =
    recheck-IsSound replies expected l s

submitted-IsSound :
    {E : Type 0} (replies : Replies E) (expected : ChallengeMarker) (k : ProofClassification)
    (r : Prepare E (PreparationOutcome E)) (l : Loop)
    → IsSteady l
    → IsSound (submitted replies expected k r l)
unfolding submitted IsSound
submitted-IsSound replies expected k (ok outcome) l s =
    proof_outcome-IsSound replies expected k outcome l s
submitted-IsSound replies expected k (err e) l s =
    if-elim IsSound (replies.is_rpc_error e) (rpc_retry-IsSound replies.retry_waited l s)
      (fail_round-IsSound l s)

watched_outcome-IsSound :
    {E : Type 0} (replies : Replies E) (expected : ChallengeMarker)
    (n : Option NftClassificationSnapshot) (w : WatchedMining) (l : Loop)
    → IsSteady l
    → IsSound (watched_outcome replies expected n w l)
unfolding watched_outcome IsSound
watched_outcome-IsSound replies expected n (challenge_moved current) l s =
    recounted l (record_challenge_move l.counters expected current) s
      (moved-IsCounted l.counters expected current s.counted)
watched_outcome-IsSound replies expected n rpc_error l s =
    rpc_retry-IsSound replies.retry_waited l s
watched_outcome-IsSound replies expected n (mining (mining_found nonce digest)) l s =
    submitted-IsSound replies expected (classify_proof digest n) replies.prepared l s
watched_outcome-IsSound replies expected n (mining mining_abandoned) l s =
    if-elim IsSound replies.interrupted_after (ends_clean interrupt l s.settled)
      (fail_round-IsSound l s)
watched_outcome-IsSound replies expected n (mining mining_exhausted) l s = fail_round-IsSound l s

mining_round-IsSound :
    {E : Type 0} (replies : Replies E) (marker : ChallengeMarker) (state : ClassifiedState)
    (l : Loop)
    → IsSteady l
    → IsSound (mining_round replies marker state l)
unfolding mining_round IsSound
mining_round-IsSound replies marker state l s =
    if-elim IsSound (same_marker marker (marker_of state))
      (Option-elim IsSound (watched_mine replies.watcher replies.searched)
        (λ e. fail_round-IsSound l s)
        (λ w e. watched_outcome-IsSound replies (marker_of state) state.nft_classification w l s))
      s

active_round-IsSound :
    {E : Type 0} (replies : Replies E) (marker : ChallengeMarker) (l : Loop)
    → IsSteady l
    → IsSound (active_round replies marker l)
unfolding active_round IsSound
active_round-IsSound replies marker l s =
    Option-elim IsSound replies.state (λ e. rpc_retry-IsSound replies.retry_waited l s)
      (λ state e.
        mining_round-IsSound replies marker state (record l { backoff = reset l.backoff })
          (record {
            settled = s.settled;
            counted = s.counted;
            delay = reset-IsDelay l.backoff s.delay;
          }))

marked_round-IsSound :
    {E : Type 0} (replies : Replies E) (marker : ChallengeMarker) (status : ChallengeStatus)
    (l : Loop)
    → IsSteady l
    → IsSound (marked_round replies marker status l)
unfolding marked_round IsSound
marked_round-IsSound replies marker ended l s = ends_clean mining_ended l s.settled
marked_round-IsSound replies marker stopped l s = ends_clean mining_stopped l s.settled
marked_round-IsSound replies marker expired l s = expired_round-IsSound replies l s
marked_round-IsSound replies marker waiting_for_seed l s =
    then_watch-IsSound replies.watch_waited (running l) s
marked_round-IsSound replies marker active l s = active_round-IsSound replies marker l s

round-IsSound :
    {E : Type 0} (replies : Replies E) (l : Loop) → IsSteady l → IsSound (round replies l)
unfolding round IsSound
round-IsSound replies l s = if-elim IsSound replies.interrupted (ends_clean interrupt l s.settled) (
    Option-elim IsSound replies.marker (λ e. rpc_retry-IsSound replies.retry_waited l s)
      (λ marker e. marked_round-IsSound replies marker marker.status l s))

rounds_lem : {E : Type 0} (rs : List (Replies E)) (o : Outcome) → IsSound o → IsSound (rounds rs o)
unfolding rounds IsSound
rounds_lem [] o s = s
rounds_lem (r ∷ rs) (ending e l) s = s
rounds_lem (r ∷ rs) (running l) s = rounds_lem rs (round r l) (round-IsSound r l s)

-- From a steady state, whatever a run of rounds reads: while the loop goes on no journal is on
-- disk, fewer than three failures are consecutive, the retry delay is between 1 and 30 seconds and
-- the fee total fits a `u128`; and a loop that ends with exit code 0 leaves no journal on disk.
pub rounds-IsSound :
    {E : Type 0} (rs : List (Replies E)) (l : Loop) → IsSteady l → IsSound (rounds rs (running l))
unfolding IsSound
rounds-IsSound rs l s = rounds_lem rs (running l) s
