-- ===== src/Continuous/Round.antt =====
-- crates/bproof/src/continuous.rs: the loop of `run`, one round at a time. A read that a round does
-- not reach is ignored.
use proof_hunter_miner.Base.{
  [], inl, inr, ◌⊎◌, Bool, true, false, not, ◌&&◌, Option, none, some, List, ◌∷◌, if◌then◌else◌, ok,
  err,
}
use proof_hunter_miner.Classification.{
  NftClassificationSnapshot, ProofClassification, classify_proof,
}
use proof_hunter_miner.Submit.{
  Prepare, PreparationOutcome, ready, fee_refused, simulation_rejected, expired_seed_changed,
}
use proof_hunter_miner.Continuous.{
  reset, ChallengeMarker, ChallengeStatus, waiting_for_seed, active, expired, ended, stopped,
  add_fee, record_failure, record_accepted, record_challenge_move, record_fee_refusal, same_marker,
}
use proof_hunter_miner.Continuous.Send.{
  RecoverResult, Recovery, nothing_pending, recovered, recovery_failed, RecoverResult, SendReplies,
  MinedSubmission, send_prepared_submission,
}
use proof_hunter_miner.Continuous.Outcome.{
  mining_found, mining_abandoned, mining_exhausted, WatchedMining, mining, challenge_moved,
  rpc_error, watched_mine, ClassifiedState, Replies, Loop, interrupt, mining_ended, mining_stopped,
  repeated_failure, fatal_failure, error, Outcome, running, ending, rpc_retry, fail_round,
  then_watch, with_counters,
}

-- The refresh was mined: `book.add_fee(mined.fee_paid_wei)?` and what follows.
unfoldable pub refresh_mined : MinedSubmission → Loop → Outcome
refresh_mined mined l = elim (add_fee l.counters mined.fee_paid_wei) [
  | none ↦ ending error l
  | some counters ↦
      if mined.succeeded
      then running (with_counters l (record counters { consecutive_failures = 0 }))
      else fail_round (with_counters l counters)
]

unfoldable pub send_refresh : SendReplies → Loop → Outcome
send_refresh replies l =
    let sent = send_prepared_submission l.journal true replies in
    let l' = record l { journal = sent.journal } in
    elim sent.result [
      | some mined ↦ refresh_mined mined l'
      | none ↦ if sent.journal then ending repeated_failure l' else fail_round l'
    ]

unfoldable pub refresh_outcome : {E : Type 0} → Replies E → PreparationOutcome E → Loop → Outcome
refresh_outcome replies (ready prepared) l =
    if replies.interrupted_before_send then ending interrupt l else send_refresh replies.send l
refresh_outcome replies (fee_refused quote) l = running l
refresh_outcome replies (simulation_rejected e) l = fail_round l
refresh_outcome replies expired_seed_changed l = fail_round l

unfoldable pub refreshed :
    {E : Type 0} → Replies E → Prepare E (Option (PreparationOutcome E)) → Loop → Outcome
refreshed replies (ok (some outcome)) l = refresh_outcome replies outcome l
refreshed replies (ok none) l = running l
refreshed replies (err e) l = rpc_retry replies.retry_waited l

-- `ChallengeStatus::Expired`.
unfoldable pub expired_round : {E : Type 0} → Replies E → Loop → Outcome
expired_round replies l = then_watch replies.watch_waited (refreshed replies replies.refresh l)

-- The marker is read again after a lost race: another challenge, the same one, or no answer.
unfoldable pub recheck : {E : Type 0} → Replies E → ChallengeMarker → Loop → Outcome
recheck replies expected l = elim replies.marker_after [
  | none ↦ rpc_retry replies.retry_waited l
  | some current ↦
      if same_marker current expected
      then fail_round l
      else running (with_counters l (record_challenge_move l.counters expected current))
]

unfoldable pub proof_mined :
    {E : Type 0} → Replies E → ChallengeMarker → MinedSubmission → Loop → Outcome
proof_mined replies expected mined l = elim (add_fee l.counters mined.fee_paid_wei) [
  | none ↦ ending (fatal_failure 1) (with_counters l (record_failure l.counters))
  | some counters ↦
      if mined.succeeded
      then running (with_counters l (record_accepted counters mined.proof_nft_minted))
      else recheck replies expected (with_counters l counters)
]

unfoldable pub send_proof : {E : Type 0} → Replies E → ChallengeMarker → Loop → Outcome
send_proof replies expected l =
    let sent = send_prepared_submission l.journal false replies.send in
    let l' = record l { journal = sent.journal } in
    elim sent.result [
      | some mined ↦ proof_mined replies expected mined l'
      | none ↦ ending repeated_failure l'
    ]

unfoldable pub proof_outcome :
    {E : Type 0}
    → Replies E
    → ChallengeMarker
    → ProofClassification
    → PreparationOutcome E
    → Loop
    → Outcome
proof_outcome replies expected classification (ready prepared) l = send_proof replies expected l
proof_outcome replies expected classification (fee_refused quote) l =
    then_watch replies.watch_waited
      (running (with_counters l (record_fee_refusal l.counters classification)))
proof_outcome replies expected classification (simulation_rejected e) l = recheck replies expected l
proof_outcome replies expected classification expired_seed_changed l = recheck replies expected l

-- The match on `prepare_submission`.
unfoldable pub submitted :
    {E : Type 0}
    → Replies E
    → ChallengeMarker
    → ProofClassification
    → Prepare E (PreparationOutcome E)
    → Loop
    → Outcome
submitted replies expected classification (ok outcome) l =
    proof_outcome replies expected classification outcome l
submitted replies expected classification (err e) l =
    if replies.is_rpc_error e then rpc_retry replies.retry_waited l else fail_round l

unfoldable pub watched_outcome :
    {E : Type 0}
    → Replies E
    → ChallengeMarker
    → Option NftClassificationSnapshot
    → WatchedMining
    → Loop
    → Outcome
watched_outcome replies expected snapshot (challenge_moved current) l =
    running (with_counters l (record_challenge_move l.counters expected current))
watched_outcome replies expected snapshot rpc_error l = rpc_retry replies.retry_waited l
watched_outcome replies expected snapshot (mining (mining_found nonce digest)) l =
    submitted replies expected (classify_proof digest snapshot) replies.prepared l
watched_outcome replies expected snapshot (mining mining_abandoned) l =
    if replies.interrupted_after then ending interrupt l else fail_round l
watched_outcome replies expected snapshot (mining mining_exhausted) l = fail_round l

-- `expected_marker`.
unfoldable pub marker_of : ClassifiedState → ChallengeMarker
marker_of state = record {
  challenge_id = state.challenge_inputs.challenge_id;
  previous_accepted_digest = state.challenge_inputs.previous_accepted_digest;
  challenge = some state.challenge;
  status = active;
}

unfoldable pub mining_round :
    {E : Type 0} → Replies E → ChallengeMarker → ClassifiedState → Loop → Outcome
mining_round replies marker state l =
    if same_marker marker (marker_of state)
    then elim (watched_mine replies.watcher replies.searched) [
      | none ↦ fail_round l
      | some watched ↦ watched_outcome replies (marker_of state) state.nft_classification watched l
    ]
    else running l

-- `ChallengeStatus::Active`.
unfoldable pub active_round : {E : Type 0} → Replies E → ChallengeMarker → Loop → Outcome
active_round replies marker l = elim replies.state [
  | none ↦ rpc_retry replies.retry_waited l
  | some state ↦ mining_round replies marker state (record l { backoff = reset l.backoff })
]

unfoldable pub marked_round :
    {E : Type 0} → Replies E → ChallengeMarker → ChallengeStatus → Loop → Outcome
marked_round replies marker ended l = ending mining_ended l
marked_round replies marker stopped l = ending mining_stopped l
marked_round replies marker expired l = expired_round replies l
marked_round replies marker waiting_for_seed l = then_watch replies.watch_waited (running l)
marked_round replies marker active l = active_round replies marker l

-- One turn of the second `loop` of `run`.
unfoldable pub round : {E : Type 0} → Replies E → Loop → Outcome
round replies l = if replies.interrupted then ending interrupt l else elim replies.marker [
  | none ↦ rpc_retry replies.retry_waited l
  | some marker ↦ marked_round replies marker marker.status l
]

-- A turn of the loop that verifies the node's identity: verified, refused for good, or retried.
pub data IdentityReply : Type 0 where
  verified permanent transient : IdentityReply

-- The first `loop` of `run`: on to the recovery of a pending submission, or another turn or an end.
unfoldable pub identity_round : Bool → IdentityReply → Bool → Loop → Loop ⊎ Outcome
identity_round true reply waited l = inr (ending interrupt l)
identity_round false verified waited l = inl (record l { backoff = reset l.backoff })
identity_round false permanent waited l =
    inr (ending (fatal_failure 2) (with_counters l (record_failure l.counters)))
identity_round false transient waited l = inr (rpc_retry waited l)

-- What `run` does with a recovered submission before the wallet is unlocked.
unfoldable pub recovered_as : Recovery → Loop → Outcome
recovered_as nothing_pending l = running l
recovered_as recovery_failed l =
    ending (fatal_failure 2) (with_counters l (record_failure l.counters))
recovered_as (recovered mined) l = elim (add_fee l.counters mined.fee_paid_wei) [
  | none ↦ ending (fatal_failure 1) (with_counters l (record_failure l.counters))
  | some counters ↦
      if mined.succeeded && not mined.seed_refresh
      then running (with_counters l (record_accepted counters mined.proof_nft_minted))
      else running (with_counters l counters)
]

unfoldable pub after_recovery : RecoverResult → Loop → Outcome
after_recovery result l = recovered_as result.recovery (record l { journal = result.journal })

-- The loop over any number of rounds, until one ends it.
unfoldable pub rounds : {E : Type 0} → List (Replies E) → Outcome → Outcome
rounds [] o = o
rounds (replies ∷ more) (ending e l) = ending e l
rounds (replies ∷ more) (running l) = rounds more (round replies l)
