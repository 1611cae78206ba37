-- ===== src/Continuous/Start.antt =====
-- Before the loop: the recovery of a pending submission (crates/bproof/src/submit.rs, continuous.rs).
use proof_hunter_miner.Base.{
  if-elim, Option-elim, ◌≡◌, refl, ◌≢◌, Bool, true, false, not, ◌&&◌, Option, none, some, arith,
}
use proof_hunter_miner.Continuous.{add_fee, record_accepted, record_failure}
use proof_hunter_miner.Continuous.Invariant.{
  IsCounted, IsDelay, IsSound, IsSteady, accepted-IsCounted, add_fee-IsCounted, ends_clean,
  recounted,
}
use proof_hunter_miner.Continuous.Outcome.{Loop, exit_code, fatal_failure, with_counters}
use proof_hunter_miner.Continuous.Round.{after_recovery, recovered_as}
use proof_hunter_miner.Continuous.Send.{
  ClearReply, MinedSubmission, RecoverReplies, RecoverResult, Recovery, cleared, cleared_after,
  not_removed, nothing_pending, reconcile, recover_pending_submission, recovered, recovery_failed,
  removed_unsynced, settle,
}

-- What a recovery promises: it fails, or it leaves no journal, and then a recovered transaction is
-- one that was found settled.
pub record IsSafeRecovery (settled : Option MinedSubmission) (r : RecoverResult) : Type 0 where
  pub clean : r.recovery ≢ recovery_failed → r.journal ≡ false
  pub found : (mined : MinedSubmission) → r.recovery ≡ recovered mined → settled ≡ some mined

refused :
    (settled : Option MinedSubmission) (journal broadcast : Bool)
    → IsSafeRecovery settled
        (record { recovery = recovery_failed; journal = journal; broadcast = broadcast })
refused settled journal broadcast = record {
  clean = λ ne. absurd (ne refl);
  found = λ m e. absurd cc;
}

cleared_after-IsSafeRecovery :
    (c : ClearReply) (mined : MinedSubmission) (broadcast : Bool)
    → IsSafeRecovery (some mined) (cleared_after c mined broadcast)
unfolding cleared_after
cleared_after-IsSafeRecovery not_removed mined broadcast = refused (some mined) true broadcast
cleared_after-IsSafeRecovery removed_unsynced mined broadcast = refused (some mined) false broadcast
cleared_after-IsSafeRecovery cleared mined broadcast = record {
  clean = λ ne. refl;
  found = λ m e. cc;
}

settle-IsSafeRecovery :
    (c : ClearReply) (settled : Option MinedSubmission) (broadcast : Bool)
    → IsSafeRecovery settled (settle c settled broadcast)
unfolding settle
settle-IsSafeRecovery c none broadcast = refused none true broadcast
settle-IsSafeRecovery c (some mined) broadcast = cleared_after-IsSafeRecovery c mined broadcast

reconcile-IsSafeRecovery :
    (replies : RecoverReplies) (receipt : Option Bool)
    → IsSafeRecovery replies.settled (reconcile replies receipt)
unfolding reconcile
reconcile-IsSafeRecovery replies none = refused replies.settled true false
reconcile-IsSafeRecovery replies (some true) =
    settle-IsSafeRecovery replies.clears replies.settled false
reconcile-IsSafeRecovery replies (some false) =
    if-elim (IsSafeRecovery replies.settled) (replies.seed_refresh && not replies.seed_is_current)
      (refused replies.settled true false)
      (settle-IsSafeRecovery replies.clears replies.settled true)

-- Whatever a recovery reads: it fails, or it leaves no journal on disk; and a transaction that it
-- reports as recovered was found settled on the chain.
pub recover_pending_submission-IsSafeRecovery :
    (journal : Bool) (replies : RecoverReplies)
    → IsSafeRecovery replies.settled (recover_pending_submission journal replies)
unfolding recover_pending_submission
recover_pending_submission-IsSafeRecovery false replies = record {
  clean = λ ne. refl;
  found = λ m e. absurd cc;
}
recover_pending_submission-IsSafeRecovery true replies =
    if-elim (IsSafeRecovery replies.settled)
      (replies.document_reads
        && (replies.deployment_matches && (replies.identity_verified && replies.hash_matches)))
      (reconcile-IsSafeRecovery replies replies.receipt) (refused replies.settled true false)

recovered_as-IsSound :
    (r : Recovery) (l : Loop)
    → (r ≢ recovery_failed → l.journal ≡ false)
    → IsCounted l.counters
    → IsDelay l.backoff
    → IsSound (recovered_as r l)
unfolding recovered_as IsSound exit_code with_counters
recovered_as-IsSound nothing_pending l clean c d = record {
  settled = clean (λ e. cc);
  counted = c;
  delay = d;
}
recovered_as-IsSound recovery_failed l clean c d = λ t h. absurd (ground arith)
recovered_as-IsSound (recovered mined) l clean c d =
    let settled = clean (λ e. cc) in
    let s : IsSteady l = record { settled = settled; counted = c; delay = d } in
    Option-elim IsSound (add_fee l.counters mined.fee_paid_wei)
      (λ e. ends_clean (fatal_failure 1) (with_counters l (record_failure l.counters)) settled)
      (λ counters e.
        let counted = add_fee-IsCounted l.counters mined.fee_paid_wei c e in
        if-elim IsSound (mined.succeeded && not mined.seed_refresh)
          (recounted l (record_accepted counters mined.proof_nft_minted) s
            (accepted-IsCounted counters mined.proof_nft_minted counted))
          (recounted l counters s counted))

-- From counters and a delay within their bounds, however the disk and the node answer, `run`
-- enters its loop from the recovery in a steady state, or it ends, and then with exit code 0 only
-- if no journal is left.
pub after_recovery-IsSound :
    (journal : Bool) (replies : RecoverReplies) (l : Loop)
    → IsCounted l.counters
    → IsDelay l.backoff
    → IsSound (after_recovery (recover_pending_submission journal replies) l)
unfolding after_recovery
after_recovery-IsSound journal replies l c d =
    let result = recover_pending_submission journal replies in
    recovered_as-IsSound result.recovery (record l { journal = result.journal })
      (recover_pending_submission-IsSafeRecovery journal replies).clean c d
