-- ===== src/Continuous/Journal.antt =====
-- The journal around a broadcast (crates/bproof/src/submit.rs).
use proof_hunter_miner.Base.{if-elim, ◌≡◌, refl, Bool, true, false, not, ◌&&◌, Option, none, some}
use proof_hunter_miner.Continuous.Send.{
  settled_then, after_persist, SendReplies, SendResult, MinedSubmission, ClearReply, PersistReply,
  not_published, published_unsynced, persisted, not_removed, removed_unsynced, cleared, clear_then,
  broadcast_signed, persist_then_broadcast, send_prepared_submission,
}

-- What a send promises, from the journal before it.
pub record IsSafeSend (journal : Bool) (settled : Option MinedSubmission) (sent : SendResult)
    : Type 0 where
  -- Bytes are sent only if no journal of another transaction was there.
  pub fresh : sent.broadcast ≡ true → journal ≡ false
  -- A success leaves no journal, and is a settled transaction that was sent.
  pub cleared :
      (mined : MinedSubmission)
      → sent.result ≡ some mined
      → (sent.journal ≡ false) × (settled ≡ some mined) × (sent.broadcast ≡ true)
  -- A broadcast that is not settled leaves the journal.
  pub kept : sent.broadcast ≡ true → settled ≡ none → sent.journal ≡ true
  -- A journal that was there stays there.
  pub stays : journal ≡ true → sent.journal ≡ true

clear_then-IsSafeSend :
    (c : ClearReply) (mined : MinedSubmission)
    → IsSafeSend false (some mined) (clear_then c mined true)
unfolding clear_then
clear_then-IsSafeSend not_removed mined = record {
  fresh = λ b. refl;
  cleared = λ m h. absurd cc;
  kept = λ b h. refl;
  stays = λ b. absurd cc;
}
clear_then-IsSafeSend removed_unsynced mined = record {
  fresh = λ b. refl;
  cleared = λ m h. absurd cc;
  kept = λ b h. absurd cc;
  stays = λ b. absurd cc;
}
clear_then-IsSafeSend cleared mined = record {
  fresh = λ b. refl;
  cleared = λ m h. (refl, h, refl);
  kept = λ b h. absurd cc;
  stays = λ b. absurd cc;
}

unresolved :
    (settled : Option MinedSubmission)
    → IsSafeSend false settled
        (record { result = none; journal = true; signed = true; broadcast = true })
unresolved settled = record {
  fresh = λ b. refl;
  cleared = λ m h. absurd cc;
  kept = λ b h. refl;
  stays = λ b. refl;
}

unsent :
    (settled : Option MinedSubmission) (journal signed : Bool)
    → IsSafeSend journal settled
        (record { result = none; journal = journal; signed = signed; broadcast = false })
unsent settled journal signed = record {
  fresh = λ b. absurd cc;
  cleared = λ m h. absurd cc;
  kept = λ b h. absurd cc;
  stays = λ b. b;
}

settled_then-IsSafeSend :
    (c : ClearReply) (settled : Option MinedSubmission)
    → IsSafeSend false settled (settled_then c settled)
unfolding settled_then
settled_then-IsSafeSend c none = unresolved none
settled_then-IsSafeSend c (some mined) = clear_then-IsSafeSend c mined

after_persist-IsSafeSend :
    (p : PersistReply) (replies : SendReplies)
    → IsSafeSend false replies.settled (after_persist p replies)
unfolding after_persist broadcast_signed
after_persist-IsSafeSend not_published replies = unsent replies.settled false true
after_persist-IsSafeSend published_unsynced replies = record {
  fresh = λ b. absurd cc;
  cleared = λ m h. absurd cc;
  kept = λ b h. absurd cc;
  stays = λ b. refl;
}
after_persist-IsSafeSend persisted replies =
    if-elim (IsSafeSend false replies.settled) replies.hash_returned
      (settled_then-IsSafeSend replies.clears replies.settled) (unresolved replies.settled)

persist-IsSafeSend :
    (journal : Bool) (replies : SendReplies)
    → IsSafeSend journal replies.settled (persist_then_broadcast journal replies)
unfolding persist_then_broadcast
persist-IsSafeSend true replies = unsent replies.settled true true
persist-IsSafeSend false replies = after_persist-IsSafeSend replies.persists replies

-- Whatever the wallet, the disk and the node answer: a signed transaction is sent only when no
-- journal was on disk; a success is a settled transaction that was sent, and leaves no journal; a
-- transaction that was sent and not settled leaves its journal; and a journal that was on disk
-- stays there.
pub send_prepared_submission-IsSafeSend :
    (journal seed_refresh : Bool) (replies : SendReplies)
    → IsSafeSend journal replies.settled (send_prepared_submission journal seed_refresh replies)
unfolding send_prepared_submission
send_prepared_submission-IsSafeSend journal seed_refresh replies =
    let P = IsSafeSend journal replies.settled in
    let no = unsent replies.settled journal false in
    if-elim P (not replies.wallet_matches) no (
      if-elim P (seed_refresh && not replies.seed_is_current) no
        (if-elim P (not replies.signs) no (persist-IsSafeSend journal replies)))
