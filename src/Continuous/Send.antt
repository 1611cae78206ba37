-- ===== src/Continuous/Send.antt =====
-- crates/bproof/src/submit.rs: the journal around a broadcast, `send_prepared_submission` and
-- `recover_pending_submission`. The answers of the wallet, of the file system and of the node at
-- each stage are inputs; the state is whether the journal is on disk, and what was broadcast.
use proof_hunter_miner.Base.{ℕ, Bool, true, false, not, ◌&&◌, Option, none, some, if◌then◌else◌}
-- A transaction found in a block and verified: the fields that the loop reads.
use proof_hunter_miner.Fees.{FeeQuote}
use proof_hunter_miner.Word.{Digest, Uint256}

pub record MinedSubmission : Type 0 where
  pub seed_refresh : Bool
  pub transaction_hash : Digest
  pub mining_nonce : Uint256
  pub account_nonce : Uint256
  pub fee_quote : FeeQuote
  pub fee_paid_wei : ℕ
  pub succeeded : Bool
  pub proof_nft_minted : Bool
  pub nft_token_id : Option Uint256

-- How the writing of the journal ended: refused or failed before `hard_link`, after it, or well.
pub data PersistReply : Type 0 where
  not_published published_unsynced persisted : PersistReply

-- How its removal ended: `remove_file` failed, the directory sync failed after it, or well.
pub data ClearReply : Type 0 where
  not_removed removed_unsynced cleared : ClearReply

pub record SendReplies : Type 0 where
  -- The wallet's address parses and is the prepared miner's.
  pub wallet_matches : Bool
  -- `require_current_expired_seed` succeeds.
  pub seed_is_current : Bool
  pub signs : Bool
  pub persists : PersistReply
  -- The node answers the broadcast with the hash of the signed transaction.
  pub hash_returned : Bool
  -- A receipt is found in time, verified, and its fee fits a `u128`.
  pub settled : Option MinedSubmission
  pub clears : ClearReply

-- `signed` says that a new transaction was signed, `broadcast` that bytes were sent.
pub record SendResult : Type 0 where
  pub result : Option MinedSubmission
  pub journal : Bool
  pub signed : Bool
  pub broadcast : Bool

-- `clear_pending_document(&journal_path)?; Ok(mined)`.
unfoldable pub clear_then : ClearReply → MinedSubmission → Bool → SendResult
clear_then not_removed mined signed = record {
  result = none;
  journal = true;
  signed = signed;
  broadcast = true;
}
clear_then removed_unsynced mined signed = record {
  result = none;
  journal = false;
  signed = signed;
  broadcast = true;
}
clear_then cleared mined signed = record {
  result = some mined;
  journal = false;
  signed = signed;
  broadcast = true;
}

unfoldable pub settled_then : ClearReply → Option MinedSubmission → SendResult
settled_then c none = record { result = none; journal = true; signed = true; broadcast = true }
settled_then c (some mined) = clear_then c mined true

-- The closure `outcome` and the match on it, the journal being on disk.
unfoldable pub broadcast_signed : SendReplies → SendResult
broadcast_signed replies =
    if replies.hash_returned
    then settled_then replies.clears replies.settled
    else record { result = none; journal = true; signed = true; broadcast = true }

unfoldable pub after_persist : PersistReply → SendReplies → SendResult
after_persist not_published replies = record {
  result = none;
  journal = false;
  signed = true;
  broadcast = false;
}
after_persist published_unsynced replies = record {
  result = none;
  journal = true;
  signed = true;
  broadcast = false;
}
after_persist persisted replies = broadcast_signed replies

-- `persist_pending_document(&journal_path, &journal)?`, which refuses an existing journal.
unfoldable pub persist_then_broadcast : Bool → SendReplies → SendResult
persist_then_broadcast true replies = record {
  result = none;
  journal = true;
  signed = true;
  broadcast = false;
}
persist_then_broadcast false replies = after_persist replies.persists replies

unfoldable pub send_prepared_submission : Bool → Bool → SendReplies → SendResult
send_prepared_submission journal seed_refresh replies =
    let unsent : SendResult = record {
      result = none;
      journal = journal;
      signed = false;
      broadcast = false;
    } in
    if not replies.wallet_matches
    then unsent
    else if seed_refresh && not replies.seed_is_current
    then unsent
    else if not replies.signs
    then unsent
    else persist_then_broadcast journal replies

-- What the recovery of a journal reads.
pub record RecoverReplies : Type 0 where
  -- The document reads back, and names this deployment; the node's identity is verified.
  pub document_reads : Bool
  pub deployment_matches : Bool
  pub identity_verified : Bool
  pub hash_matches : Bool
  pub seed_refresh : Bool
  -- The node's answer to the first receipt query: failed, no receipt yet, or a receipt.
  pub receipt : Option Bool
  pub seed_is_current : Bool
  -- The receipt, found now or waited for, is verified and its fee fits a `u128`.
  pub settled : Option MinedSubmission
  pub clears : ClearReply

pub data Recovery : Type 0 where
  nothing_pending : Recovery
  recovered : MinedSubmission → Recovery
  recovery_failed : Recovery

pub record RecoverResult : Type 0 where
  pub recovery : Recovery
  pub journal : Bool
  pub broadcast : Bool

-- `clear_pending_document(&journal_path)?` and the result.
unfoldable pub cleared_after : ClearReply → MinedSubmission → Bool → RecoverResult
cleared_after not_removed mined broadcast = record {
  recovery = recovery_failed;
  journal = true;
  broadcast = broadcast;
}
cleared_after removed_unsynced mined broadcast = record {
  recovery = recovery_failed;
  journal = false;
  broadcast = broadcast;
}
cleared_after cleared mined broadcast = record {
  recovery = recovered mined;
  journal = false;
  broadcast = broadcast;
}

unfoldable pub settle : ClearReply → Option MinedSubmission → Bool → RecoverResult
settle c none broadcast = record {
  recovery = recovery_failed;
  journal = true;
  broadcast = broadcast;
}
settle c (some mined) broadcast = cleared_after c mined broadcast

-- From the receipt query on: without a receipt the same signed bytes are sent again.
unfoldable pub reconcile : RecoverReplies → Option Bool → RecoverResult
reconcile replies none = record { recovery = recovery_failed; journal = true; broadcast = false }
reconcile replies (some true) = settle replies.clears replies.settled false
reconcile replies (some false) =
    if replies.seed_refresh && not replies.seed_is_current
    then record { recovery = recovery_failed; journal = true; broadcast = false }
    else settle replies.clears replies.settled true

unfoldable pub recover_pending_submission : Bool → RecoverReplies → RecoverResult
recover_pending_submission false replies = record {
  recovery = nothing_pending;
  journal = false;
  broadcast = false;
}
recover_pending_submission true replies =
    if replies.document_reads
      && (replies.deployment_matches && (replies.identity_verified && replies.hash_matches))
    then reconcile replies replies.receipt
    else record { recovery = recovery_failed; journal = true; broadcast = false }
