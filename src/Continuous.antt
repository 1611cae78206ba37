-- ===== src/Continuous.antt =====
-- crates/bproof/src/continuous.rs: the counters, the delays and the outcomes of the mining loop.
-- Events that are written out are left out, and so are the texts of errors.
pub mod Send
pub mod Invariant
pub mod Steady
pub mod Start
pub mod Journal
pub mod Outcome
pub mod Round
use proof_hunter_miner.Base.{
  ℕ, ◌+◌, ◌*◌, ◌%◌, ◌^◌, min, Bool, true, false, not, ◌&&◌, Option, none, some, ltb, if◌then◌else◌,
}
use proof_hunter_miner.Word.{Uint256, Digest}
use proof_hunter_miner.Classification.{ProofClassification, proof_hunter, ordinary, unknown}
use proof_hunter_miner.Bytes.{same_bytes}

-- The counters are `u64`s, the fees a `u128`.
pub record LoopCounters : Type 0 where
  pub proofs_accepted : ℕ
  pub nfts_earned : ℕ
  pub ordinary_proofs_fee_refused : ℕ
  pub proof_hunters_fee_refused : ℕ
  pub unknown_classification_fee_refused : ℕ
  pub challenges_lost : ℕ
  pub total_fees_paid_wei : ℕ
  pub genuine_failures : ℕ
  pub consecutive_failures : ℕ

abbrev pub no_counters : LoopCounters
no_counters = record {
  proofs_accepted = 0;
  nfts_earned = 0;
  ordinary_proofs_fee_refused = 0;
  proof_hunters_fee_refused = 0;
  unknown_classification_fee_refused = 0;
  challenges_lost = 0;
  total_fees_paid_wei = 0;
  genuine_failures = 0;
  consecutive_failures = 0;
}

-- `+=` on a `u64`, as a release build does it.
abbrev pub bump : ℕ → ℕ → ℕ
bump n more = (n + more) % 2 ^ 64

abbrev pub as_u64 : Bool → ℕ
as_u64 false = 0
as_u64 true = 1

unfoldable pub add_fee : LoopCounters → ℕ → Option LoopCounters
add_fee c fee_paid_wei =
    if ltb (c.total_fees_paid_wei + fee_paid_wei) (2 ^ 128)
    then some (record c { total_fees_paid_wei = c.total_fees_paid_wei + fee_paid_wei })
    else none

-- Delays in seconds. The delay is at most the cap of 30 when it is doubled, so
-- `saturating_mul` does not saturate.
abbrev pub rpc_backoff_initial : ℕ
rpc_backoff_initial = 1

abbrev pub rpc_backoff_cap : ℕ
rpc_backoff_cap = 30

abbrev pub failure_limit : ℕ
failure_limit = 3

pub record RetryBackoff : Type 0 where
  pub next : ℕ
  pub cap : ℕ

unfoldable pub take_delay : RetryBackoff → ℕ × RetryBackoff
take_delay backoff =
    (backoff.next, record { next = min (backoff.next * 2) backoff.cap; cap = backoff.cap })

unfoldable pub reset : RetryBackoff → RetryBackoff
reset backoff = record { next = rpc_backoff_initial; cap = backoff.cap }

pub data ChallengeStatus : Type 0 where
  waiting_for_seed active expired ended stopped : ChallengeStatus

pub record ChallengeMarker : Type 0 where
  pub challenge_id : Uint256
  pub previous_accepted_digest : Digest
  pub challenge : Option Digest
  pub status : ChallengeStatus

-- The derived `PartialEq`s.
abbrev pub same_status : ChallengeStatus → ChallengeStatus → Bool
same_status waiting_for_seed waiting_for_seed = true
same_status active active = true
same_status expired expired = true
same_status ended ended = true
same_status stopped stopped = true
same_status _ _ = false

abbrev pub same_challenge : Option Digest → Option Digest → Bool
same_challenge none none = true
same_challenge none (some b) = false
same_challenge (some a) none = false
same_challenge (some a) (some b) = same_bytes a b

unfoldable pub same_marker : ChallengeMarker → ChallengeMarker → Bool
same_marker a b =
    same_bytes a.challenge_id b.challenge_id
    && (same_bytes a.previous_accepted_digest b.previous_accepted_digest
        && (same_challenge a.challenge b.challenge && same_status a.status b.status))

unfoldable pub challenge_was_consumed : ChallengeMarker → ChallengeMarker → Bool
challenge_was_consumed expected current =
    not (same_bytes current.previous_accepted_digest expected.previous_accepted_digest)

unfoldable pub record_challenge_move :
    LoopCounters → ChallengeMarker → ChallengeMarker → LoopCounters
record_challenge_move c expected current = record c {
  challenges_lost = bump c.challenges_lost (as_u64 (challenge_was_consumed expected current));
  consecutive_failures = 0;
}

unfoldable pub record_fee_refusal : LoopCounters → ProofClassification → LoopCounters
record_fee_refusal c proof_hunter = record c {
  proof_hunters_fee_refused = bump c.proof_hunters_fee_refused 1;
  consecutive_failures = 0;
}
record_fee_refusal c ordinary = record c {
  ordinary_proofs_fee_refused = bump c.ordinary_proofs_fee_refused 1;
  consecutive_failures = 0;
}
record_fee_refusal c unknown = record c {
  unknown_classification_fee_refused = bump c.unknown_classification_fee_refused 1;
  consecutive_failures = 0;
}

unfoldable pub record_failure : LoopCounters → LoopCounters
record_failure c = record c {
  genuine_failures = bump c.genuine_failures 1;
  consecutive_failures = bump c.consecutive_failures 1;
}

unfoldable pub record_accepted : LoopCounters → Bool → LoopCounters
record_accepted c nft_minted = record c {
  proofs_accepted = bump c.proofs_accepted 1;
  nfts_earned = bump c.nfts_earned (as_u64 nft_minted);
  consecutive_failures = 0;
}
