-- ===== src/Failure.antt =====
-- The errors of crates/bproof/src/chain.rs and of the receipt checks of crates/bproof/src/submit.rs.
-- A constructor stands for a message; the names that the message quotes are left out.
use proof_hunter_miner.Base.{
  [], ℕ, Bool, true, false, ◌&&◌, ◌||◌, Option, none, some, List, ◌∷◌, leb, Result, ok, err,
}
use proof_hunter_miner.Fees.{FeeError}
use proof_hunter_miner.Parse.{ParseError}
use proof_hunter_miner.Power.{PowerError}

pub data CheckError : Type 0 where
  not_object missing mismatch removed_log bad_topics bad_words : CheckError
  unreadable : ParseError → CheckError
  out_of_range : FeeError → CheckError
  bad_status bad_count no_logs bad_tier no_token seed_not_advanced id_overflow : CheckError
  refresh_minted mint_mismatch fee_overflow fee_above_exposure : CheckError
  unreachable bad_version wrong_id rpc_failed no_result not_text timed_out : CheckError
  wrong_chain no_code bad_code unknown_status counters_disagree challenge_mismatch : CheckError
  seed_not_passed no_seed_blockhash bad_module stale_refresh unknown_key : CheckError
  power_failed : PowerError → CheckError
  classification_unknown : CheckError → CheckError
  unsupported_version legacy_refresh bad_refresh_data inconsistent_nonces : CheckError
  inconsistent_fees unauthorised_fee exposure_overflow : CheckError

abbrev pub Checked : Type 0 → Type 0
Checked = Result CheckError

-- `parse(text, name)?`.
unfoldable pub read : {A : Type 0} → Result ParseError A → Checked A
read (ok a) = ok a
read (err e) = err (unreadable e)

unfoldable pub in_range : {A : Type 0} → Result FeeError A → Checked A
in_range (ok a) = ok a
in_range (err e) = err (out_of_range e)

unfoldable pub powered : {A : Type 0} → Result PowerError A → Checked A
powered (ok a) = ok a
powered (err e) = err (power_failed e)

abbrev pub is_some : {A : Type 0} → Option A → Bool
is_some none = false
is_some (some a) = true

-- `byte.is_ascii_hexdigit()` of every byte.
abbrev pub all_hex : List ℕ → Bool
all_hex [] = true
all_hex (b ∷ bs) =
    ((leb b'0' b && leb b b'9') || ((leb b'a' b && leb b b'f') || (leb b'A' b && leb b b'F')))
    && all_hex bs
