-- ===== src/Rpc/Decode.antt =====
-- crates/bproof/src/chain.rs: taking apart the replies of a node, single and batched.
use mathlib.Core.Option
use proof_hunter_miner.Base.{
  [], ℕ, zero, suc, ◌+◌, Bool, false, not, Option, none, some, List, ◌∷◌, ◌==◌, if◌then◌else◌,
  require, ok_or, codes, ◌>>=◌, length, replicate,
}
use proof_hunter_miner.Bytes.{same_bytes, value}
use proof_hunter_miner.Failure.{
  Checked, bad_version, no_result, not_object, not_text, rpc_failed, wrong_id,
}
use proof_hunter_miner.Json.{Json, get_in, get_str}

module _ (j : Json) where
  unfoldable pub is_version : Option (List ℕ) → Bool
  is_version none = false
  is_version (some version) = same_bytes version (codes "2.0")

  unfoldable pub is_id : ℕ → Option ℕ → Bool
  is_id expected none = false
  is_id expected (some id) = id == expected

  unfoldable pub get_u64 : Option j.Value → Option ℕ
  get_u64 none = none
  get_u64 (some value) = j.as_u64 value

  -- `fields.get("error").filter(|error| !error.is_null())` is there.
  unfoldable pub has_error : Option j.Value → Bool
  has_error none = false
  has_error (some value) = not (j.is_null value)

  unfoldable pub decode_rpc_response : ℕ → j.Value → Checked j.Value
  decode_rpc_response expected_id response = do
    fields ← ok_or not_object (j.as_object response)
    _ ← require (is_version (get_str j fields "jsonrpc")) bad_version
    _ ← require (is_id expected_id (get_u64 (j.get fields "id"))) wrong_id
    _ ← require (not (has_error (j.get fields "error"))) rpc_failed
    ok_or no_result (j.get fields "result")

  -- `by_id[slot] = Some(entry)`; `none` when the slot is out of range or taken.
  unfoldable pub put : ℕ → j.Value → List (Option j.Value) → Option (List (Option j.Value))
  put slot entry [] = none
  put zero entry (none ∷ slots) = some (some entry ∷ slots)
  put zero entry (some taken ∷ slots) = none
  put (suc slot) entry (other ∷ slots) =
      Option.map (λ slots'. other ∷ slots') (put slot entry slots)

  -- The id of an entry less one, `usize::try_from` of a `u64` being the same number.
  unfoldable pub slot_of : Option ℕ → Option ℕ
  slot_of none = none
  slot_of (some zero) = none
  slot_of (some (suc slot)) = some slot

  unfoldable pub put_entry :
      j.Value → Option ℕ → List (Option j.Value) → Option (List (Option j.Value))
  put_entry entry none slots = none
  put_entry entry (some slot) slots = put slot entry slots

  -- `for entry in entries`.
  unfoldable pub place :
      List j.Value → Option (List (Option j.Value)) → Option (List (Option j.Value))
  place entries none = none
  place [] (some slots) = some slots
  place (entry ∷ entries) (some slots) =
      place entries (put_entry entry (slot_of (get_u64 (get_in j entry "id"))) slots)

  -- The last `collect`: slot by slot, from an index on.
  unfoldable pub answers : ℕ → List (Option j.Value) → Option (List (Checked j.Value))
  answers index [] = some []
  answers index (none ∷ slots) = none
  answers index (some entry ∷ slots) =
      Option.map (λ rest. decode_rpc_response (index + 1) entry ∷ rest) (answers (index + 1) slots)

  unfoldable pub answers_of : Option (List (Option j.Value)) → Option (List (Checked j.Value))
  answers_of none = none
  answers_of (some slots) = answers 0 slots

  unfoldable pub decode_entries : ℕ → Option (List j.Value) → Option (List (Checked j.Value))
  decode_entries calls none = none
  decode_entries calls (some entries) =
      if length entries == calls
      then answers_of (place entries (some (replicate calls none)))
      else none

  unfoldable pub decode_rpc_batch : ℕ → j.Value → Option (List (Checked j.Value))
  decode_rpc_batch calls response = decode_entries calls (j.as_array response)

  -- `value.as_str()` of a result that must be a string.
  unfoldable pub text_of : j.Value → Checked (List ℕ)
  text_of value = ok_or not_text (j.as_str value)

  unfoldable pub batch_string : Checked j.Value → Checked (List ℕ)
  batch_string result = do value ← result; text_of value
