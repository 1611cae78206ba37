-- ===== src/Command.antt =====
-- crates/bproof/src/cli.rs: the options of a mining command that decide who mines and what may be
-- spent. A text is the list of its bytes; the address in a keystore is a reading of its file.
pub mod Explicit
use proof_hunter_miner.Base.{
  ℕ, Bool, true, false, not, ◌&&◌, ◌||◌, Option, none, some, List, ◌==◌, if◌then◌else◌, require,
  ok_or, Result, ok, err, ◌>>=◌,
}
use proof_hunter_miner.Bytes.{same_bytes}
use proof_hunter_miner.Fees.{FeeOptions}
use proof_hunter_miner.Parse.{ParseError, parse_address, parse_u128, parse_u64}
use proof_hunter_miner.Word.{Address}

pub data OptionError : Type 0 where
  loop_without_submit interval_without_loop flags_without_submit no_miner : OptionError
  no_rpc_url state_file_given no_keystore no_max_fee no_basket keystore_unreadable : OptionError
  miner_mismatch no_threads : OptionError
  bad_value : ParseError → OptionError

pub record MineArgs : Type 0 where
  pub rpc_url : Option (List ℕ)
  pub state_file : Option (List ℕ)
  pub chain_id : Option (List ℕ)
  pub mining_core : Option (List ℕ)
  pub challenge_id : Option (List ℕ)
  pub previous_digest : Option (List ℕ)
  pub seed_parent_block : Option (List ℕ)
  pub seed_blockhash : Option (List ℕ)
  pub miner : Option (List ℕ)
  pub target : Option (List ℕ)
  pub threads : Option (List ℕ)
  pub start_nonce : Option (List ℕ)
  pub max_attempts : Option (List ℕ)
  pub submit : Bool
  pub loop_mode : Bool
  pub watch_interval_ms : Option (List ℕ)
  pub keystore : Option (List ℕ)
  pub passphrase_file : Option (List ℕ)
  pub max_fee : Option (List ℕ)
  pub basket : Option (List ℕ)
  pub base_fee_per_gas : Option (List ℕ)
  pub priority_fee_per_gas : Option (List ℕ)
  pub gas_margin_percent : Option (List ℕ)

pub record MineSubmissionConfig : Type 0 where
  pub config_keystore : List ℕ
  pub config_passphrase_file : Option (List ℕ)
  pub config_basket : Address
  pub fee_options : FeeOptions

abbrev pub default_gas_margin_percent : ℕ
default_gas_margin_percent = 100

unfoldable pub given : {A : Type 0} → Option A → Bool
given none = false
given (some a) = true

unfoldable pub value_of : {A : Type 0} → Result ParseError A → Result OptionError A
value_of (ok a) = ok a
value_of (err e) = err (bad_value e)

-- `value.map(|value| parse(value)).transpose()?`.
unfoldable pub transpose :
    (List ℕ → Result ParseError ℕ) → Option (List ℕ) → Result OptionError (Option ℕ)
transpose parse none = ok none
transpose parse (some text) = do n ← value_of (parse text); ok (some n)

unfoldable pub margin_of : Option (List ℕ) → Result OptionError ℕ
margin_of none = ok default_gas_margin_percent
margin_of (some text) = value_of (parse_u64 text)

unfoldable pub parse_fee_options :
    List ℕ → Option (List ℕ) → Option (List ℕ) → Option (List ℕ) → Result OptionError FeeOptions
parse_fee_options max_fee base_fee_per_gas priority_fee_per_gas gas_margin_percent = do
  ceiling ← value_of (parse_u128 max_fee)
  base ← transpose parse_u128 base_fee_per_gas
  priority ← transpose parse_u128 priority_fee_per_gas
  margin ← margin_of gas_margin_percent
  ok (record {
    fee_ceiling_wei = ceiling;
    base_fee_per_gas_override_wei = base;
    priority_fee_per_gas_override_wei = priority;
    gas_margin_percent = margin;
  })

-- The number of processors, where `available_parallelism` has one, is read from the system.
unfoldable pub parse_threads : Option ℕ → Option (List ℕ) → Result OptionError ℕ
parse_threads none none = ok 1
parse_threads (some processors) none = ok processors
parse_threads available (some text) = do
  threads ← value_of (parse_u64 text)
  if threads == 0 then err no_threads else ok threads

unfoldable pub submission_flags : MineArgs → Bool
submission_flags args =
    given args.keystore
    || given args.passphrase_file
    || given args.max_fee
    || given args.basket
    || given args.base_fee_per_gas
    || given args.priority_fee_per_gas
    || given args.gas_margin_percent

-- `if let Some(supplied) = &args.miner`.
unfoldable pub check_miner : Option (List ℕ) → Address → Result OptionError (Unit {0})
check_miner none miner = ok tt
check_miner (some text) miner = do
  supplied ← value_of (parse_address text)
  require (same_bytes supplied miner) miner_mismatch

unfoldable pub resolve_offline :
    MineArgs → Result OptionError (Address × Option MineSubmissionConfig)
resolve_offline args = do
  _ ← require (not (submission_flags args)) flags_without_submit
  text ← ok_or no_miner args.miner
  miner ← value_of (parse_address text)
  ok (miner, none)

unfoldable pub resolve_submission :
    (List ℕ → Option (List ℕ))
    → MineArgs
    → Result OptionError (Address × Option MineSubmissionConfig)
resolve_submission read_keystore_address args = do
  _ ← require (given args.rpc_url) no_rpc_url
  _ ← require (not (given args.state_file)) state_file_given
  keystore ← ok_or no_keystore args.keystore
  max_fee ← ok_or no_max_fee args.max_fee
  miner_text ← ok_or keystore_unreadable (read_keystore_address keystore)
  miner ← value_of (parse_address miner_text)
  _ ← check_miner args.miner miner
  basket_text ← ok_or no_basket args.basket
  basket ← value_of (parse_address basket_text)
  fee_options ←
      parse_fee_options max_fee args.base_fee_per_gas args.priority_fee_per_gas
        args.gas_margin_percent
  ok (
    miner,
    some (record {
      config_keystore = keystore;
      config_passphrase_file = args.passphrase_file;
      config_basket = basket;
      fee_options = fee_options;
    }),
  )

unfoldable pub resolve_mine_identity_and_submission :
    (List ℕ → Option (List ℕ))
    → MineArgs
    → Result OptionError (Address × Option MineSubmissionConfig)
resolve_mine_identity_and_submission read_keystore_address args = do
  _ ← require (not (args.loop_mode && not args.submit)) loop_without_submit
  _ ← require (not (given args.watch_interval_ms && not args.loop_mode)) interval_without_loop
  if args.submit then resolve_submission read_keystore_address args else resolve_offline args
