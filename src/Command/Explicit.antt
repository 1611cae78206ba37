-- ===== src/Command/Explicit.antt =====
-- crates/bproof/src/cli.rs: what a mining command may spend, against its options.
use proof_hunter_miner.Base.{
  ℕ, ◌≡◌, refl, subst, ◌⊎◌, inl, inr, Bool, true, false, not, ◌&&◌, ◌||◌, Option, none, some, List,
  >>=-ok, require, require-ok, ok_or, ok_or-ok, if-elim-eq, ok-injective, Result, ok, err,
}
use proof_hunter_miner.Bytes.{same_bytes_iff}
use proof_hunter_miner.Command.{
  MineArgs, MineSubmissionConfig, OptionError, check_miner, flags_without_submit, given,
  interval_without_loop, keystore_unreadable, loop_without_submit, margin_of, miner_mismatch,
  no_basket, no_keystore, no_max_fee, no_miner, no_rpc_url, parse_fee_options,
  resolve_mine_identity_and_submission, resolve_offline, resolve_submission, state_file_given,
  submission_flags, transpose, value_of,
}
use proof_hunter_miner.Fees.{FeeOptions}
use proof_hunter_miner.Parse.{ParseError, parse_address, parse_u128}
use proof_hunter_miner.Word.{Address}

value_of-ok : {A : Type 0} (r : Result ParseError A) {a : A} → value_of r ≡ ok a → r ≡ ok a
unfolding value_of
value_of-ok (ok a) e = cc
value_of-ok (err f) e = absurd cc

given-none : {A : Type 0} (o : Option A) → not (given o) ≡ true → o ≡ none
unfolding given
given-none none e = refl
given-none (some a) e = absurd cc

given-some : {A : Type 0} (o : Option A) → given o ≡ true → (a : A) × (o ≡ some a)
unfolding given
given-some none e = absurd cc
given-some (some a) e = (a, refl)

-- A text that is there, with what a reader makes of it.
abbrev Reads : {A : Type 0} → (List ℕ → Result ParseError A) → Option (List ℕ) → A → Type 0
Reads parse o a = (text : List ℕ) × (o ≡ some text) × (parse text ≡ ok a)

pub record IsExplicit (read_keystore_address : List ℕ → Option (List ℕ)) (args : MineArgs)
    (miner : Address) (config : MineSubmissionConfig) : Type 0 where
  pub submits : args.submit ≡ true
  pub live : (url : List ℕ) × (args.rpc_url ≡ some url)
  pub reads_contract : args.state_file ≡ none
  pub keystore_named : args.keystore ≡ some config.config_keystore
  pub own_address : Reads parse_address (read_keystore_address config.config_keystore) miner
  pub miner_agrees : (args.miner ≡ none) ⊎ Reads parse_address args.miner miner
  pub basket_named : Reads parse_address args.basket config.config_basket
  pub ceiling_named : Reads parse_u128 args.max_fee config.fee_options.fee_ceiling_wei

pub record IsOffline (args : MineArgs) (miner : Address) : Type 0 where
  pub no_submission : args.submit ≡ false
  pub no_loop : args.loop_mode ≡ false
  pub no_keystore_given : args.keystore ≡ none
  pub no_passphrase_file : args.passphrase_file ≡ none
  pub no_fee_given : args.max_fee ≡ none
  pub no_basket_given : args.basket ≡ none
  pub no_base_fee : args.base_fee_per_gas ≡ none
  pub no_priority_fee : args.priority_fee_per_gas ≡ none
  pub no_margin : args.gas_margin_percent ≡ none
  pub miner_named : Reads parse_address args.miner miner

abbrev pub IsResolved :
    (List ℕ → Option (List ℕ)) → MineArgs → Address × Option MineSubmissionConfig → Type 0
IsResolved reader args (miner, none) = IsOffline args miner
IsResolved reader args (miner, some config) = IsExplicit reader args miner config

check_miner-agrees :
    (o : Option (List ℕ)) (miner : Address) {u : Unit {0}}
    → check_miner o miner ≡ ok u
    → (o ≡ none) ⊎ Reads parse_address o miner
unfolding check_miner
check_miner-agrees none miner e = inl refl
check_miner-agrees (some text) miner e =
    let (supplied, e1, e2) = >>=-ok (value_of (parse_address text)) _ e in
    let same = (same_bytes_iff supplied miner).0 (require-ok _ miner_mismatch e2) in
    inr (text, refl, subst (λ (a : Address). parse_address text ≡ ok a) same (value_of-ok _ e1))

parse_fee_options-ceiling :
    (max_fee : List ℕ) (base priority margin : Option (List ℕ)) {options : FeeOptions}
    → parse_fee_options max_fee base priority margin ≡ ok options
    → parse_u128 max_fee ≡ ok options.fee_ceiling_wei
unfolding parse_fee_options
parse_fee_options-ceiling max_fee base priority margin {options} e =
    let (n, e1, e2) = >>=-ok (value_of (parse_u128 max_fee)) _ e in
    let (b, _, e3) = >>=-ok (transpose parse_u128 base) _ e2 in
    let (p, _, e4) = >>=-ok (transpose parse_u128 priority) _ e3 in
    let (m, _, e5) = >>=-ok (margin_of margin) _ e4 in
    subst (λ (o : FeeOptions). parse_u128 max_fee ≡ ok o.fee_ceiling_wei) (ok-injective e5)
      (value_of-ok _ e1)

resolve_submission-IsResolved :
    (reader : List ℕ → Option (List ℕ)) (args : MineArgs)
    {answer : Address × Option MineSubmissionConfig}
    → args.submit ≡ true
    → resolve_submission reader args ≡ ok answer
    → IsResolved reader args answer
unfolding resolve_submission
resolve_submission-IsResolved reader args submits e =
    let (_, rpc, e1) = >>=-ok (require (given args.rpc_url) no_rpc_url) _ e in
    let (_, file, e2) = >>=-ok (require (not (given args.state_file)) state_file_given) _ e1 in
    let (keystore, is_keystore, e3) = >>=-ok (ok_or no_keystore args.keystore) _ e2 in
    let (max_fee, is_fee, e4) = >>=-ok (ok_or no_max_fee args.max_fee) _ e3 in
    let (miner_text, is_miner, e5) = >>=-ok (ok_or keystore_unreadable (reader keystore)) _ e4 in
    let (miner, parsed, e6) = >>=-ok (value_of (parse_address miner_text)) _ e5 in
    let (_, agrees, e7) = >>=-ok (check_miner args.miner miner) _ e6 in
    let (basket_text, is_basket, e8) = >>=-ok (ok_or no_basket args.basket) _ e7 in
    let (basket, basket_parsed, e9) = >>=-ok (value_of (parse_address basket_text)) _ e8 in
    let (options, priced, e10) =
      >>=-ok
        (parse_fee_options max_fee args.base_fee_per_gas args.priority_fee_per_gas
          args.gas_margin_percent)
        _ e9 in
    subst (IsResolved reader args) (ok-injective e10) (record {
      submits = submits;
      live = given-some args.rpc_url (require-ok _ no_rpc_url rpc);
      reads_contract = given-none args.state_file (require-ok _ state_file_given file);
      keystore_named = ok_or-ok no_keystore args.keystore is_keystore;
      own_address = (
        miner_text,
        ok_or-ok keystore_unreadable (reader keystore) is_miner,
        value_of-ok _ parsed,
      );
      miner_agrees = check_miner-agrees args.miner miner agrees;
      basket_named =
          (basket_text, ok_or-ok no_basket args.basket is_basket, value_of-ok _ basket_parsed);
      ceiling_named = (
        max_fee,
        ok_or-ok no_max_fee args.max_fee is_fee,
        parse_fee_options-ceiling max_fee _ _ _ priced,
      );
    })

neither : (a b : Bool) → not (a || b) ≡ true → (not a ≡ true) × (not b ≡ true)
neither true b e = absurd cc
neither false b e = (refl, e)

looping : {a b : Bool} → b ≡ false → not (a && not b) ≡ true → a ≡ false
looping {a = true} {b = true} f e = absurd cc
looping {a = true} {b = false} f e = absurd cc
looping {a = false} f e = refl

resolve_offline-IsResolved :
    (reader : List ℕ → Option (List ℕ)) (args : MineArgs)
    {answer : Address × Option MineSubmissionConfig}
    → args.submit ≡ false
    → args.loop_mode ≡ false
    → resolve_offline args ≡ ok answer
    → IsResolved reader args answer
unfolding resolve_offline submission_flags
resolve_offline-IsResolved reader args offline once e =
    let (_, flags, e1) = >>=-ok (require (not (submission_flags args)) flags_without_submit) _ e in
    let (text, is_miner, e2) = >>=-ok (ok_or no_miner args.miner) _ e1 in
    let (miner, parsed, e3) = >>=-ok (value_of (parse_address text)) _ e2 in
    let (g6, f7) =
      neither _ (given args.gas_margin_percent)
        (require-ok (not (submission_flags args)) flags_without_submit flags) in
    let (g5, f6) = neither _ (given args.priority_fee_per_gas) g6 in
    let (g4, f5) = neither _ (given args.base_fee_per_gas) g5 in
    let (g3, f4) = neither _ (given args.basket) g4 in
    let (g2, f3) = neither _ (given args.max_fee) g3 in
    let (f1, f2) = neither (given args.keystore) (given args.passphrase_file) g2 in
    subst (IsResolved reader args) (ok-injective e3) (record {
      no_submission = offline;
      no_loop = once;
      no_keystore_given = given-none args.keystore f1;
      no_passphrase_file = given-none args.passphrase_file f2;
      no_fee_given = given-none args.max_fee f3;
      no_basket_given = given-none args.basket f4;
      no_base_fee = given-none args.base_fee_per_gas f5;
      no_priority_fee = given-none args.priority_fee_per_gas f6;
      no_margin = given-none args.gas_margin_percent f7;
      miner_named = (text, ok_or-ok no_miner args.miner is_miner, value_of-ok _ parsed);
    })

-- A mining command that may submit was given `--submit`, a node, no state file, a keystore whose
-- address is the miner's and that of any `--miner`, a basket, and the fee ceiling, read from the
-- text of `--max-fee`; any other command was given the miner, no `--submit`, no loop, and none of
-- the options of a submission.
pub resolve_mine_identity_and_submission-IsResolved :
    (reader : List ℕ → Option (List ℕ)) (args : MineArgs)
    (answer : Address × Option MineSubmissionConfig)
    → resolve_mine_identity_and_submission reader args ≡ ok answer
    → IsResolved reader args answer
unfolding resolve_mine_identity_and_submission
resolve_mine_identity_and_submission-IsResolved reader args answer e =
    let (_, loops, e1) =
      >>=-ok (require (not (args.loop_mode && not args.submit)) loop_without_submit) _ e in
    let (_, _, e2) =
      >>=-ok
        (require (not (given args.watch_interval_ms && not args.loop_mode)) interval_without_loop) _
        e1 in
    if-elim-eq
      (λ (r : Result OptionError (Address × Option MineSubmissionConfig)).
        r ≡ ok answer → IsResolved reader args answer)
      args.submit (λ submits e3. resolve_submission-IsResolved reader args submits e3)
      (λ offline e3.
        resolve_offline-IsResolved reader args offline
          (looping offline (require-ok _ loop_without_submit loops)) e3)
      e2
