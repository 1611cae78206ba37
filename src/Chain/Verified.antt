-- ===== src/Chain/Verified.antt =====
-- crates/bproof/src/chain.rs: what the reads establish of a state.
use proof_hunter_miner.Base.{
  ℕ, ◌≡◌, refl, sym, ap, ◌∙◌, subst, ◌≢◌, ◌↔◌, Bool, true, not, some, List, ◌==◌, ==_iff, require,
  require-ok, if-elim-eq, ok-injective, ok,
}
use proof_hunter_miner.Bytes.{bytes_ltb, same_bytes, same_bytes_iff}
use proof_hunter_miner.Chain.{String, Deployment, MiningState, from_word}
use proof_hunter_miner.Chain.Reads.{
  call_evm_context_word, call_word, parent_block_number, parent_blockhash_helper_code,
  seed_blockhash, verified_block_tag,
}
use proof_hunter_miner.Chain.State.{challenge_inputs_of, read_state, read_state_at, state_from}
use proof_hunter_miner.Continuous.{
  ChallengeStatus, active, ended, expired, stopped, waiting_for_seed,
}
use proof_hunter_miner.Failure.{
  CheckError, Checked, challenge_mismatch, counters_disagree, in_range, no_seed_blockhash,
  seed_not_passed,
}
use proof_hunter_miner.Fees.{uint256_to_u128}
use proof_hunter_miner.Json.{Json}
use proof_hunter_miner.Keccak.{Keccak}
use proof_hunter_miner.Parse.{hex_string}
use proof_hunter_miner.Proof.{derive_challenge}
use proof_hunter_miner.Rpc.{Node, bind-ok, done-eq, lift, lift-ok}
use proof_hunter_miner.Word.{Digest, Target, Uint256, from_u64, to_be_bytes, word_one, word_zero}

require_holds :
    (test : Bool) (e : CheckError) (sent : ℕ) {u : Unit {0}} {n : ℕ}
    → lift (require test e) sent ≡ (ok u, n)
    → test ≡ true
require_holds test e sent h = require-ok test e (lift-ok (require test e) sent h)

-- The status is one of the five that the contract declares, by its number.
abbrev pub status_number : ChallengeStatus → ℕ
status_number waiting_for_seed = 0
status_number active = 1
status_number expired = 2
status_number ended = 3
status_number stopped = 4

named : (status : ChallengeStatus) → from_word (from_u64 (status_number status)) ≡ ok status
unfolding from_word from_u64 to_be_bytes same_bytes
named waiting_for_seed = refl
named active = refl
named expired = refl
named ended = refl
named stopped = refl

zero_word : word_zero ≡ from_u64 0
unfolding from_u64 to_be_bytes
zero_word = refl

one_word : word_one ≡ from_u64 1
unfolding from_u64 to_be_bytes
one_word = refl

-- A word that is the number of one status, and is accepted as a status.
numbered :
    (word expected : Uint256) (a status : ChallengeStatus)
    → expected ≡ from_u64 (status_number a)
    → same_bytes word expected ≡ true
    → ◌≡◌ {A = Checked ChallengeStatus} (ok a) (ok status)
    → word ≡ from_u64 (status_number status)
numbered word expected a status e same h =
    (same_bytes_iff word expected).0 same
    ∙ e
    ∙ ap (λ (t : ChallengeStatus). from_u64 (status_number t)) (ok-injective h)

number_of :
    (word : Uint256) (status : ChallengeStatus)
    → from_word word ≡ ok status
    → word ≡ from_u64 (status_number status)
unfolding from_word
number_of word status =
    let P : Checked ChallengeStatus → Type 0 =
      λ r. r ≡ ok status → word ≡ from_u64 (status_number status) in
    if-elim-eq P (same_bytes word word_zero)
      (numbered word word_zero waiting_for_seed status zero_word)
      (λ _.
        if-elim-eq P (same_bytes word word_one) (numbered word word_one active status one_word)
          (λ _.
            if-elim-eq P (same_bytes word (from_u64 2))
              (numbered word (from_u64 2) expired status refl)
              (λ _.
                if-elim-eq P (same_bytes word (from_u64 3))
                  (numbered word (from_u64 3) ended status refl)
                  (λ _.
                    if-elim-eq P (same_bytes word (from_u64 4))
                      (numbered word (from_u64 4) stopped status refl) (λ _ h. absurd cc)))))

-- `from_word` accepts exactly the words 0 to 4, each as the status that it numbers.
pub from_word_iff :
    (word : Uint256) (status : ChallengeStatus)
    → (from_word word ≡ ok status) ↔ (word ≡ from_u64 (status_number status))
from_word_iff word status = (
  number_of word status,
  λ e. subst (λ (w : Uint256). from_word w ≡ ok status) (sym e) (named status),
)

-- A state that the reader accepts: its challenge is the one that its own inputs derive, it is of the deployment, its seed block has a hash, and as many NFTs were minted as proofs were accepted.
pub record IsState (k : Keccak) (reader : Deployment) (s : MiningState) : Type 0 where
  pub derived : s.challenge ≡ derive_challenge k s.challenge_inputs
  pub on_chain : s.challenge_inputs.chain_id ≡ reader.expected_chain_id
  pub of_core : s.challenge_inputs.mining_core ≡ reader.mining_core_address
  pub counted : s.nfts_minted_ever ≡ some s.accepted_proofs
  pub hashed : s.challenge_inputs.seed_blockhash ≢ word_zero
  pub no_legacy : s.total_minted_wei ≡ 0

not_zero : (w : Uint256) → not (same_bytes w word_zero) ≡ true → w ≢ word_zero
not_zero w h e =
    let same : same_bytes w word_zero ≡ true = (same_bytes_iff w word_zero).1 e in absurd cc

module _ (k : Keccak) (j : Json) (node : Node j) (reader : Deployment) where
  seed_blockhash-ok :
      (seed : Uint256) (tag : List ℕ) (sent : ℕ) {hash : Digest} {after : ℕ}
      → seed_blockhash k j node reader seed tag sent ≡ (ok hash, after)
      → (hash ≢ word_zero)
        × (parent : Uint256) × (n : ℕ) × (parent_block_number k j node reader tag sent
            ≡ (ok parent, n))
        × (bytes_ltb seed parent ≡ true)
  unfolding seed_blockhash
  seed_blockhash-ok seed tag sent h =
      let (parent, n1, asked, h1) = bind-ok (parent_block_number k j node reader tag) _ sent h in
      let (u, n2, passed, h2) =
        bind-ok (lift (require (bytes_ltb seed parent) seed_not_passed)) _ n1 h1 in
      let (hash, n3, _, h3) =
        bind-ok
          (call_evm_context_word k j node reader parent_blockhash_helper_code (hex_string seed) tag)
          _ n2 h2 in
      let (u', n4, there, h4) =
        bind-ok (lift (require (not (same_bytes hash word_zero)) no_seed_blockhash)) _ n3 h3 in
      (
        subst (λ (t : Digest). t ≢ word_zero) (done-eq hash n4 h4)
            (not_zero hash (require_holds _ no_seed_blockhash n3 there)),
        parent,
        n1,
        asked,
        require_holds _ seed_not_passed n1 passed,
      )

  state_from-IsState :
      (tag : List ℕ) (id : Uint256) (digest : Digest) (seed : Uint256) (target : Target)
      (accepted minted : ℕ) (sent : ℕ) {s : MiningState} {after : ℕ}
      → state_from k j node reader tag id digest seed target accepted minted sent ≡ (ok s, after)
      → IsState k reader s
  unfolding state_from
  state_from-IsState tag id digest seed target accepted minted sent h =
      let (u9, n9, equal, h9) =
        bind-ok (lift (require (minted == accepted) counters_disagree)) _ sent h in
      let (hash, n10, hashed, h10) = bind-ok (seed_blockhash k j node reader seed tag) _ n9 h9 in
      let (challenge, n11, _, h11) =
        bind-ok (call_word k j node reader "currentChallenge()" tag) _ n10 h10 in
      let derived = derive_challenge k (challenge_inputs_of reader id digest seed hash) in
      let (u12, n12, same, h12) =
        bind-ok (lift (require (same_bytes challenge derived) challenge_mismatch)) _ n11 h11 in
      subst (λ (t : MiningState). IsState k reader t) (done-eq _ n12 h12)
        (record {
          derived =
              (same_bytes_iff challenge derived).0 (require_holds _ challenge_mismatch n11 same);
          on_chain = refl;
          of_core = refl;
          counted =
              ap (λ (t : ℕ). some t)
                ((==_iff minted accepted).0 (require_holds _ counters_disagree sent equal));
          hashed = (seed_blockhash-ok seed tag n9 hashed).0;
          no_legacy = refl;
        })

  read_state_at-IsState :
      (tag : List ℕ) (sent : ℕ) (s : MiningState) (after : ℕ)
      → read_state_at k j node reader tag sent ≡ (ok s, after)
      → IsState k reader s
  unfolding read_state_at
  read_state_at-IsState tag sent s after h =
      let word = λ (name : String). call_word k j node reader name tag in
      let (id, n1, _, h1) = bind-ok (word "activeChallengeId()") _ sent h in
      let (digest, n2, _, h2) = bind-ok (word "previousAcceptedDigest()") _ n1 h1 in
      let (seed, n3, _, h3) = bind-ok (word "activeSeedParentBlock()") _ n2 h2 in
      let (target, n4, _, h4) = bind-ok (word "currentTarget()") _ n3 h3 in
      let (aw, n5, _, h5) = bind-ok (word "acceptedProofs()") _ n4 h4 in
      let (accepted, n6, _, h6) = bind-ok (lift (in_range (uint256_to_u128 aw))) _ n5 h5 in
      let (mw, n7, _, h7) = bind-ok (word "nftsMintedEver()") _ n6 h6 in
      let (minted, n8, _, h8) = bind-ok (lift (in_range (uint256_to_u128 mw))) _ n7 h7 in
      state_from-IsState tag id digest seed target accepted minted n8 h8

  -- Whatever the node answers, a state that `read_state` returns has the challenge that its own
  -- inputs derive on the expected chain and core, a seed block with a nonzero hash, as many NFTs
  -- as accepted proofs, and no legacy total.
  pub read_state-IsState :
      (sent : ℕ) (s : MiningState) (after : ℕ)
      → read_state k j node reader sent ≡ (ok s, after)
      → IsState k reader s
  unfolding read_state
  read_state-IsState sent s after h =
      let (tag, n, _, h1) = bind-ok (verified_block_tag k j node reader) _ sent h in
      read_state_at-IsState tag n s after h1
