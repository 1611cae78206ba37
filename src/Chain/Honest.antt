-- ===== src/Chain/Honest.antt =====
-- crates/bproof/src/chain.rs: the reader against a contract, which is its values at a block, and a
-- node that answers with them.
use proof_hunter_miner.Base.{
  [], ℕ, ◌+◌, ◌^◌, ◌<◌, ◌≡◌, refl, ap, ◌∙◌, true, false, some, List, ◌∷◌, ==_iff, require, codes,
  ok,
}
use proof_hunter_miner.Bytes.{bytes_ltb, same_bytes, same_bytes_iff}
use proof_hunter_miner.Chain.{Deployment, MiningState, validate_contract_code}
use proof_hunter_miner.Chain.Reads.{
  call_evm_context_word, call_word, core_call, evm_context_call, parent_block_number,
  parent_block_number_helper_code, parent_blockhash_helper_code, seed_blockhash, snapshot_block,
  verified_block_tag, word_result,
}
use proof_hunter_miner.Chain.State.{challenge_inputs_of, read_state, read_state_at, state_from}
use proof_hunter_miner.Failure.{Checked, in_range, read}
use proof_hunter_miner.Fees.{uint256_to_u128}
use proof_hunter_miner.Json.{Json}
use proof_hunter_miner.Keccak.{Keccak, keccak256}
use proof_hunter_miner.Parse.{hex_string, parse_hex_quantity_uint256, parse_uint256_word}
use proof_hunter_miner.Proof.{ChallengeInputs, derive_challenge}
use proof_hunter_miner.Rpc.{◌>>=◌, Call, Node, Rpc, continue_with, done, lift, text_param, ◌>>=◌}
use proof_hunter_miner.Rpc.Calls.{call, string_result}
use proof_hunter_miner.Submit.Reading.{hex_text}
use proof_hunter_miner.Word.{
  Digest, IsWord, Target, Uint256, from_u128, from_u128-IsWord, value-to_be_bytes, word_zero,
}

-- The values of the mining core and of its chain at a block.
pub record Contract : Type 0 where
  pub block_tag : List ℕ
  pub challenge_id : Uint256
  pub previous_accepted_digest : Digest
  pub seed_parent_block : Uint256
  pub target : Target
  pub accepted : ℕ
  pub parent_block : Uint256
  pub seed_blockhash : Digest

module _ (k : Keccak) (reader : Deployment) (c : Contract) where
  abbrev pub contract_inputs : ChallengeInputs
  contract_inputs =
      challenge_inputs_of reader c.challenge_id c.previous_accepted_digest c.seed_parent_block
        c.seed_blockhash

  -- The state that the contract is in.
  abbrev pub contract_state : MiningState
  contract_state = record {
    challenge_inputs = contract_inputs;
    challenge = derive_challenge k contract_inputs;
    target = c.target;
    accepted_proofs = c.accepted;
    total_minted_wei = 0;
    nfts_minted_ever = some c.accepted;
  }

  -- A contract that a miner can work on: a seed block that has passed and has a hash.
  pub record IsReady : Type 0 where
    pub tag : Uint256
    pub tag_read : parse_hex_quantity_uint256 c.block_tag ≡ ok tag
    pub id_word : IsWord c.challenge_id
    pub digest_word : IsWord c.previous_accepted_digest
    pub seed_word : IsWord c.seed_parent_block
    pub target_word : IsWord c.target
    pub parent_word : IsWord c.parent_block
    pub hash_word : IsWord c.seed_blockhash
    pub accepted_fits : c.accepted < 2 ^ 128
    pub seed_passed : bytes_ltb c.seed_parent_block c.parent_block ≡ true
    pub seed_hashed : same_bytes c.seed_blockhash word_zero ≡ false

  -- The calls of `read_state_at` in their order, each with the word that the contract answers.
  abbrev pub transcript : List (Call × Uint256)
  transcript =
      (core_call k reader "activeChallengeId()" c.block_tag, c.challenge_id)
      ∷ ((core_call k reader "previousAcceptedDigest()" c.block_tag, c.previous_accepted_digest)
          ∷ ((core_call k reader "activeSeedParentBlock()" c.block_tag, c.seed_parent_block)
              ∷ ((core_call k reader "currentTarget()" c.block_tag, c.target)
                  ∷ ((core_call k reader "acceptedProofs()" c.block_tag, from_u128 c.accepted)
                      ∷ ((core_call k reader "nftsMintedEver()" c.block_tag, from_u128 c.accepted)
                          ∷ ((
                            evm_context_call parent_block_number_helper_code (codes "0x")
                                c.block_tag,
                            c.parent_block,
                          )
                              ∷ ((
                                evm_context_call parent_blockhash_helper_code
                                    (hex_string c.seed_parent_block) c.block_tag,
                                c.seed_blockhash,
                              )
                                  ∷ ((
                                    core_call k reader "currentChallenge()" c.block_tag,
                                    derive_challenge k contract_inputs,
                                  )
                                      ∷ []))))))))

-- The calls of `verified_block_tag` with the texts that are answered.
abbrev pub identity_calls : Deployment → Contract → List ℕ → List ℕ → List (Call × List ℕ)
identity_calls reader c chain_text code =
    (call "eth_chainId" [], chain_text)
    ∷ ((call "eth_blockNumber" [], c.block_tag)
        ∷ ((
          call "eth_getCode"
              (text_param (hex_string reader.mining_core_address) ∷ (text_param c.block_tag ∷ [])),
          code,
        )
            ∷ []))

-- The node answers the messages from the n-th on with these texts and words.
abbrev pub Texts : (j : Json) → Node j → List (Call × List ℕ) → ℕ → Type 0
Texts j node [] n = Unit {0}
Texts j node ((c, answer) ∷ rest) n =
    (string_result j node c n ≡ (ok answer, n + 1)) × Texts j node rest (n + 1)

abbrev pub Words : (j : Json) → Node j → List (Call × Uint256) → ℕ → Type 0
Words j node [] n = Unit {0}
Words j node ((c, word) ∷ rest) n =
    (string_result j node c n ≡ (ok (hex_string word), n + 1)) × Words j node rest (n + 1)

bind-eq :
    {A B : Type 0} (m : Rpc A) (f : A → Rpc B) (sent : ℕ) {a : A} {n : ℕ}
    → m sent ≡ (ok a, n)
    → (m >>= f) sent ≡ f a n
unfolding ◌>>=◌ continue_with
bind-eq m f sent e = ap (continue_with f) e

lift-eq : {A : Type 0} (r : Checked A) (sent : ℕ) {a : A} → r ≡ ok a → lift r sent ≡ (ok a, sent)
unfolding lift
lift-eq r sent e = ap (λ t. (t, sent)) e

u128_back : (n : ℕ) → n < 2 ^ 128 → uint256_to_u128 (from_u128 n) ≡ ok n
unfolding uint256_to_u128 from_u128
u128_back n h = ap (λ (t : ℕ). ok t) (value-to_be_bytes 16 n h)

derive_challenge-IsWord :
    (k : Keccak) (inputs : ChallengeInputs) → IsWord (derive_challenge k inputs)
unfolding derive_challenge keccak256
derive_challenge-IsWord k inputs = k.finalize-IsWord _

module _ (k : Keccak) (j : Json) (node : Node j) (reader : Deployment) where
  word_served :
      (c : Call) (word : Uint256) (n : ℕ)
      → IsWord word
      → string_result j node c n ≡ (ok (hex_string word), n + 1)
      → word_result k j node reader c n ≡ (ok word, n + 1)
  unfolding word_result parse_uint256_word
  word_served c word n h e =
      bind-eq (string_result j node c) _ n e ∙ lift-eq _ (n + 1) (hex_text 32 word h)

  -- The answer to one request, in a row of requests.
  ask :
      {A : Type 0} (c : Call) (word : Uint256) (n : ℕ) (f : Uint256 → Rpc A)
      → IsWord word
      → string_result j node c n ≡ (ok (hex_string word), n + 1)
      → (word_result k j node reader c >>= f) n ≡ f word (n + 1)
  ask c word n f h e = bind-eq (word_result k j node reader c) f n (word_served c word n h e)

  pass :
      {A B : Type 0} (r : Checked A) (n : ℕ) (f : A → Rpc B) {a : A}
      → r ≡ ok a
      → (lift r >>= f) n ≡ f a n
  pass r n f e = bind-eq (lift r) f n (lift-eq r n e)

  counter : (n : ℕ) → n < 2 ^ 128 → in_range (uint256_to_u128 (from_u128 n)) ≡ ok n
  unfolding in_range
  counter n h = rw (u128_back n h) refl

  seed_blockhash-contract :
      (c : Contract) (n : ℕ)
      → IsReady k reader c
      → string_result j node
          (evm_context_call parent_block_number_helper_code (codes "0x") c.block_tag)
          n
        ≡ (ok (hex_string c.parent_block), n + 1)
      → string_result j node
          (evm_context_call parent_blockhash_helper_code
            (hex_string c.seed_parent_block)
            c.block_tag)
          (n + 1)
        ≡ (ok (hex_string c.seed_blockhash), n + 1 + 1)
      → seed_blockhash k j node reader c.seed_parent_block c.block_tag n
        ≡ (ok c.seed_blockhash, n + 1 + 1)
  unfolding seed_blockhash parent_block_number call_evm_context_word done require
  seed_blockhash-contract c n contract a7 a8 =
      ask _ c.parent_block n _ contract.parent_word a7
      ∙ pass _ (n + 1) _ (rw (contract.seed_passed) refl)
      ∙ ask _ c.seed_blockhash (n + 1) _ contract.hash_word a8
      ∙ pass _ (n + 1 + 1) _ (rw (contract.seed_hashed) refl)

  state_from-contract :
      (c : Contract) (n after : ℕ)
      → IsReady k reader c
      → seed_blockhash k j node reader c.seed_parent_block c.block_tag n
        ≡ (ok c.seed_blockhash, after)
      → string_result j node (core_call k reader "currentChallenge()" c.block_tag) after
        ≡ (ok (hex_string (derive_challenge k (contract_inputs k reader c))), after + 1)
      → state_from k j node reader c.block_tag c.challenge_id c.previous_accepted_digest
          c.seed_parent_block c.target c.accepted c.accepted n
        ≡ (ok (contract_state k reader c), after + 1)
  unfolding state_from call_word done require
  state_from-contract c n after contract seed a9 =
      let challenge = derive_challenge k (contract_inputs k reader c) in
      pass _ n _ (rw ((==_iff c.accepted c.accepted).1 refl) refl)
      ∙ bind-eq (seed_blockhash k j node reader c.seed_parent_block c.block_tag) _ n seed
      ∙ ask _ challenge after _ (derive_challenge-IsWord k (contract_inputs k reader c)) a9
      ∙ pass _ (after + 1) _ (rw ((same_bytes_iff challenge challenge).1 refl) refl)

  pub read_state_at-contract :
      (c : Contract) (n : ℕ)
      → IsReady k reader c
      → Words j node (transcript k reader c) n
      → (after : ℕ) × (read_state_at k j node reader c.block_tag n
          ≡ (ok (contract_state k reader c), after))
  unfolding read_state_at call_word
  read_state_at-contract c n contract (a1, (a2, (a3, (a4, (a5, (a6, (a7, (a8, (a9, _))))))))) =
      let m = n + 1 + 1 + 1 + 1 + 1 + 1 in
      (
        m + 1 + 1 + 1,
        ask _ c.challenge_id n _ contract.id_word a1
            ∙ ask _ c.previous_accepted_digest (n + 1) _ contract.digest_word a2
            ∙ ask _ c.seed_parent_block (n + 1 + 1) _ contract.seed_word a3
            ∙ ask _ c.target (n + 1 + 1 + 1) _ contract.target_word a4
            ∙ ask _ (from_u128 c.accepted) (n + 1 + 1 + 1 + 1) _ (from_u128-IsWord c.accepted) a5
            ∙ pass _ (n + 1 + 1 + 1 + 1 + 1) _ (counter c.accepted contract.accepted_fits)
            ∙ ask _ (from_u128 c.accepted) (n + 1 + 1 + 1 + 1 + 1) _ (from_u128-IsWord c.accepted)
                a6
            ∙ pass _ m _ (counter c.accepted contract.accepted_fits)
            ∙ state_from-contract c m (m + 1 + 1) contract
                (seed_blockhash-contract c m contract a7 a8) a9,
      )

  verified_block_tag-contract :
      (c : Contract) (chain_text code : List ℕ) (n : ℕ)
      → IsReady k reader c
      → parse_hex_quantity_uint256 chain_text ≡ ok reader.expected_chain_id
      → validate_contract_code code ≡ ok tt
      → Texts j node (identity_calls reader c chain_text code) n
      → verified_block_tag k j node reader n ≡ (ok c.block_tag, n + 1 + 1 + 1)
  unfolding verified_block_tag snapshot_block done require read
  verified_block_tag-contract c chain_text code n contract right_chain has_code
        (t1, (t2, (t3, _))) =
      bind-eq (string_result j node (call "eth_chainId" [])) _ n t1
      ∙ pass _ (n + 1) _ (ap read right_chain)
      ∙ pass _ (n + 1) _
          (rw ((same_bytes_iff reader.expected_chain_id reader.expected_chain_id).1 refl) refl)
      ∙ bind-eq (snapshot_block k j node reader) _ (n + 1) (
          bind-eq (string_result j node (call "eth_blockNumber" [])) _ (n + 1) t2
          ∙ pass _ (n + 1 + 1) _ (ap read contract.tag_read))
      ∙ bind-eq (string_result j node _) _ (n + 1 + 1) t3
      ∙ pass _ (n + 1 + 1 + 1) _ has_code

  -- Against a node that answers its requests, in their order, with the values of a contract whose
  -- seed block has passed and has a hash, `read_state` returns exactly the state of that contract.
  pub read_state-contract :
      (c : Contract) (chain_text code : List ℕ) (n : ℕ)
      → IsReady k reader c
      → parse_hex_quantity_uint256 chain_text ≡ ok reader.expected_chain_id
      → validate_contract_code code ≡ ok tt
      → Texts j node (identity_calls reader c chain_text code) n
      → Words j node (transcript k reader c) (n + 1 + 1 + 1)
      → (after : ℕ) × (read_state k j node reader n ≡ (ok (contract_state k reader c), after))
  unfolding read_state
  read_state-contract c chain_text code n contract right_chain has_code texts words =
      let (after, got) = read_state_at-contract c (n + 1 + 1 + 1) contract words in
      (
        after,
        bind-eq (verified_block_tag k j node reader) _ n
              (verified_block_tag-contract c chain_text code n contract right_chain has_code texts)
            ∙ got,
      )
