-- ===== src/Proof/Digests.antt =====
-- crates/proof-core/src/proof.rs: preimages and their inputs, the two kinds of preimage, and the
-- prepared hasher.
use proof_hunter_miner.Bytes.{value, bytes_leb-value}
use proof_hunter_miner.Base.{
  [], le→leb, leb→le, ◌≤◌, All-take, ◌↔◌, true, ◌-◌, length-append, ◌*◌, append-nil, ℕ, ◌≡◌, ◌≢◌,
  refl, sym, ap, ◌∙◌, arith, List, ◌∷◌, ◌++◌, length, take, drop, All, append_assoc,
  take-append_left, drop-append_left,
}
use proof_hunter_miner.Proof.{
  Uint256, Keccak, proof_digest, prepare, IsWord, prepared_digest, preimage_bytes, meets_target,
  challenge_preimage, proof_preimage, ChallengeInputs, ProofInputs, IsChallengeInputs,
  IsProofInputs,
}
use proof_hunter_miner.Proof.Layout.{
  join, HasSize, proof_words, challenge_words, proof_words-size, challenge_words-size,
  proof_preimage-join, challenge_preimage-join,
}

join-append : (vs ws : List (List ℕ)) → join (vs ++ ws) ≡ join vs ++ join ws
join-append [] ws = refl
join-append (v ∷ vs) ws = rw (join-append vs ws, append_assoc v (join vs) (join ws))

-- Rows of words of one size are equal only if the words are.
join-injective :
    (n : ℕ) (vs ws : List (List ℕ))
    → length vs ≡ length ws
    → All (HasSize n) vs
    → All (HasSize n) ws
    → join vs ≡ join ws
    → vs ≡ ws
join-injective n [] [] e hv hw j = refl
join-injective n [] (w ∷ ws) e hv hw j = absurd (omega arith)
join-injective n (v ∷ vs) [] e hv hw j = absurd (omega arith)
join-injective n (v ∷ vs) (w ∷ ws) e (hv, rv) (hw, rw') j =
    let head : v ≡ w =
      sym (take-append_left v (join vs) n hv) ∙ ap (take n) j ∙ take-append_left w (join ws) n hw in
    let rest : join vs ≡ join ws =
      sym (drop-append_left v (join vs) n hv) ∙ ap (drop n) j ∙ drop-append_left w (join ws) n hw in
    cc (head, join-injective n vs ws (omega arith) rv rw' rest)

proof_words-injective : (a b : ProofInputs) → proof_words a ≡ proof_words b → a ≡ b
proof_words-injective a b e = ground arith

challenge_words-injective : (a b : ChallengeInputs) → challenge_words a ≡ challenge_words b → a ≡ b
challenge_words-injective a b e = ground arith

-- Two proofs' inputs of the field types with the same preimage are the same inputs.
pub proof_preimage-injective :
    (a b : ProofInputs)
    → IsProofInputs a
    → IsProofInputs b
    → proof_preimage a ≡ proof_preimage b
    → a ≡ b
proof_preimage-injective a b ha hb e = proof_words-injective a b (
    join-injective 32 (proof_words a) (proof_words b) refl (proof_words-size a ha)
      (proof_words-size b hb) (sym (proof_preimage-join a ha) ∙ e ∙ proof_preimage-join b hb))

-- Two challenges' inputs of the field types with the same preimage are the same inputs.
pub challenge_preimage-injective :
    (a b : ChallengeInputs)
    → IsChallengeInputs a
    → IsChallengeInputs b
    → challenge_preimage a ≡ challenge_preimage b
    → a ≡ b
challenge_preimage-injective a b ha hb e = challenge_words-injective a b (
    join-injective 32 (challenge_words a) (challenge_words b) refl (challenge_words-size a ha)
      (challenge_words-size b hb)
      (sym (challenge_preimage-join a ha) ∙ e ∙ challenge_preimage-join b hb))

-- No preimage of inputs of the field types is both a proof's and a challenge's.
pub preimages_disjoint :
    (p : ProofInputs) (c : ChallengeInputs)
    → IsProofInputs p
    → IsChallengeInputs c
    → proof_preimage p ≢ challenge_preimage c
preimages_disjoint p c hp hc e =
    let words : proof_words p ≡ challenge_words c =
      join-injective 32 (proof_words p) (challenge_words c) refl (proof_words-size p hp)
        (challenge_words-size c hc)
        (sym (proof_preimage-join p hp) ∙ e ∙ challenge_preimage-join c hc) in
    ground arith

-- The cached prefix: all words but the nonce.
prefix_words : ProofInputs → List (List ℕ)
prefix_words inputs = take 7 (proof_words inputs)

prefix_words-nonce :
    (inputs : ProofInputs) → join (proof_words inputs) ≡ join (prefix_words inputs) ++ inputs.nonce
unfolding prefix_words
prefix_words-nonce inputs =
    join-append (take 7 (proof_words inputs)) (inputs.nonce ∷ [])
    ∙ ap (λ t. join (take 7 (proof_words inputs)) ++ t) (append-nil inputs.nonce)

length-join : (n : ℕ) (ws : List (List ℕ)) → All (HasSize n) ws → length (join ws) ≡ length ws * n
length-join n [] h = omega arith
length-join n (w ∷ ws) (hw, h) =
    rw (length-append w (join ws), hw, length-join n ws h) (grind arith)

proof_prefix :
    (inputs : ProofInputs)
    → IsProofInputs inputs
    → take (preimage_bytes - 32) (proof_preimage inputs) ≡ join (prefix_words inputs)
unfolding prefix_words
proof_prefix inputs h =
    let size : length (join (prefix_words inputs)) ≡ 7 * 32 =
      length-join 32 (prefix_words inputs)
        (All-take (HasSize 32) 7 (proof_words inputs) (proof_words-size inputs h)) in
    ap (take (preimage_bytes - 32)) (proof_preimage-join inputs h ∙ prefix_words-nonce inputs)
    ∙ take-append_left (join (prefix_words inputs)) inputs.nonce (preimage_bytes - 32) size

-- For inputs and a nonce of the field types, the prepared hasher gives the digest of the inputs
-- with that nonce.
pub prepared_digest-proof_digest :
    (k : Keccak) (inputs : ProofInputs) (nonce : Uint256)
    → IsProofInputs inputs
    → IsWord nonce
    → prepared_digest k (prepare k inputs) nonce ≡ proof_digest k (record inputs { nonce = nonce })
unfolding prepared_digest prepare proof_digest prefix_words
prepared_digest-proof_digest k inputs nonce h hn =
    let next : ProofInputs = record inputs { nonce = nonce } in
    let h' : IsProofInputs next = record {
      chain_id = h.chain_id;
      mining_core = h.mining_core;
      challenge_id = h.challenge_id;
      challenge = h.challenge;
      miner = h.miner;
      nonce = hn;
    } in
    let whole : take (preimage_bytes - 32) (proof_preimage inputs) ++ nonce ≡ proof_preimage next =
      ap (λ t. t ++ nonce) (proof_prefix inputs h)
      ∙ sym (prefix_words-nonce next)
      ∙ sym (proof_preimage-join next h') in
    k.update_pieces (take (preimage_bytes - 32) (proof_preimage inputs)) nonce
    ∙ ap (λ t. k.finalize (k.update k.new t)) whole

-- The prepared hasher does not depend on the nonce that it was prepared with.
pub prepare_nonce :
    (k : Keccak) (inputs : ProofInputs) (nonce : Uint256)
    → IsProofInputs inputs
    → IsProofInputs (record inputs { nonce = nonce })
    → prepare k (record inputs { nonce = nonce }) ≡ prepare k inputs
unfolding prepare prefix_words
prepare_nonce k inputs nonce h h' =
    ap (k.update k.new)
      (proof_prefix (record inputs { nonce = nonce }) h' ∙ sym (proof_prefix inputs h))

-- For words, the target rule holds exactly if the number of the digest is at most the number of
-- the target.
pub meets_target-le :
    (digest target : List ℕ)
    → IsWord digest
    → IsWord target
    → (meets_target digest target ≡ true) ↔ (value digest ≤ value target)
unfolding meets_target
meets_target-le digest target hd ht =
    rw (bytes_leb-value digest target (hd.size ∙ sym ht.size) hd.bytes ht.bytes)
      (leb→le (value digest) (value target), le→leb (value digest) (value target))
