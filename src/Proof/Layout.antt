-- ===== src/Proof/Layout.antt =====
-- The preimages of crates/proof-core/src/proof.rs against a row of ABI words.
use native.Mathlib.Nat.{suc-add, zero-add, add_assoc}
use proof_hunter_miner.Base.{
  [], ℕ, suc, ◌+◌, ◌*◌, ◌≡◌, refl, ap, arith, List, ◌∷◌, ◌++◌, length, replicate, take, drop, All,
  append_assoc, append-nil, length-append, All-append, drop-append_left,
}
use proof_hunter_miner.Word.{IsWord, IsAddress, IsArray-append, zeros-IsArray}
use proof_hunter_miner.Proof.{
  copy_at, write_word, address_word, challenge_preimage, proof_preimage, ChallengeInputs,
  ProofInputs, IsChallengeInputs, IsProofInputs, challenge_typehash, proof_typehash, proof_version,
  preimage_bytes,
}

-- Arrays in a row.
abbrev pub join : List (List ℕ) → List ℕ
join [] = []
join (w ∷ ws) = w ++ join ws

-- `write_word` for each word in turn, from word `i` on.
write_words : List ℕ → ℕ → List (List ℕ) → List ℕ
write_words preimage i [] = preimage
write_words preimage i (w ∷ ws) = write_words (write_word preimage i w) (suc i) ws

abbrev pub HasSize : ℕ → List ℕ → Type 0
HasSize n w = length w ≡ n

take-append_add : (xs ys : List ℕ) (n : ℕ) → take (length xs + n) (xs ++ ys) ≡ xs ++ take n ys
take-append_add [] ys n = rw zero-add
take-append_add (x ∷ xs) ys n = rw suc-add (ap (λ t. x ∷ t) (take-append_add xs ys n))

drop-append_add : (xs ys : List ℕ) (n : ℕ) → drop (length xs + n) (xs ++ ys) ≡ drop n ys
drop-append_add [] ys n = rw zero-add
drop-append_add (x ∷ xs) ys n = rw suc-add (drop-append_add xs ys n)

copy_at-append :
    (xs ys : List ℕ) (n : ℕ) (w : List ℕ)
    → copy_at (xs ++ ys) (length xs + n) w ≡ xs ++ copy_at ys n w
unfolding copy_at
copy_at-append xs ys n w = rw (
  take-append_add xs ys n,
  add_assoc (length xs) n (length w),
  drop-append_add xs ys (n + length w),
  append_assoc xs (take n ys),
)

-- Writing the word behind `front` replaces that word and nothing else.
write_word-join :
    (front : List (List ℕ)) (x : List ℕ) (ws : List (List ℕ)) (w : List ℕ)
    → All (HasSize 32) front
    → HasSize 32 x
    → HasSize 32 w
    → write_word (join (front ++ (x ∷ ws))) (length front) w ≡ join (front ++ (w ∷ ws))
unfolding write_word
write_word-join [] x ws w h hx hw =
    ap (λ t. w ++ t) (drop-append_left x (join ws) (0 + length w) (omega arith))
write_word-join (v ∷ front) x ws w (hv, h) hx hw =
    let e : suc (length front) * 32 ≡ length v + length front * 32 = omega arith in
    rw e (
      rw (copy_at-append v (join (front ++ (x ∷ ws))) (length front * 32) w)
        (ap (λ t. v ++ t) (write_word-join front x ws w h hx hw)))

write_words-join :
    (front old new : List (List ℕ))
    → length old ≡ length new
    → All (HasSize 32) front
    → All (HasSize 32) old
    → All (HasSize 32) new
    → write_words (join (front ++ old)) (length front) new ≡ join (front ++ new)
unfolding write_words
write_words-join front [] [] e hf ho hn = refl
write_words-join front [] (w ∷ new) e hf ho hn = absurd (omega arith)
write_words-join front (x ∷ old) [] e hf ho hn = absurd (omega arith)
write_words-join front (x ∷ old) (w ∷ new) e hf (hx, ho) (hw, hn) =
    let front' = front ++ (w ∷ []) in
    let next : length front' ≡ suc (length front) = omega (arith, length-append front (w ∷ [])) in
    let ih =
      write_words-join front' old new (omega arith)
        (All-append (HasSize 32) front (w ∷ []) hf (hw, tt)) ho hn in
    rw (write_word-join front x old w hf hx hw)
      (rw (append_assoc front (w ∷ []) old, append_assoc front (w ∷ []) new, next) at ih)

-- An address in a word: twelve zero bytes, then the address.
address_word-eq : (a : List ℕ) → IsAddress a → address_word a ≡ replicate 12 0 ++ a
unfolding address_word
address_word-eq a h =
    let full : 12 + length a ≡ 32 = omega (arith, h.size) in
    rw full (ap (λ t. replicate 12 0 ++ t) (append-nil a))

pub address_word-IsWord : (a : List ℕ) → IsAddress a → IsWord (address_word a)
address_word-IsWord a h =
    rw (address_word-eq a h) (IsArray-append (replicate 12 0) a (zeros-IsArray 12) h)

-- The words of `abi.encode(PROOF_TYPEHASH, chainId, ..., nonce)`.
abbrev pub proof_words : ProofInputs → List (List ℕ)
proof_words inputs =
    proof_typehash
    ∷ inputs.chain_id
    ∷ (replicate 12 0 ++ inputs.mining_core)
    ∷ proof_version
    ∷ inputs.challenge_id
    ∷ inputs.challenge
    ∷ (replicate 12 0 ++ inputs.miner)
    ∷ inputs.nonce
    ∷ []

abbrev pub challenge_words : ChallengeInputs → List (List ℕ)
challenge_words inputs =
    challenge_typehash
    ∷ inputs.chain_id
    ∷ (replicate 12 0 ++ inputs.mining_core)
    ∷ proof_version
    ∷ inputs.challenge_id
    ∷ inputs.previous_accepted_digest
    ∷ inputs.seed_parent_block
    ∷ inputs.seed_blockhash
    ∷ []

zero_words : List (List ℕ)
zero_words = replicate 8 (replicate 32 0)

zero_words-size : All (HasSize 32) zero_words
unfolding zero_words
zero_words-size = omega arith

write_zero_words :
    (new : List (List ℕ))
    → length new ≡ 8
    → All (HasSize 32) new
    → write_words (replicate preimage_bytes 0) 0 new ≡ join new
unfolding zero_words
write_zero_words new e h = write_words-join [] zero_words new (omega arith) tt zero_words-size h

padded_size : (a : List ℕ) → IsAddress a → length (replicate 12 0 ++ a) ≡ 32
padded_size a h = omega (arith, h.size)

pub proof_words-size :
    (inputs : ProofInputs) → IsProofInputs inputs → All (HasSize 32) (proof_words inputs)
proof_words-size inputs h = omega (
  arith, h.chain_id.size, h.mining_core.size, h.challenge_id.size, h.challenge.size, h.miner.size,
  h.nonce.size,
)

pub challenge_words-size :
    (inputs : ChallengeInputs)
    → IsChallengeInputs inputs
    → All (HasSize 32) (challenge_words inputs)
challenge_words-size inputs h = omega (
  arith, h.chain_id.size, h.mining_core.size, h.challenge_id.size, h.previous_accepted_digest.size,
  h.seed_parent_block.size, h.seed_blockhash.size,
)

-- The code's own writes, in its order.
proof_writes :
    (inputs : ProofInputs)
    → proof_preimage inputs
      ≡ write_words (replicate preimage_bytes 0) 0 (
          proof_typehash
          ∷ inputs.chain_id
          ∷ address_word inputs.mining_core
          ∷ proof_version
          ∷ inputs.challenge_id
          ∷ inputs.challenge
          ∷ address_word inputs.miner
          ∷ inputs.nonce
          ∷ [])
unfolding write_words proof_preimage
proof_writes inputs = refl

challenge_writes :
    (inputs : ChallengeInputs)
    → challenge_preimage inputs
      ≡ write_words (replicate preimage_bytes 0) 0 (
          challenge_typehash
          ∷ inputs.chain_id
          ∷ address_word inputs.mining_core
          ∷ proof_version
          ∷ inputs.challenge_id
          ∷ inputs.previous_accepted_digest
          ∷ inputs.seed_parent_block
          ∷ inputs.seed_blockhash
          ∷ [])
unfolding write_words challenge_preimage
challenge_writes inputs = refl

-- For inputs of the field types, the proof preimage is the eight ABI words in a row.
pub proof_preimage-join :
    (inputs : ProofInputs)
    → IsProofInputs inputs
    → proof_preimage inputs ≡ join (proof_words inputs)
proof_preimage-join inputs h =
    rw
      (
        proof_writes inputs,
        address_word-eq inputs.mining_core h.mining_core,
        address_word-eq inputs.miner h.miner,
      )
      (write_zero_words (proof_words inputs) refl (proof_words-size inputs h))

pub challenge_preimage-join :
    (inputs : ChallengeInputs)
    → IsChallengeInputs inputs
    → challenge_preimage inputs ≡ join (challenge_words inputs)
challenge_preimage-join inputs h =
    rw (challenge_writes inputs, address_word-eq inputs.mining_core h.mining_core)
      (write_zero_words (challenge_words inputs) refl (challenge_words-size inputs h))
