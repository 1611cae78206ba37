-- ===== src/Keccak.antt =====
-- The `sha3` crate's `Keccak256`, which the repository calls and does not implement: a parameter
-- of every definition that hashes. What the code relies on is that hashing in pieces is hashing
-- the whole, and that a digest has 32 bytes.
use proof_hunter_miner.Base.{◌≡◌, List, ◌++◌, ℕ}
use proof_hunter_miner.Word.{Digest, IsWord}

pub record Keccak : Type 1 where
  pub State : Type 0
  pub new : State
  pub update : State → List ℕ → State
  pub finalize : State → List ℕ
  pub update_pieces :
      (front back : List ℕ)
      → finalize (update (update new front) back) ≡ finalize (update new (front ++ back))
  pub finalize-IsWord : (s : State) → IsWord (finalize s)

-- `keccak256`: `Keccak256::digest`, which is `new`, one `update` and `finalize`.
unfoldable pub keccak256 : Keccak → List ℕ → Digest
keccak256 k input = k.finalize (k.update k.new input)
