-- ===== src/Word.antt =====
-- crates/proof-core/src/proof.rs: the newtypes over byte arrays (`Uint256`, `Address`, `Digest`,
-- `Target`), their constants and `Uint256` arithmetic. The newtypes wrap one array each and add
-- no invariant, so a value of each is the list of its bytes; `IsWord` and `IsAddress` say what the
-- array type `[u8; N]` says in the source.
use native.Mathlib.Nat.{pow-suc, div-add-mod}
use proof_hunter_miner.Base.{
  [], ℕ, zero, suc, ◌+◌, ◌*◌, ◌/◌, ◌%◌, ◌^◌, ◌≤◌, ◌<◌, ◌≡◌, refl, sym, ap, ◌∙◌, List, ◌∷◌, ◌++◌,
  arith, ltb, if◌then◌else◌, lt→ltb, Result, ok, err, length, replicate, All, length-append,
  length-replicate, All-append, All-replicate,
}
use proof_hunter_miner.Bytes.{
  value-injective, IsByte, IsArray, value, value-lt, value-append, value-zeros, pow-length,
}

abbrev pub Uint256 : Type 0
Uint256 = List ℕ

abbrev pub Digest : Type 0
Digest = List ℕ

abbrev pub Target : Type 0
Target = List ℕ

abbrev pub Address : Type 0
Address = List ℕ

abbrev pub IsWord : List ℕ → Type 0
IsWord = IsArray 32

abbrev pub IsAddress : List ℕ → Type 0
IsAddress = IsArray 20

-- `uN::to_be_bytes`, for N = 8 * n.
unfoldable pub to_be_bytes : ℕ → ℕ → List ℕ
to_be_bytes zero v = []
to_be_bytes (suc n) v = to_be_bytes n (v / 256) ++ (v % 256 ∷ [])

-- `Uint256::ZERO` and `Uint256::ONE`.
abbrev pub word_zero : Uint256
word_zero = replicate 32 0

abbrev pub word_one : Uint256
word_one = replicate 31 0 ++ (1 ∷ [])

-- `From<u64>` and `From<u128>`.
unfoldable pub from_u64 : ℕ → Uint256
unfolding to_be_bytes
from_u64 v = replicate 24 0 ++ to_be_bytes 8 v

unfoldable pub from_u128 : ℕ → Uint256
unfolding to_be_bytes
from_u128 v = replicate 16 0 ++ to_be_bytes 16 v

-- The `while index > 0` loop of `wrapping_add`: the last index is done first, and each round hands
-- its `u16` carry to the index before.
unfoldable pub add_loop : List ℕ → List ℕ → ℕ × List ℕ
add_loop [] ys = (0, [])
add_loop (x ∷ xs) [] = (0, [])
add_loop (x ∷ xs) (y ∷ ys) =
    let (carry, result) = add_loop xs ys in
    let sum = (x + y + carry) % 2 ^ 16 in (sum / 256, sum % 256 ∷ result)

unfoldable pub wrapping_add : Uint256 → Uint256 → Uint256
unfolding add_loop
wrapping_add self rhs = (add_loop self rhs).1

pub value-to_be_bytes : (n v : ℕ) → v < 256 ^ n → value (to_be_bytes n v) ≡ v
unfolding to_be_bytes value
value-to_be_bytes zero v h = omega arith
value-to_be_bytes (suc n) v h =
    let h' : v < 256 ^ n * 256 = rw pow-suc at h in
    rw (value-append (to_be_bytes n (v / 256)) (v % 256 ∷ []))
      (omega (arith, value-to_be_bytes n (v / 256) (omega arith)))

pub to_be_bytes-IsArray : (n v : ℕ) → IsArray n (to_be_bytes n v)
unfolding to_be_bytes
to_be_bytes-IsArray zero v = record { size = refl; bytes = tt }
to_be_bytes-IsArray (suc n) v =
    let ih = to_be_bytes-IsArray n (v / 256) in
    record {
      size = omega (arith, ih.size, length-append (to_be_bytes n (v / 256)) (v % 256 ∷ []));
      bytes = All-append IsByte (to_be_bytes n (v / 256)) (v % 256 ∷ []) ih.bytes (omega arith);
    }

pub IsArray-append :
    {m n : ℕ} (xs ys : List ℕ) → IsArray m xs → IsArray n ys → IsArray (m + n) (xs ++ ys)
IsArray-append xs ys hx hy = record {
  size = omega (arith, length-append xs ys, hx.size, hy.size);
  bytes = All-append IsByte xs ys hx.bytes hy.bytes;
}

pub zeros-IsArray : (n : ℕ) → IsArray n (replicate n 0)
zeros-IsArray n = record {
  size = length-replicate n 0;
  bytes = All-replicate IsByte n 0 (omega arith);
}

pub from_u64-IsWord : (v : ℕ) → IsWord (from_u64 v)
unfolding from_u64
from_u64-IsWord v =
    IsArray-append (replicate 24 0) (to_be_bytes 8 v) (zeros-IsArray 24) (to_be_bytes-IsArray 8 v)

pub from_u128-IsWord : (v : ℕ) → IsWord (from_u128 v)
unfolding from_u128
from_u128-IsWord v =
    IsArray-append (replicate 16 0) (to_be_bytes 16 v) (zeros-IsArray 16) (to_be_bytes-IsArray 16 v)

pub value-zeros-append : (n : ℕ) (xs : List ℕ) → value (replicate n 0 ++ xs) ≡ value xs
value-zeros-append n xs = rw (value-append (replicate n 0) xs, value-zeros n) (omega arith)

pub value-from_u64 : (v : ℕ) → v < 2 ^ 64 → value (from_u64 v) ≡ v
unfolding from_u64
value-from_u64 v h = value-zeros-append 24 (to_be_bytes 8 v) ∙ value-to_be_bytes 8 v h

pub value-from_u128 : (v : ℕ) → v < 2 ^ 128 → value (from_u128 v) ≡ v
unfolding from_u128
value-from_u128 v h = value-zeros-append 16 (to_be_bytes 16 v) ∙ value-to_be_bytes 16 v h

pub IsArray-lt : {n : ℕ} (xs : List ℕ) → IsArray n xs → value xs < 256 ^ n
IsArray-lt xs h = rw h.size at (value-lt xs h.bytes)

pub IsWord-lt : (w : List ℕ) → IsWord w → value w < 2 ^ 256
IsWord-lt w h = IsArray-lt w h

pub record IsSum (xs ys : List ℕ) (carry : ℕ) (result : List ℕ) : Type 0 where
  pub exact : carry * 256 ^ length xs + value result ≡ value xs + value ys
  pub carry_bit : carry ≤ 1
  pub array : IsArray (length xs) result

-- The loop writes the exact sum, its top part in the last carry.
add_loop-IsSum :
    (xs ys : List ℕ)
    → length xs ≡ length ys
    → All IsByte xs
    → All IsByte ys
    → IsSum xs ys (add_loop xs ys).0 (add_loop xs ys).1
unfolding add_loop value
add_loop-IsSum [] [] e hx hy = record {
  exact = omega arith;
  carry_bit = omega arith;
  array = record { size = refl; bytes = tt };
}
add_loop-IsSum [] (y ∷ ys) e hx hy = absurd (omega arith)
add_loop-IsSum (x ∷ xs) [] e hx hy = absurd (omega arith)
add_loop-IsSum (x ∷ xs) (y ∷ ys) e (hx, bx) (hy, b_y) =
    let ih = add_loop-IsSum xs ys (omega arith) bx b_y in
    let (c, r) = add_loop xs ys in
    let s = x + y + c in
    let p = 256 ^ length xs in
    let small : s % 2 ^ 16 ≡ s = omega arith in
    record {
      exact =
          rw
            (
              small,
              pow-suc 256 (length xs),
              pow-length r xs ih.array.size,
              pow-length ys xs (omega arith),
            )
            (omega (arith, ih.exact, ap (λ (t : ℕ). t * p) (div-add-mod s 256)));
      carry_bit = omega arith;
      array = record { size = omega (arith, ih.array.size); bytes = (omega arith, ih.array.bytes) };
    }

pub wrap_carry : (c r m : ℕ) → r < m → (c * m + r) % m ≡ r
wrap_carry c r m h = grind arith

-- On words, `wrapping_add` is addition modulo 2^256, and its result is a word again.
pub wrapping_add-mod :
    (a b : Uint256)
    → IsWord a
    → IsWord b
    → (value (wrapping_add a b) ≡ (value a + value b) % 2 ^ 256) × IsWord (wrapping_add a b)
unfolding wrapping_add
wrapping_add-mod a b ha hb =
    let h = add_loop-IsSum a b (omega arith) ha.bytes hb.bytes in
    let r = (add_loop a b).1 in
    let word : IsWord r = record { size = omega (arith, h.array.size); bytes = h.array.bytes } in
    let exact : (add_loop a b).0 * 2 ^ 256 + value r ≡ value a + value b = rw ha.size at h.exact in
    (rw (← exact) (sym (wrap_carry (add_loop a b).0 (value r) (2 ^ 256) (IsWord-lt r word))), word)

pub word-to_be_bytes : (w : Uint256) → IsWord w → w ≡ to_be_bytes 32 (value w)
word-to_be_bytes w h =
    let b = to_be_bytes-IsArray 32 (value w) in
    value-injective w (to_be_bytes 32 (value w)) (h.size ∙ sym b.size) h.bytes b.bytes
      (sym (value-to_be_bytes 32 (value w) (IsWord-lt w h)))

-- The answer that a number deserves where a word is wanted: its word, or an error if it has none.
abbrev pub word_or {ℓ} : {E : Type ℓ} → E → ℕ → Result E Uint256
word_or e n = if ltb n (2 ^ 256) then ok (to_be_bytes 32 n) else err e

module _ {ℓ} {E : Type ℓ} (e : E) where
  pub word_or-word : (w : Uint256) (n : ℕ) → IsWord w → n ≡ value w → ok w ≡ word_or e n
  word_or-word w n h p =
      rw (p, lt→ltb (value w) (2 ^ 256) (IsWord-lt w h)) (ap ok (word-to_be_bytes w h))

  pub word_or-large : (n : ℕ) → 2 ^ 256 ≤ n → err e ≡ word_or e n
  word_or-large n h = ground arith
