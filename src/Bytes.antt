-- ===== src/Bytes.antt =====
-- Byte arrays, most significant byte first, the order in which `derive(Ord)` compares them, and
-- the number that an array stands for.
use Prim.Native.Nat.{compare, Ordering}
use native.Mathlib.Nat.{pow-suc, zero-add, suc-add}
use proof_hunter_miner.Base.{
  [], ℕ, zero, suc, ◌+◌, ◌*◌, ◌^◌, ◌≤◌, ◌<◌, ◌≡◌, refl, sym, ap, ◌∙◌, ◌↔◌, inl, inr, Bool, true,
  false, ◌&&◌, List, ◌∷◌, ◌++◌, arith, ltb, leb, ◌==◌, ==_iff, Bool-cases, and-true, length, take,
  drop, replicate, All, length-append, length-take, length-drop, take-append-drop, All-take,
  All-drop,
}

-- `u8`, and `[u8; n]` as a list of length `n`.
abbrev pub IsByte : ℕ → Type 0
IsByte b = b < 256

pub record IsArray (n : ℕ) (xs : List ℕ) : Type 0 where
  pub size : length xs ≡ n
  pub bytes : All IsByte xs

-- The number that the bytes write in base 256.
unfoldable pub value : List ℕ → ℕ
value [] = 0
value (x ∷ xs) = x * 256 ^ length xs + value xs

-- `Ord` on arrays: the first difference decides.
unfoldable pub compare_bytes : List ℕ → List ℕ → Ordering
compare_bytes [] [] = Ordering.eq
compare_bytes [] (y ∷ ys) = Ordering.lt
compare_bytes (x ∷ xs) [] = Ordering.gt
compare_bytes (x ∷ xs) (y ∷ ys) = elim (compare x y) [
  | Ordering.lt ↦ Ordering.lt
  | Ordering.eq ↦ compare_bytes xs ys
  | Ordering.gt ↦ Ordering.gt
]

unfoldable pub bytes_leb : List ℕ → List ℕ → Bool
unfolding compare_bytes
bytes_leb xs ys = elim (compare_bytes xs ys) [ Ordering.gt ↦ false | _ ↦ true ]

unfoldable pub bytes_ltb : List ℕ → List ℕ → Bool
unfolding compare_bytes
bytes_ltb xs ys = elim (compare_bytes xs ys) [ Ordering.lt ↦ true | _ ↦ false ]

pub pow_pos : (n : ℕ) → 1 ≤ 256 ^ n
pow_pos zero = omega arith
pow_pos (suc n) = rw pow-suc (omega (arith, pow_pos n))

-- An array stands for a number below 256 to its length.
pub value-lt : (xs : List ℕ) → All IsByte xs → value xs < 256 ^ length xs
unfolding value
value-lt [] h = omega arith
value-lt (x ∷ xs) (hx, h) =
    let ih : value xs < 256 ^ length xs = value-lt xs h in rw pow-suc (grind arith)

pub pow_add : (m n : ℕ) → 256 ^ (m + n) ≡ 256 ^ m * 256 ^ n
pow_add zero n = rw zero-add (omega arith)
pow_add (suc m) n = rw (suc-add, pow-suc 256 (m + n), pow-suc 256 m, pow_add m n) (omega arith)

pub value-append : (xs ys : List ℕ) → value (xs ++ ys) ≡ value xs * 256 ^ length ys + value ys
unfolding value
value-append [] ys = omega arith
value-append (x ∷ xs) ys =
    rw (length-append xs ys, pow_add (length xs) (length ys), value-append xs ys) (omega arith)

pub value-zeros : (n : ℕ) → value (replicate n 0) ≡ 0
unfolding value
value-zeros zero = refl
value-zeros (suc n) = omega (arith, value-zeros n)

digit_lt : (x y a b p : ℕ) → x < y → a < p → x * p + a < y * p + b
digit_lt x y a b p h k = grind arith

-- On arrays of one length the lexicographic order is the order of the numbers.
pub compare_bytes-value :
    (xs ys : List ℕ)
    → length xs ≡ length ys
    → All IsByte xs
    → All IsByte ys
    → compare_bytes xs ys ≡ compare (value xs) (value ys)
unfolding compare_bytes value
compare_bytes-value [] [] e hx hy = refl
compare_bytes-value [] (y ∷ ys) e hx hy = absurd (omega arith)
compare_bytes-value (x ∷ xs) [] e hx hy = absurd (omega arith)
compare_bytes-value (x ∷ xs) (y ∷ ys) e (hx, bx) (hy, b_y) =
    let ih = compare_bytes-value xs ys (omega arith) bx b_y in
    let p = 256 ^ length xs in
    let same : 256 ^ length ys ≡ p = ap (λ (n : ℕ). 256 ^ n) (omega arith) in
    rw same (
      ground (
        arith,
        digit_lt x y (value xs) (value ys) p,
        digit_lt y x (value ys) (value xs) p,
        value-lt xs bx,
        rw same at (value-lt ys b_y),
      ))

pub bytes_leb-value :
    (xs ys : List ℕ)
    → length xs ≡ length ys
    → All IsByte xs
    → All IsByte ys
    → bytes_leb xs ys ≡ leb (value xs) (value ys)
unfolding bytes_leb
bytes_leb-value xs ys e hx hy = rw (compare_bytes-value xs ys e hx hy, bytes_leb) (ground arith)

pub bytes_ltb-value :
    (xs ys : List ℕ)
    → length xs ≡ length ys
    → All IsByte xs
    → All IsByte ys
    → bytes_ltb xs ys ≡ ltb (value xs) (value ys)
unfolding bytes_ltb
bytes_ltb-value xs ys e hx hy = rw (compare_bytes-value xs ys e hx hy, bytes_ltb) (ground arith)

digit_eq : (x y a b p : ℕ) → a < p → b < p → x * p + a ≡ y * p + b → x ≡ y
digit_eq x y a b p ha hb e = grind arith

-- Arrays of one length that stand for one number are equal.
pub value-injective :
    (xs ys : List ℕ)
    → length xs ≡ length ys
    → All IsByte xs
    → All IsByte ys
    → value xs ≡ value ys
    → xs ≡ ys
unfolding value
value-injective [] [] e hx hy v = refl
value-injective [] (y ∷ ys) e hx hy v = absurd (omega arith)
value-injective (x ∷ xs) [] e hx hy v = absurd (omega arith)
value-injective (x ∷ xs) (y ∷ ys) e (hx, bx) (hy, b_y) v =
    let p = 256 ^ length xs in
    let same : 256 ^ length ys ≡ p = ap (λ (n : ℕ). 256 ^ n) (omega arith) in
    let v' : x * p + value xs ≡ y * p + value ys = rw same at v in
    let head : x ≡ y =
      digit_eq x y (value xs) (value ys) p (value-lt xs bx) (rw same at (value-lt ys b_y)) v' in
    let rest : value xs ≡ value ys = omega (arith, ap (λ (t : ℕ). t * p) head) in
    cc (head, value-injective xs ys (omega arith) bx b_y rest)

-- The power that the first byte of an array counts, read off another array of its length.
pub pow-length : (xs ys : List ℕ) → length xs ≡ length ys → 256 ^ length xs ≡ 256 ^ length ys
pow-length xs ys e = ap (λ (n : ℕ). 256 ^ n) e

-- `bytes.iter().all(|byte| *byte == 0)`.
abbrev pub all_zero : List ℕ → Bool
all_zero [] = true
all_zero (b ∷ bs) = b == 0 && all_zero bs

pub all_zero-value :
    (xs : List ℕ)
    → All IsByte xs
    → (all_zero xs ≡ true → value xs ≡ 0) × (all_zero xs ≡ false → 0 < value xs)
unfolding value
all_zero-value [] h = ((λ e. refl), (λ e. cc))
all_zero-value (x ∷ xs) (hx, h) =
    let ih = all_zero-value xs h in
    let p = 256 ^ length xs in
    let positive : 0 < x → 0 < x * p = λ lt. grind (arith, pow_pos (length xs)) in
    (ground (arith, ih.0), ground (arith, ih.1, positive))

pub all_zero_iff : (xs : List ℕ) → All IsByte xs → (all_zero xs ≡ true) ↔ (value xs ≡ 0)
all_zero_iff xs h =
    let (zero_if, positive_if) = all_zero-value xs h in
    (
      zero_if,
      λ e. elim (Bool-cases (all_zero xs)) [
        | inl done ↦ done
        | inr more ↦ absurd (omega (arith, positive_if more))
      ],
    )

-- An array cut in two: its number, and the parts' sizes.
pub record IsCut (k n : ℕ) (xs : List ℕ) : Type 0 where
  pub number : value xs ≡ value (take k xs) * 256 ^ n + value (drop k xs)
  pub front : IsArray k (take k xs)
  pub back : IsArray n (drop k xs)

pub IsArray-IsCut : (k n : ℕ) (xs : List ℕ) → IsArray (k + n) xs → IsCut k n xs
IsArray-IsCut k n xs h =
    let size : length (drop k xs) ≡ n = omega (arith, length-drop k xs, h.size) in
    record {
      number =
          ap value (sym (take-append-drop k xs)) ∙ rw (value-append (take k xs) (drop k xs), size);
      front = record {
        size = omega (arith, length-take k xs, h.size);
        bytes = All-take IsByte k xs h.bytes;
      };
      back = record { size = size; bytes = All-drop IsByte k xs h.bytes };
    }

-- The derived `==` of byte arrays and of texts.
unfoldable pub same_bytes : List ℕ → List ℕ → Bool
same_bytes [] [] = true
same_bytes [] (y ∷ ys) = false
same_bytes (x ∷ xs) [] = false
same_bytes (x ∷ xs) (y ∷ ys) = x == y && same_bytes xs ys

pub same_bytes_iff : (xs ys : List ℕ) → (same_bytes xs ys ≡ true) ↔ (xs ≡ ys)
unfolding same_bytes
same_bytes_iff [] [] = (λ _. refl, λ _. refl)
same_bytes_iff [] (y ∷ ys) = (λ h. absurd cc, λ h. absurd cc)
same_bytes_iff (x ∷ xs) [] = (λ h. absurd cc, λ h. absurd cc)
same_bytes_iff (x ∷ xs) (y ∷ ys) =
    let ih = same_bytes_iff xs ys in
    (
      λ h.
          let (a, b) = and-true (x == y) (same_bytes xs ys) h in
          let e : x ≡ y = (==_iff x y).0 a in let es : xs ≡ ys = ih.0 b in cc (e, es),
      λ e.
          let a : (x == y) ≡ true = (==_iff x y).1 cc in
          let b : same_bytes xs ys ≡ true = ih.1 cc in rw (a, b) refl,
    )
