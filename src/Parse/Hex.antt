-- ===== src/Parse/Hex.antt =====
-- The hexadecimal readers and the writer of crates/bproof/src/parse.rs.
use native.Mathlib.Nat.{pow-suc}
use proof_hunter_miner.Base.{
  [], ℕ, zero, suc, ◌+◌, ◌*◌, ◌/◌, ◌%◌, ◌^◌, ◌<◌, ◌≡◌, refl, ap, ◌∙◌, subst, Bool, true, false,
  none, some, List, ◌∷◌, arith, ◌==◌, ==_iff, >>=-ok, ok-injective, everywhere_below,
  everywhere_below-at, ok, err, ◌>>=◌, length, All,
}
use proof_hunter_miner.Bytes.{IsByte, IsArray, value, value-zeros}
use proof_hunter_miner.Parse.{
  hex_nibble, nibble, hex_pairs, strip_0x, parse_hex_exact, parse_hex_bytes, hex_digit, hex_body,
  hex_string,
}

-- Reading the digit of `n` gives `n`, as a test.
reads_back : ℕ → Bool
reads_back n = elim (nibble (hex_digit n)) [ err _ ↦ false | ok m ↦ m == n ]

reads_back-eq : (n : ℕ) → reads_back n ≡ true → nibble (hex_digit n) ≡ ok n
unfolding reads_back
reads_back-eq n e = ground arith

-- The digit written for a nibble is read as that nibble.
nibble-hex_digit : (n : ℕ) → n < 16 → nibble (hex_digit n) ≡ ok n
unfolding reads_back nibble hex_digit everywhere_below
nibble-hex_digit n h = reads_back-eq n (everywhere_below-at 16 reads_back n refl h)

hex_pairs-cons :
    (h l a b : ℕ) (rest : List ℕ)
    → nibble h ≡ ok a
    → nibble l ≡ ok b
    → hex_pairs (h ∷ (l ∷ rest)) ≡ (hex_pairs rest >>= λ bytes. ok ((a * 16 + b) ∷ bytes))
unfolding hex_pairs
hex_pairs-cons h l a b rest ha hb = rw (ha, hb)

-- The pairs of digits written for bytes are read as those bytes.
pub hex_pairs-hex_body : (bytes : List ℕ) → All IsByte bytes → hex_pairs (hex_body bytes) ≡ ok bytes
unfolding hex_body
hex_pairs-hex_body [] h = unfold hex_pairs in refl
hex_pairs-hex_body (b ∷ bytes) (hb, h) =
    hex_pairs-cons (hex_digit (b / 16)) (hex_digit (b % 16)) (b / 16) (b % 16) (hex_body bytes)
      (nibble-hex_digit (b / 16) (omega arith)) (nibble-hex_digit (b % 16) (omega arith))
    ∙ rw (hex_pairs-hex_body bytes h) (ap (λ (t : ℕ). ok (t ∷ bytes)) (omega arith))

length-hex_body : (bytes : List ℕ) → length (hex_body bytes) ≡ length bytes * 2
unfolding hex_body
length-hex_body [] = refl
length-hex_body (b ∷ bytes) = omega (arith, length-hex_body bytes)

-- On every array of bytes `hex_string` is undone by both readers, at the array's own length and as
-- plain bytes.
pub parse_hex-hex_string :
    (n : ℕ) (bytes : List ℕ)
    → IsArray n bytes
    → (parse_hex_exact n (hex_string bytes) ≡ ok bytes)
      × (parse_hex_bytes (hex_string bytes) ≡ ok bytes)
unfolding parse_hex_exact parse_hex_bytes hex_string strip_0x
parse_hex-hex_string n bytes h =
    let size : length (hex_body bytes) ≡ n * 2 = omega (arith, length-hex_body bytes, h.size) in
    let exact = (==_iff (length (hex_body bytes)) (n * 2)).1 size in
    let even = (==_iff (length (hex_body bytes) % 2) 0).1 (omega (arith, size)) in
    let read = hex_pairs-hex_body bytes h.bytes in (rw exact read, rw even read)

IsByte-nibble : (h a : ℕ) → nibble h ≡ ok a → a < 16
unfolding nibble hex_nibble
IsByte-nibble h a e = ground arith

pub value_cons : (x : ℕ) (xs : List ℕ) → value (x ∷ xs) ≡ x * 256 ^ length xs + value xs
unfolding value
value_cons x xs = refl

pub nibble_value : ℕ → ℕ
nibble_value c = elim (hex_nibble c) [ none ↦ 0 | some n ↦ n ]

-- The number that hexadecimal digits write.
pub hexadecimal : List ℕ → ℕ
hexadecimal [] = 0
hexadecimal (c ∷ cs) = nibble_value c * 16 ^ length cs + hexadecimal cs

pub hexadecimal_cons :
    (c : ℕ) (cs : List ℕ) → hexadecimal (c ∷ cs) ≡ nibble_value c * 16 ^ length cs + hexadecimal cs
unfolding hexadecimal
hexadecimal_cons c cs = refl

pub nibble-nibble_value : (c n : ℕ) → nibble c ≡ ok n → (nibble_value c ≡ n) × (n < 16)
unfolding nibble_value nibble hex_nibble
nibble-nibble_value c n e = ground arith

pub pow_sixteen : (n : ℕ) → 16 ^ (n * 2) ≡ 256 ^ n
pow_sixteen zero = refl
pow_sixteen (suc n) =
    let e : suc n * 2 ≡ suc (suc (n * 2)) = omega arith in
    rw (e, pow-suc 16 (suc (n * 2)), pow-suc 16 (n * 2), pow-suc 256 n, pow_sixteen n) (omega arith)

-- Accepted pairs give an array of half their length, for the number that they write.
pub hex_pairs-value :
    (text bytes : List ℕ) (n : ℕ)
    → length text ≡ n * 2
    → hex_pairs text ≡ ok bytes
    → IsArray n bytes × (value bytes ≡ hexadecimal text)
unfolding hex_pairs hexadecimal
hex_pairs-value [] bytes n size e =
    let none_left : n ≡ 0 = omega arith in
    let empty : [] ≡ bytes = ok-injective e in
    (
      rw none_left (subst (IsArray 0) empty (record { size = refl; bytes = tt })),
      subst (λ t. value t ≡ 0) empty (value-zeros 0),
    )
hex_pairs-value (h ∷ []) bytes n size e = absurd (omega arith)
hex_pairs-value (h ∷ (l ∷ rest)) bytes zero size e = absurd (omega arith)
hex_pairs-value (h ∷ (l ∷ rest)) bytes (suc n) size e =
    let (a, ha, e1) = >>=-ok (nibble h) _ e in
    let (b, hb, e2) = >>=-ok (nibble l) _ e1 in
    let (bs, hbs, e3) = >>=-ok (hex_pairs rest) _ e2 in
    let (array, number) = hex_pairs-value rest bs n (omega arith) hbs in
    let (va, la) = nibble-nibble_value h a ha in
    let (vb, lb) = nibble-nibble_value l b hb in
    let rest_size : length rest ≡ n * 2 = omega arith in
    let whole : ((a * 16 + b) ∷ bs) ≡ bytes = ok-injective e3 in
    (
      subst (IsArray (suc n)) whole
          (record { size = omega (arith, array.size); bytes = (omega arith, array.bytes) }),
      subst
          (λ t.
            value t
            ≡ nibble_value h * 16 ^ suc (length rest)
              + (nibble_value l * 16 ^ length rest + hexadecimal rest))
          whole
          (rw
            (
              va,
              vb,
              pow-suc,
              rest_size,
              pow_sixteen n,
              value_cons (a * 16 + b) bs,
              array.size,
              number,
            )
            (omega arith)),
    )
