-- ===== src/Transaction/Rlp.antt =====
-- Reading back the RLP of crates/bproof/src/transaction.rs.
use proof_hunter_miner.Base.{
  [], ℕ, ◌+◌, ◌-◌, ◌%◌, ◌^◌, ◌≤◌, ◌<◌, ◌≡◌, refl, sym, ap, ◌∙◌, subst, ◌⊎◌, inl, inr, true, false,
  List, ◌∷◌, ◌++◌, append_assoc, arith, ltb, if◌then◌else◌, ltb→lt, not_ltb, Bool-cases, length,
  take, drop, All, take-append_left, drop-append_left,
}
use proof_hunter_miner.Bytes.{value-injective, IsByte, value}
use proof_hunter_miner.Word.{IsWord, to_be_bytes, value-to_be_bytes, to_be_bytes-IsArray}
use proof_hunter_miner.Transaction.{is_small_byte, skip_zeros, rlp_length, rlp_bytes, rlp_integer}

pub value-skip_zeros : (xs : List ℕ) → value (skip_zeros xs) ≡ value xs
unfolding skip_zeros value
value-skip_zeros [] = refl
value-skip_zeros (x ∷ xs) = ground (arith, value-skip_zeros xs)

length-skip_zeros : (xs : List ℕ) → length (skip_zeros xs) ≤ length xs
unfolding skip_zeros
length-skip_zeros [] = omega arith
length-skip_zeros (x ∷ xs) = ground (arith, length-skip_zeros xs)

length_bytes-le : (size : ℕ) → length (skip_zeros (to_be_bytes 8 size)) ≤ 8
length_bytes-le size =
    subst (λ t. length (skip_zeros (to_be_bytes 8 size)) ≤ t) (to_be_bytes-IsArray 8 size).size
      (length-skip_zeros (to_be_bytes 8 size))

-- How a reader takes the size off a string or a list whose first byte is at least `offset`.
pub read_size : ℕ → List ℕ → ℕ × List ℕ
read_size offset [] = (0, [])
read_size offset (b ∷ bs) =
    if ltb (b - offset) 56
    then (b - offset, bs)
    else (value (take (b - offset - 55) bs), drop (b - offset - 55) bs)

-- How a reader takes a string off the front of a sequence of encodings.
unfoldable pub read_string : List ℕ → List ℕ × List ℕ
read_string [] = ([], [])
read_string (b ∷ bs) =
    let (size, rest) = read_size 0x80 (b ∷ bs) in
    if ltb b 0x80 then (b ∷ [], bs) else (take size rest, drop size rest)

long_size :
    (offset size n : ℕ) (bs rest : List ℕ)
    → length bs ≡ n
    → 1 ≤ n
    → n ≤ 8
    → offset ≤ 0xc0
    → value bs ≡ size
    → read_size offset ((offset + 55 + n) % 256 ∷ (bs ++ rest)) ≡ (size, rest)
unfolding read_size
long_size offset size n bs rest hn lo hi ho hv =
    let e : (offset + 55 + n) % 256 - offset ≡ 55 + n = omega arith in
    let e' : 55 + n - 55 ≡ n = omega arith in
    rw (
      e,
      not_ltb (55 + n) 56 (omega arith),
      e',
      take-append_left bs rest n hn,
      drop-append_left bs rest n hn,
      hv,
    )

size_positive : (bs : List ℕ) (size : ℕ) → value bs ≡ size → ltb size 56 ≡ false → 1 ≤ length bs
unfolding value
size_positive [] size v f = absurd (ground (arith, v, f))
size_positive (b ∷ bs) size v f = omega arith

pub read_size-rlp_length :
    (offset size : ℕ) (rest : List ℕ)
    → offset ≤ 0xc0
    → size < 2 ^ 64
    → read_size offset (rlp_length size offset ++ rest) ≡ (size, rest)
unfolding rlp_length read_size
read_size-rlp_length offset size rest ho h =
    let full = to_be_bytes 8 size in
    let v : value (skip_zeros full) ≡ size = value-skip_zeros full ∙ value-to_be_bytes 8 size h in
    let le = length_bytes-le size in
    elim (Bool-cases (ltb size 56)) [
      | inl t ↦
          let lt = ltb→lt size 56 t in
          let e : (offset + size) % 256 - offset ≡ size = omega arith in rw (t, e, t) refl
      | inr f ↦ rw f (
          long_size offset size (length (skip_zeros full)) (skip_zeros full) rest refl
            (size_positive (skip_zeros full) size v f) le ho v)
    ]

is_small-cases :
    (bs : List ℕ) → (is_small_byte bs ≡ false) ⊎ ((b : ℕ) × (bs ≡ b ∷ []) × (ltb b 0x80 ≡ true))
is_small-cases [] = inl refl
is_small-cases (b ∷ []) = elim (Bool-cases (ltb b 0x80)) [
  | inl t ↦ inr (b, refl, t)
  | inr f ↦ inl f
]
is_small-cases (b ∷ (c ∷ bs)) = inl refl

-- The size of a string starts with a byte of at least 0x80.
high_head :
    (size : ℕ) (rest : List ℕ)
    → (b : ℕ) × (bs : List ℕ) × (rlp_length size 0x80 ++ rest ≡ b ∷ bs) × (ltb b 0x80 ≡ false)
unfolding rlp_length
high_head size rest =
    let n = length (skip_zeros (to_be_bytes 8 size)) in
    let le = length_bytes-le size in
    elim (Bool-cases (ltb size 56)) [
      | inl t ↦
          let lt = ltb→lt size 56 t in
          ((0x80 + size) % 256, rest, rw t refl, not_ltb ((0x80 + size) % 256) 0x80 (omega arith))
      | inr f ↦ (
        (0x80 + 55 + n) % 256,
        skip_zeros (to_be_bytes 8 size) ++ rest,
        rw f refl,
        not_ltb ((0x80 + 55 + n) % 256) 0x80 (omega arith),
      )
    ]

read_high :
    (b : ℕ) (bs xs rest : List ℕ)
    → ltb b 0x80 ≡ false
    → read_size 0x80 (b ∷ bs) ≡ (length xs, xs ++ rest)
    → read_string (b ∷ bs) ≡ (xs, rest)
unfolding read_string
read_high b bs xs rest f e =
    rw (f, e, take-append_left xs rest (length xs) refl, drop-append_left xs rest (length xs) refl)

read_low : (b : ℕ) (rest : List ℕ) → ltb b 0x80 ≡ true → read_string (b ∷ rest) ≡ (b ∷ [], rest)
unfolding read_string
read_low b rest t = rw t refl

-- A string written by `rlp_bytes`, shorter than 2^64 bytes, reads back whatever follows it.
pub read_string-rlp_bytes :
    (bytes rest : List ℕ)
    → length bytes < 2 ^ 64
    → read_string (rlp_bytes bytes ++ rest) ≡ (bytes, rest)
unfolding read_string rlp_bytes
read_string-rlp_bytes bytes rest h = elim (is_small-cases bytes) [
  | inr (b, e, t) ↦ rw (e, t) (read_low b rest t)
  | inl f ↦
      let (b, bs, e, g) = high_head (length bytes) (bytes ++ rest) in
      let whole : rlp_bytes bytes ++ rest ≡ b ∷ bs =
        rw f (append_assoc (rlp_length (length bytes) 0x80) bytes rest ∙ e) in
      let size = read_size-rlp_length 0x80 (length bytes) (bytes ++ rest) (omega arith) h in
      rw whole (
        read_high b bs bytes rest g
          (subst (λ t. read_size 0x80 t ≡ (length bytes, bytes ++ rest)) e size))
]

pub skip_zeros-injective :
    (xs ys : List ℕ)
    → length xs ≡ length ys
    → All IsByte xs
    → All IsByte ys
    → skip_zeros xs ≡ skip_zeros ys
    → xs ≡ ys
skip_zeros-injective xs ys hl hx hy e =
    value-injective xs ys hl hx hy (sym (value-skip_zeros xs) ∙ ap value e ∙ value-skip_zeros ys)

-- Two encodings with something after each are equal only part by part.
pub rlp_bytes-append_injective :
    (xs ys r s : List ℕ)
    → length xs < 2 ^ 64
    → length ys < 2 ^ 64
    → rlp_bytes xs ++ r ≡ rlp_bytes ys ++ s
    → (xs ≡ ys) × (r ≡ s)
rlp_bytes-append_injective xs ys r s hx hy e =
    let same =
      sym (read_string-rlp_bytes xs r hx) ∙ ap read_string e ∙ read_string-rlp_bytes ys s hy in
    (ap (λ p. p.0) same, ap (λ p. p.1) same)

pub rlp_integer-append_injective :
    (xs ys r s : List ℕ)
    → IsWord xs
    → IsWord ys
    → rlp_integer xs ++ r ≡ rlp_integer ys ++ s
    → (xs ≡ ys) × (r ≡ s)
unfolding rlp_integer
rlp_integer-append_injective xs ys r s hx hy e =
    let (same, rest) =
      rlp_bytes-append_injective (skip_zeros xs) (skip_zeros ys) r s
        (omega (arith, length-skip_zeros xs, hx.size))
        (omega (arith, length-skip_zeros ys, hy.size)) e in
    (skip_zeros-injective xs ys (hx.size ∙ sym hy.size) hx.bytes hy.bytes same, rest)
