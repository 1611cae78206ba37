-- ===== src/Base/Tests.antt =====
-- Boolean tests on native numbers, the conditional, and results with an error.
use Prim.Native.Nat.{ℕ, zero, suc, ◌≤◌, ◌<◌, compare, Ordering}
use mathlib.Core.Path.{◌≡◌, refl}
use mathlib.Core.Logic.{◌↔◌, ◌⊎◌, inl, inr}
use mathlib.Core.Bool.{Bool, true, false, ◌&&◌}
use mathlib.Core.Option.{Option, none, some}
use native.Mathlib.Omega.{arith}

abbrev pub ltb : ℕ → ℕ → Bool
ltb a b = elim (compare a b) [ Ordering.lt ↦ true | _ ↦ false ]

abbrev pub leb : ℕ → ℕ → Bool
leb a b = elim (compare a b) [ Ordering.gt ↦ false | _ ↦ true ]

infix 50 ◌==◌
abbrev pub ◌==◌ : ℕ → ℕ → Bool
a == b = elim (compare a b) [ Ordering.eq ↦ true | _ ↦ false ]

infix 1 if◌then◌else◌
abbrev pub if◌then◌else◌ {ℓ} : {A : Type ℓ} → Bool → A → A → A
if true then x else y = x
if false then x else y = y

pub ltb→lt : (a b : ℕ) → ltb a b ≡ true → a < b
ltb→lt a b h = ground arith

pub lt→ltb : (a b : ℕ) → a < b → ltb a b ≡ true
lt→ltb a b h = ground arith

pub leb→le : (a b : ℕ) → leb a b ≡ true → a ≤ b
leb→le a b h = ground arith

pub le→leb : (a b : ℕ) → a ≤ b → leb a b ≡ true
le→leb a b h = ground arith

pub lt→not_leb : (a b : ℕ) → b < a → leb a b ≡ false
lt→not_leb a b h = ground arith

pub ==_iff : (a b : ℕ) → ((a == b) ≡ true) ↔ (a ≡ b)
==_iff a b = ground arith

pub Bool-cases : (b : Bool) → (b ≡ true) ⊎ (b ≡ false)
Bool-cases true = inl refl
Bool-cases false = inr refl

-- A Rust `Result`, its error type a parameter.
pub data Result {ℓ κ} (E : Type ℓ) (A : Type κ) : Type (ℓ ⊔ κ) where
  ok : A → Result E A
  err : E → Result E A

-- `result?`, with what follows on success: an error is passed on as it is.
infixl 5 ◌>>=◌
abbrev pub ◌>>=◌ {ℓ κ μ} :
    {Failure : Type ℓ} {A : Type κ} {B : Type μ}
    → Result Failure A
    → (A → Result Failure B)
    → Result Failure B
err failure >>= next = err failure
ok value >>= next = next value

-- A test at every number below `n`, by evaluation.
unfoldable pub everywhere_below : ℕ → (ℕ → Bool) → Bool
everywhere_below zero test = true
everywhere_below (suc n) test = test n && everywhere_below n test

pub everywhere_below-at :
    (n : ℕ) (test : ℕ → Bool) (x : ℕ) → everywhere_below n test ≡ true → x < n → test x ≡ true
unfolding everywhere_below
everywhere_below-at zero test x e h = absurd (omega arith)
everywhere_below-at (suc n) test x e h = ground (arith, everywhere_below-at n test x)

-- What succeeds behind a `?` had a success before it.
pub >>=-ok {ℓ κ μ} :
    {Failure : Type ℓ} {A : Type κ} {B : Type μ} (result : Result Failure A)
    (next : A → Result Failure B) {b : B}
    → (result >>= next) ≡ ok b
    → (a : A) × (result ≡ ok a) × (next a ≡ ok b)
>>=-ok (err failure) next e = cc
>>=-ok (ok value) next e = (value, refl, e)

pub ok-injective {ℓ κ} :
    {E : Type ℓ} {A : Type κ} {a b : A} → ◌≡◌ {A = Result E A} (ok a) (ok b) → a ≡ b
ok-injective e = cc

pub Option-cases {ℓ} : {A : Type ℓ} (o : Option A) → (o ≡ none) ⊎ ((a : A) × (o ≡ some a))
Option-cases none = inl refl
Option-cases (some a) = inr (a, refl)

pub not_leb→lt : (a b : ℕ) → leb a b ≡ false → b < a
not_leb→lt a b h = ground arith

pub not_ltb : (a b : ℕ) → b ≤ a → ltb a b ≡ false
not_ltb a b h = ground arith

pub Result-cases {ℓ κ} :
    {E : Type ℓ} {A : Type κ} (r : Result E A) → ((a : A) × (r ≡ ok a)) ⊎ ((e : E) × (r ≡ err e))
Result-cases (ok a) = inl (a, refl)
Result-cases (err e) = inr (e, refl)

-- A property of both branches is one of the conditional.
pub if-elim {ℓ κ} :
    {A : Type ℓ} (P : A → Type κ) (b : Bool) {x y : A} → P x → P y → P (if b then x else y)
if-elim P true p q = p
if-elim P false p q = q

pub Option-elim {ℓ κ μ} :
    {A : Type ℓ} {B : Type κ} (P : B → Type μ) (o : Option A) {x : B} {f : A → B}
    → (o ≡ none → P x)
    → ((a : A) → o ≡ some a → P (f a))
    → P (elim o [ none ↦ x | some a ↦ f a ])
Option-elim P none p q = p refl
Option-elim P (some a) p q = q a refl

pub if-elim-eq {ℓ κ} :
    {A : Type ℓ} (P : A → Type κ) (b : Bool) {x y : A}
    → (b ≡ true → P x)
    → (b ≡ false → P y)
    → P (if b then x else y)
if-elim-eq P true p q = p refl
if-elim-eq P false p q = q refl

pub and-true : (a b : Bool) → (a && b) ≡ true → (a ≡ true) × (b ≡ true)
and-true true b h = (refl, h)
and-true false b h = absurd cc

-- `if !test { return Err(e) }`.
unfoldable pub require {ℓ} : {Failure : Type ℓ} → Bool → Failure → Result Failure (Unit {0})
require test failure = if test then ok tt else err failure

pub require-ok {ℓ} :
    {Failure : Type ℓ} (test : Bool) (failure : Failure) {u : Unit {0}}
    → require test failure ≡ ok u
    → test ≡ true
unfolding require
require-ok true failure h = refl
require-ok false failure h = absurd cc

-- `value.ok_or(failure)`.
unfoldable pub ok_or {ℓ κ} : {Failure : Type ℓ} {A : Type κ} → Failure → Option A → Result Failure A
ok_or failure none = err failure
ok_or failure (some a) = ok a

pub ok_or-ok {ℓ κ} :
    {Failure : Type ℓ} {A : Type κ} (failure : Failure) (o : Option A) {a : A}
    → ok_or failure o ≡ ok a
    → o ≡ some a
unfolding ok_or
ok_or-ok failure none h = absurd cc
ok_or-ok failure (some a) h = cc
