-- ===== src/Rpc.antt =====
-- crates/bproof/src/chain.rs: requests, the node that answers them, and a computation that talks to
-- it. The HTTP client (`ureq`), the network and the clock are a parameter: a node answers the n-th
-- message of a run with a JSON value or a transport error, whatever it answered before.
pub mod Decode
pub mod Calls
pub mod Order
pub mod Placing
pub mod Matching
use Prim.Native.String.{String}
use proof_hunter_miner.Base.{ℕ, ◌≡◌, refl, ap, Bool, List, ok-injective, ok, err}
use proof_hunter_miner.Failure.{Checked}
use proof_hunter_miner.Json.{Json}

-- The shapes of the values that stand in `params`.
pub data Param : Type 0 where
  text_param : List ℕ → Param
  flag_param : Bool → Param
  -- An object of strings.
  object_param : List (String × List ℕ) → Param
  -- `{address: {"code": code}}`.
  code_override : List ℕ → List ℕ → Param

pub record Call : Type 0 where
  pub method : String
  pub params : List Param

-- `"jsonrpc": "2.0"` is in every request.
pub record Request : Type 0 where
  pub ident : ℕ
  pub call : Call

pub data Message : Type 0 where
  single : Request → Message
  batch : List Request → Message

pub record Node (j : Json) : Type 0 where
  -- The reply to a message that is sent after so many others.
  pub post : ℕ → Message → Checked j.Value
  -- `Instant::now() >= deadline`, once so many messages are sent.
  pub past_deadline : ℕ → Bool

-- A computation knows how many messages were sent before it.
abbrev pub Rpc : Type 0 → Type 0
Rpc A = ℕ → Checked A × ℕ

unfoldable pub continue_with : {A B : Type 0} → (A → Rpc B) → Checked A × ℕ → Checked B × ℕ
continue_with f (ok a, sent) = f a sent
continue_with f (err e, sent) = (err e, sent)

infixl 5 ◌>>=◌
unfoldable pub ◌>>=◌ : {A B : Type 0} → Rpc A → (A → Rpc B) → Rpc B
◌>>=◌ m f sent = continue_with f (m sent)

unfoldable pub lift : {A : Type 0} → Checked A → Rpc A
lift a sent = (a, sent)

unfoldable pub done : {A : Type 0} → A → Rpc A
done a sent = (ok a, sent)

continue_with-ok :
    {A B : Type 0} (f : A → Rpc B) (reply : Checked A × ℕ) {seen : Checked A × ℕ} {b : B}
    {after : ℕ}
    → continue_with f reply ≡ (ok b, after)
    → seen ≡ reply
    → (a : A) × (n : ℕ) × (seen ≡ (ok a, n)) × (f a n ≡ (ok b, after))
unfolding continue_with
continue_with-ok f (ok a, n) h e = (a, n, e, h)
continue_with-ok f (err e, n) h s = let h' = ap (λ r. r.0) h in absurd cc

-- A chain that succeeds is a first step that succeeds and a rest that succeeds.
pub bind-ok :
    {A B : Type 0} (m : Rpc A) (f : A → Rpc B) (sent : ℕ) {b : B} {after : ℕ}
    → (m >>= f) sent ≡ (ok b, after)
    → (a : A) × (n : ℕ) × (m sent ≡ (ok a, n)) × (f a n ≡ (ok b, after))
unfolding ◌>>=◌
bind-ok m f sent h = continue_with-ok f (m sent) h refl

pub reply-eq :
    {A : Type 0} {a b : Checked A} {m n : ℕ} → ◌≡◌ {A = Checked A × ℕ} (a, m) (b, n) → a ≡ b
reply-eq h = ap (λ r. r.0) h

pub sent-eq :
    {A : Type 0} {a b : Checked A} {m n : ℕ} → ◌≡◌ {A = Checked A × ℕ} (a, m) (b, n) → m ≡ n
sent-eq h = ap (λ r. r.1) h

pub done-eq : {A : Type 0} (a : A) (m : ℕ) {b : A} {n : ℕ} → done a m ≡ (ok b, n) → a ≡ b
unfolding done
done-eq a m h = ok-injective (reply-eq h)

pub lift-ok : {A : Type 0} (r : Checked A) (m : ℕ) {a : A} {n : ℕ} → lift r m ≡ (ok a, n) → r ≡ ok a
unfolding lift
lift-ok r m h = reply-eq h
