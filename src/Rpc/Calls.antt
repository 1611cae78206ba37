-- ===== src/Rpc/Calls.antt =====
-- crates/bproof/src/chain.rs: single calls, and batches with their fallback to single calls.
use Prim.Native.String.{String}
use proof_hunter_miner.Base.{
  [], ℕ, ◌+◌, Option, none, some, List, ◌∷◌, ltb, if◌then◌else◌, ok, err, length,
}
use proof_hunter_miner.Bytes.{value}
use proof_hunter_miner.Failure.{Checked}
use proof_hunter_miner.Json.{Json}
use proof_hunter_miner.Rpc.{◌>>=◌, Call, Message, Node, Param, Request, Rpc, batch, lift, single}
use proof_hunter_miner.Rpc.Decode.{decode_rpc_batch, decode_rpc_response, text_of}

abbrev pub call : String → List Param → Call
call method params = record { method = method; params = params }

abbrev pub request : ℕ → Call → Request
request ident call = record { ident = ident; call = call }

-- `calls.iter().enumerate()` from an index on: the ids start at one.
unfoldable pub requests : ℕ → List Call → List Request
requests index [] = []
requests index (c ∷ calls) = request (index + 1) c ∷ requests (index + 1) calls

unfoldable pub decoded : {A B : Type 0} → (A → Checked B) → Checked A → Checked B
decoded f (ok a) = f a
decoded f (err e) = err e

module _ (j : Json) (node : Node j) where
  -- `self.post(..)?`, then what is made of the reply.
  unfoldable pub post_then : {A : Type 0} → (j.Value → Checked A) → Message → Rpc A
  post_then f message sent = (decoded f (node.post sent message), sent + 1)

  unfoldable pub rpc_result : Call → Rpc j.Value
  rpc_result c = post_then (decode_rpc_response j 1) (single (request 1 c))

  unfoldable pub string_result : Call → Rpc (List ℕ)
  string_result c = do value ← rpc_result c; lift (text_of j value)

  -- One call after the other, whatever they return.
  unfoldable pub sequential : List Call → ℕ → List (Checked j.Value) × ℕ
  sequential [] sent = ([], sent)
  sequential (c ∷ calls) sent =
      let (result, n) = rpc_result c sent in
      let (results, after) = sequential calls n in (result ∷ results, after)

  -- `.ok().and_then(|response| decode_rpc_batch(calls, response))`.
  unfoldable pub usable : ℕ → Checked j.Value → Option (List (Checked j.Value))
  usable calls (ok response) = decode_rpc_batch j calls response
  usable calls (err e) = none

  unfoldable pub or_sequential :
      List Call → Option (List (Checked j.Value)) → ℕ → List (Checked j.Value) × ℕ
  or_sequential calls none sent = sequential calls sent
  or_sequential calls (some results) sent = (results, sent)

  unfoldable pub rpc_batch : List Call → ℕ → List (Checked j.Value) × ℕ
  rpc_batch calls sent =
      if ltb (length calls) 2
      then sequential calls sent
      else or_sequential calls (usable (length calls) (node.post sent (batch (requests 0 calls))))
          (sent + 1)
