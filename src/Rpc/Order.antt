-- ===== src/Rpc/Order.antt =====
-- crates/bproof/src/chain.rs: the order in which a node lists the entries of a batch reply.
use mathlib.Core.List.{Permᴰ}
use mathlib.Core.Option
use proof_hunter_miner.Base.{
  [], ℕ, zero, suc, ◌≡◌, refl, sym, ap, ◌∙◌, Option, none, some, List, ◌∷◌, ◌==◌, if◌then◌else◌,
  length, replicate,
}
use proof_hunter_miner.Json.{Json, get_in}
use proof_hunter_miner.Rpc.Decode.{
  answers_of, decode_entries, get_u64, place, put, put_entry, slot_of,
}

module _ (j : Json) where
  abbrev Slots : Type 0
  Slots = Option (List (Option j.Value))

  put_later : Option ℕ → j.Value → Slots → Slots
  put_later slot entry none = none
  put_later slot entry (some slots) = put_entry j entry slot slots

  -- A slot more in front.
  put_later-suc :
      (a : ℕ) (x : j.Value) (o : Option j.Value) (slots : Slots)
      → put_later (some (suc a)) x (Option.map (λ ys. o ∷ ys) slots)
        ≡ Option.map (λ ys. o ∷ ys) (put_later (some a) x slots)
  unfolding put_later put_entry put
  put_later-suc a x o none = refl
  put_later-suc a x o (some slots) = refl

  put_first :
      (x : j.Value) (slots : Slots)
      → put_later (some 0) x (Option.map (λ ys. none ∷ ys) slots)
        ≡ Option.map (λ ys. some x ∷ ys) slots
  unfolding put_later put_entry put
  put_first x none = refl
  put_first x (some slots) = refl

  put_taken :
      (x taken : j.Value) (slots : Slots)
      → put_later (some 0) x (Option.map (λ ys. some taken ∷ ys) slots) ≡ none
  unfolding put_later put_entry put
  put_taken x taken none = refl
  put_taken x taken (some slots) = refl

  -- Two entries can be put in either order.
  put_swap :
      (a b : ℕ) (x y : j.Value) (slots : List (Option j.Value))
      → put_later (some b) y (put j a x slots) ≡ put_later (some a) x (put j b y slots)
  unfolding put_later put_entry put
  put_swap a b x y [] = refl
  put_swap zero zero x y (none ∷ slots) = refl
  put_swap zero zero x y (some taken ∷ slots) = refl
  put_swap zero (suc b) x y (none ∷ slots) = sym (put_first x (put j b y slots))
  put_swap zero (suc b) x y (some taken ∷ slots) = sym (put_taken x taken (put j b y slots))
  put_swap (suc a) zero x y (none ∷ slots) = put_first y (put j a x slots)
  put_swap (suc a) zero x y (some taken ∷ slots) = put_taken y taken (put j a x slots)
  put_swap (suc a) (suc b) x y (o ∷ slots) =
      put_later-suc b y o (put j a x slots)
      ∙ ap (Option.map (λ ys. o ∷ ys)) (put_swap a b x y slots)
      ∙ sym (put_later-suc a x o (put j b y slots))

  put_later-none : (y : j.Value) (slots : Slots) → put_later none y slots ≡ none
  unfolding put_later put_entry
  put_later-none y none = refl
  put_later-none y (some slots) = refl

  put_later_swap :
      (a b : Option ℕ) (x y : j.Value) (slots : Slots)
      → put_later b y (put_later a x slots) ≡ put_later a x (put_later b y slots)
  unfolding put_later put_entry
  put_later_swap a b x y none = refl
  put_later_swap none b x y (some slots) = sym (put_later-none x (put_later b y (some slots)))
  put_later_swap (some a) none x y (some slots) = put_later-none y (put j a x slots)
  put_later_swap (some a) (some b) x y (some slots) = put_swap a b x y slots

  slot : j.Value → Option ℕ
  slot entry = slot_of j (get_u64 j (get_in j entry "id"))

  place_cons :
      (entry : j.Value) (entries : List j.Value) (slots : Slots)
      → place j (entry ∷ entries) slots ≡ place j entries (put_later (slot entry) entry slots)
  unfolding place put_later slot
  place_cons entry entries none = refl
  place_cons entry entries (some slots) = refl

  place_two :
      (a b : j.Value) (xs : List j.Value) (slots : Slots)
      → place j (a ∷ (b ∷ xs)) slots
        ≡ place j xs (put_later (slot b) b (put_later (slot a) a slots))
  place_two a b xs slots =
      place_cons a (b ∷ xs) slots ∙ place_cons b xs (put_later (slot a) a slots)

  place-Permᴰ :
      {xs ys : List j.Value} (slots : Slots) → Permᴰ xs ys → place j xs slots ≡ place j ys slots
  place-Permᴰ slots Permᴰ.nil = refl
  place-Permᴰ slots (Permᴰ.cons {a} {b} {l₁} {l₂} e p) =
      place_cons a l₁ slots
      ∙ place-Permᴰ (put_later (slot a) a slots) p
      ∙ ap (λ (t : j.Value). place j l₂ (put_later (slot t) t slots)) e
      ∙ sym (place_cons b l₂ slots)
  place-Permᴰ slots (Permᴰ.swap {a} {b} {a'} {b'} {l} e f) =
      place_two a b l slots
      ∙ ap (place j l) (put_later_swap (slot a) (slot b) a b slots)
      ∙ sym (place_two b a l slots)
      ∙ ap (λ (t : j.Value). place j (t ∷ (a ∷ l)) slots) f
      ∙ ap (λ (t : j.Value). place j (a' ∷ (t ∷ l)) slots) e
  place-Permᴰ slots (Permᴰ.trans p q) = place-Permᴰ slots p ∙ place-Permᴰ slots q

  pub Permᴰ-length : {xs ys : List j.Value} → Permᴰ xs ys → length xs ≡ length ys
  Permᴰ-length Permᴰ.nil = refl
  Permᴰ-length (Permᴰ.cons _ p) = ap suc (Permᴰ-length p)
  Permᴰ-length (Permᴰ.swap _ _) = refl
  Permᴰ-length (Permᴰ.trans p q) = Permᴰ-length p ∙ Permᴰ-length q

  -- A batch reply is decoded to the same answers however the node orders its entries.
  pub decode_entries_perm :
      (calls : ℕ) (xs ys : List j.Value)
      → Permᴰ xs ys
      → decode_entries j calls (some xs) ≡ decode_entries j calls (some ys)
  unfolding decode_entries
  decode_entries_perm calls xs ys p =
      ap
        (λ (n : ℕ).
          if n == calls then answers_of j (place j xs (some (replicate calls none))) else none)
        (Permᴰ-length p)
      ∙ ap (λ (s : Slots). if length ys == calls then answers_of j s else none)
          (place-Permᴰ (some (replicate calls none)) p)
