-- ===== src/Rpc/Placing.antt =====
-- crates/bproof/src/chain.rs: where the entries of a batch reply are put.
use mathlib.Core.List.{Permᴰ}
use mathlib.Core.List.Permᴰ
use mathlib.Core.Option
use proof_hunter_miner.Base.{
  ℕ, zero, suc, ◌+◌, ◌≡◌, refl, sym, ap, ◌∙◌, subst, Option, none, some, List, [], ◌∷◌, ◌++◌, arith,
  replicate,
}
use proof_hunter_miner.Json.{Json, get_in}
use proof_hunter_miner.Rpc.Decode.{get_u64, place, put, put_entry, slot_of}

pub mapped :
    {A B : Type 0} (f : A → B) (o : Option A) {b : B}
    → Option.map f o ≡ some b
    → (a : A) × (o ≡ some a) × (b ≡ f a)
mapped f none e = absurd cc
mapped f (some a) e = (a, refl, cc)

pub some-eq : {A : Type 0} {a b : A} → some a ≡ some b → b ≡ a
some-eq e = cc

module _ (j : Json) where
  abbrev pub id_of : j.Value → Option ℕ
  id_of entry = get_u64 j (get_in j entry "id")

  -- The entries that stand in slots, in the order of the slots.
  abbrev pub placed : List (Option j.Value) → List j.Value
  placed [] = []
  placed (none ∷ slots) = placed slots
  placed (some entry ∷ slots) = entry ∷ placed slots

  -- An entry stands in the slot of its id.
  abbrev pub IsLabelled : ℕ → List (Option j.Value) → Type 0
  IsLabelled index [] = Unit
  IsLabelled index (none ∷ slots) = IsLabelled (index + 1) slots
  IsLabelled index (some entry ∷ slots) =
      (id_of entry ≡ some (index + 1)) × IsLabelled (index + 1) slots

  put-Permᴰ :
      (slot : ℕ) (entry : j.Value) (slots : List (Option j.Value)) {after : List (Option j.Value)}
      → put j slot entry slots ≡ some after
      → Permᴰ (placed after) (entry ∷ placed slots)
  unfolding put
  put-Permᴰ slot entry [] e = absurd cc
  put-Permᴰ zero entry (none ∷ slots) e =
      subst (λ t. Permᴰ (placed t) (entry ∷ placed slots)) (sym (some-eq e))
        (Permᴰ.refl (entry ∷ placed slots))
  put-Permᴰ zero entry (some taken ∷ slots) e = absurd cc
  put-Permᴰ (suc slot) entry (none ∷ slots) e =
      let (rest, e1, e2) = mapped _ (put j slot entry slots) e in
      subst (λ t. Permᴰ (placed t) (entry ∷ placed slots)) (sym e2) (put-Permᴰ slot entry slots e1)
  put-Permᴰ (suc slot) entry (some taken ∷ slots) e =
      let (rest, e1, e2) = mapped _ (put j slot entry slots) e in
      subst (λ t. Permᴰ (placed t) (entry ∷ (taken ∷ placed slots))) (sym e2)
        (Permᴰ.trans (Permᴰ.cons refl (put-Permᴰ slot entry slots e1)) (Permᴰ.swap refl refl))

  put-IsLabelled :
      (index slot : ℕ) (entry : j.Value) (slots : List (Option j.Value))
      {after : List (Option j.Value)}
      → id_of entry ≡ some (index + slot + 1)
      → IsLabelled index slots
      → put j slot entry slots ≡ some after
      → IsLabelled index after
  unfolding put
  put-IsLabelled index slot entry [] named h e = absurd cc
  put-IsLabelled index zero entry (none ∷ slots) named h e =
      subst (IsLabelled index) (sym (some-eq e)) (named ∙ ap some (omega arith), h)
  put-IsLabelled index zero entry (some taken ∷ slots) named h e = absurd cc
  put-IsLabelled index (suc slot) entry (none ∷ slots) named h e =
      let (rest, e1, e2) = mapped _ (put j slot entry slots) e in
      subst (IsLabelled index) (sym e2)
        (put-IsLabelled (index + 1) slot entry slots (named ∙ ap some (omega arith)) h e1)
  put-IsLabelled index (suc slot) entry (some taken ∷ slots) named (h, hs) e =
      let (rest, e1, e2) = mapped _ (put j slot entry slots) e in
      subst (IsLabelled index) (sym e2)
        (h, put-IsLabelled (index + 1) slot entry slots (named ∙ ap some (omega arith)) hs e1)

  slot_of-eq : (o : Option ℕ) {slot : ℕ} → slot_of j o ≡ some slot → o ≡ some (slot + 1)
  unfolding slot_of
  slot_of-eq none e = absurd cc
  slot_of-eq (some zero) e = absurd cc
  slot_of-eq (some (suc n)) e = ap some (omega (arith, some-eq e))

  put_entry-put :
      (entry : j.Value) (o : Option ℕ) (slots : List (Option j.Value))
      {after : List (Option j.Value)}
      → put_entry j entry o slots ≡ some after
      → (slot : ℕ) × (o ≡ some slot) × (put j slot entry slots ≡ some after)
  unfolding put_entry
  put_entry-put entry none slots e = absurd cc
  put_entry-put entry (some slot) slots e = (slot, refl, e)

  place_cons :
      (entry : j.Value) (entries : List j.Value) (slots : List (Option j.Value))
      (next : Option (List (Option j.Value))) {after : List (Option j.Value)}
      → place j entries next ≡ some after
      → (rest : List (Option j.Value)) × (next ≡ some rest)
  unfolding place
  place_cons entry entries slots none e = absurd cc
  place_cons entry entries slots (some rest) e = (rest, refl)

  -- Every entry is placed, and stands in the slot of its id.
  pub place-ok :
      (entries : List j.Value) (slots : List (Option j.Value)) {after : List (Option j.Value)}
      → IsLabelled 0 slots
      → place j entries (some slots) ≡ some after
      → Permᴰ (entries ++ placed slots) (placed after) × IsLabelled 0 after
  unfolding place
  place-ok [] slots h e = (
    subst (λ t. Permᴰ (placed slots) (placed t)) (sym (some-eq e)) (Permᴰ.refl (placed slots)),
    subst (IsLabelled 0) (sym (some-eq e)) h,
  )
  place-ok (entry ∷ entries) slots h e =
      let next = put_entry j entry (slot_of j (id_of entry)) slots in
      let (rest, e1) = place_cons entry entries slots next e in
      let (slot, e2, e3) = put_entry-put entry (slot_of j (id_of entry)) slots e1 in
      let named = slot_of-eq (id_of entry) e2 in
      let labelled = put-IsLabelled 0 slot entry slots (named ∙ ap some (omega arith)) h e3 in
      let (perm, done) = place-ok entries rest labelled (sym (ap (place j entries) e1) ∙ e) in
      let moved = Permᴰ.append_left entries (Permᴰ.symm (put-Permᴰ slot entry slots e3)) in
      (
        Permᴰ.trans (Permᴰ.symm (Permᴰ.middle entry entries (placed slots)))
            (Permᴰ.trans moved perm),
        done,
      )

  pub empty-IsLabelled : (index calls : ℕ) → IsLabelled index (replicate calls none)
  empty-IsLabelled index zero = tt
  empty-IsLabelled index (suc calls) = empty-IsLabelled (index + 1) calls

  pub placed-empty : (calls : ℕ) → placed (replicate calls none) ≡ []
  placed-empty zero = refl
  placed-empty (suc calls) = placed-empty calls
