-- ===== src/Rpc/Matching.antt =====
-- crates/bproof/src/chain.rs: which replies are usable batches, and what their answers are.
use mathlib.Core.List.{Permᴰ}
use mathlib.Core.Option
use proof_hunter_miner.Base.{
  ℕ, suc, ◌+◌, ◌≡◌, refl, sym, ap, ◌∙◌, subst, ◌↔◌, Bool, true, Option, none, some, List, [], ◌∷◌,
  ◌++◌, append_assoc, append-nil, arith, ◌==◌, if◌then◌else◌, ==_iff, if-elim-eq, length, replicate,
  length-append,
}
use proof_hunter_miner.Failure.{Checked}
use proof_hunter_miner.Json.{Json}
use proof_hunter_miner.Rpc.Decode.{
  answers, answers_of, decode_entries, decode_rpc_response, place, put, put_entry, slot_of,
}
use proof_hunter_miner.Rpc.Order.{Permᴰ-length, decode_entries_perm}
use proof_hunter_miner.Rpc.Placing.{
  mapped, id_of, placed, IsLabelled, place-ok, empty-IsLabelled, placed-empty,
}

module _ (j : Json) where
  -- Entries whose ids count on from the one after `index`.
  abbrev pub IsNumbered : ℕ → List j.Value → Type 0
  IsNumbered index [] = Unit
  IsNumbered index (entry ∷ entries) =
      (id_of j entry ≡ some (index + 1)) × IsNumbered (index + 1) entries

  -- Each entry as the response to the request with the next id.
  abbrev pub responses : ℕ → List j.Value → List (Checked j.Value)
  responses index [] = []
  responses index (entry ∷ entries) =
      decode_rpc_response j (index + 1) entry ∷ responses (index + 1) entries

  abbrev filled : List j.Value → List (Option j.Value)
  filled [] = []
  filled (entry ∷ entries) = some entry ∷ filled entries

  answers-filled :
      (index : ℕ) (entries : List j.Value)
      → answers j index (filled entries) ≡ some (responses index entries)
  unfolding answers
  answers-filled index [] = refl
  answers-filled index (entry ∷ entries) =
      ap (Option.map (λ rest. decode_rpc_response j (index + 1) entry ∷ rest))
        (answers-filled (index + 1) entries)

  -- Only full slots are answered.
  answers-some :
      (index : ℕ) (slots : List (Option j.Value)) {results : List (Checked j.Value)}
      → answers j index slots ≡ some results
      → results ≡ responses index (placed j slots)
  unfolding answers
  answers-some index [] e = cc
  answers-some index (none ∷ slots) e = absurd cc
  answers-some index (some entry ∷ slots) e =
      let (rest, e1, e2) = mapped _ (answers j (index + 1) slots) e in
      e2
      ∙ ap (λ rs. decode_rpc_response j (index + 1) entry ∷ rs) (answers-some (index + 1) slots e1)

  answers-IsNumbered :
      (index : ℕ) (slots : List (Option j.Value)) {results : List (Checked j.Value)}
      → answers j index slots ≡ some results
      → IsLabelled j index slots
      → IsNumbered index (placed j slots)
  unfolding answers
  answers-IsNumbered index [] e h = tt
  answers-IsNumbered index (none ∷ slots) e h = absurd cc
  answers-IsNumbered index (some entry ∷ slots) e (named, h) =
      let (rest, e1, _) = mapped _ (answers j (index + 1) slots) e in
      (named, answers-IsNumbered (index + 1) slots e1 h)

  put-front :
      (front : List (Option j.Value)) (entry : j.Value) (slots : List (Option j.Value))
      → put j (length front) entry (front ++ (none ∷ slots)) ≡ some (front ++ (some entry ∷ slots))
  unfolding put
  put-front [] entry slots = refl
  put-front (none ∷ front) entry slots =
      ap (Option.map (λ ys. none ∷ ys)) (put-front front entry slots)
  put-front (some taken ∷ front) entry slots =
      ap (Option.map (λ ys. some taken ∷ ys)) (put-front front entry slots)

  put_entry-named :
      (front : List (Option j.Value)) (entry : j.Value) (slots : List (Option j.Value))
      → id_of j entry ≡ some (length front + 1)
      → put_entry j entry (slot_of j (id_of j entry)) (front ++ (none ∷ slots))
        ≡ some (front ++ (some entry ∷ slots))
  unfolding put_entry slot_of
  put_entry-named front entry slots named =
      let next : id_of j entry ≡ some (suc (length front)) = named ∙ ap some (omega arith) in
      ap (λ o. put_entry j entry (slot_of j o) (front ++ (none ∷ slots))) next
      ∙ put-front front entry slots

  -- Entries in the order of their ids fill the slots that are left.
  place-front :
      (front : List (Option j.Value)) (entries : List j.Value)
      → IsNumbered (length front) entries
      → place j entries (some (front ++ replicate (length entries) none))
        ≡ some (front ++ filled entries)
  unfolding place
  place-front front [] h = refl
  place-front front (entry ∷ entries) (named, h) =
      let more = front ++ (some entry ∷ []) in
      let size : length more ≡ length front + 1 = length-append front (some entry ∷ []) in
      ap (place j entries) (
        put_entry-named front entry (replicate (length entries) none) named
        ∙ ap some (sym (append_assoc front (some entry ∷ []) (replicate (length entries) none))))
      ∙ place-front more entries (subst (λ n. IsNumbered n entries) (sym size) h)
      ∙ ap some (append_assoc front (some entry ∷ []) (filled entries))

  decode_entries-responses :
      (entries : List j.Value)
      → IsNumbered 0 entries
      → decode_entries j (length entries) (some entries) ≡ some (responses 0 entries)
  unfolding decode_entries answers_of
  decode_entries-responses entries h =
      let same : (length entries == length entries) ≡ true = (==_iff _ _).1 refl in
      ap
        (λ (b : Bool).
          if b
          then answers_of j (place j entries (some (replicate (length entries) none)))
          else none)
        same
      ∙ ap (answers_of j) (place-front [] entries h)
      ∙ answers-filled 0 entries

  answers_of-some :
      (o : Option (List (Option j.Value))) {results : List (Checked j.Value)}
      → answers_of j o ≡ some results
      → (slots : List (Option j.Value)) × (o ≡ some slots) × (answers j 0 slots ≡ some results)
  unfolding answers_of
  answers_of-some none e = absurd cc
  answers_of-some (some slots) e = (slots, refl, e)

  -- The entries of a reply are those with the ids of the calls, one for each call, in any order;
  -- the results are the entries in the order of the calls, each as the response to its call.
  abbrev pub IsDecoded : ℕ → List j.Value → List (Checked j.Value) → Type 0
  IsDecoded calls replies results =
      (entries : List j.Value) × Permᴰ replies entries
      × (length entries ≡ calls)
      × IsNumbered 0 entries
      × (results ≡ responses 0 entries)

  decode_entries-some :
      (calls : ℕ) (replies : List j.Value) (results : List (Checked j.Value))
      → decode_entries j calls (some replies) ≡ some results
      → IsDecoded calls replies results
  unfolding decode_entries
  decode_entries-some calls replies results =
      if-elim-eq
        (λ (r : Option (List (Checked j.Value))).
          r ≡ some results → IsDecoded calls replies results)
        (length replies == calls)
        (λ same e.
          let (slots, filled_up, e1) =
            answers_of-some (place j replies (some (replicate calls none))) e in
          let (perm, labelled) =
            place-ok j replies (replicate calls none) (empty-IsLabelled j 0 calls) filled_up in
          let all : replies ++ placed j (replicate calls none) ≡ replies =
            ap (λ t. replies ++ t) (placed-empty j calls) ∙ append-nil replies in
          let perm' = subst (λ t. Permᴰ t (placed j slots)) all perm in
          (
            placed j slots,
            perm',
            sym (Permᴰ-length j perm') ∙ (==_iff _ _).0 same,
            answers-IsNumbered 0 slots e1 labelled,
            answers-some 0 slots e1,
          ))
        (λ _ e. absurd cc)

  -- A batch of calls is decoded to some results exactly if the entries of the reply, in some
  -- order, are one for each call with the ids 1, 2 and so on; the results are then those entries
  -- in the order of their ids, each decoded as the response to the request with its id.
  pub decode_entries_iff :
      (calls : ℕ) (replies : List j.Value) (results : List (Checked j.Value))
      → (decode_entries j calls (some replies) ≡ some results) ↔ IsDecoded calls replies results
  decode_entries_iff calls replies results = (
    decode_entries-some calls replies results,
    λ (entries, perm, size, numbered, e).
        decode_entries_perm j calls replies entries perm
        ∙ ap (λ n. decode_entries j n (some entries)) (sym size)
        ∙ decode_entries-responses entries numbered
        ∙ ap some (sym e),
  )
