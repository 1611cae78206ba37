-- ===== src/Receipt/Candidates.antt =====
-- crates/bproof/src/submit.rs: the logs that are candidates for an event.
use proof_hunter_miner.Base.{
  ℕ, ◌≡◌, sym, ap, ◌∙◌, subst, true, false, some, List, [], ◌∷◌, ◌++◌, >>=-ok, ok_or, ok_or-ok,
  if-elim-eq, Option-elim, ok-injective, ok, drop, All,
}
use proof_hunter_miner.Failure.{not_object}
use proof_hunter_miner.Json.{Json, get_array}
use proof_hunter_miner.Parse.{hex_string}
use proof_hunter_miner.Receipt.{eq_ignore_ascii_case}
use proof_hunter_miner.Receipt.Events.{event_candidates, first, is_candidate}
use proof_hunter_miner.Word.{Digest}

some-eq : {A : Type 0} {a b : A} → some a ≡ some b → a ≡ b
some-eq e = cc

heads : {A : Type 0} {x y : A} {xs ys : List A} → x ∷ xs ≡ y ∷ ys → x ≡ y
heads e = cc

first-cons :
    {A : Type 0} (xs : List A) {x : A} → first xs ≡ some x → (rest : List A) × (xs ≡ x ∷ rest)
unfolding first
first-cons [] e = absurd cc
first-cons (x ∷ xs) e = (xs, cc)

module _ (j : Json) where
  abbrev pub IsSignedFields : j.Fields → Digest → Type 0
  IsSignedFields fields signature =
      (topic : j.Value) × (others : List j.Value) × (text : List ℕ) × (get_array j fields "topics"
        ≡ some (topic ∷ others))
      × (j.as_str topic ≡ some text)
      × (eq_ignore_ascii_case text (hex_string signature) ≡ true)

  -- A log whose first topic is the signature of an event.
  abbrev pub IsSigned : Digest → j.Value → Type 0
  IsSigned signature log =
      (fields : j.Fields) × (j.as_object log ≡ some fields) × IsSignedFields fields signature

  -- A log is signed, and those before and after it are not.
  abbrev pub IsSole : Digest → List j.Value → j.Value → Type 0
  IsSole signature logs log =
      (before : List j.Value) × (after : List j.Value) × (logs ≡ before ++ (log ∷ after))
      × IsSigned signature log
      × All (λ other. ¬ IsSigned signature other) before
      × All (λ other. ¬ IsSigned signature other) after

  is_candidate-IsSigned :
      (fields : j.Fields) (signature : Digest)
      → is_candidate j fields signature ≡ true
      → IsSignedFields fields signature
  unfolding is_candidate
  is_candidate-IsSigned fields signature =
      Option-elim (λ b. b ≡ true → IsSignedFields fields signature) (get_array j fields "topics")
        (λ _ e. absurd cc)
        (λ topics listed.
          Option-elim (λ b. b ≡ true → IsSignedFields fields signature) (first topics)
            (λ _ e. absurd cc)
            (λ topic front.
              Option-elim (λ b. b ≡ true → IsSignedFields fields signature) (j.as_str topic)
                (λ _ e. absurd cc)
                (λ text str e.
                  let (others, all) = first-cons topics front in
                  (topic, others, text, listed ∙ ap some all, str, e))))

  IsSigned-is_candidate :
      (fields : j.Fields) (signature : Digest)
      → IsSignedFields fields signature
      → is_candidate j fields signature ≡ true
  unfolding is_candidate first
  IsSigned-is_candidate fields signature (topic, others, text, listed, str, same) =
      rw (is_candidate, listed, first, str) same

  unsigned :
      (fields : j.Fields) (log : j.Value) (signature : Digest)
      → j.as_object log ≡ some fields
      → is_candidate j fields signature ≡ false
      → ¬ IsSigned signature log
  unsigned fields log signature obj no_match (seen, obj', signed) =
      let same : seen ≡ fields = some-eq (sym obj' ∙ obj) in
      let yes = IsSigned-is_candidate seen signature signed in absurd cc

  no_candidate :
      (logs : List j.Value) (signature : Digest)
      → event_candidates j logs signature ≡ ok []
      → All (λ other. ¬ IsSigned signature other) logs
  unfolding event_candidates
  no_candidate [] signature e = tt
  no_candidate (log ∷ logs) signature e =
      let (fields, obj, e1) = >>=-ok (ok_or not_object (j.as_object log)) _ e in
      let (rest, er, e2) = >>=-ok (event_candidates j logs signature) _ e1 in
      let is_object = ok_or-ok not_object (j.as_object log) obj in
      if-elim-eq
        (λ (xs : List j.Value). xs ≡ [] → All (λ other. ¬ IsSigned signature other) (log ∷ logs))
        (is_candidate j fields signature) (λ _ taken. absurd cc)
        (λ no_match nothing. (
          unsigned fields log signature is_object no_match,
          no_candidate logs signature (er ∙ ap (λ (xs : List j.Value). ok xs) nothing),
        ))
        (ok-injective e2)

  pub event_candidates-IsSole :
      (logs : List j.Value) (signature : Digest) (log : j.Value)
      → event_candidates j logs signature ≡ ok (log ∷ [])
      → IsSole signature logs log
  unfolding event_candidates
  event_candidates-IsSole [] signature log e = absurd cc
  event_candidates-IsSole (other ∷ logs) signature log e =
      let (fields, obj, e1) = >>=-ok (ok_or not_object (j.as_object other)) _ e in
      let (rest, er, e2) = >>=-ok (event_candidates j logs signature) _ e1 in
      let is_object = ok_or-ok not_object (j.as_object other) obj in
      if-elim-eq (λ (xs : List j.Value). xs ≡ log ∷ [] → IsSole signature (other ∷ logs) log)
        (is_candidate j fields signature)
        (λ matches taken.
          let same : other ≡ log = heads taken in
          let nothing : rest ≡ [] = ap (drop 1) taken in
          (
            [],
            logs,
            ap (λ (x : j.Value). x ∷ logs) same,
            subst (IsSigned signature) same
                (fields, is_object, is_candidate-IsSigned fields signature matches),
            tt,
            no_candidate logs signature (er ∙ ap (λ (xs : List j.Value). ok xs) nothing),
          ))
        (λ no_match taken.
          let (before, after, split, signed, none_before, none_after) =
            event_candidates-IsSole logs signature log
              (er ∙ ap (λ (xs : List j.Value). ok xs) taken) in
          (
            other ∷ before,
            after,
            ap (λ (xs : List j.Value). other ∷ xs) split,
            signed,
            (unsigned fields other signature is_object no_match, none_before),
            none_after,
          ))
        (ok-injective e2)
