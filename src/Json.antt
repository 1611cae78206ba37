-- ===== src/Json.antt =====
-- The `serde_json` crate's `Value` and `Map`, which the repository reads and does not implement: a
-- parameter of every definition that takes JSON apart. Nothing is assumed of its operations.
use Prim.Native.String.{String}
use proof_hunter_miner.Base.{ℕ, Bool, Option, none, some, List}
use proof_hunter_miner.Bytes.{value}

pub record Json : Type 1 where
  pub Value : Type 0
  pub Fields : Type 0
  pub as_object : Value → Option Fields
  pub get : Fields → String → Option Value
  pub keys : Fields → List (List ℕ)
  pub as_str : Value → Option (List ℕ)
  pub as_array : Value → Option (List Value)
  pub as_bool : Value → Option Bool
  pub as_u64 : Value → Option ℕ
  pub is_null : Value → Bool

module _ (j : Json) where
  -- `fields.get(name).and_then(Value::as_str)`.
  unfoldable pub get_str : j.Fields → String → Option (List ℕ)
  get_str fields name = elim (j.get fields name) [ none ↦ none | some value ↦ j.as_str value ]

  -- `fields.get(name).and_then(Value::as_array)`.
  unfoldable pub get_array : j.Fields → String → Option (List j.Value)
  get_array fields name = elim (j.get fields name) [ none ↦ none | some value ↦ j.as_array value ]

  -- `value.get(name)`, which is `None` on a value that is no object.
  unfoldable pub get_in : j.Value → String → Option j.Value
  get_in value name = elim (j.as_object value) [ none ↦ none | some fields ↦ j.get fields name ]
