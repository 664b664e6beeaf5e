-- ===== src/Json.antt =====
-- `serde_json::Value`, of the crate `serde_json`: its six kinds, and the methods that the code calls.
use dag_ml_data.Common.{◌≡◌, ◌↔◌, Bool, true, false, Option, none, some, List}
use dag_ml_data.Order.{nat_ord, list_ord}
use dag_ml_data.Text.{Text}
use dag_ml_data.Collections.{Map, values}
use dag_ml_data.Order.{pair_ord}

pub data Kind (J : Type 0) : Type 0 where
  null : Kind J
  bool : Bool → Kind J
  number : Kind J
  string : Text → Kind J
  array : List J → Kind J
  object : Map Text J → Kind J

-- The type of the values, with the kind of a value, the derived equality and the constructors that the
-- code uses.
pub record Json (J : Type 0) : Type 0 where
  pub kind : J → Kind J
  pub display : J → Text
  pub same : J → J → Bool
  pub same_iff : (a b : J) → (same a b ≡ true) ↔ (a ≡ b)
  pub of_null : J
  pub of_string : Text → J
  pub of_array : List J → J
  pub kind-of_null : kind of_null ≡ null
  pub kind-of_string : (s : Text) → kind (of_string s) ≡ string s
  pub kind-of_array : (values : List J) → kind (of_array values) ≡ array values

module _ {J : Type 0} where
  abbrev pub string_of : Kind J → Option Text
  string_of (string s) = some s
  string_of _ = none

  abbrev pub array_of : Kind J → Option (List J)
  array_of (array values) = some values
  array_of _ = none

  abbrev pub null_kind : Kind J → Bool
  null_kind null = true
  null_kind _ = false

module _ {J : Type 0} (json : Json J) where
  -- `Value::as_str`, `as_array` and `is_null`.
  abbrev pub as_str : J → Option Text
  as_str value = string_of (json.kind value)

  abbrev pub as_array : J → Option (List J)
  as_array value = array_of (json.kind value)

  abbrev pub is_null : J → Bool
  is_null value = null_kind (json.kind value)

  -- The derived equality of maps.
  unfoldable pub same_option : Option J → Option J → Bool
  same_option none none = true
  same_option (some a) (some b) = json.same a b
  same_option _ _ = false
