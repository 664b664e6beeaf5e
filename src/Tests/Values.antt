-- ===== src/Tests/Values.antt =====
-- JSON values of texts, numbers and arrays, floats and codecs, for the runs.
use dag_ml_data.Common.{
  ◌∙◌, sym, ℕ, ◌≡◌, refl, ◌↔◌, ap, Bool, true, false, ◌&&◌, List, [], ◌∷◌, nat_eq, arith, ltb, leb,
  compare, some, ◌⊎◌, inl,
}
use dag_ml_data.Order.{◌==◌, ==_iff, nat_ord, list_ord}
use dag_ml_data.Text.{Text, text, decimal}
use dag_ml_data.Json.{Json, Kind, null, number, string, array}
use dag_ml_data.Float.{Float}
use dag_ml_data.Coordinator.Branches.{NativeBranchViewFilter}

pub data Value : Type 0 where
  null_value : Value
  number_value : ℕ → Value
  text_value : Text → Value
  empty_value : Value
  item_value : Value → Value → Value

abbrev items : Value → List Value
items (item_value v w) = v ∷ items w
items _ = []

abbrev pub kind_of : Value → Kind Value
kind_of null_value = null
kind_of (number_value n) = number
kind_of (text_value s) = string s
kind_of empty_value = array []
kind_of (item_value v w) = array (v ∷ items w)

abbrev of_items : List Value → Value
of_items [] = empty_value
of_items (v ∷ vs) = item_value v (of_items vs)

items-of_items : (vs : List Value) → items (of_items vs) ≡ vs
items-of_items [] = refl
items-of_items (v ∷ vs) = ap (λ t. v ∷ t) (items-of_items vs)

pub kind-of_items : (vs : List Value) → kind_of (of_items vs) ≡ array vs
kind-of_items [] = refl
kind-of_items (v ∷ vs) = ap (λ t. array (v ∷ t)) (items-of_items vs)

abbrev same_value : Value → Value → Bool
same_value null_value null_value = true
same_value (number_value m) (number_value n) = nat_eq m n
same_value (text_value s) (text_value t) = s == t
same_value empty_value empty_value = true
same_value (item_value v vs) (item_value w ws) = same_value v w && same_value vs ws
same_value _ _ = false

same_value_sound : (a b : Value) → same_value a b ≡ true → a ≡ b
same_value_sound null_value null_value h = refl
same_value_sound (number_value m) (number_value n) h = ground arith
same_value_sound (text_value s) (text_value t) h = ground (arith, ==_iff s t)
same_value_sound empty_value empty_value h = refl
same_value_sound (item_value v vs) (item_value w ws) h =
    ground (arith, same_value_sound v w, same_value_sound vs ws)
same_value_sound _ _ h = cc

same_value_refl : (a : Value) → same_value a a ≡ true
same_value_refl null_value = refl
same_value_refl (number_value m) = ground arith
same_value_refl (text_value s) = ground (arith, ==_iff s s)
same_value_refl empty_value = refl
same_value_refl (item_value v vs) = ground (arith, same_value_refl v, same_value_refl vs)

pub same_value_iff : (a b : Value) → (same_value a b ≡ true) ↔ (a ≡ b)
same_value_iff a b =
    (same_value_sound a b, λ e. ap (λ v. same_value a v) (sym e) ∙ same_value_refl a)

abbrev pub values_json : Json Value
values_json = record {
  kind = kind_of;
  display = λ v. text "value";
  same = same_value;
  same_iff = same_value_iff;
  of_null = null_value;
  of_string = text_value;
  of_array = of_items;
  kind-of_null = refl;
  kind-of_string = λ s. refl;
  kind-of_array = kind-of_items;
}

-- Numbers for `f64`, in hundredths.
abbrev pub hundredths : Float ℕ
hundredths = record {
  is_finite = λ x. true;
  le = leb;
  lt = ltb;
  same = nat_eq;
  partial_cmp = λ a b. some (compare a b);
  zero_f = 0;
  half_f = 50;
  one_f = 100;
  display = decimal;
}

-- No native filter is read.
abbrev pub no_native : Value → Text ⊎ NativeBranchViewFilter Value
no_native value = inl (text "unknown field")
