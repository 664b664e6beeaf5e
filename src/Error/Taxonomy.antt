-- ===== src/Error/Taxonomy.antt =====
-- The taxonomy of crates/dag-ml-data-core/src/error.rs: category, code and the packed number.
use Prim.Native.Nat.{bit_or}
use dag_ml_data.Common.{ℕ, ◌≡◌, refl, ◌≢◌, ◌↔◌, ◌*◌, ◌^◌, ◌/◌, ◌%◌, ◌<◌, arith}
use dag_ml_data.Text.{Text, text}
use dag_ml_data.Error.{
  DataError, invalid_identifier, validation, fingerprint_mismatch, unknown_handle,
  relation_boundary_violation, incompatible_reducer, signal_type_mismatch, serialization,
}

pub taxonomy_parts : DataError → Text × Text × Text
taxonomy_parts (invalid_identifier v r) =
    (text "validation", text "invalid_identifier", text "error")
taxonomy_parts (validation m) = (text "data", text "data_contract_validation", text "error")
taxonomy_parts (fingerprint_mismatch k e a) =
    (text "compatibility", text "fingerprint_mismatch", text "error")
taxonomy_parts (unknown_handle k h) = (text "runtime", text "unknown_handle", text "error")
taxonomy_parts (relation_boundary_violation k d) =
    (text "data", text "relation_boundary_violation", text "error")
taxonomy_parts (incompatible_reducer r t) = (text "data", text "incompatible_reducer", text "error")
taxonomy_parts (signal_type_mismatch e a) =
    (text "compatibility", text "signal_type_mismatch", text "error")
taxonomy_parts (serialization m) = (text "compatibility", text "serialization_error", text "error")

abbrev pub category : DataError → Text
category e = (taxonomy_parts e).0

abbrev pub error_name : DataError → Text
error_name e = (taxonomy_parts e).1

pub numeric_taxonomy : DataError → ℕ × ℕ
numeric_taxonomy (invalid_identifier v r) = (0, 1)
numeric_taxonomy (validation m) = (2, 1)
numeric_taxonomy (relation_boundary_violation k d) = (2, 2)
numeric_taxonomy (incompatible_reducer r t) = (2, 3)
numeric_taxonomy (unknown_handle k h) = (1, 1)
numeric_taxonomy (fingerprint_mismatch k e a) = (8, 2)
numeric_taxonomy (signal_type_mismatch e a) = (8, 3)
numeric_taxonomy (serialization m) = (8, 1)

-- The shift left by 16 keeps 32 bits.
pub error_code : DataError → ℕ
error_code e =
    let (category_id, code_id) = numeric_taxonomy e in
    bit_or (category_id * 2 ^ 16 % 2 ^ 32) code_id

category_id_lem : (e : DataError) → error_code e / 65536 ≡ (numeric_taxonomy e).0
unfolding error_code numeric_taxonomy
category_id_lem (invalid_identifier v r) = refl
category_id_lem e = refl

code_id_lem : (e : DataError) → error_code e % 65536 ≡ (numeric_taxonomy e).1
unfolding error_code numeric_taxonomy
code_id_lem (invalid_identifier v r) = refl
code_id_lem e = refl

-- The number that stands for an error: never 0, the sentinel of "no error", below 2 ^ 32, and its
-- two halves are the category id and the code id.
pub error_code-packs :
    (e : DataError)
    → (error_code e ≢ 0)
      × (error_code e < 2 ^ 32)
      × (error_code e / 2 ^ 16 ≡ (numeric_taxonomy e).0)
      × (error_code e % 2 ^ 16 ≡ (numeric_taxonomy e).1)
unfolding error_code numeric_taxonomy
error_code-packs (invalid_identifier v r) = omega arith
error_code-packs e = omega arith

-- Two errors have the same number exactly when they have the same category and code.
pub error_code_iff :
    (a b : DataError) → (error_code a ≡ error_code b) ↔ (taxonomy_parts a ≡ taxonomy_parts b)
unfolding error_code numeric_taxonomy taxonomy_parts text
error_code_iff (invalid_identifier _ _) (invalid_identifier _ _) = ground arith
error_code_iff a b = ground arith
