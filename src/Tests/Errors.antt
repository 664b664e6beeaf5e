-- ===== src/Tests/Errors.antt =====
-- Errors and identifiers.
use dag_ml_data.Common.{◌%◌, ◌/◌, ◌^◌, ◌≤◌, ◌<◌, ◌≡◌, ◌≢◌, ◌↔◌, true, [], ◌∷◌, all}
use dag_ml_data.Order.{nat_ord, list_ord}
use dag_ml_data.Text.{Text, byte_len}
use dag_ml_data.Error.{validation, ok}
use dag_ml_data.Error.{unknown_handle}
use dag_ml_data.Error.Taxonomy.{
  taxonomy_parts, numeric_taxonomy, error_code, error_code-packs, error_code_iff,
}
use dag_ml_data.Ids.{new_id, is_id_char, new_id_iff}

error_code-packs_example :
    (error_code (unknown_handle [] 3) ≢ 0)
    × (error_code (unknown_handle [] 3) < 2 ^ 32)
    × (error_code (unknown_handle [] 3) / 2 ^ 16 ≡ (numeric_taxonomy (unknown_handle [] 3)).0)
    × (error_code (unknown_handle [] 3) % 2 ^ 16 ≡ (numeric_taxonomy (unknown_handle [] 3)).1)
error_code-packs_example = error_code-packs (unknown_handle [] 3)

error_code_iff_example :
    (error_code (unknown_handle [] 3) ≡ error_code (validation []))
    ↔ (taxonomy_parts (unknown_handle [] 3) ≡ taxonomy_parts (validation []))
error_code_iff_example = error_code_iff (unknown_handle [] 3) (validation [])

abbrev x1 : Text
x1 = b'x' ∷ b'1' ∷ []

new_id_iff_example :
    (new_id x1 ≡ ok x1)
    ↔ ((0 < byte_len x1) × (byte_len x1 ≤ 128) × (all is_id_char x1 ≡ true) × (x1 ≡ x1))
new_id_iff_example = new_id_iff x1 x1
