-- ===== src/Ids.antt =====
-- crates/dag-ml-data-core/src/ids.rs: the grammar of identifiers. Each newtype of `define_id!` wraps a
-- text that `validate_identifier` accepts, and keeps its order.
use dag_ml_data.Common.{
  ℕ, ◌≡◌, ◌↔◌, ◌<◌, ◌≤◌, Bool, true, not, ◌||◌, all, is_empty, ltb, nat_eq, arith, [], ◌∷◌, refl,
}
use dag_ml_data.Text.{Text, text, byte_len, is_ascii_alphanumeric}
use dag_ml_data.Error.{Result, ok, invalid_identifier, refuse, ◌>>◌}

abbrev pub is_id_char : ℕ → Bool
is_id_char c = is_ascii_alphanumeric c || nat_eq c b'_' || nat_eq c b'-' || nat_eq c b'.'

pub validate_identifier : Text → Result (Unit {0})
validate_identifier value = do
  refuse (is_empty value) (invalid_identifier value (text "identifier is empty"))
  refuse (ltb 128 (byte_len value))
      (invalid_identifier value (text "identifier is longer than 128 bytes"))
  refuse (not (all is_id_char value))
      (invalid_identifier value (text "identifier contains unsupported characters"))

-- `$name::new`.
pub new_id : Text → Result Text
new_id value = do validate_identifier value; ok value

byte_len_nil : byte_len [] ≡ 0
unfolding byte_len
byte_len_nil = refl

byte_len_pos : (c : ℕ) (s : Text) → 0 < byte_len (c ∷ s)
unfolding byte_len
byte_len_pos c s = ground arith

-- An id is built exactly from the texts of 1 to 128 bytes whose characters are ASCII letters, digits,
-- `_`, `-` and `.`, and it is that text.
pub new_id_iff :
    (value id : Text)
    → (new_id value ≡ ok id) ↔ (
        (0 < byte_len value)
        × (byte_len value ≤ 128)
        × (all is_id_char value ≡ true)
        × (id ≡ value))
unfolding new_id validate_identifier
new_id_iff [] id = ground (arith, byte_len_nil)
new_id_iff (c ∷ s) id = ground (arith, byte_len_pos c s)
