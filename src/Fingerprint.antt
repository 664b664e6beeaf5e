-- ===== src/Fingerprint.antt =====
-- crates/dag-ml-data-core/src/fingerprint.rs: canonical JSON and its SHA-256.
pub mod Artifacts
pub mod Permuted
use dag_ml_data.Common.{ℕ, List}
use dag_ml_data.Order.{nat_ord, list_ord}
use dag_ml_data.Text.{Text}
use dag_ml_data.Error.{Result, ok, ◌>>=◌}
use dag_ml_data.Order.{pair_ord}
use dag_ml_data.ContentHash.{hex}

-- For a type `T`, the calls of `serde_json` (`to_value`, `from_value` and `to_vec`, and
-- `Value::sort_all_objects`) and `Sha256::digest` of the crate `sha2`.
pub record Codec (J T : Type 0) : Type 0 where
  pub to_value : T → Result J
  pub sort_all_objects : J → J
  pub from_value : J → Result T
  pub to_vec : T → Result (List ℕ)
  pub digest : List ℕ → List ℕ

module _ {J T : Type 0} (codec : Codec J T) where
  unfoldable pub canonical_typed_json : T → Result (List ℕ)
  canonical_typed_json value = do
    json ← codec.to_value value
    canonical ← codec.from_value (codec.sort_all_objects json)
    codec.to_vec canonical

  unfoldable pub typed_fingerprint : T → Result Text
  unfolding canonical_typed_json
  typed_fingerprint value = do json ← canonical_typed_json value; ok (hex (codec.digest json))
