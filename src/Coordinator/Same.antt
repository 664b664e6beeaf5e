-- ===== src/Coordinator/Same.antt =====
-- The derived equality (`PartialEq`) of relations and of cohorts, in coordinator.rs and
-- predict_cohort.rs of crates/dag-ml-data-core/src.
use dag_ml_data.Common.{Bool, true, false, ◌&&◌, Option, none, some, List, [], ◌∷◌}
use dag_ml_data.Order.{◌==◌, nat_ord, list_ord}
use dag_ml_data.Text.{Text}
use dag_ml_data.Collections.{Map}
use dag_ml_data.Order.{pair_ord}
use dag_ml_data.Order.{option_ord}
use dag_ml_data.Json.{Json}
use dag_ml_data.Float.{Float}
use dag_ml_data.Coordinator.Relations.{
  CoordinatorEntityUnitLevel, physical_sample, source_sample, observation, combo,
  CoordinatorRelation,
}
use dag_ml_data.Coordinator.Cohort.{PredictCohort, same_bool, is_external}

unfoldable pub same_level : CoordinatorEntityUnitLevel → CoordinatorEntityUnitLevel → Bool
same_level physical_sample physical_sample = true
same_level source_sample source_sample = true
same_level observation observation = true
same_level combo combo = true
same_level _ _ = false

module _ {J F : Type 0} (json : Json J) (f64 : Float F) where
  unfoldable pub same_map : Map Text J → Map Text J → Bool
  same_map [] [] = true
  same_map ((k, v) ∷ m) ((j, w) ∷ n) = k == j && json.same v w && same_map m n
  same_map _ _ = false

  unfoldable pub same_weight : Option F → Option F → Bool
  same_weight none none = true
  same_weight (some a) (some b) = f64.same a b
  same_weight _ _ = false

  unfoldable pub same_relation : CoordinatorRelation J F → CoordinatorRelation J F → Bool
  unfolding same_level same_map same_weight
  same_relation a b =
      same_level a.unit_level b.unit_level
      && a.unit_id == b.unit_id
      && a.observation_id == b.observation_id
      && a.sample_id == b.sample_id
      && a.source_id == b.source_id
      && a.rep_id == b.rep_id
      && a.target_id == b.target_id
      && a.group_id == b.group_id
      && a.origin_sample_id == b.origin_sample_id
      && a.derived_unit_id == b.derived_unit_id
      && a.component_observation_ids == b.component_observation_ids
      && same_weight a.sample_influence_weight b.sample_influence_weight
      && a.quality_flag == b.quality_flag
      && same_bool a.is_augmented b.is_augmented
      && same_bool a.excluded b.excluded
      && same_map a.metadata b.metadata
      && a.tags == b.tags

  unfoldable pub same_records :
      List (CoordinatorRelation J F) → List (CoordinatorRelation J F) → Bool
  unfolding same_relation
  same_records [] [] = true
  same_records (a ∷ xs) (b ∷ ys) = same_relation a b && same_records xs ys
  same_records _ _ = false

  unfoldable pub same_cohort : PredictCohort J F → PredictCohort J F → Bool
  unfolding same_records
  same_cohort a b =
      same_bool (is_external a.role) (is_external b.role)
      && a.physical_sample_ids == b.physical_sample_ids
      && a.origin_sample_ids == b.origin_sample_ids
      && a.target_names == b.target_names
      && a.relation_fingerprint == b.relation_fingerprint
      && same_records a.relations.records b.relations.records
      && a.data_content_fingerprint == b.data_content_fingerprint
      && a.target_content_fingerprint == b.target_content_fingerprint
      && a.cohort_fingerprint == b.cohort_fingerprint
