-- ===== src/Tests/Combos.antt =====
-- A combo of two observations of one sample.
use dag_ml_data.Aggregation.{is_control}
use dag_ml_data.Coordinator.Sets.{validate_relations-IsRelationSet, IsRelationSet}
use dag_ml_data.Coordinator.Relations.{
  CoordinatorEntityUnitLevel, new_relation, CoordinatorRelationSet, validate_relations,
}
use dag_ml_data.Common.{ℕ, ◌≡◌, refl, some, [], ◌∷◌}
use dag_ml_data.Order.{nat_ord, list_ord}
use dag_ml_data.Text.{text, is_blank}
use dag_ml_data.Collections.{insert}
use dag_ml_data.Error.{done}
use dag_ml_data.Order.{pair_ord, cmp_list}
use dag_ml_data.Tests.Values.{Value, hundredths}

abbrev combined : CoordinatorRelationSet Value ℕ
combined = record {
  records =
      new_relation (text "o1") (text "s1")
      ∷ new_relation (text "o2") (text "s1")
      ∷ record (new_relation (text "o3") (text "s1")) {
        unit_level = CoordinatorEntityUnitLevel.combo;
        derived_unit_id = some (text "u");
        component_observation_ids = text "o1" ∷ text "o2" ∷ [];
        sample_influence_weight = some 50;
      }
      ∷ [];
}

combined-valid : validate_relations hundredths combined ≡ done
unfolding validate_relations new_relation insert cmp_list text is_blank is_control
combined-valid = refl

validate_relations-IsRelationSet_example : IsRelationSet hundredths combined
validate_relations-IsRelationSet_example =
    validate_relations-IsRelationSet hundredths combined combined-valid
