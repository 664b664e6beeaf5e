-- ===== src/Tests/Blocks.antt =====
-- Targets and features of the view of the run of the arena.
use dag_ml_data.Coordinator.Relations.{new_relation}
use dag_ml_data.Handle.Arena.{insert_data, insert_view, view_identity}
use dag_ml_data.Handle.Features.{feature_values}
use dag_ml_data.Handle.Values.{target_values_sound, IsTargetBlock}
use dag_ml_data.Handle.Tables.{
  validate_targets, validate_target_values, CoordinatorTargetTable, CoordinatorFeatureTable,
}
use dag_ml_data.Handle.Targets.{CoordinatorTargetBlock, target_values}
use dag_ml_data.Handle.Projection.{feature_values-Answers, Answers}
use dag_ml_data.Common.{◌≡◌, refl, [], ◌∷◌}
use dag_ml_data.Order.{cmp_option, nat_ord, list_ord}
use dag_ml_data.Text.{text}
use dag_ml_data.Collections.{put, get, insert}
use dag_ml_data.Error.{ok}
use dag_ml_data.Order.{pair_ord, cmp_list}
use dag_ml_data.Tests.Values.{Value, number_value, values_json}
use dag_ml_data.Tests.Handles.{view_arena}

abbrev protein : CoordinatorTargetTable Value
protein = record {
  target_id = text "protein";
  entries =
      record { sample_id = text "s1"; value = number_value 11 }
      ∷ record { sample_id = text "s2"; value = number_value 12 }
      ∷ [];
}

abbrev protein_block : CoordinatorTargetBlock Value
protein_block = record {
  target_id = text "protein";
  sample_ids = text "s2" ∷ text "s1" ∷ [];
  target_row = number_value 12 ∷ number_value 11 ∷ [];
}

run_targets : target_values values_json view_arena 2 protein ≡ ok protein_block
unfolding target_values validate_target_values validate_targets view_identity insert_view
    insert_data get put cmp_list text insert new_relation cmp_option
run_targets = refl

target_values_sound_example : IsTargetBlock view_arena 2 protein protein_block
target_values_sound_example =
    target_values_sound values_json view_arena 2 protein protein_block run_targets

abbrev spectra : CoordinatorFeatureTable Value
spectra = record {
  feature_set_id = text "nir";
  representation_id = text "signal";
  feature_names = text "a" ∷ text "b" ∷ [];
  rows =
      record { observation_id = text "o1"; cells = number_value 1 ∷ number_value 2 ∷ [] }
      ∷ record { observation_id = text "o2"; cells = number_value 3 ∷ number_value 4 ∷ [] }
      ∷ [];
}

feature_values-Answers_example : Answers view_arena 2 spectra (feature_values view_arena 2 spectra)
feature_values-Answers_example = feature_values-Answers view_arena 2 spectra
