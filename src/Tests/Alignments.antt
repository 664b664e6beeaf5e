-- ===== src/Tests/Alignments.antt =====
-- Two sources that share a sample.
use dag_ml_data.Common.{◌≡◌, refl, true, List, [], ◌∷◌}
use dag_ml_data.Order.{nat_ord, list_ord}
use dag_ml_data.Collections.{insert}
use dag_ml_data.Error.{ok}
use dag_ml_data.Order.{cmp_list}
use dag_ml_data.Alignment.{
  check_presence, validate_mask, check_mask, AlignmentPolicy, inner, SourceSampleSet,
  SampleAlignmentPlan, build_sample_alignment_plan,
}
use dag_ml_data.Alignment.Select.{IsSources, in_mode}
use dag_ml_data.Alignment.Build.{IsPlan, build_sound, build_total}

abbrev sources : List SourceSampleSet
sources =
    record { source_id = 97 ∷ []; sample_ids = (50 ∷ []) ∷ (49 ∷ []) ∷ [] }
    ∷ record { source_id = 98 ∷ []; sample_ids = (51 ∷ []) ∷ (49 ∷ []) ∷ [] }
    ∷ []

abbrev shared : SampleAlignmentPlan
shared = record {
  mode = inner;
  sample_ids = (49 ∷ []) ∷ [];
  masks =
      record { sample_ids = (49 ∷ []) ∷ []; source_id = 97 ∷ []; present = true ∷ [] }
      ∷ record { sample_ids = (49 ∷ []) ∷ []; source_id = 98 ∷ []; present = true ∷ [] }
      ∷ [];
}

abbrev policy : AlignmentPolicy
policy = record { mode = inner }

build-shared : build_sample_alignment_plan sources policy ≡ ok shared
unfolding build_sample_alignment_plan cmp_list insert check_mask validate_mask check_presence
build-shared = refl

build_sound_example : IsPlan inner sources shared
build_sound_example = build_sound sources policy shared build-shared

sources-IsSources : IsSources sources
unfolding cmp_list
sources-IsSources = record {
  distinct = (refl, (refl, tt));
  each = ((refl, (refl, (refl, tt))), ((refl, (refl, (refl, tt))), tt));
}

sources_share : in_mode inner (49 ∷ []) sources ≡ true
unfolding cmp_list
sources_share = refl

build_total_example :
    (plan : SampleAlignmentPlan) × (build_sample_alignment_plan sources policy ≡ ok plan)
build_total_example = build_total sources policy (49 ∷ []) refl sources-IsSources sources_share
