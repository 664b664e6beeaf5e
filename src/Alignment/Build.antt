-- ===== src/Alignment/Build.antt =====
-- `build_sample_alignment_plan` as a whole.
use dag_ml_data.Common.{
  ◌≡◌, refl, sym, ap, ◌∙◌, subst, true, false, false≢true, List, [], ◌∷◌, arith, is_empty,
}
use dag_ml_data.Order.{nat_ord, list_ord}
use dag_ml_data.Text.{Text}
use dag_ml_data.Collections.{contains, Distinct}
use dag_ml_data.Error.{ok}
use dag_ml_data.Alignment.{
  AlignmentMode, AlignmentPolicy, SourceSampleSet, SampleAlignmentPlan, source_sets,
  aligned_samples, masks_of, build_sample_alignment_plan,
}
use dag_ml_data.Alignment.Select.{IsSources, in_mode, source_sets_sound, source_sets_total}
use dag_ml_data.Alignment.Modes.{contains-aligned_samples, aligned_samples-Distinct}
use dag_ml_data.Alignment.Checks.{masks, masks_of_lem, validate_plan_total}

-- What a plan says of its sources: exactly the samples of the mode, each once, and for each source, in
-- order, a mask with a flag for each sample that tells whether the source has it.
pub record IsPlan (mode : AlignmentMode) (sources : List SourceSampleSet)
    (plan : SampleAlignmentPlan) : Type 0 where
  pub sources_valid : IsSources sources
  pub same_mode : plan.mode ≡ mode
  pub nonempty : is_empty plan.sample_ids ≡ false
  pub distinct : Distinct plan.sample_ids
  pub selected : (s : Text) → contains s plan.sample_ids ≡ in_mode mode s sources
  pub presence : plan.masks ≡ masks plan.sample_ids sources

record Built (sources : List SourceSampleSet) (policy : AlignmentPolicy)
    (plan : SampleAlignmentPlan) : Type 0 where
  sets : List (List Text)
  has_sources : is_empty sources ≡ false
  collected : source_sets [] sources ≡ ok sets
  has_samples : is_empty (aligned_samples policy.mode sources sets) ≡ false
  result : plan ≡ record {
    mode = policy.mode;
    sample_ids = aligned_samples policy.mode sources sets;
    masks = masks_of (aligned_samples policy.mode sources sets) sources sets;
  }

build_parts :
    (sources : List SourceSampleSet) (policy : AlignmentPolicy) (plan : SampleAlignmentPlan)
    → build_sample_alignment_plan sources policy ≡ ok plan
    → Built sources policy plan
unfolding build_sample_alignment_plan
build_parts sources policy plan h = ground arith

-- A plan that is built is one of its sources under the mode.
pub build_sound :
    (sources : List SourceSampleSet) (policy : AlignmentPolicy) (plan : SampleAlignmentPlan)
    → build_sample_alignment_plan sources policy ≡ ok plan
    → IsPlan policy.mode sources plan
build_sound sources policy plan h =
    let b = build_parts sources policy plan h in
    let (v, fresh, same) = source_sets_sound [] sources b.sets b.collected in
    let ids = aligned_samples policy.mode sources b.sets in
    let e : plan.sample_ids ≡ ids = ap (λ p. p.sample_ids) b.result in
    record {
      sources_valid = v;
      same_mode = ap (λ p. p.mode) b.result;
      nonempty = ap is_empty e ∙ b.has_samples;
      distinct = subst Distinct (sym e) (aligned_samples-Distinct policy.mode sources b.sets v);
      selected = λ s.
          ap (contains s) e
          ∙ contains-aligned_samples policy.mode sources b.sets s b.has_sources same;
      presence =
          ap (λ p. p.masks) b.result
          ∙ masks_of_lem ids sources b.sets same
          ∙ ap (λ l. masks l sources) (sym e);
    }

nonempty_of : (xs : List Text) (s : Text) → contains s xs ≡ true → is_empty xs ≡ false
nonempty_of [] s m = absurd (false≢true m)
nonempty_of (x ∷ xs) s m = refl

-- For one or more distinct sources, each with samples and none of them twice, and a sample that the mode
-- asks for, a plan is built: the checks on the finished plan never refuse it.
pub build_total :
    (sources : List SourceSampleSet) (policy : AlignmentPolicy) (s : Text)
    → is_empty sources ≡ false
    → IsSources sources
    → in_mode policy.mode s sources ≡ true
    → (plan : SampleAlignmentPlan) × (build_sample_alignment_plan sources policy ≡ ok plan)
unfolding build_sample_alignment_plan
build_total sources policy s ne v m =
    let (sets, collected) = source_sets_total [] sources v (λ b m'. refl) in
    let (_, fresh, same) = source_sets_sound [] sources sets collected in
    let ids = aligned_samples policy.mode sources sets in
    let selected = λ (t : Text). contains-aligned_samples policy.mode sources sets t ne same in
    let has_samples = nonempty_of ids s (selected s ∙ m) in
    let valid =
      validate_plan_total policy.mode sources ids ne has_samples v.distinct
        (aligned_samples-Distinct policy.mode sources sets v) (λ t m'. sym (selected t) ∙ m') in
    (
      record { mode = policy.mode; sample_ids = ids; masks = masks_of ids sources sets },
      ground (arith, masks_of_lem ids sources sets same),
    )
