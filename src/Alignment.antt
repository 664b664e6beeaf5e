-- ===== src/Alignment.antt =====
-- crates/dag-ml-data-core/src/alignment.rs: the samples on which several sources are joined, and which
-- source has which; with `PresenceMask` of model.rs.
pub mod Select
pub mod Modes
pub mod Checks
pub mod Build
use dag_ml_data.Common.{
  get_elem?, ℕ, zero, suc, ◌+◌, ◌-◌, ◌*◌, ◌^◌, ◌≤◌, ◌<◌, ◌≡◌, refl, sym, ap, ◌∙◌, subst, ◌≢◌, ◌↔◌,
  ◌⊎◌, inl, inr, Bool, true, false, not, ◌&&◌, ◌||◌, false≢true, Option, none, some, List, [], ◌∷◌,
  ◌++◌, arith, ltb, leb, nat_eq, if◌then◌else◌, Bool-cases, is_some, length, is_empty, all, any,
  All, filter, filter_map, find, map, append_assoc, append-nil,
}
use dag_ml_data.Order.{Ord, ◌==◌, ==_iff, ==_refl, nat_ord, list_ord, then}
use dag_ml_data.Text.{Text, text, is_blank, byte_len, decimal}
use dag_ml_data.Collections.{
  Map, key, keys, values, put, get, contains_key, modify, remove, get-put, get-modify, contains,
  Distinct, insert, collect, contains-insert, contains-collect,
}
use dag_ml_data.Error.{
  DataError, validation, Result, ok, err, ◌>>=◌, ◌>>◌, done, refuse, for_each, ok_or, refuse_iff,
  >>_iff, >>=-eq-ok, for_each_iff,
}
use dag_ml_data.Relation.Folds.{quote}

pub data AlignmentMode : Type 0 where
  inner left outer : AlignmentMode

pub record AlignmentPolicy : Type 0 where
  pub mode : AlignmentMode

pub record SourceSampleSet : Type 0 where
  pub source_id : Text
  pub sample_ids : List Text

pub record PresenceMask : Type 0 where
  pub sample_ids : List Text
  pub source_id : Text
  pub present : List Bool

pub record SampleAlignmentPlan : Type 0 where
  pub mode : AlignmentMode
  pub sample_ids : List Text
  pub masks : List PresenceMask

-- `{:?}` of the mode.
unfoldable pub mode_name : AlignmentMode → Text
mode_name inner = text "Inner"
mode_name left = text "Left"
mode_name outer = text "Outer"

-- `PresenceMask::validate`.
unfoldable pub validate_mask : PresenceMask → Result (Unit {0})
validate_mask mask = refuse (not (nat_eq (length mask.sample_ids) (length mask.present))) (
    validation (
      quote "presence mask for `" mask.source_id "` has "
      ++ (decimal (length mask.sample_ids)
          ++ (text " sample ids but " ++ (decimal (length mask.present) ++ text " flags")))))

unfoldable pub check_samples : List Text → List Text → Result (Unit {0})
check_samples seen [] = done
check_samples seen (s ∷ samples) =
    refuse (contains s seen) (validation (quote "alignment plan contains duplicate sample `" s "`"))
    >> check_samples (insert s seen) samples

unfoldable pub check_mask : List Text → List Text → PresenceMask → Result (Unit {0})
check_mask sample_ids seen mask = do
  validate_mask mask
  refuse (not (mask.sample_ids == sample_ids)) (
      validation
        (quote "presence mask for `" mask.source_id "` does not use alignment sample order"))
  refuse (contains mask.source_id seen)
      (validation (quote "alignment plan contains duplicate source mask `" mask.source_id "`"))

unfoldable pub check_masks : List Text → List Text → List PresenceMask → Result (Unit {0})
check_masks sample_ids seen [] = done
check_masks sample_ids seen (mask ∷ masks) =
    check_mask sample_ids seen mask >> check_masks sample_ids (insert mask.source_id seen) masks

-- `mask.present[idx]`: the checks above leave no index out of range.
unfoldable pub present_at : ℕ → PresenceMask → Bool
present_at idx mask = elim (get_elem? mask.present idx) [ none ↦ false | some b ↦ b ]

-- `self.masks[0].present[idx]`: the list of masks is not empty.
abbrev pub first_present : ℕ → List PresenceMask → Bool
first_present idx [] = false
first_present idx (mask ∷ masks) = present_at idx mask

unfoldable pub presence_ok : AlignmentMode → ℕ → List PresenceMask → Bool
unfolding present_at
presence_ok inner idx masks = all (present_at idx) masks
presence_ok left idx masks = first_present idx masks
presence_ok outer idx masks = any (present_at idx) masks

unfoldable pub check_presence : AlignmentMode → List PresenceMask → ℕ → Text → Result (Unit {0})
unfolding presence_ok
check_presence mode masks idx s = do
  refuse (not (any (present_at idx) masks))
      (validation (quote "alignment sample `" s "` is absent from every fused source"))
  refuse (not (presence_ok mode idx masks)) (
      validation (
        quote "alignment presence for sample `" s "` violates "
        ++ (mode_name mode ++ text " mode")))

unfoldable pub check_presences :
    AlignmentMode → List PresenceMask → ℕ → List Text → Result (Unit {0})
check_presences mode masks idx [] = done
check_presences mode masks idx (s ∷ samples) =
    check_presence mode masks idx s >> check_presences mode masks (suc idx) samples

-- `SampleAlignmentPlan::validate`.
unfoldable pub validate_plan : SampleAlignmentPlan → Result (Unit {0})
unfolding check_samples check_masks check_presences
validate_plan plan = do
  refuse (is_empty plan.sample_ids) (validation (text "alignment plan contains no samples"))
  check_samples [] plan.sample_ids
  refuse (is_empty plan.masks) (validation (text "alignment plan contains no presence masks"))
  check_masks plan.sample_ids [] plan.masks
  check_presences plan.mode plan.masks 0 plan.sample_ids

-- The set of the samples of a source.
unfoldable pub source_set : Text → List Text → List Text → Result (List Text)
source_set source_id seen [] = ok seen
source_set source_id seen (s ∷ samples) =
    refuse (contains s seen) (
      validation
        (quote "alignment source `" source_id "` contains duplicate sample `" ++ (s ++ text "`")))
    >> source_set source_id (insert s seen) samples

unfoldable pub source_sets : List Text → List SourceSampleSet → Result (List (List Text))
unfolding source_set
source_sets seen [] = ok []
source_sets seen (source ∷ sources) = do
  refuse (contains source.source_id seen)
      (validation (quote "alignment contains duplicate source `" source.source_id "`"))
  refuse (is_empty source.sample_ids)
      (validation (quote "alignment source `" source.source_id "` contains no samples"))
  samples ← source_set source.source_id [] source.sample_ids
  rest ← source_sets (insert source.source_id seen) sources
  ok (samples ∷ rest)

-- The loops of the outer mode: a sample is pushed when it is new.
pub record Ordered : Type 0 where
  pub seen : List Text
  pub ordered : List Text

unfoldable pub push_new : Ordered → List Text → Ordered
push_new st [] = st
push_new st (s ∷ samples) =
    push_new
      (if contains s st.seen
        then st
        else record { seen = insert s st.seen; ordered = st.ordered ++ s ∷ [] })
      samples

unfoldable pub push_sources : Ordered → List SourceSampleSet → Ordered
push_sources st [] = st
push_sources st (source ∷ sources) = push_sources (push_new st source.sample_ids) sources

-- `sources[0].sample_ids`: there is a source.
abbrev pub first_samples : List SourceSampleSet → List Text
first_samples [] = []
first_samples (source ∷ sources) = source.sample_ids

unfoldable pub aligned_samples : AlignmentMode → List SourceSampleSet → List (List Text) → List Text
unfolding push_sources push_new
aligned_samples inner sources sets = filter (λ s. all (contains s) sets) (first_samples sources)
aligned_samples left sources sets = first_samples sources
aligned_samples outer sources sets =
    (push_sources (record { seen = []; ordered = [] }) sources).ordered

-- The masks, over `sources.iter().zip(samples_by_source.iter())`.
unfoldable pub masks_of : List Text → List SourceSampleSet → List (List Text) → List PresenceMask
masks_of sample_ids (source ∷ sources) (samples ∷ sets) =
    record {
      sample_ids = sample_ids;
      source_id = source.source_id;
      present = map (λ s. contains s samples) sample_ids;
    }
    ∷ masks_of sample_ids sources sets
masks_of sample_ids _ _ = []

unfoldable pub build_sample_alignment_plan :
    List SourceSampleSet → AlignmentPolicy → Result SampleAlignmentPlan
unfolding source_sets aligned_samples masks_of validate_plan
build_sample_alignment_plan sources policy = do
  refuse (is_empty sources) (validation (text "alignment requires at least one source"))
  sets ← source_sets [] sources
  let sample_ids = aligned_samples policy.mode sources sets
  refuse (is_empty sample_ids)
      (validation (mode_name policy.mode ++ text " alignment produced no shared samples"))
  let plan : SampleAlignmentPlan = record {
    mode = policy.mode;
    sample_ids = sample_ids;
    masks = masks_of sample_ids sources sets;
  }
  validate_plan plan
  ok plan
