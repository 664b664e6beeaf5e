-- ===== src/Handle/Views.antt =====
-- crates/dag-ml-data-core/src/handle.rs: which relations a view selects of those of its handle.
use dag_ml_data.Common.{
  ℕ, suc, ◌-◌, ◌^◌, ◌⊎◌, Bool, true, false, not, ◌&&◌, ◌||◌, Option, none, some, List, [], ◌∷◌,
  ◌++◌, if◌then◌else◌, is_some, length, is_empty, all, any, map,
}
use dag_ml_data.Order.{◌==◌, nat_ord, list_ord, then}
use dag_ml_data.Text.{Text, text, is_blank}
use dag_ml_data.Collections.{Map, key, put, get, contains, collect}
use dag_ml_data.Error.{validation, Result, ok, ◌>>=◌, ◌>>◌, done, refuse, for_each, ok_or}
use dag_ml_data.Order.{pair_ord}
use dag_ml_data.Common.{Ordering, compare}
use dag_ml_data.Common.Sorting.{sort_by}
use dag_ml_data.Order.{option_ord}
use dag_ml_data.Json.{Json, same_option}
use dag_ml_data.Schema.Dataset.{repeats}
use dag_ml_data.Coordinator.Relations.{CoordinatorRelation}
use dag_ml_data.Coordinator.Branches.{
  CoordinatorBranchView, CoordinatorBranchViewMode, separation, by_source, by_metadata, by_tag,
  by_filter, NativeBranchViewFilter, parse_native_branch_view_filter, validate_branch_view,
  view_label,
}
use dag_ml_data.Handle.Requests.{
  DataView, CoordinatorDataHandleRecord, validate_non_empty, eq_ignore_ascii_case,
}

unfoldable pub check_label : Text × Option Text → Result (Unit {0})
check_label (key, none) = done
check_label (key, some value) = validate_non_empty key value

unfoldable pub repeats_option : Option (List Text) → Bool
unfolding repeats
repeats_option none = false
repeats_option (some ids) = repeats ids

abbrev pub has_blank : Option (List Text) → Bool
has_blank none = false
has_blank (some columns) = any is_blank columns

module _ {J : Type 0} (json : Json J) (read_filter : J → Text ⊎ NativeBranchViewFilter J) where
  abbrev pub check_branch : Option (CoordinatorBranchView J) → Result (Unit {0})
  check_branch none = done
  check_branch (some view) = validate_branch_view json read_filter view

  unfoldable pub validate_view : DataView J → Result (Unit {0})
  unfolding check_label repeats_option
  validate_view view = do
    for_each check_label ((text "partition", view.part) ∷ (text "fold_id", view.fold_id) ∷ [])
    refuse (repeats_option view.sample_ids)
        (validation (text "data view contains duplicate sample ids"))
    refuse (repeats_option view.source_ids)
        (validation (text "data view contains duplicate source ids"))
    refuse (repeats_option view.columns) (validation (text "data view contains duplicate columns"))
    refuse (has_blank view.columns) (validation (text "data view contains an empty column"))
    check_branch view.branch_view

-- The view takes the whole handle: its partition is `full_train`, or `predict` on a handle of that phase.
unfoldable pub whole_handle : CoordinatorDataHandleRecord → Option Text → Result Bool
whole_handle parent none = ok false
whole_handle parent (some part) =
    if part == text "full_train"
    then ok true
    else if part == text "predict"
    then refuse (not (eq_ignore_ascii_case parent.phase (text "predict"))) (
        validation
          (text "partition=predict requires a PREDICT materialized handle or explicit sample_ids"))
      >> ok true
    else ok false

abbrev pub part_label : Bool → Option Text → List (Text × Text)
part_label false (some part) = (text "partition", part) ∷ []
part_label _ _ = []

abbrev pub fold_label : Bool → Option Text → Option Text → List (Text × Text)
fold_label whole parent_fold none = []
fold_label whole parent_fold (some fold) =
    if not whole || not (parent_fold == some fold) then (text "fold_id", fold) ∷ [] else []

unfoldable pub resolved_view_labels :
    {J : Type 0} → DataView J → CoordinatorDataHandleRecord → Result (List (Text × Text))
unfolding whole_handle
resolved_view_labels view parent =
    if is_some view.sample_ids
    then ok []
    else (whole_handle parent view.part >>= λ whole.
        ok (part_label whole view.part ++ fold_label whole parent.fold_id view.fold_id))

abbrev pub as_set : Option (List Text) → Option (List Text)
as_set none = none
as_set (some ids) = some (collect ids)

-- The four filters of a branch view, of which its mode sets one.
pub record BranchFilters (J : Type 0) : Type 0 where
  pub sources : Option (List Text)
  pub selected : Option (Map Text J)
  pub tags : Option (List Text)
  pub native : Option (NativeBranchViewFilter J)

abbrev pub no_filter : {J : Type 0} → BranchFilters J
no_filter = record { sources = none; selected = none; tags = none; native = none }

abbrev pub is_of_source : List Text → Option Text → Bool
is_of_source sources none = false
is_of_source sources (some source_id) = contains source_id sources

module _ {J F : Type 0} (json : Json J) where
  abbrev pub in_samples : Option (List Text) → CoordinatorRelation J F → Bool
  in_samples none relation = true
  in_samples (some samples) relation = contains relation.sample_id samples

  abbrev pub in_sources : Option (List Text) → CoordinatorRelation J F → Bool
  in_sources none relation = true
  in_sources (some sources) relation = is_of_source sources relation.source_id

  unfoldable pub has_entries : Map Text J → CoordinatorRelation J F → Bool
  unfolding same_option
  has_entries selector relation =
      all (λ entry. same_option json (get entry.0 relation.metadata) (some entry.1)) selector

  abbrev pub matches_metadata : Option (Map Text J) → CoordinatorRelation J F → Bool
  matches_metadata none relation = true
  matches_metadata (some selector) relation = has_entries selector relation

  abbrev pub has_tags : List Text → CoordinatorRelation J F → Bool
  has_tags tags relation = all (λ tag. contains tag relation.tags) tags

  abbrev pub matches_tags : Option (List Text) → CoordinatorRelation J F → Bool
  matches_tags none relation = true
  matches_tags (some tags) relation = has_tags tags relation

  abbrev pub matches_native : Option (NativeBranchViewFilter J) → CoordinatorRelation J F → Bool
  matches_native none relation = true
  matches_native (some native) relation =
      has_entries native.metadata_equals relation && has_tags native.tags_all relation

  -- The chain of the filters.
  unfoldable pub selects : DataView J → BranchFilters J → CoordinatorRelation J F → Bool
  unfolding has_entries
  selects view branch relation =
      in_samples (as_set view.sample_ids) relation
      && in_sources (as_set view.source_ids) relation
      && in_sources branch.sources relation
      && matches_metadata branch.selected relation
      && matches_tags branch.tags relation
      && matches_native branch.native relation
      && (view.include_augmented || not relation.is_augmented)
      && (view.include_excluded || not relation.excluded)

  -- `filter_map` of the enumerated relations.
  unfoldable pub select_from :
      DataView J
      → BranchFilters J
      → ℕ
      → List (CoordinatorRelation J F)
      → List (ℕ × CoordinatorRelation J F)
  unfolding selects
  select_from view branch idx [] = []
  select_from view branch idx (relation ∷ relations) =
      let rest = select_from view branch (suc idx) relations in
      if selects view branch relation then (idx, relation) ∷ rest else rest

-- `sample_order`: the position of each sample.
unfoldable pub positions : ℕ → List Text → Map Text ℕ → Map Text ℕ
positions idx [] order = order
positions idx (sample ∷ samples) order = positions (suc idx) samples (put sample idx order)

-- `usize::MAX`, on 64 bits.
abbrev pub usize_max : ℕ
usize_max = 2 ^ 64 - 1

abbrev pub position_in : Map Text ℕ → Text → ℕ
position_in order sample = elim (get sample order) [ none ↦ usize_max | some position ↦ position ]

module _ {J F : Type 0} where
  unfoldable pub cmp_position :
      Map Text ℕ → ℕ × CoordinatorRelation J F → ℕ × CoordinatorRelation J F → Ordering
  cmp_position order (i, a) (j, b) =
      (then) (compare (position_in order a.sample_id) (position_in order b.sample_id)) (compare i j)

  abbrev pub relations_of : List (ℕ × CoordinatorRelation J F) → List (CoordinatorRelation J F)
  relations_of [] = []
  relations_of ((idx, relation) ∷ rest) = relation ∷ relations_of rest

  -- The relations in the order of the samples of the view, where it names them.
  unfoldable pub in_view_order :
      Option (List Text) → List (ℕ × CoordinatorRelation J F) → List (ℕ × CoordinatorRelation J F)
  unfolding positions cmp_position
  in_view_order none filtered = filtered
  in_view_order (some samples) filtered = sort_by (cmp_position (positions 0 samples [])) filtered

  unfoldable pub unique_sample_count : List (CoordinatorRelation J F) → ℕ
  unique_sample_count relations = length (collect (map (λ relation. relation.sample_id) relations))

module _ {J : Type 0} (json : Json J) (read_filter : J → Text ⊎ NativeBranchViewFilter J) where
  unfoldable pub mode_filters :
      CoordinatorBranchView J → CoordinatorBranchViewMode → Result (BranchFilters J)
  mode_filters view by_source =
      ok (record no_filter { sources = some (collect view.selector.source_ids) })
  mode_filters view by_metadata = ok (record no_filter { selected = some view.selector.metadata })
  mode_filters view by_tag = ok (record no_filter { tags = some (collect view.selector.tags) })
  mode_filters view separation = ok no_filter
  mode_filters view by_filter = do
    value ←
        ok_or view.selector.native_filter
          (validation (view_label view.view_id ++ text " mode=by_filter requires filter"))
    native ← parse_native_branch_view_filter json read_filter value (view_label view.view_id)
    ok (record no_filter { native = some native })

  unfoldable pub branch_filters : Option (CoordinatorBranchView J) → Result (BranchFilters J)
  unfolding mode_filters
  branch_filters none = ok no_filter
  branch_filters (some view) = mode_filters view view.mode

module _ {J F : Type 0} (json : Json J) (read_filter : J → Text ⊎ NativeBranchViewFilter J) where
  unfoldable pub filter_relations :
      List (CoordinatorRelation J F) → DataView J → Result (List (CoordinatorRelation J F))
  unfolding branch_filters select_from in_view_order
  filter_relations relations view = do
    branch ← branch_filters json read_filter view.branch_view
    let filtered : List (ℕ × CoordinatorRelation J F) = select_from json view branch 0 relations
    refuse (is_empty filtered) (validation (text "data view selected no coordinator relations"))
    ok (relations_of (in_view_order view.sample_ids filtered))
