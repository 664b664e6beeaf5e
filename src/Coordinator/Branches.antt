-- ===== src/Coordinator/Branches.antt =====
-- crates/dag-ml-data-core/src/coordinator.rs: the branch views of the coordinator and their selectors.
-- `read_filter` is `serde_json::from_value` at `NativeBranchViewFilter`, with the text of its error.
use dag_ml_data.Common.{
  ◌⊎◌, inl, inr, Bool, false, not, ◌&&◌, ◌||◌, Option, none, some, List, [], ◌∷◌, ◌++◌, is_some,
  is_empty, filter,
}
use dag_ml_data.Order.{nat_ord, list_ord}
use dag_ml_data.Text.{Text, text, is_blank}
use dag_ml_data.Collections.{Map, key, keys, contains, insert}
use dag_ml_data.Error.{validation, Result, ok, err, ◌>>=◌, ◌>>◌, done, refuse, for_each, ok_or}
use dag_ml_data.Order.{pair_ord}
use dag_ml_data.Relation.Folds.{quote}
use dag_ml_data.Json.{Json, is_null}

pub data CoordinatorBranchViewMode : Type 0 where
  separation by_source by_metadata by_tag by_filter : CoordinatorBranchViewMode

pub record CoordinatorBranchViewSelector (J : Type 0) : Type 0 where
  pub source_ids : List Text
  pub metadata : Map Text J
  pub tags : List Text
  pub native_filter : Option J

pub record NativeBranchViewFilter (J : Type 0) : Type 0 where
  pub metadata_equals : Map Text J
  pub tags_all : List Text

pub record CoordinatorBranchView (J : Type 0) : Type 0 where
  pub view_id : Text
  pub branch_id : Text
  pub mode : CoordinatorBranchViewMode
  pub selector : CoordinatorBranchViewSelector J
  pub allow_overlap : Bool
  pub metadata : Map Text J

-- The loop over tags, with those seen.
unfoldable pub check_tags : Text → Text → List Text → List Text → Result (Unit {0})
check_tags label place seen [] = done
check_tags label place seen (tag ∷ tags) = do
  refuse (is_blank tag) (validation (label ++ (place ++ text " contains an empty entry")))
  refuse (contains tag seen)
      (validation (label ++ (place ++ quote " contains duplicate `" tag "`")))
  check_tags label place (insert tag seen) tags

unfoldable pub check_source_ids : Text → List Text → List Text → Result (Unit {0})
check_source_ids label seen [] = done
check_source_ids label seen (source_id ∷ source_ids) = do
  refuse (contains source_id seen)
      (validation (label ++ quote " selector source_ids contains duplicate `" source_id "`"))
  check_source_ids label (insert source_id seen) source_ids

abbrev pub view_label : Text → Text
view_label view_id = quote "coordinator branch view `" view_id "`"

module _ {J : Type 0} (json : Json J) where
  unfoldable pub check_equals : Text → Text × J → Result (Unit {0})
  check_equals label (key, value) = do
    refuse (is_blank key)
        (validation (label ++ text " mode=by_filter metadata_equals contains an empty key"))
    refuse (is_null json value)
        (validation (label ++ quote " mode=by_filter metadata_equals `" key "` must not be null"))

  abbrev pub is_null_option : Option J → Bool
  is_null_option none = false
  is_null_option (some value) = is_null json value

  -- `CoordinatorBranchViewSelector::validate`.
  unfoldable pub validate_selector : Text → CoordinatorBranchViewSelector J → Result (Unit {0})
  unfolding check_source_ids check_tags
  validate_selector label selector = do
    refuse
        (is_empty selector.source_ids
          && is_empty selector.metadata
          && is_empty selector.tags
          && not (is_some selector.native_filter))
        (validation (label ++ text " selector must constrain source_ids, metadata, tags or filter"))
    check_source_ids label [] selector.source_ids
    check_tags label (text " selector tags") [] selector.tags
    for_each
        (λ key.
          refuse (is_blank key)
            (validation (label ++ text " selector contains an empty metadata key")))
        (keys selector.metadata)
    refuse (is_null_option selector.native_filter)
        (validation (label ++ text " selector filter must not be null"))

  module _ (read_filter : J → Text ⊎ NativeBranchViewFilter J) where
    abbrev pub read_ok : Text → Text ⊎ NativeBranchViewFilter J → Result (NativeBranchViewFilter J)
    read_ok label (inl error) = err (
        validation (
          label
          ++ (text " mode=by_filter requires the native predicate {metadata_equals, tags_all}: "
              ++ error)))
    read_ok label (inr filter) = ok filter

    unfoldable pub parse_native_branch_view_filter : J → Text → Result (NativeBranchViewFilter J)
    unfolding check_equals check_tags
    parse_native_branch_view_filter value label = do
      native ← read_ok label (read_filter value)
      refuse (is_empty native.metadata_equals && is_empty native.tags_all) (
          validation
            (label ++ text " mode=by_filter predicate must constrain metadata_equals or tags_all"))
      for_each (check_equals label) native.metadata_equals
      check_tags label (text " mode=by_filter tags_all") [] native.tags_all
      ok native

    -- The match on the mode.
    unfoldable pub check_mode :
        Text → CoordinatorBranchViewSelector J → CoordinatorBranchViewMode → Result (Unit {0})
    unfolding parse_native_branch_view_filter
    check_mode label selector by_source =
        refuse (is_empty selector.source_ids)
          (validation (label ++ text " mode=by_source requires source_ids"))
    check_mode label selector by_metadata =
        refuse (is_empty selector.metadata)
          (validation (label ++ text " mode=by_metadata requires metadata"))
    check_mode label selector by_tag =
        refuse (is_empty selector.tags) (validation (label ++ text " mode=by_tag requires tags"))
    check_mode label selector by_filter = do
      refuse
          (not (is_empty selector.source_ids)
            || not (is_empty selector.metadata)
            || not (is_empty selector.tags))
          (validation (label ++ text " mode=by_filter accepts constraints only inside filter"))
      value ←
          ok_or selector.native_filter
            (validation (label ++ text " mode=by_filter requires filter"))
      native ← parse_native_branch_view_filter value label
      done
    check_mode label selector separation = done

    -- `CoordinatorBranchView::validate`.
    unfoldable pub validate_branch_view : CoordinatorBranchView J → Result (Unit {0})
    unfolding validate_selector check_mode
    validate_branch_view view = do
      refuse (is_blank view.view_id) (validation (text "coordinator branch view view_id is empty"))
      refuse (is_blank view.branch_id)
          (validation (view_label view.view_id ++ text " branch_id is empty"))
      validate_selector (view_label view.view_id) view.selector
      for_each
          (λ key.
            refuse (is_blank key)
              (validation (view_label view.view_id ++ text " metadata contains an empty key")))
          (keys view.metadata)
      check_mode (view_label view.view_id) view.selector view.mode
