-- ===== src/Handle/Selected.antt =====
-- crates/dag-ml-data-core/src/handle.rs: the relations that a view asks for, said of the fields of the
-- view and of the relation.
use dag_ml_data.Handle.Filters.{
  passes_native_iff, passes_tags_iff, HasTags, passes_metadata_iff, HasEntries, is_of_source_iff,
  passes_sources_iff, OfSources, passes, in_samples_iff, IsSelected, OfSourcesIf, OfBranch, OfMode,
}
use dag_ml_data.Handle.Requests.{DataView}
use dag_ml_data.Handle.Views.{
  selects, branch_filters, mode_filters, matches_native, matches_tags, matches_metadata, in_sources,
  BranchFilters, as_set, in_samples,
}
use dag_ml_data.Coordinator.Branches.{
  check_tags, check_equals, read_ok, parse_native_branch_view_filter, by_tag, by_metadata,
  by_source, separation, CoordinatorBranchViewMode, CoordinatorBranchView, NativeBranchViewFilter,
}
use dag_ml_data.Coordinator.Relations.{CoordinatorRelation}
use dag_ml_data.Coordinator.Branches.{separation, by_source, by_metadata, by_tag, by_filter}
use dag_ml_data.Json.{Json}
use dag_ml_data.Common.{
  ◌≡◌, refl, ap, subst, ◌↔◌, ◌⊎◌, inl, inr, Bool, true, false, not, ◌&&◌, ◌||◌, false≢true, Option,
  none, some, List, [], ◌++◌, arith, is_empty, filter,
}
use dag_ml_data.Order.{nat_ord, list_ord}
use dag_ml_data.Text.{Text, text}
use dag_ml_data.Error.{
  ok_or_found, ok_injective, validation, Result, ok, ◌>>◌, refuse, for_each, ok_or, >>=-eq-ok,
}
use dag_ml_data.Order.{pair_ord}
use dag_ml_data.Error.{>>-eq-ok}
use dag_ml_data.Common.{filter}

read_ok-inr :
    {J : Type 0} (json : Json J) (read_filter : J → Text ⊎ NativeBranchViewFilter J) (label : Text)
    (read : Text ⊎ NativeBranchViewFilter J) (native : NativeBranchViewFilter J)
    → read_ok json read_filter label read ≡ ok native
    → read ≡ inr native
read_ok-inr json read_filter label (inl error) native fine = cc
read_ok-inr json read_filter label (inr filter) native fine = ap inr (ok_injective fine)

after_checks :
    {A : Type 0} (a b c : Result (Unit {0})) {x y : A} → (a >> (b >> (c >> ok x))) ≡ ok y → x ≡ y
after_checks a b c {x} {y} h =
    let (first, h1) = >>-eq-ok a (b >> (c >> ok x)) h in
    let (second, h2) = >>-eq-ok b (c >> ok x) h1 in
    let (third, h3) = >>-eq-ok c (ok x) h2 in ok_injective h3

module _ {J : Type 0} (json : Json J) (read_filter : J → Text ⊎ NativeBranchViewFilter J) where
  parsed-inr :
      (value : J) (label : Text) (native : NativeBranchViewFilter J)
      → parse_native_branch_view_filter json read_filter value label ≡ ok native
      → read_filter value ≡ inr native
  unfolding parse_native_branch_view_filter
  parsed-inr value label native fine =
      let (read, at_read, h1) =
        >>=-eq-ok (read_ok json read_filter label (read_filter value)) _ fine in
      subst (λ n. read_filter value ≡ inr n)
        (after_checks
          (refuse (is_empty read.metadata_equals && is_empty read.tags_all) (
            validation (
              label
              ++ text " mode=by_filter predicate must constrain metadata_equals or tags_all")))
          (for_each (check_equals json label) read.metadata_equals)
          (check_tags label (text " mode=by_filter tags_all") [] read.tags_all) h1)
        (read_ok-inr json read_filter label (read_filter value) read at_read)

module _ {J F : Type 0} (json : Json J) (read_filter : J → Text ⊎ NativeBranchViewFilter J) where
  mode_filters_iff :
      (view : CoordinatorBranchView J) (mode : CoordinatorBranchViewMode) (branch : BranchFilters J)
      → mode_filters json read_filter view mode ≡ ok branch
      → (relation : CoordinatorRelation J F)
      → (passes json branch relation ≡ true) ↔ OfMode read_filter mode view.selector relation
  unfolding mode_filters OfMode
  mode_filters_iff view by_source branch fine relation =
      subst (λ b. (passes json b relation ≡ true) ↔ OfSources view.selector.source_ids relation)
        (ok_injective fine) (passes_sources_iff json view.selector.source_ids relation)
  mode_filters_iff view by_metadata branch fine relation =
      subst (λ b. (passes json b relation ≡ true) ↔ HasEntries view.selector.metadata relation)
        (ok_injective fine) (passes_metadata_iff json view.selector.metadata relation)
  mode_filters_iff view by_tag branch fine relation =
      subst (λ b. (passes json b relation ≡ true) ↔ HasTags view.selector.tags relation)
        (ok_injective fine) (passes_tags_iff json view.selector.tags relation)
  mode_filters_iff view separation branch fine relation =
      subst (λ b. (passes json b relation ≡ true) ↔ Unit) (ok_injective fine) (λ h. tt, λ h. refl)
  mode_filters_iff view by_filter branch fine relation =
      let (value, at_value, h1) = >>=-eq-ok (ok_or view.selector.native_filter _) _ fine in
      let (native, parsed, h2) =
        >>=-eq-ok (parse_native_branch_view_filter json read_filter value _) _ h1 in
      let named = ok_or_found view.selector.native_filter _ at_value in
      let read = parsed-inr json read_filter value _ native parsed in
      let same = passes_native_iff json native relation in
      subst
        (λ b. (passes json b relation ≡ true) ↔ OfMode read_filter by_filter view.selector relation)
        (ok_injective h2)
        (
          λ h. (value, native, named, read, (same.0 h).0, (same.0 h).1),
          λ h.
              let (other, limits, named_again, read_again, entries, tags) = h in
              same.1 (
                subst
                  (λ (n : NativeBranchViewFilter J).
                    HasEntries n.metadata_equals relation × HasTags n.tags_all relation)
                  (ground (arith, named, named_again, read, read_again)) (entries, tags)),
        )

  branch_filters_iff :
      (view : Option (CoordinatorBranchView J)) (branch : BranchFilters J)
      → branch_filters json read_filter view ≡ ok branch
      → (relation : CoordinatorRelation J F)
      → (passes json branch relation ≡ true) ↔ OfBranch read_filter view relation
  unfolding branch_filters OfBranch
  branch_filters_iff none branch fine relation =
      subst (λ b. (passes json b relation ≡ true) ↔ Unit) (ok_injective fine) (λ h. tt, λ h. refl)
  branch_filters_iff (some view) branch fine relation =
      mode_filters_iff view view.mode branch fine relation

eight_tests :
    (a b c d e f g h : Bool)
    → ((a && b && c && d && e && f && g && h) ≡ true)
      ↔ ((a ≡ true) × (b ≡ true) × ((c && d && e && f) ≡ true) × (g ≡ true) × (h ≡ true))
eight_tests a b c d e f g h = ground arith

unless : (a b : Bool) → ((a || not b) ≡ true) ↔ (b ≡ true → a ≡ true)
unless a true = (λ h e. ground (arith, h), λ h. ground (arith, h refl))
unless a false = (λ h e. absurd (false≢true e), λ h. ground arith)

module _ {J F : Type 0} (json : Json J) (read_filter : J → Text ⊎ NativeBranchViewFilter J) where
  in_sources_iff :
      (sources : Option (List Text)) (relation : CoordinatorRelation J F)
      → (in_sources json (as_set sources) relation ≡ true) ↔ OfSourcesIf sources relation
  unfolding OfSourcesIf OfSources
  in_sources_iff none relation = (λ h. tt, λ h. refl)
  in_sources_iff (some sources) relation = is_of_source_iff sources relation.source_id

  -- The tests of the code hold just at the relations that the view asks for.
  pub selects_iff :
      (view : DataView J) (branch : BranchFilters J)
      → branch_filters json read_filter view.branch_view ≡ ok branch
      → (relation : CoordinatorRelation J F)
      → (selects json view branch relation ≡ true) ↔ IsSelected read_filter view relation
  unfolding selects
  selects_iff view branch fine relation =
      let tests =
        eight_tests (in_samples json (as_set view.sample_ids) relation)
          (in_sources json (as_set view.source_ids) relation)
          (in_sources json branch.sources relation) (matches_metadata json branch.selected relation)
          (matches_tags json branch.tags relation) (matches_native json branch.native relation)
          (view.include_augmented || not relation.is_augmented)
          (view.include_excluded || not relation.excluded) in
      let of_sample = in_samples_iff json view.sample_ids relation in
      let of_source = in_sources_iff view.source_ids relation in
      let of_branch = branch_filters_iff json read_filter view.branch_view branch fine relation in
      let augmented = unless view.include_augmented relation.is_augmented in
      let excluded = unless view.include_excluded relation.excluded in
      (
        λ h.
            let (a, b, c, d, e) = tests.0 h in
            record {
              of_sample = of_sample.0 a;
              of_source = of_source.0 b;
              of_branch = of_branch.0 c;
              augmented = augmented.0 d;
              excluded = excluded.0 e;
            },
        λ r. tests.1 (
          of_sample.1 r.of_sample,
          of_source.1 r.of_source,
          of_branch.1 r.of_branch,
          augmented.1 r.augmented,
          excluded.1 r.excluded,
        ),
      )
