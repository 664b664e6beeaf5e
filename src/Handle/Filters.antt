-- ===== src/Handle/Filters.antt =====
-- crates/dag-ml-data-core/src/handle.rs: what the filters of a view ask of a relation.
use dag_ml_data.Handle.Requests.{DataView}
use dag_ml_data.Handle.Views.{
  matches_native, matches_tags, matches_metadata, in_sources, no_filter, BranchFilters, as_set,
  has_entries, has_tags, in_samples, is_of_source,
}
use dag_ml_data.Coordinator.Branches.{
  by_tag, by_metadata, by_source, separation, CoordinatorBranchViewSelector,
  CoordinatorBranchViewMode, CoordinatorBranchView, NativeBranchViewFilter,
}
use dag_ml_data.Coordinator.Relations.{CoordinatorRelation}
use dag_ml_data.Coordinator.Branches.{separation, by_source, by_metadata, by_tag, by_filter}
use dag_ml_data.Json.{same_option, Json}
use dag_ml_data.Common.{
  &&_iff, ◌≡◌, refl, sym, ap, ◌∙◌, subst, ◌↔◌, ◌⊎◌, inr, Bool, true, ◌&&◌, Option, none, some, List,
  [], ◌∷◌, arith, all, All,
}
use dag_ml_data.Order.{nat_ord, list_ord}
use dag_ml_data.Text.{Text}
use dag_ml_data.Collections.{Map, get, contains, collect, contains-collect}
use dag_ml_data.Order.{pair_ord}
use dag_ml_data.Collections.{All-of_contains, All_at}
use dag_ml_data.Common.{All}

module _ {J F : Type 0} where
  unfoldable pub OfSamples : Option (List Text) → CoordinatorRelation J F → Type 0
  OfSamples none relation = Unit
  OfSamples (some samples) relation = contains relation.sample_id samples ≡ true

  unfoldable pub OfSources : List Text → CoordinatorRelation J F → Type 0
  OfSources sources relation =
      (source : Text) × (relation.source_id ≡ some source) × (contains source sources ≡ true)

  unfoldable pub OfSourcesIf : Option (List Text) → CoordinatorRelation J F → Type 0
  unfolding OfSources
  OfSourcesIf none relation = Unit
  OfSourcesIf (some sources) relation = OfSources sources relation

  unfoldable pub HasEntries : Map Text J → CoordinatorRelation J F → Type 0
  HasEntries entries relation = All (λ entry. get entry.0 relation.metadata ≡ some entry.1) entries

  unfoldable pub HasTags : List Text → CoordinatorRelation J F → Type 0
  HasTags tags relation = All (λ tag. contains tag relation.tags ≡ true) tags

module _ {J F : Type 0} (read_filter : J → Text ⊎ NativeBranchViewFilter J) where
  -- The relation has what the selector constrains in the mode.
  unfoldable pub OfMode :
      CoordinatorBranchViewMode → CoordinatorBranchViewSelector J → CoordinatorRelation J F → Type 0
  unfolding OfSources HasEntries HasTags
  OfMode separation selector relation = Unit
  OfMode by_source selector relation = OfSources selector.source_ids relation
  OfMode by_metadata selector relation = HasEntries selector.metadata relation
  OfMode by_tag selector relation = HasTags selector.tags relation
  OfMode by_filter selector relation =
      (value : J) × (native : NativeBranchViewFilter J) × (selector.native_filter ≡ some value)
      × (read_filter value ≡ inr native)
      × HasEntries native.metadata_equals relation
      × HasTags native.tags_all relation

  unfoldable pub OfBranch : Option (CoordinatorBranchView J) → CoordinatorRelation J F → Type 0
  unfolding OfMode
  OfBranch none relation = Unit
  OfBranch (some view) relation = OfMode view.mode view.selector relation

  -- A relation that the view asks for.
  pub record IsSelected (view : DataView J) (relation : CoordinatorRelation J F) : Type 0 where
    pub of_sample : OfSamples view.sample_ids relation
    pub of_source : OfSourcesIf view.source_ids relation
    pub of_branch : OfBranch view.branch_view relation
    pub augmented : relation.is_augmented ≡ true → view.include_augmented ≡ true
    pub excluded : relation.excluded ≡ true → view.include_excluded ≡ true

module _ {ℓ} {A : Type ℓ} where
  all_iff :
      (p : A → Bool) (P : A → Type 0)
      → ((x : A) → (p x ≡ true) ↔ P x)
      → (xs : List A) → (all p xs ≡ true) ↔ All P xs
  all_iff p P same [] = (λ h. tt, λ h. refl)
  all_iff p P same (x ∷ xs) =
      let rest = all_iff p P same xs in
      let both = &&_iff (p x) (all p xs) in
      (
        λ h. ((same x).0 (both.0 h).0, rest.0 (both.0 h).1),
        λ h. both.1 ((same x).1 h.0, rest.1 h.1),
      )

All-collect_iff : (P : Text → Type 0) (xs : List Text) → All P (collect xs) ↔ All P xs
All-collect_iff P xs = (
  λ held. All-of_contains P xs (λ x at. All_at P (collect xs) held x (contains-collect x xs ∙ at)),
  λ held.
      All-of_contains P (collect xs)
        (λ x at. All_at P xs held x (sym (contains-collect x xs) ∙ at)),
)

pub is_of_source_iff :
    (sources : List Text) (source_id : Option Text)
    → (is_of_source (collect sources) source_id ≡ true)
      ↔ ((source : Text) × (source_id ≡ some source) × (contains source sources ≡ true))
is_of_source_iff sources none =
    (λ h. ground (arith, h), λ h. let (source, named, held) = h in ground (arith, named))
is_of_source_iff sources (some source) = (
  λ h. (source, refl, sym (contains-collect source sources) ∙ h),
  λ h.
      let (other, named, held) = h in
      contains-collect source sources
      ∙ subst (λ s. contains s sources ≡ true) (ground (arith, named)) held,
)

module _ {J : Type 0} (json : Json J) where
  same_option_iff : (a b : Option J) → (same_option json a b ≡ true) ↔ (a ≡ b)
  unfolding same_option
  same_option_iff none none = (λ h. refl, λ h. refl)
  same_option_iff (some a) (some b) =
      (λ h. ap some ((json.same_iff a b).0 h), λ h. (json.same_iff a b).1 (ground (arith, h)))
  same_option_iff none (some b) = (λ h. ground (arith, h), λ h. ground (arith, h))
  same_option_iff (some a) none = (λ h. ground (arith, h), λ h. ground (arith, h))

leading : (b : Bool) → (b && true && true && true) ≡ b
leading b = ground arith

leading_two : (b : Bool) → (b && true && true) ≡ b
leading_two b = ground arith

module _ {J F : Type 0} (json : Json J) where
  pub in_samples_iff :
      (samples : Option (List Text)) (relation : CoordinatorRelation J F)
      → (in_samples json (as_set samples) relation ≡ true) ↔ OfSamples samples relation
  unfolding OfSamples
  in_samples_iff none relation = (λ h. tt, λ h. refl)
  in_samples_iff (some samples) relation =
      let same = contains-collect relation.sample_id samples in (λ h. sym same ∙ h, λ h. same ∙ h)

  has_entries_iff :
      (entries : Map Text J) (relation : CoordinatorRelation J F)
      → (has_entries json entries relation ≡ true) ↔ HasEntries entries relation
  unfolding has_entries HasEntries
  has_entries_iff entries relation =
      all_iff (λ entry. same_option json (get entry.0 relation.metadata) (some entry.1))
        (λ entry. get entry.0 relation.metadata ≡ some entry.1)
        (λ entry. same_option_iff json (get entry.0 relation.metadata) (some entry.1)) entries

  has_tags_iff :
      (tags : List Text) (relation : CoordinatorRelation J F)
      → (has_tags json tags relation ≡ true) ↔ HasTags tags relation
  unfolding HasTags
  has_tags_iff tags relation =
      all_iff (λ tag. contains tag relation.tags) (λ tag. contains tag relation.tags ≡ true)
        (λ tag. (λ h. h, λ h. h)) tags

  -- The filters of the branch.
  abbrev pub passes : BranchFilters J → CoordinatorRelation J F → Bool
  passes branch relation =
      in_sources json branch.sources relation
      && matches_metadata json branch.selected relation
      && matches_tags json branch.tags relation
      && matches_native json branch.native relation

  pub passes_sources_iff :
      (sources : List Text) (relation : CoordinatorRelation J F)
      → (passes (record no_filter { sources = some (collect sources) }) relation ≡ true)
        ↔ OfSources sources relation
  unfolding OfSources
  passes_sources_iff sources relation =
      let same = is_of_source_iff sources relation.source_id in
      (
        λ h. same.0 (sym (leading (is_of_source (collect sources) relation.source_id)) ∙ h),
        λ h. leading (is_of_source (collect sources) relation.source_id) ∙ same.1 h,
      )

  pub passes_metadata_iff :
      (entries : Map Text J) (relation : CoordinatorRelation J F)
      → (passes (record no_filter { selected = some entries }) relation ≡ true)
        ↔ HasEntries entries relation
  passes_metadata_iff entries relation =
      let same = has_entries_iff entries relation in
      (
        λ h. same.0 (sym (leading_two (has_entries json entries relation)) ∙ h),
        λ h. leading_two (has_entries json entries relation) ∙ same.1 h,
      )

  pub passes_tags_iff :
      (tags : List Text) (relation : CoordinatorRelation J F)
      → (passes (record no_filter { tags = some (collect tags) }) relation ≡ true)
        ↔ HasTags tags relation
  unfolding HasTags
  passes_tags_iff tags relation =
      let same = has_tags_iff (collect tags) relation in
      let all_tags = All-collect_iff (λ tag. contains tag relation.tags ≡ true) tags in
      (
        λ h. all_tags.0 (same.0 ((&&_iff _ true).0 h).0),
        λ h. (&&_iff _ true).1 (same.1 (all_tags.1 h), refl),
      )

  pub passes_native_iff :
      (native : NativeBranchViewFilter J) (relation : CoordinatorRelation J F)
      → (passes (record no_filter { native = some native }) relation ≡ true)
        ↔ (HasEntries native.metadata_equals relation × HasTags native.tags_all relation)
  passes_native_iff native relation =
      let both =
        &&_iff (has_entries json native.metadata_equals relation)
          (has_tags json native.tags_all relation) in
      let entries = has_entries_iff native.metadata_equals relation in
      let tags = has_tags_iff native.tags_all relation in
      (λ h. (entries.0 (both.0 h).0, tags.0 (both.0 h).1), λ h. both.1 (entries.1 h.0, tags.1 h.1))
