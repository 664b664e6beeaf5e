-- ===== src/Coordinator/Relations.antt =====
-- crates/dag-ml-data-core/src/coordinator.rs: the relations of the coordinator, the units that they
-- name, and the validation of a set of them.
use dag_ml_data.Common.{
  Bool, true, false, not, ◌&&◌, ◌||◌, Option, none, some, List, [], ◌∷◌, ◌++◌, is_some, is_empty,
  any,
}
use dag_ml_data.Order.{◌==◌, nat_ord, list_ord, then}
use dag_ml_data.Text.{Text, text, is_blank}
use dag_ml_data.Collections.{Map, contains, insert}
use dag_ml_data.Error.{validation, Result, ok, ◌>>=◌, ◌>>◌, done, refuse, for_each, ok_or}
use dag_ml_data.Order.{pair_ord, cmp_list}
use dag_ml_data.Relation.Folds.{quote}
use dag_ml_data.Aggregation.{is_control}
use dag_ml_data.Float.{Float}
use dag_ml_data.Common.Sorting.{sort_by}
use dag_ml_data.Common.{Ordering}
use dag_ml_data.Fingerprint.{Codec, typed_fingerprint}

pub data CoordinatorEntityUnitLevel : Type 0 where
  physical_sample source_sample observation combo : CoordinatorEntityUnitLevel

pub record CoordinatorRelation (J F : Type 0) : Type 0 where
  pub unit_level : CoordinatorEntityUnitLevel
  pub unit_id : Option Text
  pub observation_id : Text
  pub sample_id : Text
  pub source_id : Option Text
  pub rep_id : Option Text
  pub target_id : Option Text
  pub group_id : Option Text
  pub origin_sample_id : Option Text
  pub derived_unit_id : Option Text
  pub component_observation_ids : List Text
  pub sample_influence_weight : Option F
  pub quality_flag : Option Text
  pub is_augmented : Bool
  pub excluded : Bool
  pub metadata : Map Text J
  pub tags : List Text

pub record CoordinatorRelationSet (J F : Type 0) : Type 0 where
  pub records : List (CoordinatorRelation J F)

-- A given text that is blank or has a control character.
abbrev pub is_bad_text : Option Text → Bool
is_bad_text none = false
is_bad_text (some value) = is_blank value || any is_control value

abbrev pub is_combo : CoordinatorEntityUnitLevel → Bool
is_combo combo = true
is_combo _ = false

abbrev pub named_unit : Option Text → Result Text → Result Text
named_unit none otherwise = otherwise
named_unit (some unit_id) otherwise = ok unit_id

abbrev pub is_other : Option Text → Text → Bool
is_other none sample_id = false
is_other (some origin) sample_id = not (origin == sample_id)

module _ {J F : Type 0} where
  -- `CoordinatorRelation::new`.
  unfoldable pub new_relation : Text → Text → CoordinatorRelation J F
  new_relation observation_id sample_id = record {
    unit_level = observation;
    unit_id = none;
    observation_id = observation_id;
    sample_id = sample_id;
    source_id = none;
    rep_id = none;
    target_id = none;
    group_id = none;
    origin_sample_id = none;
    derived_unit_id = none;
    component_observation_ids = [];
    sample_influence_weight = none;
    quality_flag = none;
    is_augmented = false;
    excluded = false;
    metadata = [];
    tags = [];
  }

  unfoldable pub check_text : CoordinatorRelation J F → Text × Option Text → Result (Unit {0})
  check_text relation (label, value) =
      refuse (is_bad_text value)
        (validation (quote "relation `" relation.observation_id "` has invalid " ++ label))

  -- The unit of a relation that does not name one.
  unfoldable pub default_unit : CoordinatorRelation J F → CoordinatorEntityUnitLevel → Result Text
  default_unit relation physical_sample = ok relation.sample_id
  default_unit relation observation = ok relation.observation_id
  default_unit relation source_sample = do
    source ←
        ok_or relation.source_id (validation (text "source_sample relation requires source_id"))
    ok (relation.sample_id ++ (text "::" ++ source))
  default_unit relation combo =
      ok_or relation.derived_unit_id (validation (text "combo relation requires derived_unit_id"))

  unfoldable pub effective_unit_id : CoordinatorRelation J F → Result Text
  unfolding check_text default_unit
  effective_unit_id relation = do
    for_each (check_text relation) (
        (text "unit_id", relation.unit_id)
        ∷ (text "rep_id", relation.rep_id)
        ∷ (text "derived_unit_id", relation.derived_unit_id)
        ∷ (text "quality_flag", relation.quality_flag)
        ∷ [])
    named_unit relation.unit_id (default_unit relation relation.unit_level)

  -- A component is a relation of the set, of the same sample.
  abbrev pub is_component : CoordinatorRelation J F → Text → CoordinatorRelation J F → Bool
  is_component entry component row =
      row.observation_id == component && row.sample_id == entry.sample_id

  -- The loop over the components, with those seen.
  unfoldable pub check_components :
      List (CoordinatorRelation J F)
      → CoordinatorRelation J F
      → List Text
      → List Text
      → Result (Unit {0})
  check_components records entry seen [] = done
  check_components records entry seen (component ∷ components) = do
    refuse
        (component == entry.observation_id
          || contains component seen
          || not (any (is_component entry component) records))
        (validation (text "combo component is missing, repeated or belongs to another sample"))
    check_components records entry (insert component seen) components

  unfoldable pub check_combo :
      List (CoordinatorRelation J F) → CoordinatorRelation J F → Bool → Result (Unit {0})
  unfolding check_components
  check_combo records entry false = done
  check_combo records entry true = do
    refuse
        (not (is_some entry.derived_unit_id)
          || is_empty entry.component_observation_ids
          || is_other entry.origin_sample_id entry.sample_id)
        (validation (text "combo relation has invalid identity or components"))
    check_components records entry [] entry.component_observation_ids

abbrev pub is_bad_weight : {F : Type 0} → Float F → Option F → Bool
is_bad_weight f64 none = false
is_bad_weight f64 (some weight) = not (f64.is_finite weight) || f64.le weight f64.zero_f

module _ {J F : Type 0} (f64 : Float F) where
  -- The loop of `CoordinatorRelationSet::validate`, over the records with the observations and the
  -- units that are seen.
  unfoldable pub check_records :
      List (CoordinatorRelation J F)
      → List Text
      → List Text
      → List (CoordinatorRelation J F)
      → Result (Unit {0})
  unfolding effective_unit_id check_combo
  check_records records seen units [] = done
  check_records records seen units (entry ∷ rest) = do
    refuse (contains entry.observation_id seen)
        (validation (quote "duplicate coordinator observation `" entry.observation_id "`"))
    unit ← effective_unit_id entry
    refuse (contains unit units)
        (validation (text "coordinator relations contain duplicate unit IDs"))
    refuse (is_bad_weight f64 entry.sample_influence_weight)
        (validation (text "relation sample_influence_weight must be finite and positive"))
    refuse (not (is_combo entry.unit_level) && not (is_empty entry.component_observation_ids))
        (validation (text "component observations require a combo relation"))
    check_combo records entry (is_combo entry.unit_level)
    check_records records (insert entry.observation_id seen) (insert unit units) rest

  -- `CoordinatorRelationSet::validate`.
  unfoldable pub validate_relations : CoordinatorRelationSet J F → Result (Unit {0})
  unfolding check_records
  validate_relations relations = do
    refuse (is_empty relations.records)
        (validation (text "coordinator relation set contains no records"))
    check_records relations.records [] [] relations.records

pub record CanonicalRecord (J F : Type 0) : Type 0 where
  pub effective_unit : Text
  pub relation : CoordinatorRelation J F

module _ {J F : Type 0} where
  unfoldable pub canonical_records :
      List (CoordinatorRelation J F) → Result (List (CanonicalRecord J F))
  unfolding effective_unit_id
  canonical_records [] = ok []
  canonical_records (relation ∷ relations) = do
    unit ← effective_unit_id relation
    rest ← canonical_records relations
    ok (record { effective_unit = unit; relation = relation } ∷ rest)

  -- The order of `records.sort_by`.
  abbrev pub cmp_record : CanonicalRecord J F → CanonicalRecord J F → Ordering
  cmp_record a b = (then) (cmp_list a.effective_unit b.effective_unit) (
      (then) (cmp_list a.relation.observation_id b.relation.observation_id)
        (cmp_list a.relation.sample_id b.relation.sample_id))

module _ {J F : Type 0} (f64 : Float F) (codec : Codec J (List (CanonicalRecord J F))) where
  -- `CoordinatorRelationSet::fingerprint`.
  unfoldable pub relation_set_fingerprint : CoordinatorRelationSet J F → Result Text
  unfolding validate_relations canonical_records
  relation_set_fingerprint relations = do
    validate_relations f64 relations
    records ← canonical_records relations.records
    typed_fingerprint codec (sort_by cmp_record records)
