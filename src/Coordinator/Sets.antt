-- ===== src/Coordinator/Sets.antt =====
-- crates/dag-ml-data-core/src/coordinator.rs: what `CoordinatorRelationSet::validate` accepts.
use dag_ml_data.Float.{Float}
use dag_ml_data.Coordinator.Relations.{
  check_combo, validate_relations, effective_unit_id, CoordinatorRelationSet, is_combo,
  is_component, check_records, check_components, is_bad_weight, CoordinatorRelation,
}
use dag_ml_data.Common.{
  ◌≡◌, refl, sym, subst, inl, inr, true, false, not, ◌&&◌, false≢true, List, [], ◌∷◌, arith,
  Bool-cases, is_some, is_empty, any, All, map,
}
use dag_ml_data.Order.{◌==◌, ==_iff, ==_refl, nat_ord, list_ord}
use dag_ml_data.Text.{Text}
use dag_ml_data.Collections.{contains, Distinct, insert, contains-insert}
use dag_ml_data.Error.{Result-cases, ok, done}
use dag_ml_data.Order.{pair_ord}

-- What holds of a relation that is accepted, among the records of its set: its weight is good, and it has
-- components only as a combo, which names its unit, and whose components are other records of its sample.
pub record IsEntry {J F : Type 0} (f64 : Float F) (records : List (CoordinatorRelation J F))
    (entry : CoordinatorRelation J F) : Type 0 where
  pub weight : is_bad_weight f64 entry.sample_influence_weight ≡ false
  pub simple : is_combo entry.unit_level ≡ false → is_empty entry.component_observation_ids ≡ true
  pub named : is_combo entry.unit_level ≡ true → is_some entry.derived_unit_id ≡ true
  pub composed : is_combo entry.unit_level ≡ true → is_empty entry.component_observation_ids ≡ false
  pub components :
      is_combo entry.unit_level ≡ true
      → (component : Text) → contains component entry.component_observation_ids ≡ true
      → ((component == entry.observation_id) ≡ false)
        × (any (is_component entry component) records ≡ true)
  pub unrepeated : is_combo entry.unit_level ≡ true → Distinct entry.component_observation_ids

module _ {J F : Type 0} (records : List (CoordinatorRelation J F))
    (entry : CoordinatorRelation J F) where
  components_unseen :
      (seen components : List Text) (component : Text)
      → check_components records entry seen components ≡ done
      → contains component seen ≡ true
      → contains component components ≡ false
  unfolding check_components
  components_unseen seen [] component accepted member = refl
  components_unseen seen (c ∷ components) component accepted member = ground (
    arith,
    components_unseen (insert c seen) components component (ground arith),
    contains-insert component c seen,
    ==_iff component c,
  )

  components-Distinct :
      (seen components : List Text)
      → check_components records entry seen components ≡ done
      → Distinct components
  unfolding check_components
  components-Distinct seen [] accepted = tt
  components-Distinct seen (c ∷ components) accepted = (
    components_unseen (insert c seen) components c (ground arith)
        (ground (arith, contains-insert c c seen, ==_refl c)),
    components-Distinct (insert c seen) components (ground arith),
  )

  components_found :
      (seen components : List Text) (component : Text)
      → check_components records entry seen components ≡ done
      → contains component components ≡ true
      → ((component == entry.observation_id) ≡ false)
        × (any (is_component entry component) records ≡ true)
  unfolding check_components
  components_found seen [] component accepted member = cc
  components_found seen (c ∷ components) component accepted member =
      elim (Bool-cases (component == c)) [
        | inl e ↦
            subst
              (λ t.
                ((t == entry.observation_id) ≡ false) × (any (is_component entry t) records ≡ true))
              (sym ((==_iff component c).0 e)) (ground arith, ground arith)
        | inr e ↦
            components_found (insert c seen) components component (ground arith) (ground arith)
      ]

module _ {J F : Type 0} (f64 : Float F) (records : List (CoordinatorRelation J F)) where
  -- A round of the loop that passed.
  record Passed (seen units : List Text) (entry : CoordinatorRelation J F)
      (rest : List (CoordinatorRelation J F)) : Type 0 where
    unit : Text
    at_unit : effective_unit_id entry ≡ ok unit
    new : contains entry.observation_id seen ≡ false
    new_unit : contains unit units ≡ false
    weight : is_bad_weight f64 entry.sample_influence_weight ≡ false
    simple :
        (not (is_combo entry.unit_level) && not (is_empty entry.component_observation_ids)) ≡ false
    combo : check_combo records entry (is_combo entry.unit_level) ≡ done
    later :
        check_records f64 records (insert entry.observation_id seen) (insert unit units) rest ≡ done

  passed :
      (seen units : List Text) (entry : CoordinatorRelation J F)
      (rest : List (CoordinatorRelation J F))
      → check_records f64 records seen units (entry ∷ rest) ≡ done
      → Passed seen units entry rest
  unfolding check_records
  passed seen units entry rest accepted = elim (Result-cases (effective_unit_id entry)) [
    | inl (reason, at) ↦ absurd (false≢true (ground (arith, at)))
    | inr (unit, at) ↦ record {
      unit = unit;
      at_unit = at;
      new = ground (arith, at);
      new_unit = ground (arith, at);
      weight = ground (arith, at);
      simple = ground (arith, at);
      combo = ground (arith, at);
      later = ground (arith, at);
    }
  ]

  round-IsEntry :
      (seen units : List Text) (entry : CoordinatorRelation J F)
      (rest : List (CoordinatorRelation J F))
      → Passed seen units entry rest
      → IsEntry f64 records entry
  unfolding check_combo
  round-IsEntry seen units entry rest p =
      let checked : is_combo entry.unit_level ≡ true
          → check_components records entry [] entry.component_observation_ids ≡ done =
        λ c. ground (arith, p.combo) in
      record {
        weight = p.weight;
        simple = λ c. ground (arith, p.simple);
        named = λ c. ground (arith, p.combo);
        composed = λ c. ground (arith, p.combo);
        components = λ c component member.
            components_found records entry [] entry.component_observation_ids component (checked c)
              member;
        unrepeated =
            λ c. components-Distinct records entry [] entry.component_observation_ids (checked c);
      }

  -- Distinct names, none of which was seen.
  observations_unseen :
      (seen units : List Text) (rest : List (CoordinatorRelation J F)) (id : Text)
      → check_records f64 records seen units rest ≡ done
      → contains id seen ≡ true
      → contains id (map (λ r. r.observation_id) rest) ≡ false
  observations_unseen seen units [] id accepted member = refl
  observations_unseen seen units (entry ∷ rest) id accepted member =
      let p = passed seen units entry rest accepted in
      ground (
        arith,
        p.new,
        ==_iff id entry.observation_id,
        contains-insert id entry.observation_id seen,
        observations_unseen (insert entry.observation_id seen) (insert p.unit units) rest id
            p.later,
      )

  observations-Distinct :
      (seen units : List Text) (rest : List (CoordinatorRelation J F))
      → check_records f64 records seen units rest ≡ done
      → Distinct (map (λ r. r.observation_id) rest)
  observations-Distinct seen units [] accepted = tt
  observations-Distinct seen units (entry ∷ rest) accepted =
      let p = passed seen units entry rest accepted in
      (
        observations_unseen (insert entry.observation_id seen) (insert p.unit units) rest
            entry.observation_id p.later
            (ground (
              arith,
              contains-insert entry.observation_id entry.observation_id seen,
              ==_refl entry.observation_id,
            )),
        observations-Distinct (insert entry.observation_id seen) (insert p.unit units) rest p.later,
      )

  entries_accepted :
      (seen units : List Text) (rest : List (CoordinatorRelation J F))
      → check_records f64 records seen units rest ≡ done
      → All (IsEntry f64 records) rest
  entries_accepted seen units [] accepted = tt
  entries_accepted seen units (entry ∷ rest) accepted =
      let p = passed seen units entry rest accepted in
      (
        round-IsEntry seen units entry rest p,
        entries_accepted (insert entry.observation_id seen) (insert p.unit units) rest p.later,
      )

-- The units of the records, in their order.
abbrev pub HaveUnits : {J F : Type 0} → List (CoordinatorRelation J F) → List Text → Type 0
HaveUnits [] [] = Unit
HaveUnits (entry ∷ rest) (unit ∷ units) = (effective_unit_id entry ≡ ok unit) × HaveUnits rest units
HaveUnits [] (unit ∷ units) = ⊥
HaveUnits (entry ∷ rest) [] = ⊥

module _ {J F : Type 0} (f64 : Float F) (records : List (CoordinatorRelation J F)) where
  units_of :
      (seen units : List Text) (rest : List (CoordinatorRelation J F))
      → check_records f64 records seen units rest ≡ done
      → (own : List Text) × HaveUnits rest own
        × Distinct own
        × ((u : Text) → contains u units ≡ true → contains u own ≡ false)
  units_of seen units [] accepted = ([], tt, tt, λ u m. refl)
  units_of seen units (entry ∷ rest) accepted =
      let p = passed f64 records seen units entry rest accepted in
      let (own, have, d, unseen) =
        units_of (insert entry.observation_id seen) (insert p.unit units) rest p.later in
      (
        p.unit ∷ own,
        (p.at_unit, have),
        (unseen p.unit (ground (arith, contains-insert p.unit p.unit units, ==_refl p.unit)), d),
        λ u m.
            ground (arith, p.new_unit, unseen u, contains-insert u p.unit units, ==_iff u p.unit),
      )

-- A relation set that is not empty, in which no two records have one observation or one unit, and whose
-- records are good entries.
pub record IsRelationSet {J F : Type 0} (f64 : Float F) (relations : CoordinatorRelationSet J F)
    : Type 0 where
  pub nonempty : is_empty relations.records ≡ false
  pub distinct : Distinct (map (λ r. r.observation_id) relations.records)
  pub units : List Text
  pub have_units : HaveUnits relations.records units
  pub distinct_units : Distinct units
  pub entries : All (IsEntry f64 relations.records) relations.records

-- A relation set that `CoordinatorRelationSet::validate` accepts has records, no observation and no
-- effective unit twice, finite positive weights, and components in combos only: a combo has a derived unit
-- and components, no one twice and none itself, which are records of the set with its sample.
pub validate_relations-IsRelationSet :
    {J F : Type 0} (f64 : Float F) (relations : CoordinatorRelationSet J F)
    → validate_relations f64 relations ≡ done
    → IsRelationSet f64 relations
unfolding validate_relations
validate_relations-IsRelationSet f64 relations accepted =
    let checked : check_records f64 relations.records [] [] relations.records ≡ done =
      ground arith in
    let (own, have, d, _) = units_of f64 relations.records [] [] relations.records checked in
    record {
      nonempty = ground arith;
      distinct = observations-Distinct f64 relations.records [] [] relations.records checked;
      units = own;
      have_units = have;
      distinct_units = d;
      entries = entries_accepted f64 relations.records [] [] relations.records checked;
    }
