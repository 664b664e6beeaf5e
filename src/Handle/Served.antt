-- ===== src/Handle/Served.antt =====
-- crates/dag-ml-data-core/src/handle.rs: the samples of the relations of a view that are for a target.
use dag_ml_data.Common.Sorting.{Ascending}
use dag_ml_data.Handle.Targets.{is_for, samples_from}
use dag_ml_data.Coordinator.Relations.{CoordinatorRelation}
use dag_ml_data.Common.{
  none, ◌≤◌, inl, inr, Bool-cases, suc, ℕ, ◌≡◌, refl, sym, subst, Bool, true, false, not, ◌&&◌,
  Option, some, List, [], ◌∷◌, arith, if◌then◌else◌, All, filter, map,
}
use dag_ml_data.Order.{◌==◌, ==_iff, ==_refl, nat_ord, list_ord}
use dag_ml_data.Text.{Text}
use dag_ml_data.Collections.{contains, Distinct, insert, contains-insert}
use dag_ml_data.Order.{pair_ord}

unrepeated_if :
    (b : Bool) (x : Text) (fresh rest : List Text)
    → contains x fresh ≡ false
    → Distinct fresh
    → Distinct rest
    → Distinct (if b then x ∷ fresh else rest)
unrepeated_if true x fresh rest absent d e = (absent, d)
unrepeated_if false x fresh rest absent d e = e

-- The first place of a text in a list.
abbrev pub first_index : List Text → Text → ℕ
first_index [] id = 0
first_index (x ∷ xs) id = if id == x then 0 else suc (first_index xs id)

first_index_shift :
    (x : Text) (xs : List Text) (n : ℕ) (ids : List Text)
    → contains x ids ≡ false
    → All (λ y. n ≤ first_index xs y) ids
    → All (λ y. suc n ≤ first_index (x ∷ xs) y) ids
first_index_shift x xs n [] absent held = tt
first_index_shift x xs n (id ∷ ids) absent held = (
  ground (arith, held.0, ==_iff id x, ==_iff x id),
  first_index_shift x xs n ids (ground arith) held.1,
)

-- A text in front moves the others by one.
Ascending-first_index :
    (x : Text) (xs ids : List Text)
    → contains x ids ≡ false
    → Ascending (first_index xs) ids
    → Ascending (first_index (x ∷ xs)) ids
Ascending-first_index x xs [] absent held = tt
Ascending-first_index x xs (id ∷ ids) absent held =
    let moved : first_index (x ∷ xs) id ≡ suc (first_index xs id) =
      ground (arith, ==_iff id x, ==_iff x id) in
    (
      subst (λ n. All (λ y. n ≤ first_index (x ∷ xs) y) ids) (sym moved)
          (first_index_shift x xs (first_index xs id) ids (ground arith) held.0),
      Ascending-first_index x xs ids (ground arith) held.1,
    )

first_index_least :
    (x : Text) (xs ids : List Text) → All (λ y. first_index (x ∷ xs) x ≤ first_index (x ∷ xs) y) ids
first_index_least x xs [] = tt
first_index_least x xs (id ∷ ids) = (ground (arith, ==_refl x), first_index_least x xs ids)

module _ {J F : Type 0} where
  -- The relations that are for a wanted target.
  abbrev pub for_target :
      (Text → Bool) → List (CoordinatorRelation J F) → List (CoordinatorRelation J F)
  for_target wanted relations = filter (λ relation. is_for wanted relation.target_id) relations

  -- The samples of the block: each sample once, of which exactly those of a relation for the target that
  -- were not seen before, in the order of the relations.
  pub samples_from-exact :
      (wanted : Text → Bool) (seen : List Text) (relations : List (CoordinatorRelation J F))
      (id : Text)
      → contains id (samples_from wanted seen relations) ≡ (
          contains id (map (λ r. r.sample_id) (for_target wanted relations))
          && not (contains id seen))
  unfolding samples_from
  samples_from-exact wanted seen [] id = refl
  samples_from-exact wanted seen (relation ∷ relations) id = ground (
    arith,
    samples_from-exact wanted seen relations id,
    samples_from-exact wanted (insert relation.sample_id seen) relations id,
    contains-insert id relation.sample_id seen,
    ==_iff id relation.sample_id,
  )

  pub samples_from-Distinct :
      (wanted : Text → Bool) (seen : List Text) (relations : List (CoordinatorRelation J F))
      → Distinct (samples_from wanted seen relations)
  unfolding samples_from
  samples_from-Distinct wanted seen [] = tt
  samples_from-Distinct wanted seen (relation ∷ relations) =
      unrepeated_if (is_for wanted relation.target_id && not (contains relation.sample_id seen))
        relation.sample_id (samples_from wanted (insert relation.sample_id seen) relations)
        (samples_from wanted seen relations)
        (ground (
          arith,
          samples_from-exact wanted (insert relation.sample_id seen) relations relation.sample_id,
          contains-insert relation.sample_id relation.sample_id seen,
          ==_refl relation.sample_id,
        ))
        (samples_from-Distinct wanted (insert relation.sample_id seen) relations)
        (samples_from-Distinct wanted seen relations)

  -- The samples come in the order in which they are first named by a relation for the target.
  pub samples_from-Ascending :
      (wanted : Text → Bool) (seen : List Text) (relations : List (CoordinatorRelation J F))
      → Ascending
          (first_index (map (λ r. r.sample_id) (for_target wanted relations)))
          (samples_from wanted seen relations)
  unfolding samples_from
  samples_from-Ascending wanted seen [] = tt
  samples_from-Ascending wanted seen (relation ∷ relations) =
      elim (Bool-cases (is_for wanted relation.target_id)) [
        | inr skip ↦ rw skip (samples_from-Ascending wanted seen relations)
        | inl take ↦ rw take (elim (Bool-cases (contains relation.sample_id seen)) [
          | inl old ↦ rw old (
              Ascending-first_index relation.sample_id
                (map (λ r. r.sample_id) (for_target wanted relations))
                (samples_from wanted seen relations)
                (ground (arith, samples_from-exact wanted seen relations relation.sample_id))
                (samples_from-Ascending wanted seen relations))
          | inr new ↦ rw new (
              let fresh = samples_from wanted (insert relation.sample_id seen) relations in
              let names = map (λ r. r.sample_id) (for_target wanted relations) in
              (
                first_index_least relation.sample_id names fresh,
                Ascending-first_index relation.sample_id names fresh
                    (ground (
                      arith,
                      samples_from-exact wanted (insert relation.sample_id seen) relations
                          relation.sample_id,
                      contains-insert relation.sample_id relation.sample_id seen,
                      ==_refl relation.sample_id,
                    ))
                    (samples_from-Ascending wanted (insert relation.sample_id seen) relations),
              ))
        ])
      ]

-- The relation is for the target: it names the target or none.
abbrev pub is_served : Text → Option Text → Bool
is_served target_id none = true
is_served target_id (some named) = named == target_id

is_for_served :
    (target_id : Text) (named : Option Text)
    → is_for (λ id. id == target_id) named ≡ is_served target_id named
is_for_served target_id none = refl
is_for_served target_id (some named) = refl

-- The samples of the relations that are for the target.
abbrev pub served_samples : {J F : Type 0} → Text → List (CoordinatorRelation J F) → List Text
served_samples target_id relations =
    map (λ r. r.sample_id) (filter (λ r. is_served target_id r.target_id) relations)

pub for_target_served :
    {J F : Type 0} (target_id : Text) (relations : List (CoordinatorRelation J F))
    → map (λ r. r.sample_id) (for_target (λ id. id == target_id) relations)
      ≡ served_samples target_id relations
for_target_served target_id [] = refl
for_target_served target_id (relation ∷ relations) =
    ground
      (arith, is_for_served target_id relation.target_id, for_target_served target_id relations)
