-- ===== src/Handle/Values.antt =====
-- crates/dag-ml-data-core/src/handle.rs: the blocks that `target_values` and `multi_target_values` return.
use dag_ml_data.Handle.Served.{
  samples_from-Ascending, for_target, samples_from-exact, samples_from-Distinct, first_index,
  for_target_served, served_samples,
}
use dag_ml_data.Common.Sorting.{Ascending}
use dag_ml_data.Handle.Arena.{view_identity, CoordinatorHandleArena}
use dag_ml_data.Json.{Json}
use dag_ml_data.Handle.Tables.{
  CoordinatorTargetValue, validate_target_values, CoordinatorTargetTable,
}
use dag_ml_data.Handle.Targets.{
  no_samples, values_by_sample, target_values, CoordinatorTargetBlock, is_for, target_loop,
  samples_from,
}
use dag_ml_data.Coordinator.Relations.{CoordinatorRelationSet, CoordinatorRelation}
use dag_ml_data.Common.{
  All-map, inl, inr, ◌⊎◌, Bool-cases, Any, ℕ, ◌≡◌, refl, sym, ap, ◌∙◌, subst, Bool, true, false,
  not, ◌&&◌, Option, some, List, [], ◌∷◌, arith, if◌then◌else◌, is_empty, All, map,
}
use dag_ml_data.Order.{◌==◌, ==_iff, nat_ord, list_ord}
use dag_ml_data.Text.{Text}
use dag_ml_data.Collections.{get-put, put, Map, get, contains, Distinct, insert}
use dag_ml_data.Error.{
  ok_or_found, ok_injective, DataError, Result, ok, ◌>>=◌, ◌>>◌, refuse, ok_or, refuse_iff,
  >>=-eq-ok,
}
use dag_ml_data.Order.{pair_ord}
use dag_ml_data.Relation.Folds.{quote}
use dag_ml_data.Error.{>>-eq-ok}

-- One round of the loop of `target_values`.
rows_if :
    {J : Type 0} (found : Map Text J) (b : Bool) (e : DataError) (sample : Text) (value : Option J)
    (taken skipped : Result (List (Text × J))) (fresh rest : List Text) (rows : List (Text × J))
    → value ≡ get sample found
    → ((rows : List (Text × J))
        → taken ≡ ok rows
        → (map (λ row. row.0) rows ≡ fresh) × All (λ row. get row.0 found ≡ some row.1) rows)
    → ((rows : List (Text × J))
        → skipped ≡ ok rows
        → (map (λ row. row.0) rows ≡ rest) × All (λ row. get row.0 found ≡ some row.1) rows)
    → (if b
        then (ok_or value e >>= λ value. taken >>= λ rows. ok ((sample, value) ∷ rows))
        else skipped)
      ≡ ok rows
    → (map (λ row. row.0) rows ≡ (if b then sample ∷ fresh else rest))
      × All (λ row. get row.0 found ≡ some row.1) rows
rows_if found false e sample value taken skipped fresh rest rows at now later fine = later rows fine
rows_if found true e sample value taken skipped fresh rest rows at now later fine =
    let (v, at_value, h) =
      >>=-eq-ok (ok_or value e) (λ value. taken >>= λ rows. ok ((sample, value) ∷ rows)) fine in
    let (others, at_others, made) = >>=-eq-ok taken (λ rows. ok ((sample, v) ∷ rows)) h in
    let (names, held) = now others at_others in
    subst
      (λ rs.
        (map (λ row. row.0) rs ≡ sample ∷ fresh) × All (λ row. get row.0 found ≡ some row.1) rs)
      (ok_injective made)
      (ap (λ t. sample ∷ t) names, (sym at ∙ ok_or_found value e at_value, held))

-- The value is one that the table has for the sample.
abbrev pub Gives : {J : Type 0} → CoordinatorTargetTable J → Text → J → Type 0
Gives table sample value =
    Any (λ entry. (entry.sample_id ≡ sample) × (entry.value ≡ value)) table.entries

module _ {J : Type 0} where
  values_by_sample-Any :
      (entries : List (CoordinatorTargetValue J)) (found : Map Text J) (sample : Text) (value : J)
      → get sample (values_by_sample entries found) ≡ some value
      → Any (λ entry. (entry.sample_id ≡ sample) × (entry.value ≡ value)) entries
        ⊎ (get sample found ≡ some value)
  unfolding values_by_sample
  values_by_sample-Any [] found sample value at = inr at
  values_by_sample-Any (entry ∷ entries) found sample value at =
      elim (values_by_sample-Any entries (put entry.sample_id entry.value found) sample value at) [
        | inl later ↦ inl (inr later)
        | inr here ↦ elim (Bool-cases (sample == entry.sample_id)) [
          | inl e ↦ inl (
              inl (
                ground (arith, ==_iff sample entry.sample_id),
                ground (arith, get-put sample entry.sample_id entry.value found),
              ))
          | inr e ↦ inr (ground (arith, get-put sample entry.sample_id entry.value found))
        ]
      ]

given_by :
    {J : Type 0} (table : CoordinatorTargetTable J) (sample : Text) (value : J)
    → get sample (values_by_sample table.entries []) ≡ some value
    → Gives table sample value
unfolding get
given_by table sample value at = elim (values_by_sample-Any table.entries [] sample value at) [
  | inl given ↦ given
  | inr never ↦ cc
]

module _ {J F : Type 0} where
  -- The rows of `target_values`: the same samples, each with its value in the table.
  target_loop_rows :
      (table : CoordinatorTargetTable J) (found : Map Text J) (seen : List Text)
      (relations : List (CoordinatorRelation J F)) (rows : List (Text × J))
      → target_loop table found seen relations ≡ ok rows
      → (map (λ row. row.0) rows
          ≡ samples_from (λ target_id. target_id == table.target_id) seen relations)
        × All (λ row. get row.0 found ≡ some row.1) rows
  unfolding target_loop samples_from
  target_loop_rows table found seen [] rows fine =
      subst (λ rs. (map (λ row. row.0) rs ≡ []) × All (λ row. get row.0 found ≡ some row.1) rs)
        (ok_injective fine) (refl, tt)
  target_loop_rows table found seen (relation ∷ relations) rows fine =
      rows_if found
        (is_for (λ target_id. target_id == table.target_id) relation.target_id
          && not (contains relation.sample_id seen))
        _ relation.sample_id (get relation.sample_id found)
        (target_loop table found (insert relation.sample_id seen) relations)
        (target_loop table found seen relations) _ _ rows refl
        (target_loop_rows table found (insert relation.sample_id seen) relations)
        (target_loop_rows table found seen relations) fine

-- What `target_values` returns: the samples of the relations of the view for the target, each once, in
-- the order in which these relations first name them, and for each of them a value of its entry in the
-- table.
pub record IsTargetBlock {J F : Type 0} (arena : CoordinatorHandleArena J F) (view_handle : ℕ)
    (table : CoordinatorTargetTable J) (block : CoordinatorTargetBlock J) : Type 0 where
  pub relations : CoordinatorRelationSet J F
  pub rows : List (Text × J)
  pub of_view : view_identity arena view_handle ≡ ok relations
  pub same_target : block.target_id ≡ table.target_id
  pub samples : block.sample_ids ≡ map (λ row. row.0) rows
  pub same_values : block.target_row ≡ map (λ row. row.1) rows
  pub unrepeated : Distinct block.sample_ids
  pub exact :
      (id : Text)
      → contains id block.sample_ids
        ≡ contains id (served_samples table.target_id relations.records)
  pub in_order :
      Ascending (first_index (served_samples table.target_id relations.records)) block.sample_ids
  pub from_table : All (λ row. Gives table row.0 row.1) rows
  pub nonempty : is_empty rows ≡ false

module _ {J F : Type 0} (json : Json J) where
  -- A block that `target_values` returns has, each once, exactly the samples of the relations of the view
  -- that name the target or none, at least one, in the order in which these relations first name them;
  -- each has the value of an entry of the table for that sample.
  pub target_values_sound :
      (arena : CoordinatorHandleArena J F) (view_handle : ℕ) (table : CoordinatorTargetTable J)
      (block : CoordinatorTargetBlock J)
      → target_values json arena view_handle table ≡ ok block
      → IsTargetBlock arena view_handle table block
  unfolding target_values
  target_values_sound arena view_handle table block fine =
      let found = values_by_sample table.entries [] in
      let wanted = λ (target_id : Text). target_id == table.target_id in
      let none_for = no_samples view_handle (quote "target `" table.target_id "`") in
      let made : List (Text × J) → CoordinatorTargetBlock J = λ rows. record {
        target_id = table.target_id;
        sample_ids = map (λ row. row.0) rows;
        target_row = map (λ row. row.1) rows;
      } in
      let after_rows =
        λ (rows : List (Text × J)). refuse (is_empty rows) none_for >> ok (made rows) in
      let after_view = λ (relations : CoordinatorRelationSet J F).
        target_loop table found [] relations.records >>= after_rows in
      let (_, h1) =
        >>-eq-ok (validate_target_values json table)
          (view_identity arena view_handle >>= after_view) fine in
      let (relations, at_view, h2) = >>=-eq-ok (view_identity arena view_handle) after_view h1 in
      let (rows, at_rows, h3) =
        >>=-eq-ok (target_loop table found [] relations.records) after_rows h2 in
      let (some_rows, h4) = >>-eq-ok (refuse (is_empty rows) none_for) (ok (made rows)) h3 in
      let (names, held) = target_loop_rows table found [] relations.records rows at_rows in
      let served = for_target_served table.target_id relations.records in
      subst (IsTargetBlock arena view_handle table) (ok_injective h4) (record {
        relations = relations;
        rows = rows;
        of_view = at_view;
        same_target = refl;
        samples = refl;
        same_values = refl;
        unrepeated = subst Distinct (sym names) (samples_from-Distinct wanted [] relations.records);
        exact = λ id. ground (
          arith,
          ap (contains id) names,
          samples_from-exact wanted [] relations.records id,
          ap (contains id) served,
        );
        in_order =
            subst (λ all. Ascending (first_index all) (map (λ row. row.0) rows)) served
              (subst
                (Ascending
                  (first_index (map (λ r. r.sample_id) (for_target wanted relations.records))))
                (sym names) (samples_from-Ascending wanted [] relations.records));
        from_table = All-map (λ row at. given_by table row.0 row.1 at) rows held;
        nonempty = (refuse_iff (is_empty rows) none_for).0 some_rows;
      })
