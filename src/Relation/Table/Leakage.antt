-- ===== src/Relation/Table/Leakage.antt =====
-- A fold set that is accepted over a table of relations does not leak.
use dag_ml_data.Relation.Folds.Sound.{validate_fold_set_sound}
use dag_ml_data.Relation.Table.Rows.{check_rows_sound}
use dag_ml_data.Common.{
  ◌∙◌, sym, ap, All-map, Option-cases, ◌≡◌, inl, inr, true, not, ◌||◌, some, List, [], ◌∷◌, ◌++◌,
  arith, Bool-cases, All, find,
}
use dag_ml_data.Order.{◌==◌, ==_iff, nat_ord, list_ord}
use dag_ml_data.Text.{Text}
use dag_ml_data.Collections.{contains-append, contains-collect, Map, get, contains, collect}
use dag_ml_data.Error.{for_each_iff, >>-eq-ok, done, for_each}
use dag_ml_data.Collections.{find-eq-none}
use dag_ml_data.Relation.{
  validate_origin_boundary, validate_group_boundary, SampleRelation, SampleRelationTable, FoldSet,
  FoldAssignment,
}
use dag_ml_data.Relation.Boundary.{
  validate_origin_boundary_sound, validate_group_boundary_sound, OriginsApart,
}
use dag_ml_data.Relation.Folds.{validate_fold_set}
use dag_ml_data.Relation.Folds.Spec.{IsFoldSet}
use dag_ml_data.Relation.Table.{
  validate_table, sample_groups_from, row_samples, check_missing, check_absent, check_group_agrees,
  check_boundaries, validate_against,
}
use dag_ml_data.Relation.Table.Sound.{validate_table_sound, validate_table-Accepted, IsTable}

module _ {J : Type 0} where
  -- No two rows of one group lie on the two sides of the fold.
  abbrev pub RowGroupsApart : FoldAssignment J → List (SampleRelation J) → Type 0
  RowGroupsApart fold rows =
      All
        (λ row.
          All
            (λ other.
              (g : Text)
              → row.group_id ≡ some g
              → other.group_id ≡ some g
              → contains row.sample_id fold.train_sample_ids ≡ true
              → contains other.sample_id fold.validation_sample_ids ≡ true
              → ⊥)
            rows)
        rows

  -- A fold set fits a table: both are valid, they name the same samples, up to those with a missing
  -- target, their groups agree, and no fold splits a group or an augmentation from its origin.
  pub record Fits (table : SampleRelationTable J) (fs : FoldSet J) : Type 0 where
    pub table_valid : IsTable table.rows
    pub folds_valid : IsFoldSet fs
    pub known :
        (s : Text)
        → contains s (row_samples table.rows) ≡ true
        → (contains s fs.sample_ids || contains s fs.target_missing_sample_ids) ≡ true
    pub present :
        (s : Text) → contains s fs.sample_ids ≡ true → contains s (row_samples table.rows) ≡ true
    pub groups_agree :
        All
          (λ row.
            (g h : Text)
            → get row.sample_id fs.sample_groups ≡ some g
            → row.group_id ≡ some h
            → h ≡ g)
          table.rows
    pub groups_apart : All (λ fold. RowGroupsApart fold table.rows) fs.folds
    pub origins_apart :
        All
          (λ fold. OriginsApart fold.train_sample_ids fold.validation_sample_ids table.rows)
          fs.folds

  record Checked (table : SampleRelationTable J) (fs : FoldSet J) : Type 0 where
    valid : validate_table table ≡ done
    folds : validate_fold_set fs ≡ done
    missing :
        check_missing fs
          (collect (row_samples table.rows))
          (collect (collect fs.sample_ids ++ fs.target_missing_sample_ids))
        ≡ done
    absent : check_absent fs (collect fs.sample_ids) (collect (row_samples table.rows)) ≡ done
    agree :
        for_each (check_group_agrees fs (sample_groups_from [] table.rows)) fs.sample_groups ≡ done
    apart : for_each (check_boundaries table (sample_groups_from [] table.rows)) fs.folds ≡ done

  validate_against-Checked :
      (table : SampleRelationTable J) (fs : FoldSet J)
      → validate_against table fs ≡ done
      → Checked table fs
  unfolding validate_against
  validate_against-Checked table fs h = ground arith

  missing_sound :
      (fs : FoldSet J) (relation_samples known : List Text)
      → check_missing fs relation_samples known ≡ done
      → (s : Text) → contains s relation_samples ≡ true
      → contains s known ≡ true
  unfolding check_missing
  missing_sound fs xs known h s m = elim (Option-cases (find (λ t. not (contains t known)) xs)) [
    | inl e ↦ ground (arith, find-eq-none (λ t. not (contains t known)) xs e s m)
    | inr (t, e) ↦ cc
  ]

  absent_sound :
      (fs : FoldSet J) (fold_samples relation_samples : List Text)
      → check_absent fs fold_samples relation_samples ≡ done
      → (s : Text) → contains s fold_samples ≡ true
      → contains s relation_samples ≡ true
  unfolding check_absent
  absent_sound fs xs known h s m = elim (Option-cases (find (λ t. not (contains t known)) xs)) [
    | inl e ↦ ground (arith, find-eq-none (λ t. not (contains t known)) xs e s m)
    | inr (t, e) ↦ cc
  ]

  agree_sound :
      (fs : FoldSet J) (relation_groups groups : Map Text Text) (s g h : Text)
      → for_each (check_group_agrees fs relation_groups) groups ≡ done
      → get s groups ≡ some g
      → get s relation_groups ≡ some h
      → h ≡ g
  unfolding get check_group_agrees
  agree_sound fs relation_groups [] s g h each e r = cc
  agree_sound fs relation_groups ((k, v) ∷ groups) s g h each e r = elim (Bool-cases (s == k)) [
    | inl same ↦ ground (arith, ==_iff s k, ==_iff h v)
    | inr other ↦
        agree_sound fs relation_groups groups s g h
          (>>-eq-ok (check_group_agrees fs relation_groups (k, v))
            (for_each (check_group_agrees fs relation_groups) groups) each).1
          (ground arith) r
  ]

  -- The group map of a valid table sends the sample of a row to the row's group.
  row_groups :
      (table : SampleRelationTable J)
      → validate_table table ≡ done
      → All
          (λ row.
            (g : Text)
            → row.group_id ≡ some g
            → get row.sample_id (sample_groups_from [] table.rows) ≡ some g)
          table.rows
  row_groups table h =
      let a = validate_table-Accepted table h in
      let l = check_rows_sound _ a.st table.rows a.looped in
      All-map (λ row at g e. ap (get row.sample_id) (sym l.groups) ∙ at g e) table.rows l.group_at

  boundaries_sound :
      (table : SampleRelationTable J) (fold : FoldAssignment J)
      → validate_table table ≡ done
      → check_boundaries table (sample_groups_from [] table.rows) fold ≡ done
      → RowGroupsApart fold table.rows
        × OriginsApart fold.train_sample_ids fold.validation_sample_ids table.rows
  unfolding check_boundaries
  boundaries_sound table fold valid h =
      let train = fold.train_sample_ids in
      let held_out = fold.validation_sample_ids in
      let groups = sample_groups_from [] table.rows in
      let (grouped, origins) =
        >>-eq-ok (validate_group_boundary fold.fold_id (collect train) (collect held_out) groups)
          (validate_origin_boundary fold.fold_id (collect train) (collect held_out) table) h in
      let apart =
        validate_group_boundary_sound fold.fold_id (collect train) (collect held_out) groups
          grouped in
      let at = row_groups table valid in
      (
        All-map
            (λ row here.
              All-map
                (λ other there g eg eh ms mt.
                  apart row.sample_id other.sample_id g (contains-collect row.sample_id train ∙ ms)
                    (contains-collect other.sample_id held_out ∙ mt) (here g eg) (there g eh))
                table.rows at)
            table.rows at,
        All-map
            (λ row crossing.
              All-map
                (λ origin safe e. ground (
                  arith,
                  safe e,
                  contains-collect row.sample_id train,
                  contains-collect row.sample_id held_out,
                  contains-collect origin.sample_id train,
                  contains-collect origin.sample_id held_out,
                ))
                table.rows crossing)
            table.rows
            (validate_origin_boundary_sound fold.fold_id (collect train) (collect held_out) table
              (validate_table_sound table valid).distinct origins),
      )

  -- A fold set that `validate_fold_set` accepts over a table fits it: in particular no fold has rows
  -- of one group, or an augmented row and its origin, on its two sides.
  pub validate_against_sound :
      (table : SampleRelationTable J) (fs : FoldSet J)
      → validate_against table fs ≡ done
      → Fits table fs
  validate_against_sound table fs h =
      let c = validate_against-Checked table fs h in
      let samples = row_samples table.rows in
      let universe = collect fs.sample_ids in
      let apart =
        All-map (λ fold checked. boundaries_sound table fold c.valid checked) fs.folds
          ((for_each_iff (check_boundaries table (sample_groups_from [] table.rows)) fs.folds).0
            c.apart) in
      record {
        table_valid = validate_table_sound table c.valid;
        folds_valid = validate_fold_set_sound fs c.folds;
        known = λ s m. ground (
          arith,
          missing_sound fs (collect samples) (collect (universe ++ fs.target_missing_sample_ids))
              c.missing s (contains-collect s samples ∙ m),
          contains-collect s (universe ++ fs.target_missing_sample_ids),
          contains-append s universe fs.target_missing_sample_ids,
          contains-collect s fs.sample_ids,
        );
        present = λ s m.
            sym (contains-collect s samples)
            ∙ absent_sound fs universe (collect samples) c.absent s
                (contains-collect s fs.sample_ids ∙ m);
        groups_agree =
            All-map
              (λ row at g h' e r.
                agree_sound fs (sample_groups_from [] table.rows) fs.sample_groups row.sample_id g
                  h' c.agree e (at h' r))
              table.rows (row_groups table c.valid);
        groups_apart = All-map (λ fold both. both.0) fs.folds apart;
        origins_apart = All-map (λ fold both. both.1) fs.folds apart;
      }
