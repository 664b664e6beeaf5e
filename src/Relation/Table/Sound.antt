-- ===== src/Relation/Table/Sound.antt =====
-- What an accepted table of relations, and an accepted fold set over it, guarantee.
use dag_ml_data.Common.{
  All-map, ◌≡◌, refl, ap, true, false, some, List, [], ◌∷◌, arith, is_empty, any, All,
}
use dag_ml_data.Order.{◌==◌, ==_iff, nat_ord, list_ord}
use dag_ml_data.Text.{Text}
use dag_ml_data.Collections.{Map, get, contains, Distinct}
use dag_ml_data.Error.{ok, done, for_each, for_each_iff}
use dag_ml_data.Collections.{All_at}
use dag_ml_data.Relation.{SampleRelation, SampleRelationTable}
use dag_ml_data.Relation.Boundary.{observations}
use dag_ml_data.Relation.Table.{TableState, check_rows, check_origin_known, validate_table}
use dag_ml_data.Relation.Table.Rows.{IsRow, check_rows_sound}

-- A valid table: no observation twice, each row valid, every origin the observation of a row, and
-- one group at most for a sample.
pub record IsTable {J : Type 0} (rows : List (SampleRelation J)) : Type 0 where
  pub nonempty : is_empty rows ≡ false
  pub distinct : Distinct (observations rows)
  pub each : All IsRow rows
  pub origins :
      All (λ row. (o : Text) → row.origin_id ≡ some o → contains o (observations rows) ≡ true) rows
  pub one_group :
      All
        (λ row.
          All
            (λ other.
              (g h : Text)
              → row.sample_id ≡ other.sample_id
              → row.group_id ≡ some g
              → other.group_id ≡ some h
              → g ≡ h)
            rows)
        rows

any-contains : (o : Text) (xs : List Text) → any (λ x. x == o) xs ≡ contains o xs
any-contains o [] = refl
any-contains o (x ∷ xs) = ground (arith, ==_iff x o, ==_iff o x, any-contains o xs)

module _ {J : Type 0} where
  pub record Accepted (table : SampleRelationTable J) : Type 0 where
    pub st : TableState
    nonempty : is_empty table.rows ≡ false
    pub looped :
        check_rows (record { observation_ids = []; origin_ids = []; sample_groups = [] }) table.rows
        ≡ ok st
    known : for_each (check_origin_known st.observation_ids) st.origin_ids ≡ done

  pub validate_table-Accepted :
      (table : SampleRelationTable J) → validate_table table ≡ done → Accepted table
  unfolding validate_table
  validate_table-Accepted table h = ground arith

  one_group_of :
      (m : Map Text Text) (all_rows rows : List (SampleRelation J))
      → All (λ row. (g : Text) → row.group_id ≡ some g → get row.sample_id m ≡ some g) rows
      → All (λ row. (g : Text) → row.group_id ≡ some g → get row.sample_id m ≡ some g) all_rows
      → All
          (λ row.
            All
              (λ other.
                (g h : Text)
                → row.sample_id ≡ other.sample_id
                → row.group_id ≡ some g
                → other.group_id ≡ some h
                → g ≡ h)
              all_rows)
          rows
  one_group_of m all_rows rows at at_all =
      All-map
        (λ row here.
          All-map
            (λ other there g h same eg eh.
              ground (arith, here g eg, there h eh, ap (λ s. get s m) same))
            all_rows at_all)
        rows at

  -- `SampleRelationTable::validate` accepts only valid tables.
  pub validate_table_sound :
      (table : SampleRelationTable J) → validate_table table ≡ done → IsTable table.rows
  validate_table_sound table h =
      let a = validate_table-Accepted table h in
      let l = check_rows_sound _ a.st table.rows a.looped in
      let known =
        (for_each_iff (check_origin_known a.st.observation_ids) a.st.origin_ids).0 a.known in
      record {
        nonempty = a.nonempty;
        distinct = l.distinct;
        each = l.each;
        origins =
            All-map
              (λ row at o e.
                let checked = All_at _ a.st.origin_ids known o (at o e) in
                unfold check_origin_known in
                ground (arith, any-contains o a.st.observation_ids, l.observed o))
              table.rows l.origin_at;
        one_group = one_group_of a.st.sample_groups table.rows table.rows l.group_at l.group_at;
      }
