-- ===== src/Tests/Prints.antt =====
-- The fingerprint of a table of three rows, turned.
use dag_ml_data.Fingerprint.Permuted.{sample_relation_fingerprint_permuted}
use dag_ml_data.Fingerprint.Artifacts.{sample_relation_fingerprint}
use dag_ml_data.Fingerprint.{Codec}
use dag_ml_data.Relation.Table.{check_row, validate_table}
use dag_ml_data.Relation.{SampleRelationTable, SampleRelation}
use dag_ml_data.Common.{ℕ, ◌≡◌, refl, true, false, none, some, List, [], ◌∷◌, ◌++◌}
use dag_ml_data.Order.{nat_ord, list_ord}
use dag_ml_data.Collections.{put, get, insert}
use dag_ml_data.Error.{ok, done}
use dag_ml_data.Order.{pair_ord, cmp_list}
use mathlib.Core.List.{Permᴰ}
use dag_ml_data.Tests.Relations.{row, table, s1, s2, validate_table-table}

abbrev turned_table : SampleRelationTable (Unit {0})
turned_table = record {
  rows =
      row (98 ∷ []) s2 none false
      ∷ row (97 ∷ []) s1 none false
      ∷ row (99 ∷ []) s1 (some (97 ∷ [])) true
      ∷ [];
}

turned_table-valid : validate_table turned_table ≡ done
unfolding validate_table check_row get insert cmp_list put
turned_table-valid = refl

-- Bytes that depend on the rows: the observations in their order.
abbrev tags_of : List (SampleRelation (Unit {0})) → List ℕ
tags_of [] = []
tags_of (r ∷ rows) = r.observation_id ++ tags_of rows

abbrev tag_codec : Codec (Unit {0}) (SampleRelationTable (Unit {0}))
tag_codec = record {
  to_value = λ value. ok tt;
  sort_all_objects = λ value. value;
  from_value = λ value. ok table;
  to_vec = λ value. ok (tags_of value.rows);
  digest = λ bytes. bytes;
}

sample_relation_fingerprint_permuted_example :
    sample_relation_fingerprint tag_codec table ≡ sample_relation_fingerprint tag_codec turned_table
sample_relation_fingerprint_permuted_example =
    sample_relation_fingerprint_permuted tag_codec table turned_table validate_table-table
      turned_table-valid (Permᴰ.swap refl refl)
