-- ===== src/Relation/Table/Rows.antt =====
-- What a round and the whole loop over the rows of a table guarantee when they succeed.
use dag_ml_data.Relation.Boundary.{contains-false, observations}
use dag_ml_data.Common.{
  [], ◌∙◌, All, ap, ◌||◌, ◌∷◌, true, List, Option-cases, ◌≡◌, inl, inr, false, not, ◌&&◌, none,
  some, arith, is_some,
}
use dag_ml_data.Order.{◌==◌, ==_iff, ==_refl, nat_ord, list_ord}
use dag_ml_data.Text.{Text}
use dag_ml_data.Collections.{contains-insert, Distinct, Map, put, get, get-put, contains, insert}
use dag_ml_data.Error.{>>=-eq-ok, ok, done}
use dag_ml_data.Relation.{SampleRelation}
use dag_ml_data.Relation.Table.{
  sample_groups_from, check_rows, TableState, record_group, record_origin, check_augmentation,
  check_row,
}

-- A row alone: exactly the augmented rows have an origin, another observation.
pub record IsRow {J : Type 0} (row : SampleRelation J) : Type 0 where
  pub origin_iff : row.augmented ≡ is_some row.origin_id
  pub origin_other : (o : Text) → row.origin_id ≡ some o → (o == row.observation_id) ≡ false
  pub augmentation_only : row.augmented ≡ false → is_some row.augmentation ≡ false

module _ {J : Type 0} where
  check_augmentation_sound :
      (row : SampleRelation J)
      → check_augmentation row ≡ done
      → row.augmented ≡ false
      → is_some row.augmentation ≡ false
  unfolding check_augmentation
  check_augmentation_sound row h e = elim (Option-cases row.augmentation) [
    | inl none' ↦ rw none'
    | inr (a, some') ↦ ground arith
  ]

  -- The map after the row, as `sample_groups` makes it.
  abbrev pub with_group : Map Text Text → SampleRelation J → Map Text Text
  with_group m row = elim row.group_id [ none ↦ m | some g ↦ put row.sample_id g m ]

  record_group_sound :
      (m m' : Map Text Text) (row : SampleRelation J)
      → record_group m row ≡ ok m'
      → (m' ≡ with_group m row)
        × ((g : Text) → row.group_id ≡ some g → get row.sample_id m' ≡ some g)
        × ((s g : Text) → get s m ≡ some g → get s m' ≡ some g)
  unfolding record_group
  record_group_sound m m' row h = elim (Option-cases row.group_id) [
    | inl e ↦ (ground arith, λ g e'. ground arith, λ s g e'. ground arith)
    | inr (g, e) ↦ (
      ground arith,
      λ g' e'. ground (arith, get-put row.sample_id row.sample_id g m, ==_refl row.sample_id),
      λ s g' e'. elim (Option-cases (get row.sample_id m)) [
        | inl absent ↦ ground (arith, get-put s row.sample_id g m, ==_iff s row.sample_id)
        | inr (p, present) ↦
            ground (arith, get-put s row.sample_id g m, ==_iff s row.sample_id, ==_iff p g)
      ],
    )
  ]

  -- The parts of a successful round.
  record Round (st st' : TableState) (row : SampleRelation J) : Type 0 where
    fresh : contains row.observation_id st.observation_ids ≡ false
    grouped : record_group st.sample_groups row ≡ ok st'.sample_groups
    has_origin : (row.augmented && not (is_some row.origin_id)) ≡ false
    no_origin : (not row.augmented && is_some row.origin_id) ≡ false
    augmented : check_augmentation row ≡ done
    originated : record_origin st.origin_ids row ≡ ok st'.origin_ids
    observed : st'.observation_ids ≡ insert row.observation_id st.observation_ids

  check_row-Round :
      (st st' : TableState) (row : SampleRelation J) → check_row st row ≡ ok st' → Round st st' row
  unfolding check_row
  check_row-Round st st' row h = ground arith

  record_origin_sound :
      (origins origins' : List Text) (row : SampleRelation J)
      → record_origin origins row ≡ ok origins'
      → ((o : Text)
          → row.origin_id ≡ some o
          → ((o == row.observation_id) ≡ false) × (contains o origins' ≡ true))
        × ((o : Text) → contains o origins ≡ true → contains o origins' ≡ true)
  unfolding record_origin
  record_origin_sound origins origins' row h = elim (Option-cases row.origin_id) [
    | inl e ↦ (λ o e'. ground arith, λ o m. ground arith)
    | inr (p, e) ↦ (
      λ o e'. ground (arith, contains-insert o p origins, ==_refl o),
      λ o m. ground (arith, contains-insert o p origins),
    )
  ]

  Round-IsRow : (st st' : TableState) (row : SampleRelation J) → Round st st' row → IsRow row
  Round-IsRow st st' row r = record {
    origin_iff = ground (arith, r.has_origin, r.no_origin);
    origin_other =
        λ o e. ((record_origin_sound st.origin_ids st'.origin_ids row r.originated).0 o e).0;
    augmentation_only = check_augmentation_sound row r.augmented;
  }

  -- What the loop has seen to of the rows, when it succeeds.
  pub record Loop (st st' : TableState) (rows : List (SampleRelation J)) : Type 0 where
    pub distinct : Distinct (observations rows)
    pub fresh :
        (b : Text) → contains b (observations rows) ≡ true → contains b st.observation_ids ≡ false
    pub observed :
        (b : Text)
        → contains b st'.observation_ids
          ≡ (contains b st.observation_ids || contains b (observations rows))
    pub each : All IsRow rows
    pub groups : st'.sample_groups ≡ sample_groups_from st.sample_groups rows
    pub group_kept :
        (s g : Text) → get s st.sample_groups ≡ some g → get s st'.sample_groups ≡ some g
    pub group_at :
        All
          (λ row. (g : Text) → row.group_id ≡ some g → get row.sample_id st'.sample_groups ≡ some g)
          rows
    pub origin_kept :
        (o : Text) → contains o st.origin_ids ≡ true → contains o st'.origin_ids ≡ true
    pub origin_at :
        All (λ row. (o : Text) → row.origin_id ≡ some o → contains o st'.origin_ids ≡ true) rows

  pub check_rows_sound :
      (st st' : TableState) (rows : List (SampleRelation J))
      → check_rows st rows ≡ ok st'
      → Loop st st' rows
  unfolding check_rows sample_groups_from
  check_rows_sound st st' [] h = record {
    distinct = tt;
    fresh = λ b m. cc;
    observed = λ b. ground arith;
    each = tt;
    groups = ground arith;
    group_kept = λ s g e. ground arith;
    group_at = tt;
    origin_kept = λ o m. ground arith;
    origin_at = tt;
  }
  check_rows_sound st st' (row ∷ rows) h =
      let (mid, first, rest) = >>=-eq-ok (check_row st row) (λ m. check_rows m rows) h in
      let r = check_row-Round st mid row first in
      let l = check_rows_sound mid st' rows rest in
      let (same, here, kept) =
        record_group_sound st.sample_groups mid.sample_groups row r.grouped in
      let (origin_here, origin_kept') =
        record_origin_sound st.origin_ids mid.origin_ids row r.originated in
      let inserted = λ (b : Text).
        ap (contains b) r.observed ∙ contains-insert b row.observation_id st.observation_ids in
      record {
        distinct = (
          contains-false row.observation_id (observations rows) (λ m. ground (
            arith,
            l.fresh row.observation_id m,
            inserted row.observation_id,
            ==_refl row.observation_id,
          )),
          l.distinct,
        );
        fresh = λ b m. ground (arith, l.fresh b, inserted b, ==_iff b row.observation_id, r.fresh);
        observed = λ b. ground (arith, l.observed b, inserted b);
        each = (Round-IsRow st mid row r, l.each);
        groups = l.groups ∙ ap (λ m. sample_groups_from m rows) same;
        group_kept = λ s g e. l.group_kept s g (kept s g e);
        group_at = (λ g e. l.group_kept row.sample_id g (here g e), l.group_at);
        origin_kept = λ o m. l.origin_kept o (origin_kept' o m);
        origin_at = (λ o e. l.origin_kept o (origin_here o e).1, l.origin_at);
      }
