-- ===== src/Coordinator/Disjoint.antt =====
-- crates/dag-ml-data-core/src/predict_cohort.rs: an external test shares no sample with the training.
use dag_ml_data.Fingerprint.{Codec}
use dag_ml_data.Float.{Float}
use dag_ml_data.Coordinator.Relations.{
  validate_relations, CoordinatorRelationSet, CanonicalRecord, CoordinatorRelation,
}
use dag_ml_data.Coordinator.Cohort.{
  inference, external_test, external_test, is_external, cohort_fingerprint_of, PredictCohortRole,
  validate_disjoint, validate_members, refuse_overlap, validate_cohort, FingerprintInput,
  origins_of, physical_of, origin_of, PredictCohort, identities, training_ids,
}
use dag_ml_data.Common.{
  ◌≡◌, ap, Bool, true, false, Option, none, some, List, [], ◌∷◌, ◌++◌, arith, any, All, map,
}
use dag_ml_data.Order.{Ord, ==_iff, ==_refl, nat_ord, list_ord}
use dag_ml_data.Text.{Text}
use dag_ml_data.Collections.{contains, collect, contains-collect}
use dag_ml_data.Error.{◌>>◌, done}
use dag_ml_data.Order.{pair_ord}
use dag_ml_data.Collections.{contains-append}
use dag_ml_data.Error.{>>-eq-ok}
use dag_ml_data.Common.{All-map}

module _ {J F : Type 0} where
  contains-training_ids :
      (id : Text) (rows : List (CoordinatorRelation J F))
      → contains id (training_ids rows) ≡ false
      → All (λ row. contains id (identities row) ≡ false) rows
  unfolding training_ids
  contains-training_ids id [] absent = tt
  contains-training_ids id (row ∷ rows) absent =
      let joined = contains-append id (identities row) (training_ids rows) in
      (ground (arith, joined), contains-training_ids id rows (ground (arith, joined)))

any-false_at {ℓ} :
    {A : Type ℓ} ⦃o : Ord A⦄ (p : A → Bool) (xs : List A)
    → any p xs ≡ false
    → (x : A) → contains x xs ≡ true
    → p x ≡ false
any-false_at p [] none_of x at = cc
any-false_at p (y ∷ xs) none_of x at =
    ground (arith, any-false_at p xs (ground arith) x, ==_iff x y)

both {ℓ κ μ} :
    {A : Type ℓ} (P : A → Type κ) (Q : A → Type μ) (xs : List A)
    → All P xs
    → All Q xs
    → All (λ x. P x × (Q x × Unit {0})) xs
both P Q [] ps qs = tt
both P Q (x ∷ xs) ps qs = ((ps.0, (qs.0, tt)), both P Q xs ps.1 qs.1)

-- The image of every entry is among the images.
image_member {ℓ} :
    {A : Type ℓ} (f : A → Text) (xs : List A) → All (λ x. contains (f x) (map f xs) ≡ true) xs
image_member f [] = tt
image_member f (x ∷ xs) = (
  ground (arith, ==_refl (f x)),
  All-map {P = λ y. contains (f y) (map f xs) ≡ true}
      {Q = λ y. contains (f y) (f x ∷ map f xs) ≡ true} (λ y h. ground arith) xs
      (image_member f xs),
)

-- No identity of a row, its sample and the sample of its origin, is one of the other row.
abbrev pub Apart : {J F : Type 0} → CoordinatorRelation J F → CoordinatorRelation J F → Type 0
Apart row other = All (λ id. contains id (identities other) ≡ false) (identities row)

apart_from :
    {J F : Type 0} (sample : Text) (origin : Option Text) (rows : List (CoordinatorRelation J F))
    → All (λ other. contains sample (identities other) ≡ false) rows
    → All
        (λ other. contains (elim origin [ none ↦ sample | some o ↦ o ]) (identities other) ≡ false)
        rows
    → All
        (λ other.
          All
            (λ id. contains id (identities other) ≡ false)
            (elim origin [ none ↦ sample ∷ [] | some o ↦ sample ∷ o ∷ [] ]))
        rows
apart_from sample none rows of_sample of_origin = All-map (λ other h. (h, tt)) rows of_sample
apart_from sample (some origin) rows of_sample of_origin =
    both (λ other. contains sample (identities other) ≡ false)
      (λ other. contains origin (identities other) ≡ false) rows of_sample of_origin

module _ {J F : Type 0} (cohort : PredictCohort J F) (rows : List (CoordinatorRelation J F)) where
  -- What the checks of `validate_disjoint` leave.
  record Separate : Type 0 where
    samples_covered : physical_of cohort.relations.records ≡ collect cohort.physical_sample_ids
    origins_covered : origins_of cohort.relations.records ≡ collect cohort.origin_sample_ids
    none_shared :
        any
          (λ id. contains id (collect (training_ids rows)))
          (cohort.physical_sample_ids ++ cohort.origin_sample_ids)
        ≡ false

  module _ (s : Separate) where
    unshared :
        (id : Text)
        → contains id (cohort.physical_sample_ids ++ cohort.origin_sample_ids) ≡ true
        → All (λ other. contains id (identities other) ≡ false) rows
    unshared id member = contains-training_ids id rows (
        ground (
          arith,
          any-false_at (λ id. contains id (collect (training_ids rows)))
              (cohort.physical_sample_ids ++ cohort.origin_sample_ids) s.none_shared id member,
          contains-collect id (training_ids rows),
        ))

    listed :
        (row : CoordinatorRelation J F)
        → contains row.sample_id (map (λ r. r.sample_id) cohort.relations.records) ≡ true
        → contains (origin_of row) (map origin_of cohort.relations.records) ≡ true
        → (contains row.sample_id (cohort.physical_sample_ids ++ cohort.origin_sample_ids) ≡ true)
          × (contains (origin_of row) (cohort.physical_sample_ids ++ cohort.origin_sample_ids)
              ≡ true)
    listed row at_sample at_origin = (
      ground (
        arith,
        contains-append row.sample_id cohort.physical_sample_ids cohort.origin_sample_ids,
        contains-collect row.sample_id (map (λ r. r.sample_id) cohort.relations.records),
        contains-collect row.sample_id cohort.physical_sample_ids,
        ap (contains row.sample_id) s.samples_covered,
      ),
      ground (
        arith,
        contains-append (origin_of row) cohort.physical_sample_ids cohort.origin_sample_ids,
        contains-collect (origin_of row) (map origin_of cohort.relations.records),
        contains-collect (origin_of row) cohort.origin_sample_ids,
        ap (contains (origin_of row)) s.origins_covered,
      ),
    )

    row_separated :
        (row : CoordinatorRelation J F)
        → contains row.sample_id (map (λ r. r.sample_id) cohort.relations.records) ≡ true
        → contains (origin_of row) (map origin_of cohort.relations.records) ≡ true
        → All (Apart row) rows
    row_separated row at_sample at_origin =
        let (of_sample, of_origin) = listed row at_sample at_origin in
        apart_from row.sample_id row.origin_sample_id rows (unshared row.sample_id of_sample)
          (unshared (origin_of row) of_origin)

    every_row_separated :
        (records : List (CoordinatorRelation J F))
        → All
            (λ row. contains row.sample_id (map (λ r. r.sample_id) cohort.relations.records) ≡ true)
            records
        → All
            (λ row. contains (origin_of row) (map origin_of cohort.relations.records) ≡ true)
            records
        → All (λ row. All (Apart row) rows) records
    every_row_separated [] samples origins = tt
    every_row_separated (row ∷ records) samples origins =
        (row_separated row samples.0 origins.0, every_row_separated records samples.1 origins.1)

module _ {J F : Type 0} (f64 : Float F) (relation_codec : Codec J (List (CanonicalRecord J F)))
    (cohort_codec : Codec J (FingerprintInput J F)) where
  members_covered :
      (cohort : PredictCohort J F)
      → validate_members f64 relation_codec cohort_codec cohort ≡ done
      → (physical_of cohort.relations.records ≡ collect cohort.physical_sample_ids)
        × (origins_of cohort.relations.records ≡ collect cohort.origin_sample_ids)
  unfolding validate_members
  members_covered cohort accepted = (
    ground
        (arith, ==_iff (physical_of cohort.relations.records) (collect cohort.physical_sample_ids)),
    ground (arith, ==_iff (origins_of cohort.relations.records) (collect cohort.origin_sample_ids)),
  )

  overlap_refused :
      (cohort : PredictCohort J F) (rows : List (CoordinatorRelation J F))
      (role : PredictCohortRole)
      → is_external role ≡ true
      → refuse_overlap f64 relation_codec cohort_codec cohort rows role ≡ done
      → any
          (λ id. contains id (collect (training_ids rows)))
          (cohort.physical_sample_ids ++ cohort.origin_sample_ids)
        ≡ false
  unfolding refuse_overlap
  overlap_refused cohort rows external_test external accepted = ground arith
  overlap_refused cohort rows inference external accepted = cc

  cohort_members :
      (cohort : PredictCohort J F)
      → validate_cohort f64 relation_codec cohort_codec cohort ≡ done
      → validate_members f64 relation_codec cohort_codec cohort ≡ done
  unfolding validate_cohort cohort_fingerprint_of
  cohort_members cohort accepted = ground arith

  -- An external test that `validate_disjoint` accepts shares nothing with the training relations: no sample
  -- of a relation of the cohort, and no sample that one originates from, is the sample or the origin of a
  -- training relation.
  pub validate_disjoint-Apart :
      (cohort : PredictCohort J F) (training : CoordinatorRelationSet J F)
      → is_external cohort.role ≡ true
      → validate_disjoint f64 relation_codec cohort_codec cohort training ≡ done
      → All (λ row. All (Apart row) training.records) cohort.relations.records
  unfolding validate_disjoint
  validate_disjoint-Apart cohort training external accepted =
      let (checked, h) =
        >>-eq-ok (validate_cohort f64 relation_codec cohort_codec cohort)
          (validate_relations f64 training
            >> refuse_overlap f64 relation_codec cohort_codec cohort training.records cohort.role)
          accepted in
      let (_, apart) =
        >>-eq-ok (validate_relations f64 training)
          (refuse_overlap f64 relation_codec cohort_codec cohort training.records cohort.role) h in
      let (samples, origins) = members_covered cohort (cohort_members cohort checked) in
      every_row_separated cohort training.records
        (record {
          samples_covered = samples;
          origins_covered = origins;
          none_shared = overlap_refused cohort training.records cohort.role external apart;
        })
        cohort.relations.records (image_member (λ r. r.sample_id) cohort.relations.records)
        (image_member origin_of cohort.relations.records)
