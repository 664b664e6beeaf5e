-- ===== src/Alignment/Select.antt =====
-- Which samples an alignment selects.
use dag_ml_data.Common.{
  ◌≡◌, refl, Bool, true, false, ◌||◌, List, [], ◌∷◌, arith, is_empty, all, any, All,
}
use dag_ml_data.Order.{==_iff, ==_refl, nat_ord, list_ord}
use dag_ml_data.Text.{Text}
use dag_ml_data.Collections.{contains_head, contains, Distinct, insert, contains-insert}
use dag_ml_data.Error.{ok}
use dag_ml_data.Alignment.{
  AlignmentMode, inner, left, outer, SourceSampleSet, source_set, source_sets, first_samples,
}
use dag_ml_data.Relation.Boundary.{contains-false}

abbrev pub source_ids : List SourceSampleSet → List Text
source_ids [] = []
source_ids (source ∷ sources) = source.source_id ∷ source_ids sources

-- Distinct sources, each with samples, and none of these twice.
pub record IsSources (sources : List SourceSampleSet) : Type 0 where
  pub distinct : Distinct (source_ids sources)
  pub each :
      All (λ source. (is_empty source.sample_ids ≡ false) × Distinct source.sample_ids) sources

-- The set of each source holds its samples.
abbrev pub SetsOf : List SourceSampleSet → List (List Text) → Type 0
SetsOf [] [] = Unit
SetsOf [] (t ∷ sets) = ⊥
SetsOf (source ∷ sources) [] = ⊥
SetsOf (source ∷ sources) (t ∷ sets) =
    ((b : Text) → contains b t ≡ contains b source.sample_ids) × SetsOf sources sets

-- The samples that a mode asks for.
abbrev pub in_mode : AlignmentMode → Text → List SourceSampleSet → Bool
in_mode inner s sources = all (λ source. contains s source.sample_ids) sources
in_mode left s sources = contains s (first_samples sources)
in_mode outer s sources = any (λ source. contains s source.sample_ids) sources

source_set-contains :
    (id : Text) (seen xs t : List Text)
    → source_set id seen xs ≡ ok t
    → (b : Text) → contains b t ≡ (contains b seen || contains b xs)
unfolding source_set
source_set-contains id seen [] t h b = ground arith
source_set-contains id seen (x ∷ xs) t h b =
    ground (
      arith,
      source_set-contains id (insert x seen) xs t (ground arith) b,
      contains-insert b x seen,
    )

source_set_fresh :
    (id : Text) (seen xs t : List Text)
    → source_set id seen xs ≡ ok t
    → (b : Text) → contains b xs ≡ true
    → contains b seen ≡ false
unfolding source_set
source_set_fresh id seen [] t h b m = cc
source_set_fresh id seen (x ∷ xs) t h b m = ground (
  arith,
  source_set_fresh id (insert x seen) xs t (ground arith) b,
  contains-insert b x seen,
  ==_iff b x,
)

source_set-Distinct :
    (id : Text) (seen xs t : List Text) → source_set id seen xs ≡ ok t → Distinct xs
unfolding source_set
source_set-Distinct id seen [] t h = tt
source_set-Distinct id seen (x ∷ xs) t h = (
  contains-false x xs (λ m. ground (
    arith,
    source_set_fresh id (insert x seen) xs t (ground arith) x m,
    contains-insert x x seen,
    ==_refl x,
  )),
  source_set-Distinct id (insert x seen) xs t (ground arith),
)

source_set_total :
    (id : Text) (seen xs : List Text)
    → Distinct xs
    → ((b : Text) → contains b xs ≡ true → contains b seen ≡ false)
    → (t : List Text) × (source_set id seen xs ≡ ok t)
unfolding source_set
source_set_total id seen [] d f = (seen, refl)
source_set_total id seen (x ∷ xs) d f =
    let (t, e) =
      source_set_total id (insert x seen) xs d.1
        (λ b m. ground (arith, contains-insert b x seen, ==_iff b x, f b)) in
    (t, ground (arith, f x, ==_refl x))

-- The parts of a successful round of `source_sets`.
record Round (seen : List Text) (source : SourceSampleSet) (sources : List SourceSampleSet)
    (sets : List (List Text)) : Type 0 where
  samples : List Text
  rest : List (List Text)
  fresh : contains source.source_id seen ≡ false
  nonempty : is_empty source.sample_ids ≡ false
  unique : source_set source.source_id [] source.sample_ids ≡ ok samples
  others : source_sets (insert source.source_id seen) sources ≡ ok rest
  joined : sets ≡ samples ∷ rest

source_sets-Round :
    (seen : List Text) (source : SourceSampleSet) (sources : List SourceSampleSet)
    (sets : List (List Text))
    → source_sets seen (source ∷ sources) ≡ ok sets
    → Round seen source sources sets
unfolding source_sets
source_sets-Round seen source sources sets h = ground arith

pub source_sets_sound :
    (seen : List Text) (sources : List SourceSampleSet) (sets : List (List Text))
    → source_sets seen sources ≡ ok sets
    → IsSources sources
      × ((b : Text) → contains b (source_ids sources) ≡ true → contains b seen ≡ false)
      × SetsOf sources sets
source_sets_sound seen [] [] h = (record { distinct = tt; each = tt }, λ b m. cc, tt)
source_sets_sound seen [] (t ∷ sets) h = unfold source_sets in cc
source_sets_sound seen (source ∷ sources) [] h =
    let r = source_sets-Round seen source sources [] h in cc r.joined
source_sets_sound seen (source ∷ sources) (t ∷ sets) h =
    let r = source_sets-Round seen source sources (t ∷ sets) h in
    let others : source_sets (insert source.source_id seen) sources ≡ ok sets =
      ground (arith, r.others, r.joined) in
    let unique : source_set source.source_id [] source.sample_ids ≡ ok t =
      ground (arith, r.unique, r.joined) in
    let (v, fresh, same) = source_sets_sound (insert source.source_id seen) sources sets others in
    (
      record {
        distinct = (
          contains-false source.source_id (source_ids sources) (λ m. ground (
            arith,
            fresh source.source_id m,
            contains-insert source.source_id source.source_id seen,
            ==_refl source.source_id,
          )),
          v.distinct,
        );
        each = (
          (r.nonempty, source_set-Distinct source.source_id [] source.sample_ids t unique),
          v.each,
        );
      },
      λ b m. ground (
        arith,
        fresh b,
        contains-insert b source.source_id seen,
        ==_iff b source.source_id,
        r.fresh,
      ),
      (source_set-contains source.source_id [] source.sample_ids t unique, same),
    )

pub source_sets_total :
    (seen : List Text) (sources : List SourceSampleSet)
    → IsSources sources
    → ((b : Text) → contains b (source_ids sources) ≡ true → contains b seen ≡ false)
    → (sets : List (List Text)) × (source_sets seen sources ≡ ok sets)
unfolding source_sets
source_sets_total seen [] v fresh = ([], refl)
source_sets_total seen (source ∷ sources) v fresh =
    let (t, unique) =
      source_set_total source.source_id [] source.sample_ids v.each.0.1 (λ b m. refl) in
    let (sets, others) =
      source_sets_total (insert source.source_id seen) sources
        (record { distinct = v.distinct.1; each = v.each.1 })
        (λ b m. ground (
          arith,
          fresh b,
          contains-insert b source.source_id seen,
          ==_iff b source.source_id,
          v.distinct.0,
        )) in
    (
      t ∷ sets,
      ground (
        arith,
        fresh source.source_id (contains_head source.source_id (source_ids sources)),
        v.each.0.0,
      ),
    )
