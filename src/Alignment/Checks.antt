-- ===== src/Alignment/Checks.antt =====
-- The plan that an alignment builds passes `SampleAlignmentPlan::validate`.
use mathlib.Core.Path.{fun_ext}
use dag_ml_data.Common.{
  ◌∙◌, length-append, append_assoc, get_elem?, suc, ◌≡◌, refl, ap, Bool, true, false, some, List,
  [], ◌∷◌, ◌++◌, arith, length, is_empty, all, any, map,
}
use dag_ml_data.Order.{==_iff, ==_refl, nat_ord, list_ord}
use dag_ml_data.Text.{Text}
use dag_ml_data.Collections.{
  contains_tail, contains_head, contains, Distinct, insert, contains-insert,
}
use dag_ml_data.Error.{done, >>_iff}
use dag_ml_data.Alignment.{
  validate_plan, check_presences, AlignmentMode, inner, left, outer, SourceSampleSet, PresenceMask,
  validate_mask, check_samples, check_mask, check_masks, present_at, presence_ok, check_presence,
  masks_of,
}
use dag_ml_data.Alignment.Select.{SetsOf, in_mode, source_ids}

-- The mask of a source over the aligned samples.
abbrev pub mask : List Text → SourceSampleSet → PresenceMask
mask ids source = record {
  sample_ids = ids;
  source_id = source.source_id;
  present = map (λ s. contains s source.sample_ids) ids;
}

abbrev pub masks : List Text → List SourceSampleSet → List PresenceMask
masks ids [] = []
masks ids (source ∷ sources) = mask ids source ∷ masks ids sources

map-contains :
    (ids xs ys : List Text)
    → ((b : Text) → contains b xs ≡ contains b ys)
    → map (λ s. contains s xs) ids ≡ map (λ s. contains s ys) ids
map-contains ids xs ys same = ap (λ f. map f ids) (fun_ext same)

pub masks_of_lem :
    (ids : List Text) (sources : List SourceSampleSet) (sets : List (List Text))
    → SetsOf sources sets
    → masks_of ids sources sets ≡ masks ids sources
unfolding masks_of
masks_of_lem ids [] [] h = refl
masks_of_lem ids [] (t ∷ sets) h = absurd h
masks_of_lem ids (source ∷ sources) [] h = absurd h
masks_of_lem ids (source ∷ sources) (t ∷ sets) h =
    cc (map-contains ids t source.sample_ids h.0, masks_of_lem ids sources sets h.1)

check_samples_total :
    (seen xs : List Text)
    → Distinct xs
    → ((b : Text) → contains b xs ≡ true → contains b seen ≡ false)
    → check_samples seen xs ≡ done
unfolding check_samples
check_samples_total seen [] d f = refl
check_samples_total seen (x ∷ xs) d f = ground (
  arith,
  f x,
  ==_refl x,
  check_samples_total (insert x seen) xs d.1
      (λ b m. ground (arith, contains-insert b x seen, ==_iff b x, f b)),
)

length-map {ℓ κ} :
    {A : Type ℓ} {B : Type κ} (f : A → B) (xs : List A) → length (map f xs) ≡ length xs
length-map f [] = refl
length-map f (x ∷ xs) = ap suc (length-map f xs)

check_mask_total :
    (ids seen : List Text) (source : SourceSampleSet)
    → contains source.source_id seen ≡ false
    → check_mask ids seen (mask ids source) ≡ done
unfolding check_mask validate_mask
check_mask_total ids seen source fresh =
    ground (arith, ==_refl ids, length-map (λ s. contains s source.sample_ids) ids)

check_masks_total :
    (ids seen : List Text) (sources : List SourceSampleSet)
    → Distinct (source_ids sources)
    → ((b : Text) → contains b (source_ids sources) ≡ true → contains b seen ≡ false)
    → check_masks ids seen (masks ids sources) ≡ done
unfolding check_masks
check_masks_total ids seen [] d f = refl
check_masks_total ids seen (source ∷ sources) d f =
    (>>_iff (check_mask ids seen (mask ids source))
        (check_masks ids (insert source.source_id seen) (masks ids sources)) tt).1
      (
        check_mask_total ids seen source
            (f source.source_id (contains_head source.source_id (source_ids sources))),
        check_masks_total ids (insert source.source_id seen) sources d.1 (λ b m.
            ground (
              arith,
              contains-insert b source.source_id seen,
              ==_iff b source.source_id,
              f b,
              d.0,
            )),
      )

get_elem?-map :
    (f : Text → Bool) (before after : List Text) (s : Text)
    → get_elem? (map f (before ++ s ∷ after)) (length before) ≡ some (f s)
get_elem?-map f [] after s = refl
get_elem?-map f (x ∷ before) after s = get_elem?-map f before after s

present_at_lem :
    (source : SourceSampleSet) (before after : List Text) (s : Text)
    → present_at (length before) (mask (before ++ s ∷ after) source) ≡ contains s source.sample_ids
unfolding present_at
present_at_lem source before after s =
    ground (arith, get_elem?-map (λ t. contains t source.sample_ids) before after s)

module _ (before after : List Text) (s : Text) where
  abbrev ids : List Text
  ids = before ++ s ∷ after

  any_present :
      (sources : List SourceSampleSet)
      → any (present_at (length before)) (masks ids sources) ≡ in_mode outer s sources
  any_present [] = refl
  any_present (source ∷ sources) =
      ground (arith, present_at_lem source before after s, any_present sources)

  all_present :
      (sources : List SourceSampleSet)
      → all (present_at (length before)) (masks ids sources) ≡ in_mode inner s sources
  all_present [] = refl
  all_present (source ∷ sources) =
      ground (arith, present_at_lem source before after s, all_present sources)

  presence_ok_lem :
      (mode : AlignmentMode) (sources : List SourceSampleSet)
      → presence_ok mode (length before) (masks ids sources) ≡ in_mode mode s sources
  unfolding presence_ok
  presence_ok_lem inner sources = all_present sources
  presence_ok_lem left [] = refl
  presence_ok_lem left (source ∷ sources) = present_at_lem source before after s
  presence_ok_lem outer sources = any_present sources

  in_some :
      (mode : AlignmentMode) (sources : List SourceSampleSet)
      → is_empty sources ≡ false
      → in_mode mode s sources ≡ true
      → in_mode outer s sources ≡ true
  in_some mode [] ne h = cc
  in_some inner (source ∷ sources) ne h = ground arith
  in_some left (source ∷ sources) ne h = ground arith
  in_some outer (source ∷ sources) ne h = h

  check_presence_total :
      (mode : AlignmentMode) (sources : List SourceSampleSet)
      → is_empty sources ≡ false
      → in_mode mode s sources ≡ true
      → check_presence mode (masks ids sources) (length before) s ≡ done
  unfolding check_presence
  check_presence_total mode sources ne h =
      ground (arith, any_present sources, presence_ok_lem mode sources, in_some mode sources ne h)

check_presences_total :
    (mode : AlignmentMode) (sources : List SourceSampleSet) (before after : List Text)
    → is_empty sources ≡ false
    → ((s : Text) → contains s after ≡ true → in_mode mode s sources ≡ true)
    → check_presences mode (masks (before ++ after) sources) (length before) after ≡ done
unfolding check_presences
check_presences_total mode sources before [] ne h = refl
check_presences_total mode sources before (s ∷ after) ne h =
    let here = check_presence_total before after s mode sources ne (h s (contains_head s after)) in
    let there =
      check_presences_total mode sources (before ++ s ∷ []) after ne
        (λ t m. h t (contains_tail t s after m)) in
    let same : (before ++ s ∷ []) ++ after ≡ before ++ s ∷ after =
      append_assoc before (s ∷ []) after in
    let size : length (before ++ s ∷ []) ≡ suc (length before) =
      length-append before (s ∷ []) ∙ omega arith in
    (>>_iff (check_presence mode (masks (before ++ s ∷ after) sources) (length before) s)
        (check_presences mode (masks (before ++ s ∷ after) sources) (suc (length before)) after)
        tt).1
      (here, cc (there, same, size))

pub validate_plan_total :
    (mode : AlignmentMode) (sources : List SourceSampleSet) (ids : List Text)
    → is_empty sources ≡ false
    → is_empty ids ≡ false
    → Distinct (source_ids sources)
    → Distinct ids
    → ((s : Text) → contains s ids ≡ true → in_mode mode s sources ≡ true)
    → validate_plan (record { mode = mode; sample_ids = ids; masks = masks ids sources }) ≡ done
unfolding validate_plan
validate_plan_total mode [] ids ne some' ds di h = cc
validate_plan_total mode (source ∷ sources) ids ne some' ds di h = ground (
  arith,
  check_samples_total [] ids di (λ b m. refl),
  check_masks_total ids [] (source ∷ sources) ds (λ b m. refl),
  check_presences_total mode (source ∷ sources) [] ids ne h,
)
