-- ===== src/Relation/Boundary.antt =====
-- What `unique_samples` and the boundary checks of relation.rs accept.
use dag_ml_data.Common.{
  subst, All-map, All, ◌&&◌, Bool, ◌∙◌, sym, ap, inr, inl, Bool-cases, Option-cases, refl,
  false≢true, filter_map, some, false, true, Option, ◌≡◌, ◌||◌, List, [], ◌∷◌, arith,
}
use dag_ml_data.Order.{◌==◌, ==_refl, ==_iff, nat_ord, list_ord}
use dag_ml_data.Text.{Text}
use dag_ml_data.Collections.{
  insert-Distinct, get-put, put, contains-collect, All-of_contains, collect, All_at, contains_head,
  contains_tail, get, Map, Distinct, contains, insert, contains-insert,
}
use dag_ml_data.Error.{for_each_iff, done, ok}
use dag_ml_data.Relation.{
  SampleRelationTable, origin_samples_from, validate_origin_boundary, check_origin, SampleRelation,
  check_group, validate_group_boundary, unique_samples, unique_from,
}

unique_from-contains :
    (label : Text) (seen xs s : List Text)
    → unique_from label seen xs ≡ ok s
    → (b : Text) → contains b s ≡ (contains b seen || contains b xs)
unfolding unique_from
unique_from-contains label seen [] s h b = ground arith
unique_from-contains label seen (x ∷ xs) s h b = ground (
  arith,
  unique_from-contains label (insert x seen) xs s (ground arith) b,
  contains-insert b x seen,
  ==_iff b x,
)

unique_from_fresh :
    (label : Text) (seen xs s : List Text)
    → unique_from label seen xs ≡ ok s
    → (b : Text) → contains b xs ≡ true
    → contains b seen ≡ false
unfolding unique_from
unique_from_fresh label seen [] s h b m = cc
unique_from_fresh label seen (x ∷ xs) s h b m = ground (
  arith,
  unique_from_fresh label (insert x seen) xs s (ground arith) b,
  contains-insert b x seen,
  ==_iff b x,
)

pub contains-false :
    (x : Text) (xs : List Text) → (contains x xs ≡ true → ⊥) → contains x xs ≡ false
contains-false x xs h = ground (arith, h)

unique_from-Distinct :
    (label : Text) (seen xs s : List Text) → unique_from label seen xs ≡ ok s → Distinct xs
unfolding unique_from
unique_from-Distinct label seen [] s h = tt
unique_from-Distinct label seen (x ∷ xs) s h = (
  contains-false x xs (λ m. ground (
    arith,
    unique_from_fresh label (insert x seen) xs s (ground arith) x m,
    contains-insert x x seen,
    ==_refl x,
  )),
  unique_from-Distinct label (insert x seen) xs s (ground arith),
)

unique_from_total :
    (label : Text) (seen xs : List Text)
    → Distinct xs
    → ((b : Text) → contains b xs ≡ true → contains b seen ≡ false)
    → (s : List Text) × (unique_from label seen xs ≡ ok s)
unfolding unique_from
unique_from_total label seen [] d f = (seen, refl)
unique_from_total label seen (x ∷ xs) d f =
    let (s, e) =
      unique_from_total label (insert x seen) xs d.1
        (λ b m. ground (arith, contains-insert b x seen, ==_iff b x, f b)) in
    (s, ground (arith, f x, ==_refl x))

unique_from-set :
    (label : Text) (seen xs s : List Text)
    → Distinct seen
    → unique_from label seen xs ≡ ok s
    → Distinct s
unfolding unique_from
unique_from-set label seen [] s d h = subst Distinct (ground arith) d
unique_from-set label seen (x ∷ xs) s d h =
    unique_from-set label (insert x seen) xs s (insert-Distinct x seen (ground arith) d)
      (ground arith)

pub unique_samples-set :
    (label : Text) (xs s : List Text) → unique_samples label xs ≡ ok s → Distinct s
unfolding unique_samples
unique_samples-set label xs s h = unique_from-set label [] xs s tt h

-- An accepted list has no sample twice, and the set has its samples.
pub unique_samples_sound :
    (label : Text) (xs s : List Text)
    → unique_samples label xs ≡ ok s
    → Distinct xs × ((b : Text) → contains b s ≡ contains b xs)
unfolding unique_samples
unique_samples_sound label xs s h =
    (unique_from-Distinct label [] xs s h, λ b. unique_from-contains label [] xs s h b)

pub unique_samples_total :
    (label : Text) (xs : List Text)
    → Distinct xs
    → (s : List Text) × (unique_samples label xs ≡ ok s)
unfolding unique_samples
unique_samples_total label xs d = unique_from_total label [] xs d (λ b m. refl)

contains-filter_map :
    (f : Text → Option Text) (g : Text) (xs : List Text)
    → contains g (filter_map f xs) ≡ true
    → (s : Text) × (contains s xs ≡ true) × (f s ≡ some g)
contains-filter_map f g [] h = absurd (false≢true h)
contains-filter_map f g (x ∷ xs) h = elim (Option-cases (f x)) [
  | inl e ↦
      let (s, m, fs) = contains-filter_map f g xs (rw e at h) in (s, contains_tail s x xs m, fs)
  | inr (y, e) ↦ elim (Bool-cases (g == y)) [
    | inl same ↦ (x, contains_head x xs, e ∙ ap some (sym ((==_iff g y).0 same)))
    | inr other ↦
        let (s, m, fs) = contains-filter_map f g xs (ground arith) in
        (s, contains_tail s x xs m, fs)
  ]
]

filter_map-contains :
    (f : Text → Option Text) (g s : Text) (xs : List Text)
    → contains s xs ≡ true
    → f s ≡ some g
    → contains g (filter_map f xs) ≡ true
filter_map-contains f g s [] m e = absurd (false≢true m)
filter_map-contains f g s (x ∷ xs) m e = elim (Bool-cases (s == x)) [
  | inl same ↦ rw (ap f (sym ((==_iff s x).0 same)) ∙ e) (contains_head g (filter_map f xs))
  | inr other ↦
      let ih = filter_map-contains f g s xs (rw other at m) e in
      elim (Option-cases (f x)) [
        | inl skip ↦ rw skip ih
        | inr (y, push) ↦ rw push (contains_tail g y (filter_map f xs) ih)
      ]
]

-- No group has one sample in `train` and one in `held_out`.
abbrev pub GroupsApart : List Text → List Text → Map Text Text → Type 0
GroupsApart train held_out groups =
    (s t g : Text)
    → contains s train ≡ true
    → contains t held_out ≡ true
    → get s groups ≡ some g
    → get t groups ≡ some g
    → ⊥

-- The groups of the training samples.
abbrev groups_of : List Text → Map Text Text → List Text
groups_of train groups = filter_map (λ k. get k groups) train

check_group_sound :
    (fold_id : Text) (train : List Text) (groups : Map Text Text) (s t g : Text)
    → check_group fold_id (collect (groups_of train groups)) groups t ≡ done
    → contains s train ≡ true
    → get s groups ≡ some g
    → get t groups ≡ some g
    → ⊥
unfolding check_group
check_group_sound fold_id train groups s t g h ms gs gt = ground (
  arith,
  contains-collect g (groups_of train groups),
  filter_map-contains (λ k. get k groups) g s train ms gs,
)

check_group_complete :
    (fold_id : Text) (train : List Text) (groups : Map Text Text) (t : Text)
    → ((s g : Text) → contains s train ≡ true → get s groups ≡ some g → get t groups ≡ some g → ⊥)
    → check_group fold_id (collect (groups_of train groups)) groups t ≡ done
unfolding check_group
check_group_complete fold_id train groups t apart = elim (Option-cases (get t groups)) [
  | inl e ↦ rw (e, check_group)
  | inr (g, e) ↦
      let absent = contains-false g (groups_of train groups) (λ m.
        let (s, ms, gs) = contains-filter_map (λ k. get k groups) g train m in apart s g ms gs e) in
      rw (e, check_group) (rw (contains-collect g (groups_of train groups) ∙ absent))
]

pub validate_group_boundary_sound :
    (fold_id : Text) (train held_out : List Text) (groups : Map Text Text)
    → validate_group_boundary fold_id train held_out groups ≡ done
    → GroupsApart train held_out groups
unfolding validate_group_boundary
validate_group_boundary_sound fold_id train held_out [] h s t g ms mt gs gt = unfold get in cc
validate_group_boundary_sound fold_id train held_out (p ∷ groups) h s t g ms mt gs gt =
    check_group_sound fold_id train (p ∷ groups) s t g
      (All_at _ held_out ((for_each_iff _ held_out).0 h) t mt) ms gs gt

pub validate_group_boundary_complete :
    (fold_id : Text) (train held_out : List Text) (groups : Map Text Text)
    → GroupsApart train held_out groups
    → validate_group_boundary fold_id train held_out groups ≡ done
unfolding validate_group_boundary
validate_group_boundary_complete fold_id train held_out [] apart = refl
validate_group_boundary_complete fold_id train held_out (p ∷ groups) apart =
    (for_each_iff _ held_out).1 (
      All-of_contains _ held_out (λ t mt.
        check_group_complete fold_id train (p ∷ groups) t
          (λ s g ms gs gt. apart s t g ms mt gs gt)))

-- A sample's row and the row of its origin do not lie on the two sides of a fold.
abbrev pub crosses : List Text → List Text → Text → Text → Bool
crosses train held_out s t =
    (contains s train && contains t held_out) || (contains s held_out && contains t train)

module _ {J : Type 0} where
  abbrev pub observations : List (SampleRelation J) → List Text
  observations [] = []
  observations (row ∷ rows) = row.observation_id ∷ observations rows

  origin_samples_from-skip :
      (m : Map Text Text) (rows : List (SampleRelation J)) (k : Text)
      → contains k (observations rows) ≡ false
      → get k (origin_samples_from m rows) ≡ get k m
  unfolding origin_samples_from
  origin_samples_from-skip m [] k h = refl
  origin_samples_from-skip m (row ∷ rows) k h = ground (
    arith,
    origin_samples_from-skip (put row.observation_id row.sample_id m) rows k,
    get-put k row.observation_id row.sample_id m,
  )

  -- With no observation twice, the map sends each observation to the sample of its row.
  origin_samples_from_each :
      (m : Map Text Text) (rows : List (SampleRelation J))
      → Distinct (observations rows)
      → All (λ row. get row.observation_id (origin_samples_from m rows) ≡ some row.sample_id) rows
  unfolding origin_samples_from
  origin_samples_from_each m [] d = tt
  origin_samples_from_each m (row ∷ rows) d = (
    origin_samples_from-skip (put row.observation_id row.sample_id m) rows row.observation_id d.0
        ∙ get-put row.observation_id row.observation_id row.sample_id m
        ∙ rw (==_refl row.observation_id),
    origin_samples_from_each (put row.observation_id row.sample_id m) rows d.1,
  )

  check_origin_sound :
      (fold_id : Text) (train held_out : List Text) (m : Map Text Text) (row : SampleRelation J)
      (o t : Text)
      → check_origin fold_id train held_out m row ≡ done
      → row.origin_id ≡ some o
      → get o m ≡ some t
      → crosses train held_out row.sample_id t ≡ false
  unfolding check_origin
  check_origin_sound fold_id train held_out m row o t h e g = ground arith

  abbrev pub OriginsApart : List Text → List Text → List (SampleRelation J) → Type 0
  OriginsApart train held_out rows =
      All
        (λ row.
          All
            (λ origin.
              row.origin_id ≡ some origin.observation_id
              → crosses train held_out row.sample_id origin.sample_id ≡ false)
            rows)
        rows

  pub validate_origin_boundary_sound :
      (fold_id : Text) (train held_out : List Text) (table : SampleRelationTable J)
      → Distinct (observations table.rows)
      → validate_origin_boundary fold_id train held_out table ≡ done
      → OriginsApart train held_out table.rows
  unfolding validate_origin_boundary
  validate_origin_boundary_sound fold_id train held_out table d h =
      All-map
        (λ row checked.
          All-map
            (λ origin at e.
              check_origin_sound fold_id train held_out (origin_samples_from [] table.rows) row
                origin.observation_id origin.sample_id checked e at)
            table.rows (origin_samples_from_each [] table.rows d))
        table.rows ((for_each_iff _ table.rows).0 h)
