-- ===== src/Alignment/Modes.antt =====
-- The samples that each alignment mode selects, and that none is selected twice.
use dag_ml_data.Common.{
  ◌≡◌, refl, sym, ap, ◌∙◌, inl, inr, Bool, false, ◌&&◌, ◌||◌, List, [], ◌∷◌, ◌++◌, arith,
  if◌then◌else◌, Bool-cases, is_empty, all, any, filter,
}
use dag_ml_data.Order.{◌==◌, ==_iff, nat_ord, list_ord}
use dag_ml_data.Text.{Text}
use dag_ml_data.Collections.{contains-append, contains, Distinct, insert, contains-insert}
use dag_ml_data.Alignment.{
  AlignmentMode, inner, left, outer, SourceSampleSet, Ordered, push_new, push_sources,
  first_samples, aligned_samples,
}
use dag_ml_data.Alignment.Select.{IsSources, SetsOf, in_mode}

all-sets :
    (s : Text) (sources : List SourceSampleSet) (sets : List (List Text))
    → SetsOf sources sets
    → all (contains s) sets ≡ all (λ source. contains s source.sample_ids) sources
all-sets s [] [] h = refl
all-sets s [] (t ∷ sets) h = absurd h
all-sets s (source ∷ sources) [] h = absurd h
all-sets s (source ∷ sources) (t ∷ sets) h = ground (arith, h.0 s, all-sets s sources sets h.1)

contains-filter :
    (p : Text → Bool) (s : Text) (xs : List Text)
    → contains s (filter p xs) ≡ (p s && contains s xs)
contains-filter p s [] = ground arith
contains-filter p s (x ∷ xs) = elim (Bool-cases (s == x)) [
  | inl same ↦ ground (arith, contains-filter p s xs, ==_iff s x, ap p ((==_iff s x).0 same))
  | inr other ↦ ground (arith, contains-filter p s xs)
]

filter-Distinct : (p : Text → Bool) (xs : List Text) → Distinct xs → Distinct (filter p xs)
filter-Distinct p [] d = tt
filter-Distinct p (x ∷ xs) d = ground (arith, filter-Distinct p xs d.1, contains-filter p x xs)

-- The set of the outer loops holds what they have pushed, each sample once.
record IsOrdered (st : Ordered) : Type 0 where
  same : (b : Text) → contains b st.seen ≡ contains b st.ordered
  distinct : Distinct st.ordered

snoc-Distinct :
    (xs : List Text) (s : Text) → contains s xs ≡ false → Distinct xs → Distinct (xs ++ s ∷ [])
snoc-Distinct [] s h d = (refl, tt)
snoc-Distinct (x ∷ xs) s h d = ground (
  arith,
  snoc-Distinct xs s (ground arith) d.1,
  contains-append x xs (s ∷ []),
  ==_iff x s,
  ==_iff s x,
)

pushed : Ordered → Text → Ordered
pushed st s =
    if contains s st.seen
    then st
    else record { seen = insert s st.seen; ordered = st.ordered ++ s ∷ [] }

pushed-IsOrdered : (st : Ordered) (s : Text) → IsOrdered st → IsOrdered (pushed st s)
unfolding pushed
pushed-IsOrdered st s v = elim (Bool-cases (contains s st.seen)) [
  | inl old ↦ rw old v
  | inr new ↦ rw new (record {
    same = λ b.
        ground
          (arith, contains-insert b s st.seen, contains-append b st.ordered (s ∷ []), v.same b);
    distinct = snoc-Distinct st.ordered s (sym (v.same s) ∙ new) v.distinct;
  })
]

contains-pushed :
    (st : Ordered) (s b : Text) → contains b (pushed st s).seen ≡ (contains b st.seen || b == s)
unfolding pushed
contains-pushed st s b = ground (arith, contains-insert b s st.seen, ==_iff b s)

push_new-IsOrdered : (st : Ordered) (xs : List Text) → IsOrdered st → IsOrdered (push_new st xs)
unfolding push_new pushed
push_new-IsOrdered st [] v = v
push_new-IsOrdered st (s ∷ xs) v = push_new-IsOrdered (pushed st s) xs (pushed-IsOrdered st s v)

push_new-nil : (st : Ordered) → push_new st [] ≡ st
unfolding push_new
push_new-nil st = refl

push_new-cons :
    (st : Ordered) (s : Text) (xs : List Text) → push_new st (s ∷ xs) ≡ push_new (pushed st s) xs
unfolding push_new pushed
push_new-cons st s xs = refl

contains-push_new :
    (st : Ordered) (xs : List Text) (b : Text)
    → contains b (push_new st xs).seen ≡ (contains b st.seen || contains b xs)
contains-push_new st [] b = rw (push_new-nil st) (ground arith)
contains-push_new st (s ∷ xs) b =
    ap (λ o. contains b o.seen) (push_new-cons st s xs)
    ∙ contains-push_new (pushed st s) xs b
    ∙ ground (arith, contains-pushed st s b)

push_sources-IsOrdered :
    (st : Ordered) (sources : List SourceSampleSet)
    → IsOrdered st
    → IsOrdered (push_sources st sources)
unfolding push_sources
push_sources-IsOrdered st [] v = v
push_sources-IsOrdered st (source ∷ sources) v =
    push_sources-IsOrdered (push_new st source.sample_ids) sources
      (push_new-IsOrdered st source.sample_ids v)

contains-push_sources :
    (st : Ordered) (sources : List SourceSampleSet) (b : Text)
    → contains b (push_sources st sources).seen
      ≡ (contains b st.seen || any (λ source. contains b source.sample_ids) sources)
unfolding push_sources
contains-push_sources st [] b = ground arith
contains-push_sources st (source ∷ sources) b = ground (
  arith,
  contains-push_sources (push_new st source.sample_ids) sources b,
  contains-push_new st source.sample_ids b,
)

IsOrdered-start : IsOrdered (record { seen = []; ordered = [] })
IsOrdered-start = record { same = λ b. refl; distinct = tt }

inner-first :
    (s : Text) (sources : List SourceSampleSet)
    → (is_empty sources ≡ false)
    → (in_mode inner s sources && contains s (first_samples sources)) ≡ in_mode inner s sources
inner-first s [] h = cc
inner-first s (source ∷ sources) h = ground arith

-- A mode selects exactly the samples that it asks for.
pub contains-aligned_samples :
    (mode : AlignmentMode) (sources : List SourceSampleSet) (sets : List (List Text)) (s : Text)
    → is_empty sources ≡ false
    → SetsOf sources sets
    → contains s (aligned_samples mode sources sets) ≡ in_mode mode s sources
unfolding aligned_samples
contains-aligned_samples inner sources sets s ne h =
    contains-filter (λ t. all (contains t) sets) s (first_samples sources)
    ∙ ap (λ b. b && contains s (first_samples sources)) (all-sets s sources sets h)
    ∙ inner-first s sources ne
contains-aligned_samples left sources sets s ne h = refl
contains-aligned_samples outer sources sets s ne h =
    sym
      ((push_sources-IsOrdered (record { seen = []; ordered = [] }) sources IsOrdered-start).same s)
    ∙ contains-push_sources (record { seen = []; ordered = [] }) sources s

pub aligned_samples-Distinct :
    (mode : AlignmentMode) (sources : List SourceSampleSet) (sets : List (List Text))
    → IsSources sources
    → Distinct (aligned_samples mode sources sets)
unfolding aligned_samples
aligned_samples-Distinct inner [] sets v = tt
aligned_samples-Distinct inner (source ∷ sources) sets v =
    filter-Distinct (λ t. all (contains t) sets) source.sample_ids v.each.0.1
aligned_samples-Distinct left [] sets v = tt
aligned_samples-Distinct left (source ∷ sources) sets v = v.each.0.1
aligned_samples-Distinct outer sources sets v =
    (push_sources-IsOrdered (record { seen = []; ordered = [] }) sources IsOrdered-start).distinct
