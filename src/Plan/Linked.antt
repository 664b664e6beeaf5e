-- ===== src/Plan/Linked.antt =====
-- What `DataPlan::validate` makes sure of: each named input of a step is the output of an earlier one.
use dag_ml_data.Relation.Folds.{quote}
use dag_ml_data.Plan.{DataPlanStep}
use dag_ml_data.Plan.Validate.{
  shown, Outputs, check_input, record_output, invalid, nonblank, is_materialize, mismatch,
  source_output, output_of, input_of, inputs_of, strings,
}
use dag_ml_data.Common.{
  inr, inl, refl, ◌∙◌, subst, ap, ◌⊎◌, sym, ℕ, ◌≡◌, false, Option, none, some, List, [], ◌∷◌, ◌++◌,
  arith, is_empty, All, filter_map,
}
use dag_ml_data.Order.{==_iff, nat_ord, list_ord}
use dag_ml_data.Text.{Text, text}
use dag_ml_data.Collections.{get-put, put, Map, values, get}
use dag_ml_data.Error.{refuse_iff, DataError, done, ok, ◌>>=◌, ◌>>◌, refuse, ok_or, >>=-eq-ok}

module _ {J : Type 0} where
  -- The first step that has the property stands somewhere in the list.
  pub data Among (P : DataPlanStep J → Type 0) : List (DataPlanStep J) → Type 0 where
    first :
        {step : DataPlanStep J} {steps : List (DataPlanStep J)} → P step → Among P (step ∷ steps)
    later :
        {step : DataPlanStep J} {steps : List (DataPlanStep J)}
        → Among P steps
        → Among P (step ∷ steps)

module _ {J : Type 0} (as_str : J → Option Text) (as_array : J → Option (List J)) where
  unfoldable pub first_named : Option J → List Text
  first_named none = []
  first_named (some value) = filter_map as_str (value ∷ [])

  unfoldable pub more_named : Option J → List Text
  more_named none = []
  more_named (some value) = elim (as_array value) [
    | none ↦ []
    | some values ↦ filter_map as_str values
  ]

  -- The inputs that a step names: the string under `input` and the strings under `inputs`.
  unfoldable pub named_inputs : DataPlanStep J → List Text
  named_inputs step =
      first_named (get (text "input") step.metadata)
      ++ more_named (get (text "inputs") step.metadata)

  -- The output that a step names: the string under `output`, or that of the source it materializes.
  unfoldable pub named_output : DataPlanStep J → Option Text
  named_output step = elim (get (text "output") step.metadata) [
    | none ↦ source_output as_str as_array [] (is_materialize step.kind) step.source_id
    | some value ↦ nonblank as_str as_array [] (as_str value)
  ]

  unfoldable pub Supplies : Option Text → Text → DataPlanStep J → Type 0
  Supplies expected input earlier =
      (named_output earlier ≡ some input)
      × (mismatch earlier.output_representation expected ≡ false)

  -- The steps before are in reverse order.
  unfoldable pub Linked : List (DataPlanStep J) → List (DataPlanStep J) → Type 0
  Linked before [] = Unit
  Linked before (step ∷ steps) =
      All (λ input. Among (Supplies step.input_representation input) before) (named_inputs step)
      × Linked (step ∷ before) steps

  module _ (plan : Text) where
    strings-named :
        (idx : ℕ) (values : List J) (ids : List Text)
        → strings as_str as_array plan idx values ≡ ok ids
        → ids ≡ filter_map as_str values
    unfolding strings
    strings-named idx [] ids read = ground arith
    strings-named idx (value ∷ values) ids read =
        let (id, here, more) =
          >>=-eq-ok (ok_or (as_str value) (invalid plan idx (text "inputs must contain strings")))
            (λ id. strings as_str as_array plan idx values >>= λ rest. ok (id ∷ rest)) read in
        let (rest, there, last) =
          >>=-eq-ok (strings as_str as_array plan idx values) (λ rest. ok (id ∷ rest)) more in
        let named = strings-named idx values rest there in ground arith

    pub input_of-named :
        (idx : ℕ) (value : Option J) (ids : List Text)
        → input_of as_str as_array plan idx value ≡ ok ids
        → ids ≡ first_named value
    unfolding input_of first_named
    input_of-named idx none ids read = ground arith
    input_of-named idx (some value) ids read = ground arith

    pub inputs_of-named :
        (idx : ℕ) (value : Option J) (ids : List Text)
        → inputs_of as_str as_array plan idx value ≡ ok ids
        → ids ≡ more_named value
    unfolding inputs_of more_named
    inputs_of-named idx none ids read = ground arith
    inputs_of-named idx (some value) ids read =
        let (values, here, more) =
          >>=-eq-ok (ok_or (as_array value) (invalid plan idx (text "inputs must be an array")))
            (λ values.
              refuse (is_empty values) (invalid plan idx (text "inputs must not be empty"))
              >> strings as_str as_array plan idx values)
            read in
        let named = strings-named idx values ids in ground arith

    pub output_of-named :
        (idx : ℕ) (step : DataPlanStep J) (output : Option Text)
        → output_of as_str as_array plan idx step (get (text "output") step.metadata) ≡ ok output
        → output ≡ named_output step
    unfolding output_of named_output
    output_of-named idx step output read = ground arith

    -- The map of the outputs holds nothing but the outputs of the steps before.
    unfoldable pub IsMade : List (DataPlanStep J) → Map Text (Option Text) → Type 0
    IsMade before outputs =
        (input : Text) (representation : Option Text)
        → get input outputs ≡ some representation
        → Among
            (λ earlier.
              (named_output earlier ≡ some input)
              × (earlier.output_representation ≡ representation))
            before

    Among-map :
        {P Q : DataPlanStep J → Type 0} {steps : List (DataPlanStep J)}
        → ((step : DataPlanStep J) → P step → Q step)
        → Among P steps
        → Among Q steps
    Among-map f (first p) = first (f _ p)
    Among-map f (later a) = later (Among-map f a)

    check_input-parts :
        (error : DataError) (refusal : Option Text → DataError) (expected : Option Text)
        (o : Option (Option Text))
        → (ok_or o error >>= λ representation.
            refuse (mismatch representation expected) (refusal representation))
          ≡ done
        → (representation : Option Text) × (o ≡ some representation)
          × (mismatch representation expected ≡ false)
    check_input-parts error refusal expected none refused = cc
    check_input-parts error refusal expected (some representation) passed = (
      representation,
      refl,
      (refuse_iff (mismatch representation expected) (refusal representation)).0 passed,
    )

    pub check_input-Supplies :
        (idx : ℕ) (before : List (DataPlanStep J)) (outputs : Map Text (Option Text))
        (expected : Option Text) (input : Text)
        → IsMade before outputs
        → check_input as_str as_array plan idx expected outputs input ≡ done
        → Among (Supplies expected input) before
    unfolding check_input IsMade Supplies
    check_input-Supplies idx before outputs expected input made checked =
        let (representation, found, fits) =
          check_input-parts
            (invalid plan idx (quote "input `" input "` references no earlier output"))
            (λ representation. invalid plan idx (
              quote "input `" input "` representation `"
              ++ (shown representation ++ quote "` does not match `" (shown expected) "`")))
            expected (get input outputs) checked in
        Among-map
          (λ earlier supplied.
            (supplied.0, subst (λ r. mismatch r expected ≡ false) (sym supplied.1) fits))
          (made input representation found)

    recorded_outputs :
        (idx : ℕ) (step : DataPlanStep J) (made made' : Outputs) (output : Text)
        → record_output as_str as_array plan idx step made (some output) ≡ ok made'
        → made'.outputs ≡ put output step.output_representation made.outputs
    unfolding record_output
    recorded_outputs idx step made made' output recorded = ground arith

    get-recorded :
        (outputs : Map Text (Option Text)) (output input : Text) (new representation : Option Text)
        → get input (put output new outputs) ≡ some representation
        → ((input ≡ output) × (new ≡ representation)) ⊎ (get input outputs ≡ some representation)
    get-recorded outputs output input new representation found =
        ground (arith, get-put input output new outputs, ==_iff input output)

    pub record_output-IsMade :
        (idx : ℕ) (before : List (DataPlanStep J)) (step : DataPlanStep J) (made made' : Outputs)
        (output : Option Text)
        → IsMade before made.outputs
        → output ≡ named_output step
        → record_output as_str as_array plan idx step made output ≡ ok made'
        → IsMade (step ∷ before) made'.outputs
    unfolding record_output IsMade
    record_output-IsMade idx before step made made' none held same recorded =
        λ input representation found. later (held input representation (cc (recorded, found)))
    record_output-IsMade idx before step made made' (some output) held same recorded =
        λ input representation found.
          elim (get-recorded made.outputs output input step.output_representation representation
            (sym (ap (get input) (recorded_outputs idx step made made' output recorded)) ∙ found)) [
              | inl (here, new) ↦ first (sym same ∙ ap some (sym here), new)
              | inr old ↦ later (held input representation old)
            ]
