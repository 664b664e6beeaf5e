-- ===== src/Plan/Validate.antt =====
-- crates/dag-ml-data-core/src/plan.rs: `DataPlan::validate`. `as_str` and `as_array` are the methods
-- of `serde_json::Value`.
use dag_ml_data.Plan.{adapt, materialize, DataPlanStep, DataPlanStepKind, DataPlan}
use dag_ml_data.Common.{
  ℕ, suc, Bool, true, false, not, ◌&&◌, ◌||◌, Option, none, some, List, [], ◌∷◌, ◌++◌, nat_eq,
  if◌then◌else◌, is_some, is_empty,
}
use dag_ml_data.Order.{◌==◌, nat_ord, list_ord}
use dag_ml_data.Text.{Text, text, is_blank, decimal}
use dag_ml_data.Collections.{Map, values, put, get}
use dag_ml_data.Error.{
  DataError, validation, Result, ok, ◌>>=◌, ◌>>◌, done, refuse, for_each, ok_or,
}
use dag_ml_data.Relation.Folds.{quote}

abbrev pub is_materialize : DataPlanStepKind → Bool
is_materialize materialize = true
is_materialize _ = false

-- The closure `invalid`.
unfoldable pub invalid : Text → ℕ → Text → DataError
invalid plan idx message =
    validation (quote "data plan `" plan "` step " ++ (decimal idx ++ (text ": " ++ message)))

-- The outputs so far, with their representations and their sources.
pub record Outputs : Type 0 where
  pub outputs : Map Text (Option Text)
  pub source_outputs : Map Text (Option Text)

-- Two representations that are both given and differ.
abbrev pub mismatch : Option Text → Option Text → Bool
mismatch (some actual) (some expected) = not (actual == expected)
mismatch _ _ = false

abbrev pub same_text : Option Text → Option Text → Bool
same_text none none = true
same_text (some a) (some b) = a == b
same_text _ _ = false

abbrev pub shown : Option Text → Text
shown none = []
shown (some value) = value

module _ {J : Type 0} (as_str : J → Option Text) (as_array : J → Option (List J))
    (plan : Text) where
  unfoldable pub check_kind : ℕ → DataPlanStep J → DataPlanStepKind → Result (Unit {0})
  check_kind idx step materialize = refuse (not (is_some step.source_id)) (
      validation (
        quote "data plan `" plan "` step "
        ++ (decimal idx ++ text " materializes without source_id")))
  check_kind idx step adapt = refuse (not (is_some step.adapter_id)) (
      validation
        (quote "data plan `" plan "` step " ++ (decimal idx ++ text " adapts without adapter_id")))
  check_kind idx step _ = done

  abbrev pub is_blank_id : Option Text → Bool
  is_blank_id none = false
  is_blank_id (some id) = is_blank id

  unfoldable pub strings : ℕ → List J → Result (List Text)
  strings idx [] = ok []
  strings idx (value ∷ values) = do
    id ← ok_or (as_str value) (invalid plan idx (text "inputs must contain strings"))
    rest ← strings idx values
    ok (id ∷ rest)

  unfoldable pub input_of : ℕ → Option J → Result (List Text)
  input_of idx none = ok []
  input_of idx (some value) = do
    id ← ok_or (as_str value) (invalid plan idx (text "input must be a string"))
    ok (id ∷ [])

  unfoldable pub inputs_of : ℕ → Option J → Result (List Text)
  unfolding strings
  inputs_of idx none = ok []
  inputs_of idx (some value) = do
    values ← ok_or (as_array value) (invalid plan idx (text "inputs must be an array"))
    refuse (is_empty values) (invalid plan idx (text "inputs must not be empty"))
    strings idx values

  unfoldable pub check_input : ℕ → Option Text → Map Text (Option Text) → Text → Result (Unit {0})
  check_input idx expected outputs input = do
    representation ←
        ok_or (get input outputs)
          (invalid plan idx (quote "input `" input "` references no earlier output"))
    refuse (mismatch representation expected) (
        invalid plan idx (
          quote "input `" input "` representation `"
          ++ (shown representation ++ quote "` does not match `" (shown expected) "`")))

  abbrev pub nonblank : Option Text → Option Text
  nonblank none = none
  nonblank (some id) = if is_blank id then none else some id

  abbrev pub source_output : Bool → Option Text → Option Text
  source_output true (some id) = some (text "src:" ++ id)
  source_output _ _ = none

  unfoldable pub output_of : ℕ → DataPlanStep J → Option J → Result (Option Text)
  output_of idx step none = ok (source_output (is_materialize step.kind) step.source_id)
  output_of idx step (some value) = do
    id ←
        ok_or (nonblank (as_str value)) (invalid plan idx (text "output must be a nonempty string"))
    ok (some id)

  -- The source that the output was made of is the source of the step.
  abbrev pub is_source_of : Option (Option Text) → Option Text → Bool
  is_source_of none source_id = false
  is_source_of (some recorded) source_id = same_text recorded source_id

  unfoldable pub is_duplicate : DataPlanStep J → Outputs → Text → Bool
  is_duplicate step made output = elim (get output made.outputs) [
    | none ↦ false
    | some previous ↦
        not (is_materialize step.kind)
        || not (same_text previous step.output_representation)
        || not (is_source_of (get output made.source_outputs) step.source_id)
  ]

  unfoldable pub record_output : ℕ → DataPlanStep J → Outputs → Option Text → Result Outputs
  unfolding is_duplicate
  record_output idx step made none = ok made
  record_output idx step made (some output) = do
    refuse (is_duplicate step made output)
        (invalid plan idx (quote "duplicate output `" output "`"))
    ok (record {
      outputs = put output step.output_representation made.outputs;
      source_outputs =
          if is_materialize step.kind
          then put output step.source_id made.source_outputs
          else made.source_outputs;
    })

  -- The body of the loop over the steps.
  unfoldable pub check_step : ℕ → Outputs → DataPlanStep J → Result Outputs
  unfolding check_kind input_of inputs_of check_input output_of record_output
  check_step idx made step = do
    check_kind idx step step.kind
    refuse (is_blank_id step.adapter_id) (invalid plan idx (text "adapter_id must not be empty"))
    first ← input_of idx (get (text "input") step.metadata)
    more ← inputs_of idx (get (text "inputs") step.metadata)
    refuse (nat_eq idx 0 && not (is_materialize step.kind))
        (invalid plan idx (text "must materialize a source before consuming data"))
    for_each (check_input idx step.input_representation made.outputs) (first ++ more)
    output ← output_of idx step (get (text "output") step.metadata)
    record_output idx step made output

  unfoldable pub check_steps : ℕ → Outputs → List (DataPlanStep J) → Result (Unit {0})
  unfolding check_step
  check_steps idx made [] = done
  check_steps idx made (step ∷ steps) =
      check_step idx made step >>= λ made'. check_steps (suc idx) made' steps

  abbrev pub last_representation : Option Text → List (DataPlanStep J) → Option Text
  last_representation last [] = last
  last_representation last (step ∷ steps) = last_representation step.output_representation steps

module _ {J : Type 0} (as_str : J → Option Text) (as_array : J → Option (List J)) where
  -- `DataPlan::validate`.
  unfoldable pub validate_data_plan : DataPlan J → Result (Unit {0})
  unfolding check_steps
  validate_data_plan plan = do
    refuse (is_blank plan.id) (validation (text "data plan id is empty"))
    refuse (is_empty plan.steps) (validation (quote "data plan `" plan.id "` contains no steps"))
    check_steps as_str as_array plan.id 0 (record { outputs = []; source_outputs = [] }) plan.steps
    refuse
        (mismatch (last_representation as_str as_array plan.id none plan.steps)
          (some plan.output_representation))
        (validation
          (quote "data plan `" plan.id "` output representation does not match its final step"))
