-- ===== src/Plan/Sound.antt =====
-- `DataPlan::validate` accepts linked plans only.
use dag_ml_data.Plan.Linked.{
  input_of-named, inputs_of-named, output_of-named, check_input-Supplies, record_output-IsMade,
  input_of-named, Supplies, Among, IsMade, named_inputs, Linked,
}
use dag_ml_data.Plan.{DataPlan, DataPlanStep}
use dag_ml_data.Plan.Validate.{
  last_representation, mismatch, validate_data_plan, record_output, output_of, check_input,
  inputs_of, input_of, invalid, is_blank_id, check_kind, is_materialize, Outputs, check_step,
  check_steps,
}
use dag_ml_data.Common.{
  All-map, ℕ, suc, ◌≡◌, subst, Bool, true, false, not, ◌&&◌, Option, none, some, List, [], ◌∷◌,
  ◌++◌, arith, nat_eq, is_empty, All,
}
use dag_ml_data.Order.{nat_ord, list_ord}
use dag_ml_data.Text.{Text, text, is_blank}
use dag_ml_data.Collections.{get}
use dag_ml_data.Error.{
  >>-eq-ok, Result, ok, ◌>>=◌, ◌>>◌, done, refuse, for_each, refuse_iff, >>=-eq-ok, for_each_iff,
}

module _ {L O R : Type 0} where
  -- The stages of the loop body that passed.
  record Passed (kind id : Result (Unit {0})) (single many : Result L) (start : Result (Unit {0}))
      (inputs : L → L → Result (Unit {0})) (named : Result O) (keep : O → Result R) (r : R)
      : Type 0 where
    one : L
    more : L
    output : O
    one_ok : single ≡ ok one
    more_ok : many ≡ ok more
    start_ok : start ≡ done
    inputs_ok : inputs one more ≡ done
    output_ok : named ≡ ok output
    keep_ok : keep output ≡ ok r

  passed :
      (kind id : Result (Unit {0})) (single many : Result L) (start : Result (Unit {0}))
      (inputs : L → L → Result (Unit {0})) (named : Result O) (keep : O → Result R) (r : R)
      → (kind
          >> (id
              >> (single >>= λ one.
                  many >>= λ more. start >> (inputs one more >> (named >>= keep)))))
        ≡ ok r
      → Passed kind id single many start inputs named keep r
  passed kind id single many start inputs named keep r h =
      let after_one =
        λ (one : L). many >>= λ more. start >> (inputs one more >> (named >>= keep)) in
      let (_, h1) = >>-eq-ok kind (id >> (single >>= after_one)) h in
      let (_, h2) = >>-eq-ok id (single >>= after_one) h1 in
      let (one, one_ok, h3) = >>=-eq-ok single after_one h2 in
      let (more, more_ok, h4) =
        >>=-eq-ok many (λ more. start >> (inputs one more >> (named >>= keep))) h3 in
      let (start_ok, h5) = >>-eq-ok start (inputs one more >> (named >>= keep)) h4 in
      let (inputs_ok, h6) = >>-eq-ok (inputs one more) (named >>= keep) h5 in
      let (output, output_ok, keep_ok) = >>=-eq-ok named keep h6 in
      record {
        one = one;
        more = more;
        output = output;
        one_ok = one_ok;
        more_ok = more_ok;
        start_ok = start_ok;
        inputs_ok = inputs_ok;
        output_ok = output_ok;
        keep_ok = keep_ok;
      }

module _ {J : Type 0} (as_str : J → Option Text) (as_array : J → Option (List J)) where
  module _ (plan : Text) where
    record Accepted (idx : ℕ) (before : List (DataPlanStep J)) (step : DataPlanStep J)
        (made' : Outputs) : Type 0 where
      starts : (nat_eq idx 0 && not (is_materialize step.kind)) ≡ false
      supplied :
          All
            (λ input. Among (Supplies as_str as_array step.input_representation input) before)
            (named_inputs as_str as_array step)
      keeps : IsMade as_str as_array plan (step ∷ before) made'.outputs

    check_step-Accepted :
        (idx : ℕ) (before : List (DataPlanStep J)) (step : DataPlanStep J) (made made' : Outputs)
        → IsMade as_str as_array plan before made.outputs
        → check_step as_str as_array plan idx made step ≡ ok made'
        → Accepted idx before step made'
    unfolding check_step named_inputs
    check_step-Accepted idx before step made made' held checked =
        let p =
          passed (check_kind as_str as_array plan idx step step.kind)
            (refuse (is_blank_id as_str as_array plan step.adapter_id)
              (invalid plan idx (text "adapter_id must not be empty")))
            (input_of as_str as_array plan idx (get (text "input") step.metadata))
            (inputs_of as_str as_array plan idx (get (text "inputs") step.metadata))
            (refuse (nat_eq idx 0 && not (is_materialize step.kind))
              (invalid plan idx (text "must materialize a source before consuming data")))
            (λ one more.
              for_each (check_input as_str as_array plan idx step.input_representation made.outputs)
                (one ++ more))
            (output_of as_str as_array plan idx step (get (text "output") step.metadata))
            (record_output as_str as_array plan idx step made) made' checked in
        let one =
          input_of-named as_str as_array plan idx (get (text "input") step.metadata) p.one
            p.one_ok in
        let more =
          inputs_of-named as_str as_array plan idx (get (text "inputs") step.metadata) p.more
            p.more_ok in
        let all_checked =
          (for_each_iff
              (check_input as_str as_array plan idx step.input_representation made.outputs)
              (p.one ++ p.more)).0
            p.inputs_ok in
        record {
          starts =
              (refuse_iff (nat_eq idx 0 && not (is_materialize step.kind))
                  (invalid plan idx (text "must materialize a source before consuming data"))).0
                p.start_ok;
          supplied =
              subst
                (All (λ input.
                  Among (Supplies as_str as_array step.input_representation input) before))
                (cc (one, more))
                (All-map
                  (λ input.
                    check_input-Supplies as_str as_array plan idx before made.outputs
                      step.input_representation input held)
                  (p.one ++ p.more) all_checked);
          keeps =
              record_output-IsMade as_str as_array plan idx before step made made' p.output held
                (output_of-named as_str as_array plan idx step p.output p.output_ok) p.keep_ok;
        }

    check_steps-Linked :
        (idx : ℕ) (before steps : List (DataPlanStep J)) (made : Outputs)
        → IsMade as_str as_array plan before made.outputs
        → check_steps as_str as_array plan idx made steps ≡ done
        → Linked as_str as_array before steps
    unfolding check_steps Linked
    check_steps-Linked idx before [] made held checked = tt
    check_steps-Linked idx before (step ∷ steps) made held checked =
        let (made', here, rest) =
          >>=-eq-ok (check_step as_str as_array plan idx made step)
            (λ next. check_steps as_str as_array plan (suc idx) next steps) checked in
        let a = check_step-Accepted idx before step made made' held here in
        (a.supplied, check_steps-Linked (suc idx) (step ∷ before) steps made' a.keeps rest)

  unfoldable pub starts_with_materialize : List (DataPlanStep J) → Bool
  starts_with_materialize [] = false
  starts_with_materialize (step ∷ steps) = is_materialize step.kind

  check_steps-starts :
      (plan : Text) (made : Outputs) (steps : List (DataPlanStep J))
      → is_empty steps ≡ false
      → IsMade as_str as_array plan [] made.outputs
      → check_steps as_str as_array plan 0 made steps ≡ done
      → starts_with_materialize steps ≡ true
  unfolding check_steps starts_with_materialize
  check_steps-starts plan made [] given held checked = cc
  check_steps-starts plan made (step ∷ steps) given held checked =
      let (made', here, rest) =
        >>=-eq-ok (check_step as_str as_array plan 0 made step)
          (λ next. check_steps as_str as_array plan 1 next steps) checked in
      let starts = (check_step-Accepted plan 0 [] step made made' held here).starts in ground arith

  pub record IsDataPlan (plan : DataPlan J) : Type 0 where
    pub named : is_blank plan.id ≡ false
    pub starts : starts_with_materialize plan.steps ≡ true
    pub linked : Linked as_str as_array [] plan.steps
    pub ends :
        mismatch
          (last_representation as_str as_array plan.id none plan.steps)
          (some plan.output_representation)
        ≡ false

  validate_data_plan-parts :
      (plan : DataPlan J)
      → validate_data_plan as_str as_array plan ≡ done
      → (is_blank plan.id ≡ false)
        × (is_empty plan.steps ≡ false)
        × (check_steps as_str as_array plan.id 0
              (record { outputs = []; source_outputs = [] })
              plan.steps
            ≡ done)
        × (mismatch
              (last_representation as_str as_array plan.id none plan.steps)
              (some plan.output_representation)
            ≡ false)
  unfolding validate_data_plan
  validate_data_plan-parts plan valid = ground arith

  -- A data plan that `DataPlan::validate` accepts has an id and steps, of which the first materializes a
  -- source; each input that a step names is the output of an earlier step, whose representation is the
  -- one that the step expects where both are given; and the representation of the last step, where it
  -- is given, is the one of the plan.
  pub validate_data_plan_sound :
      (plan : DataPlan J) → validate_data_plan as_str as_array plan ≡ done → IsDataPlan plan
  unfolding IsMade get
  validate_data_plan_sound plan valid =
      let (named, given, checked, ends) = validate_data_plan-parts plan valid in
      record {
        named = named;
        starts =
            check_steps-starts plan.id (record { outputs = []; source_outputs = [] }) plan.steps
              given (λ input representation found. cc) checked;
        linked =
            check_steps-Linked plan.id 0 [] plan.steps
              (record { outputs = []; source_outputs = [] }) (λ input representation found. cc)
              checked;
        ends = ends;
      }
