-- ===== src/Plan.antt =====
-- crates/dag-ml-data-core/src/plan.rs: the steps of a data plan and their validation. `J` is
-- `serde_json::Value`, read through the two methods that the code calls.
pub mod Validate
pub mod Linked
pub mod Sound
use dag_ml_data.Common.{Bool, not, ◌||◌, Option, List, is_empty, any}
use dag_ml_data.Order.{nat_ord, list_ord}
use dag_ml_data.Text.{Text}
use dag_ml_data.Collections.{Map}

pub data FitScope : Type 0 where
  stateless fold_train full_train inference_only : FitScope

pub data DataPlanStepKind : Type 0 where
  materialize adapt align join collate : DataPlanStepKind

pub record DataPlanStep (J : Type 0) : Type 0 where
  pub kind : DataPlanStepKind
  pub source_id : Option Text
  pub adapter_id : Option Text
  pub input_representation : Option Text
  pub output_representation : Option Text
  pub fit_scope : FitScope
  pub requires_user_choice : Bool
  pub metadata : Map Text J

pub record PlanIssue : Type 0 where
  pub code : Text
  pub message : Text
  pub choices : List Text

pub record DataPlan (J : Type 0) : Type 0 where
  pub id : Text
  pub steps : List (DataPlanStep J)
  pub output_representation : Text
  pub issues : List PlanIssue

-- `DataPlan::requires_user_choice`.
unfoldable pub plan_requires_user_choice : {J : Type 0} → DataPlan J → Bool
plan_requires_user_choice plan =
    any (λ step. step.requires_user_choice) plan.steps || not (is_empty plan.issues)
