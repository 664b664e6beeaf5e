-- ===== src/Float.antt =====
-- `f64`: the tests, the orders and the constants of the standard library that the code uses, and `{}`.
use dag_ml_data.Common.{Bool, Option}
use dag_ml_data.Order.{nat_ord, list_ord}
use dag_ml_data.Text.{Text}
use dag_ml_data.Order.{pair_ord}
use dag_ml_data.Common.{Ordering}

pub record Float (F : Type 0) : Type 0 where
  pub is_finite : F → Bool
  pub le : F → F → Bool
  pub lt : F → F → Bool
  pub same : F → F → Bool
  pub partial_cmp : F → F → Option Ordering
  pub zero_f : F
  pub half_f : F
  pub one_f : F
  pub display : F → Text
