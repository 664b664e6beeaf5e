-- ===== src/Adapter/Resolve.antt =====
-- What `AdapterRegistry::find_path` returns: always a resolution, and where that has a path, one that
-- leads from the start to the goal within the policy.
use dag_ml_data.Adapter.Reach.{Within, Reaches}
use dag_ml_data.Adapter.Registry.{IsRegistry}
use dag_ml_data.Adapter.Fuel.{registered_ids}
use dag_ml_data.Adapter.Search.{adapter_score, score_of}
use dag_ml_data.Adapter.{RepresentationNode, AdapterSpec, PlanningPolicy, AdapterRegistry}
use dag_ml_data.Adapter.Paths.{
  unresolved, resolved, PathResolution, with_totals, AdapterPath, sum_scores, adapters_of,
  sum_costs,
}
use dag_ml_data.Common.{
  ℕ, ◌+◌, ◌^◌, ◌<◌, ◌≡◌, refl, sym, subst, true, false, Option, none, some, List, [], ◌∷◌, arith,
  is_some, length, is_empty, All,
}
use dag_ml_data.Order.{nat_ord, list_ord}
use dag_ml_data.Text.{Text}
use dag_ml_data.Collections.{get, contains_key}
use dag_ml_data.Order.{pair_ord}

unfoldable pub plain_cost : {J : Type 0} → List (AdapterSpec J) → ℕ
plain_cost [] = 0
plain_cost (adapter ∷ adapters) = adapter.cost + plain_cost adapters

unfoldable pub plain_score : {J : Type 0} → PlanningPolicy → List (AdapterSpec J) → ℕ
plain_score policy [] = 0
plain_score policy (adapter ∷ adapters) = score_of adapter policy + plain_score policy adapters

-- A path that leads from one node to another under a policy.
pub record IsPath {J : Type 0} (registry : AdapterRegistry J) (policy : PlanningPolicy)
    (start goal : RepresentationNode) (path : AdapterPath J) : Type 0 where
  pub known : All (λ adapter. get adapter.id registry ≡ some adapter) path.adapters
  pub reached : Reaches registry policy start (registered_ids path.adapters) goal
  pub within : Within policy.max_hops (length path.adapters)
  pub cost : path.total_cost ≡ plain_cost path.adapters
  pub cost_bound : path.total_cost < 2 ^ 64
  pub score : path.effective_score ≡ plain_score policy path.adapters
  pub score_bound : path.effective_score < 2 ^ 64

-- A resolution has a path and no issue, or no path and an issue.
unfoldable pub IsAnswer :
    {J : Type 0}
    → AdapterRegistry J
    → PlanningPolicy
    → RepresentationNode
    → RepresentationNode
    → PathResolution J
    → Type 0
IsAnswer registry policy start goal resolution = elim resolution.path [
  | none ↦ is_empty resolution.issues ≡ false
  | some path ↦
      IsPath registry policy start goal path
      × (resolution.issues ≡ [])
      × (resolution.requires_user_choice ≡ false)
]

is_some-eq : {A : Type 0} (o : Option A) → is_some o ≡ true → (a : A) × (o ≡ some a)
is_some-eq none present = cc
is_some-eq (some a) present = (a, refl)

module _ {J : Type 0} where
  sum_costs-plain :
      (sum : ℕ) (adapters : List (AdapterSpec J)) (total : ℕ)
      → sum < 2 ^ 64
      → sum_costs sum adapters ≡ some total
      → (total ≡ sum + plain_cost adapters) × (total < 2 ^ 64)
  unfolding sum_costs plain_cost
  sum_costs-plain sum [] total below added = ground arith
  sum_costs-plain sum (adapter ∷ adapters) total below added =
      ground (arith, sum_costs-plain (sum + adapter.cost) adapters total)

  sum_scores-plain :
      (policy : PlanningPolicy) (sum : ℕ) (adapters : List (AdapterSpec J)) (total : ℕ)
      → sum < 2 ^ 64
      → sum_scores policy sum adapters ≡ some total
      → (total ≡ sum + plain_score policy adapters) × (total < 2 ^ 64)
  unfolding sum_scores plain_score adapter_score
  sum_scores-plain policy sum [] total below added = ground arith
  sum_scores-plain policy sum (adapter ∷ adapters) total below added =
      ground (arith, sum_scores-plain policy (sum + score_of adapter policy) adapters total)

  pub adapters_of-known :
      (registry : AdapterRegistry J)
      → IsRegistry registry
      → (ids : List Text) → All (λ id. contains_key id registry ≡ true) ids
      → (adapters : List (AdapterSpec J)) × (adapters_of registry ids ≡ some adapters)
        × (registered_ids adapters ≡ ids)
        × All (λ adapter. get adapter.id registry ≡ some adapter) adapters
  unfolding adapters_of registered_ids
  adapters_of-known registry r [] known = ([], refl, refl, tt)
  adapters_of-known registry r (id ∷ ids) known =
      let (adapter, found) = is_some-get known.0 in
      let (adapters, rest, same, all_known) = adapters_of-known registry r ids known.1 in
      let keyed = (r.keyed id adapter found).0 in
      (
        adapter ∷ adapters,
        rw (found, rest),
        cc (keyed, same),
        (subst (λ k. get k registry ≡ some adapter) (sym keyed) found, all_known),
      )
    where
      is_some-get :
          contains_key id registry ≡ true
          → (adapter : AdapterSpec J) × (get id registry ≡ some adapter)
      is_some-get present = is_some-eq (get id registry) present

  pub length-registered_ids :
      (adapters : List (AdapterSpec J)) → length (registered_ids adapters) ≡ length adapters
  unfolding registered_ids
  length-registered_ids [] = refl
  length-registered_ids (adapter ∷ adapters) = omega (arith, length-registered_ids adapters)

  pub with_totals-Answers :
      (registry : AdapterRegistry J) (policy : PlanningPolicy) (start goal : RepresentationNode)
      (adapters : List (AdapterSpec J)) (total_cost effective_score : Option ℕ)
      → All (λ adapter. get adapter.id registry ≡ some adapter) adapters
      → Reaches registry policy start (registered_ids adapters) goal
      → Within policy.max_hops (length adapters)
      → sum_costs 0 adapters ≡ total_cost
      → sum_scores policy 0 adapters ≡ effective_score
      → IsAnswer registry policy start goal (with_totals adapters total_cost effective_score)
  unfolding with_totals resolved unresolved IsAnswer
  with_totals-Answers registry policy start goal adapters (some cost) (some score) known reached
        within costs scores =
      let (cost_sum, cost_bound) = sum_costs-plain 0 adapters cost (omega arith) costs in
      let (score_sum, score_bound) =
        sum_scores-plain policy 0 adapters score (omega arith) scores in
      (
        record {
          known = known;
          reached = reached;
          within = within;
          cost = omega (arith, cost_sum);
          cost_bound = cost_bound;
          score = omega (arith, score_sum);
          score_bound = score_bound;
        },
        refl,
        refl,
      )
  with_totals-Answers registry policy start goal adapters none score known reached within costs
        scores =
      refl
  with_totals-Answers registry policy start goal adapters (some cost) none known reached within
        costs scores =
      refl
