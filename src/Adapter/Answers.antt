-- ===== src/Adapter/Answers.antt =====
-- `AdapterRegistry::find_path` on every input: it returns, and what it returns is right.
use dag_ml_data.Adapter.Sound.{loop-IsSearch}
use dag_ml_data.Adapter.Terminates.{search_ends}
use dag_ml_data.Adapter.Edges.{collect_edges-All}
use dag_ml_data.Adapter.Fuel.{registered_ids}
use dag_ml_data.Adapter.Search.{collect_edges, weight, edges_at, start_search, search_loop}
use dag_ml_data.Adapter.Reach.{here, IsSearch, Reaches, IsEdge, Within, Reaches-known, IsGoalPath}
use dag_ml_data.Adapter.Resolve.{
  plain_score, plain_cost, with_totals-Answers, length-registered_ids, adapters_of-known, IsAnswer,
}
use dag_ml_data.Adapter.Registry.{IsRegistry}
use dag_ml_data.Adapter.{RepresentationNode, PlanningPolicy, AdapterRegistry}
use dag_ml_data.Adapter.Paths.{
  find_path, resolved, sum_costs, sum_scores, with_totals, join_path, no_path_message, unresolved,
  select_path, PathResolution, resolve_paths, sort_paths, insert_path,
}
use dag_ml_data.Common.{
  All-map, Ordering, ℕ, suc, ◌≡◌, refl, sym, ap, ◌∙◌, subst, inl, inr, Bool, true, false, not, ◌&&◌,
  Option, none, some, List, [], ◌∷◌, arith, if◌then◌else◌, Bool-cases, length, is_empty, All, map,
}
use dag_ml_data.Order.{◌==◌, ==_iff, nat_ord, list_ord}
use dag_ml_data.Text.{Text, text}
use dag_ml_data.Collections.{values, get}
use dag_ml_data.Order.{pair_ord, cmp_list}
use dag_ml_data.Common.Options.{◌>>=◌}

insert_path-All {ℓ} :
    (P : List Text → Type ℓ) (p : List Text) (paths : List (List Text))
    → P p
    → All P paths
    → All P (insert_path p paths)
unfolding insert_path
insert_path-All P p [] new held = (new, tt)
insert_path-All P p (q ∷ paths) new held =
    place (cmp_list p q) new held (insert_path-All P p paths new held.1)
  where
    place :
        (found : Ordering)
        → P p
        → P q × All P paths
        → All P (insert_path p paths)
        → All P (elim found [
          | Ordering.lt ↦ p ∷ q ∷ paths
          | Ordering.eq ↦ q ∷ paths
          | Ordering.gt ↦ q ∷ insert_path p paths
        ])
    place Ordering.lt new held rest = (new, held)
    place Ordering.eq new held rest = held
    place Ordering.gt new held rest = (held.0, rest)

sort_paths-All {ℓ} :
    (P : List Text → Type ℓ) (paths : List (List Text)) → All P paths → All P (sort_paths paths)
unfolding sort_paths
sort_paths-All P [] held = tt
sort_paths-All P (p ∷ paths) held =
    insert_path-All P p (sort_paths paths) held.0 (sort_paths-All P paths held.1)

module _ {J : Type 0} (registry : AdapterRegistry J) (policy : PlanningPolicy)
    (start goal : RepresentationNode) (r : IsRegistry registry) where
  Answered : Option (PathResolution J) → Type 0
  Answered result =
      (resolution : PathResolution J) × (result ≡ some resolution)
      × IsAnswer registry policy start goal resolution

  select_path-Answered :
      (ids : List Text)
      → IsGoalPath registry policy start goal ids
      → Answered (select_path registry policy ids)
  unfolding select_path Answered
  select_path-Answered ids path =
      let (adapters, found, same, known) =
        adapters_of-known registry r ids (Reaches-known registry policy start path.reached) in
      let within =
        subst (Within policy.max_hops) (sym (ap length same) ∙ length-registered_ids adapters)
          path.within in
      (
        with_totals adapters (sum_costs 0 adapters) (sum_scores policy 0 adapters),
        rw found,
        with_totals-Answers registry policy start goal adapters (sum_costs 0 adapters)
            (sum_scores policy 0 adapters) known
            (subst (λ l. Reaches registry policy start l goal) (sym same) path.reached) within refl
            refl,
      )

  resolve_paths-Answered :
      (cost_overflow : Bool) (paths : List (List Text))
      → All (IsGoalPath registry policy start goal) paths
      → Answered (resolve_paths registry policy start goal cost_overflow paths)
  unfolding resolve_paths Answered unresolved IsAnswer
  resolve_paths-Answered cost_overflow [] held = (
    unresolved (if cost_overflow then text "cost_overflow" else text "no_path")
        (no_path_message start goal) [],
    refl,
    refl,
  )
  resolve_paths-Answered cost_overflow (ids ∷ paths) held =
      ask (not (is_empty paths) && policy.require_user_choice_on_ambiguity)
        (select_path-Answered ids held.0)
    where
      ask :
          (b : Bool)
          → Answered (select_path registry policy ids)
          → Answered (
              if b
              then some (
                  unresolved
                    (text "ambiguous_path")
                    (text "multiple equivalent adapter paths require user choice")
                    (map join_path (ids ∷ paths)))
              else select_path registry policy ids)
      ask true answer = (
        unresolved (text "ambiguous_path")
            (text "multiple equivalent adapter paths require user choice")
            (map join_path (ids ∷ paths)),
        refl,
        refl,
      )
      ask false answer = answer

  start-Within : (max_hops : Option ℕ) → Within max_hops 0
  unfolding Within
  start-Within none = tt
  start-Within (some max_hops) = omega arith

  start-IsSearch : IsSearch registry policy start goal (start_search start)
  unfolding start_search
  start-IsSearch = record {
    queued = (record { reached = here; counted = refl; within = start-Within policy.max_hops }, tt);
    found = tt;
  }

  edges-IsEdge :
      (node : RepresentationNode)
      → All
          (IsEdge registry policy start node)
          (edges_at node (collect_edges policy [] (values registry)))
  unfolding IsEdge edges_at get
  edges-IsEdge =
      collect_edges-All (IsEdge registry policy start) policy [] (values registry) (λ node. tt)
        (All-map (λ adapter found allowed. (found, allowed, refl)) (values registry) r.listed)

  trivial-Answered :
      start ≡ goal
      → Answered (some (resolved (record { adapters = []; total_cost = 0; effective_score = 0 })))
  unfolding Answered resolved IsAnswer registered_ids plain_cost plain_score
  trivial-Answered same = (
    resolved (record { adapters = []; total_cost = 0; effective_score = 0 }),
    refl,
    (
      record {
        known = tt;
        reached = subst (Reaches registry policy start []) same here;
        within = start-Within policy.max_hops;
        cost = refl;
        cost_bound = omega arith;
        score = refl;
        score_bound = omega arith;
      },
      refl,
      refl,
    ),
  )

  searched-Answered : Answered (
      search_loop
        (suc (weight (length (values registry)) (length (values registry))))
        policy
        goal
        (collect_edges policy [] (values registry))
        (start_search start)
      >>= λ search.
          resolve_paths registry policy start goal search.cost_overflow
            (sort_paths search.goal_paths))
  unfolding Answered
  searched-Answered =
      let (final, ends) = search_ends (values registry) policy start goal in
      let s =
        loop-IsSearch registry policy start goal (collect_edges policy [] (values registry))
          edges-IsEdge (suc (weight (length (values registry)) (length (values registry))))
          (start_search start) final start-IsSearch ends in
      let (resolution, found, answer) =
        resolve_paths-Answered final.cost_overflow (sort_paths final.goal_paths)
          (sort_paths-All (IsGoalPath registry policy start goal) final.goal_paths s.found) in
      (resolution, rw (ends, found), answer)

-- On a registry that holds every adapter under its own id, `AdapterRegistry::find_path` returns for
-- every policy and every two nodes: the loop ends, and no adapter of a path is missing. What it returns
-- has an issue and no path, or no issue and a path: registered adapters, no one twice, each allowed and
-- each starting where the one before it ends, from the start to the goal, no more than `max_hops` of
-- them, with a total cost and a score that are the sums of theirs and stay below 2 ^ 64.
pub find_path_answers :
    {J : Type 0} (registry : AdapterRegistry J) (policy : PlanningPolicy)
    (start goal : RepresentationNode)
    → IsRegistry registry
    → (resolution : PathResolution J) × (find_path registry start goal policy ≡ some resolution)
      × IsAnswer registry policy start goal resolution
unfolding find_path Answered
find_path_answers registry policy start goal r = elim (Bool-cases (start == goal)) [
  | inl same ↦
      let (resolution, found, answer) =
        trivial-Answered registry policy start goal r ((==_iff start goal).0 same) in
      (resolution, rw (same, found), answer)
  | inr other ↦
      let (resolution, found, answer) = searched-Answered registry policy start goal r in
      (resolution, rw (other, found), answer)
]
