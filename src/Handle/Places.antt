-- ===== src/Handle/Places.antt =====
-- crates/dag-ml-data-core/src/handle.rs: the place where a view names a sample.
use dag_ml_data.Handle.Views.{positions, position_in}
use dag_ml_data.Coordinator.Relations.{CoordinatorRelation}
use dag_ml_data.Common.{
  ℕ, suc, ◌+◌, ◌≡◌, refl, true, Option, none, some, List, [], ◌∷◌, arith, if◌then◌else◌,
}
use dag_ml_data.Order.{nat_ord, list_ord}
use dag_ml_data.Text.{Text}
use dag_ml_data.Collections.{Map, put, get, get-put, contains}
use dag_ml_data.Order.{pair_ord}
use dag_ml_data.Common.Sorting.{Ascending}

-- The last index of a text in a list that contains it.
unfoldable pub last_index : List Text → Text → ℕ
last_index [] id = 0
last_index (x ∷ xs) id = if contains id xs then suc (last_index xs id) else 0

-- The relations come in the order of the last places where their samples are named.
unfoldable pub InOrder :
    {J F : Type 0} → Option (List Text) → List (CoordinatorRelation J F) → Type 0
unfolding last_index
InOrder none relations = Unit
InOrder (some samples) relations =
    Ascending (λ relation. last_index samples relation.sample_id) relations

get-positions :
    (idx : ℕ) (samples : List Text) (order : Map Text ℕ) (id : Text)
    → get id (positions idx samples order)
      ≡ (if contains id samples then some (idx + last_index samples id) else get id order)
unfolding positions last_index
get-positions idx [] order id = refl
get-positions idx (x ∷ xs) order id =
    ground (arith, get-positions (suc idx) xs (put x idx order) id, get-put id x idx order)

pub position_named :
    (samples : List Text) (id : Text)
    → contains id samples ≡ true
    → position_in (positions 0 samples []) id ≡ last_index samples id
position_named samples id named = ground (arith, get-positions 0 samples [] id, named)
