-- ===== src/Collections/Maps.antt =====
-- `BTreeMap<K, V>`: the entries in the order of the keys.
use dag_ml_data.Common.{
  All, ◌≡◌, refl, Bool, List, [], ◌∷◌, arith, Ordering, Option, none, some, is_some, if◌then◌else◌,
}
use mathlib.Core.Option
use dag_ml_data.Order.{Ord, ◌==◌, ==_iff}
use dag_ml_data.Collections.Sets.{contains}

abbrev pub Map {ℓ κ} : Type ℓ → Type κ → Type (ℓ ⊔ κ)
Map K V = List (K × V)

abbrev pub key {ℓ κ} : {K : Type ℓ} {V : Type κ} → K × V → K
key (k, v) = k

abbrev pub keys {ℓ κ} : {K : Type ℓ} {V : Type κ} → Map K V → List K
keys [] = []
keys ((k, v) ∷ m) = k ∷ keys m

abbrev pub values {ℓ κ} : {K : Type ℓ} {V : Type κ} → Map K V → List V
values [] = []
values ((k, v) ∷ m) = v ∷ values m

module _ {ℓ κ} {K : Type ℓ} {V : Type κ} ⦃o : Ord K⦄ where
  abbrev put_by : Ordering → K → V → K → V → Map K V → Map K V → Map K V
  put_by Ordering.lt k v j w m rest = (k, v) ∷ (j, w) ∷ m
  put_by Ordering.eq k v j w m rest = (k, v) ∷ m
  put_by Ordering.gt k v j w m rest = (j, w) ∷ rest

  -- `BTreeMap::insert`.
  unfoldable pub put : K → V → Map K V → Map K V
  put k v [] = (k, v) ∷ []
  put k v ((j, w) ∷ m) = put_by (o.cmp k j) k v j w m (put k v m)

  unfoldable pub get : K → Map K V → Option V
  get k [] = none
  get k ((j, w) ∷ m) = if k == j then some w else get k m

  abbrev pub contains_key : K → Map K V → Bool
  contains_key k m = is_some (get k m)

  -- `BTreeMap::get_mut` with a write through it.
  unfoldable pub modify : K → (V → V) → Map K V → Map K V
  modify k f [] = []
  modify k f ((j, w) ∷ m) = (j, (if k == j then f w else w)) ∷ modify k f m

  unfoldable pub remove : K → Map K V → Map K V
  remove k [] = []
  remove k ((j, w) ∷ m) = let rest = remove k m in if k == j then rest else (j, w) ∷ rest

  pub get-put :
      (j k : K) (v : V) (m : Map K V) → get j (put k v m) ≡ (if j == k then some v else get j m)
  unfolding get put
  get-put j k v [] = refl
  get-put j k v ((i, w) ∷ m) =
      ground (arith, get-put j k v m, ==_iff j k, ==_iff j i, o.cmp-eq_iff k i)

  pub get-modify :
      (j k : K) (f : V → V) (m : Map K V)
      → get j (modify k f m) ≡ (if j == k then Option.map f (get j m) else get j m)
  unfolding get modify
  get-modify j k f [] = ground arith
  get-modify j k f ((i, w) ∷ m) =
      ground (arith, get-modify j k f m, ==_iff j k, ==_iff j i, ==_iff k i)

  pub get-remove : (j k : K) (m : Map K V) → get j (remove k m) ≡ (if j == k then none else get j m)
  unfolding get remove
  get-remove j k [] = ground arith
  get-remove j k ((i, w) ∷ m) = ground (arith, get-remove j k m, ==_iff j k, ==_iff j i, ==_iff k i)

  pub contains-keys : (k : K) (m : Map K V) → contains k (keys m) ≡ contains_key k m
  unfolding get
  contains-keys k [] = refl
  contains-keys k ((j, w) ∷ m) = ground (arith, contains-keys k m)

  put_by-All {μ} :
      (P : V → Type μ) (found : Ordering) (k j : K) (v w : V) (m rest : Map K V)
      → P v
      → P w × All P (values m)
      → All P (values rest)
      → All P (values (put_by found k v j w m rest))
  put_by-All P Ordering.lt k j v w m rest new held below = (new, held)
  put_by-All P Ordering.eq k j v w m rest new held below = (new, held.1)
  put_by-All P Ordering.gt k j v w m rest new held below = (held.0, below)

  pub put-All {μ} :
      (P : V → Type μ) (k : K) (v : V) (m : Map K V)
      → P v
      → All P (values m)
      → All P (values (put k v m))
  unfolding put
  put-All P k v [] new held = (new, tt)
  put-All P k v ((j, w) ∷ m) new held =
      put_by-All P (o.cmp k j) k j v w m (put k v m) new held (put-All P k v m new held.1)
