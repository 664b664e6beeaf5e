-- ===== src/Common/Sorting.antt =====
-- `slice::sort_by` and its kin: a stable sort by a comparison.
use Prim.Native.Nat.{Ordering, ℕ, ◌≤◌}
use mathlib.Core.Path.{◌≡◌, refl, ap}
use mathlib.Core.Logic.{◌≢◌}
use native.Mathlib.Omega.{arith}
use mathlib.Core.List.{Permᴰ}
use mathlib.Core.List.{map, List, [], ◌∷◌}
use dag_ml_data.Common.Lists.{All}

pub perm_self {ℓ} : {A : Type ℓ} (xs : List A) → Permᴰ xs xs
perm_self [] = Permᴰ.nil
perm_self (x ∷ xs) = Permᴰ.cons refl (perm_self xs)

module _ {ℓ} {A : Type ℓ} (cmp : A → A → Ordering) where
  abbrev place_by : Ordering → A → A → List A → List A → List A
  place_by Ordering.gt x y ys rest = y ∷ rest
  place_by _ x y ys rest = x ∷ y ∷ ys

  -- The entry goes before the first one that is not less.
  unfoldable pub place : A → List A → List A
  place x [] = x ∷ []
  place x (y ∷ ys) = place_by (cmp x y) x y ys (place x ys)

  unfoldable pub sort_by : List A → List A
  unfolding place
  sort_by [] = []
  sort_by (x ∷ xs) = place x (sort_by xs)

  place_by-All {κ} :
      (P : A → Type κ) (found : Ordering) (x y : A) (ys rest : List A)
      → P x
      → P y × All P ys
      → All P rest
      → All P (place_by found x y ys rest)
  place_by-All P Ordering.lt x y ys rest new held below = (new, held)
  place_by-All P Ordering.eq x y ys rest new held below = (new, held)
  place_by-All P Ordering.gt x y ys rest new held below = (held.0, below)

  pub place-All {κ} : (P : A → Type κ) (x : A) (ys : List A) → P x → All P ys → All P (place x ys)
  unfolding place
  place-All P x [] new held = (new, tt)
  place-All P x (y ∷ ys) new held =
      place_by-All P (cmp x y) x y ys (place x ys) new held (place-All P x ys new held.1)

  -- Sorting keeps what holds of every entry.
  pub sort_by-All {κ} : (P : A → Type κ) (xs : List A) → All P xs → All P (sort_by xs)
  unfolding sort_by
  sort_by-All P [] held = tt
  sort_by-All P (x ∷ xs) held = place-All P x (sort_by xs) held.0 (sort_by-All P xs held.1)

  place_by-Perm :
      (found : Ordering) (x y : A) (ys rest : List A)
      → Permᴰ rest (x ∷ ys)
      → Permᴰ (place_by found x y ys rest) (x ∷ y ∷ ys)
  place_by-Perm Ordering.lt x y ys rest same = perm_self (x ∷ y ∷ ys)
  place_by-Perm Ordering.eq x y ys rest same = perm_self (x ∷ y ∷ ys)
  place_by-Perm Ordering.gt x y ys rest same =
      Permᴰ.trans (Permᴰ.cons refl same) (Permᴰ.swap refl refl)

  pub place-Perm : (x : A) (ys : List A) → Permᴰ (place x ys) (x ∷ ys)
  unfolding place
  place-Perm x [] = perm_self (x ∷ [])
  place-Perm x (y ∷ ys) = place_by-Perm (cmp x y) x y ys (place x ys) (place-Perm x ys)

  -- Sorting moves the entries only.
  pub sort_by-Perm : (xs : List A) → Permᴰ (sort_by xs) xs
  unfolding sort_by
  sort_by-Perm [] = perm_self []
  sort_by-Perm (x ∷ xs) =
      Permᴰ.trans (place-Perm x (sort_by xs)) (Permᴰ.cons refl (sort_by-Perm xs))

-- The keys never fall.
abbrev pub Ascending {ℓ} : {A : Type ℓ} → (A → ℕ) → List A → Type 0
Ascending rank [] = Unit
Ascending rank (x ∷ xs) = All (λ y. rank x ≤ rank y) xs × Ascending rank xs

module _ {ℓ} {A : Type ℓ} (cmp : A → A → Ordering) (rank : A → ℕ)
    (above : (x y : A) → cmp x y ≡ Ordering.gt → rank y ≤ rank x)
    (below : (x y : A) → cmp x y ≢ Ordering.gt → rank x ≤ rank y) where
  raise :
      (x y : A) (ys : List A)
      → rank x ≤ rank y
      → All (λ z. rank y ≤ rank z) ys
      → All (λ z. rank x ≤ rank z) ys
  raise x y [] h held = tt
  raise x y (z ∷ ys) h held = (ground (arith, held.0), raise x y ys h held.1)

  place_by-Ascending :
      (found : Ordering) (x y : A) (ys rest : List A)
      → cmp x y ≡ found
      → Ascending rank (y ∷ ys)
      → (rank y ≤ rank x → All (λ z. rank y ≤ rank z) rest)
      → Ascending rank rest
      → Ascending rank (place_by cmp found x y ys rest)
  place_by-Ascending Ordering.lt x y ys rest at held kept up =
      let h = below x y (λ e. ground (arith)) in ((h, raise x y ys h held.0), held)
  place_by-Ascending Ordering.eq x y ys rest at held kept up =
      let h = below x y (λ e. ground (arith)) in ((h, raise x y ys h held.0), held)
  place_by-Ascending Ordering.gt x y ys rest at held kept up = (kept (above x y at), up)

  place-Ascending : (x : A) (ys : List A) → Ascending rank ys → Ascending rank (place cmp x ys)
  unfolding place
  place-Ascending x [] held = (tt, tt)
  place-Ascending x (y ∷ ys) held =
      place_by-Ascending (cmp x y) x y ys (place cmp x ys) refl held
        (λ h. place-All cmp (λ z. rank y ≤ rank z) x ys h held.0) (place-Ascending x ys held.1)

  -- A list sorted by a comparison that agrees with the keys ascends.
  pub sort_by-Ascending : (xs : List A) → Ascending rank (sort_by cmp xs)
  unfolding sort_by
  sort_by-Ascending [] = tt
  sort_by-Ascending (x ∷ xs) = place-Ascending x (sort_by cmp xs) (sort_by-Ascending xs)

pub perm-map {ℓ κ} :
    {A : Type ℓ} {B : Type κ} (f : A → B) {xs ys : List A}
    → Permᴰ xs ys
    → Permᴰ (map f xs) (map f ys)
perm-map f Permᴰ.nil = Permᴰ.nil
perm-map f (Permᴰ.cons same p) = Permᴰ.cons (ap f same) (perm-map f p)
perm-map f (Permᴰ.swap a b) = Permᴰ.swap (ap f a) (ap f b)
perm-map f (Permᴰ.trans p q) = Permᴰ.trans (perm-map f p) (perm-map f q)

All-of_map {ℓ κ μ} :
    {A : Type ℓ} {B : Type κ} (P : B → Type μ) (f : A → B) (xs : List A)
    → All (λ x. P (f x)) xs
    → All P (map f xs)
All-of_map P f [] held = tt
All-of_map P f (x ∷ xs) held = (held.0, All-of_map P f xs held.1)

pub Ascending-map {ℓ κ} :
    {A : Type ℓ} {B : Type κ} (rank : B → ℕ) (f : A → B) (xs : List A)
    → Ascending (λ x. rank (f x)) xs
    → Ascending rank (map f xs)
Ascending-map rank f [] held = tt
Ascending-map rank f (x ∷ xs) held =
    (All-of_map (λ b. rank (f x) ≤ rank b) f xs held.0, Ascending-map rank f xs held.1)

-- Keys that agree on the entries.
pub Ascending-same {ℓ} :
    {A : Type ℓ} (rank other : A → ℕ) (xs : List A)
    → All (λ x. rank x ≡ other x) xs
    → Ascending rank xs
    → Ascending other xs
Ascending-same rank other [] same held = tt
Ascending-same rank other (x ∷ xs) same held =
    (raise_same xs same.1 held.0, Ascending-same rank other xs same.1 held.1)
  where
    raise_same :
        (ys : List _)
        → All (λ y. rank y ≡ other y) ys
        → All (λ y. rank x ≤ rank y) ys
        → All (λ y. other x ≤ other y) ys
    raise_same [] e h = tt
    raise_same (y ∷ ys) e h = (ground (arith, same.0, e.0, h.0), raise_same ys e.1 h.1)
