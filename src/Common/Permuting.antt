-- ===== src/Common/Permuting.antt =====
-- Sorting forgets the order of entries that the comparison tells apart.
use Prim.Native.Nat.{Ordering}
use mathlib.Core.Path.{◌≡◌, refl, ap, ◌∙◌, subst}
use mathlib.Core.Bool.{Bool, true, false}
use native.Mathlib.Omega.{arith}
use mathlib.Core.List.{List, [], ◌∷◌, Permᴰ}
use dag_ml_data.Common.Lists.{All}
use dag_ml_data.Common.Sorting.{place, sort_by, sort_by-All}

abbrev pub differs : Ordering → Bool
differs Ordering.eq = false
differs _ = true

-- A comparison that is the reverse of its flip, and transitive where it tells entries apart.
pub record IsOrder {ℓ} {A : Type ℓ} (cmp : A → A → Ordering) : Type ℓ where
  pub flip_lt : (x y : A) → cmp x y ≡ Ordering.lt → cmp y x ≡ Ordering.gt
  pub flip_gt : (x y : A) → cmp x y ≡ Ordering.gt → cmp y x ≡ Ordering.lt
  pub trans_lt : (x y z : A) → cmp x y ≡ Ordering.lt → cmp y z ≡ Ordering.lt → cmp x z ≡ Ordering.lt

module _ {ℓ} {A : Type ℓ} (cmp : A → A → Ordering) (o : IsOrder cmp) where
  -- No two entries that the comparison takes for equal.
  abbrev pub Spread : List A → Type 0
  Spread [] = Unit
  Spread (x ∷ xs) = All (λ y. differs (cmp x y) ≡ true) xs × Spread xs

  place_comm :
      (x y : A) (zs : List A)
      → differs (cmp x y) ≡ true
      → All (λ z. differs (cmp x z) ≡ true) zs
      → All (λ z. differs (cmp y z) ≡ true) zs
      → place cmp x (place cmp y zs) ≡ place cmp y (place cmp x zs)
  unfolding place
  place_comm x y [] apart of_x of_y = ground (arith, o.flip_lt x y, o.flip_gt x y)
  place_comm x y (z ∷ zs) apart of_x of_y = ground (
    arith,
    o.flip_lt x y,
    o.flip_gt x y,
    o.flip_lt x z,
    o.flip_gt x z,
    o.flip_lt y z,
    o.flip_gt y z,
    o.trans_lt x z y,
    o.trans_lt y z x,
    place_comm x y zs apart of_x.1 of_y.1,
  )

  All-Perm {κ} : (P : A → Type κ) {xs ys : List A} → Permᴰ xs ys → All P xs → All P ys
  All-Perm P Permᴰ.nil held = tt
  All-Perm P (Permᴰ.cons e p) held = (subst P e held.0, All-Perm P p held.1)
  All-Perm P (Permᴰ.swap e f) held = (subst P f held.1.0, (subst P e held.0, held.1.1))
  All-Perm P (Permᴰ.trans p q) held = All-Perm P q (All-Perm P p held)

  Spread-Perm : {xs ys : List A} → Permᴰ xs ys → Spread xs → Spread ys
  Spread-Perm Permᴰ.nil held = tt
  Spread-Perm (Permᴰ.cons {l₂ = l} e p) held = (
    subst (λ b. All (λ y. differs (cmp b y) ≡ true) l) e
        (All-Perm (λ y. differs (cmp _ y) ≡ true) p held.0),
    Spread-Perm p held.1,
  )
  Spread-Perm (Permᴰ.swap {a} {b} {a'} {b'} {l} e f) held =
      subst (λ c. Spread (c ∷ b' ∷ l)) f
        (subst (λ c. Spread (b ∷ c ∷ l)) e
          (
            (ground (arith, o.flip_lt a b, o.flip_gt a b, held.0.0), held.1.0),
            (held.0.1, held.1.1),
          ))
  Spread-Perm (Permᴰ.trans p q) held = Spread-Perm q (Spread-Perm p held)

  -- Permuted entries that the comparison tells apart are sorted alike.
  pub sort_by-permuted :
      {xs ys : List A} → Permᴰ xs ys → Spread xs → sort_by cmp xs ≡ sort_by cmp ys
  unfolding sort_by
  sort_by-permuted Permᴰ.nil held = refl
  sort_by-permuted (Permᴰ.cons {b = b} {l₁ = l} e p) held =
      ap (λ a. place cmp a (sort_by cmp l)) e ∙ ap (λ t. place cmp b t) (sort_by-permuted p held.1)
  sort_by-permuted (Permᴰ.swap {a} {b} {a'} {b'} {l} e f) held =
      place_comm a b (sort_by cmp l) held.0.0
        (sort_by-All cmp (λ z. differs (cmp a z) ≡ true) l held.0.1)
        (sort_by-All cmp (λ z. differs (cmp b z) ≡ true) l held.1.0)
      ∙ ap (λ c. place cmp c (place cmp a (sort_by cmp l))) f
      ∙ ap (λ c. place cmp a' (place cmp c (sort_by cmp l))) e
  sort_by-permuted (Permᴰ.trans p q) held =
      sort_by-permuted p held ∙ sort_by-permuted q (Spread-Perm p held)
