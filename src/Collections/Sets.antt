-- ===== src/Collections/Sets.antt =====
-- `BTreeSet<K>`: the list of its keys, in the order of `K`.
use dag_ml_data.Common.{
  true, All, false≢true, subst, sym, Bool-cases, inl, inr, find, none, ◌++◌, ◌≡◌, refl, ap, ◌∙◌,
  Bool, false, ◌||◌, List, [], ◌∷◌, arith, Ordering,
}
use dag_ml_data.Order.{==_refl, Ord, ◌==◌, ==_iff}

module _ {ℓ} {A : Type ℓ} ⦃o : Ord A⦄ where
  abbrev pub contains : A → List A → Bool
  contains a [] = false
  contains a (x ∷ xs) = a == x || contains a xs

  -- No key twice.
  abbrev pub Distinct : List A → Type 0
  Distinct [] = Unit
  Distinct (x ∷ xs) = (contains x xs ≡ false) × Distinct xs

  abbrev insert_by : Ordering → A → A → List A → List A → List A
  insert_by Ordering.lt a x xs rest = a ∷ x ∷ xs
  insert_by Ordering.eq a x xs rest = x ∷ xs
  insert_by Ordering.gt a x xs rest = x ∷ rest

  -- `BTreeSet::insert`: its answer, whether the key is new, is `not (contains a s)`.
  unfoldable pub insert : A → List A → List A
  insert a [] = a ∷ []
  insert a (x ∷ xs) = insert_by (o.cmp a x) a x xs (insert a xs)

  pub contains-insert : (b a : A) (s : List A) → contains b (insert a s) ≡ (b == a || contains b s)
  unfolding insert
  contains-insert b a [] = refl
  contains-insert b a (x ∷ xs) =
      ground (arith, contains-insert b a xs, ==_iff b a, ==_iff b x, o.cmp-eq_iff a x)

  -- `iter().collect::<BTreeSet<_>>()`.
  unfoldable pub collect : List A → List A
  unfolding insert
  collect [] = []
  collect (x ∷ xs) = insert x (collect xs)

  pub contains-collect : (b : A) (xs : List A) → contains b (collect xs) ≡ contains b xs
  unfolding collect
  contains-collect b [] = refl
  contains-collect b (x ∷ xs) =
      contains-insert b x (collect xs) ∙ ap (λ t. b == x || t) (contains-collect b xs)

  pub contains_tail : (y x : A) (xs : List A) → contains y xs ≡ true → contains y (x ∷ xs) ≡ true
  contains_tail y x xs h = ground arith

  pub contains_head : (x : A) (xs : List A) → contains x (x ∷ xs) ≡ true
  contains_head x xs = ground (arith, ==_refl x)

  pub All-of_contains {κ} :
      (P : A → Type κ) (xs : List A) → ((x : A) → contains x xs ≡ true → P x) → All P xs
  All-of_contains P [] h = tt
  All-of_contains P (x ∷ xs) h =
      (h x (ground (arith, ==_refl x)), All-of_contains P xs (λ y m. h y (contains_tail y x xs m)))

  pub All_at {κ} : (P : A → Type κ) (xs : List A) → All P xs → (x : A) → contains x xs ≡ true → P x
  All_at P [] h x m = absurd (false≢true m)
  All_at P (y ∷ xs) h x m = elim (Bool-cases (x == y)) [
    | inl e ↦ subst P (sym ((==_iff x y).0 e)) h.0
    | inr e ↦ All_at P xs h.1 x (ground arith)
  ]

  pub find-eq-none :
      (p : A → Bool) (xs : List A) → find p xs ≡ none → (x : A) → contains x xs ≡ true → p x ≡ false
  find-eq-none p [] h x m = cc
  find-eq-none p (y ∷ xs) h x m = ground (arith, ==_iff x y, find-eq-none p xs (ground arith) x)

  pub find-none :
      (p : A → Bool) (xs : List A)
      → ((x : A) → contains x xs ≡ true → p x ≡ false)
      → find p xs ≡ none
  find-none p [] h = refl
  find-none p (y ∷ xs) h =
      ground (
        arith,
        h y (ground (arith, ==_refl y)),
        find-none p xs (λ x m. h x (contains_tail x y xs m)),
      )

  pub contains-append :
      (b : A) (xs ys : List A) → contains b (xs ++ ys) ≡ (contains b xs || contains b ys)
  contains-append b [] ys = refl
  contains-append b (x ∷ xs) ys = ground (arith, contains-append b xs ys)

  pub insert-Distinct :
      (a : A) (s : List A) → contains a s ≡ false → Distinct s → Distinct (insert a s)
  unfolding insert
  insert-Distinct a [] h d = (refl, tt)
  insert-Distinct a (x ∷ xs) h d = ground (
    arith,
    insert-Distinct a xs (ground arith) d.1,
    contains-insert x a xs,
    ==_iff x a,
    ==_iff a x,
  )
