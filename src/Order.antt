-- ===== src/Order.antt =====
-- Keys of the ordered collections (`std::collections::BTreeSet`, `BTreeMap`, `BinaryHeap`): a
-- comparison, as Rust's `Ord::cmp`, whose `eq` is equality. Instances for numbers, lists (the
-- lexicographic order, that of `str` too) and pairs.
use dag_ml_data.Common.{
  Option, none, some, ℕ, ◌≡◌, refl, ◌↔◌, Bool, true, false, List, [], ◌∷◌, arith, compare, Ordering,
}

pub record Ord {ℓ} (A : Type ℓ) : Type ℓ where
  pub cmp : A → A → Ordering
  pub cmp-eq_iff : (a b : A) → (cmp a b ≡ Ordering.eq) ↔ (a ≡ b)

abbrev pub is_eq : Ordering → Bool
is_eq Ordering.eq = true
is_eq _ = false

-- `Ordering::then_with`.
abbrev pub then : Ordering → Ordering → Ordering
then Ordering.eq o = o
then o _ = o

infix 50 ◌==◌
abbrev pub ◌==◌ {ℓ} : {A : Type ℓ} ⦃o : Ord A⦄ → A → A → Bool
◌==◌ ⦃o⦄ a b = is_eq (o.cmp a b)

module _ {ℓ} {A : Type ℓ} ⦃o : Ord A⦄ where
  pub ==_iff : (a b : A) → ((a == b) ≡ true) ↔ (a ≡ b)
  ==_iff a b = ground (arith, o.cmp-eq_iff a b)

  pub ==_refl : (a : A) → (a == a) ≡ true
  ==_refl a = (==_iff a a).1 refl

pub compare-eq_iff : (a b : ℕ) → (compare a b ≡ Ordering.eq) ↔ (a ≡ b)
compare-eq_iff a b = ground arith

instance abbrev pub nat_ord : Ord ℕ
nat_ord = record { cmp = compare; cmp-eq_iff = compare-eq_iff }

unfoldable pub cmp_list {ℓ} : {A : Type ℓ} ⦃o : Ord A⦄ → List A → List A → Ordering
cmp_list [] [] = Ordering.eq
cmp_list [] (y ∷ ys) = Ordering.lt
cmp_list (x ∷ xs) [] = Ordering.gt
cmp_list ⦃o⦄ (x ∷ xs) (y ∷ ys) = let rest = cmp_list xs ys in then (o.cmp x y) rest

pub cmp_list-eq_iff {ℓ} :
    {A : Type ℓ} ⦃o : Ord A⦄ (xs ys : List A) → (cmp_list xs ys ≡ Ordering.eq) ↔ (xs ≡ ys)
unfolding cmp_list
cmp_list-eq_iff [] [] = ground arith
cmp_list-eq_iff [] (y ∷ ys) = ground arith
cmp_list-eq_iff (x ∷ xs) [] = ground arith
cmp_list-eq_iff ⦃o⦄ (x ∷ xs) (y ∷ ys) = ground (arith, o.cmp-eq_iff x y, cmp_list-eq_iff xs ys)

instance abbrev pub list_ord {ℓ} : {A : Type ℓ} ⦃o : Ord A⦄ → Ord (List A)
list_ord = record { cmp = cmp_list; cmp-eq_iff = cmp_list-eq_iff }

unfoldable pub cmp_pair {ℓ κ} :
    {A : Type ℓ} {B : Type κ} ⦃o : Ord A⦄ ⦃u : Ord B⦄ → A × B → A × B → Ordering
cmp_pair ⦃o⦄ ⦃u⦄ p q = then (o.cmp p.0 q.0) (u.cmp p.1 q.1)

pub cmp_pair-eq_iff {ℓ κ} :
    {A : Type ℓ} {B : Type κ} ⦃o : Ord A⦄ ⦃u : Ord B⦄ (p q : A × B)
    → (cmp_pair p q ≡ Ordering.eq) ↔ (p ≡ q)
unfolding cmp_pair
cmp_pair-eq_iff ⦃o⦄ ⦃u⦄ (a, b) (c, d) = ground (arith, o.cmp-eq_iff a c, u.cmp-eq_iff b d)

instance abbrev pub pair_ord {ℓ κ} : {A : Type ℓ} {B : Type κ} ⦃o : Ord A⦄ ⦃u : Ord B⦄ → Ord (A × B)
pair_ord = record { cmp = cmp_pair; cmp-eq_iff = cmp_pair-eq_iff }

-- The derived order of `Option`: `None` first.
unfoldable pub cmp_option {ℓ} : {A : Type ℓ} ⦃o : Ord A⦄ → Option A → Option A → Ordering
cmp_option none none = Ordering.eq
cmp_option none (some b) = Ordering.lt
cmp_option (some a) none = Ordering.gt
cmp_option ⦃o⦄ (some a) (some b) = o.cmp a b

pub cmp_option-eq_iff {ℓ} :
    {A : Type ℓ} ⦃o : Ord A⦄ (a b : Option A) → (cmp_option a b ≡ Ordering.eq) ↔ (a ≡ b)
unfolding cmp_option
cmp_option-eq_iff none none = ground arith
cmp_option-eq_iff none (some b) = ground arith
cmp_option-eq_iff (some a) none = ground arith
cmp_option-eq_iff ⦃o⦄ (some a) (some b) = ground (arith, o.cmp-eq_iff a b)

instance abbrev pub option_ord {ℓ} : {A : Type ℓ} ⦃o : Ord A⦄ → Ord (Option A)
option_ord = record { cmp = cmp_option; cmp-eq_iff = cmp_option-eq_iff }
