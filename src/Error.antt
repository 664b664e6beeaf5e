-- ===== src/Error.antt =====
-- crates/dag-ml-data-core/src/error.rs: the errors of the core, and the results of code that fails
-- with `?`. The message of a validation error is the text that the source formats.
pub mod Taxonomy
use dag_ml_data.Common.{
  inr, inl, ◌⊎◌, ap, ℕ, ◌≡◌, refl, ◌↔◌, Bool, true, false, List, [], ◌∷◌, arith, All, Option, none,
  some,
}
use dag_ml_data.Text.{Text}

pub data DataError : Type 0 where
  invalid_identifier : (value reason : Text) → DataError
  validation : (message : Text) → DataError
  fingerprint_mismatch : (kind expected actual : Text) → DataError
  unknown_handle : (kind : Text) (handle : ℕ) → DataError
  relation_boundary_violation : (kind detail : Text) → DataError
  incompatible_reducer : (reducer task : Text) → DataError
  signal_type_mismatch : (expected actual : Text) → DataError
  serialization : (message : Text) → DataError

pub data Result {κ} (T : Type κ) : Type κ where
  err : (reason : DataError) → Result T
  ok : (value : T) → Result T

module _ {κ ρ} {T : Type κ} {U : Type ρ} where
  infixl 5 ◌>>=◌
  -- `let t = step?; next(t)`
  abbrev pub ◌>>=◌ : (step : Result T) (next : T → Result U) → Result U
  err reason >>= next = err reason
  ok value >>= next = next value

  pub >>=-eq-ok :
      (step : Result T) (next : T → Result U) {u : U}
      → (step >>= next) ≡ ok u
      → (t : T) × (step ≡ ok t) × (next t ≡ ok u)
  >>=-eq-ok (err reason) next fine = cc
  >>=-eq-ok (ok value) next fine = (value, refl, fine)

module _ {ρ} {U : Type ρ} where
  infixl 5 ◌>>◌
  -- `step?; rest`
  abbrev pub ◌>>◌ : (step : Result (Unit {0})) (rest : Result U) → Result U
  err reason >> rest = err reason
  ok _ >> rest = rest

abbrev pub done : Result (Unit {0})
done = ok tt

-- `if test { return Err(e); }`
abbrev pub refuse : Bool → DataError → Result (Unit {0})
refuse true e = err e
refuse false e = ok tt

-- `for x in xs { f(x)?; }`
abbrev pub for_each {ℓ} : {A : Type ℓ} → (A → Result (Unit {0})) → List A → Result (Unit {0})
for_each f [] = ok tt
for_each f (x ∷ xs) = f x >> for_each f xs

-- `o.ok_or_else(|| e)`
abbrev pub ok_or {ℓ} : {A : Type ℓ} → Option A → DataError → Result A
ok_or none e = err e
ok_or (some a) e = ok a

-- `o.map(f).transpose()?`
abbrev pub transpose {ℓ κ} :
    {T : Type ℓ} {U : Type κ} → (T → Result U) → Option T → Result (Option U)
transpose f none = ok none
transpose f (some value) = f value >>= λ result. ok (some result)

pub refuse_iff : (b : Bool) (e : DataError) → (refuse b e ≡ done) ↔ (b ≡ false)
refuse_iff b e = ground arith

pub >>_iff {ℓ} :
    {B : Type ℓ} (m : Result (Unit {0})) (k : Result B) (b : B)
    → ((m >> k) ≡ ok b) ↔ ((m ≡ done) × (k ≡ ok b))
>>_iff (ok tt) k b = (λ h. (refl, h), λ h. h.1)
>>_iff (err e) k b = (λ h. cc, λ h. cc)

pub for_each_iff {ℓ} :
    {A : Type ℓ} (f : A → Result (Unit {0})) (xs : List A)
    → (for_each f xs ≡ done) ↔ All (λ x. f x ≡ done) xs
for_each_iff f [] = (λ h. tt, λ h. refl)
for_each_iff f (x ∷ xs) =
    let (to, from) = for_each_iff f xs in
    let (split, join) = >>_iff (f x) (for_each f xs) tt in
    (λ h. let (a, b) = split h in (a, to b), λ h. join (h.0, from h.1))

pub >>-eq-ok {ℓ} :
    {B : Type ℓ} (m : Result (Unit {0})) (k : Result B) {b : B}
    → (m >> k) ≡ ok b
    → (m ≡ done) × (k ≡ ok b)
>>-eq-ok (ok tt) k h = (refl, h)
>>-eq-ok (err e) k h = cc

pub ok_injective {ℓ} : {A : Type ℓ} {a b : A} → ok a ≡ ok b → a ≡ b
ok_injective same = cc

pub ok_or_found {ℓ} :
    {A : Type ℓ} (o : Option A) (e : DataError) {a : A} → ok_or o e ≡ ok a → o ≡ some a
ok_or_found none e same = cc
ok_or_found (some b) e same = ap some (ok_injective same)

pub Result-cases {ℓ} :
    {A : Type ℓ} (r : Result A)
    → ((reason : DataError) × (r ≡ err reason)) ⊎ ((value : A) × (r ≡ ok value))
Result-cases (err reason) = inl (reason, refl)
Result-cases (ok value) = inr (value, refl)
