-- ===== src/Common/Options.antt =====
-- `?` and `and_then` in a function that returns `Option`.
use mathlib.Core.Option.{Option, none, some}
use mathlib.Core.Path.{◌≡◌, refl}

infixl 5 ◌>>=◌
abbrev pub ◌>>=◌ {ℓ κ} : {A : Type ℓ} {B : Type κ} (o : Option A) (next : A → Option B) → Option B
none >>= next = none
some a >>= next = next a

-- A chain that gives a value gave one at its first link.
pub >>=-eq-some {ℓ κ} :
    {A : Type ℓ} {B : Type κ} (o : Option A) (next : A → Option B) {b : B}
    → (o >>= next) ≡ some b
    → (a : A) × (o ≡ some a) × (next a ≡ some b)
>>=-eq-some none next found = cc
>>=-eq-some (some a) next found = (a, refl, found)
