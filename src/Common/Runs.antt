-- ===== src/Common/Runs.antt =====
-- What a run of C code gives: a value, a wild access that C leaves undefined, or no return.
use mathlib.Core.Path.{◌≡◌, refl}
use mathlib.Core.Logic.{◌≢◌}

pub data Outcome {ℓ} (A : Type ℓ) : Type ℓ where
  ok : A → Outcome A
  fault : Outcome A
  hang : Outcome A

infixl 5 ◌>>=◌
abbrev pub ◌>>=◌ {ℓ κ} : {A : Type ℓ} {B : Type κ} → Outcome A → (A → Outcome B) → Outcome B
ok a >>= f = f a
fault >>= f = fault
hang >>= f = hang

-- A run whose second part is a fault whatever it is given, and whose first part returns.
pub >>=-fault {ℓ κ} :
    {A : Type ℓ} {B : Type κ} (r : Outcome A) (f : A → Outcome B)
    → r ≢ hang
    → ((a : A) → f a ≡ fault)
    → (r >>= f) ≡ fault
>>=-fault (ok a) f n h = h a
>>=-fault fault f n h = refl
>>=-fault hang f n h = absurd (n refl)

pub >>=-returns {ℓ κ} :
    {A : Type ℓ} {B : Type κ} (r : Outcome A) (f : A → Outcome B)
    → r ≢ hang
    → ((a : A) → f a ≢ hang)
    → (r >>= f) ≢ hang
>>=-returns (ok a) f n h = h a
>>=-returns fault f n h = λ e. cc
>>=-returns hang f n h = absurd (n refl)

-- What holds of the result of a run that ends well.
abbrev pub Ends {ℓ} : {A : Type ℓ} → (A → Type 0) → Outcome A → Type 0
Ends P (ok a) = P a
Ends P fault = ⊥
Ends P hang = ⊥

pub Ends-bind {ℓ κ} :
    {A : Type ℓ} {B : Type κ} (P : A → Type 0) (Q : B → Type 0) (r : Outcome A) (f : A → Outcome B)
    → Ends P r
    → ((a : A) → P a → Ends Q (f a))
    → Ends Q (r >>= f)
Ends-bind P Q (ok a) f p h = h a p
Ends-bind P Q fault f p h = absurd p
Ends-bind P Q hang f p h = absurd p

pub Ends-map {ℓ} :
    {A : Type ℓ} (P Q : A → Type 0) (r : Outcome A) → Ends P r → ((a : A) → P a → Q a) → Ends Q r
Ends-map P Q (ok a) p h = h a p
Ends-map P Q fault p h = absurd p
Ends-map P Q hang p h = absurd p
