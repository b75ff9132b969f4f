-- ===== src/Prelude/Returns.antt =====
-- What holds of the result of code that may fault: that there is one, and that it satisfies `P`.
use quark_ts_cpp.Prelude.Tests.{◌>>=◌}
use mathlib.Core.Path.{◌≡◌, refl}
use mathlib.Core.Option.{Option, none, some}

abbrev pub Returns {ℓ} : {A : Type ℓ} → (A → Type 0) → Option A → Type 0
Returns P none = ⊥
Returns P (some a) = P a

pub Returns-bind :
    {A B : Type 0} (P : A → Type 0) (Q : B → Type 0) (o : Option A) (f : A → Option B)
    → Returns P o
    → ((a : A) → P a → Returns Q (f a))
    → Returns Q (o >>= f)
Returns-bind P Q none f r k = r
Returns-bind P Q (some a) f r k = k a r

pub Returns-map :
    {A : Type 0} (P Q : A → Type 0) (o : Option A)
    → ((a : A) → P a → Q a)
    → Returns P o
    → Returns Q o
Returns-map P Q none f r = r
Returns-map P Q (some a) f r = f a r

pub >>=-bind :
    {A B C : Type 0} (o : Option A) (f : A → Option B) (g : B → Option C)
    → (o >>= λ a. f a >>= g) ≡ ((o >>= f) >>= g)
>>=-bind none f g = refl
>>=-bind (some a) f g = refl

pub Returns-both :
    {A : Type 0} (P Q : A → Type 0) (o : Option A)
    → Returns P o
    → Returns Q o
    → Returns (λ a. P a × Q a) o
Returns-both P Q none r s = r
Returns-both P Q (some a) r s = (r, s)

pub Returns-some :
    {A : Type 0} (P : A → Type 0) (o : Option A) → Returns P o → (a : A) × (o ≡ some a) × P a
Returns-some P none r = absurd r
Returns-some P (some a) r = (a, refl, r)
