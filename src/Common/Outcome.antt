-- ===== src/Common/Outcome.antt =====
-- A computation that returns or raises.
use mathlib.Core.Path.{◌≡◌, refl}
use mathlib.Core.Bool.{Bool, true, false}
use mathlib.Core.List.{List, [], ◌∷◌}
use yocto_qemu_edu_lab.Common.Lists.{All}

pub data Result {ℓ κ} (E : Type ℓ) (A : Type κ) : Type (ℓ ⊔ κ) where
  ok : A → Result E A
  err : E → Result E A

infixl 5 ◌>>=◌ ◌>>◌
abbrev pub ◌>>=◌ {ℓ κ μ} :
    {E : Type ℓ} {A : Type κ} {B : Type μ} → Result E A → (A → Result E B) → Result E B
ok a >>= f = f a
err e >>= f = err e

abbrev pub ◌>>◌ {ℓ κ μ} :
    {E : Type ℓ} {A : Type κ} {B : Type μ} → Result E A → Result E B → Result E B
m >> k = m >>= λ _. k

-- What a chain that returns has gone through.
pub >>=-eq-ok {ℓ κ μ} :
    {E : Type ℓ} {A : Type κ} {B : Type μ} (first : Result E A) (next : A → Result E B) {y : B}
    → (first >>= next) ≡ ok y
    → (x : A) × (first ≡ ok x) × (next x ≡ ok y)
>>=-eq-ok (err raised) next returned = cc
>>=-eq-ok (ok x) next returned = (x, refl, returned)

-- raise, unless the test holds
abbrev pub ensure {ℓ} : {E : Type ℓ} → Bool → E → Result E (Unit {0})
ensure true e = ok tt
ensure false e = err e

-- checks of which the first that raises stops the others
abbrev pub in_turn {ℓ} : {E : Type ℓ} → List (Result E (Unit {0})) → Result E (Unit {0})
in_turn [] = ok tt
in_turn (check ∷ checks) = check >>= λ done. in_turn checks

abbrev pub result_or {ℓ κ} : {E : Type ℓ} {A : Type κ} → A → Result E A → A
result_or default (ok a) = a
result_or default (err e) = default

pub ensure-true {ℓ} :
    {E : Type ℓ} (b : Bool) (e : E) {done : Unit {0}} → ensure b e ≡ ok done → b ≡ true
ensure-true true e h = refl
ensure-true false e h = cc

pub in_turn-ok {ℓ} :
    {E : Type ℓ} (checks : List (Result E (Unit {0}))) {done : Unit {0}}
    → in_turn checks ≡ ok done
    → All (λ c. c ≡ ok tt) checks
in_turn-ok [] h = tt
in_turn-ok (c ∷ cs) h = let (_, first, rest) = >>=-eq-ok c _ h in (first, in_turn-ok cs rest)
