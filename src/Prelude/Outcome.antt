-- ===== src/Prelude/Outcome.antt =====
-- A result with an error of any type, and its chains: `throw` is `err`.
use mathlib.Core.Option.{some}
use mathlib.Core.Path.{◌≡◌, refl}
use mathlib.Core.Bool.{Bool, true, false}
use mathlib.Core.Logic.{◌⊎◌, inl, inr}

pub data Result {ℓ κ} (E : Type ℓ) (A : Type κ) : Type (ℓ ⊔ κ) where
  ok : A → Result E A
  err : E → Result E A

infixl 5 ◌>>=◌ ◌>>◌
abbrev pub ◌>>=◌ {ε ℓ κ} :
    {E : Type ε} {A : Type ℓ} {B : Type κ} → Result E A → (A → Result E B) → Result E B
ok a >>= f = f a
err e >>= f = err e

abbrev pub ◌>>◌ {ε ℓ} : {E : Type ε} {B : Type ℓ} → Result E (Unit {0}) → Result E B → Result E B
m >> k = m >>= λ _. k

-- `if (!test) throw e;`
abbrev pub guard {ε} : {E : Type ε} → Bool → E → Result E (Unit {0})
guard true e = ok tt
guard false e = err e

pub Result-cases {ε ℓ} :
    {E : Type ε} {A : Type ℓ} (r : Result E A) → ((a : A) × (r ≡ ok a)) ⊎ ((e : E) × (r ≡ err e))
Result-cases (ok a) = inl (a, refl)
Result-cases (err e) = inr (e, refl)

-- A chain that succeeds went through its first step: the proof goes on from the value there.
pub >>=-ok {ε ℓ κ μ} :
    {E : Type ε} {A : Type ℓ} {B : Type κ} {P : Type μ} (m : Result E A) (f : A → Result E B)
    {b : B}
    → (m >>= f) ≡ ok b
    → ((a : A) → m ≡ ok a → f a ≡ ok b → P)
    → P
>>=-ok (ok a) f h k = k a refl h
>>=-ok (err e) f h k = absurd (cc)

pub guard-eq-ok {ε} : {E : Type ε} (b : Bool) (e : E) {u : Unit {0}} → guard b e ≡ ok u → b ≡ true
guard-eq-ok true e h = refl
guard-eq-ok false e h = cc

pub ok-injective {ε ℓ} :
    {E : Type ε} {A : Type ℓ} {a b : A} → ◌≡◌ {A = Result E A} (ok a) (ok b) → a ≡ b
ok-injective h = cc

pub some-injective {ℓ} : {A : Type ℓ} {a b : A} → some a ≡ some b → a ≡ b
some-injective p = cc
