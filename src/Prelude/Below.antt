-- ===== src/Prelude/Below.antt =====
-- A test on every number below a bound, which evaluates, and what it shows.
use Prim.Native.Nat.{ℕ, zero, suc, ◌<◌}
use mathlib.Core.Path.{◌≡◌, refl, subst}
use mathlib.Core.Bool.{Bool, true, false, ◌&&◌}
use native.Mathlib.Omega.{arith}
use native.Mathlib.Decide.{dec_lt}

unfoldable pub holds_below : ℕ → (ℕ → Bool) → Bool
holds_below zero test = true
holds_below (suc bound) test = holds_below bound test && test bound

both : (a b : Bool) → a && b ≡ true → (a ≡ true) × (b ≡ true)
both true true h = (refl, refl)
both true false h = absurd (cc)
both false b h = absurd (cc)

pub holds_below-lem :
    (bound : ℕ) (test : ℕ → Bool)
    → holds_below bound test ≡ true
    → (n : ℕ) → n < bound
    → test n ≡ true
unfolding holds_below
holds_below-lem zero test h n below = absurd (omega arith)
holds_below-lem (suc bound) test h n below =
    let (others, last) = both (holds_below bound test) (test bound) h in
    elim (dec_lt n bound) [
      | yes under ↦ holds_below-lem bound test others n under
      | no top ↦ let e : bound ≡ n = omega arith in subst (λ m. test m ≡ true) e last
    ]
