-- ===== src/Tokenizer/Utf8/Valid.antt =====
-- Texts that are valid UTF-8, and where they may be cut.
use Prim.Native.Nat.{bit_and}
use miinfer.Prelude.{
  ℕ, zero, suc, ◌+◌, ◌*◌, ◌≤◌, ◌<◌, ◌≡◌, refl, ap, sym, ◌∙◌, false, not, List, [], ◌∷◌, ◌++◌, ok,
  guard, >>=-ok, ok-injective, ◌==◌, leb, leb→le, le→leb, guard-eq-ok, length, length-append, arith,
  subst, ◌%◌,
}
use miinfer.Prelude.Below.{holds_below, holds_below-lem}
use miinfer.Tokenizer.Types.{Codepoint, invalid_utf8}
use miinfer.Tokenizer.Utf8.{lead, follow, codepoint, codepoints_loop, codepoints}
use miinfer.Tokenizer.Utf8.RoundTrip.{one_byte, codepoint-ok, follow_none}
use miinfer.Tokenizer.Cover.{codepoint-shorter}

-- Code points one behind the other, as `codepoint` reads them.
pub data IsUtf8 : List ℕ → Type 0 where
  done : IsUtf8 []
  next :
      (first : ℕ) (bytes : List ℕ) (point : Codepoint) (rest : List ℕ)
      → codepoint first bytes ≡ ok (point, rest)
      → IsUtf8 rest
      → IsUtf8 (first ∷ bytes)

next_of :
    (first : ℕ) (bytes : List ℕ)
    → IsUtf8 (first ∷ bytes)
    → (point : Codepoint) × (rest : List ℕ) × (codepoint first bytes ≡ ok (point, rest))
      × IsUtf8 rest
next_of _ _ (next first bytes point rest e valid) = (point, rest, e, valid)

codepoints_loop-IsUtf8 :
    (fuel : ℕ) (text : List ℕ) (points : List Codepoint)
    → codepoints_loop fuel text ≡ ok points
    → IsUtf8 text
unfolding codepoints_loop
codepoints_loop-IsUtf8 fuel [] points h = done
codepoints_loop-IsUtf8 zero (first ∷ bytes) points h = absurd (cc)
codepoints_loop-IsUtf8 (suc fuel) (first ∷ bytes) points h =
    >>=-ok (codepoint first bytes) _ h λ (point, rest) e h2.
      >>=-ok (codepoints_loop fuel rest) _ h2
        λ later e2 h3. next first bytes point rest e (codepoints_loop-IsUtf8 fuel rest later e2)

pub codepoints-IsUtf8 :
    (text : List ℕ) (points : List Codepoint) → codepoints text ≡ ok points → IsUtf8 text
unfolding codepoints
codepoints-IsUtf8 text points = codepoints_loop-IsUtf8 (length text) text points

IsUtf8-codepoints_loop :
    (fuel : ℕ) (text : List ℕ)
    → IsUtf8 text
    → length text ≤ fuel
    → (points : List Codepoint) × (codepoints_loop fuel text ≡ ok points)
unfolding codepoints_loop
IsUtf8-codepoints_loop fuel _ done enough = ([], refl)
IsUtf8-codepoints_loop zero _ (next first bytes point rest e valid) enough = absurd (omega arith)
IsUtf8-codepoints_loop (suc fuel) _ (next first bytes point rest e valid) enough =
    let shorter = codepoint-shorter first bytes point rest e in
    let (points, later) = IsUtf8-codepoints_loop fuel rest valid (omega arith) in
    (point ∷ points, rw (e, later) refl)

pub IsUtf8-codepoints :
    (text : List ℕ) → IsUtf8 text → (points : List Codepoint) × (codepoints text ≡ ok points)
unfolding codepoints
IsUtf8-codepoints text valid = IsUtf8-codepoints_loop (length text) text valid (omega arith)

-- An ASCII byte continues no code point.
ascii_stops : (c : ℕ) → c < 128 → bit_and c 192 == 128 ≡ false
unfolding holds_below
ascii_stops c h =
    let stops = holds_below-lem 128 (λ c. not (bit_and c 192 == 128)) refl c h in ground arith

follow-front :
    (n value : ℕ) (a : List ℕ) (c : ℕ) (b : List ℕ) (whole : ℕ) (read rest : List ℕ)
    → c < 128
    → follow n value (a ++ (c ∷ b)) ≡ ok (whole, read, rest)
    → (left : List ℕ) × (rest ≡ left ++ (c ∷ b))
      × (follow n value a ≡ ok (whole, read, left))
      × (n ≤ length a)
unfolding follow
follow-front zero value a c b whole read rest ascii h = (
  a,
  ap (λ t. t.2) (sym (ok-injective h)),
  ap (λ t. ok (t.0, t.1, a)) (ok-injective h),
  omega arith,
)
follow-front (suc n) value [] c b whole read rest ascii h =
    let test = ascii_stops c ascii in absurd (ground arith)
follow-front (suc n) value (x ∷ a) c b whole read rest ascii h =
    >>=-ok (guard (bit_and x 192 == 128) invalid_utf8) _ h λ u marked h2.
      >>=-ok (follow n (value * 64 + bit_and x 63) (a ++ (c ∷ b))) _ h2 λ (w, r, s) e h3.
        let test = guard-eq-ok (bit_and x 192 == 128) invalid_utf8 marked in
        let (left, here, front, enough) =
          follow-front n (value * 64 + bit_and x 63) a c b w r s ascii e in
        let same : s ≡ rest = ap (λ t. t.2) (ok-injective h3) in
        (
          left,
          sym same ∙ here,
          rw (test, front) (ap (λ t. ok (t.0, t.1, left)) (ok-injective h3)),
          omega arith,
        )

follow-append :
    (n value : ℕ) (a b : List ℕ) (whole : ℕ) (read rest : List ℕ)
    → follow n value a ≡ ok (whole, read, rest)
    → follow n value (a ++ b) ≡ ok (whole, read, rest ++ b)
unfolding follow
follow-append zero value a b whole read rest h = ap (λ t. ok (t.0, t.1, t.2 ++ b)) (ok-injective h)
follow-append (suc n) value [] b whole read rest h = absurd (cc)
follow-append (suc n) value (x ∷ a) b whole read rest h =
    >>=-ok (guard (bit_and x 192 == 128) invalid_utf8) _ h λ u marked h2.
      >>=-ok (follow n (value * 64 + bit_and x 63) a) _ h2 λ (w, r, s) e h3.
        let ih = follow-append n (value * 64 + bit_and x 63) a b w r s e in
        let test = guard-eq-ok (bit_and x 192 == 128) invalid_utf8 marked in
        rw (test, ih) (ap (λ t. ok (t.0, t.1, t.2 ++ b)) (ok-injective h3))

-- A text that is cut in front of an ASCII byte: the code point in front of the cut.
codepoint-front :
    (first : ℕ) (a : List ℕ) (c : ℕ) (b : List ℕ) (point : Codepoint) (rest : List ℕ)
    → c < 128
    → codepoint first (a ++ (c ∷ b)) ≡ ok (point, rest)
    → (left : List ℕ) × (rest ≡ left ++ (c ∷ b)) × (codepoint first a ≡ ok (point, left))
unfolding codepoint
codepoint-front first a c b point rest ascii h =
    let count = (lead first).1 in
    >>=-ok (guard (leb count (length (a ++ (c ∷ b)))) invalid_utf8) _ h λ u _ h2.
      >>=-ok (follow count ((lead first).0) (a ++ (c ∷ b))) _ h2 λ (w, r, s) e h3.
        let (left, here, front, enough) = follow-front count ((lead first).0) a c b w r s ascii e in
        let same : s ≡ rest = ap (λ t. t.1) (ok-injective h3) in
        (
          left,
          sym same ∙ here,
          rw (le→leb count (length a) enough, front) (ap (λ t. ok (t.0, left)) (ok-injective h3)),
        )

codepoint-append :
    (first : ℕ) (a b : List ℕ) (point : Codepoint) (rest : List ℕ)
    → codepoint first a ≡ ok (point, rest)
    → codepoint first (a ++ b) ≡ ok (point, rest ++ b)
unfolding codepoint
codepoint-append first a b point rest h =
    let count = (lead first).1 in
    >>=-ok (guard (leb count (length a)) invalid_utf8) _ h λ u enough h2.
      >>=-ok (follow count ((lead first).0) a) _ h2 λ (w, r, s) e h3.
        let room =
          leb→le count (length a) (guard-eq-ok (leb count (length a)) invalid_utf8 enough) in
        rw
          (
            le→leb count (length (a ++ b)) (omega (arith, length-append a b)),
            follow-append count ((lead first).0) a b w r s e,
          )
          (ap (λ t. ok (t.0, t.1 ++ b)) (ok-injective h3))

-- Valid texts one behind the other are valid.
pub IsUtf8-append : (a b : List ℕ) → IsUtf8 a → IsUtf8 b → IsUtf8 (a ++ b)
IsUtf8-append _ b done valid = valid
IsUtf8-append _ b (next first bytes point rest e later) valid =
    next first (bytes ++ b) point (rest ++ b) (codepoint-append first bytes b point rest e)
      (IsUtf8-append rest b later valid)

-- A valid text may be cut in front of an ASCII byte.
cut_fuel :
    (fuel : ℕ) (a : List ℕ) (c : ℕ) (b : List ℕ)
    → length a ≤ fuel
    → c < 128
    → IsUtf8 (a ++ (c ∷ b))
    → IsUtf8 a × IsUtf8 (c ∷ b)
cut_fuel fuel [] c b enough ascii valid = (done, valid)
cut_fuel zero (first ∷ a) c b enough ascii valid = absurd (omega arith)
cut_fuel (suc fuel) (first ∷ a) c b enough ascii valid =
    let (point, rest, e, later) = next_of first (a ++ (c ∷ b)) valid in
    let (left, here, front) = codepoint-front first a c b point rest ascii e in
    let shorter = codepoint-shorter first a point left front in
    let (this, behind) =
      cut_fuel fuel left c b (omega arith) ascii (subst (λ u. IsUtf8 u) here later) in
    (next first a point left front this, behind)

pub IsUtf8-cut :
    (a : List ℕ) (c : ℕ) (b : List ℕ) → c < 128 → IsUtf8 (a ++ (c ∷ b)) → IsUtf8 a × IsUtf8 (c ∷ b)
IsUtf8-cut a c b = cut_fuel (length a) a c b (omega arith)

-- An ASCII byte is a code point of its own.
codepoint-ascii :
    (c : ℕ) (b : List ℕ) → c < 128 → codepoint c b ≡ ok (record { value = c; bytes = c ∷ [] }, b)
codepoint-ascii c b ascii =
    let byte : c % 256 ≡ c = omega arith in
    codepoint-ok c c 0 c b [] b (subst (λ u. lead u ≡ (c, 0)) byte (one_byte c ascii)) (omega arith)
      (follow_none c b)

pub IsUtf8-tail : (c : ℕ) (b : List ℕ) → c < 128 → IsUtf8 (c ∷ b) → IsUtf8 b
IsUtf8-tail c b ascii valid =
    let (point, rest, e, later) = next_of c b valid in
    let same : rest ≡ b = ap (λ t. t.1) (ok-injective (sym e ∙ codepoint-ascii c b ascii)) in
    subst (λ u. IsUtf8 u) same later

pub IsUtf8-ascii : (c : ℕ) (b : List ℕ) → c < 128 → IsUtf8 b → IsUtf8 (c ∷ b)
IsUtf8-ascii c b ascii valid =
    next c b (record { value = c; bytes = c ∷ [] }) b (codepoint-ascii c b ascii) valid
