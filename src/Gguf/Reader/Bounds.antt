-- ===== src/Gguf/Reader/Bounds.antt =====
-- The cursor stays inside the file: rules for the methods of the reader and for their chains.
use miinfer.Prelude.{
  ℕ, ◌+◌, ◌≤◌, ◌<◌, ◌≡◌, refl, List, String, ok, err, arith, ◌∙◌, ltb, Bool, true, false,
  if◌then◌else◌, length,
}
use miinfer.Prelude.Words.{word_mod, from_bytes}
use miinfer.Gguf.Types.{Error, Outcome}
use miinfer.Gguf.Checked.{checked_size}
use miinfer.Gguf.Reader.{
  Reader, Read, ◌>>=◌, continue, pure, lift, fail, reject, require, bytes_at, block, read, string,
  max_string_bytes,
}

-- The position lies in the file, whose size is a `std::size_t`.
pub record InFile (r : Reader) : Type 0 where
  pub inside : r.position ≤ length r.bytes
  pub fits : length r.bytes < word_mod

-- The file is the same and the position has not moved back.
pub record Moves (r s : Reader) : Type 0 where
  pub same : s.bytes ≡ r.bytes
  pub forward : r.position ≤ s.position
  pub still : InFile s

-- Wherever the method succeeds, it leaves the reader in the file.
abbrev pub Advances : {A : Type 0} → Read A → Type 0
Advances {A} m = (r : Reader) (a : A) (s : Reader) → InFile r → m r ≡ ok (a, s) → Moves r s

Moves-trans : {r s t : Reader} → Moves r s → Moves s t → Moves r t
Moves-trans p q = record { same = q.same ∙ p.same; forward = omega arith; still = q.still }

pub pure-Advances : {A : Type 0} (a : A) → Advances (pure a)
pure-Advances a r b s i e = ground arith

pub fail-Advances : {A : Type 0} (e : Error) → Advances (fail {A = A} e)
fail-Advances e r b s i h = cc

pub lift-Advances : {A : Type 0} (m : Outcome A) → Advances (lift m)
lift-Advances (ok a) r b s i e = ground arith
lift-Advances (err x) r b s i e = cc

-- A chain that succeeds went through its first step: the proof goes on from the state there.
pub continue-ok {ℓ} :
    {A B : Type 0} {P : Type ℓ} (m : Outcome (A × Reader)) (f : A → Read B) {out : B × Reader}
    → continue m f ≡ ok out
    → ((a : A) (s : Reader) → m ≡ ok (a, s) → f a s ≡ ok out → P)
    → P
continue-ok (ok (a, s)) f e k = k a s refl e
continue-ok (err x) f e k = absurd (cc)

pub bind-Advances :
    {A B : Type 0} (m : Read A) (f : A → Read B)
    → Advances m
    → ((a : A) → Advances (f a))
    → Advances (m >>= f)
bind-Advances m f p q r b t i e =
    continue-ok (m r) f e
      λ a s e' e''. let first = p r a s i e' in Moves-trans first (q a s b t first.still e'')

pub reject-Advances : (b : Bool) (e : Error) → Advances (reject b e)
reject-Advances true e r u s i h = cc
reject-Advances false e r u s i h = ground arith

pub if-Advances :
    {A : Type 0} (b : Bool) (m n : Read A) → Advances m → Advances n → Advances (if b then m else n)
if-Advances true m n p q = p
if-Advances false m n p q = q

-- `require` passes exactly where n bytes are left.
pub require-ok :
    (n : ℕ) (what : String) (r : Reader) (u : Unit {0}) (s : Reader)
    → InFile r
    → require n what r ≡ ok (u, s)
    → (s ≡ r) × (r.position + n ≤ length r.bytes)
unfolding require
require-ok n what r u s i e = ground arith

bytes_at-Moves :
    (n : ℕ) (r s : Reader) (bs : List ℕ)
    → InFile r
    → r.position + n ≤ length r.bytes
    → bytes_at n r ≡ ok (bs, s)
    → Moves r s
unfolding bytes_at
bytes_at-Moves n r s bs i room e = ground arith

-- A block of n bytes that was asked for.
pub block-Advances : (n : ℕ) (what : String) → Advances (block n what)
unfolding block
block-Advances n what r bs s i e =
    continue-ok (require n what r) (λ _. bytes_at n) e
      λ u r' asked taken.
        let (same, room) = require-ok n what r u r' i asked in
        bytes_at-Moves n r s bs i room (rw same at taken)

pub read-Advances : (n : ℕ) (what : String) → Advances (read n what)
unfolding read
read-Advances n what =
    bind-Advances (block n what) (λ bs. pure (from_bytes bs)) (block-Advances n what)
      (λ bs. pure-Advances (from_bytes bs))

pub string-Advances : (what : String) → Advances (string what)
unfolding string
string-Advances what = bind-Advances (read 8 what) _ (read-Advances 8 what) λ len.
    bind-Advances _ _ (reject-Advances (ltb max_string_bytes len) _)
      λ _. bind-Advances _ _ (lift-Advances (checked_size len what)) λ n. block-Advances n what

pub ruleset advances = (
  bind-Advances, if-Advances, reject-Advances, read-Advances, string-Advances, lift-Advances,
  pure-Advances, fail-Advances,
)

-- A check that passed, and a value that was found without the reader.
pub check-ok :
    (b : Bool) (x : Error) (r : Reader) {u : Unit {0}} {s : Reader}
    → reject b x r ≡ ok (u, s)
    → b ≡ false
check-ok true x r e = cc
check-ok false x r e = refl

pub lift-ok :
    {A : Type 0} (m : Outcome A) (r : Reader) {a : A} {s : Reader} → lift m r ≡ ok (a, s) → m ≡ ok a
lift-ok (ok a) r e = ground arith
lift-ok (err x) r e = cc
