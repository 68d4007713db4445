-- ===== src/Device/Concrete.antt =====
-- Memory as a function of the address: a model of what HIP promises, which shows that it can hold.
use miinfer.Prelude.{
  ℕ, zero, suc, ◌+◌, ◌≤◌, ◌<◌, ◌≡◌, refl, ◌∙◌, ap, ap₂, ◌⊎◌, inl, List, [], ◌∷◌, arith, ltb, ◌==◌,
  if◌then◌else◌, length, replicate,
}
use miinfer.Device.{Hip}

pub record Block : Type 0 where
  pub extent : ℕ
  pub at : ℕ → ℕ

unfoldable pub collect : (ℕ → ℕ) → ℕ → ℕ → List ℕ
collect f o zero = []
collect f o (suc n) = f o ∷ collect f (o + 1) n

unfoldable pub store : (ℕ → ℕ) → ℕ → List ℕ → ℕ → ℕ
store f o [] p = f p
store f o (x ∷ xs) p = store (λ q. if q == o then x else f q) (o + 1) xs p

pub length-collect : (f : ℕ → ℕ) (o n : ℕ) → length (collect f o n) ≡ n
unfolding collect
length-collect f o zero = refl
length-collect f o (suc n) = ap suc (length-collect f (o + 1) n)

store_apart :
    (f : ℕ → ℕ) (o p : ℕ) (xs : List ℕ) → (p < o) ⊎ (o + length xs ≤ p) → store f o xs p ≡ f p
unfolding store
store_apart f o p [] h = refl
store_apart f o p (x ∷ xs) h =
    ground (arith, store_apart (λ q. if q == o then x else f q) (o + 1) p xs)

collect_agree :
    (f g : ℕ → ℕ) (o n : ℕ)
    → ((p : ℕ) → o ≤ p → p < o + n → f p ≡ g p)
    → collect f o n ≡ collect g o n
unfolding collect
collect_agree f g o zero h = refl
collect_agree f g o (suc n) h =
    ap₂ ◌∷◌ (h o (omega arith) (omega arith))
      (collect_agree f g (o + 1) n (λ p lo hi. h p (omega arith) (omega arith)))

collect-store : (f : ℕ → ℕ) (o : ℕ) (xs : List ℕ) → collect (store f o xs) o (length xs) ≡ xs
unfolding collect store
collect-store f o [] = refl
collect-store f o (x ∷ xs) =
    ap₂ ◌∷◌
      (store_apart (λ q. if q == o then x else f q) (o + 1) o xs (inl (omega arith)) ∙ ground arith)
      (collect-store (λ q. if q == o then x else f q) (o + 1) xs)

zeros : (f : ℕ → ℕ) (o n : ℕ) → ((p : ℕ) → p < o + n → f p ≡ 0) → collect f o n ≡ replicate n 0
unfolding collect
zeros f o zero h = refl
zeros f o (suc n) h = ap₂ ◌∷◌ (h o (omega arith)) (zeros f (o + 1) n (λ p lt. h p (omega arith)))

abbrev cleared : Block → ℕ → Block
cleared b m = record b { at = λ p. if ltb p m then 0 else b.at p }

pub read-cleared :
    (b : Block) (m o n : ℕ)
    → m ≤ b.extent
    → o + n ≤ m
    → collect (cleared b m).at o n ≡ replicate n 0
read-cleared b m o n _ h = zeros (cleared b m).at o n (λ p lt. ground arith)

pub read-stored :
    (b : Block) (o n : ℕ) (xs : List ℕ)
    → length xs ≡ n
    → o + n ≤ b.extent
    → collect (store b.at o xs) o n ≡ xs
read-stored b o n xs e _ = rw (← e) (collect-store b.at o xs)

pub read-stored_apart :
    (b : Block) (o p n : ℕ) (xs : List ℕ)
    → o + length xs ≤ b.extent
    → (p + n ≤ o) ⊎ (o + length xs ≤ p)
    → collect (store b.at o xs) p n ≡ collect b.at p n
read-stored_apart b o p n xs _ h =
    collect_agree (store b.at o xs) b.at p n (λ q lo hi. store_apart b.at o q xs (omega arith))

-- Fresh memory holds 165 everywhere.
abbrev pub memory : Hip
memory = record {
  Buffer = Block;
  size = λ b. b.extent;
  malloc = λ n. record { extent = n; at = λ _. 165 };
  clear = cleared;
  read = λ b o n. collect b.at o n;
  write = λ b o xs. record b { at = store b.at o xs };
  size-malloc = λ n. refl;
  size-clear = λ b n. refl;
  size-write = λ b o xs. refl;
  length-read = λ b o n _. length-collect b.at o n;
  read-clear = read-cleared;
  read-write = read-stored;
  read-write_apart = read-stored_apart;
}
