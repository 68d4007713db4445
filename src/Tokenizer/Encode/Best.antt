-- ===== src/Tokenizer/Encode/Best.antt =====
-- The pair that a round of the merge loop takes.
use miinfer.Prelude.{
  ℕ, zero, suc, ◌+◌, ◌≤◌, ◌<◌, ◌≡◌, refl, ap, sym, ◌∙◌, ◌⊎◌, inl, inr, Bool, true, false, Option,
  none, some, Option-cases, some-injective, List, [], ◌∷◌, arith, Bool-cases, ltb, if◌then◌else◌,
  ap₂, ltb→lt, dec_lt, ◌≢◌, subst,
}
use miinfer.Tokenizer.Types.{Dictionary, find}
use miinfer.Tokenizer.Encode.{merge_key, better, best_from, best_pair}

-- The rank of the pair at an index, none where the pair is no merge or there is no pair.
unfoldable pub pair_rank : Dictionary → List (List ℕ) → ℕ → Option ℕ
unfolding find merge_key
pair_rank ranks [] k = none
pair_rank ranks (a ∷ []) k = none
pair_rank ranks (a ∷ b ∷ symbols) zero = find ranks (merge_key a b)
pair_rank ranks (a ∷ b ∷ symbols) (suc k) = pair_rank ranks (b ∷ symbols) k

-- (j, r) comes before (k, s), or is the same: the rank decides, then the index.
abbrev pub Before : ℕ → ℕ → ℕ → ℕ → Type 0
Before j r k s = (r ≤ s) × (k < j → r < s)

pair-injective :
    (a b c d : ℕ) → ◌≡◌ {A = Option (ℕ × ℕ)} (some (a, b)) (some (c, d)) → (a ≡ c) × (b ≡ d)
pair-injective a b c d h = let e = some-injective h in (ap (λ t. t.0) e, ap (λ t. t.1) e)

abbrev choose : Bool → ℕ × ℕ → ℕ × ℕ → Option (ℕ × ℕ)
choose c new old = if c then some new else some old

choose-lem :
    (c : Bool) (i s b t j r : ℕ)
    → choose c (i, s) (b, t) ≡ some (j, r)
    → ((c ≡ true) × (i ≡ j) × (s ≡ r)) ⊎ ((c ≡ false) × (b ≡ j) × (t ≡ r))
choose-lem true i s b t j r h = let (p, q) = pair-injective i s j r h in inl (refl, p, q)
choose-lem false i s b t j r h = let (p, q) = pair-injective b t j r h in inr (refl, p, q)

better-cases :
    (best : Option (ℕ × ℕ)) (i : ℕ) (rank : Option ℕ) (j r : ℕ)
    → better best i rank ≡ some (j, r)
    → (best ≡ some (j, r)) ⊎ ((j ≡ i) × (rank ≡ some r))
unfolding better
better-cases best i none j r h = inl h
better-cases none i (some s) j r h = let (p, q) = pair-injective i s j r h in inr (sym p, ap some q)
better-cases (some (b, t)) i (some s) j r h = elim (choose-lem (ltb s t) i s b t j r h) [
  | inl (_, p, q) ↦ inr (sym p, ap some q)
  | inr (_, p, q) ↦ inl (ap₂ (λ x y. some (x, y)) p q)
]

-- What the loop finds is the pair it began with or one that it looked at.
best_from-origin :
    (ranks : Dictionary) (i : ℕ) (best : Option (ℕ × ℕ)) (symbols : List (List ℕ)) (j r : ℕ)
    → best_from ranks i best symbols ≡ some (j, r)
    → (best ≡ some (j, r)) ⊎ ((k : ℕ) × (j ≡ i + k) × (pair_rank ranks symbols k ≡ some r))
unfolding best_from pair_rank
best_from-origin ranks i best [] j r h = inl h
best_from-origin ranks i best (a ∷ []) j r h = inl h
best_from-origin ranks i best (a ∷ b ∷ symbols) j r h =
    let rank = find ranks (merge_key a b) in
    elim (best_from-origin ranks (i + 1) (better best i rank) (b ∷ symbols) j r h) [
      | inr (k, at, same) ↦ inr (suc k, omega arith, same)
      | inl kept ↦ elim (better-cases best i rank j r kept) [
        | inl before ↦ inl before
        | inr (first, same) ↦ inr (0, omega arith, same)
      ]
    ]

-- The better of two pairs is before both.
better-Before :
    (best : Option (ℕ × ℕ)) (i : ℕ) (rank : Option ℕ) (j r : ℕ)
    → ((b t : ℕ) → best ≡ some (b, t) → b < i)
    → better best i rank ≡ some (j, r)
    → ((b t : ℕ) → best ≡ some (b, t) → Before j r b t) × ((s : ℕ) → rank ≡ some s → Before j r i s)
unfolding better
better-Before best i none j r below h = (
  λ b t e. let (p, q) = pair-injective j r b t (sym h ∙ e) in (omega arith, λ lower. omega arith),
  λ s e. absurd (cc),
)
better-Before none i (some s) j r below h =
    let (p, q) = pair-injective i s j r h in
    (
      λ b t e. absurd (cc),
      λ u e. let same = some-injective e in (omega arith, λ lower. omega arith),
    )
better-Before (some (b, t)) i (some s) j r below h =
    let under = below b t refl in
    elim (choose-lem (ltb s t) i s b t j r h) [
      | inl (less, p, q) ↦
          let lt = ltb→lt s t less in
          (
            λ b2 t2 e.
                let (p2, q2) = pair-injective b t b2 t2 e in (omega arith, λ lower. omega arith),
            λ u e. let same = some-injective e in (omega arith, λ lower. omega arith),
          )
      | inr (more, p, q) ↦
          let le : t ≤ s = ground arith in
          (
            λ b2 t2 e.
                let (p2, q2) = pair-injective b t b2 t2 e in (omega arith, λ lower. omega arith),
            λ u e. let same = some-injective e in (omega arith, λ lower. omega arith),
          )
    ]

Before-trans : (j r x y b t : ℕ) → Before j r x y → Before x y b t → Before j r b t
Before-trans j r x y b t (le1, strict1) (le2, strict2) = (
  omega arith,
  λ lower. elim (dec_lt b x) [
    | yes under ↦ let lt = strict2 under in omega arith
    | no over ↦ let lt = strict1 (omega arith) in omega arith
  ],
)

better-none :
    (best : Option (ℕ × ℕ)) (i : ℕ) (rank : Option ℕ)
    → better best i rank ≡ none
    → (best ≡ none) × (rank ≡ none)
unfolding better
better-none best i none h = (h, refl)
better-none none i (some s) h = absurd (cc)
better-none (some (b, t)) i (some s) h = elim (Bool-cases (ltb s t)) [
  | inl e ↦ absurd (ground arith)
  | inr e ↦ absurd (ground arith)
]

-- The loop finds the pair of the lowest rank, and the first of those.
best_from-Before :
    (ranks : Dictionary) (i : ℕ) (best : Option (ℕ × ℕ)) (symbols : List (List ℕ)) (j r : ℕ)
    → ((b t : ℕ) → best ≡ some (b, t) → b < i)
    → best_from ranks i best symbols ≡ some (j, r)
    → ((b t : ℕ) → best ≡ some (b, t) → Before j r b t)
      × ((k s : ℕ) → pair_rank ranks symbols k ≡ some s → Before j r (i + k) s)
unfolding best_from pair_rank
best_from-Before ranks i best [] j r below h = (
  λ b t e. let (p, q) = pair-injective j r b t (sym h ∙ e) in (omega arith, λ lower. omega arith),
  λ k s e. absurd (cc),
)
best_from-Before ranks i best (a ∷ []) j r below h = (
  λ b t e. let (p, q) = pair-injective j r b t (sym h ∙ e) in (omega arith, λ lower. omega arith),
  λ k s e. absurd (cc),
)
best_from-Before ranks i best (a ∷ b ∷ symbols) j r below h =
    let rank = find ranks (merge_key a b) in
    let next = better best i rank in
    let under : (x y : ℕ) → next ≡ some (x, y) → x < i + 1 = λ x y e.
      elim (better-cases best i rank x y e) [
        | inl before ↦ let lt = below x y before in omega arith
        | inr (at, _) ↦ omega arith
      ] in
    let (kept, others) = best_from-Before ranks (i + 1) next (b ∷ symbols) j r under h in
    let through : (c u : ℕ)
        → ((x y : ℕ) → next ≡ some (x, y) → Before x y c u)
        → (next ≢ none)
        → Before j r c u =
      λ c u first found. elim (Option-cases next) [
        | inl nothing ↦ absurd (found nothing)
        | inr ((x, y), e) ↦ Before-trans j r x y c u (kept x y e) (first x y e)
      ] in
    (
      λ c u e.
          through c u (λ x y e2. (better-Before best i rank x y below e2).0 c u e)
            (λ nothing. let gone = better-none best i rank nothing in absurd (cc)),
      λ k.
          elim k
            as (λ k.
              (s : ℕ) → pair_rank ranks (a ∷ b ∷ symbols) k ≡ some s → Before j r (i + k) s) [
                | zero ↦ λ s e.
                    subst (λ n. Before j r n s) (omega arith)
                      (through i s (λ x y e2. (better-Before best i rank x y below e2).1 s e)
                        (λ nothing. let gone = better-none best i rank nothing in absurd (cc)))
                | suc k ↦ λ s e. subst (λ n. Before j r n s) (omega arith) (others k s e)
              ],
    )

best_from-none :
    (ranks : Dictionary) (i : ℕ) (best : Option (ℕ × ℕ)) (symbols : List (List ℕ))
    → best_from ranks i best symbols ≡ none
    → (best ≡ none) × ((k : ℕ) → pair_rank ranks symbols k ≡ none)
unfolding best_from pair_rank
best_from-none ranks i best [] h = (h, λ k. refl)
best_from-none ranks i best (a ∷ []) h = (h, λ k. refl)
best_from-none ranks i best (a ∷ b ∷ symbols) h =
    let rank = find ranks (merge_key a b) in
    let (gone, others) = best_from-none ranks (i + 1) (better best i rank) (b ∷ symbols) h in
    let (first, here) = better-none best i rank gone in
    (
      first,
      λ k. elim k as (λ k. pair_rank ranks (a ∷ b ∷ symbols) k ≡ none) [
        | zero ↦ here
        | suc k ↦ others k
      ],
    )

pub best_pair-lem :
    (ranks : Dictionary) (symbols : List (List ℕ))
    → ((j r : ℕ)
        → best_pair ranks symbols ≡ some (j, r)
        → (pair_rank ranks symbols j ≡ some r)
          × ((k s : ℕ) → pair_rank ranks symbols k ≡ some s → Before j r k s))
      × (best_pair ranks symbols ≡ none → (k : ℕ) → pair_rank ranks symbols k ≡ none)
unfolding best_pair
best_pair-lem ranks symbols = (
  λ j r h.
      let (_, least) = best_from-Before ranks 0 none symbols j r (λ b t e. absurd (cc)) h in
      (
        elim (best_from-origin ranks 0 none symbols j r h) [
          | inl nothing ↦ absurd (cc)
          | inr (k, at, same) ↦
              let e : k ≡ j = omega arith in subst (λ n. pair_rank ranks symbols n ≡ some r) e same
        ],
        λ k s e. subst (λ n. Before j r n s) (omega arith) (least k s e),
      ),
  λ h. (best_from-none ranks 0 none symbols h).1,
)

-- A pair of neighbours that is a merge, with no merge of a lower rank and none of the same rank
-- further in front; or no pair that is a merge.
abbrev pub IsBest : Dictionary → List (List ℕ) → Option (ℕ × ℕ) → Type 0
IsBest ranks symbols none = (k : ℕ) → pair_rank ranks symbols k ≡ none
IsBest ranks symbols (some (j, r)) =
    (pair_rank ranks symbols j ≡ some r)
    × ((k s : ℕ) → pair_rank ranks symbols k ≡ some s → (r < s) ⊎ ((r ≡ s) × (j ≤ k)))

in_front : (j r k s : ℕ) → Before j r k s → (r < s) ⊎ ((r ≡ s) × (j ≤ k))
in_front j r k s (le, strict) = elim (dec_lt r s) [
  | yes less ↦ inl less
  | no same ↦ elim (dec_lt k j) [
    | yes lower ↦ inl (strict lower)
    | no higher ↦ inr (omega arith, omega arith)
  ]
]

-- The pair that a round of the merge loop takes is a merge of neighbours, and no other merge of
-- neighbours has a lower rank, nor the same rank further in front; where the round takes none, no
-- pair of neighbours is a merge.
pub best_pair-IsBest :
    (ranks : Dictionary) (symbols : List (List ℕ)) → IsBest ranks symbols (best_pair ranks symbols)
best_pair-IsBest ranks symbols = elim (Option-cases (best_pair ranks symbols)) [
  | inl nothing ↦
      subst (IsBest ranks symbols) (sym nothing) ((best_pair-lem ranks symbols).1 nothing)
  | inr ((j, r), e) ↦
      let (ranked, least) = (best_pair-lem ranks symbols).0 j r e in
      subst (IsBest ranks symbols) (sym e) (ranked, λ k s shown. in_front j r k s (least k s shown))
]
