-- ===== src/Tokenizer/Encode/Merging.antt =====
-- The merge loop of a piece.
use miinfer.Prelude.{
  ℕ, zero, suc, ◌≤◌, ◌<◌, ◌≡◌, refl, ap, sym, ◌∙◌, ◌⊎◌, inl, inr, none, some, Option-cases, List,
  [], ◌∷◌, ◌++◌, map, length, arith, join, All, append_assoc,
}
use miinfer.Tokenizer.Types.{Dictionary, find}
use miinfer.Tokenizer.Alphabet.{byte_encode}
use miinfer.Tokenizer.Alphabet.RoundTrip.{byte_encode-append}
use miinfer.Tokenizer.Encode.{
  merge_key, best_pair, best_from, merge_at, merge_once, merge_loop, merge,
}
use miinfer.Tokenizer.Encode.Best.{pair_rank, best_pair-lem}

pub merge_at-map :
    (i : ℕ) (parts : List (List ℕ))
    → merge_at i (map byte_encode parts) ≡ map byte_encode (merge_at i parts)
unfolding merge_at
merge_at-map i [] = refl
merge_at-map i (a ∷ []) = refl
merge_at-map zero (a ∷ b ∷ parts) =
    ap (λ t. t ∷ map byte_encode parts) (sym (byte_encode-append a b))
merge_at-map (suc i) (a ∷ b ∷ parts) = ap (◌∷◌ (byte_encode a)) (merge_at-map i (b ∷ parts))

pub join-merge_at : (i : ℕ) (parts : List (List ℕ)) → join (merge_at i parts) ≡ join parts
unfolding merge_at
join-merge_at i [] = refl
join-merge_at i (a ∷ []) = refl
join-merge_at zero (a ∷ b ∷ parts) = append_assoc a b (join parts)
join-merge_at (suc i) (a ∷ b ∷ parts) = ap (λ t. a ++ t) (join-merge_at i (b ∷ parts))

pair_rank-shorter :
    (ranks : Dictionary) (symbols : List (List ℕ)) (k r : ℕ)
    → pair_rank ranks symbols k ≡ some r
    → length (merge_at k symbols) < length symbols
unfolding pair_rank merge_at
pair_rank-shorter ranks [] k r h = absurd (cc)
pair_rank-shorter ranks (a ∷ []) k r h = absurd (cc)
pair_rank-shorter ranks (a ∷ b ∷ symbols) zero r h = omega arith
pair_rank-shorter ranks (a ∷ b ∷ symbols) (suc k) r h =
    omega (arith, pair_rank-shorter ranks (b ∷ symbols) k r h)

-- A round that merges takes one pair together; a round that does not finds no pair.
merge_once-lem :
    (ranks : Dictionary) (symbols : List (List ℕ))
    → ((merge_once ranks symbols ≡ none) × (best_pair ranks symbols ≡ none))
      ⊎ ((k : ℕ) × (merge_once ranks symbols ≡ some (merge_at k symbols))
          × (length (merge_at k symbols) < length symbols)
          × (r : ℕ) × (pair_rank ranks symbols k ≡ some r))
unfolding merge_once
merge_once-lem ranks symbols = elim (Option-cases (best_pair ranks symbols)) [
  | inl e ↦ inl (rw (merge_once, e) refl, e)
  | inr ((k, r), e) ↦
      let ranked = ((best_pair-lem ranks symbols).0 k r e).0 in
      inr (k, rw (merge_once, e) refl, pair_rank-shorter ranks symbols k r ranked, r, ranked)
]

merge_loop-Merged :
    (ranks : Dictionary) (fuel : ℕ) (symbols : List (List ℕ))
    → length symbols ≤ fuel
    → best_pair ranks (merge_loop ranks fuel symbols) ≡ none
unfolding merge_loop best_pair best_from
merge_loop-Merged ranks zero [] enough = refl
merge_loop-Merged ranks zero (a ∷ symbols) enough = absurd (omega arith)
merge_loop-Merged ranks (suc fuel) symbols enough = elim (merge_once-lem ranks symbols) [
  | inl (stop, nothing) ↦ rw (merge_loop, stop) nothing
  | inr (k, next, shorter, _, _) ↦
      rw (merge_loop, next) (merge_loop-Merged ranks fuel (merge_at k symbols) (omega arith))
]

-- The loop over a piece's symbols goes on until no pair of neighbours is a merge.
pub merge-Merged :
    (ranks : Dictionary) (symbols : List (List ℕ)) (k : ℕ)
    → pair_rank ranks (merge ranks symbols) k ≡ none
unfolding merge
merge-Merged ranks symbols =
    (best_pair-lem ranks (merge ranks symbols)).1
      (merge_loop-Merged ranks (length symbols) symbols (omega arith))

-- The loop keeps what the symbols stand for: they are pieces of the same bytes, encoded.
merge_loop-map :
    (ranks : Dictionary) (fuel : ℕ) (parts : List (List ℕ))
    → (merged : List (List ℕ)) × (merge_loop ranks fuel (map byte_encode parts)
        ≡ map byte_encode merged)
      × (join merged ≡ join parts)
unfolding merge_loop
merge_loop-map ranks zero parts = (parts, refl, refl)
merge_loop-map ranks (suc fuel) parts = elim (merge_once-lem ranks (map byte_encode parts)) [
  | inl (stop, _) ↦ (parts, rw (merge_loop, stop) refl, refl)
  | inr (k, next, _, _, _) ↦
      let (merged, same, whole) = merge_loop-map ranks fuel (merge_at k parts) in
      (merged, rw (merge_loop, next, merge_at-map k parts) same, whole ∙ join-merge_at k parts)
]

pub merge-map :
    (ranks : Dictionary) (parts : List (List ℕ))
    → (merged : List (List ℕ)) × (merge ranks (map byte_encode parts) ≡ map byte_encode merged)
      × (join merged ≡ join parts)
unfolding merge
merge-map ranks parts = merge_loop-map ranks (length (map byte_encode parts)) parts

merge_at-All :
    (P : List ℕ → Type 0) (ranks : Dictionary) (symbols : List (List ℕ)) (k r : ℕ)
    → ((a b : List ℕ) (rank : ℕ) → find ranks (merge_key a b) ≡ some rank → P (a ++ b))
    → pair_rank ranks symbols k ≡ some r
    → All P symbols
    → All P (merge_at k symbols)
unfolding pair_rank merge_at
merge_at-All P ranks [] k r merges ranked h = tt
merge_at-All P ranks (a ∷ []) k r merges ranked h = h
merge_at-All P ranks (a ∷ b ∷ symbols) zero r merges ranked (_, (_, h)) = (merges a b r ranked, h)
merge_at-All P ranks (a ∷ b ∷ symbols) (suc k) r merges ranked (here, h) =
    (here, merge_at-All P ranks (b ∷ symbols) k r merges ranked h)

merge_loop-All :
    (P : List ℕ → Type 0) (ranks : Dictionary) (fuel : ℕ) (symbols : List (List ℕ))
    → ((a b : List ℕ) (rank : ℕ) → find ranks (merge_key a b) ≡ some rank → P (a ++ b))
    → All P symbols
    → All P (merge_loop ranks fuel symbols)
unfolding merge_loop
merge_loop-All P ranks zero symbols merges h = h
merge_loop-All P ranks (suc fuel) symbols merges h = elim (merge_once-lem ranks symbols) [
  | inl (stop, _) ↦ rw (merge_loop, stop) h
  | inr (k, next, _, r, ranked) ↦
      rw (merge_loop, next)
        (merge_loop-All P ranks fuel (merge_at k symbols) merges
          (merge_at-All P ranks symbols k r merges ranked h))
]

-- What holds of the symbols of a piece and of every merge holds of the symbols at the end.
pub merge-All :
    (P : List ℕ → Type 0) (ranks : Dictionary) (symbols : List (List ℕ))
    → ((a b : List ℕ) (rank : ℕ) → find ranks (merge_key a b) ≡ some rank → P (a ++ b))
    → All P symbols
    → All P (merge ranks symbols)
unfolding merge
merge-All P ranks symbols = merge_loop-All P ranks (length symbols) symbols
