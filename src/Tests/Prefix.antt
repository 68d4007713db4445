-- ===== src/Tests/Prefix.antt =====
-- A context that saves two tokens, in the memory of miinfer.Device.Concrete.
use miinfer.Prelude.{
  ℕ, zero, suc, ◌≡◌, ◌++◌, ◌↔◌, List, [], ◌∷◌, map, ok, true, arith, All, replicate,
  length-replicate,
}
use miinfer.Device.Concrete.{memory}
use miinfer.Recurrent.{Recurrent, construct, download}
use miinfer.Recurrent.Transfer.{IsValid, construct-IsValid}
use miinfer.Context.{
  Context, new_context, check_match, exact_match, has_valid_prefix, save, restore_gdn_states,
  gdn_layer_count,
}
use miinfer.Context.Match.{
  IsConsistent, here, next, saves, new_context-IsConsistent, check_match_iff, save-check_match,
  Reach-new_context-IsConsistent,
}
use miinfer.Context.Restore.{IsAllocated, new_context-IsAllocated, save-restore_gdn_states}

abbrev context : Context memory
context = new_context memory (1 ∷ []) (2 ∷ [])

abbrev layers : List (Recurrent memory)
layers = replicate gdn_layer_count (construct memory)

all-IsValid : (n : ℕ) → All (IsValid memory) (replicate n (construct memory))
all-IsValid zero = tt
all-IsValid (suc n) = (construct-IsValid memory, all-IsValid n)

saved :
    (c' : Context memory) × (save memory context (5 ∷ 6 ∷ []) layers ≡ ok c')
    × IsAllocated memory c'.checkpoint
    × (restored : List (Recurrent memory)) × (restore_gdn_states memory c' layers ≡ ok restored)
    × (map (download memory) restored ≡ map (download memory) layers)
    × All (λ s. s.position ≡ 2) restored
saved =
    save-restore_gdn_states memory context (5 ∷ 6 ∷ []) layers layers
      (new_context-IsAllocated memory (1 ∷ []) (2 ∷ [])) (omega arith) (omega arith)
      (length-replicate gdn_layer_count (construct memory))
      (length-replicate gdn_layer_count (construct memory)) (all-IsValid gdn_layer_count)
      (all-IsValid gdn_layer_count)

save-restore_gdn_states_example :
    (c' : Context memory) × (save memory context (5 ∷ 6 ∷ []) layers ≡ ok c')
    × IsAllocated memory c'.checkpoint
    × (restored : List (Recurrent memory)) × (restore_gdn_states memory c' layers ≡ ok restored)
    × (map (download memory) restored ≡ map (download memory) layers)
    × All (λ s. s.position ≡ 2) restored
save-restore_gdn_states_example =
    save-restore_gdn_states memory context (5 ∷ 6 ∷ []) layers layers
      (new_context-IsAllocated memory (1 ∷ []) (2 ∷ [])) (omega arith) (omega arith)
      (length-replicate gdn_layer_count (construct memory))
      (length-replicate gdn_layer_count (construct memory)) (all-IsValid gdn_layer_count)
      (all-IsValid gdn_layer_count)

save-check_match_example :
    check_match memory saved.0 ((5 ∷ 6 ∷ []) ++ 7 ∷ []) (1 ∷ []) (2 ∷ []) ≡ exact_match
unfolding new_context
save-check_match_example =
    save-check_match memory context saved.0 (5 ∷ 6 ∷ []) (7 ∷ []) layers
      (new_context-IsConsistent memory (1 ∷ []) (2 ∷ [])) (omega arith) (omega arith) saved.1

check_match_iff_example :
    (check_match memory saved.0 (5 ∷ 6 ∷ 7 ∷ []) (1 ∷ []) (2 ∷ []) ≡ exact_match) ↔ (
      (has_valid_prefix memory saved.0 ≡ true)
      × (saved.0.fingerprint.model_id ≡ 1 ∷ [])
      × (saved.0.fingerprint.quantization ≡ 2 ∷ [])
      × (rest : List ℕ) × (5 ∷ 6 ∷ 7 ∷ [] ≡ saved.0.cached_tokens ++ rest))
check_match_iff_example = check_match_iff memory saved.0 (5 ∷ 6 ∷ 7 ∷ []) (1 ∷ []) (2 ∷ []) (
    Reach-new_context-IsConsistent memory (1 ∷ []) (2 ∷ []) saved.0
      (next here (saves context saved.0 (5 ∷ 6 ∷ []) layers (omega arith) saved.1)))

Reach-new_context-IsConsistent_example : IsConsistent memory saved.0
Reach-new_context-IsConsistent_example =
    Reach-new_context-IsConsistent memory (1 ∷ []) (2 ∷ []) saved.0
      (next here (saves context saved.0 (5 ∷ 6 ∷ []) layers (omega arith) saved.1))
