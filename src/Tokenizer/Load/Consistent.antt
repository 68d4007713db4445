-- ===== src/Tokenizer/Load/Consistent.antt =====
-- The ids of a loaded vocabulary lead back to its tokens.
use miinfer.Prelude.{
  ℕ, zero, suc, ◌+◌, ◌%◌, ◌≤◌, ◌≡◌, refl, ap, ◌∙◌, ◌⊎◌, inl, inr, some, List, [], ◌∷◌, ◌++◌, ok,
  guard, ◌&&◌, ◌||◌, >>=-ok, ok-injective, list_eq, eq_of_list_eq, length, length-append, get_elem?,
  arith, Bool-cases, subst, false,
}
use miinfer.Gguf.Types.{File, Scalar, unsigned, int, double, bool, str}
use miinfer.Gguf.Metadata.{metadata}
use miinfer.Tokenizer.Types.{Dictionary, find, emplace, Tokenizer}
use miinfer.Tokenizer.Encode.Ids.{IsConsistent}
use miinfer.Tokenizer.Load.{
  load_tokens, load, string_value, array_value, uint_value, bool_value, uint32_mod, load_merges,
  load_behind, unsupported_tokenizer, model_key, pre_key, tokens_key, merges_key, bos_token_id_key,
  eos_token_id_key, add_bos_token_key, add_eos_token_key, gpt2, qwen2, qwen35,
}

find-emplace :
    (entries : Dictionary) (key : List ℕ) (value : ℕ) (k : List ℕ) (v : ℕ)
    → find (emplace entries key value) k ≡ some v
    → (find entries k ≡ some v) ⊎ ((key ≡ k) × (value ≡ v))
unfolding find emplace
find-emplace [] key value k v h = elim (Bool-cases (list_eq key k)) [
  | inl same ↦ inr (eq_of_list_eq key k same, ground arith)
  | inr other ↦ absurd (ground arith)
]
find-emplace ((k2, v2) ∷ entries) key value k v h = elim (Bool-cases (list_eq k2 k)) [
  | inl same ↦ inl (ground arith)
  | inr other ↦
      let later : find (emplace entries key value) k ≡ some v = ground arith in
      elim (find-emplace entries key value k v later) [
        | inl there ↦ inl (ground arith)
        | inr added ↦ inr added
      ]
]

module _ {ℓ} {A : Type ℓ} where
  get_elem?-append :
      (xs ys : List A) (i : ℕ) (a : A) → get_elem? xs i ≡ some a → get_elem? (xs ++ ys) i ≡ some a
  get_elem?-append [] ys i a h = absurd (cc)
  get_elem?-append (x ∷ xs) ys zero a h = h
  get_elem?-append (x ∷ xs) ys (suc i) a h = get_elem?-append xs ys i a h

  get_elem?_last : (xs : List A) (a : A) → get_elem? (xs ++ (a ∷ [])) (length xs) ≡ some a
  get_elem?_last [] a = refl
  get_elem?_last (x ∷ xs) a = get_elem?_last xs a

-- What the loop over the tokens keeps.
LeadsBack : List (List ℕ) → Dictionary → Type 0
LeadsBack tokens ids =
    (token : List ℕ) (id : ℕ) → find ids token ≡ some id → get_elem? tokens id ≡ some token

load_tokens-grows :
    (id : ℕ) (tokens : List (List ℕ)) (ids : Dictionary) (values : List Scalar)
    (all_tokens : List (List ℕ)) (all_ids : Dictionary)
    → load_tokens id tokens ids values ≡ ok (all_tokens, all_ids)
    → length tokens ≤ length all_tokens
unfolding load_tokens
load_tokens-grows id tokens ids [] all_tokens all_ids h =
    omega (arith, ap (λ t. length t.0) (ok-injective h))
load_tokens-grows id tokens ids (str token ∷ values) all_tokens all_ids h =
    let grown =
      load_tokens-grows (id + 1) (tokens ++ (token ∷ [])) (emplace ids token (id % uint32_mod))
        values all_tokens all_ids h in
    omega (arith, length-append tokens (token ∷ []))
load_tokens-grows id tokens ids ((unsigned n) ∷ values) all_tokens all_ids h = absurd (cc)
load_tokens-grows id tokens ids ((int n) ∷ values) all_tokens all_ids h = absurd (cc)
load_tokens-grows id tokens ids ((double n) ∷ values) all_tokens all_ids h = absurd (cc)
load_tokens-grows id tokens ids ((bool n) ∷ values) all_tokens all_ids h = absurd (cc)

load_tokens-LeadsBack :
    (id : ℕ) (tokens : List (List ℕ)) (ids : Dictionary) (values : List Scalar)
    (all_tokens : List (List ℕ)) (all_ids : Dictionary)
    → load_tokens id tokens ids values ≡ ok (all_tokens, all_ids)
    → length tokens ≡ id
    → length all_tokens ≤ uint32_mod
    → LeadsBack tokens ids
    → LeadsBack all_tokens all_ids
unfolding load_tokens LeadsBack
load_tokens-LeadsBack id tokens ids [] all_tokens all_ids h sized room kept =
    subst (λ t. LeadsBack t.0 t.1) (ok-injective h) kept
load_tokens-LeadsBack id tokens ids (str token ∷ values) all_tokens all_ids h sized room kept =
    let longer = tokens ++ (token ∷ []) in
    let more = emplace ids token (id % uint32_mod) in
    let one_more : length longer ≡ id + 1 = omega (arith, length-append tokens (token ∷ [])) in
    let grown = load_tokens-grows (id + 1) longer more values all_tokens all_ids h in
    let next : LeadsBack longer more = λ k v e.
      elim (find-emplace ids token (id % uint32_mod) k v e) [
        | inl there ↦ get_elem?-append tokens (token ∷ []) v k (kept k v there)
        | inr (same, at) ↦
            let last : length tokens ≡ v = omega arith in
            subst (λ i. get_elem? longer i ≡ some k) last
              (get_elem?_last tokens token ∙ ap some same)
      ] in
    load_tokens-LeadsBack (id + 1) longer more values all_tokens all_ids h one_more room next
load_tokens-LeadsBack id tokens ids ((unsigned n) ∷ values) all_tokens all_ids h sized room kept =
    absurd (cc)
load_tokens-LeadsBack id tokens ids ((int n) ∷ values) all_tokens all_ids h sized room kept =
    absurd (cc)
load_tokens-LeadsBack id tokens ids ((double n) ∷ values) all_tokens all_ids h sized room kept =
    absurd (cc)
load_tokens-LeadsBack id tokens ids ((bool n) ∷ values) all_tokens all_ids h sized room kept =
    absurd (cc)

load_behind-lem :
    (file : File) (tokens : List (List ℕ)) (ids : Dictionary) (t : Tokenizer)
    → load_behind file tokens ids ≡ ok t
    → ◌≡◌ {A = List (List ℕ) × Dictionary} (tokens, ids) (t.tokens, t.token_to_id)
unfolding load_behind
load_behind-lem file tokens ids t h =
    >>=-ok (array_value merges_key (metadata file merges_key)) _ h λ merges _ h1.
      >>=-ok (load_merges 0 [] merges) _ h1 λ ranks _ h2.
        >>=-ok (uint_value bos_token_id_key (metadata file bos_token_id_key)) _ h2 λ bos _ h3.
          >>=-ok (uint_value eos_token_id_key (metadata file eos_token_id_key)) _ h3 λ eos _ h4.
            >>=-ok (bool_value add_bos_token_key false (metadata file add_bos_token_key)) _ h4
              λ add_bos _ h5.
                >>=-ok (bool_value add_eos_token_key false (metadata file add_eos_token_key)) _ h5
                  λ add_eos _ h6. ap (λ u. (u.tokens, u.token_to_id)) (ok-injective h6)

-- The loop over the tokens made the vocabulary of a tokenizer that was loaded.
load-load_tokens :
    (file : File) (t : Tokenizer)
    → load file ≡ ok t
    → (values : List Scalar) × (load_tokens 0 [] [] values ≡ ok (t.tokens, t.token_to_id))
unfolding load
load-load_tokens file t h =
    let supported = λ (model : List ℕ) (pre : List ℕ).
      list_eq model gpt2 && (list_eq pre qwen2 || list_eq pre qwen35) in
    >>=-ok (string_value (metadata file model_key)) _ h λ model _ h1.
      >>=-ok (string_value (metadata file pre_key)) _ h1 λ pre _ h2.
        >>=-ok (guard (supported model pre) unsupported_tokenizer) _ h2 λ _ _ h3.
          >>=-ok (array_value tokens_key (metadata file tokens_key)) _ h3 λ values _ h4.
            >>=-ok (load_tokens 0 [] [] values) _ h4
              λ (tokens, ids) e h5. (values, e ∙ ap ok (load_behind-lem file tokens ids t h5))

-- A tokenizer that was loaded, with no more tokens than an id can number, leads from each token of
-- its dictionary to an id and from there back to the token.
pub load-IsConsistent :
    (file : File) (t : Tokenizer) → load file ≡ ok t → length t.tokens ≤ uint32_mod → IsConsistent t
unfolding find LeadsBack
load-IsConsistent file t h room =
    let (values, loaded) = load-load_tokens file t h in
    load_tokens-LeadsBack 0 [] [] values t.tokens t.token_to_id loaded refl room
      (λ _ _ e. absurd (cc))
