-- ===== src/Context/Match.antt =====
-- What check_match answers, and the invariant that its indexing relies on.
use native.Mathlib.Numerals.{add-one}
use miinfer.Prelude.{
  ℕ, zero, suc, ◌+◌, ◌≤◌, ◌<◌, ◌≡◌, ◌↔◌, refl, sym, ap, ap₂, ◌∙◌, ◌%◌, true, List, [], ◌∷◌, ◌++◌,
  ok, >>=-ok, ok-injective, subst, arith, length, list_eq, list_eq_refl, eq_of_list_eq,
  length-append, Option, some, none,
}
use miinfer.Device.{Hip}
use miinfer.Recurrent.{Recurrent}
use miinfer.Context.{
  exact_match, state_layout_version, same_prefix, Context, Checkpoint, token_sequence_hash,
  has_valid_prefix, new_context, clear, save, capture, check_match, capture_into,
}

same_prefix_shift :
    (n i x y : ℕ) (p c : List ℕ) → same_prefix n (i + 1) (x ∷ p) (y ∷ c) ≡ same_prefix n i p c
unfolding same_prefix
same_prefix_shift zero i x y p c = refl
same_prefix_shift (suc n) i x y p c = rw (same_prefix_shift n (i + 1) x y p c, add-one)

-- The loop compares the cached tokens with as many of the prompt.
pub same_prefix_iff :
    (c p : List ℕ)
    → length c ≤ length p
    → (same_prefix (length c) 0 p c ≡ true) ↔ ((rest : List ℕ) × (p ≡ c ++ rest))
unfolding same_prefix
same_prefix_iff [] p h = (λ _. (p, refl), λ _. refl)
same_prefix_iff (y ∷ c) [] h = absurd (omega arith)
same_prefix_iff (y ∷ c) (x ∷ p) h =
    let shift = same_prefix_shift (length c) 0 x y p c in
    let inner = same_prefix_iff c p (omega arith) in
    (
      (λ e.
          let first : x ≡ y = ground arith in
          let (rest, same) = inner.0 (ground arith) in (rest, ap₂ ◌∷◌ first same)),
      (λ (rest, same).
          let first : x ≡ y = cc in
          let others : p ≡ c ++ rest = cc in let tail = inner.1 (rest, others) in ground arith),
    )

module _ (hip : Hip) where
  -- What holds of every context: the fingerprint counts the cached tokens, and holds their hash where
  -- there is a token, and 0 where there is none.
  pub record IsConsistent (c : Context hip) : Type 0 where
    pub counted : c.fingerprint.prefix_length ≡ length c.cached_tokens
    pub layout : c.fingerprint.layout_version ≡ state_layout_version
    pub hashed :
        0 < c.fingerprint.prefix_length
        → c.fingerprint.token_hash ≡ token_sequence_hash c.cached_tokens
    pub unhashed : c.fingerprint.prefix_length ≡ 0 → c.fingerprint.token_hash ≡ 0

  pub new_context-IsConsistent : (m q : List ℕ) → IsConsistent (new_context hip m q)
  unfolding new_context
  new_context-IsConsistent m q = record {
    counted = refl;
    layout = refl;
    hashed = λ h. absurd (omega arith);
    unhashed = λ _. refl;
  }

  clear-IsConsistent : (c : Context hip) → IsConsistent c → IsConsistent (clear hip c)
  unfolding clear
  clear-IsConsistent c v = record {
    counted = refl;
    layout = v.layout;
    hashed = λ h. absurd (omega arith);
    unhashed = λ _. refl;
  }

  -- A successful save of fewer than 2 ^ 32 tokens.
  save-IsConsistent :
      (c c' : Context hip) (tokens : List ℕ) (active : List (Recurrent hip))
      → IsConsistent c
      → length tokens < 4294967296
      → save hip c tokens active ≡ ok c'
      → IsConsistent c'
  unfolding save
  save-IsConsistent c c' [] active v small e =
      subst IsConsistent (ok-injective e) (clear-IsConsistent c v)
  save-IsConsistent c c' (tok ∷ more) active v small e =
      >>=-ok (capture hip c.checkpoint active) _ e λ checkpoint _ e'.
        subst IsConsistent (ok-injective e') (record {
          counted = omega arith;
          layout = refl;
          hashed = λ _. refl;
          unhashed = λ h. absurd (omega arith);
        })

  -- The operations on a context.
  pub data Step : Context hip → Context hip → Type 0 where
    saves :
        (c c' : Context hip) (tokens : List ℕ) (active : List (Recurrent hip))
        → length tokens < 4294967296
        → save hip c tokens active ≡ ok c'
        → Step c c'
    clears : (c c' : Context hip) → c' ≡ clear hip c → Step c c'

  pub data Reach (start : Context hip) : Context hip → Type 0 where
    here : Reach start start
    next : {c c' : Context hip} → Reach start c → Step c c' → Reach start c'

  Step-IsConsistent : {c c' : Context hip} → Step c c' → IsConsistent c → IsConsistent c'
  Step-IsConsistent (saves c c' tokens active small e) v =
      save-IsConsistent c c' tokens active v small e
  Step-IsConsistent (clears c c' e) v = subst IsConsistent (sym e) (clear-IsConsistent c v)

  Reach-IsConsistent : {s c : Context hip} → IsConsistent s → Reach s c → IsConsistent c
  Reach-IsConsistent v here = v
  Reach-IsConsistent v (next r st) = Step-IsConsistent st (Reach-IsConsistent v r)

  -- However a context was saved, with fewer than 2 ^ 32 tokens each time, and cleared since it was
  -- made, its fingerprint counts the tokens that it holds, in the current layout; it has their hash
  -- where it holds a token, and 0 for the hash where it holds none.
  pub Reach-new_context-IsConsistent :
      (m q : List ℕ) (c : Context hip) → Reach (new_context hip m q) c → IsConsistent c
  Reach-new_context-IsConsistent m q c r = Reach-IsConsistent (new_context-IsConsistent m q) r

  -- check_match answers ExactMatch exactly where there is a valid prefix for the model and the
  -- quantization that are asked for, and the prompt begins with the cached tokens.
  pub check_match_iff :
      (c : Context hip) (prompt model_id quantization : List ℕ)
      → IsConsistent c
      → (check_match hip c prompt model_id quantization ≡ exact_match) ↔ (
          (has_valid_prefix hip c ≡ true)
          × (c.fingerprint.model_id ≡ model_id)
          × (c.fingerprint.quantization ≡ quantization)
          × (rest : List ℕ) × (prompt ≡ c.cached_tokens ++ rest))
  unfolding check_match
  check_match_iff c prompt m q v =
      let fp = c.fingerprint in
      let inner = same_prefix_iff c.cached_tokens prompt in
      (
        (λ e.
            let long : fp.prefix_length ≤ length prompt = ground arith in
            let walked : same_prefix fp.prefix_length 0 prompt c.cached_tokens ≡ true =
              ground arith in
            let (rest, begins) =
              (inner (omega (arith, v.counted))).0
                (subst (λ n. same_prefix n 0 prompt c.cached_tokens ≡ true) v.counted walked) in
            (
              ground arith,
              eq_of_list_eq fp.model_id m (ground arith),
              eq_of_list_eq fp.quantization q (ground arith),
              rest,
              begins,
            )),
        (λ (valid, same_model, same_quant, rest, begins).
            let long : length c.cached_tokens ≤ length prompt =
              omega (arith, ap length begins, length-append c.cached_tokens rest) in
            let walked : same_prefix fp.prefix_length 0 prompt c.cached_tokens ≡ true =
              subst (λ n. same_prefix n 0 prompt c.cached_tokens ≡ true) (sym v.counted)
                ((inner long).1 (rest, begins)) in
            let model : list_eq fp.model_id m ≡ true = rw same_model (list_eq_refl m) in
            let quant : list_eq fp.quantization q ≡ true = rw same_quant (list_eq_refl q) in
            ground (arith, v.layout, v.counted)),
      )

  has_valid_prefix_lem :
      (c : Context hip)
      → c.checkpoint.is_valid ≡ true
      → 0 < c.fingerprint.prefix_length
      → has_valid_prefix hip c ≡ true
  unfolding has_valid_prefix
  has_valid_prefix_lem c valid some_tokens = ground arith

  capture_into-is_valid :
      (c c' : Checkpoint hip) (active : List (Recurrent hip)) (s h : Option hip.Buffer)
      → capture_into hip c active s h ≡ ok c'
      → c'.is_valid ≡ true
  unfolding capture_into
  capture_into-is_valid c c' active none h e = ground arith
  capture_into-is_valid c c' active (some s) none e = ground arith
  capture_into-is_valid c c' active (some s) (some h) e =
      subst (λ d. d.is_valid ≡ true) (ok-injective e) refl

  capture-is_valid :
      (c c' : Checkpoint hip) (active : List (Recurrent hip))
      → capture hip c active ≡ ok c'
      → c'.is_valid ≡ true
  unfolding capture
  capture-is_valid c c' active e =
      capture_into-is_valid c c' active c.states c.conv_history (ground arith)

  -- After a save, every prompt that begins with the saved tokens is an ExactMatch for the model and
  -- the quantization of the context.
  pub save-check_match :
      (c c' : Context hip) (tokens rest : List ℕ) (active : List (Recurrent hip))
      → IsConsistent c
      → 0 < length tokens
      → length tokens < 4294967296
      → save hip c tokens active ≡ ok c'
      → check_match hip c' (tokens ++ rest) c.fingerprint.model_id c.fingerprint.quantization
        ≡ exact_match
  unfolding save
  save-check_match c c' [] rest active v some_tokens small e = absurd (omega arith)
  save-check_match c c' (tok ∷ more) rest active v some_tokens small e =
      >>=-ok (capture hip c.checkpoint active) _ e λ checkpoint captured e'.
        let kept = ok-injective e' in
        let valid = capture-is_valid c.checkpoint checkpoint active captured in
        let counted : c'.fingerprint.prefix_length ≡ length (tok ∷ more) % 4294967296 =
          sym (ap (λ d. d.fingerprint.prefix_length) kept) in
        let is_valid : c'.checkpoint.is_valid ≡ true =
          sym (ap (λ d. d.checkpoint.is_valid) kept) ∙ valid in
        (check_match_iff c' ((tok ∷ more) ++ rest) c.fingerprint.model_id c.fingerprint.quantization
            (save-IsConsistent c c' (tok ∷ more) active v small e)).1
          (
            has_valid_prefix_lem c' is_valid (omega arith),
            sym (ap (λ d. d.fingerprint.model_id) kept),
            sym (ap (λ d. d.fingerprint.quantization) kept),
            rest,
            ap (λ d. d.cached_tokens ++ rest) kept,
          )
