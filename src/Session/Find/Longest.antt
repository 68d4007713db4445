-- ===== src/Session/Find/Longest.antt =====
-- The search returns a longest session that the prompt begins with.
use miinfer.Prelude.{
  ℕ, zero, suc, ◌<◌, ◌≤◌, ◌≡◌, refl, sym, ap, subst, ◌∙◌, true, Option, some, none, some-injective,
  List, [], ◌∷◌, ◌++◌, ok, >>=-ok, ok-injective, arith, length, drop, replicate, list_eq,
  list_eq_refl, ◌==◌, false, not, ◌||◌, ◌*◌, length-append, eq_of_list_eq, All, All-mono, ltb,
  if◌then◌else◌, inl, inr, ◌⊎◌, Bool-cases,
}
use miinfer.Context.{same_prefix}
use miinfer.Context.Match.{same_prefix_iff}
use miinfer.Session.Header.{Header, model_view, quantization_view}
use miinfer.Session.Save.{Disk, lookup}
use miinfer.Session.Load.{
  is_session, stream_read, inspect_file, inspect_stream, name_is, words, read_tokens, read_header,
  with_tokens, fill_tokens, inspect_header,
}
use miinfer.Session.Find.{
  Entry, offer, offer_of, offer_found, session_extension, Best, search_entries,
  find_matching_session,
}

name_is-ok : (view : Option (List ℕ)) (s : List ℕ) → name_is view s ≡ ok true → view ≡ some s
unfolding name_is
name_is-ok none s e = ground arith
name_is-ok (some view) s e = ap some (eq_of_list_eq view s (ok-injective e))

length-words : (n : ℕ) (bytes : List ℕ) → length (words n bytes) ≡ n
unfolding words
length-words zero bytes = refl
length-words (suc n) bytes = ap suc (length-words n (drop 4 bytes))

fill_tokens-length :
    (n : ℕ) (got : Option (List ℕ × List ℕ)) (tokens rest : List ℕ)
    → fill_tokens n got ≡ some (tokens, rest)
    → length tokens ≡ n
unfolding fill_tokens
fill_tokens-length n none tokens rest e = ground arith
fill_tokens-length n (some (got, left)) tokens rest e =
    ap length (sym (ap (λ p. p.0) (some-injective e))) ∙ length-words n (got ++ replicate (n * 4) 0)

read_tokens-length :
    (n bytes : ℕ) (stream tokens rest : List ℕ)
    → read_tokens n bytes stream ≡ ok (some (tokens, rest))
    → length tokens ≡ n
unfolding read_tokens
read_tokens-length n bytes stream tokens rest e = elim (Bool-cases (ltb (n * 4) bytes)) [
  | inl over ↦ absurd (ground (arith, rw over at e))
  | inr fits ↦
      fill_tokens-length n (stream_read bytes stream) tokens rest (ok-injective (rw fits at e))
]

with_tokens-shape :
    (h h' : Header) (got : Option (List ℕ × List ℕ)) (tokens : List ℕ)
    → with_tokens h got ≡ some (h', tokens)
    → (h' ≡ h) × (rest : List ℕ) × (got ≡ some (tokens, rest))
unfolding with_tokens
with_tokens-shape h h' none tokens e = ground arith
with_tokens-shape h h' (some (ts, rest)) tokens e =
    let same = some-injective e in (sym (ap (λ p. p.0) same), rest, ap (λ p. some (p.1, rest)) same)

-- The tokens that are inspected are as many as the header says.
inspect_header-length :
    (got : Option (Header × List ℕ)) (tokens : List ℕ) (h : Header)
    → inspect_header got ≡ ok (some (h, tokens))
    → length tokens ≡ h.prefix_length
unfolding inspect_header
inspect_header-length none tokens h e = ground arith
inspect_header-length (some (g, rest)) tokens h e = elim (Bool-cases (is_session g)) [
  | inr other ↦ absurd (ground (arith, rw other at e))
  | inl right ↦ elim (Bool-cases (ltb 0 g.prefix_length)) [
    | inr empty ↦
        let same : some (g, []) ≡ some (h, tokens) = ok-injective (rw (right, empty) at e) in
        let header : g ≡ h = ap (λ p. p.0) (some-injective same) in
        let none_left : [] ≡ tokens = ap (λ p. p.1) (some-injective same) in
        rw (← none_left, ← header) ground arith
    | inl there ↦
        >>=-ok (read_tokens g.prefix_length g.tokens_bytes rest) _ (rw (right, there) at e)
          λ got filled e1.
            let (header, left, shape) = with_tokens-shape g h got tokens (ok-injective e1) in
            rw header (
              read_tokens-length g.prefix_length g.tokens_bytes rest tokens left
                (filled ∙ ap ok shape))
  ]
]

inspect_stream-length :
    (stream : Option (List ℕ)) (tokens : List ℕ) (h : Header)
    → inspect_stream stream ≡ ok (some (h, tokens))
    → length tokens ≡ h.prefix_length
unfolding inspect_stream
inspect_stream-length none tokens h e = ground arith
inspect_stream-length (some stream) tokens h e =
    inspect_header-length (read_header stream) tokens h e

module _ (disk : Disk) (model_id quantization prompt : List ℕ) where
  -- No offer of the entries is longer than the best.
  record IsBest (start best : Best) (entries : List Entry) : Type 0 where
    longer : start.1 ≤ best.1
    bounds :
        All
          (λ entry. (n : ℕ) × (offer disk model_id quantization prompt entry ≡ ok n) × (n ≤ best.1))
          entries

  search_entries-IsBest :
      (entries : List Entry) (start best : Best)
      → search_entries disk model_id quantization prompt start entries ≡ ok best
      → IsBest start best entries
  unfolding search_entries
  search_entries-IsBest [] start best e = record {
    longer = omega (arith, ap (λ b. b.1) (ok-injective e));
    bounds = tt;
  }
  search_entries-IsBest (entry ∷ rest) start best e =
      >>=-ok (offer disk model_id quantization prompt entry) _ e λ n offered e1.
        let later =
          search_entries-IsBest rest (if ltb start.1 n then (entry.path, n) else start) best e1 in
        let bounded : (start.1 ≤ best.1) × (n ≤ best.1) = ground (arith, later.longer) in
        record { longer = bounded.0; bounds = ((n, offered, bounded.1), later.bounds) }

  -- Where the path and the length of the best come from.
  abbrev pub Chosen : Best → List Entry → Type 0
  Chosen best entries =
      (before : List Entry) × (entry : Entry) × (after : List Entry) × (entries
        ≡ before ++ entry ∷ after)
      × (entry.path ≡ best.0)
      × (offer disk model_id quantization prompt entry ≡ ok best.1)

  search_entries-Chosen :
      (entries : List Entry) (start best : Best)
      → search_entries disk model_id quantization prompt start entries ≡ ok best
      → (best ≡ start) ⊎ Chosen best entries
  unfolding search_entries
  search_entries-Chosen [] start best e = inl (sym (ok-injective e))
  search_entries-Chosen (entry ∷ rest) start best e =
      >>=-ok (offer disk model_id quantization prompt entry) _ e λ n offered e1.
        elim (search_entries-Chosen rest (if ltb start.1 n then (entry.path, n) else start) best
          e1) [
            | inr (before, found, after, shape, path, given) ↦
                inr (entry ∷ before, found, after, ap (◌∷◌ entry) shape, path, given)
            | inl same ↦ elim (Bool-cases (ltb start.1 n)) [
              | inr shorter ↦ inl (same ∙ rw shorter refl)
              | inl longer ↦
                  let taken : best ≡ (entry.path, n) = same ∙ rw longer refl in
                  inr (
                    [],
                    entry,
                    rest,
                    refl,
                    sym (ap (λ b. b.0) taken),
                    offered ∙ ap ok (sym (ap (λ b. b.1) taken)),
                  )
            ]
          ]

  -- The entry is a session of n tokens for the model and the quantization, and the prompt begins with
  -- its tokens.
  pub record IsOffered (entry : Entry) (n : ℕ) : Type 0 where
    pub regular : entry.is_regular_file ≡ true
    pub named : entry.extension ≡ session_extension
    pub header : Header
    pub tokens : List ℕ
    pub rest : List ℕ
    pub inspected : inspect_file disk entry.path ≡ ok (some (header, tokens))
    pub for_model : model_view header ≡ some model_id
    pub for_quantization : quantization_view header ≡ some quantization
    pub counted : length tokens ≡ n
    pub begins : prompt ≡ tokens ++ rest

  offer_of-ok :
      (h : Header) (tokens : List ℕ) (n : ℕ)
      → offer_of h tokens model_id quantization prompt ≡ ok n
      → 0 < n
      → (model_view h ≡ some model_id)
        × (quantization_view h ≡ some quantization)
        × (n ≡ h.prefix_length)
        × (h.prefix_length ≤ length prompt)
        × (same_prefix h.prefix_length 0 prompt tokens ≡ true)
  unfolding offer_of
  offer_of-ok h tokens n e pos = >>=-ok (name_is (model_view h) model_id) _ e λ same named e1.
      elim (Bool-cases same) [
        | inr differs ↦ absurd (ground (arith, rw differs at e1))
        | inl agrees ↦
            >>=-ok (name_is (quantization_view h) quantization) _ (rw agrees at e1)
              λ same' named' e2. (
                name_is-ok (model_view h) model_id (named ∙ ap ok agrees),
                name_is-ok (quantization_view h) quantization (named' ∙ ap ok (ground arith)),
                ground arith,
                ground arith,
                ground arith,
              )
      ]

  offer_found-IsOffered :
      (entry : Entry) (n : ℕ) (found : Option (Header × List ℕ))
      → entry.is_regular_file ≡ true
      → entry.extension ≡ session_extension
      → inspect_file disk entry.path ≡ ok found
      → offer_found found model_id quantization prompt ≡ ok n
      → 0 < n
      → IsOffered entry n
  unfolding offer_found inspect_file
  offer_found-IsOffered entry n none regular named read e pos = absurd (ground arith)
  offer_found-IsOffered entry n (some (h, tokens)) regular named read e pos =
      let (model, quant, same, long, walked) = offer_of-ok h tokens n e pos in
      let counted = inspect_stream-length (lookup entry.path disk) tokens h read in
      let (rest, begins) =
        (same_prefix_iff tokens prompt (omega arith)).0
          (subst (λ m. same_prefix m 0 prompt tokens ≡ true) (sym counted) walked) in
      record {
        regular = regular;
        named = named;
        header = h;
        tokens = tokens;
        rest = rest;
        inspected = read;
        for_model = model;
        for_quantization = quant;
        counted = counted ∙ sym same;
        begins = begins;
      }

  -- Where the code offers tokens of a file, it is such a session.
  offer-IsOffered :
      (entry : Entry) (n : ℕ)
      → offer disk model_id quantization prompt entry ≡ ok n
      → 0 < n
      → IsOffered entry n
  unfolding offer
  offer-IsOffered entry n e pos =
      elim (Bool-cases
        (not entry.is_regular_file || not (list_eq entry.extension session_extension))) [
          | inl skipped ↦ absurd (ground (arith, rw skipped at e))
          | inr taken ↦
              let regular : entry.is_regular_file ≡ true = ground arith in
              let named : entry.extension ≡ session_extension =
                eq_of_list_eq entry.extension session_extension (ground arith) in
              >>=-ok (inspect_file disk entry.path) _ (rw taken at e)
                λ found read e1. offer_found-IsOffered entry n found regular named read e1 pos
        ]

  usable : (n m : ℕ) → 0 < n → n ≤ m → ((n == 0) || ltb m n) ≡ false
  usable n m pos fits = ground arith

  -- Every such session is offered, with all of its tokens.
  IsOffered-offer :
      (entry : Entry) (n : ℕ)
      → 0 < n
      → IsOffered entry n
      → offer disk model_id quantization prompt entry ≡ ok n
  unfolding offer offer_found offer_of name_is inspect_file
  IsOffered-offer entry n pos o =
      let h = o.header in
      let size : h.prefix_length ≡ n =
        sym (inspect_stream-length (lookup entry.path disk) o.tokens h o.inspected) ∙ o.counted in
      let long : length o.tokens ≤ length prompt =
        omega (arith, ap length o.begins, length-append o.tokens o.rest) in
      let walked : same_prefix h.prefix_length 0 prompt o.tokens ≡ true =
        subst (λ m. same_prefix m 0 prompt o.tokens ≡ true) (o.counted ∙ sym size)
          ((same_prefix_iff o.tokens prompt long).1 (o.rest, o.begins)) in
      let right : list_eq entry.extension session_extension ≡ true =
        rw o.named (list_eq_refl session_extension) in
      let tested =
        usable h.prefix_length (length prompt) (omega arith)
          (omega (arith, size, o.counted, long)) in
      rw
        (
          o.regular,
          right,
          o.inspected,
          o.for_model,
          list_eq_refl model_id,
          o.for_quantization,
          list_eq_refl quantization,
          tested,
          walked,
          size,
        )
        refl

  -- The entry is no such session of more than k tokens.
  abbrev pub NotLonger : ℕ → Entry → Type 0
  NotLonger k entry = ¬ ((n : ℕ) × (k < n) × IsOffered entry n)

  bounded-NotLonger :
      (k : ℕ) (entry : Entry)
      → (n : ℕ) × (offer disk model_id quantization prompt entry ≡ ok n) × (n ≤ k)
      → NotLonger k entry
  bounded-NotLonger k entry (n, given, bounded) (m, more, session) =
      let same : n ≡ m = ok-injective (sym given ∙ IsOffered-offer entry m (omega arith) session) in
      absurd (omega arith)

  -- What an answer means: the path is that of a listed entry that is a session for the model whose
  -- tokens begin the prompt, and no listed entry is one with more tokens; without an answer none is
  -- one with any.
  pub record IsLongest (entries : List Entry) (best : Best) : Type 0 where
    pub positive : 0 < best.1
    pub before : List Entry
    pub entry : Entry
    pub after : List Entry
    pub listed : entries ≡ before ++ entry ∷ after
    pub path : entry.path ≡ best.0
    pub session : IsOffered entry best.1
    pub bounds : All (NotLonger best.1) entries

  abbrev pub IsAnswer : List Entry → Option Best → Type 0
  IsAnswer entries (some best) = IsLongest entries best
  IsAnswer entries none = All (NotLonger 0) entries

  answer :
      (entries : List Entry) (best : Best)
      → search_entries disk model_id quantization prompt ([], 0) entries ≡ ok best
      → IsAnswer entries (if ltb 0 best.1 then some best else none)
  answer entries best e =
      let top = search_entries-IsBest entries ([], 0) best e in
      let bounds = All-mono _ _ (bounded-NotLonger best.1) entries top.bounds in
      elim (Bool-cases (ltb 0 best.1)) [
        | inr nothing ↦
            let empty : best.1 ≡ 0 = ground arith in
            rw nothing (subst (λ k. All (NotLonger k) entries) empty bounds)
        | inl something ↦ rw something (
            let pos : 0 < best.1 = ground arith in
            elim (search_entries-Chosen entries ([], 0) best e) [
              | inl start ↦ absurd (omega (arith, ap (λ b. b.1) start))
              | inr (before, entry, after, listed, path, given) ↦ record {
                positive = pos;
                before = before;
                entry = entry;
                after = after;
                listed = listed;
                path = path;
                session = offer-IsOffered entry best.1 given pos;
                bounds = bounds;
              }
            ])
      ]

  -- Where the search returns normally, its answer, in whatever order the directory lists its entries,
  -- is a longest session among the regular files with the extension .miinfer that can be inspected,
  -- are for the model and the quantization, and hold at least one token and only tokens that begin
  -- the prompt; there is no answer only where no entry is such a session.
  pub find_matching_session-IsAnswer :
      (entries : List Entry) (result : Option Best)
      → find_matching_session disk (some entries) model_id quantization prompt ≡ ok result
      → IsAnswer entries result
  unfolding find_matching_session
  find_matching_session-IsAnswer entries result e =
      >>=-ok (search_entries disk model_id quantization prompt ([], 0) entries) _ e
        λ best found e1. subst (IsAnswer entries) (ok-injective e1) (answer entries best found)
