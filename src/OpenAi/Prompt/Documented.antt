-- ===== src/OpenAi/Prompt/Documented.antt =====
-- What build_chatml relies on of the JSON library, and the parts of it that throw nothing.
use miinfer.Prelude.{
  ℕ, ◌≡◌, refl, ap, ◌<◌, ok-injective, err, ◌>>=◌, Option, none, some, List, Result, ok, All,
}
use miinfer.OpenAi.Json.{obj, Json}
use miinfer.OpenAi.Prompt.{PromptError, parsed, dumped}

module _ (json : Json) where
  open json use {Value, Float, view, parse, dump, of_text, of_members}

  -- Nothing was thrown.
  abbrev pub Fine {ℓ} : {A : Type ℓ} → Result PromptError A → Type 0
  Fine (ok a) = Unit {0}
  Fine (err e) = ⊥

  pub >>=-Fine :
      {A B : Type 0} (m : Result PromptError A) (f : A → Result PromptError B)
      → Fine m
      → ((a : A) → m ≡ ok a → Fine (f a))
      → Fine (m >>= f)
  >>=-Fine (ok a) f h k = k a refl
  >>=-Fine (err e) f h k = h

  pub parsed-Fine : (o : Option Value) (value : Value) → o ≡ some value → Fine (parsed o)
  unfolding parsed
  parsed-Fine none value h = absurd (cc)
  parsed-Fine (some v) value h = tt

  pub parsed-ok : (o : Option Value) (value : Value) → parsed o ≡ ok value → o ≡ some value
  unfolding parsed
  parsed-ok none value h = absurd (cc)
  parsed-ok (some v) value h = ap some (ok-injective h)

  pub dumped-Fine : (o : Option (List ℕ)) (text : List ℕ) → o ≡ some text → Fine (dumped o)
  unfolding dumped
  dumped-Fine none text h = absurd (cc)
  dumped-Fine (some shown) text h = tt

  abbrev pub IsAscii : List ℕ → Type 0
  IsAscii = All (λ c. c < 128)

  -- The documentation of the library, where a sound value is one whose strings are all UTF-8: what is
  -- parsed is sound, and so are the members of a sound object; a sound value can be dumped; an object
  -- of sound members with ASCII names is sound, and so is an ASCII string; a text that is dumped is
  -- JSON.
  pub record IsDocumented (Sound : Value → Type 0) : Type 0 where
    pub parse_sound : (text : List ℕ) (value : Value) → parse text ≡ some value → Sound value
    pub member_sound :
        (value : Value) (entries : List (List ℕ × Value))
        → Sound value
        → view value ≡ obj entries
        → All (λ entry. Sound entry.1) entries
    pub sound_dumps : (value : Value) → Sound value → (text : List ℕ) × (dump value ≡ some text)
    pub object_sound :
        (members : List (List ℕ × Value))
        → All (λ entry. IsAscii entry.0 × Sound entry.1) members
        → Sound (of_members members)
    pub text_sound : (text : List ℕ) → IsAscii text → Sound (of_text text)
    pub dump_parses :
        (value : Value) (text : List ℕ)
        → dump value ≡ some text
        → (again : Value) × (parse text ≡ some again)
