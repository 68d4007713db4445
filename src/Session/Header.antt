-- ===== src/Session/Header.antt =====
-- PersistentSessionHeader, a packed struct of 157 bytes, and the character arrays in it.
pub mod RoundTrip
use miinfer.Prelude.{
  join, ℕ, zero, suc, ◌+◌, Bool, Option, some, none, List, [], ◌∷◌, ◌++◌, ltb, ◌==◌, if◌then◌else◌,
  length, take, drop, get_or, replicate, sum, String,
}
use miinfer.Prelude.Words.{from_bytes, to_bytes}

-- The character arrays are all their bytes; a number is its value.
pub record Header : Type 0 where
  pub magic : List ℕ
  pub version : ℕ
  pub model_id : List ℕ
  pub quantization : List ℕ
  pub prefix_length : ℕ
  pub token_hash : ℕ
  pub gdn_layers : ℕ
  pub gdn_state_bytes : ℕ
  pub gqa_layers : ℕ
  pub kv_quant_mode : ℕ
  pub kv_bytes : ℕ
  pub tokens_bytes : ℕ
  pub created_timestamp : ℕ

-- The sizes of the fields, one behind the other without padding.
abbrev pub widths : List ℕ
widths = 4 ∷ 4 ∷ 64 ∷ 32 ∷ 4 ∷ 8 ∷ 4 ∷ 8 ∷ 4 ∷ 1 ∷ 8 ∷ 8 ∷ 8 ∷ []

-- sizeof(PersistentSessionHeader)
abbrev pub header_bytes : ℕ
header_bytes = sum widths

-- The fields as they lie in memory: the struct is packed, and the machine is little-endian.
unfoldable pub encode : Header → List (List ℕ)
encode h =
    h.magic
    ∷ to_bytes 4 h.version
    ∷ h.model_id
    ∷ h.quantization
    ∷ to_bytes 4 h.prefix_length
    ∷ to_bytes 8 h.token_hash
    ∷ to_bytes 4 h.gdn_layers
    ∷ to_bytes 8 h.gdn_state_bytes
    ∷ to_bytes 4 h.gqa_layers
    ∷ to_bytes 1 h.kv_quant_mode
    ∷ to_bytes 8 h.kv_bytes
    ∷ to_bytes 8 h.tokens_bytes
    ∷ to_bytes 8 h.created_timestamp
    ∷ []

unfoldable pub serialize : Header → List ℕ
unfolding encode
serialize h = join (encode h)

-- Bytes cut into fields.
unfoldable pub split : List ℕ → List ℕ → List (List ℕ)
split [] bytes = []
split (n ∷ ns) bytes = take n bytes ∷ split ns (drop n bytes)

-- The struct that `in.read` leaves where it copies these bytes over it.
unfoldable pub decode : List (List ℕ) → Header
decode fields =
    let number : ℕ → ℕ = λ i. from_bytes (get_or fields i []) in
    record {
      magic = get_or fields 0 [];
      version = number 1;
      model_id = get_or fields 2 [];
      quantization = get_or fields 3 [];
      prefix_length = number 4;
      token_hash = number 5;
      gdn_layers = number 6;
      gdn_state_bytes = number 7;
      gqa_layers = number 8;
      kv_quant_mode = number 9;
      kv_bytes = number 10;
      tokens_bytes = number 11;
      created_timestamp = number 12;
    }

-- strncpy of a string into n zero bytes: it stops at the first NUL.
unfoldable pub strncpy : ℕ → List ℕ → List ℕ
strncpy zero s = []
strncpy (suc n) [] = replicate (suc n) 0
strncpy (suc n) (c ∷ cs) =
    let rest = strncpy n cs in if c == 0 then replicate (suc n) 0 else c ∷ rest

-- std::string_view of a char pointer: up to the first NUL of the bytes; none where there is none.
unfoldable pub c_string : List ℕ → Option (List ℕ)
c_string [] = none
c_string (c ∷ cs) =
    let rest = c_string cs in
    if c == 0 then some [] else (elim rest [ none ↦ none | some s ↦ some (c ∷ s) ])

-- The views of the two names: an array without a NUL runs on into the fields behind it.
unfoldable pub model_view : Header → Option (List ℕ)
unfolding encode c_string
model_view h = c_string (join (drop 2 (encode h)))

unfoldable pub quantization_view : Header → Option (List ℕ)
unfolding encode c_string
quantization_view h = c_string (join (drop 3 (encode h)))
