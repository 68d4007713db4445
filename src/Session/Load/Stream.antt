-- ===== src/Session/Load/Stream.antt =====
-- Reads from a stream whose next bytes are known.
use miinfer.Prelude.{
  ℕ, ◌*◌, ◌<◌, ◌≡◌, refl, sym, ap, ap₂, ◌∙◌, true, false, some, List, [], ◌∷◌, ◌++◌, ok, arith, All,
  length, replicate, length-append, take-append, drop-append, append_assoc, append-nil,
  list_eq_refl, ltb,
}
use miinfer.Prelude.Words.{from_bytes, to_bytes, length-to_bytes, from_bytes-to_bytes}
use miinfer.Session.Header.{Header, header_bytes, serialize, model_view, quantization_view}
use miinfer.Session.Header.RoundTrip.{IsHeader, serialize-decode}
use miinfer.Session.Model.{gdn_layers, gqa_layers}
use miinfer.Session.Save.{token_bytes}
use miinfer.Session.Load.{
  stream_read, read_header, fill_tokens, read_tokens, words, accepts, name_is, is_session,
}

pub stream_read-append :
    (n : ℕ) (xs ys : List ℕ) → length xs ≡ n → stream_read n (xs ++ ys) ≡ some (xs, ys)
unfolding stream_read
stream_read-append n xs ys h =
    ground (arith, length-append xs ys, take-append n xs ys h, drop-append n xs ys h)

pub stream_read-all : (n : ℕ) (xs : List ℕ) → length xs ≡ n → stream_read n xs ≡ some (xs, [])
stream_read-all n xs h = ap (stream_read n) (sym (append-nil xs)) ∙ stream_read-append n xs [] h

pub read_header-serialize :
    (h : Header) (rest : List ℕ) → IsHeader h → read_header (serialize h ++ rest) ≡ some (h, rest)
unfolding read_header
read_header-serialize h rest v =
    let (whole, back) = serialize-decode h v in
    rw (read_header, stream_read-append header_bytes (serialize h) rest whole)
      (ap (λ g. some (g, rest)) back)

pub length-token_bytes : (tokens : List ℕ) → length (token_bytes tokens) ≡ length tokens * 4
unfolding token_bytes
length-token_bytes [] = refl
length-token_bytes (t ∷ ts) = omega (
  arith,
  length-append (to_bytes 4 t) (token_bytes ts),
  length-to_bytes 4 t,
  length-token_bytes ts,
)

words-token_bytes :
    (tokens rest : List ℕ)
    → All (λ t. t < 4294967296) tokens
    → words (length tokens) (token_bytes tokens ++ rest) ≡ tokens
unfolding words token_bytes
words-token_bytes [] rest h = refl
words-token_bytes (t ∷ ts) rest (fits, h) =
    let four = length-to_bytes 4 t in
    rw (append_assoc (to_bytes 4 t) (token_bytes ts) rest) (
      ap₂ ◌∷◌
        (ap from_bytes (take-append 4 (to_bytes 4 t) (token_bytes ts ++ rest) four)
          ∙ from_bytes-to_bytes 4 t (omega arith))
        (ap (words (length ts)) (drop-append 4 (to_bytes 4 t) (token_bytes ts ++ rest) four)
          ∙ words-token_bytes ts rest h))

pub read_tokens-token_bytes :
    (tokens rest : List ℕ)
    → All (λ t. t < 4294967296) tokens
    → read_tokens (length tokens) (length tokens * 4) (token_bytes tokens ++ rest)
      ≡ ok (some (tokens, rest))
unfolding read_tokens fill_tokens
read_tokens-token_bytes tokens rest h =
    let n = length tokens in
    let read = stream_read-append (n * 4) (token_bytes tokens) rest (length-token_bytes tokens) in
    let back = words-token_bytes tokens (replicate (n * 4) 0) h in
    let fits : ltb (n * 4) (n * 4) ≡ false = ground arith in rw (fits, read, back) refl

-- A header that names the model and the quantization is accepted for them.
pub accepts-true :
    (h : Header) (model_name quantization : List ℕ)
    → is_session h ≡ true
    → model_view h ≡ some model_name
    → quantization_view h ≡ some quantization
    → h.gdn_layers ≡ gdn_layers
    → h.gqa_layers ≡ gqa_layers
    → accepts h model_name quantization ≡ ok true
unfolding accepts name_is
accepts-true h m q session model quant gdn gqa =
    rw (session, model, quant, list_eq_refl m, list_eq_refl q, gdn, gqa) refl
