-- ===== src/Session/Header/RoundTrip.antt =====
-- A header that is written is read back.
use miinfer.Prelude.{
  ℕ, zero, suc, ◌<◌, ◌≤◌, ◌≡◌, refl, ap, ap₂, ◌∙◌, subst, some, List, [], ◌∷◌, ◌++◌, map, arith,
  All, length, length-append, take-append, drop-append, length-replicate, sum,
}
use miinfer.Prelude.Words.{to_bytes, from_bytes-to_bytes}
use miinfer.Session.Header.{
  Header, widths, header_bytes, encode, join, serialize, split, decode, strncpy, c_string,
}

-- What fits the struct.
pub record IsHeader (h : Header) : Type 0 where
  pub magic_whole : length h.magic ≡ 4
  pub model_whole : length h.model_id ≡ 64
  pub quantization_whole : length h.quantization ≡ 32
  pub version_fits : h.version < 4294967296
  pub prefix_fits : h.prefix_length < 4294967296
  pub hash_fits : h.token_hash < 18446744073709551616
  pub gdn_layers_fits : h.gdn_layers < 4294967296
  pub gdn_bytes_fits : h.gdn_state_bytes < 18446744073709551616
  pub gqa_layers_fits : h.gqa_layers < 4294967296
  pub mode_fits : h.kv_quant_mode < 256
  pub kv_bytes_fits : h.kv_bytes < 18446744073709551616
  pub tokens_fits : h.tokens_bytes < 18446744073709551616
  pub created_fits : h.created_timestamp < 18446744073709551616

split-join : (fs : List (List ℕ)) → split (map length fs) (join fs) ≡ fs
unfolding split
split-join [] = refl
split-join (f ∷ fs) =
    ap₂ ◌∷◌ (take-append (length f) f (join fs) refl)
      (ap (split (map length fs)) (drop-append (length f) f (join fs) refl) ∙ split-join fs)

length-join : (fs : List (List ℕ)) → length (join fs) ≡ sum (map length fs)
length-join [] = refl
length-join (f ∷ fs) = omega (arith, length-append f (join fs), length-join fs)

encode-widths : (h : Header) → IsHeader h → map length (encode h) ≡ widths
unfolding encode to_bytes
encode-widths h v = rw (v.magic_whole, v.model_whole, v.quantization_whole) refl

decode-encode : (h : Header) → IsHeader h → decode (encode h) ≡ h
unfolding decode encode
decode-encode h v =
    rw
      (
        from_bytes-to_bytes 4 h.version (omega (arith, v.version_fits)),
        from_bytes-to_bytes 4 h.prefix_length (omega (arith, v.prefix_fits)),
        from_bytes-to_bytes 8 h.token_hash (omega (arith, v.hash_fits)),
        from_bytes-to_bytes 4 h.gdn_layers (omega (arith, v.gdn_layers_fits)),
        from_bytes-to_bytes 8 h.gdn_state_bytes (omega (arith, v.gdn_bytes_fits)),
        from_bytes-to_bytes 4 h.gqa_layers (omega (arith, v.gqa_layers_fits)),
        from_bytes-to_bytes 1 h.kv_quant_mode (omega (arith, v.mode_fits)),
        from_bytes-to_bytes 8 h.kv_bytes (omega (arith, v.kv_bytes_fits)),
        from_bytes-to_bytes 8 h.tokens_bytes (omega (arith, v.tokens_fits)),
        from_bytes-to_bytes 8 h.created_timestamp (omega (arith, v.created_fits)),
      )
      refl

-- A header takes 157 bytes, and these, cut into fields, are the header again.
pub serialize-decode :
    (h : Header)
    → IsHeader h
    → (length (serialize h) ≡ header_bytes) × (decode (split widths (serialize h)) ≡ h)
unfolding serialize
serialize-decode h v =
    let cut = encode-widths h v in
    (
      length-join (encode h) ∙ ap sum cut,
      ap decode (subst (λ ns. split ns (join (encode h)) ≡ encode h) cut (split-join (encode h)))
          ∙ decode-encode h v,
    )

pub length-strncpy : (n : ℕ) (s : List ℕ) → length (strncpy n s) ≡ n
unfolding strncpy
length-strncpy zero s = refl
length-strncpy (suc n) [] = length-replicate (suc n) 0
length-strncpy (suc n) (c ∷ cs) = ground (arith, length-replicate {A = ℕ} n 0, length-strncpy n cs)

-- A string without a NUL and shorter than the array is what the array shows, whatever is behind it.
pub c_string-strncpy :
    (n : ℕ) (s rest : List ℕ)
    → All (λ c. 0 < c) s
    → length s ≤ n
    → c_string (strncpy n s ++ 0 ∷ rest) ≡ some s
unfolding c_string strncpy
c_string-strncpy zero [] rest h short = refl
c_string-strncpy (suc n) [] rest h short = refl
c_string-strncpy zero (c ∷ cs) rest h short = absurd (omega arith)
c_string-strncpy (suc n) (c ∷ cs) rest (pos, h) short =
    ground (arith, c_string-strncpy n cs rest h (omega arith))
