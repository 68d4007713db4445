-- ===== src/Session/Load/Stages.antt =====
-- The stages of a load, on a file that was saved.
use miinfer.Prelude.{
  join, ℕ, ◌+◌, ◌*◌, ◌/◌, ◌%◌, ◌<◌, ◌≡◌, refl, sym, ap, subst, ◌∙◌, true, some, List, [], ◌∷◌, ◌++◌,
  ok, arith, All, length, drop, list_eq_refl, ◌==◌,
}
use miinfer.Device.{Hip}
use miinfer.KvCache.{raw_tokens_bytes}
use miinfer.Recurrent.{state_bytes, conv_history_bytes}
use miinfer.Context
use miinfer.Context.{hash_from, token_sequence_hash}
use miinfer.Context.Restore.{IsAllocated, save-restore_gdn_states}
use miinfer.Session.Header.{Header, model_view, quantization_view}
use miinfer.Session.Model.{Model, gdn_layers, gqa_layers}
use miinfer.Session.Save.{token_bytes, gather_gdn, make_header, single_layer_kv_bytes}
use miinfer.Session.Save.Gather.{Snapshots, Holds, length-parts, length-gather_gdn}
use miinfer.Session.Load.{
  read_tokens, is_session, load_gdn, save_context, keep_context, load_caches, load_layers,
  load_tokens, load_header,
}
use miinfer.Session.Load.Stream.{
  stream_read-append, stream_read-all, read_tokens-token_bytes, accepts-true,
}
use miinfer.Session.Load.States.{AreLoaded, load_gdn-gather_gdn, Shows, load_kv-Snapshots}
use miinfer.Session.Load.Written.{IsReady, nothing, single_lem}

module _ (hip : Hip) where
  -- What a load answers for the file of a model with the same names and mode: true, the tokens, and
  -- a model that shows what the other one did, its layers at the end of the tokens.
  pub record IsLoaded (m : Model hip) (tokens : List ℕ) (t t' : Model hip) : Type 0 where
    pub layers : AreLoaded hip m.recurrent_states (length tokens) t'.recurrent_states
    pub parts : List (List ℕ)
    pub shown_before :
        Snapshots hip
          (length tokens)
          (raw_tokens_bytes m.kv_quant_mode (length tokens))
          m.kv_caches
          parts
    pub shown_after : Shows hip (length tokens) t'.kv_caches parts
    pub caches_hold : All (Holds hip m.kv_quant_mode (length tokens)) t'.kv_caches
    pub context_saved :
        Context.save hip t.reusable_context tokens t'.recurrent_states ≡ ok t'.reusable_context

  -- The end of a load, from the attention layers on.
  load_caches-IsLoaded :
      (m t : Model hip) (h : Header) (tokens : List ℕ) (parts : List (List ℕ))
      → AreLoaded hip m.recurrent_states (length tokens) t.recurrent_states
      → length t.recurrent_states ≡ gdn_layers
      → length m.kv_caches ≡ gqa_layers
      → length t.kv_caches ≡ gqa_layers
      → All (Holds hip m.kv_quant_mode (length tokens)) m.kv_caches
      → All (Holds hip m.kv_quant_mode (length tokens)) t.kv_caches
      → Snapshots hip
          (length tokens)
          (raw_tokens_bytes m.kv_quant_mode (length tokens))
          m.kv_caches
          parts
      → IsAllocated hip t.reusable_context.checkpoint
      → 0 < length tokens
      → length tokens < 4294967296
      → h.kv_bytes ≡ gqa_layers * raw_tokens_bytes m.kv_quant_mode (length tokens)
      → h.prefix_length ≡ length tokens
      → (t' : Model hip) × (load_caches hip h tokens t (some (join parts, []))
          ≡ ok (true, t', some tokens))
        × IsLoaded m tokens t t'
  unfolding load_caches save_context keep_context
  load_caches-IsLoaded m t h tokens parts layers count mcount tcount mholds tholds shots room pos
        small bytes prefix =
      let n = length tokens in
      let single = raw_tokens_bytes m.kv_quant_mode n in
      let quotient : gqa_layers * single / gqa_layers ≡ single = omega arith in
      let front : drop (0 * single) (join parts) ≡ join parts =
        ap (λ k. drop k (join parts)) (nothing single) in
      let (caches, up, shows, holds) =
        load_kv-Snapshots hip m.kv_quant_mode n single 0 m.kv_caches t.kv_caches parts (join parts)
          (tcount ∙ sym mcount) mholds tholds shots front in
      let (c, saved, _, _, _, _, _) =
        save-restore_gdn_states hip t.reusable_context tokens t.recurrent_states t.recurrent_states
          room pos small count count layers.valid layers.valid in
      (
        record t { kv_caches = caches; reusable_context = c },
        rw (bytes, prefix, quotient, up, saved) refl,
        record {
          layers = layers;
          parts = parts;
          shown_before = shots;
          shown_after = shows;
          caches_hold = holds;
          context_saved = saved;
        },
      )

  -- The header of the file, in the sizes that the load uses.
  pub record Describes (m : Model hip) (tokens : List ℕ) (h : Header) : Type 0 where
    pub prefix : h.prefix_length ≡ length tokens
    pub token_bytes_of : h.tokens_bytes ≡ length tokens * 4
    pub hash : h.token_hash ≡ token_sequence_hash tokens
    pub gdn_bytes : h.gdn_state_bytes ≡ gdn_layers * (state_bytes + conv_history_bytes)
    pub kv_bytes_of : h.kv_bytes ≡ gqa_layers * raw_tokens_bytes m.kv_quant_mode (length tokens)
    pub session : is_session h ≡ true
    pub gdn_count : h.gdn_layers ≡ gdn_layers
    pub gqa_count : h.gqa_layers ≡ gqa_layers

  pub make_header-Describes :
      (m : Model hip) (now : ℕ) (tokens : List ℕ)
      → IsReady hip (length tokens) m
      → length tokens < 4294967296
      → Describes m tokens (make_header hip m now tokens)
  unfolding make_header is_session
  make_header-Describes m now tokens v small =
      let n = length tokens in
      let kept : n % 4294967296 ≡ n = omega arith in
      record {
        prefix = kept;
        token_bytes_of = omega arith;
        hash = refl;
        gdn_bytes = refl;
        kv_bytes_of =
            ap (λ k. gqa_layers * single_layer_kv_bytes hip m.kv_caches k) kept
            ∙ ap (λ k. gqa_layers * k)
                (single_lem hip m.kv_quant_mode n m.kv_caches (omega (arith, v.cache_count))
                  v.caches_hold);
        session = rw (list_eq_refl (77 ∷ 73 ∷ 83 ∷ 83 ∷ [])) refl;
        gdn_count = refl;
        gqa_count = refl;
      }

  -- From the state bytes on.
  load_layers-IsLoaded :
      (m t : Model hip) (h : Header) (tokens : List ℕ) (parts : List (List ℕ))
      → IsReady hip (length tokens) m
      → IsReady hip (length tokens) t
      → t.kv_quant_mode ≡ m.kv_quant_mode
      → Snapshots hip
          (length tokens)
          (raw_tokens_bytes m.kv_quant_mode (length tokens))
          m.kv_caches
          parts
      → 0 < length tokens
      → length tokens < 4294967296
      → Describes m tokens h
      → (t' : Model hip) × (load_layers hip h tokens t
            (some (gather_gdn hip m.recurrent_states, join parts))
          ≡ ok (true, t', some tokens))
        × IsLoaded m tokens t t'
  unfolding load_layers
  load_layers-IsLoaded m t h tokens parts vm vt mode shots pos small d =
      let n = length tokens in
      let (layers, up, loaded) =
        load_gdn-gather_gdn hip m.recurrent_states t.recurrent_states
          (gather_gdn hip m.recurrent_states) 0 n (vt.layer_count ∙ sym vm.layer_count)
          vm.layers_valid vt.layers_valid refl (omega arith) in
      let up' : load_gdn hip (gather_gdn hip m.recurrent_states) 0 h.prefix_length
            t.recurrent_states
          ≡ ok layers =
        rw d.prefix up in
      let t1 : Model hip = record t { recurrent_states = layers } in
      let (t', done, good) =
        load_caches-IsLoaded m t1 h tokens parts loaded (loaded.count ∙ vm.layer_count)
          vm.cache_count vt.cache_count vm.caches_hold
          (subst (λ q. All (Holds hip q n) t.kv_caches) mode vt.caches_hold) shots vt.context_room
          pos small d.kv_bytes_of d.prefix in
      let size : length (join parts) ≡ h.kv_bytes =
        length-parts hip n (raw_tokens_bytes m.kv_quant_mode n) m.kv_caches parts shots
        ∙ ap (λ k. k * raw_tokens_bytes m.kv_quant_mode n) vm.cache_count
        ∙ sym d.kv_bytes_of in
      (
        t',
        rw (up', stream_read-all h.kv_bytes (join parts) size) done,
        record {
          layers = good.layers;
          parts = good.parts;
          shown_before = good.shown_before;
          shown_after = good.shown_after;
          caches_hold = good.caches_hold;
          context_saved = good.context_saved;
        },
      )

  -- From the tokens on, on the bytes of the file behind the header.
  pub load_header-IsLoaded :
      (m t : Model hip) (h : Header) (tokens : List ℕ) (parts : List (List ℕ))
      → IsReady hip (length tokens) m
      → IsReady hip (length tokens) t
      → t.kv_quant_mode ≡ m.kv_quant_mode
      → Snapshots hip
          (length tokens)
          (raw_tokens_bytes m.kv_quant_mode (length tokens))
          m.kv_caches
          parts
      → 0 < length tokens
      → length tokens < 4294967296
      → All (λ tok. tok < 4294967296) tokens
      → Describes m tokens h
      → model_view h ≡ some t.model_name
      → quantization_view h ≡ some t.quantization
      → (t' : Model hip) × (load_header hip t
            (some (h, token_bytes tokens ++ (gather_gdn hip m.recurrent_states ++ join parts)))
          ≡ ok (true, t', some tokens))
        × IsLoaded m tokens t t'
  unfolding load_header load_tokens
  load_header-IsLoaded m t h tokens parts vm vt mode shots pos small words_fit d model quant =
      let gdn = gather_gdn hip m.recurrent_states in
      let (t', done, good) = load_layers-IsLoaded m t h tokens parts vm vt mode shots pos small d in
      let accepted =
        accepts-true h t.model_name t.quantization d.session model quant d.gdn_count d.gqa_count in
      let read : read_tokens h.prefix_length h.tokens_bytes
            (token_bytes tokens ++ (gdn ++ join parts))
          ≡ ok (some (tokens, gdn ++ join parts)) =
        rw (d.prefix, d.token_bytes_of)
          (read_tokens-token_bytes tokens (gdn ++ join parts) words_fit) in
      let hashed : (token_sequence_hash tokens == h.token_hash) ≡ true = ground (arith, d.hash) in
      let size : length gdn ≡ h.gdn_state_bytes =
        length-gather_gdn hip m.recurrent_states vm.layers_valid
        ∙ ap (λ k. k * (state_bytes + conv_history_bytes)) vm.layer_count
        ∙ sym d.gdn_bytes in
      (
        t',
        rw (accepted, read, hashed, stream_read-append h.gdn_state_bytes gdn (join parts) size)
            done,
        good,
      )
