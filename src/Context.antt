-- ===== src/Context.antt =====
-- GdnCheckpointStorage and ReusableContext, src/prefill_v2/reusable_context.cpp and
-- include/miinfer/prefill_v2/reusable_context.hpp: the prefix that can be used again.
pub mod Match
pub mod Restore
use Prim.Native.Nat.{bit_xor}
use miinfer.Prelude.{
  ℕ, zero, suc, ◌+◌, ◌*◌, ◌%◌, Bool, true, false, ◌&&◌, not, Option, some, none, List, [], ◌∷◌, map,
  Result, ok, err, ◌>>=◌, ◌>>◌, guard, ltb, ◌==◌, if◌then◌else◌, list_eq, length, get_or,
}
use miinfer.Prelude.Words.{word_mod, mul64}
use miinfer.Device.{Hip}
use miinfer.Recurrent.{state_bytes, conv_history_bytes, Recurrent, set_position}

-- kGdnLayerCount
abbrev pub gdn_layer_count : ℕ
gdn_layer_count = 48

-- kStateLayoutVersion
abbrev pub state_layout_version : ℕ
state_layout_version = 20260925

-- The loop of compute_token_sequence_hash, on 64 bits.
unfoldable pub hash_from : ℕ → List ℕ → ℕ
hash_from hash [] = hash
hash_from hash (tok ∷ rest) = hash_from (mul64 (bit_xor hash tok) 0x100000001b3) rest

unfoldable pub token_sequence_hash : List ℕ → ℕ
unfolding hash_from
token_sequence_hash tokens = hash_from 0xcbf29ce484222325 tokens

-- The exceptions; null_pointer is a hipMemcpy with a pointer that was moved from, which aborts.
pub data Error : Type 0 where
  wrong_state_count : ℕ → Error
  unallocated invalid_checkpoint no_valid_prefix null_pointer : Error

pub data MatchResult : Type 0 where
  exact_match prefix_mismatch model_mismatch quantization_mismatch : MatchResult
  empty_cache prompt_shorter_than_prefix version_mismatch : MatchResult

pub record Fingerprint : Type 0 where
  pub model_id : List ℕ
  pub quantization : List ℕ
  pub prefix_length : ℕ
  pub token_hash : ℕ
  pub layout_version : ℕ

unfoldable pub matches : Fingerprint → Fingerprint → Bool
matches a b =
    (a.prefix_length == b.prefix_length)
    && (a.token_hash == b.token_hash)
    && (a.layout_version == b.layout_version)
    && list_eq a.model_id b.model_id
    && list_eq a.quantization b.quantization

-- The loop of check_match over the first P tokens: the prompt against the cached tokens.
unfoldable pub same_prefix : ℕ → ℕ → List ℕ → List ℕ → Bool
same_prefix zero i prompt cached = true
same_prefix (suc n) i prompt cached =
    let rest = same_prefix n (i + 1) prompt cached in
    if not (get_or prompt i 0 == get_or cached i 0) then false else rest

module _ (hip : Hip) where
  open hip use {Buffer, malloc, read, write}

  -- The pointers are none for nullptr.
  pub record Checkpoint : Type 0 where
    pub states : Option Buffer
    pub conv_history : Option Buffer
    pub total_bytes : ℕ
    pub is_valid : Bool

  unfoldable pub new_checkpoint : Checkpoint
  new_checkpoint = record {
    states = some (malloc (gdn_layer_count * state_bytes));
    conv_history = some (malloc (gdn_layer_count * conv_history_bytes));
    total_bytes = gdn_layer_count * state_bytes + gdn_layer_count * conv_history_bytes;
    is_valid = false;
  }

  -- The move constructor: the new checkpoint, and what is left of the other.
  unfoldable pub move_checkpoint : Checkpoint → Checkpoint × Checkpoint
  move_checkpoint other =
      (other, record { states = none; conv_history = none; total_bytes = 0; is_valid = false })

  -- The move assignment between two checkpoints, with the buffers that are freed.
  unfoldable pub move_assign_checkpoint :
      Checkpoint → Checkpoint → Checkpoint × Checkpoint × Option Buffer × Option Buffer
  unfolding move_checkpoint
  move_assign_checkpoint this other =
      let (moved, left) = move_checkpoint other in (moved, left, this.states, this.conv_history)

  unfoldable pub invalidate : Checkpoint → Checkpoint
  invalidate c = record c { is_valid = false }

  -- The loop of capture, from layer i on.
  unfoldable pub capture_from : ℕ → List (Recurrent hip) → Buffer → Buffer → Buffer × Buffer
  capture_from i [] states history = (states, history)
  capture_from i (a ∷ rest) states history =
      capture_from (i + 1) rest (write states (i * state_bytes) (read a.state 0 state_bytes))
        (write history (i * conv_history_bytes) (read a.conv_history 0 conv_history_bytes))

  unfoldable pub capture_into :
      Checkpoint → List (Recurrent hip) → Option Buffer → Option Buffer → Result Error Checkpoint
  unfolding capture_from
  capture_into c active none h = err unallocated
  capture_into c active (some s) none = err unallocated
  capture_into c active (some s) (some h) =
      let (s', h') = capture_from 0 active s h in
      ok (record c { states = some s'; conv_history = some h'; is_valid = true })

  unfoldable pub capture : Checkpoint → List (Recurrent hip) → Result Error Checkpoint
  unfolding capture_into
  capture c active =
      if not (length active == gdn_layer_count)
      then err (wrong_state_count (length active))
      else capture_into c active c.states c.conv_history

  -- The loop of restore, from layer i on.
  unfoldable pub restore_from : ℕ → Buffer → Buffer → List (Recurrent hip) → List (Recurrent hip)
  restore_from i states history [] = []
  restore_from i states history (a ∷ rest) =
      record a {
        state = write a.state 0 (read states (i * state_bytes) state_bytes);
        conv_history =
            write a.conv_history 0 (read history (i * conv_history_bytes) conv_history_bytes);
      }
      ∷ restore_from (i + 1) states history rest

  unfoldable pub restore_with :
      Option Buffer → Option Buffer → List (Recurrent hip) → Result Error (List (Recurrent hip))
  unfolding restore_from
  restore_with none h active = err null_pointer
  restore_with (some s) none active = err null_pointer
  restore_with (some s) (some h) active = ok (restore_from 0 s h active)

  unfoldable pub restore : Checkpoint → List (Recurrent hip) → Result Error (List (Recurrent hip))
  unfolding restore_with
  restore c active =
      if not c.is_valid
      then err invalid_checkpoint
      else if not (length active == gdn_layer_count)
      then err (wrong_state_count (length active))
      else restore_with c.states c.conv_history active

  pub record Context : Type 0 where
    pub fingerprint : Fingerprint
    pub cached_tokens : List ℕ
    pub checkpoint : Checkpoint

  unfoldable pub new_context : List ℕ → List ℕ → Context
  unfolding new_checkpoint
  new_context model_id quantization = record {
    fingerprint = record {
      model_id = model_id;
      quantization = quantization;
      prefix_length = 0;
      token_hash = 0;
      layout_version = state_layout_version;
    };
    cached_tokens = [];
    checkpoint = new_checkpoint;
  }

  unfoldable pub has_valid_prefix : Context → Bool
  has_valid_prefix c = c.checkpoint.is_valid && ltb 0 c.fingerprint.prefix_length

  unfoldable pub clear : Context → Context
  unfolding invalidate
  clear c = record {
    fingerprint = record c.fingerprint { prefix_length = 0; token_hash = 0 };
    cached_tokens = [];
    checkpoint = invalidate c.checkpoint;
  }

  unfoldable pub save : Context → List ℕ → List (Recurrent hip) → Result Error Context
  unfolding clear capture token_sequence_hash
  save c [] active = ok (clear c)
  save c (tok ∷ more) active = do
    checkpoint ← capture c.checkpoint active
    ok (record {
      fingerprint = record c.fingerprint {
        prefix_length = length (tok ∷ more) % 4294967296;
        token_hash = token_sequence_hash (tok ∷ more);
        layout_version = state_layout_version;
      };
      cached_tokens = tok ∷ more;
      checkpoint = checkpoint;
    })

  unfoldable pub check_match : Context → List ℕ → List ℕ → List ℕ → MatchResult
  unfolding has_valid_prefix same_prefix
  check_match c full_prompt model_id quantization =
      if not (has_valid_prefix c)
      then empty_cache
      else if not (c.fingerprint.layout_version == state_layout_version)
      then version_mismatch
      else if not (list_eq c.fingerprint.model_id model_id)
      then model_mismatch
      else if not (list_eq c.fingerprint.quantization quantization)
      then quantization_mismatch
      else if ltb (length full_prompt) c.fingerprint.prefix_length
      then prompt_shorter_than_prefix
      else if not (same_prefix c.fingerprint.prefix_length 0 full_prompt c.cached_tokens)
      then prefix_mismatch
      else exact_match

  unfoldable pub restore_gdn_states :
      Context → List (Recurrent hip) → Result Error (List (Recurrent hip))
  unfolding has_valid_prefix restore
  restore_gdn_states c active = if not (has_valid_prefix c) then err no_valid_prefix else (do
    restored ← restore c.checkpoint active
    ok (map (λ s. set_position hip s c.fingerprint.prefix_length) restored))
