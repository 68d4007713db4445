-- ===== src/Context/Restore.antt =====
-- A checkpoint that was captured is restored in every layer.
use miinfer.Prelude.{
  ℕ, ◌+◌, ◌*◌, ◌%◌, ◌≤◌, ◌<◌, ◌≡◌, refl, sym, ap, ap₂, ◌∙◌, inl, List, [], ◌∷◌, map, ok, err, arith,
  length, All, some, true,
}
use miinfer.Device.{Hip}
use miinfer.Recurrent.{Recurrent, download, set_position, state_bytes, conv_history_bytes}
use miinfer.Recurrent.Transfer.{IsValid}
use miinfer.Context.{
  Checkpoint, Context, capture_from, capture_into, capture, restore_from, restore_with, restore,
  new_context, new_checkpoint, gdn_layer_count, save, restore_gdn_states, has_valid_prefix, clear,
  invalidate, check_match, empty_cache, no_valid_prefix, token_sequence_hash, state_layout_version,
}

module _ (hip : Hip) where
  open hip use {
    Buffer, malloc, size-malloc, size, read, write, size-write, length-read, read-write,
    read-write_apart,
  }

  -- After the loop of capture from layer i on: the layers below are as before.
  record Kept (i : ℕ) (s h s' h' : Buffer) : Type 0 where
    states_kept : (p k : ℕ) → p + k ≤ i * state_bytes → read s' p k ≡ read s p k
    history_kept : (p k : ℕ) → p + k ≤ i * conv_history_bytes → read h' p k ≡ read h p k
    states_size : size s' ≡ size s
    history_size : size h' ≡ size h

  capture_from-Kept :
      (i : ℕ) (active : List (Recurrent hip)) (s h : Buffer)
      → All (IsValid hip) active
      → (i + length active) * state_bytes ≤ size s
      → (i + length active) * conv_history_bytes ≤ size h
      → Kept i s h (capture_from hip i active s h).0 (capture_from hip i active s h).1
  unfolding capture_from
  capture_from-Kept i [] s h v rs rh = record {
    states_kept = λ _ _ _. refl;
    history_kept = λ _ _ _. refl;
    states_size = refl;
    history_size = refl;
  }
  capture_from-Kept i (a ∷ rest) s h (va, v) rs rh =
      let n = state_bytes in
      let m = conv_history_bytes in
      let taken = length-read a.state 0 n (omega (arith, va.state_room)) in
      let taken' = length-read a.conv_history 0 m (omega (arith, va.history_room)) in
      let s1 = write s (i * n) (read a.state 0 n) in
      let h1 = write h (i * m) (read a.conv_history 0 m) in
      let states_sized = size-write s (i * n) (read a.state 0 n) in
      let history_sized = size-write h (i * m) (read a.conv_history 0 m) in
      let later = capture_from-Kept (i + 1) rest s1 h1 v (omega arith) (omega arith) in
      record {
        states_kept = λ p k lt.
            later.states_kept p k (omega arith)
            ∙ read-write_apart s (i * n) p k (read a.state 0 n) (omega arith) (inl lt);
        history_kept = λ p k lt.
            later.history_kept p k (omega arith)
            ∙ read-write_apart h (i * m) p k (read a.conv_history 0 m) (omega arith) (inl lt);
        states_size = later.states_size ∙ states_sized;
        history_size = later.history_size ∙ history_sized;
      }

  -- What the loop of capture has stored, the loop of restore brings back in every layer.
  pub restore_from-capture_from :
      (i : ℕ) (active target : List (Recurrent hip)) (s h : Buffer)
      → length target ≡ length active
      → All (IsValid hip) active
      → All (IsValid hip) target
      → (i + length active) * state_bytes ≤ size s
      → (i + length active) * conv_history_bytes ≤ size h
      → map (download hip) (
          restore_from hip i
            (capture_from hip i active s h).0
            (capture_from hip i active s h).1
            target)
        ≡ map (download hip) active
  unfolding capture_from restore_from download
  restore_from-capture_from i [] [] s h same v w rs rh = refl
  restore_from-capture_from i [] (t ∷ ts) s h same v w rs rh = absurd (omega arith)
  restore_from-capture_from i (a ∷ rest) [] s h same v w rs rh = absurd (omega arith)
  restore_from-capture_from i (a ∷ rest) (t ∷ ts) s h same (va, v) (wt, w) rs rh =
      let n = state_bytes in
      let m = conv_history_bytes in
      let x = read a.state 0 n in
      let y = read a.conv_history 0 m in
      let taken : length x ≡ n = length-read a.state 0 n (omega (arith, va.state_room)) in
      let taken' : length y ≡ m = length-read a.conv_history 0 m (omega (arith, va.history_room)) in
      let s1 = write s (i * n) x in
      let h1 = write h (i * m) y in
      let states_sized = size-write s (i * n) x in
      let history_sized = size-write h (i * m) y in
      let kept = capture_from-Kept (i + 1) rest s1 h1 v (omega arith) (omega arith) in
      let state_stored =
        kept.states_kept (i * n) n (omega arith) ∙ read-write s (i * n) n x taken (omega arith) in
      let history_stored =
        kept.history_kept (i * m) m (omega arith) ∙ read-write h (i * m) m y taken' (omega arith) in
      let others =
        restore_from-capture_from (i + 1) rest ts s1 h1 (omega arith) v w (omega arith)
          (omega arith) in
      ap₂ ◌∷◌
        (ap₂ (λ b c. (b, c))
          (rw state_stored (read-write t.state 0 n x taken (omega (arith, wt.state_room))))
          (rw history_stored
            (read-write t.conv_history 0 m y taken' (omega (arith, wt.history_room)))))
        others

  -- The buffers of a checkpoint have room for every layer.
  pub record IsAllocated (c : Checkpoint hip) : Type 0 where
    pub states : Buffer
    pub history : Buffer
    pub states_there : c.states ≡ some states
    pub history_there : c.conv_history ≡ some history
    pub states_room : gdn_layer_count * state_bytes ≤ size states
    pub history_room : gdn_layer_count * conv_history_bytes ≤ size history

  pub new_context-IsAllocated : (m q : List ℕ) → IsAllocated (new_context hip m q).checkpoint
  unfolding new_context new_checkpoint
  new_context-IsAllocated m q = record {
    states = malloc (gdn_layer_count * state_bytes);
    history = malloc (gdn_layer_count * conv_history_bytes);
    states_there = refl;
    history_there = refl;
    states_room = omega (arith, size-malloc (gdn_layer_count * state_bytes));
    history_room = omega (arith, size-malloc (gdn_layer_count * conv_history_bytes));
  }

  capture_lem :
      (c : Checkpoint hip) (active : List (Recurrent hip))
      → length active ≡ gdn_layer_count
      → (a : IsAllocated c)
      → capture hip c active
        ≡ ok (record c {
          states = some (capture_from hip 0 active a.states a.history).0;
          conv_history = some (capture_from hip 0 active a.states a.history).1;
          is_valid = true;
        })
  unfolding capture capture_into
  capture_lem c active full a = rw (a.states_there, a.history_there) ground arith

  map-set_position :
      (pos : ℕ) (xs : List (Recurrent hip))
      → (map (download hip) (map (λ s. set_position hip s pos) xs) ≡ map (download hip) xs)
        × All (λ s. s.position ≡ pos) (map (λ s. set_position hip s pos) xs)
  unfolding set_position download
  map-set_position pos [] = (refl, tt)
  map-set_position pos (x ∷ xs) =
      let (same, placed) = map-set_position pos xs in
      (ap (◌∷◌ (download hip x)) same, (refl, placed))

  -- A save of some tokens for all 48 layers succeeds, into a checkpoint that has room. Then restoring
  -- any 48 layers with it succeeds too: they hold the states and histories that were saved, at the
  -- position behind the saved tokens, and the checkpoint has room for the next save.
  pub save-restore_gdn_states :
      (c : Context hip) (tokens : List ℕ) (active target : List (Recurrent hip))
      → IsAllocated c.checkpoint
      → 0 < length tokens
      → length tokens < 4294967296
      → length active ≡ gdn_layer_count
      → length target ≡ gdn_layer_count
      → All (IsValid hip) active
      → All (IsValid hip) target
      → (c' : Context hip) × (save hip c tokens active ≡ ok c')
        × IsAllocated c'.checkpoint
        × (restored : List (Recurrent hip)) × (restore_gdn_states hip c' target ≡ ok restored)
        × (map (download hip) restored ≡ map (download hip) active)
        × All (λ s. s.position ≡ length tokens) restored
  unfolding save restore_gdn_states has_valid_prefix restore restore_with
  save-restore_gdn_states c [] active target a some_tokens small full full' v w =
      absurd (omega arith)
  save-restore_gdn_states c (tok ∷ more) active target a some_tokens small full full' v w =
      let n = length (tok ∷ more) in
      let kept : n % 4294967296 ≡ n = omega arith in
      let rs : (0 + length active) * state_bytes ≤ size a.states = rw full a.states_room in
      let rh : (0 + length active) * conv_history_bytes ≤ size a.history = rw full a.history_room in
      let sizes = capture_from-Kept 0 active a.states a.history v rs rh in
      let back =
        restore_from-capture_from 0 active target a.states a.history (full' ∙ sym full) v w rs rh in
      let s' = (capture_from hip 0 active a.states a.history).0 in
      let h' = (capture_from hip 0 active a.states a.history).1 in
      let (same, placed) = map-set_position n (restore_from hip 0 s' h' target) in
      let checkpoint : Checkpoint hip = record c.checkpoint {
        states = some s';
        conv_history = some h';
        is_valid = true;
      } in
      let c' : Context hip = record {
        fingerprint = record c.fingerprint {
          prefix_length = n % 4294967296;
          token_hash = token_sequence_hash (tok ∷ more);
          layout_version = state_layout_version;
        };
        cached_tokens = tok ∷ more;
        checkpoint = checkpoint;
      } in
      (
        c',
        rw (capture_lem c.checkpoint active full a) refl,
        record {
          states = s';
          history = h';
          states_there = refl;
          history_there = refl;
          states_room = omega (arith, a.states_room, sizes.states_size);
          history_room = omega (arith, a.history_room, sizes.history_size);
        },
        map (λ s. set_position hip s n) (restore_from hip 0 s' h' target),
        ground (arith, kept),
        same ∙ back,
        placed,
      )

  -- After a clear nothing is restored, and no prompt matches.
  pub clear-restore_gdn_states :
      (c : Context hip) (target : List (Recurrent hip)) (prompt model_id quantization : List ℕ)
      → (restore_gdn_states hip (clear hip c) target ≡ err no_valid_prefix)
        × (check_match hip (clear hip c) prompt model_id quantization ≡ empty_cache)
  unfolding clear restore_gdn_states check_match has_valid_prefix invalidate
  clear-restore_gdn_states c target prompt m q = (refl, refl)
