-- ===== src/Session/Save/Gather.antt =====
-- What a save gathers from the storages of a model.
use miinfer.Prelude.{
  take-all, join, ℕ, ◌+◌, ◌*◌, ◌≤◌, ◌≡◌, sym, ap, subst, ◌∙◌, true, List, [], ◌∷◌, ◌++◌, ok, arith,
  All, length, take, drop, length-append, length-take, length-drop, take-append, append_assoc,
  append-nil,
}
use miinfer.Device.{Hip}
use miinfer.KvCache.{QuantMode, Storage, raw_tokens_bytes, download_raw}
use miinfer.KvCache.Transfer as Cache
use miinfer.KvCache.Transfer.{download_raw-length}
use miinfer.Recurrent.{Recurrent, state_bytes, conv_history_bytes, download}
use miinfer.Recurrent.Transfer as Layer
use miinfer.Session.Save.{store_at, lift_cache, gather_gdn, gather_kv}

-- A part in the middle of a buffer, and what is in front of the next one then.
store_at-take :
    (buffer bytes : List ℕ) (offset : ℕ)
    → offset + length bytes ≤ length buffer
    → (after : List ℕ) × (store_at buffer offset bytes ≡ ok after)
      × (length after ≡ length buffer)
      × (take (offset + length bytes) after ≡ take offset buffer ++ bytes)
unfolding store_at
store_at-take buffer bytes offset fits =
    let front = take offset buffer in
    let behind = drop (offset + length bytes) buffer in
    let front_length : length front ≡ offset = omega (arith, length-take offset buffer) in
    (
      front ++ bytes ++ behind,
      ground arith,
      omega (
        arith,
        length-append (front ++ bytes) behind,
        length-append front bytes,
        length-drop (offset + length bytes) buffer,
      ),
      take-append (offset + length bytes) (front ++ bytes) behind
          (length-append front bytes ∙ ap (λ n. n + length bytes) front_length),
    )

module _ (hip : Hip) where
  -- The snapshots of the storages, one of `single` bytes for each.
  abbrev pub Snapshots : ℕ → ℕ → List (Storage hip) → List (List ℕ) → Type 0
  Snapshots tokens single [] [] = Unit {0}
  Snapshots tokens single [] (b ∷ bs) = ⊥
  Snapshots tokens single (s ∷ ss) [] = ⊥
  Snapshots tokens single (s ∷ ss) (b ∷ bs) =
      (download_raw hip s true tokens ≡ ok b) × (length b ≡ single) × Snapshots tokens single ss bs

  -- A storage in a mode, with room for some tokens.
  pub record Holds (mode : QuantMode) (tokens : ℕ) (s : Storage hip) : Type 0 where
    pub valid : Cache.IsValid hip s
    pub in_mode : s.quant_mode ≡ mode
    pub room : tokens ≤ s.capacity

  pub Holds-Snapshots :
      (mode : QuantMode) (tokens : ℕ) (ss : List (Storage hip))
      → All (Holds mode tokens) ss
      → (parts : List (List ℕ)) × Snapshots tokens (raw_tokens_bytes mode tokens) ss parts
  Holds-Snapshots mode tokens [] h = ([], tt)
  Holds-Snapshots mode tokens (s ∷ ss) (here, h) =
      let (bytes, shown, sized) = download_raw-length hip s tokens here.valid here.room in
      let (parts, others) = Holds-Snapshots mode tokens ss h in
      (bytes ∷ parts, (shown, sized ∙ ap (λ m. raw_tokens_bytes m tokens) here.in_mode, others))

  pub length-parts :
      (tokens single : ℕ) (ss : List (Storage hip)) (parts : List (List ℕ))
      → Snapshots tokens single ss parts
      → length (join parts) ≡ length ss * single
  length-parts tokens single [] [] h = omega arith
  length-parts tokens single [] (b ∷ bs) h = elim h [ ]
  length-parts tokens single (s ∷ ss) [] h = elim h [ ]
  length-parts tokens single (s ∷ ss) (b ∷ bs) (_, sized, h) =
      omega (arith, length-append b (join bs), length-parts tokens single ss bs h)

  -- The loop fills the buffer from its j-th part on.
  pub gather_kv-Snapshots :
      (tokens single j : ℕ) (ss : List (Storage hip)) (parts : List (List ℕ)) (buffer : List ℕ)
      → Snapshots tokens single ss parts
      → length buffer ≡ (j + length ss) * single
      → gather_kv hip ss j single tokens buffer ≡ ok (take (j * single) buffer ++ join parts)
  unfolding gather_kv lift_cache
  gather_kv-Snapshots tokens single j [] [] buffer h sized =
      ap ok
        (sym (append-nil (take (j * single) buffer) ∙ take-all (j * single) buffer (omega arith)))
  gather_kv-Snapshots tokens single j [] (b ∷ bs) buffer h sized = elim h [ ]
  gather_kv-Snapshots tokens single j (s ∷ ss) [] buffer h sized = elim h [ ]
  gather_kv-Snapshots tokens single j (s ∷ ss) (b ∷ bs) buffer (shown, whole, h) sized =
      let (after, stored, same_length, front) = store_at-take buffer b (j * single) (omega arith) in
      let later = gather_kv-Snapshots tokens single (j + 1) ss bs after h (omega arith) in
      let advanced : take ((j + 1) * single) after ≡ take (j * single) buffer ++ b =
        subst (λ n. take n after ≡ take (j * single) buffer ++ b) (omega arith) front in
      rw (shown, stored)
        (later
          ∙ ap (λ xs. ok (xs ++ join bs)) advanced
          ∙ ap ok (append_assoc (take (j * single) buffer) b (join bs)))

  pub length-gather_gdn :
      (layers : List (Recurrent hip))
      → All (Layer.IsValid hip) layers
      → length (gather_gdn hip layers) ≡ length layers * (state_bytes + conv_history_bytes)
  unfolding gather_gdn download
  length-gather_gdn [] v = omega arith
  length-gather_gdn (s ∷ rest) (here, v) =
      let state = hip.read s.state 0 state_bytes in
      let history = hip.read s.conv_history 0 conv_history_bytes in
      omega (
        arith,
        length-append (state ++ history) (gather_gdn hip rest),
        length-append state history,
        hip.length-read s.state 0 state_bytes (omega (arith, here.state_room)),
        hip.length-read s.conv_history 0 conv_history_bytes (omega (arith, here.history_room)),
        length-gather_gdn rest v,
      )
