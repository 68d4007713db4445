-- ===== src/Session/Load/States.antt =====
-- The loops of a load bring back what a save has gathered.
use miinfer.Prelude.{
  join, ℕ, ◌+◌, ◌*◌, ◌≤◌, ◌≡◌, refl, sym, ap, ap₂, subst, ◌∙◌, true, List, [], ◌∷◌, ◌++◌, map, ok,
  arith, All, length, take, drop, length-append, length-drop, take-append, drop-append, drop-drop,
  append_assoc,
}
use miinfer.Device.{Hip}
use miinfer.KvCache.{QuantMode, Storage, download_raw}
use miinfer.KvCache.Transfer.{upload_raw-download_raw}
use miinfer.Recurrent.{Recurrent, state_bytes, conv_history_bytes, download, set_position}
use miinfer.Recurrent.Transfer.{IsValid}
use miinfer.Session.Save.{lift_cache, gather_gdn}
use miinfer.Session.Save.Gather.{Snapshots, Holds}
use miinfer.Session.Load.{host_slice, load_gdn, load_kv}

-- A slice that is there, and what is behind it.
host_slice_lem :
    (buffer xs ys : List ℕ) (offset n : ℕ)
    → drop offset buffer ≡ xs ++ ys
    → length xs ≡ n
    → offset ≤ length buffer
    → (host_slice buffer offset n ≡ ok xs)
      × (drop (offset + n) buffer ≡ ys)
      × (offset + n ≤ length buffer)
unfolding host_slice
host_slice_lem buffer xs ys offset n e sized inside =
    let room : offset + n ≤ length buffer =
      omega (arith, ap length e, length-append xs ys, length-drop offset buffer) in
    (
      ground (arith, take-append n xs ys sized, ap (take n) e),
      sym (drop-drop offset n buffer) ∙ ap (drop n) e ∙ drop-append n xs ys sized,
      room,
    )

module _ (hip : Hip) where
  open hip use {read, length-read, read-write, size-write}

  -- What a load of the recurrent layers gives: the states of the layers that were saved, at the
  -- position, and layers that are valid.
  pub record AreLoaded (saved : List (Recurrent hip)) (position : ℕ) (loaded : List (Recurrent hip))
      : Type 0 where
    pub shows : map (download hip) loaded ≡ map (download hip) saved
    pub positions : All (λ s. s.position ≡ position) loaded
    pub valid : All (IsValid hip) loaded
    pub count : length loaded ≡ length saved

  pub load_gdn-gather_gdn :
      (saved target : List (Recurrent hip)) (buffer : List ℕ) (offset position : ℕ)
      → length target ≡ length saved
      → All (IsValid hip) saved
      → All (IsValid hip) target
      → drop offset buffer ≡ gather_gdn hip saved
      → offset ≤ length buffer
      → (loaded : List (Recurrent hip)) × (load_gdn hip buffer offset position target ≡ ok loaded)
        × AreLoaded saved position loaded
  unfolding load_gdn gather_gdn download set_position
  load_gdn-gather_gdn [] [] buffer offset position same v w e inside =
      ([], refl, record { shows = refl; positions = tt; valid = tt; count = refl })
  load_gdn-gather_gdn [] (t ∷ ts) buffer offset position same v w e inside = absurd (omega arith)
  load_gdn-gather_gdn (s ∷ ss) [] buffer offset position same v w e inside = absurd (omega arith)
  load_gdn-gather_gdn (s ∷ ss) (t ∷ ts) buffer offset position same (vs, v) (vt, w) e inside =
      let n = state_bytes in
      let m = conv_history_bytes in
      let state = read s.state 0 n in
      let history = read s.conv_history 0 m in
      let more = gather_gdn hip ss in
      let state_length = length-read s.state 0 n (omega (arith, vs.state_room)) in
      let history_length = length-read s.conv_history 0 m (omega (arith, vs.history_room)) in
      let (cut, behind, room) =
        host_slice_lem buffer state (history ++ more) offset n (e ∙ append_assoc state history more)
          state_length inside in
      let (cut', behind', room') =
        host_slice_lem buffer history more (offset + n) m behind history_length room in
      let (others, up, done) =
        load_gdn-gather_gdn ss ts buffer (offset + n + m) position (omega arith) v w behind'
          room' in
      let t' : Recurrent hip = record {
        state = hip.write t.state 0 state;
        conv_history = hip.write t.conv_history 0 history;
        position = position;
      } in
      (
        t' ∷ others,
        rw (cut, cut', up) refl,
        record {
          shows =
              ap₂ ◌∷◌
                (ap₂ (λ b c. (b, c))
                  (read-write t.state 0 n state state_length (omega (arith, vt.state_room)))
                  (read-write t.conv_history 0 m history history_length
                    (omega (arith, vt.history_room))))
                done.shows;
          positions = (refl, done.positions);
          valid = (
            record {
              state_room = omega (arith, vt.state_room, size-write t.state 0 state);
              history_room = omega (arith, vt.history_room, size-write t.conv_history 0 history);
            },
            done.valid,
          );
          count = omega (arith, done.count);
        },
      )

  -- What the storages show of the first tokens, one after the other.
  abbrev pub Shows : ℕ → List (Storage hip) → List (List ℕ) → Type 0
  Shows tokens [] [] = Unit {0}
  Shows tokens [] (b ∷ bs) = ⊥
  Shows tokens (s ∷ ss) [] = ⊥
  Shows tokens (s ∷ ss) (b ∷ bs) = (download_raw hip s true tokens ≡ ok b) × Shows tokens ss bs

  pub load_kv-Snapshots :
      (mode : QuantMode) (tokens single j : ℕ) (saved target : List (Storage hip))
      (parts : List (List ℕ)) (buffer : List ℕ)
      → length target ≡ length saved
      → All (Holds hip mode tokens) saved
      → All (Holds hip mode tokens) target
      → Snapshots hip tokens single saved parts
      → drop (j * single) buffer ≡ join parts
      → (loaded : List (Storage hip)) × (load_kv hip buffer j single tokens target ≡ ok loaded)
        × Shows tokens loaded parts
        × All (Holds hip mode tokens) loaded
  unfolding load_kv lift_cache
  load_kv-Snapshots mode tokens single j [] [] [] buffer same v w h e = ([], refl, tt, tt)
  load_kv-Snapshots mode tokens single j [] [] (b ∷ bs) buffer same v w h e = elim h [ ]
  load_kv-Snapshots mode tokens single j [] (t ∷ ts) parts buffer same v w h e =
      absurd (omega arith)
  load_kv-Snapshots mode tokens single j (s ∷ ss) [] parts buffer same v w h e =
      absurd (omega arith)
  load_kv-Snapshots mode tokens single j (s ∷ ss) (t ∷ ts) [] buffer same v w h e = elim h [ ]
  load_kv-Snapshots mode tokens single j (s ∷ ss) (t ∷ ts) (b ∷ bs) buffer same (vs, v) (vt, w)
        (shown, whole, h) e =
      let (t', up, back, capacity, in_mode, valid) =
        upload_raw-download_raw hip s t tokens b (join bs) vs.valid vt.valid
          (vs.in_mode ∙ sym vt.in_mode) vt.room shown in
      let behind : drop ((j + 1) * single) buffer ≡ join bs =
        subst (λ n. drop n buffer ≡ join bs) (omega arith)
          (sym (drop-drop (j * single) single buffer)
            ∙ ap (drop single) e
            ∙ drop-append single b (join bs) whole) in
      let (others, up', shows, holds) =
        load_kv-Snapshots mode tokens single (j + 1) ss ts bs buffer (omega arith) v w h behind in
      (
        t' ∷ others,
        rw (e, up, up') refl,
        (back, shows),
        (
          record { valid = valid; in_mode = in_mode ∙ vt.in_mode; room = omega (arith, vt.room) },
          holds,
        ),
      )
