-- ===== src/Recurrent/Transfer.antt =====
-- What the operations on the state of a recurrent layer do to its device buffers.
use miinfer.Prelude.{ℕ, ◌≤◌, ◌≡◌, refl, ap₂, List, ok, arith, length, replicate}
use miinfer.Device.{Hip}
use miinfer.Recurrent.{
  Recurrent, reset, construct, upload, download, set_position, state_bytes, conv_history_bytes,
}

module _ (hip : Hip) where
  open hip use {malloc, size, size-malloc, size-clear, size-write, read-clear, read-write}

  -- The buffers have room for a state and a history.
  pub record IsValid (s : Recurrent hip) : Type 0 where
    pub state_room : state_bytes ≤ size s.state
    pub history_room : conv_history_bytes ≤ size s.conv_history

  pub reset-IsValid : (s : Recurrent hip) → IsValid s → IsValid (reset hip s)
  unfolding reset
  reset-IsValid s v = record {
    state_room = omega (arith, v.state_room, size-clear s.state state_bytes);
    history_room = omega (arith, v.history_room, size-clear s.conv_history conv_history_bytes);
  }

  -- A reset clears what can be downloaded, and the position.
  pub reset-download :
      (s : Recurrent hip)
      → IsValid s
      → (download hip (reset hip s) ≡ (replicate state_bytes 0, replicate conv_history_bytes 0))
        × ((reset hip s).position ≡ 0)
  unfolding reset download
  reset-download s v =
      let n = state_bytes in
      let m = conv_history_bytes in
      (
        ap₂ (λ a b. (a, b)) (read-clear s.state n 0 n v.state_room (omega arith))
            (read-clear s.conv_history m 0 m v.history_room (omega arith)),
        refl,
      )

  pub construct-IsValid : IsValid (construct hip)
  unfolding construct
  construct-IsValid =
      reset-IsValid
        (record {
          state = malloc state_bytes;
          conv_history = malloc conv_history_bytes;
          position = 0;
        })
        (record {
          state_room = omega (arith, size-malloc state_bytes);
          history_room = omega (arith, size-malloc conv_history_bytes);
        })

  -- An upload of a state and a history of the right sizes succeeds; a download returns them, at the
  -- position that was given, and the buffers keep their room.
  pub upload-download :
      (s : Recurrent hip) (states history : List ℕ) (pos : ℕ)
      → IsValid s
      → length states ≡ state_bytes
      → length history ≡ conv_history_bytes
      → (s' : Recurrent hip) × (upload hip s states history pos ≡ ok s')
        × (download hip s' ≡ (states, history))
        × (s'.position ≡ pos)
        × IsValid s'
  unfolding upload download state_bytes conv_history_bytes
  upload-download s states history pos v sl hl = (
    _,
    ground arith,
    ap₂ (λ a b. (a, b)) (read-write s.state 0 state_bytes states sl (omega (arith, v.state_room)))
        (read-write s.conv_history 0 conv_history_bytes history hl (omega (arith, v.history_room))),
    refl,
    record {
      state_room = omega (arith, v.state_room, size-write s.state 0 states);
      history_room = omega (arith, v.history_room, size-write s.conv_history 0 history);
    },
  )

  pub set_position-IsValid :
      (s : Recurrent hip) (pos : ℕ) → IsValid s → IsValid (set_position hip s pos)
  unfolding set_position
  set_position-IsValid s pos v = record { state_room = v.state_room; history_room = v.history_room }
