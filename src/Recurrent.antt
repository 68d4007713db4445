-- ===== src/Recurrent.antt =====
-- RecurrentLayerStateStorage, src/prefill_v2/state.cpp and include/miinfer/prefill_v2/state.hpp: the
-- device state of one recurrent layer. A storage that was moved from is not used again.
pub mod Transfer
use miinfer.Prelude.{ℕ, ◌*◌, not, List, Result, ok, err, ◌==◌, if◌then◌else◌, length}
use miinfer.Constants.{v_heads, state_width, conv_kernel, channels}
use miinfer.Device.{Hip}

-- kStateElements, kConvHistoryElements and their sizes as floats.
unfoldable pub state_elements : ℕ
state_elements = v_heads * state_width * state_width

unfoldable pub conv_history_elements : ℕ
conv_history_elements = conv_kernel * channels

unfoldable pub state_bytes : ℕ
unfolding state_elements
state_bytes = state_elements * 4

unfoldable pub conv_history_bytes : ℕ
unfolding conv_history_elements
conv_history_bytes = conv_history_elements * 4

pub data Error : Type 0 where
  invalid_state_count invalid_history_count : Error

module _ (hip : Hip) where
  open hip use {Buffer, malloc, clear, read, write}

  pub record Recurrent : Type 0 where
    pub state : Buffer
    pub conv_history : Buffer
    pub position : ℕ

  unfoldable pub reset : Recurrent → Recurrent
  reset s = record {
    state = clear s.state state_bytes;
    conv_history = clear s.conv_history conv_history_bytes;
    position = 0;
  }

  unfoldable pub construct : Recurrent
  unfolding reset
  construct = reset (record {
    state = malloc state_bytes;
    conv_history = malloc conv_history_bytes;
    position = 0;
  })

  -- The host data as bytes, four to an element.
  unfoldable pub upload : Recurrent → List ℕ → List ℕ → ℕ → Result Error Recurrent
  upload s host_state host_history pos =
      if not (length host_state == state_elements * 4)
      then err invalid_state_count
      else if not (length host_history == conv_history_elements * 4)
      then err invalid_history_count
      else ok (record {
        state = write s.state 0 host_state;
        conv_history = write s.conv_history 0 host_history;
        position = pos;
      })

  unfoldable pub download : Recurrent → List ℕ × List ℕ
  download s = (read s.state 0 state_bytes, read s.conv_history 0 conv_history_bytes)

  unfoldable pub set_position : Recurrent → ℕ → Recurrent
  set_position s pos = record s { position = pos }
