-- ===== src/Session/Model.antt =====
-- What a session reads and writes of PrefillV2Model, include/miinfer/prefill_v2/model.hpp.
use miinfer.Prelude.{ℕ, List}
use miinfer.Device.{Hip}
use miinfer.KvCache
use miinfer.KvCache.{QuantMode}
use miinfer.Recurrent
use miinfer.Context

-- kExpectedGdnLayers, kExpectedGqaLayers: the constructor of the model makes as many storages.
abbrev pub gdn_layers : ℕ
gdn_layers = 48

abbrev pub gqa_layers : ℕ
gqa_layers = 16

-- static_cast<std::uint8_t> of a KvCacheQuantMode
unfoldable pub mode_byte : QuantMode → ℕ
mode_byte QuantMode.fp16_fp16 = 0
mode_byte QuantMode.q8_fp16 = 1
mode_byte QuantMode.fp16_q8 = 2
mode_byte QuantMode.q8_q8 = 3

-- The exceptions of the session and of the storages, and what the language leaves undefined: reads
-- and writes behind the end of a host buffer, and a name without a NUL.
pub data Error : Type 0 where
  empty_prefix cannot_create cannot_open write_failure cannot_rename : Error
  read_past_end write_past_end unterminated_name : Error
  cache : KvCache.Error → Error
  context : Context.Error → Error

module _ (hip : Hip) where
  pub record Model : Type 0 where
    pub model_name : List ℕ
    pub quantization : List ℕ
    pub kv_quant_mode : QuantMode
    pub recurrent_states : List (Recurrent.Recurrent hip)
    pub kv_caches : List (KvCache.Storage hip)
    pub reusable_context : Context.Context hip
