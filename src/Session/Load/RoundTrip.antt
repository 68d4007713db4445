-- ===== src/Session/Load/RoundTrip.antt =====
-- A session that is saved can be loaded into another model.
use miinfer.Prelude.{
  join, ℕ, ◌<◌, ◌≡◌, refl, sym, ap, ◌∙◌, true, none, some, List, [], ◌∷◌, ◌++◌, ok, arith, All,
  length,
}
use miinfer.Prelude.Words.{word_mod}
use miinfer.Device.{Hip}
use miinfer.Session.Header.{serialize}
use miinfer.Session.Model.{Model}
use miinfer.Session.Save.{
  Disk, Calls, remove, put, temp_path, token_bytes, gather_gdn, make_header, save_with,
  write_atomically, save_to_file,
}
use miinfer.Session.Save.Atomic.{lookup-put_same}
use miinfer.Session.Load.{load_header, load_stream, load_from_file}
use miinfer.Session.Load.Stream.{read_header-serialize}
use miinfer.Session.Load.Written.{
  IsReady, make_header-IsHeader, make_header-names, contents-Written,
}
use miinfer.Session.Load.Stages.{IsLoaded, make_header-Describes, load_header-IsLoaded}

-- Every system call succeeds.
abbrev pub no_failure : Calls
no_failure = record { created = true; opened = true; cut_at = none; renamed = true }

module _ (hip : Hip) where
  -- A session of a model that is ready, saved without a failure of the file system, is loaded by any
  -- model that is ready and has the same names and cache mode: the load answers true and the saved
  -- tokens; every layer then shows the state and history that were saved, at the position behind the
  -- tokens, and every cache the bytes that were saved.
  pub save_to_file-load_from_file :
      (m t : Model hip) (now : ℕ) (tokens path : List ℕ) (disk : Disk)
      → IsReady hip (length tokens) m
      → IsReady hip (length tokens) t
      → t.model_name ≡ m.model_name
      → t.quantization ≡ m.quantization
      → t.kv_quant_mode ≡ m.kv_quant_mode
      → 0 < length tokens
      → length tokens < 4294967296
      → All (λ tok. tok < 4294967296) tokens
      → now < word_mod
      → (disk' : Disk) × (save_to_file hip no_failure path disk m now tokens ≡ (disk', ok tt))
        × (t' : Model hip) × (load_from_file hip disk' path t ≡ ok (true, t', some tokens))
        × IsLoaded hip m tokens t t'
  unfolding save_to_file save_with write_atomically load_from_file load_stream
  save_to_file-load_from_file m t now [] path disk vm vt e e' mode pos small fits time =
      absurd (omega arith)
  save_to_file-load_from_file m t now (tok ∷ more) path disk vm vt e e' mode pos small fits time =
      let tokens = tok ∷ more in
      let h = make_header hip m now tokens in
      let file = contents-Written hip m now tokens vm small in
      let (model, quant) = make_header-names hip m now tokens vm in
      let (t', done, good) =
        load_header-IsLoaded hip m t h tokens file.parts vm vt mode file.snapshots pos small fits
          (make_header-Describes hip m now tokens vm small) (model ∙ ap some (sym e))
          (quant ∙ ap some (sym e')) in
      let payload = token_bytes tokens ++ (gather_gdn hip m.recurrent_states ++ join file.parts) in
      let cleaned = remove (temp_path path) disk in
      let disk' = put path (serialize h ++ payload) cleaned in
      let found = lookup-put_same path (serialize h ++ payload) cleaned in
      let head =
        read_header-serialize h payload (make_header-IsHeader hip m now tokens vm small time) in
      (
        disk',
        rw file.written refl,
        t',
        ap (load_stream hip t) found ∙ ap (load_header hip t) head ∙ done,
        good,
      )
