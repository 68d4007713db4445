-- ===== src/Gguf/Reader.antt =====
-- class Reader of src/gguf.cpp: a cursor over the mapped file.
pub mod Bounds
use miinfer.Prelude.{
  ℕ, zero, suc, ◌+◌, ◌-◌, ◌%◌, ◌≤◌, ◌<◌, ◌≡◌, refl, List, String, Result, ok, err, Bool, true,
  false, ltb, if◌then◌else◌, length, take, drop,
}
use miinfer.Prelude.Words.{word_mod, sub64, from_bytes}
use miinfer.Gguf.Types.{Error, unreasonably_large, truncated, Outcome}
use miinfer.Gguf.Checked.{checked_size}

-- size_ is the length of the bytes.
pub record Reader : Type 0 where
  pub bytes : List ℕ
  pub position : ℕ

-- A method of the reader: it throws, or returns a value and leaves the reader in a new state.
abbrev pub Read : Type 0 → Type 0
Read A = Reader → Outcome (A × Reader)

abbrev pub continue : {A B : Type 0} → Outcome (A × Reader) → (A → Read B) → Outcome (B × Reader)
continue (ok (a, r)) f = f a r
continue (err e) f = err e

infixl 5 ◌>>=◌ ◌>>◌
abbrev pub ◌>>=◌ : {A B : Type 0} → Read A → (A → Read B) → Read B
◌>>=◌ m f r = continue (m r) f

abbrev pub ◌>>◌ : {B : Type 0} → Read (Unit {0}) → Read B → Read B
m >> k = m >>= λ _. k

abbrev pub pure : {A : Type 0} → A → Read A
pure a r = ok (a, r)

-- A computation that does not use the reader.
abbrev pub lift : {A : Type 0} → Outcome A → Read A
lift (ok a) r = ok (a, r)
lift (err e) r = err e

abbrev pub fail : {A : Type 0} → Error → Read A
fail e r = err e

-- `if (test) fail(e);`
abbrev pub reject : Bool → Error → Read (Unit {0})
reject true e r = err e
reject false e r = ok (tt, r)

-- kMaxStringBytes
abbrev pub max_string_bytes : ℕ
max_string_bytes = 1073741824

unfoldable pub require : ℕ → String → Read (Unit {0})
require n what r =
    if ltb (sub64 (length r.bytes) r.position) n then err (truncated what) else ok (tt, r)

-- The n bytes at the position, which is then moved behind them.
unfoldable pub bytes_at : ℕ → Read (List ℕ)
bytes_at n r = ok (take n (drop r.position r.bytes), record r { position = r.position + n })

-- The check and the copy that read<T> and string share.
unfoldable pub block : ℕ → String → Read (List ℕ)
unfolding require bytes_at
block n what = do require n what; bytes_at n

-- read<T> for an unsigned type T of n bytes, on a little-endian host.
unfoldable pub read : ℕ → String → Read ℕ
unfolding block
read n what = do bs ← block n what; pure (from_bytes bs)

unfoldable pub string : String → Read (List ℕ)
unfolding block
string what = do
  len ← read 8 what
  reject (ltb max_string_bytes len) (unreasonably_large what)
  n ← lift (checked_size len what)
  block n what
