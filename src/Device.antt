-- ===== src/Device.antt =====
-- Device memory as the code uses it through HIP: what hipMalloc, hipMemset and hipMemcpy promise.
-- A call that fails aborts the process (include/miinfer/hip_check.hpp), so no state follows it; the
-- copies of one stream take place in order, and are seen after hipStreamSynchronize.
pub mod Concrete
use miinfer.Prelude.{ℕ, ◌+◌, ◌≤◌, ◌≡◌, ◌⊎◌, List, length, replicate}

pub record Hip : Type 1 where
  pub Buffer : Type 0
  pub size : Buffer → ℕ
  -- hipMalloc
  pub malloc : ℕ → Buffer
  -- hipMemset(buffer, 0, bytes)
  pub clear : Buffer → ℕ → Buffer
  -- hipMemcpy from buffer + offset, to the host or to another buffer
  pub read : Buffer → ℕ → ℕ → List ℕ
  -- hipMemcpy to buffer + offset
  pub write : Buffer → ℕ → List ℕ → Buffer
  pub size-malloc : (n : ℕ) → size (malloc n) ≡ n
  pub size-clear : (b : Buffer) (n : ℕ) → size (clear b n) ≡ size b
  pub size-write : (b : Buffer) (o : ℕ) (xs : List ℕ) → size (write b o xs) ≡ size b
  pub length-read : (b : Buffer) (o n : ℕ) → o + n ≤ size b → length (read b o n) ≡ n
  pub read-clear :
      (b : Buffer) (m o n : ℕ) → m ≤ size b → o + n ≤ m → read (clear b m) o n ≡ replicate n 0
  pub read-write :
      (b : Buffer) (o n : ℕ) (xs : List ℕ)
      → length xs ≡ n
      → o + n ≤ size b
      → read (write b o xs) o n ≡ xs
  pub read-write_apart :
      (b : Buffer) (o p n : ℕ) (xs : List ℕ)
      → o + length xs ≤ size b
      → (p + n ≤ o) ⊎ (o + length xs ≤ p)
      → read (write b o xs) p n ≡ read b p n
