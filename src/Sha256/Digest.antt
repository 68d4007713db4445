-- ===== src/Sha256/Digest.antt =====
-- sha256_bytes and sha256_file, src/sha256.cpp: the digest of the bytes that they are given.
use miinfer.Prelude.{
  ℕ, ◌≡◌, refl, ap, sym, subst, ◌∙◌, Option, none, some, List, [], ◌∷◌, ◌++◌, Result, ok, err,
  append_assoc, append-nil,
}
use miinfer.Sha256.{
  Hash, new_hash, update, print, finish, sha256_bytes, FileError, error_while_reading, Input, full,
  at_end, failed, update_some, read_loop, sha256_file,
}
use miinfer.Sha256.Padding.{digest}
use miinfer.Sha256.Finish.{Represents, new_hash-Represents, update-Represents, finish-Represents}

-- The buffered hash of any byte string: the string is padded, cut into blocks of 64 bytes, and these
-- go through transform in their order.
pub sha256_bytes-digest : (bytes : List ℕ) → sha256_bytes bytes ≡ digest bytes
unfolding sha256_bytes digest finish
sha256_bytes-digest bytes = ap print (
    finish-Represents bytes (update new_hash bytes)
      (update-Represents [] new_hash bytes new_hash-Represents))

unfoldable pub prefixed : List ℕ → Option (List ℕ) → Option (List ℕ)
prefixed message none = none
prefixed message (some bytes) = some (message ++ bytes)

prefixed-append :
    (a b : List ℕ) (o : Option (List ℕ)) → prefixed (a ++ b) o ≡ prefixed a (prefixed b o)
unfolding prefixed
prefixed-append a b none = refl
prefixed-append a b (some bytes) = ap some (append_assoc a b bytes)

prefixed-nil : (o : Option (List ℕ)) → prefixed [] o ≡ o
unfolding prefixed
prefixed-nil none = refl
prefixed-nil (some bytes) = refl

-- What a file holds, none where a read fails before its end.
unfoldable pub contents : Input → Option (List ℕ)
unfolding prefixed
contents (full chunk input) = prefixed chunk (contents input)
contents (at_end chunk) = some chunk
contents (failed chunk) = none

-- The outcome for such a file.
unfoldable pub hash_of : Option (List ℕ) → Result FileError (List ℕ)
unfolding sha256_bytes
hash_of none = err error_while_reading
hash_of (some bytes) = ok (sha256_bytes bytes)

update_some-Represents :
    (message : List ℕ) (s : Hash) (chunk : List ℕ)
    → Represents message s
    → Represents (message ++ chunk) (update_some s chunk)
unfolding update_some
update_some-Represents message s [] r = subst (λ m. Represents m s) (sym (append-nil message)) r
update_some-Represents message s (b ∷ chunk) r = update-Represents message s (b ∷ chunk) r

read_loop-lem :
    (input : Input) (message : List ℕ) (s : Hash)
    → Represents message s
    → read_loop s input ≡ hash_of (prefixed message (contents input))
unfolding read_loop contents hash_of prefixed finish digest
read_loop-lem (full chunk input) message s r =
    read_loop-lem input (message ++ chunk) (update_some s chunk)
      (update_some-Represents message s chunk r)
    ∙ ap hash_of (prefixed-append message chunk (contents input))
read_loop-lem (at_end chunk) message s r =
    ap (λ w. ok (print w))
      (finish-Represents (message ++ chunk) (update_some s chunk)
        (update_some-Represents message s chunk r))
    ∙ ap ok (sym (sha256_bytes-digest (message ++ chunk)))
read_loop-lem (failed chunk) message s r = refl

-- However the reads cut a file that can be opened, sha256_file gives the hash of the bytes that the
-- file holds, or throws where a read fails.
pub sha256_file-contents : (input : Input) → sha256_file (some input) ≡ hash_of (contents input)
unfolding sha256_file
sha256_file-contents input =
    read_loop-lem input [] new_hash new_hash-Represents ∙ ap hash_of (prefixed-nil (contents input))
