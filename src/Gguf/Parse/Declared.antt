-- ===== src/Gguf/Parse/Declared.antt =====
-- What the tables hold once they are read: distinct names, ranks from 1 to 8, sizes by the layout.
use miinfer.Prelude.{
  ℕ, zero, suc, ◌≤◌, ◌≡◌, ◌≢◌, refl, ap, subst, ◌||◌, false, none, List, [], ◌∷◌, ◌++◌, ok, arith,
  ltb, ◌==◌, list_eq, list_eq_refl, list_eq_comm, length, All, All-append, ok-injective,
  Option-cases, inl, inr,
}
use miinfer.Gguf.Types.{rank_out_of_range, duplicate_tensor, Tensor, Value}
use miinfer.Gguf.Reader.{Reader, lift, reject, read, string}
use miinfer.Gguf.Reader.Bounds.{continue-ok, check-ok, lift-ok}
use miinfer.Gguf.Values.{read_value}
use miinfer.Gguf.Sizes.{tensor_type, tensor_byte_size}
use miinfer.Gguf.Parse.{
  Entries, find_entry, emplace, insert_new, read_metadata, read_dimensions, has_tensor, read_tensor,
  read_tensors, max_dimensions,
}

-- A tensor as it stands in the table.
pub record IsDeclared (t : Tensor) : Type 0 where
  pub has_rank : 1 ≤ length t.dimensions
  pub rank_bounded : length t.dimensions ≤ 8
  pub sized : tensor_byte_size t.type t.dimensions ≡ ok t.byte_size

-- No two tensors have one name.
abbrev pub DistinctNames : List Tensor → Type 0
DistinctNames [] = Unit {0}
DistinctNames (t ∷ ts) = All (λ u. t.name ≢ u.name) ts × DistinctNames ts

-- No two entries have one key.
abbrev pub DistinctKeys : Entries → Type 0
DistinctKeys [] = Unit {0}
DistinctKeys ((k, v) ∷ rest) = (find_entry k rest ≡ none) × DistinctKeys rest

read_dimensions-length :
    (rank : ℕ) (r s : Reader) (ds : List ℕ) → read_dimensions rank r ≡ ok (ds, s) → length ds ≡ rank
unfolding read_dimensions
read_dimensions-length zero r s ds e = ground arith
read_dimensions-length (suc rank) r s ds e =
    continue-ok (read 8 "tensor dimension" r) _ e λ d r1 _ e1.
      continue-ok (read_dimensions rank r1) _ e1
        λ rest r2 e2 e3. ground (arith, read_dimensions-length rank r1 r2 rest e2)

-- The name of the new tensor was not there before.
read_tensor-IsDeclared :
    (before : List Tensor) (r s : Reader) (t : Tensor)
    → read_tensor before r ≡ ok (t, s)
    → IsDeclared t × (has_tensor t.name before ≡ false)
unfolding read_tensor
read_tensor-IsDeclared before r s t e = continue-ok (string "tensor name" r) _ e λ name r1 _ e1.
    continue-ok (read 4 "tensor rank" r1) _ e1 λ rank r2 _ e2.
      continue-ok (reject ((rank == 0) || ltb max_dimensions rank) rank_out_of_range r2) _ e2
        λ _ r3 ranked e3. continue-ok (read_dimensions rank r3) _ e3 λ ds r4 counted e4.
          continue-ok (read 4 "tensor type" r4) _ e4 λ raw r5 _ e5.
            continue-ok (lift (tensor_type raw) r5) _ e5 λ type r6 _ e6.
              continue-ok (read 8 "tensor offset" r6) _ e6 λ offset r7 _ e7.
                continue-ok (lift (tensor_byte_size type ds) r7) _ e7 λ n r8 sized e8.
                  continue-ok (reject (has_tensor name before) (duplicate_tensor name) r8) _ e8
                    λ _ r9 new e9. ground (
                      arith,
                      check-ok _ rank_out_of_range r2 ranked,
                      read_dimensions-length rank r3 r4 ds counted,
                      lift-ok (tensor_byte_size type ds) r7 sized,
                      check-ok _ (duplicate_tensor name) r8 new,
                    )

ne_of_list_eq : (a b : List ℕ) → list_eq a b ≡ false → a ≢ b
ne_of_list_eq a b h e = cc (list_eq_refl b, ap (λ t. list_eq t b) e)

All-append_last :
    (name : List ℕ) (ts : List Tensor) (u : Tensor)
    → All (λ v. name ≢ v.name) ts
    → name ≢ u.name
    → All (λ v. name ≢ v.name) (ts ++ u ∷ [])
All-append_last name ts u h k = All-append (λ v. name ≢ v.name) ts (u ∷ []) h (k, tt)

DistinctNames-append :
    (ts : List Tensor) (u : Tensor)
    → has_tensor u.name ts ≡ false
    → DistinctNames ts
    → DistinctNames (ts ++ u ∷ [])
unfolding has_tensor
DistinctNames-append [] u h d = (tt, tt)
DistinctNames-append (t ∷ ts) u h d = (
  All-append_last t.name ts u d.0 (ne_of_list_eq t.name u.name (ground arith)),
  DistinctNames-append ts u (ground arith) d.1,
)

-- Every tensor that is read is declared, and no name comes twice.
pub read_tensors-IsDeclared :
    (count : ℕ) (before ts : List Tensor) (r s : Reader)
    → All IsDeclared before
    → DistinctNames before
    → read_tensors count before r ≡ ok (ts, s)
    → All IsDeclared ts × DistinctNames ts
unfolding read_tensors
read_tensors-IsDeclared zero before ts r s h d e =
    let same : before ≡ ts = ap (λ p. p.0) (ok-injective e) in
    subst (λ l. All IsDeclared l × DistinctNames l) same (h, d)
read_tensors-IsDeclared (suc count) before ts r s h d e =
    continue-ok (read_tensor before r) _ e λ t r1 got e1.
      let (good, new) = read_tensor-IsDeclared before r r1 t got in
      read_tensors-IsDeclared count (before ++ t ∷ []) ts r1 s
        (All-append IsDeclared before (t ∷ []) h (good, tt)) (DistinctNames-append before t new d)
        e1

find_entry-append_none :
    (k key : List ℕ) (v : Value) (entries : Entries)
    → find_entry k entries ≡ none
    → list_eq key k ≡ false
    → find_entry k (entries ++ (key, v) ∷ []) ≡ none
unfolding find_entry
find_entry-append_none k key v [] h n = rw n
find_entry-append_none k key v ((j, w) ∷ rest) h n =
    ground (arith, find_entry-append_none k key v rest)

DistinctKeys-append :
    (key : List ℕ) (v : Value) (entries : Entries)
    → find_entry key entries ≡ none
    → DistinctKeys entries
    → DistinctKeys (entries ++ (key, v) ∷ [])
unfolding find_entry
DistinctKeys-append key v [] h d = (refl, tt)
DistinctKeys-append key v ((j, w) ∷ rest) h d = (
  find_entry-append_none j key v rest d.0 (rw (list_eq_comm key j) (ground arith)),
  DistinctKeys-append key v rest (ground arith) d.1,
)

insert_new-DistinctKeys :
    (key : List ℕ) (v : Value) (entries more : Entries)
    → DistinctKeys entries
    → insert_new key v entries ≡ ok more
    → DistinctKeys more
unfolding insert_new emplace
insert_new-DistinctKeys key v entries more d e = elim (Option-cases (find_entry key entries)) [
  | inl new ↦ subst DistinctKeys (ground arith) (DistinctKeys-append key v entries new d)
  | inr (_, old) ↦ absurd (ground arith)
]

-- No key comes twice.
pub read_metadata-DistinctKeys :
    (count : ℕ) (before entries : Entries) (r s : Reader)
    → DistinctKeys before
    → read_metadata count before r ≡ ok (entries, s)
    → DistinctKeys entries
unfolding read_metadata
read_metadata-DistinctKeys zero before entries r s d e =
    subst DistinctKeys (ap (λ p. p.0) (ok-injective e)) d
read_metadata-DistinctKeys (suc count) before entries r s d e =
    continue-ok (string "metadata key" r) _ e λ key r1 _ e1.
      continue-ok (read 4 "metadata type" r1) _ e1 λ type r2 _ e2.
        continue-ok (read_value type r2) _ e2 λ value r3 _ e3.
          continue-ok (lift (insert_new key value before) r3) _ e3 λ more r4 new e4.
            read_metadata-DistinctKeys count more entries r4 s
              (insert_new-DistinctKeys key value before more d (lift-ok _ r3 new)) e4
