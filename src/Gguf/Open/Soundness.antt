-- ===== src/Gguf/Open/Soundness.antt =====
-- What holds of every file that GgufFile::open returns.
use miinfer.Prelude.{
  ℕ, ◌≤◌, ◌<◌, ◌≡◌, ◌≢◌, sym, ap, subst, List, [], ◌∷◌, map, ok, >>=-ok, ◌∙◌, ◌↔◌, arith, length,
  All, ok-injective, ◌==◌, not,
}
use miinfer.Prelude.Words.{word_mod}
use miinfer.Gguf.Types.{invalid_magic, unsupported_version, Tensor, File}
use miinfer.Gguf.Checked.{checked_size}
use miinfer.Gguf.Reader.{Reader, lift, read, reject}
use miinfer.Gguf.Reader.Bounds.{continue-ok, check-ok}
use miinfer.Gguf.Parse.{read_metadata, read_tensors}
use miinfer.Gguf.Parse.Declared.{
  IsDeclared, DistinctNames, DistinctKeys, read_tensors-IsDeclared, read_metadata-DistinctKeys,
}
use miinfer.Gguf.Tables.{Header, Tables, gguf_magic, read_header, read_tables}
use miinfer.Gguf.Tables.Bounds.{read_tables-Advances}
use miinfer.Gguf.Open.{finish, parse}
use miinfer.Gguf.Open.Placement.{IsLaidOut, declared, finish-IsLaidOut}

-- The tables are those that reading from the first byte gives, and `after` is where the reader stands
-- behind them.
pub record IsSound (mapping : List ℕ) (f : File) : Type 0 where
  pub tables : Tables
  pub after : Reader
  pub tables_read : read_tables (record { bytes = mapping; position = 0 }) ≡ ok (tables, after)
  pub end_inside : after.position ≤ length mapping
  pub laid_out : IsLaidOut after.position f
  pub metadata_kept : f.metadata ≡ tables.metadata
  pub tensors_kept : map declared f.tensors ≡ map declared tables.tensors
  pub mapped : f.mapping ≡ mapping
  pub version_three : f.version ≡ 3
  pub distinct_keys : DistinctKeys f.metadata
  pub distinct_names : DistinctNames f.tensors
  pub all_declared : All IsDeclared f.tensors

read_header-version : (r s : Reader) (h : Header) → read_header r ≡ ok (h, s) → h.version ≡ 3
unfolding read_header
read_header-version r s h e = continue-ok (read 4 "magic" r) _ e λ magic r1 _ e1.
    continue-ok (reject (not (magic == gguf_magic)) invalid_magic r1) _ e1 λ _ r2 _ e2.
      continue-ok (read 4 "version" r2) _ e2 λ version r3 _ e3.
        continue-ok (reject (not (version == 3)) unsupported_version r3) _ e3 λ _ r4 three e4.
          continue-ok (read 8 "tensor count" r4) _ e4 λ n r5 _ e5.
            continue-ok (read 8 "metadata count" r5) _ e5
              λ m r6 _ e6. ground (arith, check-ok _ unsupported_version r3 three)

-- What the tables satisfy.
record AreSound (t : Tables) : Type 0 where
  version_three : t.header.version ≡ 3
  distinct_keys : DistinctKeys t.metadata
  tensors_sound : All IsDeclared t.tensors × DistinctNames t.tensors

read_tables-AreSound : (r s : Reader) (t : Tables) → read_tables r ≡ ok (t, s) → AreSound t
unfolding read_tables
read_tables-AreSound r s t e = continue-ok (read_header r) _ e λ h r1 headed e1.
    continue-ok (read_metadata h.metadata_count [] r1) _ e1 λ metadata r2 entered e2.
      continue-ok (lift (checked_size h.tensor_count "tensor count") r2) _ e2 λ n r3 _ e3.
        continue-ok (read_tensors n [] r3) _ e3 λ ts r4 listed e4.
          subst AreSound (ap (λ p. p.0) (ok-injective e4)) (record {
            version_three = read_header-version r r1 h headed;
            distinct_keys =
                read_metadata-DistinctKeys h.metadata_count [] metadata r1 r2 tt entered;
            tensors_sound = read_tensors-IsDeclared n [] ts r3 r4 tt tt listed;
          })

-- Neither predicate looks at the address.
forget_address : (t : Tensor) → IsDeclared t ↔ IsDeclared (declared t)
forget_address t = (
  (λ h. record { has_rank = h.has_rank; rank_bounded = h.rank_bounded; sized = h.sized }),
  (λ h. record { has_rank = h.has_rank; rank_bounded = h.rank_bounded; sized = h.sized }),
)

all_forget : (ts : List Tensor) → All IsDeclared ts ↔ All IsDeclared (map declared ts)
all_forget [] = (λ h. tt, λ h. tt)
all_forget (t ∷ ts) = (
  (λ h. ((forget_address t).0 h.0, (all_forget ts).0 h.1)),
  (λ h. ((forget_address t).1 h.0, (all_forget ts).1 h.1)),
)

others_forget :
    (name : List ℕ) (ts : List Tensor)
    → All (λ u. name ≢ u.name) ts ↔ All (λ u. name ≢ u.name) (map declared ts)
others_forget name [] = (λ h. tt, λ h. tt)
others_forget name (t ∷ ts) =
    ((λ h. (h.0, (others_forget name ts).0 h.1)), (λ h. (h.0, (others_forget name ts).1 h.1)))

names_forget : (ts : List Tensor) → DistinctNames ts ↔ DistinctNames (map declared ts)
names_forget [] = (λ h. tt, λ h. tt)
names_forget (t ∷ ts) = (
  (λ h. ((others_forget t.name ts).0 h.0, (names_forget ts).0 h.1)),
  (λ h. ((others_forget t.name ts).1 h.0, (names_forget ts).1 h.1)),
)

sound :
    (mapping : List ℕ) (tables : Tables) (r : Reader) (f : File)
    → read_tables (record { bytes = mapping; position = 0 }) ≡ ok (tables, r)
    → r.position ≤ length mapping
    → length mapping < word_mod
    → AreSound tables
    → finish mapping tables r.position ≡ ok f
    → IsSound mapping f
sound mapping tables r f got inside fits good e =
    let (laid, kept) = finish-IsLaidOut mapping tables r.position f (omega arith) e in
    let (listed, distinct) = good.tensors_sound in
    record {
      tables = tables;
      after = r;
      tables_read = got;
      metadata_kept = kept.metadata_of;
      tensors_kept = kept.tensors_of;
      end_inside = inside;
      laid_out = laid;
      mapped = kept.mapped;
      version_three = kept.version_of ∙ good.version_three;
      distinct_keys = subst DistinctKeys (sym kept.metadata_of) good.distinct_keys;
      distinct_names =
          (names_forget f.tensors).1
            (subst DistinctNames (sym kept.tensors_of) ((names_forget tables.tensors).0 distinct));
      all_declared =
          (all_forget f.tensors).1
            (subst (All IsDeclared) (sym kept.tensors_of) ((all_forget tables.tensors).0 listed));
    }

-- A file that is opened lies whole in its mapping: the tables, which are read from its first byte, end
-- inside it, the data begins at the first multiple of the alignment from where they end, the metadata and the tensors are
-- those of the tables, every tensor starts at its aligned offset and ends in
-- the mapping, and its size is that of its type and dimensions, of which there are 1 to 8. The
-- version is 3, and no key and no tensor name comes twice.
pub parse-IsSound :
    (mapping : List ℕ) (f : File)
    → length mapping < word_mod
    → parse mapping ≡ ok f
    → IsSound mapping f
unfolding parse
parse-IsSound mapping f fits e =
    let start : Reader = record { bytes = mapping; position = 0 } in
    >>=-ok (read_tables start) _ e λ (tables, r) got e1.
      let moved = read_tables-Advances start tables r (omega arith) got in
      sound mapping tables r f got (rw (← moved.same) moved.still.inside) fits
        (read_tables-AreSound start r tables got) e1
