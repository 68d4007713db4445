-- ===== src/Gguf/Open/Placement.antt =====
-- Where the tensors of an opened file lie.
use miinfer.Prelude.{
  ℕ, ◌+◌, ◌%◌, ◌≤◌, ◌<◌, ◌≡◌, refl, ap₂, subst, some, none, List, [], ◌∷◌, map, ok, >>=-ok,
  ok-injective, guard, guard-eq-ok, arith, ltb, length, All, not,
}
use miinfer.Prelude.Words.{word_mod}
use miinfer.Gguf.Types.{data_offset_outside, Tensor, File}
use miinfer.Gguf.Checked.{checked_size, checked_add, align_up}
use miinfer.Gguf.Checked.Laws.{checked_size-ok, align_up-ok}
use miinfer.Gguf.Parse.{find_entry}
use miinfer.Gguf.Tables.{Tables}
use miinfer.Gguf.Open.{alignment_key, alignment_of, place_tensor, place_tensors, finish}

-- The bytes of a tensor: its address is its offset behind the data offset, a multiple of the
-- alignment, and it ends in the file.
pub record IsPlaced (data_offset alignment size : ℕ) (t : Tensor) : Type 0 where
  pub address : t.address ≡ some (data_offset + t.offset)
  pub aligned : t.offset % alignment ≡ 0
  pub inside : data_offset + t.offset + t.byte_size ≤ size

-- A tensor without its address.
abbrev pub declared : Tensor → Tensor
declared t = record t { address = none }

place_tensor-IsPlaced :
    (data_offset alignment size : ℕ) (t u : Tensor)
    → data_offset < word_mod
    → place_tensor data_offset alignment size t ≡ ok u
    → IsPlaced data_offset alignment size u × (declared u ≡ declared t)
unfolding place_tensor checked_size checked_add
place_tensor-IsPlaced d a size t u hd e = ground arith

place_tensors-IsPlaced :
    (data_offset alignment size : ℕ) (ts us : List Tensor)
    → data_offset < word_mod
    → place_tensors data_offset alignment size ts ≡ ok us
    → All (IsPlaced data_offset alignment size) us × (map declared us ≡ map declared ts)
unfolding place_tensors
place_tensors-IsPlaced d a size [] us hd e =
    subst (λ l. All (IsPlaced d a size) l × (map declared l ≡ [])) (ok-injective e) (tt, refl)
place_tensors-IsPlaced d a size (t ∷ ts) us hd e = >>=-ok (place_tensor d a size t) _ e λ u p e'.
    >>=-ok (place_tensors d a size ts) _ e' λ vs q e''.
      let (here, same) = place_tensor-IsPlaced d a size t u hd p in
      let (there, rest) = place_tensors-IsPlaced d a size ts vs hd q in
      subst (λ l. All (IsPlaced d a size) l × (map declared l ≡ declared t ∷ map declared ts))
        (ok-injective e'') ((here, there), ap₂ ◌∷◌ same rest)

-- The layout of the data part of an opened file, whose tables end at `tables_end`.
pub record IsLaidOut (tables_end : ℕ) (f : File) : Type 0 where
  pub alignment : ℕ
  pub chosen : alignment_of (find_entry alignment_key f.metadata) ≡ ok alignment
  pub positive : 0 < alignment
  pub start_aligned : f.data_offset % alignment ≡ 0
  pub behind_tables : tables_end ≤ f.data_offset
  pub no_gap : f.data_offset < tables_end + alignment
  pub start_inside : f.data_offset ≤ length f.mapping
  pub placed : All (IsPlaced f.data_offset alignment (length f.mapping)) f.tensors

-- What `finish` passes on from the tables that it is given.
pub record IsOf (mapping : List ℕ) (tables : Tables) (f : File) : Type 0 where
  pub mapped : f.mapping ≡ mapping
  pub version_of : f.version ≡ tables.header.version
  pub metadata_of : f.metadata ≡ tables.metadata
  pub tensors_of : map declared f.tensors ≡ map declared tables.tensors

-- A file that `finish` returns is laid out, and holds the tables that it was given.
pub finish-IsLaidOut :
    (mapping : List ℕ) (tables : Tables) (position : ℕ) (f : File)
    → position < word_mod
    → finish mapping tables position ≡ ok f
    → IsLaidOut position f × IsOf mapping tables f
unfolding finish
finish-IsLaidOut mapping tables position f hp e =
    >>=-ok (alignment_of (find_entry alignment_key tables.metadata)) _ e λ value chosen e1.
      >>=-ok (checked_size value "alignment") _ e1 λ a sized e2.
        >>=-ok (align_up position a) _ e2 λ d up e3.
          >>=-ok (guard (not (ltb (length mapping) d)) data_offset_outside) _ e3 λ _ inside e4.
            >>=-ok (place_tensors d a (length mapping) tables.tensors) _ e4 λ ts put e5.
              let (pos, start, behind, gap, fits) = align_up-ok position a d hp up in
              let (same, _) = checked_size-ok value "alignment" a sized in
              let (placed, kept) =
                place_tensors-IsPlaced d a (length mapping) tables.tensors ts fits put in
              subst (λ f. IsLaidOut position f × IsOf mapping tables f) (ok-injective e5)
                (
                  record {
                    alignment = a;
                    chosen = rw same chosen;
                    positive = pos;
                    start_aligned = start;
                    behind_tables = behind;
                    no_gap = gap;
                    start_inside = ground (arith, guard-eq-ok _ _ inside);
                    placed = placed;
                  },
                  record {
                    mapped = refl;
                    version_of = refl;
                    metadata_of = refl;
                    tensors_of = kept;
                  },
                )
