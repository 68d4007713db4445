-- ===== src/Session/Find.antt =====
-- PersistentSession::find_matching_session.
pub mod Longest
use miinfer.Prelude.{
  ℕ, zero, suc, ◌+◌, Bool, true, false, ◌&&◌, ◌||◌, not, Option, some, none, List, [], ◌∷◌, Result,
  ok, err, ◌>>=◌, ltb, ◌==◌, list_eq, if◌then◌else◌, length, get_or,
}
use miinfer.Context.{same_prefix}
use miinfer.Session.Header.{Header, model_view, quantization_view}
use miinfer.Session.Model.{Error}
use miinfer.Session.Save.{Disk}
use miinfer.Session.Load.{inspect_file, name_is}

-- An entry of the directory, as std::filesystem describes it.
pub record Entry : Type 0 where
  pub path : List ℕ
  pub is_regular_file : Bool
  pub extension : List ℕ

-- ".miinfer"
abbrev pub session_extension : List ℕ
session_extension = 46 ∷ 109 ∷ 105 ∷ 105 ∷ 110 ∷ 102 ∷ 101 ∷ 114 ∷ []

-- What a file offers to the prompt: the number of its tokens where it is for the model and the
-- quantization and the prompt begins with them, 0 where the loop goes on to the next entry.
unfoldable pub offer_of : Header → List ℕ → List ℕ → List ℕ → List ℕ → Result Error ℕ
unfolding name_is model_view quantization_view same_prefix
offer_of h tokens model_id quantization prompt = do
  same_model ← name_is (model_view h) model_id
  if not same_model then ok 0 else (do
    same_quantization ← name_is (quantization_view h) quantization
    ok (
        if not same_quantization
        then 0
        else if (h.prefix_length == 0) || ltb (length prompt) h.prefix_length
        then 0
        else if same_prefix h.prefix_length 0 prompt tokens
        then h.prefix_length
        else 0))

unfoldable pub offer_found : Option (Header × List ℕ) → List ℕ → List ℕ → List ℕ → Result Error ℕ
unfolding offer_of
offer_found none model_id quantization prompt = ok 0
offer_found (some (h, tokens)) model_id quantization prompt =
    offer_of h tokens model_id quantization prompt

-- The body of the loop, up to the comparison with the best file so far.
unfoldable pub offer : Disk → List ℕ → List ℕ → List ℕ → Entry → Result Error ℕ
unfolding inspect_file offer_found
offer disk model_id quantization prompt entry =
    if not entry.is_regular_file || not (list_eq entry.extension session_extension)
    then ok 0
    else (do found ← inspect_file disk entry.path; offer_found found model_id quantization prompt)

-- best_session_path and best_prefix_len
abbrev pub Best : Type 0
Best = List ℕ × ℕ

unfoldable pub search_entries :
    Disk → List ℕ → List ℕ → List ℕ → Best → List Entry → Result Error Best
unfolding offer
search_entries disk model_id quantization prompt best [] = ok best
search_entries disk model_id quantization prompt best (entry ∷ rest) = do
  n ← offer disk model_id quantization prompt entry
  search_entries disk model_id quantization prompt (if ltb best.1 n then (entry.path, n) else best)
      rest

-- The directory is none where it is missing or no directory, otherwise its entries in the order of
-- the iterator. The result is none for false, otherwise the path and the length.
unfoldable pub find_matching_session :
    Disk → Option (List Entry) → List ℕ → List ℕ → List ℕ → Result Error (Option Best)
unfolding search_entries
find_matching_session disk none model_id quantization prompt = ok none
find_matching_session disk (some entries) model_id quantization prompt = do
  best ← search_entries disk model_id quantization prompt ([], 0) entries
  ok (if ltb 0 best.1 then some best else none)
