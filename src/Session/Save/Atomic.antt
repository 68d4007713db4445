-- ===== src/Session/Save/Atomic.antt =====
-- A save changes the session file at once or not at all.
use miinfer.Prelude.{
  ℕ, ◌≡◌, ◌≢◌, refl, sym, ap, ◌∙◌, Bool, true, false, Option, some, none, List, [], ◌∷◌, ok, err,
  Result, arith, length, take, length-append, list_eq, list_eq_refl, eq_of_list_eq, inl, inr, ◌⊎◌,
  Bool-cases,
}
use miinfer.Device.{Hip}
use miinfer.Session.Model.{Model, Error}
use miinfer.Session.Save.{
  Disk, lookup, remove, put, Calls, temp_path, write_atomically, save_with, save_to_file, contents,
}

lookup-remove_other :
    (p q : List ℕ) (disk : Disk) → list_eq p q ≡ false → lookup q (remove p disk) ≡ lookup q disk
unfolding lookup remove
lookup-remove_other p q [] apart = refl
lookup-remove_other p q ((r, content) ∷ rest) apart =
    let others = lookup-remove_other p q rest apart in
    elim (Bool-cases (list_eq r p)) [
      | inl same ↦
          let e : r ≡ p = eq_of_list_eq r p same in
          let away : list_eq r q ≡ false = rw e apart in rw (same, away) others
      | inr other ↦ elim (Bool-cases (list_eq r q)) [
        | inl here ↦ rw (other, here) refl
        | inr away ↦ rw (other, away) others
      ]
    ]

pub lookup-put_same :
    (p content : List ℕ) (disk : Disk) → lookup p (put p content disk) ≡ some content
unfolding lookup put
lookup-put_same p content disk = rw (list_eq_refl p) refl

lookup-put_other :
    (p q content : List ℕ) (disk : Disk)
    → list_eq p q ≡ false
    → lookup q (put p content disk) ≡ lookup q disk
unfolding lookup put
lookup-put_other p q content disk apart = rw apart (lookup-remove_other p q disk apart)

list_eq-false : (p q : List ℕ) → p ≢ q → list_eq p q ≡ false
list_eq-false p q h = elim (Bool-cases (list_eq p q)) [
  | inl same ↦ absurd (h (eq_of_list_eq p q same))
  | inr apart ↦ apart
]

temp_path-apart : (p : List ℕ) → temp_path p ≢ p
temp_path-apart p e =
    absurd (omega (arith, ap length e, length-append p (46 ∷ 116 ∷ 109 ∷ 112 ∷ [])))

-- What a save may do to the disk: the file at `path` has the whole new content where the save
-- returns, and is as before where it throws; no file but it and the temporary one changes.
pub record IsAtomic (path : List ℕ) (wanted : Result Error (List ℕ)) (disk disk' : Disk)
    (r : Result Error (Unit {0})) : Type 0 where
  pub all_or_nothing :
      ((content : List ℕ) × (wanted ≡ ok content)
        × (r ≡ ok tt)
        × (lookup path disk' ≡ some content))
      ⊎ ((e : Error) × (r ≡ err e) × (lookup path disk' ≡ lookup path disk))
  pub others_kept : (q : List ℕ) → q ≢ path → q ≢ temp_path path → lookup q disk' ≡ lookup q disk

unchanged :
    (path : List ℕ) (wanted : Result Error (List ℕ)) (disk : Disk) (e : Error)
    → IsAtomic path wanted disk disk (err e)
unchanged path wanted disk e = record {
  all_or_nothing = inr (e, refl, refl);
  others_kept = λ q _ _. refl;
}

temporary :
    (path : List ℕ) (wanted : Result Error (List ℕ)) (part : List ℕ) (disk : Disk) (e : Error)
    → IsAtomic path wanted disk (put (temp_path path) part disk) (err e)
temporary path wanted part disk e = record {
  all_or_nothing = inr (
    e,
    refl,
    lookup-put_other (temp_path path) path part disk
        (list_eq-false (temp_path path) path (temp_path-apart path)),
  );
  others_kept = λ q _ h.
      lookup-put_other (temp_path path) q part disk
        (list_eq-false (temp_path path) q (λ e'. h (sym e')));
}

renamed_over :
    (path content : List ℕ) (disk : Disk)
    → IsAtomic path (ok content) disk (put path content (remove (temp_path path) disk)) (ok tt)
renamed_over path content disk =
    let cleaned = remove (temp_path path) disk in
    record {
      all_or_nothing = inl (content, refl, refl, lookup-put_same path content cleaned);
      others_kept = λ q h k.
          lookup-put_other path q content cleaned (list_eq-false path q (λ e. h (sym e)))
          ∙ lookup-remove_other (temp_path path) q disk
              (list_eq-false (temp_path path) q (λ e. k (sym e)));
    }

write_atomically-IsAtomic :
    (created opened : Bool) (cut_at : Option ℕ) (renamed : Bool) (path content : List ℕ)
    (disk : Disk)
    → (let done =
          write_atomically
            (record { created = created; opened = opened; cut_at = cut_at; renamed = renamed })
            path
            content
            disk in
        IsAtomic path (ok content) disk done.0 done.1)
unfolding write_atomically
write_atomically-IsAtomic false o c r path content disk = unchanged path (ok content) disk _
write_atomically-IsAtomic true false c r path content disk = unchanged path (ok content) disk _
write_atomically-IsAtomic true true (some n) r path content disk =
    temporary path (ok content) (take n content) disk _
write_atomically-IsAtomic true true none false path content disk =
    temporary path (ok content) content disk _
write_atomically-IsAtomic true true none true path content disk = renamed_over path content disk

save_with-IsAtomic :
    (calls : Calls) (path : List ℕ) (wanted : Result Error (List ℕ)) (disk : Disk)
    → IsAtomic path wanted disk
        (save_with calls path disk wanted).0
        (save_with calls path disk wanted).1
unfolding save_with
save_with-IsAtomic calls path (err e) disk = unchanged path (err e) disk e
save_with-IsAtomic calls path (ok content) disk =
    write_atomically-IsAtomic calls.created calls.opened calls.cut_at calls.renamed path content
      disk

-- Whatever fails in a save of some tokens, the session file is as before or has the whole content,
-- the latter exactly where the save returns normally; and no other file but the temporary one changes.
pub save_to_file-IsAtomic :
    (hip : Hip) (calls : Calls) (path : List ℕ) (disk : Disk) (model : Model hip) (now tok : ℕ)
    (tokens : List ℕ)
    → (let done = save_to_file hip calls path disk model now (tok ∷ tokens) in
        IsAtomic path (contents hip model now (tok ∷ tokens)) disk done.0 done.1)
unfolding save_to_file
save_to_file-IsAtomic hip calls path disk model now tok tokens =
    save_with-IsAtomic calls path (contents hip model now (tok ∷ tokens)) disk
