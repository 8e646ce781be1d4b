-- ===== src/Config/Upsert.antt =====
-- What `set_bench_optin` of `hmasync_controller/config.py` changes in the file, and what it leaves.
use async_energy_controller.Base.{
  any, ◌∙◌, if_elim, All, String, Bool, true, false, List, [], ◌∷◌, ◌≡◌, refl, arith, if◌then◌else◌,
  ◌++◌,
}
use async_energy_controller.Config.{sets_optin, optin_line, replace_optin, upsert_optin}

-- The lines that set BENCH_OPTIN, and the others.
abbrev pub optin_lines : List String → List String
optin_lines [] = []
optin_lines (l ∷ ls) = let rest = optin_lines ls in if sets_optin l then l ∷ rest else rest

abbrev pub other_lines : List String → List String
other_lines [] = []
other_lines (l ∷ ls) = let rest = other_lines ls in if sets_optin l then rest else l ∷ rest

optin_line-sets : (value : Bool) → sets_optin (optin_line value) ≡ true
unfolding sets_optin
optin_line-sets true = refl
optin_line-sets false = refl

replace-others :
    (value : Bool) (ls : List String)
    → other_lines (replace_optin (optin_line value) ls).0 ≡ other_lines ls
unfolding replace_optin
replace-others value [] = refl
replace-others value (l ∷ ls) = ground (arith, optin_line-sets value, replace-others value ls)

others-append :
    (ls : List String) (value : Bool) → other_lines (ls ++ optin_line value ∷ []) ≡ other_lines ls
others-append [] value = ground (arith, optin_line-sets value)
others-append (l ∷ ls) value = ground (arith, others-append ls value)

replace-sets :
    (value : Bool) (ls : List String)
    → (replace_optin (optin_line value) ls).1 ≡ true
    → any sets_optin (replace_optin (optin_line value) ls).0 ≡ true
unfolding replace_optin
replace-sets value [] h = cc
replace-sets value (l ∷ ls) h = ground (arith, optin_line-sets value, replace-sets value ls)

append-sets :
    (value : Bool) (ls : List String) → any sets_optin (ls ++ optin_line value ∷ []) ≡ true
append-sets value [] = ground (arith, optin_line-sets value)
append-sets value (l ∷ ls) = ground (arith, append-sets value ls)

-- Every line that sets BENCH_OPTIN says `value`.
abbrev pub Says : Bool → List String → Type 0
Says value ls = All (λ l. l ≡ optin_line value) (optin_lines ls)

replace-Says :
    (value : Bool) (ls : List String) → Says value (replace_optin (optin_line value) ls).0
unfolding replace_optin
replace-Says value [] = tt
replace-Says value (l ∷ ls) =
    let new_line = optin_line value in
    let out = (replace_optin new_line ls).0 in
    let rest = replace-Says value ls in
    if_elim (λ (r : List String × Bool). Says value r.0) (sets_optin l) (new_line ∷ out, true)
      (l ∷ out, (replace_optin new_line ls).1) (λ e. rw (optin_line-sets value) (refl, rest))
      (λ e. rw e rest)

Says-append :
    (value : Bool) (ls : List String) → Says value ls → Says value (ls ++ optin_line value ∷ [])
Says-append value [] h = rw (optin_line-sets value) (refl, tt)
Says-append value (l ∷ ls) h =
    if_elim
      (λ (r : List String).
        All (λ k. k ≡ optin_line value) r → Says value (l ∷ ls ++ optin_line value ∷ []))
      (sets_optin l) (l ∷ optin_lines ls) (optin_lines ls)
      (λ e h. rw e (h.0, Says-append value ls h.1)) (λ e h. rw e (Says-append value ls h)) h

replace-again :
    (v w : Bool) (ls : List String)
    → replace_optin (optin_line w) (replace_optin (optin_line v) ls).0
      ≡ replace_optin (optin_line w) ls
unfolding replace_optin
replace-again v w [] = refl
replace-again v w (l ∷ ls) = ground (arith, optin_line-sets v, replace-again v w ls)

replace-append :
    (v w : Bool) (ls : List String)
    → replace_optin (optin_line w) (ls ++ optin_line v ∷ [])
      ≡ ((replace_optin (optin_line w) ls).0 ++ optin_line w ∷ [], true)
unfolding replace_optin
replace-append v w [] = ground (arith, optin_line-sets v)
replace-append v w (l ∷ ls) = ground (arith, replace-append v w ls)

-- Setting the flag leaves every other line of the file as it is, in its order; some line of the
-- result sets the flag, and all lines that do say the new value.
pub upsert_optin-Says :
    (value : Bool) (ls : List String)
    → (other_lines (upsert_optin value ls) ≡ other_lines ls)
      × (any sets_optin (upsert_optin value ls) ≡ true)
      × Says value (upsert_optin value ls)
unfolding upsert_optin
upsert_optin-Says value ls =
    let out = (replace_optin (optin_line value) ls).0 in
    if_elim
      (λ (r : List String).
        (other_lines r ≡ other_lines ls) × (any sets_optin r ≡ true) × Says value r)
      (replace_optin (optin_line value) ls).1 out (out ++ optin_line value ∷ [])
      (λ e. (replace-others value ls, replace-sets value ls e, replace-Says value ls))
      (λ _. (
        others-append out value ∙ replace-others value ls,
        append-sets value out,
        Says-append value out (replace-Says value ls),
      ))

replace-flag :
    (v w : Bool) (ls : List String)
    → (replace_optin (optin_line v) ls).1 ≡ (replace_optin (optin_line w) ls).1
unfolding replace_optin
replace-flag v w [] = refl
replace-flag v w (l ∷ ls) = ground (arith, replace-flag v w ls)

-- Setting the flag twice gives the file that setting it once, to the second value, gives.
upsert_optin-again :
    (v w : Bool) (ls : List String) → upsert_optin w (upsert_optin v ls) ≡ upsert_optin w ls
unfolding upsert_optin
upsert_optin-again v w ls =
    let out = (replace_optin (optin_line v) ls).0 in
    ground (arith, replace-again v w ls, replace-append v w out, replace-flag v w ls)
