-- ===== src/Bench/Rouge/Subsequence.antt =====
-- The rolling rows of `lcs_length` in `hmasync_controller/bench/tasks/rouge_l.py` hold the length of
-- the longest common subsequence.
use native.Mathlib.Decide.{dec_le}
use async_energy_controller.Base.{
  ℕ, ◌+◌, ◌≤◌, max, String, ◌≡◌, refl, ap, ◌∙◌, subst, sym, some, List, [], ◌∷◌, ◌++◌, length,
  arith, str_eq, str_eq_iff, if_elim, if◌then◌else◌, append_assoc, append-nil, reversed,
  reversed_twice, length-reversed,
}
use async_energy_controller.Bench.Rouge.{fill_row, fill_rows, zeros, last, lcs_length}

-- `Subsequence c a`: `c` is `a` with tokens left out.
pub data Subsequence : List String → List String → Type 0 where
  nothing : Subsequence [] []
  leave : {x : String} {c a : List String} → Subsequence c a → Subsequence c (x ∷ a)
  keep : {x : String} {c a : List String} → Subsequence c a → Subsequence (x ∷ c) (x ∷ a)

pub Subsequence-nil : (a : List String) → Subsequence [] a
Subsequence-nil [] = nothing
Subsequence-nil (x ∷ a) = leave (Subsequence-nil a)

pub Subsequence-refl : (a : List String) → Subsequence a a
Subsequence-refl [] = nothing
Subsequence-refl (x ∷ a) = keep (Subsequence-refl a)

pub length-Subsequence : {c a : List String} → Subsequence c a → length c ≤ length a
length-Subsequence nothing = omega arith
length-Subsequence (leave s) = omega (arith, length-Subsequence s)
length-Subsequence (keep s) = omega (arith, length-Subsequence s)

Subsequence-append :
    {c a d b : List String} → Subsequence c a → Subsequence d b → Subsequence (c ++ d) (a ++ b)
Subsequence-append nothing t = t
Subsequence-append (leave s) t = leave (Subsequence-append s t)
Subsequence-append (keep s) t = keep (Subsequence-append s t)

Subsequence-reversed : {c a : List String} → Subsequence c a → Subsequence (reversed c) (reversed a)
Subsequence-reversed nothing = nothing
Subsequence-reversed (leave {x} {c} {a} s) =
    subst (λ (l : List String). Subsequence l (reversed a ++ x ∷ [])) (append-nil (reversed c))
      (Subsequence-append (Subsequence-reversed s) (leave {x = x} nothing))
Subsequence-reversed (keep {x} s) =
    Subsequence-append (Subsequence-reversed s) (keep {x = x} nothing)

-- The recursion on two lists that the rows compute.
unfoldable common : List String → List String → ℕ
common [] ys = 0
common (x ∷ xs) [] = 0
common (x ∷ xs) (y ∷ ys) =
    if str_eq x y then common xs ys + 1 else max (common xs (y ∷ ys)) (common (x ∷ xs) ys)

common-nil : (xs : List String) → common xs [] ≡ 0
unfolding common
common-nil [] = refl
common-nil (x ∷ xs) = refl

Subsequence-tail : {x : String} {c a : List String} → Subsequence (x ∷ c) a → Subsequence c a
Subsequence-tail (leave s) = leave (Subsequence-tail s)
Subsequence-tail (keep s) = leave s

-- No common subsequence is longer.
Subsequence-le-common :
    (xs ys : List String) {c : List String}
    → Subsequence c xs
    → Subsequence c ys
    → length c ≤ common xs ys
unfolding common
Subsequence-le-common [] ys nothing t = omega arith
Subsequence-le-common (x ∷ xs) [] s nothing = omega arith
Subsequence-le-common (x ∷ xs) (y ∷ ys) (leave s) (leave t) =
    ground (arith, Subsequence-le-common xs ys s t, Subsequence-le-common xs (y ∷ ys) s (leave t))
Subsequence-le-common (x ∷ xs) (y ∷ ys) (leave s) (keep t) = ground (
  arith,
  Subsequence-le-common xs ys (Subsequence-tail s) t,
  Subsequence-le-common xs (y ∷ ys) s (keep t),
)
Subsequence-le-common (x ∷ xs) (y ∷ ys) (keep s) (leave t) = ground (
  arith,
  Subsequence-le-common xs ys s (Subsequence-tail t),
  Subsequence-le-common (x ∷ xs) ys (keep s) t,
)
Subsequence-le-common (x ∷ xs) (y ∷ ys) (keep s) (keep t) =
    ground (arith, (str_eq_iff x x).1 refl, Subsequence-le-common xs ys s t)

abbrev IsAttained : List String → List String → ℕ → Type 0
IsAttained xs ys n = (c : List String) × Subsequence c xs × Subsequence c ys × (length c ≡ n)

IsAttained-max :
    {xs ys : List String} {m n : ℕ}
    → IsAttained xs ys m
    → IsAttained xs ys n
    → IsAttained xs ys (max m n)
IsAttained-max {m} {n} p q = elim (dec_le m n) [
  | yes h ↦ (q.0, q.1, q.2, omega (arith, q.3))
  | no h ↦ (p.0, p.1, p.2, omega (arith, p.3))
]

-- Some common subsequence is as long.
common-IsAttained : (xs ys : List String) → IsAttained xs ys (common xs ys)
unfolding common
common-IsAttained [] ys = ([], nothing, Subsequence-nil ys, refl)
common-IsAttained (x ∷ xs) [] = ([], Subsequence-nil (x ∷ xs), nothing, refl)
common-IsAttained (x ∷ xs) (y ∷ ys) =
    if_elim (IsAttained (x ∷ xs) (y ∷ ys)) (str_eq x y) (common xs ys + 1)
      (max (common xs (y ∷ ys)) (common (x ∷ xs) ys))
      (λ e.
        let (c, s, t, l) = common-IsAttained xs ys in
        (
          x ∷ c,
          keep s,
          subst (λ (z : String). Subsequence (x ∷ c) (z ∷ ys)) ((str_eq_iff x y).0 e) (keep t),
          omega (arith, l),
        ))
      (λ e.
        let (c, s, t, l) = common-IsAttained xs (y ∷ ys) in
        let (d, u, v, k) = common-IsAttained (x ∷ xs) ys in
        IsAttained-max (c, leave s, t, l) (d, u, leave v, k))

-- The row of the target tokens `xs` (in reverse order) behind the prediction tokens `before` (in
-- reverse order): one cell for each prefix of what follows.
abbrev cells : List String → List String → List String → List ℕ
cells xs before [] = common xs before ∷ []
cells xs before (y ∷ ys) = common xs before ∷ cells xs (y ∷ before) ys

-- The cells behind the first.
abbrev later : List String → List String → List String → List ℕ
later xs before [] = []
later xs before (y ∷ ys) = cells xs (y ∷ before) ys

cells-later :
    (xs before ys : List String) → cells xs before ys ≡ common xs before ∷ later xs before ys
cells-later xs before [] = refl
cells-later xs before (y ∷ ys) = refl

fill_row_step :
    (x y : String) (p q left : ℕ) (ps : List ℕ) (ys : List String) {zs : List ℕ}
    → fill_row x (q ∷ ps) (if str_eq x y then p + 1 else max q left) ys ≡ some zs
    → fill_row x (p ∷ q ∷ ps) left (y ∷ ys) ≡ some ((if str_eq x y then p + 1 else max q left) ∷ zs)
unfolding fill_row
fill_row_step x y p q left ps ys h = rw h refl

fill_row_lem :
    (x : String) (xs before ys : List String)
    → fill_row x (cells xs before ys) (common (x ∷ xs) before) ys ≡ some (later (x ∷ xs) before ys)
unfolding fill_row common
fill_row_lem x xs before [] = refl
fill_row_lem x xs before (y ∷ ys) =
    let rest = fill_row_lem x xs (y ∷ before) ys in
    rw (cells-later xs (y ∷ before) ys, cells-later (x ∷ xs) (y ∷ before) ys)
      (fill_row_step x y _ _ _ (later xs (y ∷ before) ys) ys (
        subst
          (λ (row : List ℕ).
            fill_row x row (common (x ∷ xs) (y ∷ before)) ys
            ≡ some (later (x ∷ xs) (y ∷ before) ys))
          (cells-later xs (y ∷ before) ys) rest))

cells-last :
    (xs before ys : List String)
    → last (cells xs before ys) ≡ some (common xs (reversed ys ++ before))
cells-last xs before [] = refl
cells-last xs before (y ∷ ys) =
    let rest = cells-last xs (y ∷ before) ys in
    rw (cells-later xs (y ∷ before) ys, append_assoc)
      (ap last (sym (cells-later xs (y ∷ before) ys)) ∙ rest)

fill_rows_step :
    (x : String) (rest ys : List String) (row : List ℕ) {cs : List ℕ}
    → fill_row x row 0 ys ≡ some cs
    → fill_rows (x ∷ rest) ys row ≡ fill_rows rest ys (0 ∷ cs)
unfolding fill_rows
fill_rows_step x rest ys row h = rw (h, fill_rows) refl

fill_rows_lem :
    (xs rest ys : List String)
    → fill_rows rest ys (cells xs [] ys) ≡ some (cells (reversed rest ++ xs) [] ys)
unfolding fill_rows common
fill_rows_lem xs [] ys = refl
fill_rows_lem xs (x ∷ rest) ys = rw append_assoc (
    fill_rows_step x rest ys (cells xs [] ys) (
      subst (λ (n : ℕ). fill_row x (cells xs [] ys) n ys ≡ some (later (x ∷ xs) [] ys))
        (common-nil (x ∷ xs)) (fill_row_lem x xs [] ys))
    ∙ ap (fill_rows rest ys) (sym (cells-later (x ∷ xs) [] ys))
    ∙ fill_rows_lem (x ∷ xs) rest ys)

zeros-cells : (before ys : List String) → zeros ys ≡ cells [] before ys
unfolding common
zeros-cells before [] = refl
zeros-cells before (y ∷ ys) = ap (λ (ns : List ℕ). 0 ∷ ns) (zeros-cells (y ∷ before) ys)

lcs_length-last :
    (x y : String) (a b : List String) {row : List ℕ}
    → fill_rows (x ∷ a) (y ∷ b) (zeros (y ∷ b)) ≡ some row
    → lcs_length (x ∷ a) (y ∷ b) ≡ last row
unfolding lcs_length
lcs_length-last x y a b h = rw (lcs_length, h) refl

lcs_length-common : (a b : List String) → lcs_length a b ≡ some (common (reversed a) (reversed b))
unfolding lcs_length common
lcs_length-common [] b = refl
lcs_length-common (x ∷ a) [] = ap some (sym (common-nil (reversed (x ∷ a))))
lcs_length-common (x ∷ a) (y ∷ b) =
    let rows =
      ap (fill_rows (x ∷ a) (y ∷ b)) (zeros-cells [] (y ∷ b)) ∙ fill_rows_lem [] (x ∷ a) (y ∷ b) in
    lcs_length-last x y a b rows
    ∙ cells-last (reversed (x ∷ a) ++ []) [] (y ∷ b)
    ∙ ap (λ (p : List String). some (common p (reversed (y ∷ b) ++ [])))
        (append-nil (reversed (x ∷ a)))
    ∙ ap (λ (q : List String). some (common (reversed (x ∷ a)) q)) (append-nil (reversed (y ∷ b)))

-- `IsLongest a b n`: `n` is the length of a longest common subsequence of `a` and `b`.
pub record IsLongest (a b : List String) (n : ℕ) : Type 0 where
  pub subsequence : List String
  pub of_first : Subsequence subsequence a
  pub of_second : Subsequence subsequence b
  pub long : length subsequence ≡ n
  pub longest : (c : List String) → Subsequence c a → Subsequence c b → length c ≤ n

-- The rolling rows are never read out of range, and the result is the length of a longest common
-- subsequence of the two lists of tokens.
pub lcs_length-IsLongest :
    (a b : List String) → (n : ℕ) × (lcs_length a b ≡ some n) × IsLongest a b n
lcs_length-IsLongest a b =
    let (c, s, t, l) = common-IsAttained (reversed a) (reversed b) in
    (
      common (reversed a) (reversed b),
      lcs_length-common a b,
      record {
        subsequence = reversed c;
        of_first = subst (Subsequence (reversed c)) (reversed_twice a) (Subsequence-reversed s);
        of_second = subst (Subsequence (reversed c)) (reversed_twice b) (Subsequence-reversed t);
        long = length-reversed c ∙ l;
        longest = λ d u v. rw (← length-reversed d) (
            Subsequence-le-common (reversed a) (reversed b) (Subsequence-reversed u)
              (Subsequence-reversed v));
      },
    )

-- A list of tokens has all of itself in common with itself.
pub lcs_length_self : (a : List String) → lcs_length a a ≡ some (length a)
lcs_length_self a =
    let (n, e, l) = lcs_length-IsLongest a a in
    let whole : length a ≤ n = l.longest a (Subsequence-refl a) (Subsequence-refl a) in
    let within : n ≤ length a =
      subst (λ (m : ℕ). m ≤ length a) l.long (length-Subsequence l.of_first) in
    e ∙ ap some (omega arith)
