-- ===== src/Reporter/Chunks.antt =====
-- `_chunks` of `hmasync_controller/reporter.py` splits a trace without loss.
use Prim.Native.Nat.add
use native.Mathlib.Nat.{zero-add}
use async_energy_controller.Base.{
  ℕ, zero, suc, ◌+◌, ◌≤◌, ◌<◌, ◌≡◌, refl, List, [], ◌∷◌, map, arith, drop, length, flatten, All,
  take-append-drop, append-nil, sym, Bool-cases, ltb, inl, inr, length-take, length-drop, ◌∙◌,
}
use async_energy_controller.Base.Int.{ℤ, pos, negsuc}
use async_energy_controller.Reporter.{range_step, slice, chunks}

module _ {ℓ} {A : Type ℓ} where
  drop-nil : (m : ℕ) → drop {A = A} m [] ≡ []
  drop-nil zero = refl
  drop-nil (suc m) = refl

  drop-drop : (m n : ℕ) (xs : List A) → drop m (drop n xs) ≡ drop (n + m) xs
  drop-drop m zero xs = rw zero-add
  drop-drop m (suc n) [] = drop-nil m ∙ sym (drop-nil (suc n + m))
  drop-drop m (suc n) (x ∷ xs) = rw add.suc (drop-drop m n xs)

  drop_all : (n : ℕ) (xs : List A) → length xs ≤ n → drop n xs ≡ []
  drop_all zero [] h = refl
  drop_all zero (x ∷ xs) h = absurd (omega arith)
  drop_all (suc n) [] h = refl
  drop_all (suc n) (x ∷ xs) h = drop_all n xs (omega arith)

  flatten-slices :
      (k fuel i : ℕ) (xs : List A)
      → length xs ≤ i + fuel
      → flatten (map (slice (suc k) xs) (range_step fuel i (length xs) (suc k))) ≡ drop i xs
  unfolding range_step
  flatten-slices k zero i xs h = sym (drop_all i xs (omega arith))
  flatten-slices k (suc fuel) i xs h = elim (Bool-cases (ltb i (length xs))) [
    | inl more ↦ rw more (
        rw (flatten-slices k fuel (i + suc k) xs (omega arith))
          (rw (← drop-drop (suc k) i xs) (take-append-drop (suc k) (drop i xs))))
    | inr done ↦ rw done (sym (drop_all i xs (ground arith)))
  ]

  flatten-chunks : (xs : List A) (size : ℤ) → flatten (chunks xs size) ≡ xs
  unfolding chunks
  flatten-chunks [] (pos zero) = refl
  flatten-chunks (x ∷ xs) (pos zero) = append-nil (x ∷ xs)
  flatten-chunks [] (negsuc n) = refl
  flatten-chunks (x ∷ xs) (negsuc n) = append-nil (x ∷ xs)
  flatten-chunks [] (pos (suc k)) = flatten-slices k 0 0 [] (omega arith)
  flatten-chunks (x ∷ xs) (pos (suc k)) =
      flatten-slices k (suc (length xs)) 0 (x ∷ xs) (omega arith)

  -- A batch has between one sample and `size` samples.
  abbrev pub Fits : ℕ → List A → Type 0
  Fits size batch = (0 < length batch) × (length batch ≤ size)

  slices-Fit :
      (k fuel i : ℕ) (xs : List A)
      → All (Fits (suc k)) (map (slice (suc k) xs) (range_step fuel i (length xs) (suc k)))
  unfolding range_step
  slices-Fit k zero i xs = tt
  slices-Fit k (suc fuel) i xs = elim (Bool-cases (ltb i (length xs))) [
    | inl more ↦ rw more (
      (ground (arith, length-take (suc k) (drop i xs), length-drop i xs)),
      slices-Fit k fuel (i + suc k) xs,
    )
    | inr done ↦ rw done tt
  ]

  -- Split into batches of at most `size > 0` samples, a trace is neither cut nor reordered: the
  -- batches follow one another to the trace, and each has between one and `size` samples.
  pub chunks_lem :
      (xs : List A) (k : ℕ)
      → (flatten (chunks xs (pos (suc k))) ≡ xs) × All (Fits (suc k)) (chunks xs (pos (suc k)))
  unfolding chunks
  chunks_lem [] k = (flatten-chunks [] (pos (suc k)), tt)
  chunks_lem (x ∷ xs) k =
      (flatten-chunks (x ∷ xs) (pos (suc k)), slices-Fit k (suc (length xs)) 0 (x ∷ xs))
