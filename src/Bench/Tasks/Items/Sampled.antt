-- ===== src/Bench/Tasks/Items/Sampled.antt =====
-- What `sample_indices` of `hmasync_controller/bench/tasks/base.py` chooses.
use async_energy_controller.Base.{
  ℕ, zero, suc, ◌+◌, ◌<◌, ◌≤◌, min, List, [], ◌∷◌, All, length, leb, ◌≡◌, refl, arith, if_elim,
}
use async_energy_controller.Bench.Tasks.Items.{
  insert_index, sort_indices, range_from, sample_indices,
}

-- Each is less than the next.
abbrev pub Ascends : List ℕ → Type 0
Ascends [] = Unit
Ascends (i ∷ is) = All (λ j. i < j) is × Ascends is

-- No index stands twice.
abbrev pub AreDistinct : List ℕ → Type 0
AreDistinct [] = Unit
AreDistinct (i ∷ is) = All (λ j. (i ≡ j) → ⊥) is × AreDistinct is

insert_index-All :
    (P : ℕ → Type 0) (i : ℕ) (is : List ℕ) → P i → All P is → All P (insert_index i is)
unfolding insert_index
insert_index-All P i [] p h = (p, tt)
insert_index-All P i (j ∷ js) p h =
    if_elim (All P) (leb i j) (i ∷ j ∷ js) (j ∷ insert_index i js) (λ _. (p, h))
      (λ _. (h.0, insert_index-All P i js p h.1))

sort_indices-All : (P : ℕ → Type 0) (is : List ℕ) → All P is → All P (sort_indices is)
unfolding sort_indices
sort_indices-All P [] h = tt
sort_indices-All P (i ∷ is) h =
    insert_index-All P i (sort_indices is) h.0 (sort_indices-All P is h.1)

All-lt : (i j : ℕ) (is : List ℕ) → i < j → All (λ k. j < k) is → All (λ k. i < k) is
All-lt i j [] h a = tt
All-lt i j (k ∷ is) h a = (omega arith, All-lt i j is h a.1)

insert_index-Ascends :
    (i : ℕ) (is : List ℕ) → All (λ j. (i ≡ j) → ⊥) is → Ascends is → Ascends (insert_index i is)
unfolding insert_index
insert_index-Ascends i [] d a = (tt, tt)
insert_index-Ascends i (j ∷ js) d a =
    let ne = d.0 in
    if_elim Ascends (leb i j) (i ∷ j ∷ js) (j ∷ insert_index i js)
      (λ e. let lt : i < j = ground (arith, ne) in ((lt, All-lt i j js lt a.0), a))
      (λ e.
        (insert_index-All (λ k. j < k) i js (ground arith) a.0, insert_index-Ascends i js d.1 a.1))

sort_indices-Ascends : (is : List ℕ) → AreDistinct is → Ascends (sort_indices is)
unfolding sort_indices
sort_indices-Ascends [] d = tt
sort_indices-Ascends (i ∷ is) d =
    insert_index-Ascends i (sort_indices is) (sort_indices-All (λ j. (i ≡ j) → ⊥) is d.0)
      (sort_indices-Ascends is d.1)

length-insert_index : (i : ℕ) (is : List ℕ) → length (insert_index i is) ≡ suc (length is)
unfolding insert_index
length-insert_index i [] = refl
length-insert_index i (j ∷ js) = ground (arith, length-insert_index i js)

length-sort_indices : (is : List ℕ) → length (sort_indices is) ≡ length is
unfolding sort_indices
length-sort_indices [] = refl
length-sort_indices (i ∷ is) =
    omega (arith, length-insert_index i (sort_indices is), length-sort_indices is)

pub range_from-All :
    (start n total : ℕ) → start + n ≤ total → All (λ i. i < total) (range_from start n)
range_from-All start zero total h = tt
range_from-All start (suc n) total h =
    (omega arith, range_from-All (suc start) n total (omega arith))

range_from-above : (low start n : ℕ) → low < start → All (λ i. low < i) (range_from start n)
range_from-above low start zero h = tt
range_from-above low start (suc n) h = (h, range_from-above low (suc start) n (omega arith))

pub range_from-Ascends : (start n : ℕ) → Ascends (range_from start n)
range_from-Ascends start zero = tt
range_from-Ascends start (suc n) =
    (range_from-above start (suc start) n (omega arith), range_from-Ascends (suc start) n)

pub length-range_from : (start n : ℕ) → length (range_from start n) ≡ n
length-range_from start zero = refl
length-range_from start (suc n) = omega (arith, length-range_from (suc start) n)

lt-ne : (i : ℕ) (is : List ℕ) → All (λ j. i < j) is → All (λ j. (i ≡ j) → ⊥) is
lt-ne i [] h = tt
lt-ne i (j ∷ is) h = ((λ e. omega (arith, e)), lt-ne i is h.1)

pub Ascends-AreDistinct : (is : List ℕ) → Ascends is → AreDistinct is
Ascends-AreDistinct [] h = tt
Ascends-AreDistinct (i ∷ is) h = (lt-ne i is h.0, Ascends-AreDistinct is h.1)

-- What `random.sample` promises of fewer items than there are.
abbrev pub Samples : (ℕ → ℕ → List ℕ) → Type 0
Samples sample =
    (n_total n_items : ℕ)
    → n_items < n_total
    → (length (sample n_total n_items) ≡ n_items)
      × All (λ i. i < n_total) (sample n_total n_items)
      × AreDistinct (sample n_total n_items)

module _ (sample : ℕ → ℕ → List ℕ) (samples : Samples sample) where
  -- The rows to measure are as many as were asked for, or all; they are rows of the dataset, each is chosen
  -- once, and they stand in the order of the dataset.
  pub sample_indices-Ascends :
      (n_total n_items : ℕ)
      → let indices = sample_indices sample n_total n_items in
        (length indices ≡ min n_total n_items) × All (λ i. i < n_total) indices × Ascends indices
  unfolding sample_indices
  sample_indices-Ascends n_total n_items =
      if_elim
        (λ (l : List ℕ). (length l ≡ min n_total n_items) × All (λ i. i < n_total) l × Ascends l)
        (leb n_total n_items) (range_from 0 n_total) (sort_indices (sample n_total n_items))
        (λ e. (
          ground (arith, length-range_from 0 n_total),
          range_from-All 0 n_total n_total (omega arith),
          range_from-Ascends 0 n_total,
        ))
        (λ e.
          let (n, below, distinct) = samples n_total n_items (ground arith) in
          (
            ground (arith, n, length-sort_indices (sample n_total n_items)),
            sort_indices-All (λ i. i < n_total) (sample n_total n_items) below,
            sort_indices-Ascends (sample n_total n_items) distinct,
          ))
