-- ===== src/Bench/Thermal/Trailing.antt =====
-- What `consecutive_hw_thermal_seconds` of `hmasync_controller/bench/thermal.py` measures.
use async_energy_controller.Base.{
  ℕ, ◌≡◌, true, false, List, [], ◌∷◌, ◌++◌, All, reversed, if_elim, append_assoc, subst,
  reversed_twice,
}
use async_energy_controller.Base.Int.{ℤ, pos, ◌-ℤ◌}
use async_energy_controller.Bench.Thermal.{
  Sample, hw_throttled, run_start, trailing_time, consecutive_hw_thermal,
}

-- No sample, or the last one is not throttled.
pub data IsCalm : List Sample → Type 0 where
  empty : IsCalm []
  calm :
      (samples : List Sample) (last : Sample)
      → hw_throttled last ≡ false
      → IsCalm (samples ++ last ∷ [])

abbrev pub IsThrottled : Sample → Type 0
IsThrottled sample = hw_throttled sample ≡ true

-- The time of the last of the samples `first ∷ run`.
abbrev pub last_ts : Sample → List Sample → ℕ
last_ts first [] = first.ts
last_ts first (sample ∷ run) = last_ts sample run

-- `IsTrailing samples n`: `n` is the time from the first to the last sample of the throttled run that
-- the samples end with; it is 0 where there is none.
pub data IsTrailing : List Sample → ℤ → Type 0 where
  no_run : {samples : List Sample} → IsCalm samples → IsTrailing samples (pos 0)
  run :
      (before : List Sample) (first : Sample) (rest : List Sample)
      → IsCalm before
      → All IsThrottled (first ∷ rest)
      → IsTrailing (before ++ first ∷ rest) (pos (last_ts first rest) -ℤ pos first.ts)

-- The samples before a throttled run `first ∷ rest`, in reverse order, are read up to its start.
run_start-IsTrailing :
    (samples : List Sample) (first : Sample) (rest : List Sample)
    → All IsThrottled (first ∷ rest)
    → IsTrailing
        (reversed samples ++ first ∷ rest)
        (pos (last_ts first rest) -ℤ pos (run_start first.ts samples))
unfolding run_start
run_start-IsTrailing [] first rest h = run [] first rest empty h
run_start-IsTrailing (sample ∷ samples) first rest h =
    let behind = first ∷ rest in
    let value : ℕ → ℤ = λ t. pos (last_ts first rest) -ℤ pos t in
    rw (append_assoc (reversed samples) (sample ∷ []) behind) (
      if_elim (λ (t : ℕ). IsTrailing (reversed samples ++ sample ∷ behind) (value t))
        (hw_throttled sample) (run_start sample.ts samples) first.ts
        (λ e. run_start-IsTrailing samples sample behind (e, h))
        (λ e.
          subst (λ (l : List Sample). IsTrailing l (value first.ts))
            (append_assoc (reversed samples) (sample ∷ []) behind)
            (run (reversed samples ++ sample ∷ []) first rest (calm (reversed samples) sample e)
              h)))

trailing_time-IsTrailing :
    (samples : List Sample) → IsTrailing (reversed samples) (trailing_time samples)
unfolding trailing_time run_start
trailing_time-IsTrailing [] = no_run empty
trailing_time-IsTrailing (last ∷ samples) =
    if_elim (IsTrailing (reversed samples ++ last ∷ [])) (hw_throttled last)
      (pos last.ts -ℤ pos (run_start last.ts (last ∷ samples))) (pos 0)
      (λ e. rw e (run_start-IsTrailing samples last [] (e, tt)))
      (λ e. no_run (calm (reversed samples) last e))

-- The measured time is that of the throttled run that the samples end with, which no throttled
-- sample stands before: from its first sample to its last. It is 0 where the last sample is not throttled.
consecutive_hw_thermal-IsTrailing :
    (samples : List Sample) → IsTrailing samples (consecutive_hw_thermal samples)
unfolding consecutive_hw_thermal
consecutive_hw_thermal-IsTrailing samples =
    subst (λ (l : List Sample). IsTrailing l (trailing_time (reversed samples)))
      (reversed_twice samples) (trailing_time-IsTrailing (reversed samples))
