-- ===== src/Profiler/Telemetry.antt =====
-- What the telemetry of a sampled run says, and what it never makes up: `stop` of
-- `hmasync_controller/profiler.py` after `start` and the rounds of the thread.
use async_energy_controller.Base.{
  ◌-◌, not, sym, ℕ, ◌≡◌, refl, ◌∙◌, ap, String, Bool, true, false, Option, none, some, List, [],
  ◌∷◌, ◌++◌, map, append_assoc, append-nil, leb, is_some, if_ind,
}
use async_energy_controller.Value.{Float, Value, Fields, get, has_key}
use async_energy_controller.Value.Double.{true_quotient}
use async_energy_controller.Value.Number.{total_seconds}
use async_energy_controller.Profiler.{
  integrated_energy, mj_per_wh, RunTelemetry, avg_peak, average, peak, non_null, compute_energy,
  integrate_power_wh, to_record_fields,
}
use async_energy_controller.Profiler.Sampler.{
  Tick, Sampler, sample_of, collect_one, sample_loop, start, stop,
}

abbrev pub is_nil : List Float → Bool
is_nil [] = true
is_nil (x ∷ xs) = false

-- Energy with its source, or neither.
pub data IsSourced : Option Float × Option String → Type 0 where
  counted : (wh : Float) → IsSourced (some wh, some "counter")
  integrated : (wh : Float) → IsSourced (some wh, some "integrated")
  unknown : IsSourced (none, none)

integrated-IsSourced : (o : Option Float) → IsSourced (integrated_energy o)
integrated-IsSourced none = unknown
integrated-IsSourced (some wh) = integrated wh

compute_energy-IsSourced :
    (first last : Option ℕ) (samples : List Fields) → IsSourced (compute_energy first last samples)
unfolding compute_energy
compute_energy-IsSourced none last samples = integrated-IsSourced (integrate_power_wh samples)
compute_energy-IsSourced (some a) none samples = integrated-IsSourced (integrate_power_wh samples)
compute_energy-IsSourced (some a) (some b) samples =
    if_ind IsSourced (leb a b) (some (true_quotient (b - a) mj_per_wh), some "counter")
      (integrated_energy (integrate_power_wh samples)) (counted (true_quotient (b - a) mj_per_wh))
      (integrated-IsSourced (integrate_power_wh samples))

-- An average and a peak, where there is a reading at all.
abbrev Both : List Float → Option Float × Option Float → Type 0
Both readings p = (is_some p.0 ≡ not (is_nil readings)) × (is_some p.1 ≡ not (is_nil readings))

avg_peak-Both : (values : List Value) → Both (non_null values) (avg_peak values)
unfolding avg_peak
avg_peak-Both values = go (non_null values)
  where
    go : (readings : List Float) → Both readings (average readings, peak readings)
    go [] = (refl, refl)
    go (x ∷ xs) = (refl, refl)

samples-sample_loop :
    (ticks : List Tick) (s : Sampler)
    → sample_loop ticks s ≡ record s { samples = s.samples ++ map sample_of ticks }
unfolding sample_loop collect_one
samples-sample_loop [] s =
    ap (λ (l : List Fields). record s { samples = l }) (sym (append-nil s.samples))
samples-sample_loop (tick ∷ ticks) s =
    samples-sample_loop ticks (collect_one tick s)
    ∙ ap (λ (l : List Fields). record s { samples = l })
        (append_assoc s.samples (sample_of tick ∷ []) (map sample_of ticks))

-- The telemetry of a run between two readings of the monotonic clock, sampled in the given rounds.
pub record IsTelemetry (ticks : List Tick) (begun ended : ℕ) (t : RunTelemetry) : Type 0 where
  pub trace : t.samples ≡ map sample_of ticks
  pub lasted : t.duration_s ≡ total_seconds (ended - begun)
  pub energy : IsSourced (t.energy_wh, t.energy_source)
  pub power : Both (non_null (map (get "power_w") t.samples)) (t.avg_w, t.peak_w)

-- Whatever a profiler sampled before: the telemetry of a run has one sample for each round since its
-- start, in their order, and none of an earlier run; its duration is the time from the start to the
-- stop; it names a source of energy exactly if it has an energy; and it has an average and a peak of
-- the power exactly if a sample has a reading of the power.
pub stop-IsTelemetry :
    (s : Sampler) (ticks : List Tick) (run_id : String) (asked : Option String) (begun ended : ℕ)
    (first last : Option ℕ) (capabilities : List String)
    → IsTelemetry ticks begun ended
        (stop asked ended last capabilities (sample_loop ticks (start run_id begun first s)))
unfolding stop start
stop-IsTelemetry s ticks run_id asked begun ended first last capabilities =
    rw (samples-sample_loop ticks (start run_id begun first s)) (record {
      trace = refl;
      lasted = refl;
      energy = compute_energy-IsSourced first last (map sample_of ticks);
      power = avg_peak-Both (map (get "power_w") (map sample_of ticks));
    })

-- The record fields say nothing of the exit status.
pub to_record_fields-exit_status :
    (t : RunTelemetry) → has_key "exit_status" (to_record_fields t) ≡ false
unfolding to_record_fields has_key
to_record_fields-exit_status t = refl
