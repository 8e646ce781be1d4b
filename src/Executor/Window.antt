-- ===== src/Executor/Window.antt =====
-- The window of a placement in `hmasync_controller/executor.py`: the latest start that the fallback
-- computes (`_target_start`), and the bound of a run (`_bounded_request`).
use async_energy_controller.Base.{
  String, Bool-cases, inl, inr, ◌⊎◌, leb, max, true, false, Option, none, some, ◌≡◌, refl, arith,
  ◌≤◌, str_eq, ℕ, sym, ap, ◌∙◌,
}
use async_energy_controller.Base.Int.{
  ℤ, pos, negsuc, ◌≤ℤ◌, ◌-ℤ◌, -ℤ_parts, eq_of_parts, pos_part, neg_part,
}
use async_energy_controller.Value.Dict.{get-put, get-put_other}
use async_energy_controller.Value.{DateTime, PyText, Fields, get, put, Float, float}
use async_energy_controller.Value.Number.{total_seconds}
use async_energy_controller.Executor.Schedule.{IsAware, instant, JobEntry, JobDef, Placement}
use async_energy_controller.Executor.Select.{
  fallback, target_start, fallback_deadline, resolve_job, latest_start, duration, is_datetime,
  target_raises,
}
use async_energy_controller.Executor.Run.{
  window_budget, bounded_request, declared_timeout, min_window_timeout_us,
}

-_back : (a b : ℤ) → a -ℤ (a -ℤ b) ≡ b
-_back a b = eq_of_parts (a -ℤ (a -ℤ b)) b (omega (arith, -ℤ_parts a b, -ℤ_parts a (a -ℤ b)))

-_shift : (a b o : ℤ) → (a -ℤ o) -ℤ ((a -ℤ b) -ℤ o) ≡ b
-_shift a b o = eq_of_parts ((a -ℤ o) -ℤ ((a -ℤ b) -ℤ o)) b (
    omega
      (arith, -ℤ_parts a b, -ℤ_parts (a -ℤ b) o, -ℤ_parts a o, -ℤ_parts (a -ℤ o) ((a -ℤ b) -ℤ o)))

-_cancel : (a b c : ℤ) → a -ℤ b ≡ a -ℤ c → b ≡ c
-_cancel a b c h =
    eq_of_parts b c (omega (arith, -ℤ_parts a b, -ℤ_parts a c, ap pos_part h, ap neg_part h))

-- Moving the clock of a time back moves the time back.
instant_back :
    (clock l : ℤ) (offset : Option ℤ)
    → instant (record { clock = clock; offset = offset })
        -ℤ instant (record { clock = clock -ℤ l; offset = offset })
      ≡ l
unfolding instant
instant_back clock l none = -_back clock l
instant_back clock l (some o) = -_shift clock l o

-- The time at which a run has to end: the end of the placement, or else the deadline of the job.
abbrev pub IsLimit : JobDef → Placement → DateTime → Type 0
IsLimit job p limit =
    (p.end_time ≡ some limit) ⊎ ((p.end_time ≡ none) × (job.deadline ≡ some limit))

-- The budget is the time that is left up to the limit, but at least a minute.
abbrev pub IsBudget : DateTime → DateTime → ℕ → Type 0
IsBudget limit now budget =
    (60_000_000 ≤ budget)
    × (instant limit -ℤ instant now ≤ℤ pos budget)
    × ((budget ≡ 60_000_000) ⊎ (pos budget ≡ instant limit -ℤ instant now))

window_budget-eq :
    (job : JobDef) (p : Placement) (now limit : DateTime)
    → IsLimit job p limit
    → window_budget job p now
      ≡ some (max (pos_part (instant limit -ℤ instant now)) min_window_timeout_us)
unfolding window_budget
window_budget-eq job p now limit (inl e) = rw (window_budget, e) refl
window_budget-eq job p now limit (inr (e, d)) = rw (window_budget, e, d) refl

window_budget-none :
    (job : JobDef) (p : Placement) (now : DateTime)
    → p.end_time ≡ none
    → job.deadline ≡ none
    → window_budget job p now ≡ none
unfolding window_budget
window_budget-none job p now e d = rw (window_budget, e, d) refl

max-IsBudget :
    (limit now : DateTime)
    → IsBudget limit now (max (pos_part (instant limit -ℤ instant now)) min_window_timeout_us)
max-IsBudget limit now = of_left (instant limit -ℤ instant now)
  where
    of_left :
        (left : ℤ)
        → (60_000_000 ≤ max (pos_part left) 60_000_000)
          × (left ≤ℤ pos (max (pos_part left) 60_000_000))
          × ((max (pos_part left) 60_000_000 ≡ 60_000_000)
              ⊎ (pos (max (pos_part left) 60_000_000) ≡ left))
    of_left (pos n) = elim (Bool-cases (leb n 60_000_000)) [
      | inl low ↦ (omega arith, omega arith, inl (ground arith))
      | inr high ↦
          let same : max n 60_000_000 ≡ n = ground arith in
          (omega arith, omega arith, inr (ap (λ (x : ℕ). pos x) same))
    ]
    of_left (negsuc n) = (omega arith, omega arith, inl refl)

-- The deadline that the fallback runs up to: that of the job, or else the planned end.
abbrev pub IsDeadline : Option JobDef → DateTime → DateTime → Type 0
IsDeadline none end_time deadline = deadline ≡ end_time
IsDeadline (some job) end_time deadline =
    (job.deadline ≡ some deadline) ⊎ ((job.deadline ≡ none) × (deadline ≡ end_time))

module _ (texts : PyText) (job_source : Option String → JobEntry) where
  duration-eq :
      (p : Placement) (start end_time : DateTime)
      → p.start ≡ some start
      → p.end_time ≡ some end_time
      → duration texts job_source p ≡ some (instant end_time -ℤ instant start)
  unfolding duration
  duration-eq p start end_time s e = ground arith

  deadline-eq :
      (job : Option JobDef) (p : Placement) (end_time deadline : DateTime)
      → p.end_time ≡ some end_time
      → IsDeadline job end_time deadline
      → fallback_deadline texts job_source job p ≡ some deadline
  unfolding fallback_deadline
  deadline-eq none p end_time deadline e d = e ∙ ap (λ (t : DateTime). some t) (sym d)
  deadline-eq (some job) p end_time deadline e (inl d) = rw (fallback_deadline, d) refl
  deadline-eq (some job) p end_time deadline e (inr (d, same)) =
      rw (fallback_deadline, d) (e ∙ ap (λ (t : DateTime). some t) (sym same))

  -- In the fallback, a placement with a start and an end runs up to its deadline, that of the job or, where
  -- there is no job or it has none, the planned end: from the target to the deadline it takes as long as was
  -- planned. With the planned end as the deadline, the target is the planned start. Where the target would lie
  -- outside of the years 1 to 9999, its computation raises instead. All three times are aware.
  pub target_start-fallback :
      (p : Placement) (start end_time deadline : DateTime)
      → p.start ≡ some start
      → p.end_time ≡ some end_time
      → IsAware start
      → IsAware end_time
      → IsAware deadline
      → IsDeadline (resolve_job texts job_source p.workflow_id) end_time deadline
      → let left = deadline.clock -ℤ (instant end_time -ℤ instant start) in
        (is_datetime left ≡ true
          → (target_raises texts job_source p fallback ≡ false)
            × (target : DateTime) × (target_start texts job_source p fallback ≡ some target)
            × (instant deadline -ℤ instant target ≡ instant end_time -ℤ instant start)
            × (deadline ≡ end_time → instant target ≡ instant start))
        × (is_datetime left ≡ false → target_raises texts job_source p fallback ≡ true)
  unfolding target_start target_raises latest_start
  target_start-fallback p start end_time deadline s e aware_start aware_end aware_deadline d =
      let l = instant end_time -ℤ instant start in
      let target : DateTime = record deadline { clock = deadline.clock -ℤ l } in
      let back = instant_back deadline.clock l deadline.offset in
      let found =
        deadline-eq (resolve_job texts job_source p.workflow_id) p end_time deadline e d in
      let planned = duration-eq p start end_time s e in
      (
        λ inside. (
          rw (found, planned, target_raises, inside) refl,
          target,
          rw (found, planned, target_start, latest_start) refl,
          back,
          λ same.
              -_cancel (instant deadline) (instant target) (instant start)
                (back ∙ ap (λ x. instant x -ℤ instant start) (sym same)),
        ),
        λ outside. rw (found, planned, target_raises, outside) refl,
      )

-- Where the placement has an end, or else the job a deadline, and it is aware, there is a budget: the time from now up to the
-- first of these that there is, but at least a minute. A job that declares no timeout runs with the budget as
-- its timeout and the rest of its request unchanged, and one that declares a timeout runs with its own request.
-- Without an end and a deadline every job runs with its own request.
pub bounded_request-IsBounded :
    (texts : PyText) (job : JobDef) (p : Placement) (now : DateTime)
    → ((limit : DateTime)
        → IsLimit job p limit
        → IsAware limit
        → (budget : ℕ) × IsBudget limit now budget
          × (declared_timeout texts job.request ≡ some none
              → (request : Fields) × (bounded_request texts job p now ≡ some request)
                × (get "timeout" request ≡ float (total_seconds budget))
                × ((k : String) → str_eq "timeout" k ≡ false → get k request ≡ get k job.request))
          × ((x : Float)
              → declared_timeout texts job.request ≡ some (some x)
              → bounded_request texts job p now ≡ some job.request))
      × (p.end_time ≡ none
          → job.deadline ≡ none
          → bounded_request texts job p now ≡ some job.request)
unfolding bounded_request
bounded_request-IsBounded texts job p now = (
  λ limit is aware.
      let budget = max (pos_part (instant limit -ℤ instant now)) min_window_timeout_us in
      let w = window_budget-eq job p now limit is in
      (
        budget,
        max-IsBudget limit now,
        λ none_declared. (
          put "timeout" (float (total_seconds budget)) job.request,
          rw (w, bounded_request, none_declared) refl,
          get-put "timeout" (float (total_seconds budget)) job.request,
          λ k other. get-put_other k "timeout" (float (total_seconds budget)) job.request other,
        ),
        λ x declared. rw (w, bounded_request, declared) refl,
      ),
  λ e d. rw (window_budget-none job p now e d, bounded_request) refl,
)
