-- ===== src/Profiler/Threads.antt =====
-- The sampling threads of `_SampledProfiler` of `hmasync_controller/profiler.py`, and what its `start` and
-- `stop` do to them, in any order of their steps. A thread is known by the number of the run that started it.
-- A thread reads `self._stop` and `self._samples` anew in each round, so these are those of the newest run.
use async_energy_controller.Base.{
  ℕ, suc, All-append, ◌+◌, ◌≤◌, ◌<◌, Bool, true, false, List, [], ◌∷◌, ◌++◌, All, ◌==◌,
  if◌then◌else◌, ◌≡◌, refl, arith,
}

-- Before the check of the event, in `_collect_one`, in the wait.
pub data Place : Type 0 where
  checking collecting waiting : Place

-- The run that started it, and where it is.
abbrev pub Thread : Type 0
Thread = ℕ × Place

pub record Machine : Type 0 where
  -- How many runs were started.
  pub run : ℕ
  -- Of the event of the newest run.
  pub is_set : Bool
  pub threads : List Thread
  -- For each sample, the run that started the thread that took it.
  pub samples : List ℕ
  -- How often a `start` gave up waiting for the thread before.
  pub late : ℕ

-- A step of one thread: the threads before and after it, and the samples that it takes.
pub data Turn (is_set : Bool) : List Thread → List Thread → List ℕ → Type 0 where
  checks :
      {r : ℕ} {ts : List Thread}
      → is_set ≡ false
      → Turn is_set ((r, checking) ∷ ts) ((r, collecting) ∷ ts) []
  ends : {r : ℕ} {ts : List Thread} → is_set ≡ true → Turn is_set ((r, checking) ∷ ts) ts []
  collects :
      {r : ℕ} {ts : List Thread} → Turn is_set ((r, collecting) ∷ ts) ((r, waiting) ∷ ts) (r ∷ [])
  wakes : {r : ℕ} {ts : List Thread} → Turn is_set ((r, waiting) ∷ ts) ((r, checking) ∷ ts) []
  other :
      {t : Thread} {ts ts' : List Thread} {taken : List ℕ}
      → Turn is_set ts ts' taken
      → Turn is_set (t ∷ ts) (t ∷ ts') taken

-- The threads of a run, and those of other runs.
abbrev pub own : ℕ → List Thread → ℕ
own run [] = 0
own run ((r, place) ∷ ts) = let rest = own run ts in if r == run then suc rest else rest

abbrev pub others : ℕ → List Thread → ℕ
others run [] = 0
others run ((r, place) ∷ ts) = let rest = others run ts in if r == run then rest else suc rest

-- The part of `start` after the join: a new list, a new event and a new thread.
abbrev pub launched : ℕ → Machine → Machine
launched late m = record {
  run = suc m.run;
  is_set = false;
  threads = (suc m.run, checking) ∷ m.threads;
  samples = [];
  late = late;
}

pub data Step : Machine → Machine → Type 0 where
  turns :
      (m : Machine) {ts : List Thread} {taken : List ℕ}
      → Turn m.is_set m.threads ts taken
      → Step m (record m { threads = ts; samples = m.samples ++ taken })
  -- `self._stop.set()`, in `stop` and in `start`.
  signals : (m : Machine) → Step m (record m { is_set = true })
  -- The thread of the run before has ended, if there is one.
  starts : (m : Machine) → own m.run m.threads ≡ 0 → Step m (launched m.late m)
  -- The join of that thread has timed out.
  starts_late : (m : Machine) → 0 < own m.run m.threads → Step m (launched (suc m.late) m)

abbrev pub new_machine : Machine
new_machine = record { run = 0; is_set = false; threads = []; samples = []; late = 0 }

pub data IsReachable : Machine → Type 0 where
  created : IsReachable new_machine
  next : {m m' : Machine} → IsReachable m → Step m m' → IsReachable m'

abbrev Fresh : ℕ → List Thread → Type 0
Fresh run [] = Unit
Fresh run ((r, place) ∷ ts) = (r ≤ run) × Fresh run ts

Fresh-suc :
    (run : ℕ) (ts : List Thread)
    → Fresh run ts
    → Fresh (suc run) ts
      × (own (suc run) ts ≡ 0)
      × (others (suc run) ts ≡ own run ts + others run ts)
Fresh-suc run [] h = (tt, refl, refl)
Fresh-suc run ((r, place) ∷ ts) (le, h) =
    let (fresh, none_own, all) = Fresh-suc run ts h in
    ((omega arith, fresh), ground (arith, none_own), ground (arith, all))

-- What a step of a thread keeps.
abbrev Kept : ℕ → List Thread → List Thread → List ℕ → Type 0
Kept run ts ts' taken =
    (Fresh run ts → Fresh run ts')
    × (own run ts' ≤ own run ts)
    × (others run ts' ≤ others run ts)
    × (others run ts ≡ 0 → All (λ r. r ≡ run) taken)

Turn-Kept :
    (run : ℕ) {is_set : Bool} {ts ts' : List Thread} {taken : List ℕ}
    → Turn is_set ts ts' taken
    → Kept run ts ts' taken
Turn-Kept run (checks e) = ((λ h. h), omega arith, omega arith, (λ _. tt))
Turn-Kept run (ends e) = ((λ h. h.1), ground arith, ground arith, (λ _. tt))
Turn-Kept run collects = ((λ h. h), omega arith, omega arith, (λ z. (ground arith, tt)))
Turn-Kept run wakes = ((λ h. h), omega arith, omega arith, (λ _. tt))
Turn-Kept run (other {t = (r, place)} turn) =
    let (fresh, fewer, less, sampled) = Turn-Kept run turn in
    (
      (λ h. (h.0, fresh h.1)),
      ground (arith, fewer),
      ground (arith, less),
      (λ z. sampled (ground arith)),
    )

-- The samples of the newest run are its own, where no start was late.
abbrev pub IsOwn : Machine → Type 0
IsOwn m = m.late ≡ 0 → All (λ r. r ≡ m.run) m.samples

abbrev IsSound : Machine → Type 0
IsSound m =
    Fresh m.run m.threads × (own m.run m.threads ≤ 1) × (others m.run m.threads ≤ m.late) × IsOwn m

Step-IsSound : {m m' : Machine} → Step m m' → IsSound m → IsSound m'
Step-IsSound (turns m turn) (fresh, one, few, sampled) =
    let (fresher, fewer, less, taken) = Turn-Kept m.run turn in
    (
      fresher fresh,
      omega (arith, one, fewer),
      omega (arith, few, less),
      (λ z. All-append (λ r. r ≡ m.run) m.samples _ (sampled z) (taken (omega (arith, few)))),
    )
Step-IsSound (signals m) sound = sound
Step-IsSound (starts m ended) (fresh, one, few, sampled) =
    let (later, none_own, all) = Fresh-suc m.run m.threads fresh in
    ((omega arith, later), ground (arith, none_own), ground (arith, all, few, ended), (λ _. tt))
Step-IsSound (starts_late m alive) (fresh, one, few, sampled) =
    let (later, none_own, all) = Fresh-suc m.run m.threads fresh in
    ((omega arith, later), ground (arith, none_own), ground (arith, all, few, one), (λ _. tt))

reachable-IsSound : {m : Machine} → IsReachable m → IsSound m
reachable-IsSound created = (tt, omega arith, omega arith, (λ _. tt))
reachable-IsSound (next reached step) = Step-IsSound step (reachable-IsSound reached)

-- In whatever order the threads and the calls take their steps, at most one thread samples for the newest run,
-- and at most as many others as starts have given up their join. Where none has, every sample in the list was
-- taken by the thread of the newest run.
pub IsReachable-IsOwn :
    (m : Machine)
    → IsReachable m
    → (own m.run m.threads ≤ 1) × (others m.run m.threads ≤ m.late) × IsOwn m
IsReachable-IsOwn m reached =
    let (fresh, one, few, sampled) = reachable-IsSound reached in (one, few, sampled)
