-- ===== src/Executor/Invariant.antt =====
-- The rule for invariants of `tick` and `run_forever` of `hmasync_controller/executor.py`: what
-- syncing, draining and attempting one placement keep, every tick keeps.
use async_energy_controller.Base.{
  Bool, if_elim, ◌≡◌, refl, Option, none, some, List, [], ◌∷◌, ℕ, String, subst, ap,
}
use async_energy_controller.Value.{DateTime, PyText}
use async_energy_controller.Executor.Schedule.{JobEntry, Placement, ActiveSchedule, ensure_aware}
use async_energy_controller.Executor.Select.{key, mode_at, pending_raises}
use async_energy_controller.Executor.Run.{World, Executor, execute}
use async_energy_controller.Executor.Tick.{
  TickResult, sync_schedule, drain, execute_all, run_due, after_drain, after_sync, tick, continue,
  run_ticks, todo, placements_of,
}

module _ (texts : PyText) (job_source : Option String → JobEntry) (world : World) where
  -- One round of the loop of `tick`: the placement is executed, and its key is remembered.
  abbrev pub attempt : DateTime → Placement → Executor → Executor
  attempt now p st =
      let st' = (execute texts world job_source p now st).1 in
      record st' { executed = key texts job_source p ∷ st'.executed }

  pub record IsKept (P : Executor → Type 0) : Type 0 where
    pub synced :
        (st : Executor) (r a : Bool) (st' : Executor)
        → sync_schedule texts job_source world st ≡ some (r, a, st')
        → P st
        → P st'
    pub drained : (r : Bool) (st : Executor) → P st → P (drain texts job_source world r st).1
    pub attempted : (now : DateTime) (p : Placement) (st : Executor) → P st → P (attempt now p st)

  module _ {P : Executor → Type 0} (kept : IsKept P) where
    execute_all-keeps :
        (now : DateTime) (ps : List Placement) (st : Executor)
        → P st
        → P (execute_all texts job_source world now ps st).1
    unfolding execute_all
    execute_all-keeps now [] st h = h
    execute_all-keeps now (p ∷ ps) st h =
        execute_all-keeps now ps (attempt now p st) (kept.attempted now p st h)

    run_due-keeps :
        (now : DateTime) (a : Bool) (d : ℕ) (r : Bool) (st : Executor)
        → P st
        → P (run_due texts job_source world now a d r st).1
    unfolding run_due
    run_due-keeps now a d r st h = execute_all-keeps now (todo texts job_source world now st) st h

    after_drain-keeps :
        (now : DateTime) (r a : Bool) (d : ℕ) (s : Option ActiveSchedule) (st : Executor)
        → P st
        → P (after_drain texts job_source world now r a d s st).1
    unfolding after_drain
    after_drain-keeps now r a d none st h = h
    after_drain-keeps now r a d (some s) st h = run_due-keeps now a d r st h

    after_sync-keeps :
        (now : DateTime) (st : Executor) (synced : Option (Bool × Bool × Executor))
        → sync_schedule texts job_source world st ≡ synced
        → (result : TickResult) (st' : Executor)
        → after_sync texts job_source world now synced ≡ some (result, st')
        → P st
        → P st'
    unfolding after_sync
    after_sync-keeps now st none e result st' h p = cc
    after_sync-keeps now st (some (r, a, st1)) e result st' h p =
        let (d, st2) = drain texts job_source world r st1 in
        let done = after_drain texts job_source world now r a d st2.current st2 in
        let raises =
          pending_raises texts job_source st2.executed (mode_at now st2.current)
            (placements_of st2) in
        if_elim (λ (o : Option (TickResult × Executor)). o ≡ some (result, st') → P st') raises none
          (some done) (λ _ h. absurd (cc h))
          (λ _ h.
            subst (λ (t : TickResult × Executor). P t.1)
              (ap (λ (o : Option (TickResult × Executor)). elim o [ none ↦ done | some t ↦ t ]) h)
              (after_drain-keeps now r a d st2.current st2
                (kept.drained r st1 (kept.synced st r a st1 e p))))
          h

    pub tick-keeps :
        (now : DateTime) (st : Executor) (result : TickResult) (st' : Executor)
        → tick texts job_source world now st ≡ some (result, st')
        → P st
        → P st'
    unfolding tick
    tick-keeps now st result st' h p =
        after_sync-keeps (ensure_aware now) st (sync_schedule texts job_source world st) refl result
          st' h p

    continue-keeps :
        (rest : Executor → List TickResult × Bool × Executor)
        → ((st : Executor) → P st → P (rest st).2)
        → (now : DateTime) (st : Executor) (ticked : Option (TickResult × Executor))
        → tick texts job_source world now st ≡ ticked
        → P st
        → P (continue texts job_source world rest st ticked).2
    unfolding continue
    continue-keeps rest k now st none e p = p
    continue-keeps rest k now st (some (result, st')) e p = k st' (tick-keeps now st result st' e p)

    pub run_ticks-keeps :
        (clock : List DateTime) (st : Executor)
        → P st
        → P (run_ticks texts job_source world clock st).2
    unfolding run_ticks
    run_ticks-keeps [] st p = p
    run_ticks-keeps (now ∷ clock) st p =
        continue-keeps (λ st'. run_ticks texts job_source world clock st')
          (λ st' h. run_ticks-keeps clock st' h) now st (tick texts job_source world now st) refl p
