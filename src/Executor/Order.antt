-- ===== src/Executor/Order.antt =====
-- `_pending` and `_due` of `hmasync_controller/executor.py` choose exactly the placements that
-- they should, and in the order of their targets.
use async_energy_controller.Base.{
  String, true, false, ◌≡◌, ◌⊎◌, inl, inr, refl, ap, Option, none, some, List, [], ◌∷◌, arith,
  is_some, if_ind, ◌∙◌, sym, ◌↔◌, if_elim,
}
use async_energy_controller.Base.Int.{leb_ℤ, ◌≤ℤ◌}
use async_energy_controller.Value.{DateTime, PyText}
use async_energy_controller.Executor.Schedule.{instant, JobEntry, Placement}
use async_energy_controller.Executor.Select.{
  Key, Mode, Pending, was_executed, not_after, insert_pending, sort_pending, key, target_start,
  pending_entry, collect, pending, arrived, due, attach,
}

-- Membership in a list.
abbrev pub In : {A : Type 0} → A → List A → Type 0
In x [] = ⊥
In x (y ∷ ys) = (x ≡ y) ⊎ In x ys

-- The targets ascend.
abbrev pub Ascends : List Pending → Type 0
Ascends [] = Unit
Ascends (p ∷ []) = Unit
Ascends (p ∷ q ∷ qs) = (instant p.target ≤ℤ instant q.target) × Ascends (q ∷ qs)

not_after-le : (p q : Pending) → not_after p q ≡ true → instant p.target ≤ℤ instant q.target
unfolding not_after
not_after-le p q h = ground arith

not_after-ge : (p q : Pending) → not_after p q ≡ false → instant q.target ≤ℤ instant p.target
unfolding not_after
not_after-ge p q h = ground arith

insert-Ascends : (p : Pending) (qs : List Pending) → Ascends qs → Ascends (insert_pending p qs)
unfolding insert_pending
insert-Ascends p [] h = tt
insert-Ascends p (q ∷ []) h = ground (arith, not_after-le p q, not_after-ge p q)
insert-Ascends p (q ∷ r ∷ qs) h = ground (
  arith,
  not_after-le p q,
  not_after-ge p q,
  not_after-le p r,
  not_after-ge p r,
  insert-Ascends p (r ∷ qs) h.1,
)

sort-Ascends : (ps : List Pending) → Ascends (sort_pending ps)
unfolding sort_pending
sort-Ascends [] = tt
sort-Ascends (p ∷ ps) = insert-Ascends p (sort_pending ps) (sort-Ascends ps)

-- Sorting keeps the members.
insert-In : (p q : Pending) (qs : List Pending) → In q (p ∷ qs) → In q (insert_pending p qs)
unfolding insert_pending
insert-In p q [] h = h
insert-In p q (r ∷ qs) h =
    if_ind (In q) (not_after p r) (p ∷ r ∷ qs) (r ∷ insert_pending p qs) h (elim h [
      | inl e ↦ inr (insert-In p q qs (inl e))
      | inr (inl e) ↦ inl e
      | inr (inr k) ↦ inr (insert-In p q qs (inr k))
    ])

In-insert : (p q : Pending) (qs : List Pending) → In q (insert_pending p qs) → In q (p ∷ qs)
unfolding insert_pending
In-insert p q [] h = h
In-insert p q (r ∷ qs) h =
    (if_ind (λ (l : List Pending). In q l → In q (p ∷ r ∷ qs)) (not_after p r) (p ∷ r ∷ qs)
        (r ∷ insert_pending p qs) (λ h. h)
        (λ h. elim h [
          | inl e ↦ inr (inl e)
          | inr k ↦ elim (In-insert p q qs k) [ inl e ↦ inl e | inr l ↦ inr (inr l) ]
        ]))
      h

sort-In : (q : Pending) (ps : List Pending) → In q ps → In q (sort_pending ps)
unfolding sort_pending
sort-In q [] h = h
sort-In q (p ∷ ps) (inl e) = insert-In p q (sort_pending ps) (inl e)
sort-In q (p ∷ ps) (inr h) = insert-In p q (sort_pending ps) (inr (sort-In q ps h))

In-sort : (q : Pending) (ps : List Pending) → In q (sort_pending ps) → In q ps
unfolding sort_pending
In-sort q [] h = h
In-sort q (p ∷ ps) h = elim (In-insert p q (sort_pending ps) h) [
  | inl e ↦ inl e
  | inr k ↦ inr (In-sort q ps k)
]

In-attach :
    (d : Pending) (o : Option Pending) (rest : List Pending)
    → In d (attach o rest)
    → (o ≡ some d) ⊎ In d rest
In-attach d none rest h = inr h
In-attach d (some x) rest (inl e) = inl (ap some (sym e))
In-attach d (some x) rest (inr k) = inr k

attach-here :
    (d : Pending) (o : Option Pending) (rest : List Pending) → o ≡ some d → In d (attach o rest)
attach-here d none rest e = cc
attach-here d (some x) rest e = inl (ground arith)

attach-In :
    (d : Pending) (o : Option Pending) (rest : List Pending) → In d rest → In d (attach o rest)
attach-In d none rest h = h
attach-In d (some x) rest h = inr h

module _ (texts : PyText) (job_source : Option String → JobEntry) where
  -- What makes a placement due: it is feasible and has a start, it was not attempted, and its
  -- target, the planned start or the latest start of the fallback, has arrived.
  pub record IsDue (executed : List Key) (now : DateTime) (mode : Mode) (p : Placement)
      : Type 0 where
    pub feasible : p.feasible ≡ true
    pub placed : is_some p.start ≡ true
    pub fresh : was_executed (key texts job_source p) executed ≡ false
    pub target : DateTime
    pub targeted : target_start texts job_source p mode ≡ some target
    pub arrived_by : leb_ℤ (instant target) (instant now) ≡ true

  module _ (executed : List Key) (now : DateTime) (mode : Mode) where
    pending_entry-eq :
        (p : Placement) (d : Pending)
        → pending_entry texts job_source executed mode p ≡ some d
        → (p.feasible ≡ true)
          × (is_some p.start ≡ true)
          × (was_executed (key texts job_source p) executed ≡ false)
          × (target_start texts job_source p mode ≡ some d.target)
          × (d.placement ≡ p)
    unfolding pending_entry
    pending_entry-eq p d h = ground arith

    pending_entry-some :
        (p : Placement) (w : IsDue executed now mode p)
        → pending_entry texts job_source executed mode p
          ≡ some (record { target = w.target; placement = p })
    unfolding pending_entry
    pending_entry-some p w = ground arith

    collect-In :
        (p : Placement) (d : Pending) (ps : List Placement)
        → pending_entry texts job_source executed mode p ≡ some d
        → In p ps
        → In d (collect texts job_source executed mode ps)
    unfolding collect
    collect-In p d [] h k = absurd k
    collect-In p d (q ∷ ps) h (inl e) =
        attach-here d (pending_entry texts job_source executed mode q) _
          (ap (pending_entry texts job_source executed mode) (sym e) ∙ h)
    collect-In p d (q ∷ ps) h (inr k) =
        attach-In d (pending_entry texts job_source executed mode q) _ (collect-In p d ps h k)

    In-collect :
        (d : Pending) (ps : List Placement)
        → In d (collect texts job_source executed mode ps)
        → (p : Placement) × In p ps × (pending_entry texts job_source executed mode p ≡ some d)
    unfolding collect
    In-collect d [] h = absurd h
    In-collect d (q ∷ ps) h =
        elim (In-attach d (pending_entry texts job_source executed mode q) _ h) [
          | inl e ↦ (q, inl refl, e)
          | inr k ↦ let (p, l, f) = In-collect d ps k in (p, inr l, f)
        ]

    arrived-In :
        (d : Pending) (ds : List Pending)
        → leb_ℤ (instant d.target) (instant now) ≡ true
        → In d ds
        → In d.placement (arrived texts job_source now ds)
    unfolding arrived
    arrived-In d [] h k = absurd k
    arrived-In d (x ∷ ds) h (inl e) = rw (← e, h) (inl refl)
    arrived-In d (x ∷ ds) h (inr k) =
        let rest = arrived-In d ds h k in
        let others = arrived texts job_source now ds in
        if_ind (In d.placement) (leb_ℤ (instant x.target) (instant now)) (x.placement ∷ others)
          others (inr rest) rest

    abbrev Arrival : Placement → List Pending → Type 0
    Arrival p ds =
        (d : Pending) × In d ds
        × (d.placement ≡ p)
        × (leb_ℤ (instant d.target) (instant now) ≡ true)

    In-arrived :
        (p : Placement) (ds : List Pending) → In p (arrived texts job_source now ds) → Arrival p ds
    unfolding arrived
    In-arrived p [] h = absurd h
    In-arrived p (x ∷ ds) h =
        let others = arrived texts job_source now ds in
        let later = λ (k : In p others).
          let (d, l, f, g) = In-arrived p ds k in
          let a : Arrival p (x ∷ ds) = (d, inr l, f, g) in a in
        (if_elim (λ (l : List Placement). In p l → Arrival p (x ∷ ds))
            (leb_ℤ (instant x.target) (instant now)) (x.placement ∷ others) others
            (λ e h. elim h [ inl same ↦ (x, inl refl, sym same, e) | inr k ↦ later k ])
            (λ e. later))
          h

    -- The placements that a tick selects are exactly those of the schedule that are due.
    pub due_iff :
        (p : Placement) (ps : List Placement)
        → In p (due texts job_source executed now mode ps) ↔ (In p ps × IsDue executed now mode p)
    unfolding due pending
    due_iff p ps = (to, from)
      where
        to : In p (due texts job_source executed now mode ps) → In p ps × IsDue executed now mode p
        to h =
            let (d, sorted, same, by_now) = In-arrived p _ h in
            let (q, member, e) = In-collect d ps (In-sort d _ sorted) in
            let (feasible, placed, fresh, targeted, from_q) = pending_entry-eq q d e in
            let q_is_p = sym from_q ∙ same in
            rw (← q_is_p) (
              member,
              record {
                feasible = feasible;
                placed = placed;
                fresh = fresh;
                target = d.target;
                targeted = targeted;
                arrived_by = by_now;
              },
            )

        from :
            In p ps × IsDue executed now mode p → In p (due texts job_source executed now mode ps)
        from (h, w) =
            arrived-In (record { target = w.target; placement = p }) _ w.arrived_by
              (sort-In _ _ (collect-In p _ ps (pending_entry-some p w) h))

    -- The pending placements stand in the order of their targets.
    pending-Ascends : (ps : List Placement) → Ascends (pending texts job_source executed mode ps)
    unfolding pending
    pending-Ascends ps = sort-Ascends (collect texts job_source executed mode ps)
