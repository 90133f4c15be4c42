-- ===== src/Worker/Reach.antt =====
-- What chains of transitions can do: a worker never changes its org, never becomes idle again, and
-- can always be retired, for good.
use duckgres.Base.{
  ◌≡◌, ◌≢◌, refl, sym, subst, ◌∙◌, ◌⊎◌, inl, inr, Bool, true, false, Option, none, some,
  if◌then◌else◌, Bytes, bytes_eq, bytes_eq_iff,
}
use duckgres.Base.Results.{Result, ok, err}
use duckgres.Worker.Lifecycle.{
  WorkerLifecycleState, zero_value, idle, reserved, activating, hot, hot_idle, draining, retired,
  other, WorkerAssignment, SharedWorkerState, WorkerError, org_changed, normalized_lifecycle,
  validate_as, validate, is_allowed,
}
use duckgres.Worker.Transition.{
  validate_present, pick_assignment, resolve_assignment, next_assignment, finish_transition,
  transition, transition-Took, transition-step,
}

-- `t` is what a chain of successful transitions makes of `s`.
pub data Reach (s : SharedWorkerState) : SharedWorkerState → Type 0 where
  here : Reach s s
  onward :
      {t u : SharedWorkerState}
      → Reach s t
      → (next : WorkerLifecycleState) → (p : Option WorkerAssignment) → transition t next p ≡ ok u
      → Reach s u

-- The assignment is there, for this org.
abbrev pub Bound : Bytes → Option WorkerAssignment → Type 0
Bound org a = (d : WorkerAssignment) × (a ≡ some d) × (d.org_id ≡ org)

pick_assignment-Bound :
    (c : WorkerAssignment) (p a : Option WorkerAssignment)
    → pick_assignment (some c) p ≡ ok a
    → Bound c.org_id a
unfolding pick_assignment
pick_assignment-Bound c none a h = (c, cc, refl)
pick_assignment-Bound c (some p) a h = go (bytes_eq c.org_id p.org_id) refl h
  where
    go :
        (b : Bool)
        → bytes_eq c.org_id p.org_id ≡ b
        → ◌≡◌ {A = Result WorkerError (Option WorkerAssignment)}
            (if b then ok (some p) else err org_changed)
            (ok a)
        → Bound c.org_id a
    go true e q = (p, cc, sym ((bytes_eq_iff c.org_id p.org_id).0 e))
    go false e q = cc

resolve_assignment-Bound :
    (c : WorkerAssignment) (p a : Option WorkerAssignment)
    → resolve_assignment (some c) p ≡ ok a
    → Bound c.org_id a
unfolding resolve_assignment
resolve_assignment-Bound c p a h = go (validate_present (some c)) (validate_present p) h
  where
    go :
        (v w : Option WorkerError)
        → ◌≡◌ {A = Result WorkerError (Option WorkerAssignment)}
            (elim v [
              | some e ↦ err e
              | none ↦ elim w [ some e ↦ err e | none ↦ pick_assignment (some c) p ]
            ])
            (ok a)
        → Bound c.org_id a
    go none none q = pick_assignment-Bound c p a q
    go none (some e) q = cc
    go (some e) w q = cc

not_idle : (l : WorkerLifecycleState) → is_allowed l idle ≡ false
unfolding is_allowed
not_idle zero_value = refl
not_idle idle = refl
not_idle reserved = refl
not_idle activating = refl
not_idle hot = refl
not_idle hot_idle = refl
not_idle draining = refl
not_idle retired = refl
not_idle (other t) = refl

not_zero : (l : WorkerLifecycleState) → is_allowed l zero_value ≡ false
unfolding is_allowed
not_zero zero_value = refl
not_zero idle = refl
not_zero reserved = refl
not_zero activating = refl
not_zero hot = refl
not_zero hot_idle = refl
not_zero draining = refl
not_zero retired = refl
not_zero (other t) = refl

next_assignment-Bound :
    (l next : WorkerLifecycleState) (c : WorkerAssignment) (p a : Option WorkerAssignment)
    → is_allowed l next ≡ true
    → next_assignment next (some c) p ≡ ok a
    → Bound c.org_id a
unfolding next_assignment
next_assignment-Bound l idle c p a y h = let n = not_idle l in cc
next_assignment-Bound l reserved c p a y h = resolve_assignment-Bound c p a h
next_assignment-Bound l activating c p a y h = resolve_assignment-Bound c p a h
next_assignment-Bound l hot c p a y h = resolve_assignment-Bound c p a h
next_assignment-Bound l hot_idle c p a y h = resolve_assignment-Bound c p a h
next_assignment-Bound l draining c p a y h = resolve_assignment-Bound c p a h
next_assignment-Bound l retired c none a y h = (c, cc, refl)
next_assignment-Bound l retired c (some p) a y h = resolve_assignment-Bound c (some p) a h
next_assignment-Bound l zero_value c p a y h = cc
next_assignment-Bound l (other t) c p a y h = cc

-- Once a worker has an assignment, every chain of transitions leaves it one, for the same org.
pub Reach-org :
    (s t : SharedWorkerState) (c : WorkerAssignment)
    → s.assignment ≡ some c
    → Reach s t
    → (d : WorkerAssignment) × (t.assignment ≡ some d) × (d.org_id ≡ c.org_id)
Reach-org s t c h here = (c, h, refl)
Reach-org s t c h (onward {t = m} r next p e) =
    let (b, eb, same) = Reach-org s m c h r in
    let (took, en) = transition-Took m next p t e in
    let (d, ed, same') =
      next_assignment-Bound (normalized_lifecycle m.lifecycle) next b p t.assignment took.allowed
        (subst (λ x. next_assignment next x p ≡ ok t.assignment) eb en) in
    (d, ed, same' ∙ same)

-- A transition that succeeds leads to a valid state that is not idle, does not lead out of retired,
-- and leads to retired where it leads out of draining.
pub transition-forward :
    (s t : SharedWorkerState) (next : WorkerLifecycleState) (p : Option WorkerAssignment)
    → transition s next p ≡ ok t
    → (validate t ≡ none)
      × (normalized_lifecycle t.lifecycle ≢ idle)
      × (s.lifecycle ≢ retired)
      × ((s.lifecycle ≢ draining) ⊎ (t.lifecycle ≡ retired))
unfolding normalized_lifecycle is_allowed
transition-forward s t next p h =
    let (took, en) = transition-Took s next p t h in
    (
      took.is_valid,
      subst (λ x. normalized_lifecycle x ≢ idle) (sym took.arrived)
          (goes_on (normalized_lifecycle s.lifecycle) next took.allowed),
      λ q. final next (subst (λ x. is_allowed (normalized_lifecycle x) next ≡ true) q took.allowed),
      elim (drained s.lifecycle next took.allowed) [
        | inl n ↦ inl n
        | inr q ↦ inr (took.arrived ∙ q)
      ],
    )
  where
    goes_on :
        (l next : WorkerLifecycleState)
        → is_allowed l next ≡ true
        → normalized_lifecycle next ≢ idle
    goes_on l idle y q = let n = not_idle l in cc
    goes_on l zero_value y q = let n = not_zero l in cc
    goes_on l reserved y q = cc
    goes_on l activating y q = cc
    goes_on l hot y q = cc
    goes_on l hot_idle y q = cc
    goes_on l draining y q = cc
    goes_on l retired y q = cc
    goes_on l (other t) y q = cc

    final :
        (next : WorkerLifecycleState) → is_allowed (normalized_lifecycle retired) next ≡ true → ⊥
    final next y = cc

    drained :
        (l next : WorkerLifecycleState)
        → is_allowed (normalized_lifecycle l) next ≡ true
        → (l ≢ draining) ⊎ (next ≡ retired)
    drained draining retired y = inr refl
    drained draining idle y = cc
    drained draining zero_value y = cc
    drained draining reserved y = cc
    drained draining activating y = cc
    drained draining hot y = cc
    drained draining hot_idle y = cc
    drained draining draining y = cc
    drained draining (other t) y = cc
    drained idle next y = inl (λ q. cc)
    drained zero_value next y = inl (λ q. cc)
    drained reserved next y = inl (λ q. cc)
    drained activating next y = inl (λ q. cc)
    drained hot next y = inl (λ q. cc)
    drained hot_idle next y = inl (λ q. cc)
    drained retired next y = inl (λ q. cc)
    drained (other t) next y = inl (λ q. cc)

still_valid :
    (l : WorkerLifecycleState) (a : Option WorkerAssignment)
    → validate_as l a ≡ none
    → validate_as retired a ≡ none
unfolding validate_as
still_valid l none h = refl
still_valid reserved (some a) h = h
still_valid activating (some a) h = h
still_valid hot (some a) h = h
still_valid hot_idle (some a) h = h
still_valid draining (some a) h = h
still_valid retired (some a) h = h
still_valid idle (some a) h = cc
still_valid zero_value (some a) h = cc
still_valid (other t) (some a) h = cc

may_retire :
    (l : WorkerLifecycleState) (a : Option WorkerAssignment)
    → validate_as (normalized_lifecycle l) a ≡ none
    → l ≢ retired
    → is_allowed (normalized_lifecycle l) retired ≡ true
unfolding validate_as normalized_lifecycle is_allowed
may_retire zero_value a h n = refl
may_retire idle a h n = refl
may_retire reserved a h n = refl
may_retire activating a h n = refl
may_retire hot a h n = refl
may_retire hot_idle a h n = refl
may_retire draining a h n = refl
may_retire retired a h n = absurd (n refl)
may_retire (other t) a h n = cc

keeps_assignment : (a : Option WorkerAssignment) → next_assignment retired a none ≡ ok a
unfolding next_assignment
keeps_assignment a = refl

finish_transition-retired :
    (s : SharedWorkerState)
    → validate s ≡ none
    → finish_transition (record { lifecycle = retired; assignment = s.assignment })
      ≡ ok (record { lifecycle = retired; assignment = s.assignment })
unfolding finish_transition validate
finish_transition-retired s v =
    rw (still_valid (normalized_lifecycle s.lifecycle) s.assignment v) refl

may_retire-valid :
    (s : SharedWorkerState)
    → validate s ≡ none
    → s.lifecycle ≢ retired
    → is_allowed (normalized_lifecycle s.lifecycle) retired ≡ true
unfolding validate
may_retire-valid s v n = may_retire s.lifecycle s.assignment v n

-- A valid worker that is not retired can be retired without a new assignment, and keeps the one it
-- has.
pub transition-retires :
    (s : SharedWorkerState)
    → validate s ≡ none
    → s.lifecycle ≢ retired
    → transition s retired none ≡ ok (record { lifecycle = retired; assignment = s.assignment })
transition-retires s v n =
    transition-step s retired none v (may_retire-valid s v n)
    ∙ rw (keeps_assignment s.assignment) (finish_transition-retired s v)
