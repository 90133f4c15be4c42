-- ===== src/Worker/Transition.antt =====
-- controlplane/worker_state.go: `Transition`, and what a state it returns is like.
use duckgres.Base.{
  ◌≡◌, refl, sym, ap, ◌∙◌, Bool, true, false, Option, none, some, if◌then◌else◌, bytes_eq,
}
use duckgres.Base.Results.{Result, ok, err, panic, timeout, ◌>>=◌}
use duckgres.Worker.Lifecycle.{
  WorkerLifecycleState, zero_value, idle, reserved, activating, hot, hot_idle, draining, retired,
  other, WorkerAssignment, SharedWorkerState, WorkerError, invalid_transition, assignment_required,
  org_changed, unknown_lifecycle, normalized_lifecycle, validate_assignment, validate, is_allowed,
}

-- `err != nil`, for an assignment that may be nil.
unfoldable pub validate_present : Option WorkerAssignment → Option WorkerError
unfolding validate_assignment
validate_present none = none
validate_present (some a) = validate_assignment (some a)

-- The final `switch` of `resolveWorkerAssignment`.
unfoldable pub pick_assignment :
    Option WorkerAssignment → Option WorkerAssignment → Result WorkerError (Option WorkerAssignment)
unfolding bytes_eq
pick_assignment none none = err assignment_required
pick_assignment none (some p) = ok (some p)
pick_assignment (some c) none = ok (some c)
pick_assignment (some c) (some p) =
    if bytes_eq c.org_id p.org_id then ok (some p) else err org_changed

-- `resolveWorkerAssignment`
unfoldable pub resolve_assignment :
    Option WorkerAssignment → Option WorkerAssignment → Result WorkerError (Option WorkerAssignment)
unfolding validate_present pick_assignment
resolve_assignment current proposed = elim (validate_present current) [
  | some e ↦ err e
  | none ↦ elim (validate_present proposed) [
    | some e ↦ err e
    | none ↦ pick_assignment current proposed
  ]
]

-- The `switch` of `Transition`: the assignment of the next state.
unfoldable pub next_assignment :
    WorkerLifecycleState
    → Option WorkerAssignment
    → Option WorkerAssignment
    → Result WorkerError (Option WorkerAssignment)
unfolding resolve_assignment
next_assignment idle current proposed = ok none
next_assignment reserved current proposed = resolve_assignment current proposed
next_assignment activating current proposed = resolve_assignment current proposed
next_assignment hot current proposed = resolve_assignment current proposed
next_assignment hot_idle current proposed = resolve_assignment current proposed
next_assignment draining current proposed = resolve_assignment current proposed
next_assignment retired current none = ok current
next_assignment retired current (some p) = resolve_assignment current (some p)
next_assignment zero_value current proposed = err unknown_lifecycle
next_assignment (other t) current proposed = err unknown_lifecycle

-- The end of `Transition`: the next state is validated again.
unfoldable pub finish_transition : SharedWorkerState → Result WorkerError SharedWorkerState
unfolding validate
finish_transition t = elim (validate t) [ some e ↦ err e | none ↦ ok t ]

-- `Transition`
unfoldable pub transition :
    SharedWorkerState
    → WorkerLifecycleState
    → Option WorkerAssignment
    → Result WorkerError SharedWorkerState
unfolding normalized_lifecycle validate is_allowed next_assignment finish_transition
transition s next proposed = elim (validate s) [
  | some e ↦ err e
  | none ↦
      if is_allowed (normalized_lifecycle s.lifecycle) next
      then next_assignment next s.assignment proposed
        >>= (λ a. finish_transition (record { lifecycle = next; assignment = a }))
      else err invalid_transition
]

-- A transition that succeeds took an allowed change from a valid state to a valid one.
pub record Took (s : SharedWorkerState) (next : WorkerLifecycleState) (t : SharedWorkerState)
    : Type 0 where
  pub was_valid : validate s ≡ none
  pub allowed : is_allowed (normalized_lifecycle s.lifecycle) next ≡ true
  pub arrived : t.lifecycle ≡ next
  pub is_valid : validate t ≡ none

finish_transition-ok :
    (u t : SharedWorkerState) → finish_transition u ≡ ok t → (u ≡ t) × (validate t ≡ none)
unfolding finish_transition
finish_transition-ok u t h = go (validate u) refl h
  where
    go :
        (o : Option WorkerError)
        → validate u ≡ o
        → ◌≡◌ {A = Result WorkerError SharedWorkerState}
            (elim o [ some e ↦ err e | none ↦ ok u ])
            (ok t)
        → (u ≡ t) × (validate t ≡ none)
    go none e q = let same : u ≡ t = cc in (same, ap validate (sym same) ∙ e)
    go (some x) e q = cc

pub transition-Took :
    (s : SharedWorkerState) (next : WorkerLifecycleState) (p : Option WorkerAssignment)
    (t : SharedWorkerState)
    → transition s next p ≡ ok t
    → Took s next t × (next_assignment next s.assignment p ≡ ok t.assignment)
unfolding transition
transition-Took s next p t h =
    go (validate s) refl (is_allowed (normalized_lifecycle s.lifecycle) next) refl
      (next_assignment next s.assignment p) refl h
  where
    go :
        (v : Option WorkerError)
        → validate s ≡ v
        → (b : Bool) → is_allowed (normalized_lifecycle s.lifecycle) next ≡ b
        → (n : Result WorkerError (Option WorkerAssignment))
        → next_assignment next s.assignment p ≡ n
        → ◌≡◌ {A = Result WorkerError SharedWorkerState}
            (elim v [
              | some e ↦ err e
              | none ↦
                  if b
                  then n >>= (λ a. finish_transition (record { lifecycle = next; assignment = a }))
                  else err invalid_transition
            ])
            (ok t)
        → Took s next t × (next_assignment next s.assignment p ≡ ok t.assignment)
    go none ev true eb (ok a) en q =
        let (same, fine) = finish_transition-ok (record { lifecycle = next; assignment = a }) t q in
        (
          record {
            was_valid = ev;
            allowed = eb;
            arrived = sym (ap (λ (u : SharedWorkerState). u.lifecycle) same);
            is_valid = fine;
          },
          en ∙ ap (λ (u : SharedWorkerState). ok u.assignment) same,
        )
    go none ev true eb (err e) en q = cc
    go none ev true eb panic en q = cc
    go none ev true eb timeout en q = cc
    go none ev false eb n en q = cc
    go (some e) ev b eb n en q = cc

-- Behind the two guards.
pub transition-step :
    (s : SharedWorkerState) (next : WorkerLifecycleState) (p : Option WorkerAssignment)
    → validate s ≡ none
    → is_allowed (normalized_lifecycle s.lifecycle) next ≡ true
    → transition s next p ≡ (
        next_assignment next s.assignment p
        >>= (λ a. finish_transition (record { lifecycle = next; assignment = a })))
unfolding transition
transition-step s next p v y =
    go (validate s) v (is_allowed (normalized_lifecycle s.lifecycle) next) y (
      next_assignment next s.assignment p
      >>= (λ a. finish_transition (record { lifecycle = next; assignment = a })))
  where
    go :
        (o : Option WorkerError)
        → o ≡ none
        → (b : Bool) → b ≡ true
        → (r : Result WorkerError SharedWorkerState)
        → ◌≡◌ {A = Result WorkerError SharedWorkerState}
            (elim o [ some e ↦ err e | none ↦ if b then r else err invalid_transition ])
            r
    go none v true y r = refl
    go none v false y r = cc
    go (some e) v b y r = cc
