-- ===== src/Worker/Lifecycle.antt =====
-- controlplane/worker_state.go: the states, their validity, and the changes allowed. A lifecycle
-- is a Go string: the zero value, a constant, or any `other` text; an org is a byte string; `none`
-- is the nil assignment and, of an error, the nil error. Errors carry no text. A copy of an
-- assignment (`cloneWorkerAssignment`) is the same value here.
use duckgres.Base.{Bool, true, false, [], ◌∷◌, Option, none, some, Bytes}
use duckgres.Base.Int.{ℤ}

pub data WorkerLifecycleState : Type 0 where
  zero_value idle reserved activating hot hot_idle draining retired : WorkerLifecycleState
  other : Bytes → WorkerLifecycleState

pub record WorkerAssignment : Type 0 where
  pub org_id : Bytes
  pub max_workers : ℤ
  pub image : Bytes

pub record SharedWorkerState : Type 0 where
  pub lifecycle : WorkerLifecycleState
  pub assignment : Option WorkerAssignment

pub data WorkerError : Type 0 where
  unexpected_assignment missing_assignment missing_org unknown_lifecycle : WorkerError
  invalid_transition assignment_required org_changed : WorkerError

-- `NormalizedLifecycle`
unfoldable pub normalized_lifecycle : WorkerLifecycleState → WorkerLifecycleState
normalized_lifecycle zero_value = idle
normalized_lifecycle s = s

-- `validateWorkerAssignment`
unfoldable pub validate_assignment : Option WorkerAssignment → Option WorkerError
validate_assignment none = some missing_assignment
validate_assignment (some a) = elim a.org_id [ [] ↦ some missing_org | _ ∷ _ ↦ none ]

-- The cases of `Validate`, on the normalized lifecycle.
unfoldable pub validate_as : WorkerLifecycleState → Option WorkerAssignment → Option WorkerError
unfolding validate_assignment
validate_as idle none = none
validate_as idle (some a) = some unexpected_assignment
validate_as reserved a = validate_assignment a
validate_as activating a = validate_assignment a
validate_as hot a = validate_assignment a
validate_as hot_idle a = validate_assignment a
validate_as draining a = validate_assignment a
validate_as retired none = none
validate_as retired (some a) = validate_assignment (some a)
validate_as zero_value a = some unknown_lifecycle
validate_as (other t) a = some unknown_lifecycle

-- `Validate`
unfoldable pub validate : SharedWorkerState → Option WorkerError
unfolding normalized_lifecycle validate_as
validate s = validate_as (normalized_lifecycle s.lifecycle) s.assignment

-- `isAllowedWorkerLifecycleTransition`
unfoldable pub is_allowed : WorkerLifecycleState → WorkerLifecycleState → Bool
is_allowed idle reserved = true
is_allowed idle retired = true
is_allowed reserved activating = true
is_allowed reserved retired = true
is_allowed activating hot = true
is_allowed activating retired = true
is_allowed hot draining = true
is_allowed hot retired = true
is_allowed hot hot_idle = true
is_allowed hot_idle reserved = true
is_allowed hot_idle retired = true
is_allowed draining retired = true
is_allowed _ _ = false
