-- ===== src/Worker/Examples.antt =====
-- Chains of transitions on a worker of the org "a".
use duckgres.Base.{◌≡◌, ◌≢◌, ◌⊎◌, refl, ◌∷◌, [], none, some}
use duckgres.Base.Int.{pos}
use duckgres.Base.Results.{ok}
use duckgres.Worker.Lifecycle.{
  zero_value, idle, reserved, activating, draining, retired, WorkerAssignment, SharedWorkerState,
  validate, normalized_lifecycle,
}
use duckgres.Worker.Transition.{transition}
use duckgres.Worker.Reach.{here, onward, Reach-org, transition-forward, transition-retires}

abbrev of_a : WorkerAssignment
of_a = record { org_id = 97 ∷ []; max_workers = pos 2; image = [] }

abbrev fresh : SharedWorkerState
fresh = record { lifecycle = zero_value; assignment = none }

abbrev booked : SharedWorkerState
booked = record { lifecycle = reserved; assignment = some of_a }

abbrev warm : SharedWorkerState
warm = record { lifecycle = activating; assignment = some of_a }

booking : transition fresh reserved (some of_a) ≡ ok booked
unfolding transition
booking = refl

warming : transition booked activating none ≡ ok warm
unfolding transition
warming = refl

Reach-org_example : (d : WorkerAssignment) × (warm.assignment ≡ some d) × (d.org_id ≡ of_a.org_id)
Reach-org_example = Reach-org booked warm of_a refl (onward here activating none warming)

transition-forward_example :
    (validate booked ≡ none)
    × (normalized_lifecycle booked.lifecycle ≢ idle)
    × (fresh.lifecycle ≢ retired)
    × ((fresh.lifecycle ≢ draining) ⊎ (booked.lifecycle ≡ retired))
transition-forward_example = transition-forward fresh booked reserved (some of_a) booking

warm-valid : validate warm ≡ none
unfolding validate
warm-valid = refl

moving : warm.lifecycle ≢ retired
moving q = cc

transition-retires_example :
    transition warm retired none ≡ ok (record { lifecycle = retired; assignment = some of_a })
transition-retires_example = transition-retires warm warm-valid moving
