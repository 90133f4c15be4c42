-- ===== src/Session/Examples.antt =====
-- A manager for one session, a history in which a second session waits, and its tables.
use duckgres.Base.{
  ℕ, suc, ◌+◌, ◌≤◌, ◌≡◌, refl, ◌⊎◌, inr, inl, Bool, true, false, List, [], ◌∷◌, Option, none, some,
  ◌==◌, if◌then◌else◌, arith,
}
use duckgres.Base.Int.{pos}
use duckgres.Base.Dict.{lookup, nat_keys}
use duckgres.Session.Slots.{has_room, acquire_slot, admitted, grant_waiters, grant_loop}
use duckgres.Session.Queue.{IsFair}
use duckgres.Session.Histories.{
  Call, acquire, release, context_done, step, run, new_slots, run-IsFair, Within, step-Within,
  acquire_slot-admitted,
}
use duckgres.Session.Slots.{Slots, draining, fail_waiters, close_lifecycle}
use duckgres.Session.Shutdown.{IsDown, shutdown-IsDown}
use duckgres.Session.Tables.{ManagedSession, SessionManager, register_session, detach_session}
use duckgres.Session.Registry.{Agree, register_session-Agree, detach_session-Agree}

abbrev handed_over : List Call
handed_over = acquire ∷ acquire ∷ acquire ∷ context_done true 1 ∷ release ∷ []

run-IsFair_example : IsFair (run handed_over (new_slots (pos 1)))
run-IsFair_example = run-IsFair (pos 1) handed_over

handed_over_granted : (run handed_over (new_slots (pos 1))).granted ≡ 0 ∷ []
unfolding run step new_slots grant_waiters grant_loop
handed_over_granted = refl

step-Within_example : Within 1 (step release (run (acquire ∷ acquire ∷ []) (new_slots (pos 1))))
unfolding run step new_slots
step-Within_example = step-Within release (run (acquire ∷ acquire ∷ []) (new_slots (pos 1)))

empty-IsFair : IsFair (new_slots (pos 1))
unfolding new_slots
empty-IsFair = record { settled = inr (inl refl); ordered = omega arith }

empty-admits : (acquire_slot (new_slots (pos 1))).1 ≡ admitted
unfolding acquire_slot new_slots
empty-admits = refl

acquire_slot-admitted_example :
    ((new_slots (pos 1)).waiters ≡ [])
    × ((new_slots (pos 1)).closed ≡ false)
    × (has_room (new_slots (pos 1)).max_connections (new_slots (pos 1)).active_slots ≡ true)
acquire_slot-admitted_example = acquire_slot-admitted (new_slots (pos 1)) empty-IsFair empty-admits

abbrev local : ManagedSession
local = record { worker_id = 4; leased = false }

abbrev before : SessionManager
before = record {
  slots = record {
    max_connections = pos 3;
    active_slots = 2;
    waiters = [];
    granted = [];
    failed = [];
    next_waiter = 0;
    closed = false;
  };
  sessions = (7, local) ∷ [];
  by_worker = (4, 7 ∷ []) ∷ [];
}

abbrev after : SessionManager
after = record before { sessions = (7, local) ∷ (8, local) ∷ []; by_worker = (4, 7 ∷ 8 ∷ []) ∷ [] }

before-Agree : Agree before.sessions before.by_worker
unfolding lookup
before-Agree w pid = ground arith

registered : register_session 8 local before ≡ some after
unfolding register_session duckgres.Base.Dict.insert lookup
registered = refl

fresh : lookup 8 before.sessions ≡ none
unfolding lookup
fresh = refl

register_session-Agree_example : Agree after.sessions after.by_worker
register_session-Agree_example =
    register_session-Agree 8 local before after fresh before-Agree registered

detach_session-Agree_example :
    Agree (detach_session 7 before).0.sessions (detach_session 7 before).0.by_worker
    × ((p : ℕ)
        → lookup p (detach_session 7 before).0.sessions
          ≡ (if 7 == p then none else lookup p before.sessions))
detach_session-Agree_example = detach_session-Agree 7 before before-Agree

abbrev full_house : Slots
full_house = run (acquire ∷ acquire ∷ []) (new_slots (pos 1))

shutdown-IsDown_example :
    IsDown full_house.granted full_house.active_slots
      (run (release ∷ acquire ∷ []) (fail_waiters (close_lifecycle full_house)))
    × ((acquire_slot (run (release ∷ acquire ∷ []) (fail_waiters (close_lifecycle full_house)))).1
        ≡ draining)
shutdown-IsDown_example = shutdown-IsDown full_house (release ∷ acquire ∷ [])
