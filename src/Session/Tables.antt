-- ===== src/Session/Tables.antt =====
-- controlplane/session_mgr.go: the tables of live sessions and of the sessions of each worker.
use duckgres.Base.{ℕ, ◌-◌, Bool, List, [], ◌∷◌, ◌++◌, Option, none, some, if◌then◌else◌}
use duckgres.Base.Dict.{lookup, insert, delete, nat_keys}
use duckgres.Session.Slots.{Slots, grant_waiters, remove_waiter}

-- `ManagedSession`: its worker, and whether it holds a cluster-wide lease in place of a local slot.
pub record ManagedSession : Type 0 where
  pub worker_id : ℕ
  pub leased : Bool

pub record SessionManager : Type 0 where
  pub slots : Slots
  pub sessions : List (ℕ × ManagedSession)
  pub by_worker : List (ℕ × List ℕ)

-- `sm.byWorker[workerID]`
abbrev pub pids_of : ℕ → List (ℕ × List ℕ) → List ℕ
pids_of w by_worker = elim (lookup w by_worker) [ none ↦ [] | some pids ↦ pids ]

-- The locked part of `createSessionOnWorker`: `none` is ErrSessionManagerDraining.
unfoldable pub register_session : ℕ → ManagedSession → SessionManager → Option SessionManager
register_session pid session sm =
    if sm.slots.closed
    then none
    else some (record sm {
      sessions = insert pid session sm.sessions;
      by_worker =
          insert session.worker_id (pids_of session.worker_id sm.by_worker ++ pid ∷ [])
            sm.by_worker;
    })

-- The key of a worker with no session is deleted.
unfoldable pub put_pids : ℕ → List ℕ → List (ℕ × List ℕ) → List (ℕ × List ℕ)
put_pids w [] by_worker = delete w by_worker
put_pids w (p ∷ ps) by_worker = insert w (p ∷ ps) by_worker

-- `removeSessionFromWorkerLocked`; the loop over the list is that of `removeWaiterLocked`.
unfoldable pub remove_session_from_worker : ℕ → ℕ → List (ℕ × List ℕ) → List (ℕ × List ℕ)
unfolding remove_waiter put_pids
remove_session_from_worker w pid by_worker =
    put_pids w (remove_waiter pid (pids_of w by_worker)) by_worker

-- A session without a lease gives its slot back.
unfoldable pub give_back : ManagedSession → Slots → Slots
give_back session s = if session.leased then s else record s { active_slots = s.active_slots - 1 }

-- `detachSessionLocked`: the session, where there is one.
unfoldable pub detach_session : ℕ → SessionManager → SessionManager × Option ManagedSession
unfolding remove_session_from_worker give_back
detach_session pid sm = elim (lookup pid sm.sessions) [
  | none ↦ (sm, none)
  | some session ↦ (
    record sm {
      slots = grant_waiters (give_back session sm.slots);
      sessions = delete pid sm.sessions;
      by_worker = remove_session_from_worker session.worker_id pid sm.by_worker;
    },
    some session,
  )
]
