-- ===== src/Session/Slots.antt =====
-- controlplane/session_mgr.go: `SetMaxConnections`, `acquireConnectionSlot` without a cluster-wide
-- limiter, `releaseConnectionSlot` without a lease, and the queue of waiters. `granted` and
-- `failed` hold the waiters whose `ready` was closed, with their outcome.
use duckgres.Base.{
  ℕ, suc, ◌+◌, ◌-◌, Bool, true, false, ◌||◌, List, [], ◌∷◌, ◌++◌, ltb, ◌==◌, if◌then◌else◌,
}
use duckgres.Base.Int.{ℤ, non_positive, to_nat}

pub record Slots : Type 0 where
  pub max_connections : ℤ
  pub active_slots : ℕ
  pub waiters : List ℕ
  pub granted : List ℕ
  pub failed : List ℕ
  pub next_waiter : ℕ
  pub closed : Bool

-- `sm.maxConnections <= 0 || sm.activeSlots < sm.maxConnections`
abbrev pub has_room : ℤ → ℕ → Bool
has_room m active = non_positive m || ltb active (to_nat m)

-- The loop of `grantWaitersLocked`: the slots in use, the waiters left, and those granted.
unfoldable pub grant_loop : ℤ → ℕ → List ℕ → List ℕ → ℕ × List ℕ × List ℕ
grant_loop m active [] granted = (active, [], granted)
grant_loop m active (w ∷ ws) granted =
    let next = grant_loop m (active + 1) ws (granted ++ w ∷ []) in
    if has_room m active then next else (active, w ∷ ws, granted)

-- `grantWaitersLocked`
unfoldable pub grant_waiters : Slots → Slots
grant_waiters s =
    if s.closed
    then s
    else (let (active, ws, granted) =
          grant_loop s.max_connections s.active_slots s.waiters s.granted in
        record s { active_slots = active; waiters = ws; granted = granted })

-- `SetMaxConnections`
unfoldable pub set_max_connections : ℤ → Slots → Slots
set_max_connections n s = grant_waiters (record s { max_connections = n })

pub data Admission : Type 0 where
  admitted draining too_many canceled : Admission
  waiting : ℕ → Admission

-- `acquireConnectionSlot`, up to the wait.
unfoldable pub acquire_slot : Slots → Slots × Admission
acquire_slot s =
    if s.closed
    then (s, draining)
    else if has_room s.max_connections s.active_slots
    then (record s { active_slots = s.active_slots + 1 }, admitted)
    else (
      record s { waiters = s.waiters ++ s.next_waiter ∷ []; next_waiter = suc s.next_waiter },
      waiting s.next_waiter,
    )

unfoldable pub member : ℕ → List ℕ → Bool
member w [] = false
member w (x ∷ xs) = w == x || member w xs

-- `removeWaiterLocked`
unfoldable pub remove_waiter : ℕ → List ℕ → List ℕ
remove_waiter w [] = []
remove_waiter w (x ∷ xs) = if x == w then xs else x ∷ remove_waiter w xs

-- The branch of the wait that sees `waiter.ready` closed.
unfoldable pub waiter_ready : ℕ → Slots → Admission
waiter_ready w s = if member w s.failed then draining else admitted

-- The branch of the wait that sees the context done, by its deadline or by a cancel.
unfoldable pub waiter_done : Bool → ℕ → Slots → Slots × Admission
unfolding member remove_waiter
waiter_done deadline w s =
    if member w s.granted
    then (s, admitted)
    else (record s { waiters = remove_waiter w s.waiters }, if deadline then too_many else canceled)

-- `releaseConnectionSlot`
unfoldable pub release_slot : Slots → Slots
release_slot s = grant_waiters (record s { active_slots = s.active_slots - 1 })

-- `lifecycle.close` and `failWaitersLocked`, as `DestroyAllSessions` makes them in turn.
unfoldable pub close_lifecycle : Slots → Slots
close_lifecycle s = record s { closed = true }

unfoldable pub fail_waiters : Slots → Slots
fail_waiters s = record s { failed = s.failed ++ s.waiters; waiters = [] }
