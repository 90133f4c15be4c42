-- ===== src/Session/Histories.antt =====
-- Histories of calls of the session manager's slot operations, in the order in which they take the
-- lock.
use duckgres.Base.{
  ℕ, ◌+◌, ◌-◌, ◌≤◌, ◌≡◌, refl, ◌⊎◌, Bool, true, false, List, [], ◌∷◌, arith, inl, inr, if-cases,
}
use duckgres.Base.Int.{ℤ, pos, negsuc, non_positive, to_nat}
use duckgres.Session.Slots.{
  Slots, has_room, grant_loop, grant_waiters, set_max_connections, Admission, admitted,
  acquire_slot, member, waiter_done, release_slot, close_lifecycle, fail_waiters,
}
use duckgres.Session.Queue.{
  Grants, grant_loop-Grants, IsFair, set_max_connections-IsFair, release_slot-IsFair,
  acquire_slot-IsFair, waiter_done-IsFair, fail_waiters-IsFair,
}

-- A call of an operation: a new limit, a new session, the end of a waiter's context (by its deadline
-- or not), the end of a session, and the two steps of a shutdown.
pub data Call : Type 0 where
  limit : ℤ → Call
  acquire release close fail : Call
  context_done : Bool → ℕ → Call

unfoldable pub step : Call → Slots → Slots
unfolding set_max_connections acquire_slot waiter_done release_slot close_lifecycle fail_waiters
step (limit n) s = set_max_connections n s
step acquire s = (acquire_slot s).0
step release s = release_slot s
step close s = close_lifecycle s
step fail s = fail_waiters s
step (context_done d w) s = (waiter_done d w s).0

unfoldable pub run : List Call → Slots → Slots
unfolding step
run [] s = s
run (c ∷ cs) s = run cs (step c s)

-- `NewSessionManager`: the pool's limit, and nobody yet.
unfoldable pub new_slots : ℤ → Slots
new_slots n = record {
  max_connections = n;
  active_slots = 0;
  waiters = [];
  granted = [];
  failed = [];
  next_waiter = 0;
  closed = false;
}

step-IsFair : (c : Call) (s : Slots) → IsFair s → IsFair (step c s)
unfolding step
step-IsFair (limit n) s h = set_max_connections-IsFair n s h
step-IsFair acquire s h = acquire_slot-IsFair s h
step-IsFair release s h = release_slot-IsFair s h
step-IsFair close s h = record { settled = inl refl; ordered = h.ordered }
step-IsFair fail s h = fail_waiters-IsFair s h
step-IsFair (context_done d w) s h = waiter_done-IsFair d w s h

-- After any history of calls nobody waits while a slot is free, unless the manager is closed, and
-- the waiters granted so far and those still waiting are in the order of their arrival.
pub run-IsFair : (n : ℤ) (cs : List Call) → IsFair (run cs (new_slots n))
unfolding new_slots run
run-IsFair n cs = keep cs (new_slots n) (record { settled = inr (inl refl); ordered = omega arith })
  where
    keep : (cs : List Call) (s : Slots) → IsFair s → IsFair (run cs s)
    keep [] s h = h
    keep (c ∷ cs) s h = keep cs (step c s) (step-IsFair c s h)

-- The slots in use grew only within the limit.
abbrev pub Within : ℕ → Slots → Type 0
Within a t =
    (t.active_slots ≤ a)
    ⊎ (non_positive t.max_connections ≡ true)
    ⊎ (t.active_slots ≤ to_nat t.max_connections)

grant_waiters-Within : (s : Slots) → Within s.active_slots (grant_waiters s)
unfolding grant_waiters
grant_waiters-Within s =
    if-cases (Within s.active_slots) s.closed s _ (λ _. inl (omega arith))
      (λ _.
        loop (grant_loop s.max_connections s.active_slots s.waiters s.granted)
          (grant_loop-Grants s.max_connections s.active_slots s.waiters s.granted))
  where
    loop :
        (r : ℕ × List ℕ × List ℕ)
        → Grants s.max_connections s.active_slots s.waiters s.granted r
        → Within s.active_slots (record s { active_slots = r.0; waiters = r.1; granted = r.2 })
    loop r (taken, e, f, n, stop, inl same) = inl (omega (arith, same))
    loop r (taken, e, f, n, stop, inr within) = inr within

has_room-fits : (m : ℤ) (a : ℕ) → has_room m a ≡ true → (non_positive m ≡ true) ⊎ (a + 1 ≤ to_nat m)
has_room-fits (pos k) a y = ground arith
has_room-fits (negsuc k) a y = inl refl

Within-less : (a b : ℕ) (t : Slots) → a ≤ b → Within a t → Within b t
Within-less a b t l (inl h) = inl (omega (arith, l, h))
Within-less a b t l (inr h) = inr h

-- After every call the slots in use are no more than before, or there is no limit, or they are within
-- it.
pub step-Within : (c : Call) (s : Slots) → Within s.active_slots (step c s)
unfolding step set_max_connections release_slot close_lifecycle fail_waiters acquire_slot
    waiter_done
step-Within (limit n) s = grant_waiters-Within (record s { max_connections = n })
step-Within acquire s =
    if-cases (λ (r : Slots × Admission). Within s.active_slots r.0) s.closed _ _
      (λ _. inl (omega arith))
      (λ _.
        if-cases (λ (r : Slots × Admission). Within s.active_slots r.0)
          (has_room s.max_connections s.active_slots) _ _
          (λ y. inr (has_room-fits s.max_connections s.active_slots y)) (λ _. inl (omega arith)))
step-Within release s =
    Within-less (s.active_slots - 1) s.active_slots (release_slot s) (omega arith)
      (grant_waiters-Within (record s { active_slots = s.active_slots - 1 }))
step-Within close s = inl (omega arith)
step-Within fail s = inl (omega arith)
step-Within (context_done d w) s =
    if-cases (λ (r : Slots × Admission). Within s.active_slots r.0) (member w s.granted) _ _
      (λ _. inl (omega arith)) (λ _. inl (omega arith))

-- In a fair state a caller is let in at once only when nobody waits, the manager is open and there
-- is room.
pub acquire_slot-admitted :
    (s : Slots)
    → IsFair s
    → (acquire_slot s).1 ≡ admitted
    → (s.waiters ≡ []) × (s.closed ≡ false) × (has_room s.max_connections s.active_slots ≡ true)
unfolding acquire_slot
acquire_slot-admitted s h e =
    if-cases Settles s.closed _ _ (λ c q. cc)
      (λ c.
        if-cases Settles (has_room s.max_connections s.active_slots) _ _
          (λ y q. (nobody c y h.settled, c, y)) (λ n q. cc))
      e
  where
    Settles : Slots × Admission → Type 0
    Settles r =
        r.1 ≡ admitted
        → (s.waiters ≡ []) × (s.closed ≡ false) × (has_room s.max_connections s.active_slots ≡ true)

    nobody :
        s.closed ≡ false
        → has_room s.max_connections s.active_slots ≡ true
        → (s.closed ≡ true) ⊎ (s.waiters ≡ []) ⊎ (has_room s.max_connections s.active_slots ≡ false)
        → s.waiters ≡ []
    nobody c y (inl c') = cc
    nobody c y (inr (inl e)) = e
    nobody c y (inr (inr n)) = cc
