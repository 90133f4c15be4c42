-- ===== src/Session/Shutdown.antt =====
-- The shutdown of a session manager: nobody is let in any more, and nobody is left waiting.
use duckgres.Base.{
  ℕ, ◌-◌, ◌≤◌, ◌≡◌, refl, sym, ap, subst, ◌∙◌, true, List, [], ◌∷◌, arith, if-cases,
}
use duckgres.Session.Slots.{
  Slots, grant_waiters, set_max_connections, Admission, draining, acquire_slot, member,
  remove_waiter, waiter_done, release_slot, close_lifecycle, fail_waiters,
}
use duckgres.Session.Queue.{remove_waiter-nil}
use duckgres.Session.Histories.{Call, limit, acquire, release, close, fail, context_done, step, run}

-- Closed, with nobody waiting; `granted` as it was, and no more slots in use.
pub record IsDown (granted : List ℕ) (active : ℕ) (s : Slots) : Type 0 where
  pub down : s.closed ≡ true
  pub nobody : s.waiters ≡ []
  pub same_granted : s.granted ≡ granted
  pub no_more : s.active_slots ≤ active

grant_waiters-closed : (s : Slots) → s.closed ≡ true → grant_waiters s ≡ s
unfolding grant_waiters
grant_waiters-closed s c = if-cases (λ x. x ≡ s) s.closed s _ (λ _. refl) (λ n. cc)

acquire_slot-closed : (s : Slots) → s.closed ≡ true → acquire_slot s ≡ (s, draining)
unfolding acquire_slot
acquire_slot-closed s c =
    if-cases (λ (x : Slots × Admission). x ≡ (s, draining)) s.closed (s, draining) _ (λ _. refl)
      (λ n. cc)

step-IsDown : (c : Call) (g : List ℕ) (a : ℕ) (s : Slots) → IsDown g a s → IsDown g a (step c s)
unfolding step set_max_connections release_slot close_lifecycle fail_waiters waiter_done
step-IsDown (limit n) g a s h =
    subst (IsDown g a) (sym (grant_waiters-closed (record s { max_connections = n }) h.down))
      (record {
        down = h.down;
        nobody = h.nobody;
        same_granted = h.same_granted;
        no_more = h.no_more;
      })
step-IsDown acquire g a s h =
    subst (λ (x : Slots × Admission). IsDown g a x.0) (sym (acquire_slot-closed s h.down)) h
step-IsDown release g a s h =
    subst (IsDown g a)
      (sym (grant_waiters-closed (record s { active_slots = s.active_slots - 1 }) h.down))
      (record {
        down = h.down;
        nobody = h.nobody;
        same_granted = h.same_granted;
        no_more = omega (arith, h.no_more);
      })
step-IsDown close g a s h = record {
  down = refl;
  nobody = h.nobody;
  same_granted = h.same_granted;
  no_more = h.no_more;
}
step-IsDown fail g a s h = record {
  down = h.down;
  nobody = refl;
  same_granted = h.same_granted;
  no_more = h.no_more;
}
step-IsDown (context_done d w) g a s h =
    if-cases (λ (r : Slots × Admission). IsDown g a r.0) (member w s.granted) _ _ (λ _. h)
      (λ _. record {
        down = h.down;
        nobody = ap (remove_waiter w) h.nobody ∙ remove_waiter-nil w;
        same_granted = h.same_granted;
        no_more = h.no_more;
      })

run-IsDown :
    (cs : List Call) (g : List ℕ) (a : ℕ) (s : Slots) → IsDown g a s → IsDown g a (run cs s)
unfolding run
run-IsDown [] g a s h = h
run-IsDown (c ∷ cs) g a s h = run-IsDown cs g a (step c s) (step-IsDown c g a s h)

-- When a manager is closed and its waiters are failed, then after any further calls nobody waits,
-- nobody was granted a slot since, no more slots are in use, and a caller is told that it drains.
pub shutdown-IsDown :
    (s : Slots) (cs : List Call)
    → IsDown s.granted s.active_slots (run cs (fail_waiters (close_lifecycle s)))
      × ((acquire_slot (run cs (fail_waiters (close_lifecycle s)))).1 ≡ draining)
unfolding fail_waiters close_lifecycle
shutdown-IsDown s cs =
    let after = run cs (fail_waiters (close_lifecycle s)) in
    let h =
      run-IsDown cs s.granted s.active_slots (fail_waiters (close_lifecycle s))
        (record { down = refl; nobody = refl; same_granted = refl; no_more = omega arith }) in
    (h, ap (λ (x : Slots × Admission). x.1) (acquire_slot-closed after h.down))
