-- ===== src/Lease/Refines.antt =====
-- The transaction of an acquisition is the step of the line.
use duckgres.Base.{
  ℕ, ◌+◌, ◌≡◌, refl, sym, ap, subst, ◌∙◌, Bool, true, false, ◌&&◌, List, [], ◌∷◌, Option, none,
  some, Bytes, bytes_eq, bytes_eq_iff, ltb, leb, inl, inr, Bool-cases, if-cases, if-true,
}
use duckgres.Base.Int.{ℤ, non_positive, to_nat}
use duckgres.Base.Results.{ok}
use duckgres.Base.Rows.{take_row, select}
use duckgres.Lease.Store.{
  QueueEntry, Lease, Store, owner_state, is_expired, is_open, is_waiting, is_lapsed, active_count,
  has_request_id, is_lease_of, first_in_order, lock_org_connection_request,
  cleanup_org_connection_rows_locked, existing_org_connection_lease, is_org_connection_queue_head,
  count_active_org_connection_leases,
}
use duckgres.Lease.Acquire.{
  AcquireResult, create_org_connection_lease, grant_in_room, grant_at_head, grant_request,
  grant_found, acquire_locked,
}
use duckgres.Lease.Outcome.{cleaned}
use duckgres.Lease.Fifo.{
  Unique, Ascending, Ascending-select, first_in_order-Ascending, take_row-select,
  Unique-delete_rows, Ascending-delete_rows,
}
use duckgres.Lease.Timeline.{Timeline, Timeline-Orderly, Spans-Ascending}
use duckgres.Lease.Line.{
  Line, has_place, line_try, request_ids, line_of, seen, never, line_of-with_lease, line_try-first,
  line_try-full, line_try-other, not_both, last_two, create-free,
}

module _ (le_id : Bytes → Bytes → Bool) (max : ℤ) (now : ℕ) (q : QueueEntry) (s0 s : Store) where
  abbrev Tries : AcquireResult → Type 0
  Tries a = seen q.org_id now s0 a ≡ line_try max q.request_id (line_of q.org_id now s)

  create-line :
      (ws : List QueueEntry)
      → Unique s.queue
      → is_expired (owner_state s q.cp_instance_id) ≡ false
      → take_row (is_lease_of q.request_id) s.leases ≡ none
      → select (is_waiting q.org_id now) s.queue ≡ q ∷ ws
      → seen q.org_id now s0 (create_org_connection_lease never q now s)
        ≡ (record { waiting = request_ids ws; active = active_count q.org_id s + 1 }, true)
  create-line ws u live free e =
      ap (seen q.org_id now s0) (create-free now q s free)
      ∙ ap (λ (l : Line). (l, true)) (line_of-with_lease now q ws s u live e)

  in_room-line :
      (ws : List QueueEntry)
      → Unique s.queue
      → is_expired (owner_state s q.cp_instance_id) ≡ false
      → take_row (is_lease_of q.request_id) s.leases ≡ none
      → select (is_waiting q.org_id now) s.queue ≡ q ∷ ws
      → Tries (grant_in_room never max q now q.org_id s)
  unfolding grant_in_room count_active_org_connection_leases
  in_room-line ws u live free e =
      let made = create-line ws u live free e in
      let first : has_place max (active_count q.org_id s) ≡ true
          → line_try max q.request_id (line_of q.org_id now s)
            ≡ (record { waiting = request_ids ws; active = active_count q.org_id s + 1 }, true) =
        λ h. rw e (line_try-first max q.request_id (request_ids ws) (active_count q.org_id s) h) in
      if-cases Tries (non_positive max) _ _ (λ y. made ∙ sym (first (rw y)))
        (λ n.
          if-cases Tries (leb (to_nat max) (active_count q.org_id s)) _ _
            (λ y. sym (line_try-full max q.request_id (line_of q.org_id now s) (rw (n, y))))
            (λ m. made ∙ sym (first (rw (n, m)))))

  -- A request that does not wait any more is not let in by the line either.
  unready-line :
      Unique s.queue
      → take_row (has_request_id q.request_id) s.queue ≡ some q
      → (is_open q && ltb now q.expires_at) ≡ false
      → Tries (ok (s, (none, false)))
  unready-line u found n = sym (go (select (is_waiting q.org_id now) s.queue) refl)
    where
      go :
          (o : List QueueEntry)
          → select (is_waiting q.org_id now) s.queue ≡ o
          → line_try max q.request_id (line_of q.org_id now s) ≡ (line_of q.org_id now s, false)
      go [] e = rw e
      go (h ∷ ws) e = elim (Bool-cases (bytes_eq h.request_id q.request_id)) [
        | inl y ↦
            (let (same, waits) =
                take_row-select (is_waiting q.org_id now) q.request_id s.queue q h ws u found e
                  ((bytes_eq_iff h.request_id q.request_id).0 y) in
              absurd (
                not_both (is_open q && ltb now q.expires_at)
                  (last_two (bytes_eq q.org_id q.org_id) (is_open q) (ltb now q.expires_at)
                    (subst (λ (r : QueueEntry). is_waiting q.org_id now r ≡ true) (sym same) waits))
                  n))
        | inr m ↦ rw e (line_try-other max q.request_id h.request_id (request_ids ws) _ m)
      ]

  at_head-line :
      (t : ℕ)
      → Unique s.queue
      → Ascending t s.queue
      → is_expired (owner_state s q.cp_instance_id) ≡ false
      → take_row (is_lease_of q.request_id) s.leases ≡ none
      → take_row (has_request_id q.request_id) s.queue ≡ some q
      → Tries (grant_at_head le_id never max q now q.org_id s)
  unfolding grant_at_head is_org_connection_queue_head first_in_order
  at_head-line t u up live free found =
      if-cases Tries (is_open q && ltb now q.expires_at) _ _
        (λ _.
          if-cases Tries _ _ _ (λ y. heads (select (is_waiting q.org_id now) s.queue) refl ascend y)
            (λ n. sym (stands (select (is_waiting q.org_id now) s.queue) refl ascend n)))
        (λ n. unready-line u found n)
    where
      answer : Option QueueEntry → Bool
      answer o = elim o [ none ↦ false | some head ↦ bytes_eq head.request_id q.request_id ]

      ascend : Ascending t (select (is_waiting q.org_id now) s.queue)
      ascend = Ascending-select (is_waiting q.org_id now) t s.queue up

      heads :
          (o : List QueueEntry)
          → select (is_waiting q.org_id now) s.queue ≡ o
          → Ascending t o
          → answer (first_in_order le_id o) ≡ true
          → Tries (grant_in_room never max q now q.org_id s)
      heads [] e a y = absurd (not_both false y refl)
      heads (h ∷ ws) e a y =
          let is_h = ap answer (first_in_order-Ascending le_id t h ws a) in
          let (same, waits) =
            take_row-select (is_waiting q.org_id now) q.request_id s.queue q h ws u found e
              ((bytes_eq_iff h.request_id q.request_id).0 (sym is_h ∙ y)) in
          in_room-line ws u live free (e ∙ ap (λ (r : QueueEntry). r ∷ ws) (sym same))

      stands :
          (o : List QueueEntry)
          → select (is_waiting q.org_id now) s.queue ≡ o
          → Ascending t o
          → answer (first_in_order le_id o) ≡ false
          → line_try max q.request_id (line_of q.org_id now s) ≡ (line_of q.org_id now s, false)
      stands [] e a n = rw e
      stands (h ∷ ws) e a n =
          let is_h = ap answer (first_in_order-Ascending le_id t h ws a) in
          rw e (line_try-other max q.request_id h.request_id (request_ids ws) _ (sym is_h ∙ n))

  request-line :
      (t : ℕ)
      → Unique s.queue
      → Ascending t s.queue
      → is_expired (owner_state s q.cp_instance_id) ≡ false
      → take_row (is_lease_of q.request_id) s.leases ≡ none
      → take_row (has_request_id q.request_id) s.queue ≡ some q
      → Tries (grant_request le_id never max q now q.org_id s)
  unfolding grant_request existing_org_connection_lease
  request-line t u up live free found =
      subst Tries
        (sym (if-true (bytes_eq q.org_id q.org_id) _ _ ((bytes_eq_iff q.org_id q.org_id).1 refl)))
        (existing (take_row (is_lease_of q.request_id) s.leases) free)
    where
      existing :
          (o : Option Lease)
          → o ≡ none
          → Tries (elim o [
            | some l ↦ ok (s, (some l, false))
            | none ↦ grant_at_head le_id never max q now q.org_id s
          ])
      existing none e = at_head-line t u up live free found
      existing (some l) e = cc

-- A transaction without a failing statement does to the line what the line does: the request that
-- the tables hold for an org, which has no lease yet and whose instance is not expired, is let in
-- where it is the first of the org's line and there is a place, and leaves it then, and nothing
-- changes otherwise. The tables are those of any timeline, in which the database's clock moves on
-- between two insertions; the line is the one after the cleaning.
pub acquire_locked-line_try :
    (le_id : Bytes → Bytes → Bool) (max : ℤ) (now t : ℕ) (q : QueueEntry) (s : Store)
    → Timeline t s
    → is_expired (owner_state s q.cp_instance_id) ≡ false
    → take_row (is_lease_of q.request_id) (cleaned q.org_id now s).leases ≡ none
    → take_row (has_request_id q.request_id) (cleaned q.org_id now s).queue ≡ some q
    → seen q.org_id now s (acquire_locked le_id never max q.request_id now q.org_id s)
      ≡ line_try max q.request_id (line_of q.org_id now (cleaned q.org_id now s))
unfolding acquire_locked lock_org_connection_request cleanup_org_connection_rows_locked
acquire_locked-line_try le_id max now t q s h live free found =
    let o = Timeline-Orderly t s h in
    subst
      (λ (o : Option QueueEntry).
        seen q.org_id now s (grant_found le_id never max o now q.org_id (cleaned q.org_id now s))
        ≡ line_try max q.request_id (line_of q.org_id now (cleaned q.org_id now s)))
      (sym found)
      (request-line le_id max now q s (cleaned q.org_id now s) 0
        (Unique-delete_rows (is_lapsed q.org_id now) s.queue o.unique)
        (Ascending-delete_rows (is_lapsed q.org_id now) 0 s.queue
          (Spans-Ascending 0 t s.queue o.spans))
        live free found)
