-- ===== src/Lease/Examples.antt =====
-- The leases on concrete tables: two requests of one org with one place.
use duckgres.Base.{
  ℕ, suc, ◌+◌, ◌*◌, ◌≤◌, ◌≡◌, refl, ◌⊎◌, inl, inr, Bool, true, false, ◌&&◌, [], ◌∷◌, Option, none,
  some, Bytes, bytes_eq, codes, arith, Bool-cases, ltb, and_right, ltb→lt, ◌-◌, ◌<◌,
}
use duckgres.Base.Int.{pos}
use duckgres.Base.Text.{trim_space, trim_left, trim_right, is_space}
use duckgres.Base.Dict.{lookup}
use duckgres.Base.Results.{Result, ok, err, panic, timeout}
use duckgres.Base.Rows.{take_row, select, delete_rows, update_rows, count_rows}
use duckgres.Auth.Limiter.{byte_keys}
use duckgres.Lease.Store.{
  QueueEntry, Lease, Store, active, StoreError, transaction, active_count, first_in_order,
  count_active_org_connection_leases, cleanup_org_connection_rows_locked,
  lock_org_connection_request, existing_org_connection_lease, is_org_connection_queue_head,
}
use duckgres.Lease.Store.{is_blank}
use duckgres.Lease.Requests.{
  NewEntry, enqueue_org_connection_request, enqueue_for, insert_queue_entry,
  release_org_connection_lease, cancel_org_connection_request,
}
use duckgres.Lease.Acquire.{
  acquire_locked, create_org_connection_lease, grant_in_room, grant_at_head, grant_request,
  try_acquire_org_connection_lease,
}
use duckgres.Lease.Outcome.{cleaned}
use duckgres.Lease.Bounds
use duckgres.Lease.Timeline
use duckgres.Lease.Line.{line_of, line_try, seen, never}
use duckgres.Lease.Refines.{acquire_locked-line_try}
use duckgres.Lease.Limiter.{
  ConnectionStore, OrgConnectionLimiter, Surroundings, acquire, Ticks, wait_time,
}
use duckgres.Lease.Waits.{Ended, acquire-Ended}

abbrev first_id : Bytes → Bytes → Bool
first_id a b = true

abbrev org : Bytes
org = codes "acme"

abbrev entry : Bytes → NewEntry
entry id = record {
  request_id = id;
  org_id = org;
  cp_instance_id = codes "cp1";
  pid = 7;
  protocol = codes "pg";
  enqueued_at = some 10;
  expires_at = some 70;
}

abbrev empty_tables : Store
empty_tables = record { queue = []; leases = []; instances = (codes "cp1", active) ∷ [] }

abbrev queue_row : Bytes → ℕ → QueueEntry
queue_row id now = record {
  request_id = id;
  org_id = org;
  cp_instance_id = codes "cp1";
  pid = 7;
  protocol = codes "pg";
  enqueued_at = now;
  expires_at = now + 60;
  granted_at = none;
  canceled_at = none;
}

abbrev two_waiting : Store
two_waiting = record empty_tables {
  queue = queue_row (codes "r1") 100 ∷ queue_row (codes "r2") 105 ∷ [];
}

enqueue_twice :
    (enqueue_org_connection_request never 0 105
      (entry (codes "r2"))
      (enqueue_org_connection_request never 0 100 (entry (codes "r1")) empty_tables).0).0
    ≡ two_waiting
unfolding enqueue_org_connection_request enqueue_for insert_queue_entry is_blank take_row bytes_eq
    trim_space trim_left trim_right is_space
enqueue_twice = refl

-- The second request waits behind the first, which is let in; then there is no place.
try_second_first :
    (transaction two_waiting
      (acquire_locked first_id never (pos 1) (codes "r2") 110 org two_waiting)).1
    ≡ ok (none, false)
unfolding acquire_locked grant_request grant_at_head grant_in_room create_org_connection_lease
    cleanup_org_connection_rows_locked lock_org_connection_request existing_org_connection_lease
    is_org_connection_queue_head count_active_org_connection_leases first_in_order select
    delete_rows take_row update_rows count_rows active_count bytes_eq lookup
try_second_first = refl

abbrev after_first : Store
after_first =
    (transaction two_waiting
      (acquire_locked first_id never (pos 1) (codes "r1") 110 org two_waiting)).0

History-two : Bounds.History org 1 two_waiting
unfolding enqueue_org_connection_request enqueue_for insert_queue_entry is_blank take_row bytes_eq
    trim_space trim_left trim_right is_space
History-two =
    Bounds.enqueued
      (Bounds.enqueued (Bounds.started ((codes "cp1", active) ∷ [])) never 0 100
        (entry (codes "r1")))
      never 0 105 (entry (codes "r2"))

History-Within_example : active_count org after_first ≤ 1
History-Within_example = Bounds.History-Within org 1 after_first (
    Bounds.acquired History-two first_id never (pos 1) (codes "r1") 110 org
      (inr (refl, omega arith)))

Timeline-two : Timeline.Timeline 106 two_waiting
unfolding enqueue_org_connection_request enqueue_for insert_queue_entry is_blank take_row bytes_eq
    trim_space trim_left trim_right is_space
Timeline-two =
    Timeline.enqueued
      (Timeline.enqueued (Timeline.started 0 empty_tables refl) never 0 100 (entry (codes "r1"))
        (omega arith))
      never 0 105 (entry (codes "r2")) (omega arith)

acquire_locked-line_try_example :
    seen org 110 two_waiting
      (acquire_locked first_id never (pos 1) (codes "r1") 110 org two_waiting)
    ≡ line_try (pos 1) (codes "r1") (line_of org 110 (cleaned org 110 two_waiting))
unfolding take_row delete_rows bytes_eq lookup
acquire_locked-line_try_example =
    acquire_locked-line_try first_id (pos 1) 110 106 (queue_row (codes "r1") 100) two_waiting
      Timeline-two refl refl refl

-- The tables as the limiter's store, with one round of a database that does not fail.
abbrev answer : Result StoreError (Option Lease) → StoreError ⊎ Option Lease
answer (ok l) = inr l
answer (err e) = inl e
answer panic = inr none
answer timeout = inr none

abbrev failure : Result StoreError Bool → Option StoreError
failure (err e) = some e
failure _ = none

abbrev tables : ConnectionStore Store
tables = record {
  enqueue = λ e s. let p = enqueue_org_connection_request never 0 100 e s in (p.0, failure p.1);
  try_acquire = λ id max now s.
      let p =
        try_acquire_org_connection_lease 1 first_id
          (λ k. record { fails = never; others = λ t. t; now = now }) max id s in
      (p.0, answer p.1);
  release = λ id s. let p = release_org_connection_lease never id s in (p.0, failure p.1);
  cancel = λ id now s. let p = cancel_org_connection_request never id s in (p.0, failure p.1);
}

abbrev call : Surroundings
call = record {
  new_id = some (codes "r1");
  enqueued_at = 100;
  clock = λ k. 110 + k * 50;
  max_connections = λ k. pos 1;
  ctx_done = λ k. none;
  clock_when_done = λ k. 110 + k * 50;
}

abbrev limiter : OrgConnectionLimiter
limiter = record { org_id = org; cp_instance_id = codes "cp1"; queue_ttl = 60; poll_interval = 30 }

call-Ticks : Ticks tables call 30 160
unfolding wait_time
call-Ticks k = elim (Bool-cases (ltb 0 left && ltb left 30)) [
  | inl y ↦ rw y (shorter (ltb→lt left 30 (and_right (ltb 0 left) (ltb left 30) y)))
  | inr n ↦ rw n (omega arith)
]
  where
    left : ℕ
    left = 160 - (110 + k * 50)

    shorter : left < 30 → 110 + k * 50 + left ≤ 110 + suc k * 50
    shorter h = omega arith

acquire-Ended_example :
    Ended tables call (codes "r1") 160 (acquire tables call 3 limiter 7 (codes "pg") empty_tables)
unfolding enqueue_org_connection_request enqueue_for insert_queue_entry is_blank take_row bytes_eq
    trim_space trim_left trim_right is_space
acquire-Ended_example =
    acquire-Ended tables call 2 limiter 7 (codes "pg") (codes "r1") empty_tables refl refl
      (omega arith) call-Ticks (omega arith)
