-- ===== src/Lease/Acquire.antt =====
-- `TryAcquireOrgConnectionLease` of controlplane/configstore/org_connections.go on the tables. `fails`
-- says which statements of a transaction fail, `now` is the database's clock, and `others` is what
-- the other control planes commit between the read of the request's org and the advisory lock.
use duckgres.Base.{
  ℕ, zero, suc, Bool, true, false, ◌&&◌, [], ◌∷◌, ◌++◌, Option, none, some, Bytes, bytes_eq, ltb,
  leb, if◌then◌else◌,
}
use duckgres.Base.Int.{ℤ, non_positive, to_nat}
use duckgres.Base.Results.{Result, ok, err, panic, timeout, ◌>>=◌}
use duckgres.Base.Rows.{take_row, update_rows}
use duckgres.Lease.Store.{
  is_blank, QueueEntry, Lease, Store, Statement, select_now, advisory_lock, insert_lease,
  mark_granted, StoreError, request_id_required, database, statement, transaction, is_open,
  has_request_id, is_lease_of, count_active_org_connection_leases,
  cleanup_org_connection_rows_locked, org_id_for_connection_request, lock_org_connection_request,
  existing_org_connection_lease, is_org_connection_queue_head,
}

-- The lease of a request.
abbrev pub lease_for : QueueEntry → ℕ → Lease
lease_for q now = record {
  lease_id = q.request_id;
  request_id = q.request_id;
  org_id = q.org_id;
  cp_instance_id = q.cp_instance_id;
  pid = q.pid;
  protocol = q.protocol;
  acquired_at = now;
}

abbrev pub with_grant : ℕ → QueueEntry → QueueEntry
with_grant now q = record q { granted_at = some now }

-- What a transaction gives: the tables, the lease, and whether to try again with a fresh org.
abbrev pub AcquireResult : Type 0
AcquireResult = Result StoreError (Store × (Option Lease × Bool))

-- `createOrgConnectionLease`; the unique index on `request_id` refuses a second lease.
unfoldable pub create_org_connection_lease :
    (Statement → Bool) → QueueEntry → ℕ → Store → AcquireResult
unfolding take_row update_rows
create_org_connection_lease fails q now s = elim (take_row (is_lease_of q.request_id) s.leases) [
  | some _ ↦ err (database insert_lease)
  | none ↦ (do
    t ← statement fails insert_lease (record s { leases = s.leases ++ lease_for q now ∷ [] })
    u ←
        statement fails mark_granted
          (record t { queue = update_rows (has_request_id q.request_id) (with_grant now) t.queue })
    ok (u, (some (lease_for q now), false)))
]

-- The check of `maxConnections`, for the request at the head of the queue.
unfoldable pub grant_in_room :
    (Statement → Bool) → ℤ → QueueEntry → ℕ → Bytes → Store → AcquireResult
unfolding count_active_org_connection_leases create_org_connection_lease
grant_in_room fails max q now org s =
    if non_positive max then create_org_connection_lease fails q now s else (do
      count ← count_active_org_connection_leases fails org s
      (if leb (to_nat max) count
          then ok (s, (none, false))
          else create_org_connection_lease fails q now s))

-- The checks of a request that has no lease yet.
unfoldable pub grant_at_head :
    (Bytes → Bytes → Bool) → (Statement → Bool) → ℤ → QueueEntry → ℕ → Bytes → Store → AcquireResult
unfolding is_org_connection_queue_head grant_in_room
grant_at_head le_id fails max q now org s =
    if is_open q && ltb now q.expires_at
    then (do
      at_head ← is_org_connection_queue_head le_id fails q now s
      if at_head then grant_in_room fails max q now org s else ok (s, (none, false)))
    else ok (s, (none, false))

-- From the row of the request on.
unfoldable pub grant_request :
    (Bytes → Bytes → Bool) → (Statement → Bool) → ℤ → QueueEntry → ℕ → Bytes → Store → AcquireResult
unfolding existing_org_connection_lease grant_at_head
grant_request le_id fails max q now org s =
    if bytes_eq q.org_id org
    then (do
      existing ← existing_org_connection_lease fails q.request_id s
      elim existing [
        | some l ↦ ok (s, (some l, false))
        | none ↦ grant_at_head le_id fails max q now org s
      ])
    else ok (s, (none, true))

abbrev pub grant_found :
    (Bytes → Bytes → Bool)
    → (Statement → Bool)
    → ℤ
    → Option QueueEntry
    → ℕ
    → Bytes
    → Store
    → AcquireResult
grant_found le_id fails max none now org s = ok (s, (none, false))
grant_found le_id fails max (some q) now org s = grant_request le_id fails max q now org s

-- The transaction of `tryAcquireOrgConnectionLeaseOnce`, from the advisory lock on.
unfoldable pub acquire_locked :
    (Bytes → Bytes → Bool) → (Statement → Bool) → ℤ → Bytes → ℕ → Bytes → Store → AcquireResult
unfolding cleanup_org_connection_rows_locked lock_org_connection_request grant_request
acquire_locked le_id fails max id now org s = do
  locked ← statement fails advisory_lock s
  db_now ← statement fails select_now now
  cleaned ← cleanup_org_connection_rows_locked fails org db_now locked
  request ← lock_org_connection_request fails id cleaned
  grant_found le_id fails max request db_now org cleaned

abbrev pub acquire_for_org :
    (Bytes → Bytes → Bool)
    → (Statement → Bool)
    → (Store → Store)
    → ℤ
    → Bytes
    → ℕ
    → Store
    → Option Bytes
    → Store × Result StoreError (Option Lease × Bool)
acquire_for_org le_id fails others max id now s none = (s, ok (none, false))
acquire_for_org le_id fails others max id now s (some org) =
    transaction {A = Option Lease × Bool} (others s)
      (acquire_locked le_id fails max id now org (others s))

-- `tryAcquireOrgConnectionLeaseOnce`
unfoldable pub try_acquire_org_connection_lease_once :
    (Bytes → Bytes → Bool)
    → (Statement → Bool)
    → (Store → Store)
    → ℤ
    → Bytes
    → ℕ
    → Store
    → Store × Result StoreError (Option Lease × Bool)
unfolding org_id_for_connection_request acquire_locked
try_acquire_org_connection_lease_once le_id fails others max id now s =
    elim (org_id_for_connection_request fails id s) [
      | ok org ↦ acquire_for_org le_id fails others max id now s org
      | err e ↦ (s, err e)
      | panic ↦ (s, panic)
      | timeout ↦ (s, timeout)
    ]

-- A round of `TryAcquireOrgConnectionLease`: what the database does and what the others do in it.
pub record Round : Type 0 where
  pub fails : Statement → Bool
  pub others : Store → Store
  pub now : ℕ

-- `TryAcquireOrgConnectionLease`: its loop, with `fuel` rounds.
unfoldable pub acquire_rounds :
    ℕ
    → (Bytes → Bytes → Bool)
    → (ℕ → Round)
    → ℕ
    → ℤ
    → Bytes
    → Store
    → Store × Result StoreError (Option Lease)
unfolding try_acquire_org_connection_lease_once
acquire_rounds zero le_id round k max id s = (s, timeout)
acquire_rounds (suc f) le_id round k max id s =
    let r = round k in
    let p = try_acquire_org_connection_lease_once le_id r.fails r.others max id r.now s in
    let again = acquire_rounds f le_id round (suc k) max id p.0 in
    elim p.1 [
      | ok (lease, retry) ↦ if retry then again else (p.0, ok lease)
      | err e ↦ (p.0, err e)
      | panic ↦ (p.0, panic)
      | timeout ↦ (p.0, timeout)
    ]

unfoldable pub try_acquire_org_connection_lease :
    ℕ
    → (Bytes → Bytes → Bool)
    → (ℕ → Round)
    → ℤ
    → Bytes
    → Store
    → Store × Result StoreError (Option Lease)
unfolding is_blank acquire_rounds
try_acquire_org_connection_lease fuel le_id round max id s =
    if is_blank id then (s, err request_id_required) else acquire_rounds fuel le_id round 0 max id s
