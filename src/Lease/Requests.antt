-- ===== src/Lease/Requests.antt =====
-- The other operations of controlplane/configstore/org_connections.go on the tables: a request is
-- queued or canceled, a lease released, the leases counted. `fails` says which statements of a
-- transaction fail, `now` is the database's clock.
use duckgres.Base.{
  ℕ, ◌+◌, ◌-◌, Bool, true, ◌&&◌, [], ◌∷◌, ◌++◌, Option, none, some, Bytes, bytes_eq, leb,
  if◌then◌else◌,
}
use duckgres.Base.Results.{Result, ok, err, ◌>>=◌}
use duckgres.Base.Rows.{take_row, delete_rows}
use duckgres.Lease.Store.{
  is_blank, QueueEntry, Lease, Store, Statement, select_now, insert_request, delete_lease,
  delete_request, cancel_request, StoreError, request_id_required, org_id_required, expiry_required,
  expiry_before_enqueue, database, statement, transaction, is_open, has_request_id,
  count_active_org_connection_leases,
}

-- An entry as a caller hands it in: `none` is the zero time.
pub record NewEntry : Type 0 where
  pub request_id : Bytes
  pub org_id : Bytes
  pub cp_instance_id : Bytes
  pub pid : ℕ
  pub protocol : Bytes
  pub enqueued_at : Option ℕ
  pub expires_at : Option ℕ

abbrev pub time_or : ℕ → Option ℕ → ℕ
time_or t none = t
time_or t (some u) = u

-- An insertion, which the primary key on `request_id` refuses where the row is there.
unfoldable pub insert_queue_entry :
    (Statement → Bool) → QueueEntry → Store → Result StoreError Store
unfolding take_row
insert_queue_entry fails q s = elim (take_row (has_request_id q.request_id) s.queue) [
  | some _ ↦ err (database insert_request)
  | none ↦ statement fails insert_request (record s { queue = s.queue ++ q ∷ [] })
]

abbrev pub stamped : NewEntry → ℕ → ℕ → QueueEntry
stamped entry now ttl = record {
  request_id = entry.request_id;
  org_id = entry.org_id;
  cp_instance_id = entry.cp_instance_id;
  pid = entry.pid;
  protocol = entry.protocol;
  enqueued_at = now;
  expires_at = now + ttl;
  granted_at = none;
  canceled_at = none;
}

-- The transaction of `EnqueueOrgConnectionRequest`
unfoldable pub enqueue_for :
    (Statement → Bool) → ℕ → NewEntry → ℕ → Store → Result StoreError (Store × Bool)
unfolding insert_queue_entry
enqueue_for fails now entry ttl s = do
  db_now ← statement fails select_now now
  t ← insert_queue_entry fails (stamped entry db_now ttl) s
  ok (t, true)

-- `EnqueueOrgConnectionRequest` of an entry that is not nil; `local_now` is the caller's clock.
unfoldable pub enqueue_org_connection_request :
    (Statement → Bool) → ℕ → ℕ → NewEntry → Store → Store × Result StoreError Bool
unfolding is_blank enqueue_for
enqueue_org_connection_request fails local_now now entry s =
    if is_blank entry.request_id
    then (s, err request_id_required)
    else if is_blank entry.org_id
    then (s, err org_id_required)
    else elim entry.expires_at [
      | none ↦ (s, err expiry_required)
      | some expires ↦
          (let enqueued = time_or local_now entry.enqueued_at in
            if leb expires enqueued
            then (s, err expiry_before_enqueue)
            else transaction s (enqueue_for fails now entry (expires - enqueued) s))
    ]

-- `ReleaseOrgConnectionLease`
abbrev pub is_lease_id : Bytes → Lease → Bool
is_lease_id id l = bytes_eq l.lease_id id

unfoldable pub release_rows : (Statement → Bool) → Bytes → Store → Result StoreError (Store × Bool)
unfolding delete_rows
release_rows fails id s = do
  t ← statement fails delete_lease (record s { leases = delete_rows (is_lease_id id) s.leases })
  u ← statement fails delete_request (record t { queue = delete_rows (has_request_id id) t.queue })
  ok (u, true)

unfoldable pub release_org_connection_lease :
    (Statement → Bool) → Bytes → Store → Store × Result StoreError Bool
unfolding is_blank release_rows
release_org_connection_lease fails id s =
    if is_blank id then (s, ok true) else transaction s (release_rows fails id s)

-- `CancelOrgConnectionRequest`
abbrev pub is_open_request : Bytes → QueueEntry → Bool
is_open_request id q = bytes_eq q.request_id id && is_open q

unfoldable pub cancel_org_connection_request :
    (Statement → Bool) → Bytes → Store → Store × Result StoreError Bool
unfolding is_blank delete_rows
cancel_org_connection_request fails id s =
    if is_blank id
    then (s, ok true)
    else transaction s (
        statement fails cancel_request
          (record s { queue = delete_rows (is_open_request id) s.queue }, true))

-- `ActiveOrgConnectionLeaseCount`
unfoldable pub active_org_connection_lease_count :
    (Statement → Bool) → Bytes → Store → Store × Result StoreError ℕ
unfolding count_active_org_connection_leases
active_org_connection_lease_count fails org s =
    transaction s (count_active_org_connection_leases fails org s >>= λ n. ok (s, n))
