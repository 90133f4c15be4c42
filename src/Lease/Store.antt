-- ===== src/Lease/Store.antt =====
-- The tables of controlplane/configstore/org_connections.go and what its statements do. A time is a
-- number of nanoseconds; the text order of the database is given. The bookkeeping columns
-- `created_at` and `updated_at`, which nothing here reads, are left out.
use duckgres.Base.{
  ℕ, ◌+◌, Bool, true, false, not, ◌&&◌, ◌||◌, List, [], ◌∷◌, Option, none, some, Bytes, bytes_eq,
  ltb, leb, ◌==◌, if◌then◌else◌,
}
use duckgres.Base.Dict.{lookup}
use duckgres.Base.Text.{trim_space}
use duckgres.Base.Results.{Result, ok, err, panic, timeout, ◌>>=◌}
use duckgres.Base.Rows.{take_row, select, delete_rows, count_rows}
use duckgres.Auth.Limiter.{byte_keys}

-- `OrgConnectionQueueEntry`
pub record QueueEntry : Type 0 where
  pub request_id : Bytes
  pub org_id : Bytes
  pub cp_instance_id : Bytes
  pub pid : ℕ
  pub protocol : Bytes
  pub enqueued_at : ℕ
  pub expires_at : ℕ
  pub granted_at : Option ℕ
  pub canceled_at : Option ℕ

-- `OrgConnectionLease`
pub record Lease : Type 0 where
  pub lease_id : Bytes
  pub request_id : Bytes
  pub org_id : Bytes
  pub cp_instance_id : Bytes
  pub pid : ℕ
  pub protocol : Bytes
  pub acquired_at : ℕ

-- `ControlPlaneInstanceState`
pub data InstanceState : Type 0 where
  active draining expired : InstanceState

-- The tables; of a control plane instance, its id and its state.
pub record Store : Type 0 where
  pub queue : List QueueEntry
  pub leases : List Lease
  pub instances : List (Bytes × InstanceState)

-- The statements of this file, and the errors of its functions.
pub data Statement : Type 0 where
  select_org advisory_lock select_now delete_expired delete_orphaned delete_ownerless : Statement
  lock_request select_lease select_head count_leases insert_lease mark_granted : Statement
  insert_request delete_lease delete_request cancel_request : Statement

pub data StoreError : Type 0 where
  entry_required request_id_required org_id_required expiry_required expiry_before_enqueue :
      StoreError
  database : Statement → StoreError

-- A statement of a database that may fail.
abbrev pub statement : {A : Type 0} → (Statement → Bool) → Statement → A → Result StoreError A
statement fails st a = if fails st then err (database st) else ok a

-- `db.Transaction`: what an error leaves is what was there before.
abbrev pub transaction :
    {A : Type 0} → Store → Result StoreError (Store × A) → Store × Result StoreError A
transaction s (ok (t, a)) = (t, ok a)
transaction s (err e) = (s, err e)
transaction s panic = (s, panic)
transaction s timeout = (s, timeout)

-- The state of an instance, `none` where the `LEFT JOIN` finds no row.
abbrev pub owner_state : Store → Bytes → Option InstanceState
owner_state s cp = lookup cp s.instances

abbrev pub is_expired : Option InstanceState → Bool
is_expired (some expired) = true
is_expired _ = false

abbrev pub is_missing : Option InstanceState → Bool
is_missing none = true
is_missing (some _) = false

abbrev pub is_null : Option ℕ → Bool
is_null none = true
is_null (some _) = false

-- `granted_at IS NULL AND canceled_at IS NULL`
abbrev pub is_open : QueueEntry → Bool
is_open q = is_null q.granted_at && is_null q.canceled_at

-- The rows that `isOrgConnectionQueueHead` orders.
abbrev pub is_waiting : Bytes → ℕ → QueueEntry → Bool
is_waiting org now q = bytes_eq q.org_id org && is_open q && ltb now q.expires_at

-- The rows that `countActiveOrgConnectionLeases` counts.
abbrev pub is_active : Bytes → Store → Lease → Bool
is_active org s l = bytes_eq l.org_id org && not (is_expired (owner_state s l.cp_instance_id))

unfoldable pub active_count : Bytes → Store → ℕ
unfolding count_rows
active_count org s = count_rows (is_active org s) s.leases

-- `countActiveOrgConnectionLeases`
unfoldable pub count_active_org_connection_leases :
    (Statement → Bool) → Bytes → Store → Result StoreError ℕ
unfolding active_count
count_active_org_connection_leases fails org s = statement fails count_leases (active_count org s)

abbrev pub missing_owner_grace : ℕ
missing_owner_grace = 300000000000

-- The three deletions of `cleanupOrgConnectionRowsLocked`.
abbrev pub is_lapsed : Bytes → ℕ → QueueEntry → Bool
is_lapsed org now q = bytes_eq q.org_id org && is_open q && leb q.expires_at now

abbrev pub is_orphaned : Bytes → Store → Lease → Bool
is_orphaned org s l = bytes_eq l.org_id org && is_expired (owner_state s l.cp_instance_id)

abbrev pub is_ownerless : Bytes → ℕ → Store → Lease → Bool
is_ownerless org now s l =
    bytes_eq l.org_id org
    && leb (l.acquired_at + missing_owner_grace) now
    && is_missing (owner_state s l.cp_instance_id)

-- `cleanupOrgConnectionRowsLocked`
unfoldable pub cleanup_org_connection_rows_locked :
    (Statement → Bool) → Bytes → ℕ → Store → Result StoreError Store
unfolding delete_rows
cleanup_org_connection_rows_locked fails org now s = do
  s1 ← statement fails delete_expired (record s { queue = delete_rows (is_lapsed org now) s.queue })
  s2 ←
      statement fails delete_orphaned
        (record s1 { leases = delete_rows (is_orphaned org s1) s1.leases })
  statement fails delete_ownerless
      (record s2 { leases = delete_rows (is_ownerless org now s2) s2.leases })

abbrev pub has_request_id : Bytes → QueueEntry → Bool
has_request_id id q = bytes_eq q.request_id id

-- `orgIDForConnectionRequest`
unfoldable pub org_id_for_connection_request :
    (Statement → Bool) → Bytes → Store → Result StoreError (Option Bytes)
unfolding take_row
org_id_for_connection_request fails id s =
    statement fails select_org
      (elim (take_row (has_request_id id) s.queue) [ none ↦ none | some q ↦ some q.org_id ])

-- `lockOrgConnectionRequest`
unfoldable pub lock_org_connection_request :
    (Statement → Bool) → Bytes → Store → Result StoreError (Option QueueEntry)
unfolding take_row
lock_org_connection_request fails id s =
    statement fails lock_request (take_row (has_request_id id) s.queue)

abbrev pub is_lease_of : Bytes → Lease → Bool
is_lease_of id l = bytes_eq l.request_id id

-- `existingOrgConnectionLease`
unfoldable pub existing_org_connection_lease :
    (Statement → Bool) → Bytes → Store → Result StoreError (Option Lease)
unfolding take_row
existing_org_connection_lease fails id s =
    statement fails select_lease (take_row (is_lease_of id) s.leases)

-- `ORDER BY enqueued_at ASC, request_id ASC`
abbrev pub comes_before : (Bytes → Bytes → Bool) → QueueEntry → QueueEntry → Bool
comes_before le_id a b =
    ltb a.enqueued_at b.enqueued_at
    || (a.enqueued_at == b.enqueued_at && le_id a.request_id b.request_id)

abbrev pub earlier_of : (Bytes → Bytes → Bool) → QueueEntry → Option QueueEntry → QueueEntry
earlier_of le_id q none = q
earlier_of le_id q (some r) = if comes_before le_id r q then r else q

-- The first row in that order.
unfoldable pub first_in_order : (Bytes → Bytes → Bool) → List QueueEntry → Option QueueEntry
first_in_order le_id [] = none
first_in_order le_id (q ∷ qs) = some (earlier_of le_id q (first_in_order le_id qs))

-- `isOrgConnectionQueueHead`
unfoldable pub is_org_connection_queue_head :
    (Bytes → Bytes → Bool) → (Statement → Bool) → QueueEntry → ℕ → Store → Result StoreError Bool
unfolding first_in_order select
is_org_connection_queue_head le_id fails request now s =
    statement fails select_head
      (elim (first_in_order le_id (select (is_waiting request.org_id now) s.queue)) [
        | none ↦ false
        | some head ↦ bytes_eq head.request_id request.request_id
      ])

-- `strings.TrimSpace(s) == ""`
unfoldable pub is_blank : Bytes → Bool
unfolding trim_space
is_blank s = elim (trim_space s) [ [] ↦ true | _ ∷ _ ↦ false ]
