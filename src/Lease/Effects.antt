-- ===== src/Lease/Effects.antt =====
-- What an operation on the tables leaves: the tables as they were, or as its statements make them.
use duckgres.Base.{
  ℕ, ◌-◌, ◌≡◌, refl, Bool, true, false, [], ◌∷◌, ◌++◌, Option, none, some, Bytes, leb,
  if◌then◌else◌, if-cases,
}
use duckgres.Base.Results.{Result, ok, err, panic, timeout, ◌>>=◌}
use duckgres.Base.Rows.{take_row, delete_rows}
use duckgres.Lease.Store.{
  QueueEntry, Store, Statement, StoreError, expiry_required, expiry_before_enqueue, database,
  statement, transaction, insert_request, cancel_request, has_request_id,
}
use duckgres.Lease.Store.{is_blank}
use duckgres.Lease.Requests.{
  NewEntry, time_or, stamped, insert_queue_entry, enqueue_for, enqueue_org_connection_request,
  is_lease_id, release_rows, release_org_connection_lease, is_open_request,
  cancel_org_connection_request,
}

-- A property of the tables that a value's transaction has to keep.
abbrev pub AfterOk : {A : Type 0} → (Store → Type 0) → Result StoreError (Store × A) → Type 0
AfterOk P (ok (t, a)) = P t
AfterOk P (err e) = Unit
AfterOk P panic = Unit
AfterOk P timeout = Unit

pub transaction-AfterOk :
    {A : Type 0} (P : Store → Type 0) (s : Store) (r : Result StoreError (Store × A))
    → P s
    → AfterOk P r
    → P (transaction s r).0
transaction-AfterOk P s (ok (t, a)) h k = k
transaction-AfterOk P s (err e) h k = h
transaction-AfterOk P s panic h k = h
transaction-AfterOk P s timeout h k = h

-- A statement gives its answer or fails.
statement-AfterOk :
    {A : Type 0} (P : Store → Type 0) (fails : Statement → Bool) (st : Statement) (p : Store × A)
    → P p.0
    → AfterOk P (statement fails st p)
statement-AfterOk {A = A} P fails st p h =
    if-cases (λ (r : Result StoreError (Store × A)). AfterOk P r) (fails st) _ _ (λ _. tt) (λ _. h)

-- What follows a statement runs on its answer, or not at all.
AfterOk-statement->>= :
    {A B : Type 0} (P : Store → Type 0) (fails : Statement → Bool) (st : Statement) (a : A)
    (f : A → Result StoreError (Store × B))
    → AfterOk P (f a)
    → AfterOk P (statement fails st a >>= f)
AfterOk-statement->>= {A = A} {B = B} P fails st a f h = go (fails st)
  where
    go : (z : Bool) → AfterOk P (◌>>=◌ {A = A} (if z then err (database st) else ok a) f)
    go true = tt
    go false = h

pub cancel-keeps :
    (P : Store → Type 0) (fails : Statement → Bool) (id : Bytes) (s : Store)
    → P s
    → P (record s { queue = delete_rows (is_open_request id) s.queue })
    → P (cancel_org_connection_request fails id s).0
unfolding cancel_org_connection_request
cancel-keeps P fails id s h k =
    if-cases (λ (r : Store × Result StoreError Bool). P r.0) (is_blank id) _ _ (λ _. h)
      (λ _. transaction-AfterOk P s _ h (statement-AfterOk P fails cancel_request _ k))

pub release-keeps :
    (P : Store → Type 0) (fails : Statement → Bool) (id : Bytes) (s : Store)
    → P s
    → P (record s {
      leases = delete_rows (is_lease_id id) s.leases;
      queue = delete_rows (has_request_id id) s.queue;
    })
    → P (release_org_connection_lease fails id s).0
unfolding release_org_connection_lease release_rows
release-keeps P fails id s h k =
    if-cases (λ (r : Store × Result StoreError Bool). P r.0) (is_blank id) _ _ (λ _. h)
      (λ _.
        transaction-AfterOk P s _ h
          (AfterOk-statement->>= P fails _ _ _ (AfterOk-statement->>= P fails _ _ _ k)))

pub enqueue-keeps :
    (P : Store → Type 0) (fails : Statement → Bool) (local_now now : ℕ) (entry : NewEntry)
    (s : Store)
    → P s
    → ((ttl : ℕ)
        → take_row (has_request_id entry.request_id) s.queue ≡ none
        → P (record s { queue = s.queue ++ stamped entry now ttl ∷ [] }))
    → P (enqueue_org_connection_request fails local_now now entry s).0
unfolding enqueue_org_connection_request enqueue_for insert_queue_entry
enqueue-keeps P fails local_now now entry s h k =
    if-cases Keeps (is_blank entry.request_id) _ _ (λ _. h)
      (λ _. if-cases Keeps (is_blank entry.org_id) _ _ (λ _. h) (λ _. with_expiry entry.expires_at))
  where
    Keeps : Store × Result StoreError Bool → Type 0
    Keeps r = P r.0

    row :
        (ttl : ℕ) (o : Option QueueEntry)
        → take_row (has_request_id entry.request_id) s.queue ≡ o
        → AfterOk P (do
          t ← elim o as (λ _. Result StoreError Store) [
            | some _ ↦ err (database insert_request)
            | none ↦
                statement fails insert_request
                  (record s { queue = s.queue ++ stamped entry now ttl ∷ [] })
          ]
          ok (t, true))
    row ttl (some q) e = tt
    row ttl none e = AfterOk-statement->>= P fails _ _ _ (k ttl e)

    inserted : (ttl : ℕ) → AfterOk P (enqueue_for fails now entry ttl s)
    inserted ttl =
        AfterOk-statement->>= P fails _ _ _
          (row ttl (take_row (has_request_id entry.request_id) s.queue) refl)

    with_expiry :
        (o : Option ℕ)
        → Keeps (elim o [
          | none ↦ (s, err expiry_required)
          | some expires ↦
              (let enqueued = time_or local_now entry.enqueued_at in
                if leb expires enqueued
                then (s, err expiry_before_enqueue)
                else transaction s (enqueue_for fails now entry (expires - enqueued) s))
        ])
    with_expiry none = h
    with_expiry (some expires) =
        if-cases Keeps (leb expires (time_or local_now entry.enqueued_at)) _ _ (λ _. h)
          (λ _. transaction-AfterOk P s _ h (inserted _))
