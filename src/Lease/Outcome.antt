-- ===== src/Lease/Outcome.antt =====
-- What a transaction of `tryAcquireOrgConnectionLeaseOnce` that commits has done: one of five cases.
use duckgres.Base.{
  ℕ, ◌≡◌, refl, sym, subst, ◌⊎◌, inl, inr, Bool, true, false, ◌&&◌, [], ◌∷◌, ◌++◌, Option, none,
  some, Bytes, bytes_eq, bytes_eq_iff, ltb, leb, if◌then◌else◌, if-cases, and_left, and_right,
}
use duckgres.Base.Int.{ℤ, non_positive, to_nat}
use duckgres.Base.Results.{Result, ok, err, ◌>>=◌, >>=-Between}
use duckgres.Base.Rows.{take_row, select, delete_rows, update_rows}
use duckgres.Lease.Store.{
  QueueEntry, Lease, Store, Statement, StoreError, database, statement, insert_lease, mark_granted,
  is_open, is_waiting, active_count, count_active_org_connection_leases, is_lapsed, is_orphaned,
  is_ownerless, cleanup_org_connection_rows_locked, has_request_id, lock_org_connection_request,
  is_lease_of, existing_org_connection_lease, first_in_order, is_org_connection_queue_head,
}
use duckgres.Lease.Acquire.{
  lease_for, with_grant, AcquireResult, create_org_connection_lease, grant_in_room, grant_at_head,
  grant_request, grant_found, acquire_locked,
}

-- What `cleanupOrgConnectionRowsLocked` leaves when it does not fail.
abbrev pub without_orphaned : Bytes → ℕ → Store → Store
without_orphaned org now s = record s {
  queue = delete_rows (is_lapsed org now) s.queue;
  leases = delete_rows (is_orphaned org s) s.leases;
}

abbrev pub cleaned : Bytes → ℕ → Store → Store
cleaned org now s = record s {
  queue = delete_rows (is_lapsed org now) s.queue;
  leases = delete_rows (is_ownerless org now s) (delete_rows (is_orphaned org s) s.leases);
}

-- The tables with the lease of `q` made.
abbrev pub with_lease : QueueEntry → ℕ → Store → Store
with_lease q now s = record s {
  leases = s.leases ++ lease_for q now ∷ [];
  queue = update_rows (has_request_id q.request_id) (with_grant now) s.queue;
}

-- `q` may have a lease: it is open, in time, at the head, without a lease, and there is room.
pub record MayGrant (le_id : Bytes → Bytes → Bool) (max : ℤ) (now : ℕ) (org : Bytes) (s : Store)
    (q : QueueEntry) : Type 0 where
  pub of_org : q.org_id ≡ org
  pub is_still_open : is_open q ≡ true
  pub in_time : ltb now q.expires_at ≡ true
  pub head :
      (h : QueueEntry) × (first_in_order le_id (select (is_waiting q.org_id now) s.queue) ≡ some h)
      × (h.request_id ≡ q.request_id)
  pub room : (non_positive max ≡ true) ⊎ (leb (to_nat max) (active_count org s) ≡ false)
  pub no_lease : take_row (is_lease_of q.request_id) s.leases ≡ none

pub data Outcome (le_id : Bytes → Bytes → Bool) (max : ℤ) (id : Bytes) (now : ℕ) (org : Bytes)
    (s : Store) : Store × (Option Lease × Bool) → Type 0 where
  gone :
      take_row (has_request_id id) s.queue ≡ none
      → Outcome le_id max id now org s (s, (none, false))
  moved :
      (q : QueueEntry)
      → take_row (has_request_id id) s.queue ≡ some q
      → bytes_eq q.org_id org ≡ false
      → Outcome le_id max id now org s (s, (none, true))
  held :
      (q : QueueEntry)
      → take_row (has_request_id id) s.queue ≡ some q
      → (l : Lease) → take_row (is_lease_of q.request_id) s.leases ≡ some l
      → Outcome le_id max id now org s (s, (some l, false))
  waits :
      (q : QueueEntry)
      → take_row (has_request_id id) s.queue ≡ some q
      → Outcome le_id max id now org s (s, (none, false))
  grants :
      (q : QueueEntry)
      → take_row (has_request_id id) s.queue ≡ some q
      → MayGrant le_id max now org s q
      → Outcome le_id max id now org s (with_lease q now s, (some (lease_for q now), false))

statement-eq-ok :
    {A : Type 0} (fails : Statement → Bool) (st : Statement) (a : A) {b : A}
    → statement fails st a ≡ ok b
    → a ≡ b
statement-eq-ok {A = A} fails st a {b = b} h = go (fails st) h
  where
    go :
        (f : Bool)
        → ◌≡◌ {A = Result StoreError A} (if f then err (database st) else ok a) (ok b)
        → a ≡ b
    go true q = cc
    go false q = cc

-- A chain that begins with a statement goes on with its answer.
pub statement->>= :
    {A B : Type 0} (fails : Statement → Bool) (st : Statement) (a : A) (f : A → Result StoreError B)
    {b : B}
    → (statement fails st a >>= f) ≡ ok b
    → f a ≡ ok b
statement->>= {A = A} {B = B} fails st a f {b = b} h = go (fails st) h
  where
    go :
        (z : Bool)
        → ◌≡◌ {A = Result StoreError B}
            (◌>>=◌ {A = A} (if z then err (database st) else ok a) f)
            (ok b)
        → f a ≡ ok b
    go true q = cc
    go false q = q

pub cleanup-eq-ok :
    (fails : Statement → Bool) (org : Bytes) (now : ℕ) (s : Store) {t : Store}
    → cleanup_org_connection_rows_locked fails org now s ≡ ok t
    → cleaned org now s ≡ t
unfolding cleanup_org_connection_rows_locked
cleanup-eq-ok fails org now s h =
    statement-eq-ok fails _ _ (statement->>= fails _ _ _ (statement->>= fails _ _ _ h))

ok-injective : {A : Type 0} {a b : A} → ◌≡◌ {A = Result StoreError A} (ok a) (ok b) → a ≡ b
ok-injective q = cc

abbrev Given : Type 0
Given = Store × (Option Lease × Bool)

module _ (le_id : Bytes → Bytes → Bool) (fails : Statement → Bool) (max : ℤ) (id : Bytes) (now : ℕ)
    (org : Bytes) (s : Store) where
  abbrev Of : Given → Type 0
  Of r = Outcome le_id max id now org s r

  create-Of :
      (q : QueueEntry) (r : Given)
      → take_row (has_request_id id) s.queue ≡ some q
      → (take_row (is_lease_of q.request_id) s.leases ≡ none → MayGrant le_id max now org s q)
      → create_org_connection_lease fails q now s ≡ ok r
      → Of r
  unfolding create_org_connection_lease
  create-Of q r found may h = go (take_row (is_lease_of q.request_id) s.leases) refl h
    where
      go :
          (o : Option Lease)
          → take_row (is_lease_of q.request_id) s.leases ≡ o
          → ◌≡◌ {A = AcquireResult}
              (elim o [
                | some _ ↦ err (database insert_lease)
                | none ↦ (do
                  t ←
                      statement fails insert_lease
                        (record s { leases = s.leases ++ lease_for q now ∷ [] })
                  u ← statement fails mark_granted (record t {
                    queue = update_rows (has_request_id q.request_id) (with_grant now) t.queue;
                  })
                  ok (u, (some (lease_for q now), false)))
              ])
              (ok r)
          → Of r
      go (some l) e k = cc
      go none e k =
          subst Of (ok-injective (statement->>= fails _ _ _ (statement->>= fails _ _ _ k)))
            (grants q found (may e))

  grant_in_room-Of :
      (q : QueueEntry) (r : Given)
      → take_row (has_request_id id) s.queue ≡ some q
      → ((non_positive max ≡ true) ⊎ (leb (to_nat max) (active_count org s) ≡ false)
          → take_row (is_lease_of q.request_id) s.leases ≡ none
          → MayGrant le_id max now org s q)
      → grant_in_room fails max q now org s ≡ ok r
      → Of r
  unfolding grant_in_room count_active_org_connection_leases
  grant_in_room-Of q r found may =
      if-cases (λ (x : AcquireResult). x ≡ ok r → Of r) (non_positive max) _ _
        (λ y h. create-Of q r found (may (inl y)) h)
        (λ n h.
          if-cases (λ (x : AcquireResult). x ≡ ok r → Of r) (leb (to_nat max) (active_count org s))
            _ _ (λ _ k. subst Of (ok-injective k) (waits q found))
            (λ full k. create-Of q r found (may (inr full)) k) (statement->>= fails _ _ _ h))

  -- What the answer `true` of the queue's head means.
  abbrev IsHead : QueueEntry → Type 0
  IsHead q =
      (h : QueueEntry) × (first_in_order le_id (select (is_waiting q.org_id now) s.queue) ≡ some h)
      × (h.request_id ≡ q.request_id)

  is_head_lem :
      (q : QueueEntry) (o : Option QueueEntry)
      → first_in_order le_id (select (is_waiting q.org_id now) s.queue) ≡ o
      → ◌≡◌ {A = Bool}
          (elim o [ none ↦ false | some head ↦ bytes_eq head.request_id q.request_id ])
          true
      → IsHead q
  is_head_lem q none e k = cc
  is_head_lem q (some h) e k = (h, e, (bytes_eq_iff h.request_id q.request_id).0 k)

  grant_at_head-Of :
      (q : QueueEntry) (r : Given)
      → take_row (has_request_id id) s.queue ≡ some q
      → q.org_id ≡ org
      → grant_at_head le_id fails max q now org s ≡ ok r
      → Of r
  unfolding grant_at_head is_org_connection_queue_head
  grant_at_head-Of q r found same =
      if-cases Gives (is_open q && ltb now q.expires_at) _ _
        (λ y h.
          if-cases Gives _ _ _
            (λ at_head. grant_in_room-Of q r found (λ room no_lease. record {
              of_org = same;
              is_still_open = and_left (is_open q) (ltb now q.expires_at) y;
              in_time = and_right (is_open q) (ltb now q.expires_at) y;
              head = is_head_lem q _ refl at_head;
              room = room;
              no_lease = no_lease;
            }))
            (λ _ k. subst Of (ok-injective k) (waits q found)) (statement->>= fails _ _ _ h))
        (λ _ k. subst Of (ok-injective k) (waits q found))
    where
      Gives : AcquireResult → Type 0
      Gives x = x ≡ ok r → Of r

  grant_request-Of :
      (q : QueueEntry) (r : Given)
      → take_row (has_request_id id) s.queue ≡ some q
      → grant_request le_id fails max q now org s ≡ ok r
      → Of r
  unfolding grant_request existing_org_connection_lease
  grant_request-Of q r found =
      if-cases (λ (x : AcquireResult). x ≡ ok r → Of r) (bytes_eq q.org_id org) _ _
        (λ y h.
          existing (take_row (is_lease_of q.request_id) s.leases) refl y
            (statement->>= fails _ _ _ h))
        (λ n k. subst Of (ok-injective k) (moved q found n))
    where
      existing :
          (o : Option Lease)
          → take_row (is_lease_of q.request_id) s.leases ≡ o
          → bytes_eq q.org_id org ≡ true
          → ◌≡◌ {A = AcquireResult}
              (elim o [
                | some l ↦ ok (s, (some l, false))
                | none ↦ grant_at_head le_id fails max q now org s
              ])
              (ok r)
          → Of r
      existing (some l) e y k = subst Of (ok-injective k) (held q found l e)
      existing none e y k = grant_at_head-Of q r found ((bytes_eq_iff q.org_id org).0 y) k

  grant_found-Of :
      (o : Option QueueEntry) (r : Given)
      → take_row (has_request_id id) s.queue ≡ o
      → grant_found le_id fails max o now org s ≡ ok r
      → Of r
  grant_found-Of none r e k = subst Of (ok-injective k) (gone e)
  grant_found-Of (some q) r e k = grant_request-Of q r e k

-- A transaction that commits has one of the outcomes, on the tables after the cleaning.
pub acquire_locked-Outcome :
    (le_id : Bytes → Bytes → Bool) (fails : Statement → Bool) (max : ℤ) (id : Bytes) (now : ℕ)
    (org : Bytes) (s : Store) (r : Store × (Option Lease × Bool))
    → acquire_locked le_id fails max id now org s ≡ ok r
    → Outcome le_id max id now org (cleaned org now s) r
unfolding acquire_locked lock_org_connection_request
acquire_locked-Outcome le_id fails max id now org s r h =
    let (c, e, k) = >>=-Between _ _ _ (statement->>= fails _ _ _ (statement->>= fails _ _ _ h)) in
    subst (λ (t : Store). Outcome le_id max id now org t r) (sym (cleanup-eq-ok fails org now s e))
      (grant_found-Of le_id fails max id now org c _ r refl (statement->>= fails _ _ _ k))
