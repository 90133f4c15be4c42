-- ===== src/Lease/Bounds.antt =====
-- The limit on an org's leases, over every history of the tables.
use duckgres.Base.{
  ℕ, ◌+◌, ◌≤◌, ◌≡◌, refl, sym, subst, ◌⊎◌, inl, inr, Bool, true, false, not, ◌&&◌, List, [], ◌∷◌,
  Option, some, Bytes, bytes_eq, bytes_eq_iff, leb, if◌then◌else◌, arith, Bool-cases, if-cases,
  and_left,
}
use duckgres.Base.Int.{ℤ, non_positive, to_nat}
use duckgres.Base.Dict.{insert, lookup-insert}
use duckgres.Base.Results.{ok, err, panic, timeout}
use duckgres.Base.Rows.{
  delete_rows, count_rows, count_rows-append, count_rows-delete_rows, count_rows_mono,
}
use duckgres.Auth.Limiter.{byte_keys}
use duckgres.Lease.Store.{
  QueueEntry, Lease, Store, InstanceState, Statement, transaction, owner_state, is_expired,
  is_active, active_count, is_orphaned, is_ownerless,
}
use duckgres.Lease.Requests.{
  NewEntry, enqueue_org_connection_request, is_lease_id, release_org_connection_lease,
  cancel_org_connection_request,
}
use duckgres.Lease.Acquire.{AcquireResult, acquire_locked, lease_for}
use duckgres.Lease.Effects.{
  AfterOk, transaction-AfterOk, enqueue-keeps, release-keeps, cancel-keeps,
}
use duckgres.Lease.Outcome.{
  cleaned, with_lease, Outcome, gone, moved, held, waits, grants, acquire_locked-Outcome,
}

-- A request of this org is tried with a positive limit of at most `m`.
abbrev pub Limited : Bytes → ℕ → Bytes → ℤ → Type 0
Limited org m o max = (bytes_eq o org ≡ false) ⊎ ((non_positive max ≡ false) × (to_nat max ≤ m))

-- What the control planes make of empty tables: an acquisition is the part of its transaction
-- behind the lock, with the org that was read before; the limits of `org` stay within `m`; an
-- instance that is expired stays so.
pub data History (org : Bytes) (m : ℕ) : Store → Type 0 where
  started :
      (cps : List (Bytes × InstanceState))
      → History org m (record { queue = []; leases = []; instances = cps })
  enqueued :
      {s : Store}
      → History org m s
      → (fails : Statement → Bool) → (local_now now : ℕ) → (entry : NewEntry)
      → History org m (enqueue_org_connection_request fails local_now now entry s).0
  acquired :
      {s : Store}
      → History org m s
      → (le_id : Bytes → Bytes → Bool) → (fails : Statement → Bool) → (max : ℤ) → (id : Bytes)
      → (now : ℕ) → (o : Bytes) → Limited org m o max
      → History org m (transaction s (acquire_locked le_id fails max id now o s)).0
  released :
      {s : Store}
      → History org m s
      → (fails : Statement → Bool) → (id : Bytes)
      → History org m (release_org_connection_lease fails id s).0
  canceled :
      {s : Store}
      → History org m s
      → (fails : Statement → Bool) → (id : Bytes)
      → History org m (cancel_org_connection_request fails id s).0
  instance_set :
      {s : Store}
      → History org m s
      → (cp : Bytes) → (st : InstanceState) → is_expired (owner_state s cp) ≡ false
      → History org m (record s { instances = insert cp st s.instances })

active_count-cleaned :
    (org o : Bytes) (now : ℕ) (s : Store) → active_count org (cleaned o now s) ≤ active_count org s
unfolding active_count
active_count-cleaned org o now s = omega (
  arith,
  count_rows-delete_rows (is_active org s) (is_ownerless o now s)
      (delete_rows (is_orphaned o s) s.leases),
  count_rows-delete_rows (is_active org s) (is_orphaned o s) s.leases,
)

-- A new lease adds at most one to the count, and nothing to that of another org.
active_count-with_lease :
    (org : Bytes) (q : QueueEntry) (now : ℕ) (s : Store)
    → active_count org (with_lease q now s) ≤ active_count org s + 1
unfolding active_count count_rows
active_count-with_lease org q now s =
    let one : (if is_active org s (lease_for q now) then 1 else 0) ≤ 1 =
      if-cases (λ (n : ℕ). n ≤ 1) (is_active org s (lease_for q now)) 1 0 (λ _. omega arith)
        (λ _. omega arith) in
    omega (arith, one, count_rows-append (is_active org s) s.leases (lease_for q now ∷ []))

active_count-other :
    (org : Bytes) (q : QueueEntry) (now : ℕ) (s : Store)
    → bytes_eq q.org_id org ≡ false
    → active_count org (with_lease q now s) ≤ active_count org s
unfolding active_count count_rows
active_count-other org q now s n =
    rw (count_rows-append (is_active org s) s.leases (lease_for q now ∷ []), n) (omega arith)

below_limit :
    (max : ℤ) (m n : ℕ)
    → (non_positive max ≡ true) ⊎ (leb (to_nat max) n ≡ false)
    → non_positive max ≡ false
    → to_nat max ≤ m
    → n + 1 ≤ m
below_limit max m n (inl y) p l = cc
below_limit max m n (inr r) p l = ground arith

Outcome-Within :
    (org : Bytes) (m : ℕ) (le_id : Bytes → Bytes → Bool) (max : ℤ) (id : Bytes) (now : ℕ)
    (o : Bytes) (s : Store) (r : Store × (Option Lease × Bool))
    → Limited org m o max
    → active_count org s ≤ m
    → Outcome le_id max id now o s r
    → active_count org r.0 ≤ m
unfolding active_count
Outcome-Within org m le_id max id now o s _ l h (gone e) = h
Outcome-Within org m le_id max id now o s _ l h (moved q e n) = h
Outcome-Within org m le_id max id now o s _ l h (held q e b f) = h
Outcome-Within org m le_id max id now o s _ l h (waits q e) = h
Outcome-Within org m le_id max id now o s _ l h (grants q e may) =
    elim (Bool-cases (bytes_eq o org)) [
      | inr n ↦ omega (
        arith,
        h,
        active_count-other org q now s
            (subst (λ (x : Bytes). bytes_eq x org ≡ false) (sym may.of_org) n),
      )
      | inl y ↦ elim l [
        | inl n ↦ cc
        | inr (p, le) ↦ omega (
          arith,
          active_count-with_lease org q now s,
          below_limit max m (active_count org s)
              (subst
                (λ (x : Bytes).
                  (non_positive max ≡ true) ⊎ (leb (to_nat max) (active_count x s) ≡ false))
                ((bytes_eq_iff o org).0 y) may.room)
              p le,
        )
      ]
    ]

acquire_locked-Within :
    (org : Bytes) (m : ℕ) (le_id : Bytes → Bytes → Bool) (fails : Statement → Bool) (max : ℤ)
    (id : Bytes) (now : ℕ) (o : Bytes) (s : Store)
    → Limited org m o max
    → active_count org s ≤ m
    → active_count org (transaction s (acquire_locked le_id fails max id now o s)).0 ≤ m
acquire_locked-Within org m le_id fails max id now o s l h =
    transaction-AfterOk (λ t. active_count org t ≤ m) s (acquire_locked le_id fails max id now o s)
      h (go (acquire_locked le_id fails max id now o s) refl)
  where
    go :
        (r : AcquireResult)
        → acquire_locked le_id fails max id now o s ≡ r
        → AfterOk (λ t. active_count org t ≤ m) r
    go (ok r) e =
        Outcome-Within org m le_id max id now o (cleaned o now s) r l
          (omega (arith, h, active_count-cleaned org o now s))
          (acquire_locked-Outcome le_id fails max id now o s r e)
    go (err e) q = tt
    go panic q = tt
    go timeout q = tt

active_count-instance_set :
    (org cp : Bytes) (st : InstanceState) (s : Store)
    → is_expired (owner_state s cp) ≡ false
    → active_count org (record s { instances = insert cp st s.instances }) ≤ active_count org s
unfolding active_count
active_count-instance_set org cp st s live = count_rows_mono _ _ s.leases active_before
  where
    still :
        (l : Lease) (b : Bool)
        → bytes_eq cp l.cp_instance_id ≡ b
        → (bytes_eq l.org_id org
            && not (is_expired (if b then some st else owner_state s l.cp_instance_id)))
          ≡ true
        → is_active org s l ≡ true
    still l false e h = h
    still l true e h =
        subst (λ (x : Bytes). (bytes_eq l.org_id org && not (is_expired (owner_state s x))) ≡ true)
          ((bytes_eq_iff cp l.cp_instance_id).0 e)
          (rw live (both (and_left (bytes_eq l.org_id org) _ h)))
      where
        both : {b : Bool} → b ≡ true → (b && true) ≡ true
        both h = rw h

    active_before :
        (l : Lease)
        → is_active org (record s { instances = insert cp st s.instances }) l ≡ true
        → is_active org s l ≡ true
    active_before l h = still l (bytes_eq cp l.cp_instance_id) refl (
        subst (λ (o : Option InstanceState). (bytes_eq l.org_id org && not (is_expired o)) ≡ true)
          (lookup-insert cp l.cp_instance_id st s.instances) h)

-- The count of the org's active leases is within `m`.
abbrev pub Within : Bytes → ℕ → Store → Type 0
Within org m s = active_count org s ≤ m

-- No history of the tables, with every limit that is used for the org positive and at most `m`,
-- counts more than `m` active leases of the org, whatever statements fail, whichever order the
-- control planes come in, and whatever the stale read of a request's org has said; expired instances
-- are taken to stay expired.
pub History-Within : (org : Bytes) (m : ℕ) (s : Store) → History org m s → active_count org s ≤ m
unfolding active_count count_rows
History-Within org m s (started cps) = omega arith
History-Within org m s (enqueued {s = t} h fails local_now now entry) =
    enqueue-keeps (Within org m) fails local_now now entry t (History-Within org m t h)
      (λ ttl _. History-Within org m t h)
History-Within org m s (acquired {s = t} h le_id fails max id now o l) =
    acquire_locked-Within org m le_id fails max id now o t l (History-Within org m t h)
History-Within org m s (released {s = t} h fails id) =
    release-keeps (Within org m) fails id t (History-Within org m t h) (
      omega (
        arith,
        count_rows-delete_rows (is_active org t) (is_lease_id id) t.leases,
        History-Within org m t h,
      ))
History-Within org m s (canceled {s = t} h fails id) =
    cancel-keeps (Within org m) fails id t (History-Within org m t h) (History-Within org m t h)
History-Within org m s (instance_set {s = t} h cp st live) =
    omega (arith, active_count-instance_set org cp st t live, History-Within org m t h)
