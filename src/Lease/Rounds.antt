-- ===== src/Lease/Rounds.antt =====
-- The loop of TryAcquireOrgConnectionLease ends with the first round in which nobody moves the request
-- to another org.
use duckgres.Base.{
  ℕ, zero, suc, ◌+◌, ◌≡◌, ◌≢◌, refl, sym, subst, ◌∙◌, Bool, true, false, [], ◌∷◌, ◌++◌, ◌&&◌,
  Option, none, some, Bytes, bytes_eq, ltb, leb, if◌then◌else◌, if-cases, arith,
}
use duckgres.Base.Int.{ℤ, non_positive, to_nat}
use duckgres.Base.Results.{Result, ok, err, panic, timeout, ◌>>=◌, >>=-ne-timeout}
use duckgres.Base.Rows.{take_row, update_rows}
use duckgres.Lease.Store.{
  QueueEntry, Lease, Store, Statement, StoreError, database, statement, transaction, insert_lease,
  mark_granted, select_org, is_open, has_request_id, is_lease_of,
  count_active_org_connection_leases, cleanup_org_connection_rows_locked,
  org_id_for_connection_request, lock_org_connection_request, existing_org_connection_lease,
  is_org_connection_queue_head,
}
use duckgres.Lease.Acquire.{
  AcquireResult, lease_for, with_grant, create_org_connection_lease, grant_in_room, grant_at_head,
  grant_request, grant_found, acquire_locked, acquire_for_org,
  try_acquire_org_connection_lease_once, Round, acquire_rounds,
}
use duckgres.Lease.Outcome.{
  cleaned, Outcome, gone, moved, held, waits, grants, acquire_locked-Outcome,
}

-- A statement answers or fails.
statement-ne-timeout :
    {A : Type 0} (fails : Statement → Bool) (st : Statement) (a : A)
    → statement fails st a ≢ timeout
statement-ne-timeout {A = A} fails st a =
    if-cases (λ (r : Result StoreError A). r ≢ timeout) (fails st) _ _ (λ _ q. cc) (λ _ q. cc)

abbrev Ends : AcquireResult → Type 0
Ends r = r ≢ timeout

-- A chain that begins with a statement ends where what follows does.
statement->>=-ne-timeout :
    {A B : Type 0} (fails : Statement → Bool) (st : Statement) (a : A) (f : A → Result StoreError B)
    → ((x : A) → f x ≢ timeout)
    → (statement fails st a >>= f) ≢ timeout
statement->>=-ne-timeout fails st a f h = >>=-ne-timeout _ f (statement-ne-timeout fails st a) h

module _ (le_id : Bytes → Bytes → Bool) (fails : Statement → Bool) (max : ℤ) (now : ℕ) where
  create-Ends : (q : QueueEntry) (s : Store) → Ends (create_org_connection_lease fails q now s)
  unfolding create_org_connection_lease
  create-Ends q s = go (take_row (is_lease_of q.request_id) s.leases)
    where
      go :
          (o : Option Lease)
          → Ends (elim o as (λ _. AcquireResult) [
            | some _ ↦ err (database insert_lease)
            | none ↦ (do
              t ←
                  statement fails insert_lease
                    (record s { leases = s.leases ++ lease_for q now ∷ [] })
              u ← statement fails mark_granted (record t {
                queue = update_rows (has_request_id q.request_id) (with_grant now) t.queue;
              })
              ok (u, (some (lease_for q now), false)))
          ])
      go (some l) = λ e. cc
      go none =
          statement->>=-ne-timeout fails _ _ _
            (λ t. statement->>=-ne-timeout fails _ _ _ (λ u e. cc))

  in_room-Ends :
      (q : QueueEntry) (org : Bytes) (s : Store) → Ends (grant_in_room fails max q now org s)
  unfolding grant_in_room count_active_org_connection_leases
  in_room-Ends q org s =
      if-cases Ends (non_positive max) _ _ (λ _. create-Ends q s)
        (λ _.
          statement->>=-ne-timeout fails _ _ _
            (λ n. if-cases Ends (leb (to_nat max) n) _ _ (λ _ e. cc) (λ _. create-Ends q s)))

  at_head-Ends :
      (q : QueueEntry) (org : Bytes) (s : Store) → Ends (grant_at_head le_id fails max q now org s)
  unfolding grant_at_head is_org_connection_queue_head
  at_head-Ends q org s =
      if-cases Ends (is_open q && ltb now q.expires_at) _ _
        (λ _.
          statement->>=-ne-timeout fails _ _ _
            (λ b. if-cases Ends b _ _ (λ _. in_room-Ends q org s) (λ _ e. cc)))
        (λ _ e. cc)

  found-Ends :
      (o : Option QueueEntry) (org : Bytes) (s : Store)
      → Ends (grant_found le_id fails max o now org s)
  unfolding grant_request existing_org_connection_lease
  found-Ends none org s = λ e. cc
  found-Ends (some q) org s =
      if-cases Ends (bytes_eq q.org_id org) _ _ (λ _. statement->>=-ne-timeout fails _ _ _ existing)
        (λ _ e. cc)
    where
      existing :
          (o : Option Lease)
          → Ends (elim o as (λ _. AcquireResult) [
            | some l ↦ ok (s, (some l, false))
            | none ↦ grant_at_head le_id fails max q now org s
          ])
      existing (some l) = λ e. cc
      existing none = at_head-Ends q org s

-- A transaction behind the lock ends.
locked-Ends :
    (le_id : Bytes → Bytes → Bool) (fails : Statement → Bool) (max : ℤ) (id : Bytes) (now : ℕ)
    (org : Bytes) (s : Store)
    → Ends (acquire_locked le_id fails max id now org s)
unfolding acquire_locked cleanup_org_connection_rows_locked lock_org_connection_request
locked-Ends le_id fails max id now org s = statement->>=-ne-timeout fails _ _ _ (λ t.
    statement->>=-ne-timeout fails _ _ _ (λ n.
      >>=-ne-timeout _ _
        (statement->>=-ne-timeout fails _ _ _
          (λ a. statement->>=-ne-timeout fails _ _ _ (λ b. statement-ne-timeout fails _ _)))
        (λ c. statement->>=-ne-timeout fails _ _ _ (λ o. found-Ends le_id fails max n o org c))))

not_both : (b : Bool) → b ≡ true → b ≡ false → ⊥
not_both b y n = true_ne_false (sym y ∙ n)
  where
    true_ne_false : true ≢ false
    true_ne_false q = cc

abbrev Answer : Type 0
Answer = Result StoreError (Option Lease × Bool)

-- An answer that ends the loop.
abbrev Settles : Answer → Type 0
Settles (ok (l, retry)) = retry ≡ false
Settles (err e) = Unit
Settles panic = Unit
Settles timeout = ⊥

-- An answer of a round: it is there.
abbrev Answers : Answer → Type 0
Answers timeout = ⊥
Answers _ = Unit

-- Nobody moves the request to another org in the round.
abbrev pub Stays : Bytes → Round → Type 0
Stays id r =
    (s : Store) (q x : QueueEntry)
    → take_row (has_request_id id) s.queue ≡ some q
    → take_row (has_request_id id) (cleaned q.org_id r.now (r.others s)).queue ≡ some x
    → bytes_eq x.org_id q.org_id ≡ true

transaction-Answers : (s : Store) (r : AcquireResult) → Ends r → Answers (transaction s r).1
transaction-Answers s (ok (t, a)) h = tt
transaction-Answers s (err e) h = tt
transaction-Answers s panic h = tt
transaction-Answers s timeout h = h refl

module _ (le_id : Bytes → Bytes → Bool) (max : ℤ) (id : Bytes) (r : Round) (s : Store) where
  abbrev once : Answer
  once = (try_acquire_org_connection_lease_once le_id r.fails r.others max id r.now s).1

  found-Answers :
      (o : Option Bytes) → Answers (acquire_for_org le_id r.fails r.others max id r.now s o).1
  found-Answers none = tt
  found-Answers (some org) =
      transaction-Answers (r.others s) _ (locked-Ends le_id r.fails max id r.now org (r.others s))

  abbrev whole : Result StoreError (Option Bytes) → Store × Answer
  whole o = elim o [
    | ok org ↦ acquire_for_org le_id r.fails r.others max id r.now s org
    | err e ↦ (s, err e)
    | panic ↦ (s, panic)
    | timeout ↦ (s, timeout)
  ]

  once-Answers : Answers once
  unfolding try_acquire_org_connection_lease_once org_id_for_connection_request
  once-Answers =
      if-cases (λ (o : Result StoreError (Option Bytes)). Answers (whole o).1) (r.fails select_org)
        _ _ (λ _. tt) (λ _. found-Answers _)

  settled :
      (q : QueueEntry) (y : Store × (Option Lease × Bool))
      → Stays id r
      → take_row (has_request_id id) s.queue ≡ some q
      → Outcome le_id max id r.now q.org_id (cleaned q.org_id r.now (r.others s)) y
      → y.1.1 ≡ false
  settled q _ stays e (gone f) = refl
  settled q _ stays e (moved x f n) = absurd (not_both _ (stays s q x e f) n)
  settled q _ stays e (held x f l g) = refl
  settled q _ stays e (waits x f) = refl
  settled q _ stays e (grants x f may) = refl

  once-Settles : Stays id r → Settles once
  unfolding try_acquire_org_connection_lease_once org_id_for_connection_request
  once-Settles stays =
      if-cases (λ (o : Result StoreError (Option Bytes)). Settles (whole o).1) (r.fails select_org)
        _ _ (λ _. tt) (λ _. request (take_row (has_request_id id) s.queue) refl)
    where
      locked :
          (q : QueueEntry) (x : AcquireResult)
          → take_row (has_request_id id) s.queue ≡ some q
          → acquire_locked le_id r.fails max id r.now q.org_id (r.others s) ≡ x
          → Settles (transaction (r.others s) x).1
      locked q (ok y) e f =
          settled q y stays e
            (acquire_locked-Outcome le_id r.fails max id r.now q.org_id (r.others s) y f)
      locked q (err z) e f = tt
      locked q panic e f = tt
      locked q timeout e f = locked-Ends le_id r.fails max id r.now q.org_id (r.others s) f

      request :
          (o : Option QueueEntry)
          → take_row (has_request_id id) s.queue ≡ o
          → Settles (whole (ok (elim o [ none ↦ none | some q ↦ some q.org_id ]))).1
      request none e = refl
      request (some q) e = locked q _ e refl

-- What the loop makes of a round's answer.
abbrev onward :
    Store × Result StoreError (Option Lease)
    → Store × Answer
    → Store × Result StoreError (Option Lease)
onward again p = elim p.1 [
  | ok (lease, retry) ↦ if retry then again else (p.0, ok lease)
  | err e ↦ (p.0, err e)
  | panic ↦ (p.0, panic)
  | timeout ↦ (p.0, timeout)
]

abbrev Done : Store × Result StoreError (Option Lease) → Type 0
Done p = p.1 ≢ timeout

onward-again :
    (again : Store × Result StoreError (Option Lease)) (p : Store × Answer)
    → Answers p.1
    → Done again
    → Done (onward again p)
onward-again again (s, ok (l, true)) a h = h
onward-again again (s, ok (l, false)) a h = λ e. cc
onward-again again (s, err e) a h = λ q. cc
onward-again again (s, panic) a h = λ q. cc
onward-again again (s, timeout) a h = absurd a

onward-Settles :
    (again : Store × Result StoreError (Option Lease)) (p : Store × Answer)
    → Settles p.1
    → Done (onward again p)
onward-Settles again (s, ok (l, true)) h = absurd (not_both true refl h)
onward-Settles again (s, ok (l, false)) h = λ e. cc
onward-Settles again (s, err e) h = λ q. cc
onward-Settles again (s, panic) h = λ q. cc
onward-Settles again (s, timeout) h = absurd h

-- The loop ends by the first round in which nobody moves the request to another org: a number of
-- rounds as fuel that reaches one is enough.
pub acquire_rounds-ne-timeout :
    (f : ℕ) (le_id : Bytes → Bytes → Bool) (round : ℕ → Round) (k : ℕ) (max : ℤ) (id : Bytes)
    (s : Store)
    → Stays id (round (f + k))
    → (acquire_rounds (suc f) le_id round k max id s).1 ≢ timeout
unfolding acquire_rounds
acquire_rounds-ne-timeout zero le_id round k max id s stays = onward-Settles _ _ (
    once-Settles le_id max id (round k) s
      (subst (λ (n : ℕ). Stays id (round n)) (omega arith) stays))
acquire_rounds-ne-timeout (suc f) le_id round k max id s stays =
    onward-again _ _ (once-Answers le_id max id (round k) s) (
      acquire_rounds-ne-timeout f le_id round (suc k) max id _
        (subst (λ (n : ℕ). Stays id (round n)) (omega arith) stays))
