-- ===== src/Lease/Limiter.antt =====
-- controlplane/connection_limiter.go. The store is an interface; what a call of `Acquire` meets, the
-- clock, the limit of the moment and the context, is given round by round. A time is a number of
-- nanoseconds.
use duckgres.Base.{
  ℕ, zero, suc, ◌+◌, ◌-◌, ◌≤◌, ◌⊎◌, inl, inr, ◌&&◌, Option, none, some, Bytes, ltb, if◌then◌else◌,
}
use duckgres.Base.Int.{ℤ, non_positive, to_nat}
use duckgres.Base.Results.{Result, ok, err, timeout}
use duckgres.Lease.Store.{Lease, StoreError}
use duckgres.Lease.Requests.{NewEntry}

-- `runtimeOrgConnectionStore`
pub record ConnectionStore (S : Type 0) : Type 0 where
  pub enqueue : NewEntry → S → S × Option StoreError
  pub try_acquire : Bytes → ℤ → ℕ → S → S × (StoreError ⊎ Option Lease)
  pub release : Bytes → S → S × Option StoreError
  pub cancel : Bytes → ℕ → S → S × Option StoreError

-- `runtimeOrgConnectionLimiter`, without its clock and its source of ids.
pub record OrgConnectionLimiter : Type 0 where
  pub org_id : Bytes
  pub cp_instance_id : Bytes
  pub queue_ttl : ℕ
  pub poll_interval : ℕ

-- `NewRuntimeOrgConnectionLimiter`
unfoldable pub new_runtime_org_connection_limiter : Bytes → Bytes → ℤ → OrgConnectionLimiter
new_runtime_org_connection_limiter org cp ttl = record {
  org_id = org;
  cp_instance_id = cp;
  queue_ttl = if non_positive ttl then 60000000000 else to_nat ttl;
  poll_interval = 100000000;
}

pub data ContextError : Type 0 where
  deadline_exceeded canceled : ContextError

pub data AcquireError : Type 0 where
  no_id too_many_connections : AcquireError
  interrupted : ContextError → AcquireError
  store_error : StoreError → AcquireError

-- What a call meets: the id that `newID` makes, the clock before the request is queued, and of
-- each round the clock, the limit, the context's error where it ends the wait, and the clock then.
pub record Surroundings : Type 0 where
  pub new_id : Option Bytes
  pub enqueued_at : ℕ
  pub clock : ℕ → ℕ
  pub max_connections : ℕ → ℤ
  pub ctx_done : ℕ → Option ContextError
  pub clock_when_done : ℕ → ℕ

-- How long a round waits.
unfoldable pub wait_time : ℕ → ℕ → ℕ → ℕ
wait_time poll expires now =
    if ltb 0 (expires - now) && ltb (expires - now) poll then expires - now else poll

-- The error of an interrupted wait.
abbrev pub context_error : ContextError → AcquireError
context_error deadline_exceeded = too_many_connections
context_error canceled = interrupted canceled

module _ {S : Type 0} (store : ConnectionStore S) (env : Surroundings) where
  -- What a round makes of the answer of the store; `again` is the next one.
  abbrev pub after_try :
      Bytes
      → ℕ
      → S × Result AcquireError Bytes
      → S × (StoreError ⊎ Option Lease)
      → S × Result AcquireError Bytes
  after_try id k again (s, inl e) = (s, err (store_error e))
  after_try id k again (s, inr (some l)) = (s, ok l.lease_id)
  after_try id k again (s, inr none) = elim (env.ctx_done k) [
    | some e ↦ ((store.cancel id (env.clock_when_done k) s).0, err (context_error e))
    | none ↦ again
  ]

  -- The loop of `Acquire`, from round `k` on.
  unfoldable pub acquire_loop : ℕ → Bytes → ℕ → ℕ → S → S × Result AcquireError Bytes
  acquire_loop zero id expires k s = (s, timeout)
  acquire_loop (suc f) id expires k s =
      let now = env.clock k in
      let tried = store.try_acquire id (env.max_connections k) now s in
      let again = acquire_loop f id expires (suc k) tried.0 in
      if ltb now expires
      then after_try id k again tried
      else ((store.cancel id now s).0, err too_many_connections)

  abbrev pub new_entry : OrgConnectionLimiter → ℕ → Bytes → Bytes → NewEntry
  new_entry l pid protocol id = record {
    request_id = id;
    org_id = l.org_id;
    cp_instance_id = l.cp_instance_id;
    pid = pid;
    protocol = protocol;
    enqueued_at = some env.enqueued_at;
    expires_at = some (env.enqueued_at + l.queue_ttl);
  }

  abbrev pub after_enqueue :
      ℕ → OrgConnectionLimiter → Bytes → S × Option StoreError → S × Result AcquireError Bytes
  after_enqueue fuel l id (s, some e) = (s, err (store_error e))
  after_enqueue fuel l id (s, none) = acquire_loop fuel id (env.enqueued_at + l.queue_ttl) 0 s

  -- `Acquire` of a limiter with a store and a limit: the id of the lease.
  unfoldable pub acquire : ℕ → OrgConnectionLimiter → ℕ → Bytes → S → S × Result AcquireError Bytes
  unfolding acquire_loop
  acquire fuel l pid protocol s = elim env.new_id [
    | none ↦ (s, err no_id)
    | some id ↦ after_enqueue fuel l id (store.enqueue (new_entry l pid protocol id) s)
  ]

  -- `Release` of a lease that `Acquire` has given.
  unfoldable pub release_lease : Bytes → S → S × Option StoreError
  release_lease lease_id s = store.release lease_id s

  -- After the timer of a round the clock has moved by the time waited.
  abbrev pub Ticks : ℕ → ℕ → Type 0
  Ticks poll expires =
      (k : ℕ) → env.clock k + wait_time poll expires (env.clock k) ≤ env.clock (suc k)
