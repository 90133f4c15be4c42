-- ===== src/Lease/Waits.antt =====
-- How a call of the limiter's `Acquire` ends, and that it does.
use duckgres.Base.{
  ℕ, zero, suc, ◌+◌, ◌-◌, ◌*◌, ◌≤◌, ◌<◌, ◌≡◌, refl, sym, subst, ◌⊎◌, inl, inr, false, ◌&&◌, Option,
  none, some, Bytes, ltb, ltb→lt, arith, if-cases,
}
use duckgres.Base.Results.{Result, ok, err}
use duckgres.Lease.Store.{Lease, StoreError}
use duckgres.Lease.Limiter.{
  ConnectionStore, OrgConnectionLimiter, Surroundings, ContextError, AcquireError,
  too_many_connections, no_id, store_error, context_error, wait_time, after_try, after_enqueue,
  acquire_loop, new_entry, acquire, Ticks,
}

-- The ways in which the waiting of a request ends.
pub data Ended {S : Type 0} (store : ConnectionStore S) (env : Surroundings) (id : Bytes)
    (expires : ℕ) : S × Result AcquireError Bytes → Type 0 where
  let_in :
      (k : ℕ)
      → (u v : S) → (l : Lease) → env.clock k < expires
      → store.try_acquire id (env.max_connections k) (env.clock k) u ≡ (v, inr (some l))
      → Ended store env id expires (v, ok l.lease_id)
  refused :
      (k : ℕ)
      → (u v : S) → (e : StoreError) → env.clock k < expires
      → store.try_acquire id (env.max_connections k) (env.clock k) u ≡ (v, inl e)
      → Ended store env id expires (v, err (store_error e))
  expired :
      (k : ℕ)
      → (u : S) → expires ≤ env.clock k
      → Ended store env id expires ((store.cancel id (env.clock k) u).0, err too_many_connections)
  stopped :
      (k : ℕ)
      → (u : S) → (e : ContextError) → env.ctx_done k ≡ some e
      → Ended store env id expires
          ((store.cancel id (env.clock_when_done k) u).0, err (context_error e))

-- A wait is the poll interval, or reaches the expiry.
wait_time-reaches :
    (poll expires now next rest : ℕ)
    → expires ≤ now + (poll + rest)
    → now + wait_time poll expires now ≤ next
    → expires ≤ next + rest
unfolding wait_time
wait_time-reaches poll expires now next rest h w =
    if-cases (λ (t : ℕ). now + t ≤ next → expires ≤ next + rest)
      (ltb 0 (expires - now) && ltb (expires - now) poll) _ _ (λ _ k. omega arith)
      (λ _ k. omega arith) w

module _ {S : Type 0} (store : ConnectionStore S) (env : Surroundings) (id : Bytes)
    (expires : ℕ) where
  after_try-Ended :
      (k : ℕ) (again : S × Result AcquireError Bytes) (u : S) (p : S × (StoreError ⊎ Option Lease))
      → env.clock k < expires
      → store.try_acquire id (env.max_connections k) (env.clock k) u ≡ p
      → Ended store env id expires again
      → Ended store env id expires (after_try store env id k again p)
  after_try-Ended k again u (v, inl e) l q h = refused k u v e l q
  after_try-Ended k again u (v, inr (some l)) b q h = let_in k u v l b q
  after_try-Ended k again u (v, inr none) l q h = go (env.ctx_done k) refl
    where
      go :
          (o : Option ContextError)
          → env.ctx_done k ≡ o
          → Ended store env id expires (elim o [
            | some e ↦ ((store.cancel id (env.clock_when_done k) v).0, err (context_error e))
            | none ↦ again
          ])
      go none e = h
      go (some e) q = stopped k v e q

  acquire_loop-Ended :
      (poll f k : ℕ) (s : S)
      → Ticks store env poll expires
      → expires ≤ env.clock k + f * poll
      → Ended store env id expires (acquire_loop store env (suc f) id expires k s)
  unfolding acquire_loop
  acquire_loop-Ended poll zero k s t h =
      if-cases (Ended store env id expires) (ltb (env.clock k) expires) _ _
        (λ y. absurd (late (ltb→lt _ _ y))) (λ n. expired k s (omega arith))
    where
      late : env.clock k < expires → ⊥
      late y = omega arith
  acquire_loop-Ended poll (suc f) k s t h =
      if-cases (Ended store env id expires) (ltb (env.clock k) expires) _ _
        (λ y. after_try-Ended k _ s _ (ltb→lt _ _ y) refl (
          acquire_loop-Ended poll f (suc k) _ t (
            wait_time-reaches poll expires (env.clock k) (env.clock (suc k)) (f * poll)
              (omega arith) (t k))))
        (λ n. expired k s (not_before n))
    where
      not_before : ltb (env.clock k) expires ≡ false → expires ≤ env.clock k
      not_before n = ground arith

-- A call of `Acquire` whose request is queued ends within one round more than the poll intervals that
-- cover the time to live: with the lease that the store has given before the expiry, with the error
-- of the store's answer before the expiry, or, at the expiry or where the context ends a wait, right
-- after it has asked the store to cancel the request. The clock has moved by the time waited when a
-- timer fires, and does not go back between the queueing and the first round.
pub acquire-Ended :
    {S : Type 0} (store : ConnectionStore S) (env : Surroundings) (fuel : ℕ)
    (l : OrgConnectionLimiter) (pid : ℕ) (protocol id : Bytes) (s : S)
    → env.new_id ≡ some id
    → (store.enqueue (new_entry store env l pid protocol id) s).1 ≡ none
    → env.enqueued_at ≤ env.clock 0
    → Ticks store env l.poll_interval (env.enqueued_at + l.queue_ttl)
    → l.queue_ttl ≤ fuel * l.poll_interval
    → Ended store env id
        (env.enqueued_at + l.queue_ttl)
        (acquire store env (suc fuel) l pid protocol s)
unfolding acquire
acquire-Ended {S = S} store env fuel l pid protocol id s made queued start ticks enough =
    subst
      (λ (o : Option Bytes). Ends (elim o [
        | none ↦ (s, err no_id)
        | some i ↦
            after_enqueue store env (suc fuel) l i
              (store.enqueue (new_entry store env l pid protocol i) s)
      ]))
      (sym made) (go (store.enqueue (new_entry store env l pid protocol id) s) queued)
  where
    Ends : S × Result AcquireError Bytes → Type 0
    Ends = Ended store env id (env.enqueued_at + l.queue_ttl)

    go : (p : S × Option StoreError) → p.1 ≡ none → Ends (after_enqueue store env (suc fuel) l id p)
    go (t, some e) q = cc
    go (t, none) q =
        acquire_loop-Ended store env id (env.enqueued_at + l.queue_ttl) l.poll_interval fuel 0 t
          ticks (omega arith)
