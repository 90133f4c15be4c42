-- ===== src/Retry/Loops.antt =====
-- server/transient.go. The function that is tried is a stream of outcomes: `fn k` is what its call
-- number `k` returns. An error is its text. `sleeps` are the pauses, in nanoseconds; the jitter of
-- `math/rand` is given, a function from an attempt and a pause to the pause taken. Logs and counters
-- are not modelled.
use duckgres.Base.{
  ℕ, zero, suc, ◌*◌, Bool, true, false, not, ◌||◌, List, [], ◌∷◌, ◌++◌, Option, none, some, Bytes,
  codes, ltb, if◌then◌else◌,
}
use duckgres.Base.Text.{contains}

-- The words of `isTransientDuckLakeError`.
abbrev pub transient_words : List Bytes
transient_words =
    codes "name resolution"
    ∷ codes "could not translate host name"
    ∷ codes "could not connect to server"
    ∷ codes "Connection refused"
    ∷ codes "connection reset by peer"
    ∷ codes "connection timed out"
    ∷ codes "server closed the connection unexpectedly"
    ∷ codes "SSL connection has been closed unexpectedly"
    ∷ codes "Current transaction is aborted"
    ∷ codes "no route to host"
    ∷ codes "network is unreachable"
    ∷ []

unfoldable pub contains_any : Bytes → List Bytes → Bool
contains_any s [] = false
contains_any s (w ∷ ws) = contains s w || contains_any s ws

-- `isTransientDuckLakeError` on the text of an error
unfoldable pub is_transient : Bytes → Bool
unfolding contains_any
is_transient message = contains_any message transient_words

-- `isTransactionAborted` and `isDuckLakeTransactionConflict`, on the text of an error
unfoldable pub is_transaction_aborted : Bytes → Bool
unfolding contains
is_transaction_aborted message = contains message (codes "Current transaction is aborted")

unfoldable pub is_transaction_conflict : Bytes → Bool
unfolding contains
is_transaction_conflict message = contains message (codes "Transaction conflict")

-- The result of a retried call, the calls made, and the pauses taken, in order.
pub record Retried (R : Type 0) : Type 0 where
  pub result : R
  pub calls : ℕ
  pub sleeps : List ℕ

abbrev pub transient_max_retries : ℕ
transient_max_retries = 3

abbrev pub transient_initial_backoff : ℕ
transient_initial_backoff = 250000000

-- `err == nil || !isTransientDuckLakeError(err)`
unfoldable pub is_final : Option Bytes → Bool
unfolding is_transient
is_final none = true
is_final (some message) = not (is_transient message)

-- The loop of `retryOnTransientAttach`, with `n` attempts left, behind `calls` calls the last of
-- which returned `err`.
unfoldable pub attach_loop :
    ℕ → (ℕ → Option Bytes) → ℕ → ℕ → List ℕ → Option Bytes → Retried (Option Bytes)
unfolding is_final
attach_loop zero fn calls backoff sleeps err = record {
  result = err;
  calls = calls;
  sleeps = sleeps;
}
attach_loop (suc n) fn calls backoff sleeps err =
    let next = attach_loop n fn (suc calls) (backoff * 2) (sleeps ++ backoff ∷ []) (fn calls) in
    if is_final (fn calls)
    then record { result = fn calls; calls = suc calls; sleeps = sleeps ++ backoff ∷ [] }
    else next

-- `retryOnTransientAttach`
unfoldable pub retry_on_transient_attach : (ℕ → Option Bytes) → Retried (Option Bytes)
unfolding is_final attach_loop
retry_on_transient_attach fn =
    if is_final (fn 0)
    then record { result = fn 0; calls = 1; sleeps = [] }
    else attach_loop transient_max_retries fn 1 transient_initial_backoff [] (fn 0)

-- A Go pair of a value and an error: `zero_of` is the zero value with an error.
pub data Outcome (T : Type 0) : Type 0 where
  value : T → Outcome T
  failed : T → Bytes → Outcome T
  exhausted : Bytes → Outcome T

abbrev pub conflict_max_retries : ℕ
conflict_max_retries = 5

abbrev pub conflict_initial_backoff : ℕ
conflict_initial_backoff = 50000000

abbrev pub conflict_max_backoff : ℕ
conflict_max_backoff = 2000000000

-- What one call returned: a value, or a value and an error.
pub data Answer (T : Type 0) : Type 0 where
  good : T → Answer T
  bad : T → Bytes → Answer T

-- `backoff *= 2`, at most the maximum.
abbrev pub next_backoff : ℕ → ℕ
next_backoff b = if ltb conflict_max_backoff (b * 2) then conflict_max_backoff else b * 2

module _ {T : Type 0} (jitter : ℕ → ℕ → ℕ) (fn : ℕ → Answer T) where
  -- The loop of `retryOnConflict`, with `n` attempts left, behind `calls` calls.
  unfoldable pub conflict_loop : ℕ → ℕ → ℕ → List ℕ → Bytes → Retried (Outcome T)
  unfolding is_transaction_conflict
  conflict_loop zero calls backoff sleeps last = record {
    result = exhausted last;
    calls = calls;
    sleeps = sleeps;
  }
  conflict_loop (suc n) calls backoff sleeps last =
      let paused = sleeps ++ jitter calls backoff ∷ [] in
      elim (fn calls) [
        | good t ↦ record { result = value t; calls = suc calls; sleeps = paused }
        | bad t err ↦
            (let next = conflict_loop n (suc calls) (next_backoff backoff) paused err in
              if is_transaction_conflict err
              then next
              else record { result = failed t err; calls = suc calls; sleeps = paused })
      ]

  -- `retryOnConflict`
  unfoldable pub retry_on_conflict : Retried (Outcome T)
  unfolding conflict_loop
  retry_on_conflict = conflict_loop conflict_max_retries 0 conflict_initial_backoff [] []

-- The errors that `RecoverAbortedTransaction` returns, and what it calls.
pub data RecoveryError : Type 0 where
  as_given : Bytes → RecoveryError
  rollback_failed : Bytes → Bytes → RecoveryError

pub data Effect : Type 0 where
  rolled_back retried : Effect

-- `RecoverAbortedTransaction`: the value, the error, whether it recovered, and its calls.
unfoldable pub recover_aborted_transaction :
    {T : Type 0}
    → T
    → Option Bytes
    → Bool
    → Option Bytes
    → T × Option Bytes
    → T × Option RecoveryError × Bool × List Effect
unfolding is_transaction_aborted
recover_aborted_transaction zero_value none can_rollback rollback retry =
    (zero_value, none, false, [])
recover_aborted_transaction zero_value (some err) can_rollback rollback retry =
    if not can_rollback || not (is_transaction_aborted err)
    then (zero_value, some (as_given err), false, [])
    else elim rollback [
      | some failure ↦ (zero_value, some (rollback_failed failure err), true, rolled_back ∷ [])
      | none ↦ (
        retry.0,
        elim retry.1 [ none ↦ none | some e ↦ some (as_given e) ],
        true,
        rolled_back ∷ retried ∷ [],
      )
    ]
