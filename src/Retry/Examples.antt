-- ===== src/Retry/Examples.antt =====
-- An attach whose first two calls cannot connect, and a query whose first call conflicts.
use duckgres.Base.{ℕ, [], Option, none, some, Bytes, codes, if◌then◌else◌, ltb}
use duckgres.Retry.Loops.{
  transient_max_retries, transient_initial_backoff, retry_on_transient_attach, Answer, good, bad,
  conflict_max_retries, retry_on_conflict,
}
use duckgres.Retry.Bounds.{Attached, retry_on_transient_attach_lem, Tried, retry_on_conflict_lem}

abbrev flaky : ℕ → Option Bytes
flaky k = if ltb k 2 then some (codes "Connection refused") else none

retry_on_transient_attach_lem_example :
    Attached transient_max_retries flaky 0 transient_initial_backoff []
      (retry_on_transient_attach flaky)
retry_on_transient_attach_lem_example = retry_on_transient_attach_lem flaky

abbrev contended : ℕ → Answer ℕ
contended k = if ltb k 1 then bad 0 (codes "Transaction conflict") else good 7

abbrev half : ℕ → ℕ → ℕ
half attempt backoff = backoff

retry_on_conflict_lem_example :
    Tried half contended conflict_max_retries 0 (retry_on_conflict half contended)
retry_on_conflict_lem_example = retry_on_conflict_lem half contended
