-- ===== src/Retry/Bounds.antt =====
-- How often the retry loops call, when they stop, and what they return.
use duckgres.Base.{
  ℕ, zero, suc, ◌+◌, ◌-◌, ◌*◌, ◌≤◌, ◌<◌, ◌≡◌, refl, sym, ap, subst, ◌∙◌, ◌⊎◌, inl, inr, true, false,
  List, [], ◌∷◌, ◌++◌, append_assoc, append-nil, Option, Bytes, All, if◌then◌else◌, arith, if-cases,
}
use duckgres.Retry.Loops.{
  Retried, transient_max_retries, transient_initial_backoff, is_final, attach_loop,
  retry_on_transient_attach, Outcome, value, failed, exhausted, Answer, good, bad,
  is_transaction_conflict, conflict_max_retries, conflict_initial_backoff, next_backoff,
  conflict_loop, retry_on_conflict,
}

-- `fn i`, `fn (i + 1)`, …, `n` of them.
abbrev pub outcomes {ℓ} : {A : Type ℓ} → (ℕ → A) → ℕ → ℕ → List A
outcomes fn i zero = []
outcomes fn i (suc n) = fn i ∷ outcomes fn (suc i) n

-- `n` pauses, each twice the one before.
abbrev pub doubling : ℕ → ℕ → List ℕ
doubling b zero = []
doubling b (suc n) = b ∷ doubling (b * 2) n

-- Behind the call number `k`, `m` more were made, each behind an error to retry on.
abbrev pub Attached : ℕ → (ℕ → Option Bytes) → ℕ → ℕ → List ℕ → Retried (Option Bytes) → Type 0
Attached n fn k b sleeps r =
    (m : ℕ) × (m ≤ n)
    × (r.calls ≡ suc (k + m))
    × (r.result ≡ fn (k + m))
    × All (λ e. is_final e ≡ false) (outcomes fn k m)
    × ((is_final (fn (k + m)) ≡ true) ⊎ (m ≡ n))
    × (r.sleeps ≡ sleeps ++ doubling b m)

attach_loop-Attached :
    (n : ℕ) (fn : ℕ → Option Bytes) (k b : ℕ) (sleeps : List ℕ)
    → is_final (fn k) ≡ false
    → Attached n fn k b sleeps (attach_loop n fn (suc k) b sleeps (fn k))
unfolding attach_loop
attach_loop-Attached zero fn k b sleeps h =
    let e : k + 0 ≡ k = omega arith in
    (0, omega arith, omega arith, ap fn (sym e), tt, inr refl, sym (append-nil sleeps))
attach_loop-Attached (suc n) fn k b sleeps h =
    let one : k + 1 ≡ suc k = omega arith in
    if-cases (Attached (suc n) fn k b sleeps) (is_final (fn (suc k))) _
      (attach_loop n fn (suc (suc k)) (b * 2) (sleeps ++ b ∷ []) (fn (suc k)))
      (λ y. (
        1,
        omega arith,
        omega arith,
        ap fn (sym one),
        (h, tt),
        inl (ap (λ i. is_final (fn i)) one ∙ y),
        refl,
      ))
      (λ no. later (attach_loop-Attached n fn (suc k) (b * 2) (sleeps ++ b ∷ []) no))
  where
    later :
        {r : Retried (Option Bytes)}
        → Attached n fn (suc k) (b * 2) (sleeps ++ b ∷ []) r
        → Attached (suc n) fn k b sleeps r
    later (m, l, c, e, all, stop, s) =
        let shift : suc k + m ≡ k + suc m = omega arith in
        (
          suc m,
          omega (arith, l),
          omega (arith, c),
          e ∙ ap fn shift,
          (h, all),
          elim stop [
            | inl y ↦ inl (sym (ap (λ i. is_final (fn i)) shift) ∙ y)
            | inr z ↦ inr (ap suc z)
          ],
          s ∙ append_assoc sleeps (b ∷ []) (doubling (b * 2) m),
        )

-- An attach is tried at most four times. It returns what its last call returned, every call before
-- returned a transient error, the last did not unless it was the fourth, and the pauses between the
-- calls double from 250 ms.
pub retry_on_transient_attach_lem :
    (fn : ℕ → Option Bytes)
    → Attached transient_max_retries fn 0 transient_initial_backoff []
        (retry_on_transient_attach fn)
unfolding retry_on_transient_attach
retry_on_transient_attach_lem fn =
    if-cases (Attached transient_max_retries fn 0 transient_initial_backoff []) (is_final (fn 0)) _
      (attach_loop transient_max_retries fn 1 transient_initial_backoff [] (fn 0))
      (λ y. (0, omega arith, omega arith, refl, tt, inl y, refl))
      (λ n. attach_loop-Attached transient_max_retries fn 0 transient_initial_backoff [] n)

-- A call that returned a conflict.
abbrev pub IsConflict : {T : Type 0} → Answer T → Type 0
IsConflict (good t) = ⊥
IsConflict (bad t e) = is_transaction_conflict e ≡ true

-- The result is that of a call with this answer, with `left` attempts left behind it.
abbrev pub Comes : {T : Type 0} → ℕ → Answer T → Outcome T → Type 0
Comes left a (value t) = a ≡ good t
Comes left a (failed t e) = (a ≡ bad t e) × (is_transaction_conflict e ≡ false)
Comes {T} left a (exhausted e) =
    (left ≡ 0) × ((t : T) × (a ≡ bad t e)) × (is_transaction_conflict e ≡ true)

module _ {T : Type 0} (jitter : ℕ → ℕ → ℕ) (fn : ℕ → Answer T) where
  -- From the call number `k` on, with `n` attempts left: `m` calls returned a conflict, and the one
  -- behind them gave the result.
  abbrev pub Tried : ℕ → ℕ → Retried (Outcome T) → Type 0
  Tried n k r =
      (m : ℕ) × (m < n)
      × (r.calls ≡ suc (k + m))
      × All IsConflict (outcomes fn k m)
      × Comes (n - suc m) (fn (k + m)) r.result

  first_call : (k : ℕ) → k + 0 ≡ k
  first_call k = omega arith

  -- One round, where the rounds behind a conflict are known.
  conflict_round :
      (n k b : ℕ) (sleeps : List ℕ) (a : Answer T)
      → fn k ≡ a
      → ((t : T) (err : Bytes)
          → fn k ≡ bad t err
          → is_transaction_conflict err ≡ true
          → Tried (suc n) k (conflict_loop jitter fn n (suc k) (next_backoff b) sleeps err))
      → Tried (suc n) k (elim a [
        | good t ↦ record { result = value t; calls = suc k; sleeps = sleeps }
        | bad t err ↦
            if is_transaction_conflict err
            then conflict_loop jitter fn n (suc k) (next_backoff b) sleeps err
            else record { result = failed t err; calls = suc k; sleeps = sleeps }
      ])
  conflict_round n k b sleeps (good t) e again =
      (0, omega arith, omega arith, tt, ap fn (first_call k) ∙ e)
  conflict_round n k b sleeps (bad t err) e again =
      if-cases (Tried (suc n) k) (is_transaction_conflict err) _ _ (λ y. again t err e y)
        (λ no. (0, omega arith, omega arith, tt, (ap fn (first_call k) ∙ e, no)))

  abbrev rest : ℕ → Bytes → List ℕ → ℕ → ℕ → Outcome T
  rest n err paused k b =
      (conflict_loop jitter fn (suc n) (suc k) (next_backoff b) paused err).result

  conflict_loop-Tried :
      (n k b : ℕ) (sleeps : List ℕ) (last : Bytes)
      → Tried (suc n) k (conflict_loop jitter fn (suc n) k b sleeps last)
  unfolding conflict_loop
  conflict_loop-Tried zero k b sleeps last =
      conflict_round zero k b (sleeps ++ jitter k b ∷ []) (fn k) refl
        λ t err e y. (0, omega arith, omega arith, tt, (refl, (t, ap fn (first_call k) ∙ e), y))
  conflict_loop-Tried (suc n) k b sleeps last =
      conflict_round (suc n) k b (sleeps ++ jitter k b ∷ []) (fn k) refl λ t err e y.
        let paused = sleeps ++ jitter k b ∷ [] in
        let (m, l, c, all, from) = conflict_loop-Tried n (suc k) (next_backoff b) paused err in
        let shift : suc k + m ≡ k + suc m = omega arith in
        let gap : suc n - suc m ≡ suc (suc n) - suc (suc m) = omega arith in
        (
          suc m,
          omega (arith, l),
          omega (arith, c),
          (subst IsConflict (sym e) y, all),
          subst (λ q. Comes q (fn (k + suc m)) (rest n err paused k b)) gap
              (subst (λ i. Comes (suc n - suc m) (fn i) (rest n err paused k b)) shift from),
        )

  -- A conflicting query is tried again between one and five times. Every call but the last returned
  -- a conflict, and the last gave the result: its value, or its error where that is no conflict, or
  -- the error that the retries are exhausted where it is a conflict and the call is the fifth.
  pub retry_on_conflict_lem : Tried conflict_max_retries 0 (retry_on_conflict jitter fn)
  unfolding retry_on_conflict
  retry_on_conflict_lem = conflict_loop-Tried 4 0 conflict_initial_backoff [] []
