-- ===== src/Session/Registry.antt =====
-- The two tables of sessions agree: a worker's list holds the pid of each of its sessions once, and
-- no other.
use duckgres.Base.{
  ℕ, ◌+◌, ◌-◌, ◌≡◌, refl, subst, Bool, true, false, List, [], ◌∷◌, ◌++◌, Option, none, some, ◌==◌,
  if◌then◌else◌, arith,
}
use duckgres.Base.Dict.{lookup, insert, delete, nat_keys, lookup-insert, lookup-delete}
use duckgres.Session.Slots.{remove_waiter, grant_waiters}
use duckgres.Session.Tables.{
  ManagedSession, SessionManager, pids_of, register_session, put_pids, give_back,
  remove_session_from_worker, detach_session,
}

abbrev pub occurrences : ℕ → List ℕ → ℕ
occurrences p [] = 0
occurrences p (x ∷ xs) = (if x == p then 1 else 0) + occurrences p xs

occurrences-push :
    (p q : ℕ) (xs : List ℕ)
    → occurrences p (xs ++ q ∷ []) ≡ occurrences p xs + (if q == p then 1 else 0)
occurrences-push p q [] = ground arith
occurrences-push p q (x ∷ xs) = ground (arith, occurrences-push p q xs)

occurrences-remove :
    (p q : ℕ) (xs : List ℕ)
    → occurrences p (remove_waiter q xs)
      ≡ (if q == p then occurrences p xs - 1 else occurrences p xs)
unfolding remove_waiter
occurrences-remove p q [] = ground arith
occurrences-remove p q (x ∷ xs) = ground (arith, occurrences-remove p q xs)

pids_of-insert :
    (w v : ℕ) (ps : List ℕ) (m : List (ℕ × List ℕ))
    → pids_of v (insert w ps m) ≡ (if w == v then ps else pids_of v m)
pids_of-insert w v ps m = ground (arith, lookup-insert w v ps m)

pids_of-put_pids :
    (w v : ℕ) (ps : List ℕ) (m : List (ℕ × List ℕ))
    → pids_of v (put_pids w ps m) ≡ (if w == v then ps else pids_of v m)
unfolding put_pids
pids_of-put_pids w v [] m = ground (arith, lookup-delete w v m)
pids_of-put_pids w v (p ∷ ps) m = pids_of-insert w v (p ∷ ps) m

-- How often the list of worker `w` should hold a pid whose session is this.
abbrev pub expected : ℕ → Option ManagedSession → ℕ
expected w none = 0
expected w (some s) = if s.worker_id == w then 1 else 0

abbrev pub Agree : List (ℕ × ManagedSession) → List (ℕ × List ℕ) → Type 0
Agree sessions by_worker =
    (w pid : ℕ) → occurrences pid (pids_of w by_worker) ≡ expected w (lookup pid sessions)

Agree-insert :
    (pid : ℕ) (s : ManagedSession) (ss : List (ℕ × ManagedSession)) (m : List (ℕ × List ℕ))
    → lookup pid ss ≡ none
    → Agree ss m
    → Agree (insert pid s ss) (insert s.worker_id (pids_of s.worker_id m ++ pid ∷ []) m)
Agree-insert pid s ss m fresh h w p =
    rw
      (lookup-insert pid p s ss, pids_of-insert s.worker_id w (pids_of s.worker_id m ++ pid ∷ []) m)
      (ground (arith, occurrences-push p pid (pids_of w m), h w p, h w pid, fresh))

Agree-remove :
    (pid : ℕ) (s : ManagedSession) (ss : List (ℕ × ManagedSession)) (m : List (ℕ × List ℕ))
    → lookup pid ss ≡ some s
    → Agree ss m
    → Agree (delete pid ss) (remove_session_from_worker s.worker_id pid m)
unfolding remove_session_from_worker
Agree-remove pid s ss m there h w p =
    rw
      (
        lookup-delete pid p ss,
        pids_of-put_pids s.worker_id w (remove_waiter pid (pids_of s.worker_id m)) m,
      )
      (ground (arith, occurrences-remove p pid (pids_of w m), h w p, h w pid, there))

-- A session that is registered keeps the tables in agreement, where its pid is not in use.
pub register_session-Agree :
    (pid : ℕ) (s : ManagedSession) (sm t : SessionManager)
    → lookup pid sm.sessions ≡ none
    → Agree sm.sessions sm.by_worker
    → register_session pid s sm ≡ some t
    → Agree t.sessions t.by_worker
unfolding register_session
register_session-Agree pid s sm t fresh h e = go sm.slots.closed e
  where
    after : SessionManager
    after = record sm {
      sessions = insert pid s sm.sessions;
      by_worker = insert s.worker_id (pids_of s.worker_id sm.by_worker ++ pid ∷ []) sm.by_worker;
    }

    go : (b : Bool) → (if b then none else some after) ≡ some t → Agree t.sessions t.by_worker
    go true q = cc
    go false q =
        let same : after ≡ t = cc in
        subst (λ (u : SessionManager). Agree u.sessions u.by_worker) same
          (Agree-insert pid s sm.sessions sm.by_worker fresh h)

-- The end of a session keeps the tables in agreement, takes its pid out of the table of sessions,
-- and leaves every other session there.
pub detach_session-Agree :
    (pid : ℕ) (sm : SessionManager)
    → Agree sm.sessions sm.by_worker
    → Agree (detach_session pid sm).0.sessions (detach_session pid sm).0.by_worker
      × ((p : ℕ)
          → lookup p (detach_session pid sm).0.sessions
            ≡ (if pid == p then none else lookup p sm.sessions))
unfolding detach_session
detach_session-Agree pid sm h = go (lookup pid sm.sessions) refl
  where
    Kept : SessionManager → Type 0
    Kept t =
        Agree t.sessions t.by_worker
        × ((p : ℕ) → lookup p t.sessions ≡ (if pid == p then none else lookup p sm.sessions))

    go :
        (o : Option ManagedSession)
        → lookup pid sm.sessions ≡ o
        → Kept
            (elim o as (λ _. SessionManager × Option ManagedSession) [
              | none ↦ (sm, none)
              | some session ↦ (
                record sm {
                  slots = grant_waiters (give_back session sm.slots);
                  sessions = delete pid sm.sessions;
                  by_worker = remove_session_from_worker session.worker_id pid sm.by_worker;
                },
                some session,
              )
            ]).0
    go none e = (h, λ p. ground (arith, e))
    go (some s) e =
        (Agree-remove pid s sm.sessions sm.by_worker e h, λ p. lookup-delete pid p sm.sessions)
