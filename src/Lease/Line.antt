-- ===== src/Lease/Line.antt =====
-- The lease tables refine a plain line: requests wait in their order, the first one is let in while
-- there is room, and no other.
use duckgres.Base.{
  ℕ, ◌+◌, ◌≡◌, ◌≢◌, refl, sym, ◌∙◌, Bool, true, false, not, ◌&&◌, ◌||◌, List, [], ◌∷◌, Option, none,
  some, Bytes, bytes_eq, bytes_eq_iff, leb, if◌then◌else◌, inl, inr, Bool-cases,
}
use duckgres.Base.Int.{ℤ, non_positive, to_nat}
use duckgres.Base.Results.{Result, ok, err}
use duckgres.Base.Rows.{take_row, select, count_rows, count_rows-append}
use duckgres.Lease.Store.{
  QueueEntry, Lease, Store, Statement, StoreError, database, insert_lease, transaction, owner_state,
  is_expired, is_waiting, is_active, active_count, is_lease_of,
}
use duckgres.Lease.Acquire.{AcquireResult, with_grant, lease_for, create_org_connection_lease}
use duckgres.Lease.Outcome.{with_lease}
use duckgres.Lease.Fifo.{Unique, select-update_rows-head}

-- Who waits, in order, and how many have been let in.
pub record Line : Type 0 where
  pub waiting : List Bytes
  pub active : ℕ

-- There is room for one more.
abbrev pub has_place : ℤ → ℕ → Bool
has_place max n = non_positive max || not (leb (to_nat max) n)

-- The request asks to be let in.
abbrev pub line_try : ℤ → Bytes → Line → Line × Bool
line_try max id l = elim l.waiting [
  | [] ↦ (l, false)
  | w ∷ ws ↦
      if bytes_eq w id && has_place max l.active
      then (record { waiting = ws; active = l.active + 1 }, true)
      else (l, false)
]

abbrev pub request_ids : List QueueEntry → List Bytes
request_ids [] = []
request_ids (q ∷ qs) = q.request_id ∷ request_ids qs

-- The line that the tables stand for, of an org at a time.
abbrev pub line_of : Bytes → ℕ → Store → Line
line_of org now s = record {
  waiting = request_ids (select (is_waiting org now) s.queue);
  active = active_count org s;
}

abbrev pub is_granted : Result StoreError (Option Lease × Bool) → Bool
is_granted (ok (some l, b)) = true
is_granted _ = false

-- The line after a transaction, and whether it has let the request in.
abbrev pub seen : Bytes → ℕ → Store → AcquireResult → Line × Bool
seen org now s r = (line_of org now (transaction s r).0, is_granted (transaction s r).1)

abbrev pub never : Statement → Bool
never st = false

-- The line after a grant to the first of it.
pub line_of-with_lease :
    (now : ℕ) (q : QueueEntry) (ws : List QueueEntry) (s : Store)
    → Unique s.queue
    → is_expired (owner_state s q.cp_instance_id) ≡ false
    → select (is_waiting q.org_id now) s.queue ≡ q ∷ ws
    → line_of q.org_id now (with_lease q now s)
      ≡ record { waiting = request_ids ws; active = active_count q.org_id s + 1 }
unfolding active_count count_rows
line_of-with_lease now q ws s u live e = rw (
  select-update_rows-head (is_waiting q.org_id now) (with_grant now) q.request_id s.queue q ws u
      (λ r. not_waiting r) e refl,
  count_rows-append (is_active q.org_id s) s.leases (lease_for q now ∷ []),
  (bytes_eq_iff q.org_id q.org_id).1 refl,
  live,
)
  where
    not_waiting : (r : QueueEntry) → is_waiting q.org_id now (with_grant now r) ≡ false
    not_waiting r = elim (Bool-cases (bytes_eq r.org_id q.org_id)) [ inl y ↦ rw y | inr n ↦ rw n ]

-- The request that stands first is let in where there is room, and one that does not is not.
pub line_try-first :
    (max : ℤ) (id : Bytes) (ws : List Bytes) (n : ℕ)
    → has_place max n ≡ true
    → line_try max id (record { waiting = id ∷ ws; active = n })
      ≡ (record { waiting = ws; active = n + 1 }, true)
line_try-first max id ws n h = rw ((bytes_eq_iff id id).1 refl, h)

pub line_try-full :
    (max : ℤ) (id : Bytes) (l : Line)
    → has_place max l.active ≡ false
    → line_try max id l ≡ (l, false)
line_try-full max id l h = go l.waiting refl
  where
    go :
        (o : List Bytes)
        → l.waiting ≡ o
        → ◌≡◌ {A = Line × Bool}
            (elim o [
              | [] ↦ (l, false)
              | w ∷ ws ↦
                  if bytes_eq w id && has_place max l.active
                  then (record { waiting = ws; active = l.active + 1 }, true)
                  else (l, false)
            ])
            (l, false)
    go [] e = refl
    go (w ∷ ws) e = elim (Bool-cases (bytes_eq w id)) [ inl y ↦ rw (y, h) | inr n ↦ rw n ]

pub line_try-other :
    (max : ℤ) (id w : Bytes) (ws : List Bytes) (n : ℕ)
    → bytes_eq w id ≡ false
    → line_try max id (record { waiting = w ∷ ws; active = n })
      ≡ (record { waiting = w ∷ ws; active = n }, false)
line_try-other max id w ws n h = rw h

pub not_both : (b : Bool) → b ≡ true → b ≡ false → ⊥
not_both b y n = true_ne_false (sym y ∙ n)
  where
    true_ne_false : true ≢ false
    true_ne_false q = cc

pub last_two : (a b c : Bool) → (a && b && c) ≡ true → (b && c) ≡ true
last_two true b c h = h
last_two false b c h = absurd (not_both false h refl)

-- Without a lease of the request, the lease is made.
pub create-free :
    (now : ℕ) (q : QueueEntry) (s : Store)
    → take_row (is_lease_of q.request_id) s.leases ≡ none
    → create_org_connection_lease never q now s
      ≡ ok (with_lease q now s, (some (lease_for q now), false))
unfolding create_org_connection_lease
create-free now q s free = go (take_row (is_lease_of q.request_id) s.leases) free
  where
    go :
        (o : Option Lease)
        → o ≡ none
        → ◌≡◌ {A = AcquireResult}
            (elim o [
              | some _ ↦ err (database insert_lease)
              | none ↦ ok (with_lease q now s, (some (lease_for q now), false))
            ])
            (ok (with_lease q now s, (some (lease_for q now), false)))
    go none e = refl
    go (some l) e = cc
