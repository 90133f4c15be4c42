-- ===== src/Lease/Timeline.antt =====
-- The tables over time: the queue keeps the order of the database's clock, and its ids stay unique.
use duckgres.Base.{
  ℕ, suc, ◌≤◌, ◌≡◌, refl, sym, subst, ◌∙◌, Bool, true, false, List, [], ◌∷◌, ◌++◌, Option, none,
  Bytes, bytes_eq, bytes_eq_iff, arith, inl, inr, Bool-cases, if-cases,
}
use duckgres.Base.Int.{ℤ}
use duckgres.Base.Results.{ok, err, panic, timeout}
use duckgres.Base.Rows.{take_row, delete_rows, update_rows}
use duckgres.Auth.Limiter.{byte_keys}
use duckgres.Lease.Store.{
  QueueEntry, Lease, Store, InstanceState, Statement, transaction, is_lapsed, has_request_id,
}
use duckgres.Lease.Requests.{
  NewEntry, stamped, enqueue_org_connection_request, release_org_connection_lease, is_open_request,
  cancel_org_connection_request,
}
use duckgres.Lease.Acquire.{with_grant, AcquireResult, acquire_locked}
use duckgres.Lease.Effects.{
  AfterOk, transaction-AfterOk, enqueue-keeps, release-keeps, cancel-keeps,
}
use duckgres.Lease.Outcome.{
  cleaned, Outcome, gone, moved, held, waits, grants, acquire_locked-Outcome,
}
use duckgres.Lease.Fifo.{Unique, Ascending, Unique-delete_rows, take_row-none}

-- What the control planes make of tables with an empty queue, where each insertion reads a later
-- time than the one before; `t` is a time that no insertion so far has reached.
pub data Timeline : ℕ → Store → Type 0 where
  started : (t : ℕ) → (s : Store) → s.queue ≡ [] → Timeline t s
  enqueued :
      {t : ℕ} {s : Store}
      → Timeline t s
      → (fails : Statement → Bool) → (local_now now : ℕ) → (entry : NewEntry) → t ≤ now
      → Timeline (suc now) (enqueue_org_connection_request fails local_now now entry s).0
  acquired :
      {t : ℕ} {s : Store}
      → Timeline t s
      → (le_id : Bytes → Bytes → Bool) → (fails : Statement → Bool) → (max : ℤ) → (id : Bytes)
      → (now : ℕ) → (o : Bytes)
      → Timeline t (transaction s (acquire_locked le_id fails max id now o s)).0
  released :
      {t : ℕ} {s : Store}
      → Timeline t s
      → (fails : Statement → Bool) → (id : Bytes)
      → Timeline t (release_org_connection_lease fails id s).0
  canceled :
      {t : ℕ} {s : Store}
      → Timeline t s
      → (fails : Statement → Bool) → (id : Bytes)
      → Timeline t (cancel_org_connection_request fails id s).0
  instance_set :
      {t : ℕ} {s : Store}
      → Timeline t s
      → (cps : List (Bytes × InstanceState)) → Timeline t (record s { instances = cps })

-- The times of the rows ascend from `lo` on and stay below `hi`.
abbrev pub Spans : ℕ → ℕ → List QueueEntry → Type 0
Spans lo hi [] = lo ≤ hi
Spans lo hi (q ∷ qs) = (lo ≤ q.enqueued_at) × Spans (suc q.enqueued_at) hi qs

pub Spans-Ascending : (lo hi : ℕ) (qs : List QueueEntry) → Spans lo hi qs → Ascending lo qs
Spans-Ascending lo hi [] h = tt
Spans-Ascending lo hi (q ∷ qs) (h, hs) = (h, Spans-Ascending (suc q.enqueued_at) hi qs hs)

Spans-lower : (lo lo' hi : ℕ) (qs : List QueueEntry) → lo ≤ lo' → Spans lo' hi qs → Spans lo hi qs
Spans-lower lo lo' hi [] l h = omega arith
Spans-lower lo lo' hi (q ∷ qs) l (h, hs) = (omega arith, hs)

Spans-push :
    (lo hi now : ℕ) (q : QueueEntry) (qs : List QueueEntry)
    → Spans lo hi qs
    → hi ≤ now
    → q.enqueued_at ≡ now
    → Spans lo (suc now) (qs ++ q ∷ [])
Spans-push lo hi now q [] h l e = (omega arith, omega arith)
Spans-push lo hi now q (r ∷ qs) (h, hs) l e = (h, Spans-push (suc r.enqueued_at) hi now q qs hs l e)

Spans-raise : (lo hi hi' : ℕ) (qs : List QueueEntry) → hi ≤ hi' → Spans lo hi qs → Spans lo hi' qs
Spans-raise lo hi hi' [] l h = omega arith
Spans-raise lo hi hi' (q ∷ qs) l (h, hs) = (h, Spans-raise (suc q.enqueued_at) hi hi' qs l hs)

Spans-delete_rows :
    (p : QueueEntry → Bool) (lo hi : ℕ) (qs : List QueueEntry)
    → Spans lo hi qs
    → Spans lo hi (delete_rows p qs)
unfolding delete_rows
Spans-delete_rows p lo hi [] h = h
Spans-delete_rows p lo hi (q ∷ qs) (h, hs) =
    let rest = Spans-delete_rows p (suc q.enqueued_at) hi qs hs in
    if-cases (Spans lo hi) (p q) _ _
      (λ _. Spans-lower lo (suc q.enqueued_at) hi (delete_rows p qs) (omega arith) rest)
      (λ _. (h, rest))

Spans-with_grant :
    (id : Bytes) (now lo hi : ℕ) (qs : List QueueEntry)
    → Spans lo hi qs
    → Spans lo hi (update_rows (has_request_id id) (with_grant now) qs)
unfolding update_rows
Spans-with_grant id now lo hi [] h = h
Spans-with_grant id now lo hi (q ∷ qs) (h, hs) =
    let rest = Spans-with_grant id now (suc q.enqueued_at) hi qs hs in
    elim (Bool-cases (has_request_id id q)) [ inl y ↦ rw y (h, rest) | inr n ↦ rw n (h, rest) ]

take_row-push :
    (id : Bytes) (q : QueueEntry) (qs : List QueueEntry)
    → take_row (has_request_id id) qs ≡ none
    → bytes_eq q.request_id id ≡ false
    → take_row (has_request_id id) (qs ++ q ∷ []) ≡ none
unfolding take_row
take_row-push id q [] h n = rw n
take_row-push id q (r ∷ qs) h n =
    let (m, k) = take_row-none id r qs h in rw m (take_row-push id q qs k n)

bytes_eq_sym : (a b : Bytes) → bytes_eq a b ≡ false → bytes_eq b a ≡ false
bytes_eq_sym a b h = go (bytes_eq b a) refl
  where
    go : (z : Bool) → bytes_eq b a ≡ z → bytes_eq b a ≡ false
    go false e = e
    go true e = e ∙ sym ((bytes_eq_iff a b).1 (sym ((bytes_eq_iff b a).0 e))) ∙ h

Unique-push :
    (q : QueueEntry) (qs : List QueueEntry)
    → Unique qs
    → take_row (has_request_id q.request_id) qs ≡ none
    → Unique (qs ++ q ∷ [])
unfolding take_row
Unique-push q [] u h = (refl, tt)
Unique-push q (r ∷ qs) (n, u) h =
    let (m, k) = take_row-none q.request_id r qs h in
    (
      take_row-push r.request_id q qs n (bytes_eq_sym r.request_id q.request_id m),
      Unique-push q qs u k,
    )

take_row-with_grant :
    (id j : Bytes) (now : ℕ) (qs : List QueueEntry)
    → take_row (has_request_id j) qs ≡ none
    → take_row (has_request_id j) (update_rows (has_request_id id) (with_grant now) qs) ≡ none
unfolding take_row update_rows
take_row-with_grant id j now [] h = refl
take_row-with_grant id j now (q ∷ qs) h =
    let (n, k) = take_row-none j q qs h in
    let rest = take_row-with_grant id j now qs k in
    elim (Bool-cases (has_request_id id q)) [ inl y ↦ rw (y, n) rest | inr m ↦ rw (m, n) rest ]

Unique-with_grant :
    (id : Bytes) (now : ℕ) (qs : List QueueEntry)
    → Unique qs
    → Unique (update_rows (has_request_id id) (with_grant now) qs)
unfolding update_rows
Unique-with_grant id now [] u = tt
Unique-with_grant id now (q ∷ qs) (n, u) =
    let k = take_row-with_grant id q.request_id now qs n in
    let rest = Unique-with_grant id now qs u in
    elim (Bool-cases (has_request_id id q)) [ inl y ↦ rw y (k, rest) | inr m ↦ rw m (k, rest) ]

-- The queue is in order, up to `t`, and its ids are unique.
pub record Orderly (t : ℕ) (s : Store) : Type 0 where
  pub unique : Unique s.queue
  pub spans : Spans 0 t s.queue

Orderly-delete_rows :
    (t : ℕ) (p : QueueEntry → Bool) (s : Store) (ls : List Lease)
    → Orderly t s
    → Orderly t (record s { queue = delete_rows p s.queue; leases = ls })
Orderly-delete_rows t p s ls h = record {
  unique = Unique-delete_rows p s.queue h.unique;
  spans = Spans-delete_rows p 0 t s.queue h.spans;
}

Outcome-Orderly :
    (t : ℕ) (le_id : Bytes → Bytes → Bool) (max : ℤ) (id : Bytes) (now : ℕ) (o : Bytes) (s : Store)
    (r : Store × (Option Lease × Bool))
    → Orderly t s
    → Outcome le_id max id now o s r
    → Orderly t r.0
Outcome-Orderly t le_id max id now o s _ h (gone e) = h
Outcome-Orderly t le_id max id now o s _ h (moved q e n) = h
Outcome-Orderly t le_id max id now o s _ h (held q e b f) = h
Outcome-Orderly t le_id max id now o s _ h (waits q e) = h
Outcome-Orderly t le_id max id now o s _ h (grants q e may) = record {
  unique = Unique-with_grant q.request_id now s.queue h.unique;
  spans = Spans-with_grant q.request_id now 0 t s.queue h.spans;
}

acquire_locked-Orderly :
    (t : ℕ) (le_id : Bytes → Bytes → Bool) (fails : Statement → Bool) (max : ℤ) (id : Bytes)
    (now : ℕ) (o : Bytes) (s : Store)
    → Orderly t s
    → Orderly t (transaction s (acquire_locked le_id fails max id now o s)).0
acquire_locked-Orderly t le_id fails max id now o s h =
    transaction-AfterOk (Orderly t) s (acquire_locked le_id fails max id now o s) h
      (go (acquire_locked le_id fails max id now o s) refl)
  where
    go : (r : AcquireResult) → acquire_locked le_id fails max id now o s ≡ r → AfterOk (Orderly t) r
    go (ok r) e =
        Outcome-Orderly t le_id max id now o (cleaned o now s) r
          (Orderly-delete_rows t (is_lapsed o now) s _ h)
          (acquire_locked-Outcome le_id fails max id now o s r e)
    go (err e) q = tt
    go panic q = tt
    go timeout q = tt

-- At every point of a timeline the queue is in order and its ids are unique.
pub Timeline-Orderly : (t : ℕ) (s : Store) → Timeline t s → Orderly t s
Timeline-Orderly t s (started _ _ e) = record {
  unique = subst Unique (sym e) tt;
  spans = subst (Spans 0 t) (sym e) (omega arith);
}
Timeline-Orderly _ s (enqueued {t = t} {s = r} h fails local_now now entry l) =
    let o = Timeline-Orderly t r h in
    enqueue-keeps (Orderly (suc now)) fails local_now now entry r
      (record {
        unique = o.unique;
        spans = Spans-raise 0 t (suc now) r.queue (omega arith) o.spans;
      })
      (λ ttl e. record {
        unique = Unique-push (stamped entry now ttl) r.queue o.unique e;
        spans = Spans-push 0 t now (stamped entry now ttl) r.queue o.spans l refl;
      })
Timeline-Orderly t s (acquired {s = r} h le_id fails max id now o) =
    acquire_locked-Orderly t le_id fails max id now o r (Timeline-Orderly t r h)
Timeline-Orderly t s (released {s = r} h fails id) =
    let o = Timeline-Orderly t r h in
    release-keeps (Orderly t) fails id r o (Orderly-delete_rows t (has_request_id id) r _ o)
Timeline-Orderly t s (canceled {s = r} h fails id) =
    let o = Timeline-Orderly t r h in
    cancel-keeps (Orderly t) fails id r o (Orderly-delete_rows t (is_open_request id) r _ o)
Timeline-Orderly t s (instance_set {s = r} h cps) =
    let o = Timeline-Orderly t r h in record { unique = o.unique; spans = o.spans }
