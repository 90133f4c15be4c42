-- ===== src/Lease/Fifo.antt =====
-- The rows of the queue in the order of their insertion: which row is the head, and what a grant
-- does to the rows that wait.
use duckgres.Base.{
  ℕ, suc, ◌≤◌, ◌<◌, ◌≡◌, ◌≢◌, refl, sym, ap, subst, ◌∙◌, Bool, true, false, List, [], ◌∷◌, Option,
  none, some, Bytes, bytes_eq, bytes_eq_iff, arith, Bool-cases, inl, inr, if-cases, if-true,
  if-false,
}
use duckgres.Base.Rows.{take_row, select, delete_rows, update_rows}
use duckgres.Lease.Store.{QueueEntry, has_request_id, comes_before, earlier_of, first_in_order}

-- No two rows have one request id: the primary key.
abbrev pub Unique : List QueueEntry → Type 0
Unique [] = Unit
Unique (q ∷ qs) = (take_row (has_request_id q.request_id) qs ≡ none) × Unique qs

-- The rows were enqueued at `t` or later, each later than the one before.
abbrev pub Ascending : ℕ → List QueueEntry → Type 0
Ascending t [] = Unit
Ascending t (q ∷ qs) = (t ≤ q.enqueued_at) × Ascending (suc q.enqueued_at) qs

Ascending-lower : (t u : ℕ) (qs : List QueueEntry) → t ≤ u → Ascending u qs → Ascending t qs
Ascending-lower t u [] l h = tt
Ascending-lower t u (q ∷ qs) l (h, hs) = (omega arith, hs)

pub Ascending-select :
    (p : QueueEntry → Bool) (t : ℕ) (qs : List QueueEntry)
    → Ascending t qs
    → Ascending t (select p qs)
unfolding select
Ascending-select p t [] h = tt
Ascending-select p t (q ∷ qs) (h, hs) =
    if-cases (Ascending t) (p q) _ _ (λ _. (h, Ascending-select p (suc q.enqueued_at) qs hs))
      (λ _.
        Ascending-lower t (suc q.enqueued_at) (select p qs) (omega arith)
          (Ascending-select p (suc q.enqueued_at) qs hs))

pub Ascending-delete_rows :
    (p : QueueEntry → Bool) (t : ℕ) (qs : List QueueEntry)
    → Ascending t qs
    → Ascending t (delete_rows p qs)
unfolding delete_rows
Ascending-delete_rows p t [] h = tt
Ascending-delete_rows p t (q ∷ qs) (h, hs) =
    if-cases (Ascending t) (p q) _ _
      (λ _.
        Ascending-lower t (suc q.enqueued_at) (delete_rows p qs) (omega arith)
          (Ascending-delete_rows p (suc q.enqueued_at) qs hs))
      (λ _. (h, Ascending-delete_rows p (suc q.enqueued_at) qs hs))

comes_before-later :
    (le_id : Bytes → Bytes → Bool) (p q : QueueEntry)
    → q.enqueued_at < p.enqueued_at
    → comes_before le_id p q ≡ false
comes_before-later le_id p q h = ground arith

-- Of ascending rows the first comes first.
pub first_in_order-Ascending :
    (le_id : Bytes → Bytes → Bool) (t : ℕ) (q : QueueEntry) (qs : List QueueEntry)
    → Ascending t (q ∷ qs)
    → first_in_order le_id (q ∷ qs) ≡ some q
unfolding first_in_order
first_in_order-Ascending le_id t q [] h = refl
first_in_order-Ascending le_id t q (p ∷ qs) (h, (l, hs)) =
    ap (λ (o : Option QueueEntry). some (earlier_of le_id q o))
      (first_in_order-Ascending le_id (suc q.enqueued_at) p qs (l, hs))
    ∙ ap some (if-false (comes_before le_id p q) p q (comes_before-later le_id p q (omega arith)))

head_eq : (q h : QueueEntry) (qs ws : List QueueEntry) → q ∷ qs ≡ h ∷ ws → q ≡ h
head_eq q h qs ws e = cc

tail_eq : (q h : QueueEntry) (qs ws : List QueueEntry) → q ∷ qs ≡ h ∷ ws → qs ≡ ws
tail_eq q h qs ws e = cc

pub take_row-none :
    (id : Bytes) (q : QueueEntry) (qs : List QueueEntry)
    → take_row (has_request_id id) (q ∷ qs) ≡ none
    → (bytes_eq q.request_id id ≡ false) × (take_row (has_request_id id) qs ≡ none)
unfolding take_row
take_row-none id q qs h =
    if-cases
      (λ (o : Option QueueEntry).
        o ≡ none → (bytes_eq q.request_id id ≡ false) × (take_row (has_request_id id) qs ≡ none))
      (bytes_eq q.request_id id) (some q) (take_row (has_request_id id) qs) (λ _ k. cc)
      (λ n k. (n, k)) h

take_row-delete_rows :
    (id : Bytes) (p : QueueEntry → Bool) (qs : List QueueEntry)
    → take_row (has_request_id id) qs ≡ none
    → take_row (has_request_id id) (delete_rows p qs) ≡ none
unfolding take_row delete_rows
take_row-delete_rows id p [] h = refl
take_row-delete_rows id p (q ∷ qs) h =
    let (n, k) = take_row-none id q qs h in
    if-cases (λ (l : List QueueEntry). take_row (has_request_id id) l ≡ none) (p q) _ _
      (λ _. take_row-delete_rows id p qs k) (λ _. rw n (take_row-delete_rows id p qs k))

pub Unique-delete_rows :
    (p : QueueEntry → Bool) (qs : List QueueEntry) → Unique qs → Unique (delete_rows p qs)
unfolding delete_rows
Unique-delete_rows p [] u = tt
Unique-delete_rows p (q ∷ qs) (n, u) =
    if-cases Unique (p q) _ _ (λ _. Unique-delete_rows p qs u)
      (λ _. (take_row-delete_rows q.request_id p qs n, Unique-delete_rows p qs u))

-- A row that is not there is not updated, and not selected.
select-update_rows-none :
    (p : QueueEntry → Bool) (f : QueueEntry → QueueEntry) (id : Bytes) (qs : List QueueEntry)
    → take_row (has_request_id id) qs ≡ none
    → select p (update_rows (has_request_id id) f qs) ≡ select p qs
unfolding select update_rows
select-update_rows-none p f id [] h = refl
select-update_rows-none p f id (q ∷ qs) h =
    let (n, k) = take_row-none id q qs h in rw (n, select-update_rows-none p f id qs k)

select-none :
    (p : QueueEntry → Bool) (id : Bytes) (qs : List QueueEntry) (h : QueueEntry)
    (ws : List QueueEntry)
    → take_row (has_request_id id) qs ≡ none
    → select p qs ≡ h ∷ ws
    → bytes_eq h.request_id id ≡ false
unfolding select
select-none p id [] h ws e k = cc
select-none p id (q ∷ qs) h ws e k =
    if-cases (λ (l : List QueueEntry). l ≡ h ∷ ws → bytes_eq h.request_id id ≡ false) (p q) _ _
      (λ _ l.
        subst (λ (r : QueueEntry). bytes_eq r.request_id id ≡ false) (head_eq q h _ ws l)
          (take_row-none id q qs e).0)
      (λ _ l. select-none p id qs h ws (take_row-none id q qs e).1 l) k

apart : (a b : Bytes) → bytes_eq a b ≡ false → a ≢ b
apart a b n e = true_ne_false (sym ((bytes_eq_iff a b).1 e) ∙ n)
  where
    true_ne_false : true ≢ false
    true_ne_false q = cc

-- The head's grant takes its row from the selected ones, where the with_grant row is not selected.
pub select-update_rows-head :
    (p : QueueEntry → Bool) (f : QueueEntry → QueueEntry) (id : Bytes) (qs : List QueueEntry)
    (h : QueueEntry) (ws : List QueueEntry)
    → Unique qs
    → ((q : QueueEntry) → p (f q) ≡ false)
    → select p qs ≡ h ∷ ws
    → h.request_id ≡ id
    → select p (update_rows (has_request_id id) f qs) ≡ ws
unfolding select update_rows
select-update_rows-head p f id [] h ws u g e k = cc
select-update_rows-head p f id (q ∷ qs) h ws (n, u) g e k = elim (Bool-cases (p q)) [
  | inl y ↦
      (let l = sym (if-true (p q) _ _ y) ∙ e in
        let same : q.request_id ≡ id =
          ap (λ (r : QueueEntry). r.request_id) (head_eq q h _ ws l) ∙ k in
        rw ((bytes_eq_iff q.request_id id).1 same, g q)
          (select-update_rows-none p f id qs
              (subst (λ (i : Bytes). take_row (has_request_id i) qs ≡ none) same n)
            ∙ tail_eq q h _ ws l))
  | inr m ↦
      (let l = sym (if-false (p q) _ _ m) ∙ e in
        elim (Bool-cases (bytes_eq q.request_id id)) [
          | inl z ↦ absurd (
              apart h.request_id q.request_id (select-none p q.request_id qs h ws n l)
                (k ∙ sym ((bytes_eq_iff q.request_id id).0 z)))
          | inr z ↦ rw (z, m) (select-update_rows-head p f id qs h ws u g l k)
        ])
]

-- The row of a request is the selected one that has its id.
pub take_row-select :
    (p : QueueEntry → Bool) (id : Bytes) (qs : List QueueEntry) (q h : QueueEntry)
    (ws : List QueueEntry)
    → Unique qs
    → take_row (has_request_id id) qs ≡ some q
    → select p qs ≡ h ∷ ws
    → h.request_id ≡ id
    → (q ≡ h) × (p h ≡ true)
unfolding select take_row
take_row-select p id [] q h ws u e k r = cc
take_row-select p id (x ∷ qs) q h ws (n, u) e k r = elim (Bool-cases (bytes_eq x.request_id id)) [
  | inl y ↦ elim (Bool-cases (p x)) [
    | inl z ↦
        (let same = head_eq x h _ ws (sym (if-true (p x) _ _ z) ∙ k) in
          (
            some_eq x q (sym (if-true (bytes_eq x.request_id id) _ _ y) ∙ e) ∙ same,
            subst (λ (i : QueueEntry). p i ≡ true) same z,
          ))
    | inr z ↦ absurd (
        apart h.request_id x.request_id
          (select-none p x.request_id qs h ws n (sym (if-false (p x) _ _ z) ∙ k))
          (r ∙ sym ((bytes_eq_iff x.request_id id).0 y)))
  ]
  | inr m ↦ elim (Bool-cases (p x)) [
    | inl z ↦ absurd (
        apart x.request_id id m (
          ap (λ (i : QueueEntry). i.request_id) (head_eq x h _ ws (sym (if-true (p x) _ _ z) ∙ k))
          ∙ r))
    | inr z ↦
        take_row-select p id qs q h ws u (sym (if-false (bytes_eq x.request_id id) _ _ m) ∙ e)
          (sym (if-false (p x) _ _ z) ∙ k) r
  ]
]
  where
    some_eq : (a b : QueueEntry) → some a ≡ some b → b ≡ a
    some_eq a b h = cc
