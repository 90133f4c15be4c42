-- ===== src/Session/Queue.antt =====
-- The queue of waiters: who is granted a slot, when, and how many.
use duckgres.Base.{
  ℕ, suc, ◌+◌, ◌-◌, ◌≤◌, ◌≡◌, refl, sym, ap, subst, ◌∙◌, ◌⊎◌, Bool, true, false, List, [], ◌∷◌,
  ◌++◌, append_assoc, append-nil, length, ◌==◌, arith, inl, inr, Bool-cases, if-cases,
}
use duckgres.Base.Int.{ℤ, pos, negsuc, non_positive, to_nat}
use duckgres.Session.Slots.{
  Slots, has_room, grant_loop, grant_waiters, set_max_connections, Admission, draining,
  acquire_slot, member, remove_waiter, waiter_done, release_slot, fail_waiters,
}

-- What `grant_loop` does: it grants a prefix of the queue, in order, and stops when the queue is
-- empty or the slots are full; a slot that it hands out lies within the limit.
abbrev pub Grants : ℤ → ℕ → List ℕ → List ℕ → ℕ × List ℕ × List ℕ → Type 0
Grants m a ws g r =
    (taken : List ℕ) × (ws ≡ taken ++ r.1)
    × (r.2 ≡ g ++ taken)
    × (r.0 ≡ a + length taken)
    × ((r.1 ≡ []) ⊎ (has_room m r.0 ≡ false))
    × ((r.0 ≡ a) ⊎ (non_positive m ≡ true) ⊎ (r.0 ≤ to_nat m))

pub grant_loop-Grants : (m : ℤ) (a : ℕ) (ws g : List ℕ) → Grants m a ws g (grant_loop m a ws g)
unfolding grant_loop
grant_loop-Grants m a [] g = ([], refl, sym (append-nil g), omega arith, inl refl, inl refl)
grant_loop-Grants m a (w ∷ ws) g = elim (Bool-cases (has_room m a)) [
  | inr n ↦ rw n ([], refl, sym (append-nil g), omega arith, inr n, inl refl)
  | inl y ↦ rw y (
      extend (grant_loop m (a + 1) ws (g ++ w ∷ [])) y
        (grant_loop-Grants m (a + 1) ws (g ++ w ∷ [])))
]
  where
    extend :
        (r : ℕ × List ℕ × List ℕ)
        → has_room m a ≡ true
        → Grants m (a + 1) ws (g ++ w ∷ []) r
        → Grants m a (w ∷ ws) g r
    extend r y (taken, e, f, n, stop, within) = (
      w ∷ taken,
      ap (◌∷◌ w) e,
      f ∙ append_assoc g (w ∷ []) taken,
      omega (arith, n),
      stop,
      elim within [ inl e' ↦ inr (room m y e') | inr h ↦ inr h ],
    )
      where
        room :
            (m : ℤ) → has_room m a ≡ true → r.0 ≡ a + 1 → (non_positive m ≡ true) ⊎ (r.0 ≤ to_nat m)
        room (pos k) y e' = ground arith
        room (negsuc k) y e' = inl refl

-- The numbers ascend from `lo` and stay below `hi`.
abbrev pub Between : ℕ → ℕ → List ℕ → Type 0
Between lo hi [] = lo ≤ hi
Between lo hi (x ∷ xs) = (lo ≤ x) × Between (suc x) hi xs

Between-le : (lo hi : ℕ) (xs : List ℕ) → Between lo hi xs → lo ≤ hi
Between-le lo hi [] h = h
Between-le lo hi (x ∷ xs) (h, t) = omega (arith, Between-le (suc x) hi xs t)

Between-lower : (lo lo' hi : ℕ) (xs : List ℕ) → lo ≤ lo' → Between lo' hi xs → Between lo hi xs
Between-lower lo lo' hi [] l h = omega arith
Between-lower lo lo' hi (x ∷ xs) l (h, t) = (omega arith, t)

Between-push : (lo hi : ℕ) (xs : List ℕ) → Between lo hi xs → Between lo (suc hi) (xs ++ hi ∷ [])
Between-push lo hi [] h = (h, omega arith)
Between-push lo hi (x ∷ xs) (h, t) = (h, Between-push (suc x) hi xs t)

Between-remove : (w lo hi : ℕ) (xs : List ℕ) → Between lo hi xs → Between lo hi (remove_waiter w xs)
unfolding remove_waiter
Between-remove w lo hi [] h = h
Between-remove w lo hi (x ∷ xs) (h, t) = elim (Bool-cases (x == w)) [
  | inl y ↦ rw y (Between-lower lo (suc x) hi xs (omega arith) t)
  | inr n ↦ rw n (h, Between-remove w (suc x) hi xs t)
]

pub remove_waiter-nil : (w : ℕ) → remove_waiter w [] ≡ []
unfolding remove_waiter
remove_waiter-nil w = refl

Between-suffix :
    (lo hi : ℕ) (gs xs ys : List ℕ)
    → ((k : ℕ) → Between k hi xs → Between k hi ys)
    → Between lo hi (gs ++ xs)
    → Between lo hi (gs ++ ys)
Between-suffix lo hi [] xs ys f h = f lo h
Between-suffix lo hi (g ∷ gs) xs ys f (h, t) = (h, Between-suffix (suc g) hi gs xs ys f t)

-- Nobody waits while there is room, and the waiters were granted, and wait, in the order in which
-- they came.
pub record IsFair (s : Slots) : Type 0 where
  pub settled :
      (s.closed ≡ true) ⊎ (s.waiters ≡ []) ⊎ (has_room s.max_connections s.active_slots ≡ false)
  pub ordered : Between 0 s.next_waiter (s.granted ++ s.waiters)

pub grant_waiters-IsFair :
    (s : Slots) → Between 0 s.next_waiter (s.granted ++ s.waiters) → IsFair (grant_waiters s)
unfolding grant_waiters
grant_waiters-IsFair s h =
    if-cases IsFair s.closed s
      (record s {
        active_slots = (grant_loop s.max_connections s.active_slots s.waiters s.granted).0;
        waiters = (grant_loop s.max_connections s.active_slots s.waiters s.granted).1;
        granted = (grant_loop s.max_connections s.active_slots s.waiters s.granted).2;
      })
      (λ y. record { settled = inl y; ordered = h })
      (λ n.
        loop (grant_loop s.max_connections s.active_slots s.waiters s.granted)
          (grant_loop-Grants s.max_connections s.active_slots s.waiters s.granted))
  where
    loop :
        (r : ℕ × List ℕ × List ℕ)
        → Grants s.max_connections s.active_slots s.waiters s.granted r
        → IsFair (record s { active_slots = r.0; waiters = r.1; granted = r.2 })
    loop r (taken, e, f, n, stop, within) = record {
      settled = inr stop;
      ordered =
          rw (f, append_assoc s.granted taken r.1)
            (subst (λ x. Between 0 s.next_waiter (s.granted ++ x)) e h);
    }

pub set_max_connections-IsFair : (n : ℤ) (s : Slots) → IsFair s → IsFair (set_max_connections n s)
unfolding set_max_connections
set_max_connections-IsFair n s h = grant_waiters-IsFair (record s { max_connections = n }) h.ordered

pub release_slot-IsFair : (s : Slots) → IsFair s → IsFair (release_slot s)
unfolding release_slot
release_slot-IsFair s h =
    grant_waiters-IsFair (record s { active_slots = s.active_slots - 1 }) h.ordered

pub acquire_slot-IsFair : (s : Slots) → IsFair s → IsFair (acquire_slot s).0
unfolding acquire_slot
acquire_slot-IsFair s h =
    if-cases (λ (r : Slots × Admission). IsFair r.0) s.closed (s, draining) _ (λ y. h)
      (λ c.
        if-cases (λ (r : Slots × Admission). IsFair r.0) (has_room s.max_connections s.active_slots)
          _ _ (λ y. record { settled = inr (inl (nobody c y h.settled)); ordered = h.ordered })
          (λ n. record {
            settled = inr (inr n);
            ordered =
                subst (λ l. Between 0 (suc s.next_waiter) l)
                  (append_assoc s.granted s.waiters (s.next_waiter ∷ []))
                  (Between-push 0 s.next_waiter (s.granted ++ s.waiters) h.ordered);
          }))
  where
    nobody :
        s.closed ≡ false
        → has_room s.max_connections s.active_slots ≡ true
        → (s.closed ≡ true) ⊎ (s.waiters ≡ []) ⊎ (has_room s.max_connections s.active_slots ≡ false)
        → s.waiters ≡ []
    nobody c y (inl c') = cc
    nobody c y (inr (inl e)) = e
    nobody c y (inr (inr n)) = cc

pub waiter_done-IsFair : (d : Bool) (w : ℕ) (s : Slots) → IsFair s → IsFair (waiter_done d w s).0
unfolding waiter_done
waiter_done-IsFair d w s h =
    if-cases (λ (r : Slots × Admission). IsFair r.0) (member w s.granted) _ _ (λ _. h)
      (λ _. record {
        settled = left_alone h.settled;
        ordered =
            Between-suffix 0 s.next_waiter s.granted s.waiters (remove_waiter w s.waiters)
              (λ k. Between-remove w k s.next_waiter s.waiters) h.ordered;
      })
  where
    left_alone :
        (s.closed ≡ true) ⊎ (s.waiters ≡ []) ⊎ (has_room s.max_connections s.active_slots ≡ false)
        → (s.closed ≡ true)
          ⊎ (remove_waiter w s.waiters ≡ [])
          ⊎ (has_room s.max_connections s.active_slots ≡ false)
    left_alone (inl c) = inl c
    left_alone (inr (inl e)) = inr (inl (ap (remove_waiter w) e ∙ remove_waiter-nil w))
    left_alone (inr (inr n)) = inr (inr n)

pub fail_waiters-IsFair : (s : Slots) → IsFair s → IsFair (fail_waiters s)
unfolding fail_waiters
fail_waiters-IsFair s h = record {
  settled = inr (inl refl);
  ordered =
      Between-suffix 0 s.next_waiter s.granted s.waiters []
        (λ k b. Between-le k s.next_waiter s.waiters b) h.ordered;
}
