-- ===== src/Base/Rows.antt =====
-- A database table as the list of its rows: what the `WHERE` clauses of the program's statements
-- select, delete, update and count.
use Prim.Native.Nat.{ℕ, ◌+◌, ◌≤◌}
use mathlib.Core.Path.{◌≡◌, refl, ap}
use mathlib.Core.Logic.{inl, inr}
use mathlib.Core.Bool.{Bool, true, false}
use mathlib.Core.Option.{Option, none, some}
use mathlib.Core.List.{List, [], ◌∷◌, ◌++◌}
use native.Mathlib.Omega.{arith}
use duckgres.Base.Tests.{if◌then◌else◌, Bool-cases}

module _ {ℓ} {A : Type ℓ} where
  -- `SELECT ... WHERE p`
  unfoldable pub select : (A → Bool) → List A → List A
  select p [] = []
  select p (r ∷ rs) = if p r then r ∷ select p rs else select p rs

  -- `... LIMIT 1`, without an order.
  unfoldable pub take_row : (A → Bool) → List A → Option A
  take_row p [] = none
  take_row p (r ∷ rs) = if p r then some r else take_row p rs

  -- `DELETE ... WHERE p`
  unfoldable pub delete_rows : (A → Bool) → List A → List A
  delete_rows p [] = []
  delete_rows p (r ∷ rs) = if p r then delete_rows p rs else r ∷ delete_rows p rs

  -- `UPDATE ... SET f WHERE p`
  unfoldable pub update_rows : (A → Bool) → (A → A) → List A → List A
  update_rows p f [] = []
  update_rows p f (r ∷ rs) = (if p r then f r else r) ∷ update_rows p f rs

  -- `SELECT count(*) WHERE p`
  unfoldable pub count_rows : (A → Bool) → List A → ℕ
  count_rows p [] = 0
  count_rows p (r ∷ rs) = (if p r then 1 else 0) + count_rows p rs

  pub count_rows-append :
      (p : A → Bool) (rs ss : List A) → count_rows p (rs ++ ss) ≡ count_rows p rs + count_rows p ss
  unfolding count_rows
  count_rows-append p [] ss = omega arith
  count_rows-append p (r ∷ rs) ss = omega (arith, count_rows-append p rs ss)

  -- A deletion adds to no count.
  pub count_rows-delete_rows :
      (p q : A → Bool) (rs : List A) → count_rows p (delete_rows q rs) ≤ count_rows p rs
  unfolding count_rows delete_rows
  count_rows-delete_rows p q [] = omega arith
  count_rows-delete_rows p q (r ∷ rs) = elim (Bool-cases (q r)) [
    | inl y ↦ rw y (omega (arith, count_rows-delete_rows p q rs))
    | inr n ↦ rw n (omega (arith, count_rows-delete_rows p q rs))
  ]

  pub count_rows_mono :
      (p q : A → Bool) (rs : List A)
      → ((r : A) → p r ≡ true → q r ≡ true)
      → count_rows p rs ≤ count_rows q rs
  unfolding count_rows
  count_rows_mono p q [] h = omega arith
  count_rows_mono p q (r ∷ rs) h = elim (Bool-cases (p r)) [
    | inl y ↦ rw (y, h r y) (omega (arith, count_rows_mono p q rs h))
    | inr n ↦ rw n (omega (arith, count_rows_mono p q rs h))
  ]

  -- Rows that are not selected can be deleted first.
  pub select-delete_rows :
      (p q : A → Bool) (rs : List A)
      → ((r : A) → q r ≡ true → p r ≡ false)
      → select p (delete_rows q rs) ≡ select p rs
  unfolding select delete_rows
  select-delete_rows p q [] h = refl
  select-delete_rows p q (r ∷ rs) h = elim (Bool-cases (q r)) [
    | inl y ↦ rw (y, h r y) (select-delete_rows p q rs h)
    | inr n ↦ rw n (elim (Bool-cases (p r)) [
      | inl y ↦ rw y (ap (◌∷◌ r) (select-delete_rows p q rs h))
      | inr m ↦ rw m (select-delete_rows p q rs h)
    ])
  ]
