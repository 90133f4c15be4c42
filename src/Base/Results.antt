-- ===== src/Base/Results.antt =====
-- The outcome of Go code: a value, an error value or a run-time panic. `timeout` is no outcome of
-- the code: a loop of the model ran out of fuel.
use mathlib.Core.Path.{◌≡◌, refl}
use mathlib.Core.Logic.{◌≢◌}

pub data Result {ℓ} (E : Type ℓ) (A : Type ℓ) : Type ℓ where
  ok : A → Result E A
  err : E → Result E A
  panic : Result E A
  timeout : Result E A

module _ {ℓ} {E A B : Type ℓ} where
  infixl 5 ◌>>=◌
  abbrev pub ◌>>=◌ : Result E A → (A → Result E B) → Result E B
  ok a >>= f = f a
  err e >>= f = err e
  panic >>= f = panic
  timeout >>= f = timeout

  pub >>=-ne-timeout :
      (m : Result E A) (f : A → Result E B)
      → m ≢ timeout
      → ((a : A) → f a ≢ timeout)
      → (m >>= f) ≢ timeout
  >>=-ne-timeout (ok a) f h k = k a
  >>=-ne-timeout (err e) f h k = λ q. cc
  >>=-ne-timeout panic f h k = λ q. cc
  >>=-ne-timeout timeout f h k = absurd (h refl)

  -- The value between the two parts of a chain that gives `c`.
  abbrev pub Between : Result E A → (A → Result E B) → B → Type ℓ
  Between first then_ c = (v : A) × (first ≡ ok v) × (then_ v ≡ ok c)

  pub >>=-Between :
      (first : Result E A) (then_ : A → Result E B) (c : B)
      → (first >>= then_) ≡ ok c
      → Between first then_ c
  >>=-Between timeout then_ c q = cc
  >>=-Between panic then_ c q = cc
  >>=-Between (err e) then_ c q = cc
  >>=-Between (ok v) then_ c q = (v, refl, q)

pub ok-ne-timeout {ℓ} : {E A : Type ℓ} (a : A) → ◌≢◌ {A = Result E A} (ok a) timeout
ok-ne-timeout a q = cc
