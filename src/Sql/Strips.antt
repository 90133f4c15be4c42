-- ===== src/Sql/Strips.antt =====
-- Stripping comments, blanks and parentheses from the start of a query ends, and never lengthens it.
use duckgres.Base.{
  ℕ, zero, suc, ◌≤◌, ◌<◌, ◌≡◌, refl, ap, ◌∙◌, ◌⊎◌, Bool, true, false, [], ◌∷◌, Option, none, some,
  Bytes, length, arith, inl, inr, Bool-cases, bytes_eq, bytes_eq_iff, if◌then◌else◌,
}
use duckgres.Base.Text.{trim_left, trim_right, trim_space, is_space}
use duckgres.Sql.Classify.{
  after_close, after_newline, strip_comments, strip_leading_comments, strip_noise,
  strip_leading_noise, is_noise,
}

-- The text is cut, or is as it was.
abbrev pub Cut : Bytes → Bytes → Type 0
Cut q r = (r ≡ q) ⊎ (length r < length q)

Cut-trans : (p q r : Bytes) → Cut p q → Cut q r → Cut p r
Cut-trans p q r (inl e) (inl e') = inl (e' ∙ e)
Cut-trans p q r (inl e) (inr l) = inr (omega (arith, ap length e))
Cut-trans p q r (inr l) (inl e) = inr (omega (arith, ap length e))
Cut-trans p q r (inr l) (inr l') = inr (omega arith)

pub Cut-le : (q r : Bytes) → Cut q r → length r ≤ length q
Cut-le q r (inl e) = omega (arith, ap length e)
Cut-le q r (inr l) = omega arith

Cut-drop : (c : ℕ) (q r : Bytes) → Cut q r → Cut (c ∷ q) r
Cut-drop c q r h = inr (omega (arith, Cut-le q r h))

trim_left-Cut : (p : ℕ → Bool) (q : Bytes) → Cut q (trim_left p q)
unfolding trim_left
trim_left-Cut p [] = inl refl
trim_left-Cut p (c ∷ q) = elim (Bool-cases (p c)) [
  | inl y ↦ rw y (Cut-drop c q (trim_left p q) (trim_left-Cut p q))
  | inr n ↦ rw n (inl refl)
]

trim_right-Cut : (p : ℕ → Bool) (q : Bytes) → Cut q (trim_right p q)
unfolding trim_right
trim_right-Cut p [] = inl refl
trim_right-Cut p (c ∷ q) = last (trim_right p q) (trim_right-Cut p q)
  where
    last :
        (r : Bytes)
        → Cut q r
        → Cut (c ∷ q) (elim r [ [] ↦ if p c then [] else c ∷ [] | d ∷ r ↦ c ∷ d ∷ r ])
    last [] (inl e) = elim (Bool-cases (p c)) [
      | inl y ↦ rw y (inr (omega arith))
      | inr n ↦ rw n (inl (ap (◌∷◌ c) e))
    ]
    last [] (inr l) = elim (Bool-cases (p c)) [
      | inl y ↦ rw y (inr (omega arith))
      | inr n ↦ rw n (inr (omega arith))
    ]
    last (d ∷ r) (inl e) = inl (ap (◌∷◌ c) e)
    last (d ∷ r) (inr l) = inr (omega arith)

trim_space-Cut : (q : Bytes) → Cut q (trim_space q)
unfolding trim_space
trim_space-Cut q =
    Cut-trans q (trim_left is_space q) _ (trim_left-Cut is_space q)
      (trim_right-Cut is_space (trim_left is_space q))

after_close_shorter : (q : Bytes) {r : Bytes} → after_close q ≡ some r → length r < length q
unfolding after_close
after_close_shorter [] h = cc
after_close_shorter (c ∷ []) h = cc
after_close_shorter (c ∷ d ∷ q) {r} h = ground (arith, after_close_shorter (d ∷ q) {r = r})

after_newline_shorter : (q : Bytes) {r : Bytes} → after_newline q ≡ some r → length r < length q
unfolding after_newline
after_newline_shorter [] h = cc
after_newline_shorter (c ∷ q) {r} h = ground (arith, after_newline_shorter q {r = r})

-- The fuel is enough, and what is left is the query or a shorter text.
abbrev pub Strips : Bytes → Option Bytes → Type 0
Strips q o = (r : Bytes) × (o ≡ some r) × Cut q r

Strips-if :
    (q : Bytes) (b : Bool) {x y : Option Bytes}
    → Strips q x
    → Strips q y
    → Strips q (if b then x else y)
Strips-if q true g h = g
Strips-if q false g h = h

strip_comments-Strips : (f : ℕ) (q : Bytes) → length q < f → Strips q (strip_comments f q)
unfolding strip_comments
strip_comments-Strips zero q h = elim h [ ]
strip_comments-Strips (suc f) q h =
    Strips-if q _ (block (after_close (trim_space q)) refl (strip_comments-Strips f)) (
      Strips-if q _ (line (after_newline (trim_space q)) refl (strip_comments-Strips f))
        (trim_space q, refl, cut))
  where
    cut : Cut q (trim_space q)
    cut = trim_space-Cut q

    behind :
        (s : Bytes)
        → length s < length (trim_space q)
        → Strips s (strip_comments f s)
        → Strips q (strip_comments f s)
    behind s l (r, e, c) = (r, e, inr (omega (arith, Cut-le q (trim_space q) cut, Cut-le s r c)))

    block :
        (o : Option Bytes)
        → after_close (trim_space q) ≡ o
        → ((s : Bytes) → length s < f → Strips s (strip_comments f s))
        → Strips q (elim o [ none ↦ some (trim_space q) | some s ↦ strip_comments f s ])
    block none e ih = (trim_space q, refl, cut)
    block (some s) e ih =
        let l = after_close_shorter (trim_space q) e in
        behind s l (ih s (omega (arith, l, Cut-le q (trim_space q) cut)))

    line :
        (o : Option Bytes)
        → after_newline (trim_space q) ≡ o
        → ((s : Bytes) → length s < f → Strips s (strip_comments f s))
        → Strips q (elim o [ none ↦ some [] | some s ↦ strip_comments f s ])
    line none e ih = ([], refl, empty q)
      where
        empty : (q : Bytes) → Cut q []
        empty [] = inl refl
        empty (c ∷ q) = inr (omega arith)
    line (some s) e ih =
        let l = after_newline_shorter (trim_space q) e in
        behind s l (ih s (omega (arith, l, Cut-le q (trim_space q) cut)))

pub strip_leading_comments-Strips : (q : Bytes) → Strips q (strip_leading_comments q)
unfolding strip_leading_comments
strip_leading_comments-Strips q = strip_comments-Strips (suc (length q)) q (omega arith)

-- The first round may leave the text alone; after that each round shortens it.
strip_noise_returns : (f : ℕ) (q : Bytes) → length q < f → (r : Bytes) × (strip_noise f q ≡ some r)
unfolding strip_noise
strip_noise_returns zero q h = elim h [ ]
strip_noise_returns (suc f) q h = round (strip_leading_comments-Strips q) (strip_noise_returns f)
  where
    choose :
        (n : Bytes)
        → Cut q n
        → ((s : Bytes) → length s < f → (r : Bytes) × (strip_noise f s ≡ some r))
        → (r : Bytes) × ((if bytes_eq n q then some n else strip_noise f n) ≡ some r)
    choose n (inl e) ih = (n, rw ((bytes_eq_iff n q).1 e))
    choose n (inr l) ih =
        let (r, p) = ih n (omega arith) in
        elim (Bool-cases (bytes_eq n q)) [ inl y ↦ (n, rw y) | inr m ↦ (r, rw m p) ]

    round :
        Strips q (strip_leading_comments q)
        → ((s : Bytes) → length s < f → (r : Bytes) × (strip_noise f s ≡ some r))
        → (r : Bytes) × (strip_noise (suc f) q ≡ some r)
    round (t, e, c) ih =
        let (r, p) =
          choose (trim_left is_noise t) (Cut-trans q t _ c (trim_left-Cut is_noise t)) ih in
        (r, rw (e, strip_noise) p)

pub strip_leading_noise_returns : (q : Bytes) → (r : Bytes) × (strip_leading_noise q ≡ some r)
unfolding strip_leading_noise
strip_leading_noise_returns q = strip_noise_returns (suc (suc (length q))) q (omega arith)
