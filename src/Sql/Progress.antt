-- ===== src/Sql/Progress.antt =====
-- Every skip goes forward and loses no byte, and the loops' fuel is enough.
use duckgres.Base.{
  ℕ, zero, suc, ◌≤◌, ◌<◌, ◌≡◌, refl, subst, ◌∙◌, Bool, true, false, [], ◌∷◌, some, Bytes, length,
  arith, inl, inr, Bool-cases, Option-cases, ◌==◌, not, ◌&&◌, ◌||◌,
}
use duckgres.Sql.Cursor.{
  Cursor, at, advance, skip_quoted, skip_line_comment, skip_block_comment, parse_dollar_tag,
  skip_dollar_quoted, skip_dollar, skip_opened, skip_token, follows, scan_for_returning,
  skip_balanced, depth_after, is_returning,
}

-- The whole text around a cursor.
abbrev pub unwind : Bytes → Bytes → Bytes
unwind [] rest = rest
unwind (c ∷ seen) rest = unwind seen (c ∷ rest)

-- The cursor lies at or behind the place between `seen` and `rest`, in the same text.
abbrev pub Moves : Bytes → Bytes → Cursor → Type 0
Moves seen rest (at s r) = (unwind s r ≡ unwind seen rest) × (length r ≤ length rest)

pub Moves-weaken :
    (seen : Bytes) (c : ℕ) (rest : Bytes) (k : Cursor)
    → Moves (c ∷ seen) rest k
    → Moves seen (c ∷ rest) k
Moves-weaken seen c rest (at s r) m = (m.0, omega arith)

pub advance-Moves : (n : ℕ) (seen rest : Bytes) → Moves seen rest (advance n seen rest)
unfolding advance
advance-Moves zero seen rest = (refl, omega arith)
advance-Moves (suc n) seen [] = (refl, omega arith)
advance-Moves (suc n) seen (c ∷ rest) =
    Moves-weaken seen c rest (advance n (c ∷ seen) rest) (advance-Moves n (c ∷ seen) rest)

pub skip_quoted-Moves :
    (q : ℕ) (e : Bool) (seen rest : Bytes) → Moves seen rest (skip_quoted q e seen rest)
unfolding skip_quoted
skip_quoted-Moves q e seen [] = (refl, omega arith)
skip_quoted-Moves q e seen (c ∷ []) = (refl, omega arith)
skip_quoted-Moves q e seen (c ∷ d ∷ rest) = ground (
  arith,
  Moves-weaken seen c (d ∷ rest) _ (skip_quoted-Moves q e (c ∷ seen) (d ∷ rest)),
  Moves-weaken seen c (d ∷ rest) _
      (Moves-weaken (c ∷ seen) d rest _ (skip_quoted-Moves q e (d ∷ c ∷ seen) rest)),
)

pub skip_line_comment-Moves : (seen rest : Bytes) → Moves seen rest (skip_line_comment seen rest)
unfolding skip_line_comment
skip_line_comment-Moves seen [] = (refl, omega arith)
skip_line_comment-Moves seen (c ∷ rest) =
    ground (arith, Moves-weaken seen c rest _ (skip_line_comment-Moves (c ∷ seen) rest))

pub skip_block_comment-Moves : (seen rest : Bytes) → Moves seen rest (skip_block_comment seen rest)
unfolding skip_block_comment
skip_block_comment-Moves seen [] = (refl, omega arith)
skip_block_comment-Moves seen (c ∷ []) = (refl, omega arith)
skip_block_comment-Moves seen (c ∷ d ∷ rest) =
    ground
      (arith, Moves-weaken seen c (d ∷ rest) _ (skip_block_comment-Moves (c ∷ seen) (d ∷ rest)))

skip_dollar_quoted-Moves :
    (tag seen rest : Bytes) → Moves seen rest (skip_dollar_quoted tag seen rest)
unfolding skip_dollar_quoted
skip_dollar_quoted-Moves tag seen [] = (refl, omega arith)
skip_dollar_quoted-Moves tag seen (c ∷ rest) = ground (
  arith,
  advance-Moves (length tag) seen (c ∷ rest),
  Moves-weaken seen c rest _ (skip_dollar_quoted-Moves tag (c ∷ seen) rest),
)

pub Moves-trans :
    (seen rest s r : Bytes) (k : Cursor)
    → Moves seen rest (at s r)
    → Moves s r k
    → Moves seen rest k
Moves-trans seen rest s r (at s' r') m n = (n.0 ∙ m.0, omega arith)

parse_dollar_tag-cons :
    (c : ℕ) (rest : Bytes) {tag : Bytes}
    → parse_dollar_tag (c ∷ rest) ≡ some tag
    → (t : Bytes) × (tag ≡ c ∷ t)
unfolding parse_dollar_tag
parse_dollar_tag-cons c rest h = ground arith

skip_dollar-Moves :
    (seen : Bytes) (c : ℕ) (rest : Bytes) → Moves (c ∷ seen) rest (skip_dollar seen c rest)
unfolding skip_dollar
skip_dollar-Moves seen c rest = elim (Option-cases (parse_dollar_tag (c ∷ rest))) [
  | inl e ↦ rw (e, skip_dollar) (refl, omega arith)
  | inr (tag, e) ↦
      tagged tag (parse_dollar_tag-cons c rest e).0 (parse_dollar_tag-cons c rest e).1 e
]
  where
    resume :
        (tag : Bytes) (k : Cursor)
        → Moves (c ∷ seen) rest k
        → Moves (c ∷ seen) rest (elim k [ at s r ↦ skip_dollar_quoted tag s r ])
    resume tag (at s r) m = Moves-trans (c ∷ seen) rest s r _ m (skip_dollar_quoted-Moves tag s r)

    tagged :
        (tag t : Bytes)
        → tag ≡ c ∷ t
        → parse_dollar_tag (c ∷ rest) ≡ some tag
        → Moves (c ∷ seen) rest (skip_dollar seen c rest)
    tagged tag t et e =
        rw (e, skip_dollar, et)
          (unfold advance in
            resume tag (advance (length t) (c ∷ seen) rest)
              (advance-Moves (length t) (c ∷ seen) rest))

skip_opened-Moves :
    (skip : Bytes → Bytes → Cursor) (d : ℕ) (seen : Bytes) (c : ℕ) (rest : Bytes)
    → ((s r : Bytes) → Moves s r (skip s r))
    → Moves (c ∷ seen) rest (skip_opened skip d seen c rest)
unfolding skip_opened
skip_opened-Moves skip d seen c [] h = (refl, omega arith)
skip_opened-Moves skip d seen c (e ∷ rest) h =
    ground (arith, Moves-weaken (c ∷ seen) e rest _ (h (e ∷ c ∷ seen) rest))

-- A round of the shared cases consumes the byte at the cursor at least.
pub skip_token-Moves :
    (seen : Bytes) (c : ℕ) (rest : Bytes) → Moves (c ∷ seen) rest (skip_token seen c rest)
unfolding skip_token
skip_token-Moves seen c rest = ground (
  arith,
  skip_quoted-Moves b'\'' (follows b'E' seen) (c ∷ seen) rest,
  skip_quoted-Moves b'"' false (c ∷ seen) rest,
  skip_dollar-Moves seen c rest,
  skip_opened-Moves skip_line_comment b'-' seen c rest skip_line_comment-Moves,
  skip_opened-Moves skip_block_comment b'*' seen c rest skip_block_comment-Moves,
)

-- The test of the loop at a byte.
abbrev pub returns_here : Bool → ℕ → Bytes → ℕ → Bytes → Bool
returns_here top depth seen c rest =
    (c == b'R' && (not top || depth == 0)) && is_returning seen (c ∷ rest)

-- Fuel above the number of bytes is enough, and more makes no difference.
pub scan_total :
    (f g : ℕ) (top : Bool) (depth : ℕ) (seen rest : Bytes)
    → length rest < f
    → length rest < g
    → (b : Bool) × (scan_for_returning f top depth seen rest ≡ some b)
      × (scan_for_returning g top depth seen rest ≡ some b)
unfolding scan_for_returning
scan_total zero g top depth seen rest h k = elim h [ ]
scan_total (suc f) zero top depth seen rest h k = elim k [ ]
scan_total (suc f) (suc g) top depth seen [] h k = (false, refl, refl)
scan_total (suc f) (suc g) top depth seen (c ∷ rest) h k =
    round (skip_token seen c rest) refl (scan_total f g top (depth_after c depth))
  where
    round :
        (k : Cursor)
        → skip_token seen c rest ≡ k
        → ((s r : Bytes)
            → length r < f
            → length r < g
            → (b : Bool) × (scan_for_returning f top (depth_after c depth) s r ≡ some b)
              × (scan_for_returning g top (depth_after c depth) s r ≡ some b))
        → (b : Bool) × (scan_for_returning (suc f) top depth seen (c ∷ rest) ≡ some b)
          × (scan_for_returning (suc g) top depth seen (c ∷ rest) ≡ some b)
    round (at s r) e ih =
        let m = subst (Moves (c ∷ seen) rest) e (skip_token-Moves seen c rest) in
        let (b, p, q) = ih s r (omega (arith, m.1)) (omega (arith, m.1)) in
        elim (Bool-cases (returns_here top depth seen c rest)) [
          | inl y ↦ (true, rw y, rw y)
          | inr n ↦ (b, rw (n, e) p, rw (n, e) q)
        ]

pub skip_balanced_round :
    (f depth : ℕ) (seen : Bytes) (c : ℕ) (rest s r : Bytes)
    → skip_token seen c rest ≡ at s r
    → skip_balanced (suc f) (suc depth) seen (c ∷ rest)
      ≡ skip_balanced f (depth_after c (suc depth)) s r
unfolding skip_balanced
skip_balanced_round f depth seen c rest s r e = rw (e, skip_balanced)

pub skip_balanced_total :
    (f g : ℕ) (depth : ℕ) (seen rest : Bytes)
    → length rest < f
    → length rest < g
    → (k : Cursor) × (skip_balanced f depth seen rest ≡ some k)
      × (skip_balanced g depth seen rest ≡ some k)
      × Moves seen rest k
unfolding skip_balanced
skip_balanced_total zero g depth seen rest h k = elim h [ ]
skip_balanced_total (suc f) zero depth seen rest h k = elim k [ ]
skip_balanced_total (suc f) (suc g) depth seen [] h k =
    (at seen [], refl, refl, (refl, omega arith))
skip_balanced_total (suc f) (suc g) zero seen (c ∷ rest) h k =
    (at seen (c ∷ rest), refl, refl, (refl, omega arith))
skip_balanced_total (suc f) (suc g) (suc depth) seen (c ∷ rest) h k =
    round (skip_token seen c rest) refl (skip_balanced_total f g (depth_after c (suc depth)))
  where
    round :
        (k : Cursor)
        → skip_token seen c rest ≡ k
        → ((s r : Bytes)
            → length r < f
            → length r < g
            → (j : Cursor) × (skip_balanced f (depth_after c (suc depth)) s r ≡ some j)
              × (skip_balanced g (depth_after c (suc depth)) s r ≡ some j)
              × Moves s r j)
        → (j : Cursor) × (skip_balanced (suc f) (suc depth) seen (c ∷ rest) ≡ some j)
          × (skip_balanced (suc g) (suc depth) seen (c ∷ rest) ≡ some j)
          × Moves seen (c ∷ rest) j
    round (at s r) e ih =
        let m = subst (Moves (c ∷ seen) rest) e (skip_token-Moves seen c rest) in
        let (j, p, q, n) = ih s r (omega (arith, m.1)) (omega (arith, m.1)) in
        (
          j,
          skip_balanced_round f depth seen c rest s r e ∙ p,
          skip_balanced_round g depth seen c rest s r e ∙ q,
          Moves-trans seen (c ∷ rest) s r j (Moves-weaken seen c rest (at s r) m) n,
        )

pub scan_round :
    (f : ℕ) (top : Bool) (depth : ℕ) (seen : Bytes) (c : ℕ) (rest s r : Bytes)
    → skip_token seen c rest ≡ at s r
    → returns_here top depth seen c rest ≡ false
    → scan_for_returning (suc f) top depth seen (c ∷ rest)
      ≡ scan_for_returning f top (depth_after c depth) s r
unfolding scan_for_returning
scan_round f top depth seen c rest s r e n = rw (n, e, scan_for_returning)
