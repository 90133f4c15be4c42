-- ===== src/Sql/Scans.antt =====
-- The scan for RETURNING over tokens that fit.
use duckgres.Base.{
  ℕ, suc, ◌<◌, ◌≡◌, refl, sym, ap, subst, ◌∙◌, Bool, true, false, not, ◌&&◌, ◌||◌, List, [], ◌∷◌,
  ◌++◌, append_assoc, append-nil, Option, some, Bytes, length, length-append, arith, ◌==◌,
}
use duckgres.Base.Text.{starts_with}
use duckgres.Sql.Cursor.{
  depth_after, is_returning, ends_word, is_ws_char, scan_for_returning, returning_word,
}
use duckgres.Sql.Progress.{returns_here, scan_total, scan_round}
use duckgres.Sql.Tokens.{Token, onto, onto-append, lead, behind, render, Fits, AllFit}
use duckgres.Sql.Rounds.{skip_token-token}

-- The parenthesis depth behind the tokens.
abbrev pub depth_of : List Token → ℕ → ℕ
depth_of [] d = d
depth_of (t ∷ ts) d = depth_of ts (depth_after (lead t) d)

-- The word RETURNING begins at none of the tokens.
abbrev pub IsQuiet : List Token → Bytes → Type 0
IsQuiet [] rest = Unit
IsQuiet (t ∷ ts) rest =
    (starts_with (render (t ∷ ts) ++ rest) returning_word ≡ false) × IsQuiet ts rest

-- The word RETURNING begins at none of the tokens at depth 0, where the scan is for the top level,
-- and else at none of them.
abbrev pub Unmatched : Bool → ℕ → List Token → Bytes → Type 0
Unmatched top depth [] rest = Unit
Unmatched top depth (t ∷ ts) rest =
    (((not top || depth == 0) && starts_with (render (t ∷ ts) ++ rest) returning_word) ≡ false)
    × Unmatched top (depth_after (lead t) depth) ts rest

-- The word RETURNING begins at a token only inside parentheses.
abbrev pub AllNested : List Token → Bytes → Type 0
AllNested ts rest = Unmatched true 0 ts rest

pub IsQuiet-Unmatched :
    (top : Bool) (ts : List Token) (depth : ℕ) (rest : Bytes)
    → IsQuiet ts rest
    → Unmatched top depth ts rest
IsQuiet-Unmatched top [] depth rest h = tt
IsQuiet-Unmatched top (t ∷ ts) depth rest (h, hs) = (
  none (not top || depth == 0) _ h,
  IsQuiet-Unmatched top ts (depth_after (lead t) depth) rest hs,
)
  where
    none : (a b : Bool) → b ≡ false → (a && b) ≡ false
    none true b k = k
    none false b k = refl

-- The scan with its own fuel.
abbrev pub scan_at : Bool → ℕ → Bytes → Bytes → Option Bool
scan_at top depth seen rest = scan_for_returning (suc (length rest)) top depth seen rest

scan-fuel :
    (f : ℕ) (top : Bool) (depth : ℕ) (seen rest : Bytes)
    → length rest < f
    → scan_for_returning f top depth seen rest ≡ scan_at top depth seen rest
scan-fuel f top depth seen rest h =
    let (b, p, q) = scan_total f (suc (length rest)) top depth seen rest h (omega arith) in
    p ∙ sym q

is_returning-none :
    (seen rest : Bytes) → starts_with rest returning_word ≡ false → is_returning seen rest ≡ false
unfolding is_returning
is_returning-none seen rest h = rw h refl

no_word :
    (top : Bool) (depth : ℕ) (seen : Bytes) (c : ℕ) (rest : Bytes)
    → ((not top || depth == 0) && starts_with (c ∷ rest) returning_word) ≡ false
    → returns_here top depth seen c rest ≡ false
no_word top depth seen c rest h =
    go (c == b'R') (not top || depth == 0) (starts_with (c ∷ rest) returning_word) _ h
      (is_returning-none seen (c ∷ rest))
  where
    go : (a b d e : Bool) → (b && d) ≡ false → (d ≡ false → e ≡ false) → ((a && b) && e) ≡ false
    go false b d e k l = refl
    go true false d e k l = refl
    go true true d e k l = l k

scan_at-token :
    (top : Bool) (depth : ℕ) (t : Token) (seen rest : Bytes)
    → ((not top || depth == 0) && starts_with (lead t ∷ (behind t ++ rest)) returning_word) ≡ false
    → Fits t seen rest
    → scan_at top depth seen (lead t ∷ (behind t ++ rest))
      ≡ scan_at top (depth_after (lead t) depth) (onto (lead t ∷ behind t) seen) rest
scan_at-token top depth t seen rest h fit =
    scan_round _ top depth seen (lead t) (behind t ++ rest) _ rest
      (skip_token-token t seen rest fit) (no_word top depth seen (lead t) (behind t ++ rest) h)
    ∙ scan-fuel _ top _ _ rest (omega (arith, length-append (behind t) rest))

pub onto-render :
    (t : Token) (ts : List Token) (seen : Bytes)
    → onto (render (t ∷ ts)) seen ≡ onto (render ts) (onto (behind t) (lead t ∷ seen))
onto-render t ts seen = onto-append (behind t) (render ts) (lead t ∷ seen)

-- Tokens where the scan finds nothing change nothing but the depth.
pub scan_at-render :
    (top : Bool) (ts : List Token) (depth : ℕ) (seen rest : Bytes)
    → Unmatched top depth ts rest
    → AllFit ts seen rest
    → scan_at top depth seen (render ts ++ rest)
      ≡ scan_at top (depth_of ts depth) (onto (render ts) seen) rest
scan_at-render top [] depth seen rest q fit = refl
scan_at-render top (t ∷ ts) depth seen rest (q, qs) (fit, fits) = rw (onto-render t ts seen) (
    ap (λ b. scan_at top depth seen (lead t ∷ b)) (append_assoc (behind t) (render ts) rest)
    ∙ scan_at-token top depth t seen (render ts ++ rest)
        (subst (λ b. ((not top || depth == 0) && starts_with (lead t ∷ b) returning_word) ≡ false)
          (append_assoc (behind t) (render ts) rest) q)
        fit
    ∙ scan_at-render top ts _ _ rest qs fits)

scan_at_end : (top : Bool) (depth : ℕ) (seen : Bytes) → scan_at top depth seen [] ≡ some false
unfolding scan_for_returning
scan_at_end top depth seen = refl

pub scan_at-Unmatched :
    (top : Bool) (ts : List Token) (depth : ℕ) (seen : Bytes)
    → Unmatched top depth ts []
    → AllFit ts seen []
    → scan_at top depth seen (render ts) ≡ some false
scan_at-Unmatched top ts depth seen q fit = rw (append-nil (render ts)) at (
    scan_at-render top ts depth seen [] q fit
    ∙ scan_at_end top (depth_of ts depth) (onto (render ts) seen))

is_returning_word :
    (w : ℕ) (seen rest : Bytes)
    → is_ws_char w ≡ true
    → ends_word rest ≡ true
    → is_returning (w ∷ seen) (returning_word ++ rest) ≡ true
unfolding is_returning
is_returning_word w seen rest h k = rw (h, k)

ws_plain :
    (w : ℕ) (seen rest : Bytes)
    → is_ws_char w ≡ true
    → Fits (Token.plain w) seen rest × (starts_with (w ∷ rest) returning_word ≡ false)
unfolding is_ws_char starts_with
ws_plain w seen rest h = (ground arith, ground arith)

depth_after-ws : (w depth : ℕ) → is_ws_char w ≡ true → depth_after w depth ≡ depth
unfolding is_ws_char depth_after
depth_after-ws w depth h = ground arith

pub scan_at_word :
    (top : Bool) (depth : ℕ) (seen : Bytes) (w : ℕ) (rest : Bytes)
    → is_ws_char w ≡ true
    → ends_word rest ≡ true
    → (not top || depth == 0) ≡ true
    → scan_at top depth seen (w ∷ (returning_word ++ rest)) ≡ some true
unfolding scan_for_returning
scan_at_word top depth seen w rest h k n =
    let p = ws_plain w seen (returning_word ++ rest) h in
    scan_at-token top depth (Token.plain w) seen (returning_word ++ rest) (rw (p.1, n)) p.0
    ∙ rw (depth_after-ws w depth h, n, h, k)
