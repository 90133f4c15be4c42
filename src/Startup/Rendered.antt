-- ===== src/Startup/Rendered.antt =====
-- The options as a client writes them: `-c name=value`, with the blanks and backslashes of a token
-- escaped.
use duckgres.Base.{
  ℕ, ◌≡◌, refl, sym, ap, ◌∙◌, Bool, false, ◌||◌, List, [], ◌∷◌, ◌++◌, append_assoc, append-nil,
  Option, none, some, Bytes, codes, ◌==◌, if◌then◌else◌, inl, inr, Bool-cases, if-false,
}
use duckgres.Base.Text.{starts_with, trim_space, trim_left, trim_right, is_space}
use duckgres.Base.Dict.{insert}
use duckgres.Auth.Limiter.{byte_keys}
use duckgres.Startup.Options.{
  is_separator, split_loop, split_startup_options, cut_equals, Settings, put_setting, set_option,
  parse_tokens, parse_startup_options,
}

abbrev pub is_special : ℕ → Bool
is_special c = c == b'\\' || is_separator c

unfoldable pub escape : Bytes → Bytes
escape [] = []
escape (c ∷ t) = if is_special c then b'\\' ∷ c ∷ escape t else c ∷ escape t

-- Tokens, each with a space behind it.
unfoldable pub render : List Bytes → Bytes
unfolding escape
render [] = []
render (t ∷ ts) = escape t ++ b' ' ∷ render ts

split_loop-plain :
    (c : ℕ) (s b : Bytes)
    → (c == b'\\') ≡ false
    → is_separator c ≡ false
    → split_loop (c ∷ s) b false ≡ split_loop s (b ++ c ∷ []) false
unfolding split_loop
split_loop-plain c s b n m = rw (n, m)

split_loop-escape :
    (t rest b : Bytes) → split_loop (escape t ++ rest) b false ≡ split_loop rest (b ++ t) false
unfolding split_loop escape
split_loop-escape [] rest b = ap (λ (x : Bytes). split_loop rest x false) (sym (append-nil b))
split_loop-escape (c ∷ t) rest b =
    let onward =
      split_loop-escape t rest (b ++ c ∷ [])
      ∙ ap (λ (x : Bytes). split_loop rest x false) (append_assoc b (c ∷ []) t) in
    elim (Bool-cases (c == b'\\')) [
      | inl y ↦ rw y onward
      | inr n ↦ elim (Bool-cases (is_separator c)) [
        | inl z ↦ rw (n, z) onward
        | inr m ↦
            ap (λ (x : Bytes). split_loop (x ++ rest) b false)
              (if-false (is_special c) _ _ (rw (n, m)))
            ∙ split_loop-plain c (escape t ++ rest) b n m
            ∙ onward
      ]
    ]

abbrev pub NotEmpty : Bytes → Type 0
NotEmpty [] = ⊥
NotEmpty (_ ∷ _) = Unit

-- No token is empty.
abbrev pub Solid : List Bytes → Type 0
Solid [] = Unit
Solid (t ∷ ts) = NotEmpty t × Solid ts

-- The tokens that a client has escaped and set apart by spaces are the tokens that are read, where
-- none is empty.
pub split_startup_options-render :
    (ts : List Bytes) → Solid ts → split_startup_options (render ts) ≡ ts
unfolding split_startup_options render split_loop
split_startup_options-render [] h = refl
split_startup_options-render ([] ∷ ts) (h, hs) = absurd h
split_startup_options-render ((c ∷ u) ∷ ts) (h, hs) =
    split_loop-escape (c ∷ u) (b' ' ∷ render ts) []
    ∙ ap (◌∷◌ (c ∷ u)) (split_startup_options-render ts hs)

-- The tokens of settings.
abbrev pub option_tokens : Settings → List Bytes
option_tokens [] = []
option_tokens ((name, value) ∷ kvs) = codes "-c" ∷ (name ++ b'=' ∷ value) ∷ option_tokens kvs

-- A name without `=` that is not empty, a name and a value without blanks around them.
abbrev pub NoEquals : Bytes → Type 0
NoEquals [] = Unit
NoEquals (c ∷ s) = ((c == b'=') ≡ false) × NoEquals s

abbrev pub Plain : Settings → Type 0
Plain [] = Unit
Plain ((name, value) ∷ kvs) =
    NotEmpty name
    × NoEquals name
    × (trim_space name ≡ name)
    × (trim_space value ≡ value)
    × Plain kvs

-- The settings written one after the other, the later over the earlier.
abbrev pub put_all : Settings → Settings → Settings
put_all [] out = out
put_all ((name, value) ∷ kvs) out = put_all kvs (insert name value out)

cut_equals-name :
    (name value : Bytes) → NoEquals name → cut_equals (name ++ b'=' ∷ value) ≡ some (name, value)
unfolding cut_equals
cut_equals-name [] value h = refl
cut_equals-name (c ∷ name) value (n, h) = rw (n, cut_equals-name name value h)

set_option-plain :
    (name value : Bytes) (out : Settings)
    → NotEmpty name
    → NoEquals name
    → trim_space name ≡ name
    → trim_space value ≡ value
    → set_option (name ++ b'=' ∷ value) out ≡ insert name value out
unfolding set_option
set_option-plain [] value out h n tn tv = absurd h
set_option-plain (c ∷ u) value out h n tn tv =
    let read : set_option ((c ∷ u) ++ b'=' ∷ value) out
        ≡ put_setting (trim_space (c ∷ u)) (trim_space value) out =
      ap set_cut (cut_equals-name (c ∷ u) value n) in
    read
    ∙ ap (λ (x : Bytes). put_setting x (trim_space value) out) tn
    ∙ ap (λ (x : Bytes). put_setting (c ∷ u) x out) tv
  where
    set_cut : Option (Bytes × Bytes) → Settings
    set_cut o = elim o [
      | none ↦ out
      | some (name, value) ↦ elim name [
        | [] ↦ out
        | c ∷ cs ↦ put_setting (trim_space (c ∷ cs)) (trim_space value) out
      ]
    ]

parse_tokens-option_tokens :
    (kvs out : Settings) → Plain kvs → parse_tokens (option_tokens kvs) out ≡ put_all kvs out
unfolding parse_tokens starts_with
parse_tokens-option_tokens [] out h = refl
parse_tokens-option_tokens ((name, value) ∷ kvs) out (h, n, tn, tv, hs) =
    ap (parse_tokens (option_tokens kvs)) (set_option-plain name value out h n tn tv)
    ∙ parse_tokens-option_tokens kvs (insert name value out) hs

option_tokens-Solid : (kvs : Settings) → Plain kvs → Solid (option_tokens kvs)
option_tokens-Solid [] h = tt
option_tokens-Solid (([], value) ∷ kvs) (h, n, tn, tv, hs) = absurd h
option_tokens-Solid (((c ∷ u), value) ∷ kvs) (h, n, tn, tv, hs) =
    (tt, (tt, option_tokens-Solid kvs hs))

-- A text that begins with a `-` is not blank.
trim_space-dash : (s : Bytes) → (c : ℕ) × (u : Bytes) × (trim_space (b'-' ∷ s) ≡ c ∷ u)
unfolding trim_space trim_left trim_right is_space
trim_space-dash s = go (trim_right is_space s)
  where
    go :
        (r : Bytes)
        → (c : ℕ) × (u : Bytes) × (◌≡◌ {A = Bytes}
            (elim r [ [] ↦ b'-' ∷ [] | d ∷ r ↦ b'-' ∷ d ∷ r ])
            (c ∷ u))
    go [] = (b'-', [], refl)
    go (d ∷ r) = (b'-', d ∷ r, refl)

-- The settings that a client writes as `-c name=value`, each token escaped and followed by a space,
-- are the settings that are read, the later one of a name over the earlier: for names that are not
-- empty and have no `=`, and names and values without blanks around them.
pub parse_startup_options-render :
    (kvs : Settings)
    → Plain kvs
    → parse_startup_options (render (option_tokens kvs)) ≡ put_all kvs []
unfolding parse_startup_options render escape trim_space trim_left trim_right
parse_startup_options-render [] h = refl
parse_startup_options-render ((name, value) ∷ kvs) h =
    let (c, u, e) = trim_space-dash rest in
    ap parsed e
    ∙ ap (λ (ts : List Bytes). parse_tokens ts [])
        (split_startup_options-render (option_tokens all) (option_tokens-Solid all h))
    ∙ parse_tokens-option_tokens all [] h
  where
    all : Settings
    all = (name, value) ∷ kvs

    rest : Bytes
    rest = b'c' ∷ b' ' ∷ (escape (name ++ b'=' ∷ value) ++ b' ' ∷ render (option_tokens kvs))

    parsed : Bytes → Settings
    parsed t = elim t [
      | [] ↦ []
      | _ ∷ _ ↦ parse_tokens (split_startup_options (render (option_tokens all))) []
    ]
