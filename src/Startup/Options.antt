-- ===== src/Startup/Options.antt =====
-- server/startup_options.go, on ASCII texts: the loop over the runes is one over the bytes.
use duckgres.Base.{
  ℕ, Bool, true, false, ◌&&◌, ◌||◌, List, [], ◌∷◌, ◌++◌, Option, none, some, Bytes, codes, length,
  drop, ltb, leb, ◌==◌, if◌then◌else◌,
}
use duckgres.Base.Text.{starts_with, trim_space}
use duckgres.Base.Dict.{insert}
use duckgres.Auth.Limiter.{byte_keys}

-- `r == ' ' || r == '\t'`
abbrev pub is_separator : ℕ → Bool
is_separator c = c == b' ' || c == 9

-- `if b.Len() > 0 { tokens = append(tokens, b.String()) }`
abbrev pub flush : Bytes → List Bytes → List Bytes
flush [] ts = ts
flush (c ∷ b) ts = (c ∷ b) ∷ ts

-- The loop of `splitStartupOptions`: what is left to read, the token so far, and `escaped`.
unfoldable pub split_loop : Bytes → Bytes → Bool → List Bytes
split_loop [] b escaped = flush b []
split_loop (c ∷ s) b true = split_loop s (b ++ c ∷ []) false
split_loop (c ∷ s) b false =
    let token = if c == b'\\' then b else if is_separator c then [] else b ++ c ∷ [] in
    let rest = split_loop s token (c == b'\\') in
    if c == b'\\' then rest else if is_separator c then flush b rest else rest

-- `splitStartupOptions`
unfoldable pub split_startup_options : Bytes → List Bytes
unfolding split_loop
split_startup_options s = split_loop s [] false

-- `strings.IndexByte(kv, '=')` and the two parts around it.
unfoldable pub cut_equals : Bytes → Option (Bytes × Bytes)
cut_equals [] = none
cut_equals (c ∷ s) =
    if c == b'='
    then some ([], s)
    else elim (cut_equals s) [ none ↦ none | some (name, value) ↦ some (c ∷ name, value) ]

abbrev pub Settings : Type 0
Settings = List (Bytes × Bytes)

abbrev pub put_setting : Bytes → Bytes → Settings → Settings
put_setting [] value out = out
put_setting (c ∷ name) value out = insert (c ∷ name) value out

-- What one `name=value` does to the settings.
unfoldable pub set_option : Bytes → Settings → Settings
unfolding cut_equals trim_space
set_option kv out = elim (cut_equals kv) [
  | none ↦ out
  | some (name, value) ↦ elim name [
    | [] ↦ out
    | c ∷ cs ↦ put_setting (trim_space (c ∷ cs)) (trim_space value) out
  ]
]

-- The loop of `ParseStartupOptions` over the tokens.
unfoldable pub parse_tokens : List Bytes → Settings → Settings
unfolding set_option starts_with
parse_tokens [] out = out
parse_tokens (tok ∷ []) out =
    if starts_with tok (codes "-c")
    then set_option (drop 2 tok) out
    else if starts_with tok (codes "--")
    then set_option (drop 2 tok) out
    else out
parse_tokens (tok ∷ next ∷ tokens) out = elim (starts_with tok (codes "-c")) [
  | true ↦ elim (drop 2 tok) [
    | [] ↦ parse_tokens tokens (set_option next out)
    | c ∷ kv ↦ parse_tokens (next ∷ tokens) (set_option (c ∷ kv) out)
  ]
  | false ↦ elim (starts_with tok (codes "--")) [
    | true ↦ parse_tokens (next ∷ tokens) (set_option (drop 2 tok) out)
    | false ↦ parse_tokens (next ∷ tokens) out
  ]
]

-- `ParseStartupOptions`
unfoldable pub parse_startup_options : Bytes → Settings
unfolding split_startup_options parse_tokens trim_space
parse_startup_options options = elim (trim_space options) [
  | [] ↦ []
  | _ ∷ _ ↦ parse_tokens (split_startup_options options) []
]

abbrev pub between : ℕ → ℕ → ℕ → Bool
between a b c = leb a c && leb c b

-- The class of `safeSearchPathPattern`
unfoldable pub is_safe : ℕ → Bool
is_safe c =
    between b'A' b'Z' c
    || between b'a' b'z' c
    || between b'0' b'9' c
    || c == b'_'
    || c == b'.'
    || c == b','
    || c == b'"'
    || c == b'-'
    || c == b' '

-- `safeSearchPathPattern.MatchString` of a text that is not empty.
unfoldable pub all_safe : Bytes → Bool
unfolding is_safe
all_safe [] = true
all_safe (c ∷ s) = is_safe c && all_safe s

-- `SanitizeSearchPath` behind the trimming.
unfoldable pub sanitize_trimmed : Bytes → Option Bytes
unfolding all_safe
sanitize_trimmed [] = none
sanitize_trimmed (c ∷ s) =
    if ltb 512 (length (c ∷ s)) then none else if all_safe (c ∷ s) then some (c ∷ s) else none

-- `SanitizeSearchPath`
unfoldable pub sanitize_search_path : Bytes → Option Bytes
unfolding sanitize_trimmed trim_space
sanitize_search_path s = sanitize_trimmed (trim_space s)
