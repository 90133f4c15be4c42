-- ===== src/Startup/Examples.antt =====
-- The startup options on concrete texts.
use duckgres.Base.{◌≡◌, refl, [], ◌∷◌, none, codes, bytes_eq}
use duckgres.Base.Text.{starts_with, trim_space, trim_left, trim_right, is_space}
use duckgres.Base.Dict.{insert}
use duckgres.Auth.Limiter.{byte_keys}
use duckgres.Startup.Options.{
  split_loop, split_startup_options, cut_equals, Settings, set_option, parse_tokens,
  parse_startup_options, is_safe, all_safe, sanitize_trimmed, sanitize_search_path,
}
use duckgres.Startup.Rendered.{render, option_tokens, put_all, parse_startup_options-render}
use duckgres.Startup.Literal.{Embeds, sanitize_search_path-Embeds}

parse_joined :
    parse_startup_options (codes "-csearch_path=a,\\ b --x=1 -c")
    ≡ (codes "search_path", codes "a, b") ∷ (codes "x", codes "1") ∷ []
unfolding parse_startup_options split_startup_options split_loop parse_tokens set_option cut_equals
    trim_space trim_left trim_right is_space starts_with insert bytes_eq
parse_joined = refl

sanitize_quote : sanitize_search_path (codes " x'; DROP ") ≡ none
unfolding sanitize_search_path sanitize_trimmed all_safe is_safe trim_space trim_left trim_right
    is_space
sanitize_quote = refl

abbrev settings : Settings
settings = (codes "search_path", codes "a, b") ∷ (codes "x", codes "1") ∷ []

parse_startup_options-render_example :
    parse_startup_options (render (option_tokens settings)) ≡ put_all settings []
unfolding trim_space trim_left trim_right is_space
parse_startup_options-render_example = parse_startup_options-render settings (
  tt,
  (refl, (refl, (refl, (refl, (refl, (refl, (refl, (refl, (refl, (refl, (refl, tt))))))))))),
  refl,
  refl,
  (tt, (refl, tt), refl, refl, tt),
)

sanitize_search_path-Embeds_example : Embeds (codes " a.b,\"C d\" ") (codes "a.b,\"C d\"")
unfolding sanitize_search_path sanitize_trimmed all_safe is_safe trim_space trim_left trim_right
    is_space
sanitize_search_path-Embeds_example =
    sanitize_search_path-Embeds (codes " a.b,\"C d\" ") (codes "a.b,\"C d\"") refl
