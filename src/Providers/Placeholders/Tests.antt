-- ===== src/Providers/Placeholders/Tests.antt =====
-- A template with a key of the environment and a value of the request.
use tilegroxy.Base.{none, false, [], ◌≡◌, refl, Text, codes, if◌then◌else◌, if-ind, ◌∷◌}
use tilegroxy.Base.Int.{ℤ}
use tilegroxy.Base.Strconv.{atoi}
use tilegroxy.Tile.Tests.{integers, tile_1_0}
use tilegroxy.Providers.Placeholders.{
  Sources, replace_url_placeholders, scan, digit_run, find_value, value_at, indexed, put_value,
}
use tilegroxy.Providers.Placeholders.Structure.{delimiters, is_delimiter}
use tilegroxy.Providers.Placeholders.Values.{
  with_values, SameDelimiters, replace_url_placeholders-delimiters,
}

-- The escape of a byte is left at a percent sign, where it is not kept.
abbrev strip : Text → Text
strip [] = []
strip (c ∷ s) = if is_delimiter c then b'%' ∷ strip s else c ∷ strip s

abbrev sources : Sources ℤ
sources = record {
  getenv = λ name. codes "k?1";
  context_value = λ name. codes "a";
  layer_value = λ name. codes "b";
  print_float = λ x. codes "0.5";
  path_escape = strip;
  query_escape = strip;
}

strip-delimiters : (v : Text) → delimiters (strip v) ≡ []
unfolding delimiters is_delimiter
strip-delimiters [] = refl
strip-delimiters (c ∷ s) =
    if-ind (λ x. delimiters x ≡ []) (is_delimiter c) (λ e. strip-delimiters s)
      (λ e. rw e (strip-delimiters s))

replace_url_placeholders-delimiters_example :
    SameDelimiters
      (replace_url_placeholders integers sources tile_1_0
        (codes "http://h/{env.K}/{layer.v}?q={ctx.u}")
        false
        4326)
      (replace_url_placeholders integers
        (with_values (λ n. codes "?x#") (λ n. codes "../y") sources)
        tile_1_0
        (codes "http://h/{env.K}/{layer.v}?q={ctx.u}")
        false
        4326)
replace_url_placeholders-delimiters_example =
    replace_url_placeholders-delimiters integers sources (λ n. codes "?x#") (λ n. codes "../y")
      (codes "http://h/{env.K}/{layer.v}?q={ctx.u}") strip-delimiters strip-delimiters tile_1_0
      false 4326

-- A digit of the template after a placeholder is read as the placeholder's: `{layer.v}{z}` at zoom 7.
digit_after : scan strip strip 0 none (codes "v" ∷ []) 0 0 (codes "/$07/") ≡ codes "/$07/"
unfolding scan digit_run find_value value_at indexed put_value atoi
digit_after = refl
