-- ===== src/Cache/Tests.antt =====
-- Two names of a layer that share a file, and the witness.
use tilegroxy.Base.{◌≡◌, refl, codes, text_eq}
use tilegroxy.Tile.Bounds.{TileRequest}
use tilegroxy.Tile.Tests.{tile_1_0}
use tilegroxy.Cache.Names.{
  string_with_separator, request_to_filename, request_to_filename-injective,
}
use tilegroxy.Cache.Keys.{
  collapse_dots, replace_unsafe, is_safe_char, more_dots, flush_dots, safe_layer_name,
}

abbrev spaced : TileRequest
spaced = record tile_1_0 { layer_name = codes "a b" }

abbrev slashed : TileRequest
slashed = record tile_1_0 { layer_name = codes "a/b" }

one_file : request_to_filename spaced ≡ request_to_filename slashed
unfolding request_to_filename string_with_separator safe_layer_name collapse_dots replace_unsafe
    is_safe_char more_dots flush_dots text_eq
one_file = refl

request_to_filename-injective_example :
    (safe_layer_name (codes "a b") ≡ safe_layer_name (codes "a/b"))
    × ((spaced.z ≡ slashed.z) × ((spaced.x ≡ slashed.x) × (spaced.y ≡ slashed.y)))
request_to_filename-injective_example = request_to_filename-injective spaced slashed one_file
