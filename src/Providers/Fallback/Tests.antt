-- ===== src/Providers/Fallback/Tests.antt =====
-- Fallbacks from a provider that fails.
use tilegroxy.Base.{ℕ, true, false, [], ◌∷◌, none, some, ◌≡◌, refl, text_eq, codes, arith}
use tilegroxy.Base.Int.{ℤ, pos}
use tilegroxy.Errors.{plain}
use tilegroxy.Tile.Bounds.{Box, intersects_bounds, intersects_bounds_projection, is_null_island}
use tilegroxy.Tile.Tests.{integers, tile_1_0}
use tilegroxy.Layer.Provide.{ProviderContext, Provider}
use tilegroxy.Providers.Fallback.{
  Fallback, panicked, generate_tile, after_primary, from_secondary, mark, is_primary, has_zoom,
  says_yes, cache_mode_unless_error, cache_mode_unless_fallback,
}
use tilegroxy.Providers.Fallback.Caching.{NotCached, PrimaryAnswers, generate_tile-NotCached}

abbrev failing : Provider ℕ ℕ
failing = record {
  pre_auth = λ pc w. (pc, none, w);
  generate_tile = λ pc t w. (none, some (plain (codes "fail")), w);
}

abbrev static : Provider ℕ ℕ
static = record {
  pre_auth = λ pc w. (pc, none, w);
  generate_tile = λ pc t w. (
    some (record { content = codes "png"; content_type = []; force_skip_cache = false }),
    none,
    w,
  );
}

abbrev anywhere : Box ℤ
anywhere = record { south = pos 0; north = pos 0; west = pos 0; east = pos 0; srid = 4326 }

abbrev falls_back : Fallback ℕ ℕ ℤ
falls_back = record {
  zoom_levels = pos 1 ∷ [];
  bounds = anywhere;
  cache = cache_mode_unless_fallback;
  primary = failing;
  secondary = static;
}

abbrev fails_twice : Fallback ℕ ℕ ℤ
fails_twice = record falls_back { cache = cache_mode_unless_error; secondary = failing }

abbrev unused : ProviderContext ℕ
unused = record { auth_bypass = true; auth_expiration = 0; other = 0 }

generate_tile-NotCached_example : NotCached (generate_tile integers falls_back unused tile_1_0 0)
unfolding PrimaryAnswers
generate_tile-NotCached_example =
    generate_tile-NotCached integers falls_back unused tile_1_0 0 refl failed
  where
    failed : ¬ PrimaryAnswers integers falls_back unused tile_1_0 0
    failed (p, e) = ground arith

failed_twice : generate_tile integers fails_twice unused tile_1_0 0 ≡ panicked
unfolding generate_tile after_primary from_secondary mark is_primary has_zoom says_yes
    intersects_bounds intersects_bounds_projection is_null_island text_eq
failed_twice = refl
