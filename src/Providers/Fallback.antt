-- ===== src/Providers/Fallback.antt =====
-- internal/providers/fallback.go: PreAuth and GenerateTile of Fallback. Writing a field of a nil image
-- panics; an image that is there is a value, so that the write does not reach other holders of it.
pub mod Caching
pub mod Tests
use tilegroxy.Base.{
  Bool, true, false, not, ◌&&◌, List, [], ◌∷◌, Option, none, some, if◌then◌else◌, Text, codes,
  text_eq,
}
use tilegroxy.Base.Int.{ℤ, eqb_ℤ}
use tilegroxy.Errors.{Error}
use tilegroxy.Tile.Floats.{Floats}
use tilegroxy.Tile.Bounds.{TileRequest, Box, Result, ok, err, intersects_bounds}
use tilegroxy.Layer.Provide.{Image, ProviderContext, Provider}

abbrev pub cache_mode_always : Text
cache_mode_always = codes "always"

abbrev pub cache_mode_unless_error : Text
cache_mode_unless_error = codes "unless-error"

abbrev pub cache_mode_unless_fallback : Text
cache_mode_unless_fallback = codes "unless-fallback"

pub record Fallback (W P F : Type 0) : Type 0 where
  pub zoom_levels : List ℤ
  pub bounds : Box F
  pub cache : Text
  pub primary : Provider W P
  pub secondary : Provider W P

pub data Outcome (W : Type 0) : Type 0 where
  returned : Option Image → Option Error → W → Outcome W
  panicked : Outcome W

pub has_zoom : List ℤ → ℤ → Bool
has_zoom [] z = false
has_zoom (a ∷ zs) z = if eqb_ℤ a z then true else has_zoom zs z

-- Whether IntersectsBounds says yes and fails not.
pub says_yes : Result Bool → Bool
says_yes (err e) = false
says_yes (ok b) = b

-- The last statements: the image, marked if it is not to be cached.
pub mark : {W : Type 0} → Bool → Option Image → Option Error → W → Outcome W
mark false img e w = returned img e w
mark true none e w = panicked
mark true (some img) e w = returned (some (record img { force_skip_cache = true })) e w

module _ {W P : Type 0} (f : Floats) where
  -- Whether the request is one for the primary provider.
  pub is_primary : Fallback W P f.F → TileRequest → Bool
  unfolding has_zoom says_yes
  is_primary fb t = has_zoom fb.zoom_levels t.z && says_yes (intersects_bounds f t fb.bounds)

  pub from_secondary : Bool → Fallback W P f.F → ProviderContext P → TileRequest → W → Outcome W
  unfolding mark
  from_secondary skip fb pc t w =
      let (img, e, w') = fb.secondary.generate_tile pc t w in mark skip img e w'

  pub after_primary :
      Fallback W P f.F
      → ProviderContext P
      → TileRequest
      → Option Image
      → Option Error
      → W
      → Outcome W
  unfolding from_secondary
  after_primary fb pc t img none w = returned img none w
  after_primary fb pc t img (some e) w =
      from_secondary (not (text_eq fb.cache cache_mode_always)) fb pc t w

  pub generate_tile : Fallback W P f.F → ProviderContext P → TileRequest → W → Outcome W
  unfolding is_primary after_primary
  generate_tile fb pc t w =
      if is_primary fb t
      then (let (img, e, w') = fb.primary.generate_tile pc t w in after_primary fb pc t img e w')
      else from_secondary (text_eq fb.cache cache_mode_unless_fallback) fb pc t w

  -- PreAuth is that of the primary provider.
  pub pre_auth : Fallback W P f.F → ProviderContext P → W → ProviderContext P × Option Error × W
  pre_auth fb = fb.primary.pre_auth
