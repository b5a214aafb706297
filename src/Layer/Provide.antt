-- ===== src/Layer/Provide.antt =====
-- pkg/entities/layer/layer.go: Layer with its provider context and its counters, and
-- validateParamMatches. A provider is a pair of functions that may change a world W; what it keeps in
-- ProviderContext besides the two fields that the layer reads is P. Times are numbers, 0 for the zero
-- time. The mutex makes each call of getProviderContext one step.
pub mod Counters
pub mod Calls
pub mod Tests
use tilegroxy.Base.{
  ℕ, zero, suc, ◌<◌, Bool, true, false, not, ◌&&◌, List, [], ◌∷◌, ◌++◌, Option, none, some, ltb,
  if◌then◌else◌, Text, codes, text_eq, lookup,
}
use tilegroxy.Errors.{Error, is_provider_auth}
use tilegroxy.Tile.Bounds.{TileRequest}
use tilegroxy.Layer.Pattern.{Segment, Matches, match}

pub record Image : Type 0 where
  pub content : Text
  pub content_type : Text
  pub force_skip_cache : Bool

pub record ProviderContext (P : Type 0) : Type 0 where
  pub auth_bypass : Bool
  pub auth_expiration : ℕ
  pub other : P

-- A Go result pair: a value with an error that may be nil.
pub record Provider (W P : Type 0) : Type 0 where
  pub pre_auth : ProviderContext P → W → ProviderContext P × Option Error × W
  pub generate_tile : ProviderContext P → TileRequest → W → Option Image × Option Error × W

-- A compiled regular expression is the test that it makes; a nil map is `none`.
pub record Layer (W P : Type 0) : Type 0 where
  pub id : Text
  pub pattern : List Segment
  pub param_validator : Option (List (Text × (Text → Bool)))
  pub skip_cache : Bool
  pub skip_analytics : Bool
  pub provider : Provider W P
  pub provider_context : ProviderContext P
  pub tile_all : ℕ
  pub tile_auth : ℕ
  pub tile_error : ℕ
  pub tile_success : ℕ

all_values : (Text → Bool) → Matches → Bool
all_values r [] = true
all_values r ((k, v) ∷ m) = r v && all_values r m

-- values[k], which is "" for a missing key.
value_of : Text → Matches → Text
value_of k m = elim (lookup k m) [ none ↦ [] | some v ↦ v ]

check_params : Matches → List (Text × (Text → Bool)) → Bool
unfolding all_values value_of
check_params m [] = true
check_params m ((k, r) ∷ rs) =
    (if text_eq k (codes "*") then all_values r m else r (value_of k m)) && check_params m rs

unfoldable pub validate_param_matches : Matches → Option (List (Text × (Text → Bool))) → Bool
unfolding check_params
validate_param_matches m none = true
validate_param_matches m (some rs) = check_params m rs

abbrev pub Rendered : Type 0 → Type 0 → Type 0
Rendered W P = Option Image × Option Error × Layer W P × W

module _ {W P : Type 0} where
  -- Whether the layer has the name, with the values of its placeholders for the request's context.
  unfoldable pub matches_name : Layer W P → Text → Option Matches
  matches_name l name =
      let (does_match, found) = match l.pattern name in
      if does_match && validate_param_matches found l.param_validator then some found else none

  unfoldable pub get_provider_context :
      ℕ → Layer W P → W → ProviderContext P × Option Error × Layer W P × W
  get_provider_context now l w =
      if not l.provider_context.auth_bypass && ltb l.provider_context.auth_expiration now
      then (let (pc, e, w') = l.provider.pre_auth l.provider_context w in
          (pc, e, record l { tile_auth = suc l.tile_auth; provider_context = pc }, w'))
      else (l.provider_context, none, l, w)

  unfoldable pub force_reauth : ℕ → Layer W P → W → ProviderContext P × Option Error × Layer W P × W
  unfolding get_provider_context
  force_reauth now l w =
      get_provider_context now
        (record l { provider_context = record l.provider_context { auth_expiration = 0 } }) w

  unfoldable pub retried : Option Image → Option Error → Layer W P → W → Rendered W P
  retried img (some e) l w = (none, some e, record l { tile_error = suc l.tile_error }, w)
  retried img none l w = (img, none, record l { tile_success = suc l.tile_success }, w)

  -- The second call of GenerateTile, after the forced call of PreAuth.
  unfoldable pub retry :
      TileRequest → ProviderContext P → Option Error → Layer W P → W → Rendered W P
  unfolding retried
  retry t pc (some e) l w = (none, some e, l, w)
  retry t pc none l w = let (img, e, w') = l.provider.generate_tile pc t w in retried img e l w'

  -- What follows the first call of GenerateTile.
  unfoldable pub after_generate :
      ℕ → TileRequest → Option Image → Option Error → Layer W P → W → Rendered W P
  unfolding retry
  after_generate now t img none l w = (img, none, record l { tile_success = suc l.tile_success }, w)
  after_generate now t img (some e) l w =
      if is_provider_auth e
      then (let (pc, e', l', w') = force_reauth now l w in retry t pc e' l' w')
      else (none, some e, record l { tile_error = suc l.tile_error }, w)

  unfoldable pub generate :
      ℕ → TileRequest → ProviderContext P → Option Error → Layer W P → W → Rendered W P
  unfolding after_generate
  generate now t pc (some e) l w = (none, some e, l, w)
  generate now t pc none l w =
      let (img, e, w') = l.provider.generate_tile pc t w in after_generate now t img e l w'

  -- `start` is the time at the first look at the context's expiration, `later` at the second.
  unfoldable pub render_tile_no_cache : ℕ → ℕ → Layer W P → TileRequest → W → Rendered W P
  unfolding generate
  render_tile_no_cache start later l t w =
      let (pc, e, l', w') = get_provider_context start (record l { tile_all = suc l.tile_all }) w in
      generate later t pc e l' w'
