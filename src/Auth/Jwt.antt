-- ===== src/Auth/Jwt.antt =====
-- internal/authentications/jwt.go: JWT, from its configuration to the grants of a request. The JWT
-- library's parser, the geohash library and the cache of verified tokens are parameters. Times are
-- nanoseconds. Messages of errors are left out.
pub mod Scopes
pub mod Replay
pub mod Expiration
pub mod Refinement
pub mod Layers
pub mod Tests
pub mod Setup
pub mod Keys
pub mod Confusion
use tilegroxy.Base.{
  ℕ, zero, suc, ◌+◌, ◌*◌, ◌<◌, Bool, true, false, not, ◌||◌, ◌&&◌, List, [], ◌∷◌, ◌++◌, Option,
  none, some, if◌then◌else◌, ltb, ◌==◌, length, take, drop, Text, codes, text_eq, has_prefix, index,
  contains, lookup,
}
use tilegroxy.Base.Strconv.{split}
use tilegroxy.Request.{Grants}
use tilegroxy.Tile.Floats.{Floats}
use tilegroxy.Tile.Bounds.{Box, is_null_island, srid_wgs84}

-- Intervals are seconds.
pub record JwksConfig : Type 0 where
  pub url : Text
  pub refresh_interval : ℕ
  pub refresh_min_interval : ℕ
  pub request_timeout : ℕ
  pub allow_startup_failure : Bool

pub record JwtConfig : Type 0 where
  pub cache_size : ℕ
  pub key : Text
  pub algorithm : Text
  pub algorithms : List Text
  pub jwks : Option JwksConfig
  pub header_name : Text
  pub max_expiration : ℕ
  pub expected_audience : Text
  pub expected_subject : Text
  pub expected_issuer : Text
  pub expected_scope : Text
  pub layer_scope : Bool
  pub scope_prefix : Text
  pub user_id : Text

abbrev pub default_expiration : ℕ
default_expiration = 24 * 60 * 60

abbrev pub second : ℕ
second = 1000000000

pub is_empty : Text → Bool
is_empty [] = true
is_empty (c ∷ s) = false

-- A claim is a string or of another type; a nil claim is `none`.
pub data Claim : Type 0 where
  text : Text → Claim
  other : Claim

-- A parsed token: its expiration, or the error of reading it, and its claims, if they are a map.
pub record Token : Type 0 where
  pub exp : Option ℕ
  pub claims : Option (Text → Option Claim)

pub record CachedAuthResult (F : Type 0) : Type 0 where
  pub expiration : ℕ
  pub limit_layers : Bool
  pub allowed_layers : List Text
  pub limit_area_partial : Bool
  pub allowed_area : Box F
  pub user_id : Text

-- The calls of the libraries: jwt.Parse with the options of the configuration at a time, and a
-- geohash's validity and box, as south, north, west and east.
pub record Libraries (F : Type 0) : Type 0 where
  pub parse : JwtConfig → ℕ → Text → Option Token
  pub validate : Text → Bool
  pub bounding_box : Text → F × F × F × F

-- The cache of verified tokens.
pub record TokenCache (F C : Type 0) : Type 0 where
  pub get : Text → C → Option (CachedAuthResult F)
  pub set_if_absent : Text → CachedAuthResult F → C → C

-- strings.Replace(h, "Bearer ", "", 1)
pub without_bearer : Text → Text
without_bearer h = elim (index h (codes "Bearer ")) [
  | none ↦ h
  | some i ↦ take i h ++ drop (i + length (codes "Bearer ")) h
]

-- req.Header is a map of lists.
pub extract_token : JwtConfig → List (Text × List Text) → Option Text
unfolding without_bearer is_empty
extract_token c headers = elim (lookup c.header_name headers) [
  | some (h ∷ []) ↦
      (let token = if text_eq c.header_name (codes "Authorization") then without_bearer h else h in
        if is_empty token then none else some token)
  | _ ↦ none
]

-- The loop over the scopes that grants layers.
pub scoped_layers : Text → List Text → List Text
scoped_layers pre [] = []
scoped_layers pre (s ∷ ss) =
    let rest = scoped_layers pre ss in
    if is_empty pre || has_prefix s pre then drop (length pre) s ∷ rest else rest

module _ {F : Type 0} where
  pub validate_scope : JwtConfig → Option Claim → Grants F → Bool × Grants F
  unfolding scoped_layers is_empty
  validate_scope c (some (text s)) g =
      let scopes = split b' ' s in
      if not (is_empty c.expected_scope) && not (contains scopes c.expected_scope)
      then (false, g)
      else if c.layer_scope
      then (
        true,
        record g { allowed_layers = g.allowed_layers ++ scoped_layers c.scope_prefix scopes },
      )
      else (true, g)
  validate_scope c _ g = (not (c.layer_scope || not (is_empty c.expected_scope)), g)

  -- pkg.NewBoundsFromGeohash
  pub new_bounds_from_geohash : Libraries F → Text → Option (Box F)
  new_bounds_from_geohash lib hash =
      let (s, n, w, e) = lib.bounding_box hash in
      if lib.validate hash
      then some (record { south = s; north = n; west = w; east = e; srid = srid_wgs84 })
      else none

  pub validate_geohash : Libraries F → Option Claim → Grants F → Bool × Grants F
  unfolding new_bounds_from_geohash
  validate_geohash lib none g = (true, g)
  validate_geohash lib (some other) g = (false, g)
  validate_geohash lib (some (text hash)) g = elim (new_bounds_from_geohash lib hash) [
    | none ↦ (false, g)
    | some b ↦ (true, record g { allowed_area = b; limit_area_partial = true })
  ]

  pub set_user : Option Claim → Grants F → Grants F
  set_user none g = g
  set_user (some (text u)) g = record g { user_id = u }
  set_user (some other) g = record g { user_id = [] }

  pub result_of : ℕ → Grants F → CachedAuthResult F
  result_of exp g = record {
    expiration = exp;
    limit_layers = g.limit_layers;
    allowed_layers = g.allowed_layers;
    limit_area_partial = g.limit_area_partial;
    allowed_area = g.allowed_area;
    user_id = g.user_id;
  }

  -- What the claims of a token grant.
  pub read_claims : Libraries F → JwtConfig → (Text → Option Claim) → Grants F → Bool × Grants F
  unfolding validate_scope validate_geohash set_user
  read_claims lib c claims g =
      let (in_scope, g1) = validate_scope c (claims (codes "scope")) g in
      let (in_area, g2) = validate_geohash lib (claims (codes "geohash")) g1 in
      if not in_scope
      then (false, g1)
      else if not in_area
      then (false, g2)
      else (true, set_user (claims c.user_id) g2)

  -- What a token grants whose expiration is acceptable.
  pub grant_token :
      Libraries F → JwtConfig → ℕ → Token → Grants F → Option (CachedAuthResult F) × Grants F
  unfolding read_claims result_of
  grant_token lib c exp t g =
      let g' = if c.layer_scope then record g { limit_layers = true } else g in
      elim t.claims [
        | none ↦ (none, g')
        | some claims ↦
            (let (passed, g3) = read_claims lib c claims g' in
              (if passed then some (result_of exp g3) else none, g3))
      ]

  -- After jwt.Parse has succeeded.
  pub check_token :
      Libraries F → JwtConfig → ℕ → Token → Grants F → Option (CachedAuthResult F) × Grants F
  unfolding grant_token
  check_token lib c now t g = elim t.exp [
    | none ↦ (none, g)
    | some exp ↦
        if ltb exp now
        then (none, g)
        else if ltb (now + c.max_expiration * second) exp
        then (none, g)
        else grant_token lib c exp t g
  ]

  pub check_without_cache :
      Libraries F → JwtConfig → ℕ → Text → Grants F → Option (CachedAuthResult F) × Grants F
  unfolding check_token
  check_without_cache lib c now token g = elim (lib.parse c now token) [
    | none ↦ (none, g)
    | some t ↦ check_token lib c now t g
  ]

module _ (f : Floats) where
  pub apply : CachedAuthResult f.F → Grants f.F → Grants f.F
  apply r g =
      let g1 = record g {
        limit_layers = r.limit_layers;
        allowed_layers = g.allowed_layers ++ r.allowed_layers;
        limit_area_partial = r.limit_area_partial;
      } in
      let g2 =
        if is_null_island f r.allowed_area
        then g1
        else record g1 { allowed_area = r.allowed_area } in
      if is_empty r.user_id then g2 else record g2 { user_id = r.user_id }

  module _ {C : Type 0} (lib : Libraries f.F) (tokens : TokenCache f.F C) (c : JwtConfig) where
    -- After a miss in the cache, or without one.
    pub verify : ℕ → Text → Grants f.F → C → Bool × Grants f.F × C
    unfolding check_without_cache
    verify now token g cache =
        let (r, g') = check_without_cache lib c now token g in
        elim r [
          | none ↦ (false, g', cache)
          | some a ↦
              (true, g', if c.cache_size == 0 then cache else tokens.set_if_absent token a cache)
        ]

    pub check_token_text : ℕ → Text → Grants f.F → C → Bool × Grants f.F × C
    unfolding verify apply
    check_token_text now token g cache =
        let fresh = verify now token g cache in
        if c.cache_size == 0 then fresh else elim (tokens.get token cache) [
          | none ↦ fresh
          | some r ↦ if ltb now r.expiration then (true, apply r g, cache) else (false, g, cache)
        ]

    -- JWT.CheckAuthentication
    unfoldable pub check_authentication :
        ℕ → List (Text × List Text) → Grants f.F → C → Bool × Grants f.F × C
    unfolding check_token_text extract_token
    check_authentication now headers g cache = elim (extract_token c headers) [
      | none ↦ (false, g, cache)
      | some token ↦ check_token_text now token g cache
    ]
