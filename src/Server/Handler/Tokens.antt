-- ===== src/Server/Handler/Tokens.antt =====
-- internal/server/tile_handler.go with the JWT of internal/authentications/jwt.go.
use tilegroxy.Base.{
  ℕ, true, false, List, Option, some, ◌≡◌, ◌⊎◌, ◌++◌, refl, ap, inl, inr, Text, codes, contains,
  Option-cases,
}
use tilegroxy.Base.Strconv.{split}
use tilegroxy.Request.{Grants, new_request_context, context_of}
use tilegroxy.Tile.Floats.{Floats}
use tilegroxy.Tile.Bounds.{TileRequest, ok}
use tilegroxy.Layer.Provide.{Layer}
use tilegroxy.Layer.Group.{Cache, LayerGroup, find_layer, texts}
use tilegroxy.Layer.Group.Permission.{LayerAllowed, check_permission_iff}
use tilegroxy.Auth.Jwt.{
  JwtConfig, Claim, text, Token, CachedAuthResult, Libraries, TokenCache, extract_token,
  check_token_text, check_authentication, check_without_cache,
}
use tilegroxy.Auth.Jwt.Replay.{EqLaw, GeohashLaw}
use tilegroxy.Auth.Jwt.Refinement.{IsSound, check_token_text-granted}
use tilegroxy.Auth.Jwt.Expiration.{ParseLaw}
use tilegroxy.Auth.Jwt.Layers.{check_without_cache-scope}
use tilegroxy.Server.Handler.{
  Request, Settings, Auth, State, extract_and_validate_request, serve_http,
}
use tilegroxy.Server.Handler.Access.{IsUntouched, IsPermitted, serve_http-access}

-- The authentication of a JWT at a time, whose state is its cache.
unfoldable pub jwt_auth :
    {C : Type 0} (f : Floats) → Libraries f.F → TokenCache f.F C → JwtConfig → ℕ → Auth f.F C
jwt_auth f lib tokens c now = record {
  check_authentication = λ req g cache. check_authentication f lib tokens c now req.header g cache;
}

module _ {C : Type 0} (f : Floats) (lib : Libraries f.F) (tokens : TokenCache f.F C) (c : JwtConfig)
    (parse : ParseLaw lib c) (geo : GeohashLaw f lib) (eq : EqLaw f) where
  accepted_token :
      (now : ℕ) (req : Request) (cache : C)
      → IsSound f lib tokens c now cache
      → (check_authentication f lib tokens c now req.header (new_request_context f) cache).0 ≡ true
      → (token : Text) × ((extract_token c req.header ≡ some token)
          × ((r : CachedAuthResult f.F) × (check_without_cache lib c now token
                  (new_request_context f)
                ≡ (
                  some r,
                  (check_authentication f lib tokens c now req.header
                      (new_request_context f)
                      cache).1,
                ))))
  unfolding check_authentication
  accepted_token now req cache sound h = elim (Option-cases (extract_token c req.header)) [
    | inl n ↦ absurd (let z : false ≡ true = rw (n, check_authentication) at h in cc)
    | inr (token, n) ↦ (
      token,
      (
        n,
        rw (n, check_authentication)
            (check_token_text-granted f lib tokens c parse geo eq now token cache
              (check_token_text f lib tokens c now token (new_request_context f) cache).1 sound
              (rw (n, check_authentication) at h) refl),
      ),
    )
  ]

module _ {W P : Type 0} {F : Type 0} (lib : Libraries F) (c : JwtConfig) where
  -- The request has a token, of which a scope is the prefix and the name of the layer's identifier.
  pub IsScopedRequest : ℕ → Request → LayerGroup W P → Type 0
  IsScopedRequest now req lg =
      (token : Text) × ((t : Token) × ((claims : (Text → Option Claim)) × ((s : Text)
            × ((tile : TileRequest) × ((p : ℕ × Layer W P) × ((extract_token c req.header
                      ≡ some token)
                    × ((lib.parse c now token ≡ some t)
                        × ((t.claims ≡ some claims)
                            × ((claims (codes "scope") ≡ some (text s))
                                × ((extract_and_validate_request req ≡ ok tile)
                                    × ((find_layer lg.layers tile.layer_name ≡ some p)
                                        × (contains (split b' ' s) (c.scope_prefix ++ p.1.id)
                                            ≡ true))))))))))))

module _ {W P C : Type 0} (f : Floats) (lib : Libraries f.F) (tokens : TokenCache f.F C)
    (c : JwtConfig) (limited : c.layer_scope ≡ true) where
  permitted_scope :
      (now : ℕ) (req : Request) (lg : LayerGroup W P) (token : Text) (r : CachedAuthResult f.F)
      (g : Grants f.F)
      → extract_token c req.header ≡ some token
      → check_without_cache lib c now token (new_request_context f) ≡ (some r, g)
      → IsPermitted f req g lg
      → IsScopedRequest lib c now req lg
  unfolding IsPermitted IsScopedRequest LayerAllowed texts context_of new_request_context
  permitted_scope now req lg token r g n h (tile, (p, (x, (y, k)))) =
      let (t, (claims, (s, (a, (b, (d, (lim, iff))))))) =
        check_without_cache-scope lib c limited now token (new_request_context f) g r p.1.id refl
          h in
      let allowed = ((check_permission_iff f (context_of g) p.1.id tile).0 k).0 in
      (
        token,
        (
          t,
          (claims, (s, (tile, (p, (n, (a, (b, (d, (x, (y, iff.0 (allowed (ap some lim)))))))))))),
        ),
      )

  module _ (parse : ParseLaw lib c) (geo : GeohashLaw f lib) (eq : EqLaw f) where
    -- With JWT and layer scopes, on a sound cache of tokens, a request leaves the layer group, the
    -- world of the cache and the providers, the events and the successes as they are, or it carries a
    -- token that is parsed at the time, one of whose scopes is the prefix with the identifier of the
    -- layer that the request names. The parser, geohashes and floats are as for the cache of tokens.
    pub serve_http-scope :
        (sha256 : Text → List ℕ) (settings : Settings) (cache : Cache W) (now start later : ℕ)
        (req : Request) (s : State W P C)
        → IsSound f lib tokens c now s.auth
        → IsUntouched s
            (serve_http f sha256 settings (jwt_auth f lib tokens c now) cache start later req s).1
          ⊎ IsScopedRequest lib c now req s.group
    unfolding jwt_auth
    serve_http-scope sha256 settings cache now start later req s sound =
        elim (serve_http-access f sha256 settings (jwt_auth f lib tokens c now) cache start later
          req s) [
            | inl u ↦ inl u
            | inr (a, q) ↦
                (let (token, (n, (r, h))) =
                    accepted_token f lib tokens c parse geo eq now req s.auth sound a in
                  inr (permitted_scope now req s.group token r _ n h q))
          ]
