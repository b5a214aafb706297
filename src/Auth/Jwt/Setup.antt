-- ===== src/Auth/Jwt/Setup.antt =====
-- internal/authentications/jwt.go and jwks.go: the set-up of JWT. Parsing a URL and the otter and
-- JWKS caches are parameters. Messages of errors are left out.
use tilegroxy.Base.{
  ℕ, Bool, true, false, not, ◌||◌, ◌&&◌, List, [], ◌∷◌, Option, none, some, if◌then◌else◌, ◌==◌,
  Text, codes, text_eq, has_prefix, contains,
}
use tilegroxy.Auth.Jwt.{JwtConfig, JwksConfig, default_expiration, is_empty}

abbrev pub valid_algorithms : List Text
valid_algorithms =
    codes "HS256"
    ∷ (codes "HS384"
        ∷ (codes "HS512"
            ∷ (codes "RS256"
                ∷ (codes "RS384"
                    ∷ (codes "RS512"
                        ∷ (codes "ES256"
                            ∷ (codes "ES384"
                                ∷ (codes "ES512"
                                    ∷ (codes "PS256"
                                        ∷ (codes "PS384"
                                            ∷ (codes "PS512" ∷ (codes "EdDSA" ∷ []))))))))))))

-- The loop that returns at an algorithm that is not valid.
unfoldable pub all_valid : List Text → Bool
all_valid [] = true
all_valid (a ∷ algs) =
    let rest = all_valid algs in if contains valid_algorithms a then rest else false

unfoldable pub no_algorithms : List Text → Bool
no_algorithms [] = true
no_algorithms (a ∷ algs) = false

unfoldable pub resolve_algorithms : JwtConfig → Option (List Text)
unfolding all_valid no_algorithms is_empty
resolve_algorithms c =
    let algorithms = if not (is_empty c.algorithm) then c.algorithm ∷ [] else c.algorithms in
    if not (is_empty c.algorithm) && not (no_algorithms c.algorithms)
    then none
    else if no_algorithms algorithms
    then none
    else if all_valid algorithms
    then some algorithms
    else none

unfoldable pub algorithm_family : Text → Text
algorithm_family alg =
    if has_prefix alg (codes "HS")
    then codes "HS"
    else if has_prefix alg (codes "RS") || has_prefix alg (codes "PS")
    then codes "RSA"
    else if has_prefix alg (codes "ES")
    then codes "ES"
    else if text_eq alg (codes "EdDSA")
    then codes "EdDSA"
    else alg

-- The loop over algorithms[1:].
unfoldable pub same_family : Text → List Text → Bool
unfolding algorithm_family
same_family family [] = true
same_family family (a ∷ algs) =
    let rest = same_family family algs in
    if not (text_eq (algorithm_family a) family) then false else rest

unfoldable pub one_family : List Text → Bool
unfolding same_family
one_family [] = true
one_family (a ∷ algs) = same_family (algorithm_family a) algs

-- The loop that returns at a symmetric algorithm.
unfoldable pub no_symmetric : List Text → Bool
no_symmetric [] = true
no_symmetric (a ∷ algs) =
    let rest = no_symmetric algs in if has_prefix a (codes "HS") then false else rest

-- A parsed URL's scheme and host.
pub record Url : Type 0 where
  pub scheme : Text
  pub host : Text

-- Calls of the libraries that set up: whether the JWKS cache is created, and whether it registers the
-- URL and refreshes it with intervals, and whether a cache of a size is built.
pub record Services : Type 0 where
  pub url_parse : Text → Option Url
  pub new_cache : Bool
  pub register : JwksConfig → Bool
  pub refresh : JwksConfig → Bool
  pub build : ℕ → Bool

unfoldable pub validate_url : Services → Text → Bool
unfolding is_empty
validate_url lib raw = elim (lib.url_parse raw) [
  | none ↦ false
  | some u ↦
      if is_empty raw
      then false
      else if is_empty u.host
      then false
      else text_eq u.scheme (codes "https")
]

unfoldable pub or_default : ℕ → ℕ → ℕ
or_default d n = if n == 0 then d else n

unfoldable pub jwks_defaults : JwksConfig → JwksConfig
unfolding or_default
jwks_defaults c = record c {
  refresh_interval = or_default 900 c.refresh_interval;
  refresh_min_interval = or_default 60 c.refresh_min_interval;
  request_timeout = or_default 10 c.request_timeout;
}

-- newKeySet: whether there is no error.
unfoldable pub new_key_set : Services → JwksConfig → Bool
unfolding jwks_defaults
new_key_set lib c =
    let d = jwks_defaults c in
    if not lib.new_cache
    then false
    else if not (lib.register d)
    then d.allow_startup_failure
    else if lib.refresh d
    then true
    else d.allow_startup_failure

unfoldable pub text_default : Text → Text → Text
unfolding is_empty
text_default d s = if is_empty s then d else s

unfoldable pub with_defaults : List Text → JwtConfig → JwtConfig
unfolding or_default text_default
with_defaults algorithms c = record c {
  algorithms = algorithms;
  header_name = text_default (codes "Authorization") c.header_name;
  max_expiration = or_default default_expiration c.max_expiration;
  user_id = text_default (codes "sub") c.user_id;
}

-- The checks of the key, or of the key set.
unfoldable pub check_keys : Services → JwtConfig → List Text → Bool
unfolding one_family no_symmetric validate_url new_key_set is_empty
check_keys lib c algorithms = elim c.jwks [
  | none ↦ if is_empty c.key then false else one_family algorithms
  | some j ↦
      if not (is_empty c.key)
      then false
      else if not (validate_url lib j.url)
      then false
      else if not (no_symmetric algorithms)
      then false
      else new_key_set lib j
]

-- JWTRegistration.Initialize, with `none` for an error
unfoldable pub initialize : Services → JwtConfig → Option JwtConfig
unfolding resolve_algorithms check_keys with_defaults
initialize lib c = elim (resolve_algorithms c) [
  | none ↦ none
  | some algorithms ↦
      (let d = with_defaults algorithms c in
        if not (check_keys lib c algorithms)
        then none
        else if c.cache_size == 0
        then some d
        else if lib.build c.cache_size
        then some d
        else none)
]
