-- ===== src/Auth/Jwt/Confusion/Tests.antt =====
-- A static key for two algorithms, and a remote set of one key.
use tilegroxy.Base.{ℕ, true, false, [], ◌∷◌, some, codes}
use tilegroxy.Auth.Jwt.{JwtConfig, JwksConfig}
use tilegroxy.Auth.Jwt.Tests.{config}
use tilegroxy.Auth.Jwt.Setup.{Services}
use tilegroxy.Auth.Jwt.Keys.{Key, KeySets}

abbrev services : Services
services = record {
  url_parse = λ u. some (record { scheme = codes "https"; host = codes "id.example" });
  new_cache = true;
  register = λ c. true;
  refresh = λ c. true;
  build = λ n. true;
}

abbrev static_key : JwtConfig
static_key = record config { algorithms = codes "RS256" ∷ (codes "PS512" ∷ []) }

abbrev remote : JwksConfig
remote = record {
  url = codes "https://id.example/keys";
  refresh_interval = 900;
  refresh_min_interval = 60;
  request_timeout = 10;
  allow_startup_failure = false;
}

abbrev remote_keys : JwtConfig
remote_keys = record static_key { key = []; jwks = some remote }

abbrev key_a : Key ℕ
key_a = record { octet_seq = false; algorithm = some (codes "RS256"); public = some 7 }

-- A set is one key, with any identifier.
abbrev one_key : KeySets (Key ℕ) ℕ
one_key = record { lookup_key_id = λ kid set. some set; len = λ set. 1; key_at = λ n set. some set }
